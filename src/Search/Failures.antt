-- ===== src/Search/Failures.antt =====
-- src/localmail/search/failure_pacing.py. Readings of the clock and intervals are in milliseconds.
use text.Mathlib.TextPositions.{eq_refl}
use localmail.Common.{
  ℕ, Bool-cases, if◌then◌else◌, str_eq, ◌+◌, ◌≤◌, ◌<◌, String, ◌≡◌, refl, inl, inr, Bool, true,
  false, not, ◌||◌, Option, none, some, List, [], ◌∷◌, arith,
}
use localmail.Common.Int.{ℤ, le_zero, pos, diff_ge}
use localmail.Common.Lists.{length}

pub record ReportedFailure : Type 0 where
  pub exc_name : String
  pub reported_at : ℕ
  pub since_report : ℕ

pub record FailureReport : Type 0 where
  pub record_after : ReportedFailure
  pub log_it : Bool
  pub suppressed : ℕ

abbrev pub fresh_report : String → ℕ → ℕ → FailureReport
fresh_report exc_name now suppressed = record {
  record_after = record { exc_name = exc_name; reported_at = now; since_report = 0 };
  log_it = true;
  suppressed = suppressed;
}

abbrev pub is_due : ReportedFailure → ℕ → ℤ → Bool
is_due prev now interval = le_zero interval || diff_ge now prev.reported_at interval

-- A failure of the type on record.
abbrev pub note_again : ReportedFailure → String → ℕ → ℤ → FailureReport
note_again prev exc_name now interval =
    if is_due prev now interval then fresh_report exc_name now prev.since_report else record {
      record_after = record prev { since_report = prev.since_report + 1 };
      log_it = false;
      suppressed = 0;
    }

unfoldable pub note_failure : Option ReportedFailure → String → ℕ → ℤ → FailureReport
note_failure none exc_name now interval = fresh_report exc_name now 0
note_failure (some prev) exc_name now interval =
    if not (str_eq prev.exc_name exc_name)
    then fresh_report exc_name now 0
    else note_again prev exc_name now interval

-- The failures of one type at the given moments, folded into a record as the worker does: the
-- record that is left, and the moments of the reports, each with the count that it names.
unfoldable pub note_all : ReportedFailure → List ℕ → ℤ → ReportedFailure × List (ℕ × ℕ)
note_all prev [] interval = (prev, [])
note_all prev (now ∷ moments) interval =
    let report = note_failure (some prev) prev.exc_name now interval in
    let (last, reports) = note_all report.record_after moments interval in
    (last, if report.log_it then (now, report.suppressed) ∷ reports else reports)

-- The failures that the reports stand for: each for itself and for those that it names.
abbrev pub reported : List (ℕ × ℕ) → ℕ
reported [] = 0
reported ((now, suppressed) ∷ reports) = suppressed + 1 + reported reports

-- Each report comes at least an interval after the one before.
abbrev pub IsSpaced : ℕ → ℕ → List (ℕ × ℕ) → Type 0
IsSpaced interval last [] = Unit
IsSpaced interval last ((now, suppressed) ∷ reports) =
    (last + interval ≤ now) × IsSpaced interval now reports

same_type :
    (prev : ReportedFailure) (now : ℕ) (interval : ℤ)
    → note_failure (some prev) prev.exc_name now interval
      ≡ note_again prev prev.exc_name now interval
unfolding note_failure
same_type prev now interval = rw (eq_refl prev.exc_name) refl

-- While the type of the failure stays the same, no failure is lost from the reports: those that are
-- reported or named by a report, and those still counted in the record, are all that happened since
-- the record began. The reports are at least an interval apart. The interval is positive.
pub note_all-reported :
    (prev : ReportedFailure) (moments : List ℕ) (interval : ℕ)
    → 0 < interval
    → (reported (note_all prev moments (pos interval)).1
          + (note_all prev moments (pos interval)).0.since_report
        ≡ prev.since_report + length moments)
      × IsSpaced interval prev.reported_at (note_all prev moments (pos interval)).1
unfolding note_all
note_all-reported prev [] interval positive = (omega arith, tt)
note_all-reported prev (now ∷ moments) interval positive =
    elim (Bool-cases (is_due prev now (pos interval))) [
      | inl due ↦
          let prev' = (fresh_report prev.exc_name now prev.since_report).record_after in
          let (counted, spaced) = note_all-reported prev' moments interval positive in
          rw (same_type prev now (pos interval), due)
            (omega (arith, counted), (ground (arith, due), spaced))
      | inr early ↦
          let prev' = record prev { since_report = prev.since_report + 1 } in
          let (counted, spaced) = note_all-reported prev' moments interval positive in
          rw (same_type prev now (pos interval), early) (omega (arith, counted), spaced)
    ]
