-- ===== src/Search/Examples.antt =====
-- A backend that keeps failing, and a worker that runs out of work.
use localmail.Common.{
  ◌+◌, ◌≡◌, refl, some, [], ◌∷◌, ◌++◌, arith, if◌then◌else◌, ◌==◌, ℕ, ◌≤◌, String, none, List,
}
use localmail.Search.Failures.{
  note_all-reported, note_all, note_failure, ReportedFailure, reported, IsSpaced,
}
use localmail.Search.Chunks.{windows, split_by_tokens}
use localmail.Search.PageCache.{
  Entry, put, get, get-put, entry_of, move_to_end, assign, evict, invalidate,
}
use localmail.Search.Sweep.{
  SweepOutcome, sweep_sleep_seconds, streak_after, sweep_sleep_seconds-streak_after, made_progress,
  next_idle_streak,
}
use localmail.Common.Int.{pos}
use localmail.Common.Lists.{length}
use localmail.Common.Table.{select, find, delete, update}

program : Unit {0}
unfolding select find delete update windows split_by_tokens move_to_end assign evict put get
    invalidate note_failure note_all made_progress next_idle_streak sweep_sleep_seconds streak_after
program = tt

abbrev first : ReportedFailure
first = record { exc_name = "Timeout"; reported_at = 0; since_report = 0 }

note_all-reported_example :
    (reported (note_all first (5 ∷ 9 ∷ 12 ∷ 13 ∷ []) (pos 10)).1
        + (note_all first (5 ∷ 9 ∷ 12 ∷ 13 ∷ []) (pos 10)).0.since_report
      ≡ 4)
    × IsSpaced 10 0 ((12, 2) ∷ [])
unfolding program
note_all-reported_example = note_all-reported first (5 ∷ 9 ∷ 12 ∷ 13 ∷ []) 10 (omega arith)

-- A failure of another type names none of those that were swallowed before it, and starts its own
-- count.
type_changes :
    (note_failure (some (record first { since_report = 5 })) "Refused" 3 (pos 10)).suppressed
      + (note_failure
          (some (record first { since_report = 5 }))
          "Refused"
          3
          (pos 10)).record_after.since_report
    ≡ 0
unfolding program
type_changes = refl

abbrev busy : SweepOutcome
busy = record { embedded = 0; lang_visited = 200 }

abbrev idle : SweepOutcome
idle = record { embedded = 0; lang_visited = 0 }

sweep_sleep_seconds-streak_after_example :
    sweep_sleep_seconds (streak_after (pos 6) 4 ((idle ∷ []) ++ busy ∷ idle ∷ idle ∷ [])) 5000
    ≡ 15000
unfolding program
sweep_sleep_seconds-streak_after_example =
    sweep_sleep_seconds-streak_after (pos 6) 4 5000 (idle ∷ []) (idle ∷ idle ∷ []) busy refl
      (refl, (refl, tt))

abbrev text_tokens : List ℕ
text_tokens = 1 ∷ 2 ∷ 3 ∷ 4 ∷ 5 ∷ []

abbrev encode : String → List ℕ
encode s = text_tokens

abbrev decode : List ℕ → String
decode w = if length w == 3 then "three" else "fewer"

-- Two windows of three tokens, of which one is shared.
two_windows : windows 5 3 2 text_tokens ≡ (1 ∷ 2 ∷ 3 ∷ []) ∷ (3 ∷ 4 ∷ 5 ∷ []) ∷ []
unfolding program
two_windows = refl

abbrev cached : List (Entry ℕ)
cached = entry_of "a" 1 10 ∷ entry_of "b" 2 20 ∷ []

-- The oldest entry goes.
evicts : put 2 5 "c" 30 cached ≡ entry_of "b" 2 20 ∷ entry_of "c" 5 30 ∷ []
unfolding program
evicts = refl

get-put_example :
    (length (put 2 5 "c" 30 cached) ≤ 2)
    × ((get (pos 10) 9 "c" (put 2 5 "c" 30 cached)).1 ≡ some 30)
    × ((get (pos 10) 16 "c" (get (pos 10) 9 "c" (put 2 5 "c" 30 cached)).0).1 ≡ none)
unfolding program
get-put_example = get-put 2 5 9 16 (pos 10) "c" 30 cached (omega arith)
