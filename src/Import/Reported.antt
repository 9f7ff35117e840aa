-- ===== src/Import/Reported.antt =====
-- What a job reports of its import, against what it leaves committed.
use localmail.Common.Table.{count}
use mathlib.Core.Path.{subst}
use localmail.Import.{
  ran_out, stopped, raised, completed, ImportConfig, JobRow, Runner, Entry, Ending, outcome_row,
  close_import, commit_import, import_messages, Event, arrives, checkpoint_import, open_mailbox,
  take_message, breaks, mark_terminal, is_terminal, run_import, pending, take, start_import,
}
use localmail.Common.{
  ℕ, ◌≡◌, sym, ap, ◌∙◌, List, [], ◌++◌, if◌then◌else◌, Bool, true, false, Option, none, some, ◌∷◌,
  ltb, ◌≤◌, refl, ◌||◌, arith,
}
use localmail.Import.Log.{
  IsTallied, Tallies, mailboxes, names, HasSettled, open_mailbox-IsTallied, checkpoint-IsTallied,
  take_message-HasSettled,
}
use localmail.Query.Tokens.Whole.{append_assoc, append-nil, append-snoc}
use localmail.Common.Lists.{take}

module _ (cfg : ImportConfig) (reserved : ℕ → ℕ) where
  -- The counters of the terminal row are those of what is committed: the messages of the source in
  -- their order up to some point, and all of them where the job is completed.
  abbrev pub IsReport : List ℕ → JobRow → List Entry → Type 0
  IsReport source row log =
      Tallies row.counters log
      × ((rest : List ℕ) × (source ≡ mailboxes log ++ rest))
      × (row.status ≡ completed → source ≡ mailboxes log)

  raised-IsReport :
      (seen others : List ℕ) (r : Runner)
      → IsTallied seen r
      → IsReport (seen ++ others) (outcome_row cfg reserved (close_import r) raised) r.committed_log
  raised-IsReport seen others r (t, k, m, (rest, p)) = (
    k,
    (rest ++ others, ap (◌++ others) p ∙ append_assoc (mailboxes r.committed_log) rest others),
    λ e. absurd (cc e),
  )

  abbrev IsReported : List ℕ → Runner × Ending → Type 0
  IsReported source (r, ending) =
      IsReport source (outcome_row cfg reserved r ending) r.committed_log

  stopped-IsReport :
      (seen others : List ℕ) (r : Runner)
      → IsTallied seen r
      → IsReport (seen ++ others) (outcome_row cfg reserved (commit_import r) stopped) r.log
  stopped-IsReport seen others r (t, k, m, p) =
      (t, (others, ap (◌++ others) (sym m)), λ e. absurd (cc e))

  ran_out-IsReport :
      (seen : List ℕ) (r : Runner)
      → IsTallied seen r
      → IsReport (seen ++ []) (outcome_row cfg reserved (commit_import r) ran_out) r.log
  ran_out-IsReport seen r (t, k, m, p) =
      (t, ([], ap (◌++ []) (sym m)), λ e. append-nil seen ∙ sym m)

  -- Seen and one more, before the others.
  shifted :
      (seen others : List ℕ) (name : ℕ) (result : Runner × Ending)
      → IsReported ((seen ++ name ∷ []) ++ others) result
      → IsReported (seen ++ name ∷ others) result
  shifted seen others name result h =
      subst (λ source. IsReported source result) (append-snoc seen others name) h

  goes_on_or_stops :
      (seen others : List ℕ) (name : ℕ) (settled : Runner × Bool) (rest : Runner × Ending)
      → IsTallied (seen ++ name ∷ []) settled.0
      → IsReported ((seen ++ name ∷ []) ++ others) rest
      → IsReported
          (seen ++ name ∷ others)
          (if settled.1 then rest else (commit_import settled.0, stopped))
  goes_on_or_stops seen others name (r, true) rest h k = shifted seen others name rest k
  goes_on_or_stops seen others name (r, false) rest h k =
      shifted seen others name (commit_import r, stopped)
        (stopped-IsReport (seen ++ name ∷ []) others r h)

  import_messages-IsReported :
      (events : List Event) (seen : List ℕ) (r : Runner)
      → IsTallied seen r
      → IsReported (seen ++ names events) (import_messages cfg reserved events r)
  unfolding import_messages
  import_messages-IsReported [] seen r h = ran_out-IsReport seen r h
  import_messages-IsReported (breaks ∷ events) seen r h = raised-IsReport seen (names events) r h
  import_messages-IsReported (arrives name outcome now cancel ∷ events) seen r h =
      after_message (take_message reserved name outcome r)
        (take_message-HasSettled reserved seen name outcome r h)
        (λ settled k.
          import_messages-IsReported events (seen ++ name ∷ [])
            (checkpoint_import cfg now cancel settled).0
            (checkpoint-IsTallied cfg now cancel (seen ++ name ∷ []) settled k))
    where
      after_message :
          (o : Option Runner)
          → HasSettled seen name o
          → ((settled : Runner)
              → IsTallied (seen ++ name ∷ []) settled
              → IsReported ((seen ++ name ∷ []) ++ names events) (
                  import_messages cfg reserved events (checkpoint_import cfg now cancel settled).0))
          → IsReported (seen ++ name ∷ names events) (elim o [
            | none ↦ (close_import (open_mailbox reserved name r), raised)
            | some settled ↦
                let (r', goes_on) = checkpoint_import cfg now cancel settled in
                let rest = import_messages cfg reserved events r' in
                if goes_on then rest else (commit_import r', stopped)
          ])
      after_message none s k =
          raised-IsReport seen (name ∷ names events) (open_mailbox reserved name r)
            (open_mailbox-IsTallied reserved name seen r h)
      after_message (some settled) s k =
          goes_on_or_stops seen (names events) name (checkpoint_import cfg now cancel settled)
            (import_messages cfg reserved events (checkpoint_import cfg now cancel settled).0)
            (checkpoint-IsTallied cfg now cancel (seen ++ name ∷ []) settled s) (k settled s)

  abbrev pub some_succeeds : List Bool → Bool
  some_succeeds [] = false
  some_succeeds (b ∷ attempts) = b || some_succeeds attempts

  mark_terminal-written :
      (attempts : List Bool) (new : JobRow)
      → some_succeeds attempts ≡ true
      → mark_terminal cfg reserved attempts new ≡ some new
  unfolding mark_terminal
  mark_terminal-written [] new h = absurd (cc h)
  mark_terminal-written (true ∷ attempts) new h = refl
  mark_terminal-written (false ∷ attempts) new h = mark_terminal-written attempts new h

  ends_terminal :
      (r : Runner) (ending : Ending) → is_terminal (outcome_row cfg reserved r ending).status ≡ true
  ends_terminal r ran_out = refl
  ends_terminal r stopped = refl
  ends_terminal r raised = refl

  -- Whatever a source brings, a pending job whose worker connects, and one of whose attempts to write
  -- its end succeeds, ends in a terminal status, with the counters of exactly the messages that its
  -- import has committed: those of the source in their order up to some point, each of them stored,
  -- linked, or refused, and all of them, where the job is completed. A refused one has left a row of
  -- failed_messages, or nothing, where that row could not be written. A failed job counts nothing that
  -- was rolled back.
  pub run_import-IsReport :
      (now : ℕ) (events : List Event) (attempts : List Bool) (row : JobRow)
      → 1 ≤ cfg.terminal_write_attempts
      → row.status ≡ pending
      → some_succeeds (take cfg.terminal_write_attempts attempts) ≡ true
      → (new : JobRow) × (log : List Entry) × (run_import cfg reserved true now events attempts row
          ≡ (some new, log))
        × (is_terminal new.status ≡ true)
        × IsReport (names events) new log
  unfolding run_import count
  run_import-IsReport now events attempts row n p w =
      let (r, ending) = import_messages cfg reserved events (start_import cfg reserved now row) in
      let new = outcome_row cfg reserved r ending in
      let enough : ltb cfg.terminal_write_attempts 1 ≡ false = ground arith in
      (
        new,
        r.committed_log,
        rw (enough, p, mark_terminal-written (take cfg.terminal_write_attempts attempts) new w)
            refl,
        ends_terminal r ending,
        import_messages-IsReported events [] (start_import cfg reserved now row)
            ((refl, refl, refl, refl), (refl, refl, refl, refl), refl, ([], refl)),
      )
