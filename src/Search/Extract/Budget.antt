-- ===== src/Search/Extract/Budget.antt =====
-- How often the worker of src/localmail/search/extract_worker.py can still try a blob.
use localmail.Common.{
  ◌==◌, Bool-cases, ℕ, ◌+◌, ◌-◌, ◌≡◌, refl, inl, inr, Bool, true, false, ◌||◌, List, arith, sym, ap,
  ◌∙◌, [], ◌∷◌, suc, ◌≤◌,
}
use localmail.Search.Extract.{
  Attempts, ExtractConfig, insert_attachment_text, upsert_attempts, tries_of, ExtractDb,
  AttachmentText, exists, find, text_of_sha, attempts_of_sha, one_more, record_failure_safely,
  record_transient_safely, clear_transient,
}
use localmail.Common.Table.{exists, find, insert, update, delete}
use localmail.Common.Table.Laws.{find-append, find-update_other, exists-append, find-delete_other}
use localmail.Search.Extract.Queue.{as_int}

-- What is left of both retry budgets, with one more for the first try; nothing, once the blob has
-- its row.
abbrev pub budget_of : ExtractConfig → Bool → ℕ → ℕ → ℕ
budget_of cfg true f tr = 0
budget_of cfg false f tr = (suc cfg.max_retries - f) + (suc cfg.max_transient_retries - tr)

abbrev pub has_text : ExtractDb → ℕ → Bool
has_text db sha = exists (text_of_sha sha) db.texts

abbrev pub failed_tries : ExtractDb → ℕ → ℕ
failed_tries db sha = tries_of (find (attempts_of_sha sha) db.failed)

abbrev pub transient_tries : ExtractDb → ℕ → ℕ
transient_tries db sha = tries_of (find (attempts_of_sha sha) db.transient)

unfoldable pub budget : ExtractConfig → ExtractDb → ℕ → ℕ
budget cfg db sha = budget_of cfg (has_text db sha) (failed_tries db sha) (transient_tries db sha)

-- A row for the blob that is asked about, or for another.
texts-insert :
    (s : ℕ) (r : AttachmentText) (db : ExtractDb)
    → exists (text_of_sha s) (insert_attachment_text r db).texts
      ≡ exists (text_of_sha s) db.texts || r.sha256 == s
unfolding insert_attachment_text find
texts-insert s r db = elim (Bool-cases (exists (text_of_sha r.sha256) db.texts)) [
  | inl e ↦ rw e (kept (r.sha256 == s) refl e)
  | inr e ↦ rw e (ground (arith, find-append (text_of_sha s) db.texts (r ∷ [])))
]
  where
    kept :
        (b : Bool)
        → (r.sha256 == s) ≡ b
        → exists (text_of_sha r.sha256) db.texts ≡ true
        → exists (text_of_sha s) db.texts ≡ exists (text_of_sha s) db.texts || b
    kept true k e =
        let same : r.sha256 ≡ s = ground arith in
        let there : exists (text_of_sha s) db.texts ≡ true =
          sym (ap (λ y. exists (text_of_sha y) db.texts) same) ∙ e in
        ground arith
    kept false k e = ground arith

tries-update :
    (s sha : ℕ) (rows : List Attempts)
    → exists (attempts_of_sha sha) rows ≡ true
    → tries_of (find (attempts_of_sha s) (update (attempts_of_sha sha) one_more rows))
      ≡ tries_of (find (attempts_of_sha s) rows) + as_int (sha == s)
unfolding find update
tries-update s sha [] h = absurd (cc h)
tries-update s sha (r ∷ rows) h = elim (Bool-cases (r.sha256 == s)) [
  | inl e ↦ elim (Bool-cases (r.sha256 == sha)) [
    | inl d ↦ rw (d, e) (ground arith)
    | inr d ↦ rw (d, e) (ground arith)
  ]
  | inr e ↦ elim (Bool-cases (r.sha256 == sha)) [
    | inl d ↦ rw (d, e) (others (sha == s) refl (ground arith))
    | inr d ↦ rw (d, e) (tries-update s sha rows (ground (arith, h, d)))
  ]
]
  where
    others :
        (b : Bool)
        → (sha == s) ≡ b
        → (sha == s) ≡ false
        → tries_of (find (attempts_of_sha s) (update (attempts_of_sha sha) one_more rows))
          ≡ tries_of (find (attempts_of_sha s) rows) + as_int (sha == s)
    others b k n = rw n (
        ap tries_of (
          find-update_other (attempts_of_sha s) (attempts_of_sha sha) one_more rows (λ r. refl)
            (λ r j. ground arith))
        ∙ omega arith)

tries-insert :
    (s sha : ℕ) (rows : List Attempts)
    → exists (attempts_of_sha sha) rows ≡ false
    → tries_of (find (attempts_of_sha s) (insert (record { sha256 = sha; tries = 1 }) rows))
      ≡ tries_of (find (attempts_of_sha s) rows) + as_int (sha == s)
unfolding find
tries-insert s sha [] h = elim (Bool-cases (sha == s)) [ inl e ↦ rw e refl | inr e ↦ rw e refl ]
tries-insert s sha (r ∷ rows) h =
    let rest : exists (attempts_of_sha sha) rows ≡ false = ground (arith, h) in
    let other : (r.sha256 == sha) ≡ false = ground (arith, h) in
    elim (Bool-cases (r.sha256 == s)) [
      | inl e ↦ let n : (sha == s) ≡ false = ground arith in rw (e, n) (omega arith)
      | inr e ↦ rw e (tries-insert s sha rows rest)
    ]

pub upsert-tries :
    (s sha : ℕ) (rows : List Attempts)
    → tries_of (find (attempts_of_sha s) (upsert_attempts sha rows))
      ≡ tries_of (find (attempts_of_sha s) rows) + as_int (sha == s)
unfolding upsert_attempts
upsert-tries s sha rows = elim (Bool-cases (exists (attempts_of_sha sha) rows)) [
  | inl e ↦ rw e (tries-update s sha rows e)
  | inr e ↦ rw e (tries-insert s sha rows e)
]

-- No more than before, where nothing is taken back.
budget_of_le :
    (cfg : ExtractConfig) (t t' : Bool) (f f' x x' : ℕ)
    → (t ≡ true → t' ≡ true)
    → f ≤ f'
    → x ≤ x'
    → budget_of cfg t' f' x' ≤ budget_of cfg t f x
budget_of_le cfg true false f f' x x' h k l = absurd (cc (h refl))
budget_of_le cfg true true f f' x x' h k l = omega arith
budget_of_le cfg false true f f' x x' h k l = omega arith
budget_of_le cfg false false f f' x x' h k l = omega arith

pub insert-budget :
    (cfg : ExtractConfig) (r : AttachmentText) (db : ExtractDb) (s : ℕ)
    → budget cfg (insert_attachment_text r db) s ≤ budget cfg db s
unfolding budget insert_attachment_text
insert-budget cfg r db s = elim (Bool-cases (has_text db r.sha256)) [
  | inl e ↦ rw e (omega arith)
  | inr e ↦ rw e (
      budget_of_le cfg (has_text db s) (exists (text_of_sha s) (insert r db.texts))
        (failed_tries db s) (failed_tries db s) (transient_tries db s) (transient_tries db s)
        (exists-append (text_of_sha s) db.texts (r ∷ [])) (omega arith) (omega arith))
]

pub failure-budget :
    (cfg : ExtractConfig) (w : Bool) (sha : ℕ) (db : ExtractDb) (s : ℕ)
    → budget cfg (record_failure_safely w sha db) s ≤ budget cfg db s
unfolding budget record_failure_safely
failure-budget cfg false sha db s = omega arith
failure-budget cfg true sha db s =
    budget_of_le cfg (has_text db s) (has_text db s) (failed_tries db s)
      (tries_of (find (attempts_of_sha s) (upsert_attempts sha db.failed))) (transient_tries db s)
      (transient_tries db s) (λ e. e) (omega (arith, upsert-tries s sha db.failed)) (omega arith)

pub transient-budget :
    (cfg : ExtractConfig) (w : Bool) (sha : ℕ) (db : ExtractDb) (s : ℕ)
    → budget cfg (record_transient_safely w sha db) s ≤ budget cfg db s
unfolding budget record_transient_safely
transient-budget cfg false sha db s = omega arith
transient-budget cfg true sha db s =
    budget_of_le cfg (has_text db s) (has_text db s) (failed_tries db s) (failed_tries db s)
      (transient_tries db s)
      (tries_of (find (attempts_of_sha s) (upsert_attempts sha db.transient))) (λ e. e)
      (omega arith) (omega (arith, upsert-tries s sha db.transient))

pub insert-has_text :
    (r : AttachmentText) (db : ExtractDb) → has_text (insert_attachment_text r db) r.sha256 ≡ true
insert-has_text r db =
    let same : (r.sha256 == r.sha256) ≡ true = ground arith in
    texts-insert r.sha256 r db ∙ ground (arith, same)

-- A blob with its row has no budget, whatever the retry tables say.
pub has_text-budget :
    (cfg : ExtractConfig) (db : ExtractDb) (s : ℕ) → has_text db s ≡ true → budget cfg db s ≡ 0
unfolding budget
has_text-budget cfg db s h = rw h refl

pub clear-budget :
    (cfg : ExtractConfig) (sha : ℕ) (db : ExtractDb) (s : ℕ)
    → has_text db sha ≡ true
    → budget cfg (clear_transient sha db) s ≤ budget cfg db s
unfolding budget clear_transient
clear-budget cfg sha db s h = elim (Bool-cases (sha == s)) [
  | inl e ↦
      let same : sha ≡ s = ground arith in
      let there : has_text db s ≡ true = sym (ap (has_text db) same) ∙ h in rw there (omega arith)
  | inr e ↦
      let other : find (attempts_of_sha s) (delete (attempts_of_sha sha) db.transient)
          ≡ find (attempts_of_sha s) db.transient =
        find-delete_other (attempts_of_sha s) (attempts_of_sha sha) db.transient
          (λ r k. ground arith) in
      rw other (omega arith)
]
