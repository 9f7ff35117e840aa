-- ===== src/Api/Blobs/Stream.antt =====
-- The loop that streams a part of a file: src/localmail/serve/routes/blob_response.py.
use localmail.Common.{
  ltb, min, ◌-◌, ◌≤◌, ℕ, suc, zero, ◌≡◌, refl, ap, ◌∙◌, sym, true, false, inl, inr, Bool-cases,
  List, [], ◌∷◌, ◌++◌, arith,
}
use localmail.Common.Lists.{take, drop, length, length-drop, length-take, take_all}
use localmail.Api.Blobs.{Streamed, stream_from, stream_slice, on_chunk, chunk_size}

take-append :
    (n k : ℕ) (xs : List ℕ)
    → n ≤ k
    → take n xs ++ take (k - length (take n xs)) (drop n xs) ≡ take k xs
take-append zero k xs le = let e : k - 0 ≡ k = omega arith in ap (λ i. take i xs) e
take-append (suc n) k [] le = take_all (k - 0) [] (omega arith) ∙ sym (take_all k [] (omega arith))
take-append (suc n) zero (x ∷ xs) le = absurd (omega arith)
take-append (suc n) (suc k) (x ∷ xs) le =
    let e : suc k - suc (length (take n xs)) ≡ k - length (take n xs) = omega arith in
    ap (x ∷◌) (ap (λ i. take n xs ++ take i (drop n xs)) e ∙ take-append n k xs (omega arith))

short_drop :
    (n k : ℕ) (xs : List ℕ)
    → n ≤ k
    → ltb (length (drop n xs)) (k - length (take n xs)) ≡ ltb (length xs) k
short_drop n k xs le = ground (arith, length-drop n xs, length-take n xs)

-- The next bytes, as far as there are enough, and whether there are fewer.
abbrev pub next_bytes : ℕ → List ℕ → Streamed
next_bytes n unread = (take n unread, ltb (length unread) n)

-- The turn of a read of at most `n` bytes, after which the rest is right.
on_chunk-next_bytes :
    (n left : ℕ) (unread : List ℕ) (rest : Streamed)
    → 1 ≤ n
    → n ≤ left
    → (1 ≤ length (take n unread)
        → rest ≡ next_bytes (left - length (take n unread)) (drop n unread))
    → on_chunk left (take n unread) rest ≡ next_bytes left unread
on_chunk-next_bytes zero left unread rest positive le e = absurd (omega arith)
on_chunk-next_bytes (suc n) zero unread rest positive le e = absurd (omega arith)
on_chunk-next_bytes (suc n) (suc left) [] rest positive le e =
    let some_left : ltb 0 (suc left) ≡ true = ground arith in rw some_left refl
on_chunk-next_bytes (suc n) (suc left) (x ∷ xs) rest positive le e =
    let some_left : ltb 0 (suc left) ≡ true = ground arith in
    let body = take-append (suc n) (suc left) (x ∷ xs) le in
    let short = short_drop (suc n) (suc left) (x ∷ xs) le in
    rw (some_left, e (omega arith)) (λ i. (body i, short i))

nothing_left :
    (left : ℕ) (unread : List ℕ) (sent : Streamed)
    → left ≡ 0
    → sent ≡ ([], false)
    → sent ≡ next_bytes left unread
nothing_left zero unread sent e k =
    let none_short : false ≡ ltb (length unread) 0 = ground arith in k ∙ (λ i. ([], none_short i))
nothing_left (suc left) unread sent e k = absurd (omega arith)

-- Fuel for a byte a read is enough.
stream_from-next_bytes :
    (fuel left : ℕ) (unread : List ℕ)
    → left ≤ fuel
    → stream_from fuel unread left ≡ next_bytes left unread
unfolding stream_from
stream_from-next_bytes zero left unread le = nothing_left left unread ([], false) (omega arith) refl
stream_from-next_bytes (suc fuel) left unread le = elim (Bool-cases (ltb 0 left)) [
  | inl some_left ↦
      let n = min chunk_size left in
      on_chunk-next_bytes n left unread
        (stream_from fuel (drop n unread) (left - length (take n unread))) (ground arith)
        (omega arith)
        (λ read.
          stream_from-next_bytes fuel (left - length (take n unread)) (drop n unread) (omega arith))
  | inr none_left ↦
      let n = min chunk_size left in
      nothing_left left unread
        (on_chunk left (take n unread)
          (stream_from fuel (drop n unread) (left - length (take n unread))))
        (ground arith) (rw none_left refl)
]

-- What is streamed of a slice is its bytes, as far as the file has them, and a truncation is logged
-- exactly where it has fewer.
pub stream_slice-next_bytes :
    (file : List ℕ) (start n : ℕ) → stream_slice file start n ≡ next_bytes n (drop start file)
unfolding stream_slice
stream_slice-next_bytes file start n = stream_from-next_bytes n n (drop start file) (omega arith)
