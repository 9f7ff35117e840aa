-- ===== src/Api/Cursors/Browse.antt =====
-- Cursors of the message list, read back: src/localmail/api/browse_cursor.py.
use localmail.Api.Cursors.{
  decoded, Text, Library, strip_right, split_on, parse_nonneg_int, is_digit, all, repeat_char,
  length, decimal, is_empty, decode_browse_cursor, padded, of_parts, payload, encode_browse_cursor,
}
use localmail.Common.{
  Bool-cases, ◌==◌, ℕ, zero, suc, ◌+◌, ◌%◌, ◌<◌, ◌≡◌, refl, sym, ap, ◌∙◌, inl, inr, true, false,
  not, Option, none, some, [], ◌∷◌, ◌++◌, arith,
}
use localmail.Query.Text.{Text, strip_right, is_digit, all, is_empty}
use localmail.Common.Lists.{length}
use localmail.Api.Filters.Decimal.{IsBigint, decimal-is_digit, decimal_fits, decimal-decimal_from}
use localmail.Api.Filters.{decimal}
use localmail.Api.Filters.Whole.{decimal_filled, all_weaker}

abbrev pub Without : ℕ → Text → Type 0
Without c s = all (λ d. not (d == c)) s ≡ true

-- What base64 and the ISO form of a moment promise: each is read back, the one is padded by less than
-- four `=` to a multiple of four, the other has no bar.
pub record IsLibrary (lib : Library) : Type 0 where
  pub b64_reads : (t : Text) → lib.b64decode (lib.b64encode t) ≡ some t
  pub b64_padded :
      (t : Text)
      → (body : Text) × (k : ℕ) × (lib.b64encode t ≡ body ++ repeat_char k b'=')
        × (k < 4)
        × ((length body + k) % 4 ≡ 0)
        × Without b'=' body
        × (is_empty t ≡ false → is_empty body ≡ false)
  pub iso_reads : (t : ℕ) → lib.fromisoformat (lib.isoformat t) ≡ some t
  pub iso_plain : (t : ℕ) → Without b'|' (lib.isoformat t)

strip_right-repeat_char : (k : ℕ) → strip_right (λ c. c == b'=') (repeat_char k b'=') ≡ []
unfolding strip_right repeat_char
strip_right-repeat_char zero = refl
strip_right-repeat_char (suc k) = rw (strip_right-repeat_char k) refl

strip_right-append :
    (body : Text) (k : ℕ)
    → Without b'=' body
    → strip_right (λ c. c == b'=') (body ++ repeat_char k b'=') ≡ body
unfolding strip_right
strip_right-append [] k h = strip_right-repeat_char k
strip_right-append (c ∷ body) k h = elim (Bool-cases (c == b'=')) [
  | inl e ↦ absurd (ground arith)
  | inr e ↦ rw e (ap (◌∷◌ c) (strip_right-append body k (ground arith)))
]

padded_again :
    (body : Text) (k : ℕ)
    → k < 4
    → (length body + k) % 4 ≡ 0
    → padded body ≡ body ++ repeat_char k b'='
padded_again body k h m = ap (λ n. body ++ repeat_char n b'=') (omega arith)

pub split_on-last : (s : Text) → Without b'|' s → split_on b'|' s ≡ s ∷ []
unfolding split_on
split_on-last [] h = refl
split_on-last (c ∷ s) h = elim (Bool-cases (c == b'|')) [
  | inl e ↦ absurd (ground arith)
  | inr e ↦ rw (e, split_on-last s (ground arith)) refl
]

pub split_on-append :
    (s t : Text) → Without b'|' s → split_on b'|' (s ++ b'|' ∷ t) ≡ s ∷ split_on b'|' t
unfolding split_on
split_on-append [] t h = refl
split_on-append (c ∷ s) t h = elim (Bool-cases (c == b'|')) [
  | inl e ↦ absurd (ground arith)
  | inr e ↦ rw (e, split_on-append s t (ground arith)) refl
]

pub decimal-parse_nonneg_int : (n : ℕ) → IsBigint n → parse_nonneg_int (decimal n) ≡ decoded n
unfolding parse_nonneg_int
decimal-parse_nonneg_int n h =
    rw (decimal_filled n, decimal-is_digit n, decimal_fits n h)
      (ap decoded (decimal-decimal_from n))

pub decimal-Without : (c n : ℕ) → is_digit c ≡ false → Without c (decimal n)
decimal-Without c n h =
    all_weaker is_digit (λ d. not (d == c)) (decimal n) (λ d k. ground arith) (decimal-is_digit n)

module _ (lib : Library) (is_library : IsLibrary lib) where
  decode_payload :
      (ts : Option ℕ) (id : ℕ)
      → IsBigint id
      → of_parts lib (split_on b'|' (payload lib ts id)) ≡ decoded (record { ts = ts; id = id })
  unfolding split_on
  decode_payload none id h =
      rw (split_on-last (decimal id) (decimal-Without b'|' id refl), decimal-parse_nonneg_int id h)
        refl
  decode_payload (some t) id h =
      rw
        (
          split_on-append (lib.isoformat t) (decimal id) (is_library.iso_plain t),
          split_on-last (decimal id) (decimal-Without b'|' id refl),
          is_library.iso_reads t,
          decimal-parse_nonneg_int id h,
        )
        refl

  payload_filled : (ts : Option ℕ) (id : ℕ) → is_empty (payload lib ts id) ≡ false
  payload_filled none id = refl
  payload_filled (some t) id = refl

  pub encode-decode_browse_cursor :
      (ts : Option ℕ) (id : ℕ)
      → IsBigint id
      → decode_browse_cursor lib (encode_browse_cursor lib (record { ts = ts; id = id }))
        ≡ decoded (record { ts = ts; id = id })
  unfolding decode_browse_cursor encode_browse_cursor
  encode-decode_browse_cursor ts id h =
      let t = payload lib ts id in
      let (body, k, e, small, whole, plain_body, filled) = is_library.b64_padded t in
      let stripped : strip_right (λ c. c == b'=') (lib.b64encode t) ≡ body =
        rw e (strip_right-append body k plain_body) in
      let again : padded body ≡ lib.b64encode t = padded_again body k small whole ∙ sym e in
      rw (stripped, filled (payload_filled ts id), again, is_library.b64_reads t)
        (decode_payload ts id h)
