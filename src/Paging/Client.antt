-- ===== src/Paging/Client.antt =====
-- A client that follows `next_offset` reads the whole text, once.
use localmail.Common.{
  ℕ, ltb, zero, suc, ◌+◌, ◌≤◌, min, ◌≡◌, ◌∙◌, Bool, true, Option, none, some, List, ◌++◌, ap, arith,
  Bool-cases, leb, ltb→lt, ◌==◌, ◌<◌, refl, inl, inr, false, ◌-◌, sym, [], ◌∷◌,
}
use localmail.Paging.{
  TextWindow, TextPage, page, sql_from, length, sql_for, max_text_chars, capped, make_page,
  end_below, over_limit,
}
use localmail.Common.Lists.{
  drop, length, take, drop-min, take-min, length-drop, length-take, drop_all, drop-drop,
}

-- The window of a text.
abbrev pub window {ℓ} : {A : Type ℓ} → ℕ → Option ℕ → List A → List A
window offset none text = drop offset text
window offset (some n) text = take n (drop offset text)

-- What the documentation of Postgres says of `substring(text from n [for k])` for positions from 1.
abbrev pub IsSubstring {ℓ} : {A : Type ℓ} → (List A → ℕ → Option ℕ → List A) → Type ℓ
IsSubstring {A = A} substring =
    (text : List A) (n : ℕ) (k : Option ℕ) → substring text (n + 1) k ≡ window n k text

abbrev pub is_positive : Option ℕ → Bool
is_positive none = true
is_positive (some n) = ltb 0 n

abbrev clamped : ℕ → Option ℕ → Option ℕ
clamped m none = none
clamped m (some n) = some (min n m)

module _ {ℓ} {A : Type ℓ} (substring : List A → ℕ → Option ℕ → List A) where
  -- A text route: the page that the SQL and `page` give for a window.
  abbrev pub serve : List A → TextWindow → Option (TextPage A)
  serve text w = page w (substring text (sql_from w) (sql_for w)) (length text)

  abbrev prepend : List A → Option (List A) → Option (List A)
  prepend piece none = none
  prepend piece (some rest) = some (piece ++ rest)

  abbrev go_on : List A → Option ℕ → (ℕ → Option (List A)) → Option (List A)
  go_on piece none read = some piece
  go_on piece (some next) read = prepend piece (read next)

  abbrev follow : Option (TextPage A) → (ℕ → Option (List A)) → Option (List A)
  follow none read = none
  follow (some p) read = go_on p.text p.next_offset read

  -- A client that reads from `offset` in pages of `limit`, `none` where the fuel ends or a page
  -- raises.
  unfoldable pub read_pages : ℕ → Option ℕ → List A → ℕ → Option (List A)
  read_pages zero limit text offset = none
  read_pages (suc fuel) limit text offset =
      follow (serve text (record { offset = offset; limit = limit })) (read_pages fuel limit text)

  -- Clamping changes no answer, as no text is longer than the clamp.
  window-clamped :
      (m : ℕ) (text : List A) (offset : ℕ) (limit : Option ℕ)
      → length text ≤ m
      → window (min offset m) (clamped m limit) text ≡ window offset limit text
  window-clamped m text offset none short = drop-min m offset text short
  window-clamped m text offset (some n) short =
      take-min m n (drop (min offset m) text) (omega (arith, length-drop (min offset m) text))
      ∙ ap (take n) (drop-min m offset text short)

  module _ (standard : IsSubstring substring) where
    served :
        (text : List A) (offset : ℕ) (limit : Option ℕ)
        → length text ≤ max_text_chars
        → substring text (min offset max_text_chars + 1) (capped limit) ≡ window offset limit text
    served text offset limit short =
        standard text (min offset max_text_chars) (capped limit)
        ∙ window-clamped max_text_chars text offset limit short

  page_fits :
      (text : List A) (offset : ℕ) (limit : Option ℕ) (total : ℕ)
      → over_limit limit (length text) ≡ false
      → (offset + length text < total → 0 < length text)
      → page (record { offset = offset; limit = limit }) text total
        ≡ some (record {
          text = text;
          offset = offset;
          limit = limit;
          total = total;
          next_offset = end_below (offset + length text) total;
        })
  unfolding page make_page
  page_fits text offset limit total fits advances =
      elim (Bool-cases (ltb (offset + length text) total)) [
        | inl more ↦
            let same : ((offset + length text) == (offset + length text)) ≡ true = ground arith in
            let stuck : leb (offset + length text) offset ≡ false =
              ground (arith, advances (ltb→lt (offset + length text) total more)) in
            rw (fits, more, same, stuck) refl
        | inr done ↦ rw (fits, done) refl
      ]

  -- What `page` gives for the right piece of a text: it raises for none.
  page-window :
      (text : List A) (offset : ℕ) (limit : Option ℕ)
      → is_positive limit ≡ true
      → page (record { offset = offset; limit = limit }) (window offset limit text) (length text)
        ≡ some (record {
          text = window offset limit text;
          offset = offset;
          limit = limit;
          total = length text;
          next_offset = end_below (offset + length (window offset limit text)) (length text);
        })
  page-window text offset none positive =
      page_fits (drop offset text) offset none (length text) refl
        (λ less. omega (arith, length-drop offset text))
  page-window text offset (some n) positive =
      page_fits (take n (drop offset text)) offset (some n) (length text)
        (ground (arith, length-take n (drop offset text)))
        (λ less. ground (arith, length-take n (drop offset text), length-drop offset text))

  append-nil : (xs : List A) → xs ++ [] ≡ xs
  append-nil [] = refl
  append-nil (x ∷ xs) = ap (◌∷◌ x) (append-nil xs)

  whole-drop : (xs : List A) → xs ++ drop (length xs) xs ≡ xs
  whole-drop xs = ap (xs ++◌) (drop_all (length xs) xs (omega arith)) ∙ append-nil xs

  piece-drop : (n : ℕ) (xs : List A) → take n xs ++ drop (length (take n xs)) xs ≡ xs
  piece-drop zero xs = refl
  piece-drop (suc n) [] = refl
  piece-drop (suc n) (x ∷ xs) = ap (◌∷◌ x) (piece-drop n xs)

  -- A page is followed by the rest of the text.
  window-drop :
      (text : List A) (offset : ℕ) (limit : Option ℕ)
      → window offset limit text ++ drop (offset + length (window offset limit text)) text
        ≡ drop offset text
  window-drop text offset none =
      let rest = drop offset text in
      ap (rest ++◌) (sym (drop-drop (length rest) offset text)) ∙ whole-drop rest
  window-drop text offset (some n) =
      let rest = take n (drop offset text) in
      ap (rest ++◌) (sym (drop-drop (length rest) offset text)) ∙ piece-drop n (drop offset text)

  -- The end of the text is the end of the last page.
  window_last :
      (text : List A) (offset : ℕ) (limit : Option ℕ)
      → length text ≤ offset + length (window offset limit text)
      → window offset limit text ≡ drop offset text
  window_last text offset limit h =
      sym (append-nil (window offset limit text))
      ∙ ap (window offset limit text ++◌)
          (sym (drop_all (offset + length (window offset limit text)) text h))
      ∙ window-drop text offset limit

  window_advances :
      (text : List A) (offset : ℕ) (limit : Option ℕ)
      → is_positive limit ≡ true
      → offset + length (window offset limit text) < length text
      → 0 < length (window offset limit text)
  window_advances text offset none positive less = omega (arith, length-drop offset text)
  window_advances text offset (some n) positive less =
      ground (arith, length-take n (drop offset text), length-drop offset text)

module _ {ℓ} {A : Type ℓ} (substring : List A → ℕ → Option ℕ → List A)
    (standard : IsSubstring substring) where
  -- A client that follows `next_offset` from any offset, in pages of any positive size, reads the
  -- rest of the text: each page is served, the reading ends within one call more than there are
  -- characters left, and no character is read twice or left out. The text is no longer than the
  -- bound of a Postgres field.
  pub read_pages-drop :
      (fuel : ℕ) (limit : Option ℕ) (text : List A) (offset : ℕ)
      → is_positive limit ≡ true
      → length text ≤ max_text_chars
      → length text - offset < fuel
      → read_pages substring fuel limit text offset ≡ some (drop offset text)
  unfolding read_pages
  read_pages-drop zero limit text offset positive short enough = absurd (omega arith)
  read_pages-drop (suc fuel) limit text offset positive short enough =
      let end = offset + length (window offset limit text) in
      let here =
        ap (λ piece. page (record { offset = offset; limit = limit }) piece (length text))
          (served substring standard text offset limit short)
        ∙ page-window substring text offset limit positive in
      elim (Bool-cases (ltb end (length text))) [
        | inl more ↦
            let on = read_pages-drop fuel limit text end positive short (
              omega (
                arith,
                window_advances substring text offset limit positive
                    (ltb→lt end (length text) more),
                ltb→lt end (length text) more,
              )) in
            ap (λ p. follow substring p (read_pages substring fuel limit text)) here
            ∙ rw (more, on) (ap some (window-drop substring text offset limit))
        | inr done ↦
            ap (λ p. follow substring p (read_pages substring fuel limit text)) here
            ∙ rw done (ap some (window_last substring text offset limit (ground arith)))
      ]
