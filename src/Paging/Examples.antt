-- ===== src/Paging/Examples.antt =====
-- A text that is read in pages.
use localmail.Common.{ℕ, ◌-◌, ◌≡◌, refl, ap, Option, none, some, List, [], ◌∷◌, arith}
use localmail.Paging.Client.{read_pages-drop, read_pages, IsSubstring, window}
use localmail.Paging.{make_page, make_window, page, text_window_error}
use localmail.Common.Int.{pos}

program : Unit {0}
unfolding make_page page read_pages text_window_error make_window
program = tt

abbrev substring : List ℕ → ℕ → Option ℕ → List ℕ
substring text n k = window (n - 1) k text

standard : IsSubstring substring
standard text n k = ap (λ m. window m k text) (omega arith)

abbrev text : List ℕ
text = 10 ∷ 20 ∷ 30 ∷ 40 ∷ 50 ∷ []

read_pages-drop_example : read_pages substring 5 (some 3) text 1 ≡ some (20 ∷ 30 ∷ 40 ∷ 50 ∷ [])
unfolding program
read_pages-drop_example =
    read_pages-drop substring standard 5 (some 3) text 1 refl (omega arith) (omega arith)

-- A limit of zero is refused: it would never advance.
zero_refused : make_window (pos 0) (some (pos 0)) ≡ none
unfolding program
zero_refused = refl
