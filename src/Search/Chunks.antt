-- ===== src/Search/Chunks.antt =====
-- `split_by_tokens` of src/localmail/search/chunking.py. The tokenizer is third-party code: `encode`
-- and `decode` are parameters.
use localmail.Common.{
  ℕ, leb, if◌then◌else◌, zero, suc, ◌-◌, ◌≤◌, List, [], ◌∷◌, ◌++◌, arith, str_eq, String, ◌≡◌, refl,
  ap, ◌||◌, map,
}
use localmail.Common.Lists.{take, length, drop}
use localmail.Common.Int.{ℤ, le_zero, lt_zero, to_nat}

pub data ChunkError : Type 0 where
  size_not_positive overlap_out_of_range : ChunkError

module _ {ℓ} {A : Type ℓ} where
  -- The windows from `start` on, where `rest` are the tokens from there. The loop ends at the window
  -- that reaches the end of the tokens; fuel bounds the windows.
  unfoldable pub windows : ℕ → ℕ → ℕ → List A → List (List A)
  windows zero size stride rest = []
  windows (suc fuel) size stride [] = []
  windows (suc fuel) size stride (t ∷ rest) =
      take size (t ∷ rest)
      ∷ (if leb (length (t ∷ rest)) size
          then []
          else windows fuel size stride (drop stride (t ∷ rest)))

  -- The windows put together again, each after the first without the tokens that it shares.
  abbrev pub stitch : ℕ → List (List A) → List A
  stitch overlap [] = []
  stitch overlap (w ∷ []) = w
  stitch overlap (w ∷ v ∷ ws) = take (length w - overlap) w ++ stitch overlap (v ∷ ws)

  pub take-take : (m n : ℕ) (xs : List A) → m ≤ n → take m (take n xs) ≡ take m xs
  take-take zero n xs le = refl
  take-take (suc m) zero xs le = absurd (omega arith)
  take-take (suc m) (suc n) [] le = refl
  take-take (suc m) (suc n) (x ∷ xs) le = ap (◌∷◌ x) (take-take m n xs (omega arith))

pub data SplitResult : Type 0 where
  raised : ChunkError → SplitResult
  pieces : List String → SplitResult

module _ (encode : String → List ℕ) (decode : List ℕ → String) where
  abbrev pub split_tokens : String → List ℕ → ℕ → ℕ → List String
  split_tokens text tokens size overlap =
      if leb (length tokens) size
      then (if str_eq text "" then [] else text ∷ [])
      else map decode (windows (length tokens) size (size - overlap) tokens)

  unfoldable pub split_by_tokens : String → ℤ → ℤ → SplitResult
  split_by_tokens text size overlap =
      if le_zero size
      then raised size_not_positive
      else if lt_zero overlap || leb (to_nat size) (to_nat overlap)
      then raised overlap_out_of_range
      else pieces (split_tokens text (encode text) (to_nat size) (to_nat overlap))
