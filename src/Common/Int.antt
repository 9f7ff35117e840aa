-- ===== src/Common/Int.antt =====
-- Signed integers over the native numbers: offsets from a client, and durations from the
-- configuration, either of which may be negative. `negsuc n` is -(n + 1).
use localmail.Common.{ℕ, suc, ◌-◌, Bool, true, false, leb, ltb, if◌then◌else◌}

pub data ℤ : Type 0 where
  pos : ℕ → ℤ
  negsuc : ℕ → ℤ

-- z <= 0
abbrev pub le_zero : ℤ → Bool
le_zero (pos n) = leb n 0
le_zero (negsuc n) = true

-- z < 0
abbrev pub lt_zero : ℤ → Bool
lt_zero (pos n) = false
lt_zero (negsuc n) = true

-- The number that an integer is, where it is at least 0; 0 below.
abbrev pub to_nat : ℤ → ℕ
to_nat (pos n) = n
to_nat (negsuc n) = 0

-- a - b >= z, for moments a and b.
abbrev pub diff_ge : ℕ → ℕ → ℤ → Bool
diff_ge a b (pos n) = if leb b a then leb n (a - b) else false
diff_ge a b (negsuc n) = if leb b a then true else leb (b - a) (suc n)

-- a - b > z, for moments a and b.
abbrev pub diff_gt : ℕ → ℕ → ℤ → Bool
diff_gt a b (pos n) = if leb b a then ltb n (a - b) else false
diff_gt a b (negsuc n) = if leb b a then true else ltb (b - a) (suc n)
