-- ===== src/Common/Int.antt =====
-- Python's integers where the program lets them be negative, over the native numbers.
use mini_codex.Common.{ℕ, suc, ◌+◌, ◌-◌, ◌≤◌, Bool, arith, ltb, leb, if◌then◌else◌}

-- `negsuc n` is -(n + 1).
pub data ℤ : Type 0 where
  pos : ℕ → ℤ
  negsuc : ℕ → ℤ

abbrev pub pos_part : ℤ → ℕ
pos_part (pos n) = n
pos_part (negsuc n) = 0

abbrev pub neg_part : ℤ → ℕ
neg_part (pos n) = 0
neg_part (negsuc n) = suc n

-- a - b, as an integer.
abbrev pub sub_ℕ : ℕ → ℕ → ℤ
sub_ℕ a b = if leb b a then pos (a - b) else negsuc (b - a - 1)

infixl 65 ◌+ℤ◌
infix 50 ◌≤ℤ◌
unfoldable pub ◌+ℤ◌ : ℤ → ℤ → ℤ
a +ℤ b = sub_ℕ (pos_part a + pos_part b) (neg_part a + neg_part b)

abbrev pub ◌≤ℤ◌ : ℤ → ℤ → Type 0
a ≤ℤ b = pos_part a + neg_part b ≤ pos_part b + neg_part a

abbrev pub ltb_ℤ : ℤ → ℤ → Bool
ltb_ℤ a b = ltb (pos_part a + neg_part b) (pos_part b + neg_part a)

unfoldable pub maxℤ : ℤ → ℤ → ℤ
maxℤ a b = if ltb_ℤ a b then b else a

pub maxℤ_left : (a b : ℤ) → a ≤ℤ maxℤ a b
unfolding maxℤ
maxℤ_left a b = ground arith

pub maxℤ_right : (a b : ℤ) → b ≤ℤ maxℤ a b
unfolding maxℤ
maxℤ_right a b = ground arith
