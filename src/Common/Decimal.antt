-- ===== src/Common/Decimal.antt =====
-- Decimal printing, as f-strings do it, and that a number can be read off its digits.
use mini_codex.Common.{
  ℕ, zero, suc, ◌+◌, ◌-◌, ◌*◌, ◌/◌, ◌%◌, ◌<◌, ◌≤◌, ◌≡◌, refl, [], ◌∷◌, arith, Text, codes, ltb, ap,
  length, if◌then◌else◌,
}

-- The digits of `n`, most significant first, before `out`; `fuel` bounds their number.
abbrev digits : ℕ → ℕ → Text → Text
digits zero n out = out
digits (suc f) n out =
    let rest = digits f (n / 10) ((48 + n % 10) ∷ out) in if ltb n 10 then (48 + n) ∷ out else rest

-- `str(n)`: a number has at most as many digits as its successor.
unfoldable pub decimal : ℕ → Text
decimal n = digits (suc n) n []

zeros : ℕ → Text → Text
zeros zero s = s
zeros (suc n) s = b'0' ∷ zeros n s

-- `f"{n:06d}"`
unfoldable pub padded : ℕ → Text
unfolding zeros decimal
padded n = zeros (6 - length (decimal n)) (decimal n)

-- The number that a run of digits stands for, read after `acc`.
value : ℕ → Text → ℕ
value acc [] = acc
value acc (c ∷ s) = value (acc * 10 + (c - 48)) s

value-digits : (f n : ℕ) (out : Text) → n < f → value 0 (digits f n out) ≡ value n out
unfolding value
value-digits zero n out h = elim h [ ]
value-digits (suc f) n out h = ground (arith, value-digits f (n / 10) ((48 + n % 10) ∷ out))

value-decimal : (n : ℕ) → value 0 (decimal n) ≡ n
unfolding decimal value
value-decimal n = value-digits (suc n) n [] (omega arith)

value-zeros : (k : ℕ) (s : Text) → value 0 (zeros k s) ≡ value 0 s
unfolding value zeros
value-zeros zero s = refl
value-zeros (suc k) s = value-zeros k s

value-padded : (n : ℕ) → value 0 (padded n) ≡ n
unfolding padded
value-padded n = rw value-zeros (value-decimal n)

-- Different numbers print differently.
pub decimal-injective : (m n : ℕ) → decimal m ≡ decimal n → m ≡ n
decimal-injective m n h = cc (value-decimal m, value-decimal n, ap (value 0) h)

pub padded-injective : (m n : ℕ) → padded m ≡ padded n → m ≡ n
padded-injective m n h = cc (value-padded m, value-padded n, ap (value 0) h)

-- Every character is a digit.
abbrev pub IsNumeral : Text → Type 0
IsNumeral [] = Unit
IsNumeral (c ∷ s) = ((48 ≤ c) × (c ≤ 57)) × IsNumeral s

IsNumeral-digits : (f n : ℕ) (out : Text) → IsNumeral out → IsNumeral (digits f n out)
IsNumeral-digits zero n out h = h
IsNumeral-digits (suc f) n out h = ground (arith, IsNumeral-digits f (n / 10) ((48 + n % 10) ∷ out))

IsNumeral-zeros : (k : ℕ) (s : Text) → IsNumeral s → IsNumeral (zeros k s)
unfolding zeros
IsNumeral-zeros zero s h = h
IsNumeral-zeros (suc k) s h = ((omega arith, omega arith), IsNumeral-zeros k s h)

pub IsNumeral-padded : (n : ℕ) → IsNumeral (padded n)
unfolding padded
IsNumeral-padded n = IsNumeral-zeros _ (decimal n) (IsNumeral-digits (suc n) n [] tt)

decimal_1024 : decimal 1024 ≡ codes "1024"
unfolding decimal
decimal_1024 = refl

padded_42 : padded 42 ≡ codes "000042"
unfolding padded
padded_42 = refl
