-- ===== src/Base/Int.antt =====
-- Go's signed integers. `negsuc n` is -(n + 1). An int64 is such an integer in its range; the
-- operations that can leave the range wrap around by `wrap64`.
use Prim.Native.Nat.{ℕ, zero, suc, ◌+◌, ◌-◌, ◌*◌, ◌/◌, ◌%◌, ◌^◌, ◌≤◌}
use Prim.Native.String.{String, ◌++◌}
use mathlib.Core.Path.{◌≡◌}
use mathlib.Core.Bool.{Bool, true, false}
use native.Mathlib.Decide.{ℕ_discrete}
use native.Mathlib.Omega.{arith}
use forge_sync.Base.Equality.{Eq, ◌==◌, nat_eq, leb, ltb, if◌then◌else◌}

pub data ℤ : Type 0 where
  pos : ℕ → ℤ
  negsuc : ℕ → ℤ

ℤ-discrete : Discrete ℤ
ℤ-discrete = hlevel ℕ_discrete

instance unfoldable pub int_eq : Eq ℤ
unfolding ℤ-discrete ℕ_discrete
int_eq = record { dec = ℤ-discrete }

abbrev pub pos_part : ℤ → ℕ
pos_part (pos n) = n
pos_part (negsuc n) = 0

abbrev pub neg_part : ℤ → ℕ
neg_part (pos n) = 0
neg_part (negsuc n) = suc n

-- a - b, as an integer.
abbrev pub sub_ℕ : ℕ → ℕ → ℤ
sub_ℕ a b = if leb b a then pos (a - b) else negsuc (b - a - 1)

-- x > 0
abbrev pub positive : ℤ → Bool
positive x = ltb 0 (pos_part x)

-- x < 0
abbrev pub negative : ℤ → Bool
negative (pos n) = false
negative (negsuc n) = true

infix 50 ◌≤ℤ◌
abbrev pub ◌≤ℤ◌ : ℤ → ℤ → Type 0
a ≤ℤ b = pos_part a + neg_part b ≤ pos_part b + neg_part a

abbrev pub ltb_ℤ : ℤ → ℤ → Bool
ltb_ℤ a b = ltb (pos_part a + neg_part b) (pos_part b + neg_part a)

abbrev pub leb_ℤ : ℤ → ℤ → Bool
leb_ℤ a b = leb (pos_part a + neg_part b) (pos_part b + neg_part a)

pub leb_ℤ_total : (a b : ℤ) → leb_ℤ a b ≡ false → leb_ℤ b a ≡ true
leb_ℤ_total a b h = ground arith

digit : ℕ → String
digit zero = "0"
digit (suc zero) = "1"
digit (suc (suc zero)) = "2"
digit (suc (suc (suc zero))) = "3"
digit (suc (suc (suc (suc zero)))) = "4"
digit (suc (suc (suc (suc (suc zero))))) = "5"
digit (suc (suc (suc (suc (suc (suc zero)))))) = "6"
digit (suc (suc (suc (suc (suc (suc (suc zero))))))) = "7"
digit (suc (suc (suc (suc (suc (suc (suc (suc zero)))))))) = "8"
digit (suc (suc (suc (suc (suc (suc (suc (suc (suc n))))))))) = "9"

-- The decimal digits of `n` in front of `acc`. Each round divides by ten, so `suc n` rounds suffice.
digits : ℕ → ℕ → String → String
unfolding digit
digits zero n acc = acc
digits (suc fuel) n acc =
    let acc' = digit (n % 10) ++ acc in
    let rest = digits fuel (n / 10) acc' in if n / 10 == 0 then acc' else rest

-- `%d`, and `strconv.FormatInt(x, 10)`
unfoldable pub format_int : ℤ → String
unfolding digits nat_eq
format_int (pos n) = digits (suc n) n ""
format_int (negsuc n) = "-" ++ digits (suc (suc n)) (suc n) ""

infixl 70 ◌*ℤ◌
unfoldable pub ◌*ℤ◌ : ℤ → ℤ → ℤ
a *ℤ b =
    sub_ℕ (pos_part a * pos_part b + neg_part a * neg_part b)
      (pos_part a * neg_part b + neg_part a * pos_part b)

-- The residue of an integer modulo 2^64.
unfoldable pub residue64 : ℤ → ℕ
residue64 (pos n) = n % 2 ^ 64
residue64 (negsuc n) = 2 ^ 64 - 1 - n % 2 ^ 64

-- An int64 from its residue, in two's complement.
unfoldable pub signed64 : ℕ → ℤ
signed64 u = if ltb u (2 ^ 63) then pos u else negsuc (2 ^ 64 - 1 - u)

-- What an int64 holds after an operation with the exact result `x`.
unfoldable pub wrap64 : ℤ → ℤ
unfolding residue64 signed64
wrap64 x = signed64 (residue64 x)
