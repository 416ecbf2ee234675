-- ===== src/Base/Int.antt =====
-- Signed integers over the native numbers, for math/big.
use Prim.Native.Nat.{ℕ, suc, ◌+◌, ◌-◌, ◌*◌, ◌/◌, ◌%◌}
use mathlib.Core.Bool.{Bool, false}
use mathlib.Core.Path.{◌≡◌, ◌∙◌}
use mathlib.Core.Logic.{inl, inr}
use native.Mathlib.Omega.{arith}
use go_sequence.Base.Tests.{ltb, leb, leb→le, Bool-cases, ◌==◌, if◌then◌else◌}

-- `negsuc n` is -(n + 1).
pub data ℤ : Type 0 where
  pos : ℕ → ℤ
  negsuc : ℕ → ℤ

abbrev pos_part : ℤ → ℕ
pos_part (pos n) = n
pos_part (negsuc n) = 0

abbrev neg_part : ℤ → ℕ
neg_part (pos n) = 0
neg_part (negsuc n) = suc n

-- a - b, as an integer.
abbrev pub sub_ℕ : ℕ → ℕ → ℤ
sub_ℕ a b = if leb b a then pos (a - b) else negsuc (b - a - 1)

infixl 65 ◌+ℤ◌
unfoldable pub ◌+ℤ◌ : ℤ → ℤ → ℤ
a +ℤ b = sub_ℕ (pos_part a + pos_part b) (neg_part a + neg_part b)

-- `Sub`
infixl 65 ◌-ℤ◌
unfoldable pub ◌-ℤ◌ : ℤ → ℤ → ℤ
a -ℤ b = sub_ℕ (pos_part a + neg_part b) (neg_part a + pos_part b)

sub_ℕ-parts : (x y : ℕ) → pos_part (sub_ℕ x y) + y ≡ neg_part (sub_ℕ x y) + x
sub_ℕ-parts x y = elim (Bool-cases (leb y x)) [
  | inl e ↦ rw e (omega (arith, leb→le y x e))
  | inr e ↦ rw e (ground arith)
]

sub_ℕ-eq : (a b c d : ℕ) → a + d ≡ c + b → sub_ℕ a b ≡ sub_ℕ c d
sub_ℕ-eq a b c d e = ground arith

sub_ℕ-self : (a : ℤ) → sub_ℕ (pos_part a) (neg_part a) ≡ a
sub_ℕ-self (pos n) = ground arith
sub_ℕ-self (negsuc n) = ground arith

pub add-sub : (a b : ℤ) → a +ℤ (b -ℤ a) ≡ b
unfolding ◌+ℤ◌ ◌-ℤ◌
add-sub a b =
    sub_ℕ-eq _ _ (pos_part b) (neg_part b)
      (omega (arith, sub_ℕ-parts (pos_part b + neg_part a) (neg_part b + pos_part a)))
    ∙ sub_ℕ-self b

-- The product with a positive number.
infixl 70 ◌*ℕ◌
unfoldable pub ◌*ℕ◌ : ℤ → ℕ → ℤ
a *ℕ n = sub_ℕ (pos_part a * n) (neg_part a * n)

-- `a.Cmp(b) < 0`
abbrev pub ltb_ℤ : ℤ → ℤ → Bool
ltb_ℤ a b = ltb (pos_part a + neg_part b) (pos_part b + neg_part a)

-- `a.Cmp(b) == 0`
abbrev pub equal_ℤ : ℤ → ℤ → Bool
equal_ℤ (pos a) (pos b) = a == b
equal_ℤ (negsuc a) (negsuc b) = a == b
equal_ℤ _ _ = false

-- `Div` and `Mod` of big.Int by a positive number: the remainder is never negative.
unfoldable pub ◌divℤ◌ : ℤ → ℕ → ℤ
◌divℤ◌ (pos a) n = pos (a / n)
◌divℤ◌ (negsuc a) n = negsuc (a / n)

unfoldable pub ◌modℤ◌ : ℤ → ℕ → ℤ
◌modℤ◌ (pos a) n = pos (a % n)
◌modℤ◌ (negsuc a) n = pos (n - 1 - a % n)
