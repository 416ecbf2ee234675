-- ===== src/Base/Bytes.antt =====
-- Byte slices as lists of numbers, and unsigned numbers as big-endian bytes.
use Prim.Native.Nat.{ℕ, zero, suc, ◌+◌, ◌*◌, ◌/◌, ◌%◌, ◌^◌, ◌≤◌, ◌<◌}
use Prim.Native.Char.{code}
use Prim.Native.String.{String}
use mathlib.Core.Path.{◌≡◌, refl, ap, ◌∙◌}
use mathlib.Core.List.{List, [], ◌∷◌, ◌++◌, append-nil, append_assoc}
use native.Mathlib.Omega.{arith}
use native.Mathlib.Nat.{pow-zero, pow-suc, zero-add, add-zero}
use mathlib.Core.Bool.{Bool, true, false}
use go_sequence.Base.Tests.{◌==◌, if◌then◌else◌}
use go_sequence.Base.Lists.{length, length-append, All, All-append}

abbrev pub Bytes : Type 0
Bytes = List ℕ

abbrev pub IsByte : ℕ → Type 0
IsByte b = b < 256

-- The bytes of an ASCII text.
abbrev pub codes : String → Bytes
codes String.[] = []
codes (String.◌∷◌ c s) = code c ∷ codes s

-- `bytes.Equal(a, b)`, and `bytes.Compare(a, b) == 0`
unfoldable pub bytes_equal : Bytes → Bytes → Bool
bytes_equal [] [] = true
bytes_equal [] (_ ∷ _) = false
bytes_equal (_ ∷ _) [] = false
bytes_equal (a ∷ as') (b ∷ bs) = let rest = bytes_equal as' bs in if a == b then rest else false

pub bytes_equal→eq : (a b : Bytes) → bytes_equal a b ≡ true → a ≡ b
unfolding bytes_equal
bytes_equal→eq [] [] h = refl
bytes_equal→eq [] (_ ∷ _) h = cc
bytes_equal→eq (_ ∷ _) [] h = cc
bytes_equal→eq (a ∷ as') (b ∷ bs) h = ground (arith, bytes_equal→eq as' bs)

pub bytes_equal_refl : (a : Bytes) → bytes_equal a a ≡ true
unfolding bytes_equal
bytes_equal_refl [] = refl
bytes_equal_refl (a ∷ as') = ground (arith, bytes_equal_refl as')

-- The `k` lowest bytes of `n`, the most significant first.
unfoldable pub to_bytes : ℕ → ℕ → Bytes
to_bytes zero n = []
to_bytes (suc k) n = to_bytes k (n / 256) ++ (n % 256 ∷ [])

from_bytes_loop : ℕ → Bytes → ℕ
from_bytes_loop n [] = n
from_bytes_loop n (b ∷ bs) = from_bytes_loop (n * 256 + b) bs

-- The number that a byte slice stands for, the most significant byte first.
unfoldable pub from_bytes : Bytes → ℕ
unfolding from_bytes_loop
from_bytes bs = from_bytes_loop 0 bs

from_bytes_loop-snoc :
    (n : ℕ) (bs : Bytes) (b : ℕ)
    → from_bytes_loop n (bs ++ (b ∷ [])) ≡ from_bytes_loop n bs * 256 + b
unfolding from_bytes_loop
from_bytes_loop-snoc n [] b = refl
from_bytes_loop-snoc n (c ∷ bs) b = from_bytes_loop-snoc (n * 256 + c) bs b

pub length-to_bytes : (k n : ℕ) → length (to_bytes k n) ≡ k
unfolding to_bytes
length-to_bytes zero n = refl
length-to_bytes (suc k) n =
    omega (arith, length-to_bytes k (n / 256), length-append (to_bytes k (n / 256)) (n % 256 ∷ []))

pub to_bytes-IsByte : (k n : ℕ) → All IsByte (to_bytes k n)
unfolding to_bytes
to_bytes-IsByte zero n = tt
to_bytes-IsByte (suc k) n =
    All-append IsByte (to_bytes k (n / 256)) (n % 256 ∷ []) (to_bytes-IsByte k (n / 256))
      (omega arith, tt)

below-pow : (k n : ℕ) → n < 256 ^ suc k → n / 256 < 256 ^ k
below-pow k n h = omega (arith, pow-suc 256 k)

-- A number that fits is read back from its bytes.
pub from_bytes-to_bytes : (k n : ℕ) → n < 256 ^ k → from_bytes (to_bytes k n) ≡ n
unfolding from_bytes to_bytes
from_bytes-to_bytes zero n h = omega (arith, pow-zero 256)
from_bytes-to_bytes (suc k) n h = omega (
  arith,
  from_bytes_loop-snoc 0 (to_bytes k (n / 256)) (n % 256),
  from_bytes-to_bytes k (n / 256) (below-pow k n h),
)

to_bytes-from_bytes_loop :
    (j n : ℕ) (bs : Bytes)
    → All IsByte bs
    → to_bytes (length bs + j) (from_bytes_loop n bs) ≡ to_bytes j n ++ bs
unfolding from_bytes_loop to_bytes
to_bytes-from_bytes_loop j n [] h = rw (zero-add, append-nil)
to_bytes-from_bytes_loop j n (b ∷ bs) h =
    ap (λ k. to_bytes k (from_bytes_loop (n * 256 + b) bs)) (shuffle (length bs) j)
    ∙ to_bytes-from_bytes_loop (suc j) (n * 256 + b) bs h.1
    ∙ rw (quotient n b h.0, remainder n b h.0, append_assoc)
  where
    shuffle : (l k : ℕ) → suc l + k ≡ l + suc k
    shuffle l k = omega arith

    quotient : (m c : ℕ) → c < 256 → (m * 256 + c) / 256 ≡ m
    quotient m c lt = omega arith

    remainder : (m c : ℕ) → c < 256 → (m * 256 + c) % 256 ≡ c
    remainder m c lt = omega arith

-- The bytes are read back from the number that they stand for.
pub to_bytes-from_bytes : (bs : Bytes) → All IsByte bs → to_bytes (length bs) (from_bytes bs) ≡ bs
unfolding from_bytes to_bytes
to_bytes-from_bytes bs h = rw add-zero at (to_bytes-from_bytes_loop 0 0 bs h)

widen : (x p q r : ℕ) → x < q * p → q ≤ r → x < r * p
widen x p q r h le = grind arith

from_bytes_loop-lt :
    (n : ℕ) (bs : Bytes) → All IsByte bs → from_bytes_loop n bs < suc n * 256 ^ length bs
unfolding from_bytes_loop
from_bytes_loop-lt n [] h = omega (arith, pow-zero 256)
from_bytes_loop-lt n (b ∷ bs) h = rw pow-suc (
    omega (
      arith,
      widen (from_bytes_loop (n * 256 + b) bs) (256 ^ length bs) (suc (n * 256 + b)) (suc n * 256)
          (from_bytes_loop-lt (n * 256 + b) bs h.1) (omega arith),
    ))

pub from_bytes-lt : (bs : Bytes) → All IsByte bs → from_bytes bs < 256 ^ length bs
unfolding from_bytes
from_bytes-lt bs h = omega (arith, from_bytes_loop-lt 0 bs h)
