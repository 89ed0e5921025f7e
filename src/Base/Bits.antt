-- ===== src/Base/Bits.antt =====
-- `&`, `|` and the shifts of unsigned words as arithmetic, at every width: masks, bit tests, and
-- fields that are put side by side.
use Prim.Native.Nat.{ℕ, zero, suc, ◌+◌, ◌-◌, ◌*◌, ◌/◌, ◌%◌, ◌^◌, ◌≤◌, ◌<◌, min, max}
use Prim.Native.Nat.{bit_and, bit_or, digits, bit_and-bitwise, bit_or-bitwise}
use mathlib.Core.Path.{◌≡◌, refl, ap}
use native.Mathlib.Omega.{arith}
use native.Mathlib.Nat.{pow-suc, one-le-pow}

-- A shift of an unsigned value. The wrap of `<<` is written where it is used.
infixl 55 ◌>>>◌ ◌<<<◌
abbrev pub ◌>>>◌ : ℕ → ℕ → ℕ
a >>> k = a / 2 ^ k

abbrev pub ◌<<<◌ : ℕ → ℕ → ℕ
a <<< k = a * 2 ^ k

-- The count of digits to go does not matter once it covers the number.
module _ (z : ℕ → ℕ) (f : ℕ → ℕ → ℕ) where
  digits_any : (n m a b : ℕ) → a ≤ n → a ≤ m → digits z f n a b ≡ digits z f m a b
  digits_any zero zero zero b p q = refl
  digits_any zero (suc m) zero b p q = refl
  digits_any (suc n) zero zero b p q = refl
  digits_any (suc n) (suc m) zero b p q = refl
  digits_any zero m (suc a) b p q = absurd (omega arith)
  digits_any (suc n) zero (suc a) b p q = absurd (omega arith)
  digits_any (suc n) (suc m) (suc a) b p q =
      ap (λ t. t * 2 + f (suc a % 2) (b % 2))
        (digits_any n m (suc a / 2) (b / 2) (omega arith) (omega arith))

-- The recursion on the lowest digit.
and_digit : (a b : ℕ) → bit_and a b ≡ bit_and (a / 2) (b / 2) * 2 + min (a % 2) (b % 2)
and_digit zero b = simp bit_and-bitwise (omega arith)
and_digit (suc a) b = omega (
  arith,
  bit_and-bitwise (suc a) b,
  bit_and-bitwise (suc a / 2) (b / 2),
  digits_any (λ _. zero) min a (suc a / 2) (suc a / 2) (b / 2) (omega arith) (omega arith),
)

or_digit : (a b : ℕ) → bit_or a b ≡ bit_or (a / 2) (b / 2) * 2 + max (a % 2) (b % 2)
or_digit zero b = simp bit_or-bitwise (omega arith)
or_digit (suc a) b = omega (
  arith,
  bit_or-bitwise (suc a) b,
  bit_or-bitwise (suc a / 2) (b / 2),
  digits_any (λ y. y) max a (suc a / 2) (suc a / 2) (b / 2) (omega arith) (omega arith),
)

-- Both operations with zero, by recursion on a bound of the other number.
and_zero_below : (n a : ℕ) → a ≤ n → bit_and a 0 ≡ 0
and_zero_below n zero h = simp bit_and-bitwise
and_zero_below zero (suc a) h = absurd (omega arith)
and_zero_below (suc n) (suc a) h =
    omega (arith, and_digit (suc a) 0, and_zero_below n (suc a / 2) (omega arith))

pub bit_and-zero : (a : ℕ) → bit_and a 0 ≡ 0
bit_and-zero a = and_zero_below a a (omega arith)

or_zero_below : (n a : ℕ) → a ≤ n → bit_or a 0 ≡ a
or_zero_below n zero h = simp bit_or-bitwise
or_zero_below zero (suc a) h = absurd (omega arith)
or_zero_below (suc n) (suc a) h =
    omega (arith, or_digit (suc a) 0, or_zero_below n (suc a / 2) (omega arith))

pub bit_or-zero : (a : ℕ) → bit_or a 0 ≡ a
bit_or-zero a = or_zero_below a a (omega arith)

pub zero-bit_or : (a : ℕ) → bit_or 0 a ≡ a
zero-bit_or a = bit_or-bitwise 0 a

double : (q k : ℕ) → q * 2 ^ suc k ≡ 2 * (q * 2 ^ k)
double q k = omega (arith, ap (λ (t : ℕ). q * t) (pow-suc 2 k))

-- `&` with a field of a mask that starts at bit `k` does not read the bits below it.
pub bit_and_shifted :
    (k q r m : ℕ) → r < 2 ^ k → bit_and (q * 2 ^ k + r) (m * 2 ^ k) ≡ bit_and q m * 2 ^ k
bit_and_shifted zero q r m h = ground arith
bit_and_shifted (suc k) q r m h = ground (
  arith,
  and_digit (q * 2 ^ suc k + r) (m * 2 ^ suc k),
  double q k,
  double m k,
  double (bit_and q m) k,
  pow-suc 2 k,
  bit_and_shifted k q (r / 2) m,
)

-- A mask of the `k` low bits is the remainder by `2 ^ k`.
low_field : (k q r : ℕ) → r < 2 ^ k → bit_and (q * 2 ^ k + r) (2 ^ k - 1) ≡ r
low_field zero q r h = ground (arith, bit_and-zero (q * 1 + r))
low_field (suc k) q r h = ground (
  arith,
  and_digit (q * 2 ^ suc k + r) (2 ^ suc k - 1),
  double q k,
  pow-suc 2 k,
  one-le-pow k 2,
  low_field k q (r / 2),
)

pub bit_and_mask : (k a : ℕ) → bit_and a (2 ^ k - 1) ≡ a % 2 ^ k
bit_and_mask k a = ground (arith, one-le-pow k 2, low_field k (a / 2 ^ k) (a % 2 ^ k))

-- `(q << k) | r` and `r | (q << k)` are a sum where `r` has `k` bits.
pub bit_or_high : (k q r : ℕ) → r < 2 ^ k → bit_or (q * 2 ^ k) r ≡ q * 2 ^ k + r
bit_or_high zero q r h = ground (arith, bit_or-zero q)
bit_or_high (suc k) q r h =
    ground (arith, or_digit (q * 2 ^ suc k) r, double q k, bit_or_high k q (r / 2))

pub bit_or_low : (k q r : ℕ) → r < 2 ^ k → bit_or r (q * 2 ^ k) ≡ q * 2 ^ k + r
bit_or_low zero q r h = ground (arith, zero-bit_or q)
bit_or_low (suc k) q r h =
    ground (arith, or_digit r (q * 2 ^ suc k), double q k, bit_or_low k q (r / 2))

-- What `|` adds stays under a mask, and a mask that was added is there.
or_keeps_below : (k b n m : ℕ) → m ≤ k → bit_and b m ≤ bit_and (bit_or b n) m
or_keeps_below k b n zero h = omega (arith, bit_and-zero b, bit_and-zero (bit_or b n))
or_keeps_below zero b n (suc m) h = absurd (omega arith)
or_keeps_below (suc k) b n (suc m) h =
    let half : bit_or b n / 2 ≡ bit_or (b / 2) (n / 2) = omega (arith, or_digit b n) in
    omega (
      arith,
      and_digit b (suc m),
      and_digit (bit_or b n) (suc m),
      or_digit b n,
      ap (λ x. bit_and x (suc m / 2)) half,
      or_keeps_below k (b / 2) (n / 2) (suc m / 2) (omega arith),
    )

pub or_keeps : (b n m : ℕ) → bit_and b m ≤ bit_and (bit_or b n) m
or_keeps b n m = or_keeps_below m b n m (omega arith)

or_adds_below : (k b m : ℕ) → m ≤ k → m ≤ bit_and (bit_or b m) m
or_adds_below k b zero h = omega arith
or_adds_below zero b (suc m) h = absurd (omega arith)
or_adds_below (suc k) b (suc m) h =
    let half : bit_or b (suc m) / 2 ≡ bit_or (b / 2) (suc m / 2) =
      omega (arith, or_digit b (suc m)) in
    omega (
      arith,
      and_digit (bit_or b (suc m)) (suc m),
      or_digit b (suc m),
      ap (λ x. bit_and x (suc m / 2)) half,
      or_adds_below k (b / 2) (suc m / 2) (omega arith),
    )

pub or_adds : (b m : ℕ) → m ≤ bit_and (bit_or b m) m
or_adds b m = or_adds_below m b m (omega arith)
