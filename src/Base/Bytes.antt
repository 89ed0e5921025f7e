-- ===== src/Base/Bytes.antt =====
-- Bytes: little-endian words as lists of bytes, and contents of a storage as functions from
-- positions to bytes.
use Prim.Native.Nat.{ℕ, zero, suc, ◌+◌, ◌*◌, ◌/◌, ◌%◌, ◌^◌, ◌≤◌, ◌<◌}
use mathlib.Core.Path.{◌≡◌, refl, ap, ap₂, sym, ◌∙◌}
use mathlib.Core.Logic.{◌⊎◌}
use mathlib.Core.List.{List, [], ◌∷◌}
use native.Mathlib.Omega.{arith}
use native.Mathlib.Nat.{pow-suc}
use embedded_fatfs.Base.Tests.{◌==◌, if◌then◌else◌}
use embedded_fatfs.Base.Lists.{length, All}

abbrev pub IsByte : ℕ → Type 0
IsByte b = b < 256

abbrev pub IsU16 : ℕ → Type 0
IsU16 n = n < 2 ^ 16

abbrev pub IsU32 : ℕ → Type 0
IsU32 n = n < 2 ^ 32

abbrev pub IsU64 : ℕ → Type 0
IsU64 n = n < 2 ^ 64

-- `from_le_bytes`, for any count of bytes
abbrev pub from_le_bytes : List ℕ → ℕ
from_le_bytes [] = 0
from_le_bytes (b ∷ bs) = b + 256 * from_le_bytes bs

-- `to_le_bytes` of a word of `k` bytes
abbrev pub to_le_bytes : ℕ → ℕ → List ℕ
to_le_bytes zero n = []
to_le_bytes (suc k) n = n % 256 ∷ to_le_bytes k (n / 256)

pub length-to_le_bytes : (k n : ℕ) → length (to_le_bytes k n) ≡ k
length-to_le_bytes zero n = refl
length-to_le_bytes (suc k) n = ap suc (length-to_le_bytes k (n / 256))

pub to_le_bytes-IsByte : (k n : ℕ) → All IsByte (to_le_bytes k n)
to_le_bytes-IsByte zero n = tt
to_le_bytes-IsByte (suc k) n = (omega arith, to_le_bytes-IsByte k (n / 256))

pub from_le_bytes-to_le_bytes : (k n : ℕ) → n < 256 ^ k → from_le_bytes (to_le_bytes k n) ≡ n
from_le_bytes-to_le_bytes zero n h = omega arith
from_le_bytes-to_le_bytes (suc k) n h =
    omega (arith, from_le_bytes-to_le_bytes k (n / 256) (omega (arith, pow-suc 256 k)))

-- The bytes from position `p` on.
abbrev pub slice : (ℕ → ℕ) → ℕ → ℕ → List ℕ
slice c p zero = []
slice c p (suc n) = c p ∷ slice c (p + 1) n

-- The little-endian word of `k` bytes at position `p`.
abbrev pub word : ℕ → (ℕ → ℕ) → ℕ → ℕ
word k c p = from_le_bytes (slice c p k)

-- The content after `bs` is written at position `p`.
abbrev pub patch : (ℕ → ℕ) → ℕ → List ℕ → ℕ → ℕ
patch c p [] i = c i
patch c p (b ∷ bs) i = if i == p then b else patch c (p + 1) bs i

pub length-slice : (c : ℕ → ℕ) (p n : ℕ) → length (slice c p n) ≡ n
length-slice c p zero = refl
length-slice c p (suc n) = ap suc (length-slice c (p + 1) n)

pub slice-IsByte : (c : ℕ → ℕ) (p n : ℕ) → ((i : ℕ) → IsByte (c i)) → All IsByte (slice c p n)
slice-IsByte c p zero h = tt
slice-IsByte c p (suc n) h = (h p, slice-IsByte c (p + 1) n h)

-- A write changes no position outside of its bytes.
pub patch_outside :
    (c : ℕ → ℕ) (p : ℕ) (bs : List ℕ) (i : ℕ) → (i < p) ⊎ (p + length bs ≤ i) → patch c p bs i ≡ c i
patch_outside c p [] i h = refl
patch_outside c p (b ∷ bs) i h = ground (arith, patch_outside c (p + 1) bs i)

pub slice_outside :
    (c : ℕ → ℕ) (p : ℕ) (bs : List ℕ) (q n : ℕ)
    → (q + n ≤ p) ⊎ (p + length bs ≤ q)
    → slice (patch c p bs) q n ≡ slice c q n
slice_outside c p bs q zero h = refl
slice_outside c p bs q (suc n) h =
    ap₂ ◌∷◌ (patch_outside c p bs q (omega arith)) (slice_outside c p bs (q + 1) n (omega arith))

-- A word that a write does not touch stays as it was.
pub word-patch_outside :
    (k : ℕ) (c : ℕ → ℕ) (p : ℕ) (bs : List ℕ) (q : ℕ)
    → (q + k ≤ p) ⊎ (p + length bs ≤ q)
    → word k (patch c p bs) q ≡ word k c q
word-patch_outside k c p bs q h = ap from_le_bytes (slice_outside c p bs q k h)

slice_ahead :
    (c : ℕ → ℕ) (p b : ℕ) (bs : List ℕ) (q n : ℕ)
    → p < q
    → slice (patch c p (b ∷ bs)) q n ≡ slice (patch c (p + 1) bs) q n
slice_ahead c p b bs q zero h = refl
slice_ahead c p b bs q (suc n) h =
    ap₂ ◌∷◌ (ground arith) (slice_ahead c p b bs (q + 1) n (omega arith))

-- What was written is read back.
pub slice-patch : (c : ℕ → ℕ) (p : ℕ) (bs : List ℕ) → slice (patch c p bs) p (length bs) ≡ bs
slice-patch c p [] = refl
slice-patch c p (b ∷ bs) =
    ap₂ ◌∷◌ (ground arith)
      (slice_ahead c p b bs (p + 1) (length bs) (omega arith) ∙ slice-patch c (p + 1) bs)

pub word-patch :
    (k : ℕ) (c : ℕ → ℕ) (p n : ℕ) → n < 256 ^ k → word k (patch c p (to_le_bytes k n)) p ≡ n
word-patch k c p n h =
    ap (λ l. from_le_bytes (slice (patch c p (to_le_bytes k n)) p l)) (sym (length-to_le_bytes k n))
    ∙ ap from_le_bytes (slice-patch c p (to_le_bytes k n))
    ∙ from_le_bytes-to_le_bytes k n h

-- A word of bytes is in range.
pub word-lt : (k : ℕ) (c : ℕ → ℕ) (p : ℕ) → ((i : ℕ) → IsByte (c i)) → word k c p < 256 ^ k
word-lt zero c p h = omega arith
word-lt (suc k) c p h = omega (arith, pow-suc 256 k, word-lt k c (p + 1) h, h p)

-- Slices of contents that agree on the range.
pub slice_same :
    (f g : ℕ → ℕ) (p n : ℕ) → ((x : ℕ) → p ≤ x → x < p + n → f x ≡ g x) → slice f p n ≡ slice g p n
slice_same f g p zero h = refl
slice_same f g p (suc n) h =
    ap₂ ◌∷◌ (h p (omega arith) (omega arith))
      (slice_same f g (p + 1) n (λ x lo hi. h x (omega arith) (omega arith)))
