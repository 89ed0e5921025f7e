-- ===== src/File/Targets.antt =====
-- The target of a seek, and the number of clusters before an offset (`seek` of
-- embedded-fatfs/src/file.rs).
use embedded_fatfs.Base.{
  ℕ, ◌+◌, ◌-◌, ◌/◌, ◌%◌, ◌^◌, ◌≤◌, ◌<◌, ◌≡◌, false, arith, refl, sym, ◌∙◌, inl, inr, ◌==◌, Option,
  none, some, if◌then◌else◌, Bool-cases,
}
use embedded_fatfs.Base.{List, get_or}
use embedded_fatfs.Io.{SeekFrom, start, current, end}
use embedded_fatfs.BootSector
use embedded_fatfs.FileSystem.{FileSystem, cluster_size, clusters_from_bytes}
use embedded_fatfs.Base.{ltb, ltb→lt}
use embedded_fatfs.Base.Int.{ℤ, pos, negsuc, ◌+ℤ◌}
use embedded_fatfs.Chain.Extend.{some-injective}
use embedded_fatfs.File.{FileContext, size}
use embedded_fatfs.File.Seek.{target_offset, clipped, fits_u32, u32_of, from_end}
use embedded_fatfs.Base.{◌*◌, min, unwrap_or, ap, ==_iff}
use native.Mathlib.Nat.{add-div_right, le-div_iff_mul-le, div-lt_iff_lt-mul}

-- The cluster of an offset in a chain: none before the first byte, and the one that holds the byte
-- before the offset behind it.
abbrev pub cluster_at : FileSystem → List ℕ → ℕ → Option ℕ
cluster_at fs ns offset =
    if offset == 0 then none else some (get_or ns ((offset - 1) / cluster_size fs) 0)

-- The same by the count of clusters of the file system.
abbrev pub counted_at : FileSystem → List ℕ → ℕ → Option ℕ
counted_at fs ns offset =
    if offset == 0 then none else some (get_or ns (clusters_from_bytes fs offset - 1) 0)

-- The offset at which a seek aims, a u32.
pub data Aims (c : FileContext) : SeekFrom → ℕ → Type 0 where
  from_start : {n : ℕ} → n < 2 ^ 32 → Aims c (start n) n
  from_current : {x : ℤ} {n : ℕ} → pos c.offset +ℤ x ≡ pos n → n < 2 ^ 32 → Aims c (current x) n
  from_size :
      {x : ℤ} {s n : ℕ} → size c ≡ some s → pos s +ℤ x ≡ pos n → n < 2 ^ 32 → Aims c (end x) n

fits_u32_lem : (n : ℕ) → n < 2 ^ 32 → fits_u32 n ≡ some n
fits_u32_lem n h = ground arith

pub Aims-target_offset :
    (c : FileContext) (target : SeekFrom) (n : ℕ)
    → Aims c target n
    → target_offset c target ≡ some n
Aims-target_offset c _ _ (from_start {n} h) = fits_u32_lem n h
Aims-target_offset c _ _ (from_current {x} {n} q h) = ap u32_of q ∙ fits_u32_lem n h
Aims-target_offset c _ _ (from_size {x} {s} {n} e q h) =
    ap (from_end x) e ∙ ap u32_of q ∙ fits_u32_lem n h

pub clipped_lem : (a : ℕ) (o : Option ℕ) → clipped a o ≡ min a (unwrap_or o a)
clipped_lem a none = omega arith
clipped_lem a (some s) = refl

-- A target is a u32.
fits_u32-bound : (n a : ℕ) → fits_u32 n ≡ some a → a < 2 ^ 32
fits_u32-bound n a q = elim (Bool-cases (ltb n (2 ^ 32))) [
  | inl small ↦
      let same : n ≡ a = some-injective n a (sym (rw small refl) ∙ q) in
      omega (arith, same, ltb→lt n (2 ^ 32) small)
  | inr large ↦ absurd (ground arith)
]

u32_of-bound : (z : ℤ) (a : ℕ) → u32_of z ≡ some a → a < 2 ^ 32
u32_of-bound (pos n) a q = fits_u32-bound n a q
u32_of-bound (negsuc n) a q = absurd (ground arith)

from_end-bound : (x : ℤ) (o : Option ℕ) (a : ℕ) → from_end x o ≡ some a → a < 2 ^ 32
from_end-bound x none a q = absurd (ground arith)
from_end-bound x (some s) a q = u32_of-bound (pos s +ℤ x) a q

pub target_offset-bound :
    (c : FileContext) (target : SeekFrom) (a : ℕ) → target_offset c target ≡ some a → a < 2 ^ 32
target_offset-bound c (start x) a q = fits_u32-bound x a q
target_offset-bound c (current x) a q = u32_of-bound (pos c.offset +ℤ x) a q
target_offset-bound c (end x) a q = from_end-bound x (size c) a q

pub clipped-bound : (a : ℕ) (o : Option ℕ) → clipped a o ≤ a
clipped-bound a none = omega arith
clipped-bound a (some s) = omega arith

-- The rounding up of an offset to clusters.
rounded-positive :
    (m s : ℕ)
    → 0 < m
    → m < 2 ^ 32
    → 0 < s
    → s < 2 ^ 32
    → 0 < (m + s + 2 ^ 64 - 1) % 2 ^ 64 / s % 2 ^ 32
rounded-positive m s hm lm hs ls =
    let x = (m + s + 2 ^ 64 - 1) % 2 ^ 64 in
    let at_least : 1 ≤ x / s = (le-div_iff_mul-le {k = s} {x = 1} {y = x} hs).1 (omega arith) in
    let below : x / s < 2 ^ 32 =
      (div-lt_iff_lt-mul {k = s} {x = x} {y = 2 ^ 32} hs).1 (omega arith) in
    omega (arith, at_least, below)

rounded-zero : (s : ℕ) → 0 < s → s < 2 ^ 32 → (0 + s + 2 ^ 64 - 1) % 2 ^ 64 / s % 2 ^ 32 ≡ 0
rounded-zero s hs ls =
    let x = (0 + s + 2 ^ 64 - 1) % 2 ^ 64 in
    let below : x / s < 1 = (div-lt_iff_lt-mul {k = s} {x = x} {y = 1} hs).1 (omega arith) in
    omega (arith, below)

pub clusters_from_bytes-positive :
    (fs : FileSystem) (m : ℕ)
    → 0 < cluster_size fs
    → cluster_size fs < 2 ^ 32
    → 0 < m
    → m < 2 ^ 32
    → 0 < clusters_from_bytes fs m
unfolding BootSector.clusters_from_bytes
clusters_from_bytes-positive fs m hs ls hm lm = rounded-positive m (cluster_size fs) hm lm hs ls

pub clusters_from_bytes-zero :
    (fs : FileSystem)
    → 0 < cluster_size fs
    → cluster_size fs < 2 ^ 32
    → clusters_from_bytes fs 0 ≡ 0
unfolding BootSector.clusters_from_bytes
clusters_from_bytes-zero fs hs ls = rounded-zero (cluster_size fs) hs ls

pub counted_at-same :
    (fs : FileSystem) (ns : List ℕ) (a b : ℕ)
    → (a == 0) ≡ false
    → clusters_from_bytes fs a ≡ clusters_from_bytes fs b
    → counted_at fs ns a ≡ some (get_or ns (clusters_from_bytes fs b - 1) 0)
counted_at-same fs ns a b ha q = rw (ha, q) refl

rounded_lem :
    (m s : ℕ)
    → 0 < m
    → m < 2 ^ 32
    → 0 < s
    → s < 2 ^ 32
    → (m + s + 2 ^ 64 - 1) % 2 ^ 64 / s % 2 ^ 32 ≡ (m - 1) / s + 1
rounded_lem m s hm lm hs ls =
    let up : (m - 1 + s) / s ≡ (m - 1) / s + 1 = add-div_right (m - 1) {k = s} hs in
    let whole : (m + s + 2 ^ 64 - 1) % 2 ^ 64 ≡ m - 1 + s = omega arith in
    let below : (m - 1 + s) / s < 2 ^ 32 =
      (div-lt_iff_lt-mul {k = s} {x = m - 1 + s} {y = 2 ^ 32} hs).1 (omega arith) in
    ap (λ x. x / s % 2 ^ 32) whole ∙ omega (arith, up, below)

pub clusters_from_bytes_lem :
    (fs : FileSystem) (m : ℕ)
    → 0 < cluster_size fs
    → cluster_size fs < 2 ^ 32
    → 0 < m
    → m < 2 ^ 32
    → clusters_from_bytes fs m ≡ (m - 1) / cluster_size fs + 1
unfolding BootSector.clusters_from_bytes
clusters_from_bytes_lem fs m hs ls hm lm = rounded_lem m (cluster_size fs) hm lm hs ls

pub counted_at_lem :
    (fs : FileSystem) (ns : List ℕ) (m : ℕ)
    → 0 < cluster_size fs
    → cluster_size fs < 2 ^ 32
    → m < 2 ^ 32
    → counted_at fs ns m ≡ cluster_at fs ns m
counted_at_lem fs ns m hs ls lm = elim (Bool-cases (m == 0)) [
  | inl z ↦ rw z refl
  | inr nz ↦
      let q = clusters_from_bytes_lem fs m hs ls (ground arith) lm in
      let same : clusters_from_bytes fs m - 1 ≡ (m - 1) / cluster_size fs = omega (arith, q) in
      rw nz (ap (λ k. some (get_or ns k 0)) same)
]

-- The bytes of a chain hold an offset.
pub clusters_from_bytes-le :
    (fs : FileSystem) (m k : ℕ)
    → 0 < cluster_size fs
    → cluster_size fs < 2 ^ 32
    → m < 2 ^ 32
    → m ≤ k * cluster_size fs
    → clusters_from_bytes fs m ≤ k
clusters_from_bytes-le fs m k hs ls lm h = elim (Bool-cases (m == 0)) [
  | inl z ↦
      let none_used : clusters_from_bytes fs m ≡ 0 =
        ap (clusters_from_bytes fs) ((==_iff m 0).0 z) ∙ clusters_from_bytes-zero fs hs ls in
      omega (arith, none_used)
  | inr nz ↦
      let more : 0 < m = ground arith in
      let q = clusters_from_bytes_lem fs m hs ls more lm in
      let few : (m - 1) / cluster_size fs < k =
        (div-lt_iff_lt-mul {k = cluster_size fs} {x = m - 1} {y = k} hs).1
          (omega (arith, h, more)) in
      omega (arith, q, few)
]
