-- ===== src/FileSystem/Numbers.antt =====
-- The numbers that mounting finds: FAT types by their clusters, and counters with their bounds
-- (`FileSystem::new` of embedded-fatfs/src/fs.rs).
use embedded_fatfs.Base.{ℕ, ◌≤◌, ◌<◌, Option, some, not, ltb, ltb→lt, ltb_false→le}
use embedded_fatfs.FatType.{FatType, fat12, fat16, fat32}
use embedded_fatfs.FsInfo.{keep_upto}
use embedded_fatfs.Base.{◌≡◌, true, none, arith, refl, Bool-cases, inl, inr}
use embedded_fatfs.FatType.{from_clusters}
use embedded_fatfs.BootSector.Validate.{is_32}

-- A number of the disk, which is kept up to a bound.
pub data IsKept (bound : ℕ) : Option ℕ → Option ℕ → Type 0 where
  unknown : IsKept bound none none
  kept : {n : ℕ} → n ≤ bound → IsKept bound (some n) (some n)
  dropped : {n : ℕ} → bound < n → IsKept bound (some n) none

pub keep_upto-IsKept : (bound : ℕ) (o : Option ℕ) → IsKept bound o (keep_upto bound o)
keep_upto-IsKept bound none = unknown
keep_upto-IsKept bound (some n) = elim (Bool-cases (ltb bound n)) [
  | inl q ↦ rw q (dropped (ltb→lt bound n q))
  | inr q ↦ rw q (kept (ltb_false→le bound n q))
]

-- The FAT type of a number of clusters.
pub data IsTypeOf (n : ℕ) : FatType → Type 0 where
  small : n < 4085 → IsTypeOf n fat12
  medium : 4085 ≤ n → n < 65525 → IsTypeOf n fat16
  large : 65525 ≤ n → IsTypeOf n fat32

pub from_clusters-IsTypeOf : (n : ℕ) → IsTypeOf n (from_clusters n)
unfolding from_clusters
from_clusters-IsTypeOf n = elim (Bool-cases (ltb n 4085)) [
  | inl q ↦ rw q (small (ltb→lt n 4085 q))
  | inr q ↦ elim (Bool-cases (ltb n 65525)) [
    | inl r ↦ rw (q, r) (medium (ltb_false→le n 4085 q) (ltb→lt n 65525 r))
    | inr r ↦ rw (q, r) (large (ltb_false→le n 65525 r))
  ]
]

pub is_32-from_clusters : (n : ℕ) → is_32 (from_clusters n) ≡ not (ltb n 65525)
unfolding from_clusters
is_32-from_clusters n = elim (Bool-cases (ltb n 4085)) [
  | inl few ↦ let less : ltb n 65525 ≡ true = ground arith in rw (few, less) refl
  | inr many ↦ elim (Bool-cases (ltb n 65525)) [
    | inl less ↦ rw (many, less) refl
    | inr more ↦ rw (many, more) refl
  ]
]
