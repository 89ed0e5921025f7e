-- ===== src/DirEntry/Fields.antt =====
-- The first cluster in the two words of an entry.
use embedded_fatfs.Base.{ℕ, ◌/◌, ◌%◌, ◌^◌, ◌<◌, ◌≡◌, bit_and, Option, none, some, arith}
use embedded_fatfs.Base.{refl}
use embedded_fatfs.Base.Bits.{bit_and_mask, bit_or_high, zero-bit_or}
use embedded_fatfs.FatType.{FatType, fat12, fat16, fat32}
use embedded_fatfs.DirEntry.{DirFileEntryData, first_cluster, set_first_cluster}

-- The cluster numbers that an entry of a FAT type can hold.
abbrev pub cluster_limit : FatType → ℕ
cluster_limit fat32 = 2 ^ 32
cluster_limit _ = 2 ^ 16

abbrev pub FitsCluster : FatType → Option ℕ → Type 0
FitsCluster fat_type none = Unit
FitsCluster fat_type (some n) = (0 < n) × (n < cluster_limit fat_type)

pub first_cluster-set_first_cluster :
    (fat_type : FatType) (cluster : Option ℕ) (d : DirFileEntryData)
    → FitsCluster fat_type cluster
    → first_cluster (set_first_cluster cluster fat_type d) fat_type ≡ cluster
unfolding first_cluster set_first_cluster
first_cluster-set_first_cluster fat12 none d h = refl
first_cluster-set_first_cluster fat16 none d h = refl
first_cluster-set_first_cluster fat32 none d h = refl
first_cluster-set_first_cluster fat12 (some n) d (lo, hi) =
    ground (arith, bit_and_mask 16 n, zero-bit_or (bit_and n 65535 % 65536))
first_cluster-set_first_cluster fat16 (some n) d (lo, hi) =
    ground (arith, bit_and_mask 16 n, zero-bit_or (bit_and n 65535 % 65536))
first_cluster-set_first_cluster fat32 (some n) d (lo, hi) =
    ground (arith, bit_and_mask 16 n, bit_or_high 16 (n / 65536 % 65536) (bit_and n 65535 % 65536))
