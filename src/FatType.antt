-- ===== src/FatType.antt =====
-- `FatType` and `FsStatusFlags` of embedded-fatfs/src/fs.rs.
use embedded_fatfs.Base.{ℕ, ◌-◌, Bool, bit_and, bit_or, ltb, ◌==◌, if◌then◌else◌, not}

pub data FatType : Type 0 where
  fat12 fat16 fat32 : FatType

abbrev pub fat16_min_clusters : ℕ
fat16_min_clusters = 4085

abbrev pub fat32_min_clusters : ℕ
fat32_min_clusters = 65525

abbrev pub fat32_max_clusters : ℕ
fat32_max_clusters = 0x0FFF_FFF4

unfoldable pub from_clusters : ℕ → FatType
from_clusters total_clusters =
    if ltb total_clusters fat16_min_clusters
    then fat12
    else if ltb total_clusters fat32_min_clusters
    then fat16
    else fat32

abbrev pub bits_per_fat_entry : FatType → ℕ
bits_per_fat_entry fat12 = 12
bits_per_fat_entry fat16 = 16
bits_per_fat_entry fat32 = 32

abbrev pub min_clusters : FatType → ℕ
min_clusters fat12 = 0
min_clusters fat16 = fat16_min_clusters
min_clusters fat32 = fat32_min_clusters

abbrev pub max_clusters : FatType → ℕ
max_clusters fat12 = fat16_min_clusters - 1
max_clusters fat16 = fat32_min_clusters - 1
max_clusters fat32 = fat32_max_clusters

pub record FsStatusFlags : Type 0 where
  pub dirty : Bool
  pub io_error : Bool

-- `encode` and `decode` of `FsStatusFlags`
unfoldable pub encode_flags : FsStatusFlags → ℕ
encode_flags f =
    let res = if f.dirty then bit_or 0 1 else 0 in if f.io_error then bit_or res 2 else res

unfoldable pub decode_flags : ℕ → FsStatusFlags
decode_flags flags = record {
  dirty = not (bit_and flags 1 == 0);
  io_error = not (bit_and flags 2 == 0);
}
