-- ===== src/FsInfo.antt =====
-- `FsInfoSector` of embedded-fatfs/src/fs.rs: the counters of a FAT32 volume. Arithmetic is on u32.
pub mod Laws
use embedded_fatfs.Base.{ℕ, ◌+◌, ◌%◌, ◌^◌, Bool, true, false, not, Option, none, some, ltb, ◌==◌}
use embedded_fatfs.Base.{if◌then◌else◌, unwrap_or, replicate}
use embedded_fatfs.Io.{Storage, Fs, pure, throw, ◌>>=◌, ◌>>◌, try_exact, try_io, Error}
use embedded_fatfs.Io.{corrupted_file_system, read_u32_le, write_u32_le}
use embedded_fatfs.Table.Value.{reserved_fat_entries}

pub record FsInfoSector : Type 0 where
  pub free_cluster_count : Option ℕ
  pub next_free_cluster : Option ℕ
  pub dirty : Bool

abbrev pub lead_sig : ℕ
lead_sig = 0x4161_5252

abbrev pub struc_sig : ℕ
struc_sig = 0x6141_7272

abbrev pub trail_sig : ℕ
trail_sig = 0xAA55_0000

abbrev pub known_count : ℕ → Option ℕ
known_count n = if n == 0xFFFF_FFFF then none else some n

abbrev pub known_cluster : ℕ → Option ℕ
known_cluster n = if n == 0xFFFF_FFFF then none else if ltb n 2 then none else some n

-- A number that is kept if it is not above `bound`.
abbrev pub keep_upto : ℕ → Option ℕ → Option ℕ
keep_upto bound none = none
keep_upto bound (some n) = if ltb bound n then none else some n

unfoldable pub validate_and_fix : ℕ → FsInfoSector → FsInfoSector
validate_and_fix total_clusters info =
    let max_valid_cluster_number = (total_clusters + reserved_fat_entries) % 2 ^ 32 in
    record info {
      free_cluster_count = keep_upto total_clusters info.free_cluster_count;
      next_free_cluster = keep_upto max_valid_cluster_number info.next_free_cluster;
    }

abbrev pub map_count : (ℕ → ℕ) → FsInfoSector → Option ℕ → FsInfoSector
map_count map_fn info none = info
map_count map_fn info (some n) = record info { free_cluster_count = some (map_fn n); dirty = true }

abbrev pub map_free_clusters : (ℕ → ℕ) → FsInfoSector → FsInfoSector
map_free_clusters map_fn info = map_count map_fn info info.free_cluster_count

abbrev pub set_next_free_cluster : ℕ → FsInfoSector → FsInfoSector
set_next_free_cluster cluster info = record info { next_free_cluster = some cluster; dirty = true }

abbrev pub set_free_cluster_count : ℕ → FsInfoSector → FsInfoSector
set_free_cluster_count free_cluster_count info = record info {
  free_cluster_count = some free_cluster_count;
  dirty = true;
}

module _ (st : Storage) where
  open st use {read_exact, write_all, flush}

  abbrev pub expect : ℕ → Fs st (Unit {0})
  expect sig = do
    n ← try_exact st (read_u32_le st)
    if not (n == sig) then throw corrupted_file_system else pure tt

  unfoldable pub deserialize_fs_info : Fs st FsInfoSector
  deserialize_fs_info = do
    expect lead_sig
    try_exact st (read_exact 480)
    expect struc_sig
    count ← try_exact st (read_u32_le st)
    next ← try_exact st (read_u32_le st)
    try_exact st (read_exact 12)
    expect trail_sig
    pure (record {
      free_cluster_count = known_count count;
      next_free_cluster = known_cluster next;
      dirty = false;
    })

  unfoldable pub serialize_fs_info : FsInfoSector → Fs st (Unit {0})
  serialize_fs_info info = do
    try_io st (write_u32_le st lead_sig)
    try_io st (write_all (replicate 480 0))
    try_io st (write_u32_le st struc_sig)
    try_io st (write_u32_le st (unwrap_or info.free_cluster_count 0xFFFF_FFFF))
    try_io st (write_u32_le st (unwrap_or info.next_free_cluster 0xFFFF_FFFF))
    try_io st (write_all (replicate 12 0))
    try_io st (write_u32_le st trail_sig)
    try_io st flush
