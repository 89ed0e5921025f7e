-- ===== src/BootSector/Format.antt =====
-- The geometry that a volume is formatted with: the second half of
-- embedded-fatfs/src/boot_sector.rs. Arithmetic is on u32 and u64 with its wrap.
pub mod Laws
use embedded_fatfs.Base.{ℕ, zero, suc, ◌+◌, ◌-◌, ◌*◌, ◌/◌, ◌%◌, ◌^◌, Bool, true, false, not}
use embedded_fatfs.Base.{ltb, leb, ◌==◌, if◌then◌else◌, min, max, Option, none, some, unwrap_or}
use embedded_fatfs.Base.{List, [], ◌∷◌, replicate}
use embedded_fatfs.Io.{Error, Result, ok, err, invalid_input}
use embedded_fatfs.FatType.{FatType, fat12, fat16, fat32, from_clusters, bits_per_fat_entry}
use embedded_fatfs.FatType.{max_clusters}
use embedded_fatfs.BootSector.{Bpb, BiosParameterBlock, dir_entry_size, total_clusters}

abbrev pub mb : ℕ
mb = 1024 * 1024

abbrev pub gb : ℕ
gb = mb * 1024

abbrev pub same_type : FatType → FatType → Bool
same_type fat12 fat12 = true
same_type fat16 fat16 = true
same_type fat32 fat32 = true
same_type _ _ = false

-- `next_power_of_two` of a u64 below 2 ^ 63: the least power of two that is not below `n`.
abbrev pub double_up : ℕ → ℕ → ℕ → ℕ
double_up zero n p = p
double_up (suc rounds) n p = double_up rounds n (if ltb p n then p * 2 else p)

unfoldable pub next_power_of_two : ℕ → ℕ
next_power_of_two n = double_up 64 n 1

unfoldable pub estimate_fat_type : ℕ → FatType
estimate_fat_type total_bytes =
    if ltb total_bytes (4 * mb) then fat12 else if ltb total_bytes (512 * mb) then fat16 else fat32

-- The size of a cluster before it is clamped.
unfoldable pub cluster_bytes : ℕ → FatType → ℕ
cluster_bytes total_bytes fat12 = next_power_of_two total_bytes / mb * 512 % 2 ^ 32
cluster_bytes total_bytes fat16 =
    if leb total_bytes (16 * mb)
    then 1024
    else if leb total_bytes (128 * mb)
    then 2 * 1024
    else next_power_of_two total_bytes / (64 * mb) % 2 ^ 32 * 1024 % 2 ^ 32
cluster_bytes total_bytes fat32 =
    if leb total_bytes (260 * mb)
    then 512
    else if leb total_bytes (8 * gb)
    then 4 * 1024
    else next_power_of_two total_bytes / (2 * gb) % 2 ^ 32 * 1024 % 2 ^ 32

unfoldable pub determine_bytes_per_cluster : ℕ → ℕ → Option FatType → ℕ
determine_bytes_per_cluster total_bytes bytes_per_sector fat_type =
    min
      (max (cluster_bytes total_bytes (unwrap_or fat_type (estimate_fat_type total_bytes)))
        bytes_per_sector)
      (32 * 1024)

unfoldable pub determine_sectors_per_fat :
    (total_sectors bytes_per_sector sectors_per_cluster : ℕ)
    → FatType
    → (reserved_sectors root_dir_sectors fats : ℕ) → ℕ
determine_sectors_per_fat total_sectors bytes_per_sector sectors_per_cluster fat_type
      reserved_sectors root_dir_sectors fats =
    let t0 =
      ((total_sectors + 2 ^ 32 - reserved_sectors) % 2 ^ 32 + 2 ^ 32 - root_dir_sectors) % 2 ^ 32 in
    let t1 = t0 + 2 * sectors_per_cluster in
    let bits_per_cluster = sectors_per_cluster * bytes_per_sector * 8 % 2 ^ 32 in
    let t2 = bits_per_cluster / bits_per_fat_entry fat_type + fats in (t1 + t2 - 1) / t2 % 2 ^ 32

abbrev pub reserved_sectors_for : FatType → ℕ
reserved_sectors_for fat32 = 8
reserved_sectors_for _ = 1

unfoldable pub determine_root_dir_sectors : (root_dir_entries bytes_per_sector : ℕ) → FatType → ℕ
determine_root_dir_sectors root_dir_entries bytes_per_sector fat32 = 0
determine_root_dir_sectors root_dir_entries bytes_per_sector fat_type =
    (root_dir_entries * dir_entry_size + bytes_per_sector + 2 ^ 32 - 1) % 2 ^ 32 / bytes_per_sector

module _ {E : Type 0} where
  unfoldable pub try_fs_geometry :
      (total_sectors bytes_per_sector sectors_per_cluster : ℕ)
      → FatType
      → (root_dir_sectors fats : ℕ) → Result (Error E) (ℕ × ℕ)
  try_fs_geometry total_sectors bytes_per_sector sectors_per_cluster fat_type root_dir_sectors
        fats =
      let reserved_sectors = reserved_sectors_for fat_type in
      let sectors_per_fat =
        determine_sectors_per_fat total_sectors bytes_per_sector sectors_per_cluster fat_type
          reserved_sectors root_dir_sectors fats in
      let data_sectors =
        (total_sectors
          + 2 ^ 32
          + 2 ^ 32
          + 2 ^ 32
          - reserved_sectors
          - root_dir_sectors
          - sectors_per_fat * fats % 2 ^ 32)
        % 2 ^ 32 in
      let total_clusters = data_sectors / sectors_per_cluster in
      if leb total_sectors ((reserved_sectors + root_dir_sectors + 8) % 2 ^ 32)
      then Result.err invalid_input
      else if not (same_type fat_type (from_clusters total_clusters))
      then Result.err invalid_input
      else if ltb (max_clusters fat_type) total_clusters
      then Result.err invalid_input
      else Result.ok (reserved_sectors, sectors_per_fat)

  -- One round of the loop over the FAT types.
  unfoldable pub geometry_of :
      (total_sectors bytes_per_sector sectors_per_cluster root_dir_entries fats : ℕ)
      → FatType
      → Result (Error E) (ℕ × ℕ)
  geometry_of total_sectors bytes_per_sector sectors_per_cluster root_dir_entries fats fat_type =
      try_fs_geometry total_sectors bytes_per_sector sectors_per_cluster fat_type
        (determine_root_dir_sectors root_dir_entries bytes_per_sector fat_type) fats

  abbrev pub first_that_fits :
      FatType
      → Result (Error E) (ℕ × ℕ)
      → Result (Error E) (FatType × ℕ × ℕ)
      → Result (Error E) (FatType × ℕ × ℕ)
  first_that_fits fat_type (Result.ok (reserved, size)) rest = Result.ok (fat_type, reserved, size)
  first_that_fits fat_type (Result.err e) rest = rest

  unfoldable pub determine_fs_geometry :
      (total_sectors bytes_per_sector sectors_per_cluster root_dir_entries fats : ℕ)
      → Result (Error E) (FatType × ℕ × ℕ)
  determine_fs_geometry total_sectors bytes_per_sector sectors_per_cluster root_dir_entries fats =
      let geometry =
        geometry_of total_sectors bytes_per_sector sectors_per_cluster root_dir_entries fats in
      first_that_fits fat32 (geometry fat32) (
        first_that_fits fat16 (geometry fat16)
          (first_that_fits fat12 (geometry fat12) (Result.err invalid_input)))
