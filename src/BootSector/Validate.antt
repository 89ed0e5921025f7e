-- ===== src/BootSector/Validate.antt =====
-- The checks of a BIOS parameter block. A message is logged with each failure, and some findings
-- are only logged; logging is left out.
pub mod Laws
use embedded_fatfs.Base.{
  ℕ, zero, suc, ◌+◌, ◌-◌, ◌*◌, ◌/◌, ◌%◌, ◌^◌, Bool, true, false, ◌&&◌, ◌||◌, not,
}
use embedded_fatfs.Base.{ltb, leb, ◌==◌, if◌then◌else◌, get_or, List, ◌∷◌, []}
use embedded_fatfs.Io.{Error, Result, ok, err, corrupted_file_system}
use embedded_fatfs.FatType.{FatType, fat12, fat16, fat32, from_clusters}
use embedded_fatfs.BootSector.{Bpb, BootSector, is_fat32, total_sectors, first_data_sector}
use embedded_fatfs.BootSector.{total_clusters}

-- `count_ones` of a word of `k` bits
abbrev pub count_ones : ℕ → ℕ → ℕ
count_ones zero n = 0
count_ones (suc k) n = n % 2 + count_ones k (n / 2)

-- `fat_type == FatType::Fat32`
abbrev pub is_32 : FatType → Bool
is_32 fat32 = true
is_32 _ = false

-- `==` and `!=` of booleans
abbrev pub same : Bool → Bool → Bool
same true b = b
same false b = not b

-- `Result<(), Error<E>>`
abbrev pub Check : Type 0 → Type 0
Check E = Result (Error E) (Unit {0})

module _ {E : Type 0} where
  -- `if failure { return Err(Error::CorruptedFileSystem) }`, before the rest
  abbrev pub refuse_if : Bool → Check E → Check E
  refuse_if true rest = Result.err corrupted_file_system
  refuse_if false rest = rest

  -- `check?;` before the rest
  abbrev pub and_also : Check E → Check E → Check E
  and_also (Result.ok _) rest = rest
  and_also (Result.err e) rest = Result.err e

  abbrev pub passed : Check E
  passed = Result.ok tt

  unfoldable pub validate_bytes_per_sector : Bpb → Check E
  validate_bytes_per_sector b =
      refuse_if (not (count_ones 16 b.bytes_per_sector == 1))
        (refuse_if (ltb b.bytes_per_sector 512 || ltb 4096 b.bytes_per_sector) passed)

  unfoldable pub validate_sectors_per_cluster : Bpb → Check E
  validate_sectors_per_cluster b =
      refuse_if (not (count_ones 8 b.sectors_per_cluster == 1))
        (refuse_if (ltb b.sectors_per_cluster 1 || ltb 128 b.sectors_per_cluster) passed)

  unfoldable pub validate_reserved_sectors : Bpb → Check E
  validate_reserved_sectors b = refuse_if (ltb b.reserved_sectors 1) (
      refuse_if (is_fat32 b && leb b.reserved_sectors b.backup_boot_sector)
        (refuse_if (is_fat32 b && leb b.reserved_sectors b.fs_info_sector) passed))

  unfoldable pub validate_fats : Bpb → Check E
  validate_fats b = refuse_if (b.fats == 0) passed

  unfoldable pub validate_root_entries : Bpb → Check E
  validate_root_entries b =
      refuse_if (is_fat32 b && not (b.root_entries == 0))
        (refuse_if (not (is_fat32 b) && b.root_entries == 0) passed)

  unfoldable pub validate_total_sectors : Bpb → Check E
  validate_total_sectors b = refuse_if (is_fat32 b && not (b.total_sectors_16 == 0)) (
      refuse_if (same (b.total_sectors_16 == 0) (b.total_sectors_32 == 0))
        (refuse_if (leb (total_sectors b) (first_data_sector b)) passed))

  unfoldable pub validate_sectors_per_fat : Bpb → Check E
  validate_sectors_per_fat b = refuse_if (is_fat32 b && b.sectors_per_fat_32 == 0) passed

  -- The warning on a table that is too small is left out, with the u32 product that it takes.
  unfoldable pub validate_total_clusters : Bpb → Check E
  validate_total_clusters b =
      let fat_type = from_clusters (total_clusters b) in
      refuse_if (not (same (is_fat32 b) (is_32 fat_type)))
        (refuse_if (is_32 fat_type && ltb 0x0FFF_FFFF (total_clusters b)) passed)

  -- `BiosParameterBlock::validate`
  unfoldable pub validate_bpb : Bpb → Check E
  validate_bpb b = refuse_if (not (b.fs_version == 0)) (
      and_also (validate_bytes_per_sector b) (
        and_also (validate_sectors_per_cluster b) (
          and_also (validate_reserved_sectors b) (
            and_also (validate_fats b) (
              and_also (validate_root_entries b) (
                and_also (validate_total_sectors b)
                  (and_also (validate_sectors_per_fat b) (validate_total_clusters b))))))))

  -- `BootSector::validate`
  unfoldable pub validate : BootSector → Check E
  validate boot =
      refuse_if (not (get_or boot.boot_sig 0 0 == 0x55 && get_or boot.boot_sig 1 0 == 0xAA))
        (validate_bpb boot.bpb)
