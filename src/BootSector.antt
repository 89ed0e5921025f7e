-- ===== src/BootSector.antt =====
-- The BIOS parameter block and the boot sector of embedded-fatfs/src/boot_sector.rs: their fields,
-- and the numbers of a volume that follow from them. Arithmetic is on u32 and u64 as the source
-- declares it, with its wrap. Where a divisor is zero the source panics; `validate` looks at the
-- divisors first.
pub mod Validate
pub mod Codec
pub mod Format
use embedded_fatfs.Base.{ℕ, ◌+◌, ◌-◌, ◌*◌, ◌/◌, ◌%◌, ◌^◌, bit_and, Bool, ◌==◌, if◌then◌else◌, List}
use embedded_fatfs.FatType.{FsStatusFlags, decode_flags}

-- The size of a directory entry (dir_entry.rs).
abbrev pub dir_entry_size : ℕ
dir_entry_size = 32

-- The last fields are byte arrays: `reserved_0` has 12 bytes, `volume_label` 11 and
-- `fs_type_label` 8.
pub record BiosParameterBlock : Type 0 where
  pub bytes_per_sector : ℕ
  pub sectors_per_cluster : ℕ
  pub reserved_sectors : ℕ
  pub fats : ℕ
  pub root_entries : ℕ
  pub total_sectors_16 : ℕ
  pub media : ℕ
  pub sectors_per_fat_16 : ℕ
  pub sectors_per_track : ℕ
  pub heads : ℕ
  pub hidden_sectors : ℕ
  pub total_sectors_32 : ℕ
  pub sectors_per_fat_32 : ℕ
  pub extended_flags : ℕ
  pub fs_version : ℕ
  pub root_dir_first_cluster : ℕ
  pub fs_info_sector : ℕ
  pub backup_boot_sector : ℕ
  pub reserved_0 : List ℕ
  pub drive_num : ℕ
  pub reserved_1 : ℕ
  pub ext_sig : ℕ
  pub volume_id : ℕ
  pub volume_label : List ℕ
  pub fs_type_label : List ℕ

abbrev pub Bpb : Type 0
Bpb = BiosParameterBlock

pub record BootSector : Type 0 where
  pub bootjmp : List ℕ
  pub oem_name : List ℕ
  pub bpb : Bpb
  pub boot_code : List ℕ
  pub boot_sig : List ℕ

unfoldable pub mirroring_enabled : Bpb → Bool
mirroring_enabled b = bit_and b.extended_flags 0x80 == 0

unfoldable pub active_fat : Bpb → ℕ
unfolding mirroring_enabled
active_fat b = if mirroring_enabled b then 0 else bit_and b.extended_flags 0x0F

abbrev pub status_flags : Bpb → FsStatusFlags
status_flags b = decode_flags b.reserved_1

abbrev pub is_fat32 : Bpb → Bool
is_fat32 b = b.sectors_per_fat_16 == 0

abbrev pub sectors_per_fat : Bpb → ℕ
sectors_per_fat b = if is_fat32 b then b.sectors_per_fat_32 else b.sectors_per_fat_16

abbrev pub total_sectors : Bpb → ℕ
total_sectors b = if b.total_sectors_16 == 0 then b.total_sectors_32 else b.total_sectors_16

unfoldable pub root_dir_sectors : Bpb → ℕ
root_dir_sectors b =
    (b.root_entries * dir_entry_size + b.bytes_per_sector + 2 ^ 32 - 1)
    % 2 ^ 32
    / b.bytes_per_sector

unfoldable pub sectors_per_all_fats : Bpb → ℕ
sectors_per_all_fats b = b.fats * sectors_per_fat b % 2 ^ 32

unfoldable pub first_data_sector : Bpb → ℕ
first_data_sector b =
    ((b.reserved_sectors + sectors_per_all_fats b) % 2 ^ 32 + root_dir_sectors b) % 2 ^ 32

unfoldable pub total_clusters : Bpb → ℕ
total_clusters b = (total_sectors b + 2 ^ 32 - first_data_sector b) % 2 ^ 32 / b.sectors_per_cluster

-- The product of a u32 and a u16 fits a u64.
abbrev pub bytes_from_sectors : Bpb → ℕ → ℕ
bytes_from_sectors b sectors = sectors * b.bytes_per_sector

unfoldable pub sectors_from_clusters : Bpb → ℕ → ℕ
sectors_from_clusters b clusters = clusters * b.sectors_per_cluster % 2 ^ 32

-- The product of a u8 and a u16 fits a u32.
unfoldable pub cluster_size : Bpb → ℕ
cluster_size b = b.sectors_per_cluster * b.bytes_per_sector

unfoldable pub clusters_from_bytes : Bpb → ℕ → ℕ
clusters_from_bytes b bytes =
    (bytes + cluster_size b + 2 ^ 64 - 1) % 2 ^ 64 / cluster_size b % 2 ^ 32
