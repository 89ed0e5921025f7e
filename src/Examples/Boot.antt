-- ===== src/Examples/Boot.antt =====
-- The boot sector of a small volume, and a geometry.
use embedded_fatfs.Base.{ℕ}
use embedded_fatfs.Io.{start, try_io, ◌>>◌}
use embedded_fatfs.Base.Bytes.{IsByte, patch}
use embedded_fatfs.Io.Ends.{Returns}
use embedded_fatfs.Io.Memory.{Memory, memory, bytes_of, in_memory, in_memory-IsStorage}
use embedded_fatfs.BootSector.{BootSector}
use embedded_fatfs.Base.{some, true, false}
use embedded_fatfs.FsInfo.{FsInfoSector, serialize_fs_info, deserialize_fs_info}
use embedded_fatfs.FsInfo.Laws.{FitsInfo, sector_bytes}
use embedded_fatfs.FsInfo.Laws.{deserialize_fs_info-serialize_fs_info}
use embedded_fatfs.BootSector.Codec.{serialize, deserialize}
use embedded_fatfs.BootSector.Codec.Fields.{FitsBpb}
use embedded_fatfs.BootSector.Codec.Laws.{FitsBoot, boot_bytes, deserialize-serialize}
use embedded_fatfs.Base.{replicate, ◌∷◌, zero, suc, All, ◌≡◌, refl, arith, inl, []}
use embedded_fatfs.Io.{Result}
use embedded_fatfs.Io.Memory.{Fault}
use embedded_fatfs.FatType.{from_clusters}
use embedded_fatfs.FatType.{fat12, fat16}
use embedded_fatfs.BootSector.{Bpb, root_dir_sectors, sectors_per_all_fats}
use embedded_fatfs.BootSector.{first_data_sector, total_clusters}
use embedded_fatfs.BootSector.Validate.{validate_bpb}
use embedded_fatfs.BootSector.Validate.Laws.{IsVolume, Passed, validate_bpb-IsVolume}
use embedded_fatfs.BootSector.Validate.Laws.{IsVolume-validate_bpb}
use embedded_fatfs.BootSector.Format.{try_fs_geometry, determine_sectors_per_fat}
use embedded_fatfs.BootSector.Format.Laws.{Formattable, IsGeometry, try_fs_geometry-IsGeometry}

-- A 1.44 MB floppy disk.
abbrev floppy : Bpb
floppy = record {
  bytes_per_sector = 512;
  sectors_per_cluster = 1;
  reserved_sectors = 1;
  fats = 2;
  root_entries = 224;
  total_sectors_16 = 2880;
  media = 0xF0;
  sectors_per_fat_16 = 9;
  sectors_per_track = 18;
  heads = 2;
  hidden_sectors = 0;
  total_sectors_32 = 0;
  sectors_per_fat_32 = 0;
  extended_flags = 0;
  fs_version = 0;
  root_dir_first_cluster = 0;
  fs_info_sector = 0;
  backup_boot_sector = 0;
  reserved_0 = replicate 12 0;
  drive_num = 0;
  reserved_1 = 0;
  ext_sig = 0x29;
  volume_id = 0;
  volume_label = replicate 11 32;
  fs_type_label = replicate 8 32;
}

floppy-clusters : total_clusters floppy ≡ 2847
unfolding total_clusters first_data_sector sectors_per_all_fats root_dir_sectors
floppy-clusters = refl

floppy-first : first_data_sector floppy ≡ 33
unfolding first_data_sector sectors_per_all_fats root_dir_sectors
floppy-first = refl

floppy-IsVolume : IsVolume floppy
unfolding embedded_fatfs.FatType.from_clusters
floppy-IsVolume = record {
  version = refl;
  sector_size = inl refl;
  cluster_size = inl refl;
  reserved = omega arith;
  backup = λ h. ground arith;
  fs_info = λ h. ground arith;
  fats = omega arith;
  root_32 = λ h. ground arith;
  root_16 = λ h. omega arith;
  sectors_32 = λ h. ground arith;
  one_total = refl;
  room = rw floppy-first (omega arith);
  fat_size = λ h. ground arith;
  fat_type = rw floppy-clusters refl;
  clusters = λ h. ground arith;
}

IsVolume-validate_bpb_example : Passed (validate_bpb {E = Fault} floppy)
IsVolume-validate_bpb_example = IsVolume-validate_bpb Fault floppy floppy-IsVolume

validate_bpb-IsVolume_example : IsVolume floppy
validate_bpb-IsVolume_example =
    validate_bpb-IsVolume Fault floppy (IsVolume-validate_bpb Fault floppy floppy-IsVolume)

floppy-Formattable : Formattable 2880 512 1 14 2
floppy-Formattable = record {
  total = omega arith;
  sector_min = omega arith;
  sector_max = omega arith;
  cluster_min = omega arith;
  cluster_max = omega arith;
  root = omega arith;
  fats_min = omega arith;
  fats_max = omega arith;
}

floppy-geometry : try_fs_geometry {E = Fault} 2880 512 1 fat12 14 2 ≡ Result.ok (1, 9)
unfolding try_fs_geometry determine_sectors_per_fat embedded_fatfs.FatType.from_clusters
floppy-geometry = refl

try_fs_geometry-IsGeometry_example : IsGeometry 2880 512 1 fat12 14 2 1 9
try_fs_geometry-IsGeometry_example =
    try_fs_geometry-IsGeometry Fault 2880 512 1 fat12 14 2 floppy-Formattable 1 9 floppy-geometry

pub zeros-IsByte : (n : ℕ) → All IsByte (replicate n 0)
zeros-IsByte zero = tt
zeros-IsByte (suc n) = (omega arith, zeros-IsByte n)

pub spaces-IsByte : (n : ℕ) → All IsByte (replicate n 32)
spaces-IsByte zero = tt
spaces-IsByte (suc n) = (omega arith, spaces-IsByte n)

floppy-FitsBpb : FitsBpb floppy
floppy-FitsBpb = record {
  bytes_per_sector = omega arith;
  sectors_per_cluster = omega arith;
  reserved_sectors = omega arith;
  fats = omega arith;
  root_entries = omega arith;
  total_sectors_16 = omega arith;
  media = omega arith;
  sectors_per_fat_16 = omega arith;
  sectors_per_track = omega arith;
  heads = omega arith;
  hidden_sectors = omega arith;
  total_sectors_32 = omega arith;
  sectors_per_fat_32 = omega arith;
  extended_flags = omega arith;
  fs_version = omega arith;
  root_dir_first_cluster = omega arith;
  fs_info_sector = omega arith;
  backup_boot_sector = omega arith;
  reserved_0 = refl;
  reserved_0_bytes = zeros-IsByte 12;
  drive_num = omega arith;
  reserved_1 = omega arith;
  ext_sig = omega arith;
  volume_id = omega arith;
  volume_label = refl;
  volume_label_bytes = spaces-IsByte 11;
  fs_type_label = refl;
  fs_type_label_bytes = spaces-IsByte 8;
}

abbrev floppy_boot : BootSector
floppy_boot = record {
  bootjmp = 0xEB ∷ 0x3C ∷ 0x90 ∷ [];
  oem_name = replicate 8 32;
  bpb = floppy;
  boot_code = replicate 448 0;
  boot_sig = 0x55 ∷ 0xAA ∷ [];
}

floppy_boot-FitsBoot : FitsBoot floppy_boot
floppy_boot-FitsBoot = record {
  bootjmp = refl;
  bootjmp_bytes = (omega arith, (omega arith, (omega arith, tt)));
  oem_name = refl;
  oem_name_bytes = spaces-IsByte 8;
  bpb = floppy-FitsBpb;
  canonical = record { unsigned = λ h. absurd (h refl); not_fat32 = λ _. refl };
  code_length = refl;
  code_bytes = zeros-IsByte 448;
  code = refl;
  boot_sig = refl;
  boot_sig_bytes = (omega arith, (omega arith, tt));
}

abbrev empty_disk : Memory
empty_disk = memory (λ _. 0) 0

deserialize-serialize_example :
    Returns
      (λ v u.
        (v ≡ floppy_boot) × (bytes_of u ≡ patch (bytes_of empty_disk) 0 (boot_bytes floppy_boot)))
      ((do
        try_io (in_memory 1024) (serialize (in_memory 1024) floppy_boot)
        try_io (in_memory 1024) ((in_memory 1024).seek (start 0))
        deserialize (in_memory 1024))
        empty_disk)
deserialize-serialize_example =
    deserialize-serialize (in_memory-IsStorage 1024) floppy_boot floppy_boot-FitsBoot
      {s = empty_disk} 0 refl (omega arith)

abbrev pub counters : FsInfoSector
counters = record { free_cluster_count = some 100; next_free_cluster = some 7; dirty = true }

pub counters-FitsInfo : FitsInfo counters
counters-FitsInfo = record { count = λ n h. ground arith; next = λ n h. ground arith }

abbrev at_second : Memory
at_second = memory (λ _. 0) 512

deserialize_fs_info-serialize_fs_info_example :
    Returns
      (λ v u.
        (v ≡ record counters { dirty = false })
        × (bytes_of u ≡ patch (bytes_of empty_disk) 512 (sector_bytes 100 7)))
      ((do
        serialize_fs_info (in_memory 1024) counters
        try_io (in_memory 1024) ((in_memory 1024).seek (start 512))
        deserialize_fs_info (in_memory 1024))
        at_second)
deserialize_fs_info-serialize_fs_info_example =
    deserialize_fs_info-serialize_fs_info (in_memory-IsStorage 1024) counters counters-FitsInfo
      {s = at_second} 512 refl (omega arith)
