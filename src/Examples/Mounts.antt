-- ===== src/Examples/Mounts.antt =====
-- Mounting a FAT32 volume that was not unmounted.
use embedded_fatfs.Base.{◌≡◌, refl, arith, [], ◌∷◌, replicate, inl}
use embedded_fatfs.Base.Bytes.{patch}
use embedded_fatfs.Io.Ends.{Returns, returns}
use embedded_fatfs.Io.Laws.{IsStorage}
use embedded_fatfs.Io.Memory.{Memory, memory, bytes_of, in_memory, in_memory-IsStorage}
use embedded_fatfs.FatType
use embedded_fatfs.BootSector.{
  Bpb, BootSector, root_dir_sectors, sectors_per_all_fats, first_data_sector, total_clusters,
}
use embedded_fatfs.BootSector.Codec.Fields.{FitsBpb}
use embedded_fatfs.BootSector.Codec.Laws.{FitsBoot, boot_bytes}
use embedded_fatfs.BootSector.Validate.Laws.{IsVolume}
use embedded_fatfs.FsInfo.Laws.{info_bytes}
use embedded_fatfs.FileSystem.Mount.{mount}
use embedded_fatfs.FileSystem.Mounting.{Holds, Mounts, mount_lem}
use embedded_fatfs.Examples.Boot.{zeros-IsByte, spaces-IsByte, counters, counters-FitsInfo}

-- 32 reserved sectors, a table of 600 sectors, and the mark of a volume in use.
abbrev large_bpb : Bpb
large_bpb = record {
  bytes_per_sector = 512;
  sectors_per_cluster = 1;
  reserved_sectors = 32;
  fats = 1;
  root_entries = 0;
  total_sectors_16 = 0;
  media = 0xF8;
  sectors_per_fat_16 = 0;
  sectors_per_track = 63;
  heads = 255;
  hidden_sectors = 0;
  total_sectors_32 = 70000;
  sectors_per_fat_32 = 600;
  extended_flags = 0;
  fs_version = 0;
  root_dir_first_cluster = 2;
  fs_info_sector = 1;
  backup_boot_sector = 6;
  reserved_0 = replicate 12 0;
  drive_num = 0x80;
  reserved_1 = 1;
  ext_sig = 0x29;
  volume_id = 0;
  volume_label = replicate 11 32;
  fs_type_label = replicate 8 32;
}

large-clusters : total_clusters large_bpb ≡ 69368
unfolding total_clusters first_data_sector sectors_per_all_fats root_dir_sectors
large-clusters = refl

large-first : first_data_sector large_bpb ≡ 632
unfolding first_data_sector sectors_per_all_fats root_dir_sectors
large-first = refl

large-IsVolume : IsVolume large_bpb
unfolding FatType.from_clusters
large-IsVolume = record {
  version = refl;
  sector_size = inl refl;
  cluster_size = inl refl;
  reserved = omega arith;
  backup = λ h. omega arith;
  fs_info = λ h. omega arith;
  fats = omega arith;
  root_32 = λ h. refl;
  root_16 = λ h. ground arith;
  sectors_32 = λ h. refl;
  one_total = refl;
  room = rw large-first (omega arith);
  fat_size = λ h. omega arith;
  fat_type = rw large-clusters refl;
  clusters = λ h. omega (arith, large-clusters);
}

large-FitsBpb : FitsBpb large_bpb
large-FitsBpb = record {
  bytes_per_sector = omega arith;
  sectors_per_cluster = omega arith;
  reserved_sectors = omega arith;
  fats = omega arith;
  root_entries = omega arith;
  total_sectors_16 = omega arith;
  media = omega arith;
  sectors_per_fat_16 = omega arith;
  sectors_per_track = omega arith;
  heads = omega arith;
  hidden_sectors = omega arith;
  total_sectors_32 = omega arith;
  sectors_per_fat_32 = omega arith;
  extended_flags = omega arith;
  fs_version = omega arith;
  root_dir_first_cluster = omega arith;
  fs_info_sector = omega arith;
  backup_boot_sector = omega arith;
  reserved_0 = refl;
  reserved_0_bytes = zeros-IsByte 12;
  drive_num = omega arith;
  reserved_1 = omega arith;
  ext_sig = omega arith;
  volume_id = omega arith;
  volume_label = refl;
  volume_label_bytes = spaces-IsByte 11;
  fs_type_label = refl;
  fs_type_label_bytes = spaces-IsByte 8;
}

abbrev large_boot : BootSector
large_boot = record {
  bootjmp = 0xEB ∷ 0x58 ∷ 0x90 ∷ [];
  oem_name = replicate 8 32;
  bpb = large_bpb;
  boot_code = replicate 448 0;
  boot_sig = 0x55 ∷ 0xAA ∷ [];
}

large_boot-FitsBoot : FitsBoot large_boot
large_boot-FitsBoot = record {
  bootjmp = refl;
  bootjmp_bytes = (omega arith, (omega arith, (omega arith, tt)));
  oem_name = refl;
  oem_name_bytes = spaces-IsByte 8;
  bpb = large-FitsBpb;
  canonical = record { unsigned = λ h. absurd (h refl); not_fat32 = λ h. cc };
  code_length = refl;
  code_bytes = zeros-IsByte 420;
  code = refl;
  boot_sig = refl;
  boot_sig_bytes = (omega arith, (omega arith, tt));
}

abbrev large_laws : IsStorage (in_memory 35840000)
large_laws = in_memory-IsStorage 35840000

-- The volume, with its boot sector and its counters.
abbrev large_disk : Memory
large_disk =
    memory
      (patch (patch (λ _. 0) 512 (info_bytes large_laws counters counters-FitsInfo)) 0
        (boot_bytes large_boot))
      0

large-Holds : Holds large_laws large_boot large_boot-FitsBoot counters counters-FitsInfo large_disk
unfolding total_clusters first_data_sector sectors_per_all_fats root_dir_sectors
    FatType.from_clusters
large-Holds = record {
  at_start = refl;
  told = returns (refl, refl, refl);
  boot_sector = record { same = refl; holds = refl; room = omega arith };
  volume = large-IsVolume;
  signature = refl;
  counters = λ q. (refl, omega arith);
}

mount_lem_example :
    Returns
      (λ (fs, v) u.
        Mounts large_laws large_boot large_boot-FitsBoot counters counters-FitsInfo fs v
        × (bytes_of v.device.disk ≡ bytes_of large_disk)
        × (bytes_of u ≡ bytes_of large_disk))
      (mount (in_memory 35840000) large_disk)
mount_lem_example =
    mount_lem large_laws large_boot large_boot-FitsBoot counters counters-FitsInfo large_disk
      large-Holds
