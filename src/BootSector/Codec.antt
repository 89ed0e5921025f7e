-- ===== src/BootSector/Codec.antt =====
-- Reading and writing the boot sector, field by field. The functions are cut in parts: the fields
-- of every layout, those of FAT32 only, and those behind them.
pub mod Fields
pub mod Laws
use embedded_fatfs.Base.{ℕ, List, [], ◌==◌, if◌then◌else◌, not, take, ◌++◌, replicate}
use embedded_fatfs.Io.{Storage, Cmd, Fs, pure, ◌>>=◌, ◌>>◌, try_exact}
use embedded_fatfs.Io.{read_u8, read_u16_le, read_u32_le, write_u8, write_u16_le, write_u32_le}
use embedded_fatfs.BootSector.{BiosParameterBlock, Bpb, BootSector, is_fat32}

-- `BiosParameterBlock::default()`
abbrev pub default_bpb : Bpb
default_bpb = record {
  bytes_per_sector = 0;
  sectors_per_cluster = 0;
  reserved_sectors = 0;
  fats = 0;
  root_entries = 0;
  total_sectors_16 = 0;
  media = 0;
  sectors_per_fat_16 = 0;
  sectors_per_track = 0;
  heads = 0;
  hidden_sectors = 0;
  total_sectors_32 = 0;
  sectors_per_fat_32 = 0;
  extended_flags = 0;
  fs_version = 0;
  root_dir_first_cluster = 0;
  fs_info_sector = 0;
  backup_boot_sector = 0;
  reserved_0 = replicate 12 0;
  drive_num = 0;
  reserved_1 = 0;
  ext_sig = 0;
  volume_id = 0;
  volume_label = replicate 11 0;
  fs_type_label = replicate 8 0;
}

-- The last step of `deserialize`: without the extended signature the fields behind it are cleared.
abbrev pub clear_unsigned : Bpb → Bpb
clear_unsigned b =
    if b.ext_sig == 0x29
    then b
    else record b { volume_id = 0; volume_label = replicate 11 0; fs_type_label = replicate 8 0 }

-- The length of the boot code that is stored; the array has 448 bytes.
abbrev pub code_size : Bpb → ℕ
code_size b = if is_fat32 b then 420 else 448

module _ (st : Storage) where
  open st use {State, Failure, read_exact, write_all, flush}

  abbrev u8 : Fs st ℕ
  u8 = try_exact st (read_u8 st)

  abbrev u16 : Fs st ℕ
  u16 = try_exact st (read_u16_le st)

  abbrev u32 : Fs st ℕ
  u32 = try_exact st (read_u32_le st)

  abbrev bytes : ℕ → Fs st (List ℕ)
  bytes n = try_exact st (read_exact n)

  unfoldable pub read_common : Fs st Bpb
  read_common = do
    bytes_per_sector ← u16
    sectors_per_cluster ← u8
    reserved_sectors ← u16
    fats ← u8
    root_entries ← u16
    total_sectors_16 ← u16
    media ← u8
    sectors_per_fat_16 ← u16
    sectors_per_track ← u16
    heads ← u16
    hidden_sectors ← u32
    total_sectors_32 ← u32
    pure (record default_bpb {
      bytes_per_sector = bytes_per_sector;
      sectors_per_cluster = sectors_per_cluster;
      reserved_sectors = reserved_sectors;
      fats = fats;
      root_entries = root_entries;
      total_sectors_16 = total_sectors_16;
      media = media;
      sectors_per_fat_16 = sectors_per_fat_16;
      sectors_per_track = sectors_per_track;
      heads = heads;
      hidden_sectors = hidden_sectors;
      total_sectors_32 = total_sectors_32;
    })

  unfoldable pub read_fat32_fields : Bpb → Fs st Bpb
  read_fat32_fields bpb = do
    sectors_per_fat_32 ← u32
    extended_flags ← u16
    fs_version ← u16
    root_dir_first_cluster ← u32
    fs_info_sector ← u16
    backup_boot_sector ← u16
    reserved_0 ← bytes 12
    pure (record bpb {
      sectors_per_fat_32 = sectors_per_fat_32;
      extended_flags = extended_flags;
      fs_version = fs_version;
      root_dir_first_cluster = root_dir_first_cluster;
      fs_info_sector = fs_info_sector;
      backup_boot_sector = backup_boot_sector;
      reserved_0 = reserved_0;
    })

  unfoldable pub read_extended : Bpb → Fs st Bpb
  read_extended bpb = do
    drive_num ← u8
    reserved_1 ← u8
    ext_sig ← u8
    volume_id ← u32
    volume_label ← bytes 11
    fs_type_label ← bytes 8
    pure (record bpb {
      drive_num = drive_num;
      reserved_1 = reserved_1;
      ext_sig = ext_sig;
      volume_id = volume_id;
      volume_label = volume_label;
      fs_type_label = fs_type_label;
    })

  unfoldable pub deserialize_bpb : Fs st Bpb
  deserialize_bpb = do
    common ← read_common
    bpb ← if is_fat32 common then read_fat32_fields common else pure common
    whole ← read_extended bpb
    pure (clear_unsigned whole)

  unfoldable pub write_common : Bpb → Cmd State Failure (Unit {0})
  write_common b = do
    write_u16_le st b.bytes_per_sector
    write_u8 st b.sectors_per_cluster
    write_u16_le st b.reserved_sectors
    write_u8 st b.fats
    write_u16_le st b.root_entries
    write_u16_le st b.total_sectors_16
    write_u8 st b.media
    write_u16_le st b.sectors_per_fat_16
    write_u16_le st b.sectors_per_track
    write_u16_le st b.heads
    write_u32_le st b.hidden_sectors
    write_u32_le st b.total_sectors_32

  unfoldable pub write_fat32_fields : Bpb → Cmd State Failure (Unit {0})
  write_fat32_fields b = do
    write_u32_le st b.sectors_per_fat_32
    write_u16_le st b.extended_flags
    write_u16_le st b.fs_version
    write_u32_le st b.root_dir_first_cluster
    write_u16_le st b.fs_info_sector
    write_u16_le st b.backup_boot_sector
    write_all b.reserved_0

  unfoldable pub write_extended : Bpb → Cmd State Failure (Unit {0})
  write_extended b = do
    write_u8 st b.drive_num
    write_u8 st b.reserved_1
    write_u8 st b.ext_sig
    write_u32_le st b.volume_id
    write_all b.volume_label
    write_all b.fs_type_label

  unfoldable pub serialize_bpb : Bpb → Cmd State Failure (Unit {0})
  serialize_bpb b = do
    write_common b
    if is_fat32 b then write_fat32_fields b else pure tt
    write_extended b
    flush

  unfoldable pub deserialize : Fs st BootSector
  deserialize = do
    bootjmp ← bytes 3
    oem_name ← bytes 8
    bpb ← deserialize_bpb
    code ← bytes (code_size bpb)
    boot_sig ← bytes 2
    pure (record {
      bootjmp = bootjmp;
      oem_name = oem_name;
      bpb = bpb;
      boot_code = if is_fat32 bpb then code ++ replicate 28 0 else code;
      boot_sig = boot_sig;
    })

  unfoldable pub serialize : BootSector → Cmd State Failure (Unit {0})
  serialize boot = do
    write_all boot.bootjmp
    write_all boot.oem_name
    serialize_bpb boot.bpb
    write_all (take (code_size boot.bpb) boot.boot_code)
    write_all boot.boot_sig
    flush
