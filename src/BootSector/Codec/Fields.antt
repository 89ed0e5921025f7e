-- ===== src/BootSector/Codec/Fields.antt =====
-- The parts of the BIOS parameter block on the storage: their bytes, and that each part is written
-- and read as those.
use embedded_fatfs.Base.{ℕ, ◌≡◌, List, ◌++◌, All, length}
use embedded_fatfs.Base.{refl}
use embedded_fatfs.Base.Bytes.{IsByte, IsU16, IsU32, to_le_bytes}
use embedded_fatfs.Io.{Storage}
use embedded_fatfs.Io.Ends.{Returns, returns, bind, bind_value}
use embedded_fatfs.Io.Laws.{IsStorage}
use embedded_fatfs.Io.Stream.{Ahead, Due, reads, reads_u8, reads_u16_le, reads_u32_le, writes}
use embedded_fatfs.Io.Stream.{writes_u8, writes_u16_le, writes_u32_le}
use embedded_fatfs.BootSector.{Bpb}
use embedded_fatfs.BootSector.Codec.{default_bpb, read_common, read_fat32_fields}
use embedded_fatfs.BootSector.Codec.{read_extended, write_common, write_extended}
use embedded_fatfs.BootSector.Codec.{write_fat32_fields}

-- Every field is in the range of its type.
pub record FitsBpb (b : Bpb) : Type 0 where
  pub bytes_per_sector : IsU16 b.bytes_per_sector
  pub sectors_per_cluster : IsByte b.sectors_per_cluster
  pub reserved_sectors : IsU16 b.reserved_sectors
  pub fats : IsByte b.fats
  pub root_entries : IsU16 b.root_entries
  pub total_sectors_16 : IsU16 b.total_sectors_16
  pub media : IsByte b.media
  pub sectors_per_fat_16 : IsU16 b.sectors_per_fat_16
  pub sectors_per_track : IsU16 b.sectors_per_track
  pub heads : IsU16 b.heads
  pub hidden_sectors : IsU32 b.hidden_sectors
  pub total_sectors_32 : IsU32 b.total_sectors_32
  pub sectors_per_fat_32 : IsU32 b.sectors_per_fat_32
  pub extended_flags : IsU16 b.extended_flags
  pub fs_version : IsU16 b.fs_version
  pub root_dir_first_cluster : IsU32 b.root_dir_first_cluster
  pub fs_info_sector : IsU16 b.fs_info_sector
  pub backup_boot_sector : IsU16 b.backup_boot_sector
  pub reserved_0 : 12 ≡ length b.reserved_0
  pub reserved_0_bytes : All IsByte b.reserved_0
  pub drive_num : IsByte b.drive_num
  pub reserved_1 : IsByte b.reserved_1
  pub ext_sig : IsByte b.ext_sig
  pub volume_id : IsU32 b.volume_id
  pub volume_label : 11 ≡ length b.volume_label
  pub volume_label_bytes : All IsByte b.volume_label
  pub fs_type_label : 8 ≡ length b.fs_type_label
  pub fs_type_label_bytes : All IsByte b.fs_type_label

-- The bytes of a block on the storage, with those that follow.
abbrev pub common_bytes : Bpb → List ℕ → List ℕ
common_bytes b rest =
    to_le_bytes 2 b.bytes_per_sector
    ++ (to_le_bytes 1 b.sectors_per_cluster
        ++ (to_le_bytes 2 b.reserved_sectors
            ++ (to_le_bytes 1 b.fats
                ++ (to_le_bytes 2 b.root_entries
                    ++ (to_le_bytes 2 b.total_sectors_16
                        ++ (to_le_bytes 1 b.media
                            ++ (to_le_bytes 2 b.sectors_per_fat_16
                                ++ (to_le_bytes 2 b.sectors_per_track
                                    ++ (to_le_bytes 2 b.heads
                                        ++ (to_le_bytes 4 b.hidden_sectors
                                            ++ (to_le_bytes 4 b.total_sectors_32 ++ rest)))))))))))

abbrev pub fat32_bytes : Bpb → List ℕ → List ℕ
fat32_bytes b rest =
    to_le_bytes 4 b.sectors_per_fat_32
    ++ (to_le_bytes 2 b.extended_flags
        ++ (to_le_bytes 2 b.fs_version
            ++ (to_le_bytes 4 b.root_dir_first_cluster
                ++ (to_le_bytes 2 b.fs_info_sector
                    ++ (to_le_bytes 2 b.backup_boot_sector ++ (b.reserved_0 ++ rest))))))

abbrev pub extended_bytes : Bpb → List ℕ → List ℕ
extended_bytes b rest =
    to_le_bytes 1 b.drive_num
    ++ (to_le_bytes 1 b.reserved_1
        ++ (to_le_bytes 1 b.ext_sig
            ++ (to_le_bytes 4 b.volume_id ++ (b.volume_label ++ (b.fs_type_label ++ rest)))))

-- A block that has the fields of every layout from `b`, and the others from `d`.
abbrev pub common_of : Bpb → Bpb → Bpb
common_of d b = record d {
  bytes_per_sector = b.bytes_per_sector;
  sectors_per_cluster = b.sectors_per_cluster;
  reserved_sectors = b.reserved_sectors;
  fats = b.fats;
  root_entries = b.root_entries;
  total_sectors_16 = b.total_sectors_16;
  media = b.media;
  sectors_per_fat_16 = b.sectors_per_fat_16;
  sectors_per_track = b.sectors_per_track;
  heads = b.heads;
  hidden_sectors = b.hidden_sectors;
  total_sectors_32 = b.total_sectors_32;
}

abbrev pub fat32_of : Bpb → Bpb → Bpb
fat32_of d b = record d {
  sectors_per_fat_32 = b.sectors_per_fat_32;
  extended_flags = b.extended_flags;
  fs_version = b.fs_version;
  root_dir_first_cluster = b.root_dir_first_cluster;
  fs_info_sector = b.fs_info_sector;
  backup_boot_sector = b.backup_boot_sector;
  reserved_0 = b.reserved_0;
}

abbrev pub extended_of : Bpb → Bpb → Bpb
extended_of d b = record d {
  drive_num = b.drive_num;
  reserved_1 = b.reserved_1;
  ext_sig = b.ext_sig;
  volume_id = b.volume_id;
  volume_label = b.volume_label;
  fs_type_label = b.fs_type_label;
}

module _ {st : Storage} (laws : IsStorage st) (d : ℕ → ℕ) (b : Bpb) (f : FitsBpb b)
    (rest : List ℕ) where
  open st use {State}

  pub read_common_in :
      {s : State}
      → Ahead laws d (common_bytes b rest) s
      → Returns (λ v t. (v ≡ common_of default_bpb b) × Ahead laws d rest t) (read_common st s)
  unfolding read_common
  read_common_in h0 = bind_value _ (reads_u16_le laws d _ f.bytes_per_sector h0) λ _ h1.
      bind_value _ (reads_u8 laws d _ f.sectors_per_cluster h1) λ _ h2.
        bind_value _ (reads_u16_le laws d _ f.reserved_sectors h2) λ _ h3.
          bind_value _ (reads_u8 laws d _ f.fats h3) λ _ h4.
            bind_value _ (reads_u16_le laws d _ f.root_entries h4) λ _ h5.
              bind_value _ (reads_u16_le laws d _ f.total_sectors_16 h5) λ _ h6.
                bind_value _ (reads_u8 laws d _ f.media h6) λ _ h7.
                  bind_value _ (reads_u16_le laws d _ f.sectors_per_fat_16 h7) λ _ h8.
                    bind_value _ (reads_u16_le laws d _ f.sectors_per_track h8) λ _ h9.
                      bind_value _ (reads_u16_le laws d _ f.heads h9) λ _ h10.
                        bind_value _ (reads_u32_le laws d _ f.hidden_sectors h10) λ _ h11.
                          bind_value _ (reads_u32_le laws d _ f.total_sectors_32 h11)
                            λ _ h12. returns (refl, h12)

  pub write_common_in :
      {s : State}
      → Due laws d (common_bytes b rest) s
      → Returns (λ _ t. Due laws d rest t) (write_common st b s)
  unfolding write_common
  write_common_in h0 = bind (writes_u16_le laws d _ _ h0) λ _ _ h1.
      bind (writes_u8 laws d _ _ f.sectors_per_cluster h1) λ _ _ h2.
        bind (writes_u16_le laws d _ _ h2) λ _ _ h3. bind (writes_u8 laws d _ _ f.fats h3) λ _ _ h4.
          bind (writes_u16_le laws d _ _ h4) λ _ _ h5. bind (writes_u16_le laws d _ _ h5) λ _ _ h6.
            bind (writes_u8 laws d _ _ f.media h6) λ _ _ h7.
              bind (writes_u16_le laws d _ _ h7) λ _ _ h8.
                bind (writes_u16_le laws d _ _ h8) λ _ _ h9.
                  bind (writes_u16_le laws d _ _ h9) λ _ _ h10.
                    bind (writes_u32_le laws d _ _ h10) λ _ _ h11. writes_u32_le laws d _ _ h11

  pub read_fat32_in :
      (v : Bpb) {s : State}
      → Ahead laws d (fat32_bytes b rest) s
      → Returns (λ w t. (w ≡ fat32_of v b) × Ahead laws d rest t) (read_fat32_fields st v s)
  unfolding read_fat32_fields
  read_fat32_in v h0 = bind_value _ (reads_u32_le laws d _ f.sectors_per_fat_32 h0) λ _ h1.
      bind_value _ (reads_u16_le laws d _ f.extended_flags h1) λ _ h2.
        bind_value _ (reads_u16_le laws d _ f.fs_version h2) λ _ h3.
          bind_value _ (reads_u32_le laws d _ f.root_dir_first_cluster h3) λ _ h4.
            bind_value _ (reads_u16_le laws d _ f.fs_info_sector h4) λ _ h5.
              bind_value _ (reads_u16_le laws d _ f.backup_boot_sector h5) λ _ h6.
                bind_value _ (reads laws d b.reserved_0 rest f.reserved_0 h6)
                  λ _ h7. returns (refl, h7)

  pub write_fat32_in :
      {s : State}
      → Due laws d (fat32_bytes b rest) s
      → Returns (λ _ t. Due laws d rest t) (write_fat32_fields st b s)
  unfolding write_fat32_fields
  write_fat32_in h0 = bind (writes_u32_le laws d _ _ h0) λ _ _ h1.
      bind (writes_u16_le laws d _ _ h1) λ _ _ h2. bind (writes_u16_le laws d _ _ h2) λ _ _ h3.
        bind (writes_u32_le laws d _ _ h3) λ _ _ h4. bind (writes_u16_le laws d _ _ h4) λ _ _ h5.
          bind (writes_u16_le laws d _ _ h5)
            λ _ _ h6. writes laws d b.reserved_0 rest f.reserved_0_bytes h6

  pub read_extended_in :
      (v : Bpb) {s : State}
      → Ahead laws d (extended_bytes b rest) s
      → Returns (λ w t. (w ≡ extended_of v b) × Ahead laws d rest t) (read_extended st v s)
  unfolding read_extended
  read_extended_in v h0 = bind_value _ (reads_u8 laws d _ f.drive_num h0) λ _ h1.
      bind_value _ (reads_u8 laws d _ f.reserved_1 h1) λ _ h2.
        bind_value _ (reads_u8 laws d _ f.ext_sig h2) λ _ h3.
          bind_value _ (reads_u32_le laws d _ f.volume_id h3) λ _ h4.
            bind_value _ (reads laws d b.volume_label _ f.volume_label h4) λ _ h5.
              bind_value _ (reads laws d b.fs_type_label rest f.fs_type_label h5)
                λ _ h6. returns (refl, h6)

  pub write_extended_in :
      {s : State}
      → Due laws d (extended_bytes b rest) s
      → Returns (λ _ t. Due laws d rest t) (write_extended st b s)
  unfolding write_extended
  write_extended_in h0 = bind (writes_u8 laws d _ _ f.drive_num h0) λ _ _ h1.
      bind (writes_u8 laws d _ _ f.reserved_1 h1) λ _ _ h2.
        bind (writes_u8 laws d _ _ f.ext_sig h2) λ _ _ h3.
          bind (writes_u32_le laws d _ _ h3) λ _ _ h4.
            bind (writes laws d b.volume_label _ f.volume_label_bytes h4)
              λ _ _ h5. writes laws d b.fs_type_label rest f.fs_type_label_bytes h5
