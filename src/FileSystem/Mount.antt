-- ===== src/FileSystem/Mount.antt =====
-- `FileSystem::new` of embedded-fatfs/src/fs.rs, with its debug assertion on the position of the
-- storage.
use embedded_fatfs.Base.Int.{pos}
use embedded_fatfs.Base.{◌==◌, none, Bool, false, if◌then◌else◌}
use embedded_fatfs.Io.{
  Storage, ok, panic, current, Fs, Error, Result, pure, throw, ◌>>=◌, ◌>>◌, start, try_io,
}
use embedded_fatfs.FatType.{from_clusters}
use embedded_fatfs.BootSector.{
  Bpb, status_flags, root_dir_sectors, first_data_sector, total_clusters,
}
use embedded_fatfs.BootSector.{bytes_from_sectors}
use embedded_fatfs.BootSector.Codec.{deserialize}
use embedded_fatfs.BootSector.Validate.{validate, is_32}
use embedded_fatfs.FsInfo.{FsInfoSector, validate_and_fix, deserialize_fs_info}
use embedded_fatfs.FileSystem.{FileSystem, Mounted}

-- `FsInfoSector::default()`
abbrev pub default_info : FsInfoSector
default_info = record { free_cluster_count = none; next_free_cluster = none; dirty = false }

-- The count of a volume that was not unmounted is ignored.
abbrev pub ignore_count : Bool → FsInfoSector → FsInfoSector
ignore_count dirty info = if dirty then record info { free_cluster_count = none } else info

abbrev pub system_of : Bpb → FileSystem
system_of bpb = record {
  fat_type = from_clusters (total_clusters bpb);
  bpb = bpb;
  first_data_sector = first_data_sector bpb;
  root_dir_sectors = root_dir_sectors bpb;
  total_clusters = total_clusters bpb;
}

module _ (st : Storage) where
  open st use {State, Cause}

  -- `result?`
  abbrev pub checked : {A : Type 0} → Result (Error Cause) A → Fs st A
  checked (Result.ok a) = pure a
  checked (Result.err e) = throw e

  unfoldable pub read_info : Bpb → Fs st FsInfoSector
  read_info bpb =
      if is_32 (from_clusters (total_clusters bpb))
      then (do
        try_io st (st.seek (start (bytes_from_sectors bpb bpb.fs_info_sector)))
        deserialize_fs_info st)
      else pure default_info

  abbrev pub mounted : Bpb → FsInfoSector → State → Mounted State
  mounted bpb info s = record {
    device = record { disk = s; current_status_flags = status_flags bpb };
    fs_info = validate_and_fix (total_clusters bpb) (ignore_count (status_flags bpb).dirty info);
  }

  -- The file system holds the disk as it is left behind.
  unfoldable pub mount_at_start : Fs st (FileSystem × Mounted State)
  mount_at_start = do
    boot ← deserialize st
    checked (validate boot)
    info ← read_info boot.bpb
    λ s. ok (system_of boot.bpb, mounted boot.bpb info s) s

  unfoldable pub mount : Fs st (FileSystem × Mounted State)
  mount = do
    at ← try_io st (st.seek (current (pos 0)))
    if at == 0 then mount_at_start else (λ _. panic)
