-- ===== src/FileSystem.antt =====
-- `FileSystem` and `FsIoAdapter` of embedded-fatfs/src/fs.rs. The fields that mounting sets are the
-- record `FileSystem`; the disk, the counters and the status flags, which are behind cells and change
-- through a shared reference, are the state.
pub mod Clusters
pub mod Mount
pub mod Flags
pub mod Region
pub mod Adapter
pub mod Volume
pub mod Zeros
pub mod Counts
pub mod Frees
pub mod Layout
pub mod Numbers
pub mod Mounting
use embedded_fatfs.Base.{
  ℕ, zero, suc, ◌+◌, ◌-◌, ◌%◌, ◌^◌, min, Bool, ◌&&◌, ◌||◌, ltb, ◌==◌, if◌then◌else◌,
}
use embedded_fatfs.Base.{List, take, replicate}
use embedded_fatfs.Io.{
  Storage, Run, Cmd, Error, ok, err, panic, out_of_fuel, pure, ◌>>=◌, ◌>>◌, start, map_err,
  write_u8,
}
use embedded_fatfs.Io.Provided.{Provided}
use embedded_fatfs.FatType.{FatType, fat32, FsStatusFlags, encode_flags}
use embedded_fatfs.BootSector.{Bpb, status_flags, bytes_from_sectors, sectors_from_clusters}
use embedded_fatfs.BootSector
use embedded_fatfs.BootSector.Validate.{same, is_32}
use embedded_fatfs.FsInfo.{FsInfoSector}
use embedded_fatfs.Table.Value.{reserved_fat_entries}
use embedded_fatfs.DiskSlice
use embedded_fatfs.DiskSlice.Window.{slice_storage, keep_offset}
use embedded_fatfs.DirEntry.ShortName.{filled_len}

pub record FileSystem : Type 0 where
  pub fat_type : FatType
  pub bpb : Bpb
  pub first_data_sector : ℕ
  pub root_dir_sectors : ℕ
  pub total_clusters : ℕ

-- What the adapter under the table changes: the disk, and the flags that were last written to it.
pub record Flagged (State : Type 0) : Type 0 where
  pub disk : State
  pub current_status_flags : FsStatusFlags

pub record Mounted (State : Type 0) : Type 0 where
  pub device : Flagged State
  pub fs_info : FsInfoSector

module _ (fs : FileSystem) where
  unfoldable pub volume_label_as_bytes : List ℕ
  volume_label_as_bytes = take (filled_len fs.bpb.volume_label) fs.bpb.volume_label

  abbrev pub offset_from_sector : ℕ → ℕ
  offset_from_sector sector = bytes_from_sectors fs.bpb sector

  unfoldable pub sector_from_cluster : ℕ → ℕ
  sector_from_cluster cluster =
      (fs.first_data_sector
        + sectors_from_clusters fs.bpb ((cluster + 2 ^ 32 - reserved_fat_entries) % 2 ^ 32))
      % 2 ^ 32

  abbrev pub cluster_size : ℕ
  cluster_size = BootSector.cluster_size fs.bpb

  unfoldable pub offset_from_cluster : ℕ → ℕ
  offset_from_cluster cluster = offset_from_sector (sector_from_cluster cluster)

  abbrev pub bytes_from_clusters : ℕ → ℕ
  bytes_from_clusters clusters = bytes_from_sectors fs.bpb (sectors_from_clusters fs.bpb clusters)

  abbrev pub clusters_from_bytes : ℕ → ℕ
  clusters_from_bytes bytes = BootSector.clusters_from_bytes fs.bpb bytes

-- `==` of `FsStatusFlags`
abbrev pub same_flags : FsStatusFlags → FsStatusFlags → Bool
same_flags f g = same f.dirty g.dirty && same f.io_error g.io_error

-- The flags of the boot sector, which are kept, with the mark of a volume in use.
abbrev pub marked : Bpb → Bool → FsStatusFlags
marked bpb dirty = record (status_flags bpb) { dirty = (status_flags bpb).dirty || dirty }

-- Where the flags are in the boot sector.
abbrev pub flags_offset : FatType → ℕ
flags_offset fat_type = if is_32 fat_type then 0x041 else 0x025

module _ (st : Storage) where
  open st use {State, Failure, Cause}

  abbrev pub beside_disk : {X A : Type 0} → Flagged State → Run State X A → Run (Flagged State) X A
  beside_disk v (ok a t) = ok a (record v { disk = t })
  beside_disk v (err e t) = err e (record v { disk = t })
  beside_disk v panic = panic
  beside_disk v out_of_fuel = out_of_fuel

  -- A call of `self.disk`.
  abbrev pub on_disk : {X A : Type 0} → Cmd State X A → Cmd (Flagged State) X A
  on_disk m v = beside_disk v (m v.disk)

  abbrev pub put_flags : {X : Type 0} → FsStatusFlags → Cmd (Flagged State) X (Unit {0})
  put_flags flags v = ok tt (record v { current_status_flags = flags })

  -- `FileSystem` methods whose errors are those of the file system.
  abbrev pub OnVolume : Type 0 → Type 0
  OnVolume A = Cmd (Mounted State) (Error Cause) A

  abbrev pub beside_info :
      {X A : Type 0} → Mounted State → Run (Flagged State) X A → Run (Mounted State) X A
  beside_info v (ok a t) = ok a (record v { device = t })
  beside_info v (err e t) = err e (record v { device = t })
  beside_info v panic = panic
  beside_info v out_of_fuel = out_of_fuel

  -- A call that leaves the counters alone.
  abbrev pub on_device : {X A : Type 0} → Cmd (Flagged State) X A → Cmd (Mounted State) X A
  on_device m v = beside_info v (m v.device)

  -- `?` after a call of the disk, or of a method that fails as the disk does
  abbrev pub try_device : {A : Type 0} → Cmd (Flagged State) Failure A → OnVolume A
  try_device m = on_device (λ v. map_err st.into_error (m v))

  abbrev pub edit_info : (FsInfoSector → FsInfoSector) → OnVolume (Unit {0})
  edit_info f v = ok tt (record v { fs_info = f v.fs_info })

  -- The loop of `write_zeros`, with the bound on its rounds.
  unfoldable pub write_zeros : ℕ → ℕ → Cmd State Failure (Unit {0})
  write_zeros fuel zero = pure tt
  write_zeros zero (suc n) = λ _. out_of_fuel
  write_zeros (suc fuel) (suc n) = do
    let write_size = min (suc n) 512
    st.write_all (replicate write_size 0)
    write_zeros fuel (suc n - write_size)

  module _ (fs : FileSystem) where
    unfoldable pub write_flags : FsStatusFlags → Cmd (Flagged State) Failure (Unit {0})
    write_flags flags = do
      on_disk (st.seek (start (flags_offset fs.fat_type)))
      on_disk (write_u8 st (encode_flags flags))
      on_disk st.flush
      put_flags flags

    unfoldable pub set_dirty_flag : Bool → Cmd (Flagged State) Failure (Unit {0})
    set_dirty_flag dirty v =
        if same_flags (marked fs.bpb dirty) v.current_status_flags
        then ok tt v
        else write_flags (marked fs.bpb dirty) v

    unfoldable pub write_adapter : List ℕ → Cmd (Flagged State) Failure ℕ
    write_adapter buf = do
      size ← on_disk (st.write buf)
      if ltb 0 size then set_dirty_flag Bool.true else pure tt
      pure size

    module _ (provided : Provided) where
      -- `impl Read, Write and Seek for FsIoAdapter`
      abbrev pub io_adapter : Storage
      io_adapter = record {
        State = Flagged State;
        Failure = Failure;
        Cause = Cause;
        into_error = st.into_error;
        seek = λ target. on_disk (st.seek target);
        read = λ len. on_disk (st.read len);
        write = write_adapter;
        flush = on_disk st.flush;
        read_exact = provided.read_exact (λ len. on_disk (st.read len));
        write_all = provided.write_all write_adapter;
      }

      -- `FileSystem::fat_slice`, as a storage
      abbrev pub fat_storage : Storage
      fat_storage = slice_storage io_adapter provided (DiskSlice.fat_slice fs.bpb)

      -- The offset with which a new slice starts is 0.
      abbrev pub drop_offset :
          {X A : Type 0} → Run (ℕ × Flagged State) X A → Run (Flagged State) X A
      drop_offset (ok a (_, v)) = ok a v
      drop_offset (err e (_, v)) = err e v
      drop_offset panic = panic
      drop_offset out_of_fuel = out_of_fuel

      abbrev pub on_fat : {A : Type 0} → Cmd (ℕ × Flagged State) (Error Cause) A → OnVolume A
      on_fat m = on_device (λ v. drop_offset (m (0, v)))
