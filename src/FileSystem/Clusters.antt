-- ===== src/FileSystem/Clusters.antt =====
-- What `FileSystem` does with clusters, counters and flags (embedded-fatfs/src/fs.rs). Chains are
-- freed in as many rounds as `fuel`, and a cluster is zeroed in one round for each of its bytes.
use embedded_fatfs.Base.{
  ℕ, ◌+◌, ◌-◌, ◌%◌, ◌^◌, Option, none, some, Bool, false, ◌&&◌, ◌||◌, if◌then◌else◌,
}
use embedded_fatfs.Io.{Storage, pure, ◌>>=◌, ◌>>◌, start}
use embedded_fatfs.Io.Provided.{Provided}
use embedded_fatfs.FatType.{FsStatusFlags}
use embedded_fatfs.BootSector.{status_flags}
use embedded_fatfs.BootSector.Validate.{is_32}
use embedded_fatfs.FsInfo.{
  FsInfoSector, map_free_clusters, set_next_free_cluster, set_free_cluster_count, serialize_fs_info,
}
use embedded_fatfs.Table
use embedded_fatfs.Table.{read_fat_flags}
use embedded_fatfs.Chain
use embedded_fatfs.FileSystem.{
  FileSystem, OnVolume, on_disk, on_device, try_device, on_fat, edit_info, fat_storage,
  offset_from_cluster,
}
use embedded_fatfs.FileSystem.{cluster_size, offset_from_sector, write_zeros, set_dirty_flag}

pub record FileSystemStats : Type 0 where
  pub cluster_size : ℕ
  pub total_clusters : ℕ
  pub free_clusters : ℕ

-- The counters after cluster `cluster` is taken.
abbrev pub taken_info : ℕ → FsInfoSector → FsInfoSector
taken_info cluster info =
    map_free_clusters (λ n. (n + 2 ^ 32 - 1) % 2 ^ 32)
      (set_next_free_cluster ((cluster + 1) % 2 ^ 32) info)

module _ (st : Storage) (provided : Provided) (fs : FileSystem) where
  open st use {State, Failure, Cause}

  abbrev pub volume : Storage
  volume = fat_storage st fs provided

  unfoldable pub truncate_cluster_chain : ℕ → ℕ → OnVolume st (Unit {0})
  truncate_cluster_chain fuel cluster = do
    num_free ← on_fat st fs provided (Chain.truncate volume fs.fat_type fuel (Chain.new cluster))
    edit_info st (map_free_clusters (λ n. (n + num_free) % 2 ^ 32))

  unfoldable pub free_cluster_chain : ℕ → ℕ → OnVolume st (Unit {0})
  free_cluster_chain fuel cluster = do
    num_free ← on_fat st fs provided (Chain.free_chain volume fs.fat_type fuel (Chain.new cluster))
    edit_info st (map_free_clusters (λ n. (n + num_free) % 2 ^ 32))

  unfoldable pub zero_cluster : ℕ → OnVolume st (Unit {0})
  zero_cluster cluster = do
    try_device st (on_disk st (st.seek (start (offset_from_cluster fs cluster))))
    try_device st (on_disk st (write_zeros st (cluster_size fs) (cluster_size fs)))

  unfoldable pub alloc_cluster : Option ℕ → Bool → OnVolume st ℕ
  alloc_cluster prev_cluster zeroed v =
      (do
        cluster ← on_fat st fs provided (
            Table.alloc_cluster volume fs.fat_type prev_cluster v.fs_info.next_free_cluster
              fs.total_clusters)
        if zeroed then zero_cluster cluster else pure tt
        edit_info st (taken_info cluster)
        pure cluster)
        v

  unfoldable pub read_status_flags : OnVolume st FsStatusFlags
  read_status_flags = do
    let bpb_status = status_flags fs.bpb
    fat_status ← on_fat st fs provided (read_fat_flags volume fs.fat_type)
    pure (record {
      dirty = bpb_status.dirty || fat_status.dirty;
      io_error = bpb_status.io_error || fat_status.io_error;
    })

  unfoldable pub recalc_free_clusters : OnVolume st ℕ
  recalc_free_clusters = do
    n ← on_fat st fs provided (Table.count_free_clusters volume fs.fat_type fs.total_clusters)
    edit_info st (set_free_cluster_count n)
    pure n

  abbrev pub known_or_counted : Option ℕ → OnVolume st ℕ
  known_or_counted (some n) = pure n
  known_or_counted none = recalc_free_clusters

  unfoldable pub stats : OnVolume st FileSystemStats
  stats v =
      (do
        free_clusters ← known_or_counted v.fs_info.free_cluster_count
        pure (record {
          cluster_size = cluster_size fs;
          total_clusters = fs.total_clusters;
          free_clusters = free_clusters;
        }))
        v

  unfoldable pub write_info : FsInfoSector → OnVolume st (Unit {0})
  write_info info = do
    try_device st (on_disk st (st.seek (start (offset_from_sector fs fs.bpb.fs_info_sector))))
    on_device st (on_disk st (serialize_fs_info st info))
    edit_info st (λ i. record i { dirty = false })

  unfoldable pub flush_fs_info : OnVolume st (Unit {0})
  flush_fs_info v =
      (if is_32 fs.fat_type && v.fs_info.dirty then write_info v.fs_info else pure tt) v

  -- `flush`, which is all that `unmount` does
  unfoldable pub flush_volume : OnVolume st (Unit {0})
  flush_volume = do flush_fs_info; try_device st (set_dirty_flag st fs false)
