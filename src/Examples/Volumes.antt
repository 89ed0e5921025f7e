-- ===== src/Examples/Volumes.antt =====
-- A mounted volume of 24 sectors in memory, with twenty clusters, two tables and one chain.
use embedded_fatfs.Base.{
  ℕ, ◌+◌, ◌-◌, ◌*◌, ◌≤◌, ◌<◌, ◌≡◌, ◌≢◌, refl, arith, [], ◌∷◌, length, replicate, true, false, some,
  fun_ext, sym, ap, min, take_all, subst, inl,
}
use embedded_fatfs.Base.Bytes.{patch, slice, length-slice}
use embedded_fatfs.Io.{not_enough_space}
use embedded_fatfs.Io.Ends.{Ends, Returns, returns}
use embedded_fatfs.Io.Laws.{IsStorage}
use embedded_fatfs.Io.Memory.{Memory, memory, bytes_of, in_memory, in_memory-IsStorage, patch-mod}
use embedded_fatfs.FatType.{FatType, fat12, FsStatusFlags, encode_flags}
use embedded_fatfs.BootSector.{
  Bpb, root_dir_sectors, sectors_per_all_fats, first_data_sector, total_clusters, mirroring_enabled,
}
use embedded_fatfs.BootSector
use embedded_fatfs.DiskSlice.{fat_slice}
use embedded_fatfs.Table.{fat_trait}
use embedded_fatfs.Table.Value.{is_free}
use embedded_fatfs.Table.Contract.{IsFat, IsFree, NoFree, Table}
use embedded_fatfs.Table.Alloc.{Allocated}
use embedded_fatfs.Table.Fat12
use embedded_fatfs.Table.Fat12.Entry
use embedded_fatfs.Table.Fat12.Laws.{fat12-IsFat}
use embedded_fatfs.Chain.Extend.{some-injective}
use embedded_fatfs.Chain.Spec.{Chain, last, link, Freed, Truncated}
use embedded_fatfs.FileSystem.{
  FileSystem, Mounted, set_dirty_flag, flags_offset, sector_from_cluster, offset_from_cluster,
  cluster_size,
}
use embedded_fatfs.FileSystem.Clusters.{
  volume, alloc_cluster, free_cluster_chain, truncate_cluster_chain, stats,
}
use embedded_fatfs.FileSystem.Counts.{table_of, Counted, Placed, Cleared, alloc_cluster-Counted}
use embedded_fatfs.FileSystem.Flags.{IsWhole, set_dirty_flag_lem, Shown}
use embedded_fatfs.FileSystem.Region.{IsRegion, view}
use embedded_fatfs.FileSystem.Volume.{region_laws}
use embedded_fatfs.FileSystem.Frees.{
  free_cluster_chain-Counted, truncate_cluster_chain-Counted, stats-Counted, RightStats,
}
use embedded_fatfs.FileSystem.Volume.{slice_storage-IsStorage}
use embedded_fatfs.FileSystem.Layout.{IsLaidOut, offset_from_cluster-disjoint}
use embedded_fatfs.FileSystem.Mount.{system_of}
use embedded_fatfs.FileSystem.Adapter.{io}
use embedded_fatfs.DiskSlice.Window.{slice_storage}
use embedded_fatfs.BootSector.Validate.Laws.{IsVolume}
use embedded_fatfs.BootSector.{total_sectors, sectors_per_fat}
use embedded_fatfs.Examples.Loops.{loops, loops-IsProvided}

pub in_memory-IsWhole : (size : ℕ) → IsWhole (in_memory-IsStorage size)
in_memory-IsWhole size = record {
  read_some = λ n m hn h.
      let k = min n (size - m.at) in
      let count = length-slice (bytes_of m) m.at k in
      let whole : k ≡ length (slice (bytes_of m) m.at k) = sym count in
      returns
        (omega (arith, count), omega (arith, count), ap (slice (bytes_of m) m.at) whole, refl);
  write_whole = λ bs m h b.
      let all : min (length bs) (size - m.at) ≡ length bs = omega arith in
      rw (all, take_all (length bs) bs (omega arith))
        (returns (refl, fun_ext (λ i. patch-mod m.bytes m.at bs i b)));
}

-- One reserved sector, two tables of one sector, one sector of root directory.
abbrev pub small : Bpb
small = record {
  bytes_per_sector = 512;
  sectors_per_cluster = 1;
  reserved_sectors = 1;
  fats = 2;
  root_entries = 16;
  total_sectors_16 = 24;
  media = 0xF8;
  sectors_per_fat_16 = 1;
  sectors_per_track = 18;
  heads = 2;
  hidden_sectors = 0;
  total_sectors_32 = 0;
  sectors_per_fat_32 = 0;
  extended_flags = 0;
  fs_version = 0;
  root_dir_first_cluster = 0;
  fs_info_sector = 0;
  backup_boot_sector = 0;
  reserved_0 = replicate 12 0;
  drive_num = 0;
  reserved_1 = 0;
  ext_sig = 0x29;
  volume_id = 0;
  volume_label = replicate 11 32;
  fs_type_label = replicate 8 32;
}

abbrev pub fs : FileSystem
fs = record {
  fat_type = fat12;
  bpb = small;
  first_data_sector = 4;
  root_dir_sectors = 1;
  total_clusters = 20;
}

abbrev pub disk_size : ℕ
disk_size = 24 * 512

abbrev pub disk_laws : IsStorage (in_memory disk_size)
disk_laws = in_memory-IsStorage disk_size

pub disk-IsWhole : IsWhole disk_laws
disk-IsWhole = in_memory-IsWhole disk_size

fat_slice-small : fat_slice small ≡ record { begin = 512; size = 512; offset = 0; mirrors = 2 }
unfolding fat_slice mirroring_enabled
fat_slice-small = refl

pub region : IsRegion fs disk_size (fat_slice small)
region =
    rw fat_slice-small (record {
      lim = omega arith;
      mirrored = omega arith;
      room = omega arith;
      behind = omega arith;
    })

abbrev pub keeps : IsStorage (volume (in_memory disk_size) loops fs)
keeps = region_laws disk_laws disk-IsWhole fs loops-IsProvided (fat_slice small) region

table_size : (fat_slice small).size ≡ 512
table_size = ap (λ d. d.size) fat_slice-small

pub fat :
    IsFat keeps (fat_trait (volume (in_memory disk_size) loops fs) fat12) 300 Fat12.Entry.table
fat = fat12-IsFat keeps 300 (omega arith) (omega (arith, table_size))

-- Clusters 2 and 3 are a chain.
abbrev pub mounted_volume : Mounted Memory
mounted_volume = record {
  device = record {
    disk = memory (patch (λ _. 0) 512 (0xF8 ∷ 0xFF ∷ 0xFF ∷ 0x03 ∷ 0xF0 ∷ 0xFF ∷ [])) 0;
    current_status_flags = record { dirty = false; io_error = false };
  };
  fs_info = record { free_cluster_count = some 18; next_free_cluster = some 2; dirty = false };
}

abbrev pub table_now : Mounted Memory → Table
table_now = table_of disk_laws disk-IsWhole fs loops-IsProvided region fat

pub counted : Counted disk_laws disk-IsWhole fs loops-IsProvided region fat mounted_volume
unfolding fat_slice mirroring_enabled Fat12.decode
counted = refl

pub placed : Placed disk_laws disk-IsWhole fs loops-IsProvided region fat
unfolding fat_slice mirroring_enabled offset_from_cluster sector_from_cluster
    BootSector.cluster_size BootSector.sectors_from_clusters
placed = λ n lo hi. (omega arith, omega arith)

pub chain : Chain (table_now mounted_volume) 2 (2 ∷ 3 ∷ [])
unfolding fat_slice mirroring_enabled Fat12.decode
chain = link refl (last refl)

pub last_used : is_free (table_now mounted_volume 3) ≡ false
unfolding fat_slice mirroring_enabled Fat12.decode
last_used = refl

pub last_used_as :
    (p : ℕ) → some 3 ≡ some p → (p < 300) × (is_free (table_now mounted_volume p) ≡ false)
last_used_as p q =
    let e = some-injective 3 p q in
    (omega arith, subst (λ x. is_free (table_now mounted_volume x) ≡ false) e last_used)

alloc_cluster-Counted_example :
    Ends
      (λ n w.
        (2 ≤ n)
        × (n < 22)
        × IsFree (table_now mounted_volume) n
        × Allocated 300 (table_now mounted_volume) (some 3) n (table_now w)
        × Cleared disk_laws disk-IsWhole fs loops-IsProvided region fat true n w
        × (w.fs_info.next_free_cluster ≡ some (n + 1))
        × Counted disk_laws disk-IsWhole fs loops-IsProvided region fat w)
      (λ e w.
        (e ≡ not_enough_space)
        × NoFree (table_now mounted_volume) 2 22
        × (table_now w ≡ table_now mounted_volume)
        × (w.fs_info ≡ mounted_volume.fs_info))
      (alloc_cluster (in_memory disk_size) loops fs (some 3) true mounted_volume)
alloc_cluster-Counted_example =
    alloc_cluster-Counted disk_laws disk-IsWhole fs loops-IsProvided region fat (some 3) true
      mounted_volume (omega arith) (omega arith) placed last_used_as (λ h q. ground arith) counted

set_dirty_flag_lem_example :
    Returns
      (λ _ w.
        (w.current_status_flags.dirty ≡ true)
        × (w.current_status_flags.io_error ≡ false)
        × (Shown disk_laws fs 37 mounted_volume.device → Shown disk_laws fs 37 w)
        × ((i : ℕ) → i ≢ 37 → bytes_of w.disk i ≡ bytes_of mounted_volume.device.disk i))
      (set_dirty_flag (in_memory disk_size) fs true mounted_volume.device)
set_dirty_flag_lem_example =
    set_dirty_flag_lem disk_laws fs true mounted_volume.device (omega arith)

free_cluster_chain-Counted_example :
    Returns
      (λ _ w.
        Freed 300 (table_now mounted_volume) (2 ∷ 3 ∷ []) (table_now w)
        × Counted disk_laws disk-IsWhole fs loops-IsProvided region fat w)
      (free_cluster_chain (in_memory disk_size) loops fs 10 2 mounted_volume)
free_cluster_chain-Counted_example =
    free_cluster_chain-Counted disk_laws disk-IsWhole fs loops-IsProvided region fat mounted_volume
      (omega arith) counted 10 chain ((omega arith, tt), (tt, tt))
      ((omega arith, omega arith), ((omega arith, omega arith), tt)) (omega arith)

truncate_cluster_chain-Counted_example :
    Returns
      (λ _ w.
        Truncated 300 (table_now mounted_volume) (2 ∷ 3 ∷ []) (table_now w)
        × Counted disk_laws disk-IsWhole fs loops-IsProvided region fat w)
      (truncate_cluster_chain (in_memory disk_size) loops fs 10 2 mounted_volume)
truncate_cluster_chain-Counted_example =
    truncate_cluster_chain-Counted disk_laws disk-IsWhole fs loops-IsProvided region fat
      mounted_volume (omega arith) counted 10 chain ((omega arith, tt), (tt, tt))
      ((omega arith, omega arith), ((omega arith, omega arith), tt)) (omega arith)

stats-Counted_example :
    Returns
      (RightStats disk_laws disk-IsWhole fs loops-IsProvided region fat mounted_volume
        (omega arith)
        counted)
      (stats (in_memory disk_size) loops fs mounted_volume)
stats-Counted_example =
    stats-Counted disk_laws disk-IsWhole fs loops-IsProvided region fat mounted_volume (omega arith)
      counted

slice_storage-IsStorage_example :
    (k : IsStorage
      (slice_storage (io disk_laws disk-IsWhole fs loops-IsProvided) loops (fat_slice small)))
    × (k.size ≡ (fat_slice small).size)
    × (k.position ≡ (λ s. s.0))
    × (k.content ≡ (λ s. view (fat_slice small) (bytes_of s.1.disk)))
slice_storage-IsStorage_example =
    slice_storage-IsStorage disk_laws disk-IsWhole fs loops-IsProvided (fat_slice small) region

small-first : first_data_sector small ≡ 4
unfolding first_data_sector sectors_per_all_fats root_dir_sectors
small-first = refl

small-clusters : total_clusters small ≡ 20
unfolding total_clusters first_data_sector sectors_per_all_fats root_dir_sectors
small-clusters = refl

small-IsVolume : IsVolume small
unfolding embedded_fatfs.FatType.from_clusters
small-IsVolume = record {
  version = refl;
  sector_size = inl refl;
  cluster_size = inl refl;
  reserved = omega arith;
  backup = λ h. ground arith;
  fs_info = λ h. ground arith;
  fats = omega arith;
  root_32 = λ h. ground arith;
  root_16 = λ h. omega arith;
  sectors_32 = λ h. ground arith;
  one_total = refl;
  room = omega (arith, small-first);
  fat_size = λ h. ground arith;
  fat_type = rw small-clusters refl;
  clusters = λ h. ground arith;
}

small-IsLaidOut : IsLaidOut small disk_size
unfolding root_dir_sectors mirroring_enabled
small-IsLaidOut = record {
  volume = small-IsVolume;
  sectors = omega arith;
  regions = omega arith;
  active = λ q. cc;
  disk = omega arith;
  lim = omega arith;
}

offset_from_cluster-disjoint_example :
    (flags_offset (system_of small).fat_type < (fat_slice small).begin)
    × ((fat_slice small).begin + (fat_slice small).mirrors * (fat_slice small).size
        ≤ first_data_sector small * 512)
    × ((n : ℕ)
        → 2 ≤ n
        → n < total_clusters small + 2
        → (first_data_sector small * 512 ≤ offset_from_cluster (system_of small) n)
          × (offset_from_cluster (system_of small) n + cluster_size (system_of small) ≤ disk_size))
    × ((n m : ℕ)
        → 2 ≤ n
        → n < m
        → m < total_clusters small + 2
        → offset_from_cluster (system_of small) n + cluster_size (system_of small)
          ≤ offset_from_cluster (system_of small) m)
offset_from_cluster-disjoint_example = offset_from_cluster-disjoint small small-IsLaidOut
