-- ===== src/File/Reads.antt =====
-- `read` of a file, from the cluster at which its offset points.
use embedded_fatfs.Base.{ℕ, ◌+◌, ◌^◌, ◌≤◌, ◌<◌, ◌≡◌, Option, none, some}
use embedded_fatfs.Base.{List, length}
use embedded_fatfs.Base.Bytes.{slice}
use embedded_fatfs.Io.{Storage}
use embedded_fatfs.Io.Provided.{Provided, IsProvided}
use embedded_fatfs.Io.Laws.{IsStorage}
use embedded_fatfs.DiskSlice.{fat_slice}
use embedded_fatfs.Table.{fat_trait}
use embedded_fatfs.Table.Contract.{Table, IsFat}
use embedded_fatfs.FileSystem.{FileSystem, Mounted, cluster_size, offset_from_cluster}
use embedded_fatfs.FileSystem.Clusters.{volume}
use embedded_fatfs.FileSystem.Flags.{IsWhole}
use embedded_fatfs.FileSystem.Region.{IsRegion}
use embedded_fatfs.FileSystem.Volume.{region_laws}
use embedded_fatfs.FileSystem.Counts.{table_of}
use embedded_fatfs.File.{FileContext, size}
use embedded_fatfs.File.Transfer.{FsOptions, read_size, offset_in_cluster}

-- The date of access changes neither the position nor the size.
record SamePlace (c d : FileContext) : Type 0 where
  offset : d.offset ≡ c.offset
  current : d.current_cluster ≡ c.current_cluster
  first : d.first_cluster ≡ c.first_cluster
  same_size : size d ≡ size c

-- An offset that is no further than the end of the file; a directory has no size.
abbrev pub UpTo : ℕ → Option ℕ → Type 0
UpTo offset none = Unit
UpTo offset (some s) = (offset ≤ s) × (s < 2 ^ 32)

module _ {st : Storage} (laws : IsStorage st) (whole : IsWhole laws) (fs : FileSystem)
    {provided : Provided} (kept : IsProvided provided)
    (region : IsRegion fs laws.size (fat_slice fs.bpb)) {entries : ℕ} {table : (ℕ → ℕ) → Table}
    (fat : IsFat
      (region_laws laws whole fs kept (fat_slice fs.bpb) region)
      (fat_trait (volume st provided fs) fs.fat_type)
      entries
      table)
    (options : FsOptions) where
  open laws use {content}

  abbrev tables : Mounted st.State → Table
  tables = table_of laws whole fs kept region fat

  -- Where the offset points on the disk.
  abbrev pub place : FileContext → ℕ → ℕ
  place c n = offset_from_cluster fs n + offset_in_cluster fs c

  -- What a read leaves behind, and the bytes that it returns.
  abbrev pub Read :
      FileContext → Mounted st.State → ℕ → ℕ → List ℕ → FileContext × Mounted st.State → Type 0
  Read c v n len bs x =
      (length bs ≤ read_size fs c len)
      × (length bs ≤ len)
      × (offset_in_cluster fs c + length bs ≤ cluster_size fs)
      × UpTo (c.offset + length bs) (size c)
      × (0 < read_size fs c len → 0 < length bs)
      × (bs ≡ slice (content x.1.device.disk) (place c n) (length bs))
      × (x.0.offset ≡ c.offset + length bs)
      × (0 < length bs → x.0.current_cluster ≡ some n)
      × (x.0.first_cluster ≡ c.first_cluster)
      × (size x.0 ≡ size c)
      × (tables x.1 ≡ tables v)
      × (x.1.fs_info ≡ v.fs_info)
