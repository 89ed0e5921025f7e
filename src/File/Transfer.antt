-- ===== src/File/Transfer.antt =====
-- `read` and `write` of `File` (embedded-fatfs/src/file.rs). A read into a buffer of `len` bytes
-- returns the bytes that it filled in.
use embedded_fatfs.Base.{
  ℕ, ◌+◌, ◌-◌, ◌%◌, ◌^◌, min, Option, none, some, unwrap_or, Bool, true, if◌then◌else◌, ◌==◌,
}
use embedded_fatfs.Base.{List, [], length, take}
use embedded_fatfs.Io.{Storage, pure, ◌>>=◌, ◌>>◌, start, panic}
use embedded_fatfs.Io.Provided.{Provided}
use embedded_fatfs.Time.{Date, DateTime}
use embedded_fatfs.FileSystem.{
  FileSystem, OnVolume, on_disk, try_device, cluster_size, offset_from_cluster, set_dirty_flag,
}
use embedded_fatfs.FileSystem.Clusters.{alloc_cluster}
use embedded_fatfs.File.{
  FileContext, OnFile, on_volume, edit_context, next_cluster, bytes_left_in_file, set_accessed,
}
use embedded_fatfs.File.{is_dir, set_first_cluster, update_dir_entry_after_write}

abbrev pub max_file_size : ℕ
max_file_size = 2 ^ 32 - 1

-- `FsOptions`, with what the time provider gives during a call
pub record FsOptions : Type 0 where
  pub update_accessed_date : Bool
  pub current_date : Date
  pub current_date_time : DateTime

module _ (fs : FileSystem) (c : FileContext) where
  abbrev pub offset_in_cluster : ℕ
  offset_in_cluster = c.offset % cluster_size fs

  abbrev pub bytes_left_in_cluster : ℕ
  bytes_left_in_cluster = cluster_size fs - offset_in_cluster

  abbrev pub read_size : ℕ → ℕ
  read_size len =
      min (min len bytes_left_in_cluster) (unwrap_or (bytes_left_in_file c) bytes_left_in_cluster)

  abbrev pub write_size : ℕ → ℕ
  write_size len = min (min len bytes_left_in_cluster) (max_file_size - c.offset)

-- The context behind `n` bytes in a cluster.
abbrev pub advanced : ℕ → ℕ → FileContext → FileContext
advanced cluster n c = record c { offset = (c.offset + n) % 2 ^ 32; current_cluster = some cluster }

module _ (st : Storage) (provided : Provided) (fs : FileSystem) (options : FsOptions) where
  abbrev pub touched : FileContext → FileContext
  touched c = if options.update_accessed_date then set_accessed options.current_date c else c

  -- Where the offset points in the storage.
  abbrev pub seek_to_offset : ℕ → ℕ → OnVolume st ℕ
  seek_to_offset cluster offset =
      try_device st (on_disk st (st.seek (start (offset_from_cluster fs cluster + offset))))

  abbrev pub after_read : ℕ → List ℕ → OnFile st (List ℕ)
  after_read cluster bytes =
      if length bytes == 0
      then pure []
      else (do edit_context st (λ c. touched (advanced cluster (length bytes) c)); pure bytes)

  -- The transfer from a cluster, if there is one.
  unfoldable pub read_cluster : FileContext → ℕ → Option ℕ → OnFile st (List ℕ)
  read_cluster c len none = pure []
  read_cluster c len (some cluster) = if read_size fs c len == 0 then pure [] else (do
    on_volume st (seek_to_offset cluster (offset_in_cluster fs c))
    bytes ← on_volume st (try_device st (on_disk st (st.read (read_size fs c len))))
    after_read cluster bytes)

  unfoldable pub cluster_to_read : FileContext → OnVolume st (Option ℕ)
  cluster_to_read c =
      if offset_in_cluster fs c == 0
      then next_cluster st provided fs c.first_cluster c.current_cluster
      else pure c.current_cluster

  unfoldable pub read_file : ℕ → OnFile st (List ℕ)
  read_file len (c, v) =
      (do cluster ← on_volume st (cluster_to_read c); read_cluster c len cluster) (c, v)

  -- The first cluster of an empty file is that of its context and of its entry.
  abbrev pub attach : ℕ → FileContext → Option ℕ → OnFile st (Unit {0})
  attach cluster c none = edit_context st (set_first_cluster fs.fat_type cluster)
  attach cluster c (some _) = pure tt

  unfoldable pub extend_chain : FileContext → Option ℕ → OnFile st ℕ
  extend_chain c (some n) = pure n
  extend_chain c none = do
    cluster ← on_volume st (alloc_cluster st provided fs c.current_cluster (is_dir c))
    attach cluster c c.first_cluster
    pure cluster

  abbrev pub current_or_panic : Option ℕ → OnFile st ℕ
  current_or_panic (some n) = pure n
  current_or_panic none = λ _. panic

  unfoldable pub cluster_to_write : FileContext → OnFile st ℕ
  cluster_to_write c =
      if offset_in_cluster fs c == 0
      then (do
        next ← on_volume st (next_cluster st provided fs c.first_cluster c.current_cluster)
        extend_chain c next)
      else current_or_panic c.current_cluster

  abbrev pub after_write : ℕ → ℕ → OnFile st ℕ
  after_write cluster n = if n == 0 then pure 0 else (do
    edit_context st
        (λ c. update_dir_entry_after_write options.current_date_time (advanced cluster n c))
    pure n)

  unfoldable pub write_cluster : FileContext → List ℕ → ℕ → OnFile st ℕ
  write_cluster c buf cluster = do
    on_volume st (seek_to_offset cluster (offset_in_cluster fs c))
    n ←
        on_volume st
          (try_device st (on_disk st (st.write (take (write_size fs c (length buf)) buf))))
    after_write cluster n

  unfoldable pub write_file : List ℕ → OnFile st ℕ
  write_file buf (c, v) =
      if write_size fs c (length buf) == 0
      then pure 0 (c, v)
      else (do
        on_volume st (try_device st (set_dirty_flag st fs true))
        cluster ← cluster_to_write c
        write_cluster c buf cluster)
          (c, v)
