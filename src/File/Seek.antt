-- ===== src/File/Seek.antt =====
-- `seek` of `File` (embedded-fatfs/src/file.rs).
use embedded_fatfs.Base.{
  ℕ, zero, suc, ◌+◌, ◌-◌, ◌%◌, ◌^◌, min, Option, none, some, if◌then◌else◌, ◌==◌, ltb,
}
use embedded_fatfs.Base.Int.{ℤ, pos, negsuc, ◌+ℤ◌}
use embedded_fatfs.Io.{
  Storage, Result, Fs, panic, pure, throw, ◌>>=◌, ◌>>◌, SeekFrom, start, end, current,
  invalid_input,
}
use embedded_fatfs.Io.Provided.{Provided}
use embedded_fatfs.Chain.{ClusterIterator, Item}
use embedded_fatfs.Chain
use embedded_fatfs.FileSystem.{
  FileSystem, OnVolume, on_fat, bytes_from_clusters, clusters_from_bytes,
}
use embedded_fatfs.File.{FileContext, OnFile, on_volume, edit_context, size, volume_of}

-- `u32::try_from`
abbrev pub fits_u32 : ℕ → Option ℕ
fits_u32 n = if ltb n (2 ^ 32) then some n else none

-- `u32::try_from` of an i64; where the sum overflowed the i64 it is out of range for a u32, too.
abbrev pub u32_of : ℤ → Option ℕ
u32_of (pos n) = fits_u32 n
u32_of (negsuc n) = none

abbrev pub from_end : ℤ → Option ℕ → Option ℕ
from_end o none = none
from_end o (some s) = u32_of (pos s +ℤ o)

abbrev pub target_offset : FileContext → SeekFrom → Option ℕ
target_offset c (current x) = u32_of (pos c.offset +ℤ x)
target_offset c (start x) = fits_u32 x
target_offset c (end o) = from_end o (size c)

-- A seek beyond the end goes to the end.
abbrev pub clipped : ℕ → Option ℕ → ℕ
clipped n none = n
clipped n (some s) = min n s

module _ (st : Storage) (provided : Provided) (fs : FileSystem) where
  -- `if let Some(r) = iter.next() { r? } else { stop }`
  abbrev pub after_item :
      {A : Type 0}
      → Item (volume_of st provided fs)
      → Fs (volume_of st provided fs) A
      → (ℕ → Fs (volume_of st provided fs) A)
      → Fs (volume_of st provided fs) A
  after_item none stop go = stop
  after_item (some (Result.ok n)) stop go = go n
  after_item (some (Result.err e)) stop go = throw e

  -- The loop over the clusters to skip, from round `i` on: the cluster that it ends in, and the
  -- new offset, which is the end of the chain where that is before it.
  unfoldable pub skip_clusters :
      ℕ → ℕ → ℕ → ℕ → ClusterIterator → Fs (volume_of st provided fs) (ℕ × ℕ)
  skip_clusters zero i cluster new_offset it = pure (cluster, new_offset)
  skip_clusters (suc rounds) i cluster new_offset it = do
    (r, it') ← Chain.next (volume_of st provided fs) fs.fat_type it
    after_item r (pure (cluster, bytes_from_clusters fs (i + 1) % 2 ^ 32))
        (λ n. skip_clusters rounds (i + 1) n new_offset it')

  abbrev pub walk : ℕ → Option ℕ → OnVolume st (Option ℕ × ℕ)
  walk new_offset none = pure (none, 0)
  walk new_offset (some first) =
      if clusters_from_bytes fs new_offset == 0 then (λ _. panic) else (do
        (cluster, end_offset) ← on_fat st fs provided (
            skip_clusters (clusters_from_bytes fs new_offset - 1) 0 first new_offset
              (Chain.new first))
        pure (some cluster, end_offset))

  -- The cluster for a new offset, and the offset that the chain has room for.
  unfoldable pub find_cluster : FileContext → ℕ → OnVolume st (Option ℕ × ℕ)
  find_cluster c new_offset =
      if new_offset == 0
      then pure (none, new_offset)
      else if clusters_from_bytes fs new_offset == clusters_from_bytes fs c.offset
      then pure (c.current_cluster, new_offset)
      else walk new_offset c.first_cluster

  abbrev pub move_to : FileContext → ℕ → OnFile st ℕ
  move_to c new_offset = if new_offset == c.offset then pure c.offset else (do
    (new_cluster, offset) ← on_volume st (find_cluster c new_offset)
    edit_context st (λ d. record d { offset = offset; current_cluster = new_cluster })
    pure offset)

  abbrev pub seek_to : FileContext → Option ℕ → OnFile st ℕ
  seek_to c none = throw invalid_input
  seek_to c (some n) = move_to c (clipped n (size c))

  unfoldable pub seek_file : SeekFrom → OnFile st ℕ
  seek_file target (c, v) = seek_to c (target_offset c target) (c, v)
