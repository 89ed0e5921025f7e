-- ===== src/Table.antt =====
-- The free functions of embedded-fatfs/src/table.rs, over any of the three layouts.
pub mod Value
pub mod Contract
pub mod Alloc
pub mod Counting
pub mod Fat12
pub mod Fat16
pub mod Fat32
use embedded_fatfs.Base.{ℕ, zero, suc, ◌+◌, ◌-◌, ◌*◌, ◌/◌, ◌%◌, ◌^◌, bit_and, bit_or, Bool, false}
use embedded_fatfs.Base.{Option, none, some, ltb, ◌==◌, if◌then◌else◌, min}
use embedded_fatfs.Io.{Storage, Fs, pure, throw, or_else, ◌>>=◌, ◌>>◌, try_io, Error}
use embedded_fatfs.Io.{write_u8, write_u16_le, write_u32_le}
use embedded_fatfs.FatType.{FatType, fat12, fat16, fat32, bits_per_fat_entry, FsStatusFlags}
use embedded_fatfs.Table.Value.{FatValue, free, data_value, bad, end_of_chain, FatTrait}
use embedded_fatfs.Table.Value.{reserved_fat_entries}

-- The cluster that comes next in a chain.
abbrev pub next_of : FatValue → Option ℕ
next_of (data_value n) = some n
next_of _ = none

-- `hint` where it is a cluster of the volume
abbrev pub start_from : Option ℕ → ℕ → ℕ
start_from none end_cluster = reserved_fat_entries
start_from (some n) end_cluster = if ltb n end_cluster then n else reserved_fat_entries

-- The bits of entry 1 that are clear after an unclean unmount, and after an I/O error.
abbrev pub flags_of : FatType → ℕ → FsStatusFlags
flags_of fat12 val = record { dirty = false; io_error = false }
flags_of fat16 val = record {
  dirty = bit_and val (2 ^ 15) == 0;
  io_error = bit_and val (2 ^ 14) == 0;
}
flags_of fat32 val = record {
  dirty = bit_and val (2 ^ 27) == 0;
  io_error = bit_and val (2 ^ 26) == 0;
}

module _ (st : Storage) where
  -- The match on `fat_type` of the functions below.
  abbrev pub fat_trait : FatType → FatTrait st
  fat_trait fat12 = Fat12.fat st
  fat_trait fat16 = Fat16.fat st
  fat_trait fat32 = Fat32.fat st

  -- Entry 1 as it is stored, where the layout keeps flags in it.
  abbrev pub raw_one : FatType → Fs st ℕ
  raw_one fat12 = pure 0xFFF
  raw_one fat16 = Fat16.get_raw st 1
  raw_one fat32 = Fat32.get_raw st 1

  -- The FAT ID in the two reserved entries, written where the storage stands.
  abbrev pub write_reserved : FatType → ℕ → Fs st (Unit {0})
  write_reserved fat12 media = do try_io st (write_u8 st media); try_io st (write_u16_le st 0xFFFF)
  write_reserved fat16 media = do
    try_io st (write_u16_le st (bit_or media 0xFF00))
    try_io st (write_u16_le st 0xFFFF)
  write_reserved fat32 media = do
    try_io st (write_u32_le st (bit_or media 0xFFF_FF00))
    try_io st (write_u32_le st 0xFFFF_FFFF)

  module _ (fat_type : FatType) where
    unfoldable pub read_fat : ℕ → Fs st FatValue
    read_fat cluster = (fat_trait fat_type).get cluster

    unfoldable pub write_fat : ℕ → FatValue → Fs st (Unit {0})
    write_fat cluster value = (fat_trait fat_type).set cluster value

    unfoldable pub get_next_cluster : ℕ → Fs st (Option ℕ)
    get_next_cluster cluster = do val ← read_fat cluster; pure (next_of val)

    unfoldable pub find_free_cluster : ℕ → ℕ → Fs st ℕ
    find_free_cluster start_cluster end_cluster =
        (fat_trait fat_type).find_free start_cluster end_cluster

    -- A search from `start_cluster` on, and then from the first cluster up to there.
    unfoldable pub search_twice : ℕ → ℕ → Fs st ℕ
    search_twice start_cluster end_cluster s =
        or_else (find_free_cluster start_cluster end_cluster s) λ e.
          if ltb reserved_fat_entries start_cluster
          then find_free_cluster reserved_fat_entries start_cluster
          else throw e

    unfoldable pub link_from : Option ℕ → ℕ → Fs st (Unit {0})
    link_from none new_cluster = pure tt
    link_from (some n) new_cluster = write_fat n (data_value new_cluster)

    unfoldable pub alloc_cluster : Option ℕ → Option ℕ → ℕ → Fs st ℕ
    alloc_cluster prev_cluster hint total_clusters = do
      let end_cluster = (total_clusters + reserved_fat_entries) % 2 ^ 32
      new_cluster ← search_twice (start_from hint end_cluster) end_cluster
      write_fat new_cluster end_of_chain
      link_from prev_cluster new_cluster
      pure new_cluster

    unfoldable pub read_fat_flags : Fs st FsStatusFlags
    read_fat_flags = do val ← raw_one fat_type; pure (flags_of fat_type val)

    unfoldable pub count_free_clusters : ℕ → Fs st ℕ
    count_free_clusters total_clusters =
        (fat_trait fat_type).count_free ((total_clusters + reserved_fat_entries) % 2 ^ 32)

    -- `for cluster in start..end`, with the count of rounds
    unfoldable pub write_range : ℕ → ℕ → FatValue → Fs st (Unit {0})
    write_range zero cluster value = pure tt
    write_range (suc rounds) cluster value = do
      write_fat cluster value
      write_range rounds (cluster + 1) value

    unfoldable pub format_fat : ℕ → ℕ → ℕ → Fs st (Unit {0})
    format_fat media bytes_per_fat total_clusters = do
      write_reserved fat_type media
      let start_cluster = (total_clusters + reserved_fat_entries) % 2 ^ 32
      let end_cluster = bytes_per_fat * 8 % 2 ^ 64 / bits_per_fat_entry fat_type % 2 ^ 32
      write_range (end_cluster - start_cluster) start_cluster end_of_chain
      if ltb 0x0FFF_FFF0 end_cluster
          then write_range (min 0x1000_0000 end_cluster - 0x0FFF_FFF0) 0x0FFF_FFF0 bad
          else pure tt
