-- ===== src/Table/Fat12.antt =====
-- `impl FatTrait for Fat12` of embedded-fatfs/src/table.rs: entries of 12 bits, two in three bytes.
-- Loops take fuel. `find_free` can make at most 2 ^ 32 rounds, since its cluster number runs through
-- all 32-bit values before it repeats.
pub mod Entry
pub mod Access
pub mod Search
pub mod Count
pub mod Laws
use embedded_fatfs.Base.{ℕ, zero, suc, ◌+◌, ◌*◌, ◌/◌, ◌%◌, ◌^◌, bit_and, bit_or, Bool, ◌&&◌}
use embedded_fatfs.Base.{ltb, leb, ◌==◌, if◌then◌else◌}
use embedded_fatfs.Base.Bits.{◌>>>◌, ◌<<<◌}
use embedded_fatfs.Io.{Storage, Fs, start, pure, throw, out_of_fuel, ◌>>=◌, ◌>>◌, try_io, try_exact}
use embedded_fatfs.Io.{not_enough_space, read_u8, read_u16_le, write_u16_le}
use embedded_fatfs.Table.Value.{FatValue, free, data_value, bad, end_of_chain, FatTrait}
use embedded_fatfs.Table.Value.{reserved_fat_entries}

-- `cluster & 1 == 0`
abbrev pub is_even : ℕ → Bool
is_even cluster = bit_and cluster 1 == 0

-- `cluster + (cluster / 2)`
abbrev pub fat_offset : ℕ → ℕ
fat_offset cluster = (cluster + cluster / 2) % 2 ^ 32

-- The entry of `cluster` in the 16 bits that hold it.
unfoldable pub unpack : ℕ → ℕ → ℕ
unpack cluster packed_val = if is_even cluster then bit_and packed_val 0x0FFF else packed_val >>> 4

unfoldable pub decode : ℕ → FatValue
decode val =
    if val == 0
    then free
    else if val == 0xFF7
    then bad
    else if leb 0xFF8 val && leb val 0xFFF
    then end_of_chain
    else data_value val

abbrev pub encode : FatValue → ℕ
encode free = 0
encode bad = 0xFF7
encode end_of_chain = 0xFFF
encode (data_value n) = n

unfoldable pub repack : ℕ → ℕ → ℕ → ℕ
repack cluster old_packed raw_val =
    if is_even cluster
    then bit_or (bit_and old_packed 0xF000) (raw_val % 2 ^ 16)
    else bit_or (bit_and old_packed 0x000F) ((raw_val % 2 ^ 16 <<< 4) % 2 ^ 16)

-- The value that `count_free` tests for an entry.
unfoldable pub count_value : ℕ → ℕ → ℕ → ℕ
count_value cluster packed_val prev_packed_val =
    if is_even cluster
    then bit_and packed_val 0x0FFF
    else bit_or ((packed_val <<< 8) % 2 ^ 16) (prev_packed_val >>> 12)

module _ (st : Storage) where
  open st use {seek}

  unfoldable pub get_raw : ℕ → Fs st ℕ
  get_raw cluster = do
    try_io st (seek (start (fat_offset cluster)))
    packed_val ← try_exact st (read_u16_le st)
    pure (unpack cluster packed_val)

  unfoldable pub get : ℕ → Fs st FatValue
  get cluster = do val ← get_raw cluster; pure (decode val)

  unfoldable pub set_raw : ℕ → ℕ → Fs st (Unit {0})
  set_raw cluster raw_val = do
    try_io st (seek (start (fat_offset cluster)))
    old_packed ← try_exact st (read_u16_le st)
    try_io st (seek (start (fat_offset cluster)))
    try_io st (write_u16_le st (repack cluster old_packed raw_val))

  unfoldable pub set : ℕ → FatValue → Fs st (Unit {0})
  set cluster value = set_raw cluster (encode value)

  -- The 16 bits that hold the next entry, from those of the entry before.
  unfoldable pub next_packed : ℕ → ℕ → Fs st ℕ
  next_packed cluster packed_val = if is_even cluster then try_exact st (read_u16_le st) else do
    next_byte ← try_exact st (read_u8 st)
    pure (bit_or (packed_val >>> 8) ((next_byte <<< 8) % 2 ^ 16))

  unfoldable pub find_free_loop : ℕ → ℕ → ℕ → ℕ → Fs st ℕ
  find_free_loop zero end_cluster cluster packed_val = λ _. out_of_fuel
  find_free_loop (suc fuel) end_cluster cluster packed_val =
      if unpack cluster packed_val == 0
      then pure cluster
      else if (cluster + 1) % 2 ^ 32 == end_cluster
      then throw not_enough_space
      else do
        packed ← next_packed ((cluster + 1) % 2 ^ 32) packed_val
        find_free_loop fuel end_cluster ((cluster + 1) % 2 ^ 32) packed

  unfoldable pub find_free : ℕ → ℕ → Fs st ℕ
  find_free start_cluster end_cluster = do
    try_io st (seek (start (fat_offset start_cluster)))
    packed_val ← try_exact st (read_u16_le st)
    find_free_loop (2 ^ 32) end_cluster start_cluster packed_val

  -- What `count_free` reads for an entry.
  unfoldable pub count_read : ℕ → Fs st ℕ
  count_read cluster =
      if is_even cluster then try_exact st (read_u16_le st) else try_exact st (read_u8 st)

  -- `cluster` and `count` stay at most `end_cluster`, so they cannot wrap.
  unfoldable pub count_free_loop : ℕ → ℕ → ℕ → ℕ → ℕ → Fs st ℕ
  count_free_loop zero end_cluster cluster prev_packed_val count = λ _. out_of_fuel
  count_free_loop (suc fuel) end_cluster cluster prev_packed_val count =
      if ltb cluster end_cluster
      then (do
        packed_val ← count_read cluster
        count_free_loop fuel end_cluster (cluster + 1) packed_val
            (if count_value cluster packed_val prev_packed_val == 0 then count + 1 else count))
      else pure count

  unfoldable pub count_free : ℕ → Fs st ℕ
  count_free end_cluster = do
    try_io st (seek (start (reserved_fat_entries * 3 / 2)))
    count_free_loop (suc end_cluster) end_cluster reserved_fat_entries 0 0

  abbrev pub fat : FatTrait st
  fat = record {
    get_raw = get_raw;
    get = get;
    set_raw = set_raw;
    set = set;
    find_free = find_free;
    count_free = count_free;
  }
