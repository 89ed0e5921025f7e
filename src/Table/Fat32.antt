-- ===== src/Table/Fat32.antt =====
-- `impl FatTrait for Fat32` of embedded-fatfs/src/table.rs: entries of 28 bits in four bytes, whose
-- top four bits are reserved and kept. The log messages are left out.
pub mod Entry
pub mod Laws
use embedded_fatfs.Base.{ℕ, zero, suc, ◌+◌, ◌*◌, ◌%◌, ◌^◌, ◌&&◌, bit_and, bit_or, Bool}
use embedded_fatfs.Base.{ltb, leb, ◌==◌, if◌then◌else◌}
use embedded_fatfs.Io.{Storage, Fs, start, pure, throw, panic, out_of_fuel, ◌>>=◌, ◌>>◌}
use embedded_fatfs.Io.{try_io, try_exact, not_enough_space, read_u32_le, write_u32_le}
use embedded_fatfs.Table.Value.{FatValue, free, data_value, bad, end_of_chain, is_free, FatTrait}
use embedded_fatfs.Table.Value.{reserved_fat_entries}

-- `cluster * 4`
abbrev pub fat_offset : ℕ → ℕ
fat_offset cluster = cluster * 4 % 2 ^ 32

-- `(0x0FFF_FFF7..=0x0FFF_FFFF).contains(&cluster)`
abbrev pub is_special : ℕ → Bool
is_special cluster = leb 0x0FFF_FFF7 cluster && leb cluster 0x0FFF_FFFF

-- The match on the masked value, its first arm that fits.
unfoldable pub decode : ℕ → ℕ → FatValue
decode cluster val =
    if val == 0 && is_special cluster
    then bad
    else if val == 0
    then free
    else if val == 0x0FFF_FFF7
    then bad
    else if leb 0x0FFF_FFF8 val && leb val 0x0FFF_FFFF
    then end_of_chain
    else if is_special cluster
    then bad
    else data_value val

abbrev pub encode : FatValue → ℕ
encode free = 0
encode bad = 0x0FFF_FFF7
encode end_of_chain = 0x0FFF_FFFF
encode (data_value n) = n

module _ (st : Storage) where
  open st use {seek}

  unfoldable pub get_raw : ℕ → Fs st ℕ
  get_raw cluster = do try_io st (seek (start (fat_offset cluster))); try_exact st (read_u32_le st)

  unfoldable pub get : ℕ → Fs st FatValue
  get cluster = do raw ← get_raw cluster; pure (decode cluster (bit_and raw 0x0FFF_FFFF))

  unfoldable pub set_raw : ℕ → ℕ → Fs st (Unit {0})
  set_raw cluster raw_value = do
    try_io st (seek (start (fat_offset cluster)))
    try_io st (write_u32_le st raw_value)

  unfoldable pub set : ℕ → FatValue → Fs st (Unit {0})
  set cluster value = do
    raw ← get_raw cluster
    if is_free value && is_special cluster
        then (λ _. panic)
        else set_raw cluster (bit_or (encode value) (bit_and raw 0xF000_0000))

  -- In both loops `cluster` stays at most `end_cluster`, so it cannot wrap.
  unfoldable pub find_free_loop : ℕ → ℕ → ℕ → Fs st ℕ
  find_free_loop zero end_cluster cluster = λ _. out_of_fuel
  find_free_loop (suc fuel) end_cluster cluster =
      if ltb cluster end_cluster
      then (do
        raw ← try_exact st (read_u32_le st)
        let rest = find_free_loop fuel end_cluster (cluster + 1)
        if bit_and raw 0x0FFF_FFFF == 0 then pure cluster else rest)
      else throw not_enough_space

  unfoldable pub find_free : ℕ → ℕ → Fs st ℕ
  find_free start_cluster end_cluster = do
    try_io st (seek (start (fat_offset start_cluster)))
    find_free_loop (suc end_cluster) end_cluster start_cluster

  unfoldable pub count_free_loop : ℕ → ℕ → ℕ → ℕ → Fs st ℕ
  count_free_loop zero end_cluster cluster count = λ _. out_of_fuel
  count_free_loop (suc fuel) end_cluster cluster count =
      if ltb cluster end_cluster
      then (do
        raw ← try_exact st (read_u32_le st)
        count_free_loop fuel end_cluster (cluster + 1)
            (if bit_and raw 0x0FFF_FFFF == 0 then count + 1 else count))
      else pure count

  unfoldable pub count_free : ℕ → Fs st ℕ
  count_free end_cluster = do
    try_io st (seek (start (fat_offset reserved_fat_entries)))
    count_free_loop (suc end_cluster) end_cluster reserved_fat_entries 0

  abbrev pub fat : FatTrait st
  fat = record {
    get_raw = get_raw;
    get = get;
    set_raw = set_raw;
    set = set;
    find_free = find_free;
    count_free = count_free;
  }
