-- ===== src/Table/Fat16.antt =====
-- `impl FatTrait for Fat16` of embedded-fatfs/src/table.rs: entries of two bytes.
pub mod Laws
use embedded_fatfs.Base.{ℕ, zero, suc, ◌+◌, ◌*◌, ◌%◌, ◌^◌, ◌&&◌, ltb, leb, ◌==◌, if◌then◌else◌}
use embedded_fatfs.Io.{Storage, Fs, start, pure, throw, out_of_fuel, ◌>>=◌, ◌>>◌, try_io, try_exact}
use embedded_fatfs.Io.{not_enough_space, read_u16_le, write_u16_le}
use embedded_fatfs.Table.Value.{FatValue, free, data_value, bad, end_of_chain, FatTrait}
use embedded_fatfs.Table.Value.{reserved_fat_entries}

-- `cluster * 2`
abbrev pub fat_offset : ℕ → ℕ
fat_offset cluster = cluster * 2 % 2 ^ 32

unfoldable pub decode : ℕ → FatValue
decode val =
    if val == 0
    then free
    else if val == 0xFFF7
    then bad
    else if leb 0xFFF8 val && leb val 0xFFFF
    then end_of_chain
    else data_value val

abbrev pub encode : FatValue → ℕ
encode free = 0
encode bad = 0xFFF7
encode end_of_chain = 0xFFFF
encode (data_value n) = n

module _ (st : Storage) where
  open st use {seek}

  unfoldable pub get_raw : ℕ → Fs st ℕ
  get_raw cluster = do try_io st (seek (start (fat_offset cluster))); try_exact st (read_u16_le st)

  unfoldable pub get : ℕ → Fs st FatValue
  get cluster = do val ← get_raw cluster; pure (decode val)

  unfoldable pub set_raw : ℕ → ℕ → Fs st (Unit {0})
  set_raw cluster raw_value = do
    try_io st (seek (start (fat_offset cluster)))
    try_io st (write_u16_le st (raw_value % 2 ^ 16))

  unfoldable pub set : ℕ → FatValue → Fs st (Unit {0})
  set cluster value = set_raw cluster (encode value)

  -- In both loops `cluster` stays at most `end_cluster`, so it cannot wrap.
  unfoldable pub find_free_loop : ℕ → ℕ → ℕ → Fs st ℕ
  find_free_loop zero end_cluster cluster = λ _. out_of_fuel
  find_free_loop (suc fuel) end_cluster cluster =
      if ltb cluster end_cluster
      then (do
        val ← try_exact st (read_u16_le st)
        let rest = find_free_loop fuel end_cluster (cluster + 1)
        if val == 0 then pure cluster else rest)
      else throw not_enough_space

  unfoldable pub find_free : ℕ → ℕ → Fs st ℕ
  find_free start_cluster end_cluster = do
    try_io st (seek (start (fat_offset start_cluster)))
    find_free_loop (suc end_cluster) end_cluster start_cluster

  unfoldable pub count_free_loop : ℕ → ℕ → ℕ → ℕ → Fs st ℕ
  count_free_loop zero end_cluster cluster count = λ _. out_of_fuel
  count_free_loop (suc fuel) end_cluster cluster count =
      if ltb cluster end_cluster
      then (do
        val ← try_exact st (read_u16_le st)
        count_free_loop fuel end_cluster (cluster + 1) (if val == 0 then count + 1 else count))
      else pure count

  unfoldable pub count_free : ℕ → Fs st ℕ
  count_free end_cluster = do
    try_io st (seek (start (fat_offset reserved_fat_entries)))
    count_free_loop (suc end_cluster) end_cluster reserved_fat_entries 0

  abbrev pub fat : FatTrait st
  fat = record {
    get_raw = get_raw;
    get = get;
    set_raw = set_raw;
    set = set;
    find_free = find_free;
    count_free = count_free;
  }
