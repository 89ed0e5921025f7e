-- ===== src/DirEntry/Codec.antt =====
-- Reading and writing an entry of a directory.
pub mod Parts
pub mod Laws
use embedded_fatfs.Base.{
  ℕ, Bool, true, false, ◌==◌, if◌then◌else◌, List, [], ◌∷◌, get_or, drop, bit_and, zero, suc,
}
use embedded_fatfs.Io.{Storage, Cmd, Fs, Run, ok, err, panic, out_of_fuel, pure, ◌>>=◌, ◌>>◌}
use embedded_fatfs.Io.{Error, ReadExactError, other, try_exact}
use embedded_fatfs.Io.{read_u8, read_u16_le, read_u32_le, write_u8, write_u16_le, write_u32_le}
use embedded_fatfs.Base.Bytes.{from_le_bytes}
use embedded_fatfs.DirEntry.{DirFileEntryData, DirLfnEntryData, DirEntryData, file, lfn, lfn_attrs}
use embedded_fatfs.DirEntry.{all_attrs, sfn_size, default_file_entry}

-- The little-endian words of pairs of bytes: `chunks_exact(2)` with `from_le_bytes`.
abbrev pub units_of : List ℕ → List ℕ
units_of (a ∷ b ∷ bs) = from_le_bytes (a ∷ b ∷ []) ∷ units_of bs
units_of bs = []

module _ (st : Storage) where
  open st use {State, Failure, Cause, into_error, read_exact, write_all, flush}

  abbrev u8 : Fs st ℕ
  u8 = try_exact st (read_u8 st)

  abbrev u16 : Fs st ℕ
  u16 = try_exact st (read_u16_le st)

  -- `for x in &mut array { *x = rdr.read_u16_le() }`, for an array of this length
  abbrev pub read_units : ℕ → Fs st (List ℕ)
  read_units zero = pure []
  read_units (suc k) = do u ← u16; us ← read_units k; pure (u ∷ us)

  -- `for ch in &array { wrt.write_u16_le(*ch) }`
  abbrev pub write_units : List ℕ → Cmd State Failure (Unit {0})
  write_units [] = pure tt
  write_units (u ∷ us) = do write_u16_le st u; write_units us

  unfoldable pub serialize_file : DirFileEntryData → Cmd State Failure (Unit {0})
  serialize_file d = do
    write_all d.name
    write_u8 st d.attrs
    write_u8 st d.reserved_0
    write_u8 st d.create_time_0
    write_u16_le st d.create_time_1
    write_u16_le st d.create_date
    write_u16_le st d.access_date
    write_u16_le st d.first_cluster_hi
    write_u16_le st d.modify_time
    write_u16_le st d.modify_date
    write_u16_le st d.first_cluster_lo
    write_u32_le st d.size
    flush

  unfoldable pub serialize_lfn : DirLfnEntryData → Cmd State Failure (Unit {0})
  serialize_lfn d = do
    write_u8 st d.order
    write_units d.name_0
    write_u8 st d.attrs
    write_u8 st d.entry_type
    write_u8 st d.checksum
    write_units d.name_1
    write_u16_le st d.reserved_0
    write_units d.name_2
    flush

  unfoldable pub serialize_entry : DirEntryData → Cmd State Failure (Unit {0})
  serialize_entry (file d) = serialize_file d
  serialize_entry (lfn d) = serialize_lfn d

  -- The two branches of `deserialize`, behind the name and the attributes.
  unfoldable pub read_lfn : List ℕ → ℕ → Fs st DirEntryData
  read_lfn name attrs = do
    entry_type ← u8
    checksum ← u8
    name_1 ← read_units 6
    reserved_0 ← u16
    name_2 ← read_units 2
    pure (
        lfn (record {
          order = get_or name 0 0;
          name_0 = units_of (drop 1 name);
          attrs = attrs;
          entry_type = entry_type;
          checksum = checksum;
          name_1 = name_1;
          reserved_0 = reserved_0;
          name_2 = name_2;
        }))

  unfoldable pub read_file : List ℕ → ℕ → Fs st DirEntryData
  read_file name attrs = do
    reserved_0 ← u8
    create_time_0 ← u8
    create_time_1 ← u16
    create_date ← u16
    access_date ← u16
    first_cluster_hi ← u16
    modify_time ← u16
    modify_date ← u16
    first_cluster_lo ← u16
    size ← try_exact st (read_u32_le st)
    pure (
        file (record {
          name = name;
          attrs = attrs;
          reserved_0 = reserved_0;
          create_time_0 = create_time_0;
          create_time_1 = create_time_1;
          create_date = create_date;
          access_date = access_date;
          first_cluster_hi = first_cluster_hi;
          modify_time = modify_time;
          modify_date = modify_date;
          first_cluster_lo = first_cluster_lo;
          size = size;
        }))

  unfoldable pub read_named : List ℕ → Fs st DirEntryData
  read_named name = do
    bits ← u8
    let attrs = bit_and bits all_attrs
    if bit_and attrs lfn_attrs == lfn_attrs then read_lfn name attrs else read_file name attrs

  -- The match on the read of the name: at the end of the stream there is an entry all the same.
  abbrev pub behind_name :
      Run State (ReadExactError Failure) (List ℕ) → Run State (Error Cause) DirEntryData
  behind_name (ok name t) = read_named name t
  behind_name (err (ReadExactError.unexpected_eof) t) = ok (file default_file_entry) t
  behind_name (err (other e) t) = err (into_error e) t
  behind_name panic = panic
  behind_name out_of_fuel = out_of_fuel

  unfoldable pub deserialize_entry : Fs st DirEntryData
  deserialize_entry s = behind_name (read_exact sfn_size s)
