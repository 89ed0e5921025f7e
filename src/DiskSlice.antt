-- ===== src/DiskSlice.antt =====
-- `DiskSlice` of embedded-fatfs/src/fs.rs: a window onto the storage, written to every mirror. The
-- state is the slice together with the storage under it. Arithmetic is on u64 with its wrap.
pub mod Mirrors
pub mod Window
use embedded_fatfs.Base.{
  ℕ, zero, suc, ◌+◌, ◌-◌, ◌*◌, ◌%◌, ◌^◌, Option, none, some, min, List, length,
}
use embedded_fatfs.Base.{take, ltb, ◌==◌, if◌then◌else◌}
use embedded_fatfs.Base.Int.{ℤ, pos, negsuc, ◌+ℤ◌}
use embedded_fatfs.Io.{Storage, Run, Cmd, Fs, ok, err, panic, out_of_fuel, pure, throw, ◌>>=◌, ◌>>◌}
use embedded_fatfs.Io.{SeekFrom, start, end, current, try_io, Error, invalid_input}
use embedded_fatfs.BootSector.{
  Bpb, bytes_from_sectors, sectors_per_fat, mirroring_enabled, active_fat,
}

pub record DiskSlice : Type 0 where
  pub begin : ℕ
  pub size : ℕ
  pub offset : ℕ
  pub mirrors : ℕ

abbrev pub new_slice : ℕ → ℕ → ℕ → DiskSlice
new_slice begin size mirrors = record { begin = begin; size = size; offset = 0; mirrors = mirrors }

abbrev pub from_sectors : ℕ → ℕ → ℕ → Bpb → DiskSlice
from_sectors first_sector sector_count mirrors bpb =
    new_slice (bytes_from_sectors bpb first_sector) (bytes_from_sectors bpb sector_count) mirrors

abbrev pub abs_pos : DiskSlice → ℕ
abs_pos d = (d.begin + d.offset) % 2 ^ 64

-- What is left behind the offset.
abbrev pub left : DiskSlice → ℕ
left d = (d.size + 2 ^ 64 - d.offset) % 2 ^ 64

abbrev pub moved : DiskSlice → ℕ → DiskSlice
moved d n = record d { offset = (d.offset + n) % 2 ^ 64 }

-- `u64::try_from` of an i64 that did not overflow
abbrev pub offset_of : ℤ → Option ℕ
offset_of (pos n) = if ltb n (2 ^ 63) then some n else none
offset_of (negsuc n) = none

abbrev pub relative : ℕ → ℤ → Option ℕ
relative base x = if ltb base (2 ^ 63) then offset_of (pos base +ℤ x) else none

abbrev pub new_offset : DiskSlice → SeekFrom → Option ℕ
new_offset d (start x) = some x
new_offset d (current x) = relative d.offset x
new_offset d (end x) = relative d.size x

-- The table of a volume: every copy of it, or the active one.
unfoldable pub fat_slice : Bpb → DiskSlice
fat_slice bpb =
    if mirroring_enabled bpb
    then from_sectors bpb.reserved_sectors (sectors_per_fat bpb) bpb.fats bpb
    else from_sectors
        ((bpb.reserved_sectors + active_fat bpb * sectors_per_fat bpb % 2 ^ 32) % 2 ^ 32)
        (sectors_per_fat bpb) 1 bpb

module _ (st : Storage) where
  abbrev pub Sliced : Type 0 → Type 0
  Sliced A = Cmd (DiskSlice × st.State) (Error st.Cause) A

  -- A call of the storage, which keeps the slice.
  abbrev pub beside :
      {A : Type 0}
      → DiskSlice
      → Run st.State (Error st.Cause) A
      → Run (DiskSlice × st.State) (Error st.Cause) A
  beside d (ok a t) = ok a (d, t)
  beside d (err e t) = err e (d, t)
  beside d panic = panic
  beside d out_of_fuel = out_of_fuel

  abbrev pub inner : {A : Type 0} → Fs st A → Sliced A
  inner m (d, s) = beside d (m s)

  abbrev pub advance_by : ℕ → Sliced (Unit {0})
  advance_by n (d, s) = ok tt (moved d n, s)

  unfoldable pub read_slice : ℕ → Sliced (List ℕ)
  read_slice len (d, s) =
      (do
        inner (try_io st (st.seek (start (abs_pos d))))
        bs ← inner (try_io st (st.read (min (left d) len)))
        advance_by (length bs)
        pure bs)
        (d, s)

  -- The loop over the mirrors from `i` on.
  unfoldable pub write_mirrors : ℕ → ℕ → ℕ → ℕ → List ℕ → Fs st (Unit {0})
  write_mirrors zero i offset size bs = pure tt
  write_mirrors (suc rounds) i offset size bs = do
    try_io st (st.seek (start ((offset + i * size) % 2 ^ 64)))
    try_io st (st.write_all bs)
    write_mirrors rounds (i + 1) offset size bs

  unfoldable pub write_slice : List ℕ → Sliced ℕ
  write_slice buf (d, s) =
      let write_size = min (left d) (length buf) in
      if write_size == 0
      then ok 0 (d, s)
      else (do
        inner (write_mirrors d.mirrors 0 (abs_pos d) d.size (take write_size buf))
        advance_by write_size
        pure write_size)
          (d, s)

  unfoldable pub flush_slice : Sliced (Unit {0})
  flush_slice = inner (try_io st st.flush)

  abbrev pub seek_to : Option ℕ → Sliced ℕ
  seek_to none (d, s) = err invalid_input (d, s)
  seek_to (some n) (d, s) =
      if ltb d.size n then err invalid_input (d, s) else ok n (record d { offset = n }, s)

  unfoldable pub seek_slice : SeekFrom → Sliced ℕ
  seek_slice target (d, s) = seek_to (new_offset d target) (d, s)
