-- ===== src/StreamSlice.antt =====
-- `StreamSlice` of block-device-adapters/src/stream_slice.rs: a window onto a stream. The state is the
-- slice beside the state of the stream under it. Arithmetic is on u64 with its wrap, an i64 is its
-- word in two's complement, and the debug assertion of `new` is a panic.
pub mod Confined
use embedded_fatfs.Base.{
  ℕ, ◌+◌, ◌-◌, ◌%◌, ◌^◌, min, Bool, ◌||◌, ◌==◌, ltb, leb, if◌then◌else◌, List, length, take,
}
use embedded_fatfs.Base.Int.{ℤ}
use embedded_fatfs.Io.{
  Storage, Run, Cmd, ok, err, panic, out_of_fuel, pure, ◌>>=◌, ◌>>◌, SeekFrom, start, end, current,
}
use embedded_fatfs.BufStream.{to_u64}

pub data StreamSliceError (E : Type 0) : Type 0 where
  invalid_seek : ℕ → StreamSliceError E
  write_zero : StreamSliceError E
  other : E → StreamSliceError E

pub record StreamSlice : Type 0 where
  pub start_offset : ℕ
  pub current_offset : ℕ
  pub size : ℕ

abbrev pub max_size : StreamSlice → ℕ → ℕ
max_size d len = min ((d.size + 2 ^ 64 - d.current_offset) % 2 ^ 64) len

abbrev pub advanced : ℕ → StreamSlice → StreamSlice
advanced n d = record d { current_offset = (d.current_offset + n) % 2 ^ 64 }

abbrev pub seek_target : StreamSlice → SeekFrom → ℕ
seek_target d (current x) = (d.current_offset + to_u64 x) % 2 ^ 64
seek_target d (start x) = x
seek_target d (end x) = (d.size + to_u64 x) % 2 ^ 64

module _ (st : Storage) where
  open st use {State, Failure}

  abbrev pub Windowed : Type 0 → Type 0
  Windowed A = Cmd (StreamSlice × State) (StreamSliceError Failure) A

  -- A call of the stream, with `?`.
  abbrev pub beside_slice :
      {A : Type 0}
      → StreamSlice
      → Run State Failure A
      → Run (StreamSlice × State) (StreamSliceError Failure) A
  beside_slice d (ok a t) = ok a (d, t)
  beside_slice d (err e t) = err (other e) (d, t)
  beside_slice d panic = panic
  beside_slice d out_of_fuel = out_of_fuel

  abbrev pub on_stream : {A : Type 0} → Cmd State Failure A → Windowed A
  on_stream m (d, s) = beside_slice d (m s)

  abbrev pub put_slice : (StreamSlice → StreamSlice) → Windowed (Unit {0})
  put_slice f (d, s) = ok tt (f d, s)

  -- `new`, over a state of the stream beside any slice
  unfoldable pub new_stream_slice : ℕ → ℕ → Windowed (Unit {0})
  new_stream_slice start_offset end_offset =
      if ltb end_offset start_offset then (λ _. panic) else (do
        on_stream (st.seek (start start_offset))
        put_slice (λ _. record {
          start_offset = start_offset;
          size = end_offset - start_offset;
          current_offset = 0;
        }))

  unfoldable pub read_window : ℕ → Windowed (List ℕ)
  read_window len (d, s) =
      (do
        bytes ← on_stream (st.read (max_size d len))
        put_slice (advanced (length bytes))
        pure bytes)
        (d, s)

  -- What follows the write of `n` bytes to the stream.
  abbrev pub written : ℕ → Windowed ℕ
  written n = if n == 0 then err write_zero else (do put_slice (advanced n); pure n)

  unfoldable pub write_window : List ℕ → Windowed ℕ
  write_window buf (d, s) =
      (do n ← on_stream (st.write (take (max_size d (length buf)) buf)); written n) (d, s)

  unfoldable pub flush_window : Windowed (Unit {0})
  flush_window = on_stream st.flush

  -- The seek to an offset that was computed: negative, behind the end, or inside.
  abbrev pub seek_offset : ℕ → Windowed ℕ
  seek_offset n (d, s) =
      if leb (2 ^ 63) n || ltb d.size n
      then err (invalid_seek n) (d, s)
      else (do
        on_stream (st.seek (start ((d.start_offset + n) % 2 ^ 64)))
        put_slice (λ e. record e { current_offset = n })
        pure n)
          (d, s)

  unfoldable pub seek_window : SeekFrom → Windowed ℕ
  seek_window target (d, s) = seek_offset (seek_target d target) (d, s)
