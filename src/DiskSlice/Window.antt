-- ===== src/DiskSlice/Window.antt =====
-- A slice as a storage of its own. What is written while the slice is in use is its offset, which is
-- kept beside the storage under it; its other fields are those of `d`.
use embedded_fatfs.Base.{ℕ}
use embedded_fatfs.Io.{Storage, Run, Cmd, Error, ok, err, panic, out_of_fuel}
use embedded_fatfs.Io.Provided.{Provided}
use embedded_fatfs.DiskSlice.{DiskSlice, Sliced, read_slice, write_slice, flush_slice, seek_slice}

module _ (st : Storage) where
  abbrev pub keep_offset : {X A : Type 0} → Run (DiskSlice × st.State) X A → Run (ℕ × st.State) X A
  keep_offset (ok a (d, t)) = ok a (d.offset, t)
  keep_offset (err e (d, t)) = err e (d.offset, t)
  keep_offset panic = panic
  keep_offset out_of_fuel = out_of_fuel

  module _ (provided : Provided) (d : DiskSlice) where
    abbrev pub at_offset : {A : Type 0} → Sliced st A → Cmd (ℕ × st.State) (Error st.Cause) A
    at_offset m (o, s) = keep_offset (m (record d { offset = o }, s))

    -- `impl Read, Write and Seek for DiskSlice`
    abbrev pub slice_storage : Storage
    slice_storage = record {
      State = ℕ × st.State;
      Failure = Error st.Cause;
      Cause = st.Cause;
      into_error = λ e. e;
      seek = λ target. at_offset (seek_slice st target);
      read = λ len. at_offset (read_slice st len);
      write = λ buf. at_offset (write_slice st buf);
      flush = at_offset (flush_slice st);
      read_exact = provided.read_exact (λ len. at_offset (read_slice st len));
      write_all = provided.write_all (λ buf. at_offset (write_slice st buf));
    }
