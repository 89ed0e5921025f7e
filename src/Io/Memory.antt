-- ===== src/Io/Memory.antt =====
-- A storage in memory that keeps the laws: a file of `n` bytes with a position. The hypotheses
-- about a storage are met by it.
use embedded_fatfs.Base.Int.{pos, negsuc}
use embedded_fatfs.Base.{ℕ, ◌+◌, ◌%◌, ◌≤◌, ◌≡◌, refl, fun_ext, arith, leb, le→leb, if◌then◌else◌}
use embedded_fatfs.Base.{List, [], ◌∷◌, length, All, min, ◌-◌, take}
use embedded_fatfs.Base.Bytes.{IsByte, slice, patch}
use embedded_fatfs.Io.{Storage, SeekFrom, start, end, current, io, ok, err}
use embedded_fatfs.Io.{ReadExactError, Cmd}
use embedded_fatfs.Io.Ends.{Returns, returns}
use embedded_fatfs.Io.Laws.{IsStorage}

pub data Fault : Type 0 where
  out_of_range : Fault

pub record Memory : Type 0 where
  pub bytes : ℕ → ℕ
  pub at : ℕ

abbrev pub memory : (ℕ → ℕ) → ℕ → Memory
memory bytes at = record { bytes = bytes; at = at }

-- what can be read: a byte at every position
abbrev pub bytes_of : Memory → ℕ → ℕ
bytes_of m i = m.bytes i % 256

pub bytes_of-IsByte : (m : Memory) (i : ℕ) → IsByte (bytes_of m i)
bytes_of-IsByte m i = omega arith

-- A write of bytes into what can be read.
pub patch-mod :
    (c : ℕ → ℕ) (p : ℕ) (bs : List ℕ) (i : ℕ)
    → All IsByte bs
    → patch c p bs i % 256 ≡ patch (λ j. c j % 256) p bs i
patch-mod c p [] i h = refl
patch-mod c p (b ∷ bs) i (h, hs) = ground (arith, patch-mod c (p + 1) bs i hs)

module _ (size : ℕ) where
  abbrev memory_seek : SeekFrom → Cmd Memory Fault ℕ
  memory_seek (start n) m = if leb n size then ok n (record m { at = n }) else err out_of_range m
  memory_seek (end x) m = err out_of_range m
  memory_seek (current (pos x)) m =
      if leb (m.at + x) size then ok (m.at + x) (record m { at = m.at + x }) else err out_of_range m
  memory_seek (current (negsuc x)) m = err out_of_range m

  abbrev memory_read : ℕ → Cmd Memory Fault (List ℕ)
  memory_read n m =
      let k = min n (size - m.at) in ok (slice (bytes_of m) m.at k) (record m { at = m.at + k })

  abbrev memory_write : List ℕ → Cmd Memory Fault ℕ
  memory_write bs m =
      let k = min (length bs) (size - m.at) in
      ok k (record { bytes = patch m.bytes m.at (take k bs); at = m.at + k })

  abbrev memory_read_exact : ℕ → Cmd Memory (ReadExactError Fault) (List ℕ)
  memory_read_exact n m =
      if leb (m.at + n) size
      then ok (slice (bytes_of m) m.at n) (record m { at = m.at + n })
      else err ReadExactError.unexpected_eof m

  abbrev memory_write_all : List ℕ → Cmd Memory Fault (Unit {0})
  memory_write_all bs m =
      if leb (m.at + length bs) size
      then ok tt (memory (patch m.bytes m.at bs) (m.at + length bs))
      else err out_of_range m

  abbrev pub in_memory : Storage
  in_memory = record {
    State = Memory;
    Failure = Fault;
    Cause = Fault;
    into_error = io;
    seek = memory_seek;
    read = memory_read;
    write = memory_write;
    flush = ok tt;
    read_exact = memory_read_exact;
    write_all = memory_write_all;
  }

  pub seek_start :
      (n : ℕ) (m : Memory)
      → n ≤ size
      → Returns (λ r t. (r ≡ n) × (bytes_of t ≡ bytes_of m) × (t.at ≡ n)) (memory_seek (start n) m)
  seek_start n m h = rw (le→leb n size h) (returns (refl, refl, refl))

  pub read_exact_in :
      (n : ℕ) (m : Memory)
      → m.at + n ≤ size
      → Returns
          (λ bs t. (bs ≡ slice (bytes_of m) m.at n) × (bytes_of t ≡ bytes_of m) × (t.at ≡ m.at + n))
          (memory_read_exact n m)
  read_exact_in n m h = rw (le→leb _ _ h) (returns (refl, refl, refl))

  pub stored :
      (bs : List ℕ) (m : Memory)
      → m.at + length bs ≤ size
      → All IsByte bs
      → Returns
          (λ _ t. (bytes_of t ≡ patch (bytes_of m) m.at bs) × (t.at ≡ m.at + length bs))
          (memory_write_all bs m)
  stored bs m h b = rw (le→leb _ _ h) (returns (fun_ext (λ i. patch-mod m.bytes m.at bs i b), refl))

  abbrev pub in_memory-IsStorage : IsStorage in_memory
  in_memory-IsStorage = record {
    content = bytes_of;
    position = λ m. m.at;
    size = size;
    content_byte = bytes_of-IsByte;
    seek_start = seek_start;
    read_exact_in = read_exact_in;
    write_all_in = stored;
    flush_keeps = λ m. returns (refl, refl);
  }
