-- ===== src/Examples/Blocks.antt =====
-- A disk of 64 blocks of eight bytes in memory, which keeps the laws of a block device, and streams over
-- it.
use embedded_fatfs.Base.{
  ℕ, ◌+◌, ◌*◌, ◌%◌, ◌≤◌, ◌≡◌, true, false, refl, sym, fun_ext, arith, leb, le→leb, if◌then◌else◌,
}
use embedded_fatfs.Base.{
  List, [], ◌∷◌, length, All, inl, replicate, length-replicate, All-replicate,
}
use embedded_fatfs.Base.Bytes.{IsByte, slice, patch, slice-patch}
use embedded_fatfs.Io.{Cmd, ok, err}
use embedded_fatfs.Io.Ends.{Returns, returns}
use embedded_fatfs.Io.Memory.{Fault, out_of_range, patch-mod}
use embedded_fatfs.BufStream.{BufStream, new_stream, read_stream, write_stream, flush_cache}
use embedded_fatfs.BufStream.Cache.{flush_cache_lem}
use embedded_fatfs.BufStream.Device.{BlockDevice, IsBlockDevice}
use embedded_fatfs.BufStream.Reads.{read_stream_lem}
use embedded_fatfs.BufStream.Stale.{Coherent-new_stream, flush_cache-fails}
use embedded_fatfs.BufStream.View.{view, Coherent, Coherent-moved}
use embedded_fatfs.BufStream.Writes.Loop.{write_stream_lem}

-- What can be read: a byte at every position.
abbrev bytes_on : (ℕ → ℕ) → ℕ → ℕ
bytes_on c i = c i % 256

abbrev disk_read : ℕ → ℕ → Cmd (ℕ → ℕ) Fault (List ℕ)
disk_read a n c =
    if leb (a + n) 64 then ok (slice (bytes_on c) (a * 8) (n * 8)) c else err out_of_range c

abbrev disk_write : ℕ → List ℕ → Cmd (ℕ → ℕ) Fault (Unit {0})
disk_write a bs c =
    if leb (a * 8 + length bs) (64 * 8) then ok tt (patch c (a * 8) bs) else err out_of_range c

abbrev disk : BlockDevice
disk = record {
  State = ℕ → ℕ;
  Failure = Fault;
  block_size = 8;
  align = 4;
  read = disk_read;
  write = disk_write;
  size = ok (64 * 8);
}

disk_read_in :
    (a n : ℕ) (c : ℕ → ℕ)
    → a + n ≤ 64
    → Returns
        (λ bs t. (bs ≡ slice (bytes_on c) (a * 8) (n * 8)) × ((bytes_on t) ≡ (bytes_on c)))
        (disk_read a n c)
disk_read_in a n c h = rw (le→leb (a + n) 64 h) (returns (refl, refl))

disk_write_in :
    (a n : ℕ) (bs : List ℕ) (c : ℕ → ℕ)
    → a + n ≤ 64
    → length bs ≡ n * 8
    → All IsByte bs
    → Returns (λ _ t. (bytes_on t) ≡ patch (bytes_on c) (a * 8) bs) (disk_write a bs c)
disk_write_in a n bs c h q bytes =
    rw (le→leb (a * 8 + length bs) (64 * 8) (omega arith))
      (returns (fun_ext λ i. patch-mod c (a * 8) bs i bytes))

abbrev disk-IsBlockDevice : IsBlockDevice disk
disk-IsBlockDevice = record {
  content = bytes_on;
  blocks = 64;
  addressed = omega arith;
  some_bytes = omega arith;
  small = omega arith;
  aligned = omega arith;
  align_pos = omega arith;
  content_byte = λ c i. omega arith;
  read_in = disk_read_in;
  write_in = disk_write_in;
}

abbrev zeros : ℕ → ℕ
zeros = λ _. 0

-- A new stream that stands two bytes before the end of the first block.
abbrev before_edge : BufStream
before_edge = record (new_stream disk) { current_offset = 6 }

before_edge-Coherent : Coherent disk-IsBlockDevice before_edge zeros
before_edge-Coherent =
    Coherent-moved disk-IsBlockDevice (new_stream disk) 6
      (Coherent-new_stream disk-IsBlockDevice zeros).0

read_stream_lem_example :
    Returns
      (λ bs (b', s').
        (bs ≡ slice (view disk-IsBlockDevice before_edge zeros) 6 6)
        × (b'.current_offset ≡ 6 + 6)
        × (view disk-IsBlockDevice b' s' ≡ view disk-IsBlockDevice before_edge zeros)
        × Coherent disk-IsBlockDevice b' s')
      (read_stream disk 2 0 6 (before_edge, zeros))
read_stream_lem_example =
    read_stream_lem disk-IsBlockDevice 2 before_edge {s = zeros} 0 6 (omega arith) (omega arith)
      (omega arith) before_edge-Coherent (λ _. inl refl)

abbrev greeting : List ℕ
greeting = 72 ∷ 101 ∷ 108 ∷ 108 ∷ 111 ∷ []

write_stream_lem_example :
    Returns
      (λ n (b', s').
        (n ≡ 5)
        × (view disk-IsBlockDevice b' s'
            ≡ patch (view disk-IsBlockDevice before_edge zeros) 6 greeting)
        × (b'.current_offset ≡ 6 + 5)
        × Coherent disk-IsBlockDevice b' s')
      (write_stream disk 2 0 greeting (before_edge, zeros))
write_stream_lem_example =
    write_stream_lem disk-IsBlockDevice 2 before_edge {s = zeros} 0 greeting (omega arith)
      (omega arith, (omega arith, (omega arith, (omega arith, (omega arith, tt))))) (omega arith)
      (omega arith) before_edge-Coherent (λ _. inl (omega arith))

-- A stream with a block of sevens that the device does not have yet.
abbrev unwritten : ℕ → BufStream
unwritten block = record {
  buffer = replicate 8 7;
  current_block = block;
  current_offset = 0;
  dirty = true;
}

unwritten-Coherent : Coherent disk-IsBlockDevice (unwritten 0) zeros
unwritten-Coherent = record {
  whole = length-replicate {A = ℕ} 8 7;
  bytes = All-replicate IsByte 8 (omega arith);
  pending = λ _. omega arith;
  held = λ _. sym (slice-patch (bytes_on zeros) 0 (replicate 8 7));
}

flush_cache_lem_example :
    Returns
      (λ _ (b', s').
        (b' ≡ record (unwritten 0) { dirty = false })
        × ((bytes_on s') ≡ view disk-IsBlockDevice (unwritten 0) zeros))
      (flush_cache disk (unwritten 0, zeros))
flush_cache_lem_example = flush_cache_lem disk-IsBlockDevice (unwritten 0) unwritten-Coherent

flush_cache-fails_example :
    (flush_cache disk (unwritten 64, zeros)
      ≡ err out_of_range (record (unwritten 64) { dirty = false }, zeros))
    × (flush_cache disk (record (unwritten 64) { dirty = false }, zeros)
        ≡ ok tt (record (unwritten 64) { dirty = false }, zeros))
flush_cache-fails_example =
    flush_cache-fails disk-IsBlockDevice (unwritten 64) (length-replicate {A = ℕ} 8 7) refl refl
