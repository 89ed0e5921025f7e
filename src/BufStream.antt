-- ===== src/BufStream.antt =====
-- `BufStream` of block-device-adapters/src/buf_stream.rs: a stream of bytes over a block device, with
-- a cache of one block. The state is the stream's own fields beside the device's state. The caller's
-- buffer is its address and its bytes; the address decides whether it is used directly.
pub mod Device
pub mod View
pub mod Windows
pub mod Cache
pub mod Ranges
pub mod Reads
pub mod Writes
pub mod Stale
use embedded_fatfs.Base.{
  ℕ, zero, suc, ◌+◌, ◌-◌, ◌*◌, ◌/◌, ◌%◌, ◌^◌, Bool, true, false, not, ◌&&◌, ◌==◌,
}
use embedded_fatfs.Base.{
  if◌then◌else◌, List, [], ◌∷◌, ◌++◌, length, take, drop, replicate, min, ltb,
}
use embedded_fatfs.Base.Int.{ℤ, pos, negsuc}
use embedded_fatfs.Io.{
  Run, Cmd, ok, err, panic, out_of_fuel, pure, ◌>>=◌, ◌>>◌, SeekFrom, start, end, current,
}
use embedded_fatfs.BufStream.Device.{BlockDevice, slice_to_blocks}

pub record BufStream : Type 0 where
  pub buffer : List ℕ
  pub current_block : ℕ
  pub current_offset : ℕ
  pub dirty : Bool

abbrev pub no_block : ℕ
no_block = 2 ^ 32 - 1

-- `as u64` of a sum of i64 values, and `as i64` before it: two's complement
abbrev pub to_u64 : ℤ → ℕ
to_u64 (pos n) = n % 2 ^ 64
to_u64 (negsuc n) = 2 ^ 64 - 1 - n % 2 ^ 64

module _ (dev : BlockDevice) where
  open dev use {State, Failure, block_size, align}

  abbrev pub new_stream : BufStream
  new_stream = record {
    buffer = replicate block_size 0;
    current_block = no_block;
    current_offset = 0;
    dirty = false;
  }

  -- commands on the stream
  abbrev pub Buffered : Type 0 → Type 0
  Buffered A = Cmd (BufStream × State) Failure A

  abbrev pub beside :
      {A : Type 0} → BufStream → Run State Failure A → Run (BufStream × State) Failure A
  beside b (ok a t) = ok a (b, t)
  beside b (err e t) = err e (b, t)
  beside b panic = panic
  beside b out_of_fuel = out_of_fuel

  -- a call of the device
  abbrev pub device : {A : Type 0} → Cmd State Failure A → Buffered A
  device m (b, s) = beside b (m s)

  abbrev pub get : {A : Type 0} → (BufStream → A) → Buffered A
  get f (b, s) = ok (f b) (b, s)

  abbrev pub put : (BufStream → BufStream) → Buffered (Unit {0})
  put f (b, s) = ok tt (f b, s)

  abbrev pub in_block : BufStream → ℕ
  in_block b = b.current_offset / block_size

  -- `pointer_block_start`, which panics where the number does not fit a u32
  abbrev pub pointer_block_start : Buffered ℕ
  pointer_block_start (b, s) = if ltb (in_block b) (2 ^ 32) then ok (in_block b) (b, s) else panic

  abbrev pub pointer_block_start_addr : Buffered ℕ
  pointer_block_start_addr = do block ← pointer_block_start; pure (block * block_size)

  -- The private `flush`. The buffer stands at an aligned address.
  abbrev pub flush_if : Bool → Buffered (Unit {0})
  flush_if false = pure tt
  flush_if true = do
    put (λ b. record b { dirty = false })
    block ← get (λ b. b.current_block)
    buffer ← get (λ b. b.buffer)
    slice_to_blocks block_size align 0 (length buffer)
    device (dev.write block buffer)

  unfoldable pub flush_cache : Buffered (Unit {0})
  flush_cache = do dirty ← get (λ b. b.dirty); flush_if dirty

  abbrev pub load : ℕ → Buffered (Unit {0})
  load block = do
    flush_cache
    size ← get (λ b. length b.buffer)
    slice_to_blocks block_size align 0 size
    bytes ← device (dev.read block (size / block_size))
    put (λ b. record b { buffer = bytes; current_block = block })

  unfoldable pub check_cache : Buffered (Unit {0})
  check_cache = do
    block ← pointer_block_start
    cached ← get (λ b. b.current_block)
    if block == cached then pure tt else load block

  -- The test for a buffer that is used directly.
  abbrev pub is_direct : ℕ → ℕ → BufStream → Bool
  is_direct addr len b =
      (len % block_size == 0) && ((addr % align == 0) && (b.current_offset % block_size == 0))

  abbrev pub move_by : ℕ → Buffered (Unit {0})
  move_by n = put (λ b. record b { current_offset = (b.current_offset + n) % 2 ^ 64 })

  abbrev pub read_direct : ℕ → ℕ → Buffered (List ℕ)
  read_direct addr len = do
    block ← pointer_block_start
    slice_to_blocks block_size align addr len
    device (dev.read block (len / block_size))

  abbrev pub read_cached : ℕ → Buffered (List ℕ)
  read_cached len = do
    block_start ← pointer_block_start_addr
    check_cache
    buffer_offset ← get (λ b. b.current_offset - block_start)
    let end = min (buffer_offset + len) block_size
    get (λ b. take (end - buffer_offset) (drop buffer_offset b.buffer))

  -- One round of the loop of `read`: the bytes that it puts into the buffer.
  unfoldable pub read_round : ℕ → ℕ → Buffered (List ℕ)
  read_round addr len = do
    direct ← get (is_direct addr len)
    bytes ← if direct then read_direct addr len else read_cached len
    move_by (length bytes)
    pure bytes

  -- `read` into a buffer of `len` bytes: what it holds when it is full
  unfoldable pub read_stream : ℕ → ℕ → ℕ → Buffered (List ℕ)
  read_stream zero addr len = λ _. out_of_fuel
  read_stream (suc fuel) addr len = do
    bytes ← read_round addr len
    let rest = do
      more ← read_stream fuel (addr + length bytes) (len - length bytes)
      pure (bytes ++ more)
    if length bytes == len then pure bytes else rest

  abbrev pub write_direct : ℕ → List ℕ → Buffered ℕ
  write_direct addr buf = do
    block ← pointer_block_start
    slice_to_blocks block_size align addr (length buf)
    device (dev.write block buf)
    pure (length buf)

  abbrev pub splice : ℕ → List ℕ → BufStream → BufStream
  splice at bytes b = record b {
    buffer = take at b.buffer ++ (bytes ++ drop (at + length bytes) b.buffer);
    dirty = true;
  }

  abbrev pub write_cached : List ℕ → Buffered ℕ
  write_cached buf = do
    block_start ← pointer_block_start_addr
    let block_end = block_start + block_size
    check_cache
    buffer_offset ← get (λ b. b.current_offset - block_start)
    let end = min (buffer_offset + length buf) block_size
    put (splice buffer_offset (take (end - buffer_offset) buf))
    if (block_start + end) == block_end then flush_cache else pure tt
    pure (end - buffer_offset)

  unfoldable pub write_round : ℕ → List ℕ → Buffered ℕ
  write_round addr buf = do
    direct ← get (is_direct addr (length buf))
    n ← if direct then write_direct addr buf else write_cached buf
    move_by n
    pure n

  unfoldable pub write_stream : ℕ → ℕ → List ℕ → Buffered ℕ
  write_stream zero addr buf = λ _. out_of_fuel
  write_stream (suc fuel) addr buf = do
    n ← write_round addr buf
    let rest = do more ← write_stream fuel (addr + n) (drop n buf); pure (n + more)
    if n == length buf then pure n else rest

  abbrev pub new_offset : SeekFrom → Buffered ℕ
  new_offset (start x) = pure x
  new_offset (current (pos x)) = get (λ b. to_u64 (pos (b.current_offset + x)))
  new_offset (current (negsuc x)) = get (λ b. (b.current_offset + to_u64 (negsuc x)) % 2 ^ 64)
  new_offset (end x) = do size ← device dev.size; pure ((size + 2 ^ 64 - to_u64 x) % 2 ^ 64)

  unfoldable pub seek_stream : SeekFrom → Buffered ℕ
  seek_stream target = do
    offset ← new_offset target
    put (λ b. record b { current_offset = offset })
    pure offset
