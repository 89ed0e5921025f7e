-- ===== src/BufStream/Stale.antt =====
-- Where `BufStream` and its cache part ways: a transfer past the cache, and a write to the device that
-- fails.
use embedded_fatfs.Base.{
  ℕ, suc, ◌+◌, ◌*◌, ◌^◌, ◌/◌, ◌≤◌, ◌<◌, ◌≡◌, true, false, arith, refl, ap, ap₂, ◌∙◌,
}
use embedded_fatfs.Base.{length, ==_iff, if◌then◌else◌, lt→ltb, length-replicate, All-replicate}
use embedded_fatfs.Base.Bytes.{IsByte, slice, length-slice}
use embedded_fatfs.Io.{ok, err}
use embedded_fatfs.Io.Ends.{Returns, returns, bind, mono}
use embedded_fatfs.BufStream.{
  BufStream, new_stream, in_block, is_direct, flush_cache, read_stream, read_round, read_direct,
  read_cached,
}
use embedded_fatfs.BufStream.Cache.{casts, one_block, beside-Returns}
use embedded_fatfs.BufStream.Device.{BlockDevice, IsBlockDevice}
use embedded_fatfs.BufStream.Ranges.{in_block-lt, direct_whole, whole_aligned, whole_blocks}
use embedded_fatfs.BufStream.View.{view, Coherent}
use native.Mathlib.Nat.{le_of_mul-le-mul_right}

module _ {dev : BlockDevice} (laws : IsBlockDevice dev) where
  open dev use {State, block_size}
  open laws use {content, blocks}

  -- A new stream is coherent and shows the bytes of the device.
  pub Coherent-new_stream :
      (s : State) → Coherent laws (new_stream dev) s × (view laws (new_stream dev) s ≡ content s)
  Coherent-new_stream s = (
    record {
      whole = length-replicate block_size 0;
      bytes = All-replicate IsByte block_size (omega arith);
      pending = λ q. ground arith;
      held = λ lt. absurd (omega (arith, laws.addressed, lt));
    },
    refl,
  )

  past_cache :
      (b : BufStream) {s : State} (addr len : ℕ)
      → is_direct dev addr len b ≡ true
      → 0 < len
      → b.current_offset + len ≤ blocks * block_size
      → Returns
          (λ bs (b', s').
            (length bs ≡ len)
            × (bs ≡ slice (content s) b.current_offset len)
            × (content s' ≡ content s)
            × (b' ≡ b))
          ((if is_direct dev addr len b then read_direct dev addr len else read_cached dev len)
            (b, s))
  past_cache b {s} addr len d some_left room =
      let (whole, at, start) = direct_whole laws addr len b d in
      let count = whole_blocks laws len whole in
      let place = whole_blocks laws b.current_offset start in
      let fits : in_block dev b + len / block_size ≤ blocks =
        le_of_mul-le-mul_right {k = block_size} (omega (arith, count, place, room))
          laws.some_bytes in
      let inside = in_block-lt laws b (omega arith) in
      rw (d, lt→ltb (in_block dev b) (2 ^ 32) (omega (arith, laws.addressed, inside)))
        (casts laws addr len _ (whole_aligned laws addr len whole at) (
          mono (beside-Returns dev b (laws.read_in (in_block dev b) (len / block_size) s fits))
            (λ bs (b', t) (same, (got, kept)).
              let all = got ∙ ap₂ (slice (content s)) place count in
              (ap length all ∙ length-slice (content s) b.current_offset len, all, kept, same))
            (λ _ _ z. z)))

  round_past_cache :
      (b : BufStream) {s : State} (addr len : ℕ)
      → is_direct dev addr len b ≡ true
      → 0 < len
      → b.current_offset + len ≤ blocks * block_size
      → Returns
          (λ bs (b', s').
            (length bs ≡ len)
            × (bs ≡ slice (content s) b.current_offset len)
            × (content s' ≡ content s)
            × (b'.buffer ≡ b.buffer)
            × (b'.dirty ≡ b.dirty))
          (read_round dev addr len (b, s))
  unfolding read_round
  round_past_cache b addr len d some_left room =
      bind (past_cache b addr len d some_left room) λ bs (b', t) (count, got, kept, same).
        returns (count, got, kept, ap (λ c. c.buffer) same, ap (λ c. c.dirty) same)

  -- For a request of whole blocks at an aligned address and offset, within the device: read
  -- returns the bytes of the device in one round, whatever a dirty cached block holds, and
  -- changes neither the content of the device nor the cached block.
  pub read_stream-direct :
      (fuel : ℕ) (b : BufStream) {s : State} (addr len : ℕ)
      → is_direct dev addr len b ≡ true
      → 0 < len
      → b.current_offset + len ≤ blocks * block_size
      → Returns
          (λ bs (b', s').
            (bs ≡ slice (content s) b.current_offset len)
            × (content s' ≡ content s)
            × (b'.buffer ≡ b.buffer)
            × (b'.dirty ≡ b.dirty))
          (read_stream dev (suc fuel) addr len (b, s))
  unfolding read_stream
  read_stream-direct fuel b {s} addr len d some_left room =
      bind (round_past_cache b addr len d some_left room)
        λ bs bt h. rw ((==_iff (length bs) len).1 h.0) (returns (h.1, h.2, h.3, h.4))

  -- For a dirty stream whose block the device refuses to write: flush fails with the device's
  -- error and leaves the stream clean, and a second flush returns without another write.
  pub flush_cache-fails :
      (b : BufStream) {s t : State} {e : dev.Failure}
      → length b.buffer ≡ block_size
      → b.dirty ≡ true
      → dev.write b.current_block b.buffer s ≡ err e t
      → (flush_cache dev (b, s) ≡ err e (record b { dirty = false }, t))
        × (flush_cache dev (record b { dirty = false }, t) ≡ ok tt (record b { dirty = false }, t))
  unfolding flush_cache
  flush_cache-fails b whole q fails = (rw (q, whole, one_block laws, fails) refl, refl)
