-- ===== src/BufStream/Cache.antt =====
-- The cached block: it is written back, and another one is loaded.
use embedded_fatfs.Base.{
  ℕ, ◌*◌, ◌^◌, ◌/◌, ◌%◌, ◌<◌, ◌≡◌, Bool, true, false, arith, refl, sym, ap, ◌∙◌, inl, inr,
}
use embedded_fatfs.Base.{length, All, Bool-cases, ◌==◌, ==_iff, lt→ltb, subst, ◌&&◌}
use embedded_fatfs.Base.Bytes.{IsByte, slice, patch, length-slice, slice-IsByte}
use embedded_fatfs.Io.{Run, and_then, ◌>>=◌}
use embedded_fatfs.Io.Ends.{Returns, Ends, returns, fails, bind, mono}
use embedded_fatfs.BufStream.{
  BufStream, flush_cache, flush_if, check_cache, load, in_block, beside, device, put,
}
use embedded_fatfs.BufStream.Device.{BlockDevice, IsBlockDevice, slice_to_blocks}
use embedded_fatfs.BufStream.View.{view, Coherent}
use native.Mathlib.Nat.{mod_self, div_self, zero-mod}

-- A call of the device leaves the stream's own fields.
pub beside-Returns :
    (dev : BlockDevice) {A : Type 0} {P : A → dev.State → Type 0} (b : BufStream) {r : _}
    → Returns P r
    → Returns (λ a bs. (bs.0 ≡ b) × P a bs.1) (beside dev b r)
beside-Returns dev b (returns h) = returns (refl, h)
beside-Returns dev b (fails q) = absurd q

module _ {dev : BlockDevice} (laws : IsBlockDevice dev) where
  open dev use {State, block_size, align}
  open laws use {content, blocks}

  -- One block is a list of whole blocks, at the stream's own address.
  pub one_block :
      (block_size % block_size == 0) && ((block_size % align == 0) && (0 % align == 0)) ≡ true
  one_block = rw (mod_self block_size, laws.aligned, zero-mod align) refl

  -- A cast whose assertions hold.
  pub casts :
      {S X B : Type 0} {P : B → S → Type 0} {Q : X → S → Type 0} (addr len : ℕ) {s : S}
      (k : Unit {0} → S → Run S X B)
      → (len % block_size == 0) && ((len % align == 0) && (addr % align == 0)) ≡ true
      → Ends P Q (k tt s)
      → Ends P Q (and_then (slice_to_blocks block_size align addr len s) k)
  casts addr len k q h = rw q h

  pub shown_clean : (b : BufStream) (s : State) → b.dirty ≡ false → view laws b s ≡ content s
  shown_clean b s q = rw q refl

  pub shown_dirty :
      (b : BufStream) (s : State)
      → b.dirty ≡ true
      → view laws b s ≡ patch (content s) (b.current_block * block_size) b.buffer
  shown_dirty b s q = rw q refl

  flush_if_lem :
      (dirty : Bool) (b : BufStream) {s : State}
      → b.dirty ≡ dirty
      → Coherent laws b s
      → Returns
          (λ _ (b', s'). (b' ≡ record b { dirty = false }) × (content s' ≡ view laws b s))
          (flush_if dev dirty (b, s))
  flush_if_lem false b {s} q h =
      returns (ap (λ d. record b { dirty = d }) q, sym (shown_clean b s q))
  flush_if_lem true b {s} q h =
      let one : length b.buffer ≡ 1 * block_size = omega (arith, h.whole) in
      casts 0 (length b.buffer) _ (rw h.whole one_block) (
        mono
          (beside-Returns dev (record b { dirty = false })
            (laws.write_in b.current_block 1 b.buffer s (omega (arith, h.pending q)) one h.bytes))
          (λ _ _ (e, c). (e, c ∙ sym (shown_dirty b s q))) (λ _ _ z. z))

  -- For a coherent cache: flush returns, the device then holds what the stream showed, and only
  -- the dirty flag of the stream is changed, to clear.
  pub flush_cache_lem :
      (b : BufStream) {s : State}
      → Coherent laws b s
      → Returns
          (λ _ (b', s'). (b' ≡ record b { dirty = false }) × (content s' ≡ view laws b s))
          (flush_cache dev (b, s))
  unfolding flush_cache
  flush_cache_lem b h = flush_if_lem b.dirty b refl h

  -- A flushed stream is coherent and shows the same bytes.
  pub flushed :
      (b : BufStream) {s t : State}
      → Coherent laws b s
      → content t ≡ view laws b s
      → Coherent laws (record b { dirty = false }) t
  flushed b h e = record {
    whole = h.whole;
    bytes = h.bytes;
    pending = λ q. ground arith;
    held = λ lt. h.held lt ∙ ap (λ c. slice c (b.current_block * block_size) block_size) (sym e);
  }

  -- The stream over the block at its offset.
  pub record Ready (b : BufStream) (s : State) (b' : BufStream) (s' : State) : Type 0 where
    pub coherent : Coherent laws b' s'
    pub shows : view laws b' s' ≡ view laws b s
    pub offset : b'.current_offset ≡ b.current_offset
    pub cached : b'.current_block ≡ in_block dev b

  -- The block at the offset is read into a clean cache.
  loads :
      (b c : BufStream) {s t : State}
      → length c.buffer ≡ block_size
      → c.dirty ≡ false
      → c.current_offset ≡ b.current_offset
      → content t ≡ view laws b s
      → in_block dev b < blocks
      → Returns
          (λ _ (b', s'). Ready b s b' s')
          (and_then (slice_to_blocks block_size align 0 (length c.buffer) (c, t)) (λ _.
            device dev (dev.read (in_block dev b) (length c.buffer / block_size)) >>= λ bytes.
            put dev (λ x. record x { buffer = bytes; current_block = in_block dev b })))
  loads b c {t} len clean at e lt =
      let count : length c.buffer / block_size ≡ 1 = rw len (div_self laws.some_bytes) in
      casts 0 (length c.buffer) _ (rw len one_block) (
        bind
          (beside-Returns dev c (
            laws.read_in (in_block dev b) (length c.buffer / block_size) t
              (omega (arith, count, lt))))
          λ bytes (c', u) (same, (got, kept)).
            let one : length c.buffer / block_size * block_size ≡ block_size =
              ap (λ k. k * block_size) count ∙ omega arith in
            let read = got ∙ ap (slice (content t) (in_block dev b * block_size)) one in
            let clean' = ap (λ x. x.dirty) same ∙ clean in
            let c2 = record c' { buffer = bytes; current_block = in_block dev b } in
            let unread = shown_clean c2 u clean' in
            returns (record {
              coherent = record {
                whole =
                    ap length read
                    ∙ length-slice (content t) (in_block dev b * block_size) block_size;
                bytes = subst (All IsByte) (sym read) (
                    slice-IsByte (content t) (in_block dev b * block_size) block_size
                      (laws.content_byte t));
                pending = λ q. ground (arith, clean', q);
                held = λ _.
                    read
                    ∙ ap (λ f. slice f (in_block dev b * block_size) block_size)
                        (sym (unread ∙ kept));
              };
              shows = unread ∙ kept ∙ e;
              offset = ap (λ x. x.current_offset) same ∙ at;
              cached = refl;
            }))

  load_lem :
      (b : BufStream) {s : State}
      → Coherent laws b s
      → in_block dev b < blocks
      → Returns (λ _ (b', s'). Ready b s b' s') (load dev (in_block dev b) (b, s))
  load_lem b {s} h lt = bind (flush_cache_lem b h) λ _ (b1, t) (q, e).
      loads b b1 (ap (λ x. length x.buffer) q ∙ h.whole) (ap (λ x. x.dirty) q)
        (ap (λ x. x.current_offset) q) e lt

  pub check_cache_lem :
      (b : BufStream) {s : State}
      → Coherent laws b s
      → in_block dev b < blocks
      → Returns (λ _ (b', s'). Ready b s b' s') (check_cache dev (b, s))
  unfolding check_cache
  check_cache_lem b {s} h lt =
      rw (lt→ltb (in_block dev b) (2 ^ 32) (omega (arith, laws.addressed, lt)))
        (elim (Bool-cases (in_block dev b == b.current_block)) [
          | inl q ↦ rw q (
              returns (record {
                coherent = h;
                shows = refl;
                offset = refl;
                cached = sym ((==_iff (in_block dev b) b.current_block).0 q);
              }))
          | inr q ↦ rw q (load_lem b h lt)
        ])
