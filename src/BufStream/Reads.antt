-- ===== src/BufStream/Reads.antt =====
-- `Read::read` of `BufStream`: the rounds of its loop, and what it returns.
use embedded_fatfs.Base.{
  ℕ, zero, suc, ◌+◌, ◌-◌, ◌*◌, ◌^◌, ◌/◌, ◌%◌, ◌≤◌, ◌<◌, ◌≡◌, true, false, arith, refl, sym, ap, ap₂,
  ◌∙◌, subst,
}
use embedded_fatfs.Base.{
  List, ◌++◌, length, take, drop, min, ◌⊎◌, inl, inr, Bool-cases, ◌==◌, ==_iff, if◌then◌else◌, ltb,
  lt→ltb,
}
use embedded_fatfs.Base.Bytes.{slice, length-slice}
use embedded_fatfs.Io.Ends.{Returns, returns, bind, mono}
use embedded_fatfs.BufStream.{
  BufStream, in_block, is_direct, read_round, read_stream, read_direct, read_cached,
}
use embedded_fatfs.BufStream.Cache.{casts, beside-Returns, check_cache_lem, Ready}
use embedded_fatfs.BufStream.Device.{BlockDevice, IsBlockDevice}
use embedded_fatfs.BufStream.Ranges.{
  in_block-le, in_block-gt, in_block-lt, capacity-lt, direct_whole, whole_aligned, whole_blocks,
  unmasked, next_apart, next_enough,
}
use embedded_fatfs.BufStream.View.{
  view, view_kept, Coherent, Coherent-kept, Coherent-moved, Apart, Moved,
}
use embedded_fatfs.BufStream.Windows.{slice-add, take-slice, drop-slice}
use native.Mathlib.Nat.{le_of_mul-le-mul_right}

module _ {dev : BlockDevice} (laws : IsBlockDevice dev) where
  open dev use {State, block_size, align}
  open laws use {content, blocks}

  -- What one transfer of the loop leaves before the offset moves: the bytes of the stream from
  -- there on, at least one and at most `len`.
  record Part (b : BufStream) (s : State) (len : ℕ) (bs : List ℕ) (b' : BufStream) (s' : State)
      : Type 0 where
    some_bytes : 0 < length bs
    most : length bs ≤ len
    bytes : bs ≡ slice (view laws b s) b.current_offset (length bs)
    coherent : Coherent laws b' s'
    shows : view laws b' s' ≡ view laws b s
    offset : b'.current_offset ≡ b.current_offset
    behind :
        length bs < len
        → (b'.current_block ≡ in_block dev b)
          × (in_block dev b * block_size + block_size ≡ b.current_offset + length bs)

  module _ (b : BufStream) {s : State} (addr len : ℕ) (h : Coherent laws b s) (some_left : 0 < len)
      (room : b.current_offset + len ≤ blocks * block_size) where
    block_inside : in_block dev b < blocks
    block_inside = in_block-lt laws b (omega arith)

    block_fits : ltb (in_block dev b) (2 ^ 32) ≡ true
    block_fits = lt→ltb (in_block dev b) (2 ^ 32) (omega (arith, laws.addressed, block_inside))

    read_direct_lem :
        is_direct dev addr len b ≡ true
        → (b.dirty ≡ false) ⊎ Apart laws b b.current_offset len
        → Returns (λ bs (b', s'). Part b s len bs b' s') (read_direct dev addr len (b, s))
    read_direct_lem d clear =
        let (whole, at, start) = direct_whole laws addr len b d in
        let count = whole_blocks laws len whole in
        let place = whole_blocks laws b.current_offset start in
        let fits : in_block dev b + len / block_size ≤ blocks =
          le_of_mul-le-mul_right {k = block_size} (omega (arith, count, place, room))
            laws.some_bytes in
        rw block_fits (
          casts laws addr len _ (whole_aligned laws addr len whole at) (
            mono (beside-Returns dev b (laws.read_in (in_block dev b) (len / block_size) s fits))
              (λ bs (b', t) (same, (got, kept)).
                let all = got ∙ ap₂ (slice (content s)) place count in
                let count' : length bs ≡ len =
                  ap length all ∙ length-slice (content s) b.current_offset len in
                subst (λ c. Part b s len bs c t) (sym same)
                  (record {
                    some_bytes = omega arith;
                    most = omega arith;
                    bytes =
                        all
                        ∙ unmasked laws b s b.current_offset len h clear
                        ∙ ap (slice (view laws b s) b.current_offset) (sym count');
                    coherent = Coherent-kept laws b kept h;
                    shows = view_kept laws b kept;
                    offset = refl;
                    behind = λ less. absurd (omega arith);
                  }))
              (λ _ _ z. z)))

    -- The bytes of the cached block from the offset on.
    cached_bytes :
        (c : BufStream) {t : State}
        → Ready laws b s c t
        → (k : ℕ) → k + b.current_offset ≤ in_block dev b * block_size + block_size
        → take k (drop (c.current_offset - in_block dev b * block_size) c.buffer)
          ≡ slice (view laws b s) b.current_offset k
    cached_bytes c {t} r k fits =
        let from = in_block dev b * block_size in
        let lo = in_block-le laws b in
        let p : from + (c.current_offset - from) ≡ b.current_offset = omega (arith, r.offset) in
        let held = r.coherent.held (omega (arith, r.cached, block_inside)) in
        let shown : c.buffer ≡ slice (view laws b s) from block_size =
          held ∙ ap₂ (λ v q. slice v (q * block_size) block_size) r.shows r.cached in
        ap (λ l. take k (drop (c.current_offset - from) l)) shown
        ∙ ap (take k) (drop-slice (c.current_offset - from) (view laws b s) from block_size)
        ∙ take-slice k (view laws b s) (from + (c.current_offset - from)) _
            (omega (arith, p, r.offset))
        ∙ ap (λ q. slice (view laws b s) q k) p

    read_cached_lem : Returns (λ bs (b', s'). Part b s len bs b' s') (read_cached dev len (b, s))
    read_cached_lem = rw block_fits (
        bind (check_cache_lem laws b h block_inside) λ _ (c, t) r.
          let from = in_block dev b * block_size in
          let lo = in_block-le laws b in
          let hi = in_block-gt laws b in
          let off = c.current_offset - from in
          let k = min (off + len) block_size - off in
          let at = r.offset in
          let got = cached_bytes c r k (omega arith) in
          let count : length (take k (drop off c.buffer)) ≡ k =
            ap length got ∙ length-slice (view laws b s) b.current_offset k in
          returns (record {
            some_bytes = omega arith;
            most = omega arith;
            bytes = got ∙ ap (slice (view laws b s) b.current_offset) (sym count);
            coherent = r.coherent;
            shows = r.shows;
            offset = at;
            behind = λ less. (r.cached, omega arith);
          }))

    read_either :
        (is_direct dev addr len b ≡ true → (b.dirty ≡ false) ⊎ Apart laws b b.current_offset len)
        → Returns
            (λ bs (b', s'). Part b s len bs b' s')
            ((if is_direct dev addr len b then read_direct dev addr len else read_cached dev len)
              (b, s))
    read_either clear = elim (Bool-cases (is_direct dev addr len b)) [
      | inl q ↦ rw q (read_direct_lem q (clear q))
      | inr q ↦ rw q read_cached_lem
    ]

  read_round_lem :
      (b : BufStream) {s : State} (addr len : ℕ)
      → Coherent laws b s
      → 0 < len
      → b.current_offset + len ≤ blocks * block_size
      → (is_direct dev addr len b ≡ true → (b.dirty ≡ false) ⊎ Apart laws b b.current_offset len)
      → Returns
          (λ bs (b', s').
            (0 < length bs)
            × (length bs ≤ len)
            × (bs ≡ slice (view laws b s) b.current_offset (length bs))
            × Moved laws b (view laws b s) (length bs) len b' s')
          (read_round dev addr len (b, s))
  unfolding read_round
  read_round_lem b {s} addr len h some_left room clear =
      bind (read_either b addr len h some_left room clear) λ bs (b', t) p.
        let at : (b'.current_offset + length bs) % 2 ^ 64 ≡ b.current_offset + length bs =
          omega (arith, p.offset, p.most, room, capacity-lt laws) in
        returns (
          p.some_bytes,
          p.most,
          p.bytes,
          record {
            coherent = Coherent-moved laws b' _ p.coherent;
            shows = p.shows;
            offset = at;
            behind = p.behind;
          },
        )

  -- For a coherent stream, a request of at least one byte that lies within the device, enough
  -- rounds for the blocks of the range, and, where the request is transferred directly, a cached
  -- block that is clean or has no byte of the range: read fills the whole buffer with the bytes
  -- that the stream shows from its offset on, moves the offset behind them, shows the same bytes
  -- as before and is coherent again.
  pub read_stream_lem :
      (fuel : ℕ) (b : BufStream) {s : State} (addr len : ℕ)
      → b.current_offset % block_size + len ≤ fuel * block_size
      → 0 < len
      → b.current_offset + len ≤ blocks * block_size
      → Coherent laws b s
      → (is_direct dev addr len b ≡ true → (b.dirty ≡ false) ⊎ Apart laws b b.current_offset len)
      → Returns
          (λ bs (b', s').
            (bs ≡ slice (view laws b s) b.current_offset len)
            × (b'.current_offset ≡ b.current_offset + len)
            × (view laws b' s' ≡ view laws b s)
            × Coherent laws b' s')
          (read_stream dev fuel addr len (b, s))
  unfolding read_stream
  read_stream_lem zero b addr len enough some_left room h clear = absurd (omega arith)
  read_stream_lem (suc fuel) b {s} addr len enough some_left room h clear =
      bind (read_round_lem b addr len h some_left room clear) λ bs (c, t) (pos, most, got, m).
        elim (Bool-cases (length bs == len)) [
          | inl q ↦
              let all = (==_iff (length bs) len).0 q in
              rw q (
                returns (
                  got ∙ ap (slice (view laws b s) b.current_offset) all,
                  m.offset ∙ ap (λ n. b.current_offset + n) all,
                  m.shows,
                  m.coherent,
                ))
          | inr q ↦
              let less : length bs < len = ground (arith, most) in
              let (block, edge) = m.behind less in
              rw q (
                bind
                  (read_stream_lem fuel c (addr + length bs) (len - length bs)
                    (next_enough laws b (view laws b s) (length bs) len c t m less fuel enough)
                    (omega arith) (omega (arith, m.offset, room, less)) m.coherent
                    (λ _.
                      inr
                        (inr (inl (next_apart laws b (view laws b s) (length bs) len c t m less)))))
                  λ more (d, u) (got', at, shows, coherent). returns (
                    ap₂ ◌++◌ got (got' ∙ ap₂ (λ v p. slice v p (len - length bs)) m.shows m.offset)
                        ∙ slice-add (view laws b s) b.current_offset (length bs) (len - length bs)
                        ∙ ap (slice (view laws b s) b.current_offset) (omega arith),
                    omega (arith, at, m.offset, less),
                    shows ∙ m.shows,
                    coherent,
                  ))
        ]
