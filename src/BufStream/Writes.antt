-- ===== src/BufStream/Writes.antt =====
-- `Write::write` of `BufStream`: the rounds of its loop, and what it leaves.
pub mod Loop
use embedded_fatfs.Base.{
  ℕ, zero, suc, ◌+◌, ◌-◌, ◌*◌, ◌^◌, ◌/◌, ◌%◌, ◌≤◌, ◌<◌, ◌≡◌, Bool, true, false, arith, refl, sym,
  ap, ap₂, ◌∙◌, subst,
}
use embedded_fatfs.Base.{
  List, [], ◌++◌, length, take, drop, min, ◌⊎◌, inl, inr, Bool-cases, ◌==◌, ==_iff, if◌then◌else◌,
  ltb, lt→ltb,
}
use embedded_fatfs.Base.{
  All, All-append, All-take, All-drop, length-append, length-take, length-drop, take-append_drop,
  take_all, fun_ext,
}
use embedded_fatfs.Base.Bytes.{IsByte, slice, patch, length-slice, slice-patch, slice_outside}
use embedded_fatfs.Io.{pure}
use embedded_fatfs.Io.Ends.{Returns, Ends, returns, bind, mono}
use embedded_fatfs.Io.Stream.{patch-append}
use embedded_fatfs.BufStream.{
  BufStream, in_block, is_direct, write_round, write_stream, write_direct, write_cached, splice,
  flush_cache,
}
use embedded_fatfs.BufStream.Cache.{
  casts, beside-Returns, check_cache_lem, flush_cache_lem, flushed, Ready, shown_clean, shown_dirty,
}
use embedded_fatfs.BufStream.Device.{BlockDevice, IsBlockDevice}
use embedded_fatfs.BufStream.Ranges.{
  in_block-le, in_block-gt, in_block-lt, capacity-lt, direct_whole, whole_aligned, whole_blocks,
  view_outside, patch_swap, next_apart, next_enough,
}
use embedded_fatfs.BufStream.View.{view, Coherent, Coherent-moved, Apart, Moved}
use embedded_fatfs.BufStream.Windows.{take-slice, drop-slice, patch-window}
use native.Mathlib.Nat.{mod-eq_of_lt, le_of_mul-le-mul_right}

module _ {dev : BlockDevice} (laws : IsBlockDevice dev) where
  open dev use {State, block_size, align}
  open laws use {content, blocks}

  -- What one transfer of the loop leaves before the offset moves: the first `n` bytes of the buffer
  -- are in the stream.
  pub record Part (b : BufStream) (s : State) (buf : List ℕ) (n : ℕ) (b' : BufStream) (s' : State)
      : Type 0 where
    pub some_bytes : 0 < n
    pub most : n ≤ length buf
    pub coherent : Coherent laws b' s'
    pub shows : view laws b' s' ≡ patch (view laws b s) b.current_offset (take n buf)
    pub offset : b'.current_offset ≡ b.current_offset
    pub behind :
        n < length buf
        → (b'.current_block ≡ in_block dev b)
          × (in_block dev b * block_size + block_size ≡ b.current_offset + n)

  -- A write to the device apart from the cached block.
  module _ (b : BufStream) {s t : State} (from : ℕ) (buf : List ℕ) (h : Coherent laws b s)
      (apart : Apart laws b from (length buf))
      (written : content t ≡ patch (content s) from buf) where
    view_direct : view laws b t ≡ patch (view laws b s) from buf
    view_direct = elim (Bool-cases b.dirty) [
      | inl q ↦
          let disjoint : (from + length buf ≤ b.current_block * block_size)
              ⊎ (b.current_block * block_size + length b.buffer ≤ from) =
            elim apart [
              | inl past ↦ absurd (omega (arith, h.pending q, past))
              | inr (inl before) ↦ inr (omega (arith, h.whole))
              | inr (inr after) ↦ inl after
            ] in
          shown_dirty laws b t q
          ∙ ap (λ c. patch c (b.current_block * block_size) b.buffer) written
          ∙ patch_swap (content s) from (b.current_block * block_size) buf b.buffer disjoint
          ∙ ap (λ c. patch c from buf) (sym (shown_dirty laws b s q))
      | inr q ↦
          shown_clean laws b t q
          ∙ written
          ∙ ap (λ c. patch c from buf) (sym (shown_clean laws b s q))
    ]

    Coherent-direct : Coherent laws b t
    Coherent-direct = record {
      whole = h.whole;
      bytes = h.bytes;
      pending = h.pending;
      held = λ lt.
          let disjoint : (b.current_block * block_size + block_size ≤ from)
              ⊎ (from + length buf ≤ b.current_block * block_size) =
            elim apart [ inl past ↦ absurd (omega arith) | inr apart' ↦ apart' ] in
          h.held lt
          ∙ sym (
              slice_outside (view laws b s) from buf (b.current_block * block_size) block_size
                disjoint)
          ∙ ap (λ v. slice v (b.current_block * block_size) block_size) (sym view_direct);
    }

  -- Bytes that are put into the cached block.
  module _ (c : BufStream) {t : State} (off : ℕ) (xs : List ℕ) (h : Coherent laws c t)
      (inside : c.current_block < blocks) (fits : off + length xs ≤ block_size)
      (bytes : All IsByte xs) where
    -- The cached block after that.
    spliced_block : List ℕ
    spliced_block = take off c.buffer ++ (xs ++ drop (off + length xs) c.buffer)

    length-spliced : length spliced_block ≡ block_size
    unfolding spliced_block
    length-spliced = omega (
      arith,
      h.whole,
      length-append (take off c.buffer) (xs ++ drop (off + length xs) c.buffer),
      length-append xs (drop (off + length xs) c.buffer),
      length-take off c.buffer,
      length-drop (off + length xs) c.buffer,
    )

    view-splice :
        view laws (splice dev off xs c) t
        ≡ patch (view laws c t) (c.current_block * block_size + off) xs
    view-splice =
        let from = c.current_block * block_size in
        let v = view laws c t in
        let shown = h.held inside in
        let at : from + (off + length xs) ≡ from + off + length xs = omega arith in
        let count : block_size - (off + length xs) ≡ block_size - off - length xs = omega arith in
        let front : take off c.buffer ≡ slice v from off =
          ap (take off) shown ∙ take-slice off v from block_size (omega arith) in
        let back : drop (off + length xs) c.buffer
            ≡ slice v (from + off + length xs) (block_size - off - length xs) =
          ap (drop (off + length xs)) shown
          ∙ drop-slice (off + length xs) v from block_size
          ∙ ap₂ (slice v) at count in
        ap₂ (λ l r. patch (content t) from (l ++ (xs ++ r))) front back
        ∙ fun_ext (λ i.
          patch-window (content t) v from block_size off xs i fits
            (λ j out. view_outside laws c t j h (inr out)))

    Coherent-splice : Coherent laws (splice dev off xs c) t
    unfolding spliced_block
    Coherent-splice = record {
      whole = length-spliced;
      bytes =
          All-append IsByte (take off c.buffer) _ (All-take IsByte off c.buffer h.bytes)
            (All-append IsByte xs _ bytes (All-drop IsByte (off + length xs) c.buffer h.bytes));
      pending = λ _. inside;
      held = λ _.
          sym (slice-patch (content t) (c.current_block * block_size) spliced_block)
          ∙ ap
              (slice (patch (content t) (c.current_block * block_size) spliced_block)
                (c.current_block * block_size))
              length-spliced;
    }

  module _ (b : BufStream) {s : State} (addr : ℕ) (buf : List ℕ) (h : Coherent laws b s)
      (bytes : All IsByte buf) (some_left : 0 < length buf)
      (room : b.current_offset + length buf ≤ blocks * block_size) where
    block_inside : in_block dev b < blocks
    block_inside = in_block-lt laws b (omega arith)

    block_fits : ltb (in_block dev b) (2 ^ 32) ≡ true
    block_fits = lt→ltb (in_block dev b) (2 ^ 32) (omega (arith, laws.addressed, block_inside))

    write_direct_lem :
        is_direct dev addr (length buf) b ≡ true
        → Apart laws b b.current_offset (length buf)
        → Returns (λ n (b', s'). Part b s buf n b' s') (write_direct dev addr buf (b, s))
    write_direct_lem d apart =
        let (whole, at, start) = direct_whole laws addr (length buf) b d in
        let count = whole_blocks laws (length buf) whole in
        let place = whole_blocks laws b.current_offset start in
        let fits : in_block dev b + length buf / block_size ≤ blocks =
          le_of_mul-le-mul_right {k = block_size} (omega (arith, count, place, room))
            laws.some_bytes in
        rw block_fits (
          casts laws addr (length buf) _ (whole_aligned laws addr (length buf) whole at) (
            bind
              (beside-Returns dev b (
                laws.write_in (in_block dev b) (length buf / block_size) buf s fits (sym count)
                  bytes))
              λ _ (b', t) (same, written).
                let put = written ∙ ap (λ p. patch (content s) p buf) place in
                returns (
                  subst (λ c. Part b s buf (length buf) c t) (sym same)
                    (record {
                      some_bytes = some_left;
                      most = omega arith;
                      coherent = Coherent-direct b b.current_offset buf h apart put;
                      shows =
                          view_direct b b.current_offset buf h apart put
                          ∙ ap (patch (view laws b s) b.current_offset)
                              (sym (take_all (length buf) buf (omega arith)));
                      offset = refl;
                      behind = λ less. absurd (omega arith);
                    }))))

    -- The last step of a round through the cache: a full block is written back.
    flush_or_keep :
        (c : BufStream) {t : State} (full : Bool)
        → Coherent laws c t
        → Returns
            (λ _ (b', s').
              Coherent laws b' s'
              × (view laws b' s' ≡ view laws c t)
              × (b'.current_offset ≡ c.current_offset)
              × (b'.current_block ≡ c.current_block))
            ((if full then flush_cache dev else pure tt) (c, t))
    flush_or_keep c false k = returns (k, refl, refl, refl)
    flush_or_keep c {t} true k =
        mono (flush_cache_lem laws c k)
          (λ _ (b', u) (same, e).
            subst
              (λ x.
                Coherent laws x u
                × (view laws x u ≡ view laws c t)
                × (x.current_offset ≡ c.current_offset)
                × (x.current_block ≡ c.current_block))
              (sym same) (flushed laws c k e, e, refl, refl))
          (λ _ _ z. z)

    write_cached_lem : Returns (λ n (b', s'). Part b s buf n b' s') (write_cached dev buf (b, s))
    write_cached_lem = rw block_fits (
        bind (check_cache_lem laws b h block_inside) λ _ (c, t) r.
          let from = in_block dev b * block_size in
          let lo = in_block-le laws b in
          let hi = in_block-gt laws b in
          let off = c.current_offset - from in
          let k = min (off + length buf) block_size - off in
          let at = r.offset in
          let xs = take k buf in
          let count : length xs ≡ k = omega (arith, length-take k buf) in
          let inside : c.current_block < blocks = omega (arith, r.cached, block_inside) in
          let fits : off + length xs ≤ block_size = omega arith in
          let small = All-take IsByte k buf bytes in
          let place : c.current_block * block_size + off ≡ b.current_offset =
            ap (λ q. q * block_size + off) r.cached ∙ omega arith in
          bind
            (flush_or_keep (splice dev off xs c)
              (from + min (off + length buf) block_size == from + block_size)
              (Coherent-splice c off xs r.coherent inside fits small))
            λ _ (d, u) (coherent, shows, offset, block). returns (record {
              some_bytes = omega arith;
              most = omega arith;
              coherent = coherent;
              shows =
                  shows
                  ∙ view-splice c off xs r.coherent inside fits small
                  ∙ ap₂ (λ v p. patch v p xs) r.shows place;
              offset = offset ∙ at;
              behind = λ less. (block ∙ r.cached, omega arith);
            }))

    pub write_either :
        (is_direct dev addr (length buf) b ≡ true → Apart laws b b.current_offset (length buf))
        → Returns
            (λ n (b', s'). Part b s buf n b' s')
            ((if is_direct dev addr (length buf) b
                then write_direct dev addr buf
                else write_cached dev buf)
              (b, s))
    write_either apart = elim (Bool-cases (is_direct dev addr (length buf) b)) [
      | inl q ↦ rw q (write_direct_lem q (apart q))
      | inr q ↦ rw q write_cached_lem
    ]
