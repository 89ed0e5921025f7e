-- ===== src/BufStream/Writes/Loop.antt =====
-- The loop of `Write::write` of `BufStream`.
use embedded_fatfs.Base.{
  ℕ, zero, suc, ◌+◌, ◌*◌, ◌^◌, ◌%◌, ◌≤◌, ◌<◌, ◌≡◌, true, arith, sym, ap, ap₂, ◌∙◌,
}
use embedded_fatfs.Base.{List, length, take, drop, inl, inr, Bool-cases, ◌==◌, ==_iff}
use embedded_fatfs.Base.{
  All, All-drop, length-take, length-drop, take-append_drop, take_all, fun_ext,
}
use embedded_fatfs.Base.Bytes.{IsByte, patch}
use embedded_fatfs.Io.Ends.{Returns, returns, bind}
use embedded_fatfs.Io.Stream.{patch-append}
use embedded_fatfs.BufStream.{BufStream, is_direct, write_round, write_stream}
use embedded_fatfs.BufStream.Device.{BlockDevice, IsBlockDevice}
use embedded_fatfs.BufStream.Ranges.{capacity-lt, next_apart, next_enough}
use embedded_fatfs.BufStream.View.{view, Coherent, Coherent-moved, Apart, Moved}
use embedded_fatfs.BufStream.Writes.{write_either}

module _ {dev : BlockDevice} (laws : IsBlockDevice dev) where
  open dev use {State, block_size}
  open laws use {blocks}

  write_round_lem :
      (b : BufStream) {s : State} (addr : ℕ) (buf : List ℕ)
      → Coherent laws b s
      → All IsByte buf
      → 0 < length buf
      → b.current_offset + length buf ≤ blocks * block_size
      → (is_direct dev addr (length buf) b ≡ true → Apart laws b b.current_offset (length buf))
      → Returns
          (λ n (b', s').
            (0 < n)
            × (n ≤ length buf)
            × Moved laws b
                (patch (view laws b s) b.current_offset (take n buf))
                n
                (length buf)
                b'
                s')
          (write_round dev addr buf (b, s))
  unfolding write_round
  write_round_lem b {s} addr buf h bytes some_left room apart =
      bind (write_either laws b addr buf h bytes some_left room apart) λ n (b', t) p.
        let at : (b'.current_offset + n) % 2 ^ 64 ≡ b.current_offset + n =
          omega (arith, p.offset, p.most, room, capacity-lt laws) in
        returns (
          p.some_bytes,
          p.most,
          record {
            coherent = Coherent-moved laws b' _ p.coherent;
            shows = p.shows;
            offset = at;
            behind = p.behind;
          },
        )

  -- The bytes of a round and those of the rounds behind it.
  both_parts :
      (v : ℕ → ℕ) (p n : ℕ) (buf : List ℕ)
      → n ≤ length buf
      → patch (patch v p (take n buf)) (p + n) (drop n buf) ≡ patch v p buf
  both_parts v p n buf h =
      let count : length (take n buf) ≡ n = omega (arith, length-take n buf) in
      ap (λ k. patch (patch v p (take n buf)) (p + k) (drop n buf)) (sym count)
      ∙ fun_ext (λ i. patch-append v p (take n buf) (drop n buf) i)
      ∙ ap (patch v p) (take-append_drop n buf)

  -- For a coherent stream, at least one byte to write within the device, enough rounds for the
  -- blocks of the range, and, where the buffer is transferred directly, a cached block that has
  -- no byte of the range: write returns the length of the buffer; the stream then shows the
  -- buffer at its old offset and the same bytes as before elsewhere, its offset is behind the
  -- buffer, and it is coherent again.
  pub write_stream_lem :
      (fuel : ℕ) (b : BufStream) {s : State} (addr : ℕ) (buf : List ℕ)
      → b.current_offset % block_size + length buf ≤ fuel * block_size
      → All IsByte buf
      → 0 < length buf
      → b.current_offset + length buf ≤ blocks * block_size
      → Coherent laws b s
      → (is_direct dev addr (length buf) b ≡ true → Apart laws b b.current_offset (length buf))
      → Returns
          (λ n (b', s').
            (n ≡ length buf)
            × (view laws b' s' ≡ patch (view laws b s) b.current_offset buf)
            × (b'.current_offset ≡ b.current_offset + length buf)
            × Coherent laws b' s')
          (write_stream dev fuel addr buf (b, s))
  unfolding write_stream
  write_stream_lem zero b addr buf enough bytes some_left room h apart = absurd (omega arith)
  write_stream_lem (suc fuel) b {s} addr buf enough bytes some_left room h apart =
      bind (write_round_lem b addr buf h bytes some_left room apart) λ n (c, t) (pos, most, m).
        elim (Bool-cases (n == length buf)) [
          | inl q ↦
              let all = (==_iff n (length buf)).0 q in
              rw q (
                returns (
                  all,
                  m.shows
                      ∙ ap (patch (view laws b s) b.current_offset) (take_all n buf (omega arith)),
                  m.offset ∙ ap (λ k. b.current_offset + k) all,
                  m.coherent,
                ))
          | inr q ↦
              let less : n < length buf = ground (arith, most) in
              let v = patch (view laws b s) b.current_offset (take n buf) in
              let count = length-drop n buf in
              rw q (
                bind
                  (write_stream_lem fuel c (addr + n) (drop n buf)
                    (omega
                      (arith, count, next_enough laws b v n (length buf) c t m less fuel enough))
                    (All-drop IsByte n buf bytes) (omega (arith, count))
                    (omega (arith, count, m.offset, room, less)) m.coherent
                    (λ _. inr (inl (next_apart laws b v n (length buf) c t m less))))
                  λ more (d, u) (got, shows, at, coherent). returns (
                    omega (arith, got, count, less),
                    shows
                        ∙ ap₂ (λ w p. patch w p (drop n buf)) m.shows m.offset
                        ∙ both_parts (view laws b s) b.current_offset n buf most,
                    omega (arith, at, m.offset, count, less),
                    coherent,
                  ))
        ]
