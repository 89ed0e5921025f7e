-- ===== src/Table/Fat12/Search.antt =====
-- The two loops of the 12-bit layout read each byte of the table once: the search for a free entry
-- carries the word of the entry before, and the count takes the odd entries by their last byte.
use embedded_fatfs.Base.{ℕ, zero, suc, ◌+◌, ◌*◌, ◌/◌, ◌%◌, ◌^◌, ◌≤◌, ◌<◌, ◌≡◌, ap, ◌∙◌}
use embedded_fatfs.Base.{refl, true, Bool-cases, inl, inr, ◌==◌, arith, sym}
use embedded_fatfs.Base.{bit_or}
use embedded_fatfs.Base.Bytes.{IsByte, word}
use embedded_fatfs.Base.Bits.{bit_or_low}
use embedded_fatfs.Io.{Storage}
use embedded_fatfs.Io.Ends.{Returns, returns, bind}
use embedded_fatfs.Io.Laws.{IsStorage, try_seek, try_read_u8, try_read_u16_le}
use embedded_fatfs.Table.Value.{is_free}
use embedded_fatfs.Table.Contract.{
  IsFree, FirstFree, FirstFree-here, FirstFree-none, FirstFree-next,
}
use embedded_fatfs.Table.Fat12.{fat_offset, unpack}
use embedded_fatfs.Table.Fat12.{next_packed, find_free_loop, find_free}
use embedded_fatfs.Table.Fat12.Entry.{
  offset, field, table, is_even-mod, unpack-field, is_free-decode,
}

-- The second byte of a word and the byte that follows make the next word.
joined :
    (c : ℕ → ℕ) (p b : ℕ)
    → ((i : ℕ) → IsByte (c i))
    → b ≡ c (p + 2)
    → bit_or (word 2 c p / 2 ^ 8) (b * 2 ^ 8 % 2 ^ 16) ≡ word 2 c (p + 1)
joined c p b bytes q =
    let next : p + 1 + 1 ≡ p + 2 = omega arith in
    rw next
      (ground (arith, bytes p, bytes (p + 1), bytes (p + 2), bit_or_low 8 b (word 2 c p / 2 ^ 8)))

module _ {st : Storage} (laws : IsStorage st) (c : ℕ → ℕ) (bytes : (i : ℕ) → IsByte (c i)) where
  open st use {State}
  open laws use {content, position, size}

  next_packed_in :
      (a w : ℕ) {s : State}
      → content s ≡ c
      → position s ≡ offset a + 2
      → w ≡ word 2 c (offset a)
      → offset (a + 1) + 2 ≤ size
      → Returns
          (λ v t.
            (v ≡ word 2 c (offset (a + 1))) × (content t ≡ c) × (position t ≡ offset (a + 1) + 2))
          (next_packed st (a + 1) w s)
  unfolding next_packed
  next_packed_in a w e p q room = elim (Bool-cases ((a + 1) % 2 == 0)) [
    | inl even ↦
        rw (is_even-mod (a + 1))
          (rw even (try_read_u16_le laws c (offset (a + 1)) e (p ∙ ground arith) room))
    | inr odd ↦ rw (is_even-mod (a + 1)) (
        rw odd (
          bind (try_read_u8 laws c (offset a + 2) e p (ground arith)) λ b t (r, g, h).
            let step : offset (a + 1) ≡ offset a + 1 = ground arith in
            returns (
              ap (λ x. bit_or (x / 2 ^ 8) (b * 2 ^ 8 % 2 ^ 16)) q
                  ∙ joined c (offset a) b bytes (r ∙ omega arith)
                  ∙ ap (word 2 c) (sym step),
              g,
              h ∙ omega arith,
            )))
  ]

  find_free_loop_in :
      (fuel a b w : ℕ) {s : State}
      → content s ≡ c
      → position s ≡ offset a + 2
      → w ≡ word 2 c (offset a)
      → a < b
      → b < a + fuel
      → b < 2 ^ 28
      → b + b / 2 + 1 ≤ size
      → FirstFree laws c (table c) a b (find_free_loop st fuel b a w s)
  unfolding find_free_loop
  find_free_loop_in zero a b w e p q h f lim room = absurd (omega arith)
  find_free_loop_in (suc fuel) a b w e p q h f lim room =
      let test : is_free (table c a) ≡ (unpack a w == 0) =
        is_free-decode _ ∙ ap (λ x. x == 0) (ap (field a) (sym q) ∙ sym (unpack-field a w)) in
      let nowrap : (a + 1) % 2 ^ 32 ≡ a + 1 = omega arith in
      elim (Bool-cases (unpack a w == 0)) [
        | inl zero_here ↦ rw zero_here (FirstFree-here laws c (table c) a b h (test ∙ zero_here) e)
        | inr used ↦ rw used (
            rw nowrap (elim (Bool-cases (a + 1 == b)) [
              | inl last ↦ rw last (
                  FirstFree-next laws c (table c) a b (test ∙ used)
                    (FirstFree-none laws c (table c) (a + 1) b (ground arith) e))
              | inr more ↦ rw more (
                  FirstFree-next laws c (table c) a b (test ∙ used) (
                    bind (next_packed_in a w e p q (ground arith)) λ v t (r, g, k).
                      find_free_loop_in fuel (a + 1) b v g k r (ground arith) (omega arith) lim
                        room))
            ]))
      ]

  pub find_free_in :
      (a b : ℕ) {s : State}
      → content s ≡ c
      → a < b
      → b < 2 ^ 28
      → b + b / 2 + 1 ≤ size
      → FirstFree laws c (table c) a b (find_free st a b s)
  unfolding find_free
  find_free_in a b e h lim room =
      bind (try_seek laws c (fat_offset a) e (omega arith)) λ _ t (_, g, p).
        bind (try_read_u16_le laws c (offset a) g (p ∙ omega arith) (omega arith))
          λ v u (q, k, r). find_free_loop_in (2 ^ 32) a b v k r q h (omega arith) lim room

  first_free :
      (fuel a b w : ℕ) {s : State}
      → content s ≡ c
      → w ≡ word 2 c (offset a)
      → IsFree (table c) a
      → Returns (λ n u. (n ≡ a) × (content u ≡ c)) (find_free_loop st (suc fuel) b a w s)
  unfolding find_free_loop
  first_free fuel a b w e q f =
      let here : (unpack a w == 0) ≡ true =
        ap (λ x. x == 0) (unpack-field a w ∙ ap (field a) q) ∙ sym (is_free-decode _) ∙ f in
      rw here (returns (refl, e))

  -- Where the end of the range is at or below its start, the start is below 2 ^ 28, the two
  -- bytes of its entry lie in the storage and that entry is free, the 12-bit find_free returns
  -- the start, a cluster outside the range, and keeps the content.
  pub find_free-empty_range :
      (a b : ℕ) {s : State}
      → content s ≡ c
      → b ≤ a
      → a < 2 ^ 28
      → offset a + 2 ≤ size
      → IsFree (table c) a
      → Returns (λ n u. (n ≡ a) × (content u ≡ c)) (find_free st a b s)
  unfolding find_free
  find_free-empty_range a b e h lim room f =
      bind (try_seek laws c (fat_offset a) e (omega arith)) λ _ t (_, g, p).
        bind (try_read_u16_le laws c (offset a) g (p ∙ omega arith) room)
          λ v u (q, k, r). first_free 0xFFFF_FFFF a b v k q f
