-- ===== src/Table/Fat12/Count.antt =====
-- `count_free` of the 12-bit layout: an odd entry is tested by its last byte, and by the top bits of
-- the word of the entry before.
use embedded_fatfs.Base.{ℕ, zero, suc, ◌+◌, ◌-◌, ◌*◌, ◌/◌, ◌%◌, ◌^◌, ◌≤◌, ◌<◌, ◌≡◌, ap, ◌∙◌}
use embedded_fatfs.Base.{Bool-cases, inl, inr, lt→ltb, le→ltb_false, ◌==◌, arith, sym}
use embedded_fatfs.Base.{if◌then◌else◌, bit_or}
use embedded_fatfs.Base.Bytes.{IsByte, word}
use embedded_fatfs.Base.Bits.{bit_and_mask, bit_or_high}
use embedded_fatfs.Io.{Storage}
use embedded_fatfs.Io.Ends.{Returns, returns, bind, mono}
use embedded_fatfs.Io.Laws.{IsStorage, try_seek, try_read_u8, try_read_u16_le}
use embedded_fatfs.Table.Value.{is_free}
use embedded_fatfs.Table.Contract.{free_count}
use embedded_fatfs.Table.Contract.{free_count-step, Returns-zero-add}
use embedded_fatfs.Table.Fat12.{count_read}
use embedded_fatfs.Table.Fat12.{count_value, count_free_loop, count_free}
use embedded_fatfs.Table.Fat12.Entry.{offset, table, is_even-mod, is_free-decode}

-- The value that is tested for an odd entry is not the entry, but both are zero at once.
odd_value :
    (c : ℕ → ℕ) (p b : ℕ)
    → ((i : ℕ) → IsByte (c i))
    → b ≡ c (p + 2)
    → (bit_or (b * 2 ^ 8 % 2 ^ 16) (word 2 c p / 2 ^ 12) == 0) ≡ (word 2 c (p + 1) / 2 ^ 4 == 0)
odd_value c p b bytes q =
    let next : p + 1 + 1 ≡ p + 2 = omega arith in
    rw next
      (ground (arith, bytes p, bytes (p + 1), bytes (p + 2), bit_or_high 8 b (word 2 c p / 2 ^ 12)))

-- Where the loop stands before it reads for entry `a`.
abbrev reading : ℕ → ℕ
reading a = offset a + a % 2

-- What the word read before must be: before an odd entry it is that of the entry before.
abbrev Carried : (ℕ → ℕ) → ℕ → ℕ → Type 0
Carried c a prev = (a % 2 ≡ 1) → prev ≡ word 2 c (offset a - 1)

module _ {st : Storage} (laws : IsStorage st) (c : ℕ → ℕ) (bytes : (i : ℕ) → IsByte (c i)) where
  open st use {State}
  open laws use {content, position, size}

  -- One read: the test is that of the entry, and the loop stands before the next one.
  count_step :
      (a prev : ℕ) {s : State}
      → content s ≡ c
      → position s ≡ reading a
      → Carried c a prev
      → offset a + 2 ≤ size
      → Returns
          (λ v t.
            ((count_value a v prev == 0) ≡ is_free (table c a))
            × Carried c (a + 1) v
            × (content t ≡ c)
            × (position t ≡ reading (a + 1)))
          (count_read st a s)
  unfolding count_read count_value
  count_step a prev e p k room = elim (Bool-cases (a % 2 == 0)) [
    | inl even ↦ rw (is_even-mod a) (
        rw even (
          mono (try_read_u16_le laws c (offset a) e (p ∙ ground arith) room)
            (λ v t (q, g, h). (
              ap (λ x. x == 0) (bit_and_mask 12 v)
                  ∙ ap (λ x. x % 2 ^ 12 == 0) q
                  ∙ sym (is_free-decode _),
              (λ _. q ∙ ap (word 2 c) (ground arith)),
              g,
              h ∙ ground arith,
            ))
            (λ _ _ b. b)))
    | inr odd ↦ rw (is_even-mod a) (
        rw odd (
          mono (try_read_u8 laws c (offset a - 1 + 2) e (p ∙ ground arith) (ground arith))
            (λ v t (q, g, h).
              let step : offset a - 1 + 1 ≡ offset a = ground arith in
              (
                ap (λ x. bit_or (v * 2 ^ 8 % 2 ^ 16) (x / 2 ^ 12) == 0) (k (ground arith))
                    ∙ odd_value c (offset a - 1) v bytes (q ∙ omega arith)
                    ∙ ap (λ x. word 2 c x / 2 ^ 4 == 0) step
                    ∙ sym (is_free-decode _),
                (λ even. absurd (ground arith)),
                g,
                h ∙ ground arith,
              ))
            (λ _ _ b. b)))
  ]

  count_free_loop_in :
      (k fuel a b prev count : ℕ) {s : State}
      → content s ≡ c
      → position s ≡ reading a
      → Carried c a prev
      → b ≡ a + k
      → k < fuel
      → b + b / 2 + 1 ≤ size
      → Returns
          (λ n t. (n ≡ count + free_count (table c) a k) × (content t ≡ c))
          (count_free_loop st fuel b a prev count s)
  unfolding count_free_loop
  count_free_loop_in k zero a b prev count e p carried w f room = absurd (omega arith)
  count_free_loop_in zero (suc fuel) a b prev count e p carried w f room =
      rw (le→ltb_false a b (omega arith)) (returns (omega arith, e))
  count_free_loop_in (suc k) (suc fuel) a b prev count e p carried w f room =
      rw (lt→ltb a b (omega arith)) (
        bind (count_step a prev e p carried (omega arith)) λ v t (test, next, g, r).
          mono
            (count_free_loop_in k fuel (a + 1) b v
              (if count_value a v prev == 0 then count + 1 else count) g r next (omega arith)
              (omega arith) room)
            (λ n u (total, same). (
              total ∙ free_count-step (table c) a count k (count_value a v prev == 0) (sym test),
              same,
            ))
            (λ _ _ b. b))

  pub count_free_in :
      (b : ℕ) {s : State}
      → content s ≡ c
      → 2 ≤ b
      → b + b / 2 + 1 ≤ size
      → Returns (λ n t. (n ≡ free_count (table c) 2 (b - 2)) × (content t ≡ c)) (count_free st b s)
  unfolding count_free
  count_free_in b e h room = bind (try_seek laws c 3 e (omega arith)) λ _ t (_, g, p).
      Returns-zero-add _ (
        count_free_loop_in (b - 2) (suc b) 2 b 0 0 g p (λ odd. absurd (omega arith)) (omega arith)
          (omega arith) room)
