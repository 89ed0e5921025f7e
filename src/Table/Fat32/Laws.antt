-- ===== src/Table/Fat32/Laws.antt =====
-- `Fat32` of embedded-fatfs/src/table.rs against the contract of the table.
use embedded_fatfs.Base.{ℕ, zero, suc, ◌+◌, ◌-◌, ◌*◌, ◌%◌, ◌^◌, ◌≤◌, ◌<◌, ◌≡◌, ap, ◌∙◌}
use embedded_fatfs.Base.{false, inl, inr, Bool-cases, ltb, lt→ltb, le→ltb_false, ◌==◌, arith}
use embedded_fatfs.Base.{
  ◌/◌, ◌&&◌, bit_and, bit_or, if◌then◌else◌, sym, subst, ltb→lt, ltb_false→le,
}
use embedded_fatfs.Base.Bytes.{word, patch, to_le_bytes, word-lt}
use embedded_fatfs.Base.Bits.{bit_and_mask}
use embedded_fatfs.Io.{Storage}
use embedded_fatfs.Io.Ends.{Returns, returns, bind, mono}
use embedded_fatfs.Io.Laws.{IsStorage, try_seek, try_read_u32_le, try_write_u32_le}
use embedded_fatfs.Table.Value.{FatValue, is_free}
use embedded_fatfs.Table.Contract.{free_count, Updated, Storable, IsFat}
use embedded_fatfs.Table.Contract.{
  FirstFree, FirstFree-here, FirstFree-none, FirstFree-next, free_count-step, Storable-mono,
}
use embedded_fatfs.Table.Contract.{Returns-zero-add}
use embedded_fatfs.Table.Fat32.{fat_offset, is_special, decode, encode, get_raw, get, set_raw, set}
use embedded_fatfs.Table.Fat32.{find_free_loop, find_free, count_free_loop, count_free, fat}
use embedded_fatfs.Table.Fat32.Entry.{is_free-decode, decode-encode, encode-lt, with_reserved}
use embedded_fatfs.Table.Fat32.Entry.{table, table-patch, table-patch_ne}

module _ {st : Storage} (laws : IsStorage st) (c : ℕ → ℕ) where
  open st use {State}
  open laws use {content, position, size}

  pub get_raw_in :
      (n : ℕ) {s : State}
      → content s ≡ c
      → n < 2 ^ 28
      → n * 4 + 4 ≤ size
      → Returns (λ v t. (v ≡ word 4 c (n * 4)) × (content t ≡ c)) (get_raw st n s)
  unfolding get_raw
  get_raw_in n e h room = bind (try_seek laws c (fat_offset n) e (omega arith)) λ _ t (_, g, p).
      mono (try_read_u32_le laws c (n * 4) g (p ∙ omega arith) room) (λ v u (q, k, _). (q, k))
        (λ _ _ b. b)

  pub set_raw_in :
      (n x : ℕ) {s : State}
      → content s ≡ c
      → n < 2 ^ 28
      → n * 4 + 4 ≤ size
      → Returns (λ _ t. content t ≡ patch c (n * 4) (to_le_bytes 4 x)) (set_raw st n x s)
  unfolding set_raw
  set_raw_in n x e h room = bind (try_seek laws c (fat_offset n) e (omega arith)) λ _ t (_, g, p).
      mono (try_write_u32_le laws c (n * 4) g (p ∙ omega arith) x room) (λ v u (k, _). k)
        (λ _ _ b. b)

  test :
      (a v : ℕ)
      → a < 0x0FFF_FFF7
      → v ≡ word 4 c (a * 4)
      → is_free (table c a) ≡ (bit_and v 0x0FFF_FFFF == 0)
  test a v h q =
      is_free-decode a _ h
      ∙ ap (λ x. x == 0) (ap (λ x. x % 2 ^ 28) (sym q) ∙ sym (bit_and_mask 28 v))

  find_free_loop_in :
      (fuel a b : ℕ) {s : State}
      → content s ≡ c
      → position s ≡ a * 4
      → a ≤ b
      → b < a + fuel
      → b ≤ 0x0FFF_FFF7
      → b * 4 ≤ size
      → FirstFree laws c (table c) a b (find_free_loop st fuel b a s)
  unfolding find_free_loop
  find_free_loop_in zero a b e p h f lim room = absurd (omega arith)
  find_free_loop_in (suc fuel) a b e p h f lim room = elim (Bool-cases (ltb a b)) [
    | inl more ↦ rw more (
        bind (try_read_u32_le laws c (a * 4) e p (ground arith)) λ v t (q, g, r).
          elim (Bool-cases (bit_and v 0x0FFF_FFFF == 0)) [
            | inl zero_here ↦ rw zero_here (
                FirstFree-here laws c (table c) a b (ltb→lt a b more)
                  (test a v (ground arith) q ∙ zero_here) g)
            | inr used ↦ rw used (
                FirstFree-next laws c (table c) a b (test a v (ground arith) q ∙ used) (
                  find_free_loop_in fuel (a + 1) b g (omega arith) (ground arith) (omega arith) lim
                    room))
          ])
    | inr done ↦ rw done (FirstFree-none laws c (table c) a b (ltb_false→le a b done) e)
  ]

  pub find_free_in :
      (a b : ℕ) {s : State}
      → content s ≡ c
      → a < b
      → b ≤ 0x0FFF_FFF7
      → b * 4 ≤ size
      → FirstFree laws c (table c) a b (find_free st a b s)
  unfolding find_free
  find_free_in a b e h lim room =
      bind (try_seek laws c (fat_offset a) e (omega arith)) λ _ t (_, g, p).
        find_free_loop_in (suc b) a b g (p ∙ omega arith) (omega arith) (omega arith) lim room

  count_free_loop_in :
      (k fuel a b count : ℕ) {s : State}
      → content s ≡ c
      → position s ≡ a * 4
      → b ≡ a + k
      → k < fuel
      → b ≤ 0x0FFF_FFF7
      → b * 4 ≤ size
      → Returns
          (λ n t. (n ≡ count + free_count (table c) a k) × (content t ≡ c))
          (count_free_loop st fuel b a count s)
  unfolding count_free_loop
  count_free_loop_in k zero a b count e p w f lim room = absurd (omega arith)
  count_free_loop_in zero (suc fuel) a b count e p w f lim room =
      rw (le→ltb_false a b (omega arith)) (returns (omega arith, e))
  count_free_loop_in (suc k) (suc fuel) a b count e p w f lim room = rw (lt→ltb a b (omega arith)) (
      bind (try_read_u32_le laws c (a * 4) e p (omega arith)) λ v t (q, g, r).
        mono
          (count_free_loop_in k fuel (a + 1) b
            (if bit_and v 0x0FFF_FFFF == 0 then count + 1 else count) g (omega arith) (omega arith)
            (omega arith) lim room)
          (λ n u (total, same). (
            total
                ∙ free_count-step (table c) a count k (bit_and v 0x0FFF_FFFF == 0)
                    (test a v (omega arith) q),
            same,
          ))
          (λ _ _ b. b))

  pub count_free_in :
      (b : ℕ) {s : State}
      → content s ≡ c
      → 2 ≤ b
      → b ≤ 0x0FFF_FFF7
      → b * 4 ≤ size
      → Returns (λ n t. (n ≡ free_count (table c) 2 (b - 2)) × (content t ≡ c)) (count_free st b s)
  unfolding count_free
  count_free_in b e h lim room =
      bind (try_seek laws c (fat_offset 2) e (omega arith)) λ _ t (_, g, p).
        Returns-zero-add _
          (count_free_loop_in (b - 2) (suc b) 2 b 0 g p (omega arith) (omega arith) lim room)

  pub get_in :
      (n : ℕ) {s : State}
      → content s ≡ c
      → n < 2 ^ 28
      → n * 4 + 4 ≤ size
      → Returns (λ v t. (v ≡ table c n) × (content t ≡ c)) (get st n s)
  unfolding get
  get_in n e h room =
      bind (get_raw_in n e h room)
        λ v t (q, g). returns (ap (decode n) (bit_and_mask 28 v ∙ ap (λ x. x % 2 ^ 28) q), g)

  -- For a cluster number below 0x0FFFFFF7 whose entry lies in the storage, and a value that an
  -- entry can hold, the 32-bit set returns, and the content is the old one with the four bytes
  -- of that entry replaced by the value below the old high four bits.
  pub set_bytes :
      (n : ℕ) (v : FatValue) {s : State}
      → content s ≡ c
      → n < 0x0FFF_FFF7
      → n * 4 + 4 ≤ size
      → Storable 0x0FFF_FFF7 v
      → Returns
          (λ _ t.
            content t
            ≡ patch c (n * 4) (to_le_bytes 4 (word 4 c (n * 4) / 2 ^ 28 * 2 ^ 28 + encode v)))
          (set st n v s)
  unfolding set
  set_bytes n v {s} e h room ok = bind (get_raw_in n e (omega arith) room) λ raw t (q, g).
      let normal : (is_free v && is_special n) ≡ false = ground arith in
      let new : bit_or (encode v) (bit_and raw 0xF000_0000) ≡ raw / 2 ^ 28 * 2 ^ 28 + encode v =
        with_reserved (encode v) raw (encode-lt v ok) (
          subst (λ x. x < 2 ^ 32) (sym q)
            (word-lt 4 c (n * 4) (λ i. subst (λ f. f i < 256) e (laws.content_byte s i)))) in
      rw normal (
        mono (set_raw_in n _ g (omega arith) room)
          (λ _ u k.
            k
            ∙ ap (λ x. patch c (n * 4) (to_le_bytes 4 x))
                (new ∙ ap (λ x. x / 2 ^ 28 * 2 ^ 28 + encode v) q))
          (λ _ _ b. b))

  pub set_in :
      (entries n : ℕ) (v : FatValue) {s : State}
      → content s ≡ c
      → n < 0x0FFF_FFF7
      → entries ≤ 0x0FFF_FFF7
      → n * 4 + 4 ≤ size
      → Storable entries v
      → Returns (λ _ t. Updated entries (table c) n v (table (content t))) (set st n v s)
  set_in entries n v {s} e h lim room ok =
      let ok' = Storable-mono entries 0x0FFF_FFF7 v lim ok in
      let small = word-lt 4 c (n * 4) (λ i. subst (λ f. f i < 256) e (laws.content_byte s i)) in
      mono (set_bytes n v e h room ok')
        (λ _ t k. rw k (record {
          at =
              table-patch c n (encode v) (word 4 c (n * 4) / 2 ^ 28) (encode-lt v ok') (omega arith)
              ∙ decode-encode n v h ok';
          elsewhere = λ m hm ne. table-patch_ne c n m _ ne;
        }))
        (λ _ _ b. b)

-- For at most 0x0FFFFFF7 entries of four bytes that lie in the storage, the 32-bit layout keeps
-- the contract of the table, on the low 28 bits of each entry.
pub fat32-IsFat :
    {st : Storage} (laws : IsStorage st) (entries : ℕ)
    → entries ≤ 0x0FFF_FFF7
    → entries * 4 ≤ laws.size
    → IsFat laws (fat st) entries table
fat32-IsFat laws entries lim room = record {
  fits = omega arith;
  get_entry = λ c n e h. get_in laws c n e (omega arith) (omega arith);
  set_entry = λ c n v e h ok. set_in laws c entries n v e (omega arith) lim (omega arith) ok;
  find_first = λ c a b e h hb. find_free_in laws c a b e h (omega arith) (omega arith);
  count_all = λ c b e h hb. count_free_in laws c b e h (omega arith) (omega arith);
}
