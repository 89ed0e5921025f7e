-- ===== src/Table/Fat16/Laws.antt =====
-- `Fat16` of embedded-fatfs/src/table.rs against the contract of the table.
use embedded_fatfs.Base.{ℕ, zero, suc, ◌+◌, ◌-◌, ◌*◌, ◌%◌, ◌^◌, ◌≤◌, ◌<◌, ◌≡◌, ◌≢◌, refl, ap, ◌∙◌}
use embedded_fatfs.Base.{inl, inr, Bool-cases, ltb, lt→ltb, le→ltb_false, ◌==◌, arith}
use embedded_fatfs.Base.{if◌then◌else◌, sym, ltb→lt, ltb_false→le}
use embedded_fatfs.Base.Bytes.{word, patch, to_le_bytes, word-patch, word-patch_outside}
use embedded_fatfs.Io.{Storage}
use embedded_fatfs.Io.Ends.{Returns, returns, bind, mono}
use embedded_fatfs.Io.Laws.{IsStorage, try_seek, try_read_u16_le, try_write_u16_le}
use embedded_fatfs.Table.Value.{FatValue, free, data_value, bad, end_of_chain, is_free}
use embedded_fatfs.Table.Contract.{Table, free_count, Updated, Storable, IsFat}
use embedded_fatfs.Table.Contract.{
  FirstFree, FirstFree-here, FirstFree-none, FirstFree-next, free_count-step, Storable-mono,
}
use embedded_fatfs.Table.Contract.{Returns-zero-add}
use embedded_fatfs.Table.Fat16.{fat_offset, decode, encode, get_raw, get, set_raw, set}
use embedded_fatfs.Table.Fat16.{find_free_loop, find_free, count_free_loop, count_free, fat}

pub is_free-decode : (val : ℕ) → is_free (decode val) ≡ (val == 0)
unfolding decode
is_free-decode val = ground arith

pub decode-encode : (v : FatValue) → Storable 0xFFF7 v → decode (encode v % 2 ^ 16) ≡ v
unfolding decode
decode-encode free h = refl
decode-encode bad h = refl
decode-encode end_of_chain h = refl
decode-encode (data_value n) h = ground arith

-- What the bytes at a table's start say of entry `n`.
abbrev pub table : (ℕ → ℕ) → Table
table c n = decode (word 2 c (n * 2))

-- An entry that is written, and the others.
table-patch :
    (c : ℕ → ℕ) (n : ℕ) (v : FatValue)
    → Storable 0xFFF7 v
    → table (patch c (n * 2) (to_le_bytes 2 (encode v % 2 ^ 16))) n ≡ v
table-patch c n v h =
    ap decode (word-patch 2 c (n * 2) (encode v % 2 ^ 16) (omega arith)) ∙ decode-encode v h

table-patch_ne :
    (c : ℕ → ℕ) (n m x : ℕ) → m ≢ n → table (patch c (n * 2) (to_le_bytes 2 x)) m ≡ table c m
table-patch_ne c n m x ne =
    ap decode (word-patch_outside 2 c (n * 2) (to_le_bytes 2 x) (m * 2) (grind arith))

module _ {st : Storage} (laws : IsStorage st) (c : ℕ → ℕ) where
  open st use {State}
  open laws use {content, position, size}

  pub get_raw_in :
      (n : ℕ) {s : State}
      → content s ≡ c
      → n < 2 ^ 28
      → n * 2 + 2 ≤ size
      → Returns (λ v t. (v ≡ word 2 c (n * 2)) × (content t ≡ c)) (get_raw st n s)
  unfolding get_raw
  get_raw_in n e h room = bind (try_seek laws c (fat_offset n) e (omega arith)) λ _ t (_, g, p).
      mono (try_read_u16_le laws c (n * 2) g (p ∙ omega arith) room) (λ v u (q, k, _). (q, k))
        (λ _ _ b. b)

  pub set_raw_in :
      (n x : ℕ) {s : State}
      → content s ≡ c
      → n < 2 ^ 28
      → n * 2 + 2 ≤ size
      → Returns (λ _ t. content t ≡ patch c (n * 2) (to_le_bytes 2 (x % 2 ^ 16))) (set_raw st n x s)
  unfolding set_raw
  set_raw_in n x e h room = bind (try_seek laws c (fat_offset n) e (omega arith)) λ _ t (_, g, p).
      mono (try_write_u16_le laws c (n * 2) g (p ∙ omega arith) (x % 2 ^ 16) room) (λ v u (k, _). k)
        (λ _ _ b. b)

  find_free_loop_in :
      (fuel a b : ℕ) {s : State}
      → content s ≡ c
      → position s ≡ a * 2
      → a ≤ b
      → b < a + fuel
      → b * 2 ≤ size
      → FirstFree laws c (table c) a b (find_free_loop st fuel b a s)
  unfolding find_free_loop
  find_free_loop_in zero a b e p h f room = absurd (omega arith)
  find_free_loop_in (suc fuel) a b e p h f room = elim (Bool-cases (ltb a b)) [
    | inl more ↦ rw more (
        bind (try_read_u16_le laws c (a * 2) e p (ground arith)) λ v t (q, g, r).
          elim (Bool-cases (v == 0)) [
            | inl zero_here ↦ rw zero_here (
                FirstFree-here laws c (table c) a b (ltb→lt a b more)
                  (is_free-decode _ ∙ ap (λ x. x == 0) (sym q) ∙ zero_here) g)
            | inr used ↦ rw used (
                FirstFree-next laws c (table c) a b
                  (is_free-decode _ ∙ ap (λ x. x == 0) (sym q) ∙ used)
                  (find_free_loop_in fuel (a + 1) b g (omega arith) (ground arith) (omega arith)
                    room))
          ])
    | inr done ↦ rw done (FirstFree-none laws c (table c) a b (ltb_false→le a b done) e)
  ]

  pub find_free_in :
      (a b : ℕ) {s : State}
      → content s ≡ c
      → a < b
      → b < 2 ^ 28
      → b * 2 ≤ size
      → FirstFree laws c (table c) a b (find_free st a b s)
  unfolding find_free
  find_free_in a b e h lim room =
      bind (try_seek laws c (fat_offset a) e (omega arith)) λ _ t (_, g, p).
        find_free_loop_in (suc b) a b g (p ∙ omega arith) (omega arith) (omega arith) room

  count_free_loop_in :
      (k fuel a b count : ℕ) {s : State}
      → content s ≡ c
      → position s ≡ a * 2
      → b ≡ a + k
      → k < fuel
      → b * 2 ≤ size
      → Returns
          (λ n t. (n ≡ count + free_count (table c) a k) × (content t ≡ c))
          (count_free_loop st fuel b a count s)
  unfolding count_free_loop
  count_free_loop_in k zero a b count e p w f room = absurd (omega arith)
  count_free_loop_in zero (suc fuel) a b count e p w f room =
      rw (le→ltb_false a b (omega arith)) (returns (omega arith, e))
  count_free_loop_in (suc k) (suc fuel) a b count e p w f room = rw (lt→ltb a b (omega arith)) (
      bind (try_read_u16_le laws c (a * 2) e p (omega arith)) λ v t (q, g, r).
        let here : is_free (table c a) ≡ (v == 0) = is_free-decode _ ∙ ap (λ x. x == 0) (sym q) in
        mono
          (count_free_loop_in k fuel (a + 1) b (if v == 0 then count + 1 else count) g (omega arith)
            (omega arith) (omega arith) room)
          (λ n u (total, same). (total ∙ free_count-step (table c) a count k (v == 0) here, same))
          (λ _ _ b. b))

  pub count_free_in :
      (b : ℕ) {s : State}
      → content s ≡ c
      → 2 ≤ b
      → b * 2 ≤ size
      → Returns (λ n t. (n ≡ free_count (table c) 2 (b - 2)) × (content t ≡ c)) (count_free st b s)
  unfolding count_free
  count_free_in b e h room = bind (try_seek laws c (fat_offset 2) e (omega arith)) λ _ t (_, g, p).
      Returns-zero-add _
        (count_free_loop_in (b - 2) (suc b) 2 b 0 g p (omega arith) (omega arith) room)

  pub get_in :
      (n : ℕ) {s : State}
      → content s ≡ c
      → n < 2 ^ 28
      → n * 2 + 2 ≤ size
      → Returns (λ v t. (v ≡ table c n) × (content t ≡ c)) (get st n s)
  unfolding get
  get_in n e h room = bind (get_raw_in n e h room) λ v t (q, g). returns (ap decode q, g)

  pub set_in :
      (entries n : ℕ) (v : FatValue) {s : State}
      → content s ≡ c
      → n < 2 ^ 28
      → entries ≤ 0xFFF7
      → n * 2 + 2 ≤ size
      → Storable entries v
      → Returns (λ _ t. Updated entries (table c) n v (table (content t))) (set st n v s)
  unfolding set
  set_in entries n v e h lim room ok =
      mono (set_raw_in n (encode v) e h room)
        (λ _ t k. rw k (record {
          at = table-patch c n v (Storable-mono entries 0xFFF7 v lim ok);
          elsewhere = λ m hm ne. table-patch_ne c n m (encode v % 2 ^ 16) ne;
        }))
        (λ _ _ b. b)

-- For at most 0xFFF7 entries of two bytes that lie in the storage, the 16-bit layout keeps the
-- contract of the table.
pub fat16-IsFat :
    {st : Storage} (laws : IsStorage st) (entries : ℕ)
    → entries ≤ 0xFFF7
    → entries * 2 ≤ laws.size
    → IsFat laws (fat st) entries table
fat16-IsFat laws entries lim room = record {
  fits = omega arith;
  get_entry = λ c n e h. get_in laws c n e (omega arith) (omega arith);
  set_entry = λ c n v e h ok. set_in laws c entries n v e (omega arith) lim (omega arith) ok;
  find_first = λ c a b e h hb. find_free_in laws c a b e h (omega arith) (omega arith);
  count_all = λ c b e h hb. count_free_in laws c b e h (omega arith);
}
