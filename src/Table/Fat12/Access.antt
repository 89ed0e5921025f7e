-- ===== src/Table/Fat12/Access.antt =====
-- Reading and writing an entry of the 12-bit layout, over a storage that keeps its laws.
use embedded_fatfs.Base.{ℕ, ◌+◌, ◌^◌, ◌≤◌, ◌<◌, ◌≡◌, ap, ◌∙◌}
use embedded_fatfs.Base.{arith, subst}
use embedded_fatfs.Base.Bytes.{IsByte, patch, to_le_bytes}
use embedded_fatfs.Io.{Storage}
use embedded_fatfs.Io.Ends.{Returns, returns, bind, mono}
use embedded_fatfs.Io.Laws.{IsStorage, try_seek, try_read_u16_le, try_write_u16_le}
use embedded_fatfs.Table.Value.{FatValue}
use embedded_fatfs.Table.Contract.{Updated, Storable, Storable-mono}
use embedded_fatfs.Table.Fat12.{fat_offset, repack, decode, encode, get_raw, get, set_raw}
use embedded_fatfs.Table.Fat12.{set}
use embedded_fatfs.Table.Fat12.Entry.{offset, field, entry, table, unpack-field}
use embedded_fatfs.Table.Fat12.Entry.{decode-encode, encode-lt, rewritten, entry-rewritten}
use embedded_fatfs.Table.Fat12.Entry.{entry-rewritten_ne}

module _ {st : Storage} (laws : IsStorage st) (c : ℕ → ℕ) where
  open st use {State}
  open laws use {content, position, size}

  pub get_raw_in :
      (n : ℕ) {s : State}
      → content s ≡ c
      → n < 2 ^ 28
      → offset n + 2 ≤ size
      → Returns (λ v t. (v ≡ entry c n) × (content t ≡ c)) (get_raw st n s)
  unfolding get_raw
  get_raw_in n e h room = bind (try_seek laws c (fat_offset n) e (omega arith)) λ _ t (_, g, p).
      bind (try_read_u16_le laws c (offset n) g (p ∙ omega arith) room)
        λ v u (q, k, _). returns (unpack-field n v ∙ ap (field n) q, k)

  pub get_in :
      (n : ℕ) {s : State}
      → content s ≡ c
      → n < 2 ^ 28
      → offset n + 2 ≤ size
      → Returns (λ v t. (v ≡ table c n) × (content t ≡ c)) (get st n s)
  unfolding get
  get_in n e h room = bind (get_raw_in n e h room) λ v t (q, g). returns (ap decode q, g)

  pub set_raw_in :
      (n x : ℕ) {s : State}
      → content s ≡ c
      → n < 2 ^ 28
      → offset n + 2 ≤ size
      → Returns (λ _ t. content t ≡ rewritten c n x) (set_raw st n x s)
  unfolding set_raw
  set_raw_in n x e h room = bind (try_seek laws c (fat_offset n) e (omega arith)) λ _ t (_, g, p).
      bind (try_read_u16_le laws c (offset n) g (p ∙ omega arith) room) λ v u (q, k, _).
        bind (try_seek laws c (fat_offset n) k (omega arith)) λ _ w (_, l, p').
          mono (try_write_u16_le laws c (offset n) l (p' ∙ omega arith) (repack n v x) room)
            (λ _ z (m, _). m ∙ ap (λ y. patch c (offset n) (to_le_bytes 2 (repack n y x))) q)
            (λ _ _ b. b)

  pub set_in :
      (entries n : ℕ) (v : FatValue) {s : State}
      → content s ≡ c
      → n < 2 ^ 28
      → entries ≤ 0xFF7
      → offset n + 2 ≤ size
      → Storable entries v
      → Returns (λ _ t. Updated entries (table c) n v (table (content t))) (set st n v s)
  unfolding set
  set_in entries n v {s} e h lim room ok =
      let ok' = Storable-mono entries 0xFF7 v lim ok in
      let bytes : (i : ℕ) → IsByte (c i) = λ i. subst (λ f. f i < 256) e (laws.content_byte s i) in
      mono (set_raw_in n (encode v) e h room)
        (λ _ t k. rw k (record {
          at = ap decode (entry-rewritten c bytes n _ (encode-lt v ok')) ∙ decode-encode v ok';
          elsewhere = λ m hm ne. ap decode (entry-rewritten_ne c bytes n _ (encode-lt v ok') m ne);
        }))
        (λ _ _ b. b)
