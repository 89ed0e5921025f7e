-- ===== src/Io/Laws.antt =====
-- What a well-behaved storage promises: a fixed number of bytes, a position, and operations that
-- succeed in range. The laws are those documented for the traits of embedded_io_async.
use embedded_fatfs.Base.{ℕ, ◌+◌, ◌≤◌, ◌≡◌, List, arith, length, All, ap, ap₂, ◌∙◌}
use embedded_fatfs.Base.Bytes.{IsByte, from_le_bytes, to_le_bytes, word, slice, patch}
use embedded_fatfs.Base.Bytes.{to_le_bytes-IsByte}
use embedded_fatfs.Io.{Storage, start, try_exact, try_io, pure, ◌>>=◌}
use embedded_fatfs.Io.{read_u8, read_u16_le, read_u32_le, write_u16_le, write_u32_le}
use embedded_fatfs.Io.Ends.{Returns, returns, bind, mono, Returns-map_err}

pub record IsStorage (st : Storage) : Type 0 where
  pub content : st.State → ℕ → ℕ
  pub position : st.State → ℕ
  pub size : ℕ
  pub content_byte : (s : st.State) (i : ℕ) → IsByte (content s i)
  pub seek_start :
      (n : ℕ) (s : st.State)
      → n ≤ size
      → Returns (λ r t. (r ≡ n) × (content t ≡ content s) × (position t ≡ n)) (st.seek (start n) s)
  pub read_exact_in :
      (n : ℕ) (s : st.State)
      → position s + n ≤ size
      → Returns
          (λ bs t.
            (bs ≡ slice (content s) (position s) n)
            × (content t ≡ content s)
            × (position t ≡ position s + n))
          (st.read_exact n s)
  pub write_all_in :
      (bs : List ℕ) (s : st.State)
      → position s + length bs ≤ size
      → All IsByte bs
      → Returns
          (λ _ t.
            (content t ≡ patch (content s) (position s) bs) × (position t ≡ position s + length bs))
          (st.write_all bs s)
  pub flush_keeps :
      (s : st.State)
      → Returns (λ _ t. (content t ≡ content s) × (position t ≡ position s)) (st.flush s)

-- The commands that the file system is built of, over a storage that keeps the laws. `c` is the
-- content and `p` the position at which the command starts.
module _ {st : Storage} (laws : IsStorage st) (c : ℕ → ℕ) where
  open st use {State, into_error, seek, flush}
  open laws use {content, position, size}

  pub try_seek :
      (n : ℕ) {s : State}
      → content s ≡ c
      → n ≤ size
      → Returns (λ r t. (r ≡ n) × (content t ≡ c) × (position t ≡ n)) (try_io st (seek (start n)) s)
  try_seek n {s} e h =
      Returns-map_err _ (mono (laws.seek_start n s h) (λ r t (q, f, g). (q, f ∙ e, g)) (λ _ _ b. b))

  pub try_exact_in :
      (n p : ℕ) {s : State}
      → content s ≡ c
      → position s ≡ p
      → p + n ≤ size
      → Returns
          (λ bs t. (bs ≡ slice c p n) × (content t ≡ c) × (position t ≡ p + n))
          (try_exact st (st.read_exact n) s)
  try_exact_in n p {s} e f h = Returns-map_err _ (
      mono (laws.read_exact_in n s (omega arith))
        (λ bs t (q, g, r). (q ∙ ap₂ (λ x y. slice x y n) e f, g ∙ e, omega arith)) (λ _ _ b. b))

  try_word :
      (k p : ℕ) {s : State}
      → content s ≡ c
      → position s ≡ p
      → p + k ≤ size
      → Returns
          (λ v t. (v ≡ word k c p) × (content t ≡ c) × (position t ≡ p + k))
          (try_exact st (do buf ← st.read_exact k; pure (from_le_bytes buf)) s)
  try_word k p {s} e f h = Returns-map_err _ (
      bind (laws.read_exact_in k s (omega arith)) (λ bs t (q, g, r).
        returns (ap from_le_bytes (q ∙ ap₂ (λ x y. slice x y k) e f), g ∙ e, omega arith)))

  module _ (p : ℕ) {s : State} (e : content s ≡ c) (f : position s ≡ p) where
    pub try_read_u8 :
        p + 1 ≤ size
        → Returns
            (λ v t. (v ≡ word 1 c p) × (content t ≡ c) × (position t ≡ p + 1))
            (try_exact st (read_u8 st) s)
    unfolding read_u8
    try_read_u8 h = try_word 1 p e f h

    pub try_read_u16_le :
        p + 2 ≤ size
        → Returns
            (λ v t. (v ≡ word 2 c p) × (content t ≡ c) × (position t ≡ p + 2))
            (try_exact st (read_u16_le st) s)
    unfolding read_u16_le
    try_read_u16_le h = try_word 2 p e f h

    pub try_read_u32_le :
        p + 4 ≤ size
        → Returns
            (λ v t. (v ≡ word 4 c p) × (content t ≡ c) × (position t ≡ p + 4))
            (try_exact st (read_u32_le st) s)
    unfolding read_u32_le
    try_read_u32_le h = try_word 4 p e f h

    pub try_write_all :
        (bs : List ℕ)
        → p + length bs ≤ size
        → All IsByte bs
        → Returns
            (λ _ t. (content t ≡ patch c p bs) × (position t ≡ p + length bs))
            (try_io st (st.write_all bs) s)
    try_write_all bs h b = Returns-map_err _ (
        mono (laws.write_all_in bs s (omega arith) b)
          (λ _ t (q, r). (q ∙ ap₂ (λ x y. patch x y bs) e f, omega arith)) (λ _ _ b. b))

    pub try_write_u16_le :
        (n : ℕ)
        → p + 2 ≤ size
        → Returns
            (λ _ t. (content t ≡ patch c p (to_le_bytes 2 n)) × (position t ≡ p + 2))
            (try_io st (write_u16_le st n) s)
    unfolding write_u16_le
    try_write_u16_le n h = try_write_all (to_le_bytes 2 n) h (to_le_bytes-IsByte 2 n)

    pub try_write_u32_le :
        (n : ℕ)
        → p + 4 ≤ size
        → Returns
            (λ _ t. (content t ≡ patch c p (to_le_bytes 4 n)) × (position t ≡ p + 4))
            (try_io st (write_u32_le st n) s)
    unfolding write_u32_le
    try_write_u32_le n h = try_write_all (to_le_bytes 4 n) h (to_le_bytes-IsByte 4 n)
