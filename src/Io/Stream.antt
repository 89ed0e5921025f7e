-- ===== src/Io/Stream.antt =====
-- Structures that are written and read field by field: the bytes that are still to be written, and
-- those that lie ahead of the position.
use embedded_fatfs.Base.{
  ℕ, suc, ◌+◌, ◌≤◌, ◌<◌, ◌^◌, ◌%◌, ◌≡◌, List, [], ◌∷◌, ◌++◌, arith, length, All,
}
use embedded_fatfs.Base.{ap, ap₂, sym, ◌∙◌, refl, fun_ext, length-append, ◌==◌, if◌then◌else◌}
use embedded_fatfs.Base.Bytes.{IsByte, IsU16, IsU32, from_le_bytes, to_le_bytes, word, slice, patch}
use embedded_fatfs.Base.Bytes.{
  to_le_bytes-IsByte, from_le_bytes-to_le_bytes, slice-patch, length-to_le_bytes,
}
use embedded_fatfs.Io.{Storage, try_exact}
use embedded_fatfs.Io.{read_u8, read_u16_le, read_u32_le, write_u8, write_u16_le, write_u32_le}
use embedded_fatfs.Io.Ends.{Returns, mono}
use embedded_fatfs.Io.Laws.{IsStorage, try_exact_in, try_read_u8, try_read_u16_le}
use embedded_fatfs.Io.Laws.{try_read_u32_le}

-- A byte in front of a write stays in front of it.
patch-cons :
    (c : ℕ → ℕ) (p x : ℕ) (xs : List ℕ) (q : ℕ) (ys : List ℕ) (i : ℕ)
    → p < q
    → patch (patch c p (x ∷ xs)) q ys i ≡ (if i == p then x else patch (patch c (p + 1) xs) q ys i)
patch-cons c p x xs q [] i h = refl
patch-cons c p x xs q (y ∷ ys) i h = ground (arith, patch-cons c p x xs (q + 1) ys i)

-- Writing two runs of bytes one behind the other writes their concatenation.
pub patch-append :
    (c : ℕ → ℕ) (p : ℕ) (xs ys : List ℕ) (i : ℕ)
    → patch (patch c p xs) (p + length xs) ys i ≡ patch c p (xs ++ ys) i
patch-append c p [] ys i = ap (λ q. patch c q ys i) (omega arith)
patch-append c p (x ∷ xs) ys i =
    let behind : p + 1 + length xs ≡ p + suc (length xs) = omega arith in
    patch-cons c p x xs (p + suc (length xs)) ys i (omega arith)
    ∙ ap (λ b. if i == p then x else b)
        (ap (λ q. patch (patch c (p + 1) xs) q ys i) (sym behind) ∙ patch-append c (p + 1) xs ys i)

-- A slice that is a concatenation is one slice behind the other.
slice-append :
    (c : ℕ → ℕ) (p : ℕ) (xs ys : List ℕ)
    → slice c p (length (xs ++ ys)) ≡ xs ++ ys
    → (slice c p (length xs) ≡ xs) × (slice c (p + length xs) (length ys) ≡ ys)
slice-append c p [] ys h = (refl, ap (λ q. slice c q (length ys)) (omega arith) ∙ h)
slice-append c p (x ∷ xs) ys h =
    let (front, behind) = slice-append c (p + 1) xs ys (ap rest h) in
    let moved : p + suc (length xs) ≡ p + 1 + length xs = omega arith in
    (ap₂ ◌∷◌ (ap first h) front, ap (λ q. slice c q (length ys)) moved ∙ behind)
  where
    first : List ℕ → ℕ
    first [] = 0
    first (b ∷ bs) = b

    rest : List ℕ → List ℕ
    rest [] = []
    rest (b ∷ bs) = bs

-- The state has the bytes `bs` ahead of its position, in the content `d`.
pub record Ahead {st : Storage} (laws : IsStorage st) (d : ℕ → ℕ) (bs : List ℕ) (s : st.State)
    : Type 0 where
  pub same : laws.content s ≡ d
  pub holds : slice d (laws.position s) (length bs) ≡ bs
  pub room : laws.position s + length bs ≤ laws.size

-- The content will be `d` once the bytes `bs` are written from the position on.
pub record Due {st : Storage} (laws : IsStorage st) (d : ℕ → ℕ) (bs : List ℕ) (s : st.State)
    : Type 0 where
  pub becomes : patch (laws.content s) (laws.position s) bs ≡ d
  pub room : laws.position s + length bs ≤ laws.size

module _ {st : Storage} (laws : IsStorage st) (d : ℕ → ℕ) where
  open st use {State}
  open laws use {content, position, size}

  pub reads :
      (xs ys : List ℕ) {n : ℕ} {s : State}
      → n ≡ length xs
      → Ahead laws d (xs ++ ys) s
      → Returns (λ bs t. (bs ≡ xs) × Ahead laws d ys t) (try_exact st (st.read_exact n) s)
  reads xs ys {n} {s} q h =
      let (front, behind) = slice-append d (position s) xs ys h.holds in
      mono
        (try_exact_in laws d n (position s) h.same refl
          (omega (arith, h.room, length-append xs ys, q)))
        (λ bs t (r, e, p). (
          r ∙ ap (slice d (position s)) q ∙ front,
          record {
            same = e;
            holds = ap (λ x. slice d x (length ys)) (p ∙ ap (λ k. position s + k) q) ∙ behind;
            room = omega (arith, h.room, length-append xs ys, p, q);
          },
        ))
        (λ _ _ b. b)

  -- A word that lies ahead, and the state behind it.
  word-Ahead :
      (k : ℕ) {n : ℕ} (ys : List ℕ) {s : State}
      → n < 256 ^ k
      → Ahead laws d (to_le_bytes k n ++ ys) s
      → word k d (position s) ≡ n
  word-Ahead k {n} ys {s} lim h =
      let (front, _) = slice-append d (position s) (to_le_bytes k n) ys h.holds in
      ap (λ l. from_le_bytes (slice d (position s) l)) (sym (length-to_le_bytes k n))
      ∙ ap from_le_bytes front
      ∙ from_le_bytes-to_le_bytes k n lim

  Ahead-next :
      (k n : ℕ) (ys : List ℕ) {s t : State}
      → Ahead laws d (to_le_bytes k n ++ ys) s
      → content t ≡ d
      → position t ≡ position s + k
      → Ahead laws d ys t
  Ahead-next k n ys {s} h e p =
      let (_, behind) = slice-append d (position s) (to_le_bytes k n) ys h.holds in
      let moved = p ∙ ap (λ l. position s + l) (sym (length-to_le_bytes k n)) in
      record {
        same = e;
        holds = ap (λ x. slice d x (length ys)) moved ∙ behind;
        room = omega (arith, h.room, length-append (to_le_bytes k n) ys, length-to_le_bytes k n, p);
      }

  module _ {n : ℕ} (ys : List ℕ) {s : State} where
    pub reads_u8 :
        IsByte n
        → Ahead laws d (to_le_bytes 1 n ++ ys) s
        → Returns (λ v t. (v ≡ n) × Ahead laws d ys t) (try_exact st (read_u8 st) s)
    reads_u8 lim h =
        mono (try_read_u8 laws d (position s) h.same refl (omega (arith, h.room)))
          (λ v t (q, e, p). (q ∙ word-Ahead 1 ys (omega arith) h, Ahead-next 1 n ys h e p))
          (λ _ _ b. b)

    pub reads_u16_le :
        IsU16 n
        → Ahead laws d (to_le_bytes 2 n ++ ys) s
        → Returns (λ v t. (v ≡ n) × Ahead laws d ys t) (try_exact st (read_u16_le st) s)
    reads_u16_le lim h =
        mono (try_read_u16_le laws d (position s) h.same refl (omega (arith, h.room)))
          (λ v t (q, e, p). (q ∙ word-Ahead 2 ys (omega arith) h, Ahead-next 2 n ys h e p))
          (λ _ _ b. b)

    pub reads_u32_le :
        IsU32 n
        → Ahead laws d (to_le_bytes 4 n ++ ys) s
        → Returns (λ v t. (v ≡ n) × Ahead laws d ys t) (try_exact st (read_u32_le st) s)
    reads_u32_le lim h =
        mono (try_read_u32_le laws d (position s) h.same refl (omega (arith, h.room)))
          (λ v t (q, e, p). (q ∙ word-Ahead 4 ys (omega arith) h, Ahead-next 4 n ys h e p))
          (λ _ _ b. b)

  pub writes :
      (xs ys : List ℕ) {s : State}
      → All IsByte xs
      → Due laws d (xs ++ ys) s
      → Returns (λ _ t. Due laws d ys t) (st.write_all xs s)
  writes xs ys {s} bytes h =
      mono (laws.write_all_in xs s (omega (arith, h.room, length-append xs ys)) bytes)
        (λ _ t (e, p). record {
          becomes =
              ap₂ (λ c q. patch c q ys) e p
              ∙ fun_ext (patch-append (content s) (position s) xs ys)
              ∙ h.becomes;
          room = omega (arith, h.room, length-append xs ys, p);
        })
        (λ _ _ b. b)

  module _ (n : ℕ) (ys : List ℕ) {s : State} where
    pub writes_u8 :
        IsByte n
        → Due laws d (to_le_bytes 1 n ++ ys) s
        → Returns (λ _ t. Due laws d ys t) (write_u8 st n s)
    unfolding write_u8
    writes_u8 lim h =
        let plain : n ≡ n % 256 = omega arith in
        rw plain (writes (to_le_bytes 1 n) ys (to_le_bytes-IsByte 1 n) h)

    pub writes_u16_le :
        Due laws d (to_le_bytes 2 n ++ ys) s
        → Returns (λ _ t. Due laws d ys t) (write_u16_le st n s)
    unfolding write_u16_le
    writes_u16_le h = writes (to_le_bytes 2 n) ys (to_le_bytes-IsByte 2 n) h

    pub writes_u32_le :
        Due laws d (to_le_bytes 4 n ++ ys) s
        → Returns (λ _ t. Due laws d ys t) (write_u32_le st n s)
    unfolding write_u32_le
    writes_u32_le h = writes (to_le_bytes 4 n) ys (to_le_bytes-IsByte 4 n) h

  -- What was written lies ahead of where it was written.
  pub Ahead-Due :
      (c : ℕ → ℕ) (p : ℕ) (bs : List ℕ) {s : State}
      → d ≡ patch c p bs
      → content s ≡ d
      → position s ≡ p
      → p + length bs ≤ size
      → Ahead laws d bs s
  Ahead-Due c p bs q e at h = record {
    same = e;
    holds = ap₂ (λ x y. slice x y (length bs)) q at ∙ slice-patch c p bs;
    room = omega arith;
  }
