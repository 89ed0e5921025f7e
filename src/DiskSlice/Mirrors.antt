-- ===== src/DiskSlice/Mirrors.antt =====
-- What a write to the slice does to its mirrors.
use embedded_fatfs.Base.{
  ℕ, zero, suc, ◌+◌, ◌-◌, ◌*◌, ◌%◌, ◌^◌, ◌≤◌, ◌<◌, ◌≡◌, List, length, take, min, All,
}
use embedded_fatfs.Base.{
  arith, refl, sym, ap, ◌∙◌, ◌∷◌, [], ◌⊎◌, inl, inr, Bool-cases, ◌==◌, ==_iff, length-take,
}
use embedded_fatfs.Base.Bytes.{IsByte, slice, patch, slice-patch, slice_same, patch_outside}
use embedded_fatfs.Io.{Storage, Run, Error}
use embedded_fatfs.Io.Ends.{Returns, returns, fails, bind, mono}
use embedded_fatfs.Io.Laws.{IsStorage, try_seek, try_write_all}
use embedded_fatfs.DiskSlice.{beside, DiskSlice, write_mirrors, write_slice, left, moved, abs_pos}
use native.Mathlib.Nat.{mul-le-mul_right, mod-eq_of_lt}

-- The bytes `bs` are in the mirrors from `i` below `k`, and nothing else of `c` is changed.
pub record Mirrored (c : ℕ → ℕ) (offset size i k : ℕ) (bs : List ℕ) (e : ℕ → ℕ) : Type 0 where
  pub written : (m : ℕ) → i ≤ m → m < k → slice e (offset + m * size) (length bs) ≡ bs
  pub outside :
      (x : ℕ)
      → ((m : ℕ) → i ≤ m → m < k → (x < offset + m * size) ⊎ (offset + m * size + length bs ≤ x))
      → e x ≡ c x

module _ {st : Storage} (laws : IsStorage st) (offset size : ℕ) (bs : List ℕ)
    (bytes : All IsByte bs) (fits : length bs ≤ size) where
  open st use {State}
  open laws use {content}

  Mirrored-cons :
      (c e : ℕ → ℕ) (i k : ℕ)
      → i < k
      → Mirrored (patch c (offset + i * size) bs) offset size (i + 1) k bs e
      → Mirrored c offset size i k bs e
  Mirrored-cons c e i k some_left h = record {
    written = λ m lo hi. elim (Bool-cases (m == i)) [
      | inl q ↦ rw ((==_iff m i).0 q) (
          slice_same e (patch c (offset + i * size) bs) (offset + i * size) (length bs)
            (λ x above below. h.outside x (λ m l _. inl (omega (arith, mul-le-mul_right size l))))
          ∙ slice-patch c (offset + i * size) bs)
      | inr later ↦ h.written m (ground arith) hi
    ];
    outside = λ x out.
        h.outside x (λ m l u. out m (omega arith) u)
        ∙ patch_outside c (offset + i * size) bs x (out i (omega arith) some_left);
  }

  write_mirrors_in :
      (rounds i k : ℕ) (c : ℕ → ℕ) {s : State}
      → content s ≡ c
      → k ≡ i + rounds
      → ((m : ℕ) → m < k → offset + m * size + length bs ≤ laws.size)
      → laws.size < 2 ^ 64
      → Returns
          (λ _ u. Mirrored c offset size i k bs (content u))
          (write_mirrors st rounds i offset size bs s)
  unfolding write_mirrors
  write_mirrors_in zero i k c e q room lim =
      returns
        (record { written = λ m lo hi. absurd (omega arith); outside = λ x _. ap (λ f. f x) e })
  write_mirrors_in (suc rounds) i k c e q room lim =
      let fit = room i (omega arith) in
      let plain : (offset + i * size) % 2 ^ 64 ≡ offset + i * size = mod-eq_of_lt (omega arith) in
      rw plain (
        bind (try_seek laws c (offset + i * size) e (omega arith)) λ _ t (_, g, at).
          bind (try_write_all laws c (offset + i * size) g at bs fit bytes) λ _ u (g', _).
            mono
              (write_mirrors_in rounds (i + 1) k (patch c (offset + i * size) bs) g' (omega arith)
                room lim)
              (λ _ w h. Mirrored-cons c (content w) i k (omega arith) h) (λ _ _ z. z))

-- A slice that lies in the storage with all its mirrors, and an offset that lies in it.
pub record Inside (size : ℕ) (d : DiskSlice) : Type 0 where
  pub lim : size < 2 ^ 64
  pub mirrored : 0 < d.mirrors
  pub room : d.begin + d.mirrors * d.size ≤ size
  pub offset : d.offset ≤ d.size

take-IsByte : (n : ℕ) (bs : List ℕ) → All IsByte bs → All IsByte (take n bs)
take-IsByte zero bs h = tt
take-IsByte (suc n) [] h = tt
take-IsByte (suc n) (b ∷ bs) (h, hs) = (h, take-IsByte n bs hs)

pub beside-Returns :
    (st : Storage) {A : Type 0} {P : A → st.State → Type 0} (d : DiskSlice)
    {r : Run st.State (Error st.Cause) A}
    → Returns P r
    → Returns (λ a du. (du.0 ≡ d) × P a du.1) (beside st d r)
beside-Returns st d (returns h) = returns (refl, h)
beside-Returns st d (fails q) = absurd q

module _ {st : Storage} (laws : IsStorage st) (d : DiskSlice) (inside : Inside laws.size d) where
  open st use {State}
  open laws use {content}

  one_fits : d.begin + d.size ≤ laws.size
  one_fits = omega (arith, inside.room, mul-le-mul_right d.size inside.mirrored)

  left-plain : left d ≡ d.size - d.offset
  left-plain = omega (arith, inside.lim, inside.offset, one_fits)

  abs_pos-plain : abs_pos d ≡ d.begin + d.offset
  abs_pos-plain = omega (arith, inside.lim, inside.offset, one_fits)

  -- Every mirror has room for as many bytes as the slice has behind its offset.
  mirror_room :
      (n m : ℕ)
      → n ≤ d.size - d.offset
      → m < d.mirrors
      → d.begin + d.offset + m * d.size + n ≤ laws.size
  mirror_room n m h hm = omega (arith, inside.room, inside.offset, mul-le-mul_right d.size hm)

  moved-plain :
      (n : ℕ) (e : DiskSlice)
      → n ≤ d.size - d.offset
      → e ≡ d
      → moved e n ≡ record d { offset = d.offset + n }
  moved-plain n e h q =
      ap (λ x. moved x n) q
      ∙ ap (λ o. record d { offset = o })
          (mod-eq_of_lt (omega (arith, inside.lim, inside.offset, one_fits)))

  -- For a slice with at least one mirror that lies in a storage of fewer than 2 ^ 64 bytes with
  -- all its mirrors, and an offset within it: a write returns the smaller of what is left of the
  -- slice and the length of the buffer, the offset moves on by that many bytes, every mirror
  -- holds those bytes of the buffer at the old offset, and no byte outside of these ranges is
  -- changed.
  pub write_slice_lem :
      (buf : List ℕ) {s : State}
      → All IsByte buf
      → Returns
          (λ n du.
            (n ≡ min (d.size - d.offset) (length buf))
            × (du.0 ≡ record d { offset = d.offset + n })
            × Mirrored
                (content s)
                (d.begin + d.offset)
                d.size
                0
                d.mirrors
                (take n buf)
                (content du.1))
          (write_slice st buf (d, s))
  unfolding write_slice
  write_slice_lem buf {s} bytes =
      let n = min (d.size - d.offset) (length buf) in
      rw (left-plain, abs_pos-plain)
        (elim (Bool-cases (n == 0)) [
          | inl z ↦ rw z (
              returns (
                sym ((==_iff n 0).0 z),
                ap (λ o. record d { offset = o }) (omega arith),
                record { written = λ m _ _. refl; outside = λ x _. refl },
              ))
          | inr nz ↦ rw nz (
              bind
                (beside-Returns st d (
                  write_mirrors_in laws (d.begin + d.offset) d.size (take n buf)
                    (take-IsByte n buf bytes) (omega (arith, length-take n buf)) d.mirrors 0
                    d.mirrors (content s) refl (omega arith)
                    (λ m hm.
                      mirror_room (length (take n buf)) m (omega (arith, length-take n buf)) hm)
                    inside.lim))
                λ _ du (q, h). returns (refl, moved-plain n du.0 (omega arith) q, h))
        ])
