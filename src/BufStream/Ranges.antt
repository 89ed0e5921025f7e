-- ===== src/BufStream/Ranges.antt =====
-- Where the offset of a `BufStream` stands in its block, and which bytes the cached block covers.
use embedded_fatfs.Base.{
  ℕ, suc, ◌+◌, ◌-◌, ◌*◌, ◌^◌, ◌/◌, ◌%◌, ◌≤◌, ◌<◌, ◌≡◌, true, false, arith, refl, sym, ap, ◌∙◌,
}
use embedded_fatfs.Base.{
  List, length, ◌⊎◌, inl, inr, Bool-cases, ◌==◌, ◌&&◌, ltb, ltb→lt, ltb_false→le, fun_ext,
}
use embedded_fatfs.Base.Bytes.{slice, patch, slice_same, patch_outside}
use embedded_fatfs.BufStream.{BufStream, in_block, is_direct}
use embedded_fatfs.BufStream.Cache.{shown_clean, shown_dirty}
use embedded_fatfs.BufStream.Device.{BlockDevice, IsBlockDevice}
use embedded_fatfs.BufStream.View.{view, Coherent, Apart, Moved}
use embedded_fatfs.BufStream.Windows.{patch_inside, patch_same}
use native.Mathlib.Nat.{
  mul-mod_left, div-add-mod, div-lt_iff_lt-mul, mul_comm, dvd_trans, dvd_of_mod-eq-zero,
  mod-eq-zero_of_dvd,
}
use native.Mathlib.Nat.{div-mul-le_self, lt-div-mul-add, mul-le-mul}

-- A position is in a range, or it is not.
in_range : (p n i : ℕ) → ((p ≤ i) × (i < p + n)) ⊎ ((i < p) ⊎ (p + n ≤ i))
in_range p n i = elim (Bool-cases (ltb i p)) [
  | inl before ↦ inr (inl (ltb→lt i p before))
  | inr from ↦ elim (Bool-cases (ltb i (p + n))) [
    | inl within ↦ inl (ltb_false→le i p from, ltb→lt i (p + n) within)
    | inr past ↦ inr (inr (ltb_false→le i (p + n) past))
  ]
]

-- Writes to ranges that have no position in common can be made in either order.
pub patch_swap :
    (c : ℕ → ℕ) (p q : ℕ) (xs ys : List ℕ)
    → (p + length xs ≤ q) ⊎ (q + length ys ≤ p)
    → patch (patch c p xs) q ys ≡ patch (patch c q ys) p xs
patch_swap c p q xs ys apart = fun_ext λ i. elim (in_range p (length xs) i) [
  | inl (lo, hi) ↦
      patch_outside (patch c p xs) q ys i (omega arith) ∙ patch_inside c (patch c q ys) p xs i lo hi
  | inr out ↦
      patch_same (patch c p xs) c q ys i (patch_outside c p xs i out)
      ∙ sym (patch_outside (patch c q ys) p xs i out)
]

module _ {dev : BlockDevice} (laws : IsBlockDevice dev) where
  open dev use {State, block_size, align}
  open laws use {content, blocks}

  pub in_block-le : (b : BufStream) → in_block dev b * block_size ≤ b.current_offset
  in_block-le b = div-mul-le_self b.current_offset block_size

  pub in_block-gt : (b : BufStream) → b.current_offset < in_block dev b * block_size + block_size
  in_block-gt b = lt-div-mul-add laws.some_bytes

  pub in_block-lt :
      (b : BufStream) → b.current_offset < blocks * block_size → in_block dev b < blocks
  in_block-lt b h = (div-lt_iff_lt-mul laws.some_bytes).1 h

  pub capacity-lt : blocks * block_size < 2 ^ 64
  capacity-lt =
      let lim : blocks ≤ 2 ^ 32 = omega (arith, laws.addressed) in
      let lim' : block_size ≤ 2 ^ 16 = omega (arith, laws.small) in
      omega (arith, mul-le-mul lim lim')

  -- What the test for a direct transfer says.
  pub direct_whole :
      (addr len : ℕ) (b : BufStream)
      → is_direct dev addr len b ≡ true
      → (len % block_size ≡ 0) × (addr % align ≡ 0) × (b.current_offset % block_size ≡ 0)
  direct_whole addr len b h = ground arith

  -- Whole blocks at an aligned address pass the assertions of the cast.
  pub whole_aligned :
      (addr len : ℕ)
      → len % block_size ≡ 0
      → addr % align ≡ 0
      → (len % block_size == 0) && ((len % align == 0) && (addr % align == 0)) ≡ true
  whole_aligned addr len h h' =
      let dvd =
        dvd_trans align (dvd_of_mod-eq-zero align laws.aligned) (dvd_of_mod-eq-zero block_size h) in
      rw (h, mod-eq-zero_of_dvd align dvd, h') refl

  pub whole_blocks : (n : ℕ) → n % block_size ≡ 0 → n / block_size * block_size ≡ n
  whole_blocks n h =
      omega (arith, h, div-add-mod n block_size, mul_comm block_size (n / block_size))

  pub view_outside :
      (b : BufStream) (s : State) (i : ℕ)
      → Coherent laws b s
      → (b.dirty ≡ false)
        ⊎ (i < b.current_block * block_size)
        ⊎ (b.current_block * block_size + block_size ≤ i)
      → view laws b s i ≡ content s i
  view_outside b s i h out = elim (Bool-cases b.dirty) [
    | inl q ↦
        ap (λ f. f i) (shown_dirty laws b s q)
        ∙ patch_outside (content s) (b.current_block * block_size) b.buffer i
            (ground (arith, h.whole))
    | inr q ↦ ap (λ f. f i) (shown_clean laws b s q)
  ]

  -- A cached block that lies apart from a range, or is clean, hides nothing of the range.
  pub unmasked :
      (b : BufStream) (s : State) (from len : ℕ)
      → Coherent laws b s
      → (b.dirty ≡ false) ⊎ Apart laws b from len
      → slice (content s) from len ≡ slice (view laws b s) from len
  unmasked b s from len h clear = slice_same (content s) (view laws b s) from len (λ i lo hi. sym (
      view_outside b s i h (elim clear [
        | inl q ↦ inl q
        | inr (inl past) ↦ elim (Bool-cases b.dirty) [
          | inl q ↦ absurd (omega (arith, h.pending q, past))
          | inr q ↦ inl q
        ]
        | inr (inr apart) ↦ omega arith
      ])))

  -- After a round that does not end the loop, the offset is behind the cached block, and one block
  -- less is left.
  module _ (b : BufStream) (v : ℕ → ℕ) (n len : ℕ) (c : BufStream) (t : State)
      (m : Moved laws b v n len c t) (less : n < len) where
    pub next_apart : c.current_block * block_size + block_size ≤ c.current_offset
    next_apart =
        let (block, edge) = m.behind less in
        let start = ap (λ k. k * block_size) block in omega (arith, start, edge, m.offset)

    pub next_enough :
        (fuel : ℕ)
        → b.current_offset % block_size + len ≤ suc fuel * block_size
        → c.current_offset % block_size + (len - n) ≤ fuel * block_size
    next_enough fuel enough =
        let (_, edge) = m.behind less in
        let start : c.current_offset ≡ (in_block dev b + 1) * block_size =
          omega (arith, edge, m.offset) in
        let zero_rest : c.current_offset % block_size ≡ 0 =
          ap (λ k. k % block_size) start ∙ mul-mod_left (in_block dev b + 1) block_size in
        let parts = div-add-mod b.current_offset block_size in
        let swap = mul_comm block_size (in_block dev b) in
        omega (arith, zero_rest, parts, swap, edge, enough)
