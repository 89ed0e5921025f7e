-- ===== src/FileSystem/Region.antt =====
-- The table of a volume in the storage under it, and what a slice shows of it.
use embedded_fatfs.Base.{
  ℕ, zero, suc, ◌+◌, ◌*◌, ◌^◌, ◌≤◌, ◌<◌, ◌≡◌, arith, refl, sym, ap, ap₂, ◌∙◌, Bool-cases, inl, inr,
}
use embedded_fatfs.Base.{List, [], ◌∷◌, ◌++◌, length, ltb, fun_ext}
use embedded_fatfs.Base.{if◌then◌else◌, lt→ltb, ltb_false→le, ltb→lt}
use embedded_fatfs.Base.Bytes.{patch, slice, patch_outside}
use embedded_fatfs.DiskSlice.{DiskSlice}
use embedded_fatfs.FileSystem.{FileSystem, flags_offset}

-- A slice with at least one mirror that lies in the storage, behind the byte of the flags.
pub record IsRegion (fs : FileSystem) (size : ℕ) (d : DiskSlice) : Type 0 where
  pub lim : size < 2 ^ 64
  pub mirrored : 0 < d.mirrors
  pub room : d.begin + d.mirrors * d.size ≤ size
  pub behind : flags_offset fs.fat_type < d.begin

-- What a slice shows of a content: its first mirror.
abbrev pub view : DiskSlice → (ℕ → ℕ) → ℕ → ℕ
view d c i = if ltb i d.size then c (d.begin + i) else 0

pub view_in : (d : DiskSlice) (c : ℕ → ℕ) (i : ℕ) → i < d.size → view d c i ≡ c (d.begin + i)
view_in d c i h = rw (lt→ltb i d.size h)

pub slice-view :
    (d : DiskSlice) (c : ℕ → ℕ) (o n : ℕ)
    → o + n ≤ d.size
    → slice (view d c) o n ≡ slice c (d.begin + o) n
slice-view d c o zero h = refl
slice-view d c o (suc n) h =
    let along : d.begin + (o + 1) ≡ d.begin + o + 1 = omega arith in
    ap₂ ◌∷◌ (view_in d c o (omega arith))
      (slice-view d c (o + 1) n (omega arith) ∙ ap (λ p. slice c p n) along)

pub slice-add : (c : ℕ → ℕ) (p m n : ℕ) → slice c p m ++ slice c (p + m) n ≡ slice c p (m + n)
slice-add c p zero n = ap₂ (λ q k. slice c q k) (omega arith) (omega arith)
slice-add c p (suc m) n =
    let along : p + suc m ≡ p + 1 + m = omega arith in
    let count : suc m + n ≡ suc (m + n) = omega arith in
    ap (λ l. c p ∷ l) (ap (λ q. slice c (p + 1) m ++ slice c q n) along ∙ slice-add c (p + 1) m n)
    ∙ ap (slice c p) (sym count)

-- A write into the first mirror, as the slice shows it.
patch-shift :
    (c : ℕ → ℕ) (b o : ℕ) (bs : List ℕ) (i : ℕ)
    → patch c (b + o) bs (b + i) ≡ patch (λ j. c (b + j)) o bs i
patch-shift c b o [] i = refl
patch-shift c b o (x ∷ xs) i =
    let along : b + o + 1 ≡ b + (o + 1) = omega arith in
    ground (arith, ap (λ p. patch c p xs (b + i)) along, patch-shift c b (o + 1) xs i)

patch-same :
    (f g : ℕ → ℕ) (o : ℕ) (bs : List ℕ) (i : ℕ) → f i ≡ g i → patch f o bs i ≡ patch g o bs i
patch-same f g o [] i h = h
patch-same f g o (x ∷ xs) i h = ground (arith, patch-same f g (o + 1) xs i h)

-- A disk that agrees with `c` after the write, inside the first mirror.
pub view-patch :
    (d : DiskSlice) (c e : ℕ → ℕ) (o : ℕ) (bs : List ℕ)
    → o + length bs ≤ d.size
    → ((i : ℕ) → i < d.size → e (d.begin + i) ≡ patch c (d.begin + o) bs (d.begin + i))
    → (i : ℕ) → view d e i ≡ patch (view d c) o bs i
view-patch d c e o bs h same i = elim (Bool-cases (ltb i d.size)) [
  | inl q ↦ rw q (
      same i (ltb→lt i d.size q)
      ∙ patch-shift c d.begin o bs i
      ∙ patch-same (λ j. c (d.begin + j)) (view d c) o bs i
          (sym (view_in d c i (ltb→lt i d.size q))))
  | inr q ↦
      sym
        (patch_outside (view d c) o bs i (inr (omega (arith, ltb_false→le i d.size q))) ∙ rw q refl)
]

-- Disks that agree on the first mirror show the same.
pub view-same :
    (d : DiskSlice) (c e : ℕ → ℕ)
    → ((i : ℕ) → i < d.size → e (d.begin + i) ≡ c (d.begin + i))
    → view d e ≡ view d c
view-same d c e h = fun_ext (λ i. elim (Bool-cases (ltb i d.size)) [
  | inl q ↦ rw q (h i (ltb→lt i d.size q))
  | inr q ↦ rw q refl
])
