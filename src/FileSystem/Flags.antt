-- ===== src/FileSystem/Flags.antt =====
-- The status flags in the boot sector, and what writes through the adapter do to them.
use embedded_fatfs.Base.{
  ℕ, ◌+◌, ◌≤◌, ◌<◌, ◌≡◌, ◌≢◌, Bool, true, false, arith, refl, sym, ap, ◌∙◌, Bool-cases, inl, inr,
}
use embedded_fatfs.Base.{List, [], ◌∷◌, length, All, ◌&&◌, ap₂}
use embedded_fatfs.Base.Bytes.{IsByte, patch, slice}
use embedded_fatfs.Io.{Storage, Run, write_u8}
use embedded_fatfs.Io.Ends.{Returns, returns, fails, bind, mono}
use embedded_fatfs.Io.Laws.{IsStorage}
use embedded_fatfs.FatType.{FatType, fat12, fat16, fat32, FsStatusFlags, encode_flags, decode_flags}
use embedded_fatfs.BootSector.{Bpb}
use embedded_fatfs.Base.{subst, ◌*◌, ◌/◌, ◌%◌, ◌^◌, ◌==◌, ◌||◌, not, bit_and, if◌then◌else◌}
use embedded_fatfs.Base.Bits.{bit_and_mask, bit_and_shifted}
use embedded_fatfs.BootSector.Validate.{same}
use embedded_fatfs.FileSystem.{
  FileSystem, Flagged, beside_disk, marked, same_flags, flags_offset, set_dirty_flag,
}
use embedded_fatfs.FileSystem.{write_flags}

-- A storage whose reads give some of the bytes that were asked for, and whose writes take all.
pub record IsWhole {st : Storage} (laws : IsStorage st) : Type 0 where
  pub read_some :
      (n : ℕ) (s : st.State)
      → 0 < n
      → laws.position s + n ≤ laws.size
      → Returns
          (λ bs t.
            (0 < length bs)
            × (length bs ≤ n)
            × (bs ≡ slice (laws.content s) (laws.position s) (length bs))
            × (laws.content t ≡ laws.content s))
          (st.read n s)
  pub write_whole :
      (bs : List ℕ) (s : st.State)
      → laws.position s + length bs ≤ laws.size
      → All IsByte bs
      → Returns
          (λ n t. (n ≡ length bs) × (laws.content t ≡ patch (laws.content s) (laws.position s) bs))
          (st.write bs s)

pub beside_disk-Returns :
    (st : Storage) {X A : Type 0} {P : A → st.State → Type 0} (v : Flagged st.State)
    {r : Run st.State X A}
    → Returns P r
    → Returns
        (λ a w. P a w.disk × (w.current_status_flags ≡ v.current_status_flags))
        (beside_disk st v r)
beside_disk-Returns st v (returns h) = returns (h, refl)
beside_disk-Returns st v (fails q) = absurd q

same-eq : (a b : Bool) → same a b ≡ true → a ≡ b
same-eq true true h = refl
same-eq true false h = cc
same-eq false true h = cc
same-eq false false h = refl

both_true : (a b : Bool) → (a && b) ≡ true → (a ≡ true) × (b ≡ true)
both_true true b h = (refl, h)
both_true false b h = cc

same_flags-eq : (f g : FsStatusFlags) → same_flags f g ≡ true → f ≡ g
same_flags-eq f g h =
    let (a, b) = both_true (same f.dirty g.dirty) (same f.io_error g.io_error) h in
    ap₂ (λ d i. record { dirty = d; io_error = i }) (same-eq _ _ a) (same-eq _ _ b)

encode_flags-IsByte : (f : FsStatusFlags) → IsByte (encode_flags f)
unfolding encode_flags
encode_flags-IsByte f = elim (Bool-cases f.dirty) [
  | inl d ↦ elim (Bool-cases f.io_error) [
    | inl i ↦ rw (d, i) (omega arith)
    | inr i ↦ rw (d, i) (omega arith)
  ]
  | inr d ↦ elim (Bool-cases f.io_error) [
    | inl i ↦ rw (d, i) (omega arith)
    | inr i ↦ rw (d, i) (omega arith)
  ]
]

-- Where the byte of the flags is in the boot sector.
abbrev pub flag_at : FatType → ℕ
flag_at fat12 = 37
flag_at fat16 = 37
flag_at fat32 = 65

pub flags_offset_lem : (t : FatType) → flags_offset t ≡ flag_at t
flags_offset_lem fat12 = refl
flags_offset_lem fat16 = refl
flags_offset_lem fat32 = refl

-- The byte of the flags: bit 0 is the dirty one, bit 1 that of an error.
abbrev pub flag_byte : FsStatusFlags → ℕ
flag_byte f = (if f.dirty then 1 else 0) + (if f.io_error then 2 else 0)

encode_flags_lem : (f : FsStatusFlags) → encode_flags f ≡ flag_byte f
unfolding encode_flags
encode_flags_lem f = elim (Bool-cases f.dirty) [
  | inl d ↦ elim (Bool-cases f.io_error) [ inl i ↦ rw (d, i) refl | inr i ↦ rw (d, i) refl ]
  | inr d ↦ elim (Bool-cases f.io_error) [ inl i ↦ rw (d, i) refl | inr i ↦ rw (d, i) refl ]
]

-- The flags in a byte.
abbrev pub flags_in : ℕ → FsStatusFlags
flags_in b = record { dirty = not (b % 2 == 0); io_error = not (b / 2 % 2 == 0) }

second_bit : (b : ℕ) → bit_and b 2 ≡ b / 2 % 2 * 2
second_bit b =
    let parts : b ≡ b / 2 * 2 ^ 1 + b % 2 = omega arith in
    ap (λ x. bit_and x 2) parts
    ∙ bit_and_shifted 1 (b / 2) (b % 2) 1 (omega arith)
    ∙ ap (λ x. x * 2) (bit_and_mask 1 (b / 2))

pub decode_flags_lem : (b : ℕ) → decode_flags b ≡ flags_in b
unfolding decode_flags
decode_flags_lem b =
    let low : (bit_and b 1 == 0) ≡ (b % 2 == 0) = ap (λ x. x == 0) (bit_and_mask 1 b) in
    let high : (bit_and b 2 == 0) ≡ (b / 2 % 2 == 0) = ground (arith, second_bit b) in
    ap₂ (λ d i. record { dirty = not d; io_error = not i }) low high

-- A byte that is written, and the bytes beside it.
patch-one : (c : ℕ → ℕ) (p b : ℕ) → patch c p (b ∷ []) p ≡ b
patch-one c p b = ground arith

patch-one_ne : (c : ℕ → ℕ) (p b i : ℕ) → i ≢ p → patch c p (b ∷ []) i ≡ c i
patch-one_ne c p b i h = ground arith

marked_lem :
    (bpb : Bpb) (dirty : Bool) (f : FsStatusFlags)
    → f ≡ marked bpb dirty
    → (f.dirty ≡ (not (bpb.reserved_1 % 2 == 0) || dirty))
      × (f.io_error ≡ not (bpb.reserved_1 / 2 % 2 == 0))
marked_lem bpb dirty f q =
    let bits = decode_flags_lem bpb.reserved_1 in
    (
      ap (λ x. x.dirty) q ∙ ap (λ x. x.dirty || dirty) bits,
      ap (λ x. x.io_error) q ∙ ap (λ x. x.io_error) bits,
    )

module _ {st : Storage} (laws : IsStorage st) (fs : FileSystem) where
  open st use {State}
  open laws use {content, position, size}

  abbrev flag : ℕ
  flag = flags_offset fs.fat_type

  -- Byte `p` of the disk holds the flags that were recorded.
  abbrev pub Shown : ℕ → Flagged State → Type 0
  Shown p v = content v.disk p ≡ flag_byte v.current_status_flags

  abbrev pub SameBeyond : ℕ → Flagged State → Flagged State → Type 0
  SameBeyond p v w = (i : ℕ) → i ≢ p → content w.disk i ≡ content v.disk i

  -- What setting the flags does, where byte `p` is theirs.
  abbrev pub FlagsSet : ℕ → Bool → Flagged State → Flagged State → Type 0
  FlagsSet p dirty v w =
      (w.current_status_flags.dirty ≡ (not (fs.bpb.reserved_1 % 2 == 0) || dirty))
      × (w.current_status_flags.io_error ≡ not (fs.bpb.reserved_1 / 2 % 2 == 0))
      × (Shown p v → Shown p w)
      × SameBeyond p v w

  write_flags_in :
      (f : FsStatusFlags) (v : Flagged State)
      → flag + 1 ≤ size
      → Returns
          (λ _ w. (w.current_status_flags ≡ f) × Shown flag w × SameBeyond flag v w)
          (write_flags st fs f v)
  unfolding write_flags write_u8
  write_flags_in f v room =
      bind (beside_disk-Returns st v (laws.seek_start flag v.disk (omega arith)))
        λ _ t ((_, e, at), _).
          bind
            (beside_disk-Returns st t (
              laws.write_all_in (encode_flags f ∷ []) t.disk (omega arith)
                (encode_flags-IsByte f, tt)))
            λ _ u ((e', _), _).
              bind (beside_disk-Returns st u (laws.flush_keeps u.disk)) λ _ w ((k, _), _).
                let byte = encode_flags f in
                let whole = k ∙ e' ∙ ap₂ (λ c p. patch c p (byte ∷ [])) e at in
                returns (
                  refl,
                  ap (λ c. c flag) whole
                      ∙ patch-one (content v.disk) flag byte
                      ∙ encode_flags_lem f,
                  λ i ne. ap (λ c. c i) whole ∙ patch-one_ne (content v.disk) flag byte i ne,
                )

  pub set_dirty_flag_in :
      (dirty : Bool) (v : Flagged State)
      → flag + 1 ≤ size
      → Returns (λ _ w. FlagsSet flag dirty v w) (set_dirty_flag st fs dirty v)
  unfolding set_dirty_flag
  set_dirty_flag_in dirty v room =
      elim (Bool-cases (same_flags (marked fs.bpb dirty) v.current_status_flags)) [
        | inl q ↦ rw q (
            let (a, b) =
              marked_lem fs.bpb dirty v.current_status_flags (sym (same_flags-eq _ _ q)) in
            returns (a, b, (λ h. h), (λ i _. refl)))
        | inr q ↦ rw q (
            mono (write_flags_in (marked fs.bpb dirty) v room)
              (λ _ w (a, b, c).
                let (d, e) = marked_lem fs.bpb dirty w.current_status_flags a in
                (d, e, (λ _. b), c))
              (λ _ _ z. z))
      ]

  -- For a volume whose byte of flags lies in the storage: set_dirty_flag returns; the flags that
  -- it records are bits 0 and 1 of the byte of the parameter block, the first also set where
  -- that was asked for; if the byte on the disk, at 37 or, for FAT32, 65, held the recorded
  -- flags before, as the sum of 1 and 2 where they are set, it holds them behind it; and no
  -- other byte changes.
  pub set_dirty_flag_lem :
      (dirty : Bool) (v : Flagged State)
      → flag_at fs.fat_type + 1 ≤ size
      → Returns
          (λ _ w.
            (w.current_status_flags.dirty ≡ (not (fs.bpb.reserved_1 % 2 == 0) || dirty))
            × (w.current_status_flags.io_error ≡ not (fs.bpb.reserved_1 / 2 % 2 == 0))
            × (Shown (flag_at fs.fat_type) v → Shown (flag_at fs.fat_type) w)
            × ((i : ℕ) → i ≢ flag_at fs.fat_type → content w.disk i ≡ content v.disk i))
          (set_dirty_flag st fs dirty v)
  set_dirty_flag_lem dirty v room =
      subst
        (λ p. p + 1 ≤ size → Returns (λ _ w. FlagsSet p dirty v w) (set_dirty_flag st fs dirty v))
        (flags_offset_lem fs.fat_type) (set_dirty_flag_in dirty v) room
