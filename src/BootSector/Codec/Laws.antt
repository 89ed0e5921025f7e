-- ===== src/BootSector/Codec/Laws.antt =====
-- The BIOS parameter block and the boot sector as wholes.
use embedded_fatfs.Base.{
  ℕ, ◌+◌, ◌≡◌, ◌≤◌, ◌≢◌, List, [], ◌++◌, ◌==◌, All, length, take, replicate, arith,
}
use embedded_fatfs.Base.{Bool, true, false, if◌then◌else◌, refl, ap, ap₂, ◌∙◌, Bool-cases, inl, inr}
use embedded_fatfs.Base.Bytes.{IsByte, patch}
use embedded_fatfs.Io.{Storage, start, try_io, pure, ◌>>◌}
use embedded_fatfs.Io.Ends.{Returns, returns, bind, bind_value, mono, Returns-map_err}
use embedded_fatfs.Io.Laws.{IsStorage, try_seek}
use embedded_fatfs.Io.Stream.{Ahead, Due, reads, writes, Ahead-Due}
use embedded_fatfs.BootSector.{Bpb, BootSector, is_fat32}
use embedded_fatfs.BootSector.Codec.{
  default_bpb, clear_unsigned, read_fat32_fields, write_fat32_fields,
}
use embedded_fatfs.BootSector.Codec.{
  deserialize_bpb, serialize_bpb, code_size, deserialize, serialize,
}
use embedded_fatfs.BootSector.Codec.Fields.{
  FitsBpb, common_bytes, fat32_bytes, extended_bytes, common_of,
}
use embedded_fatfs.BootSector.Codec.Fields.{fat32_of, extended_of, read_common_in, read_fat32_in}
use embedded_fatfs.BootSector.Codec.Fields.{
  read_extended_in, write_common_in, write_fat32_in, write_extended_in,
}

-- A block that keeps nothing in the fields that are not stored or not valid.
pub record Canonical (b : Bpb) : Type 0 where
  pub unsigned :
      b.ext_sig ≢ 0x29
      → (b.volume_id ≡ 0) × (b.volume_label ≡ replicate 11 0) × (b.fs_type_label ≡ replicate 8 0)
  pub not_fat32 : is_fat32 b ≡ false → fat32_of b default_bpb ≡ b

abbrev middle_bytes : Bool → Bpb → List ℕ → List ℕ
middle_bytes true b rest = fat32_bytes b rest
middle_bytes false b rest = rest

abbrev pub bpb_bytes : Bpb → List ℕ → List ℕ
bpb_bytes b rest = common_bytes b (middle_bytes (is_fat32 b) b (extended_bytes b rest))

abbrev middle_of : Bool → Bpb → Bpb
middle_of true b = fat32_of (common_of default_bpb b) b
middle_of false b = common_of default_bpb b

signed : (b : Bpb) → Canonical b → clear_unsigned b ≡ b
signed b c = elim (Bool-cases (b.ext_sig == 0x29)) [
  | inl e ↦ rw e refl
  | inr e ↦ let (p, q, r) = c.unsigned (λ same. ground arith) in rw e (cc (p, q, r))
]

restored : (t : Bool) (b : Bpb) → is_fat32 b ≡ t → Canonical b → extended_of (middle_of t b) b ≡ b
restored true b e c = refl
restored false b e c = c.not_fat32 e

module _ {st : Storage} (laws : IsStorage st) (d : ℕ → ℕ) (b : Bpb) (f : FitsBpb b)
    (rest : List ℕ) where
  open st use {State}

  read_middle_in :
      (t : Bool) {s : State}
      → Ahead laws d (middle_bytes t b rest) s
      → Returns
          (λ v u. (v ≡ middle_of t b) × Ahead laws d rest u)
          ((if t
              then read_fat32_fields st (common_of default_bpb b)
              else pure (common_of default_bpb b))
            s)
  read_middle_in true h = read_fat32_in laws d b f rest (common_of default_bpb b) h
  read_middle_in false h = returns (refl, h)

  write_middle_in :
      (t : Bool) {s : State}
      → Due laws d (middle_bytes t b rest) s
      → Returns (λ _ u. Due laws d rest u) ((if t then write_fat32_fields st b else pure tt) s)
  write_middle_in true h = write_fat32_in laws d b f rest h
  write_middle_in false h = returns h

module _ {st : Storage} (laws : IsStorage st) (d : ℕ → ℕ) (b : Bpb) (f : FitsBpb b)
    (rest : List ℕ) where
  open st use {State}

  read_bpb_in :
      {s : State}
      → Canonical b
      → Ahead laws d (bpb_bytes b rest) s
      → Returns (λ v u. (v ≡ b) × Ahead laws d rest u) (deserialize_bpb st s)
  unfolding deserialize_bpb
  read_bpb_in c h0 = bind_value _ (read_common_in laws d b f _ h0) λ _ h1.
      bind_value _ (read_middle_in laws d b f _ (is_fat32 b) h1) λ _ h2.
        bind_value _ (read_extended_in laws d b f rest (middle_of (is_fat32 b) b) h2)
          λ _ h3. returns (ap clear_unsigned (restored (is_fat32 b) b refl c) ∙ signed b c, h3)

  write_bpb_in :
      {s : State}
      → Due laws d (bpb_bytes b rest) s
      → Returns (λ _ u. Due laws d rest u) (serialize_bpb st b s)
  unfolding serialize_bpb
  write_bpb_in h0 = bind (write_common_in laws d b f _ h0) λ _ _ h1.
      bind (write_middle_in laws d b f _ (is_fat32 b) h1) λ _ _ h2.
        bind (write_extended_in laws d b f rest h2) λ _ u h3.
          mono (laws.flush_keeps u)
            (λ _ w (e, p). record {
              becomes = ap₂ (λ x y. patch x y rest) e p ∙ h3.becomes;
              room = omega (arith, h3.room, p);
            })
            (λ _ _ z. z)

-- Every field of the boot sector has its size, and the boot code its stored part only.
pub record FitsBoot (boot : BootSector) : Type 0 where
  pub bootjmp : 3 ≡ length boot.bootjmp
  pub bootjmp_bytes : All IsByte boot.bootjmp
  pub oem_name : 8 ≡ length boot.oem_name
  pub oem_name_bytes : All IsByte boot.oem_name
  pub bpb : FitsBpb boot.bpb
  pub canonical : Canonical boot.bpb
  pub code_length : code_size boot.bpb ≡ length (take (code_size boot.bpb) boot.boot_code)
  pub code_bytes : All IsByte (take (code_size boot.bpb) boot.boot_code)
  pub code :
      (if is_fat32 boot.bpb
        then take (code_size boot.bpb) boot.boot_code ++ replicate 28 0
        else take (code_size boot.bpb) boot.boot_code)
      ≡ boot.boot_code
  pub boot_sig : 2 ≡ length boot.boot_sig
  pub boot_sig_bytes : All IsByte boot.boot_sig

abbrev pub boot_bytes : BootSector → List ℕ
boot_bytes boot =
    boot.bootjmp
    ++ (boot.oem_name
        ++ bpb_bytes boot.bpb (take (code_size boot.bpb) boot.boot_code ++ (boot.boot_sig ++ [])))

module _ {st : Storage} (laws : IsStorage st) (boot : BootSector) (f : FitsBoot boot) where
  open st use {State}
  open laws use {content, position, size}

  write_boot_in :
      {d : ℕ → ℕ} {s : State}
      → Due laws d (boot_bytes boot) s
      → Returns (λ _ u. content u ≡ d) (serialize st boot s)
  unfolding serialize
  write_boot_in {d} h0 = bind (writes laws d boot.bootjmp _ f.bootjmp_bytes h0) λ _ _ h1.
      bind (writes laws d boot.oem_name _ f.oem_name_bytes h1) λ _ _ h2.
        bind (write_bpb_in laws d boot.bpb f.bpb _ h2) λ _ _ h3.
          bind (writes laws d _ _ f.code_bytes h3) λ _ _ h4.
            bind (writes laws d boot.boot_sig [] f.boot_sig_bytes h4)
              λ _ u h5. mono (laws.flush_keeps u) (λ _ w (e, _). e ∙ h5.becomes) (λ _ _ z. z)

  pub read_boot_in :
      {d : ℕ → ℕ} {s : State}
      → Ahead laws d (boot_bytes boot) s
      → Returns (λ v u. (v ≡ boot) × (content u ≡ d)) (deserialize st s)
  unfolding deserialize
  read_boot_in {d} h0 = bind_value _ (reads laws d boot.bootjmp _ f.bootjmp h0) λ _ h1.
      bind_value _ (reads laws d boot.oem_name _ f.oem_name h1) λ _ h2.
        bind_value _ (read_bpb_in laws d boot.bpb f.bpb _ f.canonical h2) λ _ h3.
          bind_value _ (reads laws d _ _ f.code_length h3) λ _ h4.
            bind_value _ (reads laws d boot.boot_sig [] f.boot_sig h4)
              λ _ h5. returns (rw f.code refl, h5.same)

  -- On a storage with room at its position p, for a boot sector whose fields have their sizes,
  -- whose boot code holds zeros behind its stored part and whose parameter block has default
  -- values in the fields that are not stored or not signed: serialize, a seek back to p and
  -- deserialize succeed and return that boot sector, and the content is the old one with its
  -- bytes at p.
  pub deserialize-serialize :
      {s : State} (p : ℕ)
      → position s ≡ p
      → p + length (boot_bytes boot) ≤ size
      → Returns
          (λ v u. (v ≡ boot) × (content u ≡ patch (content s) p (boot_bytes boot)))
          ((do try_io st (serialize st boot); try_io st (st.seek (start p)); deserialize st) s)
  deserialize-serialize {s} p at h =
      let due : Due laws (patch (content s) p (boot_bytes boot)) (boot_bytes boot) s = record {
        becomes = ap (λ x. patch (content s) x (boot_bytes boot)) at;
        room = omega arith;
      } in
      bind (Returns-map_err _ (write_boot_in due)) λ _ t e.
        bind (try_seek laws _ p e (omega arith)) λ _ u (_, g, q).
          read_boot_in (Ahead-Due laws _ (content s) p (boot_bytes boot) refl g q h)
