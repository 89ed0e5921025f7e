-- ===== src/DirEntry/Codec/Parts.antt =====
-- The two kinds of entries on the storage: their bytes, and that each part is written and read as
-- those.
use embedded_fatfs.Base.{ℕ, ◌+◌, ◌≡◌, ◌<◌, List, [], ◌∷◌, ◌++◌, ◌==◌, All, length, arith}
use embedded_fatfs.Base.{true, false, refl, ap₂, ◌∙◌, subst, drop, get_or}
use embedded_fatfs.Base.{bit_and}
use embedded_fatfs.Base.Bytes.{IsByte, IsU16, IsU32, to_le_bytes}
use embedded_fatfs.Io.{Storage}
use embedded_fatfs.Io.Ends.{Returns, returns, bind, bind_value, mono}
use embedded_fatfs.Io.Laws.{IsStorage}
use embedded_fatfs.Io.Stream.{Ahead, Due, reads_u8, reads_u16_le, reads_u32_le, writes}
use embedded_fatfs.Io.Stream.{writes_u8, writes_u16_le, writes_u32_le}
use embedded_fatfs.DirEntry.{DirFileEntryData, DirLfnEntryData, DirEntryData, file, lfn, lfn_attrs}
use embedded_fatfs.DirEntry.Codec.{units_of, read_units, write_units, serialize_file, serialize_lfn}
use embedded_fatfs.DirEntry.Codec.{read_lfn, read_file}

-- Every field is in the range of its type, and the attributes are not those of a long name.
pub record FitsFile (d : DirFileEntryData) : Type 0 where
  pub name : 11 ≡ length d.name
  pub name_bytes : All IsByte d.name
  pub attrs : d.attrs < 64
  pub short : (bit_and d.attrs lfn_attrs == lfn_attrs) ≡ false
  pub reserved_0 : IsByte d.reserved_0
  pub create_time_0 : IsByte d.create_time_0
  pub create_time_1 : IsU16 d.create_time_1
  pub create_date : IsU16 d.create_date
  pub access_date : IsU16 d.access_date
  pub first_cluster_hi : IsU16 d.first_cluster_hi
  pub modify_time : IsU16 d.modify_time
  pub modify_date : IsU16 d.modify_date
  pub first_cluster_lo : IsU16 d.first_cluster_lo
  pub size : IsU32 d.size

pub record FitsLfn (d : DirLfnEntryData) : Type 0 where
  pub order : IsByte d.order
  pub name_0 : length d.name_0 ≡ 5
  pub name_0_units : All IsU16 d.name_0
  pub attrs : d.attrs < 64
  pub long : (bit_and d.attrs lfn_attrs == lfn_attrs) ≡ true
  pub entry_type : IsByte d.entry_type
  pub checksum : IsByte d.checksum
  pub name_1 : length d.name_1 ≡ 6
  pub name_1_units : All IsU16 d.name_1
  pub reserved_0 : IsU16 d.reserved_0
  pub name_2 : length d.name_2 ≡ 2
  pub name_2_units : All IsU16 d.name_2

abbrev pub FitsEntry : DirEntryData → Type 0
FitsEntry (file d) = FitsFile d
FitsEntry (lfn d) = FitsLfn d

abbrev pub unit_bytes : List ℕ → List ℕ
unit_bytes [] = []
unit_bytes (u ∷ us) = to_le_bytes 2 u ++ unit_bytes us

pub length-unit_bytes : (us : List ℕ) → length (unit_bytes us) ≡ length us + length us
length-unit_bytes [] = omega arith
length-unit_bytes (u ∷ us) = omega (arith, length-unit_bytes us)

pub units_of-unit_bytes : (us : List ℕ) → All IsU16 us → units_of (unit_bytes us) ≡ us
units_of-unit_bytes [] h = refl
units_of-unit_bytes (u ∷ us) (h, hs) = ap₂ ◌∷◌ (omega arith) (units_of-unit_bytes us hs)

abbrev pub file_tail : DirFileEntryData → List ℕ
file_tail d =
    to_le_bytes 1 d.reserved_0
    ++ (to_le_bytes 1 d.create_time_0
        ++ (to_le_bytes 2 d.create_time_1
            ++ (to_le_bytes 2 d.create_date
                ++ (to_le_bytes 2 d.access_date
                    ++ (to_le_bytes 2 d.first_cluster_hi
                        ++ (to_le_bytes 2 d.modify_time
                            ++ (to_le_bytes 2 d.modify_date
                                ++ (to_le_bytes 2 d.first_cluster_lo
                                    ++ (to_le_bytes 4 d.size ++ [])))))))))

abbrev pub lfn_tail : DirLfnEntryData → List ℕ
lfn_tail d =
    to_le_bytes 1 d.entry_type
    ++ (to_le_bytes 1 d.checksum
        ++ (unit_bytes d.name_1 ++ (to_le_bytes 2 d.reserved_0 ++ (unit_bytes d.name_2 ++ []))))

-- The 32 bytes of an entry.
abbrev pub entry_bytes : DirEntryData → List ℕ
entry_bytes (file d) = d.name ++ (to_le_bytes 1 d.attrs ++ file_tail d)
entry_bytes (lfn d) =
    to_le_bytes 1 d.order ++ (unit_bytes d.name_0 ++ (to_le_bytes 1 d.attrs ++ lfn_tail d))

module _ {st : Storage} (laws : IsStorage st) (d : ℕ → ℕ) where
  open st use {State}
  open laws use {content}

  read_units_in :
      (us ys : List ℕ) {s : State}
      → All IsU16 us
      → Ahead laws d (unit_bytes us ++ ys) s
      → Returns (λ v t. (v ≡ us) × Ahead laws d ys t) (read_units st (length us) s)
  read_units_in [] ys h a = returns (refl, a)
  read_units_in (u ∷ us) ys (h, hs) a =
      bind_value _ (reads_u16_le laws d (unit_bytes us ++ ys) h a)
        λ _ a1. bind_value _ (read_units_in us ys hs a1) λ _ a2. returns (refl, a2)

  write_units_in :
      (us ys : List ℕ) {s : State}
      → Due laws d (unit_bytes us ++ ys) s
      → Returns (λ _ t. Due laws d ys t) (write_units st us s)
  write_units_in [] ys h = returns h
  write_units_in (u ∷ us) ys h =
      bind (writes_u16_le laws d u (unit_bytes us ++ ys) h) λ _ _ h1. write_units_in us ys h1

  module _ (e : DirFileEntryData) (f : FitsFile e) where
    pub read_file_in :
        {s : State}
        → Ahead laws d (file_tail e) s
        → Returns (λ v t. (v ≡ file e) × (content t ≡ d)) (read_file st e.name e.attrs s)
    unfolding read_file
    read_file_in h0 = bind_value _ (reads_u8 laws d _ f.reserved_0 h0) λ _ h1.
        bind_value _ (reads_u8 laws d _ f.create_time_0 h1) λ _ h2.
          bind_value _ (reads_u16_le laws d _ f.create_time_1 h2) λ _ h3.
            bind_value _ (reads_u16_le laws d _ f.create_date h3) λ _ h4.
              bind_value _ (reads_u16_le laws d _ f.access_date h4) λ _ h5.
                bind_value _ (reads_u16_le laws d _ f.first_cluster_hi h5) λ _ h6.
                  bind_value _ (reads_u16_le laws d _ f.modify_time h6) λ _ h7.
                    bind_value _ (reads_u16_le laws d _ f.modify_date h7) λ _ h8.
                      bind_value _ (reads_u16_le laws d _ f.first_cluster_lo h8) λ _ h9.
                        bind_value _ (reads_u32_le laws d [] f.size h9)
                          λ _ h10. returns (refl, h10.same)

    pub write_file_in :
        {s : State}
        → Due laws d (entry_bytes (file e)) s
        → Returns (λ _ t. content t ≡ d) (serialize_file st e s)
    unfolding serialize_file
    write_file_in h0 = bind (writes laws d e.name _ f.name_bytes h0) λ _ _ h1.
        bind (writes_u8 laws d _ _ (omega (arith, f.attrs)) h1) λ _ _ h2.
          bind (writes_u8 laws d _ _ f.reserved_0 h2) λ _ _ h3.
            bind (writes_u8 laws d _ _ f.create_time_0 h3) λ _ _ h4.
              bind (writes_u16_le laws d _ _ h4) λ _ _ h5.
                bind (writes_u16_le laws d _ _ h5) λ _ _ h6.
                  bind (writes_u16_le laws d _ _ h6) λ _ _ h7.
                    bind (writes_u16_le laws d _ _ h7) λ _ _ h8.
                      bind (writes_u16_le laws d _ _ h8) λ _ _ h9.
                        bind (writes_u16_le laws d _ _ h9) λ _ _ h10.
                          bind (writes_u16_le laws d _ _ h10) λ _ _ h11.
                            bind (writes_u32_le laws d _ [] h11) λ _ u h12.
                              mono (laws.flush_keeps u) (λ _ w (q, _). q ∙ h12.becomes) (λ _ _ z. z)

  module _ (e : DirLfnEntryData) (f : FitsLfn e) where
    pub read_lfn_in :
        (name : List ℕ) {s : State}
        → get_or name 0 0 ≡ e.order
        → units_of (drop 1 name) ≡ e.name_0
        → Ahead laws d (lfn_tail e) s
        → Returns (λ v t. (v ≡ lfn e) × (content t ≡ d)) (read_lfn st name e.attrs s)
    unfolding read_lfn
    read_lfn_in name q r h0 = bind_value _ (reads_u8 laws d _ f.entry_type h0) λ _ h1.
        bind_value _ (reads_u8 laws d _ f.checksum h1) λ _ h2.
          bind_value _ (units 6 e.name_1 _ f.name_1 f.name_1_units h2) λ _ h3.
            bind_value _ (reads_u16_le laws d _ f.reserved_0 h3) λ _ h4.
              bind_value _ (units 2 e.name_2 [] f.name_2 f.name_2_units h4)
                λ _ h5. returns (rw (q, r) refl, h5.same)
      where
        units :
            (k : ℕ) (us ys : List ℕ) {s : State}
            → length us ≡ k
            → All IsU16 us
            → Ahead laws d (unit_bytes us ++ ys) s
            → Returns (λ v t. (v ≡ us) × Ahead laws d ys t) (read_units st k s)
        units k us ys {s} q h a =
            subst (λ n. Returns (λ v t. (v ≡ us) × Ahead laws d ys t) (read_units st n s)) q
              (read_units_in us ys h a)

    pub write_lfn_in :
        {s : State}
        → Due laws d (entry_bytes (lfn e)) s
        → Returns (λ _ t. content t ≡ d) (serialize_lfn st e s)
    unfolding serialize_lfn
    write_lfn_in h0 = bind (writes_u8 laws d _ _ f.order h0) λ _ _ h1.
        bind (write_units_in e.name_0 _ h1) λ _ _ h2.
          bind (writes_u8 laws d _ _ (omega (arith, f.attrs)) h2) λ _ _ h3.
            bind (writes_u8 laws d _ _ f.entry_type h3) λ _ _ h4.
              bind (writes_u8 laws d _ _ f.checksum h4) λ _ _ h5.
                bind (write_units_in e.name_1 _ h5) λ _ _ h6.
                  bind (writes_u16_le laws d _ _ h6) λ _ _ h7.
                    bind (write_units_in e.name_2 [] h7) λ _ u h8.
                      mono (laws.flush_keeps u) (λ _ w (q, _). q ∙ h8.becomes) (λ _ _ z. z)
