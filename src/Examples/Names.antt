-- ===== src/Examples/Names.antt =====
-- A long name that goes out and comes back, and a builder that is fed an orphan.
use embedded_fatfs.Base.{
  ℕ, ◌≡◌, refl, arith, [], ◌∷◌, ◌++◌, List, replicate, some, false, All, ◌≢◌, ◌<◌, ◌≤◌, length,
}
use embedded_fatfs.DirEntry.{DirLfnEntryData, new_lfn_entry}
use embedded_fatfs.LongName.{
  LongNameBuilder, new_builder, process_all, entries, new_generator, lfn_checksum, into_buf,
  validate_chksum,
}
use embedded_fatfs.LongName.Builder.{IsWhole, process_all-IsWhole}
use embedded_fatfs.LongName.RoundTrip.{into_buf-entries}
use embedded_fatfs.Io.{Result}
use embedded_fatfs.LongName.Validate.{
  validate_long_name, len_by, utf16_len, IsLongNameChar, validate_long_name-fits,
}
use embedded_fatfs.ShortNames.{
  ShortNameGenerator, build_prefixed_name, generate, add_all, new_short_name_generator,
  next_iteration,
}
use embedded_fatfs.ShortNames.Fresh.{IsGenerator}
use embedded_fatfs.ShortNames.Generate.{generate-fresh}
use embedded_fatfs.ShortNames.Made.{IsShortByte, new_short_name_generator-IsGenerator}

-- `A NAME  TXT`
abbrev short : List ℕ
short = 65 ∷ 95 ∷ 78 ∷ 65 ∷ 77 ∷ 69 ∷ 126 ∷ 49 ∷ 84 ∷ 88 ∷ 84 ∷ []

-- sixteen units: two entries
abbrev fifteen : List ℕ
fifteen = 97 ∷ 32 ∷ replicate 13 110

into_buf-entries_example :
    (b : LongNameBuilder) × (process_all
        (entries 3 (new_generator (fifteen ++ 116 ∷ []) (lfn_checksum short)))
        new_builder
      ≡ some b)
    × (into_buf (validate_chksum short b) ≡ fifteen ++ 116 ∷ [])
into_buf-entries_example = into_buf-entries short fifteen 116 3 refl (omega arith) (omega arith)

-- The second entry of a sequence that was never begun.
abbrev orphan : DirLfnEntryData
orphan = new_lfn_entry 2 77

new_builder-IsWhole : IsWhole new_builder
new_builder-IsWhole = record { few = omega arith; room = omega arith }

process_all-IsWhole_example :
    (b : LongNameBuilder) × (process_all (orphan ∷ []) new_builder ≡ some b) × IsWhole b
process_all-IsWhole_example =
    process_all-IsWhole (orphan ∷ []) new_builder (refl, tt) new_builder-IsWhole

-- `TEXTFILETXT` for a long name that does not fit
abbrev text_file : List ℕ
text_file = 84 ∷ 69 ∷ 88 ∷ 84 ∷ 70 ∷ 73 ∷ 76 ∷ 69 ∷ 84 ∷ 88 ∷ 84 ∷ []

abbrev text_generator : ShortNameGenerator
text_generator = record {
  chksum = 0xE021;
  long_prefix_bitmap = 0;
  prefix_chksum_bitmap = 0;
  name_fits = false;
  lossy_conv = false;
  exact_match = false;
  basename_len = 8;
  short_name = text_file;
}

-- `TEXTFI~1.TXT`
abbrev first_alias : List ℕ
first_alias = build_prefixed_name 1 false text_generator

generate-fresh_example :
    All
      (λ name. generate (add_all (first_alias ∷ []) text_generator) ≢ Result.ok name)
      (first_alias ∷ [])
generate-fresh_example =
    generate-fresh (first_alias ∷ []) text_generator
      (record { whole = refl; base = omega arith; word = omega arith })

new_short_name_generator-IsGenerator_example :
    (g : ShortNameGenerator) × (new_short_name_generator (102 ∷ 111 ∷ 111 ∷ 46 ∷ 116 ∷ []) ≡ some g)
    × IsGenerator g
    × IsGenerator (next_iteration g)
    × All IsShortByte g.short_name
new_short_name_generator-IsGenerator_example =
    new_short_name_generator-IsGenerator 102 (111 ∷ 111 ∷ 46 ∷ 116 ∷ []) (omega arith)

validate_long_name-fits_example :
    (0 < len_by utf16_len fifteen)
    × (len_by utf16_len fifteen ≤ 255)
    × (len_by utf16_len fifteen ≡ length fifteen)
    × All IsLongNameChar fifteen
unfolding validate_long_name
validate_long_name-fits_example = validate_long_name-fits {X = Unit {0}} fifteen refl
