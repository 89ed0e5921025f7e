-- ===== src/ShortNames.antt =====
-- `ShortNameGenerator` of embedded-fatfs/src/dir.rs: the 8.3 name of a file with a long name. A name is
-- the list of its characters as code points, a short name the list of its 11 bytes.
pub mod Copies
pub mod Shape
pub mod Made
pub mod Fresh
pub mod Generate
use embedded_fatfs.Base.{
  ℕ, zero, suc, ◌+◌, ◌-◌, ◌*◌, ◌/◌, ◌%◌, ◌^◌, bit_and, bit_or, min, Bool, true, false, not, ◌&&◌,
  ◌||◌,
}
use embedded_fatfs.Base.{
  ◌==◌, ltb, leb, if◌then◌else◌, Option, none, some, List, [], ◌∷◌, ◌++◌, length, take, drop,
  replicate, get_or,
}
use embedded_fatfs.Base.Bits.{◌>>>◌, ◌<<<◌}
use embedded_fatfs.Io.{Error, already_exists, Result}
use embedded_fatfs.DirEntry.{sfn_padding, sfn_size}
use embedded_fatfs.DirEntry.ShortName.{copied}

pub record ShortNameGenerator : Type 0 where
  pub chksum : ℕ
  pub long_prefix_bitmap : ℕ
  pub prefix_chksum_bitmap : ℕ
  pub name_fits : Bool
  pub lossy_conv : Bool
  pub exact_match : Bool
  pub basename_len : ℕ
  pub short_name : List ℕ

abbrev between : ℕ → ℕ → ℕ → Bool
between lo hi c = leb lo c && leb c hi

abbrev pub is_letter_or_digit : ℕ → Bool
is_letter_or_digit c = between 65 90 c || (between 97 122 c || between 48 57 c)

-- `!` `#` to `)` `-` `@` `^` `_` `` ` `` `{` `}` `~`
abbrev pub is_sign : ℕ → Bool
is_sign c =
    c == 33
    || (between 35 41 c
        || (c == 45 || (c == 64 || (between 94 96 c || (c == 123 || between 125 126 c)))))

abbrev pub to_ascii_uppercase : ℕ → ℕ
to_ascii_uppercase c = if between 97 122 c then c - 32 else c

abbrev pub fixed : ℕ → ℕ
fixed c = if is_letter_or_digit c || is_sign c then c else 95

-- The bytes that were written, whether all of the source is in them, and whether it was changed.
pub record Copied : Type 0 where
  pub bytes : List ℕ
  pub fits : Bool
  pub lossy : Bool

abbrev pub after : ℕ → Copied → Copied
after b r = record r { bytes = b ∷ r.bytes }

-- The loop of `copy_short_name_part`, with the room that is left.
abbrev pub copy_from : ℕ → Bool → List ℕ → Copied
copy_from room lossy [] = record { bytes = []; fits = true; lossy = lossy }
copy_from zero lossy (c ∷ cs) = record { bytes = []; fits = false; lossy = lossy }
copy_from (suc room) lossy (c ∷ cs) =
    let stripped = copy_from (suc room) true cs in
    let rest = copy_from room (lossy || not (fixed c == c)) cs in
    if c == 32 || c == 46 then stripped else after (to_ascii_uppercase (fixed c)) rest

unfoldable pub copy_short_name_part : ℕ → List ℕ → Copied
copy_short_name_part room src = copy_from room false src

-- One round of the loop of `checksum`; a char is cut to its low 16 bits.
abbrev pub name_checksum_round : ℕ → ℕ → ℕ
name_checksum_round chksum c = ((chksum >>> 1) + (chksum <<< 15) % 2 ^ 16 + c % 2 ^ 16) % 2 ^ 16

abbrev pub name_checksum_from : ℕ → List ℕ → ℕ
name_checksum_from chksum [] = chksum
name_checksum_from chksum (c ∷ cs) = name_checksum_from (name_checksum_round chksum c) cs

abbrev pub name_checksum : List ℕ → ℕ
name_checksum name = name_checksum_from 0 name

-- `rfind('.')`: what stands before the last point and behind it
abbrev pub before_point : ℕ → Option (List ℕ × List ℕ) → List ℕ → Option (List ℕ × List ℕ)
before_point c (some (front, behind)) cs = some (c ∷ front, behind)
before_point c none cs = if c == 46 then some ([], cs) else none

abbrev pub rfind_point : List ℕ → Option (List ℕ × List ℕ)
rfind_point [] = none
rfind_point (c ∷ cs) = before_point c (rfind_point cs) cs

abbrev pub padded_to : ℕ → List ℕ → List ℕ
padded_to n bytes = bytes ++ replicate (n - length bytes) sfn_padding

abbrev pub generator_of : List ℕ → Copied → Copied → ShortNameGenerator
generator_of name base ext = record {
  chksum = name_checksum name;
  long_prefix_bitmap = 0;
  prefix_chksum_bitmap = 0;
  name_fits = base.fits && ext.fits;
  lossy_conv = base.lossy || ext.lossy;
  exact_match = false;
  basename_len = length base.bytes;
  short_name = padded_to 8 base.bytes ++ padded_to 3 ext.bytes;
}

abbrev pub no_extension : Copied
no_extension = record { bytes = []; fits = true; lossy = false }

abbrev pub split_name : ℕ → Option (List ℕ × List ℕ) → List ℕ → ShortNameGenerator
split_name c none cs = generator_of (c ∷ cs) (copy_short_name_part 8 (c ∷ cs)) no_extension
split_name c (some (front, ext)) cs =
    generator_of (c ∷ cs) (copy_short_name_part 8 (c ∷ front)) (copy_short_name_part 3 ext)

-- `new`: `name[1..]` panics where the first character is not one byte of UTF-8; then the result is
-- `none`.
unfoldable pub new_short_name_generator : List ℕ → Option ShortNameGenerator
new_short_name_generator [] = none
new_short_name_generator (c ∷ cs) =
    if ltb c 128 then some (split_name c (rfind_point cs) cs) else none

abbrev pub same_bytes : List ℕ → List ℕ → Bool
same_bytes [] [] = true
same_bytes (x ∷ xs) (y ∷ ys) = (x == y) && same_bytes xs ys
same_bytes _ _ = false

-- `char::to_digit(10)` and `char::from_digit`
abbrev pub to_digit : ℕ → Option ℕ
to_digit c = if between 48 57 c then some (c - 48) else none

abbrev pub from_digit : ℕ → ℕ
from_digit d = if ltb d 10 then 48 + d else 87 + d

abbrev pub u16_to_hex : ℕ → List ℕ
u16_to_hex x =
    to_ascii_uppercase (from_digit (bit_and (x >>> 12) 0xF))
    ∷ to_ascii_uppercase (from_digit (bit_and (x >>> 8) 0xF))
    ∷ to_ascii_uppercase (from_digit (bit_and (x >>> 4) 0xF))
    ∷ to_ascii_uppercase (from_digit (bit_and x 0xF))
    ∷ []

-- `u16::from_str_radix(s, 16)` of at most four bytes
abbrev pub hex_value : ℕ → Option ℕ
hex_value c =
    if between 48 57 c
    then some (c - 48)
    else if between 65 70 c
    then some (c - 55)
    else if between 97 102 c
    then some (c - 87)
    else none

abbrev pub hex_from : ℕ → List ℕ → Option ℕ
hex_from n [] = some n
hex_from n (c ∷ cs) = elim (hex_value c) [ none ↦ none | some d ↦ hex_from (n * 16 + d) cs ]

abbrev pub from_str_radix : List ℕ → Option ℕ
from_str_radix [] = none
from_str_radix (c ∷ []) = hex_from 0 (c ∷ [])
from_str_radix (c ∷ d ∷ ds) = if c == 43 then hex_from 0 (d ∷ ds) else hex_from 0 (c ∷ d ∷ ds)

abbrev pub is_value : Option ℕ → ℕ → Bool
is_value none x = false
is_value (some n) x = n == x

-- The bitmap after a name whose suffix is this digit.
abbrev pub noted : Option ℕ → Bool → ℕ → ℕ
noted none matches bitmap = bitmap
noted (some num_suffix) matches bitmap =
    if matches then bit_or bitmap (1 <<< num_suffix) else bitmap

abbrev pub check_for_long_prefix_collision : List ℕ → ShortNameGenerator → ShortNameGenerator
check_for_long_prefix_collision name g =
    let prefix_len = min g.basename_len 6 in
    record g {
      long_prefix_bitmap =
          if get_or name prefix_len 0 == 126
          then noted (to_digit (get_or name (prefix_len + 1) 0))
              (same_bytes (take prefix_len name) (take prefix_len g.short_name)
                && same_bytes (drop 8 name) (drop 8 g.short_name))
              g.long_prefix_bitmap
          else g.long_prefix_bitmap;
    }

abbrev pub check_for_short_prefix_collision : List ℕ → ShortNameGenerator → ShortNameGenerator
check_for_short_prefix_collision name g =
    let prefix_len = min g.basename_len 2 in
    record g {
      prefix_chksum_bitmap =
          if get_or name (prefix_len + 4) 0 == 126
          then noted (to_digit (get_or name (prefix_len + 4 + 1) 0))
              (same_bytes (take prefix_len name) (take prefix_len g.short_name)
                && (same_bytes (drop 8 name) (drop 8 g.short_name)
                    && is_value (from_str_radix (take 4 (drop prefix_len name))) g.chksum))
              g.prefix_chksum_bitmap
          else g.prefix_chksum_bitmap;
    }

unfoldable pub add_existing : List ℕ → ShortNameGenerator → ShortNameGenerator
add_existing name g = check_for_short_prefix_collision name (
    check_for_long_prefix_collision name
      (record g { exact_match = if same_bytes name g.short_name then true else g.exact_match }))

abbrev pub prefix_part : Bool → ShortNameGenerator → List ℕ → List ℕ
prefix_part false g buf = copied 0 (take (min g.basename_len 6) g.short_name) buf
prefix_part true g buf =
    copied (min g.basename_len 2) (u16_to_hex g.chksum)
      (copied 0 (take (min g.basename_len 2) g.short_name) buf)

abbrev pub prefix_len_of : Bool → ShortNameGenerator → ℕ
prefix_len_of false g = min g.basename_len 6
prefix_len_of true g = min g.basename_len 2 + 4

abbrev pub build_prefixed_name : ℕ → Bool → ShortNameGenerator → List ℕ
build_prefixed_name num with_chksum g =
    let prefix_len = prefix_len_of with_chksum g in
    copied 8 (drop 8 g.short_name) (
      copied (prefix_len + 1) (from_digit num ∷ [])
        (copied prefix_len (126 ∷ []) (prefix_part with_chksum g (replicate sfn_size sfn_padding))))

-- The first of `rounds` numbers from `i` on whose bit is clear.
abbrev pub first_clear : ℕ → ℕ → ℕ → Option ℕ
first_clear bitmap i zero = none
first_clear bitmap i (suc rounds) =
    let rest = first_clear bitmap (i + 1) rounds in
    if bit_and bitmap (1 <<< i) == 0 then some i else rest

abbrev pub with_suffix :
    ShortNameGenerator → Option ℕ → Option ℕ → Result (Error (Unit {0})) (List ℕ)
with_suffix g (some i) other = Result.ok (build_prefixed_name i false g)
with_suffix g none (some i) = Result.ok (build_prefixed_name i true g)
with_suffix g none none = Result.err already_exists

unfoldable pub generate : ShortNameGenerator → Result (Error (Unit {0})) (List ℕ)
generate g =
    if not g.lossy_conv && (g.name_fits && not g.exact_match)
    then Result.ok g.short_name
    else with_suffix g (first_clear g.long_prefix_bitmap 1 4)
        (first_clear g.prefix_chksum_bitmap 1 9)

unfoldable pub next_iteration : ShortNameGenerator → ShortNameGenerator
next_iteration g = record g {
  chksum = (g.chksum + 1) % 2 ^ 16;
  long_prefix_bitmap = 0;
  prefix_chksum_bitmap = 0;
}

abbrev pub generate_dot : List ℕ
generate_dot = 46 ∷ replicate 10 sfn_padding

abbrev pub generate_dotdot : List ℕ
generate_dotdot = 46 ∷ 46 ∷ replicate 9 sfn_padding

-- The loop over the entries of a directory.
abbrev pub add_all : List (List ℕ) → ShortNameGenerator → ShortNameGenerator
add_all [] g = g
add_all (name ∷ names) g = add_all names (add_existing name g)
