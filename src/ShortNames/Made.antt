-- ===== src/ShortNames/Made.antt =====
-- The generator that is made for a name: its fields are in range, and its short name has bytes of an
-- 8.3 name only.
use embedded_fatfs.Base.{ℕ, zero, suc, ◌-◌, ◌^◌, ◌≤◌, ◌<◌, ◌≡◌, arith, refl, inl, inr, Bool-cases}
use embedded_fatfs.Base.{
  Bool, true, false, not, ◌&&◌, ◌||◌, ◌==◌, List, [], ◌∷◌, length, replicate, All, Option, none,
  some, ltb, lt→ltb,
}
use embedded_fatfs.Base.{length-append, length-replicate, All-append, All-replicate}
use embedded_fatfs.ShortNames.{
  ShortNameGenerator, new_short_name_generator, split_name, generator_of, no_extension, Copied,
  copy_short_name_part, copy_from, fixed, to_ascii_uppercase, is_letter_or_digit, is_sign,
  name_checksum_from, name_checksum_round, rfind_point, padded_to, next_iteration,
}
use embedded_fatfs.DirEntry.{sfn_padding}
use embedded_fatfs.ShortNames.Fresh.{IsGenerator}

-- A space, a digit, a capital letter or one of the signs.
abbrev pub IsShortByte : ℕ → Type 0
IsShortByte c =
    (c == 32 || (is_letter_or_digit c || is_sign c)) && not (is_letter_or_digit c && ltb 96 c)
    ≡ true

upper-IsShortByte : (c : ℕ) → IsShortByte (to_ascii_uppercase (fixed c))
upper-IsShortByte c = ground arith

-- What is copied fits, and has such bytes.
record Fits (room : ℕ) (r : Copied) : Type 0 where
  few : length r.bytes ≤ room
  bytes : All IsShortByte r.bytes

copy_from-Fits : (room : ℕ) (lossy : Bool) (cs : List ℕ) → Fits room (copy_from room lossy cs)
copy_from-Fits room lossy [] = record { few = omega arith; bytes = tt }
copy_from-Fits zero lossy (c ∷ cs) = record { few = omega arith; bytes = tt }
copy_from-Fits (suc room) lossy (c ∷ cs) = elim (Bool-cases (c == 32 || c == 46)) [
  | inl q ↦ rw q (copy_from-Fits (suc room) true cs)
  | inr q ↦
      let h = copy_from-Fits room (lossy || not (fixed c == c)) cs in
      rw q (record { few = omega (arith, h.few); bytes = (upper-IsShortByte c, h.bytes) })
]

checksum-lt : (n : ℕ) (cs : List ℕ) → n < 2 ^ 16 → name_checksum_from n cs < 2 ^ 16
checksum-lt n [] h = h
checksum-lt n (c ∷ cs) h = checksum-lt (name_checksum_round n c) cs (omega arith)

generator_of-Made :
    (name : List ℕ) (base ext : Copied)
    → Fits 8 base
    → Fits 3 ext
    → IsGenerator (generator_of name base ext)
      × All IsShortByte (generator_of name base ext).short_name
generator_of-Made name base ext fb fe = (
  record {
    whole = omega (
      arith,
      fb.few,
      fe.few,
      length-append (padded_to 8 base.bytes) (padded_to 3 ext.bytes),
      length-append base.bytes (replicate (8 - length base.bytes) sfn_padding),
      length-append ext.bytes (replicate (3 - length ext.bytes) sfn_padding),
      length-replicate {A = ℕ} (8 - length base.bytes) sfn_padding,
      length-replicate {A = ℕ} (3 - length ext.bytes) sfn_padding,
    );
    base = fb.few;
    word = checksum-lt 0 name (omega arith);
  },
  All-append IsShortByte (padded_to 8 base.bytes) _
      (All-append IsShortByte base.bytes _ fb.bytes
        (All-replicate IsShortByte (8 - length base.bytes) refl))
      (All-append IsShortByte ext.bytes _ fe.bytes
        (All-replicate IsShortByte (3 - length ext.bytes) refl)),
)

split_name-Made :
    (c : ℕ) (o : Option (List ℕ × List ℕ)) (cs : List ℕ)
    → IsGenerator (split_name c o cs) × All IsShortByte (split_name c o cs).short_name
unfolding copy_short_name_part
split_name-Made c none cs =
    generator_of-Made (c ∷ cs) _ no_extension (copy_from-Fits 8 false (c ∷ cs))
      (record { few = omega arith; bytes = tt })
split_name-Made c (some (front, ext)) cs =
    generator_of-Made (c ∷ cs) _ _ (copy_from-Fits 8 false (c ∷ front)) (copy_from-Fits 3 false ext)

-- For a name whose first character is ASCII: the generator is made without a panic, its fields
-- are in range, also behind a change of the checksum for another iteration, and its short name
-- has spaces, digits, capital letters and the allowed signs only.
pub new_short_name_generator-IsGenerator :
    (c : ℕ) (cs : List ℕ)
    → c < 128
    → (g : ShortNameGenerator) × (new_short_name_generator (c ∷ cs) ≡ some g)
      × IsGenerator g
      × IsGenerator (next_iteration g)
      × All IsShortByte g.short_name
unfolding new_short_name_generator next_iteration
new_short_name_generator-IsGenerator c cs h =
    let (fits, bytes) = split_name-Made c (rfind_point cs) cs in
    (
      split_name c (rfind_point cs) cs,
      rw (lt→ltb c 128 h) refl,
      fits,
      record { whole = fits.whole; base = fits.base; word = omega arith },
      bytes,
    )
