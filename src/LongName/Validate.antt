-- ===== src/LongName/Validate.antt =====
-- `validate_long_name` of embedded-fatfs/src/dir.rs. A name is the list of its characters as code
-- points.
use embedded_fatfs.Base.{
  ℕ, ◌+◌, ◌≤◌, ◌<◌, ◌≡◌, arith, refl, ap, Bool, true, false, ◌&&◌, ◌||◌, ◌==◌,
}
use embedded_fatfs.Base.{leb, ltb, if◌then◌else◌, List, [], ◌∷◌, length, All}
use embedded_fatfs.Io.{Error, Result, invalid_file_name_length, unsupported_file_name_character}
use embedded_fatfs.LongName.{max_long_name_len}
use embedded_fatfs.ShortNames.{is_letter_or_digit}

-- How many bytes of UTF-8 a character has, and how many units of UTF-16.
abbrev pub utf8_len : ℕ → ℕ
utf8_len c = if ltb c 0x80 then 1 else if ltb c 0x800 then 2 else if ltb c 0x10000 then 3 else 4

abbrev pub utf16_len : ℕ → ℕ
utf16_len c = if ltb c 0x10000 then 1 else 2

abbrev pub len_by : (ℕ → ℕ) → List ℕ → ℕ
len_by f [] = 0
len_by f (c ∷ cs) = f c + len_by f cs

abbrev is_one_of : List ℕ → ℕ → Bool
is_one_of [] c = false
is_one_of (x ∷ xs) c = c == x || is_one_of xs c

-- The signs in the order of the source.
abbrev pub long_name_signs : List ℕ
long_name_signs =
    36 ∷ 37 ∷ 39 ∷ 45 ∷ 95 ∷ 64 ∷ 126 ∷ 96 ∷ 33 ∷ 40 ∷ 41 ∷ 123 ∷ 125 ∷ 46 ∷ 32 ∷ 43 ∷ 44 ∷ 59 ∷ 61
    ∷ 91 ∷ 93 ∷ 94 ∷ 35 ∷ 38 ∷ []

abbrev pub is_long_name_char : ℕ → Bool
is_long_name_char c =
    is_letter_or_digit c || ((leb 0x80 c && leb c 0xFFFF) || is_one_of long_name_signs c)

-- The loop over the characters.
abbrev pub all_long_name_chars : {X : Type 0} → List ℕ → Result (Error X) (Unit {0})
all_long_name_chars [] = Result.ok tt
all_long_name_chars (c ∷ cs) =
    let rest = all_long_name_chars cs in
    if is_long_name_char c then rest else Result.err unsupported_file_name_character

unfoldable pub validate_long_name : {X : Type 0} → List ℕ → Result (Error X) (Unit {0})
validate_long_name name =
    if len_by utf8_len name == 0
    then Result.err invalid_file_name_length
    else if ltb max_long_name_len (len_by utf8_len name)
    then Result.err invalid_file_name_length
    else all_long_name_chars name

abbrev pub IsLongNameChar : ℕ → Type 0
IsLongNameChar c = is_long_name_char c ≡ true

one_unit : (c : ℕ) → IsLongNameChar c → utf16_len c ≡ 1
one_unit c h = ground arith

is_ok : {X : Type 0} → Result (Error X) (Unit {0}) → Bool
is_ok (Result.ok a) = true
is_ok (Result.err e) = false

not_ok : {X : Type 0} (e : Error X) → Result.err e ≡ Result.ok tt → ⊥
unfolding is_ok
not_ok e h = let q = ap is_ok h in ground (arith, q)

-- A step of the loop that goes on.
valid_step :
    {X : Type 0} (b : Bool) {r : Result (Error X) (Unit {0})}
    → (if b then r else Result.err unsupported_file_name_character) ≡ Result.ok tt
    → (b ≡ true) × (r ≡ Result.ok tt)
valid_step true h = (refl, h)
valid_step false h = absurd (not_ok _ h)

all_valid :
    {X : Type 0} (cs : List ℕ)
    → all_long_name_chars {X = X} cs ≡ Result.ok tt
    → All IsLongNameChar cs
all_valid [] h = tt
all_valid (c ∷ cs) h = let (q, rest) = valid_step (is_long_name_char c) h in (q, all_valid cs rest)

units : (cs : List ℕ) → All IsLongNameChar cs → len_by utf16_len cs ≡ length cs
units [] h = refl
units (c ∷ cs) (h, hs) = omega (arith, one_unit c h, units cs hs)

units-le : (cs : List ℕ) → length cs ≤ len_by utf8_len cs
units-le [] = omega arith
units-le (c ∷ cs) = ground (arith, units-le cs)

bytes-pos : (cs : List ℕ) → 0 < len_by utf8_len cs → 0 < length cs
bytes-pos [] h = h
bytes-pos (c ∷ cs) h = omega arith

-- A name that passes the check has from 1 to 255 units of UTF-16, one for each of its
-- characters, and each of these is one that a long name may have.
pub validate_long_name-fits :
    {X : Type 0} (name : List ℕ)
    → validate_long_name {X = X} name ≡ Result.ok tt
    → (0 < len_by utf16_len name)
      × (len_by utf16_len name ≤ 255)
      × (len_by utf16_len name ≡ length name)
      × All IsLongNameChar name
unfolding validate_long_name
validate_long_name-fits {X} name h =
    split (len_by utf8_len name == 0) (ltb max_long_name_len (len_by utf8_len name)) refl refl h
  where
    split :
        (a b : Bool)
        → (len_by utf8_len name == 0) ≡ a
        → ltb max_long_name_len (len_by utf8_len name) ≡ b
        → (if a
            then Result.err invalid_file_name_length
            else if b
            then Result.err invalid_file_name_length
            else all_long_name_chars {X = X} name)
          ≡ Result.ok tt
        → (0 < len_by utf16_len name)
          × (len_by utf16_len name ≤ 255)
          × (len_by utf16_len name ≡ length name)
          × All IsLongNameChar name
    split true b p q h = absurd (not_ok _ h)
    split false true p q h = absurd (not_ok _ h)
    split false false p q h =
        let valid = all_valid name h in
        let count = units name valid in
        let some_bytes : 0 < len_by utf8_len name = ground (arith, p) in
        let few : len_by utf8_len name ≤ 255 = ground (arith, q) in
        (
          omega (arith, count, bytes-pos name some_bytes),
          omega (arith, count, units-le name, few),
          count,
          valid,
        )
