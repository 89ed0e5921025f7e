-- ===== src/DirEntry/ShortName.antt =====
-- `ShortName` of embedded-fatfs/src/dir_entry.rs: the display form of an 8.3 name. Bytes of the
-- OEM code page.
use embedded_fatfs.Base.{
  ℕ, zero, suc, ◌+◌, ◌≤◌, ◌≡◌, ◌==◌, if◌then◌else◌, List, [], ◌∷◌, ◌++◌, length, take, drop,
  replicate,
}
use embedded_fatfs.Base.{arith, refl, sym, ap, ap₂, ◌∙◌, Bool-cases, inl, inr, ltb}
use embedded_fatfs.Base.{
  length-append, length-take, length-drop, length-replicate, take-length_append, append_assoc,
}
use embedded_fatfs.DirEntry.{really_e5_flag, sfn_padding}

pub record ShortName : Type 0 where
  pub name : List ℕ
  pub len : ℕ

-- `rposition(|x| *x != SFN_PADDING).map_or(0, |p| p + 1)`
abbrev pub filled_len : List ℕ → ℕ
filled_len [] = 0
filled_len (x ∷ xs) =
    let rest = filled_len xs in if rest == 0 then if x == sfn_padding then 0 else 1 else suc rest

-- `dst[at..at + src.len()].copy_from_slice(src)`
abbrev pub copied : ℕ → List ℕ → List ℕ → List ℕ
copied at src dst = take at dst ++ (src ++ drop (at + length src) dst)

abbrev pub with_e5 : List ℕ → List ℕ
with_e5 [] = []
with_e5 (x ∷ xs) = (if x == really_e5_flag then 0xE5 else x) ∷ xs

abbrev pub name_of : ℕ → ℕ → List ℕ → List ℕ → List ℕ
name_of name_len ext_len raw_name name =
    if ltb 0 ext_len
    then copied (name_len + 1) (take ext_len (drop 8 raw_name)) (copied name_len (46 ∷ []) name)
    else name

unfoldable pub new_short_name : List ℕ → ShortName
new_short_name raw_name =
    let name_len = filled_len (take 8 raw_name) in
    let ext_len = filled_len (drop 8 raw_name) in
    let name = copied 0 (take name_len raw_name) (replicate 12 sfn_padding) in
    record {
      name = with_e5 (name_of name_len ext_len raw_name name);
      len = if ltb 0 ext_len then name_len + 1 + ext_len else name_len;
    }

unfoldable pub as_bytes : ShortName → List ℕ
as_bytes n = take n.len n.name

filled_len-le : (xs : List ℕ) → filled_len xs ≤ length xs
filled_len-le [] = omega arith
filled_len-le (x ∷ xs) = ground (arith, filled_len-le xs)

with_e5-take : (n : ℕ) (xs : List ℕ) → take n (with_e5 xs) ≡ with_e5 (take n xs)
with_e5-take zero [] = refl
with_e5-take zero (x ∷ xs) = refl
with_e5-take (suc n) [] = refl
with_e5-take (suc n) (x ∷ xs) = refl

-- A copy within the list keeps its length.
pub length-copied :
    (at : ℕ) (src dst : List ℕ)
    → at + length src ≤ length dst
    → length (copied at src dst) ≡ length dst
length-copied at src dst h = omega (
  arith,
  length-append (take at dst) (src ++ drop (at + length src) dst),
  length-append src (drop (at + length src) dst),
  length-take at dst,
  length-drop (at + length src) dst,
)

-- What stands before the end of the copy.
pub take-copied :
    (at : ℕ) (src dst : List ℕ)
    → at ≤ length dst
    → take (at + length src) (copied at src dst) ≡ take at dst ++ src
take-copied at src dst h =
    let front : length (take at dst ++ src) ≡ at + length src =
      omega (arith, length-append (take at dst) src, length-take at dst) in
    ap₂ take (sym front) (sym (append_assoc (take at dst) src (drop (at + length src) dst)))
    ∙ take-length_append (take at dst ++ src) (drop (at + length src) dst)

-- The two parts of a name, with a point between them where there is an extension.
abbrev pub dotted : List ℕ → List ℕ
dotted raw_name =
    let ext_len = filled_len (drop 8 raw_name) in
    let base = take (filled_len (take 8 raw_name)) raw_name in
    if ltb 0 ext_len then base ++ (46 ∷ take ext_len (drop 8 raw_name)) else base

dotted_in :
    (raw_name : List ℕ) (n k : ℕ)
    → length raw_name ≡ 11
    → n ≤ 8
    → k ≤ 3
    → (length (name_of n k raw_name (copied 0 (take n raw_name) (replicate 12 sfn_padding))) ≡ 12)
      × (take
            (if ltb 0 k then n + 1 + k else n)
            (name_of n k raw_name (copied 0 (take n raw_name) (replicate 12 sfn_padding)))
          ≡ (if ltb 0 k
              then take n raw_name ++ (46 ∷ take k (drop 8 raw_name))
              else take n raw_name))
dotted_in raw_name n k len ln lk =
    let padded = replicate 12 sfn_padding in
    let base = take n raw_name in
    let l_padded = length-replicate {A = ℕ} 12 sfn_padding in
    let l_base : length base ≡ n = omega (arith, length-take n raw_name) in
    let one = copied 0 base padded in
    let l_one : length one ≡ 12 = length-copied 0 base padded (omega arith) ∙ l_padded in
    let count : n ≡ 0 + length base = omega arith in
    let t_one : take n one ≡ base =
      ap (λ m. take m one) count ∙ take-copied 0 base padded (omega arith) in
    let two = copied n (46 ∷ []) one in
    let l_two : length two ≡ 12 = length-copied n (46 ∷ []) one (omega arith) ∙ l_one in
    let t_two : take (n + 1) two ≡ base ++ (46 ∷ []) =
      take-copied n (46 ∷ []) one (omega arith) ∙ ap (λ l. l ++ (46 ∷ [])) t_one in
    let ext = take k (drop 8 raw_name) in
    let l_ext : length ext ≡ k =
      omega (arith, length-take k (drop 8 raw_name), length-drop 8 raw_name) in
    let three = copied (n + 1) ext two in
    elim (Bool-cases (ltb 0 k)) [
      | inl q ↦ rw q (
        length-copied (n + 1) ext two (omega arith) ∙ l_two,
        ap (λ m. take (n + 1 + m) three) (sym l_ext)
            ∙ take-copied (n + 1) ext two (omega arith)
            ∙ ap (λ l. l ++ ext) t_two
            ∙ append_assoc base (46 ∷ []) ext,
      )
      | inr q ↦ rw q (l_one, t_one)
    ]

length-with_e5 : (xs : List ℕ) → length (with_e5 xs) ≡ length xs
length-with_e5 [] = refl
length-with_e5 (x ∷ xs) = refl

-- For a raw name of 11 bytes: the decoded name has 12 bytes of which no more than 12 are shown,
-- and those are the name without its padding, then a point and the extension without its padding
-- where there is one, with 0xE5 for a first byte of 0x05.
pub as_bytes-new_short_name :
    (raw_name : List ℕ)
    → length raw_name ≡ 11
    → (length (new_short_name raw_name).name ≡ 12)
      × ((new_short_name raw_name).len ≤ 12)
      × (as_bytes (new_short_name raw_name) ≡ with_e5 (dotted raw_name))
unfolding new_short_name as_bytes
as_bytes-new_short_name raw_name h =
    let n = filled_len (take 8 raw_name) in
    let k = filled_len (drop 8 raw_name) in
    let ln : n ≤ 8 = omega (arith, filled_len-le (take 8 raw_name), length-take 8 raw_name) in
    let lk : k ≤ 3 = omega (arith, filled_len-le (drop 8 raw_name), length-drop 8 raw_name) in
    let (count, shown) = dotted_in raw_name n k h ln lk in
    (length-with_e5 _ ∙ count, ground arith, with_e5-take _ _ ∙ ap with_e5 shown)
