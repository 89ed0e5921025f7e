-- ===== src/DirEntry/Shown.antt =====
-- What is shown of a padded 8.3 name (`ShortName` of embedded-fatfs/src/dir_entry.rs).
use embedded_fatfs.Base.{
  ℕ, zero, suc, ◌-◌, ◌≤◌, ◌≡◌, ◌≢◌, ◌==◌, if◌then◌else◌, List, [], ◌∷◌, ◌++◌, length, take, drop,
  replicate,
}
use embedded_fatfs.Base.{arith, refl, sym, ap, ap₂, ◌∙◌, ltb, true}
use embedded_fatfs.Base.{
  length-append, length-replicate, take-length_append, drop-length_append, append_assoc,
}
use embedded_fatfs.DirEntry.ShortName.{
  filled_len, with_e5, dotted, new_short_name, as_bytes, as_bytes-new_short_name,
}

-- The last byte is no space.
abbrev pub Trimmed : List ℕ → Type 0
Trimmed [] = Unit
Trimmed (x ∷ []) = x ≢ 0x20
Trimmed (x ∷ y ∷ ys) = Trimmed (y ∷ ys)

-- A part of a name with spaces behind it, in `width` bytes.
abbrev pub padded : ℕ → List ℕ → List ℕ
padded width xs = xs ++ replicate (width - length xs) 0x20

-- The base and the extension, with a point between them where there is an extension.
abbrev pub joined : List ℕ → List ℕ → List ℕ
joined base [] = base
joined base (x ∷ xs) = base ++ (0x2E ∷ x ∷ xs)

-- The byte that stands for 0xE5 at the start of a name.
abbrev pub unescaped : List ℕ → List ℕ
unescaped [] = []
unescaped (x ∷ xs) = (if x == 0x05 then 0xE5 else x) ∷ xs

filled_len-replicate : (n : ℕ) → filled_len (replicate n 0x20) ≡ 0
filled_len-replicate zero = refl
filled_len-replicate (suc n) = rw (filled_len-replicate n) refl

-- Only the spaces behind the last other byte are padding.
filled_len-padded :
    (n : ℕ) (xs : List ℕ) → Trimmed xs → filled_len (xs ++ replicate n 0x20) ≡ length xs
filled_len-padded n [] h = filled_len-replicate n
filled_len-padded n (x ∷ []) h = rw (filled_len-replicate n) (ground arith)
filled_len-padded n (x ∷ y ∷ ys) h = rw (filled_len-padded n (y ∷ ys) h) (ground arith)

length-padded : (width : ℕ) (xs : List ℕ) → length xs ≤ width → length (padded width xs) ≡ width
length-padded width xs h = omega (
  arith,
  length-append xs (replicate (width - length xs) 0x20),
  length-replicate {A = ℕ} (width - length xs) 0x20,
)

with_e5-unescaped : (xs : List ℕ) → with_e5 xs ≡ unescaped xs
with_e5-unescaped [] = refl
with_e5-unescaped (x ∷ xs) = refl

joined_in :
    (base ext : List ℕ)
    → (if ltb 0 (length ext) then base ++ (46 ∷ ext) else base) ≡ joined base ext
joined_in base [] = refl
joined_in base (x ∷ xs) =
    let some_bytes : ltb 0 (suc (length xs)) ≡ true = ground arith in rw some_bytes refl

dotted-padded :
    (base ext : List ℕ)
    → Trimmed base
    → Trimmed ext
    → length base ≤ 8
    → dotted (padded 8 base ++ padded 3 ext) ≡ joined base ext
dotted-padded base ext hb he lb =
    let name = padded 8 base in
    let extension = padded 3 ext in
    let raw = name ++ extension in
    let eight = length-padded 8 base lb in
    let front : take 8 raw ≡ name =
      ap (λ n. take n raw) (sym eight) ∙ take-length_append name extension in
    let back : drop 8 raw ≡ extension =
      ap (λ n. drop n raw) (sym eight) ∙ drop-length_append name extension in
    let n : filled_len (take 8 raw) ≡ length base =
      ap filled_len front ∙ filled_len-padded (8 - length base) base hb in
    let k : filled_len (drop 8 raw) ≡ length ext =
      ap filled_len back ∙ filled_len-padded (3 - length ext) ext he in
    let shown_base : take (filled_len (take 8 raw)) raw ≡ base =
      ap (λ m. take m raw) n
      ∙ ap (take (length base)) (append_assoc base (replicate (8 - length base) 0x20) extension)
      ∙ take-length_append base _ in
    let shown_ext : take (filled_len (drop 8 raw)) (drop 8 raw) ≡ ext =
      ap₂ take k back ∙ take-length_append ext (replicate (3 - length ext) 0x20) in
    ap₂ (λ m b. if ltb 0 m then b ++ (46 ∷ take (filled_len (drop 8 raw)) (drop 8 raw)) else b) k
      shown_base
    ∙ ap (λ e. if ltb 0 (length ext) then base ++ (46 ∷ e) else base) shown_ext
    ∙ joined_in base ext

-- For a base of at most 8 bytes and an extension of at most 3, neither of which ends in a space:
-- of the raw name that has both padded with spaces, the decoded name has 12 bytes of which no
-- more than 12 are shown, and those are the base, then a point and the extension where that is
-- not empty, with 0xE5 for a first byte of 0x05.
pub as_bytes-padded :
    (base ext : List ℕ)
    → Trimmed base
    → Trimmed ext
    → length base ≤ 8
    → length ext ≤ 3
    → (length (new_short_name (padded 8 base ++ padded 3 ext)).name ≡ 12)
      × ((new_short_name (padded 8 base ++ padded 3 ext)).len ≤ 12)
      × (as_bytes (new_short_name (padded 8 base ++ padded 3 ext)) ≡ unescaped (joined base ext))
as_bytes-padded base ext hb he lb le =
    let raw = padded 8 base ++ padded 3 ext in
    let eleven : length raw ≡ 11 = omega (
      arith,
      length-append (padded 8 base) (padded 3 ext),
      length-padded 8 base lb,
      length-padded 3 ext le,
    ) in
    let (whole, few, shown) = as_bytes-new_short_name raw eleven in
    (whole, few, shown ∙ ap with_e5 (dotted-padded base ext hb he lb) ∙ with_e5-unescaped _)
