-- ===== src/ShortNames/Fresh.antt =====
-- A name that the generator could build is noted when it is shown to the generator.
use embedded_fatfs.Base.{ℕ, ◌+◌, ◌^◌, ◌≤◌, ◌<◌, ◌≡◌, arith, refl, sym, ap, ap₂, ◌∙◌, subst}
use embedded_fatfs.Base.{
  Bool, true, false, ◌&&◌, ◌==◌, ==_iff, if◌then◌else◌, List, ◌++◌, length, take, drop, replicate,
  get_or, min,
}
use embedded_fatfs.Base.{Option, none, some, bit_and, length-take, length-drop, length-replicate}
use embedded_fatfs.Base.Bits.{◌<<<◌, or_keeps, or_adds}
use embedded_fatfs.DirEntry.{sfn_size, sfn_padding}
use embedded_fatfs.DirEntry.ShortName.{copied, length-copied, take-copied}
use embedded_fatfs.ShortNames.{
  ShortNameGenerator, add_existing, build_prefixed_name, same_bytes, noted, to_digit, from_digit,
  from_str_radix, u16_to_hex, is_value,
}
use embedded_fatfs.ShortNames.Copies.{take_front, drop_front}
use native.Mathlib.Nat.{one-le-pow}
use embedded_fatfs.ShortNames.Shape.{
  same_bytes-eq, to_digit-from_digit, from_str_radix-u16_to_hex, tilde, suffix, front, window,
  extension,
}

-- The fields of a generator are in range.
pub record IsGenerator (g : ShortNameGenerator) : Type 0 where
  pub whole : length g.short_name ≡ 11
  pub base : g.basename_len ≤ 8
  pub word : g.chksum < 2 ^ 16

-- The generator will not give a name: where that is one of those that it can build, its bit is set.
pub record Avoids (g : ShortNameGenerator) (name : List ℕ) : Type 0 where
  pub exact : name ≡ g.short_name → g.exact_match ≡ true
  pub long :
      (i : ℕ)
      → i < 10
      → name ≡ build_prefixed_name i false g
      → 0 < bit_and g.long_prefix_bitmap (1 <<< i)
  pub short :
      (i : ℕ)
      → i < 10
      → name ≡ build_prefixed_name i true g
      → 0 < bit_and g.prefix_chksum_bitmap (1 <<< i)

pub bit_pos : (i : ℕ) → 0 < 1 <<< i
bit_pos i = omega (arith, one-le-pow i 2)

-- A bitmap only grows.
pub noted-keeps :
    (b : Bool) (o : Option ℕ) (matches : Bool) (bitmap m : ℕ)
    → bit_and bitmap m ≤ bit_and (if b then noted o matches bitmap else bitmap) m
noted-keeps false o matches bitmap m = omega arith
noted-keeps true none matches bitmap m = omega arith
noted-keeps true (some n) false bitmap m = omega arith
noted-keeps true (some n) true bitmap m = or_keeps bitmap (1 <<< n) m

-- A collision that all tests find is noted.
noted-adds :
    (t c bitmap i : ℕ) (matches : Bool)
    → t ≡ 126
    → to_digit c ≡ some i
    → matches ≡ true
    → 0 < bit_and (if t == 126 then noted (to_digit c) matches bitmap else bitmap) (1 <<< i)
noted-adds t c bitmap i matches ht hc hm =
    subst (λ o. 0 < bit_and (if t == 126 then noted o matches bitmap else bitmap) (1 <<< i))
      (sym hc) (rw (ht, hm) (omega (arith, or_adds bitmap (1 <<< i), bit_pos i)))

module _ (g : ShortNameGenerator) (fits : IsGenerator g) (i : ℕ) (small : i < 10) where
  -- The front of the name that was converted, in an empty buffer.
  base_of : ℕ → List ℕ
  base_of k = copied 0 (take k g.short_name) (replicate sfn_size sfn_padding)

  length-base_of : (k : ℕ) → k ≤ 6 → length (base_of k) ≡ 11
  unfolding base_of
  length-base_of k h =
      let l = length-replicate {A = ℕ} sfn_size sfn_padding in
      let t = length-take k g.short_name in
      length-copied 0 (take k g.short_name) (replicate sfn_size sfn_padding)
        (omega (arith, l, t, fits.whole))
      ∙ l

  take-base_of : (k : ℕ) → k ≤ 6 → take k (base_of k) ≡ take k g.short_name
  unfolding base_of
  take-base_of k h =
      let l = length-replicate {A = ℕ} sfn_size sfn_padding in
      let t = length-take k g.short_name in
      let count : k ≡ 0 + length (take k g.short_name) = omega (arith, t, fits.whole) in
      ap (λ m. take m (copied 0 (take k g.short_name) (replicate sfn_size sfn_padding))) count
      ∙ take-copied 0 (take k g.short_name) (replicate sfn_size sfn_padding) (omega (arith, l))

  three_left : length (drop 8 g.short_name) ≡ 3
  three_left = omega (arith, length-drop 8 g.short_name, fits.whole)

  pub long_avoided :
      (name : List ℕ)
      → name ≡ build_prefixed_name i false g
      → 0 < bit_and (add_existing name g).long_prefix_bitmap (1 <<< i)
  unfolding add_existing base_of
  long_avoided name e =
      let p = min g.basename_len 6 in
      let low : p ≤ 6 = omega arith in
      let whole = length-base_of p low in
      let at : get_or name p 0 ≡ 126 =
        ap (λ x. get_or x p 0) e
        ∙ tilde (base_of p) (drop 8 g.short_name) p (from_digit i) whole three_left low in
      let digit : to_digit (get_or name (p + 1) 0) ≡ some i =
        ap (λ x. to_digit (get_or x (p + 1) 0)) e
        ∙ ap to_digit
            (suffix (base_of p) (drop 8 g.short_name) p (from_digit i) whole three_left low)
        ∙ to_digit-from_digit i small in
      let prefix : take p name ≡ take p g.short_name =
        ap (take p) e
        ∙ front (base_of p) (drop 8 g.short_name) p (from_digit i) whole three_left low p
            (omega arith)
        ∙ take-base_of p low in
      let ext : drop 8 name ≡ drop 8 g.short_name =
        ap (drop 8) e
        ∙ extension (base_of p) (drop 8 g.short_name) p (from_digit i) whole three_left low in
      noted-adds (get_or name p 0) (get_or name (p + 1) 0) g.long_prefix_bitmap i
        (same_bytes (take p name) (take p g.short_name)
          && same_bytes (drop 8 name) (drop 8 g.short_name))
        at digit (ap₂ ◌&&◌ (same_bytes-eq _ _ prefix) (same_bytes-eq _ _ ext))

  pub short_avoided :
      (name : List ℕ)
      → name ≡ build_prefixed_name i true g
      → 0 < bit_and (add_existing name g).prefix_chksum_bitmap (1 <<< i)
  unfolding add_existing base_of
  short_avoided name e =
      let p = min g.basename_len 2 in
      let low : p + 4 ≤ 6 = omega arith in
      let l_base = length-base_of p (omega arith) in
      let buf = copied p (u16_to_hex g.chksum) (base_of p) in
      let whole : length buf ≡ 11 =
        length-copied p (u16_to_hex g.chksum) (base_of p) (omega (arith, l_base)) ∙ l_base in
      let at : get_or name (p + 4) 0 ≡ 126 =
        ap (λ x. get_or x (p + 4) 0) e
        ∙ tilde buf (drop 8 g.short_name) (p + 4) (from_digit i) whole three_left low in
      let digit : to_digit (get_or name (p + 4 + 1) 0) ≡ some i =
        ap (λ x. to_digit (get_or x (p + 4 + 1) 0)) e
        ∙ ap to_digit (suffix buf (drop 8 g.short_name) (p + 4) (from_digit i) whole three_left low)
        ∙ to_digit-from_digit i small in
      let prefix : take p name ≡ take p g.short_name =
        ap (take p) e
        ∙ front buf (drop 8 g.short_name) (p + 4) (from_digit i) whole three_left low p
            (omega arith)
        ∙ take_front p p (base_of p) _ (omega arith) (omega (arith, l_base))
        ∙ take-base_of p (omega arith) in
      let ext : drop 8 name ≡ drop 8 g.short_name =
        ap (drop 8) e
        ∙ extension buf (drop 8 g.short_name) (p + 4) (from_digit i) whole three_left low in
      let hex : from_str_radix (take 4 (drop p name)) ≡ some g.chksum =
        ap (λ x. from_str_radix (take 4 (drop p x))) e
        ∙ ap from_str_radix (
            window buf (drop 8 g.short_name) (p + 4) (from_digit i) whole three_left low 4 p
              (omega arith)
            ∙ ap (take 4) (
                drop_front p (base_of p) (u16_to_hex g.chksum ++ drop (p + 4) (base_of p))
                  (omega (arith, l_base))))
        ∙ from_str_radix-u16_to_hex g.chksum fits.word in
      let same : is_value (from_str_radix (take 4 (drop p name))) g.chksum ≡ true =
        ap (λ o. is_value o g.chksum) hex ∙ (==_iff g.chksum g.chksum).1 refl in
      noted-adds (get_or name (p + 4) 0) (get_or name (p + 4 + 1) 0) g.prefix_chksum_bitmap i
        (same_bytes (take p name) (take p g.short_name)
          && (same_bytes (drop 8 name) (drop 8 g.short_name)
              && is_value (from_str_radix (take 4 (drop p name))) g.chksum))
        at digit (ap₂ ◌&&◌ (same_bytes-eq _ _ prefix) (ap₂ ◌&&◌ (same_bytes-eq _ _ ext) same))
