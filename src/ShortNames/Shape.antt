-- ===== src/ShortNames/Shape.antt =====
-- What a prefixed name is made of, read back as the collision checks read it.
use embedded_fatfs.Base.{ℕ, ◌+◌, ◌*◌, ◌^◌, ◌/◌, ◌≤◌, ◌<◌, ◌≡◌, arith, refl, ap, ◌∙◌, subst}
use embedded_fatfs.Base.{
  true, false, ◌==◌, ==_iff, if◌then◌else◌, List, [], ◌∷◌, ◌++◌, length, take, drop, get_or,
}
use embedded_fatfs.Base.{none, some, bit_and, append-nil}
use embedded_fatfs.Base.Bits.{bit_and_mask}
use embedded_fatfs.DirEntry.ShortName.{copied, length-copied}
use embedded_fatfs.ShortNames.{
  same_bytes, to_digit, from_digit, from_str_radix, u16_to_hex, to_ascii_uppercase, hex_value,
  hex_from,
}
use embedded_fatfs.ShortNames.Copies.{
  take_front, get_or_front, get_or_behind, drop_front, drop_past, window_front,
}

same_bytes_refl : (xs : List ℕ) → same_bytes xs xs ≡ true
same_bytes_refl [] = refl
same_bytes_refl (x ∷ xs) = rw ((==_iff x x).1 refl) (same_bytes_refl xs)

pub same_bytes-eq : (xs ys : List ℕ) → xs ≡ ys → same_bytes xs ys ≡ true
same_bytes-eq xs ys q = subst (λ l. same_bytes xs l ≡ true) q (same_bytes_refl xs)

pub to_digit-from_digit : (d : ℕ) → d < 10 → to_digit (from_digit d) ≡ some d
to_digit-from_digit d h = ground arith

hex_digit : (d : ℕ) → d < 16 → hex_value (to_ascii_uppercase (from_digit d)) ≡ some d
hex_digit d h = ground arith

no_sign : (d : ℕ) → d < 16 → (to_ascii_uppercase (from_digit d) == 43) ≡ false
no_sign d h = ground arith

hex_from-digit :
    (n d : ℕ) (cs : List ℕ)
    → d < 16
    → hex_from n (to_ascii_uppercase (from_digit d) ∷ cs) ≡ hex_from (n * 16 + d) cs
hex_from-digit n d cs h =
    ap (λ o. elim o [ none ↦ none | some e ↦ hex_from (n * 16 + e) cs ]) (hex_digit d h)

from_str_radix-digits :
    (a b c d : ℕ)
    → a < 16
    → b < 16
    → c < 16
    → d < 16
    → from_str_radix (
        to_ascii_uppercase (from_digit a)
        ∷ to_ascii_uppercase (from_digit b)
        ∷ to_ascii_uppercase (from_digit c)
        ∷ to_ascii_uppercase (from_digit d)
        ∷ [])
      ≡ some ((((0 * 16 + a) * 16 + b) * 16 + c) * 16 + d)
from_str_radix-digits a b c d ha hb hc hd =
    let up : ℕ → ℕ = λ n. to_ascii_uppercase (from_digit n) in
    ap
      (λ q.
        if q
        then hex_from 0 (up b ∷ up c ∷ up d ∷ [])
        else hex_from 0 (up a ∷ up b ∷ up c ∷ up d ∷ []))
      (no_sign a ha)
    ∙ hex_from-digit 0 a (up b ∷ up c ∷ up d ∷ []) ha
    ∙ hex_from-digit (0 * 16 + a) b (up c ∷ up d ∷ []) hb
    ∙ hex_from-digit ((0 * 16 + a) * 16 + b) c (up d ∷ []) hc
    ∙ hex_from-digit (((0 * 16 + a) * 16 + b) * 16 + c) d [] hd

pub from_str_radix-u16_to_hex : (x : ℕ) → x < 2 ^ 16 → from_str_radix (u16_to_hex x) ≡ some x
from_str_radix-u16_to_hex x h =
    let a = bit_and_mask 4 (x / 4096) in
    let b = bit_and_mask 4 (x / 256) in
    let c = bit_and_mask 4 (x / 16) in
    let d = bit_and_mask 4 x in
    from_str_radix-digits (bit_and (x / 4096) 15) (bit_and (x / 256) 15) (bit_and (x / 16) 15)
      (bit_and x 15) (omega (arith, a)) (omega (arith, b)) (omega (arith, c)) (omega (arith, d))
    ∙ ap some (omega (arith, a, b, c, d))

-- A name that is built on a buffer: `~` and a digit behind `q` bytes of it, and an extension.
module _ (buf ext : List ℕ) (q d : ℕ) (whole : length buf ≡ 11) (three : length ext ≡ 3)
    (low : q ≤ 6) where
  abbrev pub with_tilde : List ℕ
  with_tilde = copied q (126 ∷ []) buf

  abbrev pub with_digit : List ℕ
  with_digit = copied (q + 1) (d ∷ []) with_tilde

  abbrev pub finished : List ℕ
  finished = copied 8 ext with_digit

  length-with_tilde : length with_tilde ≡ 11
  length-with_tilde = length-copied q (126 ∷ []) buf (omega arith) ∙ whole

  length-with_digit : length with_digit ≡ 11
  length-with_digit =
      let l = length-with_tilde in length-copied (q + 1) (d ∷ []) with_tilde (omega arith) ∙ l

  pub tilde : get_or finished q 0 ≡ 126
  tilde =
      let l2 = length-with_tilde in
      let l3 = length-with_digit in
      get_or_front q 8 with_digit _ 0 (omega arith) (omega arith)
      ∙ get_or_front q (q + 1) with_tilde _ 0 (omega arith) (omega arith)
      ∙ get_or_behind q 126 buf _ 0 (omega arith)

  pub suffix : get_or finished (q + 1) 0 ≡ d
  suffix =
      let l2 = length-with_tilde in
      let l3 = length-with_digit in
      get_or_front (q + 1) 8 with_digit _ 0 (omega arith) (omega arith)
      ∙ get_or_behind (q + 1) d with_tilde _ 0 (omega arith)

  pub front : (k : ℕ) → k ≤ q → take k finished ≡ take k buf
  front k h =
      let l2 = length-with_tilde in
      let l3 = length-with_digit in
      take_front k 8 with_digit _ (omega arith) (omega arith)
      ∙ take_front k (q + 1) with_tilde _ (omega arith) (omega arith)
      ∙ take_front k q buf _ h (omega arith)

  pub window : (k from : ℕ) → from + k ≤ q → take k (drop from finished) ≡ take k (drop from buf)
  window k from h =
      let l2 = length-with_tilde in
      let l3 = length-with_digit in
      window_front k from 8 with_digit _ (omega arith) (omega arith)
      ∙ window_front k from (q + 1) with_tilde _ (omega arith) (omega arith)
      ∙ window_front k from q buf _ h (omega arith)

  pub extension : drop 8 finished ≡ ext
  extension =
      let l3 = length-with_digit in
      drop_front 8 with_digit _ (omega arith)
      ∙ ap (λ l. ext ++ l) (drop_past (8 + length ext) with_digit (omega arith))
      ∙ append-nil ext
