-- ===== src/LongName/Parts.antt =====
-- The parts that a name is cut into, and the padding behind the last.
use embedded_fatfs.Base.{
  ℕ, zero, suc, ◌+◌, ◌-◌, ◌*◌, ◌≤◌, ◌<◌, ◌≡◌, arith, refl, sym, ap, ◌∙◌, List, [], ◌∷◌, ◌++◌,
}
use embedded_fatfs.Base.{
  leb, subst, Bool-cases, inl, inr, true, false, All, All-append, All-take, All-replicate,
  append_assoc, append-nil,
}
use embedded_fatfs.Base.{
  length, take, drop, replicate, length-append, length-take, length-drop, length-replicate,
}
use embedded_fatfs.Base.{take-append_drop, take-append_past, take_all, drop-drop}
use embedded_fatfs.DirEntry.{name_part, copy_name_from_slice, DirLfnEntryData}
use embedded_fatfs.LongName.{chunks, padded, is_padding, trimmed_len, one_more}
use mathlib.Core.List.{reverse, reverse-cons}

-- The parts in reverse order, put together in front of `t`.
abbrev pub unroll : List (List ℕ) → List ℕ → List ℕ
unroll [] t = t
unroll (p ∷ ps) t = unroll ps (p ++ t)

pub unroll-append : (rs : List (List ℕ)) (x y : List ℕ) → unroll rs (x ++ y) ≡ unroll rs x ++ y
unroll-append [] x y = refl
unroll-append (p ∷ ps) x y = ap (unroll ps) (sym (append_assoc p x y)) ∙ unroll-append ps (p ++ x) y

unroll-snoc : (rs : List (List ℕ)) (c t : List ℕ) → unroll (rs ++ c ∷ []) t ≡ c ++ unroll rs t
unroll-snoc [] c t = refl
unroll-snoc (p ∷ ps) c t = unroll-snoc ps c (p ++ t)

abbrev pub AllFull : List (List ℕ) → Type 0
AllFull = All (λ p. length p ≡ 13)

pub length-unroll :
    (rs : List (List ℕ)) (t : List ℕ)
    → AllFull rs
    → length (unroll rs t) ≡ 13 * length rs + length t
length-unroll [] t h = omega arith
length-unroll (p ∷ ps) t (h, hs) = omega (arith, length-unroll ps (p ++ t) hs, length-append p t)

-- How a name is cut: full parts, and one in front of them (the last of the name) that may be short.
pub record Cut (name : List ℕ) (parts : List (List ℕ)) : Type 0 where
  pub final : List ℕ
  pub others : List (List ℕ)
  pub shape : reverse parts ≡ final ∷ others
  pub full : AllFull others
  pub some_left : 0 < length final
  pub short : length final ≤ 13
  pub whole : unroll others final ≡ name

Cut-cons :
    (c : List ℕ) (parts : List (List ℕ)) (rest : List ℕ)
    → length c ≡ 13
    → Cut rest parts
    → Cut (c ++ rest) (c ∷ parts)
Cut-cons c parts rest h cut = record {
  final = cut.final;
  others = cut.others ++ c ∷ [];
  shape = reverse-cons c parts ∙ ap (λ l. l ++ c ∷ []) cut.shape;
  full = All-append (λ p. length p ≡ 13) cut.others (c ∷ []) cut.full (h, tt);
  some_left = cut.some_left;
  short = cut.short;
  whole = unroll-snoc cut.others c cut.final ∙ ap (λ l. c ++ l) cut.whole;
}

drop_past : (n : ℕ) (xs : List ℕ) → length xs ≤ n → drop n xs ≡ []
drop_past zero [] h = refl
drop_past zero (x ∷ xs) h = absurd (omega arith)
drop_past (suc n) [] h = refl
drop_past (suc n) (x ∷ xs) h = drop_past n xs (omega arith)

leb→le : (a b : ℕ) → leb a b ≡ true → a ≤ b
leb→le a b h = ground arith

leb_false→lt : (a b : ℕ) → leb a b ≡ false → b < a
leb_false→lt a b h = ground arith

chunks-nil : (f : ℕ) → chunks 13 f [] ≡ []
chunks-nil zero = refl
chunks-nil (suc f) = refl

pub chunks-Cut :
    (f : ℕ) (name : List ℕ) → 0 < length name → length name ≤ f → Cut name (chunks 13 f name)
chunks-Cut zero name lo hi = absurd (omega arith)
chunks-Cut (suc f) [] lo hi = absurd (omega arith)
chunks-Cut (suc f) (x ∷ xs) lo hi = elim (Bool-cases (leb (length xs) 12)) [
  | inl small ↦
      rw (drop_past 12 xs (leb→le (length xs) 12 small), chunks-nil f)
        (let all = take_all 12 xs (leb→le (length xs) 12 small) in
          record {
            final = x ∷ take 12 xs;
            others = [];
            shape = refl;
            full = tt;
            some_left = omega arith;
            short = omega (arith, length-take 12 xs);
            whole = ap (λ l. x ∷ l) all;
          })
  | inr large ↦
      let over : 12 < length xs = leb_false→lt (length xs) 12 large in
      let cut =
        Cut-cons (x ∷ take 12 xs) (chunks 13 f (drop 12 xs)) (drop 12 xs)
          (omega (arith, length-take 12 xs))
          (chunks-Cut f (drop 12 xs) (omega (arith, length-drop 12 xs))
            (omega (arith, length-drop 12 xs))) in
      subst (λ l. Cut (x ∷ l) ((x ∷ take 12 xs) ∷ chunks 13 f (drop 12 xs)))
        (take-append_drop 12 xs) cut
]

-- The units behind a name in its last entry.
abbrev pub IsPadding : ℕ → Type 0
IsPadding u = is_padding u ≡ true

pub padded_full : (p : List ℕ) → length p ≡ 13 → padded p ≡ p
padded_full p h =
    take-append_past 13 p (0 ∷ replicate 13 0xFFFF) (omega arith)
    ∙ ap (λ k. p ++ take k (0 ∷ replicate 13 0xFFFF)) (let z : 13 - length p ≡ 0 = omega arith in z)
    ∙ append-nil p

pub padding_of : List ℕ → List ℕ
padding_of p = take (13 - length p) (0 ∷ replicate 13 0xFFFF)

pub padding_of-IsPadding : (p : List ℕ) → All IsPadding (padding_of p)
unfolding padding_of
padding_of-IsPadding p =
    All-take IsPadding (13 - length p) (0 ∷ replicate 13 0xFFFF)
      (refl, All-replicate IsPadding 13 {x = 0xFFFF} refl)

pub padded-append : (p : List ℕ) → length p ≤ 13 → padded p ≡ p ++ padding_of p
unfolding padding_of
padded-append p h = take-append_past 13 p (0 ∷ replicate 13 0xFFFF) h

pub length-padded : (p : List ℕ) → length (padded p) ≡ 13
length-padded p = omega (
  arith,
  length-take 13 (p ++ (0 ∷ replicate 13 0xFFFF)),
  length-append p (0 ∷ replicate 13 0xFFFF),
  length-replicate {A = ℕ} 13 0xFFFF,
)

trimmed_len-padding : (ps : List ℕ) → All IsPadding ps → trimmed_len ps ≡ 0
trimmed_len-padding [] h = refl
trimmed_len-padding (p ∷ ps) (h, hs) = rw (trimmed_len-padding ps hs) (rw h refl)

trimmed_len-append : (xs ps : List ℕ) → All IsPadding ps → trimmed_len (xs ++ ps) ≡ trimmed_len xs
trimmed_len-append [] ps h = trimmed_len-padding ps h
trimmed_len-append (x ∷ xs) ps h = ap (one_more x) (trimmed_len-append xs ps h)

trimmed_len-snoc :
    (xs : List ℕ) (u : ℕ) → is_padding u ≡ false → trimmed_len (xs ++ u ∷ []) ≡ suc (length xs)
trimmed_len-snoc [] u h = rw h refl
trimmed_len-snoc (x ∷ xs) u h = ap (one_more x) (trimmed_len-snoc xs u h)

-- A name that does not end in padding is what is left of it with padding behind.
pub trimmed_len_name :
    (xs ps : List ℕ) (u : ℕ)
    → is_padding u ≡ false
    → All IsPadding ps
    → trimmed_len ((xs ++ u ∷ []) ++ ps) ≡ length (xs ++ u ∷ [])
trimmed_len_name xs ps u h k =
    trimmed_len-append (xs ++ u ∷ []) ps k
    ∙ trimmed_len-snoc xs u h
    ∙ omega (arith, length-append xs (u ∷ []))

-- The units that an entry gives back are those that were put into it.
pub name_part-copy :
    (p : List ℕ) (d : DirLfnEntryData) → length p ≡ 13 → name_part (copy_name_from_slice p d) ≡ p
name_part-copy p d h =
    let last_two : take 2 (drop 11 p) ≡ drop 11 p =
      take_all 2 (drop 11 p) (omega (arith, length-drop 11 p)) in
    let rest : drop 6 (drop 5 p) ≡ drop 11 p = drop-drop 6 5 p in
    ap (λ l. take 5 p ++ (take 6 (drop 5 p) ++ l)) (last_two ∙ sym rest)
    ∙ ap (λ l. take 5 p ++ l) (take-append_drop 6 (drop 5 p))
    ∙ take-append_drop 5 p
