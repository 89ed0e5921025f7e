-- ===== src/ShortNames/Generate.antt =====
-- The generator avoids all the names that it was shown.
use embedded_fatfs.Base.{ℕ, zero, suc, ◌+◌, ◌<◌, ◌≡◌, ◌≢◌, arith, refl, sym, ap, ◌∙◌, inl, inr}
use embedded_fatfs.Base.{
  Bool, true, false, not, ◌&&◌, ◌==◌, ==_iff, if◌then◌else◌, List, [], ◌∷◌, All, Option, none, some,
  unwrap_or, bit_and, ◌⊎◌,
}
use embedded_fatfs.Base.Bits.{◌<<<◌}
use embedded_fatfs.Io.{Error, Result}
use embedded_fatfs.ShortNames.{
  ShortNameGenerator, add_existing, add_all, generate, same_bytes, first_clear, with_suffix,
}
use embedded_fatfs.ShortNames.Fresh.{IsGenerator, Avoids, noted-keeps, long_avoided, short_avoided}
use embedded_fatfs.ShortNames.Shape.{same_bytes-eq}

-- A name is noted when it is shown, and stays noted.
shown : (name : List ℕ) (g : ShortNameGenerator) → IsGenerator g → Avoids (add_existing name g) name
unfolding add_existing
shown name g fits = record {
  exact = λ e. rw (same_bytes-eq name g.short_name e) refl;
  long = λ i small e. long_avoided g fits i small name e;
  short = λ i small e. short_avoided g fits i small name e;
}

kept :
    (other name : List ℕ) (g : ShortNameGenerator)
    → Avoids g name
    → Avoids (add_existing other g) name
unfolding add_existing
kept other name g h = record {
  exact = λ e. stays (same_bytes other g.short_name) (h.exact e);
  long = λ i small e.
      omega (arith, h.long i small e, noted-keeps _ _ _ g.long_prefix_bitmap (1 <<< i));
  short = λ i small e.
      omega (arith, h.short i small e, noted-keeps _ _ _ g.prefix_chksum_bitmap (1 <<< i));
}
  where
    stays : (b : Bool) {c : Bool} → c ≡ true → (if b then true else c) ≡ true
    stays true q = refl
    stays false q = q

add_existing-IsGenerator :
    (name : List ℕ) (g : ShortNameGenerator) → IsGenerator g → IsGenerator (add_existing name g)
unfolding add_existing
add_existing-IsGenerator name g h = record { whole = h.whole; base = h.base; word = h.word }

all_kept :
    (names : List (List ℕ)) (name : List ℕ) (g : ShortNameGenerator)
    → Avoids g name
    → Avoids (add_all names g) name
all_kept [] name g h = h
all_kept (x ∷ xs) name g h = all_kept xs name (add_existing x g) (kept x name g h)

all_shown :
    (names : List (List ℕ)) (g : ShortNameGenerator)
    → IsGenerator g
    → All (Avoids (add_all names g)) names
all_shown [] g fits = tt
all_shown (x ∷ xs) g fits = (
  all_kept xs x (add_existing x g) (shown x g fits),
  all_shown xs (add_existing x g) (add_existing-IsGenerator x g fits),
)

first_step :
    (i j : ℕ) (b : Bool) (rest : Option ℕ)
    → (if b then some i else rest) ≡ some j
    → ((b ≡ true) × (i ≡ j)) ⊎ (rest ≡ some j)
first_step i j true rest h = inl (refl, ap (λ o. unwrap_or o 0) h)
first_step i j false rest h = inr h

first_clear-zero :
    (bitmap i rounds j : ℕ)
    → first_clear bitmap i rounds ≡ some j
    → (bit_and bitmap (1 <<< j) ≡ 0) × (j < i + rounds)
first_clear-zero bitmap i zero j h = absurd (ground arith)
first_clear-zero bitmap i (suc rounds) j h =
    elim (first_step i j (bit_and bitmap (1 <<< i) == 0) (first_clear bitmap (i + 1) rounds) h) [
      | inl (clear, same) ↦ (
        ap (λ k. bit_and bitmap (1 <<< k)) (sym same)
            ∙ (==_iff (bit_and bitmap (1 <<< i)) 0).0 clear,
        omega (arith, same),
      )
      | inr later ↦
          let (clear, lim) = first_clear-zero bitmap (i + 1) rounds j later in (clear, omega arith)
    ]

-- The name of a result, and whether it is one.
given : Result (Error (Unit {0})) (List ℕ) → List ℕ
given (Result.ok a) = a
given (Result.err x) = []

is_ok : Result (Error (Unit {0})) (List ℕ) → Bool
is_ok (Result.ok a) = true
is_ok (Result.err x) = false

-- What the generator gives is no name that it avoids.
with_suffix-Avoids :
    (g : ShortNameGenerator) (name : List ℕ) (o o' : Option ℕ)
    → Avoids g name
    → first_clear g.long_prefix_bitmap 1 4 ≡ o
    → first_clear g.prefix_chksum_bitmap 1 9 ≡ o'
    → with_suffix g o o' ≢ Result.ok name
unfolding given is_ok
with_suffix-Avoids g name (some i) o' h q q' e =
    let (clear, lim) = first_clear-zero g.long_prefix_bitmap 1 4 i q in
    omega (arith, clear, h.long i (omega arith) (sym (ap given e)))
with_suffix-Avoids g name none (some i) h q q' e =
    let (clear, lim) = first_clear-zero g.prefix_chksum_bitmap 1 9 i q' in
    omega (arith, clear, h.short i (omega arith) (sym (ap given e)))
with_suffix-Avoids g name none none h q q' e = no (ap is_ok e)
  where
    no : false ≡ true → ⊥
    no p = ground arith

generate-Avoids :
    (g : ShortNameGenerator) (name : List ℕ) → Avoids g name → generate g ≢ Result.ok name
unfolding generate given
generate-Avoids g name h = pick (not g.lossy_conv && (g.name_fits && not g.exact_match)) refl
  where
    pick :
        (b : Bool)
        → (not g.lossy_conv && (g.name_fits && not g.exact_match)) ≡ b
        → (if b
            then Result.ok g.short_name
            else with_suffix g
                (first_clear g.long_prefix_bitmap 1 4)
                (first_clear g.prefix_chksum_bitmap 1 9))
          ≢ Result.ok name
    pick true q e = let taken = h.exact (sym (ap given e)) in ground (arith, q, taken)
    pick false q e = with_suffix-Avoids g name _ _ h refl refl e

-- For a generator with its fields in range that is shown any names of a directory: what it then
-- generates is none of them, in each of its three forms.
pub generate-fresh :
    (names : List (List ℕ)) (g : ShortNameGenerator)
    → IsGenerator g
    → All (λ name. generate (add_all names g) ≢ Result.ok name) names
generate-fresh names g fits = all names (all_shown names g fits)
  where
    all :
        (xs : List (List ℕ))
        → All (Avoids (add_all names g)) xs
        → All (λ name. generate (add_all names g) ≢ Result.ok name) xs
    all [] h = tt
    all (x ∷ xs) (h, hs) = (generate-Avoids (add_all names g) x h, all xs hs)
