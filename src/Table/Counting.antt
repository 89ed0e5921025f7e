-- ===== src/Table/Counting.antt =====
-- How the count of free entries changes with the table.
use embedded_fatfs.Base.{
  ℕ, zero, suc, ◌+◌, ◌≤◌, ◌<◌, ◌≡◌, ◌≢◌, Bool, true, false, arith, refl, sym, ap, ◌∙◌, Bool-cases,
  inl, inr, ◌==◌, ==_iff, if◌then◌else◌,
}
use embedded_fatfs.Base.{List, [], ◌∷◌, length, All}
use embedded_fatfs.Table.Value.{free, is_free}
use embedded_fatfs.Table.Contract.{Table, IsFree, free_count}
use embedded_fatfs.Chain.Spec.{Outside, Distinct}

one_if : Bool → ℕ
one_if b = if b then 1 else 0

-- The two tables have the same free entries, apart from those excepted.
abbrev pub SameFree : (ℕ → Type 0) → Table → Table → Type 0
SameFree P t u = (m : ℕ) → P m → is_free (u m) ≡ is_free (t m)

pub free_count_same :
    (t u : Table) (a k : ℕ)
    → ((m : ℕ) → a ≤ m → m < a + k → is_free (u m) ≡ is_free (t m))
    → free_count u a k ≡ free_count t a k
free_count_same t u a zero h = refl
free_count_same t u a (suc k) h =
    let here = h a (omega arith) (omega arith) in
    let rest = free_count_same t u (a + 1) k (λ m lo hi. h m (omega arith) (omega arith)) in
    rw (here, rest) refl

pub free_count_upper : (t : Table) (a k : ℕ) → free_count t a k ≤ k
free_count_upper t a zero = omega arith
free_count_upper t a (suc k) = elim (Bool-cases (is_free (t a))) [
  | inl q ↦ rw q (omega (arith, free_count_upper t (a + 1) k))
  | inr q ↦ rw q (omega (arith, free_count_upper t (a + 1) k))
]

-- One entry of the range is no longer free.
pub free_count_taken :
    (t u : Table) (n a k : ℕ)
    → a ≤ n
    → n < a + k
    → IsFree t n
    → is_free (u n) ≡ false
    → ((m : ℕ) → a ≤ m → m < a + k → m ≢ n → is_free (u m) ≡ is_free (t m))
    → free_count t a k ≡ suc (free_count u a k)
free_count_taken t u n a zero lo hi f g h = absurd (omega arith)
free_count_taken t u n a (suc k) lo hi f g h = elim (Bool-cases (n == a)) [
  | inl q ↦
      let here = (==_iff n a).0 q in
      let rest =
        free_count_same t u (a + 1) k
          (λ m l r. h m (omega arith) (omega arith) (λ e. omega arith)) in
      let old : is_free (t a) ≡ true = ap (λ x. is_free (t x)) (sym here) ∙ f in
      let new : is_free (u a) ≡ false = ap (λ x. is_free (u x)) (sym here) ∙ g in
      rw (old, new, rest) (omega arith)
  | inr q ↦
      let apart : a ≢ n = (λ e. ground arith) in
      let rest =
        free_count_taken t u n (a + 1) k (ground arith) (omega arith) f g
          (λ m l r ne. h m (omega arith) (omega arith) ne) in
      rw (h a (omega arith) (omega arith) apart, rest) (omega arith)
]

-- `t` with entry `n` free.
abbrev freed_at : Table → ℕ → Table
freed_at t n m = if m == n then free else t m

still_used :
    (n : ℕ) (t : Table) (ns : List ℕ)
    → Outside n ns
    → All (λ m. is_free (t m) ≡ false) ns
    → All (λ m. is_free (freed_at t n m) ≡ false) ns
still_used n t [] out used = tt
still_used n t (m ∷ ms) (o, os) (h, hs) = (ground arith, still_used n t ms os hs)

-- The entries of a list in the range are free now and were not.
pub free_count_freed :
    (ns : List ℕ) (t u : Table) (a k : ℕ)
    → Distinct ns
    → All (λ n. (a ≤ n) × (n < a + k)) ns
    → All (λ n. is_free (t n) ≡ false) ns
    → All (λ n. IsFree u n) ns
    → ((m : ℕ) → a ≤ m → m < a + k → Outside m ns → is_free (u m) ≡ is_free (t m))
    → free_count u a k ≡ free_count t a k + length ns
free_count_freed [] t u a k distinct within used now h =
    free_count_same t u a k (λ m lo hi. h m lo hi tt) ∙ omega arith
free_count_freed (n ∷ ns) t u a k (out, distinct) ((lo, hi), within) (used, used') (now, now') h =
    let mid = freed_at t n in
    let at_n : is_free (mid n) ≡ true = ground arith in
    let one : free_count mid a k ≡ suc (free_count t a k) =
      free_count_taken mid t n a k lo hi at_n used (λ m _ _ ne. ground arith) in
    let rest =
      free_count_freed ns mid u a k distinct within (still_used n t ns out used') now'
        (λ m l r os. elsewhere m l r os (m == n) refl) in
    omega (arith, one, rest)
  where
    elsewhere :
        (m : ℕ)
        → a ≤ m
        → m < a + k
        → Outside m ns
        → (b : Bool) → (m == n) ≡ b
        → is_free (u m) ≡ is_free (freed_at t n m)
    elsewhere m l r os true q = rw q (rw ((==_iff m n).0 q) now)
    elsewhere m l r os false q = rw q (h m l r ((λ e. ground arith), os))
