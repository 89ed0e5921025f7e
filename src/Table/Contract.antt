-- ===== src/Table/Contract.antt =====
-- The contract of a layout of the file allocation table: a table of entries with numbers below
-- `entries`, and what each operation of the trait does to it.
use embedded_fatfs.Base.{
  ℕ, zero, suc, ◌+◌, ◌-◌, ◌≤◌, ◌<◌, ◌^◌, ◌≡◌, ◌≢◌, true, false, if◌then◌else◌,
}
use embedded_fatfs.Base.{
  Bool, ltb, ltb→lt, ltb_false→le, ◌==◌, ==_iff, Bool-cases, inl, inr, refl, arith,
}
use embedded_fatfs.Io.{Storage, Run, ok, err, Error, not_enough_space}
use embedded_fatfs.Io.Ends.{Ends, Returns, returns, fails, mono}
use embedded_fatfs.Io.Laws.{IsStorage}
use embedded_fatfs.Table.Value.{FatValue, free, data_value, bad, end_of_chain, is_free, FatTrait}
use embedded_fatfs.Table.Value.{reserved_fat_entries}

abbrev pub Table : Type 0
Table = ℕ → FatValue

abbrev pub IsFree : Table → ℕ → Type 0
IsFree t n = is_free (t n) ≡ true

-- No entry from `a` on and below `b` is free.
abbrev pub NoFree : Table → ℕ → ℕ → Type 0
NoFree t a b = (m : ℕ) → a ≤ m → m < b → is_free (t m) ≡ false

-- The count of free entries among the `k` from `a` on.
abbrev pub free_count : Table → ℕ → ℕ → ℕ
free_count t a zero = 0
free_count t a (suc k) = (if is_free (t a) then 1 else 0) + free_count t (a + 1) k

NoFree-cons : (t : Table) (a b : ℕ) → is_free (t a) ≡ false → NoFree t (a + 1) b → NoFree t a b
NoFree-cons t a b h rest m lo hi = elim (Bool-cases (m == a)) [
  | inl here ↦ rw ((==_iff m a).0 here) h
  | inr later ↦ rest m (ground arith) hi
]

pub NoFree-append : (t : Table) (a b d : ℕ) → NoFree t a b → NoFree t b d → NoFree t a d
NoFree-append t a b d below above m lo hi = elim (Bool-cases (ltb m b)) [
  | inl first ↦ below m lo (ltb→lt m b first)
  | inr second ↦ above m (ltb_false→le m b second) hi
]

-- One round of a loop that counts.
pub free_count-step :
    (t : Table) (a count k : ℕ) (b : Bool)
    → is_free (t a) ≡ b
    → (if b then count + 1 else count) + free_count t (a + 1) k ≡ count + free_count t a (suc k)
free_count-step t a count k true h = rw h (omega arith)
free_count-step t a count k false h = rw h (omega arith)

-- `u` is `t` with the value `v` in entry `n`, as far as there are entries.
pub record Updated (entries : ℕ) (t : Table) (n : ℕ) (v : FatValue) (u : Table) : Type 0 where
  pub at : u n ≡ v
  pub elsewhere : (m : ℕ) → m < entries → m ≢ n → u m ≡ t m

-- A cluster number that an entry can hold without being taken for another value.
abbrev pub Storable : ℕ → FatValue → Type 0
Storable entries free = Unit
Storable entries (data_value n) = (0 < n) × (n < entries)
Storable entries bad = Unit
Storable entries end_of_chain = Unit

pub Storable-mono : (e f : ℕ) (v : FatValue) → e ≤ f → Storable e v → Storable f v
Storable-mono e f free le h = h
Storable-mono e f (data_value n) le h = omega arith
Storable-mono e f bad le h = h
Storable-mono e f end_of_chain le h = h

-- The result of a search for a free entry from `a` on and below `b`, which writes nothing.
abbrev pub FirstFree :
    {st : Storage} (laws : IsStorage st) (c : ℕ → ℕ) (t : Table) (a b : ℕ)
    → Run st.State (Error st.Cause) ℕ
    → Type 0
FirstFree laws c t a b r =
    Ends (λ n u. (a ≤ n) × (n < b) × IsFree t n × NoFree t a n × (laws.content u ≡ c))
      (λ e u. (e ≡ not_enough_space) × NoFree t a b × (laws.content u ≡ c)) r

module _ {st : Storage} (laws : IsStorage st) (c : ℕ → ℕ) (t : Table) (a b : ℕ) where
  pub FirstFree-here :
      {s : st.State} → a < b → IsFree t a → laws.content s ≡ c → FirstFree laws c t a b (ok a s)
  FirstFree-here h f e = returns (omega arith, h, f, λ m lo hi. absurd (omega arith), e)

  pub FirstFree-none :
      {s : st.State} → b ≤ a → laws.content s ≡ c → FirstFree laws c t a b (err not_enough_space s)
  FirstFree-none h e = fails (refl, λ m lo hi. absurd (omega arith), e)

  pub FirstFree-next :
      {r : Run st.State (Error st.Cause) ℕ}
      → is_free (t a) ≡ false
      → FirstFree laws c t (a + 1) b r
      → FirstFree laws c t a b r
  FirstFree-next used rest =
      mono rest
        (λ n u (lo, hi, f, none_below, e).
          (omega arith, hi, f, NoFree-cons t a n used none_below, e))
        (λ e u (q, none_there, k). (q, NoFree-cons t a b used none_there, k))

module _ {S X : Type 0} {t : S → Type 0} where
  -- The count that a loop gives when it starts from zero.
  pub Returns-zero-add :
      {r : Run S X ℕ} (k : ℕ)
      → Returns (λ n s. (n ≡ 0 + k) × t s) r
      → Returns (λ n s. (n ≡ k) × t s) r
  Returns-zero-add k h = mono h (λ n s (p, q). (omega arith, q)) (λ _ _ b. b)

-- `fat` reads and writes the table of `entries` entries that `table` finds in a content.
pub record IsFat {st : Storage} (laws : IsStorage st) (fat : FatTrait st) (entries : ℕ)
    (table : (ℕ → ℕ) → Table) : Type 0 where
  pub fits : entries < 2 ^ 28
  pub get_entry :
      (c : ℕ → ℕ) (n : ℕ) {s : st.State}
      → laws.content s ≡ c
      → n < entries
      → Returns (λ v t. (v ≡ table c n) × (laws.content t ≡ c)) (fat.get n s)
  pub set_entry :
      (c : ℕ → ℕ) (n : ℕ) (v : FatValue) {s : st.State}
      → laws.content s ≡ c
      → n < entries
      → Storable entries v
      → Returns (λ _ t. Updated entries (table c) n v (table (laws.content t))) (fat.set n v s)
  pub find_first :
      (c : ℕ → ℕ) (a b : ℕ) {s : st.State}
      → laws.content s ≡ c
      → a < b
      → b ≤ entries
      → FirstFree laws c (table c) a b (fat.find_free a b s)
  pub count_all :
      (c : ℕ → ℕ) (b : ℕ) {s : st.State}
      → laws.content s ≡ c
      → reserved_fat_entries ≤ b
      → b ≤ entries
      → Returns
          (λ k t.
            (k ≡ free_count (table c) reserved_fat_entries (b - reserved_fat_entries))
            × (laws.content t ≡ c))
          (fat.count_free b s)
