-- ===== src/Chain/Spec.antt =====
-- Cluster chains: which clusters a table links together, and what stays of a chain when an entry
-- outside of it changes.
use embedded_fatfs.Base.{ℕ, ◌<◌, ◌≡◌, ◌≢◌, ◌∙◌, List, [], ◌∷◌, All, sym, ap}
use embedded_fatfs.Table.Value.{FatValue, free, data_value, end_of_chain, is_free}
use embedded_fatfs.Table.Contract.{Table, IsFree, Updated}

-- From `n` the table leads through the clusters of the list to an end of chain.
pub data Chain (t : Table) : ℕ → List ℕ → Type 0 where
  last : {n : ℕ} → t n ≡ end_of_chain → Chain t n (n ∷ [])
  link : {n m : ℕ} {ms : List ℕ} → t n ≡ data_value m → Chain t m ms → Chain t n (n ∷ ms)

abbrev pub Outside : ℕ → List ℕ → Type 0
Outside n = All (λ m. n ≢ m)

abbrev pub Distinct : List ℕ → Type 0
Distinct [] = Unit
Distinct (n ∷ ns) = Outside n ns × Distinct ns

abbrev pub Within : ℕ → List ℕ → Type 0
Within entries = All (λ n. n < entries)

-- The first cluster of the list ends a chain, those behind it are free, and the other entries are
-- those of `t`.
abbrev pub Truncated : ℕ → Table → List ℕ → Table → Type 0
Truncated entries t [] u = ⊥
Truncated entries t (n ∷ ms) u =
    (u n ≡ end_of_chain)
    × All (λ m. u m ≡ free) ms
    × ((m : ℕ) → m < entries → Outside m (n ∷ ms) → u m ≡ t m)

-- Every cluster of the list is free, and the other entries are those of `t`.
pub record Freed (entries : ℕ) (t : Table) (ns : List ℕ) (u : Table) : Type 0 where
  pub released : All (λ n. u n ≡ free) ns
  pub elsewhere : (m : ℕ) → m < entries → Outside m ns → u m ≡ t m

-- A chain is one of any table that agrees on its clusters.
pub Chain-agree :
    {t u : Table} {n : ℕ} {ns : List ℕ} → Chain t n ns → All (λ m. u m ≡ t m) ns → Chain u n ns
Chain-agree (last e) (h, _) = last (h ∙ e)
Chain-agree (link e rest) (h, hs) = link (h ∙ e) (Chain-agree rest hs)

-- No cluster of a chain is free.
pub not_in-Chain :
    {t : Table} (n : ℕ) {first : ℕ} {ns : List ℕ} → Chain t first ns → IsFree t n → Outside n ns
not_in-Chain {t} n (last e) f =
    (λ same. cc (sym f ∙ ap (λ x. is_free (t x)) same ∙ ap is_free e), tt)
not_in-Chain {t} n (link e rest) f =
    (λ same. cc (sym f ∙ ap (λ x. is_free (t x)) same ∙ ap is_free e), not_in-Chain n rest f)

-- The tail of a chain after its head is changed.
pub tail_agrees :
    {entries n : ℕ} {v : FatValue} {t u : Table} (ms : List ℕ)
    → Updated entries t n v u
    → Within entries ms
    → Outside n ms
    → All (λ m. u m ≡ t m) ms
tail_agrees [] up inside out = tt
tail_agrees (m ∷ ms) up (h, hs) (o, os) =
    (up.elsewhere m h (λ q. o (sym q)), tail_agrees ms up hs os)

-- Freeing the head and then the tail frees the whole chain.
pub Freed-cons :
    {entries n : ℕ} {t u w : Table} {ms : List ℕ}
    → Updated entries t n free u
    → n < entries
    → Outside n ms
    → Freed entries u ms w
    → Freed entries t (n ∷ ms) w
Freed-cons up h out f = record {
  released = (f.elsewhere _ h out ∙ up.at, f.released);
  elsewhere = λ m hm (ne, os). f.elsewhere m hm os ∙ up.elsewhere m hm ne;
}
