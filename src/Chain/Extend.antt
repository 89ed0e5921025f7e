-- ===== src/Chain/Extend.antt =====
-- Allocation behind the last cluster of a chain: `alloc_cluster` as the file layer calls it.
use embedded_fatfs.Base.{
  ℕ, ◌+◌, ◌≤◌, ◌<◌, ◌≡◌, ◌≢◌, ◌∙◌, List, [], ◌∷◌, ◌++◌, All, Option, some, arith,
}
use embedded_fatfs.Base.{refl, sym, subst}
use embedded_fatfs.Io.{Storage, not_enough_space}
use embedded_fatfs.Io.Ends.{Ends, mono}
use embedded_fatfs.Io.Laws.{IsStorage}
use embedded_fatfs.FatType.{FatType}
use embedded_fatfs.Table.{fat_trait, alloc_cluster}
use embedded_fatfs.Table.Value.{data_value, end_of_chain}
use embedded_fatfs.Table.Contract.{Table, IsFat, NoFree}
use embedded_fatfs.Table.Alloc.{Allocated, alloc_cluster_lem}
use embedded_fatfs.Chain.Spec.{Chain, last, link, Outside, Distinct, Within, not_in-Chain}

pub some-injective : (a b : ℕ) → some a ≡ some b → a ≡ b
some-injective a b h = ground arith

-- The last cluster of a chain.
pub end_of : {t : Table} {n : ℕ} {ns : List ℕ} → Chain t n ns → ℕ
end_of (last {n} e) = n
end_of (link e rest) = end_of rest

end_apart :
    {t : Table} {n : ℕ} {ns : List ℕ} (x : ℕ) (h : Chain t n ns) → Outside x ns → x ≢ end_of h
unfolding end_of
end_apart x (last e) (o, _) = o
end_apart x (link e rest) (_, os) = end_apart x rest os

end-Within :
    {entries : ℕ} {t : Table} {n : ℕ} {ns : List ℕ} (h : Chain t n ns)
    → Within entries ns
    → end_of h < entries
unfolding end_of
end-Within (last e) (o, _) = o
end-Within (link e rest) (_, os) = end-Within rest os

-- A chain whose last cluster is linked on to a new end is longer by that cluster.
Chain-snoc :
    {t u : Table} {n m : ℕ} {ns : List ℕ} (h : Chain t n ns)
    → Distinct ns
    → u (end_of h) ≡ data_value m
    → u m ≡ end_of_chain
    → All (λ x. x ≢ end_of h → u x ≡ t x) ns
    → Chain u n (ns ++ m ∷ [])
unfolding end_of
Chain-snoc (last e) distinct linked taken same = link linked (last taken)
Chain-snoc (link e rest) (out, ds) linked taken (head, tail) =
    link (head (end_apart _ rest out) ∙ e) (Chain-snoc rest ds linked taken tail)

kept :
    {entries n p : ℕ} {t u : Table} (ns : List ℕ)
    → Allocated entries t (some p) n u
    → Within entries ns
    → Outside n ns
    → All (λ x. x ≢ p → u x ≡ t x) ns
kept [] a inside out = tt
kept {p} (x ∷ xs) a (h, hs) (o, os) = (
  λ apart. a.elsewhere x h (λ q. o (sym q)) (λ q r same. apart (some-injective _ _ (cc r))),
  kept xs a hs os,
)

module _ {st : Storage} (laws : IsStorage st) (fat_type : FatType) {entries : ℕ}
    {table : (ℕ → ℕ) → Table} (fat : IsFat laws (fat_trait st fat_type) entries table)
    (c : ℕ → ℕ) where
  open st use {State}
  open laws use {content}

  -- For a chain without repeated clusters within the entries of a table of any layout that keeps
  -- the contract, and a volume and hint as in alloc_cluster_lem: allocating with the last
  -- cluster of the chain as the previous one either makes the chain longer by one cluster that
  -- was not in it, or fails with not_enough_space, the content unchanged, and then no cluster of
  -- the volume is free.
  pub alloc_cluster-Chain :
      {first : ℕ} {ns : List ℕ} (chain : Chain (table c) first ns) (hint : Option ℕ) (total : ℕ)
      {s : State}
      → Within entries ns
      → Distinct ns
      → content s ≡ c
      → 0 < total
      → total + 2 ≤ entries
      → ((h : ℕ) → hint ≡ some h → 2 ≤ h)
      → Ends
          (λ n u. Outside n ns × Chain (table (content u)) first (ns ++ n ∷ []))
          (λ e u. (e ≡ not_enough_space) × NoFree (table c) 2 (total + 2) × (content u ≡ c))
          (alloc_cluster st fat_type (some (end_of chain)) hint total s)
  alloc_cluster-Chain {ns} chain hint total inside distinct e some_cluster room usable =
      mono
        (alloc_cluster_lem laws fat_type fat c (some (end_of chain)) hint total e some_cluster room
          (λ p q. subst (λ z. z < entries) (some-injective _ _ q) (end-Within chain inside)) usable)
        (λ n u (_, _, unused, a).
          let out = not_in-Chain n chain unused in
          (
            out,
            Chain-snoc chain distinct (a.linked (end_of chain) refl)
                (a.taken (λ p q r. end_apart n chain out (sym r ∙ sym (some-injective _ _ q))))
                (kept ns a inside out),
          ))
        (λ _ _ z. z)
