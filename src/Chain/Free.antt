-- ===== src/Chain/Free.antt =====
-- `free` and `truncate` of the iterator, on a chain without repeated clusters, over any layout that
-- keeps the contract of the table.
use embedded_fatfs.Base.{
  ℕ, zero, suc, ◌+◌, ◌-◌, ◌%◌, ◌^◌, ◌≤◌, ◌<◌, ◌≡◌, refl, ap, sym, subst, ◌∙◌, List, arith,
}
use embedded_fatfs.Base.{length, Option, none, some, false}
use embedded_fatfs.Io.{Storage}
use embedded_fatfs.Io.Ends.{Returns, returns, bind, mono, attempt-Returns}
use embedded_fatfs.Io.Laws.{IsStorage}
use embedded_fatfs.FatType.{FatType}
use embedded_fatfs.Table.{next_of, fat_trait, read_fat, write_fat, get_next_cluster}
use embedded_fatfs.Table.Value.{FatValue, free, end_of_chain}
use embedded_fatfs.Table.Contract.{Table, IsFat}
use embedded_fatfs.Chain.{ClusterIterator, new, next_from, next, free_loop, free_chain}
use embedded_fatfs.Chain.{Item, item_of, truncate_from, truncate}
use embedded_fatfs.Chain.Spec.{Chain, last, link, Distinct, Within, Freed, Truncated, Chain-agree}
use embedded_fatfs.Chain.Spec.{tail_agrees, Freed-cons}

-- The iterator behind a step that met no error.
abbrev pub at : Option ℕ → ClusterIterator
at o = record { cluster = o; failed = false }

module _ {st : Storage} (laws : IsStorage st) (fat_type : FatType) {entries : ℕ}
    {table : (ℕ → ℕ) → Table} (fat : IsFat laws (fat_trait st fat_type) entries table) where
  open st use {State}
  open laws use {content}

  abbrev pub step : Option ℕ → Item st × ClusterIterator
  step o = (item_of st o, at o)

  pub next_in :
      (c : ℕ → ℕ) (n : ℕ) {s : State}
      → content s ≡ c
      → n < entries
      → Returns
          (λ r u. (r ≡ step (next_of (table c n))) × (content u ≡ c))
          (next st fat_type (new n) s)
  unfolding next next_from get_next_cluster read_fat
  next_in c n e h =
      bind
        (attempt-Returns (
          bind {P' = λ o u. (o ≡ next_of (table c n)) × (content u ≡ c)} (fat.get_entry c n e h)
            λ v u (q, g). returns (ap next_of q, g)))
        λ r u (o, q, (p, g)). rw q (returns (ap step p, g))

  after :
      {P : ℕ → State → Type 0} {r : Item st × ClusterIterator} (fuel k : ℕ) (o : Option ℕ)
      (w : State)
      → r ≡ step o
      → Returns P (free_loop st fat_type fuel (at o) o k w)
      → Returns P (free_loop st fat_type fuel r.1 r.1.cluster k w)
  after {P} fuel k o w q h =
      subst (λ x. Returns P (free_loop st fat_type fuel x.1 x.1.cluster k w)) (sym q) h

  -- What the next step gives, from the entry.
  step_of :
      {c : ℕ → ℕ} {n : ℕ} {v : FatValue} {r : Item st × ClusterIterator}
      → r ≡ step (next_of (table c n))
      → table c n ≡ v
      → r ≡ step (next_of v)
  step_of q e = q ∙ ap (λ v. step (next_of v)) e

  free_loop_end :
      {P : ℕ → State → Type 0} (fuel k : ℕ) (w : State)
      → P k w
      → Returns P (free_loop st fat_type fuel (at none) none k w)
  unfolding free_loop
  free_loop_end zero k w h = returns h
  free_loop_end (suc fuel) k w h = returns h

  free_loop_in :
      (fuel k : ℕ) {n : ℕ} {ns : List ℕ} (c : ℕ → ℕ) {s : State}
      → Chain (table c) n ns
      → content s ≡ c
      → Within entries ns
      → Distinct ns
      → length ns < suc fuel
      → k < 2 ^ 32
      → Returns
          (λ r u. (r ≡ (k + length ns) % 2 ^ 32) × Freed entries (table c) ns (table (content u)))
          (free_loop st fat_type fuel (new n) (some n) k s)
  unfolding free_loop write_fat
  free_loop_in zero k c (last e) g inside distinct f hk = absurd (omega arith)
  free_loop_in zero k c (link e rest) g inside distinct f hk = absurd (omega arith)
  free_loop_in (suc fuel) k c (last {n} e) g (h, _) distinct f hk =
      bind (next_in c n g h) λ r u (q, g'). bind (fat.set_entry c n free g' h tt) λ _ w up.
        after fuel ((k + 1) % 2 ^ 32) none w (step_of q e) (
          free_loop_end fuel ((k + 1) % 2 ^ 32) w
            (refl, Freed-cons up h tt (record { released = tt; elsewhere = λ m _ _. refl })))
  free_loop_in (suc fuel) k c (link {n} {m} {ms} e rest) g (h, hs) (out, ds) f hk =
      bind (next_in c n g h) λ r u (q, g'). bind (fat.set_entry c n free g' h tt) λ _ w up.
        after fuel ((k + 1) % 2 ^ 32) (some m) w (step_of q e) (
          mono
            (free_loop_in fuel ((k + 1) % 2 ^ 32) (content w)
              (Chain-agree rest (tail_agrees ms up hs out)) refl hs ds (omega arith) (omega arith))
            (λ r v (count, freed). (count ∙ omega arith, Freed-cons up h out freed)) (λ _ _ b. b))

  -- Over any layout that keeps the contract of the table, freeing a chain that has no repeated
  -- clusters, lies within the entries of the table and is no longer than the fuel returns the
  -- number of its clusters modulo 2 ^ 32; behind it every cluster of the chain is free and every
  -- other entry of the table is what it was.
  pub free_chain_lem :
      {n : ℕ} {ns : List ℕ} (c : ℕ → ℕ) {s : State} (fuel : ℕ)
      → Chain (table c) n ns
      → content s ≡ c
      → Within entries ns
      → Distinct ns
      → length ns ≤ fuel
      → Returns
          (λ r u. (r ≡ length ns % 2 ^ 32) × Freed entries (table c) ns (table (content u)))
          (free_chain st fat_type fuel (new n) s)
  unfolding free_chain
  free_chain_lem c fuel chain e inside distinct f =
      mono (free_loop_in fuel 0 c chain e inside distinct (omega arith) (omega arith))
        (λ r u (count, freed). (count ∙ omega arith, freed)) (λ _ _ b. b)

  -- Over any layout that keeps the contract of the table, truncating at the first cluster of a
  -- chain that has no repeated clusters, lies within the entries of the table and has at most
  -- one cluster more than the fuel returns the number of the clusters behind the first modulo 2
  -- ^ 32; behind it the first cluster ends a chain, those behind it are free and every other
  -- entry is what it was.
  pub truncate_lem :
      {n : ℕ} {ns : List ℕ} (c : ℕ → ℕ) {s : State} (fuel : ℕ)
      → Chain (table c) n ns
      → content s ≡ c
      → Within entries ns
      → Distinct ns
      → length ns ≤ suc fuel
      → Returns
          (λ r u.
            (r ≡ (length ns - 1) % 2 ^ 32) × Truncated entries (table c) ns (table (content u)))
          (truncate st fat_type fuel (new n) s)
  unfolding truncate truncate_from free_chain write_fat
  truncate_lem c fuel (last {n} e) g (h, _) distinct f = bind (next_in c n g h) λ r u (q, g').
      bind (fat.set_entry c n end_of_chain g' h tt) λ _ w up.
        after fuel 0 none w (step_of q e)
          (free_loop_end fuel 0 w (refl, (up.at, tt, λ m hm (ne, _). up.elsewhere m hm ne)))
  truncate_lem c fuel (link {n} {m} {ms} e rest) g (h, hs) (out, ds) f =
      bind (next_in c n g h) λ r u (q, g'). bind (fat.set_entry c n end_of_chain g' h tt) λ _ w up.
        after fuel 0 (some m) w (step_of q e) (
          mono
            (free_loop_in fuel 0 (content w) (Chain-agree rest (tail_agrees ms up hs out)) refl hs
              ds (omega arith) (omega arith))
            (λ r v (count, freed). (
              count ∙ omega arith,
              (
                freed.elsewhere n h out ∙ up.at,
                freed.released,
                λ m hm (ne, os). freed.elsewhere m hm os ∙ up.elsewhere m hm ne,
              ),
            ))
            (λ _ _ b. b))
