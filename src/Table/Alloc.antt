-- ===== src/Table/Alloc.antt =====
-- Allocation and counting over any layout that keeps the contract of the table.
use embedded_fatfs.Base.{ℕ, ◌+◌, ◌%◌, ◌^◌, ◌≤◌, ◌<◌, ◌≡◌, ◌≢◌, Option, none, some, arith}
use embedded_fatfs.Base.{ltb, if◌then◌else◌, Bool-cases, inl, inr, ltb→lt}
use embedded_fatfs.Base.{refl, sym, ◌∙◌, ap}
use embedded_fatfs.Io.{Storage, Run, Error, not_enough_space, throw}
use embedded_fatfs.Io.Ends.{Ends, Returns, returns, fails, bind, bind-Ends, mono, or_else-Ends}
use embedded_fatfs.Io.Laws.{IsStorage}
use embedded_fatfs.FatType.{FatType}
use embedded_fatfs.Table.{start_from, fat_trait, write_fat}
use embedded_fatfs.Table.{find_free_cluster, search_twice, link_from, alloc_cluster}
use embedded_fatfs.Table.{count_free_clusters}
use embedded_fatfs.Table.Value.{data_value, end_of_chain}
use embedded_fatfs.Table.Contract.{Table, IsFree, NoFree, free_count, Updated, IsFat}
use embedded_fatfs.Table.Contract.{NoFree-append}

-- The table after cluster `n` is taken and, where there is a previous cluster, linked behind it.
pub record Allocated (entries : ℕ) (t : Table) (prev : Option ℕ) (n : ℕ) (u : Table) : Type 0 where
  pub taken : ((p : ℕ) → prev ≡ some p → p ≢ n) → u n ≡ end_of_chain
  pub linked : (p : ℕ) → prev ≡ some p → u p ≡ data_value n
  pub elsewhere : (m : ℕ) → m < entries → m ≢ n → ((p : ℕ) → prev ≡ some p → m ≢ p) → u m ≡ t m

module _ {st : Storage} (laws : IsStorage st) (fat_type : FatType) {entries : ℕ}
    {table : (ℕ → ℕ) → Table} (fat : IsFat laws (fat_trait st fat_type) entries table)
    (c : ℕ → ℕ) where
  open st use {State}
  open laws use {content}

  -- The result of a search among the clusters of the volume: some free cluster, or none is free.
  abbrev pub SomeFree : ℕ → Run State (Error st.Cause) ℕ → Type 0
  SomeFree b r =
      Ends (λ n u. (2 ≤ n) × (n < b) × IsFree (table c) n × (content u ≡ c))
        (λ e u. (e ≡ not_enough_space) × NoFree (table c) 2 b × (content u ≡ c)) r

  -- Two searches, the second over what the first passed over, look at every cluster.
  search_twice_in :
      (a b : ℕ) {s : State}
      → content s ≡ c
      → 2 ≤ a
      → a < b
      → b ≤ entries
      → SomeFree b (search_twice st fat_type a b s)
  unfolding search_twice find_free_cluster
  search_twice_in a b e lo hi room =
      or_else-Ends (fat.find_first c a b e hi room)
        (λ n u (above, below, f, _, k). (omega arith, below, f, k))
        (λ err u (q, none_above, k). again q none_above k)
    where
      again :
          {err : Error st.Cause} {u : State}
          → err ≡ not_enough_space
          → NoFree (table c) a b
          → content u ≡ c
          → SomeFree b ((if ltb 2 a then find_free_cluster st fat_type 2 a else throw err) u)
      again {err} {u} q none_above k = elim (Bool-cases (ltb 2 a)) [
        | inl more ↦ rw more (
            mono (fat.find_first c 2 a k (ltb→lt 2 a more) (omega arith))
              (λ n u (above, below, f, _, k). (above, omega arith, f, k))
              (λ err u (q, none_below, k).
                (q, NoFree-append (table c) 2 a b none_below none_above, k)))
        | inr at_two ↦ rw at_two (fails (q, (λ m l h. none_above m (ground arith) h), k))
      ]

  start_from_bounds :
      (hint : Option ℕ) (b : ℕ)
      → 2 < b
      → ((h : ℕ) → hint ≡ some h → 2 ≤ h)
      → (2 ≤ start_from hint b) × (start_from hint b < b)
  start_from_bounds none b hb usable = (omega arith, omega arith)
  start_from_bounds (some h) b hb usable = ground (arith, usable h refl)

  link_from_in :
      (prev : Option ℕ) (n : ℕ) (d : ℕ → ℕ) {s : State}
      → content s ≡ d
      → Updated entries (table c) n end_of_chain (table d)
      → 0 < n
      → n < entries
      → ((p : ℕ) → prev ≡ some p → p < entries)
      → Returns
          (λ _ u. Allocated entries (table c) prev n (table (content u)))
          (link_from st fat_type prev n s)
  unfolding link_from write_fat
  link_from_in none n d e up pos hn hp = returns (
      rw e (record {
        taken = λ _. up.at;
        linked = λ p q. cc;
        elsewhere = λ m hm ne _. up.elsewhere m hm ne;
      }))
  link_from_in (some p) n d e up pos hn hp =
      mono (fat.set_entry d p (data_value n) e (hp p refl) (pos, hn))
        (λ _ u l. record {
          taken = λ apart. l.elsewhere n hn (λ q. apart p refl (sym q)) ∙ up.at;
          linked = λ q h. cc l.at;
          elsewhere = λ m hm ne out. l.elsewhere m hm (out p refl) ∙ up.elsewhere m hm ne;
        })
        (λ _ _ b. b)

  -- For a volume with at least one cluster whose entries lie in a table of any layout that keeps
  -- the contract, a previous cluster within the entries and a hint of 2 or more: allocation ends
  -- with a cluster of the volume that was free, is now the end of a chain (unless it is itself
  -- the previous cluster) and is linked from the previous cluster, every other entry being what
  -- it was; or it ends with the error not_enough_space, the content unchanged, and then no
  -- cluster of the volume is free.
  pub alloc_cluster_lem :
      (prev hint : Option ℕ) (total : ℕ) {s : State}
      → content s ≡ c
      → 0 < total
      → total + 2 ≤ entries
      → ((p : ℕ) → prev ≡ some p → p < entries)
      → ((h : ℕ) → hint ≡ some h → 2 ≤ h)
      → Ends
          (λ n u.
            (2 ≤ n)
            × (n < total + 2)
            × IsFree (table c) n
            × Allocated entries (table c) prev n (table (content u)))
          (λ e u. (e ≡ not_enough_space) × NoFree (table c) 2 (total + 2) × (content u ≡ c))
          (alloc_cluster st fat_type prev hint total s)
  unfolding alloc_cluster write_fat
  alloc_cluster_lem prev hint total e some_cluster room prev_in usable =
      let nowrap : (total + 2) % 2 ^ 32 ≡ total + 2 = omega (arith, fat.fits) in
      let (lo, hi) = start_from_bounds hint (total + 2) (omega arith) usable in
      rw nowrap (
        bind-Ends (search_twice_in (start_from hint (total + 2)) (total + 2) e lo hi room)
          (λ n u (above, below, f, k).
            bind (fat.set_entry c n end_of_chain k (omega arith) tt) λ _ v up.
              bind (link_from_in prev n (content v) refl up (omega arith) (omega arith) prev_in)
                λ _ w done. returns (above, below, f, done))
          (λ err u q. q))

  -- For a volume whose clusters have their entries in a table of any layout that keeps the
  -- contract, count_free_clusters returns the number of free entries among the clusters of the
  -- volume and keeps the content.
  pub count_free_clusters_lem :
      (total : ℕ) {s : State}
      → content s ≡ c
      → total + 2 ≤ entries
      → Returns
          (λ k u. (k ≡ free_count (table c) 2 total) × (content u ≡ c))
          (count_free_clusters st fat_type total s)
  unfolding count_free_clusters
  count_free_clusters_lem total e room =
      let nowrap : (total + 2) % 2 ^ 32 ≡ total + 2 = omega (arith, fat.fits) in
      rw (nowrap, count_free_clusters)
        (mono (fat.count_all c (total + 2) e (omega arith) room)
          (λ k u (q, same). (q ∙ ap (free_count (table c) 2) (omega arith), same)) (λ _ _ b. b))
