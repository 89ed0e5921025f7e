-- ===== src/FileSystem/Frees.antt =====
-- Freeing, truncating and counting on a mounted volume.
use embedded_fatfs.Base.{
  ℕ, suc, ◌+◌, ◌-◌, ◌%◌, ◌^◌, ◌≤◌, ◌<◌, ◌≡◌, Bool, true, false, arith, refl, sym, ap, ◌∙◌, Option,
  none, some, subst, ◌==◌, ==_iff,
}
use embedded_fatfs.Base.{List, [], ◌∷◌, length, All}
use embedded_fatfs.Io.{Storage}
use embedded_fatfs.Io.Provided.{Provided, IsProvided}
use embedded_fatfs.Io.Ends.{Returns, returns, bind}
use embedded_fatfs.Io.Laws.{IsStorage}
use embedded_fatfs.DiskSlice.{fat_slice}
use embedded_fatfs.Table.{fat_trait}
use embedded_fatfs.Table.Value.{free, is_free}
use embedded_fatfs.Table.Contract.{Table, IsFree, free_count, IsFat}
use embedded_fatfs.Table.Alloc.{count_free_clusters_lem}
use embedded_fatfs.Table.Counting.{free_count_upper, free_count_freed}
use embedded_fatfs.Chain.Spec.{Chain, last, link, Distinct, Within, Outside, Freed, Truncated}
use embedded_fatfs.Chain.Free.{free_chain_lem, truncate_lem}
use embedded_fatfs.FileSystem.{FileSystem, Flagged, Mounted}
use embedded_fatfs.FileSystem.Clusters.{
  volume, free_cluster_chain, truncate_cluster_chain, stats, recalc_free_clusters, FileSystemStats,
  known_or_counted,
}
use embedded_fatfs.FileSystem.Flags.{IsWhole}
use embedded_fatfs.FileSystem.Region.{IsRegion, view}
use embedded_fatfs.FileSystem.Volume.{region_laws}
use embedded_fatfs.FsInfo.{map_free_clusters}
use embedded_fatfs.FileSystem.Counts.{
  CountIs, map_count-CountIs, beside_info-Returns, drop_offset-Ends, table_on, Counted,
}

-- The clusters of a chain are in use.
used-Chain : {t : Table} {n : ℕ} {ns : List ℕ} → Chain t n ns → All (λ m. is_free (t m) ≡ false) ns
used-Chain (last e) = (ap is_free e, tt)
used-Chain (link e rest) = (ap is_free e, used-Chain rest)

-- The clusters of a list are clusters of a volume of `total`.
abbrev pub InVolume : ℕ → List ℕ → Type 0
InVolume total = All (λ n. (2 ≤ n) × (n < total + 2))

in_range : (total : ℕ) (ns : List ℕ) → InVolume total ns → All (λ n. (2 ≤ n) × (n < 2 + total)) ns
in_range total [] h = tt
in_range total (n ∷ ns) ((lo, hi), hs) = ((lo, omega arith), in_range total ns hs)

InVolume-Within :
    (total entries : ℕ) (ns : List ℕ) → total + 2 ≤ entries → InVolume total ns → Within entries ns
InVolume-Within total entries [] room h = tt
InVolume-Within total entries (n ∷ ns) room ((lo, hi), hs) =
    (omega arith, InVolume-Within total entries ns room hs)

all_free : (u : Table) (ns : List ℕ) → All (λ n. u n ≡ free) ns → All (λ n. IsFree u n) ns
all_free u [] h = tt
all_free u (n ∷ ns) (h, hs) = (ap is_free h, all_free u ns hs)

module _ (entries total : ℕ) (t u : Table) (room : total + 2 ≤ entries) where
  count-Freed :
      {n : ℕ} {ns : List ℕ}
      → Chain t n ns
      → Distinct ns
      → InVolume total ns
      → Freed entries t ns u
      → free_count u 2 total ≡ free_count t 2 total + length ns
  count-Freed {ns} chain distinct within f =
      free_count_freed ns t u 2 total distinct (in_range total ns within) (used-Chain chain)
        (all_free u ns f.released) (λ m lo hi out. ap is_free (f.elsewhere m (omega arith) out))

  count-Truncated :
      {n : ℕ} {ns : List ℕ}
      → Chain t n ns
      → Distinct ns
      → InVolume total ns
      → Truncated entries t ns u
      → free_count u 2 total ≡ free_count t 2 total + (length ns - 1)
  count-Truncated {ns = []} chain distinct within f = absurd f
  count-Truncated {ns = n ∷ ms} chain (out, distinct) (_, within) (at_end, freed, elsewhere) =
      let (used, later) = used-Chain chain in
      free_count_freed ms t u 2 total distinct (in_range total ms within) later
        (all_free u ms freed) (λ m lo hi os. same m hi os (m == n) refl used)
      ∙ omega arith
    where
      same :
          (m : ℕ)
          → m < 2 + total
          → Outside m ms
          → (b : Bool) → (m == n) ≡ b
          → is_free (t n) ≡ false
          → is_free (u m) ≡ is_free (t m)
      same m hi os true q used = rw ((==_iff m n).0 q) (ap is_free at_end ∙ sym used)
      same m hi os false q used = ap is_free (elsewhere m (omega arith) ((λ e. ground arith), os))

module _ {st : Storage} (laws : IsStorage st) (whole : IsWhole laws) (fs : FileSystem)
    {provided : Provided} (kept : IsProvided provided)
    (region : IsRegion fs laws.size (fat_slice fs.bpb)) {entries : ℕ} {table : (ℕ → ℕ) → Table}
    (fat : IsFat
      (region_laws laws whole fs kept (fat_slice fs.bpb) region)
      (fat_trait (volume st provided fs) fs.fat_type)
      entries
      table)
    (v : Mounted st.State) (room : fs.total_clusters + 2 ≤ entries)
    (counted : Counted laws whole fs kept region fat v) where
  open laws use {content}

  abbrev at_mount : (ℕ → ℕ)
  at_mount = view (fat_slice fs.bpb) (content v.device.disk)

  abbrev pub tables : Flagged st.State → Table
  tables = table_on laws whole fs kept region fat

  abbrev FreedBy : List ℕ → ℕ → Flagged st.State → Type 0
  FreedBy ns k f = (k ≡ length ns % 2 ^ 32) × Freed entries (tables v.device) ns (tables f)

  -- The count behind `m` clusters that were freed.
  added-Counted :
      (k m : ℕ) (w : Mounted st.State)
      → k ≡ m % 2 ^ 32
      → free_count (tables w.device) 2 fs.total_clusters
        ≡ free_count (tables v.device) 2 fs.total_clusters + m
      → w.fs_info ≡ v.fs_info
      → Counted laws whole fs kept region fat
          (record w { fs_info = map_free_clusters (λ n. (n + k) % 2 ^ 32) w.fs_info })
  added-Counted k m w q more same =
      let upper = free_count_upper (tables w.device) 2 fs.total_clusters in
      map_count-CountIs (λ n. (n + k) % 2 ^ 32) _ (free_count (tables v.device) 2 fs.total_clusters)
        (free_count (tables w.device) 2 fs.total_clusters) w.fs_info.free_cluster_count refl
        (subst
          (λ i. CountIs (free_count (tables v.device) 2 fs.total_clusters) i.free_cluster_count)
          (sym same) counted)
        (omega (arith, fat.fits))

  -- Over a disk as in slice_storage-IsStorage whose table keeps the contract, with the clusters
  -- of the volume in the table, for a chain of distinct clusters of the volume, no more than the
  -- fuel, and a count that is unknown or that of the free clusters: free_cluster_chain returns,
  -- the clusters of the chain are free, every other entry is what it was, and the count is again
  -- unknown or that of the free clusters.
  pub free_cluster_chain-Counted :
      (fuel : ℕ) {first : ℕ} {ns : List ℕ}
      → Chain (tables v.device) first ns
      → Distinct ns
      → InVolume fs.total_clusters ns
      → length ns ≤ fuel
      → Returns
          (λ _ w.
            Freed entries (tables v.device) ns (tables w.device)
            × Counted laws whole fs kept region fat w)
          (free_cluster_chain st provided fs fuel first v)
  unfolding free_cluster_chain
  free_cluster_chain-Counted fuel {first} {ns} chain distinct within enough =
      bind
        (beside_info-Returns st {P = FreedBy ns} v (
          drop_offset-Ends st fs provided {P = FreedBy ns} (
            free_chain_lem (region_laws laws whole fs kept (fat_slice fs.bpb) region) fs.fat_type
              fat at_mount {s = (0, v.device)} fuel chain refl
              (InVolume-Within fs.total_clusters entries ns room within) distinct enough)))
        λ k w ((q, f), i). returns (
          f,
          added-Counted k (length ns) w q
              (count-Freed entries fs.total_clusters (tables v.device) (tables w.device) room chain
                distinct within f)
              i,
        )

  abbrev TruncatedBy : List ℕ → ℕ → Flagged st.State → Type 0
  TruncatedBy ns k f =
      (k ≡ (length ns - 1) % 2 ^ 32) × Truncated entries (tables v.device) ns (tables f)

  -- As free_cluster_chain-Counted, with room for one cluster more than the fuel:
  -- truncate_cluster_chain returns, the first cluster of the chain ends it, those behind it are
  -- free, every other entry is what it was, and the count is again unknown or that of the free
  -- clusters.
  pub truncate_cluster_chain-Counted :
      (fuel : ℕ) {first : ℕ} {ns : List ℕ}
      → Chain (tables v.device) first ns
      → Distinct ns
      → InVolume fs.total_clusters ns
      → length ns ≤ suc fuel
      → Returns
          (λ _ w.
            Truncated entries (tables v.device) ns (tables w.device)
            × Counted laws whole fs kept region fat w)
          (truncate_cluster_chain st provided fs fuel first v)
  unfolding truncate_cluster_chain
  truncate_cluster_chain-Counted fuel {first} {ns} chain distinct within enough =
      bind
        (beside_info-Returns st {P = TruncatedBy ns} v (
          drop_offset-Ends st fs provided {P = TruncatedBy ns} (
            truncate_lem (region_laws laws whole fs kept (fat_slice fs.bpb) region) fs.fat_type fat
              at_mount {s = (0, v.device)} fuel chain refl
              (InVolume-Within fs.total_clusters entries ns room within) distinct enough)))
        λ k w ((q, f), i). returns (
          f,
          added-Counted k (length ns - 1) w q
              (count-Truncated entries fs.total_clusters (tables v.device) (tables w.device) room
                chain distinct within f)
              i,
        )

  abbrev CountedTo : ℕ → Flagged st.State → Type 0
  CountedTo k f =
      (k ≡ free_count (tables v.device) 2 fs.total_clusters)
      × (view (fat_slice fs.bpb) (content f.disk) ≡ at_mount)

  -- What a count of the free clusters gives, and what it leaves behind.
  abbrev pub RightStats : FileSystemStats → Mounted st.State → Type 0
  RightStats s w =
      (s.free_clusters ≡ free_count (tables v.device) 2 fs.total_clusters)
      × (s.total_clusters ≡ fs.total_clusters)
      × (tables w.device ≡ tables v.device)
      × (w.fs_info.free_cluster_count ≡ some s.free_clusters)

  known_or_counted_in :
      (o : Option ℕ)
      → v.fs_info.free_cluster_count ≡ o
      → CountIs (free_count (tables v.device) 2 fs.total_clusters) o
      → Returns
          (λ n w.
            (n ≡ free_count (tables v.device) 2 fs.total_clusters)
            × (tables w.device ≡ tables v.device)
            × (w.fs_info.free_cluster_count ≡ some n))
          (known_or_counted st provided fs o v)
  unfolding recalc_free_clusters
  known_or_counted_in (some n) q h = returns (h, refl, q)
  known_or_counted_in none q h =
      bind
        (beside_info-Returns st {P = CountedTo} v (
          drop_offset-Ends st fs provided {P = CountedTo} (
            count_free_clusters_lem (region_laws laws whole fs kept (fat_slice fs.bpb) region)
              fs.fat_type fat at_mount fs.total_clusters {s = (0, v.device)} refl room)))
        λ k w ((r, same), _). returns (r, ap table same, refl)

  -- Over a disk as in slice_storage-IsStorage whose table keeps the contract, with the clusters
  -- of the volume in the table and a count that is unknown or that of the free clusters: stats
  -- gives the number of free clusters in the table and the number of clusters, keeps the table,
  -- and leaves that count behind.
  pub stats-Counted : Returns RightStats (stats st provided fs v)
  unfolding stats
  stats-Counted =
      bind (known_or_counted_in v.fs_info.free_cluster_count refl counted)
        λ n w (q, same, r). returns (q, refl, same, r)
