-- ===== src/FileSystem/Counts.antt =====
-- The counters of a mounted volume, and the table that they count.
use embedded_fatfs.Base.{
  ℕ, suc, ◌+◌, ◌-◌, ◌%◌, ◌^◌, ◌≤◌, ◌<◌, ◌≡◌, ◌≢◌, Bool, true, false, arith, refl, sym, ap, ◌∙◌,
  Bool-cases, inl, inr, ◌==◌, ==_iff, Option, none, some, subst, if◌then◌else◌,
}
use embedded_fatfs.Io.{Storage, Run, Error, not_enough_space, pure}
use embedded_fatfs.Io.Provided.{Provided, IsProvided}
use embedded_fatfs.Io.Ends.{Ends, Returns, returns, fails, bind, bind-Ends, mono, Returns-map_err}
use embedded_fatfs.Io.Laws.{IsStorage}
use embedded_fatfs.FsInfo.{FsInfoSector, map_count}
use embedded_fatfs.DiskSlice.{fat_slice}
use embedded_fatfs.Table
use embedded_fatfs.Table.{fat_trait}
use embedded_fatfs.Table.Value.{is_free}
use embedded_fatfs.Table.Contract.{Table, IsFree, NoFree, free_count, IsFat}
use embedded_fatfs.Table.Alloc.{Allocated, alloc_cluster_lem}
use embedded_fatfs.Table.Counting.{free_count_taken, free_count_upper}
use embedded_fatfs.Chain.Extend.{some-injective}
use embedded_fatfs.FileSystem.{FileSystem, Flagged, Mounted, on_fat, cluster_size}
use embedded_fatfs.FileSystem.{offset_from_cluster, drop_offset, beside_info}
use embedded_fatfs.FileSystem.Clusters.{volume, alloc_cluster, zero_cluster, taken_info}
use embedded_fatfs.FileSystem.Flags.{IsWhole, beside_disk-Returns}
use embedded_fatfs.FileSystem.Region.{IsRegion, view, view-same}
use embedded_fatfs.FileSystem.Volume.{region_laws}
use embedded_fatfs.FileSystem.Zeros.{write_zeros-Zeroed}

-- A count that is known is that number.
abbrev pub CountIs : ℕ → Option ℕ → Type 0
CountIs m none = Unit
CountIs m (some k) = k ≡ m

pub map_count-CountIs :
    (f : ℕ → ℕ) (info : FsInfoSector) (m m' : ℕ) (o : Option ℕ)
    → info.free_cluster_count ≡ o
    → CountIs m o
    → f m ≡ m'
    → CountIs m' (map_count f info o).free_cluster_count
map_count-CountIs f info m m' none q h e = rw q tt
map_count-CountIs f info m m' (some k) q h e = ap f h ∙ e

map_count-next :
    (f : ℕ → ℕ) (info : FsInfoSector) (o : Option ℕ)
    → (map_count f info o).next_free_cluster ≡ info.next_free_cluster
map_count-next f info none = refl
map_count-next f info (some k) = refl

-- Where a cluster was taken from the volume, its count is one less.
one_less :
    (entries total n : ℕ) (prev : Option ℕ) (t u : Table)
    → total + 2 ≤ entries
    → 2 ≤ n
    → n < total + 2
    → IsFree t n
    → ((p : ℕ) → prev ≡ some p → is_free (t p) ≡ false)
    → Allocated entries t prev n u
    → free_count t 2 total ≡ suc (free_count u 2 total)
one_less entries total n prev t u room lo hi f used a =
    let distinct : (p : ℕ) → prev ≡ some p → p ≢ n =
      λ p q e. cc (sym (used p q) ∙ ap (λ x. is_free (t x)) e ∙ f) in
    free_count_taken t u n 2 total lo (omega arith) f (ap is_free (a.taken distinct))
      (λ m l r ne. others prev refl m r ne)
  where
    others :
        (o : Option ℕ) → prev ≡ o → (m : ℕ) → m < 2 + total → m ≢ n → is_free (u m) ≡ is_free (t m)
    others none q m r ne = ap is_free (a.elsewhere m (omega arith) ne (λ p e. cc (sym q ∙ e)))
    others (some p) q m r ne = elim (Bool-cases (m == p)) [
      | inl s ↦ rw ((==_iff m p).0 s) (ap is_free (a.linked p q) ∙ sym (used p q))
      | inr s ↦ ap is_free (
          a.elsewhere m (omega arith) ne
            (λ p' e mp. let same = some-injective p p' (sym q ∙ e) in ground arith))
    ]

pub beside_info-Ends :
    (st : Storage) {X A : Type 0} {P : A → Flagged st.State → Type 0}
    {Q : X → Flagged st.State → Type 0} (v : Mounted st.State) {r : Run (Flagged st.State) X A}
    → Ends P Q r
    → Ends
        (λ a w. P a w.device × (w.fs_info ≡ v.fs_info))
        (λ e w. Q e w.device × (w.fs_info ≡ v.fs_info))
        (beside_info st v r)
beside_info-Ends st v (returns p) = returns (p, refl)
beside_info-Ends st v (fails q) = fails (q, refl)

pub beside_info-Returns :
    (st : Storage) {X A : Type 0} {P : A → Flagged st.State → Type 0} (v : Mounted st.State)
    {r : Run (Flagged st.State) X A}
    → Returns P r
    → Returns (λ a w. P a w.device × (w.fs_info ≡ v.fs_info)) (beside_info st v r)
beside_info-Returns st v (returns p) = returns (p, refl)
beside_info-Returns st v (fails q) = absurd q

pub drop_offset-Ends :
    (st : Storage) (fs : FileSystem) (provided : Provided) {A : Type 0}
    {P : A → Flagged st.State → Type 0} {Q : Error st.Cause → Flagged st.State → Type 0}
    {r : Run (ℕ × Flagged st.State) (Error st.Cause) A}
    → Ends (λ a t. P a t.1) (λ e t. Q e t.1) r
    → Ends P Q (drop_offset st fs provided r)
drop_offset-Ends st fs provided (returns p) = returns p
drop_offset-Ends st fs provided (fails q) = fails q

module _ {st : Storage} (laws : IsStorage st) (whole : IsWhole laws) (fs : FileSystem)
    {provided : Provided} (kept : IsProvided provided)
    (region : IsRegion fs laws.size (fat_slice fs.bpb)) {entries : ℕ} {table : (ℕ → ℕ) → Table}
    (fat : IsFat
      (region_laws laws whole fs kept (fat_slice fs.bpb) region)
      (fat_trait (volume st provided fs) fs.fat_type)
      entries
      table) where
  open st use {State}
  open laws use {content, position, size}

  abbrev pub table_on : Flagged State → Table
  table_on f = table (view (fat_slice fs.bpb) (content f.disk))

  abbrev pub table_of : Mounted State → Table
  table_of v = table_on v.device

  -- What the counters say of the free clusters is what the table says.
  abbrev pub Counted : Mounted State → Type 0
  Counted v = CountIs (free_count (table_of v) 2 fs.total_clusters) v.fs_info.free_cluster_count

  -- The clusters lie behind the table and in the storage.
  abbrev pub Placed : Type 0
  Placed =
      (n : ℕ)
      → 2 ≤ n
      → n < fs.total_clusters + 2
      → ((fat_slice fs.bpb).begin + (fat_slice fs.bpb).size ≤ offset_from_cluster fs n)
        × (offset_from_cluster fs n + cluster_size fs ≤ size)

  -- A cluster that was asked to be zeroed is.
  abbrev pub Cleared : Bool → ℕ → Mounted State → Type 0
  Cleared zeroed n w =
      zeroed ≡ true
      → (i : ℕ) → offset_from_cluster fs n ≤ i
      → i < offset_from_cluster fs n + cluster_size fs
      → content w.device.disk i ≡ 0

  zero_cluster_in :
      (n : ℕ) (v : Mounted State)
      → ((fat_slice fs.bpb).begin + (fat_slice fs.bpb).size ≤ offset_from_cluster fs n)
      → (offset_from_cluster fs n + cluster_size fs ≤ size)
      → Returns
          (λ _ w. (table_of w ≡ table_of v) × (w.fs_info ≡ v.fs_info) × Cleared true n w)
          (zero_cluster st provided fs n v)
  unfolding zero_cluster
  zero_cluster_in n v above room =
      let off = offset_from_cluster fs n in
      bind
        (beside_info-Returns st v (
          Returns-map_err _
            (beside_disk-Returns st v.device (laws.seek_start off v.device.disk (omega arith)))))
        λ _ t (((_, e, at), _), i).
          mono
            (beside_info-Returns st t (
              Returns-map_err _ (
                beside_disk-Returns st t.device (
                  write_zeros-Zeroed laws (cluster_size fs) (cluster_size fs) t.device.disk
                    (omega arith) (omega (arith, at))))))
            (λ _ w ((z, _), j). (
              ap table (
                  view-same (fat_slice fs.bpb) (content v.device.disk) (content w.device.disk)
                    (λ x hx.
                      z.outside ((fat_slice fs.bpb).begin + x) (inl (omega (arith, at)))
                      ∙ ap (λ c. c ((fat_slice fs.bpb).begin + x)) e)),
              j ∙ i,
              λ _ x lo hi. z.inside x (omega (arith, at)) (omega (arith, at)),
            ))
            (λ _ _ b. b)

  zero_if :
      (zeroed : Bool) (n : ℕ) (v : Mounted State)
      → Placed
      → 2 ≤ n
      → n < fs.total_clusters + 2
      → Returns
          (λ _ w. (table_of w ≡ table_of v) × (w.fs_info ≡ v.fs_info) × Cleared zeroed n w)
          ((if zeroed then zero_cluster st provided fs n else pure tt) v)
  zero_if true n v placed lo hi =
      let (above, room) = placed n lo hi in zero_cluster_in n v above room
  zero_if false n v placed lo hi = returns (refl, refl, λ q. cc)

  -- The count after a cluster was taken.
  taken-Counted :
      (prev : Option ℕ) (n : ℕ) (v w : Mounted State)
      → fs.total_clusters + 2 ≤ entries
      → 2 ≤ n
      → n < fs.total_clusters + 2
      → IsFree (table_of v) n
      → ((p : ℕ) → prev ≡ some p → is_free (table_of v p) ≡ false)
      → Allocated entries (table_of v) prev n (table_of w)
      → w.fs_info ≡ v.fs_info
      → Counted v
      → Counted (record w { fs_info = taken_info n w.fs_info })
  taken-Counted prev n v w room lo hi f used a same counted =
      let total = fs.total_clusters in
      let less = one_less entries total n prev (table_of v) (table_of w) room lo hi f used a in
      let upper = free_count_upper (table_of v) 2 total in
      map_count-CountIs (λ k. (k + 2 ^ 32 - 1) % 2 ^ 32) _ (free_count (table_of v) 2 total)
        (free_count (table_of w) 2 total) w.fs_info.free_cluster_count refl
        (subst (λ i. CountIs (free_count (table_of v) 2 total) i.free_cluster_count) (sym same)
          counted)
        (omega (arith, fat.fits))

  -- A cluster of the volume was taken from the table of `v`, or it has none.
  abbrev Taken : Option ℕ → Mounted State → ℕ → Flagged State → Type 0
  Taken prev v n f =
      (2 ≤ n)
      × (n < fs.total_clusters + 2)
      × IsFree (table_of v) n
      × Allocated entries (table_of v) prev n (table_on f)

  abbrev Full : Mounted State → Error st.Cause → Flagged State → Type 0
  Full v e f =
      (e ≡ not_enough_space)
      × NoFree (table_of v) 2 (fs.total_clusters + 2)
      × (view (fat_slice fs.bpb) (content f.disk) ≡ view (fat_slice fs.bpb) (content v.device.disk))

  table_alloc_in :
      (prev : Option ℕ) (v : Mounted State)
      → 0 < fs.total_clusters
      → fs.total_clusters + 2 ≤ entries
      → ((p : ℕ) → prev ≡ some p → p < entries)
      → ((h : ℕ) → v.fs_info.next_free_cluster ≡ some h → 2 ≤ h)
      → Ends
          (λ n w. Taken prev v n w.device × (w.fs_info ≡ v.fs_info))
          (λ e w. Full v e w.device × (w.fs_info ≡ v.fs_info))
          (on_fat st fs provided
            (Table.alloc_cluster
              (volume st provided fs)
              fs.fat_type
              prev
              v.fs_info.next_free_cluster
              fs.total_clusters)
            v)
  table_alloc_in prev v some_cluster room prev_in usable =
      beside_info-Ends st {P = Taken prev v} {Q = Full v} v (
        drop_offset-Ends st fs provided {P = Taken prev v} {Q = Full v} (
          alloc_cluster_lem (region_laws laws whole fs kept (fat_slice fs.bpb) region) fs.fat_type
            fat (view (fat_slice fs.bpb) (content v.device.disk)) prev v.fs_info.next_free_cluster
            fs.total_clusters {s = (0, v.device)} refl some_cluster room prev_in usable))

  -- Over a disk as in slice_storage-IsStorage whose table keeps the contract, on a volume of at
  -- least one cluster, all in the table and, behind it, on the disk, for a previous cluster in
  -- the table that is not free, a hint of 2 or more and a count that is unknown or that of the
  -- free clusters: alloc_cluster ends with a cluster of the volume that was free and is taken
  -- and linked in the table, zeroed where that was asked for, the hint behind it and the count
  -- again unknown or that of the free clusters; or with not_enough_space, and then no cluster is
  -- free and neither the table nor the counters change.
  pub alloc_cluster-Counted :
      (prev : Option ℕ) (zeroed : Bool) (v : Mounted State)
      → 0 < fs.total_clusters
      → fs.total_clusters + 2 ≤ entries
      → Placed
      → ((p : ℕ) → prev ≡ some p → (p < entries) × (is_free (table_of v p) ≡ false))
      → ((h : ℕ) → v.fs_info.next_free_cluster ≡ some h → 2 ≤ h)
      → Counted v
      → Ends
          (λ n w.
            (2 ≤ n)
            × (n < fs.total_clusters + 2)
            × IsFree (table_of v) n
            × Allocated entries (table_of v) prev n (table_of w)
            × Cleared zeroed n w
            × (w.fs_info.next_free_cluster ≡ some (n + 1))
            × Counted w)
          (λ e w.
            (e ≡ not_enough_space)
            × NoFree (table_of v) 2 (fs.total_clusters + 2)
            × (table_of w ≡ table_of v)
            × (w.fs_info ≡ v.fs_info))
          (alloc_cluster st provided fs prev zeroed v)
  unfolding alloc_cluster
  alloc_cluster-Counted prev zeroed v some_cluster room placed prev_in usable counted =
      bind-Ends (table_alloc_in prev v some_cluster room (λ p q. (prev_in p q).0) usable)
        (λ n t ((lo, hi, f, a), i). bind (zero_if zeroed n t placed lo hi) λ _ w (same, j, cleared).
          let done = subst (λ x. Allocated entries (table_of v) prev n x) (sym same) a in
          returns (
            lo,
            hi,
            f,
            done,
            cleared,
            map_count-next _ _ w.fs_info.free_cluster_count ∙ ap some (omega (arith, fat.fits)),
            taken-Counted prev n v w room lo hi f (λ p q. (prev_in p q).1) done (j ∙ i) counted,
          ))
        (λ e t ((q, none_free, same), i). (q, none_free, ap table same, i))
