-- ===== src/File/Extends.antt =====
-- `write` of a file at the end of its chain: a cluster is allocated.
use embedded_fatfs.Base.{
  ℕ, ◌+◌, ◌%◌, ◌≤◌, ◌<◌, ◌≡◌, true, false, arith, refl, sym, ap, ◌∙◌, inl, inr, ◌==◌, Option, none,
  some, subst, Bool-cases,
}
use embedded_fatfs.Base.{unwrap_or}
use embedded_fatfs.Base.{List, length, take, All}
use embedded_fatfs.Base.Bytes.{IsByte, slice}
use embedded_fatfs.Io.{Storage, Error, not_enough_space}
use embedded_fatfs.Io.Provided.{Provided, IsProvided}
use embedded_fatfs.Io.Ends.{Ends, Returns, returns, bind, bind-Ends, mono}
use embedded_fatfs.Io.Laws.{IsStorage}
use embedded_fatfs.FatType.{FatType}
use embedded_fatfs.DirEntry.{set_first_cluster, first_cluster}
use embedded_fatfs.DirEntry.Editor.{DirEntryEditor, edit_first_cluster, same_cluster}
use embedded_fatfs.DiskSlice.{fat_slice}
use embedded_fatfs.Table.{fat_trait, next_of}
use embedded_fatfs.Table.Value.{is_free}
use embedded_fatfs.Table.Contract.{Table, IsFat, IsFree}
use embedded_fatfs.Table.Alloc.{Allocated}
use embedded_fatfs.FileSystem.{FileSystem, Mounted, cluster_size}
use embedded_fatfs.FileSystem.Clusters.{volume}
use embedded_fatfs.FileSystem.Flags.{IsWhole}
use embedded_fatfs.FileSystem.Region.{IsRegion}
use embedded_fatfs.FileSystem.Volume.{region_laws}
use embedded_fatfs.FileSystem.Counts.{CountIs, Counted, Placed, alloc_cluster-Counted}
use embedded_fatfs.Table.Contract.{free_count}
use embedded_fatfs.File.{FileContext, size, entry_size, edit, next_cluster, is_dir}
use embedded_fatfs.File.Cursor.{beside_context-Ends, beside_context-Returns}
use embedded_fatfs.File.Transfer.{
  FsOptions, write_size, cluster_to_write, write_file, extend_chain, attach,
}
use embedded_fatfs.DirEntry.Fields.{FitsCluster, cluster_limit}
use embedded_fatfs.File.Firsts.{
  entry_cluster, entry_behind, set_in, entry_cluster-edit_first_cluster,
}
use embedded_fatfs.File.Sizes.{grown_size}
use embedded_fatfs.File.Writes.{tables, mark_dirty_in, next_at, place, write_cluster_in}

-- The offset is behind the last cluster of the chain, which is the current one, or the file has none.
pub record AtEnd (fs : FileSystem) (entries : ℕ) (t : Table) (c : FileContext) : Type 0 where
  pub boundary : (c.offset % cluster_size fs == 0) ≡ true
  pub no_first : c.current_cluster ≡ none → c.first_cluster ≡ none
  pub last :
      (p : ℕ)
      → c.current_cluster ≡ some p
      → (p < entries) × (is_free (t p) ≡ false) × (next_of (t p) ≡ none)

pub entry_size-edit_first_cluster :
    (cluster : Option ℕ) (fat_type : FatType) (o : Option DirEntryEditor)
    → entry_size (edit (edit_first_cluster cluster fat_type) o) ≡ entry_size o
unfolding edit_first_cluster set_first_cluster
entry_size-edit_first_cluster cluster fat_type none = refl
entry_size-edit_first_cluster cluster fat_type (some e) =
    elim (Bool-cases (same_cluster cluster (first_cluster e.entry fat_type))) [
      | inl q ↦ rw q refl
      | inr q ↦ rw q refl
    ]

module _ {st : Storage} (laws : IsStorage st) (whole : IsWhole laws) (fs : FileSystem)
    {provided : Provided} (kept : IsProvided provided)
    (region : IsRegion fs laws.size (fat_slice fs.bpb)) {entries : ℕ} {table : (ℕ → ℕ) → Table}
    (fat : IsFat
      (region_laws laws whole fs kept (fat_slice fs.bpb) region)
      (fat_trait (volume st provided fs) fs.fat_type)
      entries
      table)
    (options : FsOptions) where
  open laws use {content}

  abbrev of_volume : Mounted st.State → Table
  of_volume = tables laws whole fs kept region fat options

  abbrev Exact : Mounted st.State → Type 0
  Exact = Counted laws whole fs kept region fat

  Counted-same :
      (v w : Mounted st.State)
      → of_volume w ≡ of_volume v
      → w.fs_info ≡ v.fs_info
      → Exact v
      → Exact w
  Counted-same v w s i h =
      subst (λ t. CountIs (free_count t 2 fs.total_clusters) w.fs_info.free_cluster_count) (sym s)
        (subst (λ x. CountIs (free_count (of_volume v) 2 fs.total_clusters) x.free_cluster_count)
          (sym i) h)

  -- There is no next cluster.
  next_none :
      (c : FileContext) (v : Mounted st.State)
      → AtEnd fs entries (of_volume v) c
      → Returns
          (λ a w. (a ≡ none) × ((of_volume w ≡ of_volume v) × (w.fs_info ≡ v.fs_info)))
          (next_cluster st provided fs c.first_cluster c.current_cluster v)
  unfolding next_cluster
  next_none c v h = by_current c.current_cluster refl
    where
      by_current :
          (o : Option ℕ)
          → c.current_cluster ≡ o
          → Returns
              (λ a w. (a ≡ none) × ((of_volume w ≡ of_volume v) × (w.fs_info ≡ v.fs_info)))
              (next_cluster st provided fs c.first_cluster c.current_cluster v)
      by_current none q =
          subst
            (λ o.
              Returns (λ a w. (a ≡ none) × ((of_volume w ≡ of_volume v) × (w.fs_info ≡ v.fs_info)))
                (next_cluster st provided fs c.first_cluster o v))
            (sym q) (returns (h.no_first q, (refl, refl)))
      by_current (some p) q =
          let (inside, _, end_here) = h.last p q in
          mono (next_at laws whole fs kept region fat options c p none v q inside end_here)
            (λ a w (r, s, i). (r, (s, i))) (λ _ _ b. b)

  -- The context behind the allocation: the first cluster of an empty file is the new one.
  attach_in :
      (c : FileContext) (n : ℕ) (x : FileContext × Mounted st.State) (o : Option ℕ)
      → FitsCluster fs.fat_type (some n)
      → c.first_cluster ≡ o
      → x.0 ≡ c
      → Returns
          (λ _ y.
            (y.0.offset ≡ c.offset)
            × (size y.0 ≡ size c)
            × (y.0.first_cluster ≡ some (unwrap_or c.first_cluster n))
            × (entry_cluster fs.fat_type y.0.entry
                ≡ entry_behind fs.fat_type c.first_cluster n c.entry)
            × (y.1 ≡ x.1))
          (attach st provided fs options n c o x)
  attach_in c n x none fits q same = returns (
    ap (λ d. d.offset) same,
    entry_size-edit_first_cluster (some n) fs.fat_type x.0.entry ∙ ap size same,
    ap (λ o. some (unwrap_or o n)) (sym q),
    entry_cluster-edit_first_cluster fs.fat_type n x.0.entry fits
        ∙ ap (λ d. set_in n d.entry) same
        ∙ ap (λ o. entry_behind fs.fat_type o n c.entry) (sym q),
    refl,
  )
  attach_in c n x (some f) fits q same = returns (
    ap (λ d. d.offset) same,
    ap size same,
    ap (λ d. d.first_cluster) same ∙ q ∙ ap (λ o. some (unwrap_or o n)) (sym q),
    ap (λ d. entry_cluster fs.fat_type d.entry) same
        ∙ ap (λ o. entry_behind fs.fat_type o n c.entry) (sym q),
    refl,
  )

  -- The file after a write of `k` bytes of the buffer into a new cluster.
  pub record Extended (c : FileContext) (buf : List ℕ) (v : Mounted st.State) (k : ℕ)
      (y : FileContext × Mounted st.State) : Type 0 where
    pub cluster : ℕ
    pub in_volume : (2 ≤ cluster) × (cluster < fs.total_clusters + 2)
    pub was_free : IsFree (of_volume v) cluster
    pub linked : Allocated entries (of_volume v) c.current_cluster cluster (of_volume y.1)
    pub count : k ≡ write_size fs c (length buf)
    pub bytes :
        slice (content y.1.device.disk) (place laws whole fs kept region fat options c cluster) k
        ≡ take k buf
    pub offset : y.0.offset ≡ c.offset + k
    pub current : y.0.current_cluster ≡ some cluster
    pub first : y.0.first_cluster ≡ some (unwrap_or c.first_cluster cluster)
    pub in_entry :
        entry_cluster fs.fat_type y.0.entry
        ≡ entry_behind fs.fat_type c.first_cluster cluster c.entry
    pub grows : size y.0 ≡ grown_size (c.offset + k) (size c)
    pub exact : Exact y.1

  -- What stays when the volume has no room.
  abbrev pub Refused :
      FileContext → Mounted st.State → Error st.Cause → FileContext × Mounted st.State → Type 0
  Refused c v e y =
      (e ≡ not_enough_space) × (y.0 ≡ c) × (of_volume y.1 ≡ of_volume v) × (y.1.fs_info ≡ v.fs_info)

  -- The cluster that is allocated, before anything is written into it.
  record Attached (c : FileContext) (v : Mounted st.State) (n : ℕ)
      (y : FileContext × Mounted st.State) : Type 0 where
    inside : (2 ≤ n) × (n < fs.total_clusters + 2)
    free_before : IsFree (of_volume v) n
    taken : Allocated entries (of_volume v) c.current_cluster n (of_volume y.1)
    at_offset : y.0.offset ≡ c.offset
    same_size : size y.0 ≡ size c
    begins : y.0.first_cluster ≡ some (unwrap_or c.first_cluster n)
    entry_begins :
        entry_cluster fs.fat_type y.0.entry ≡ entry_behind fs.fat_type c.first_cluster n c.entry
    counted : Exact y.1

  module _ (c : FileContext) (v : Mounted st.State) (at_end : AtEnd fs entries (of_volume v) c)
      (some_cluster : 0 < fs.total_clusters) (room : fs.total_clusters + 2 ≤ entries)
      (nameable : fs.total_clusters + 2 ≤ cluster_limit fs.fat_type)
      (placed : Placed laws whole fs kept region fat)
      (usable : (h : ℕ) → v.fs_info.next_free_cluster ≡ some h → 2 ≤ h) (exact : Exact v) where
    cluster_to_write_new :
        Ends (Attached c v) (Refused c v) (cluster_to_write st provided fs options c (c, v))
    unfolding cluster_to_write extend_chain
    cluster_to_write_new = rw at_end.boundary (
        bind (beside_context-Returns st c (next_none c v at_end))
          λ o x (cx, (r, (s, i))). rw r (allocate x cx s i))
      where
        allocate :
            (x : FileContext × Mounted st.State)
            → x.0 ≡ c
            → of_volume x.1 ≡ of_volume v
            → x.1.fs_info ≡ v.fs_info
            → Ends (Attached c v) (Refused c v) (extend_chain st provided fs options c none x)
        allocate x cx s i =
            bind-Ends
              (beside_context-Ends st x.0 (
                alloc_cluster-Counted laws whole fs kept region fat c.current_cluster (is_dir c) x.1
                  some_cluster room placed
                  (λ p q.
                    let (inside, used, _) = at_end.last p q in
                    (inside, subst (λ t. is_free (t p) ≡ false) (sym s) used))
                  (λ h q. usable h (sym (ap (λ k. k.next_free_cluster) i) ∙ q))
                  (Counted-same v x.1 s i exact)))
              (λ n y (cy, (lo, hi, f, a, _, _, ex)).
                bind
                  (attach_in c n y c.first_cluster (omega arith, omega (arith, nameable)) refl
                    (cy ∙ cx))
                  λ _ z (off, sz, first, in_entry, same). returns (record {
                    inside = (lo, hi);
                    free_before = subst (λ t. IsFree t n) s f;
                    taken =
                        subst (λ t. Allocated entries t c.current_cluster n (of_volume z.1)) s
                          (subst
                            (λ w.
                              Allocated entries (of_volume x.1) c.current_cluster n (of_volume w))
                            (sym same) a);
                    at_offset = off;
                    same_size = sz;
                    begins = first;
                    entry_begins = in_entry;
                    counted = subst Exact (sym same) ex;
                  }))
              (λ e y (cy, (q, _, same, info)). (q, cy ∙ cx, same ∙ s, info ∙ i))

  -- Over a disk as in slice_storage-IsStorage whose table keeps the contract, with the clusters
  -- of the volume, at least one, in the table and behind it on the disk, with numbers that an
  -- entry of the FAT type can hold, a hint that is unknown or 2 or more, and a count that is
  -- unknown or that of the free clusters: for a file whose offset is a cluster boundary behind
  -- its last cluster, which is the current one and not free, or that has no cluster, a write of
  -- bytes with a write size above 0 ends with a cluster of the volume that was free, taken and
  -- linked in the table behind the current one; the bytes of the write size lie at its start on
  -- the disk, the offset moves on by them, the cluster is the current one, the first cluster is
  -- what it was or, for an empty file, the new one, in the context and in the entry, if any, the
  -- size of the entry is the larger of the old one and the new offset, and the count is again
  -- unknown or that of the free clusters; or it ends with not_enough_space, and then the
  -- context, the table and the counters are what they were.
  pub write_file-Extended :
      (c : FileContext) (buf : List ℕ) (v : Mounted st.State)
      → AtEnd fs entries (of_volume v) c
      → 0 < fs.total_clusters
      → fs.total_clusters + 2 ≤ entries
      → fs.total_clusters + 2 ≤ cluster_limit fs.fat_type
      → Placed laws whole fs kept region fat
      → ((h : ℕ) → v.fs_info.next_free_cluster ≡ some h → 2 ≤ h)
      → Exact v
      → 0 < cluster_size fs
      → 0 < write_size fs c (length buf)
      → All IsByte buf
      → Ends (Extended c buf v) (Refused c v) (write_file st provided fs options buf (c, v))
  unfolding write_file
  write_file-Extended c buf v at_end some_cluster room nameable placed usable exact some_bytes pos
        bytes =
      let nonzero : (write_size fs c (length buf) == 0) ≡ false = ground arith in
      rw nonzero (
        bind (beside_context-Returns st c (mark_dirty_in laws whole fs kept region fat options v))
          λ _ x (cx, (s, i)). rw cx (
            bind-Ends
              (cluster_to_write_new c x.1 (subst (λ t. AtEnd fs entries t c) (sym s) at_end)
                some_cluster room nameable placed
                (λ h q. usable h (sym (ap (λ k. k.next_free_cluster) i) ∙ q))
                (Counted-same v x.1 s i exact))
              (λ n y a.
                mono
                  (write_cluster_in laws whole fs kept region fat options c buf n y a.at_offset
                    (placed n a.inside.0 a.inside.1) some_bytes pos bytes)
                  (λ k z (count, written, off, cur, first, grows, s', i', in_entry). record {
                    cluster = n;
                    in_volume = a.inside;
                    was_free = subst (λ t. IsFree t n) s a.free_before;
                    linked =
                        subst (λ t. Allocated entries t c.current_cluster n (of_volume z.1)) s
                          (subst (λ t. Allocated entries (of_volume x.1) c.current_cluster n t)
                            (sym s') a.taken);
                    count = count;
                    bytes = written;
                    offset = off;
                    current = cur;
                    first = first ∙ a.begins;
                    in_entry = in_entry ∙ a.entry_begins;
                    grows = grows ∙ ap (grown_size (c.offset + k)) a.same_size;
                    exact = Counted-same y.1 z.1 s' i' a.counted;
                  })
                  (λ _ _ b. absurd b))
              (λ e y (q, same, same_table, info). (q, same, same_table ∙ s, info ∙ i))))
