-- ===== src/File/Writes.antt =====
-- `write` of a file, into the cluster at which its offset points or a new one.
use embedded_fatfs.Base.{
  ℕ, ◌+◌, ◌%◌, ◌^◌, ◌≤◌, ◌<◌, ◌≡◌, true, false, arith, refl, sym, ap, ap₂, ◌∙◌, inl, ◌==◌, Option,
  some, subst,
}
use embedded_fatfs.Base.{List, length, take, All, All-take, length-take}
use embedded_fatfs.Base.Bytes.{IsByte, slice, patch, slice-patch, patch_outside}
use embedded_fatfs.Io.{Storage}
use embedded_fatfs.Io.Provided.{Provided, IsProvided}
use embedded_fatfs.Io.Ends.{Returns, returns, bind, bind_value, mono, Returns-map_err}
use embedded_fatfs.Io.Laws.{IsStorage}
use embedded_fatfs.DirEntry.Editor.{}
use embedded_fatfs.DiskSlice.{fat_slice}
use embedded_fatfs.Table.{fat_trait, next_of}
use embedded_fatfs.Table.Contract.{Table, IsFat}
use embedded_fatfs.FileSystem.{FileSystem, Flagged, Mounted, cluster_size, offset_from_cluster}
use embedded_fatfs.FileSystem.{try_device, set_dirty_flag}
use embedded_fatfs.FileSystem.Clusters.{volume}
use embedded_fatfs.FileSystem.Flags.{IsWhole, beside_disk-Returns, set_dirty_flag_in}
use embedded_fatfs.FileSystem.Region.{IsRegion, view, view-same}
use embedded_fatfs.FileSystem.Volume.{region_laws}
use embedded_fatfs.FileSystem.Adapter.{one_fits}
use embedded_fatfs.FileSystem.Counts.{beside_info-Returns, table_of}
use embedded_fatfs.File.{FileContext, size, next_cluster, update_dir_entry_after_write}
use native.Mathlib.Nat.{mod-lt}
use embedded_fatfs.File.Cursor.{
  Points, inside, at_first, behind, beside_context-Returns, next_cluster_in,
}
use embedded_fatfs.File.Transfer.{
  extend_chain, FsOptions, write_size, offset_in_cluster, cluster_to_write, write_cluster,
  write_file,
}
use embedded_fatfs.File.Firsts.{entry_cluster, entry_cluster-written_at}
use embedded_fatfs.File.Sizes.{grown_size, entry_size-written_at}

module _ {st : Storage} (laws : IsStorage st) (whole : IsWhole laws) (fs : FileSystem)
    {provided : Provided} (kept : IsProvided provided)
    (region : IsRegion fs laws.size (fat_slice fs.bpb)) {entries : ℕ} {table : (ℕ → ℕ) → Table}
    (fat : IsFat
      (region_laws laws whole fs kept (fat_slice fs.bpb) region)
      (fat_trait (volume st provided fs) fs.fat_type)
      entries
      table)
    (options : FsOptions) where
  open laws use {content}

  abbrev pub tables : Mounted st.State → Table
  tables = table_of laws whole fs kept region fat

  -- The cluster lies behind the table and on the disk.
  abbrev pub Behind : ℕ → Type 0
  Behind n =
      ((fat_slice fs.bpb).begin + (fat_slice fs.bpb).size ≤ offset_from_cluster fs n)
      × (offset_from_cluster fs n + cluster_size fs ≤ laws.size)

  same_tables :
      (v w : Flagged st.State)
      → ((i : ℕ)
          → i < (fat_slice fs.bpb).begin + (fat_slice fs.bpb).size
          → (fat_slice fs.bpb).begin ≤ i
          → content w.disk i ≡ content v.disk i)
      → table (view (fat_slice fs.bpb) (content w.disk))
        ≡ table (view (fat_slice fs.bpb) (content v.disk))
  same_tables v w h = ap table (
      view-same (fat_slice fs.bpb) (content v.disk) (content w.disk)
        (λ i hi. h ((fat_slice fs.bpb).begin + i) (omega arith) (omega arith)))

  pub mark_dirty_in :
      (v : Mounted st.State)
      → Returns
          (λ _ w. (tables w ≡ tables v) × (w.fs_info ≡ v.fs_info))
          (try_device st (set_dirty_flag st fs true) v)
  mark_dirty_in v =
      mono
        (beside_info-Returns st v (
          Returns-map_err _ (
            set_dirty_flag_in laws fs true v.device (
              omega
                (arith, region.behind, one_fits laws whole fs kept (fat_slice fs.bpb) region)))))
        (λ _ w ((_, _, _, same), i). (
          same_tables v.device w.device (λ x hi lo. same x (λ q. omega (arith, region.behind))),
          i,
        ))
        (λ _ _ z. z)

  abbrev pub place : FileContext → ℕ → ℕ
  place c n = offset_from_cluster fs n + offset_in_cluster fs c

  -- What is written into cluster `n`, from the context and volume of `x`.
  abbrev pub Wrote :
      FileContext
      → List ℕ
      → ℕ
      → FileContext × Mounted st.State
      → ℕ
      → FileContext × Mounted st.State
      → Type 0
  Wrote c buf n x k y =
      (k ≡ write_size fs c (length buf))
      × (slice (content y.1.device.disk) (place c n) k ≡ take k buf)
      × (y.0.offset ≡ c.offset + k)
      × (y.0.current_cluster ≡ some n)
      × (y.0.first_cluster ≡ x.0.first_cluster)
      × (size y.0 ≡ grown_size (c.offset + k) (size x.0))
      × (tables y.1 ≡ tables x.1)
      × (y.1.fs_info ≡ x.1.fs_info)
      × (entry_cluster fs.fat_type y.0.entry ≡ entry_cluster fs.fat_type x.0.entry)

  pub write_cluster_in :
      (c : FileContext) (buf : List ℕ) (n : ℕ) (x : FileContext × Mounted st.State)
      → x.0.offset ≡ c.offset
      → Behind n
      → 0 < cluster_size fs
      → 0 < write_size fs c (length buf)
      → All IsByte buf
      → Returns (Wrote c buf n x) (write_cluster st provided fs options c buf n x)
  unfolding write_cluster update_dir_entry_after_write
  write_cluster_in c buf n x same_offset (above, room) some_bytes pos bytes =
      let k = write_size fs c (length buf) in
      let count : length (take k buf) ≡ k = omega (arith, length-take k buf) in
      let in_cluster = mod-lt c.offset {m = cluster_size fs} some_bytes in
      bind
        (beside_context-Returns st x.0 (
          beside_info-Returns st x.1 (
            Returns-map_err _ (
              beside_disk-Returns st x.1.device
                (laws.seek_start (place c n) x.1.device.disk (omega arith))))))
        λ _ y (cy, (((_, e, at), _), i)).
          bind
            (beside_context-Returns st y.0 (
              beside_info-Returns st y.1 (
                Returns-map_err _ (
                  beside_disk-Returns st y.1.device (
                    whole.write_whole (take k buf) y.1.device.disk (omega arith)
                      (All-take IsByte k buf bytes))))))
            λ m z (cz, (((q, d), _), j)).
              let nonzero : (m == 0) ≡ false = ground arith in
              let same = cz ∙ cy in
              let off : z.0.offset ≡ c.offset = ap (λ f. f.offset) same ∙ same_offset in
              let written : content z.1.device.disk
                  ≡ patch (content x.1.device.disk) (place c n) (take k buf) =
                d ∙ ap₂ (λ f p. patch f p (take k buf)) e at in
              let all : m ≡ k = q ∙ count in
              let moved : (z.0.offset + m) % 2 ^ 32 ≡ c.offset + m = omega arith in
              rw nonzero (
                returns (
                  all,
                  ap (slice (content z.1.device.disk) (place c n)) q
                      ∙ ap (λ f. slice f (place c n) (length (take k buf))) written
                      ∙ slice-patch (content x.1.device.disk) (place c n) (take k buf)
                      ∙ ap (λ l. take l buf) (sym all),
                  moved,
                  refl,
                  ap (λ f. f.first_cluster) same,
                  entry_size-written_at options.current_date_time ((z.0.offset + m) % 2 ^ 32)
                        z.0.entry
                      ∙ ap₂ grown_size moved (ap size same),
                  same_tables x.1.device z.1.device (λ l hi lo.
                      ap (λ f. f l) written
                      ∙ patch_outside (content x.1.device.disk) (place c n) (take k buf) l
                          (inl (omega arith))),
                  j ∙ i,
                  entry_cluster-written_at fs.fat_type options.current_date_time
                        ((z.0.offset + m) % 2 ^ 32) z.0.entry
                      ∙ ap (λ f. entry_cluster fs.fat_type f.entry) same,
                ))

  -- The cluster behind the current one.
  pub next_at :
      (c : FileContext) (p : ℕ) (o : Option ℕ) (v : Mounted st.State)
      → c.current_cluster ≡ some p
      → p < entries
      → next_of (tables v p) ≡ o
      → Returns
          (λ a w. (a ≡ o) × (tables w ≡ tables v) × (w.fs_info ≡ v.fs_info))
          (next_cluster st provided fs c.first_cluster c.current_cluster v)
  next_at c p o v e h f =
      subst
        (λ x.
          Returns (λ a w. (a ≡ o) × (tables w ≡ tables v) × (w.fs_info ≡ v.fs_info))
            (next_cluster st provided fs c.first_cluster x v))
        (sym e)
        (mono (next_cluster_in laws whole fs kept region fat v c.first_cluster p h)
          (λ a w (r, s, i). (r ∙ f, s, i)) (λ _ _ b. b))

  cluster_to_write_in :
      (c : FileContext) (n : ℕ) (v : Mounted st.State)
      → Points fs entries (tables v) c n
      → Returns
          (λ a y. (a ≡ n) × ((y.0 ≡ c) × (tables y.1 ≡ tables v) × (y.1.fs_info ≡ v.fs_info)))
          (cluster_to_write st provided fs options c (c, v))
  unfolding cluster_to_write next_cluster extend_chain
  cluster_to_write_in c n v (inside q e) = rw (q, e) (returns (refl, (refl, refl, refl)))
  cluster_to_write_in c n v (at_first q e f) = rw (q, e, f) (returns (refl, (refl, refl, refl)))
  cluster_to_write_in c n v (behind {p} q e h f) = rw q (
      bind (beside_context-Returns st c (next_at c p (some n) v e h (ap next_of f)))
        λ o y (cy, (r, s, i)). rw r (returns (refl, (cy, s, i))))

  -- Over a disk as in slice_storage-IsStorage whose table keeps the contract, for a file whose
  -- offset points into a cluster (the current one inside a cluster; at a boundary the first one,
  -- or the next one in the table) that lies behind the first table and on the disk: a write of
  -- bytes with a write size above 0 returns that size, the disk holds those bytes at the place
  -- of the offset, the offset moves on by them, the cluster is the current one, the size of the
  -- entry, if any, is the larger of the old one and the new offset, and the first cluster, also
  -- that of the entry, the table and the counters are what they were.
  pub write_file_lem :
      (c : FileContext) (buf : List ℕ) (n : ℕ) (v : Mounted st.State)
      → Points fs entries (tables v) c n
      → Behind n
      → 0 < cluster_size fs
      → 0 < write_size fs c (length buf)
      → All IsByte buf
      → Returns (Wrote c buf n (c, v)) (write_file st provided fs options buf (c, v))
  unfolding write_file
  write_file_lem c buf n v points placed some_bytes pos bytes =
      let nonzero : (write_size fs c (length buf) == 0) ≡ false = ground arith in
      rw nonzero (
        bind (beside_context-Returns st c (mark_dirty_in v)) λ _ x (cx, (s, i)). rw cx (
          bind_value _
            (cluster_to_write_in c n x.1 (subst (λ t. Points fs entries t c n) (sym s) points))
            λ y (cy, s', i').
              mono (write_cluster_in c buf n y (ap (λ d. d.offset) cy) placed some_bytes pos bytes)
                (λ k z (a, b, off, cur, first, grows, s'', i'', en). (
                  a,
                  b,
                  off,
                  cur,
                  first ∙ ap (λ d. d.first_cluster) cy,
                  grows ∙ ap (λ d. grown_size (c.offset + k) (size d)) cy,
                  s'' ∙ s' ∙ s,
                  i'' ∙ i' ∙ i,
                  en ∙ ap (λ d. entry_cluster fs.fat_type d.entry) cy,
                ))
                (λ _ _ b. b)))
