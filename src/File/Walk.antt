-- ===== src/File/Walk.antt =====
-- `seek` of a file along its chain (embedded-fatfs/src/file.rs).
use embedded_fatfs.Base.{
  ℕ, zero, suc, ◌+◌, ◌-◌, ◌^◌, ◌≤◌, ◌<◌, ◌≡◌, false, arith, refl, sym, ap, ◌∙◌, inl, inr, ◌==◌,
  ==_iff, none, some, Bool-cases,
}
use embedded_fatfs.Base.{List, length, get_or}
use embedded_fatfs.Io.{Storage, SeekFrom}
use embedded_fatfs.Io.Provided.{Provided, IsProvided}
use embedded_fatfs.Io.Ends.{Returns, returns, bind}
use embedded_fatfs.Io.Laws.{IsStorage}
use embedded_fatfs.DiskSlice.{fat_slice}
use embedded_fatfs.Table.{fat_trait, next_of}
use embedded_fatfs.Table.Contract.{Table, IsFat}
use embedded_fatfs.Chain.{new}
use embedded_fatfs.Chain.Free.{next_in, step}
use embedded_fatfs.Chain.Spec.{Chain, last, link, Within}
use embedded_fatfs.FileSystem.{FileSystem, Flagged, Mounted, cluster_size, clusters_from_bytes}
use embedded_fatfs.FileSystem.Clusters.{volume}
use embedded_fatfs.FileSystem.Flags.{IsWhole}
use embedded_fatfs.FileSystem.Region.{IsRegion, view}
use embedded_fatfs.FileSystem.Volume.{region_laws}
use embedded_fatfs.FileSystem.Counts.{beside_info-Returns, drop_offset-Ends, table_of}
use embedded_fatfs.Base.{◌*◌, min, unwrap_or}
use embedded_fatfs.File.{FileContext, size}
use embedded_fatfs.File.Cursor.{beside_context-Returns}
use embedded_fatfs.File.Seek.{skip_clusters, find_cluster, seek_file, clipped}
use embedded_fatfs.File.Targets.{
  cluster_at, counted_at, Aims, Aims-target_offset, clipped_lem, target_offset-bound, clipped-bound,
  clusters_from_bytes-positive, clusters_from_bytes-zero, counted_at-same, counted_at_lem,
  clusters_from_bytes-le,
}

module _ {st : Storage} (laws : IsStorage st) (whole : IsWhole laws) (fs : FileSystem)
    {provided : Provided} (kept : IsProvided provided)
    (region : IsRegion fs laws.size (fat_slice fs.bpb)) {entries : ℕ} {table : (ℕ → ℕ) → Table}
    (fat : IsFat
      (region_laws laws whole fs kept (fat_slice fs.bpb) region)
      (fat_trait (volume st provided fs) fs.fat_type)
      entries
      table) where
  open laws use {content}

  abbrev tables : Mounted st.State → Table
  tables = table_of laws whole fs kept region fat

  abbrev keeps : IsStorage (volume st provided fs)
  keeps = region_laws laws whole fs kept (fat_slice fs.bpb) region

  skip_clusters_in :
      (rounds i offset : ℕ) (c : ℕ → ℕ) {first : ℕ} {ns : List ℕ} (s : ℕ × Flagged st.State)
      → Chain (table c) first ns
      → keeps.content s ≡ c
      → Within entries ns
      → rounds < length ns
      → Returns
          (λ r u. (r ≡ (get_or ns rounds 0, offset)) × (keeps.content u ≡ c))
          (skip_clusters st provided fs rounds i first offset (new first) s)
  unfolding skip_clusters
  skip_clusters_in zero i offset c s (last e) g inside h = returns (refl, g)
  skip_clusters_in zero i offset c s (link e rest) g inside h = returns (refl, g)
  skip_clusters_in (suc rounds) i offset c s (last e) g inside h = absurd (omega arith)
  skip_clusters_in (suc rounds) i offset c s (link {n} {m} e rest) g (hn, hs) h =
      bind (next_in keeps fs.fat_type fat c n g hn) λ r u (q, g').
        let here : r ≡ step keeps fs.fat_type fat (some m) =
          q ∙ ap (λ x. step keeps fs.fat_type fat (next_of x)) e in
        rw here (skip_clusters_in rounds (i + 1) offset c u rest g' hs (omega arith))

  abbrev Walked : ℕ → List ℕ → Mounted st.State → ℕ × ℕ → Flagged st.State → Type 0
  Walked m ns v r f =
      (r ≡ (get_or ns (clusters_from_bytes fs m - 1) 0, m))
      × (view (fat_slice fs.bpb) (content f.disk) ≡ view (fat_slice fs.bpb) (content v.device.disk))

  -- A search for the cluster of an offset that the chain holds.
  find_cluster_in :
      (c : FileContext) (m : ℕ) (v : Mounted st.State) {first : ℕ} {ns : List ℕ}
      → 0 < cluster_size fs
      → cluster_size fs < 2 ^ 32
      → m < 2 ^ 32
      → c.first_cluster ≡ some first
      → Chain (tables v) first ns
      → Within entries ns
      → clusters_from_bytes fs m ≤ length ns
      → c.current_cluster ≡ counted_at fs ns c.offset
      → Returns
          (λ r w. (r ≡ (counted_at fs ns m, m)) × (tables w ≡ tables v) × (w.fs_info ≡ v.fs_info))
          (find_cluster st provided fs c m v)
  unfolding find_cluster
  find_cluster_in c m v {first} {ns} some_bytes few limit f chain inside room here =
      elim (Bool-cases (m == 0)) [
        | inl z ↦ rw z (returns (ap (λ k. (none, k)) refl, refl, refl))
        | inr nz ↦
            let pos : 0 < clusters_from_bytes fs m =
              clusters_from_bytes-positive fs m some_bytes few (ground arith) limit in
            let nonzero : (clusters_from_bytes fs m == 0) ≡ false = ground arith in
            elim (Bool-cases (clusters_from_bytes fs m == clusters_from_bytes fs c.offset)) [
              | inl same ↦
                  let k =
                    (==_iff (clusters_from_bytes fs m) (clusters_from_bytes fs c.offset)).0 same in
                  let moved : (c.offset == 0) ≡ false = elim (Bool-cases (c.offset == 0)) [
                    | inl z ↦
                        let none_used : clusters_from_bytes fs c.offset ≡ 0 =
                          ap (clusters_from_bytes fs) ((==_iff c.offset 0).0 z)
                          ∙ clusters_from_bytes-zero fs some_bytes few in
                        absurd (omega (arith, pos, k, none_used))
                    | inr q ↦ q
                  ] in
                  rw (nz, same)
                    (returns (
                      ap (λ o. (o, m)) (here ∙ counted_at-same fs ns c.offset m moved (sym k)),
                      refl,
                      refl,
                    ))
              | inr other ↦
                  rw (nz, other, f, nonzero)
                    (bind
                      (beside_info-Returns st {P = Walked m ns v} v (
                        drop_offset-Ends st fs provided {P = Walked m ns v} (
                          skip_clusters_in (clusters_from_bytes fs m - 1) 0 m
                            (view (fat_slice fs.bpb) (content v.device.disk)) (0, v.device) chain
                            refl inside (omega arith))))
                      λ r w ((q, same), i). rw q (returns (refl, ap table same, i)))
            ]
      ]

  -- Where a seek ends, and what it keeps.
  abbrev pub Sought :
      FileContext → List ℕ → ℕ → Mounted st.State → ℕ → FileContext × Mounted st.State → Type 0
  Sought c ns m v r y =
      (r ≡ m)
      × (y.0.offset ≡ m)
      × (y.0.current_cluster ≡ cluster_at fs ns m)
      × (y.0.first_cluster ≡ c.first_cluster)
      × (size y.0 ≡ size c)
      × (tables y.1 ≡ tables v)
      × (y.1.fs_info ≡ v.fs_info)

  -- Over a disk as in slice_storage-IsStorage whose table keeps the contract, for a file whose
  -- first cluster begins a chain within the table and whose current cluster is the one of its
  -- offset in that chain (none at 0, and the one of the byte before it behind that), with an
  -- offset and a cluster size that are u32 and clusters that are not empty: a seek that aims
  -- from the start, the offset or the end at a u32, which is cut at the size of the entry, if
  -- any, and which the bytes of the chain hold, returns that offset and leaves the file there
  -- with the current cluster again the one of its offset; the first cluster, the size, the table
  -- and the counters are what they were.
  pub seek_file_lem :
      (c : FileContext) (target : SeekFrom) (m : ℕ) (v : Mounted st.State) {first a : ℕ}
      {ns : List ℕ}
      → Aims c target a
      → m ≡ min a (unwrap_or (size c) a)
      → 0 < cluster_size fs
      → cluster_size fs < 2 ^ 32
      → c.offset < 2 ^ 32
      → c.first_cluster ≡ some first
      → Chain (tables v) first ns
      → Within entries ns
      → m ≤ length ns * cluster_size fs
      → c.current_cluster ≡ cluster_at fs ns c.offset
      → Returns (Sought c ns m v) (seek_file st provided fs target (c, v))
  unfolding seek_file
  seek_file_lem c target m v {first} {a} {ns} aims e some_bytes few old f chain inside room here =
      let t = Aims-target_offset c target a aims in
      let cut : m ≡ clipped a (size c) = e ∙ sym (clipped_lem a (size c)) in
      let limit : m < 2 ^ 32 =
        omega (arith, cut, clipped-bound a (size c), target_offset-bound c target a t) in
      rw (t, sym cut)
        (elim (Bool-cases (m == c.offset)) [
          | inl stay ↦
              let same : m ≡ c.offset = (==_iff m c.offset).0 stay in
              rw stay (
                returns (
                  sym same,
                  sym same,
                  here ∙ ap (cluster_at fs ns) (sym same),
                  refl,
                  refl,
                  refl,
                  refl,
                ))
          | inr go ↦ rw go (
              bind
                (beside_context-Returns st c (
                  find_cluster_in c m v some_bytes few limit f chain inside
                    (clusters_from_bytes-le fs m (length ns) some_bytes few limit room)
                    (here ∙ sym (counted_at_lem fs ns c.offset some_bytes few old))))
                λ r x (cx, (q, same, i)). returns (
                  ap (λ z. z.1) q,
                  ap (λ z. z.1) q,
                  ap (λ z. z.0) q ∙ counted_at_lem fs ns m some_bytes few limit,
                  ap (λ d. d.first_cluster) cx,
                  ap size cx,
                  same,
                  i,
                ))
        ])
