-- ===== src/File/Truncates.antt =====
-- `truncate` of a file (embedded-fatfs/src/file.rs).
use embedded_fatfs.Base.{
  ℕ, ◌+◌, ◌≤◌, ◌≡◌, Bool, true, false, arith, refl, sym, ap, ◌∙◌, inl, inr, ◌==◌, none, some, subst,
  Bool-cases,
}
use embedded_fatfs.Base.{List, length}
use embedded_fatfs.Io.{Storage}
use embedded_fatfs.Io.Provided.{Provided, IsProvided}
use embedded_fatfs.Io.Ends.{Returns, returns, bind, mono}
use embedded_fatfs.Io.Laws.{IsStorage}
use embedded_fatfs.FatType.{FatType}
use embedded_fatfs.DirEntry.{file_size}
use embedded_fatfs.DirEntry.Editor.{DirEntryEditor, edit_size}
use embedded_fatfs.DiskSlice.{fat_slice}
use embedded_fatfs.Table.{fat_trait}
use embedded_fatfs.Table.Contract.{Table, IsFat}
use embedded_fatfs.Chain.Spec.{Chain, Distinct, Freed, Truncated}
use embedded_fatfs.FileSystem.{FileSystem, Mounted}
use embedded_fatfs.FileSystem.Clusters.{volume}
use embedded_fatfs.FileSystem.Flags.{IsWhole}
use embedded_fatfs.FileSystem.Region.{IsRegion}
use embedded_fatfs.FileSystem.Volume.{region_laws}
use embedded_fatfs.FileSystem.Counts.{Counted, table_of}
use embedded_fatfs.FileSystem.Frees.{
  InVolume, free_cluster_chain-Counted, truncate_cluster_chain-Counted,
}
use embedded_fatfs.File.{FileContext, size, truncated, free_behind, truncate_entry, truncate_file}
use embedded_fatfs.File.Cursor.{beside_context-Returns}
use embedded_fatfs.File.Firsts.{entry_cluster, first_cluster-truncated}
use embedded_fatfs.File.Sizes.{file_size-edit_size}
use embedded_fatfs.File.Extends.{entry_size-edit_first_cluster}

-- The cluster from which the chain is cut: the current one, or the first one at offset 0.
pub data CutAt (c : FileContext) (n : ℕ) : Type 0 where
  behind_current : (c.offset == 0) ≡ false → c.current_cluster ≡ some n → CutAt c n
  at_start :
      (c.offset == 0) ≡ true → c.current_cluster ≡ none → c.first_cluster ≡ some n → CutAt c n

file_size-truncated :
    (fat_type : FatType) (offset s : ℕ) (e : DirEntryEditor)
    → file_size e.entry ≡ some s
    → file_size (truncated fat_type offset e).entry ≡ some offset
file_size-truncated fat_type offset s e q = elim (Bool-cases (offset == 0)) [
  | inl z ↦ rw z (
      entry_size-edit_first_cluster none fat_type (some (edit_size offset e))
      ∙ file_size-edit_size offset e s q)
  | inr nz ↦ rw nz (file_size-edit_size offset e s q)
]

module _ {st : Storage} (laws : IsStorage st) (whole : IsWhole laws) (fs : FileSystem)
    {provided : Provided} (kept : IsProvided provided)
    (region : IsRegion fs laws.size (fat_slice fs.bpb)) {entries : ℕ} {table : (ℕ → ℕ) → Table}
    (fat : IsFat
      (region_laws laws whole fs kept (fat_slice fs.bpb) region)
      (fat_trait (volume st provided fs) fs.fat_type)
      entries
      table)
    (v : Mounted st.State) (room : fs.total_clusters + 2 ≤ entries)
    (counted : Counted laws whole fs kept region fat v) where
  abbrev pub tables : Mounted st.State → Table
  tables = table_of laws whole fs kept region fat

  -- The chain and the first cluster, behind a cut at offset 0 and behind any other.
  abbrev pub Cut : Bool → FileContext → List ℕ → FileContext × Mounted st.State → Type 0
  Cut true c ns y =
      Freed entries (tables v) ns (tables y.1)
      × (y.0.first_cluster ≡ none)
      × (entry_cluster fs.fat_type y.0.entry ≡ none)
  Cut false c ns y =
      Truncated entries (tables v) ns (tables y.1)
      × (y.0.first_cluster ≡ c.first_cluster)
      × (entry_cluster fs.fat_type y.0.entry ≡ entry_cluster fs.fat_type c.entry)

  -- What a cut leaves behind.
  abbrev pub Shortened : FileContext → List ℕ → FileContext × Mounted st.State → Type 0
  Shortened c ns y =
      Cut (c.offset == 0) c ns y
      × (size y.0 ≡ some c.offset)
      × (y.0.offset ≡ c.offset)
      × (y.0.current_cluster ≡ c.current_cluster)
      × Counted laws whole fs kept region fat y.1

  -- The context when its entry is cut.
  abbrev cut_entry : FileContext → DirEntryEditor → FileContext
  cut_entry c e = record c { entry = some (truncated fs.fat_type c.offset e) }

  -- The first cluster of the entry behind the cut.
  abbrev CutEntry : FileContext → FileContext → Type 0
  CutEntry c d =
      ((c.offset == 0) ≡ true → entry_cluster fs.fat_type d.entry ≡ none)
      × ((c.offset == 0) ≡ false
          → entry_cluster fs.fat_type d.entry ≡ entry_cluster fs.fat_type c.entry)

  free_behind_in :
      (c d : FileContext) (fuel n : ℕ) {ns : List ℕ}
      → size d ≡ some c.offset
      → d.offset ≡ c.offset
      → d.current_cluster ≡ c.current_cluster
      → d.first_cluster ≡ c.first_cluster
      → CutEntry c d
      → CutAt c n
      → Chain (tables v) n ns
      → Distinct ns
      → InVolume fs.total_clusters ns
      → length ns ≤ fuel
      → Returns
          (λ _ y. Shortened c ns y)
          (free_behind st provided fs fuel c.offset c.first_cluster c.current_cluster (d, v))
  free_behind_in c d fuel n {ns} sz off cur fst (at_zero, beyond) (behind_current q current) chain
        distinct within enough =
      subst
        (λ o.
          Returns (λ _ y. Shortened c ns y)
            (free_behind st provided fs fuel c.offset c.first_cluster o (d, v)))
        (sym current)
        (rw q (
          mono
            (beside_context-Returns st d (
              truncate_cluster_chain-Counted laws whole fs kept region fat v room counted fuel chain
                distinct within (omega arith)))
            (λ _ y (same, (f, k)). (
              (
                f,
                ap (λ x. x.first_cluster) same ∙ fst,
                ap (λ x. entry_cluster fs.fat_type x.entry) same ∙ beyond q,
              ),
              ap size same ∙ sz,
              ap (λ x. x.offset) same ∙ off,
              ap (λ x. x.current_cluster) same ∙ cur,
              k,
            ))
            (λ _ _ b. b)))
  free_behind_in c d fuel n {ns} sz off cur fst (at_zero, beyond) (at_start q current first) chain
        distinct within enough =
      subst
        (λ o.
          Returns (λ _ y. Shortened c ns y)
            (free_behind st provided fs fuel c.offset c.first_cluster o (d, v)))
        (sym current)
        (subst
          (λ o.
            Returns (λ _ y. Shortened c ns y)
              (free_behind st provided fs fuel c.offset o none (d, v)))
          (sym first)
          (rw q (
            bind
              (beside_context-Returns st d (
                free_cluster_chain-Counted laws whole fs kept region fat v room counted fuel chain
                  distinct within enough))
              λ _ y (same, (f, k)). returns (
                (f, refl, ap (λ x. entry_cluster fs.fat_type x.entry) same ∙ at_zero q),
                ap size same ∙ sz,
                ap (λ x. x.offset) same ∙ off,
                ap (λ x. x.current_cluster) same ∙ cur,
                k,
              ))))

  -- Over a disk as in slice_storage-IsStorage whose table keeps the contract, with the clusters
  -- of the volume in the table and a count that is unknown or that of the free clusters, for a
  -- file whose entry has a size: where the chain from its current cluster, or from its first
  -- cluster if the offset is 0, has distinct clusters of the volume and no more than the fuel,
  -- truncate returns; the size is the offset; at offset 0 the whole chain is free and there is
  -- no first cluster, in the context and in the entry, elsewhere the current cluster ends the
  -- chain, those behind it are free and the first one of both is what it was; every other entry
  -- of the table, the offset and the current cluster are what they were, and the count is again
  -- unknown or that of the free clusters.
  pub truncate_file_lem :
      (c : FileContext) (e : DirEntryEditor) (s fuel n : ℕ) {ns : List ℕ}
      → c.entry ≡ some e
      → file_size e.entry ≡ some s
      → CutAt c n
      → Chain (tables v) n ns
      → Distinct ns
      → InVolume fs.total_clusters ns
      → length ns ≤ fuel
      → Returns (λ _ y. Shortened c ns y) (truncate_file st provided fs fuel (c, v))
  unfolding truncate_file
  truncate_file_lem c e s fuel n {ns} entry sized cut chain distinct within enough =
      subst (λ o. Returns (λ _ y. Shortened c ns y) (truncate_entry st provided fs fuel c o (c, v)))
        (sym entry)
        (free_behind_in c (cut_entry c e) fuel n
          (file_size-truncated fs.fat_type c.offset s e sized) refl refl refl
          (let (at_zero, beyond) = first_cluster-truncated fs.fat_type c.offset e in
            (at_zero, λ q. beyond q ∙ ap (entry_cluster fs.fat_type) (sym entry)))
          cut chain distinct within enough)
