-- ===== src/File/Cursor.antt =====
-- The cluster at which the offset of a file points.
use embedded_fatfs.Base.{ℕ, ◌%◌, ◌<◌, ◌≡◌, true, false, refl, ap, ◌∙◌, ◌==◌, Option, none, some}
use embedded_fatfs.Io.{Storage, Run, Error}
use embedded_fatfs.Io.Provided.{Provided, IsProvided}
use embedded_fatfs.Io.Ends.{Ends, Returns, returns, fails, bind, mono}
use embedded_fatfs.Io.Laws.{IsStorage}
use embedded_fatfs.DiskSlice.{fat_slice}
use embedded_fatfs.Table.{fat_trait, next_of}
use embedded_fatfs.Table.Value.{data_value}
use embedded_fatfs.Table.Contract.{Table, IsFat}
use embedded_fatfs.Chain.{Item, item_of, ClusterIterator}
use embedded_fatfs.Chain.Free.{next_in, step}
use embedded_fatfs.FileSystem.{FileSystem, Flagged, Mounted, cluster_size}
use embedded_fatfs.FileSystem.Clusters.{volume}
use embedded_fatfs.FileSystem.Flags.{IsWhole}
use embedded_fatfs.FileSystem.Region.{IsRegion, view}
use embedded_fatfs.FileSystem.Volume.{region_laws}
use embedded_fatfs.FileSystem.Counts.{beside_info-Returns, drop_offset-Ends, table_of}
use embedded_fatfs.File.{FileContext, beside_context, next_cluster, item_value}

-- The offset points into cluster `n`: the current one, the first, or the next in the table.
pub data Points (fs : FileSystem) (entries : ℕ) (t : Table) (c : FileContext) (n : ℕ) : Type 0 where
  inside :
      (c.offset % cluster_size fs == 0) ≡ false
      → c.current_cluster ≡ some n
      → Points fs entries t c n
  at_first :
      (c.offset % cluster_size fs == 0) ≡ true
      → c.current_cluster ≡ none
      → c.first_cluster ≡ some n
      → Points fs entries t c n
  behind :
      {p : ℕ}
      → (c.offset % cluster_size fs == 0) ≡ true
      → c.current_cluster ≡ some p
      → p < entries
      → t p ≡ data_value n
      → Points fs entries t c n

pub beside_context-Ends :
    (st : Storage) {A : Type 0} {P : A → Mounted st.State → Type 0}
    {Q : Error st.Cause → Mounted st.State → Type 0} (c : FileContext)
    {r : Run (Mounted st.State) (Error st.Cause) A}
    → Ends P Q r
    → Ends (λ a x. (x.0 ≡ c) × P a x.1) (λ e x. (x.0 ≡ c) × Q e x.1) (beside_context st c r)
beside_context-Ends st c (returns p) = returns (refl, p)
beside_context-Ends st c (fails q) = fails (refl, q)

pub beside_context-Returns :
    (st : Storage) {A : Type 0} {P : A → Mounted st.State → Type 0} (c : FileContext)
    {r : Run (Mounted st.State) (Error st.Cause) A}
    → Returns P r
    → Returns (λ a x. (x.0 ≡ c) × P a x.1) (beside_context st c r)
beside_context-Returns st c (returns p) = returns (refl, p)
beside_context-Returns st c (fails q) = absurd q

module _ {st : Storage} (laws : IsStorage st) (whole : IsWhole laws) (fs : FileSystem)
    {provided : Provided} (kept : IsProvided provided)
    (region : IsRegion fs laws.size (fat_slice fs.bpb)) {entries : ℕ} {table : (ℕ → ℕ) → Table}
    (fat : IsFat
      (region_laws laws whole fs kept (fat_slice fs.bpb) region)
      (fat_trait (volume st provided fs) fs.fat_type)
      entries
      table)
    (v : Mounted st.State) where
  open laws use {content}

  abbrev tables : Mounted st.State → Table
  tables = table_of laws whole fs kept region fat

  abbrev Stepped : ℕ → Item (volume st provided fs) × ClusterIterator → Flagged st.State → Type 0
  Stepped p r f =
      (r
        ≡ step (region_laws laws whole fs kept (fat_slice fs.bpb) region) fs.fat_type fat
            (next_of (tables v p)))
      × (view (fat_slice fs.bpb) (content f.disk) ≡ view (fat_slice fs.bpb) (content v.device.disk))

  item_value_in :
      (o : Option ℕ) (w : Mounted st.State)
      → Returns
          (λ a u. (a ≡ o) × (u ≡ w))
          (item_value st provided fs (item_of (volume st provided fs) o) w)
  item_value_in none w = returns (refl, refl)
  item_value_in (some n) w = returns (refl, refl)

  pub next_cluster_in :
      (first : Option ℕ) (p : ℕ)
      → p < entries
      → Returns
          (λ o w. (o ≡ next_of (tables v p)) × (tables w ≡ tables v) × (w.fs_info ≡ v.fs_info))
          (next_cluster st provided fs first (some p) v)
  unfolding next_cluster
  next_cluster_in first p h =
      bind
        (beside_info-Returns st {P = Stepped p} v (
          drop_offset-Ends st fs provided {P = Stepped p} (
            next_in (region_laws laws whole fs kept (fat_slice fs.bpb) region) fs.fat_type fat
              (view (fat_slice fs.bpb) (content v.device.disk)) p {s = (0, v.device)} refl h)))
        λ r w ((q, same), i). rw q (
          mono (item_value_in (next_of (tables v p)) w)
            (λ a u (e, s). (e, ap tables s ∙ ap table same, ap (λ x. x.fs_info) s ∙ i))
            (λ _ _ z. z))
