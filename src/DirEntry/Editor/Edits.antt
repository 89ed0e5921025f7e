-- ===== src/DirEntry/Editor/Edits.antt =====
-- The setters of an editor: what they set, what they keep, and the storage
-- (embedded-fatfs/src/dir_entry.rs).
use embedded_fatfs.Base.{ℕ, ◌%◌, ◌≡◌, Bool, true, false, ◌==◌, ==_iff, ◌&&◌, Option, none, some}
use embedded_fatfs.Base.{arith, refl, sym, ap, ap₂, ◌∙◌, Bool-cases, inl, inr}
use embedded_fatfs.FatType.{FatType}
use embedded_fatfs.Time.{Date, Time, DateTime, date, time}
use embedded_fatfs.Time.RoundTrip.{FitsDate, FitsTime, decode_date-encode_date}
use embedded_fatfs.Time.Times.{decode_time-encode_time, decode_time-coarse}
use embedded_fatfs.DirEntry.{
  DirFileEntryData, first_cluster, file_size, is_file, created, accessed, modified,
  set_first_cluster, set_created, set_modified,
}
use embedded_fatfs.DirEntry.Editor.{
  DirEntryEditor, edit_first_cluster, edit_size, edit_created, edit_accessed, edit_modified,
  same_date, same_time, same_date_time, same_cluster, resized,
}
use embedded_fatfs.DirEntry.Editor.Laws.{Synced, edits-Synced, first_cluster-edit_first_cluster}
use embedded_fatfs.Chain.Extend.{some-injective}
use embedded_fatfs.File.Sizes.{file_size-edit_size}
use embedded_fatfs.DirEntry.Fields.{FitsCluster}

both_true : (a b : Bool) → (a && b) ≡ true → (a ≡ true) × (b ≡ true)
both_true true b h = (refl, h)
both_true false b h = cc

same_date-eq : (a b : Date) → same_date a b ≡ true → a ≡ b
same_date-eq a b h =
    let (y, r) = both_true (a.year == b.year) _ h in
    let (m, d) = both_true (a.month == b.month) _ r in
    ap (λ n. date n a.month a.day) ((==_iff a.year b.year).0 y)
    ∙ ap (λ n. date b.year n a.day) ((==_iff a.month b.month).0 m)
    ∙ ap (date b.year b.month) ((==_iff a.day b.day).0 d)

same_time-eq : (a b : Time) → same_time a b ≡ true → a ≡ b
same_time-eq a b h =
    let (hour, r) = both_true (a.hour == b.hour) _ h in
    let (min, r') = both_true (a.min == b.min) _ r in
    let (sec, millis) = both_true (a.sec == b.sec) _ r' in
    ap (λ n. time n a.min a.sec a.millis) ((==_iff a.hour b.hour).0 hour)
    ∙ ap (λ n. time b.hour n a.sec a.millis) ((==_iff a.min b.min).0 min)
    ∙ ap (λ n. time b.hour b.min n a.millis) ((==_iff a.sec b.sec).0 sec)
    ∙ ap (time b.hour b.min b.sec) ((==_iff a.millis b.millis).0 millis)

same_date_time-eq : (a b : DateTime) → same_date_time a b ≡ true → a ≡ b
same_date_time-eq a b h =
    let (d, t) = both_true (same_date a.date b.date) _ h in
    ap₂ (λ x y. record { date = x; time = y }) (same_date-eq _ _ d) (same_time-eq _ _ t)

-- A date and time that the fields of an entry can hold, with a finer time or a coarse one.
pub record Fine (t : DateTime) : Type 0 where
  pub in_calendar : FitsDate t.date
  pub on_clock : FitsTime t.time
  pub hundredths : t.time.millis % 10 ≡ 0

pub record Coarse (t : DateTime) : Type 0 where
  pub in_calendar : FitsDate t.date
  pub on_clock : FitsTime t.time
  pub whole : t.time.millis ≡ 0
  pub even : t.time.sec % 2 ≡ 0

created-set_created : (t : DateTime) (d : DirFileEntryData) → Fine t → created (set_created t d) ≡ t
unfolding embedded_fatfs.Time.decode_date_time
created-set_created t d h =
    ap₂ (λ x y. record { date = x; time = y }) (decode_date-encode_date t.date h.in_calendar)
      (decode_time-encode_time t.time h.on_clock
        ∙ ap (time t.time.hour t.time.min t.time.sec) (omega (arith, h.hundredths)))

modified-set_modified :
    (t : DateTime) (d : DirFileEntryData) → Coarse t → modified (set_modified t d) ≡ t
unfolding embedded_fatfs.Time.decode_date_time
modified-set_modified t d h =
    ap₂ (λ x y. record { date = x; time = y }) (decode_date-encode_date t.date h.in_calendar)
      (decode_time-coarse t.time h.on_clock
        ∙ ap₂ (time t.time.hour t.time.min) (omega (arith, h.even)) (omega (arith, h.whole)))

created_in : (t : DateTime) (e : DirEntryEditor) → Fine t → created (edit_created t e).entry ≡ t
unfolding edit_created
created_in t e h = elim (Bool-cases (same_date_time t (created e.entry))) [
  | inl q ↦ rw q (sym (same_date_time-eq t (created e.entry) q))
  | inr q ↦ rw q (created-set_created t e.entry h)
]

accessed_in :
    (day : Date) (e : DirEntryEditor) → FitsDate day → accessed (edit_accessed day e).entry ≡ day
unfolding edit_accessed
accessed_in day e h = elim (Bool-cases (same_date day (accessed e.entry))) [
  | inl q ↦ rw q (sym (same_date-eq day (accessed e.entry) q))
  | inr q ↦ rw q (decode_date-encode_date day h)
]

modified_in :
    (t : DateTime) (e : DirEntryEditor) → Coarse t → modified (edit_modified t e).entry ≡ t
unfolding edit_modified
modified_in t e h = elim (Bool-cases (same_date_time t (modified e.entry))) [
  | inl q ↦ rw q (sym (same_date_time-eq t (modified e.entry) q))
  | inr q ↦ rw q (modified-set_modified t e.entry h)
]

-- Entry `d` has every field of `e` but those of a setter.
pub record OnlyFirst (e d : DirFileEntryData) : Type 0 where
  pub kept :
      d ≡ record e { first_cluster_hi = d.first_cluster_hi; first_cluster_lo = d.first_cluster_lo }

pub record OnlyCreated (e d : DirFileEntryData) : Type 0 where
  pub kept : d ≡ record e {
    create_date = d.create_date;
    create_time_0 = d.create_time_0;
    create_time_1 = d.create_time_1;
  }

pub record OnlyModified (e d : DirFileEntryData) : Type 0 where
  pub kept : d ≡ record e { modify_date = d.modify_date; modify_time = d.modify_time }

only_first :
    (cluster : Option ℕ) (fat_type : FatType) (e : DirEntryEditor)
    → OnlyFirst e.entry (edit_first_cluster cluster fat_type e).entry
unfolding edit_first_cluster set_first_cluster
only_first cluster fat_type e =
    elim (Bool-cases (same_cluster cluster (first_cluster e.entry fat_type))) [
      | inl q ↦ rw q (record { kept = refl })
      | inr q ↦ rw q (record { kept = refl })
    ]

only_created : (t : DateTime) (e : DirEntryEditor) → OnlyCreated e.entry (edit_created t e).entry
unfolding edit_created
only_created t e = elim (Bool-cases (same_date_time t (created e.entry))) [
  | inl q ↦ rw q (record { kept = refl })
  | inr q ↦ rw q (record { kept = refl })
]

only_accessed :
    (day : Date) (e : DirEntryEditor)
    → (edit_accessed day e).entry
      ≡ record e.entry { access_date = (edit_accessed day e).entry.access_date }
unfolding edit_accessed
only_accessed day e = elim (Bool-cases (same_date day (accessed e.entry))) [
  | inl q ↦ rw q refl
  | inr q ↦ rw q refl
]

only_modified : (t : DateTime) (e : DirEntryEditor) → OnlyModified e.entry (edit_modified t e).entry
unfolding edit_modified
only_modified t e = elim (Bool-cases (same_date_time t (modified e.entry))) [
  | inl q ↦ rw q (record { kept = refl })
  | inr q ↦ rw q (record { kept = refl })
]

only_resized :
    (size : ℕ) (o : Option ℕ) (e : DirEntryEditor)
    → (resized o size e).entry ≡ record e.entry { size = (resized o size e).entry.size }
only_resized size none e = refl
only_resized size (some n) e = elim (Bool-cases (size == n)) [
  | inl q ↦ rw q refl
  | inr q ↦ rw q refl
]

only_size :
    (size : ℕ) (e : DirEntryEditor)
    → (edit_size size e).entry ≡ record e.entry { size = (edit_size size e).entry.size }
unfolding edit_size
only_size size e = only_resized size (file_size e.entry) e

size_of : (d : DirFileEntryData) (n : ℕ) → file_size d ≡ some n → d.size ≡ n
size_of d n q = elim (Bool-cases (is_file d)) [
  | inl f ↦ some-injective d.size n (sym (rw f refl) ∙ q)
  | inr f ↦ absurd (ground arith)
]

module _ (c : ℕ → ℕ) (e : DirEntryEditor) where
  -- Each setter: what it sets, what it keeps of the entry, and that a clean editor holds the
  -- entry on the storage.
  pub record Edited (cluster : Option ℕ) (fat_type : FatType) (size : ℕ) (t : DateTime) (day : Date)
      (u : DateTime) : Type 0 where
    pub sets_cluster :
        first_cluster (edit_first_cluster cluster fat_type e).entry fat_type ≡ cluster
    pub sets_size : file_size (edit_size size e).entry ≡ some size
    pub sets_created : created (edit_created t e).entry ≡ t
    pub sets_accessed : accessed (edit_accessed day e).entry ≡ day
    pub sets_modified : modified (edit_modified u e).entry ≡ u
    pub keeps_cluster : OnlyFirst e.entry (edit_first_cluster cluster fat_type e).entry
    pub keeps_size : (edit_size size e).entry ≡ record e.entry { size = size }
    pub keeps_created : OnlyCreated e.entry (edit_created t e).entry
    pub keeps_accessed :
        (edit_accessed day e).entry
        ≡ record e.entry { access_date = (edit_accessed day e).entry.access_date }
    pub keeps_modified : OnlyModified e.entry (edit_modified u e).entry
    pub synced :
        Synced c (edit_first_cluster cluster fat_type e)
        × Synced c (edit_size size e)
        × Synced c (edit_created t e)
        × Synced c (edit_accessed day e)
        × Synced c (edit_modified u e)

  -- For an editor that, while clean, agrees with the storage, of an entry with a size, a cluster
  -- that the FAT type can hold, a creation time of whole hundredths of a second, a date of
  -- access and a time of modification of whole even seconds, all in the range of the fields:
  -- what each setter sets is what is read back, the other fields of the entry are kept, and no
  -- setter makes a clean editor differ from the entry on the storage.
  pub edits-Edited :
      (cluster : Option ℕ) (fat_type : FatType) (size n : ℕ) (t : DateTime) (day : Date)
      (u : DateTime)
      → Synced c e
      → FitsCluster fat_type cluster
      → file_size e.entry ≡ some n
      → Fine t
      → FitsDate day
      → Coarse u
      → Edited cluster fat_type size t day u
  edits-Edited cluster fat_type size n t day u h fits sized fine in_calendar coarse = record {
    sets_cluster = first_cluster-edit_first_cluster cluster fat_type e fits;
    sets_size = file_size-edit_size size e n sized;
    sets_created = created_in t e fine;
    sets_accessed = accessed_in day e in_calendar;
    sets_modified = modified_in u e coarse;
    keeps_cluster = only_first cluster fat_type e;
    keeps_size =
        only_size size e
        ∙ ap (λ k. record e.entry { size = k })
            (size_of (edit_size size e).entry size (file_size-edit_size size e n sized));
    keeps_created = only_created t e;
    keeps_accessed = only_accessed day e;
    keeps_modified = only_modified u e;
    synced =
        let (a, b, _, d, f) = edits-Synced c e cluster fat_type size u day h in
        let (_, _, g, _, _) = edits-Synced c e cluster fat_type size t day h in (a, b, g, d, f);
  }
