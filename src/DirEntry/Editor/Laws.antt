-- ===== src/DirEntry/Editor/Laws.antt =====
-- What an editor knows of its entry on the storage.
use embedded_fatfs.Base.{
  ℕ, ◌+◌, ◌≤◌, ◌≡◌, Bool, true, false, not, ◌==◌, ==_iff, if◌then◌else◌, Option, none, some,
}
use embedded_fatfs.Base.{arith, refl, sym, ap, ◌∙◌, Bool-cases, inl, inr}
use embedded_fatfs.Base.Bytes.{slice, patch, slice-patch}
use embedded_fatfs.Io.{Storage, pure, ◌>>◌}
use embedded_fatfs.Io.Ends.{Returns, returns, bind}
use embedded_fatfs.Io.Laws.{IsStorage}
use embedded_fatfs.FatType.{FatType}
use embedded_fatfs.Time.{Date, DateTime}
use embedded_fatfs.DirEntry.{
  DirFileEntryData, file, first_cluster, file_size, set_first_cluster, set_size, set_created,
  set_accessed, set_modified,
}
use embedded_fatfs.DirEntry.Codec.Parts.{FitsFile, entry_bytes, write_file_in}
use embedded_fatfs.DirEntry.Codec.Laws.{length-entry_bytes}
use embedded_fatfs.DirEntry.Editor.{
  DirEntryEditor, changed, edit_first_cluster, edit_size, edit_created, resized,
}
use embedded_fatfs.DirEntry.Editor.{
  edit_accessed, edit_modified, flush_editor, write_back, same_cluster,
}
use embedded_fatfs.DirEntry.Fields.{FitsCluster, first_cluster-set_first_cluster}

-- A clean editor holds the entry that is on the storage.
abbrev pub Synced : (ℕ → ℕ) → DirEntryEditor → Type 0
Synced c e = e.dirty ≡ false → slice c e.pos 32 ≡ entry_bytes (file e.entry)

-- A conditional change keeps it, since what changes the entry marks it as dirty.
changed-Synced :
    (c : ℕ → ℕ) (f : DirFileEntryData → DirFileEntryData) (b : Bool) (e : DirEntryEditor)
    → Synced c e
    → Synced c (if b then changed f e else e)
changed-Synced c f true e h q = absurd (no q)
  where
    no : true ≡ false → ⊥
    no q = ground arith
changed-Synced c f false e h q = h q

resized-Synced :
    (c : ℕ → ℕ) (o : Option ℕ) (size : ℕ) (e : DirEntryEditor)
    → Synced c e
    → Synced c (resized o size e)
resized-Synced c none size e h = h
resized-Synced c (some n) size e h = changed-Synced c (set_size size) (not (size == n)) e h

-- No setter, whether it changes the entry or finds it as wanted, makes a clean editor differ
-- from the entry on the storage.
pub edits-Synced :
    (c : ℕ → ℕ) (e : DirEntryEditor) (cluster : Option ℕ) (fat_type : FatType) (size : ℕ)
    (t : DateTime) (date : Date)
    → Synced c e
    → Synced c (edit_first_cluster cluster fat_type e)
      × Synced c (edit_size size e)
      × Synced c (edit_created t e)
      × Synced c (edit_accessed date e)
      × Synced c (edit_modified t e)
unfolding edit_first_cluster edit_size edit_created edit_accessed edit_modified
edits-Synced c e cluster fat_type size t date h = (
  changed-Synced c (set_first_cluster cluster fat_type) _ e h,
  resized-Synced c (file_size e.entry) size e h,
  changed-Synced c (set_created t) _ e h,
  changed-Synced c (set_accessed date) _ e h,
  changed-Synced c (set_modified t) _ e h,
)

same_cluster-eq : (a b : Option ℕ) → same_cluster a b ≡ true → a ≡ b
same_cluster-eq none none h = refl
same_cluster-eq none (some b) h = ground arith
same_cluster-eq (some a) none h = ground arith
same_cluster-eq (some a) (some b) h = ap some ((==_iff a b).0 h)

-- After the setter an entry has the first cluster that was set, on each of its branches, for a
-- cluster number that an entry of that FAT type can hold.
pub first_cluster-edit_first_cluster :
    (cluster : Option ℕ) (fat_type : FatType) (e : DirEntryEditor)
    → FitsCluster fat_type cluster
    → first_cluster (edit_first_cluster cluster fat_type e).entry fat_type ≡ cluster
unfolding edit_first_cluster
first_cluster-edit_first_cluster cluster fat_type e h =
    elim (Bool-cases (same_cluster cluster (first_cluster e.entry fat_type))) [
      | inl q ↦ rw q (sym (same_cluster-eq cluster (first_cluster e.entry fat_type) q))
      | inr q ↦ rw q (first_cluster-set_first_cluster fat_type cluster e.entry h)
    ]

module _ {st : Storage} (laws : IsStorage st) where
  open st use {State}
  open laws use {content, size}

  write_back_lem :
      (e : DirEntryEditor) (s : State)
      → FitsFile e.entry
      → e.pos + 32 ≤ size
      → Returns
          (λ _ t. content t ≡ patch (content s) e.pos (entry_bytes (file e.entry)))
          (write_back st e s)
  write_back_lem e s f room =
      let bytes = entry_bytes (file e.entry) in
      let count = length-entry_bytes (file e.entry) f in
      bind (laws.seek_start e.pos s (omega arith)) λ _ t (_, kept, at).
        write_file_in laws (patch (content s) e.pos bytes) e.entry f (record {
          becomes =
              ap (λ c. patch c (laws.position t) bytes) kept
              ∙ ap (λ p. patch (content s) p bytes) at;
          room = omega (arith, at, count);
        })

  flush_either :
      (dirty : Bool) (e : DirEntryEditor) (s : State)
      → e.dirty ≡ dirty
      → FitsFile e.entry
      → e.pos + 32 ≤ size
      → Synced (content s) e
      → Returns
          (λ e' t.
            (e' ≡ record e { dirty = false })
            × (slice (content t) e.pos 32 ≡ entry_bytes (file e.entry))
            × (e.dirty ≡ false → content t ≡ content s))
          ((if dirty then (do write_back st e; pure (record e { dirty = false })) else pure e) s)
  flush_either true e s q f room h = bind (write_back_lem e s f room) λ _ t written. returns (
    refl,
    ap (λ c. slice c e.pos 32) written
        ∙ ap (slice (patch (content s) e.pos (entry_bytes (file e.entry))) e.pos)
            (sym (length-entry_bytes (file e.entry) f))
        ∙ slice-patch (content s) e.pos (entry_bytes (file e.entry)),
    λ r. ground (arith, q, r),
  )
  flush_either false e s q f room h = returns (ap (λ d. record e { dirty = d }) q, h q, λ _. refl)

  -- For an editor that, while clean, agrees with the storage, whose entry has its fields in
  -- range and lies on the storage: a flush returns a clean editor of the same entry at the same
  -- position, and the storage holds the entry there; a clean editor leaves the content as it is.
  pub flush_editor_lem :
      (e : DirEntryEditor) (s : State)
      → FitsFile e.entry
      → e.pos + 32 ≤ size
      → Synced (content s) e
      → Returns
          (λ e' t.
            (e' ≡ record e { dirty = false })
            × (slice (content t) e.pos 32 ≡ entry_bytes (file e.entry))
            × (e.dirty ≡ false → content t ≡ content s))
          (flush_editor st e s)
  unfolding flush_editor
  flush_editor_lem e s f room h = flush_either e.dirty e s refl f room h
