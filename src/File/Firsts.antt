-- ===== src/File/Firsts.antt =====
-- The first cluster in the entry of a file behind its changes (embedded-fatfs/src/file.rs).
use embedded_fatfs.Base.{
  ℕ, ◌≡◌, true, false, refl, ◌∙◌, inl, inr, ◌==◌, Option, none, some, Bool-cases, ltb,
}
use embedded_fatfs.FatType.{FatType}
use embedded_fatfs.Time.{DateTime}
use embedded_fatfs.DirEntry.{first_cluster, file_size, modified}
use embedded_fatfs.DirEntry.Editor.{
  DirEntryEditor, edit_modified, edit_size, edit_first_cluster, same_date_time, resized,
}
use embedded_fatfs.DirEntry.Editor.Laws.{first_cluster-edit_first_cluster}
use embedded_fatfs.DirEntry.Fields.{FitsCluster}
use embedded_fatfs.File.{edit, written_at, grown, truncated}

-- The first cluster that the entry of a file has, if there is an entry.
abbrev pub entry_cluster : FatType → Option DirEntryEditor → Option ℕ
entry_cluster fat_type none = none
entry_cluster fat_type (some e) = first_cluster e.entry fat_type

first_cluster-edit_modified :
    (fat_type : FatType) (now : DateTime) (e : DirEntryEditor)
    → first_cluster (edit_modified now e).entry fat_type ≡ first_cluster e.entry fat_type
unfolding edit_modified first_cluster
first_cluster-edit_modified fat_type now e =
    elim (Bool-cases (same_date_time now (modified e.entry))) [
      | inl q ↦ rw q refl
      | inr q ↦ rw q refl
    ]

first_cluster-resized :
    (fat_type : FatType) (o : Option ℕ) (size : ℕ) (e : DirEntryEditor)
    → first_cluster (resized o size e).entry fat_type ≡ first_cluster e.entry fat_type
unfolding first_cluster
first_cluster-resized fat_type none size e = refl
first_cluster-resized fat_type (some n) size e = elim (Bool-cases (size == n)) [
  | inl q ↦ rw q refl
  | inr q ↦ rw q refl
]

first_cluster-edit_size :
    (fat_type : FatType) (size : ℕ) (e : DirEntryEditor)
    → first_cluster (edit_size size e).entry fat_type ≡ first_cluster e.entry fat_type
unfolding edit_size
first_cluster-edit_size fat_type size e = first_cluster-resized fat_type (file_size e.entry) size e

first_cluster-grown :
    (fat_type : FatType) (offset : ℕ) (o : Option ℕ) (e : DirEntryEditor)
    → first_cluster (grown offset o e).entry fat_type ≡ first_cluster e.entry fat_type
first_cluster-grown fat_type offset none e = refl
first_cluster-grown fat_type offset (some s) e = elim (Bool-cases (ltb s offset)) [
  | inl q ↦ rw q (first_cluster-edit_size fat_type offset e)
  | inr q ↦ rw q refl
]

pub entry_cluster-written_at :
    (fat_type : FatType) (now : DateTime) (offset : ℕ) (o : Option DirEntryEditor)
    → entry_cluster fat_type (edit (written_at now offset) o) ≡ entry_cluster fat_type o
entry_cluster-written_at fat_type now offset none = refl
entry_cluster-written_at fat_type now offset (some e) =
    first_cluster-grown fat_type offset (file_size (edit_modified now e).entry)
      (edit_modified now e)
    ∙ first_cluster-edit_modified fat_type now e

-- What the first cluster of the entry is to be: that of the context, where there is an entry.
abbrev pub set_in : ℕ → Option DirEntryEditor → Option ℕ
set_in n none = none
set_in n (some e) = some n

pub entry_cluster-edit_first_cluster :
    (fat_type : FatType) (n : ℕ) (o : Option DirEntryEditor)
    → FitsCluster fat_type (some n)
    → entry_cluster fat_type (edit (edit_first_cluster (some n) fat_type) o) ≡ set_in n o
entry_cluster-edit_first_cluster fat_type n none h = refl
entry_cluster-edit_first_cluster fat_type n (some e) h =
    first_cluster-edit_first_cluster (some n) fat_type e h

-- The entry of a file that is cut: at offset 0 it has no cluster.
pub first_cluster-truncated :
    (fat_type : FatType) (offset : ℕ) (e : DirEntryEditor)
    → ((offset == 0) ≡ true → first_cluster (truncated fat_type offset e).entry fat_type ≡ none)
      × ((offset == 0) ≡ false
          → first_cluster (truncated fat_type offset e).entry fat_type
            ≡ first_cluster e.entry fat_type)
first_cluster-truncated fat_type offset e = (
  λ z. rw z (first_cluster-edit_first_cluster none fat_type (edit_size offset e) tt),
  λ z. rw z (first_cluster-edit_size fat_type offset e),
)

-- The first cluster of the entry behind an allocation: the new one for an empty file.
abbrev pub entry_behind : FatType → Option ℕ → ℕ → Option DirEntryEditor → Option ℕ
entry_behind fat_type none n o = set_in n o
entry_behind fat_type (some f) n o = entry_cluster fat_type o
