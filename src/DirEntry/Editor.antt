-- ===== src/DirEntry/Editor.antt =====
-- `DirEntryEditor` of embedded-fatfs/src/dir_entry.rs: an entry that is changed in memory and written
-- back when it is flushed. `same_date`, `same_time` and `same_cluster` are the derived equalities.
pub mod Laws
pub mod Edits
use embedded_fatfs.Base.{
  ℕ, ◌+◌, ◌≤◌, ◌≡◌, Bool, true, false, not, ◌&&◌, ◌==◌, if◌then◌else◌, Option, none, some,
}
use embedded_fatfs.Base.{arith, refl, sym, ap, ◌∙◌, Bool-cases, inl, inr, length}
use embedded_fatfs.Base.Bytes.{slice, patch, slice-patch}
use embedded_fatfs.Io.{
  Storage, Run, Cmd, ok, err, panic, out_of_fuel, pure, and_then, ◌>>=◌, ◌>>◌, start,
}
use embedded_fatfs.Io.Ends.{Ends, Returns, returns, bind, mono}
use embedded_fatfs.Io.Laws.{IsStorage}
use embedded_fatfs.Io.Stream.{Due}
use embedded_fatfs.FatType.{FatType}
use embedded_fatfs.Time.{Date, Time, DateTime}
use embedded_fatfs.DirEntry.{
  DirFileEntryData, file, first_cluster, set_first_cluster, file_size, set_size,
}
use embedded_fatfs.DirEntry.{created, accessed, modified, set_created, set_accessed, set_modified}
use embedded_fatfs.DirEntry.Codec.{serialize_file}
use embedded_fatfs.DirEntry.Codec.Parts.{FitsFile, entry_bytes, write_file_in}
use embedded_fatfs.DirEntry.Codec.Laws.{length-entry_bytes}
use embedded_fatfs.DirEntry.Fields.{FitsCluster, first_cluster-set_first_cluster}

pub record DirEntryEditor : Type 0 where
  pub entry : DirFileEntryData
  pub pos : ℕ
  pub dirty : Bool

abbrev pub new_editor : DirFileEntryData → ℕ → DirEntryEditor
new_editor entry pos = record { entry = entry; pos = pos; dirty = false }

abbrev pub same_date : Date → Date → Bool
same_date a b = (a.year == b.year) && ((a.month == b.month) && (a.day == b.day))

abbrev pub same_time : Time → Time → Bool
same_time a b =
    (a.hour == b.hour) && ((a.min == b.min) && ((a.sec == b.sec) && (a.millis == b.millis)))

abbrev pub same_date_time : DateTime → DateTime → Bool
same_date_time a b = same_date a.date b.date && same_time a.time b.time

abbrev pub same_cluster : Option ℕ → Option ℕ → Bool
same_cluster none none = true
same_cluster (some a) (some b) = a == b
same_cluster _ _ = false

-- A change of the entry, which then is to be written.
abbrev pub changed : (DirFileEntryData → DirFileEntryData) → DirEntryEditor → DirEntryEditor
changed f e = record e { entry = f e.entry; dirty = true }

unfoldable pub edit_first_cluster : Option ℕ → FatType → DirEntryEditor → DirEntryEditor
edit_first_cluster cluster fat_type e =
    if not (same_cluster cluster (first_cluster e.entry fat_type))
    then changed (set_first_cluster cluster fat_type) e
    else e

abbrev pub resized : Option ℕ → ℕ → DirEntryEditor → DirEntryEditor
resized none size e = e
resized (some n) size e = if not (size == n) then changed (set_size size) e else e

unfoldable pub edit_size : ℕ → DirEntryEditor → DirEntryEditor
edit_size size e = resized (file_size e.entry) size e

unfoldable pub edit_created : DateTime → DirEntryEditor → DirEntryEditor
edit_created t e = if not (same_date_time t (created e.entry)) then changed (set_created t) e else e

unfoldable pub edit_accessed : Date → DirEntryEditor → DirEntryEditor
edit_accessed date e =
    if not (same_date date (accessed e.entry)) then changed (set_accessed date) e else e

unfoldable pub edit_modified : DateTime → DirEntryEditor → DirEntryEditor
edit_modified t e =
    if not (same_date_time t (modified e.entry)) then changed (set_modified t) e else e

module _ (st : Storage) where
  open st use {State, Failure}

  abbrev pub write_back : DirEntryEditor → Cmd State Failure (Unit {0})
  write_back e = do st.seek (start e.pos); serialize_file st e.entry

  -- `flush`, which gives the editor back
  unfoldable pub flush_editor : DirEntryEditor → Cmd State Failure DirEntryEditor
  flush_editor e = if e.dirty then (do write_back e; pure (record e { dirty = false })) else pure e
