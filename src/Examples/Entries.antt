-- ===== src/Examples/Entries.antt =====
-- Directory entries in memory.
use embedded_fatfs.Base.{◌≡◌, refl, arith, [], ◌∷◌, some, true, false, length, ◌≤◌}
use embedded_fatfs.Base.Bytes.{patch, slice}
use embedded_fatfs.Io.{try_io, start, ◌>>◌}
use embedded_fatfs.Io.Ends.{Returns}
use embedded_fatfs.Io.Memory.{Memory, memory, bytes_of, in_memory, in_memory-IsStorage}
use embedded_fatfs.FatType.{fat32}
use embedded_fatfs.DirEntry.{file, DirFileEntryData, new_file_entry}
use embedded_fatfs.DirEntry.Codec.{serialize_entry, deserialize_entry}
use embedded_fatfs.DirEntry.Codec.Parts.{FitsFile, entry_bytes}
use embedded_fatfs.DirEntry.Codec.Laws.{deserialize_entry-serialize_entry}
use embedded_fatfs.DirEntry.Editor.{DirEntryEditor, flush_editor}
use embedded_fatfs.DirEntry.Editor.Laws.{Synced, flush_editor_lem}
use embedded_fatfs.DirEntry.Editor.Edits.{Edited, Fine, Coarse, edits-Edited}
use embedded_fatfs.Time.RoundTrip.{FitsDate}
use embedded_fatfs.DirEntry.ShortName.{new_short_name, as_bytes}
use embedded_fatfs.DirEntry.Shown.{padded, as_bytes-padded}
use embedded_fatfs.Base.{◌++◌}
use embedded_fatfs.Time.{Date, DateTime}

-- `FOO     TXT`, an archive
abbrev foo_txt : DirFileEntryData
foo_txt = new_file_entry (70 ∷ 79 ∷ 79 ∷ 32 ∷ 32 ∷ 32 ∷ 32 ∷ 32 ∷ 84 ∷ 88 ∷ 84 ∷ []) 0x20

foo_txt-Fits : FitsFile foo_txt
foo_txt-Fits = record {
  name = refl;
  name_bytes = (
    omega arith,
    (
      omega arith,
      (
        omega arith,
        (
          omega arith,
          (
            omega arith,
            (
              omega arith,
              (omega arith, (omega arith, (omega arith, (omega arith, (omega arith, tt))))),
            ),
          ),
        ),
      ),
    ),
  );
  attrs = omega arith;
  short = refl;
  reserved_0 = omega arith;
  create_time_0 = omega arith;
  create_time_1 = omega arith;
  create_date = omega arith;
  access_date = omega arith;
  first_cluster_hi = omega arith;
  modify_time = omega arith;
  modify_date = omega arith;
  first_cluster_lo = omega arith;
  size = omega arith;
}

abbrev empty_disk : Memory
empty_disk = memory (λ _. 0) 64

deserialize_entry-serialize_entry_example :
    Returns
      (λ v u.
        (v ≡ file foo_txt)
        × (bytes_of u ≡ patch (bytes_of empty_disk) 64 (entry_bytes (file foo_txt))))
      ((do
        try_io (in_memory 512) (serialize_entry (in_memory 512) (file foo_txt))
        try_io (in_memory 512) ((in_memory 512).seek (start 64))
        deserialize_entry (in_memory 512))
        empty_disk)
deserialize_entry-serialize_entry_example =
    deserialize_entry-serialize_entry (in_memory-IsStorage 512) (file foo_txt) {s = empty_disk} 64
      foo_txt-Fits refl (omega arith)

abbrev at_the_end : Memory
at_the_end = memory (λ _. 0) 512

-- A name that starts with the byte for 0xE5 and has a space inside.
as_bytes-padded_example :
    (length (new_short_name (padded 8 (5 ∷ 32 ∷ 79 ∷ []) ++ padded 3 (84 ∷ 88 ∷ []))).name ≡ 12)
    × ((new_short_name (padded 8 (5 ∷ 32 ∷ 79 ∷ []) ++ padded 3 (84 ∷ 88 ∷ []))).len ≤ 12)
    × (as_bytes (new_short_name (padded 8 (5 ∷ 32 ∷ 79 ∷ []) ++ padded 3 (84 ∷ 88 ∷ [])))
        ≡ 0xE5 ∷ 32 ∷ 79 ∷ 46 ∷ 84 ∷ 88 ∷ [])
as_bytes-padded_example =
    as_bytes-padded (5 ∷ 32 ∷ 79 ∷ []) (84 ∷ 88 ∷ []) (λ q. omega arith) (λ q. omega arith)
      (omega arith) (omega arith)

-- An editor whose entry is not on the storage yet.
abbrev not_written : DirEntryEditor
not_written = record { entry = foo_txt; pos = 64; dirty = true }

not_written-Synced : Synced (bytes_of empty_disk) not_written
not_written-Synced = λ q. ground arith

abbrev new_year : Date
new_year = record { year = 2026; month = 1; day = 1 }

abbrev midnight : DateTime
midnight = record { date = new_year; time = record { hour = 0; min = 0; sec = 0; millis = 0 } }

-- A clean editor, whose entry is on the storage.
abbrev with_entry : Memory
with_entry = memory (patch (λ _. 0) 64 (entry_bytes (file foo_txt))) 0

abbrev clean : DirEntryEditor
clean = record { entry = foo_txt; pos = 64; dirty = false }

clean-Synced : Synced (bytes_of with_entry) clean
clean-Synced = λ _. refl

new_year-FitsDate : FitsDate new_year
new_year-FitsDate = record {
  first = omega arith;
  last = omega arith;
  month = omega arith;
  day = omega arith;
}

abbrev noon : DateTime
noon = record { date = new_year; time = record { hour = 12; min = 30; sec = 59; millis = 250 } }

noon-Fine : Fine noon
noon-Fine = record {
  in_calendar = new_year-FitsDate;
  on_clock = record {
    hour = omega arith;
    min = omega arith;
    sec = omega arith;
    millis = omega arith;
  };
  hundredths = refl;
}

midnight-Coarse : Coarse midnight
midnight-Coarse = record {
  in_calendar = new_year-FitsDate;
  on_clock = record {
    hour = omega arith;
    min = omega arith;
    sec = omega arith;
    millis = omega arith;
  };
  whole = refl;
  even = refl;
}

edits-Edited_example : Edited (bytes_of with_entry) clean (some 5) fat32 7 noon new_year midnight
edits-Edited_example =
    edits-Edited (bytes_of with_entry) clean (some 5) fat32 7 0 noon new_year midnight clean-Synced
      (omega arith, omega arith) refl noon-Fine new_year-FitsDate midnight-Coarse

flush_editor_lem_example :
    Returns
      (λ e' t.
        (e' ≡ record not_written { dirty = false })
        × (slice (bytes_of t) 64 32 ≡ entry_bytes (file foo_txt))
        × (true ≡ false → bytes_of t ≡ bytes_of empty_disk))
      (flush_editor (in_memory 512) not_written empty_disk)
flush_editor_lem_example =
    flush_editor_lem (in_memory-IsStorage 512) not_written empty_disk foo_txt-Fits (omega arith)
      not_written-Synced
