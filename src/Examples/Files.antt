-- ===== src/Examples/Files.antt =====
-- Reads, writes, seeks and truncation of a file on the volume of Examples/Volumes.antt.
use embedded_fatfs.Base.{◌<◌, ◌≡◌, refl, arith, [], ◌∷◌, none, some, true, false}
use embedded_fatfs.Io.Ends.{Ends, Returns}
use embedded_fatfs.Io.{start}
use embedded_fatfs.Io.Memory.{in_memory}
use embedded_fatfs.BootSector.{mirroring_enabled}
use embedded_fatfs.BootSector
use embedded_fatfs.FileSystem.{cluster_size}
use embedded_fatfs.DirEntry.{new_file_entry, file_size}
use embedded_fatfs.DirEntry.Editor.{DirEntryEditor}
use embedded_fatfs.File.{FileContext, truncate_file}
use embedded_fatfs.File.Truncates.{Shortened, at_start, truncate_file_lem}
use embedded_fatfs.File.Cursor.{Points, at_first}
use embedded_fatfs.File.Transfer.{FsOptions, write_file}
use embedded_fatfs.File.Writes.{Wrote, write_file_lem}
use embedded_fatfs.File.Extends.{AtEnd, Extended, Refused, write_file-Extended}
use embedded_fatfs.File.Seek.{seek_file}
use embedded_fatfs.File.Targets.{cluster_at, from_start}
use embedded_fatfs.File.Walk.{Sought, seek_file_lem}
use embedded_fatfs.Examples.Loops.{loops, loops-IsProvided}
use embedded_fatfs.Examples.Volumes.{
  fs, disk_size, disk_laws, disk-IsWhole, region, fat, mounted_volume, table_now, placed, counted,
  chain,
}

abbrev options : FsOptions
options = record {
  update_accessed_date = true;
  current_date = record { year = 2024; month = 2; day = 29 };
  current_date_time = record {
    date = record { year = 2024; month = 2; day = 29 };
    time = record { hour = 12; min = 30; sec = 10; millis = 0 };
  };
}

-- The root directory, which has no entry, at its start.
abbrev opened : FileContext
opened = record { first_cluster = some 2; current_cluster = none; offset = 0; entry = none }

abbrev foo_editor : DirEntryEditor
foo_editor = record {
  entry = record (new_file_entry (70 ∷ 79 ∷ 79 ∷ 32 ∷ 32 ∷ 32 ∷ 32 ∷ 32 ∷ 84 ∷ 88 ∷ 84 ∷ []) 0x20) {
    size = 700;
  };
  pos = 1536;
  dirty = false;
}

-- A file of 700 bytes, at offset 100.
abbrev foo_file : FileContext
foo_file = record {
  first_cluster = some 2;
  current_cluster = some 2;
  offset = 100;
  entry = some foo_editor;
}

foo-size : file_size foo_editor.entry ≡ some 700
foo-size = refl

-- The same file, at its start.
abbrev rewound : FileContext
rewound = record {
  first_cluster = some 2;
  current_cluster = none;
  offset = 0;
  entry = some foo_editor;
}

-- A file whose entry has no cluster yet.
abbrev empty_file : FileContext
empty_file = record {
  first_cluster = none;
  current_cluster = none;
  offset = 0;
  entry = some (record foo_editor { entry = record foo_editor.entry { size = 0 } });
}

small-cluster_size : cluster_size fs ≡ 512
unfolding BootSector.cluster_size
small-cluster_size = refl

at_end : AtEnd fs 300 (table_now mounted_volume) empty_file
unfolding BootSector.cluster_size
at_end = record { boundary = refl; no_first = λ _. refl; last = λ p q. absurd (ground arith) }

points : Points fs 300 (table_now mounted_volume) opened 2
unfolding BootSector.cluster_size
points = at_first refl refl refl

some_bytes : 0 < cluster_size fs
some_bytes = omega (arith, small-cluster_size)

write_file_lem_example :
    Returns
      (Wrote disk_laws disk-IsWhole fs loops-IsProvided region fat options opened
        (1 ∷ 2 ∷ 3 ∷ [])
        2
        (opened, mounted_volume))
      (write_file (in_memory disk_size) loops fs options (1 ∷ 2 ∷ 3 ∷ []) (opened, mounted_volume))
write_file_lem_example =
    write_file_lem disk_laws disk-IsWhole fs loops-IsProvided region fat options opened
      (1 ∷ 2 ∷ 3 ∷ []) 2 mounted_volume points (placed 2 (omega arith) (omega arith)) some_bytes
      (omega (arith, small-cluster_size)) (omega arith, (omega arith, (omega arith, tt)))

write_file-Extended_example :
    Ends
      (Extended disk_laws disk-IsWhole fs loops-IsProvided region fat options empty_file
        (1 ∷ 2 ∷ 3 ∷ [])
        mounted_volume)
      (Refused disk_laws disk-IsWhole fs loops-IsProvided region fat options empty_file
        mounted_volume)
      (write_file
        (in_memory disk_size)
        loops
        fs
        options
        (1 ∷ 2 ∷ 3 ∷ [])
        (empty_file, mounted_volume))
write_file-Extended_example =
    write_file-Extended disk_laws disk-IsWhole fs loops-IsProvided region fat options empty_file
      (1 ∷ 2 ∷ 3 ∷ []) mounted_volume at_end (omega arith) (omega arith) (omega arith) placed
      (λ h q. ground arith) counted some_bytes (omega (arith, small-cluster_size))
      (omega arith, (omega arith, (omega arith, tt)))

foo-cluster_at : some 2 ≡ cluster_at fs (2 ∷ 3 ∷ []) 100
unfolding BootSector.cluster_size
foo-cluster_at = refl

-- A seek beyond the end goes to the end, in the second cluster.
seek_file_lem_example :
    Returns
      (Sought disk_laws disk-IsWhole fs loops-IsProvided region fat foo_file
        (2 ∷ 3 ∷ [])
        700
        mounted_volume)
      (seek_file (in_memory disk_size) loops fs (start 900) (foo_file, mounted_volume))
seek_file_lem_example =
    seek_file_lem disk_laws disk-IsWhole fs loops-IsProvided region fat foo_file (start 900) 700
      mounted_volume (from_start (omega arith)) refl some_bytes (omega (arith, small-cluster_size))
      (omega arith) refl chain (omega arith, (omega arith, tt)) (omega (arith, small-cluster_size))
      foo-cluster_at

truncate_file_lem_example :
    Returns
      (λ _ y.
        Shortened disk_laws disk-IsWhole fs loops-IsProvided region fat mounted_volume
          (omega arith)
          counted
          rewound
          (2 ∷ 3 ∷ [])
          y)
      (truncate_file (in_memory disk_size) loops fs 10 (rewound, mounted_volume))
truncate_file_lem_example =
    truncate_file_lem disk_laws disk-IsWhole fs loops-IsProvided region fat mounted_volume
      (omega arith) counted rewound foo_editor 700 10 2 refl foo-size (at_start refl refl refl)
      chain ((omega arith, tt), (tt, tt))
      ((omega arith, omega arith), ((omega arith, omega arith), tt)) (omega arith)
