-- ===== src/File.antt =====
-- `File` of embedded-fatfs/src/file.rs: the context of an open file, beside the volume. Its debug
-- assertions are panics. Arithmetic is on u32 with its wrap.
pub mod Transfer
pub mod Seek
pub mod Cursor
pub mod Reads
pub mod Sizes
pub mod Firsts
pub mod Writes
pub mod Extends
pub mod Truncates
pub mod Targets
pub mod Walk
use embedded_fatfs.Base.{
  ℕ, ◌+◌, ◌-◌, ◌%◌, ◌^◌, Option, none, some, Bool, false, if◌then◌else◌, ltb, ◌==◌,
}
use embedded_fatfs.Io.{
  Storage, Run, Cmd, Error, Result, ok, err, panic, out_of_fuel, pure, throw, ◌>>=◌, ◌>>◌,
}
use embedded_fatfs.Io.Provided.{Provided}
use embedded_fatfs.FatType.{FatType}
use embedded_fatfs.Time.{Date, DateTime}
use embedded_fatfs.DirEntry
use embedded_fatfs.DirEntry.{file_size}
use embedded_fatfs.DirEntry.Editor.{
  DirEntryEditor, edit_first_cluster, edit_size, edit_created, edit_accessed, edit_modified,
}
use embedded_fatfs.DirEntry.Editor.{flush_editor}
use embedded_fatfs.Chain.{Item}
use embedded_fatfs.Chain
use embedded_fatfs.FileSystem.{
  FileSystem, Mounted, OnVolume, on_disk, on_fat, try_device, cluster_size,
}
use embedded_fatfs.FileSystem.{offset_from_cluster}
use embedded_fatfs.FileSystem.Clusters.{volume, truncate_cluster_chain, free_cluster_chain}

-- `current_cluster` is none before the first cluster; between two clusters it is the previous one.
pub record FileContext : Type 0 where
  pub first_cluster : Option ℕ
  pub current_cluster : Option ℕ
  pub offset : ℕ
  pub entry : Option DirEntryEditor

-- `File::new`
abbrev pub new_file : Option ℕ → Option DirEntryEditor → FileContext
new_file first_cluster entry = record {
  first_cluster = first_cluster;
  current_cluster = none;
  offset = 0;
  entry = entry;
}

-- A change of the entry, where there is one.
abbrev pub edit : (DirEntryEditor → DirEntryEditor) → Option DirEntryEditor → Option DirEntryEditor
edit f none = none
edit f (some e) = some (f e)

abbrev pub edit_entry : (DirEntryEditor → DirEntryEditor) → FileContext → FileContext
edit_entry f c = record c { entry = edit f c.entry }

abbrev pub set_created : DateTime → FileContext → FileContext
set_created t = edit_entry (edit_created t)

abbrev pub set_accessed : Date → FileContext → FileContext
set_accessed date = edit_entry (edit_accessed date)

abbrev pub set_modified : DateTime → FileContext → FileContext
set_modified t = edit_entry (edit_modified t)

abbrev pub entry_size : Option DirEntryEditor → Option ℕ
entry_size none = none
entry_size (some e) = file_size e.entry

abbrev pub size : FileContext → Option ℕ
size c = entry_size c.entry

abbrev pub entry_is_dir : Option DirEntryEditor → Bool
entry_is_dir none = false
entry_is_dir (some e) = DirEntry.is_dir e.entry

abbrev pub is_dir : FileContext → Bool
is_dir c = entry_is_dir c.entry

abbrev pub left_of : ℕ → Option ℕ → Option ℕ
left_of offset none = none
left_of offset (some s) = some ((s + 2 ^ 32 - offset) % 2 ^ 32)

abbrev pub bytes_left_in_file : FileContext → Option ℕ
bytes_left_in_file c = left_of c.offset (size c)

abbrev pub set_first_cluster : FatType → ℕ → FileContext → FileContext
set_first_cluster fat_type cluster c =
    edit_entry (edit_first_cluster (some cluster) fat_type)
      (record c { first_cluster = some cluster })

-- The entry of a file that has grown to `offset`.
abbrev pub grown : ℕ → Option ℕ → DirEntryEditor → DirEntryEditor
grown offset none e = e
grown offset (some s) e = if ltb s offset then edit_size offset e else e

abbrev pub written_at : DateTime → ℕ → DirEntryEditor → DirEntryEditor
written_at now offset e = let e' = edit_modified now e in grown offset (file_size e'.entry) e'

unfoldable pub update_dir_entry_after_write : DateTime → FileContext → FileContext
update_dir_entry_after_write now c = edit_entry (written_at now c.offset) c

-- The end of the file is cut off at the offset, in the entry.
abbrev pub truncated : FatType → ℕ → DirEntryEditor → DirEntryEditor
truncated fat_type offset e =
    let e' = edit_size offset e in if offset == 0 then edit_first_cluster none fat_type e' else e'

abbrev pub position_in : FileSystem → ℕ → ℕ → ℕ
position_in fs offset n =
    let offset_mod_cluster_size = offset % cluster_size fs in
    offset_from_cluster fs n
    + (if offset_mod_cluster_size == 0 then cluster_size fs else offset_mod_cluster_size)

abbrev pub position_behind : FileSystem → ℕ → Option ℕ → Option ℕ
position_behind fs offset none = none
position_behind fs offset (some n) = some (position_in fs offset n)

unfoldable pub abs_pos : FileSystem → FileContext → Option ℕ
abs_pos fs c = position_behind fs c.offset c.current_cluster

module _ (st : Storage) where
  -- A command on an open file, which changes its context and the volume.
  abbrev pub OnFile : Type 0 → Type 0
  OnFile A = Cmd (FileContext × Mounted st.State) (Error st.Cause) A

  abbrev pub beside_context :
      {A : Type 0}
      → FileContext
      → Run (Mounted st.State) (Error st.Cause) A
      → Run (FileContext × Mounted st.State) (Error st.Cause) A
  beside_context c (ok a v) = ok a (c, v)
  beside_context c (err e v) = err e (c, v)
  beside_context c panic = panic
  beside_context c out_of_fuel = out_of_fuel

  -- A call of `self.fs`.
  abbrev pub on_volume : {A : Type 0} → OnVolume st A → OnFile A
  on_volume m (c, v) = beside_context c (m v)

  abbrev pub edit_context : (FileContext → FileContext) → OnFile (Unit {0})
  edit_context f (c, v) = ok tt (f c, v)

  module _ (provided : Provided) (fs : FileSystem) where
    abbrev pub volume_of : Storage
    volume_of = volume st provided fs

    -- What `match r` makes of the next cluster.
    abbrev pub item_value : Item volume_of → OnVolume st (Option ℕ)
    item_value none = pure none
    item_value (some (Result.ok n)) = pure (some n)
    item_value (some (Result.err e)) = throw e

    -- The cluster behind the current one, or the first.
    unfoldable pub next_cluster : Option ℕ → Option ℕ → OnVolume st (Option ℕ)
    next_cluster first_cluster none = pure first_cluster
    next_cluster first_cluster (some n) = do
      (r, _) ← on_fat st fs provided (Chain.next volume_of fs.fat_type (Chain.new n))
      item_value r

    unfoldable pub flush_dir_entry : Option DirEntryEditor → OnVolume st (Option DirEntryEditor)
    flush_dir_entry none = pure none
    flush_dir_entry (some e) = do
      e' ← try_device st (on_disk st (flush_editor st e))
      pure (some e')

    unfoldable pub flush_file : OnFile (Unit {0})
    flush_file (c, v) =
        (do
          entry ← on_volume (flush_dir_entry c.entry)
          edit_context (λ d. record d { entry = entry })
          on_volume (try_device st (on_disk st st.flush)))
          (c, v)

    -- What is freed behind the current cluster, or the whole chain.
    abbrev pub free_behind : ℕ → ℕ → Option ℕ → Option ℕ → OnFile (Unit {0})
    free_behind fuel offset first_cluster (some n) =
        if offset == 0
        then (λ _. panic)
        else on_volume (truncate_cluster_chain st provided fs fuel n)
    free_behind fuel offset none none = if offset == 0 then pure tt else (λ _. panic)
    free_behind fuel offset (some n) none =
        if offset == 0
        then (do
          on_volume (free_cluster_chain st provided fs fuel n)
          edit_context (λ d. record d { first_cluster = none }))
        else (λ _. panic)

    -- The root directory has no entry and cannot be truncated.
    abbrev pub truncate_entry : ℕ → FileContext → Option DirEntryEditor → OnFile (Unit {0})
    truncate_entry fuel c none = λ _. panic
    truncate_entry fuel c (some e) = do
      edit_context (λ d. record d { entry = some (truncated fs.fat_type c.offset e) })
      free_behind fuel c.offset c.first_cluster c.current_cluster

    unfoldable pub truncate_file : ℕ → OnFile (Unit {0})
    truncate_file fuel (c, v) = truncate_entry fuel c c.entry (c, v)
