-- ===== src/File/Sizes.antt =====
-- The size in the entry of a file behind a write (`update_dir_entry_after_write` of
-- embedded-fatfs/src/file.rs).
use embedded_fatfs.Base.{
  ℕ, ◌≡◌, Bool, true, false, arith, refl, sym, ap, ◌∙◌, inl, inr, ◌==◌, Option, none, some, subst,
  if◌then◌else◌, Bool-cases, not, ==_iff, max, ltb,
}
use embedded_fatfs.Base.{ltb→lt, ltb_false→le}
use embedded_fatfs.Time.{DateTime}
use embedded_fatfs.DirEntry.{file_size, is_file, modified, set_size}
use embedded_fatfs.DirEntry.Editor.{
  DirEntryEditor, edit_modified, edit_size, changed, same_date_time, resized,
}
use embedded_fatfs.File.{entry_size, edit, written_at, grown}
use embedded_fatfs.File.Cursor.{}
use embedded_fatfs.File.Transfer.{}

-- The size of a file after a write up to `offset`; a directory has none.
abbrev pub grown_size : ℕ → Option ℕ → Option ℕ
grown_size offset none = none
grown_size offset (some s) = some (max s offset)

file_size-edit_modified :
    (now : DateTime) (e : DirEntryEditor)
    → file_size (edit_modified now e).entry ≡ file_size e.entry
unfolding edit_modified
file_size-edit_modified now e = elim (Bool-cases (same_date_time now (modified e.entry))) [
  | inl q ↦ rw q refl
  | inr q ↦ rw q refl
]

file_size-changed :
    (offset : ℕ) (e : DirEntryEditor) (b : Bool)
    → is_file e.entry ≡ true
    → (b ≡ true → e.entry.size ≡ offset)
    → file_size (if not b then changed (set_size offset) e else e).entry ≡ some offset
file_size-changed offset e true f same = rw f (ap some (same refl))
file_size-changed offset e false f same = rw f refl

file_size-resized :
    (offset : ℕ) (e : DirEntryEditor)
    → is_file e.entry ≡ true
    → file_size (resized (some e.entry.size) offset e).entry ≡ some offset
file_size-resized offset e f =
    file_size-changed offset e (offset == e.entry.size) f
      (λ q. sym ((==_iff offset e.entry.size).0 q))

-- Where there is a size, it is set.
pub file_size-edit_size :
    (offset : ℕ) (e : DirEntryEditor) (s : ℕ)
    → file_size e.entry ≡ some s
    → file_size (edit_size offset e).entry ≡ some offset
unfolding edit_size
file_size-edit_size offset e s q = elim (Bool-cases (is_file e.entry)) [
  | inl f ↦
      let now : file_size e.entry ≡ some e.entry.size = rw f refl in
      subst (λ o. file_size (resized o offset e).entry ≡ some offset) (sym now)
        (file_size-resized offset e f)
  | inr f ↦ absurd (ground arith)
]

file_size-grown :
    (offset : ℕ) (e : DirEntryEditor) (o : Option ℕ)
    → file_size e.entry ≡ o
    → file_size (grown offset o e).entry ≡ grown_size offset o
file_size-grown offset e none q = q
file_size-grown offset e (some s) q = elim (Bool-cases (ltb s offset)) [
  | inl more ↦
      rw more (file_size-edit_size offset e s q ∙ ap some (omega (arith, ltb→lt s offset more)))
  | inr less ↦ rw less (q ∙ ap some (omega (arith, ltb_false→le s offset less)))
]

pub entry_size-written_at :
    (now : DateTime) (offset : ℕ) (o : Option DirEntryEditor)
    → entry_size (edit (written_at now offset) o) ≡ grown_size offset (entry_size o)
entry_size-written_at now offset none = refl
entry_size-written_at now offset (some e) =
    file_size-grown offset (edit_modified now e) (file_size (edit_modified now e).entry) refl
    ∙ ap (grown_size offset) (file_size-edit_modified now e)
