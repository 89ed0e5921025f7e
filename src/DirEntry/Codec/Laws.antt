-- ===== src/DirEntry/Codec/Laws.antt =====
-- Entries as wholes.
use embedded_fatfs.Base.{ℕ, ◌+◌, ◌≡◌, ◌≤◌, ◌<◌, List, [], ◌++◌, length, arith}
use embedded_fatfs.Base.{true, refl, ap, drop, get_or, length-append}
use embedded_fatfs.Base.{bit_and}
use embedded_fatfs.Base.Bits.{bit_and_mask}
use embedded_fatfs.Base.Bytes.{to_le_bytes, patch}
use embedded_fatfs.Io.{
  Storage, Run, start, try_io, try_exact, map_err, from_read_exact, ◌>>◌, ok, err, panic,
  out_of_fuel, ReadExactError,
}
use embedded_fatfs.Io.Ends.{Returns, returns, fails, bind, bind_value, Returns-map_err}
use embedded_fatfs.Io.Laws.{IsStorage, try_seek}
use embedded_fatfs.Io.Stream.{Ahead, Due, reads, reads_u8}
use embedded_fatfs.Io.Stream.{Ahead-Due}
use embedded_fatfs.DirEntry.{DirFileEntryData, DirLfnEntryData, DirEntryData, file, lfn, is_end}
use embedded_fatfs.DirEntry.{all_attrs, default_file_entry}
use embedded_fatfs.DirEntry.Codec.{units_of}
use embedded_fatfs.DirEntry.Codec.{serialize_entry, read_named, behind_name, deserialize_entry}
use embedded_fatfs.DirEntry.Codec.Parts.{
  FitsFile, FitsLfn, FitsEntry, unit_bytes, file_tail, lfn_tail,
}
use embedded_fatfs.DirEntry.Codec.Parts.{
  entry_bytes, read_file_in, write_file_in, read_lfn_in, write_lfn_in,
}
use embedded_fatfs.DirEntry.Codec.Parts.{length-unit_bytes, units_of-unit_bytes}

pub length-entry_bytes : (e : DirEntryData) → FitsEntry e → length (entry_bytes e) ≡ 32
length-entry_bytes (file d) f =
    omega (arith, length-append d.name (to_le_bytes 1 d.attrs ++ file_tail d), f.name)
length-entry_bytes (lfn d) f = omega (
  arith,
  length-append (unit_bytes d.name_0) (to_le_bytes 1 d.attrs ++ lfn_tail d),
  length-append (unit_bytes d.name_1) (to_le_bytes 2 d.reserved_0 ++ (unit_bytes d.name_2 ++ [])),
  length-append (unit_bytes d.name_2) [],
  length-unit_bytes d.name_0,
  length-unit_bytes d.name_1,
  length-unit_bytes d.name_2,
  f.name_0,
  f.name_1,
  f.name_2,
)

module _ {st : Storage} (laws : IsStorage st) where
  open st use {State}
  open laws use {content, position, size}

  attrs-mask : (a : ℕ) → a < 64 → bit_and a all_attrs ≡ a
  attrs-mask a h = omega (arith, bit_and_mask 6 a)

  -- The name is read; what comes next decides.
  behind :
      {P : List ℕ → State → Type 0} {Q : DirEntryData → State → Type 0} (n : ℕ) (s : State)
      → Returns P (try_exact st (st.read_exact n) s)
      → ((bs : List ℕ) (t : State) → P bs t → Returns Q (read_named st bs t))
      → Returns Q (behind_name st (st.read_exact n s))
  behind {P} {Q} n s h next = of_run (st.read_exact n s) h
    where
      of_run :
          (r : Run State (ReadExactError st.Failure) (List ℕ))
          → Returns P (map_err (from_read_exact st.into_error) r)
          → Returns Q (behind_name st r)
      of_run (ok bs t) (returns p) = next bs t p
      of_run (err e t) (fails q) = absurd q
      of_run panic h = elim h [ ]
      of_run out_of_fuel h = elim h [ ]

  read_named_file :
      {d : ℕ → ℕ} (e : DirFileEntryData) {s : State}
      → FitsFile e
      → Ahead laws d (to_le_bytes 1 e.attrs ++ file_tail e) s
      → Returns (λ v t. (v ≡ file e) × (content t ≡ d)) (read_named st e.name s)
  unfolding read_named
  read_named_file {d} e f h =
      bind_value _ (reads_u8 laws d (file_tail e) (omega (arith, f.attrs)) h)
        λ _ h1. rw (attrs-mask e.attrs f.attrs) (rw f.short (read_file_in laws d e f h1))

  read_named_lfn :
      {d : ℕ → ℕ} (e : DirLfnEntryData) (name : List ℕ) {s : State}
      → FitsLfn e
      → get_or name 0 0 ≡ e.order
      → units_of (drop 1 name) ≡ e.name_0
      → Ahead laws d (to_le_bytes 1 e.attrs ++ lfn_tail e) s
      → Returns (λ v t. (v ≡ lfn e) × (content t ≡ d)) (read_named st name s)
  unfolding read_named
  read_named_lfn {d} e name f q r h =
      bind_value _ (reads_u8 laws d (lfn_tail e) (omega (arith, f.attrs)) h)
        λ _ h1. rw (attrs-mask e.attrs f.attrs) (rw f.long (read_lfn_in laws d e f name q r h1))

  read_entry_in :
      {d : ℕ → ℕ} (e : DirEntryData) {s : State}
      → FitsEntry e
      → Ahead laws d (entry_bytes e) s
      → Returns (λ v t. (v ≡ e) × (content t ≡ d)) (deserialize_entry st s)
  unfolding deserialize_entry
  read_entry_in {d} (file e) {s} f h =
      behind 11 s (reads laws d e.name _ f.name h) λ bs t (q, a). rw q (read_named_file e f a)
  read_entry_in {d} (lfn e) {s} f h =
      let name = to_le_bytes 1 e.order ++ unit_bytes e.name_0 in
      behind 11 s
        (reads laws d name (to_le_bytes 1 e.attrs ++ lfn_tail e)
          (omega (arith, length-unit_bytes e.name_0, f.name_0)) (regroup h))
        λ bs t (q, a). rw q (
          read_named_lfn e name f (omega (arith, f.order))
            (units_of-unit_bytes e.name_0 f.name_0_units) a)
    where
      regroup :
          Ahead laws d (entry_bytes (lfn e)) s
          → Ahead laws d
              ((to_le_bytes 1 e.order ++ unit_bytes e.name_0)
                ++ (to_le_bytes 1 e.attrs ++ lfn_tail e))
              s
      regroup a = a

  write_entry_in :
      {d : ℕ → ℕ} (e : DirEntryData) {s : State}
      → FitsEntry e
      → Due laws d (entry_bytes e) s
      → Returns (λ _ t. content t ≡ d) (serialize_entry st e s)
  unfolding serialize_entry
  write_entry_in {d} (file e) f h = write_file_in laws d e f h
  write_entry_in {d} (lfn e) f h = write_lfn_in laws d e f h

  -- On a storage with room for 32 bytes at its position p, for a file or long-name entry whose
  -- fields are in the ranges of their types and whose attributes are those of its kind:
  -- serialize, a seek back to p and deserialize succeed and return that entry, and the content
  -- is the old one with the bytes of the entry at p.
  pub deserialize_entry-serialize_entry :
      (e : DirEntryData) {s : State} (p : ℕ)
      → FitsEntry e
      → position s ≡ p
      → p + 32 ≤ size
      → Returns
          (λ v u. (v ≡ e) × (content u ≡ patch (content s) p (entry_bytes e)))
          ((do
            try_io st (serialize_entry st e)
            try_io st (st.seek (start p))
            deserialize_entry st)
            s)
  deserialize_entry-serialize_entry e {s} p f at room =
      let h : p + length (entry_bytes e) ≤ size = omega (arith, length-entry_bytes e f) in
      let due : Due laws (patch (content s) p (entry_bytes e)) (entry_bytes e) s = record {
        becomes = ap (λ x. patch (content s) x (entry_bytes e)) at;
        room = omega arith;
      } in
      bind (Returns-map_err _ (write_entry_in e f due)) λ _ t q.
        bind (try_seek laws _ p q (omega arith)) λ _ u (_, g, r).
          read_entry_in e f (Ahead-Due laws _ (content s) p (entry_bytes e) refl g r h)

-- Where the storage ends before the 11 bytes of a name, deserialize returns an entry that is the
-- end of a directory, and no error.
pub deserialize_entry-eof :
    (st : Storage) (s : st.State) {t : st.State}
    → st.read_exact 11 s ≡ err (ReadExactError.unexpected_eof) t
    → (e : DirEntryData) × (deserialize_entry st s ≡ ok e t) × (is_end e ≡ true)
unfolding deserialize_entry
deserialize_entry-eof st s q = (file default_file_entry, rw q refl, refl)
