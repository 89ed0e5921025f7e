-- ===== src/LongName.antt =====
-- Long names of embedded-fatfs/src/dir.rs: the builder that collects them from the entries of a
-- directory, and the generator that cuts them into entries. The buffer is that of builds with an
-- allocator, a list of UCS-2 units.
pub mod Builder
pub mod Parts
pub mod RoundTrip
pub mod Validate
use embedded_fatfs.Base.{
  ℕ, zero, suc, ◌+◌, ◌-◌, ◌*◌, ◌/◌, ◌%◌, ◌^◌, bit_and, bit_or, Bool, true, false, not, ◌&&◌, ◌||◌,
}
use embedded_fatfs.Base.{
  ◌==◌, ltb, if◌then◌else◌, Option, none, some, List, [], ◌∷◌, ◌++◌, length, take, drop, replicate,
}
use embedded_fatfs.Base.Bits.{◌>>>◌, ◌<<<◌}
use embedded_fatfs.DirEntry.{DirLfnEntryData, name_part, new_lfn_entry, copy_name_from_slice}
use embedded_fatfs.DirEntry.{lfn_part_len, lfn_entry_last_flag}
use mathlib.Core.List.{reverse}

abbrev pub max_long_name_len : ℕ
max_long_name_len = 255

abbrev pub max_long_dir_entries : ℕ
max_long_dir_entries = 20

-- One round of the loop of `lfn_checksum`; `<<` and `+` wrap.
abbrev pub checksum_round : ℕ → ℕ → ℕ
checksum_round chksum b = ((chksum <<< 7) % 256 + (chksum >>> 1) + b) % 256

abbrev checksum_from : ℕ → List ℕ → ℕ
checksum_from chksum [] = chksum
checksum_from chksum (b ∷ bs) = checksum_from (checksum_round chksum b) bs

unfoldable pub lfn_checksum : List ℕ → ℕ
lfn_checksum short_name = checksum_from 0 short_name

-- `Vec::resize` with zeros
abbrev pub set_len : ℕ → List ℕ → List ℕ
set_len n units = take n units ++ replicate (n - length units) 0

pub record LongNameBuilder : Type 0 where
  pub buf : List ℕ
  pub chksum : ℕ
  pub index : ℕ

abbrev pub new_builder : LongNameBuilder
new_builder = record { buf = []; chksum = 0; index = 0 }

abbrev pub clear : LongNameBuilder → LongNameBuilder
clear b = record b { buf = []; index = 0 }

abbrev pub is_padding : ℕ → Bool
is_padding c = c == 0xFFFF || c == 0

-- One more than the position of the last unit that is no padding, or 0.
abbrev pub one_more : ℕ → ℕ → ℕ
one_more c zero = if is_padding c then 0 else 1
one_more c (suc n) = suc (suc n)

abbrev pub trimmed_len : List ℕ → ℕ
trimmed_len [] = 0
trimmed_len (c ∷ cs) = one_more c (trimmed_len cs)

abbrev pub truncate : LongNameBuilder → LongNameBuilder
truncate b = record b { buf = set_len (trimmed_len b.buf) b.buf }

abbrev pub is_empty : LongNameBuilder → Bool
is_empty b = b.index == 0

unfoldable pub into_buf : LongNameBuilder → List ℕ
into_buf b =
    if b.index == 1 then (truncate b).buf else if not (is_empty b) then (clear b).buf else b.buf

-- A part copied into the buffer at a position; out of bounds the slice panics, which is `none`.
abbrev pub copy_part : ℕ → List ℕ → LongNameBuilder → Option LongNameBuilder
copy_part pos part b =
    if ltb (length b.buf) (pos + lfn_part_len)
    then none
    else some (record b { buf = take pos b.buf ++ (part ++ drop (pos + lfn_part_len) b.buf) })

unfoldable pub process : DirLfnEntryData → LongNameBuilder → Option LongNameBuilder
process d b =
    let is_last = not (bit_and d.order lfn_entry_last_flag == 0) in
    let index = bit_and d.order 0x1F in
    let pos = lfn_part_len * (index - 1) in
    if index == 0 || ltb max_long_dir_entries index
    then some (clear b)
    else if is_last
    then copy_part pos (name_part d)
        (record { index = index; chksum = d.checksum; buf = set_len (index * lfn_part_len) b.buf })
    else if b.index == 0 || (not (index == b.index - 1) || not (d.checksum == b.chksum))
    then some (clear b)
    else copy_part pos (name_part d) (record b { index = b.index - 1 })

unfoldable pub validate_chksum : List ℕ → LongNameBuilder → LongNameBuilder
validate_chksum short_name b =
    if is_empty b then b else if not (lfn_checksum short_name == b.chksum) then clear b else b

-- `chunks(n)` of the slice; the first argument is at least its length.
abbrev pub chunks : ℕ → ℕ → List ℕ → List (List ℕ)
chunks n zero xs = []
chunks n (suc rounds) [] = []
chunks n (suc rounds) (x ∷ xs) = take n (x ∷ xs) ∷ chunks n rounds (drop n (x ∷ xs))

pub record LfnEntriesGenerator : Type 0 where
  pub name_parts_iter : List (List ℕ)
  pub checksum : ℕ
  pub index : ℕ
  pub num : ℕ
  pub ended : Bool

abbrev pub num_entries : List ℕ → ℕ
num_entries name_utf16 = (length name_utf16 + lfn_part_len - 1) / lfn_part_len

unfoldable pub new_generator : List ℕ → ℕ → LfnEntriesGenerator
new_generator name_utf16 checksum = record {
  checksum = checksum;
  name_parts_iter = reverse (chunks lfn_part_len (length name_utf16) name_utf16);
  index = 0;
  num = num_entries name_utf16;
  ended = false;
}

-- The units of an entry: the part, a zero behind it if there is room, and padding.
abbrev pub padded : List ℕ → List ℕ
padded name_part = take lfn_part_len (name_part ++ (0 ∷ replicate lfn_part_len 0xFFFF))

abbrev pub order_of : ℕ → ℕ → ℕ
order_of num index =
    let order = (num - index) % 256 in
    if index == 0 then bit_or order lfn_entry_last_flag else order

abbrev pub entry_of : ℕ → ℕ → ℕ → List ℕ → DirLfnEntryData
entry_of checksum num index name_part =
    copy_name_from_slice (padded name_part) (new_lfn_entry (order_of num index) checksum)

-- The next part of the name. The debug assertion of the source, that the order is not 0, is left
-- out: it can fail only behind 255 parts, and a long name has at most 20.
abbrev pub next_part :
    LfnEntriesGenerator → List (List ℕ) → Option DirLfnEntryData × LfnEntriesGenerator
next_part g [] = (none, record g { ended = true })
next_part g (part ∷ parts) = (
  some (entry_of g.checksum g.num g.index part),
  record g { name_parts_iter = parts; index = g.index + 1 },
)

unfoldable pub next_entry : LfnEntriesGenerator → Option DirLfnEntryData × LfnEntriesGenerator
next_entry g = if g.ended then (none, g) else next_part g g.name_parts_iter

-- A `for` loop over the generator, with as many rounds at most, and one over entries that were read.
abbrev pub collect_from :
    (LfnEntriesGenerator → List DirLfnEntryData)
    → Option DirLfnEntryData × LfnEntriesGenerator
    → List DirLfnEntryData
collect_from rest (none, g) = []
collect_from rest (some e, g) = e ∷ rest g

unfoldable pub entries : ℕ → LfnEntriesGenerator → List DirLfnEntryData
entries zero g = []
entries (suc rounds) g = collect_from (entries rounds) (next_entry g)

unfoldable pub process_all : List DirLfnEntryData → LongNameBuilder → Option LongNameBuilder
process_all [] b = some b
process_all (d ∷ ds) b = elim (process d b) [ none ↦ none | some b' ↦ process_all ds b' ]
