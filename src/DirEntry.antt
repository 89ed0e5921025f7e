-- ===== src/DirEntry.antt =====
-- The entries of a directory: embedded-fatfs/src/dir_entry.rs. A name field is the list of its bytes
-- (11 of them), and attributes are the bits of their byte.
pub mod Codec
pub mod Editor
pub mod Fields
pub mod ShortName
pub mod Shown
use embedded_fatfs.Base.{ℕ, ◌+◌, ◌*◌, ◌/◌, ◌%◌, ◌^◌, bit_and, bit_or, Bool, true, false, not, ◌&&◌}
use embedded_fatfs.Base.{◌==◌, if◌then◌else◌, Option, none, some, unwrap_or, List, [], ◌∷◌, ◌++◌}
use embedded_fatfs.Base.{get_or, replicate, take, drop}
use embedded_fatfs.Base.Bits.{◌>>>◌, ◌<<<◌}
use embedded_fatfs.Io.{Storage, Cmd, Fs, Run, ok, err, panic, out_of_fuel, pure, ◌>>=◌, ◌>>◌}
use embedded_fatfs.Io.{ReadExactError, try_exact, try_io, start}
use embedded_fatfs.Io.{read_u8, read_u16_le, read_u32_le, write_u8, write_u16_le, write_u32_le}
use embedded_fatfs.FatType.{FatType, fat12, fat16, fat32}
use embedded_fatfs.Time.{Date, DateTime, decode_date, encode_date, decode_date_time, encode_time}
use embedded_fatfs.Base.Bytes.{from_le_bytes}

-- `FileAttributes`: the bits that are wanted, and all that there are
abbrev pub volume_id : ℕ
volume_id = 0x08

abbrev pub directory : ℕ
directory = 0x10

abbrev pub lfn_attrs : ℕ
lfn_attrs = 0x0F

abbrev pub all_attrs : ℕ
all_attrs = 0x3F

abbrev pub contains : ℕ → ℕ → Bool
contains attrs bits = bit_and attrs bits == bits

abbrev pub deleted_flag : ℕ
deleted_flag = 0xE5

abbrev pub really_e5_flag : ℕ
really_e5_flag = 0x05

abbrev pub sfn_size : ℕ
sfn_size = 11

abbrev pub sfn_padding : ℕ
sfn_padding = 32

abbrev pub lfn_part_len : ℕ
lfn_part_len = 13

abbrev pub lfn_entry_last_flag : ℕ
lfn_entry_last_flag = 0x40

pub record DirFileEntryData : Type 0 where
  pub name : List ℕ
  pub attrs : ℕ
  pub reserved_0 : ℕ
  pub create_time_0 : ℕ
  pub create_time_1 : ℕ
  pub create_date : ℕ
  pub access_date : ℕ
  pub first_cluster_hi : ℕ
  pub modify_time : ℕ
  pub modify_date : ℕ
  pub first_cluster_lo : ℕ
  pub size : ℕ

abbrev pub new_file_entry : List ℕ → ℕ → DirFileEntryData
new_file_entry name attrs = record {
  name = name;
  attrs = attrs;
  reserved_0 = 0;
  create_time_0 = 0;
  create_time_1 = 0;
  create_date = 0;
  access_date = 0;
  first_cluster_hi = 0;
  modify_time = 0;
  modify_date = 0;
  first_cluster_lo = 0;
  size = 0;
}

-- `DirFileEntryData::default()`
abbrev pub default_file_entry : DirFileEntryData
default_file_entry = new_file_entry (replicate sfn_size 0) 0

abbrev pub renamed : DirFileEntryData → List ℕ → DirFileEntryData
renamed d new_name = record d { name = new_name }

abbrev pub stored_hi : FatType → ℕ → ℕ
stored_hi fat32 hi = hi
stored_hi _ hi = 0

unfoldable pub first_cluster : DirFileEntryData → FatType → Option ℕ
first_cluster d fat_type =
    let n = bit_or (stored_hi fat_type d.first_cluster_hi <<< 16) d.first_cluster_lo in
    if n == 0 then none else some n

abbrev pub new_hi : FatType → ℕ → ℕ → ℕ
new_hi fat32 n hi = (n >>> 16) % 2 ^ 16
new_hi _ n hi = hi

unfoldable pub set_first_cluster : Option ℕ → FatType → DirFileEntryData → DirFileEntryData
set_first_cluster cluster fat_type d =
    let n = unwrap_or cluster 0 in
    record d {
      first_cluster_hi = new_hi fat_type n d.first_cluster_hi;
      first_cluster_lo = bit_and n 0xFFFF % 2 ^ 16;
    }

abbrev pub is_dir : DirFileEntryData → Bool
is_dir d = contains d.attrs directory

abbrev pub is_file : DirFileEntryData → Bool
is_file d = not (is_dir d)

abbrev pub file_size : DirFileEntryData → Option ℕ
file_size d = if is_file d then some d.size else none

abbrev pub set_size : ℕ → DirFileEntryData → DirFileEntryData
set_size n d = record d { size = n }

abbrev pub created : DirFileEntryData → DateTime
created d = decode_date_time d.create_date d.create_time_1 d.create_time_0

abbrev pub accessed : DirFileEntryData → Date
accessed d = decode_date d.access_date

abbrev pub modified : DirFileEntryData → DateTime
modified d = decode_date_time d.modify_date d.modify_time 0

abbrev pub set_created : DateTime → DirFileEntryData → DirFileEntryData
set_created t d = record d {
  create_date = encode_date t.date;
  create_time_1 = (encode_time t.time).0;
  create_time_0 = (encode_time t.time).1;
}

abbrev pub set_accessed : Date → DirFileEntryData → DirFileEntryData
set_accessed date d = record d { access_date = encode_date date }

abbrev pub set_modified : DateTime → DirFileEntryData → DirFileEntryData
set_modified t d = record d {
  modify_date = encode_date t.date;
  modify_time = (encode_time t.time).0;
}

abbrev pub with_first : ℕ → List ℕ → List ℕ
with_first b [] = []
with_first b (x ∷ xs) = b ∷ xs

abbrev pub is_volume : DirFileEntryData → Bool
is_volume d = contains d.attrs volume_id

pub record DirLfnEntryData : Type 0 where
  pub order : ℕ
  pub name_0 : List ℕ
  pub attrs : ℕ
  pub entry_type : ℕ
  pub checksum : ℕ
  pub name_1 : List ℕ
  pub reserved_0 : ℕ
  pub name_2 : List ℕ

abbrev pub new_lfn_entry : ℕ → ℕ → DirLfnEntryData
new_lfn_entry order checksum = record {
  order = order;
  name_0 = replicate 5 0;
  attrs = lfn_attrs;
  entry_type = 0;
  checksum = checksum;
  name_1 = replicate 6 0;
  reserved_0 = 0;
  name_2 = replicate 2 0;
}

abbrev pub copy_name_from_slice : List ℕ → DirLfnEntryData → DirLfnEntryData
copy_name_from_slice lfn_part d = record d {
  name_0 = take 5 lfn_part;
  name_1 = take 6 (drop 5 lfn_part);
  name_2 = take 2 (drop 11 lfn_part);
}

-- `copy_name_to_slice`: what the 13 units of the slice become
abbrev pub name_part : DirLfnEntryData → List ℕ
name_part d = d.name_0 ++ (d.name_1 ++ d.name_2)

pub data DirEntryData : Type 0 where
  file : DirFileEntryData → DirEntryData
  lfn : DirLfnEntryData → DirEntryData

abbrev pub is_deleted : DirEntryData → Bool
is_deleted (file d) = get_or d.name 0 0 == deleted_flag
is_deleted (lfn d) = d.order == deleted_flag

abbrev pub set_deleted : DirEntryData → DirEntryData
set_deleted (file d) = file (record d { name = with_first deleted_flag d.name })
set_deleted (lfn d) = lfn (record d { order = deleted_flag })

abbrev pub is_end : DirEntryData → Bool
is_end (file d) = get_or d.name 0 0 == 0
is_end (lfn d) = d.order == 0
