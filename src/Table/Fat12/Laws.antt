-- ===== src/Table/Fat12/Laws.antt =====
-- `Fat12` of embedded-fatfs/src/table.rs against the contract of the table.
use embedded_fatfs.Base.{ℕ, ◌+◌, ◌/◌, ◌≤◌, ◌<◌, arith, subst}
use embedded_fatfs.Io.{Storage}
use embedded_fatfs.Io.Laws.{IsStorage}
use embedded_fatfs.Table.Contract.{IsFat}
use embedded_fatfs.Table.Fat12.{fat}
use embedded_fatfs.Table.Fat12.Entry.{table}
use embedded_fatfs.Table.Fat12.Access.{get_in, set_in}
use embedded_fatfs.Table.Fat12.Search.{find_free_in}
use embedded_fatfs.Table.Fat12.Count.{count_free_in}

-- For at most 0xFF7 entries whose packed bytes lie in the storage, the 12-bit layout keeps the
-- contract of the table: get returns the entry and keeps the content, set changes that entry and
-- no other, find_free returns the first free entry of a non-empty range or not_enough_space when
-- there is none, and count_free counts the free entries from 2 on.
pub fat12-IsFat :
    {st : Storage} (laws : IsStorage st) (entries : ℕ)
    → entries ≤ 0xFF7
    → entries + entries / 2 + 1 ≤ laws.size
    → IsFat laws (fat st) entries table
fat12-IsFat laws entries lim room = record {
  fits = omega arith;
  get_entry = λ c n e h. get_in laws c n e (omega arith) (omega arith);
  set_entry = λ c n v e h ok. set_in laws c entries n v e (omega arith) lim (omega arith) ok;
  find_first = λ c a b {s} e h hb.
      find_free_in laws c (λ i. subst (λ f. f i < 256) e (laws.content_byte s i)) a b e h
        (omega arith) (omega arith);
  count_all = λ c b {s} e h hb.
      count_free_in laws c (λ i. subst (λ f. f i < 256) e (laws.content_byte s i)) b e h
        (omega arith);
}
