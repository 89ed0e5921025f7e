-- ===== src/Chain.antt =====
-- `ClusterIterator` of embedded-fatfs/src/table.rs. The iterator's own fields are a record; the
-- table that it borrows is the state of the storage. `free` may go on for ever, so it takes fuel.
use embedded_fatfs.Base.{ℕ, zero, suc, ◌+◌, ◌%◌, ◌^◌, Bool, false, true, Option, none, some}
pub mod Spec
pub mod Free
pub mod Diverges
pub mod Extend
use embedded_fatfs.Base.{if◌then◌else◌}
use embedded_fatfs.Io.{Storage, Fs, Error, Result, pure, attempt, out_of_fuel, ◌>>=◌, ◌>>◌}
use embedded_fatfs.FatType.{FatType}
use embedded_fatfs.Table.{get_next_cluster, write_fat}
use embedded_fatfs.Table.Value.{free, end_of_chain}

pub record ClusterIterator : Type 0 where
  pub cluster : Option ℕ
  pub failed : Bool

-- `ClusterIterator::new`; the field `err` is `failed`
abbrev pub new : ℕ → ClusterIterator
new cluster = record { cluster = some cluster; failed = false }

module _ (st : Storage) where
  -- `Option<Result<u32, Error<E>>>`
  abbrev pub Item : Type 0
  Item = Option (Result (Error st.Cause) ℕ)

  abbrev pub item_of : Option ℕ → Item
  item_of none = none
  item_of (some n) = some (Result.ok n)

  -- What `next` makes of the table's answer.
  abbrev pub advance : ClusterIterator → Result (Error st.Cause) (Option ℕ) → Item × ClusterIterator
  advance it (Result.ok next_cluster) = (item_of next_cluster, record it { cluster = next_cluster })
  advance it (Result.err e) = (some (Result.err e), record it { failed = true })

  module _ (fat_type : FatType) where
    unfoldable pub next_from : ClusterIterator → Option ℕ → Fs st (Item × ClusterIterator)
    next_from it none = pure (none, it)
    next_from it (some current_cluster) = do
      r ← attempt (get_next_cluster st fat_type current_cluster)
      pure (advance it r)

    unfoldable pub next : ClusterIterator → Fs st (Item × ClusterIterator)
    next it = if it.failed then pure (none, it) else next_from it it.cluster

    -- `free` from a given count. The match on `self.cluster` is that of the `while let`.
    unfoldable pub free_loop : ℕ → ClusterIterator → Option ℕ → ℕ → Fs st ℕ
    free_loop fuel it none num_free = pure num_free
    free_loop zero it (some n) num_free = λ _. out_of_fuel
    free_loop (suc fuel) it (some n) num_free = do
      (_, it') ← next it
      write_fat st fat_type n free
      free_loop fuel it' it'.cluster ((num_free + 1) % 2 ^ 32)

    unfoldable pub free_chain : ℕ → ClusterIterator → Fs st ℕ
    free_chain fuel it = free_loop fuel it it.cluster 0

    unfoldable pub truncate_from : ℕ → ClusterIterator → Option ℕ → Fs st ℕ
    truncate_from fuel it none = pure 0
    truncate_from fuel it (some n) = do
      (_, it') ← next it
      write_fat st fat_type n end_of_chain
      free_chain fuel it'

    unfoldable pub truncate : ℕ → ClusterIterator → Fs st ℕ
    truncate fuel it = truncate_from fuel it it.cluster
