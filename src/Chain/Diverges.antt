-- ===== src/Chain/Diverges.antt =====
-- `ClusterIterator::free` of embedded-fatfs/src/table.rs on a storage that can be written and not read.
use embedded_fatfs.Base.{ℕ, zero, suc, ◌+◌, ◌%◌, ◌^◌, ◌≡◌, refl, some, true}
use embedded_fatfs.Io.{Storage, Error, ok, err, out_of_fuel}
use embedded_fatfs.FatType.{FatType}
use embedded_fatfs.Table.{get_next_cluster, write_fat}
use embedded_fatfs.Table.Value.{free}
use embedded_fatfs.Chain.{ClusterIterator, new, next_from, next, free_loop, free_chain}

-- An iterator that has met an error at cluster `n`.
abbrev stuck_at : ℕ → ClusterIterator
stuck_at n = record { cluster = some n; failed = true }

module _ (st : Storage) (fat_type : FatType) (n : ℕ)
    (writes : (u : st.State) → (w : st.State) × (write_fat st fat_type n free u ≡ ok tt w)) where
  free_loop_stuck :
      (fuel k : ℕ) (s : st.State)
      → free_loop st fat_type fuel (stuck_at n) (some n) k s ≡ out_of_fuel
  unfolding free_loop next
  free_loop_stuck zero k s = refl
  free_loop_stuck (suc fuel) k s =
      rw ((writes s).1) (free_loop_stuck fuel ((k + 1) % 2 ^ 32) (writes s).0)

  -- If the read of the first entry of a chain fails while writes to that entry always succeed,
  -- freeing the chain runs out of any fuel: it never returns.
  pub free_chain-diverges :
      (s : st.State) {t : st.State} {e : Error st.Cause}
      → get_next_cluster st fat_type n s ≡ err e t
      → (fuel : ℕ) → free_chain st fat_type fuel (new n) s ≡ out_of_fuel
  unfolding free_chain free_loop next next_from
  free_chain-diverges s fails zero = refl
  free_chain-diverges s {t} fails (suc fuel) =
      rw fails (rw ((writes t).1) (free_loop_stuck fuel 1 (writes t).0))
