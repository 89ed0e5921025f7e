-- ===== src/FsInfo/Laws.antt =====
-- The sector on the storage, and what validation leaves of it.
use embedded_fatfs.Base.{ℕ, zero, suc, ◌+◌, ◌^◌, ◌≤◌, ◌<◌, ◌≡◌, ◌++◌, List, [], Option, none, some}
use embedded_fatfs.Base.{==_iff, false, unwrap_or, replicate, All, arith, refl}
use embedded_fatfs.Base.{ap, ◌∙◌, sym}
use embedded_fatfs.Base.Bytes.{IsByte, IsU32, to_le_bytes, patch}
use embedded_fatfs.Io.{Storage, start, try_io, ◌>>◌}
use embedded_fatfs.Io.Ends.{Returns, returns, bind, bind_value, mono, Returns-map_err}
use embedded_fatfs.Io.Laws.{IsStorage, try_seek}
use embedded_fatfs.Io.Stream.{Ahead, Due, reads, reads_u32_le, writes, writes_u32_le, Ahead-Due}
use native.Mathlib.Nat.{mod-eq_of_lt}
use embedded_fatfs.FsInfo.{FsInfoSector, lead_sig, struc_sig, trail_sig, known_count, known_cluster}
use embedded_fatfs.FsInfo.{
  keep_upto, expect, deserialize_fs_info, serialize_fs_info, validate_and_fix,
}

abbrev pub zeros : ℕ → List ℕ
zeros n = replicate n 0

zeros-IsByte : (n : ℕ) → All IsByte (zeros n)
zeros-IsByte zero = tt
zeros-IsByte (suc n) = (omega arith, zeros-IsByte n)

-- The sector's bytes, for the two words that it stores.
abbrev pub sector_bytes : ℕ → ℕ → List ℕ
sector_bytes count next =
    to_le_bytes 4 lead_sig
    ++ (zeros 480
        ++ (to_le_bytes 4 struc_sig
            ++ (to_le_bytes 4 count
                ++ (to_le_bytes 4 next ++ (zeros 12 ++ (to_le_bytes 4 trail_sig ++ []))))))

-- Counters that fit a u32 and are told from the mark of an unknown one and the reserved clusters.
pub record FitsInfo (info : FsInfoSector) : Type 0 where
  pub count : (n : ℕ) → info.free_cluster_count ≡ some n → n < 0xFFFF_FFFF
  pub next : (n : ℕ) → info.next_free_cluster ≡ some n → (2 ≤ n) × (n < 0xFFFF_FFFF)

abbrev pub stored : Option ℕ → ℕ
stored o = unwrap_or o 0xFFFF_FFFF

known_count-stored :
    (o : Option ℕ)
    → ((n : ℕ) → o ≡ some n → n < 0xFFFF_FFFF)
    → (known_count (stored o) ≡ o) × IsU32 (stored o)
known_count-stored none h = (refl, omega arith)
known_count-stored (some n) h = ground (arith, h n refl)

known_cluster-stored :
    (o : Option ℕ)
    → ((n : ℕ) → o ≡ some n → (2 ≤ n) × (n < 0xFFFF_FFFF))
    → (known_cluster (stored o) ≡ o) × IsU32 (stored o)
known_cluster-stored none h = (refl, omega arith)
known_cluster-stored (some n) h = ground (arith, h n refl)

module _ {st : Storage} (laws : IsStorage st) where
  open st use {State}
  open laws use {content, position, size}

  expect_in :
      {d : ℕ → ℕ} (sig : ℕ) (ys : List ℕ) {s : State}
      → IsU32 sig
      → Ahead laws d (to_le_bytes 4 sig ++ ys) s
      → Returns (λ v u. (v ≡ tt) × Ahead laws d ys u) (expect st sig s)
  expect_in {d} sig ys lim h =
      bind_value _ (reads_u32_le laws d ys lim h)
        λ _ h1. rw ((==_iff sig sig).1 refl) (returns (refl, h1))

  module _ (info : FsInfoSector) (f : FitsInfo info) where
    abbrev pub info_bytes : List ℕ
    info_bytes = sector_bytes (stored info.free_cluster_count) (stored info.next_free_cluster)

    write_in :
        {d : ℕ → ℕ} {s : State}
        → Due laws d info_bytes s
        → Returns (λ _ u. content u ≡ d) (serialize_fs_info st info s)
    unfolding serialize_fs_info
    write_in {d} h0 = bind (Returns-map_err _ (writes_u32_le laws d lead_sig _ h0)) λ _ _ h1.
        bind (Returns-map_err _ (writes laws d (zeros 480) _ (zeros-IsByte 480) h1)) λ _ _ h2.
          bind (Returns-map_err _ (writes_u32_le laws d struc_sig _ h2)) λ _ _ h3.
            bind (Returns-map_err _ (writes_u32_le laws d _ _ h3)) λ _ _ h4.
              bind (Returns-map_err _ (writes_u32_le laws d _ _ h4)) λ _ _ h5.
                bind (Returns-map_err _ (writes laws d (zeros 12) _ (zeros-IsByte 12) h5)) λ _ _ h6.
                  bind (Returns-map_err _ (writes_u32_le laws d trail_sig [] h6)) λ _ u h7.
                    Returns-map_err _
                      (mono (laws.flush_keeps u) (λ _ w (e, _). e ∙ h7.becomes) (λ _ _ z. z))

    pub read_in :
        {d : ℕ → ℕ} {s : State}
        → Ahead laws d info_bytes s
        → Returns
            (λ v u. (v ≡ record info { dirty = false }) × (content u ≡ d))
            (deserialize_fs_info st s)
    unfolding deserialize_fs_info
    read_in {d} h0 =
        let (known, count_fits) = known_count-stored info.free_cluster_count f.count in
        let (usable, next_fits) = known_cluster-stored info.next_free_cluster f.next in
        bind_value _ (expect_in lead_sig _ (omega arith) h0) λ _ h1.
          bind_value _ (reads laws d (zeros 480) _ refl h1) λ _ h2.
            bind_value _ (expect_in struc_sig _ (omega arith) h2) λ _ h3.
              bind_value _ (reads_u32_le laws d _ count_fits h3) λ _ h4.
                bind_value _ (reads_u32_le laws d _ next_fits h4) λ _ h5.
                  bind_value _ (reads laws d (zeros 12) _ refl h5) λ _ h6.
                    bind_value _ (expect_in trail_sig [] (omega arith) h6)
                      λ _ h7. returns (rw (known, usable) refl, h7.same)

    -- On a storage with room for 512 bytes at its position p, for a count below 0xFFFFFFFF or
    -- unknown and a hint from 2 below 0xFFFFFFFF or unknown: serialize, a seek back to p and
    -- deserialize succeed and return the sector with its dirty flag cleared, and the content is
    -- the old one with the bytes of the sector at p.
    pub deserialize_fs_info-serialize_fs_info :
        {s : State} (p : ℕ)
        → position s ≡ p
        → p + 512 ≤ size
        → Returns
            (λ v u.
              (v ≡ record info { dirty = false }) × (content u ≡ patch (content s) p info_bytes))
            ((do serialize_fs_info st info; try_io st (st.seek (start p)); deserialize_fs_info st)
              s)
    deserialize_fs_info-serialize_fs_info {s} p at h =
        let due : Due laws (patch (content s) p info_bytes) info_bytes s = record {
          becomes = ap (λ x. patch (content s) x info_bytes) at;
          room = omega arith;
        } in
        bind (write_in due) λ _ t e.
          bind (try_seek laws _ p e (omega arith))
            λ _ u (_, g, q). read_in (Ahead-Due laws _ (content s) p info_bytes refl g q h)

-- A number that is kept was there and is not above the bound.
keep_upto_lem :
    (bound : ℕ) (o : Option ℕ) (n : ℕ) → keep_upto bound o ≡ some n → (o ≡ some n) × (n ≤ bound)
keep_upto_lem bound none n h = ground arith
keep_upto_lem bound (some m) n h = ground arith

-- What a volume of `total` clusters can trust of its counters: they are those that were stored, the
-- count is not above the number of clusters, and the hint not above `total + 2`.
pub record Trusted (total : ℕ) (info fixed : FsInfoSector) : Type 0 where
  pub count :
      (n : ℕ) → fixed.free_cluster_count ≡ some n → (info.free_cluster_count ≡ some n) × (n ≤ total)
  pub next :
      (n : ℕ)
      → fixed.next_free_cluster ≡ some n
      → (info.next_free_cluster ≡ some n) × (n ≤ total + 2)
  pub flag : fixed.dirty ≡ info.dirty

-- For fewer than 2 ^ 32 - 2 clusters, what validate_and_fix leaves known was stored in the
-- sector, its count is not above the number of clusters and its hint not above that number and
-- two; the dirty flag stays.
pub validate_and_fix-Trusted :
    (total : ℕ) (info : FsInfoSector)
    → total + 2 < 2 ^ 32
    → Trusted total info (validate_and_fix total info)
unfolding validate_and_fix
validate_and_fix-Trusted total info lim = record {
  count = λ n h. keep_upto_lem total info.free_cluster_count n h;
  next = λ n h. keep_upto_lem (total + 2) info.next_free_cluster n (rw (sym (mod-eq_of_lt lim)) h);
  flag = refl;
}
