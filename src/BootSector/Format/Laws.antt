-- ===== src/BootSector/Format/Laws.antt =====
-- `try_fs_geometry` of embedded-fatfs/src/boot_sector.rs against what a geometry has to satisfy.
use embedded_fatfs.Base.{ℕ, ◌+◌, ◌-◌, ◌*◌, ◌/◌, ◌%◌, ◌^◌, ◌≤◌, ◌<◌, ◌≡◌, arith}
use embedded_fatfs.Base.{
  ap, ◌∙◌, sym, Bool-cases, inl, inr, Bool, true, false, leb, ltb_false→le, not, if◌then◌else◌,
}
use embedded_fatfs.Io.{Error, Result, invalid_input}
use embedded_fatfs.FatType.{FatType, from_clusters, bits_per_fat_entry}
use embedded_fatfs.FatType.{max_clusters}
use embedded_fatfs.BootSector.Format.{determine_sectors_per_fat, try_fs_geometry, same_type}
use embedded_fatfs.BootSector.Format.{reserved_sectors_for}
use native.Mathlib.Nat.{
  div-add-mod, mod-lt, mod-eq_of_lt, le-div_iff_mul-le, mul-le-mul_left, mul-le-mul_right,
}
use native.Mathlib.Nat.{div-mul-le_self, le_of_mul-le-mul_left, mul-le-mul}

-- Division that rounds up covers the dividend.
covers : (a d : ℕ) → 0 < d → a ≤ (a + d - 1) / d * d
covers a d h = omega (arith, div-add-mod (a + d - 1) d, mod-lt (a + d - 1) {m = d} h)

-- A divisor that is large against `spc` leaves a small quotient.
few :
    (r d t0 spc fats : ℕ)
    → 9 ≤ t0
    → 0 < spc
    → 128 * spc ≤ d
    → fats ≤ 2
    → r * d ≤ t0 + 2 * spc + d - 1
    → r * fats ≤ t0
few r d t0 spc fats h hs hd hf le = elim (Bool-cases (leb r 4)) [
  | inl small ↦ grind (arith, mul-le-mul_left r hf)
  | inr large ↦ omega (
    arith,
    mul-le-mul_left r hf,
    mul-le-mul_left (r - 1) hd,
    mul-le-mul_left (r - 1) hs,
    mul-le-mul_right spc (over large),
    whole (over large),
  )
]
  where
    over : leb r 4 ≡ false → 4 ≤ r - 1
    over e = ground arith

    split : 4 ≤ r - 1 → r ≡ r - 1 + 1
    split e = omega arith

    whole : 4 ≤ r - 1 → r * d ≡ (r - 1) * d + d
    whole e = omega (arith, ap (λ (x : ℕ). x * d) (split e))

-- `t0` sectors are to be shared by the tables and the data. `size` is an entry's size in bits, and
-- `bits` that of a sector.
abbrev per_cluster : ℕ → ℕ → ℕ → ℕ
per_cluster spc bits size = spc * bits / size

abbrev rounded : ℕ → ℕ → ℕ → ℕ → ℕ → ℕ
rounded t0 spc bits size fats =
    (t0 + 2 * spc + (per_cluster spc bits size + fats) - 1) / (per_cluster spc bits size + fats)

module _ (t0 spc bits size fats : ℕ) (some_sectors : 9 ≤ t0) (spc_pos : 0 < spc)
    (size_pos : 0 < size) (wide : 128 * size ≤ bits) (fats_pos : 0 < fats)
    (fats_few : fats ≤ 2) where
  abbrev each : ℕ
  each = per_cluster spc bits size

  abbrev tables_size : ℕ
  tables_size = rounded t0 spc bits size fats

  many : 128 * spc ≤ each
  many = (le-div_iff_mul-le size_pos).1 (omega (arith, mul-le-mul_left spc wide))

  enough : t0 + 2 * spc ≤ tables_size * each + tables_size * fats
  enough = omega (arith, covers (t0 + 2 * spc) (each + fats) (omega arith))

  not_more : tables_size * (each + fats) ≤ t0 + 2 * spc + (each + fats) - 1
  not_more = div-mul-le_self (t0 + 2 * spc + (each + fats) - 1) (each + fats)

  tables_fit : tables_size * fats ≤ t0
  tables_fit =
      few tables_size (each + fats) t0 spc fats some_sectors spc_pos (omega (arith, many)) fats_few
        not_more

  entry_room : tables_size * each * size ≤ spc * (tables_size * bits)
  entry_room = omega (arith, mul-le-mul_left tables_size (div-mul-le_self (spc * bits) size))

  abbrev clusters : ℕ
  clusters = (t0 - tables_size * fats) / spc

  clusters_fit : (clusters + 2) * spc ≤ tables_size * each
  clusters_fit = omega (arith, enough, tables_fit, div-mul-le_self (t0 - tables_size * fats) spc)

  entries_suffice : clusters + 2 ≤ tables_size * bits / size
  entries_suffice = (le-div_iff_mul-le size_pos).1 (
      le_of_mul-le-mul_left {k = spc}
        (omega (arith, entry_room, mul-le-mul_right size clusters_fit)) spc_pos)

-- The sizes that a volume can be formatted with.
pub record Formattable
    (total_sectors bytes_per_sector sectors_per_cluster root_dir_sectors fats : ℕ) : Type 0 where
  pub total : total_sectors < 2 ^ 32
  pub sector_min : 512 ≤ bytes_per_sector
  pub sector_max : bytes_per_sector ≤ 4096
  pub cluster_min : 0 < sectors_per_cluster
  pub cluster_max : sectors_per_cluster ≤ 128
  pub root : root_dir_sectors ≤ 4096
  pub fats_min : 0 < fats
  pub fats_max : fats ≤ 2

-- What a geometry promises: the regions lie in the volume, its clusters are those of the FAT type,
-- and each table has an entry for every cluster and the two reserved ones.
pub record IsGeometry (total_sectors bytes_per_sector sectors_per_cluster : ℕ) (fat_type : FatType)
    (root_dir_sectors fats reserved size : ℕ) : Type 0 where
  pub regions : reserved + root_dir_sectors + size * fats ≤ total_sectors
  pub typed :
      from_clusters
        ((total_sectors - reserved - root_dir_sectors - size * fats) / sectors_per_cluster)
      ≡ fat_type
  pub limit :
      (total_sectors - reserved - root_dir_sectors - size * fats) / sectors_per_cluster
      ≤ max_clusters fat_type
  pub entries :
      (total_sectors - reserved - root_dir_sectors - size * fats) / sectors_per_cluster + 2
      ≤ size * (bytes_per_sector * 8) / bits_per_fat_entry fat_type

same_type→eq : (s t : FatType) → same_type s t ≡ true → s ≡ t
same_type→eq s t h = ground arith

leb_false→lt : (a b : ℕ) → leb a b ≡ false → b < a
leb_false→lt a b h = ground arith

-- The three tests of a geometry.
accepted :
    {E : Type 0} (a b d : Bool) (r size r' size' : ℕ)
    → ◌≡◌ {A = Result (Error E) (ℕ × ℕ)}
        (if a
          then Result.err invalid_input
          else if not b
          then Result.err invalid_input
          else if d
          then Result.err invalid_input
          else Result.ok (r, size))
        (Result.ok (r', size'))
    → (a ≡ false) × (b ≡ true) × (d ≡ false) × (r ≡ r') × (size ≡ size')
accepted a b d r size r' size' h = ground arith

module _ (E : Type 0) (total bps spc : ℕ) (fat_type : FatType) (root fats : ℕ)
    (f : Formattable total bps spc root fats) where
  abbrev reserved : ℕ
  reserved = reserved_sectors_for fat_type

  abbrev tables : ℕ
  tables =
      determine_sectors_per_fat total bps spc fat_type (reserved_sectors_for fat_type) root fats

  size_bounds : (0 < bits_per_fat_entry fat_type) × (bits_per_fat_entry fat_type ≤ 32)
  size_bounds = ground arith

  few_reserved : reserved ≤ 8
  few_reserved = ground arith

  abbrev left : ℕ
  left = total - reserved - root

  t0-left : 9 ≤ left → ((total + 2 ^ 32 - reserved) % 2 ^ 32 + 2 ^ 32 - root) % 2 ^ 32 ≡ left
  t0-left h = omega (arith, f.total, few_reserved)

  bits-nowrap : spc * bps * 8 % 2 ^ 32 ≡ spc * (bps * 8)
  bits-nowrap = omega (arith, mul-le-mul f.cluster_max f.sector_max)

  module _ (room : 9 ≤ left) where
    abbrev ideal : ℕ
    ideal = rounded left spc (bps * 8) (bits_per_fat_entry fat_type) fats

    fit : ideal * fats ≤ left
    fit =
        tables_fit left spc (bps * 8) (bits_per_fat_entry fat_type) fats room f.cluster_min
          size_bounds.0 (omega (arith, size_bounds.1, f.sector_min)) f.fats_min f.fats_max

    ideal-lt : ideal < 2 ^ 32
    ideal-lt = omega (arith, fit, f.total, mul-le-mul_left ideal f.fats_min)

    tables-ideal : tables ≡ ideal
    unfolding determine_sectors_per_fat
    tables-ideal = rw (t0-left room, bits-nowrap) (mod-eq_of_lt ideal-lt)

    suffice : (left - ideal * fats) / spc + 2 ≤ ideal * (bps * 8) / bits_per_fat_entry fat_type
    suffice =
        entries_suffice left spc (bps * 8) (bits_per_fat_entry fat_type) fats room f.cluster_min
          size_bounds.0 (omega (arith, size_bounds.1, f.sector_min)) f.fats_min f.fats_max

    data-nowrap :
        (total + 2 ^ 32 + 2 ^ 32 + 2 ^ 32 - reserved - root - tables * fats % 2 ^ 32) % 2 ^ 32
        ≡ left - ideal * fats
    data-nowrap = rw tables-ideal (omega (arith, f.total, f.root, few_reserved, fit))

  -- For fewer than 2 ^ 32 sectors of 512 to 4096 bytes, clusters of 1 to 128 sectors, at most
  -- 4096 sectors of root directory and one or two FATs: if try_fs_geometry finds a geometry, its
  -- regions lie in the volume, the FAT type by cluster count is the one asked for, the cluster
  -- count is within that type's limit, and each FAT has an entry for every cluster and for the
  -- two reserved ones.
  pub try_fs_geometry-IsGeometry :
      (r size : ℕ)
      → try_fs_geometry {E = E} total bps spc fat_type root fats ≡ Result.ok (r, size)
      → IsGeometry total bps spc fat_type root fats r size
  unfolding try_fs_geometry
  try_fs_geometry-IsGeometry r size h =
      let (enough_sectors, right_type, within, found_r, found_size) =
        accepted (leb total ((reserved + root + 8) % 2 ^ 32)) _ _ reserved tables r size h in
      let room : 9 ≤ left = omega (arith, leb_false→lt _ _ enough_sectors, few_reserved, f.root) in
      let sized : size ≡ ideal room = sym found_size ∙ tables-ideal room in
      let data_left = data-nowrap room in
      rw (sym found_r) (
        rw sized (record {
          regions = omega (arith, fit room, few_reserved);
          typed = sym (same_type→eq _ _ (rw data_left at right_type));
          limit = ltb_false→le _ _ (rw data_left at within);
          entries = suffice room;
        }))
