-- ===== src/BootSector/Validate/Laws.antt =====
-- What a BIOS parameter block that passes the checks is like.
use embedded_fatfs.Base.{ℕ, zero, suc, ◌≤◌, ◌<◌, ◌≡◌, refl, arith}
use embedded_fatfs.Base.{Bool, true, false, ◌&&◌, ◌||◌, not, ◌==◌, ltb, ◌⊎◌, inl, inr}
use embedded_fatfs.Io.{Result}
use embedded_fatfs.FatType.{from_clusters}
use embedded_fatfs.BootSector.{Bpb, is_fat32, total_sectors, first_data_sector}
use embedded_fatfs.BootSector.{total_clusters}
use embedded_fatfs.BootSector.Validate.{Check, refuse_if, and_also}
use embedded_fatfs.BootSector.Validate.{count_ones, validate_bpb, validate_bytes_per_sector}
use embedded_fatfs.BootSector.Validate.{validate_sectors_per_cluster, validate_reserved_sectors}
use embedded_fatfs.BootSector.Validate.{validate_fats, validate_root_entries, is_32}
use embedded_fatfs.BootSector.Validate.{validate_total_sectors, validate_sectors_per_fat}
use embedded_fatfs.BootSector.Validate.{validate_total_clusters}

-- A test over all numbers below a bound.
all_below : ℕ → (ℕ → Bool) → Bool
all_below zero p = true
all_below (suc n) p = p n && all_below n p

below : (n : ℕ) (p : ℕ → Bool) (x : ℕ) → all_below n p ≡ true → x < n → p x ≡ true
unfolding all_below
below zero p x h lt = absurd (omega arith)
below (suc n) p x h lt = ground (arith, below n p x)

-- The sizes of a sector that have one bit.
abbrev pub SectorSize : ℕ → Type 0
SectorSize n = (n ≡ 512) ⊎ (n ≡ 1024) ⊎ (n ≡ 2048) ⊎ (n ≡ 4096)

sector_size_test : ℕ → Bool
sector_size_test n =
    not (count_ones 16 n == 1)
    || (ltb n 512 || (n == 512 || (n == 1024 || (n == 2048 || n == 4096))))

sector_sizes : all_below 4097 sector_size_test ≡ true
unfolding all_below sector_size_test
sector_sizes = refl

sector_size_of : (n : ℕ) → n ≤ 4096 → sector_size_test n ≡ true
sector_size_of n h = below 4097 sector_size_test n sector_sizes (omega arith)

abbrev pub ClusterSize : ℕ → Type 0
ClusterSize n = (n ≡ 1) ⊎ (n ≡ 2) ⊎ (n ≡ 4) ⊎ (n ≡ 8) ⊎ (n ≡ 16) ⊎ (n ≡ 32) ⊎ (n ≡ 64) ⊎ (n ≡ 128)

cluster_size_test : ℕ → Bool
cluster_size_test n =
    not (count_ones 8 n == 1)
    || (n == 1
        || (n == 2 || (n == 4 || (n == 8 || (n == 16 || (n == 32 || (n == 64 || n == 128)))))))

cluster_sizes : all_below 256 cluster_size_test ≡ true
unfolding all_below cluster_size_test
cluster_sizes = refl

cluster_size_of : (n : ℕ) → n ≤ 128 → cluster_size_test n ≡ true
cluster_size_of n h = below 256 cluster_size_test n cluster_sizes (omega arith)

-- What the checks establish.
pub record IsVolume (b : Bpb) : Type 0 where
  pub version : b.fs_version ≡ 0
  pub sector_size : SectorSize b.bytes_per_sector
  pub cluster_size : ClusterSize b.sectors_per_cluster
  pub reserved : 0 < b.reserved_sectors
  pub backup : is_fat32 b ≡ true → b.backup_boot_sector < b.reserved_sectors
  pub fs_info : is_fat32 b ≡ true → b.fs_info_sector < b.reserved_sectors
  pub fats : 0 < b.fats
  pub root_32 : is_fat32 b ≡ true → b.root_entries ≡ 0
  pub root_16 : is_fat32 b ≡ false → 0 < b.root_entries
  pub sectors_32 : is_fat32 b ≡ true → b.total_sectors_16 ≡ 0
  pub one_total : (b.total_sectors_16 == 0) ≡ not (b.total_sectors_32 == 0)
  pub room : first_data_sector b < total_sectors b
  pub fat_size : is_fat32 b ≡ true → 0 < b.sectors_per_fat_32
  pub fat_type : is_fat32 b ≡ is_32 (from_clusters (total_clusters b))
  pub clusters : is_fat32 b ≡ true → total_clusters b ≤ 0x0FFF_FFFF

-- A check that passed, and its parts.
abbrev pub Passed : {E : Type 0} → Check E → Type 0
Passed c = c ≡ Result.ok tt

both-Passed : {E : Type 0} (c d : Check E) → Passed (and_also c d) → Passed c × Passed d
both-Passed (Result.ok tt) d h = (refl, h)
both-Passed (Result.err e) d h = cc

zero_of : (n : ℕ) → not (n == 0) ≡ false → n ≡ 0
zero_of n h = ground arith

module _ (E : Type 0) (b : Bpb) where
  sector_checked : Passed (validate_bytes_per_sector {E = E} b) → SectorSize b.bytes_per_sector
  unfolding validate_bytes_per_sector sector_size_test
  sector_checked h = ground (arith, sector_size_of b.bytes_per_sector)

  cluster_checked :
      Passed (validate_sectors_per_cluster {E = E} b) → ClusterSize b.sectors_per_cluster
  unfolding validate_sectors_per_cluster cluster_size_test
  cluster_checked h = ground (arith, cluster_size_of b.sectors_per_cluster)

  reserved_checked :
      Passed (validate_reserved_sectors {E = E} b)
      → (0 < b.reserved_sectors)
        × (is_fat32 b ≡ true → b.backup_boot_sector < b.reserved_sectors)
        × (is_fat32 b ≡ true → b.fs_info_sector < b.reserved_sectors)
  unfolding validate_reserved_sectors
  reserved_checked h = (ground arith, (λ f. ground arith), (λ f. ground arith))

  fats_checked : Passed (validate_fats {E = E} b) → 0 < b.fats
  unfolding validate_fats
  fats_checked h = ground arith

  root_checked :
      Passed (validate_root_entries {E = E} b)
      → (is_fat32 b ≡ true → b.root_entries ≡ 0) × (is_fat32 b ≡ false → 0 < b.root_entries)
  unfolding validate_root_entries
  root_checked h = ((λ f. ground arith), (λ f. ground arith))

  total_checked :
      Passed (validate_total_sectors {E = E} b)
      → (is_fat32 b ≡ true → b.total_sectors_16 ≡ 0)
        × ((b.total_sectors_16 == 0) ≡ not (b.total_sectors_32 == 0))
        × (first_data_sector b < total_sectors b)
  unfolding validate_total_sectors
  total_checked h = ((λ f. ground arith), ground arith, ground arith)

  fat_checked :
      Passed (validate_sectors_per_fat {E = E} b) → is_fat32 b ≡ true → 0 < b.sectors_per_fat_32
  unfolding validate_sectors_per_fat
  fat_checked h f = ground arith

  clusters_checked :
      Passed (validate_total_clusters {E = E} b)
      → (is_fat32 b ≡ is_32 (from_clusters (total_clusters b)))
        × (is_fat32 b ≡ true → total_clusters b ≤ 0x0FFF_FFFF)
  unfolding validate_total_clusters
  clusters_checked h = (ground arith, (λ f. ground arith))

  refused-Passed :
      (f : Bool) (rest : Check E) → Passed (refuse_if f rest) → (f ≡ false) × Passed rest
  refused-Passed true rest h = cc
  refused-Passed false rest h = (refl, h)

  -- A BIOS parameter block that passes validate describes a volume: the sector size is one of
  -- 512, 1024, 2048 and 4096, the cluster size a power of two up to 128 sectors, there are
  -- reserved sectors and FATs, the FAT32 fields agree with each other, exactly one of the two
  -- sector counts is set, the data area begins inside the volume, and the FAT type by cluster
  -- count agrees with the one by layout.
  pub validate_bpb-IsVolume : Passed (validate_bpb {E = E} b) → IsVolume b
  unfolding validate_bpb
  validate_bpb-IsVolume h =
      let (v, h1) = refused-Passed _ _ h in
      let (sector, h2) = both-Passed _ _ h1 in
      let (cluster, h3) = both-Passed _ _ h2 in
      let (reserved, h4) = both-Passed _ _ h3 in
      let (fats, h5) = both-Passed _ _ h4 in
      let (root, h6) = both-Passed _ _ h5 in
      let (total, h7) = both-Passed _ _ h6 in
      let (fat, clusters) = both-Passed _ _ h7 in
      let (r0, r1, r2) = reserved_checked reserved in
      let (t0, t1, t2) = total_checked total in
      record {
        version = zero_of _ v;
        sector_size = sector_checked sector;
        cluster_size = cluster_checked cluster;
        reserved = r0;
        backup = r1;
        fs_info = r2;
        fats = fats_checked fats;
        root_32 = (root_checked root).0;
        root_16 = (root_checked root).1;
        sectors_32 = t0;
        one_total = t1;
        room = t2;
        fat_size = fat_checked fat;
        fat_type = (clusters_checked clusters).0;
        clusters = (clusters_checked clusters).1;
      }

  module _ (v : IsVolume b) where
    bytes_pass : Passed (validate_bytes_per_sector {E = E} b)
    unfolding validate_bytes_per_sector
    bytes_pass = elim v.sector_size [
      | inl e ↦ rw e
      | inr (inl e) ↦ rw e
      | inr (inr (inl e)) ↦ rw e
      | inr (inr (inr e)) ↦ rw e
    ]

    cluster_pass : Passed (validate_sectors_per_cluster {E = E} b)
    unfolding validate_sectors_per_cluster
    cluster_pass = elim v.cluster_size [
      | inl e ↦ rw e
      | inr (inl e) ↦ rw e
      | inr (inr (inl e)) ↦ rw e
      | inr (inr (inr (inl e))) ↦ rw e
      | inr (inr (inr (inr (inl e)))) ↦ rw e
      | inr (inr (inr (inr (inr (inl e))))) ↦ rw e
      | inr (inr (inr (inr (inr (inr (inl e)))))) ↦ rw e
      | inr (inr (inr (inr (inr (inr (inr e)))))) ↦ rw e
    ]

    others_pass :
        Passed (validate_reserved_sectors {E = E} b)
        × Passed (validate_fats {E = E} b)
        × Passed (validate_root_entries {E = E} b)
        × Passed (validate_total_sectors {E = E} b)
        × Passed (validate_sectors_per_fat {E = E} b)
        × Passed (validate_total_clusters {E = E} b)
    unfolding validate_reserved_sectors validate_fats validate_root_entries validate_total_sectors
        validate_sectors_per_fat validate_total_clusters
    others_pass = (
      ground (arith, v.reserved, v.backup, v.fs_info),
      ground (arith, v.fats),
      ground (arith, v.root_32, v.root_16),
      ground (arith, v.sectors_32, v.one_total, v.room),
      ground (arith, v.fat_size),
      ground (arith, v.fat_type, v.clusters),
    )

    -- A BIOS parameter block that describes a volume, in the sense of validate_bpb-IsVolume,
    -- passes validate.
    pub IsVolume-validate_bpb : Passed (validate_bpb {E = E} b)
    unfolding validate_bpb
    IsVolume-validate_bpb =
        let (p0, p1, p2, p3, p4, p5) = others_pass in
        let version : (b.fs_version == 0) ≡ true = ground (arith, v.version) in
        rw (version, bytes_pass, cluster_pass, p0, p1, p2, p3, p4, p5)
