-- ===== src/FileSystem/Layout.antt =====
-- Where the table and the clusters of a mounted volume lie.
use embedded_fatfs.Base.{
  ℕ, ◌+◌, ◌-◌, ◌*◌, ◌%◌, ◌^◌, ◌≤◌, ◌<◌, ◌≡◌, false, arith, refl, ap, Bool-cases, inl, inr,
}
use embedded_fatfs.FatType.{FatType, fat12, fat16, fat32}
use embedded_fatfs.BootSector.{
  Bpb, first_data_sector, total_clusters, total_sectors, sectors_per_fat, root_dir_sectors,
}
use embedded_fatfs.BootSector.{
  sectors_from_clusters, sectors_per_all_fats, mirroring_enabled, active_fat,
}
use embedded_fatfs.BootSector
use embedded_fatfs.BootSector.Validate.Laws.{IsVolume}
use embedded_fatfs.DiskSlice.{DiskSlice, fat_slice}
use embedded_fatfs.FileSystem.{offset_from_cluster, sector_from_cluster, cluster_size, flags_offset}
use embedded_fatfs.FileSystem.Mount.{system_of}
use embedded_fatfs.FileSystem.Region.{IsRegion}
use native.Mathlib.Nat.{mul-le-mul_right, mul-le-mul_left, div-mul-le_self, add-mul, mul_assoc}

-- A volume whose regions fit the disk, in numbers that fit the words that the code computes with.
pub record IsLaidOut (b : Bpb) (size : ℕ) : Type 0 where
  pub volume : IsVolume b
  pub sectors : total_sectors b < 2 ^ 32
  pub regions : b.reserved_sectors + b.fats * sectors_per_fat b + root_dir_sectors b < 2 ^ 32
  pub active : mirroring_enabled b ≡ false → active_fat b < b.fats
  pub disk : total_sectors b * b.bytes_per_sector ≤ size
  pub lim : size < 2 ^ 64

-- The sectors of a slice of a table, among those of all tables.
record Sectors (b : Bpb) (d : DiskSlice) : Type 0 where
  first : ℕ
  mirrors : ℕ
  begins : d.begin ≡ first * b.bytes_per_sector
  holds : d.size ≡ sectors_per_fat b * b.bytes_per_sector
  copies : d.mirrors ≡ mirrors
  reserved : b.reserved_sectors ≤ first
  some_mirror : 1 ≤ mirrors
  upto : first + mirrors * sectors_per_fat b ≤ b.reserved_sectors + b.fats * sectors_per_fat b

module _ (b : Bpb) {size : ℕ} (l : IsLaidOut b size) where
  sector_bytes : 512 ≤ b.bytes_per_sector
  sector_bytes = grind (arith, l.volume.sector_size)

  first_data-plain :
      first_data_sector b ≡ b.reserved_sectors + b.fats * sectors_per_fat b + root_dir_sectors b
  unfolding first_data_sector sectors_per_all_fats
  first_data-plain = omega (arith, l.regions)

  -- The clusters fill no more than the sectors behind the first of the data.
  clusters_fit : first_data_sector b + total_clusters b * b.sectors_per_cluster ≤ total_sectors b
  unfolding total_clusters
  clusters_fit = omega (
    arith,
    l.sectors,
    l.volume.room,
    div-mul-le_self ((total_sectors b + 2 ^ 32 - first_data_sector b) % 2 ^ 32)
        b.sectors_per_cluster,
  )

  module _ (n : ℕ) (lo : 2 ≤ n) (hi : n < total_clusters b + 2) where
    -- The cluster's last sector is one of the volume.
    sectors_fit :
        first_data_sector b + (n - 2) * b.sectors_per_cluster + b.sectors_per_cluster
        ≤ total_sectors b
    sectors_fit =
        let upto : n - 2 + 1 ≤ total_clusters b = omega arith in
        omega (
          arith,
          add-mul (n - 2) 1 b.sectors_per_cluster,
          mul-le-mul_right b.sectors_per_cluster upto,
          clusters_fit,
        )

    sector-plain :
        sector_from_cluster (system_of b) n ≡ first_data_sector b + (n - 2) * b.sectors_per_cluster
    unfolding sector_from_cluster sectors_from_clusters
    sector-plain =
        let some_sectors : 1 ≤ b.sectors_per_cluster = grind (arith, l.volume.cluster_size) in
        let index : (n + 2 ^ 32 - 2) % 2 ^ 32 ≡ n - 2 =
          omega (arith, mul-le-mul_left (n - 2) some_sectors, sectors_fit, l.sectors) in
        rw index (omega (arith, sectors_fit, l.sectors))

    offset-plain :
        offset_from_cluster (system_of b) n
        ≡ (first_data_sector b + (n - 2) * b.sectors_per_cluster) * b.bytes_per_sector
    unfolding offset_from_cluster
    offset-plain = ap (λ k. k * b.bytes_per_sector) sector-plain

    -- The cluster as bytes: behind the first sector of the data, and on the disk.
    cluster_on_disk :
        (first_data_sector b * b.bytes_per_sector ≤ offset_from_cluster (system_of b) n)
        × (offset_from_cluster (system_of b) n + cluster_size (system_of b) ≤ size)
    unfolding BootSector.cluster_size
    cluster_on_disk =
        let bps = b.bytes_per_sector in
        let first = first_data_sector b + (n - 2) * b.sectors_per_cluster in
        let above : first_data_sector b ≤ first = omega arith in
        (
          omega (arith, offset-plain, mul-le-mul_right bps above),
          omega (
            arith,
            offset-plain,
            add-mul first b.sectors_per_cluster bps,
            mul-le-mul_right bps sectors_fit,
            l.disk,
          ),
        )

  -- Of two clusters the bytes of the one with the smaller number end before the other begins.
  clusters_apart :
      (n m : ℕ)
      → 2 ≤ n
      → n < m
      → m < total_clusters b + 2
      → offset_from_cluster (system_of b) n + cluster_size (system_of b)
        ≤ offset_from_cluster (system_of b) m
  unfolding BootSector.cluster_size
  clusters_apart n m lo lt hi =
      let bps = b.bytes_per_sector in
      let spc = b.sectors_per_cluster in
      let first = first_data_sector b + (n - 2) * spc in
      let upto : n - 2 + 1 ≤ m - 2 = omega arith in
      let below : first + spc ≤ first_data_sector b + (m - 2) * spc =
        omega (arith, add-mul (n - 2) 1 spc, mul-le-mul_right spc upto) in
      omega (
        arith,
        offset-plain n lo (omega arith),
        offset-plain m (omega arith) hi,
        add-mul first spc bps,
        mul-le-mul_right bps below,
      )

  fat_slice-Sectors : Sectors b (fat_slice b)
  unfolding fat_slice
  fat_slice-Sectors = elim (Bool-cases (mirroring_enabled b)) [
    | inl q ↦ rw q (record {
      first = b.reserved_sectors;
      mirrors = b.fats;
      begins = refl;
      holds = refl;
      copies = refl;
      reserved = omega arith;
      some_mirror = omega (arith, l.volume.fats);
      upto = omega arith;
    })
    | inr q ↦
        let spf = sectors_per_fat b in
        let room = mul-le-mul_right spf (l.active q) in
        let behind = add-mul (active_fat b) 1 spf in
        let small : active_fat b * spf % 2 ^ 32 ≡ active_fat b * spf = omega (arith, l.regions) in
        let first : (b.reserved_sectors + active_fat b * spf) % 2 ^ 32
            ≡ b.reserved_sectors + active_fat b * spf =
          omega (arith, l.regions) in
        rw (q, small, first)
          (record {
            first = b.reserved_sectors + active_fat b * spf;
            mirrors = 1;
            begins = refl;
            holds = refl;
            copies = refl;
            reserved = omega arith;
            some_mirror = omega arith;
            upto = omega arith;
          })
  ]

  flags_offset-lt : (t : FatType) → flags_offset t < 512
  flags_offset-lt fat12 = omega arith
  flags_offset-lt fat16 = omega arith
  flags_offset-lt fat32 = omega arith

  -- The table with its mirrors as bytes: behind the boot sector, and before the data.
  table_on_disk :
      (flags_offset (system_of b).fat_type < (fat_slice b).begin)
      × ((fat_slice b).begin + (fat_slice b).mirrors * (fat_slice b).size
          ≤ first_data_sector b * b.bytes_per_sector)
      × (0 < (fat_slice b).mirrors)
  table_on_disk =
      let t = fat_slice-Sectors in
      let bps = b.bytes_per_sector in
      let spf = sectors_per_fat b in
      let first_sector : 1 ≤ t.first = omega (arith, t.reserved, l.volume.reserved) in
      let below : t.first + t.mirrors * spf ≤ first_data_sector b =
        omega (arith, t.upto, first_data-plain) in
      rw (t.begins, t.holds, t.copies)
        (
          omega (
            arith,
            flags_offset-lt (system_of b).fat_type,
            mul-le-mul_right bps first_sector,
            sector_bytes,
          ),
          omega (
            arith,
            add-mul t.first (t.mirrors * spf) bps,
            mul_assoc t.mirrors spf bps,
            mul-le-mul_right bps below,
          ),
          omega (arith, t.some_mirror),
        )

  -- For a laid out volume: the table with its mirrors lies on the disk, behind the flags.
  pub fat_slice-IsRegion : IsRegion (system_of b) size (fat_slice b)
  fat_slice-IsRegion =
      let (behind, upto, mirrored) = table_on_disk in
      let below : first_data_sector b ≤ total_sectors b = omega (arith, l.volume.room) in
      record {
        lim = l.lim;
        mirrored = mirrored;
        room = omega (arith, upto, mul-le-mul_right b.bytes_per_sector below, l.disk);
        behind = behind;
      }

  -- For a volume that passes validate, whose sectors fit a u32 and the disk, whose regions do
  -- not overflow a u32, and whose active FAT is one of its FATs: the byte of the status flags
  -- comes before every copy of the table that is in use; these come before the data; every
  -- cluster lies in the data and on the disk; and the bytes of two clusters do not overlap.
  pub offset_from_cluster-disjoint :
      (flags_offset (system_of b).fat_type < (fat_slice b).begin)
      × ((fat_slice b).begin + (fat_slice b).mirrors * (fat_slice b).size
          ≤ first_data_sector b * b.bytes_per_sector)
      × ((n : ℕ)
          → 2 ≤ n
          → n < total_clusters b + 2
          → (first_data_sector b * b.bytes_per_sector ≤ offset_from_cluster (system_of b) n)
            × (offset_from_cluster (system_of b) n + cluster_size (system_of b) ≤ size))
      × ((n m : ℕ)
          → 2 ≤ n
          → n < m
          → m < total_clusters b + 2
          → offset_from_cluster (system_of b) n + cluster_size (system_of b)
            ≤ offset_from_cluster (system_of b) m)
  offset_from_cluster-disjoint =
      let (behind, upto, _) = table_on_disk in (behind, upto, cluster_on_disk, clusters_apart)
