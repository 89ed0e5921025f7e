-- ===== src/FileSystem/Mounting.antt =====
-- What mounting finds on a disk.
use embedded_fatfs.Base.Int.{pos}
use embedded_fatfs.Base.{ℕ, ◌+◌, ◌%◌, ◌^◌, ◌≤◌, ◌<◌, Bool, Option, not, ltb, ltb→lt, sym, subst}
use embedded_fatfs.Io.{current}
use embedded_fatfs.Io.Ends.{Returns-map_err}
use embedded_fatfs.BootSector.{first_data_sector, root_dir_sectors}
use embedded_fatfs.FsInfo.{keep_upto}
use embedded_fatfs.FileSystem.{FileSystem, Mounted}
use embedded_fatfs.FileSystem.Flags.{flags_in, decode_flags_lem}
use embedded_fatfs.FileSystem.Mount.{mount_at_start, ignore_count}
use embedded_fatfs.Base.{
  ◌≡◌, true, false, none, arith, refl, ap, ◌∙◌, Bool-cases, inl, inr, length, get_or, if◌then◌else◌,
  ◌&&◌, ◌==◌,
}
use embedded_fatfs.Base.Bytes.{slice}
use embedded_fatfs.Io.{Storage, Result}
use embedded_fatfs.Io.Ends.{Returns, returns, bind, bind_value}
use embedded_fatfs.Io.Laws.{IsStorage, try_seek}
use embedded_fatfs.Io.Stream.{Ahead}
use embedded_fatfs.FatType.{from_clusters}
use embedded_fatfs.BootSector.{BootSector, status_flags, total_clusters, bytes_from_sectors}
use embedded_fatfs.BootSector.Codec.Laws.{FitsBoot, boot_bytes, read_boot_in}
use embedded_fatfs.BootSector.Validate.{validate, is_32}
use embedded_fatfs.BootSector.Validate.Laws.{IsVolume, IsVolume-validate_bpb}
use embedded_fatfs.FsInfo.{FsInfoSector, validate_and_fix}
use embedded_fatfs.FsInfo.Laws.{FitsInfo, info_bytes, read_in}
use embedded_fatfs.FileSystem.Mount.{mount, read_info, default_info}
use embedded_fatfs.FileSystem.Numbers.{
  IsKept, keep_upto-IsKept, IsTypeOf, from_clusters-IsTypeOf, is_32-from_clusters,
}

module _ {st : Storage} (laws : IsStorage st) (boot : BootSector) (f : FitsBoot boot)
    (info : FsInfoSector) (fits : FitsInfo info) where
  open laws use {content, position, size}

  -- The disk stands at its start, and tells so; it holds a boot sector of a volume and, for FAT32, the sector of the counters.
  pub record Holds (s : st.State) : Type 0 where
    pub at_start : position s ≡ 0
    pub told :
        Returns
          (λ r t. (r ≡ position s) × (content t ≡ content s) × (position t ≡ position s))
          (st.seek (current (pos 0)) s)
    pub boot_sector : Ahead laws (content s) (boot_bytes boot) s
    pub volume : IsVolume boot.bpb
    pub signature : (get_or boot.boot_sig 0 0 == 0x55 && get_or boot.boot_sig 1 0 == 0xAA) ≡ true
    pub counters :
        is_32 (from_clusters (total_clusters boot.bpb)) ≡ true
        → (slice
              (content s)
              (bytes_from_sectors boot.bpb boot.bpb.fs_info_sector)
              (length (info_bytes laws info fits))
            ≡ info_bytes laws info fits)
          × (bytes_from_sectors boot.bpb boot.bpb.fs_info_sector
                + length (info_bytes laws info fits)
              ≤ size)

  -- The counters that are read: those of the disk for FAT32.
  abbrev pub stored_info : FsInfoSector
  stored_info =
      if is_32 (from_clusters (total_clusters boot.bpb))
      then record info { dirty = false }
      else default_info

  passes : {s : st.State} → Holds s → validate {E = st.Cause} boot ≡ Result.ok tt
  unfolding validate
  passes h = rw (h.signature, IsVolume-validate_bpb st.Cause boot.bpb h.volume)

  read_info_in :
      {s : st.State} (u : st.State)
      → Holds s
      → content u ≡ content s
      → Returns (λ i w. (i ≡ stored_info) × (content w ≡ content s)) (read_info st boot.bpb u)
  unfolding read_info
  read_info_in {s} u h e = elim (Bool-cases (is_32 (from_clusters (total_clusters boot.bpb)))) [
    | inl q ↦
        let (bytes, room) = h.counters q in
        let off = bytes_from_sectors boot.bpb boot.bpb.fs_info_sector in
        rw q (
          bind (try_seek laws (content s) off e (omega arith)) λ _ w (_, g, at).
            read_in laws info fits (record {
              same = g;
              holds = ap (λ x. slice (content s) x (length (info_bytes laws info fits))) at ∙ bytes;
              room = omega (arith, at);
            }))
    | inr q ↦ rw q (returns (refl, e))
  ]

  -- What a FAT32 volume stores beside its boot sector.
  abbrev pub where_fat32 : Option ℕ → Option ℕ
  where_fat32 o = if ltb (total_clusters boot.bpb) 65525 then none else o

  stored-where_fat32 :
      (stored_info.free_cluster_count ≡ where_fat32 info.free_cluster_count)
      × (stored_info.next_free_cluster ≡ where_fat32 info.next_free_cluster)
      × (stored_info.dirty ≡ false)
  stored-where_fat32 =
      let q = is_32-from_clusters (total_clusters boot.bpb) in
      elim (Bool-cases (ltb (total_clusters boot.bpb) 65525)) [
        | inl less ↦
            let no : is_32 (from_clusters (total_clusters boot.bpb)) ≡ false = q ∙ ap not less in
            rw (no, less) (refl, refl, refl)
        | inr more ↦
            let yes : is_32 (from_clusters (total_clusters boot.bpb)) ≡ true = q ∙ ap not more in
            rw (yes, more) (refl, refl, refl)
      ]

  nameable : IsVolume boot.bpb → total_clusters boot.bpb + 2 < 2 ^ 32
  nameable h =
      let q = is_32-from_clusters (total_clusters boot.bpb) in
      elim (Bool-cases (ltb (total_clusters boot.bpb) 65525)) [
        | inl less ↦ omega (arith, ltb→lt (total_clusters boot.bpb) 65525 less)
        | inr more ↦ omega (arith, h.clusters (h.fat_type ∙ q ∙ ap not more))
      ]

  -- The counters of a mounted volume.
  pub record RightInfo (i : FsInfoSector) : Type 0 where
    pub count :
        IsKept
          (total_clusters boot.bpb)
          (if boot.bpb.reserved_1 % 2 == 0 then where_fat32 info.free_cluster_count else none)
          i.free_cluster_count
    pub next :
        IsKept
          (total_clusters boot.bpb + 2)
          (where_fat32 info.next_free_cluster)
          i.next_free_cluster
    pub clean : i.dirty ≡ false

  ignored-count :
      (d : Bool) (i : FsInfoSector) (o : Option ℕ)
      → i.free_cluster_count ≡ o
      → (ignore_count (not d) i).free_cluster_count ≡ (if d then o else none)
  ignored-count true i o q = q
  ignored-count false i o q = refl

  ignored-next :
      (d : Bool) (i : FsInfoSector)
      → ((ignore_count d i).next_free_cluster ≡ i.next_free_cluster)
        × ((ignore_count d i).dirty ≡ i.dirty)
  ignored-next true i = (refl, refl)
  ignored-next false i = (refl, refl)

  mounted_info :
      IsVolume boot.bpb
      → RightInfo (
          validate_and_fix
            (total_clusters boot.bpb)
            (ignore_count (status_flags boot.bpb).dirty stored_info))
  unfolding validate_and_fix
  mounted_info h =
      let (count, next, clean) = stored-where_fat32 in
      let bits = ap (λ f. f.dirty) (decode_flags_lem boot.bpb.reserved_1) in
      let whole : (total_clusters boot.bpb + 2) % 2 ^ 32 ≡ total_clusters boot.bpb + 2 =
        omega (arith, nameable h) in
      let (same_next, same_dirty) = ignored-next (status_flags boot.bpb).dirty stored_info in
      record {
        count =
            subst
              (λ o. IsKept (total_clusters boot.bpb) o (
                keep_upto (total_clusters boot.bpb)
                  (ignore_count (status_flags boot.bpb).dirty stored_info).free_cluster_count))
              (ap (λ d. (ignore_count d stored_info).free_cluster_count) bits
                ∙ ignored-count (boot.bpb.reserved_1 % 2 == 0) stored_info _ count)
              (keep_upto-IsKept (total_clusters boot.bpb) _);
        next =
            subst
              (λ o. IsKept (total_clusters boot.bpb + 2) o (
                keep_upto ((total_clusters boot.bpb + 2) % 2 ^ 32)
                  (ignore_count (status_flags boot.bpb).dirty stored_info).next_free_cluster))
              (same_next ∙ next)
              (subst
                (λ b.
                  IsKept (total_clusters boot.bpb + 2)
                    (ignore_count (status_flags boot.bpb).dirty stored_info).next_free_cluster
                    (keep_upto b
                      (ignore_count (status_flags boot.bpb).dirty stored_info).next_free_cluster))
                (sym whole) (keep_upto-IsKept (total_clusters boot.bpb + 2) _));
        clean = same_dirty ∙ clean;
      }

  -- The file system and the volume that are mounted.
  pub record Mounts (fs : FileSystem) (v : Mounted st.State) : Type 0 where
    pub bpb : fs.bpb ≡ boot.bpb
    pub fat_type : IsTypeOf (total_clusters boot.bpb) fs.fat_type
    pub first_data : fs.first_data_sector ≡ first_data_sector boot.bpb
    pub root_dir : fs.root_dir_sectors ≡ root_dir_sectors boot.bpb
    pub clusters : fs.total_clusters ≡ total_clusters boot.bpb
    pub counts : RightInfo v.fs_info
    pub flags : v.device.current_status_flags ≡ flags_in boot.bpb.reserved_1

  -- On a disk that keeps the laws of a storage, stands at its start and tells so, and has there
  -- a boot sector that is well formed, signed and describes a volume, and for FAT32 well formed
  -- counters in their sector: mounting does not panic and changes no byte; it returns the
  -- parameter block with its numbers, the FAT type by the thresholds 4085 and 65525, bits 0 and
  -- 1 of the byte of the flags, and the counters, which are unknown unless the type is FAT32:
  -- the count if it is at most the number of clusters and bit 0 is clear, and the hint if it is
  -- at most that number plus 2.
  pub mount_lem :
      (s : st.State)
      → Holds s
      → Returns
          (λ (fs, v) u. Mounts fs v × (content v.device.disk ≡ content s) × (content u ≡ content s))
          (mount st s)
  unfolding mount mount_at_start
  mount_lem s h = bind (Returns-map_err _ h.told) λ r t (q, e, at).
      let start_here : r ≡ 0 = q ∙ h.at_start in
      let ahead : Ahead laws (content s) (boot_bytes boot) t = record {
        same = e;
        holds = ap (λ p. slice (content s) p (length (boot_bytes boot))) at ∙ h.boot_sector.holds;
        room = omega (arith, at, h.boot_sector.room);
      } in
      rw start_here (
        bind_value _ (read_boot_in laws boot f ahead) λ u g. rw (passes h) (
          bind_value _ (read_info_in u h g) λ w k. returns (
            record {
              bpb = refl;
              fat_type = from_clusters-IsTypeOf (total_clusters boot.bpb);
              first_data = refl;
              root_dir = refl;
              clusters = refl;
              counts = mounted_info h.volume;
              flags = decode_flags_lem boot.bpb.reserved_1;
            },
            k,
            k,
          )))
