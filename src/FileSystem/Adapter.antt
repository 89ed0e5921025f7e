-- ===== src/FileSystem/Adapter.antt =====
-- What writes through the adapter and to the mirrors of a table do to the disk, which takes whole
-- writes.
use embedded_fatfs.Base.{
  ℕ, zero, suc, ◌+◌, ◌-◌, ◌*◌, ◌%◌, ◌^◌, ◌≤◌, ◌<◌, ◌≡◌, ◌≢◌, true, arith, refl, ap, ap₂, ◌∙◌,
  Bool-cases, inl, inr,
}
use embedded_fatfs.Base.{List, [], ◌∷◌, length, drop, All, ltb, ◌⊎◌, fun_ext}
use embedded_fatfs.Base.Bytes.{IsByte, patch, patch_outside}
use embedded_fatfs.Io.{Storage, Cmd, Error, start, try_io, ◌>>◌}
use native.Mathlib.Nat.{mul-le-mul_right, mod-eq_of_lt}
use embedded_fatfs.Io.Provided.{Provided, IsProvided}
use embedded_fatfs.Io.Ends.{Returns, returns, bind, mono, Returns-map_err}
use embedded_fatfs.Io.Laws.{IsStorage}
use embedded_fatfs.DiskSlice.{DiskSlice, write_mirrors}
use embedded_fatfs.FileSystem.{FileSystem, Flagged, flags_offset, write_adapter, io_adapter}
use embedded_fatfs.FileSystem.Flags.{IsWhole, beside_disk-Returns, set_dirty_flag_in}
use embedded_fatfs.FileSystem.Region.{IsRegion, view, view-patch}

module _ {st : Storage} (laws : IsStorage st) (whole : IsWhole laws) (fs : FileSystem)
    {provided : Provided} (kept : IsProvided provided) where
  open st use {State}
  open laws use {content, position, size}

  abbrev pub flag : ℕ
  flag = flags_offset fs.fat_type

  abbrev pub io : Storage
  io = io_adapter st fs provided

  -- The bytes are written where the disk stood, and the flags perhaps.
  abbrev Written : Flagged State → List ℕ → Flagged State → Type 0
  Written v bs w =
      (x : ℕ) → x ≢ flag → content w.disk x ≡ patch (content v.disk) (position v.disk) bs x

  module _ (marks : flag + 1 ≤ size) where
    adapter_write_in :
        (bs : List ℕ) (v : Flagged State)
        → position v.disk + length bs ≤ size
        → All IsByte bs
        → Returns (λ n w. (n ≡ length bs) × Written v bs w) (write_adapter st fs bs v)
    unfolding write_adapter
    adapter_write_in bs v room bytes =
        bind (beside_disk-Returns st v (whole.write_whole bs v.disk room bytes)) λ n t ((q, e), _).
          elim (Bool-cases (ltb 0 n)) [
            | inl some_bytes ↦ rw some_bytes (
                bind (set_dirty_flag_in laws fs true t marks)
                  λ _ w (_, _, _, same). returns (q, (λ x ne. same x ne ∙ ap (λ c. c x) e)))
            | inr no_bytes ↦ rw no_bytes (returns (q, (λ x ne. ap (λ c. c x) e)))
          ]

    -- Nothing is written yet, or everything.
    abbrev Progress : List ℕ → Flagged State → ℕ → Flagged State → Type 0
    Progress bs v k t = ((k ≡ 0) × (t ≡ v)) ⊎ ((k ≡ length bs) × Written v bs t)

    adapter_step :
        (bs : List ℕ) (v : Flagged State)
        → position v.disk + length bs ≤ size
        → All IsByte bs
        → (k : ℕ) (t : Flagged State) → Progress bs v k t
        → k < length bs
        → Returns
            (λ n u. (0 < n) × (n ≤ length bs - k) × Progress bs v (k + n) u)
            (write_adapter st fs (drop k bs) t)
    adapter_step bs v room bytes k t (inl (z, q)) lt =
        rw (z, q)
          (mono (adapter_write_in bs v room bytes)
            (λ n u (r, h). (omega arith, omega arith, inr (omega arith, h))) (λ _ _ x. x))
    adapter_step bs v room bytes k t (inr (q, _)) lt = absurd (omega arith)

    Progress-done :
        (bs : List ℕ) (v w : Flagged State) → Progress bs v (length bs) w → Written v bs w
    Progress-done [] v w (inl (z, q)) = rw q (λ x _. refl)
    Progress-done (b ∷ bs) v w (inl (z, q)) = absurd (omega arith)
    Progress-done bs v w (inr (_, h)) = h

    adapter_write_all_in :
        (bs : List ℕ) (v : Flagged State)
        → position v.disk + length bs ≤ size
        → All IsByte bs
        → Returns (λ _ w. Written v bs w) (io.write_all bs v)
    adapter_write_all_in bs v room bytes =
        mono
          (kept.write_all_by (write_adapter st fs) (Progress bs v) bs v (inl (refl, refl))
            (adapter_step bs v room bytes))
          (λ _ w h. Progress-done bs v w h) (λ _ _ z. z)

  module _ (d : DiskSlice) (region : IsRegion fs size d) where
    pub one_fits : d.begin + d.size ≤ size
    one_fits = omega (arith, region.room, mul-le-mul_right d.size region.mirrored)

    mirror_fits : (m : ℕ) → m < d.mirrors → d.begin + m * d.size + d.size ≤ size
    mirror_fits m h = omega (arith, region.room, mul-le-mul_right d.size h)

    -- The mirror `m` is written at `o`, whatever the disk holds elsewhere, before the rest.
    mirror_in :
        (m o : ℕ) (bs : List ℕ) (v : Flagged State) {P : Unit {0} → Flagged State → Type 0}
        (rest : Cmd (Flagged State) (Error st.Cause) (Unit {0}))
        → m < d.mirrors
        → o + length bs ≤ d.size
        → All IsByte bs
        → ((w : Flagged State)
            → ((x : ℕ)
                → x ≢ flag
                → content w.disk x ≡ patch (content v.disk) (d.begin + o + m * d.size) bs x)
            → Returns P (rest w))
        → Returns P (
            (try_io io (io.seek (start ((d.begin + o + m * d.size) % 2 ^ 64)))
                >> (try_io io (io.write_all bs) >> rest))
              v)
    mirror_in m o bs v rest hm ho bytes next =
        let fits = mirror_fits m hm in
        let plain : (d.begin + o + m * d.size) % 2 ^ 64 ≡ d.begin + o + m * d.size =
          mod-eq_of_lt (omega (arith, region.lim)) in
        rw plain (
          bind
            (Returns-map_err _ (
              beside_disk-Returns st v
                (laws.seek_start (d.begin + o + m * d.size) v.disk (omega arith))))
            λ _ t ((_, e, at), _).
              bind
                (Returns-map_err _ (
                  adapter_write_all_in (omega (arith, region.lim, region.behind, one_fits)) bs t
                    (omega arith) bytes))
                (λ _ w h. next w (λ x ne. h x ne ∙ ap₂ (λ c p. patch c p bs x) e at)))

    -- What is written to the mirror `m` is behind the first, and the flags are before it.
    apart :
        (m o i : ℕ) (bs : List ℕ)
        → 0 < m
        → i < d.size
        → (d.begin + i ≢ flag) × (d.begin + i < d.begin + o + m * d.size)
    apart m o i bs hm hi =
        ((λ q. omega (arith, region.behind)), omega (arith, mul-le-mul_right d.size hm))

    -- The mirrors behind the first leave it alone.
    later_mirrors_in :
        (rounds m o : ℕ) (bs : List ℕ) (v : Flagged State)
        → 0 < m
        → m + rounds ≤ d.mirrors
        → o + length bs ≤ d.size
        → All IsByte bs
        → Returns
            (λ _ w.
              (i : ℕ) → i < d.size → content w.disk (d.begin + i) ≡ content v.disk (d.begin + i))
            (write_mirrors io rounds m (d.begin + o) d.size bs v)
    unfolding write_mirrors
    later_mirrors_in zero m o bs v hm hr ho bytes = returns (λ i _. refl)
    later_mirrors_in (suc rounds) m o bs v hm hr ho bytes =
        mirror_in m o bs v (write_mirrors io rounds (m + 1) (d.begin + o) d.size bs) (omega arith)
          ho bytes
          (λ w h.
            mono (later_mirrors_in rounds (m + 1) o bs w (omega arith) (omega arith) ho bytes)
              (λ _ u k i hi.
                let (ne, below) = apart m o i bs hm hi in
                k i hi
                ∙ h (d.begin + i) ne
                ∙ patch_outside (content v.disk) (d.begin + o + m * d.size) bs (d.begin + i)
                    (inl below))
              (λ _ _ z. z))

    -- A write to all mirrors, as the first of them shows it.
    pub write_mirrors_in :
        (o : ℕ) (bs : List ℕ) (v : Flagged State)
        → o + length bs ≤ d.size
        → All IsByte bs
        → Returns
            (λ _ w. view d (content w.disk) ≡ patch (view d (content v.disk)) o bs)
            (write_mirrors io d.mirrors 0 (d.begin + o) d.size bs v)
    unfolding write_mirrors
    write_mirrors_in o bs v ho bytes = first d.mirrors refl
      where
        first :
            (k : ℕ)
            → k ≡ d.mirrors
            → Returns
                (λ _ w. view d (content w.disk) ≡ patch (view d (content v.disk)) o bs)
                (write_mirrors io k 0 (d.begin + o) d.size bs v)
        first zero q = absurd (omega (arith, region.mirrored))
        first (suc k) q =
            let here : d.begin + o + 0 * d.size ≡ d.begin + o = omega arith in
            mirror_in 0 o bs v (write_mirrors io k 1 (d.begin + o) d.size bs) region.mirrored ho
              bytes
              (λ w h.
                mono (later_mirrors_in k 1 o bs w (omega arith) (omega arith) ho bytes)
                  (λ _ u l. fun_ext (
                    view-patch d (content v.disk) (content u.disk) o bs ho (λ i hi.
                      l i hi
                      ∙ h (d.begin + i) (λ e. omega (arith, region.behind))
                      ∙ ap (λ p. patch (content v.disk) p bs (d.begin + i)) here)))
                  (λ _ _ z. z))
