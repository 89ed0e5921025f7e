-- ===== src/FileSystem/Volume.antt =====
-- The table of a mounted volume keeps the laws of a storage.
use embedded_fatfs.Base.{
  ℕ, ◌+◌, ◌-◌, ◌≤◌, ◌<◌, ◌≡◌, false, arith, refl, sym, ap, ap₂, ◌∙◌, inl, inr, ◌==◌,
}
use embedded_fatfs.Base.{List, [], ◌∷◌, ◌++◌, length, drop, All, ◌⊎◌, min}
use embedded_fatfs.Base.{le→ltb_false, take_all, length-append}
use embedded_fatfs.Base.Bytes.{IsByte, patch, slice}
use embedded_fatfs.Io.{Storage, Run, start}
use native.Mathlib.Nat.{mod-eq_of_lt}
use embedded_fatfs.Io.Provided.{Provided, IsProvided}
use embedded_fatfs.Io.Ends.{Returns, returns, fails, bind, mono, Returns-map_err}
use embedded_fatfs.Io.Laws.{IsStorage}
use embedded_fatfs.DiskSlice.{
  DiskSlice, read_slice, write_slice, seek_slice, flush_slice, left, abs_pos,
}
use embedded_fatfs.DiskSlice.Mirrors.{beside-Returns}
use embedded_fatfs.DiskSlice.Window.{slice_storage, at_offset, keep_offset}
use embedded_fatfs.FileSystem.{FileSystem, Flagged}
use embedded_fatfs.FileSystem.Flags.{IsWhole, beside_disk-Returns}
use embedded_fatfs.FileSystem.Region.{IsRegion, view, slice-view, slice-add}
use embedded_fatfs.FileSystem.Adapter.{io, one_fits, write_mirrors_in}

keep_offset-Returns :
    (st : Storage) {X A : Type 0} {P : A → ℕ × st.State → Type 0}
    {r : Run (DiskSlice × st.State) X A}
    → Returns (λ a (e, t). P a (e.offset, t)) r
    → Returns P (keep_offset st r)
keep_offset-Returns st (returns h) = returns h
keep_offset-Returns st (fails q) = absurd q

module _ {st : Storage} (laws : IsStorage st) (whole : IsWhole laws) (fs : FileSystem)
    {provided : Provided} (kept : IsProvided provided) (d : DiskSlice)
    (region : IsRegion fs laws.size d) where
  open st use {State}
  open laws use {content, position, size}

  abbrev pub adapter : Storage
  adapter = io laws whole fs kept

  abbrev pub Slot : Type 0
  Slot = ℕ × Flagged State

  abbrev pub shown : Slot → ℕ → ℕ
  shown (o, v) = view d (content v.disk)

  abbrev pub at : ℕ → DiskSlice
  at o = record d { offset = o }

  fits : d.begin + d.size ≤ size
  fits = one_fits laws whole fs kept d region

  left-at : (o : ℕ) → o ≤ d.size → left (at o) ≡ d.size - o
  left-at o h = omega (arith, region.lim, fits)

  abs_pos-at : (o : ℕ) → o ≤ d.size → abs_pos (at o) ≡ d.begin + o
  abs_pos-at o h = mod-eq_of_lt (omega (arith, region.lim, fits))

  read_slice_in :
      (n o : ℕ) (v : Flagged State)
      → 0 < n
      → o + n ≤ d.size
      → Returns
          (λ bs t.
            (0 < length bs)
            × (length bs ≤ n)
            × (bs ≡ slice (shown (o, v)) o (length bs))
            × (shown t ≡ shown (o, v))
            × (t.0 ≡ o + length bs))
          (at_offset adapter provided d (read_slice adapter n) (o, v))
  unfolding read_slice
  read_slice_in n o v hn ho =
      let whole_rest : min (d.size - o) n ≡ n = omega arith in
      keep_offset-Returns adapter (
        rw (left-at o (omega arith), abs_pos-at o (omega arith), whole_rest)
          (bind
            (beside-Returns adapter (at o) (
              Returns-map_err _ (
                beside_disk-Returns st v
                  (laws.seek_start (d.begin + o) v.disk (omega (arith, fits))))))
            λ _ du (q, ((_, c, p), _)).
              bind
                (beside-Returns adapter du.0 (
                  Returns-map_err _ (
                    beside_disk-Returns st du.1
                      (whole.read_some n du.1.disk hn (omega (arith, fits))))))
                λ bs ew (q', ((some_bytes, few, bytes, c'), _)).
                  let off : ew.0.offset ≡ o = ap (λ x. x.offset) (q' ∙ q) in
                  returns (
                    some_bytes,
                    few,
                    bytes
                        ∙ ap₂ (λ k x. slice k x (length bs)) c p
                        ∙ sym (slice-view d (content v.disk) o (length bs) (omega arith)),
                    ap (view d) (c' ∙ c),
                    omega (arith, region.lim, fits),
                  )))

  -- The bytes that were read so far, and nothing else happened but a move of the offset.
  abbrev ReadSoFar : ℕ → Slot → List ℕ → Slot → Type 0
  ReadSoFar n s bs t =
      (length bs ≤ n)
      × (bs ≡ slice (shown s) s.0 (length bs))
      × (shown t ≡ shown s)
      × (t.0 ≡ s.0 + length bs)

  read_step :
      (n : ℕ) (s : Slot)
      → s.0 + n ≤ d.size
      → (bs : List ℕ) (t : Slot) → ReadSoFar n s bs t
      → length bs < n
      → Returns
          (λ cs u. (0 < length cs) × (length cs ≤ n - length bs) × ReadSoFar n s (bs ++ cs) u)
          (at_offset adapter provided d (read_slice adapter (n - length bs)) t)
  read_step n s room bs t (_, got, same, off) lt =
      mono (read_slice_in (n - length bs) t.0 t.1 (omega arith) (omega arith))
        (λ cs u (some_bytes, few, bytes, same', off'). (
          some_bytes,
          few,
          (
            omega (arith, length-append bs cs),
            ap₂ ◌++◌ got (bytes ∙ ap₂ (λ f x. slice f x (length cs)) same off)
                ∙ slice-add (shown s) s.0 (length bs) (length cs)
                ∙ ap (slice (shown s) s.0) (sym (length-append bs cs)),
            same' ∙ same,
            omega (arith, length-append bs cs),
          ),
        ))
        (λ _ _ z. z)

  pub read_exact_in :
      (n : ℕ) (s : Slot)
      → s.0 + n ≤ d.size
      → Returns
          (λ bs t. (bs ≡ slice (shown s) s.0 n) × (shown t ≡ shown s) × (t.0 ≡ s.0 + n))
          (provided.read_exact (λ len. at_offset adapter provided d (read_slice adapter len)) n s)
  read_exact_in n s room =
      mono
        (kept.read_exact_by (λ len. at_offset adapter provided d (read_slice adapter len))
          (ReadSoFar n s) n s (omega arith, refl, refl, omega arith) (read_step n s room))
        (λ bs t (q, (_, got, same, off)). (got ∙ ap (slice (shown s) s.0) q, same, omega arith))
        (λ _ _ z. z)

  write_slice_in :
      (bs : List ℕ) (s : Slot)
      → 0 < length bs
      → s.0 + length bs ≤ d.size
      → All IsByte bs
      → Returns
          (λ n t. (n ≡ length bs) × (shown t ≡ patch (shown s) s.0 bs) × (t.0 ≡ s.0 + length bs))
          (at_offset adapter provided d (write_slice adapter bs) s)
  unfolding write_slice
  write_slice_in bs (o, v) hn ho bytes =
      let count : min (d.size - o) (length bs) ≡ length bs = omega arith in
      let nonzero : (length bs == 0) ≡ false = ground arith in
      keep_offset-Returns adapter (
        rw
          (
            left-at o (omega arith),
            abs_pos-at o (omega arith),
            count,
            nonzero,
            take_all (length bs) bs (omega arith),
          )
          (bind
            (beside-Returns adapter (at o)
              (write_mirrors_in laws whole fs kept d region o bs v ho bytes))
            λ _ du (q, same).
              let off : du.0.offset ≡ o = ap (λ x. x.offset) q in
              returns (refl, same, omega (arith, region.lim, fits))))

  abbrev WriteProgress : List ℕ → Slot → ℕ → Slot → Type 0
  WriteProgress bs s k t =
      ((k ≡ 0) × (t ≡ s))
      ⊎ ((k ≡ length bs) × (shown t ≡ patch (shown s) s.0 bs) × (t.0 ≡ s.0 + length bs))

  write_step :
      (bs : List ℕ) (s : Slot)
      → s.0 + length bs ≤ d.size
      → All IsByte bs
      → (k : ℕ) (t : Slot) → WriteProgress bs s k t
      → k < length bs
      → Returns
          (λ n u. (0 < n) × (n ≤ length bs - k) × WriteProgress bs s (k + n) u)
          (at_offset adapter provided d (write_slice adapter (drop k bs)) t)
  write_step bs s room bytes k t (inl (z, q)) lt =
      rw (z, q)
        (mono (write_slice_in bs s (omega arith) room bytes)
          (λ n u (r, h, l). (omega arith, omega arith, inr (omega arith, h, l))) (λ _ _ x. x))
  write_step bs s room bytes k t (inr (q, _, _)) lt = absurd (omega arith)

  write_done :
      (bs : List ℕ) (s t : Slot)
      → WriteProgress bs s (length bs) t
      → (shown t ≡ patch (shown s) s.0 bs) × (t.0 ≡ s.0 + length bs)
  write_done [] s t (inl (z, q)) = rw q (refl, omega arith)
  write_done (b ∷ bs) s t (inl (z, q)) = absurd (omega arith)
  write_done bs s t (inr (_, h, l)) = (h, l)

  pub write_all_in :
      (bs : List ℕ) (s : Slot)
      → s.0 + length bs ≤ d.size
      → All IsByte bs
      → Returns
          (λ _ t. (shown t ≡ patch (shown s) s.0 bs) × (t.0 ≡ s.0 + length bs))
          (provided.write_all (λ buf. at_offset adapter provided d (write_slice adapter buf)) bs s)
  write_all_in bs s h b =
      mono
        (kept.write_all_by (λ buf. at_offset adapter provided d (write_slice adapter buf))
          (WriteProgress bs s) bs s (inl (refl, refl)) (write_step bs s h b))
        (λ _ t k. write_done bs s t k) (λ _ _ z. z)

  pub seek_in :
      (n : ℕ) (s : Slot)
      → n ≤ d.size
      → Returns
          (λ r t. (r ≡ n) × (shown t ≡ shown s) × (t.0 ≡ n))
          (at_offset adapter provided d (seek_slice adapter (start n)) s)
  unfolding seek_slice
  seek_in n (o, v) h = rw (le→ltb_false d.size n h) (returns (refl, refl, refl))

  pub flush_in :
      (s : Slot)
      → Returns
          (λ _ t. (shown t ≡ shown s) × (t.0 ≡ s.0))
          (at_offset adapter provided d (flush_slice adapter) s)
  unfolding flush_slice
  flush_in (o, v) = keep_offset-Returns adapter (
      mono
        (beside-Returns adapter (at o)
          (Returns-map_err _ (beside_disk-Returns st v (laws.flush_keeps v.disk))))
        (λ _ du (q, ((c, _), _)). (ap (view d) c, ap (λ x. x.offset) q)) (λ _ _ z. z))

  pub shown_byte : (s : Slot) (i : ℕ) → IsByte (shown s i)
  shown_byte (o, v) i = ground (arith, laws.content_byte v.disk (d.begin + i))

  abbrev pub region_laws : IsStorage (slice_storage adapter provided d)
  region_laws = record {
    content = shown;
    position = λ s. s.0;
    size = d.size;
    content_byte = shown_byte;
    seek_start = seek_in;
    read_exact_in = read_exact_in;
    write_all_in = write_all_in;
    flush_keeps = flush_in;
  }

  -- Over a disk that keeps the laws of a storage and takes whole writes, for a slice that lies
  -- on it with all its mirrors and behind the byte of the status flags, and methods provided by
  -- the traits as documented: the slice over the adapter of the file system, through which every
  -- write may also write the flags, keeps the laws of a storage whose content are the bytes of
  -- the first mirror.
  pub slice_storage-IsStorage :
      (keeps : IsStorage (slice_storage adapter provided d)) × (keeps.size ≡ d.size)
      × (keeps.position ≡ (λ s. s.0))
      × (keeps.content ≡ (λ s. view d (content s.1.disk)))
  slice_storage-IsStorage = (region_laws, refl, refl, refl)
