-- ===== src/StreamSlice/Confined.antt =====
-- A slice stays in its window.
use embedded_fatfs.Base.{
  ℕ, ◌+◌, ◌-◌, ◌%◌, ◌^◌, ◌≤◌, ◌<◌, ◌≡◌, arith, refl, sym, ap, ◌∙◌, subst, ==_iff, ◌⊎◌, inl, inr,
  Bool-cases,
}
use embedded_fatfs.Base.{◌||◌, ◌==◌, ltb, leb, List, length, take, length-take, min, All, All-take}
use embedded_fatfs.Base.Bytes.{IsByte, patch, patch_outside}
use embedded_fatfs.Io.{Storage, Run, SeekFrom}
use embedded_fatfs.Io.Ends.{Ends, Returns, returns, fails, bind, bind-Ends}
use embedded_fatfs.Io.Laws.{IsStorage}
use embedded_fatfs.StreamSlice.{
  StreamSlice, StreamSliceError, beside_slice, read_window, write_window, seek_window,
}
use embedded_fatfs.StreamSlice.{seek_target, max_size, advanced, written}

-- What is documented of reads and writes that may be partial, inside the storage.
pub record IsPartial {st : Storage} (laws : IsStorage st) : Type 0 where
  pub read_some :
      (n : ℕ) (s : st.State)
      → laws.position s + n ≤ laws.size
      → Returns
          (λ bs t.
            (length bs ≤ n)
            × (laws.content t ≡ laws.content s)
            × (laws.position t ≡ laws.position s + length bs))
          (st.read n s)
  pub write_some :
      (bs : List ℕ) (s : st.State)
      → laws.position s + length bs ≤ laws.size
      → All IsByte bs
      → Returns
          (λ n t.
            (n ≤ length bs)
            × (laws.content t ≡ patch (laws.content s) (laws.position s) (take n bs))
            × (laws.position t ≡ laws.position s + n))
          (st.write bs s)

module _ {st : Storage} (laws : IsStorage st) where
  open st use {State, Failure}
  open laws use {content, position, size}

  -- The window lies in the storage, the offset in the window, and the stream stands at it.
  pub record Inside (d : StreamSlice) (s : State) : Type 0 where
    pub lim : size < 2 ^ 64
    pub room : d.start_offset + d.size ≤ size
    pub inside : d.current_offset ≤ d.size
    pub at : position s ≡ d.start_offset + d.current_offset

  -- The slice is inside again, its window is the same, and no byte outside of it is changed.
  pub record Stays (d : StreamSlice) (s : State) (d' : StreamSlice) (s' : State) : Type 0 where
    pub again : Inside d' s'
    pub from : d'.start_offset ≡ d.start_offset
    pub upto : d'.size ≡ d.size
    pub outside :
        (i : ℕ) → (i < d.start_offset) ⊎ (d.start_offset + d.size ≤ i) → content s' i ≡ content s i

  beside_slice-Returns :
      {A : Type 0} {P : A → State → Type 0} (d : StreamSlice) {r : Run State Failure A}
      → Returns P r
      → Returns (λ a (e, t). (e ≡ d) × P a t) (beside_slice st d r)
  beside_slice-Returns d (returns h) = returns (refl, h)
  beside_slice-Returns d (fails q) = absurd q

  module _ (part : IsPartial laws) (d : StreamSlice) (s : State) (h : Inside d s) where
    -- The offset moved by bytes that the window has left.
    Inside-advanced :
        (n : ℕ) {t : State}
        → n ≤ d.size - d.current_offset
        → position t ≡ position s + n
        → Inside (advanced n d) t
    Inside-advanced n lim p =
        let plain : (d.current_offset + n) % 2 ^ 64 ≡ d.current_offset + n =
          omega (arith, h.lim, h.room, h.inside) in
        record {
          lim = h.lim;
          room = h.room;
          inside = omega (arith, plain, h.inside);
          at = omega (arith, plain, h.at, p);
        }

    max_size-plain : (len : ℕ) → max_size d len ≡ min (d.size - d.current_offset) len
    max_size-plain len = omega (arith, h.lim, h.room, h.inside)

    Stays-advanced :
        (n : ℕ) (e : StreamSlice) {t : State}
        → e ≡ d
        → n ≤ d.size - d.current_offset
        → position t ≡ position s + n
        → ((i : ℕ)
            → (i < d.start_offset) ⊎ (d.start_offset + d.size ≤ i)
            → content t i ≡ content s i)
        → Stays d s (advanced n e) t
    Stays-advanced n e {t} same lim p out =
        subst (λ x. Stays d s (advanced n x) t) (sym same)
          (record { again = Inside-advanced n lim p; from = refl; upto = refl; outside = out })

    -- Bytes that are written at the offset, as many as the window has left.
    patch_inside_window :
        (bs : List ℕ) (i : ℕ)
        → length bs ≤ d.size - d.current_offset
        → (i < d.start_offset) ⊎ (d.start_offset + d.size ≤ i)
        → patch (content s) (position s) bs i ≡ content s i
    patch_inside_window bs i lim out = patch_outside (content s) (position s) bs i (elim out [
      | inl before ↦ inl (omega (arith, h.at))
      | inr behind ↦ inr (omega (arith, h.at, h.inside))
    ])

    read_window_lem :
        (len : ℕ)
        → Returns (λ bs (d', s'). (length bs ≤ len) × Stays d s d' s') (read_window st len (d, s))
    unfolding read_window
    read_window_lem len =
        let most = max_size-plain len in
        bind
          (beside_slice-Returns d
            (part.read_some (max_size d len) s (omega (arith, most, h.at, h.room, h.inside))))
          λ bs (d', t) (same, (few, kept, p)). returns (
            omega (arith, few, most),
            Stays-advanced (length bs) d' same (omega (arith, few, most)) p
                (λ i _. ap (λ c. c i) kept),
          )

    -- What follows the write of `n` bytes.
    written-Stays :
        (n : ℕ) (buf : List ℕ) (e : StreamSlice) {t : State}
        → n ≤ length buf
        → Stays d s (advanced n e) t
        → (n ≡ 0 → Stays d s e t)
        → Ends
            (λ n (d', s'). (0 < n) × (n ≤ length buf) × Stays d s d' s')
            (λ x (d', s'). (x ≡ StreamSliceError.write_zero) × Stays d s d' s')
            (written st n (e, t))
    written-Stays n buf e lim moved none_moved = elim (Bool-cases (n == 0)) [
      | inl q ↦ rw q (fails (refl, none_moved ((==_iff n 0).0 q)))
      | inr q ↦ rw q (returns (ground arith, lim, moved))
    ]

    -- For a slice whose window lies in a storage of fewer than 2 ^ 64 bytes, with its offset in
    -- the window and the storage standing there: a write of a buffer of bytes returns a number
    -- above 0 and up to the length of the buffer, or fails with write_zero; in both cases the
    -- slice and the storage are again as they were assumed, the window is the same, and no byte
    -- outside of it is changed.
    pub write_window_lem :
        (buf : List ℕ)
        → All IsByte buf
        → Ends
            (λ n (d', s'). (0 < n) × (n ≤ length buf) × Stays d s d' s')
            (λ x (d', s'). (x ≡ StreamSliceError.write_zero) × Stays d s d' s')
            (write_window st buf (d, s))
    unfolding write_window
    write_window_lem buf bytes =
        let m = max_size d (length buf) in
        let most = max_size-plain (length buf) in
        let count = length-take m buf in
        bind
          (beside_slice-Returns d (
            part.write_some (take m buf) s (omega (arith, count, most, h.at, h.room, h.inside))
              (All-take IsByte m buf bytes)))
          λ n (d', t) (same, (few, put, p)).
            let fits : n ≤ d.size - d.current_offset = omega (arith, few, count, most) in
            let moved = Stays-advanced n d' same fits p (λ i out.
              ap (λ c. c i) put
              ∙ patch_inside_window (take n (take m buf)) i
                  (omega (arith, length-take n (take m buf), fits)) out) in
            written-Stays n buf d' (omega (arith, few, count)) moved (λ q.
              subst (λ x. Stays d s x t) (sym same)
                (record {
                  again = record {
                    lim = h.lim;
                    room = h.room;
                    inside = h.inside;
                    at = omega (arith, p, q, h.at);
                  };
                  from = refl;
                  upto = refl;
                  outside = moved.outside;
                }))

    -- For a slice as in write_window_lem: a seek to any target returns the offset where the
    -- slice then stands, in the window and with the storage standing there, and changes no byte;
    -- or it fails and neither the slice nor the storage is changed.
    pub seek_window_lem :
        (target : SeekFrom)
        → Ends
            (λ n (d', s'). (d'.current_offset ≡ n) × (content s' ≡ content s) × Stays d s d' s')
            (λ x (d', s'). (d' ≡ d) × (s' ≡ s))
            (seek_window st target (d, s))
    unfolding seek_window
    seek_window_lem target =
        let n = seek_target d target in
        elim (Bool-cases (leb (2 ^ 63) n || ltb d.size n)) [
          | inl q ↦ rw q (fails (refl, refl))
          | inr q ↦
              let fits : n ≤ d.size = ground (arith, q) in
              let plain : (d.start_offset + n) % 2 ^ 64 ≡ d.start_offset + n =
                omega (arith, h.lim, h.room, fits) in
              rw q (
                bind-Ends
                  (beside_slice-Returns d (
                    laws.seek_start ((d.start_offset + n) % 2 ^ 64) s
                      (omega (arith, plain, h.room, fits))))
                  (λ _ (d', t) (same, (_, kept, p)). returns (
                    refl,
                    kept,
                    subst (λ x. Stays d s (record x { current_offset = n }) t) (sym same)
                        (record {
                          again = record {
                            lim = h.lim;
                            room = h.room;
                            inside = fits;
                            at = p ∙ plain;
                          };
                          from = refl;
                          upto = refl;
                          outside = λ i _. ap (λ c. c i) kept;
                        }),
                  ))
                  (λ _ _ z. absurd z))
        ]
