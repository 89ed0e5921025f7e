-- ===== src/LongName/RoundTrip.antt =====
-- A name goes out by the generator and comes back by the builder.
use embedded_fatfs.Base.{
  ℕ, zero, suc, ◌+◌, ◌-◌, ◌*◌, ◌%◌, ◌≤◌, ◌<◌, ◌≡◌, arith, refl, sym, ap, ap₂, ◌∙◌, List, [], ◌∷◌,
  ◌++◌,
}
use embedded_fatfs.Base.{
  Bool, true, false, not, ◌==◌, ==_iff, ◌||◌, ◌&&◌, some, bit_and, bit_or, ltb, subst,
}
use embedded_fatfs.Base.{length, take, drop, replicate, length-append, length-replicate, append-nil}
use embedded_fatfs.Base.{take-replicate, drop-replicate, take-length_append, le→ltb_false}
use embedded_fatfs.DirEntry.{name_part, DirLfnEntryData, new_lfn_entry}
use embedded_fatfs.LongName.{LongNameBuilder, new_builder, new_generator, next_entry, entries}
use embedded_fatfs.LongName.{process, process_all, set_len, entry_of, order_of, padded, num_entries}
use embedded_fatfs.LongName.{
  lfn_checksum, validate_chksum, into_buf, trimmed_len, is_padding, chunks,
}
use embedded_fatfs.LongName.Parts.{unroll, unroll-append, AllFull, length-unroll, Cut, chunks-Cut}
use embedded_fatfs.LongName.Parts.{
  padded_full, padding_of, padding_of-IsPadding, padded-append, length-padded,
}
use embedded_fatfs.LongName.Parts.{trimmed_len_name, name_part-copy}

-- Orders: 1 to 20, with and without the flag of the last entry.
all_below : ℕ → (ℕ → Bool) → Bool
all_below zero p = true
all_below (suc n) p = p n && all_below n p

below : (n : ℕ) (p : ℕ → Bool) (x : ℕ) → all_below n p ≡ true → x < n → p x ≡ true
unfolding all_below
below zero p x h lt = absurd (omega arith)
below (suc n) p x h lt = ground (arith, below n p x)

order_test : ℕ → Bool
order_test k =
    (bit_and k 0x1F == k)
    && ((bit_and k 0x40 == 0)
        && ((bit_and (bit_or k 0x40) 0x1F == k) && not (bit_and (bit_or k 0x40) 0x40 == 0)))

orders : all_below 32 order_test ≡ true
unfolding all_below order_test
orders = refl

order_bits :
    (k : ℕ)
    → k < 32
    → (bit_and k 0x1F ≡ k)
      × (bit_and k 0x40 ≡ 0)
      × (bit_and (bit_or k 0x40) 0x1F ≡ k)
      × (not (bit_and (bit_or k 0x40) 0x40 == 0) ≡ true)
unfolding order_test
order_bits k h = ground (arith, below 32 order_test k orders h)

-- The entries for parts, from a place in the sequence on.
abbrev entries_from : ℕ → ℕ → ℕ → List (List ℕ) → List DirLfnEntryData
entries_from checksum num i [] = []
entries_from checksum num i (p ∷ ps) =
    entry_of checksum num i p ∷ entries_from checksum num (i + 1) ps

entries-parts :
    (checksum num i rounds : ℕ) (ps : List (List ℕ))
    → length ps ≤ rounds
    → entries rounds
        (record { name_parts_iter = ps; checksum = checksum; index = i; num = num; ended = false })
      ≡ entries_from checksum num i ps
unfolding entries next_entry
entries-parts checksum num i zero [] h = refl
entries-parts checksum num i zero (p ∷ ps) h = absurd (omega arith)
entries-parts checksum num i (suc rounds) [] h = refl
entries-parts checksum num i (suc rounds) (p ∷ ps) h =
    ap (λ l. entry_of checksum num i p ∷ l)
      (entries-parts checksum num (i + 1) rounds ps (omega arith))

-- A part copied in front of what is there.
copied :
    (m : ℕ) (part t : List ℕ)
    → take (13 * m) (replicate (13 * m + 13) 0 ++ t)
        ++ (part ++ drop (13 * m + 13) (replicate (13 * m + 13) 0 ++ t))
      ≡ replicate (13 * m) 0 ++ (part ++ t)
copied m part t =
    ap₂ (λ x y. x ++ (part ++ y)) (take-replicate (13 * m) (13 * m + 13) 0 t (omega arith))
      (drop-replicate (13 * m + 13) 0 t)

-- What `process` does with an entry that continues a sequence, and with one that starts it.
process-continued :
    (d : DirLfnEntryData) (b : LongNameBuilder) (m : ℕ)
    → bit_and d.order 0x1F ≡ m + 1
    → bit_and d.order 0x40 ≡ 0
    → m + 1 ≤ 20
    → b.index ≡ m + 2
    → d.checksum ≡ b.chksum
    → 13 * m + 13 ≤ length b.buf
    → process d b
      ≡ some (record b {
        index = m + 1;
        buf = take (13 * m) b.buf ++ (name_part d ++ drop (13 * m + 13) b.buf);
      })
unfolding process
process-continued d b m q r hi at same room =
    let usable : ((m + 1) == 0 || ltb 20 (m + 1)) ≡ false = ground arith in
    let fits : (b.index == 0 || (not ((m + 1) == b.index - 1) || not (d.checksum == b.chksum)))
        ≡ false =
      ground arith in
    let pos : 13 * (m + 1 - 1) ≡ 13 * m = omega arith in
    let before : b.index - 1 ≡ m + 1 = omega arith in
    rw q (rw r (rw usable (rw fits (rw pos (rw (le→ltb_false _ _ room) (rw before refl))))))

take-nil : (n : ℕ) → take {A = ℕ} n [] ≡ []
take-nil zero = refl
take-nil (suc n) = refl

set_len-nil : (m : ℕ) → set_len ((m + 1) * 13) [] ≡ replicate (13 * m + 13) 0
set_len-nil m =
    let size : (m + 1) * 13 - 0 ≡ 13 * m + 13 = omega arith in
    ap₂ ◌++◌ (take-nil ((m + 1) * 13)) (ap (λ k. replicate k 0) size)

process-started :
    (d : DirLfnEntryData) (m : ℕ)
    → bit_and d.order 0x1F ≡ m + 1
    → not (bit_and d.order 0x40 == 0) ≡ true
    → m + 1 ≤ 20
    → process d new_builder
      ≡ some (record {
        index = m + 1;
        chksum = d.checksum;
        buf =
            take (13 * m) (replicate (13 * m + 13) 0)
            ++ (name_part d ++ drop (13 * m + 13) (replicate (13 * m + 13) 0));
      })
unfolding process
process-started d m q r hi =
    let usable : ((m + 1) == 0 || ltb 20 (m + 1)) ≡ false = ground arith in
    let pos : 13 * (m + 1 - 1) ≡ 13 * m = omega arith in
    let inside : ltb (length (replicate {A = ℕ} (13 * m + 13) 0)) (13 * m + 13) ≡ false =
      le→ltb_false _ _ (omega (arith, length-replicate {A = ℕ} (13 * m + 13) 0)) in
    rw q (rw r (rw usable (rw (set_len-nil m) (rw pos (rw inside refl)))))

-- The entries of the other parts fill the buffer from the end.
process-others :
    (checksum num i : ℕ) (ps : List (List ℕ)) (t : List ℕ)
    → AllFull ps
    → num ≡ i + length ps
    → 0 < i
    → num ≤ 20
    → process_all (entries_from checksum num i ps) (record {
      buf = replicate (13 * length ps) 0 ++ t;
      chksum = checksum;
      index = length ps + 1;
    })
      ≡ some (record { buf = unroll ps t; chksum = checksum; index = 1 })
unfolding process_all
process-others checksum num i [] t h q lo hi = refl
process-others checksum num i (p ∷ ps) t (h, hs) q lo hi =
    let m = length ps in
    let order : order_of num i ≡ m + 1 = ground arith in
    let (bits, unflagged, _, _) = order_bits (m + 1) (omega arith) in
    let size : 13 * suc m ≡ 13 * m + 13 = omega arith in
    let next =
      process-continued (entry_of checksum num i p)
        (record { buf = replicate (13 * m + 13) 0 ++ t; chksum = checksum; index = suc m + 1 }) m
        (ap (λ k. bit_and k 0x1F) order ∙ bits) (ap (λ k. bit_and k 0x40) order ∙ unflagged)
        (omega arith) (omega arith) refl
        (omega (
          arith,
          length-append (replicate (13 * m + 13) 0) t,
          length-replicate {A = ℕ} (13 * m + 13) 0,
        )) in
    let units : name_part (entry_of checksum num i p) ≡ p =
      name_part-copy (padded p) (new_lfn_entry (order_of num i) checksum) (length-padded p)
      ∙ padded_full p h in
    rw size (
      rw (next, process_all)
        (rw (units, copied m p t)
          (process-others checksum num (i + 1) ps (p ++ t) hs (omega arith) (omega arith) hi)))

-- The buffer behind the first entry.
started-buf :
    (m : ℕ) (part : List ℕ)
    → take (13 * m) (replicate (13 * m + 13) 0)
        ++ (part ++ drop (13 * m + 13) (replicate (13 * m + 13) 0))
      ≡ replicate (13 * m) 0 ++ part
started-buf m part =
    let bare : replicate (13 * m + 13) 0 ++ [] ≡ replicate (13 * m + 13) 0 = append-nil _ in
    ap (λ z. take (13 * m) z ++ (part ++ drop (13 * m + 13) z)) (sym bare)
    ∙ copied m part []
    ∙ ap (λ z. replicate (13 * m) 0 ++ z) (append-nil part)

finished : ℕ → List ℕ → LongNameBuilder
finished checksum units = record { buf = units; chksum = checksum; index = 1 }

into_buf-finished :
    (short_name units name : List ℕ)
    → trimmed_len units ≡ length name
    → take (length name) units ≡ name
    → length name ≤ length units
    → into_buf (validate_chksum short_name (finished (lfn_checksum short_name) units)) ≡ name
unfolding into_buf validate_chksum finished
into_buf-finished short_name units name q r h =
    let same : (lfn_checksum short_name == lfn_checksum short_name) ≡ true = (==_iff _ _).1 refl in
    let no_more : length name - length units ≡ 0 = omega arith in
    rw same (rw q (rw r (rw no_more (append-nil name))))

module _ (checksum : ℕ) (name : List ℕ) (parts : List (List ℕ)) (cut : Cut name parts)
    (few : length name ≤ 255) where
  abbrev m : ℕ
  m = length cut.others

  name-length : length name ≡ 13 * m + length cut.final
  name-length = ap length (sym cut.whole) ∙ length-unroll cut.others cut.final cut.full

  num-parts : num_entries name ≡ m + 1
  num-parts = omega (arith, name-length, cut.some_left, cut.short)

  process_parts :
      process_all (entries_from checksum (num_entries name) 0 (cut.final ∷ cut.others)) new_builder
      ≡ some (finished checksum (unroll cut.others (padded cut.final)))
  unfolding process_all finished
  process_parts =
      let few_parts : m + 1 ≤ 20 = omega (arith, name-length, cut.some_left, few) in
      let order : order_of (m + 1) 0 ≡ bit_or (m + 1) 0x40 =
        ap (λ k. bit_or k 0x40) (let z : (m + 1 - 0) % 256 ≡ m + 1 = omega arith in z) in
      let (_, _, bits, flagged) = order_bits (m + 1) (omega arith) in
      let first =
        process-started (entry_of checksum (m + 1) 0 cut.final) m
          (ap (λ k. bit_and k 0x1F) order ∙ bits)
          (ap (λ k. not (bit_and k 0x40 == 0)) order ∙ flagged) few_parts in
      let units : name_part (entry_of checksum (m + 1) 0 cut.final) ≡ padded cut.final =
        name_part-copy (padded cut.final) (new_lfn_entry (order_of (m + 1) 0) checksum)
          (length-padded cut.final) in
      subst
        (λ num.
          process_all (entries_from checksum num 0 (cut.final ∷ cut.others)) new_builder
          ≡ some (finished checksum (unroll cut.others (padded cut.final))))
        (sym num-parts)
        (rw (first, process_all)
          (rw (units, started-buf m (padded cut.final))
            (process-others checksum (m + 1) 1 cut.others (padded cut.final) cut.full (omega arith)
              (omega arith) few_parts)))

  units-name : unroll cut.others (padded cut.final) ≡ name ++ padding_of cut.final
  units-name =
      ap (unroll cut.others) (padded-append cut.final cut.short)
      ∙ unroll-append cut.others cut.final (padding_of cut.final)
      ∙ ap (λ l. l ++ padding_of cut.final) cut.whole

-- For a name of 1 to 255 units whose last unit is neither 0 nor 0xFFFF: the entries that the
-- generator makes of it in as many rounds as it has entries, given to a new builder in their
-- order, never panic, and with the checksum of the same short name the builder gives back the
-- name.
pub into_buf-entries :
    (short_name init : List ℕ) (u rounds : ℕ)
    → is_padding u ≡ false
    → length init < 255
    → num_entries (init ++ u ∷ []) ≤ rounds
    → (b : LongNameBuilder) × (process_all
          (entries rounds (new_generator (init ++ u ∷ []) (lfn_checksum short_name)))
          new_builder
        ≡ some b)
      × (into_buf (validate_chksum short_name b) ≡ init ++ u ∷ [])
unfolding new_generator
into_buf-entries short_name init u rounds h lim enough =
    let name = init ++ u ∷ [] in
    let size : length name ≡ length init + 1 = length-append init (u ∷ []) in
    let cut = chunks-Cut (length name) name (omega arith) (omega arith) in
    let sum = lfn_checksum short_name in
    let parts = chunks 13 (length name) name in
    let count = num-parts sum name parts cut (omega arith) in
    let sent =
      entries-parts sum (num_entries name) 0 rounds (cut.final ∷ cut.others) (omega arith) in
    let units = units-name sum name parts cut (omega arith) in
    (
      finished sum (unroll cut.others (padded cut.final)),
      rw cut.shape (rw sent (process_parts sum name parts cut (omega arith))),
      into_buf-finished short_name (unroll cut.others (padded cut.final)) name
          (ap trimmed_len units
            ∙ trimmed_len_name init (padding_of cut.final) u h (padding_of-IsPadding cut.final))
          (ap (take (length name)) units ∙ take-length_append name (padding_of cut.final))
          (omega (arith, ap length units, length-append name (padding_of cut.final))),
    )
