-- ===== src/LongName/Builder.antt =====
-- What the builder keeps to, whatever entries it meets.
use embedded_fatfs.Base.{ℕ, ◌+◌, ◌-◌, ◌*◌, ◌≤◌, ◌<◌, ◌≡◌, ◌==◌, arith, refl, List, [], ◌∷◌, ◌++◌}
use embedded_fatfs.Base.{not, ◌||◌, Bool-cases, inl, inr, ltb, Option, some, All}
use embedded_fatfs.Base.{
  length, take, drop, replicate, length-append, length-take, length-drop, length-replicate,
}
use embedded_fatfs.Base.{le→ltb_false, bit_and, ◌||◌}
use embedded_fatfs.DirEntry.{DirLfnEntryData, name_part, lfn_part_len, lfn_entry_last_flag}
use embedded_fatfs.LongName.{
  LongNameBuilder, copy_part, process, process_all, set_len, clear, max_long_dir_entries,
}

-- The buffer has room for the entries that are still to come.
pub record IsWhole (b : LongNameBuilder) : Type 0 where
  pub few : b.index ≤ max_long_dir_entries
  pub room : b.index * lfn_part_len ≤ length b.buf

length-set_len : (n : ℕ) (xs : List ℕ) → length (set_len n xs) ≡ n
length-set_len n xs = omega (
  arith,
  length-append (take n xs) (replicate (n - length xs) 0),
  length-take n xs,
  length-replicate {A = ℕ} (n - length xs) 0,
)

length-copied :
    (pos : ℕ) (part buf : List ℕ)
    → length part ≡ 13
    → pos + 13 ≤ length buf
    → length (take pos buf ++ (part ++ drop (pos + 13) buf)) ≡ length buf
length-copied pos part buf h room = omega (
  arith,
  length-append (take pos buf) (part ++ drop (pos + 13) buf),
  length-append part (drop (pos + 13) buf),
  length-take pos buf,
  length-drop (pos + 13) buf,
)

abbrev Goes : Option LongNameBuilder → Type 0
Goes o = (b : LongNameBuilder) × (o ≡ some b) × IsWhole b

copy_part-IsWhole :
    (i : ℕ) (part : List ℕ) (b : LongNameBuilder)
    → length part ≡ 13
    → 0 < i
    → i ≡ b.index
    → IsWhole b
    → Goes (copy_part (13 * (i - 1)) part b)
copy_part-IsWhole i part b h pos q w =
    let inside : 13 * (i - 1) + 13 ≤ length b.buf = omega (arith, w.room) in
    rw (le→ltb_false _ _ inside) (
      record b { buf = take (13 * (i - 1)) b.buf ++ (part ++ drop (13 * (i - 1) + 13) b.buf) },
      refl,
      record {
        few = w.few;
        room = omega (arith, w.room, length-copied (13 * (i - 1)) part b.buf h inside);
      },
    )

pub process-IsWhole :
    (d : DirLfnEntryData) (b : LongNameBuilder)
    → length (name_part d) ≡ 13
    → IsWhole b
    → (b' : LongNameBuilder) × (process d b ≡ some b') × IsWhole b'
unfolding process
process-IsWhole d b h w =
    let i = bit_and d.order 0x1F in
    elim (Bool-cases (i == 0 || ltb max_long_dir_entries i)) [
      | inl bad ↦ rw bad (clear b, refl, record { few = omega arith; room = omega arith })
      | inr good ↦ rw good (elim (Bool-cases (not (bit_and d.order lfn_entry_last_flag == 0))) [
        | inl is_last ↦ rw is_last (
            copy_part-IsWhole i (name_part d)
              (record { index = i; chksum = d.checksum; buf = set_len (i * 13) b.buf }) h
              (ground arith) refl
              (record { few = ground arith; room = omega (arith, length-set_len (i * 13) b.buf) }))
        | inr later ↦
            rw later
              (elim (Bool-cases
                (b.index == 0 || (not (i == b.index - 1) || not (d.checksum == b.chksum)))) [
                  | inl bad ↦
                      rw bad (clear b, refl, record { few = omega arith; room = omega arith })
                  | inr fits ↦ rw fits (
                      copy_part-IsWhole i (name_part d) (record b { index = b.index - 1 }) h
                        (ground arith) (ground arith)
                        (record { few = omega (arith, w.few); room = omega (arith, w.room) }))
                ])
      ])
    ]

-- Over any sequence of long-name entries with 13 units each, valid or not, the builder never
-- panics, and it keeps its invariant: the number of entries that are to come is at most 20, and
-- the buffer has room for their units.
pub process_all-IsWhole :
    (ds : List DirLfnEntryData) (b : LongNameBuilder)
    → All (λ d. length (name_part d) ≡ 13) ds
    → IsWhole b
    → (b' : LongNameBuilder) × (process_all ds b ≡ some b') × IsWhole b'
unfolding process_all
process_all-IsWhole [] b h w = (b, refl, w)
process_all-IsWhole (d ∷ ds) b (h, hs) w =
    let (b1, q, w1) = process-IsWhole d b h w in
    rw (q, process_all) (process_all-IsWhole ds b1 hs w1)
