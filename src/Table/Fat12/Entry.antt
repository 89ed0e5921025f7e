-- ===== src/Table/Fat12/Entry.antt =====
-- The 12-bit entries in the bytes of the table: entry `n` lies in the two bytes at `n + n / 2`, and
-- shares one of them with its neighbour.
use embedded_fatfs.Base.{ℕ, ◌+◌, ◌*◌, ◌/◌, ◌%◌, ◌^◌, ◌<◌, ◌≡◌, ◌≢◌, refl, ap, ◌∙◌, arith}
use embedded_fatfs.Base.{◌==◌, if◌then◌else◌, inl, inr, Bool-cases}
use embedded_fatfs.Base.Bytes.{IsByte, word, patch, to_le_bytes, word-patch, word-patch_outside}
use embedded_fatfs.Base.Bytes.{word-lt}
use embedded_fatfs.Base.Bits.{bit_and_mask, bit_and_shifted, bit_or_high, bit_or_low}
use embedded_fatfs.Table.Value.{FatValue, free, data_value, bad, end_of_chain, is_free}
use embedded_fatfs.Table.Contract.{Table, Storable}
use embedded_fatfs.Table.Fat12.{unpack, repack, decode, encode, is_even}

abbrev pub offset : ℕ → ℕ
offset n = n + n / 2

-- The bits of entry `n` in a word that holds it.
abbrev pub field : ℕ → ℕ → ℕ
field n w = if n % 2 == 0 then w % 2 ^ 12 else w / 2 ^ 4

abbrev pub entry : (ℕ → ℕ) → ℕ → ℕ
entry c n = field n (word 2 c (offset n))

-- What the bytes at a table's start say of entry `n`.
abbrev pub table : (ℕ → ℕ) → Table
table c n = decode (entry c n)

pub is_even-mod : (n : ℕ) → is_even n ≡ (n % 2 == 0)
is_even-mod n = ap (λ x. x == 0) (bit_and_mask 1 n)

pub unpack-field : (n w : ℕ) → unpack n w ≡ field n w
unfolding unpack
unpack-field n w = ground (arith, bit_and_mask 1 n, bit_and_mask 12 w)

pub is_free-decode : (val : ℕ) → is_free (decode val) ≡ (val == 0)
unfolding decode
is_free-decode val = ground arith

pub decode-encode : (v : FatValue) → Storable 0xFF7 v → decode (encode v) ≡ v
unfolding decode
decode-encode free h = refl
decode-encode bad h = refl
decode-encode end_of_chain h = refl
decode-encode (data_value n) h = ground arith

pub encode-lt : (v : FatValue) → Storable 0xFF7 v → encode v < 2 ^ 12
encode-lt free h = omega arith
encode-lt bad h = omega arith
encode-lt end_of_chain h = omega arith
encode-lt (data_value n) h = omega arith

-- The word that is written: the new bits beside those of the neighbour.
abbrev replaced : ℕ → ℕ → ℕ → ℕ
replaced n old x = if n % 2 == 0 then old / 2 ^ 12 * 2 ^ 12 + x else x * 2 ^ 4 + old % 2 ^ 4

repack-replaced : (n old x : ℕ) → old < 2 ^ 16 → x < 2 ^ 12 → repack n old x ≡ replaced n old x
unfolding repack
repack-replaced n old x h hx = ground (
  arith,
  split,
  bit_and_mask 1 n,
  bit_and_shifted 12 (old / 2 ^ 12) (old % 2 ^ 12) 15,
  bit_and_mask 4 (old / 2 ^ 12),
  bit_or_high 12 (old / 2 ^ 12) x,
  bit_and_mask 4 old,
  bit_or_low 4 x (old % 2 ^ 4),
)
  where
    split : old / 2 ^ 12 * 2 ^ 12 + old % 2 ^ 12 ≡ old
    split = omega arith

-- The content after entry `n` is given the bits `x`.
abbrev pub rewritten : (ℕ → ℕ) → ℕ → ℕ → ℕ → ℕ
rewritten c n x = patch c (offset n) (to_le_bytes 2 (repack n (word 2 c (offset n)) x))

module _ (c : ℕ → ℕ) (bytes : (i : ℕ) → IsByte (c i)) (n x : ℕ) (hx : x < 2 ^ 12) where
  small : word 2 c (offset n) < 2 ^ 16
  small = word-lt 2 c (offset n) bytes

  pub entry-rewritten : entry (rewritten c n x) n ≡ x
  entry-rewritten =
      ap (field n) (
        word-patch 2 c (offset n) (repack n (word 2 c (offset n)) x)
          (rw (repack-replaced n _ x small hx) (ground (arith, small))))
      ∙ ap (field n) (repack-replaced n _ x small hx)
      ∙ ground arith

  pub entry-rewritten_ne : (m : ℕ) → m ≢ n → entry (rewritten c n x) m ≡ entry c m
  entry-rewritten_ne m ne = elim (Bool-cases (m / 2 == n / 2)) [
    | inl pair ↦
        rw (repack-replaced n _ x small hx) (ground (arith, bytes (offset n), bytes (offset n + 1)))
    | inr apart ↦ ap (field m) (
        word-patch_outside 2 c (offset n) (to_le_bytes 2 (repack n (word 2 c (offset n)) x))
          (offset m) (ground arith))
  ]
