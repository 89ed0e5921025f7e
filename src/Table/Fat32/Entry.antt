-- ===== src/Table/Fat32/Entry.antt =====
-- Entries of the 32-bit layout: what an entry holds, and what a write of four bytes leaves of them.
use embedded_fatfs.Base.{ℕ, ◌+◌, ◌*◌, ◌%◌, ◌^◌, ◌<◌, ◌≡◌, ◌≢◌, ap, ◌∙◌}
use embedded_fatfs.Base.{◌==◌, arith}
use embedded_fatfs.Base.{◌/◌, bit_and, bit_or}
use embedded_fatfs.Base.Bytes.{word, patch, to_le_bytes, word-patch, word-patch_outside}
use embedded_fatfs.Base.Bits.{bit_and_shifted, bit_and_mask, bit_or_low}
use embedded_fatfs.Table.Value.{FatValue, free, data_value, bad, end_of_chain, is_free}
use embedded_fatfs.Table.Contract.{Table, Storable}
use embedded_fatfs.Table.Contract.{}
use embedded_fatfs.Table.Fat32.{decode, encode}

-- Cluster numbers below the special ones.
pub is_free-decode : (n val : ℕ) → n < 0x0FFF_FFF7 → is_free (decode n val) ≡ (val == 0)
unfolding decode
is_free-decode n val h = ground arith

pub decode-encode :
    (n : ℕ) (v : FatValue) → n < 0x0FFF_FFF7 → Storable 0x0FFF_FFF7 v → decode n (encode v) ≡ v
unfolding decode
decode-encode n free h ok = ground arith
decode-encode n bad h ok = ground arith
decode-encode n end_of_chain h ok = ground arith
decode-encode n (data_value k) h ok = ground arith

pub encode-lt : (v : FatValue) → Storable 0x0FFF_FFF7 v → encode v < 2 ^ 28
encode-lt free h = omega arith
encode-lt bad h = omega arith
encode-lt end_of_chain h = omega arith
encode-lt (data_value n) h = omega arith

-- The word that is written has the new value in its low 28 bits and the old word's top four bits.
pub with_reserved :
    (x raw : ℕ)
    → x < 2 ^ 28
    → raw < 2 ^ 32
    → bit_or x (bit_and raw 0xF000_0000) ≡ raw / 2 ^ 28 * 2 ^ 28 + x
with_reserved x raw h hr = ground (
  arith,
  split,
  bit_and_shifted 28 (raw / 2 ^ 28) (raw % 2 ^ 28) 15,
  bit_and_mask 4 (raw / 2 ^ 28),
  bit_or_low 28 (raw / 2 ^ 28) x,
)
  where
    split : raw / 2 ^ 28 * 2 ^ 28 + raw % 2 ^ 28 ≡ raw
    split = omega arith

-- What the bytes at a table's start say of entry `n`: its low 28 bits count.
abbrev pub table : (ℕ → ℕ) → Table
table c n = decode n (word 4 c (n * 4) % 2 ^ 28)

-- An entry that is written, and the others.
pub table-patch :
    (c : ℕ → ℕ) (n x top : ℕ)
    → x < 2 ^ 28
    → top < 16
    → table (patch c (n * 4) (to_le_bytes 4 (top * 2 ^ 28 + x))) n ≡ decode n x
table-patch c n x top h ht =
    ap (λ w. decode n (w % 2 ^ 28)) (word-patch 4 c (n * 4) (top * 2 ^ 28 + x) (omega arith))
    ∙ ap (decode n) (omega arith)

pub table-patch_ne :
    (c : ℕ → ℕ) (n m x : ℕ) → m ≢ n → table (patch c (n * 4) (to_le_bytes 4 x)) m ≡ table c m
table-patch_ne c n m x ne =
    ap (λ w. decode m (w % 2 ^ 28))
      (word-patch_outside 4 c (n * 4) (to_le_bytes 4 x) (m * 4) (grind arith))
