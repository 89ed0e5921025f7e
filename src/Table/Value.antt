-- ===== src/Table/Value.antt =====
-- The value of an entry of the file allocation table, and the trait that the three layouts
-- implement (embedded-fatfs/src/table.rs).
use embedded_fatfs.Base.{ℕ, Bool}
use embedded_fatfs.Io.{Storage, Fs}

abbrev pub reserved_fat_entries : ℕ
reserved_fat_entries = 2

-- `Data(n)` is `data_value n`.
pub data FatValue : Type 0 where
  free : FatValue
  data_value : ℕ → FatValue
  bad : FatValue
  end_of_chain : FatValue

-- `value == FatValue::Free`
abbrev pub is_free : FatValue → Bool
is_free free = Bool.true
is_free _ = Bool.false

pub record FatTrait (st : Storage) : Type 0 where
  pub get_raw : ℕ → Fs st ℕ
  pub get : ℕ → Fs st FatValue
  pub set_raw : ℕ → ℕ → Fs st (Unit {0})
  pub set : ℕ → FatValue → Fs st (Unit {0})
  pub find_free : ℕ → ℕ → Fs st ℕ
  pub count_free : ℕ → Fs st ℕ
