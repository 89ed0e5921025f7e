-- ===== src/Io.antt =====
-- The storage under the file system: the traits of embedded-fatfs/src/io.rs, the errors of
-- embedded-fatfs/src/error.rs, and the command type of all stateful code.
pub mod Ends
pub mod Laws
pub mod Memory
pub mod Provided
pub mod Stream
use embedded_fatfs.Base.{ℕ, List, ◌∷◌, []}
use embedded_fatfs.Base.Int.{ℤ}
use embedded_fatfs.Base.Bytes.{from_le_bytes, to_le_bytes}

-- `embedded_io_async::SeekFrom`
pub data SeekFrom : Type 0 where
  start : ℕ → SeekFrom
  end : ℤ → SeekFrom
  current : ℤ → SeekFrom

-- `embedded_io_async::ReadExactError`
pub data ReadExactError (E : Type 0) : Type 0 where
  unexpected_eof : ReadExactError E
  other : E → ReadExactError E

pub data Error (E : Type 0) : Type 0 where
  io : E → Error E
  unexpected_eof : Error E
  write_zero : Error E
  invalid_input : Error E
  not_found : Error E
  already_exists : Error E
  directory_is_not_empty : Error E
  corrupted_file_system : Error E
  not_enough_space : Error E
  invalid_file_name_length : Error E
  unsupported_file_name_character : Error E

-- What a call of stateful code gives: a value or an error, each with the state left behind; a
-- panic; or `out_of_fuel`, which is no outcome of the code but the end of a loop's rounds.
pub data Run (S X A : Type 0) : Type 0 where
  ok : A → S → Run S X A
  err : X → S → Run S X A
  panic : Run S X A
  out_of_fuel : Run S X A

abbrev pub Cmd : Type 0 → Type 0 → Type 0 → Type 0
Cmd S X A = S → Run S X A

module _ {S X A : Type 0} where
  abbrev pub pure : A → Cmd S X A
  pure = ok

  abbrev pub throw : X → Cmd S X A
  throw = err

  -- `map_err`, which `?` applies with `From`
  abbrev pub map_err : {Y : Type 0} → (X → Y) → Run S X A → Run S Y A
  map_err f (ok a s) = ok a s
  map_err f (err e s) = err (f e) s
  map_err f panic = panic
  map_err f out_of_fuel = out_of_fuel

-- `Result<A, X>` as a value.
pub data Result (X A : Type 0) : Type 0 where
  ok : A → Result X A
  err : X → Result X A

module _ {S X A : Type 0} where
  -- A call whose error is looked at and not passed on.
  abbrev pub caught : Run S X A → Run S X (Result X A)
  caught (Run.ok a t) = Run.ok (Result.ok a) t
  caught (Run.err e t) = Run.ok (Result.err e) t
  caught panic = panic
  caught out_of_fuel = out_of_fuel

  abbrev pub attempt : Cmd S X A → Cmd S X (Result X A)
  attempt m s = caught (m s)

  -- `match m { Ok(a) => a, Err(e) => k(e) }`
  abbrev pub or_else : Run S X A → (X → Cmd S X A) → Run S X A
  or_else (Run.ok a t) k = Run.ok a t
  or_else (Run.err e t) k = k e t
  or_else panic k = panic
  or_else out_of_fuel k = out_of_fuel

module _ {S X A B : Type 0} where
  abbrev pub and_then : Run S X A → (A → Cmd S X B) → Run S X B
  and_then (ok a s) k = k a s
  and_then (err e s) k = err e s
  and_then panic k = panic
  and_then out_of_fuel k = out_of_fuel

  infixl 5 ◌>>=◌ ◌>>◌
  abbrev pub ◌>>=◌ : Cmd S X A → (A → Cmd S X B) → Cmd S X B
  m >>= k = λ s. and_then (m s) k

  abbrev pub ◌>>◌ : Cmd S X A → Cmd S X B → Cmd S X B
  m >> n = m >>= λ _. n

-- `From<ReadExactError<T>> for Error<U>`, from what turns a `T` into an `Error<U>`. The two
-- instances in error.rs have this body.
abbrev pub from_read_exact : {T U : Type 0} → (T → Error U) → ReadExactError T → Error U
from_read_exact from (ReadExactError.unexpected_eof) = Error.unexpected_eof
from_read_exact from (other e) = from e

-- A type `S : Read + Write + Seek` of another crate, with `Error<E> : From<S::Error>`. `read n`
-- stands for a read into a buffer of `n` bytes, and returns the bytes that it filled in.
-- `read_exact` and `write_all` are methods that the traits of embedded_io_async provide.
pub record Storage : Type 1 where
  pub State : Type 0
  pub Failure : Type 0
  pub Cause : Type 0
  pub into_error : Failure → Error Cause
  pub seek : SeekFrom → Cmd State Failure ℕ
  pub read : ℕ → Cmd State Failure (List ℕ)
  pub write : List ℕ → Cmd State Failure ℕ
  pub flush : Cmd State Failure (Unit {0})
  pub read_exact : ℕ → Cmd State (ReadExactError Failure) (List ℕ)
  pub write_all : List ℕ → Cmd State Failure (Unit {0})

module _ (st : Storage) where
  open st use {State, Failure, Cause, into_error, seek, read_exact, write_all, flush}

  -- commands whose errors are those of the file system
  abbrev pub Fs : Type 0 → Type 0
  Fs A = Cmd State (Error Cause) A

  unfoldable pub read_u8 : Cmd State (ReadExactError Failure) ℕ
  read_u8 = do buf ← read_exact 1; pure (from_le_bytes buf)

  unfoldable pub read_u16_le : Cmd State (ReadExactError Failure) ℕ
  read_u16_le = do buf ← read_exact 2; pure (from_le_bytes buf)

  unfoldable pub read_u32_le : Cmd State (ReadExactError Failure) ℕ
  read_u32_le = do buf ← read_exact 4; pure (from_le_bytes buf)

  unfoldable pub write_u8 : ℕ → Cmd State Failure (Unit {0})
  write_u8 n = write_all (n ∷ [])

  unfoldable pub write_u16_le : ℕ → Cmd State Failure (Unit {0})
  write_u16_le n = write_all (to_le_bytes 2 n)

  unfoldable pub write_u32_le : ℕ → Cmd State Failure (Unit {0})
  write_u32_le n = write_all (to_le_bytes 4 n)

  -- `?` after a read and after another operation
  abbrev pub try_exact : {A : Type 0} → Cmd State (ReadExactError Failure) A → Fs A
  try_exact m s = map_err (from_read_exact into_error) (m s)

  abbrev pub try_io : {A : Type 0} → Cmd State Failure A → Fs A
  try_io m s = map_err into_error (m s)
