-- ===== src/Io/Provided.antt =====
-- The methods that the traits of embedded_io_async provide for a type with `read` and `write`: they
-- are code of another crate, and so parameters with their documented behaviour.
use embedded_fatfs.Base.{ℕ, ◌+◌, ◌-◌, ◌≤◌, ◌<◌, ◌≡◌, List, [], ◌++◌, length, drop}
use embedded_fatfs.Io.{Cmd, ReadExactError}
use embedded_fatfs.Io.Ends.{Returns}

-- `Read::read_exact` and `Write::write_all`, from the `read` and the `write` that they call.
pub record Provided : Type 1 where
  pub read_exact : {S X : Type 0} → (ℕ → Cmd S X (List ℕ)) → ℕ → Cmd S (ReadExactError X) (List ℕ)
  pub write_all : {S X : Type 0} → (List ℕ → Cmd S X ℕ) → List ℕ → Cmd S X (Unit {0})

-- "Read the exact number of bytes required to fill buf" and "Write an entire buffer into this
-- writer": what holds of the bytes read or written so far, and is kept by each call that
-- transfers at least one byte, holds at the end of the transfer.
pub record IsProvided (provided : Provided) : Type 1 where
  pub read_exact_by :
      {S X : Type 0} (read : ℕ → Cmd S X (List ℕ)) (kept : List ℕ → S → Type 0) (n : ℕ) (s : S)
      → kept [] s
      → ((bs : List ℕ) (t : S)
          → kept bs t
          → length bs < n
          → Returns
              (λ cs u. (0 < length cs) × (length cs ≤ n - length bs) × kept (bs ++ cs) u)
              (read (n - length bs) t))
      → Returns (λ bs t. (length bs ≡ n) × kept bs t) (provided.read_exact read n s)
  pub write_all_by :
      {S X : Type 0} (write : List ℕ → Cmd S X ℕ) (kept : ℕ → S → Type 0) (bs : List ℕ) (s : S)
      → kept 0 s
      → ((k : ℕ) (t : S)
          → kept k t
          → k < length bs
          → Returns (λ n u. (0 < n) × (n ≤ length bs - k) × kept (k + n) u) (write (drop k bs) t))
      → Returns (λ _ t. kept (length bs) t) (provided.write_all write bs s)
