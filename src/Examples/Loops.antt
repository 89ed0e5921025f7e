-- ===== src/Examples/Loops.antt =====
-- An instance of the provided methods: the loops that call `read` and `write` until all is
-- transferred, with a round for each byte as their bound.
use embedded_fatfs.Base.{
  ℕ, zero, suc, ◌+◌, ◌-◌, ◌≤◌, ◌<◌, ◌≡◌, refl, sym, ap, ◌∙◌, arith, List, [], ◌∷◌, ◌++◌, length,
  drop, length-append, length-drop, drop-drop, ◌==◌, false, if◌then◌else◌, subst,
}
use embedded_fatfs.Io.{Cmd, ReadExactError, other, ok, err, panic, out_of_fuel, and_then, map_err}
use embedded_fatfs.Io.Provided.{Provided, IsProvided}
use embedded_fatfs.Io.Ends.{Returns, returns, bind, Returns-map_err}

module _ {S X : Type 0} where
  unfoldable pub read_fully :
      ℕ → (ℕ → Cmd S X (List ℕ)) → ℕ → List ℕ → Cmd S (ReadExactError X) (List ℕ)
  read_fully fuel read zero acc = ok acc
  read_fully zero read (suc k) acc = λ _. out_of_fuel
  read_fully (suc fuel) read (suc k) acc = λ s. and_then (map_err other (read (suc k) s)) λ bs.
      if length bs == 0
      then err ReadExactError.unexpected_eof
      else read_fully fuel read (suc k - length bs) (acc ++ bs)

  unfoldable pub write_fully : ℕ → (List ℕ → Cmd S X ℕ) → List ℕ → Cmd S X (Unit {0})
  write_fully fuel write [] = ok tt
  write_fully zero write (b ∷ bs) = λ _. out_of_fuel
  write_fully (suc fuel) write (b ∷ bs) = λ s.
      and_then (write (b ∷ bs) s)
        λ n. if n == 0 then (λ _. panic) else write_fully fuel write (drop n (b ∷ bs))

  read_fully_by :
      (read : ℕ → Cmd S X (List ℕ)) (kept : List ℕ → S → Type 0) (n : ℕ)
      → ((bs : List ℕ) (t : S)
          → kept bs t
          → length bs < n
          → Returns
              (λ cs u. (0 < length cs) × (length cs ≤ n - length bs) × kept (bs ++ cs) u)
              (read (n - length bs) t))
      → (fuel k : ℕ) (acc : List ℕ) (s : S) → k ≤ fuel
      → k + length acc ≡ n
      → kept acc s
      → Returns (λ bs t. (length bs ≡ n) × kept bs t) (read_fully fuel read k acc s)
  unfolding read_fully
  read_fully_by read kept n step fuel zero acc s enough q h = returns (omega arith, h)
  read_fully_by read kept n step zero (suc k) acc s enough q h = absurd (omega arith)
  read_fully_by read kept n step (suc fuel) (suc k) acc s enough q h =
      let left : n - length acc ≡ suc k = omega arith in
      bind
        (Returns-map_err other (
          subst
            (λ r.
              Returns (λ cs u. (0 < length cs) × (length cs ≤ r) × kept (acc ++ cs) u) (read r s))
            left (step acc s h (omega arith))))
        λ cs t (pos, le, h').
          let nonzero : (length cs == 0) ≡ false = ground arith in
          rw nonzero (
            read_fully_by read kept n step fuel (suc k - length cs) (acc ++ cs) t (omega arith)
              (omega (arith, length-append acc cs)) h')

  write_fully_by :
      (write : List ℕ → Cmd S X ℕ) (kept : ℕ → S → Type 0) (all : List ℕ)
      → ((k : ℕ) (t : S)
          → kept k t
          → k < length all
          → Returns (λ n u. (0 < n) × (n ≤ length all - k) × kept (k + n) u) (write (drop k all) t))
      → (fuel k : ℕ) (bs : List ℕ) (s : S) → length bs ≤ fuel
      → k ≤ length all
      → bs ≡ drop k all
      → kept k s
      → Returns (λ _ t. kept (length all) t) (write_fully fuel write bs s)
  unfolding write_fully
  write_fully_by write kept all step fuel k [] s enough hk q h =
      let last : k ≡ length all = omega (arith, length-drop k all, ap length q) in
      returns (subst (λ x. kept x s) last h)
  write_fully_by write kept all step zero k (b ∷ bs) s enough hk q h = absurd (omega arith)
  write_fully_by write kept all step (suc fuel) k (b ∷ bs) s enough hk q h =
      let more : k < length all = omega (arith, length-drop k all, ap length q) in
      bind
        (subst (λ r. Returns (λ n u. (0 < n) × (n ≤ length all - k) × kept (k + n) u) (write r s))
          (sym q) (step k s h more))
        λ n t (pos, le, h').
          let nonzero : (n == 0) ≡ false = ground arith in
          rw nonzero (
            write_fully_by write kept all step fuel (k + n) (drop n (b ∷ bs)) t
              (omega (arith, length-drop n (b ∷ bs))) (omega arith)
              (ap (drop n) q ∙ drop-drop n k all) h')

abbrev pub loops : Provided
loops = record {
  read_exact = λ read n. read_fully n read n [];
  write_all = λ write bs. write_fully (length bs) write bs;
}

pub loops-IsProvided : IsProvided loops
loops-IsProvided = record {
  read_exact_by =
      λ read kept n s h step. read_fully_by read kept n step n n [] s (omega arith) (omega arith) h;
  write_all_by = λ write kept bs s h step.
      write_fully_by write kept bs step (length bs) 0 bs s (omega arith) (omega arith) refl h;
}
