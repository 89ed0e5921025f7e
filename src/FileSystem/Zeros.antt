-- ===== src/FileSystem/Zeros.antt =====
-- `write_zeros` of embedded-fatfs/src/fs.rs on a disk that keeps the laws of a storage.
use embedded_fatfs.Base.{
  ℕ, zero, suc, ◌+◌, ◌-◌, ◌≤◌, ◌<◌, ◌≡◌, arith, refl, ap, ◌∙◌, inl, inr, ◌⊎◌, min,
}
use embedded_fatfs.Base.{replicate, length-replicate, All-replicate, ◌==◌}
use embedded_fatfs.Base.{Bool-cases, ltb, ltb→lt, ltb_false→le}
use embedded_fatfs.Base.Bytes.{IsByte, patch, patch_outside}
use embedded_fatfs.Io.{Storage}
use embedded_fatfs.Io.Ends.{Returns, returns, bind, mono}
use embedded_fatfs.Io.Laws.{IsStorage}
use embedded_fatfs.FileSystem.{write_zeros}

-- The bytes from `p` on and below `q` are zero, the others those of `c`.
pub record Zeroed (c : ℕ → ℕ) (p q : ℕ) (e : ℕ → ℕ) : Type 0 where
  pub inside : (i : ℕ) → p ≤ i → i < q → e i ≡ 0
  pub outside : (i : ℕ) → (i < p) ⊎ (q ≤ i) → e i ≡ c i

patch-zeros : (c : ℕ → ℕ) (p n i : ℕ) → p ≤ i → i < p + n → patch c p (replicate n 0) i ≡ 0
patch-zeros c p zero i lo hi = absurd (omega arith)
patch-zeros c p (suc n) i lo hi = elim (Bool-cases (i == p)) [
  | inl q ↦ rw q refl
  | inr q ↦ rw q (patch-zeros c (p + 1) n i (ground arith) (omega arith))
]

-- A run of zeros, and those behind it.
Zeroed-cons :
    (c e : ℕ → ℕ) (p k q : ℕ)
    → p + k ≤ q
    → Zeroed (patch c p (replicate k 0)) (p + k) q e
    → Zeroed c p q e
Zeroed-cons c e p k q h z =
    let count = length-replicate {A = ℕ} k 0 in
    record {
      inside = λ i lo hi. elim (Bool-cases (ltb i (p + k))) [
        | inl s ↦
            z.outside i (inl (ltb→lt i (p + k) s)) ∙ patch-zeros c p k i lo (ltb→lt i (p + k) s)
        | inr s ↦ z.inside i (ltb_false→le i (p + k) s) hi
      ];
      outside =
          λ i out. z.outside i (omega arith) ∙ patch_outside c p (replicate k 0) i (omega arith);
    }

-- As many rounds as there are bytes are enough: write_zeros zeroes the bytes from the position on,
-- and no other.
pub write_zeros-Zeroed :
    {st : Storage} (laws : IsStorage st) (fuel len : ℕ) (s : st.State)
    → len ≤ fuel
    → laws.position s + len ≤ laws.size
    → Returns
        (λ _ t. Zeroed (laws.content s) (laws.position s) (laws.position s + len) (laws.content t))
        (write_zeros st fuel len s)
unfolding write_zeros
write_zeros-Zeroed laws fuel zero s h room =
    returns (record { inside = λ i lo hi. absurd (omega arith); outside = λ i _. refl })
write_zeros-Zeroed laws zero (suc n) s h room = absurd (omega arith)
write_zeros-Zeroed {st} laws (suc fuel) (suc n) s h room =
    let k = min (suc n) 512 in
    let count = length-replicate {A = ℕ} k 0 in
    bind
      (laws.write_all_in (replicate k 0) s (omega (arith, count))
        (All-replicate IsByte k (omega arith)))
      λ _ t (e, p).
        let along : laws.position t ≡ laws.position s + k = omega (arith, p, count) in
        let last : laws.position t + (suc n - k) ≡ laws.position s + suc n = omega arith in
        mono (write_zeros-Zeroed laws fuel (suc n - k) t (omega arith) (omega arith))
          (λ _ u z.
            Zeroed-cons (laws.content s) (laws.content u) (laws.position s) k
              (laws.position s + suc n) (omega arith)
              (record {
                inside = λ i lo hi. z.inside i (omega arith) (omega arith);
                outside = λ i out. z.outside i (omega arith) ∙ ap (λ c. c i) e;
              }))
          (λ _ _ b. b)
