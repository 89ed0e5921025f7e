-- ===== src/BufStream/Windows.antt =====
-- Windows of a content: slices taken apart and put together, and a slice that is written back with
-- other bytes in its middle.
use embedded_fatfs.Base.{
  ℕ, zero, suc, ◌+◌, ◌-◌, ◌≤◌, ◌<◌, ◌≡◌, List, [], ◌∷◌, ◌++◌, length, take, drop,
}
use embedded_fatfs.Base.{
  arith, refl, sym, ap, ap₂, ◌∙◌, ◌⊎◌, inl, inr, Bool-cases, ltb, ltb→lt, ltb_false→le,
}
use embedded_fatfs.Base.Bytes.{slice, patch, length-slice, patch_outside}
use embedded_fatfs.Io.Stream.{patch-append}

pub slice-add : (c : ℕ → ℕ) (p m n : ℕ) → slice c p m ++ slice c (p + m) n ≡ slice c p (m + n)
slice-add c p zero n =
    let at : p + 0 ≡ p = omega arith in
    let count : n ≡ 0 + n = omega arith in ap₂ (slice c) at count
slice-add c p (suc m) n =
    let moved : p + suc m ≡ p + 1 + m = omega arith in
    let count : suc (m + n) ≡ suc m + n = omega arith in
    ap (λ l. c p ∷ l) (ap (λ q. slice c (p + 1) m ++ slice c q n) moved ∙ slice-add c (p + 1) m n)
    ∙ ap (slice c p) count

pub take-slice : (k : ℕ) (c : ℕ → ℕ) (p n : ℕ) → k ≤ n → take k (slice c p n) ≡ slice c p k
take-slice zero c p n h = refl
take-slice (suc k) c p zero h = absurd (omega arith)
take-slice (suc k) c p (suc n) h = ap (λ l. c p ∷ l) (take-slice k c (p + 1) n (omega arith))

pub drop-slice : (k : ℕ) (c : ℕ → ℕ) (p n : ℕ) → drop k (slice c p n) ≡ slice c (p + k) (n - k)
drop-slice zero c p n =
    let at : p ≡ p + 0 = omega arith in
    let count : n ≡ n - 0 = omega arith in ap₂ (slice c) at count
drop-slice (suc k) c p zero =
    let count : 0 ≡ 0 - suc k = omega arith in ap (slice c (p + suc k)) count
drop-slice (suc k) c p (suc n) =
    let at : p + 1 + k ≡ p + suc k = omega arith in
    let count : n - k ≡ suc n - suc k = omega arith in
    drop-slice k c (p + 1) n ∙ ap₂ (slice c) at count

-- A slice that is written over another content.
patch-slice : (c v : ℕ → ℕ) (p n i : ℕ) → p ≤ i → i < p + n → patch c p (slice v p n) i ≡ v i
patch-slice c v p zero i lo hi = absurd (omega arith)
patch-slice c v p (suc n) i lo hi = ground (arith, patch-slice c v (p + 1) n i)

pub patch_inside :
    (c d : ℕ → ℕ) (p : ℕ) (bs : List ℕ) (i : ℕ)
    → p ≤ i
    → i < p + length bs
    → patch c p bs i ≡ patch d p bs i
patch_inside c d p [] i lo hi = absurd (omega arith)
patch_inside c d p (b ∷ bs) i lo hi = ground (arith, patch_inside c d (p + 1) bs i)

-- What is written over a content and outside of its range does not count.
pub patch_same :
    (c d : ℕ → ℕ) (p : ℕ) (bs : List ℕ) (i : ℕ) → c i ≡ d i → patch c p bs i ≡ patch d p bs i
patch_same c d p [] i h = h
patch_same c d p (b ∷ bs) i h = ground (arith, patch_same c d (p + 1) bs i h)

-- A window of `n` bytes of `v` at `p` is written back with `xs` from its byte `a` on.
pub patch-window :
    (c v : ℕ → ℕ) (p n a : ℕ) (xs : List ℕ) (i : ℕ)
    → a + length xs ≤ n
    → ((j : ℕ) → (j < p) ⊎ (p + n ≤ j) → v j ≡ c j)
    → patch c p (slice v p a ++ (xs ++ slice v (p + a + length xs) (n - a - length xs))) i
      ≡ patch v (p + a) xs i
patch-window c v p n a xs i fits same =
    let tail = slice v (p + a + length xs) (n - a - length xs) in
    let l_tail = length-slice v (p + a + length xs) (n - a - length xs) in
    let l_front = length-slice v p a in
    let front = patch c p (slice v p a) in
    let parts : patch c p (slice v p a ++ (xs ++ tail)) i
        ≡ patch (patch front (p + a) xs) (p + a + length xs) tail i =
      sym (patch-append c p (slice v p a) (xs ++ tail) i)
      ∙ ap (λ k. patch front (p + k) (xs ++ tail) i) l_front
      ∙ sym (patch-append front (p + a) xs tail i) in
    parts ∙ elim (Bool-cases (ltb i (p + a))) [
      | inl lo ↦
          let low = ltb→lt i (p + a) lo in
          patch_outside (patch front (p + a) xs) (p + a + length xs) tail i (inl (omega arith))
          ∙ patch_same front v (p + a) xs i (elim (Bool-cases (ltb i p)) [
            | inl out ↦
                let out_lt = ltb→lt i p out in
                patch_outside c p (slice v p a) i (inl out_lt) ∙ sym (same i (inl out_lt))
            | inr within ↦ patch-slice c v p a i (ltb_false→le i p within) low
          ])
      | inr hi ↦
          let high = ltb_false→le i (p + a) hi in
          elim (Bool-cases (ltb i (p + a + length xs))) [
            | inl mid ↦
                let middle = ltb→lt i (p + a + length xs) mid in
                patch_outside (patch front (p + a) xs) (p + a + length xs) tail i (inl middle)
                ∙ patch_inside front v (p + a) xs i high middle
            | inr past ↦
                let behind = ltb_false→le i (p + a + length xs) past in
                elim (Bool-cases (ltb i (p + n))) [
                  | inl within ↦
                      patch-slice (patch front (p + a) xs) v (p + a + length xs) (n - a - length xs)
                        i behind (omega (arith, ltb→lt i (p + n) within))
                      ∙ sym (patch_outside v (p + a) xs i (inr behind))
                  | inr out ↦
                      let outside = ltb_false→le i (p + n) out in
                      patch_outside (patch front (p + a) xs) (p + a + length xs) tail i
                        (inr (omega (arith, l_tail)))
                      ∙ patch_same front v (p + a) xs i (
                          patch_outside c p (slice v p a) i (inr (omega (arith, l_front)))
                          ∙ sym (same i (inr outside)))
                ]
          ]
    ]
