-- ===== src/ShortNames/Copies.antt =====
-- A list of which the front is kept and the rest replaced, as `copied` makes it.
use embedded_fatfs.Base.{ℕ, zero, suc, ◌+◌, ◌≤◌, ◌<◌, ◌≡◌, arith, refl, ap, List, [], ◌∷◌, ◌++◌}
use embedded_fatfs.Base.{length, take, drop, get_or}

pub take_front :
    (k at : ℕ) (xs rest : List ℕ)
    → k ≤ at
    → at ≤ length xs
    → take k (take at xs ++ rest) ≡ take k xs
take_front zero at xs rest h fits = refl
take_front (suc k) zero xs rest h fits = absurd (omega arith)
take_front (suc k) (suc at) [] rest h fits = absurd (omega arith)
take_front (suc k) (suc at) (x ∷ xs) rest h fits =
    ap (λ l. x ∷ l) (take_front k at xs rest (omega arith) (omega arith))

pub get_or_front :
    (i at : ℕ) (xs rest : List ℕ) (d : ℕ)
    → i < at
    → at ≤ length xs
    → get_or (take at xs ++ rest) i d ≡ get_or xs i d
get_or_front i zero xs rest d h fits = absurd (omega arith)
get_or_front i (suc at) [] rest d h fits = absurd (omega arith)
get_or_front zero (suc at) (x ∷ xs) rest d h fits = refl
get_or_front (suc i) (suc at) (x ∷ xs) rest d h fits =
    get_or_front i at xs rest d (omega arith) (omega arith)

pub get_or_behind :
    (at x : ℕ) (xs rest : List ℕ) (d : ℕ)
    → at ≤ length xs
    → get_or (take at xs ++ x ∷ rest) at d ≡ x
get_or_behind zero x xs rest d fits = refl
get_or_behind (suc at) x [] rest d fits = absurd (omega arith)
get_or_behind (suc at) x (y ∷ ys) rest d fits = get_or_behind at x ys rest d (omega arith)

pub drop_front : (at : ℕ) (xs rest : List ℕ) → at ≤ length xs → drop at (take at xs ++ rest) ≡ rest
drop_front zero xs rest fits = refl
drop_front (suc at) [] rest fits = absurd (omega arith)
drop_front (suc at) (x ∷ xs) rest fits = drop_front at xs rest (omega arith)

pub drop_past : (n : ℕ) (xs : List ℕ) → length xs ≤ n → drop n xs ≡ []
drop_past zero [] h = refl
drop_past zero (x ∷ xs) h = absurd (omega arith)
drop_past (suc n) [] h = refl
drop_past (suc n) (x ∷ xs) h = drop_past n xs (omega arith)

-- A window that ends within the front.
pub window_front :
    (k q at : ℕ) (xs rest : List ℕ)
    → q + k ≤ at
    → at ≤ length xs
    → take k (drop q (take at xs ++ rest)) ≡ take k (drop q xs)
window_front k zero at xs rest h fits = take_front k at xs rest (omega arith) fits
window_front k (suc q) zero xs rest h fits = absurd (omega arith)
window_front k (suc q) (suc at) [] rest h fits = absurd (omega arith)
window_front k (suc q) (suc at) (x ∷ xs) rest h fits =
    window_front k q at xs rest (omega arith) (omega arith)
