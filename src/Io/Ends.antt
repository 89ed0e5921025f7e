-- ===== src/Io/Ends.antt =====
-- How a call ends: it returns with `P`, or fails with `Q`; it neither panics nor runs out of fuel.
use embedded_fatfs.Base.{◌≡◌, refl, subst, sym}
use embedded_fatfs.Io.{Run, ok, err, Cmd, and_then, map_err, or_else, caught, Result}

pub data Ends {S X A : Type 0} (P : A → S → Type 0) (Q : X → S → Type 0) : Run S X A → Type 0 where
  returns : {a : A} {s : S} → P a s → Ends P Q (ok a s)
  fails : {e : X} {s : S} → Q e s → Ends P Q (err e s)

-- Total correctness: the call returns, with `P`.
abbrev pub Returns : {S X A : Type 0} → (A → S → Type 0) → Run S X A → Type 0
Returns P r = Ends P (λ _ _. ⊥) r

module _ {S X A : Type 0} {P : A → S → Type 0} where
  pub bind :
      {B : Type 0} {P' : B → S → Type 0} {Q : X → S → Type 0} {r : Run S X A} {k : A → Cmd S X B}
      → Returns P r
      → ((a : A) (s : S) → P a s → Ends P' Q (k a s))
      → Ends P' Q (and_then r k)
  bind (returns p) next = next _ _ p
  bind (fails q) next = absurd q

  pub bind-Ends :
      {B : Type 0} {P' : B → S → Type 0} {Q Q' : X → S → Type 0} {r : Run S X A} {k : A → Cmd S X B}
      → Ends P Q r
      → ((a : A) (s : S) → P a s → Ends P' Q' (k a s))
      → ((e : X) (s : S) → Q e s → Q' e s)
      → Ends P' Q' (and_then r k)
  bind-Ends (returns p) next weaken = next _ _ p
  bind-Ends (fails q) next weaken = fails (weaken _ _ q)

  pub mono :
      {P' : A → S → Type 0} {Q Q' : X → S → Type 0} {r : Run S X A}
      → Ends P Q r
      → ((a : A) (s : S) → P a s → P' a s)
      → ((e : X) (s : S) → Q e s → Q' e s)
      → Ends P' Q' r
  mono (returns p) f g = returns (f _ _ p)
  mono (fails q) f g = fails (g _ _ q)

  pub Returns-map_err :
      {Y : Type 0} (f : X → Y) {r : Run S X A} → Returns P r → Returns P (map_err f r)
  Returns-map_err f (returns p) = returns p
  Returns-map_err f (fails q) = absurd q

  pub or_else-Ends :
      {P' : A → S → Type 0} {Q Q' : X → S → Type 0} {r : Run S X A} {k : X → Cmd S X A}
      → Ends P Q r
      → ((a : A) (s : S) → P a s → P' a s)
      → ((e : X) (s : S) → Q e s → Ends P' Q' (k e s))
      → Ends P' Q' (or_else r k)
  or_else-Ends (returns p) keep again = returns (keep _ _ p)
  or_else-Ends (fails q) keep again = again _ _ q

  pub attempt-Returns :
      {r : Run S X A}
      → Returns P r
      → Returns (λ o s. (a : A) × (o ≡ Result.ok a) × P a s) (caught r)
  attempt-Returns (returns {a} p) = returns (a, refl, p)
  attempt-Returns (fails q) = absurd q

-- After a call that returns one value only.
pub bind_value :
    {S X A B : Type 0} {P : B → S → Type 0} {Q : X → S → Type 0} {a : A} {H : S → Type 0}
    {r : Run S X A} (k : A → Cmd S X B)
    → Returns (λ v s. (v ≡ a) × H s) r
    → ((s : S) → H s → Ends P Q (k a s))
    → Ends P Q (and_then r k)
bind_value {P} {Q} k (returns {s} (q, h)) next = subst (λ v. Ends P Q (k v s)) (sym q) (next s h)
bind_value k (fails q) next = absurd q
