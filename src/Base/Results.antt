-- ===== src/Base/Results.antt =====
-- The outcome of code that may raise: a value, or the exception.
use mathlib.Core.Path.{◌≡◌, refl}
use mathlib.Core.Bool.{Bool, true, false}
use mathlib.Core.List.{List, [], ◌∷◌}
use mathlib.Core.Option.{Option, none, some}
use blast_radius.Base.Tests.{if◌then◌else◌}

pub data Result {ℓ} (E : Type 0) (V : Type ℓ) : Type ℓ where
  err : E → Result E V
  ok : V → Result E V

-- `if not b: raise e`
abbrev pub guard : {E : Type 0} → Bool → E → Result E (Unit {0})
guard b e = if b then ok tt else err e

infixl 5 ◌>>=◌ ◌>>◌
abbrev pub ◌>>=◌ {ℓ κ} :
    {E : Type 0} {V : Type ℓ} {W : Type κ} → Result E V → (V → Result E W) → Result E W
err e >>= next = err e
ok v >>= next = next v

abbrev pub ◌>>◌ {κ} : {E : Type 0} {W : Type κ} → Result E (Unit {0}) → Result E W → Result E W
first >> second = first >>= λ _. second

abbrev pub of_option {ℓ} : {E : Type 0} {A : Type ℓ} → E → Option A → Result E A
of_option e none = err e
of_option e (some a) = ok a

pub >>=-eq-ok {ℓ κ} :
    {E : Type 0} {V : Type ℓ} {W : Type κ} (m : Result E V) (next : V → Result E W) {w : W}
    → (m >>= next) ≡ ok w
    → (v : V) × (m ≡ ok v) × (next v ≡ ok w)
>>=-eq-ok (err e) next h = cc
>>=-eq-ok (ok v) next h = (v, refl, h)

pub guard-eq-ok : {E : Type 0} (b : Bool) (e : E) {u : Unit {0}} → guard b e ≡ ok u → b ≡ true
guard-eq-ok true e h = refl
guard-eq-ok false e h = cc

module _ {ℓ κ} {E : Type 0} {A : Type ℓ} {B : Type κ} where
  -- A comprehension whose element may raise.
  abbrev pub traverse : (A → Result E B) → List A → Result E (List B)
  traverse f [] = ok []
  traverse f (x ∷ xs) = do y ← f x; ys ← traverse f xs; ok (y ∷ ys)

module _ {ℓ} {E : Type 0} {A : Type ℓ} where
  -- A comprehension whose condition may raise.
  abbrev pub keep_ok : (A → Result E Bool) → List A → Result E (List A)
  keep_ok p [] = ok []
  keep_ok p (x ∷ xs) = do b ← p x; ys ← keep_ok p xs; ok (if b then x ∷ ys else ys)
