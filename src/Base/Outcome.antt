-- ===== src/Base/Outcome.antt =====
-- The outcome of a call that can fail. `failed` is a NULL or a false that the C code returns,
-- `aborted` an assertion that does not hold; `out_of_fuel` has no counterpart in the program.
use mathlib.Core.Path.{◌≡◌, refl, subst}
use mathlib.Core.Bool.{Bool, true, false}
use leech.Base.Tests.{if◌then◌else◌}
use mathlib.Core.Option.{Option, none, some}
use mathlib.Core.Logic.{◌≢◌}

pub data Result {ℓ} (A : Type ℓ) : Type ℓ where
  out_of_fuel aborted failed : Result A
  ok : (value : A) → Result A

infixl 5 ◌>>=◌
abbrev pub ◌>>=◌ {ℓ κ} : {B : Type κ} {A : Type ℓ} (run : Result A) (next : A → Result B) → Result B
out_of_fuel >>= next = out_of_fuel
aborted >>= next = aborted
failed >>= next = failed
ok value >>= next = next value

-- `assert(b)`
abbrev pub assert : Bool → Result (Unit {0})
assert true = ok tt
assert false = aborted

-- A statement, and what stands behind it
infixl 5 ◌>>◌
abbrev pub ◌>>◌ {ℓ} : {A : Type ℓ} (statement : Result (Unit {0})) (rest : Result A) → Result A
statement >> rest = statement >>= (λ _. rest)

-- A NULL pointer is returned on.
abbrev pub or_fail {ℓ} : {A : Type ℓ} → Option A → Result A
or_fail (some a) = ok a
or_fail none = failed

-- A pointer is asserted not to be NULL.
abbrev pub or_abort {ℓ} : {A : Type ℓ} → Option A → Result A
or_abort (some a) = ok a
or_abort none = aborted

-- The call returns: a value with `P`, or a failure that the caller sees. It neither runs into an
-- assertion nor out of fuel.
pub data Returns {ℓ κ} {A : Type ℓ} (P : A → Type κ) : Result A → Type (ℓ ⊔ κ) where
  holds : {a : A} → P a → Returns P (ok a)
  refused : Returns P failed

module _ {ℓ κ} {A : Type ℓ} {P : A → Type κ} where
  pub Returns-ok : {r : Result A} {a : A} → Returns P r → r ≡ ok a → P a
  Returns-ok (holds h) e = subst P (cc) h
  Returns-ok refused e = cc

  pub Returns-if :
      (b : Bool) {x y : Result A}
      → (b ≡ true → Returns P x)
      → (b ≡ false → Returns P y)
      → Returns P (if b then x else y)
  Returns-if true hx hy = hx refl
  Returns-if false hx hy = hy refl

  pub Returns-bind {ℓ' κ'} :
      {B : Type ℓ'} {Q : B → Type κ'} {r : Result A} {f : A → Result B}
      → Returns P r
      → ((a : A) → P a → Returns Q (f a))
      → Returns Q (r >>= f)
  Returns-bind (holds {a} h) k = k a h
  Returns-bind refused k = refused

-- The steps of a call that succeeded have succeeded.
pub bind-eq-ok {ℓ κ} :
    {A : Type ℓ} {B : Type κ} {b : B} (r : Result A) (next : A → Result B)
    → (r >>= next) ≡ ok b
    → (value : A) × (r ≡ ok value) × (next value ≡ ok b)
bind-eq-ok out_of_fuel next h = cc
bind-eq-ok aborted next h = cc
bind-eq-ok failed next h = cc
bind-eq-ok (ok value) next h = (value, refl, h)

-- The call ends: with a value that has `P`, with a failure, or in an assertion, but not for want of
-- fuel.
pub data Ends {ℓ κ} {A : Type ℓ} (P : A → Type κ) : Result A → Type (ℓ ⊔ κ) where
  ends : {a : A} → P a → Ends P (ok a)
  ends_refused : Ends P failed
  ends_aborted : Ends P aborted

module _ {ℓ κ} {A : Type ℓ} {P : A → Type κ} where
  pub Ends-if : (b : Bool) {x y : Result A} → Ends P x → Ends P y → Ends P (if b then x else y)
  Ends-if true hx hy = hx
  Ends-if false hx hy = hy

  pub Ends-bind {ℓ' κ'} :
      {B : Type ℓ'} {Q : B → Type κ'} {r : Result A} {f : A → Result B}
      → Ends P r
      → ((a : A) → P a → Ends Q (f a))
      → Ends Q (r >>= f)
  Ends-bind (ends {a} h) k = k a h
  Ends-bind ends_refused k = ends_refused
  Ends-bind ends_aborted k = ends_aborted

  pub Ends-weaken {κ'} :
      {Q : A → Type κ'} {r : Result A} → Ends P r → ((a : A) → P a → Q a) → Ends Q r
  Ends-weaken (ends {a} h) k = ends (k a h)
  Ends-weaken ends_refused k = ends_refused
  Ends-weaken ends_aborted k = ends_aborted

  pub Ends-ne_out_of_fuel : {r : Result A} → Ends P r → r ≢ out_of_fuel
  Ends-ne_out_of_fuel (ends h) e = cc
  Ends-ne_out_of_fuel ends_refused e = cc
  Ends-ne_out_of_fuel ends_aborted e = cc

-- A call that may have changed a state when it fails: the state stays as it is, and the failure is
-- passed on.
abbrev pub on_ok {ℓ κ μ} :
    {S : Type ℓ} {A : Type κ} {B : Type μ} (state : S) (run : Result A) (next : A → S × Result B)
    → S × Result B
on_ok state (ok value) next = next value
on_ok state failed next = (state, failed)
on_ok state aborted next = (state, aborted)
on_ok state out_of_fuel next = (state, out_of_fuel)
