-- ===== src/Prelude/Outcome.antt =====
-- The outcome of a contract call. The host rolls back the storage of a call that returns an error
-- or traps, so only a successful outcome carries the new state.
use mathlib.Core.Bool.{Bool, true, false}
use mathlib.Core.Path.{◌≡◌, refl, subst}
use mathlib.Core.Logic.{◌⊎◌, inl, inr}
use mathlib.Core.Option.{Option, none, some}

-- `trap` is a panic: failed authorisation, an arithmetic overflow, or an explicit `panic!`.
pub data Outcome {ℓ} (E : Type 0) (A : Type ℓ) : Type ℓ where
  ok : A → Outcome E A
  err : E → Outcome E A
  trap : Outcome E A

-- A call on a contract whose storage is an `S`.
abbrev pub Contract : Type 0 → Type 0 → Type 0 → Type 0
Contract S E A = S → Outcome E (A × S)

module _ {S E A B : Type 0} where
  infixl 5 ◌>>=◌ ◌>>◌
  abbrev pub ◌>>=◌ : Contract S E A → (A → Contract S E B) → Contract S E B
  ◌>>=◌ m f s = elim (m s) [ ok r ↦ f r.0 r.1 | err e ↦ err e | trap ↦ trap ]

  abbrev pub ◌>>◌ : Contract S E A → Contract S E B → Contract S E B
  m >> k = m >>= λ _. k

module _ {S E : Type 0} where
  abbrev pub pure : {A : Type 0} → A → Contract S E A
  pure a s = ok (a, s)

  abbrev pub gets : {A : Type 0} → (S → A) → Contract S E A
  gets f s = ok (f s, s)

  abbrev pub modify : (S → S) → Contract S E (Unit {0})
  modify f s = ok (tt, f s)

  abbrev pub raise : {A : Type 0} → E → Contract S E A
  raise e s = err e

  abbrev pub panic : {A : Type 0} → Contract S E A
  panic s = trap

  -- `if c { return Err(e); }`
  abbrev pub raise_if : Bool → E → Contract S E (Unit {0})
  raise_if true e s = err e
  raise_if false e s = ok (tt, s)

  -- `if c { panic!(…); }`
  abbrev pub panic_if : Bool → Contract S E (Unit {0})
  panic_if true s = trap
  panic_if false s = ok (tt, s)

  -- `.ok_or(e)?`
  abbrev pub or_raise : {A : Type 0} → Option A → E → Contract S E A
  or_raise none e s = err e
  or_raise (some a) e s = ok (a, s)

  -- `.unwrap()`, `.expect(…)`
  abbrev pub unwrap : {A : Type 0} → Option A → Contract S E A
  unwrap none s = trap
  unwrap (some a) s = ok (a, s)

-- To split on the outcome of a run: it succeeds, or it fails whichever way.
pub Outcome-cases :
    {E A : Type 0} (o : Outcome E A)
    → ((a : A) × (o ≡ ok a)) ⊎ (((e : E) × (o ≡ err e)) ⊎ (o ≡ trap))
Outcome-cases (ok a) = inl (a, refl)
Outcome-cases (err e) = inr (inl (e, refl))
Outcome-cases trap = inr (inr refl)

-- What a statement says of every successful run; a failed one has left nothing behind.
abbrev pub OnSuccess : {E A : Type 0} → (A → Type 0) → Outcome E A → Type 0
OnSuccess P (ok a) = P a
OnSuccess P (err e) = Unit
OnSuccess P trap = Unit

-- The run did not succeed.
abbrev pub Fails : {E A : Type 0} → Outcome E A → Type 0
Fails (ok a) = ⊥
Fails (err e) = Unit
Fails trap = Unit

Outcome-split :
    {S E A B : Type 0} (o : Outcome E (A × S)) (f : A × S → Outcome E B) {r : B}
    → (let k : Outcome E B = elim o [ ok p ↦ f p | err e ↦ err e | trap ↦ trap ] in k ≡ ok r)
    → (a : A) × (t : S) × (o ≡ ok (a, t)) × (f (a, t) ≡ ok r)
Outcome-split (ok p) f h = (p.0, p.1, refl, h)
Outcome-split (err e) f h = cc
Outcome-split trap f h = cc

-- A run of two steps that succeeds is a run of the first and one of the second.
pub >>=-eq-ok :
    {S E A B : Type 0} (m : Contract S E A) (f : A → Contract S E B) (s : S) {r : B × S}
    → (m >>= f) s ≡ ok r
    → (a : A) × (t : S) × (m s ≡ ok (a, t)) × (f a t ≡ ok r)
>>=-eq-ok m f s {r} h = Outcome-split (m s) (λ p. f p.0 p.1) h

-- There is a value, and this holds of it.
abbrev pub OnSome : {A : Type 0} → (A → Type 0) → Option A → Type 0
OnSome P none = ⊥
OnSome P (some a) = P a

-- The run succeeds, and this holds of its result and of the state that it leaves.
abbrev pub Returns : {S E A : Type 0} → (A → S → Type 0) → Outcome E (A × S) → Type 0
Returns P (ok r) = P r.0 r.1
Returns P (err e) = ⊥
Returns P trap = ⊥

-- What holds of every success holds of this one.
pub OnSuccess_elim :
    {E A : Type 0} (P : A → Type 0) {o : Outcome E A} {a : A} → o ≡ ok a → OnSuccess P o → P a
OnSuccess_elim P h p = subst (OnSuccess P) h p

-- The run ends with a result or an error, not with a trap.
abbrev pub Answers : {E A : Type 0} → Outcome E A → Type 0
Answers (ok a) = Unit
Answers (err e) = Unit
Answers trap = ⊥
