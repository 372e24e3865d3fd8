-- ===== src/Base/Effects.antt =====
-- Handlers that may throw: state and exceptions. What was written before a throw stays written.
use mathlib.Core.Path.{◌≡◌, refl, ap}
use mathlib.Core.Logic.{◌⊎◌, inl, inr}

pub data Result {ℓ κ} (E : Type ℓ) (A : Type κ) : Type (ℓ ⊔ κ) where
  ok : A → Result E A
  throw : E → Result E A

abbrev pub Action {ℓ} : Type ℓ → Type ℓ → Type ℓ → Type ℓ
Action S E A = S → Result E A × S

module _ {ℓ} {S E A : Type ℓ} where
  abbrev pub pure : A → Action S E A
  pure a s = (ok a, s)

  abbrev pub raise : E → Action S E A
  raise e s = (throw e, s)

  abbrev pub from_result : Result E A → Action S E A
  from_result r s = (r, s)

  -- `try { … } catch (err) { … }` with a handler that does not throw
  abbrev pub try_catch : Action S E A → (E → S → A × S) → S → A × S
  try_catch m handler s = let (r, s') = m s in elim r [ ok a ↦ (a, s') | throw e ↦ handler e s' ]

module _ {ℓ} {S E A B : Type ℓ} where
  infixl 5 ◌>>=◌ ◌>>◌
  abbrev pub ◌>>=◌ : Action S E A → (A → Action S E B) → Action S E B
  ◌>>=◌ m k s = let (r, s') = m s in elim r [ ok a ↦ k a s' | throw e ↦ (throw e, s') ]

  abbrev pub ◌>>◌ : Action S E A → Action S E B → Action S E B
  m >> k = m >>= λ _. k

module _ {ℓ} {S E A : Type ℓ} where
  abbrev pub gets : (S → A) → Action S E A
  gets f s = (ok (f s), s)

module _ {S E : Type 0} where
  abbrev pub modify : (S → S) → Action S E (Unit {0})
  modify f s = (ok tt, f s)

module _ {ℓ} {S E A : Type ℓ} where
  -- A step that cannot throw.
  abbrev pub lift : (S → A × S) → Action S E A
  lift f s = let (a, s') = f s in (ok a, s')

module _ {ℓ κ} {E : Type ℓ} {A : Type κ} where
  pub Result-cases : (r : Result E A) → ((a : A) × (r ≡ ok a)) ⊎ ((e : E) × (r ≡ throw e))
  Result-cases (ok a) = inl (a, refl)
  Result-cases (throw e) = inr (e, refl)

module _ {ℓ} {S E A B : Type ℓ} (m : Action S E A) (k : Action S E B) (s : S) where
  -- What the first of two actions comes to decides whether the second runs.
  pub >>-ok : (a : A) → (m s).0 ≡ ok a → (m >> k) s ≡ k (m s).1
  >>-ok a e = ap (λ r. elim r [ ok b ↦ k (m s).1 | throw x ↦ (throw x, (m s).1) ]) e

  pub >>-throw : (x : E) → (m s).0 ≡ throw x → (m >> k) s ≡ (throw x, (m s).1)
  >>-throw x e = ap (λ r. elim r [ ok b ↦ k (m s).1 | throw y ↦ (throw y, (m s).1) ]) e
