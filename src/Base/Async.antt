-- ===== src/Base/Async.antt =====
-- Asynchronous methods that change state and may throw. What was written before a throw stays
-- written, so the state comes back beside the error too.
use mathlib.Core.Path.{◌≡◌, refl}
use mathlib.Core.Logic.{◌≢◌, ◌⊎◌, inl, inr}
use native.Mathlib.Omega.{arith}
use mathlib.Core.Bool.{Bool, true, false}
use Prim.Native.String.{String}

-- How an awaited promise ends: with a value, with an `Error`, or never (`pending`).
pub data Result {ℓ} (A : Type ℓ) : Type ℓ where
  ok : A → Result A
  err : String → Result A
  pending : Result A

abbrev pub Exec {ℓ} : Type ℓ → Type ℓ → Type ℓ
Exec S A = S → Result A × S

module _ {ℓ} {S A : Type ℓ} where
  abbrev pub pure : A → Exec S A
  pure a s = (ok a, s)

  abbrev pub throw : String → Exec S A
  throw e s = (err e, s)

  abbrev pub lift : Result A → Exec S A
  lift r s = (r, s)

  abbrev pub gets : (S → A) → Exec S A
  gets f s = (ok (f s), s)

  abbrev pub recover : Result A → Exec S A → Exec S A
  recover (err e) handler s = handler s
  recover r handler s = (r, s)

  -- `try { m } catch (error) { handler }`: no handler of the program looks at the error.
  abbrev pub try_catch : Exec S A → Exec S A → Exec S A
  try_catch m handler s = let (r, s') = m s in recover r handler s'

module _ {ℓ} {S A B : Type ℓ} where
  abbrev pub continue : Result A → (A → Exec S B) → Exec S B
  continue (ok a) f s = f a s
  continue (err e) f s = (err e, s)
  continue pending f s = (pending, s)

  infixl 10 ◌>>=◌ ◌>>◌
  abbrev pub ◌>>=◌ : Exec S A → (A → Exec S B) → Exec S B
  ◌>>=◌ m f s = let (r, s') = m s in continue r f s'

  abbrev pub ◌>>◌ : Exec S A → Exec S B → Exec S B
  m >> n = m >>= λ _. n

-- `if (b) { m }`
abbrev pub when : {S : Type 0} → Bool → Exec S (Unit {0}) → Exec S (Unit {0})
when true m = m
when false m = pure tt

abbrev pub modify : {S : Type 0} → (S → S) → Exec S (Unit {0})
modify f s = (ok tt, f s)

-- A method of an object that the state contains.
abbrev pub zoom {ℓ} : {S T A : Type ℓ} → (S → T) → (S → T → S) → Exec T A → Exec S A
zoom view update m s = let (r, t) = m (view s) in (r, update s t)

-- A promise that is not awaited: its end is not looked at.
abbrev pub detach : {S A : Type 0} → Exec S A → Exec S (Unit {0})
detach m s = (ok tt, (m s).1)

-- `m` does not throw, from any state.
abbrev pub NeverThrows {ℓ} : {S A : Type ℓ} → Exec S A → Type ℓ
NeverThrows {S} m = (s : S) (e : String) → (m s).0 ≢ err e

-- A method that ends in `catch` and returns a value there throws nothing.
pub try_catch-NeverThrows {ℓ} :
    {S A : Type ℓ} (m : Exec S A) (a : A) → NeverThrows (try_catch m (pure a))
try_catch-NeverThrows m a s e = ground arith

-- The inversion of a sequence that returned.
pub continue-eq-ok {ℓ} :
    {S A B : Type ℓ} (r : Result A) (f : A → Exec S B) (s : S) {b : B}
    → (continue r f s).0 ≡ ok b
    → (a : A) × (r ≡ ok a) × ((f a s).0 ≡ ok b)
continue-eq-ok (ok a) f s h = (a, refl, h)
continue-eq-ok (err e) f s h = absurd (ground arith)
continue-eq-ok pending f s h = absurd (ground arith)

pub Result-cases {ℓ} :
    {A : Type ℓ} (r : Result A)
    → ((a : A) × (r ≡ ok a)) ⊎ ((e : String) × (r ≡ err e)) ⊎ (r ≡ pending)
Result-cases (ok a) = inl (a, refl)
Result-cases (err e) = inr (inl (e, refl))
Result-cases pending = inr (inr refl)
