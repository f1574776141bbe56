-- ===== src/Base/Frames.antt =====
-- What a method leaves alone, as a function `view` of the state.
use mathlib.Core.Path.{◌≡◌, refl, ◌∙◌}
use mathlib.Core.Logic.{◌≢◌}
use native.Mathlib.Omega.{arith}
use mathlib.Core.Bool.{Bool, true, false}
use habs.Base.Booleans.{if◌then◌else◌}
use habs.Base.Async.{Result, ok, err, pending, Exec, continue, pure, recover, try_catch, when}

module _ {ℓ} {S A T : Type ℓ} (view : S → T) where
  -- `m` leaves `view` alone, however it ends.
  abbrev pub Keeps : Exec S A → Type ℓ
  Keeps m = (s : S) → view (m s).1 ≡ view s

  pub if-Keeps : (b : Bool) (m n : Exec S A) → Keeps m → Keeps n → Keeps (if b then m else n)
  if-Keeps true m n km kn = km
  if-Keeps false m n km kn = kn

module _ {S T : Type 0} (view : S → T) where
  pub when-Keeps : (b : Bool) (m : Exec S (Unit {0})) → Keeps view m → Keeps view (when b m)
  when-Keeps true m k s = k s
  when-Keeps false m k s = refl

module _ {ℓ} {S A T : Type ℓ} (view : S → T) where
  pub try_catch-Keeps : (m : Exec S A) (a : A) → Keeps view m → Keeps view (try_catch m (pure a))
  try_catch-Keeps m a km s = kept (m s).0 (km s)
    where
      kept : (r : Result A) → view (m s).1 ≡ view s → view (recover r (pure a) (m s).1).1 ≡ view s
      kept (ok b) h = h
      kept (err e) h = h
      kept pending h = h

-- Forgetting the value leaves the state.
pub continue-tt {ℓ} :
    {S A B : Type ℓ} (r : Result A) (b : B) (s : S) → (continue r (λ _ t. (ok b, t)) s).1 ≡ s
continue-tt (ok a) b s = refl
continue-tt (err e) b s = refl
continue-tt pending b s = refl

pub if_true {ℓ} : {A : Type ℓ} {b : Bool} (x y : A) → b ≡ true → (if b then x else y) ≡ x
if_true x y e = rw e

pub if_false {ℓ} : {A : Type ℓ} {b : Bool} (x y : A) → b ≡ false → (if b then x else y) ≡ y
if_false x y e = rw e

module _ {ℓ} {S A B T : Type ℓ} (view : S → T) where
  pub continue-Keeps :
      (r : Result A) (f : A → Exec S B) (s : S) {x : T}
      → view s ≡ x
      → ((a : A) → Keeps view (f a))
      → view (continue r f s).1 ≡ x
  continue-Keeps (ok a) f s h k = k a s ∙ h
  continue-Keeps (err e) f s h k = h
  continue-Keeps pending f s h k = h

  -- A sequence that gave the view a new value had a first part that returned.
  pub continue-new :
      (r : Result A) (f : A → Exec S B) (s : S) {x : T}
      → view s ≢ x
      → view (continue r f s).1 ≡ x
      → (a : A) × (r ≡ ok a) × (view (f a s).1 ≡ x)
  continue-new (ok a) f s old h = (a, refl, h)
  continue-new (err e) f s old h = absurd (old h)
  continue-new pending f s old h = absurd (old h)

-- What holds before a sequence, and after its second part, holds after it.
module _ {ℓ κ} {S A B : Type ℓ} (P : S → Type κ) where
  pub continue-Inv :
      (r : Result A) (f : A → Exec S B) (s : S)
      → P s
      → ((a : A) → P (f a s).1)
      → P (continue r f s).1
  continue-Inv (ok a) f s h k = k a
  continue-Inv (err e) f s h k = h
  continue-Inv pending f s h k = h

module _ {ℓ κ} {S A : Type ℓ} (P : S → Type κ) where
  pub try_catch-Inv : (m : Exec S A) (a : A) (s : S) → P (m s).1 → P (try_catch m (pure a) s).1
  try_catch-Inv m a s h = held (m s).0
    where
      held : (r : Result A) → P (recover r (pure a) (m s).1).1
      held (ok b) = h
      held (err e) = h
      held pending = h

  pub if-Inv :
      (b : Bool) (m n : Exec S A) (s : S) → P (m s).1 → P (n s).1 → P ((if b then m else n) s).1
  if-Inv true m n s hm hn = hm
  if-Inv false m n s hm hn = hn

-- What holds after the second part of a sequence that returned holds after the sequence.
module _ {ℓ κ} {S A B : Type ℓ} (Q : S → Type κ) where
  pub continue-Then :
      (r : Result A) (f : A → Exec S B) (s : S) {b : B}
      → ((a : A) → (f a s).0 ≡ ok b → Q (f a s).1)
      → (continue r f s).0 ≡ ok b
      → Q (continue r f s).1
  continue-Then (ok a) f s k h = k a h
  continue-Then (err e) f s k h = absurd (ground arith)
  continue-Then pending f s k h = absurd (ground arith)
