-- ===== src/Config/Steps.antt =====
-- Sequences of steps that may fail, and the loop over the keys of a configuration.
use habs.Base.{
  ◌≡◌, refl, sym, subst, arith, String, Bool, true, false, Option, none, some, List, [], ◌∷◌, All,
  Result, ok, err, pending,
}
use habs.Utils.{is_empty_string, check_variable}
use habs.Config.{
  and_then, or_default, Property, text_property, other_property, check_property, check_all,
}

pub and_then-ok :
    {A B : Type 0} (r : Result A) (f : A → Result B) {b : B}
    → and_then r f ≡ ok b
    → (a : A) × (r ≡ ok a) × (f a ≡ ok b)
and_then-ok (ok a) f h = (a, refl, h)
and_then-ok (err e) f h = absurd (ground arith)
and_then-ok pending f h = absurd (ground arith)

pub ok-and_then :
    {A B : Type 0} (r : Result A) (f : A → Result B) {b : B} (a : A)
    → r ≡ ok a
    → f a ≡ ok b
    → and_then r f ≡ ok b
ok-and_then r f {b} a e h = subst (λ r. and_then r f ≡ ok b) (sym e) h

-- A key is not refused: a text is set and not empty.
abbrev pub Passes : String × Property → Type 0
Passes (name, text_property value) = is_empty_string value ≡ false
Passes (name, other_property) = Unit

check_property-Passes :
    (name : String) (p : Property) (b : Bool) → check_property name p ≡ ok b → Passes (name, p)
unfolding check_variable
check_property-Passes name (text_property value) b h = ground arith
check_property-Passes name other_property b h = tt

Passes-check_property :
    (name : String) (p : Property) → Passes (name, p) → check_property name p ≡ ok true
unfolding check_variable
Passes-check_property name (text_property value) h = rw h refl
Passes-check_property name other_property h = refl

pub check_all-All : (ps : List (String × Property)) (b : Bool) → check_all ps ≡ ok b → All Passes ps
unfolding check_all
check_all-All [] b h = tt
check_all-All ((name, p) ∷ ps) b h =
    let (c, e, rest) = and_then-ok (check_property name p) _ h in
    (check_property-Passes name p c e, check_all-All ps b rest)

pub All-check_all : (ps : List (String × Property)) → All Passes ps → check_all ps ≡ ok true
unfolding check_all
All-check_all [] h = refl
All-check_all ((name, p) ∷ ps) h =
    ok-and_then (check_property name p) _ true (Passes-check_property name p h.0)
      (All-check_all ps h.1)

-- A text with a default is not empty.
pub default-Passes :
    (o : Option String) (s : String)
    → is_empty_string (some s) ≡ false
    → is_empty_string (some (or_default o s)) ≡ false
unfolding is_empty_string
default-Passes none s h = h
default-Passes (some t) s h = ground arith
