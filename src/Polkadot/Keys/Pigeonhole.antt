-- ===== src/Polkadot/Keys/Pigeonhole.antt =====
-- Lists of keys without repetition, inside another list.
use habs.Base.{
  suc, ◌≤◌, ◌<◌, ◌≡◌, ◌⊎◌, inl, inr, refl, String, true, false, ◌||◌, List, [], ◌∷◌, ◌++◌, ◌==◌,
  eq_iff, arith, length, All, if◌then◌else◌,
}
use habs.Polkadot.Keys.{contains}

abbrev pub Distinct : List String → Type 0
Distinct [] = Unit
Distinct (k ∷ ks) = (contains k ks ≡ false) × Distinct ks

-- Every key of the first list is in the second.
abbrev pub Within : List String → List String → Type 0
Within ks known = All (λ k. contains k known ≡ true) ks

pub contains-append :
    (k : String) (xs ys : List String) → contains k (xs ++ ys) ≡ (contains k xs || contains k ys)
unfolding contains
contains-append k [] ys = refl
contains-append k (x ∷ xs) ys = ground (arith, contains-append k xs ys)

pub contains-append_left :
    (k : String) (xs ys : List String) → contains k xs ≡ true → contains k (xs ++ ys) ≡ true
contains-append_left k xs ys h = ground (arith, contains-append k xs ys)

pub contains-append_right :
    (k : String) (xs ys : List String) → contains k ys ≡ true → contains k (xs ++ ys) ≡ true
contains-append_right k xs ys h = ground (arith, contains-append k xs ys)

pub Distinct-snoc :
    (k : String) (ks : List String) → contains k ks ≡ false → Distinct ks → Distinct (ks ++ k ∷ [])
unfolding contains
Distinct-snoc k [] c d = (refl, tt)
Distinct-snoc k (x ∷ ks) c d =
    ground (arith, contains-append x ks (k ∷ []), Distinct-snoc k ks, eq_iff x k, eq_iff k x)

dedup : List String → List String
dedup [] = []
dedup (x ∷ xs) = let rest = dedup xs in if contains x xs then rest else x ∷ rest

contains-eq : (j x : String) (xs : List String) → x ≡ j → contains j xs ≡ contains x xs
contains-eq j x xs e = rw e

contains-dedup : (k : String) (xs : List String) → contains k (dedup xs) ≡ contains k xs
unfolding dedup contains
contains-dedup k [] = refl
contains-dedup k (x ∷ xs) = ground (arith, contains-dedup k xs, eq_iff x k, contains-eq k x xs)

length-dedup : (xs : List String) → length (dedup xs) ≤ length xs
unfolding dedup
length-dedup [] = omega arith
length-dedup (x ∷ xs) = ground (arith, length-dedup xs)

length-dedup-lt : (xs : List String) → Distinct xs ⊎ (length (dedup xs) < length xs)
unfolding dedup
length-dedup-lt [] = inl tt
length-dedup-lt (x ∷ xs) = ground (arith, length-dedup xs, length-dedup-lt xs)

remove : String → List String → List String
remove k [] = []
remove k (x ∷ xs) = let rest = remove k xs in if x == k then xs else x ∷ rest

length-remove :
    (k : String) (xs : List String) → contains k xs ≡ true → length xs ≡ suc (length (remove k xs))
unfolding remove contains
length-remove k [] h = absurd (ground arith)
length-remove k (x ∷ xs) h = ground (arith, length-remove k xs)

contains-remove :
    (j k : String) (xs : List String)
    → (j == k) ≡ false
    → contains j xs ≡ true
    → contains j (remove k xs) ≡ true
unfolding remove contains
contains-remove j k [] ne h = absurd (ground arith)
contains-remove j k (x ∷ xs) ne h =
    ground (arith, contains-remove j k xs, eq_iff x k, eq_iff x j, eq_iff j k)

Within-remove :
    (k : String) (xs known : List String)
    → contains k xs ≡ false
    → Within xs known
    → Within xs (remove k known)
unfolding contains
Within-remove k [] known c w = tt
Within-remove k (x ∷ xs) known c w =
    (contains-remove x k known (ground arith) w.0, Within-remove k xs known (ground arith) w.1)

length-le_of_Within :
    (xs known : List String) → Distinct xs → Within xs known → length xs ≤ length known
length-le_of_Within [] known d w = omega arith
length-le_of_Within (x ∷ xs) known d w =
    let ih = length-le_of_Within xs (remove x known) d.1 (Within-remove x xs known d.0 w.1) in
    omega (arith, ih, length-remove x known w.0)

Within-dedup : (xs known : List String) → Within xs known → Within xs (dedup known)
Within-dedup [] known w = tt
Within-dedup (x ∷ xs) known w = (rw contains-dedup w.0, Within-dedup xs known w.1)

-- Distinct keys inside a list are no more than its length, and fewer if the list repeats a key.
pub length_bound :
    (xs known : List String)
    → Distinct xs
    → Within xs known
    → (length xs ≤ length known) × (¬ Distinct known → length xs < length known)
length_bound xs known d w =
    let le = length-le_of_Within xs known d w in
    let below = length-le_of_Within xs (dedup known) d (Within-dedup xs known w) in
    (
      le,
      λ repeats. elim (length-dedup-lt known) [
        | inl distinct ↦ absurd (repeats distinct)
        | inr lt ↦ omega arith
      ],
    )
