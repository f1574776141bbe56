-- ===== src/Base/Text.antt =====
-- The operations of JavaScript strings that the program uses, character by character.
use Prim.Native.Nat.{ℕ, zero, suc, ◌/◌, ◌%◌}
use Prim.Native.Char.{Char, code}
use Prim.Native.String.{String}
use mathlib.Core.Path.{◌≡◌, ap}
use mathlib.Core.Bool.{Bool, true, false, ◌&&◌, ◌||◌}
use mathlib.Core.List.{List, [], ◌∷◌}
use habs.Base.Booleans.{nat_beq, if◌then◌else◌}

-- `s + t`
infixr 65 ◌<>◌
abbrev pub ◌<>◌ : String → String → String
String.[] <> t = t
(String.◌∷◌ c s) <> t = String.◌∷◌ c (s <> t)

abbrev pub tail_of : String → String
tail_of String.[] = String.[]
tail_of (String.◌∷◌ c s) = s

pub text-cancel : (s t u : String) → s <> t ≡ s <> u → t ≡ u
text-cancel String.[] t u e = e
text-cancel (String.◌∷◌ c s) t u e = text-cancel s t u (ap tail_of e)

-- `s === ''`
abbrev pub is_empty : String → Bool
is_empty String.[] = true
is_empty (String.◌∷◌ c s) = false

push_char : Char → List String → List String
push_char c [] = String.◌∷◌ c String.[] ∷ []
push_char c (w ∷ ws) = String.◌∷◌ c w ∷ ws

-- `s.split(sep)` for a separator of one character, given by its code
unfoldable pub split : ℕ → String → List String
unfolding push_char
split sep String.[] = "" ∷ []
split sep (String.◌∷◌ c s) =
    let rest = split sep s in if nat_beq (code c) sep then "" ∷ rest else push_char c rest

-- `ws.join(sep)`
unfoldable pub join : String → List String → String
join sep [] = ""
join sep (w ∷ []) = w
join sep (w ∷ v ∷ ws) = w <> sep <> join sep (v ∷ ws)

-- `s.startsWith(p)`
unfoldable pub starts_with : String → String → Bool
starts_with s String.[] = true
starts_with String.[] (String.◌∷◌ c p) = false
starts_with (String.◌∷◌ d s) (String.◌∷◌ c p) = nat_beq (code d) (code c) && starts_with s p

-- `s.includes(p)`
unfoldable pub includes : String → String → Bool
unfolding starts_with
includes String.[] p = starts_with "" p
includes (String.◌∷◌ c s) p = starts_with (String.◌∷◌ c s) p || includes s p

-- `s.endsWith(p)`
unfoldable pub ends_with : String → String → Bool
ends_with String.[] p = is_empty p
ends_with (String.◌∷◌ c s) p =
    (starts_with (String.◌∷◌ c s) p && starts_with p (String.◌∷◌ c s)) || ends_with s p

-- The decimal digits of a number; the fuel is a bound on their count.
digits_onto : ℕ → ℕ → List ℕ → List ℕ
digits_onto zero n acc = acc
digits_onto (suc fuel) n acc =
    let more = digits_onto fuel (n / 10) ((n % 10) ∷ acc) in
    if nat_beq (n / 10) 0 then (n % 10) ∷ acc else more

digit : ℕ → String
digit n =
    if nat_beq n 0
    then "0"
    else if nat_beq n 1
    then "1"
    else if nat_beq n 2
    then "2"
    else if nat_beq n 3
    then "3"
    else if nat_beq n 4
    then "4"
    else if nat_beq n 5
    then "5"
    else if nat_beq n 6
    then "6"
    else if nat_beq n 7
    then "7"
    else if nat_beq n 8
    then "8"
    else "9"

digits_text : List ℕ → String
digits_text [] = ""
digits_text (d ∷ ds) = digit d <> digits_text ds

-- `n.toString()`
unfoldable pub show_nat : ℕ → String
unfolding digits_onto digit digits_text
show_nat n = digits_text (digits_onto (suc n) n [])
