-- ===== src/Base/Numbers.antt =====
-- JavaScript numbers as far as the program computes with them: integers, and the NaN that
-- `parseInt` gives. Block numbers and counters are u32 on the chain, far below 2 ^ 53.
use Prim.Native.Nat.{ℕ, zero, suc, ◌+◌, ◌-◌, ◌*◌}
use Prim.Native.Char.{code}
use Prim.Native.String.{String}
use mathlib.Core.Bool.{Bool, false, ◌&&◌, ◌||◌}
use mathlib.Core.Option.{Option, none, some}
use habs.Base.Booleans.{leb, ltb, nat_beq, if◌then◌else◌}
use habs.Base.Text.{◌<>◌, show_nat}

-- `negsuc n` is -(n + 1).
pub data ℤ : Type 0 where
  pos : ℕ → ℤ
  negsuc : ℕ → ℤ

abbrev pub pos_part : ℤ → ℕ
pos_part (pos n) = n
pos_part (negsuc n) = 0

abbrev pub neg_part : ℤ → ℕ
neg_part (pos n) = 0
neg_part (negsuc n) = suc n

abbrev sub_ℕ : ℕ → ℕ → ℤ
sub_ℕ a b = if leb b a then pos (a - b) else negsuc (b - a - 1)

pub data Number : Type 0 where
  nan : Number
  int : ℤ → Number

abbrev pub num : ℕ → Number
num n = int (pos n)

-- `a - b`
unfoldable pub minus : Number → Number → Number
minus (int a) (int b) = int (sub_ℕ (pos_part a + neg_part b) (neg_part a + pos_part b))
minus _ _ = nan

-- `a < b`: with a NaN every comparison is false
abbrev pub less : Number → Number → Bool
less (int a) (int b) = ltb (pos_part a + neg_part b) (pos_part b + neg_part a)
less _ _ = false

-- `a >= b`
abbrev pub at_least : Number → Number → Bool
at_least (int a) (int b) = leb (pos_part b + neg_part a) (pos_part a + neg_part b)
at_least _ _ = false

-- `a === b`, which a NaN is not even to itself
abbrev pub same : Number → Number → Bool
same (int a) (int b) = nat_beq (pos_part a + neg_part b) (pos_part b + neg_part a)
same _ _ = false

-- `a.toString()`
unfoldable pub show : Number → String
show nan = "NaN"
show (int (pos n)) = show_nat n
show (int (negsuc n)) = "-" <> show_nat (suc n)

abbrev pub is_digit : ℕ → Bool
is_digit c = leb 48 c && leb c 57

-- The value of a hexadecimal digit.
hex_value : ℕ → Option ℕ
hex_value c =
    if is_digit c
    then some (c - 48)
    else if leb 97 c && leb c 102
    then some (c - 87)
    else if leb 65 c && leb c 70
    then some (c - 55)
    else none

abbrev seen : Option ℕ → ℕ
seen none = 0
seen (some n) = n

-- The longest prefix of digits; `none` where there is no digit.
decimal : Option ℕ → String → Option ℕ
decimal acc String.[] = acc
decimal acc (String.◌∷◌ c s) =
    let more = decimal (some (seen acc * 10 + (code c - 48))) s in
    if is_digit (code c) then more else acc

hexadecimal : Option ℕ → String → Option ℕ
hexadecimal acc String.[] = acc
hexadecimal acc (String.◌∷◌ c s) = elim (hex_value (code c)) [
  | none ↦ acc
  | some d ↦ hexadecimal (some (seen acc * 16 + d)) s
]

-- After the sign: `0x` and `0X` begin a hexadecimal number.
unsigned : String → Option ℕ
unsigned (String.◌∷◌ z (String.◌∷◌ x s)) =
    if nat_beq (code z) 48 && (nat_beq (code x) 120 || nat_beq (code x) 88)
    then hexadecimal none s
    else decimal none (String.◌∷◌ z (String.◌∷◌ x s))
unsigned s = decimal none s

abbrev positive : Option ℕ → Number
positive none = nan
positive (some n) = int (pos n)

-- The program never tells -0 from 0.
abbrev negative : Option ℕ → Number
negative none = nan
negative (some zero) = int (pos 0)
negative (some (suc n)) = int (negsuc n)

unfoldable pub is_space : ℕ → Bool
is_space c =
    (leb 9 c && leb c 13)
    || nat_beq c 32
    || nat_beq c 160
    || nat_beq c 0x1680
    || (leb 0x2000 c && leb c 0x200a)
    || (leb 0x2028 c && leb c 0x2029)
    || nat_beq c 0x202f
    || nat_beq c 0x205f
    || nat_beq c 0x3000
    || nat_beq c 0xfeff

-- `parseInt(s)`
unfoldable pub parse_int : String → Number
unfolding unsigned decimal hexadecimal hex_value is_space
parse_int String.[] = nan
parse_int (String.◌∷◌ c s) =
    let rest = parse_int s in
    if is_space (code c)
    then rest
    else if nat_beq (code c) 45
    then negative (unsigned s)
    else if nat_beq (code c) 43
    then positive (unsigned s)
    else positive (unsigned (String.◌∷◌ c s))
