-- ===== src/Cli/Shell.antt =====
-- `execAsync` and `isEmptyString` of cli/src/utils.js, and the operations on texts that the tool
-- applies to the output of commands
use habs.Base.{
  ℕ, suc, String, Bool, ◌&&◌, ◌||◌, Option, none, some, leb, nat_beq, if◌then◌else◌, ◌<>◌, is_space,
  is_digit, Result, ok, err, Exec, pure, throw,
}
use Prim.Native.Char.{code}

-- What the callback of `child_process.exec` is told.
pub record Output : Type 0 where
  pub error : Bool
  pub stdout : String
  pub stderr : String

-- What the tool calls: the shell, the two tests of addresses (net.isIP, is-valid-domain), and the
-- change to lower case, which stands on the tables of Unicode.
pub record Tools (W : Type 0) : Type 0 where
  pub exec : String → W → Output × W
  pub is_ip : String → Bool
  pub is_valid_domain : String → Bool
  pub to_lower_case : String → String

abbrev outcome : Output → Result String
outcome out = if out.error then err (out.stdout <> out.stderr) else ok (out.stdout <> out.stderr)

-- Exec a command asynchronously
unfoldable pub exec_async : {W : Type 0} → Tools W → String → Exec W String
exec_async tools cmd w = let (out, w') = tools.exec cmd w in (outcome out, w')

-- `if (!str || str.length === 0) throw Error(msg)`
abbrev pub check_text : {S : Type 0} → Option String → String → Exec S (Unit {0})
check_text none message = throw message
check_text (some String.[]) message = throw message
check_text (some (String.◌∷◌ c s)) message = pure tt

-- `s.length`, for a text of the basic plane
abbrev pub size : String → ℕ
size String.[] = 0
size (String.◌∷◌ c s) = suc (size s)

-- The class `[A-Za-z0-9+=/]`
abbrev pub is_key_char : ℕ → Bool
is_key_char c =
    (leb 65 c && leb c 90)
    || (leb 97 c && leb c 122)
    || is_digit c
    || nat_beq c 43
    || nat_beq c 61
    || nat_beq c 47

-- `match(/[A-Za-z0-9+=/]*/)`: the longest prefix of such characters
unfoldable pub key_prefix : String → String
key_prefix String.[] = ""
key_prefix (String.◌∷◌ c s) =
    let rest = key_prefix s in if is_key_char (code c) then String.◌∷◌ c rest else ""

-- The rest of a line: `.` matches no line terminator.
abbrev pub ends_line : ℕ → Bool
ends_line c = nat_beq c 10 || nat_beq c 13 || nat_beq c 8232 || nat_beq c 8233

unfoldable pub line_rest : String → String
line_rest String.[] = ""
line_rest (String.◌∷◌ c s) =
    let rest = line_rest s in if ends_line (code c) then "" else String.◌∷◌ c rest

-- What stands before the last backtick.
unfoldable pub before_last_tick : String → Option String
before_last_tick String.[] = none
before_last_tick (String.◌∷◌ c s) = elim (before_last_tick s) [
  | some t ↦ some (String.◌∷◌ c t)
  | none ↦ if nat_beq (code c) 96 then some "" else none
]

unfoldable pub remove_ticks : String → String
remove_ticks String.[] = ""
remove_ticks (String.◌∷◌ c s) =
    let rest = remove_ticks s in if nat_beq (code c) 96 then rest else String.◌∷◌ c rest

abbrev or_later {ℓ} : {A : Type ℓ} → Option A → Option A → Option A
or_later (some a) later = some a
or_later none later = later

-- A match of /`.*`/ that begins at the head of the text.
ticked_here : String → Option String
ticked_here String.[] = none
ticked_here (String.◌∷◌ c s) = if nat_beq (code c) 96 then before_last_tick (line_rest s) else none

-- `match(/`.*`/)`, without its backticks; none for null
unfoldable pub ticked : String → Option String
unfolding ticked_here
ticked String.[] = none
ticked (String.◌∷◌ c s) = let later = ticked s in or_later (ticked_here (String.◌∷◌ c s)) later

-- What follows the text `p` at the head of `s`.
unfoldable pub after_prefix : String → String → Option String
after_prefix String.[] s = some s
after_prefix (String.◌∷◌ c p) String.[] = none
after_prefix (String.◌∷◌ c p) (String.◌∷◌ d s) =
    let rest = after_prefix p s in if nat_beq (code c) (code d) then rest else none

-- `match(/SS58 Address:.*/)`: the match, from the first place on
unfoldable pub address_line : String → Option String
address_line String.[] = none
address_line (String.◌∷◌ c s) =
    let later = address_line s in
    elim (after_prefix "SS58 Address:" (String.◌∷◌ c s)) [
      | some rest ↦ some ("SS58 Address:" <> line_rest rest)
      | none ↦ later
    ]

-- `replace(/\s/g, t)`
unfoldable pub replace_space : String → String → String
replace_space t String.[] = ""
replace_space t (String.◌∷◌ c s) =
    let rest = replace_space t s in if is_space (code c) then t <> rest else String.◌∷◌ c rest

-- `replace(/SS58 Address: {5}/, '')`: the first place where the label stands
unfoldable pub remove_label : String → String
remove_label String.[] = ""
remove_label (String.◌∷◌ c s) =
    let later = remove_label s in
    elim (after_prefix "SS58 Address:     " (String.◌∷◌ c s)) [
      | some rest ↦ rest
      | none ↦ String.◌∷◌ c later
    ]

-- What is left of a line without the label and without white space.
unfoldable pub address_of_line : String → String
address_of_line line = replace_space "" (remove_label line)
