-- ===== src/Base/FlagToken.antt =====
-- How the flag package reads one argument (FlagSet.parseOne): -name, -name=value, with one dash or
-- two, or something else.
use Prim.Native.Char.{Char, code}
use Prim.Native.String.{String, [], ◌∷◌}
use mathlib.Core.Path.{◌≡◌, refl}
use mathlib.Core.Bool.{Bool, true, false, ◌||◌}
use mathlib.Core.Option.{Option, none, some}
use native.Mathlib.Omega.{arith}
use devops_demo.Base.Tests.{nat_eq, if◌then◌else◌}
use devops_demo.Base.Address.{has_char}

-- `terminator` is "--", and `bad` a syntax error.
pub data Token : Type 0 where
  positional terminator bad : Token
  flag : String → Option String → Token

unfoldable pub prepend : Char → String × Option String → String × Option String
prepend ch (name, value) = (ch ∷ name, value)

-- The name and what follows the first '='.
unfoldable pub split_value : String → String × Option String
unfolding prepend
split_value [] = ([], none)
split_value (ch ∷ rest) =
    let later = split_value rest in
    if nat_eq (code ch) 61 then ([], some rest) else prepend ch later

unfoldable pub named : Char → String × Option String → Token
named ch (name, value) = flag (ch ∷ name) value

-- After the dashes. The first character of a name is neither '-' nor '='.
unfoldable pub flag_token : String → Token
unfolding split_value named
flag_token [] = bad
flag_token (ch ∷ rest) =
    if nat_eq (code ch) 45 || nat_eq (code ch) 61 then bad else named ch (split_value rest)

-- After two dashes.
unfoldable pub long_token : String → Token
unfolding flag_token
long_token [] = terminator
long_token (ch ∷ rest) = flag_token (ch ∷ rest)

-- After one dash.
unfoldable pub dash_token : String → Token
unfolding flag_token long_token
dash_token [] = positional
dash_token (ch ∷ rest) = if nat_eq (code ch) 45 then long_token rest else flag_token (ch ∷ rest)

unfoldable pub token_of : String → Token
unfolding dash_token
token_of [] = positional
token_of (ch ∷ rest) = if nat_eq (code ch) 45 then dash_token rest else positional

-- name, '=' and value; `eq` is the character '='.
abbrev pub assignment : Char → String → String → String
assignment eq [] value = eq ∷ value
assignment eq (ch ∷ name) value = ch ∷ assignment eq name value

pub split_value-assignment :
    (eq : Char) (name value : String)
    → code eq ≡ 61
    → has_char 61 name ≡ false
    → split_value (assignment eq name value) ≡ (name, some value)
unfolding split_value prepend has_char
split_value-assignment eq [] value e h = ground arith
split_value-assignment eq (ch ∷ name) value e h =
    ground (arith, split_value-assignment eq name value)

pub split_value-name : (name : String) → has_char 61 name ≡ false → split_value name ≡ (name, none)
unfolding split_value prepend has_char
split_value-name [] h = refl
split_value-name (ch ∷ name) h = ground (arith, split_value-name name)

-- One dash or two.
abbrev pub dashed : Char → Bool → String → String
dashed dash true s = dash ∷ dash ∷ s
dashed dash false s = dash ∷ s

-- A name that starts with neither '-' nor '=' and has no '='.
pub record IsName (ch : Char) (name : String) : Type 0 where
  no_dash : nat_eq (code ch) 45 ≡ false
  no_equals : nat_eq (code ch) 61 ≡ false
  plain : has_char 61 name ≡ false

pub token_of-assignment :
    (dash eq : Char) (long : Bool) (ch : Char) (name value : String)
    → code dash ≡ 45
    → code eq ≡ 61
    → IsName ch name
    → token_of (dashed dash long (assignment eq (ch ∷ name) value)) ≡ flag (ch ∷ name) (some value)
unfolding token_of dash_token long_token flag_token named
token_of-assignment dash eq true ch name value d e h =
    ground (arith, split_value-assignment eq name value e h.plain, h.no_dash, h.no_equals)
token_of-assignment dash eq false ch name value d e h =
    ground (arith, split_value-assignment eq name value e h.plain, h.no_dash, h.no_equals)

pub token_of-name :
    (dash : Char) (long : Bool) (ch : Char) (name : String)
    → code dash ≡ 45
    → IsName ch name
    → token_of (dashed dash long (ch ∷ name)) ≡ flag (ch ∷ name) none
unfolding token_of dash_token long_token flag_token named
token_of-name dash true ch name d h =
    ground (arith, split_value-name name h.plain, h.no_dash, h.no_equals)
token_of-name dash false ch name d h =
    ground (arith, split_value-name name h.plain, h.no_dash, h.no_equals)

-- The texts -name=value and -name.
abbrev pub assigned : Bool → String → String → String
assigned long name value = dashed "-" long (assignment "=" name value)

abbrev pub bare : Bool → String → String
bare long name = dashed "-" long name

pub days-IsName : IsName "d" "ays"
unfolding has_char
days-IsName = record { no_dash = refl; no_equals = refl; plain = refl }

pub seed-IsName : IsName "s" "eed"
unfolding has_char
seed-IsName = record { no_dash = refl; no_equals = refl; plain = refl }

pub profile-IsName : IsName "p" "rofile"
unfolding has_char
profile-IsName = record { no_dash = refl; no_equals = refl; plain = refl }
