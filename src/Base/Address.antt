-- ===== src/Base/Address.antt =====
-- The port that net.SplitHostPort finds in an address: what follows the last ':', after a host in
-- brackets or a host without colons. No bracket may stand elsewhere.
use Prim.Native.Nat.{ℕ}
use Prim.Native.Char.{Char, code}
use Prim.Native.String.{String, [], ◌∷◌, ◌++◌}
use Prim.Native.String.append
use mathlib.Core.Path.{◌≡◌, refl}
use mathlib.Core.Bool.{Bool, true, false, not, ◌&&◌, ◌||◌}
use mathlib.Core.Option.{Option, none, some}
use native.Mathlib.Omega.{arith}
use devops_demo.Base.Tests.{nat_eq, if◌then◌else◌}

-- Whether a character with this code is in the text.
unfoldable pub has_char : ℕ → String → Bool
has_char c [] = false
has_char c (ch ∷ rest) = nat_eq (code ch) c || has_char c rest

unfoldable pub extend_split :
    ℕ → Char → String → Option (String × String) → Option (String × String)
extend_split c ch rest (some (before, after)) = some (ch ∷ before, after)
extend_split c ch rest none = if nat_eq (code ch) c then some ([], rest) else none

-- What stands before and after the last character with this code.
unfoldable pub split_last : ℕ → String → Option (String × String)
unfolding extend_split
split_last c [] = none
split_last c (ch ∷ rest) = extend_split c ch rest (split_last c rest)

unfoldable pub is_empty : String → Bool
is_empty [] = true
is_empty (ch ∷ rest) = false

-- After the '[': the first ']' is the end, and no other '[' comes before.
unfoldable pub closes_bracket : String → Bool
unfolding is_empty
closes_bracket [] = false
closes_bracket (ch ∷ rest) =
    let later = closes_bracket rest in
    if nat_eq (code ch) 93 then is_empty rest else not (nat_eq (code ch) 91) && later

unfoldable pub has_bracket : String → Bool
unfolding has_char
has_bracket s = has_char 91 s || has_char 93 s

unfoldable pub is_host : String → Bool
unfolding has_bracket closes_bracket
is_host [] = true
is_host (ch ∷ rest) =
    if nat_eq (code ch) 91
    then closes_bracket rest
    else not (has_char 58 (ch ∷ rest) || has_bracket (ch ∷ rest))

unfoldable pub checked_port : Option (String × String) → Option String
unfolding is_host
checked_port none = none
checked_port (some (host, port)) =
    if is_host host && not (has_bracket port) then some port else none

unfoldable pub split_host_port : String → Option String
unfolding split_last checked_port
split_host_port address = checked_port (split_last 58 address)

-- Neither a colon nor a bracket.
abbrev pub is_plain : String → Bool
is_plain s = not (has_char 58 s || has_bracket s)

split_last-absent : (s : String) → has_char 58 s ≡ false → split_last 58 s ≡ none
unfolding split_last has_char
split_last-absent [] h = refl
split_last-absent (ch ∷ rest) h = ground (arith, split_last-absent rest)

split_last-append :
    (host port : String)
    → has_char 58 port ≡ false
    → split_last 58 (host ++ (":" ++ port)) ≡ some (host, port)
unfolding split_last
split_last-append [] port h =
    rw (append.nil (":" ++ port), append.cons ":" [] port, append.nil port)
      (ground (arith, split_last-absent port))
split_last-append (ch ∷ rest) port h =
    rw (append.cons ch rest (":" ++ port)) (ground (arith, split_last-append rest port))

is_host-plain : (host : String) → is_plain host ≡ true → is_host host ≡ true
unfolding is_host has_char has_bracket
is_host-plain [] h = refl
is_host-plain (ch ∷ rest) h = ground arith

-- The port of a plain host and port joined by a colon.
pub split_host_port-plain :
    (host port : String)
    → is_plain host ≡ true
    → is_plain port ≡ true
    → split_host_port (host ++ (":" ++ port)) ≡ some port
unfolding split_host_port checked_port
split_host_port-plain host port h k =
    ground (arith, split_last-append host port, is_host-plain host)

pub split_host_port-empty : split_host_port "" ≡ none
unfolding split_host_port split_last checked_port
split_host_port-empty = refl

-- The default of the service.
pub split_host_port-default : split_host_port ":8082" ≡ some "8082"
unfolding split_host_port split_last extend_split checked_port is_host has_bracket has_char
split_host_port-default = refl
