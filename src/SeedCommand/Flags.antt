-- ===== src/SeedCommand/Flags.antt =====
-- The flags of `analytics seed` (cmd/analytics/seed.go), as FlagSet.Parse of the flag package reads
-- them. `parse_number` is strconv.ParseInt with base 0, which takes 0x2a too.
pub mod Rendered
use devops_demo.Base.{ℕ, String, Option, none, some, List, [], ◌∷◌, ℤ, pos, text_eq, if◌then◌else◌}
use devops_demo.Base.FlagToken.{Token, positional, terminator, bad, flag, token_of}

pub record Flags : Type 0 where
  pub days : ℤ
  pub seed_value : ℤ
  pub profile_path : String

-- The defaults; that of -profile comes from the environment.
abbrev pub default_flags : String → Flags
default_flags path = record { days = pos 90; seed_value = pos 42; profile_path = path }

module _ (parse_number : String → Option ℤ) where
  unfoldable pub with_days : Option ℤ → Flags → Option Flags
  with_days none f = none
  with_days (some n) f = some (record f { days = n })

  unfoldable pub with_seed : Option ℤ → Flags → Option Flags
  with_seed none f = none
  with_seed (some n) f = some (record f { seed_value = n })

  -- The lookup of the name and Value.Set; -help and -h are errors too.
  unfoldable pub set_flag : String → String → Flags → Option Flags
  unfolding with_days with_seed
  set_flag name value f =
      if text_eq name "days"
      then with_days (parse_number value) f
      else if text_eq name "seed"
      then with_seed (parse_number value) f
      else if text_eq name "profile"
      then some (record f { profile_path = value })
      else none

  unfoldable pub unless_invalid : (Flags → Option Flags) → Option Flags → Option Flags
  unless_invalid next none = none
  unless_invalid next (some f) = next f

  -- The last argument: a flag without a value needs another.
  unfoldable pub parse_last : Token → Flags → Option Flags
  unfolding set_flag
  parse_last positional f = some f
  parse_last terminator f = some f
  parse_last bad f = none
  parse_last (flag name none) f = none
  parse_last (flag name (some value)) f = set_flag name value f

  -- An argument before `next`; `after` parses from there, and `skip` from behind it.
  unfoldable pub parse_one :
      Token → String → (Flags → Option Flags) → (Flags → Option Flags) → Flags → Option Flags
  unfolding set_flag unless_invalid
  parse_one positional next after skip f = some f
  parse_one terminator next after skip f = some f
  parse_one bad next after skip f = none
  parse_one (flag name none) next after skip f = unless_invalid skip (set_flag name next f)
  parse_one (flag name (some value)) next after skip f =
      unless_invalid after (set_flag name value f)

  -- fs.Parse: `none` for an error.
  unfoldable pub parse_flags : List String → Flags → Option Flags
  unfolding parse_last parse_one token_of
  parse_flags [] f = some f
  parse_flags (arg ∷ []) f = parse_last (token_of arg) f
  parse_flags (arg ∷ next ∷ args) f =
      parse_one (token_of arg) next (parse_flags (next ∷ args)) (parse_flags args) f
