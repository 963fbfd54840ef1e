-- ===== src/SeedCommand/Flags/Rendered.antt =====
-- The arguments that set flags, and what the parser makes of them.
use devops_demo.Base.{
  String, ◌≡◌, refl, ◌∙◌, ap, Bool, Bool-cases, inl, inr, fun_ext, Option, none, some, List, [],
  ◌∷◌, ℤ, arith, if◌then◌else◌,
}
use mathlib.Core.Option
use devops_demo.Base.FlagToken.{
  flag, token_of, assigned, bare, token_of-assignment, token_of-name, days-IsName, seed-IsName,
  profile-IsName,
}
use devops_demo.SeedCommand.Flags.{
  Flags, with_days, with_seed, set_flag, unless_invalid, parse_last, parse_one, parse_flags,
}

pub data Name : Type 0 where
  days_flag seed_flag profile_flag : Name

-- A flag with the text of its value: -name=value, or in two arguments, with one dash or two.
pub record Setting : Type 0 where
  pub name : Name
  pub text : String
  pub joined : Bool
  pub long : Bool

abbrev pub name_text : Name → String
name_text days_flag = "days"
name_text seed_flag = "seed"
name_text profile_flag = "profile"

abbrev pub render : Setting → List String → List String
render s rest =
    if s.joined
    then assigned s.long (name_text s.name) s.text ∷ rest
    else bare s.long (name_text s.name) ∷ s.text ∷ rest

abbrev pub render_all : List Setting → List String
render_all [] = []
render_all (s ∷ settings) = render s (render_all settings)

token_of-assigned :
    (long : Bool) (n : Name) (value : String)
    → token_of (assigned long (name_text n) value) ≡ flag (name_text n) (some value)
token_of-assigned long days_flag value =
    token_of-assignment "-" "=" long _ _ value refl refl days-IsName
token_of-assigned long seed_flag value =
    token_of-assignment "-" "=" long _ _ value refl refl seed-IsName
token_of-assigned long profile_flag value =
    token_of-assignment "-" "=" long _ _ value refl refl profile-IsName

token_of-bare :
    (long : Bool) (n : Name) → token_of (bare long (name_text n)) ≡ flag (name_text n) none
token_of-bare long days_flag = token_of-name "-" long _ _ refl days-IsName
token_of-bare long seed_flag = token_of-name "-" long _ _ refl seed-IsName
token_of-bare long profile_flag = token_of-name "-" long _ _ refl profile-IsName

module _ (parse_number : String → Option ℤ) where
  -- What the documented flags mean: --days and --seed take a number, --profile any text.
  abbrev pub put : Name → String → Flags → Option Flags
  put days_flag text f = Option.map (λ n. record f { days = n }) (parse_number text)
  put seed_flag text f = Option.map (λ n. record f { seed_value = n }) (parse_number text)
  put profile_flag text f = some (record f { profile_path = text })

  set_flag-put :
      (n : Name) (text : String) (f : Flags)
      → set_flag parse_number (name_text n) text f ≡ put n text f
  unfolding set_flag with_days with_seed
  set_flag-put days_flag text f = ground arith
  set_flag-put seed_flag text f = ground arith
  set_flag-put profile_flag text f = refl

  abbrev pub put_rest : (Flags → Option Flags) → Option Flags → Option Flags
  put_rest next none = none
  put_rest next (some f) = next f

  unless_invalid-put_rest :
      (next : Flags → Option Flags) (o : Option Flags)
      → unless_invalid parse_number next o ≡ put_rest next o
  unfolding unless_invalid
  unless_invalid-put_rest next none = refl
  unless_invalid-put_rest next (some f) = refl

  -- The settings one after the other.
  unfoldable pub set_all : List Setting → Flags → Option Flags
  set_all [] f = some f
  set_all (s ∷ settings) f = put_rest (set_all settings) (put s.name s.text f)

  unless_invalid-some : (o : Option Flags) → unless_invalid parse_number (λ f. some f) o ≡ o
  unfolding unless_invalid
  unless_invalid-some none = refl
  unless_invalid-some (some f) = refl

  parse_flags-joined :
      (arg : String) (n : Name) (value : String) (rest : List String) (f : Flags)
      → token_of arg ≡ flag (name_text n) (some value)
      → parse_flags parse_number (arg ∷ rest) f
        ≡ unless_invalid parse_number
            (parse_flags parse_number rest)
            (set_flag parse_number (name_text n) value f)
  unfolding parse_flags parse_last parse_one
  parse_flags-joined arg n value [] f h = rw (h, unless_invalid-some) refl
  parse_flags-joined arg n value (next ∷ rest) f h = rw h refl

  parse_flags-bare :
      (arg : String) (n : Name) (value : String) (rest : List String) (f : Flags)
      → token_of arg ≡ flag (name_text n) none
      → parse_flags parse_number (arg ∷ value ∷ rest) f
        ≡ unless_invalid parse_number
            (parse_flags parse_number rest)
            (set_flag parse_number (name_text n) value f)
  unfolding parse_flags parse_one
  parse_flags-bare arg n value rest f h = rw h refl

  -- Reading the arguments that are written for any list of settings of --days, --seed and
  -- --profile, each as -name=value or as two arguments, with one dash or two, puts the value of each
  -- into its own field, from left to right, and stops with an error at the first text for a number
  -- that is none.
  pub parse_flags-set_all :
      (settings : List Setting) (f : Flags)
      → parse_flags parse_number (render_all settings) f ≡ set_all settings f
  unfolding set_all
  parse_flags-set_all [] f = unfold parse_flags in refl
  parse_flags-set_all (s ∷ settings) f =
      let set = set_flag parse_number (name_text s.name) s.text f in
      let same =
        ap (λ k. unless_invalid parse_number k set) (fun_ext (λ g. parse_flags-set_all settings g))
        ∙ unless_invalid-put_rest (set_all settings) set
        ∙ ap (put_rest (set_all settings)) (set_flag-put s.name s.text f) in
      elim (Bool-cases s.joined) [
        | inl joined ↦
            rw joined (
              parse_flags-joined _ s.name s.text _ f (token_of-assigned s.long s.name s.text)
              ∙ same)
        | inr apart ↦
            rw apart (parse_flags-bare _ s.name s.text _ f (token_of-bare s.long s.name) ∙ same)
      ]
