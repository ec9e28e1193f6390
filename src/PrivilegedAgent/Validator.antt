-- ===== src/PrivilegedAgent/Validator.antt =====
-- privileged_agent/validator.py: CommandRule.validate and CommandRegistry.lookup.
-- Regular expressions, case folding, trimming and the file system are the parameter `Host`.
use nereus_door_loong_magic.Common.{
  ℕ, String, Bool, true, false, not, ◌&&◌, ◌||◌, Option, none, some, List, [], ◌∷◌, ltb,
  if◌then◌else◌, ◌==◌, any, contains, join, starts_with,
}
use nereus_door_loong_magic.Common.Dict.{Dict}

pub record Host : Type 0 where
  -- re.match(pattern, text) is not None
  pub re_match : String → String → Bool
  -- text.upper() and text.strip()
  pub upper : String → String
  pub strip : String → String
  -- len(text) > 1
  pub is_longer_than_one : String → Bool
  -- the parts of Path(text).resolve(); `none` is an OSError or a RuntimeError
  pub resolve : String → Option (List String)
  -- path.stat().st_size of a regular file, `none` where there is none
  pub file_size : String → Option ℕ

-- raw["allowed_args"]: each key may be missing
pub record AllowedArgs : Type 0 where
  pub actions : Option (List String)
  pub services : Option (List String)
  pub subcommands : Option (List String)
  pub flags : Option (List String)
  pub mode_regex : Option String

pub record PathValidation : Type 0 where
  pub allowed_parents : List String
  pub max_size : ℕ

-- class CommandRule
pub record Rule : Type 0 where
  pub name : String
  pub risk : String
  pub command_line : Option String
  pub path_validation : Option PathValidation
  pub allowed_args : Option AllowedArgs
  pub allowed_sql_prefixes : List String

-- `invalid` is ArgumentValidationError, `path_not_allowed` is PathNotAllowedError, and `crashed` is
-- an exception of another kind, which validate does not catch.
pub data Check : Type 0 where
  ok invalid crashed : Check
  path_not_allowed : (path : String) → Check

infixl 10 ◌then_check◌
abbrev pub ◌then_check◌ : Check → Check → Check
ok then_check next = next
invalid then_check next = invalid
crashed then_check next = crashed
(path_not_allowed p) then_check next = path_not_allowed p

abbrev pub require : Bool → Check
require true = ok
require false = invalid

-- `if key in aa and args: args[0] in aa[key]`
abbrev pub first_in : Option (List String) → List String → Check
first_in none args = ok
first_in (some names) [] = ok
first_in (some names) (a ∷ args) = require (contains a names)

-- `if "services" in aa and len(args) > 1: args[1] in aa["services"]`
abbrev pub second_in : Option (List String) → List String → Check
second_in none args = ok
second_in (some names) [] = ok
second_in (some names) (a ∷ []) = ok
second_in (some names) (a ∷ b ∷ args) = require (contains b names)

-- arg.startswith("--") or arg.startswith("-") and len(arg) > 1
abbrev pub is_flag : Host → String → Bool
is_flag h arg = starts_with arg "--" || (starts_with arg "-" && h.is_longer_than_one arg)

unfoldable pub check_flags : Host → List String → List String → Check
check_flags h flags [] = ok
check_flags h flags (arg ∷ args) =
    (if is_flag h arg then require (contains arg flags) else ok) then_check check_flags h flags args

unfoldable pub check_modes : Host → String → List String → Check
check_modes h regex [] = ok
check_modes h regex (arg ∷ args) =
    (if h.re_match "^0[0-7]{3}$" arg || starts_with arg "/"
      then ok
      else require (h.re_match regex arg))
    then_check check_modes h regex args

-- _validate_allowed_args
unfoldable pub validate_allowed_args : Host → AllowedArgs → List String → Check
unfolding check_flags check_modes
validate_allowed_args h aa args =
    first_in aa.actions args
    then_check second_in aa.services args
    then_check first_in aa.subcommands args
    then_check (elim aa.flags [ none ↦ ok | some flags ↦ check_flags h flags args ])
    then_check (elim aa.mode_regex [ none ↦ ok | some regex ↦ check_modes h regex args ])

-- resolved.relative_to(parent) does not raise
unfoldable pub is_under : List String → List String → Bool
is_under [] path = true
is_under (p ∷ parent) [] = false
is_under (p ∷ parent) (q ∷ path) = p == q && is_under parent path

-- [Path(p).resolve() for p in allowed]; an exception here is not caught
unfoldable pub resolve_all : Host → List String → Option (List (List String))
resolve_all h [] = some []
resolve_all h (p ∷ ps) = elim (h.resolve p) [
  | none ↦ none
  | some parts ↦ elim (resolve_all h ps) [ none ↦ none | some rest ↦ some (parts ∷ rest) ]
]

-- `max_size > 0 and path.exists() and path.is_file() and path.stat().st_size > max_size`
abbrev pub is_too_large : Host → ℕ → String → Bool
is_too_large h max_size arg =
    ltb 0 max_size && (elim (h.file_size arg) [ none ↦ false | some size ↦ ltb max_size size ])

-- The body of the loop of _validate_paths.
unfoldable pub check_path : Host → List (List String) → ℕ → String → Check
unfolding is_under
check_path h parents max_size arg =
    if starts_with arg "-"
    then ok
    else if not (starts_with arg "/")
    then ok
    else elim (h.resolve arg) [
      | none ↦ path_not_allowed arg
      | some parts ↦
          if any (λ parent. is_under parent parts) parents
          then if is_too_large h max_size arg then invalid else ok
          else path_not_allowed arg
    ]

unfoldable pub check_paths : Host → List (List String) → ℕ → List String → Check
unfolding check_path
check_paths h parents max_size [] = ok
check_paths h parents max_size (arg ∷ args) =
    check_path h parents max_size arg then_check check_paths h parents max_size args

-- _validate_paths
unfoldable pub validate_paths : Host → PathValidation → List String → Check
unfolding resolve_all check_paths
validate_paths h pv args = elim (resolve_all h pv.allowed_parents) [
  | none ↦ crashed
  | some parents ↦ check_paths h parents pv.max_size args
]

-- _validate_sql_prefix
unfoldable pub validate_sql_prefix : Host → List String → List String → Check
validate_sql_prefix h prefixes args =
    require (any (λ p. starts_with (h.upper (h.strip (join args))) (h.upper p)) prefixes)

abbrev pub is_given : Option String → Bool
is_given none = false
is_given (some t) = not (t == "")

abbrev pub is_empty : List String → Bool
is_empty [] = true
is_empty (x ∷ xs) = false

-- CommandRule.validate
unfoldable pub validate : Host → Rule → List String → Check
unfolding validate_allowed_args validate_paths validate_sql_prefix
validate h rule args =
    if is_given rule.command_line
    then require (is_empty args)
    else (elim rule.allowed_args [ none ↦ ok | some aa ↦ validate_allowed_args h aa args ])
      then_check (elim rule.path_validation [ none ↦ ok | some pv ↦ validate_paths h pv args ])
      then_check (if is_empty rule.allowed_sql_prefixes || is_empty args
          then ok
          else validate_sql_prefix h rule.allowed_sql_prefixes args)

abbrev pub Registry : Type 0
Registry = Dict Rule
