-- ===== src/Preauthorization.antt =====
-- agent/agent_core/agent_loop.py: the decision whether an unattended run may call a tool, that is
-- AgentCore._isPreAuthorizedToolCall and the functions that it uses. Regular expressions and text
-- methods are the parameter `Texts`.
pub mod Checks
pub mod Decision
mod Paths
mod Static
mod Tests
use nereus_door_loong_magic.Common.{
  ℕ, zero, suc, String, Bool, true, false, not, ◌&&◌, ◌||◌, Option, none, some, List, [], ◌∷◌, ◌++◌,
  any, all, map, keep, contains, join, if◌then◌else◌, ◌==◌, starts_with, text_append,
}
use nereus_door_loong_magic.Common.Json.{
  Json, null, bool, number, text, array, object, Items, nil, cons, Fields, end, field,
}
use nereus_door_loong_magic.Safety.{occurs_in}

pub record Texts : Type 0 where
  -- re.findall of the path pattern
  pub find_paths : String → List String
  -- re.search(r"[;&|`$()\n]", text) is not None
  pub has_control : String → Bool
  -- text.rstrip(".,)"), text.rstrip("/") and text.strip()
  pub rstrip_punctuation : String → String
  pub rstrip_slash : String → String
  pub strip : String → String
  -- text[:120]
  pub clip : String → String
  -- str(value) of a list, a dict or None
  pub repr : Json → String
  -- the number is zero
  pub is_zero : String → Bool

-- The keys of _scheduledApprovalPolicy that are read; `allowed_commands` is absent or a list.
pub record ApprovalPolicy : Type 0 where
  pub allowed_tools : List String
  pub allowed_privileged_commands : List String
  pub allowed_commands : Option (List String)
  pub denied_paths : List String
  pub allowed_paths : List String

-- A fragment of listApprovedGrants; an absent command line is the empty text.
pub record Grant : Type 0 where
  pub tool_name : String
  pub paths : List String
  pub command_line : String

-- args.get(key); an absent key gives None
unfoldable pub get : String → Fields → Json
get key end = null
get key (field k v fs) = if key == k then v else get key fs

abbrev pub str_of : Texts → Json → String
str_of x (text t) = t
str_of x (number t) = t
str_of x (bool true) = "True"
str_of x (bool false) = "False"
str_of x v = x.repr v

abbrev pub is_truthy : Texts → Json → Bool
is_truthy x null = false
is_truthy x (bool b) = b
is_truthy x (number t) = not (x.is_zero t)
is_truthy x (text t) = not (t == "")
is_truthy x (array nil) = false
is_truthy x (array (cons v vs)) = true
is_truthy x (object end) = false
is_truthy x (object (field k v fs)) = true

-- _flattenArgumentValues: the values only, not the keys.
unfoldable mutual
  pub flatten_argument_values : Json → List String
  flatten_argument_values null = []
  flatten_argument_values (bool true) = "True" ∷ []
  flatten_argument_values (bool false) = "False" ∷ []
  flatten_argument_values (number t) = t ∷ []
  flatten_argument_values (text t) = t ∷ []
  flatten_argument_values (array xs) = flatten_argument_items xs
  flatten_argument_values (object fs) = flatten_argument_fields fs

  pub flatten_argument_items : Items → List String
  flatten_argument_items nil = []
  flatten_argument_items (cons x xs) = flatten_argument_values x ++ flatten_argument_items xs

  pub flatten_argument_fields : Fields → List String
  flatten_argument_fields end = []
  flatten_argument_fields (field k v fs) = flatten_argument_values v ++ flatten_argument_fields fs

-- The inner loop of _extractPathLikeValues, over the matches of one value.
unfoldable pub add_matches : Texts → List String → List String → List String
add_matches x paths [] = paths
add_matches x paths (m ∷ matches) =
    let cleaned = x.rstrip_punctuation m in
    let paths' =
      if not (cleaned == "") && not (contains cleaned paths)
      then paths ++ (cleaned ∷ [])
      else paths in
    add_matches x paths' matches

unfoldable pub add_values : Texts → List String → List String → List String
unfolding add_matches
add_values x paths [] = paths
add_values x paths (v ∷ values) = add_values x (add_matches x paths (x.find_paths v)) values

-- _extractPathLikeValues
unfoldable pub extract_path_like_values : Texts → List String → List String
unfolding add_values
extract_path_like_values x values = add_values x [] values

-- _pathWithin
unfoldable pub path_within : Texts → String → String → Bool
path_within x path base =
    if base == ""
    then false
    else (x.rstrip_slash path == x.rstrip_slash base
        || starts_with (x.rstrip_slash path) (text_append (x.rstrip_slash base) "/"))

-- [str(part) for part in items] of a command that is a list
abbrev pub parts_of : Texts → Items → List String
parts_of x nil = []
parts_of x (cons v vs) = str_of x v ∷ parts_of x vs

-- The command of one item of args["commands"], where it has one.
abbrev pub command_of_item : Texts → Json → Option String
command_of_item x (object fs) = elim (get "command" fs) [
  | array parts ↦ if join (parts_of x parts) == "" then none else some (join (parts_of x parts))
  | v ↦ if is_truthy x v then some (str_of x v) else none
]
command_of_item x v = none

unfoldable pub commands_of_items : Texts → Items → List String
unfolding get
commands_of_items x nil = []
commands_of_items x (cons v vs) = elim (command_of_item x v) [
  | none ↦ commands_of_items x vs
  | some c ↦ c ∷ commands_of_items x vs
]

-- _extractPrivilegedCommands
unfoldable pub extract_privileged_commands : Texts → Fields → List String
unfolding commands_of_items
extract_privileged_commands x args =
    if is_truthy x (get "inline_cmd" args)
    then "exec_arbitrary_cmd" ∷ []
    else if is_truthy x (get "script_path" args)
    then "exec_arbitrary_script" ∷ []
    else elim (get "commands" args) [ array items ↦ commands_of_items x items | v ↦ [] ]

-- _extractCommandLine
unfoldable pub extract_command_line : Texts → Fields → String
unfolding get
extract_command_line x args = elim (get "command" args) [
  | array parts ↦ join (keep (λ p. not (p == "")) (parts_of x parts))
  | text t ↦ x.strip t
  | v ↦ ""
]

-- cmd == ac or cmd.startswith(ac + " ")
abbrev pub command_matches : String → String → Bool
command_matches cmd ac = cmd == ac || starts_with cmd (text_append ac " ")

abbrev pub is_command_tool : String → Bool
is_command_tool name = name == "runCommand" || name == "runShellCommand"

abbrev pub paths_of : Texts → Fields → List String
paths_of x args = extract_path_like_values x (flatten_argument_values (object args))

abbrev pub non_empty : List String → List String
non_empty = keep (λ p. not (p == ""))

abbrev pub is_nil : List String → Bool
is_nil [] = true
is_nil (p ∷ ps) = false
