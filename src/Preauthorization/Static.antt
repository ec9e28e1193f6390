-- ===== src/Preauthorization/Static.antt =====
-- What _checkStaticPreauthorization of agent/agent_core/agent_loop.py lets pass, stated without its
-- control flow.
use nereus_door_loong_magic.Common.{
  ◌≡◌, ◌↔◌, inl, inr, String, Bool, true, false, not, ◌&&◌, none, some, List, [], ◌∷◌, refl, arith,
  All, any, keep, contains, Bool-cases, Option-cases, ◌==◌,
}
use nereus_door_loong_magic.Common.Json.{Fields}
use nereus_door_loong_magic.Preauthorization.{
  Texts, ApprovalPolicy, path_within, extract_privileged_commands, extract_command_line,
  command_matches, is_command_tool, paths_of, non_empty, is_nil,
}
use nereus_door_loong_magic.Preauthorization.Checks.{
  check_privileged, check_commands, find_denied, check_denied, check_allowed, check_paths,
  check_static_preauthorization,
}

-- No path lies in a denied path.
abbrev pub Outside : Texts → List String → List String → Type 0
Outside x denied paths = All (λ path. All (λ d. path_within x path d ≡ false) denied) paths

-- Each path lies in an allowed path.
abbrev pub Inside : Texts → List String → List String → Type 0
Inside x allowed paths = All (λ path. any (path_within x path) allowed ≡ true) paths

find_denied-none :
    (x : Texts) (denied : List String) (path : String)
    → (find_denied x denied path ≡ none) ↔ All (λ d. path_within x path d ≡ false) denied
unfolding find_denied
find_denied-none x [] path = ((λ _. tt), (λ _. refl))
find_denied-none x (d ∷ denied) path =
    let rest = find_denied-none x denied path in
    elim (Bool-cases (path_within x path d)) [
      | inl y ↦ ((λ h. absurd (ground arith)), (λ l. absurd (ground (arith, l.0))))
      | inr n ↦ ((λ h. (n, rest.0 (ground arith))), (λ l. ground (arith, rest.1 l.1)))
    ]

check_denied-none :
    (x : Texts) (denied paths : List String)
    → (check_denied x denied paths ≡ none) ↔ Outside x denied paths
unfolding check_denied
check_denied-none x denied [] = ((λ _. tt), (λ _. refl))
check_denied-none x denied (path ∷ paths) =
    let rest = check_denied-none x denied paths in
    let first = find_denied-none x denied path in
    elim (Option-cases (find_denied x denied path)) [
      | inl misses ↦
          ((λ h. (first.0 misses, rest.0 (ground arith))), (λ l. ground (arith, rest.1 l.1)))
      | inr (reason, hit) ↦
          ((λ h. absurd (ground arith)), (λ l. absurd (ground (arith, first.1 l.0))))
    ]

check_allowed-none :
    (x : Texts) (allowed paths : List String)
    → (check_allowed x allowed paths ≡ none) ↔ Inside x allowed paths
unfolding check_allowed
check_allowed-none x allowed [] = ((λ _. tt), (λ _. refl))
check_allowed-none x allowed (path ∷ paths) =
    let rest = check_allowed-none x allowed paths in
    elim (Bool-cases (any (path_within x path) allowed)) [
      | inl y ↦ ((λ h. (y, rest.0 (ground arith))), (λ l. ground (arith, rest.1 l.1)))
      | inr n ↦ ((λ h. absurd (ground arith)), (λ l. absurd (ground (arith, l.0))))
    ]

keep-is_nil :
    (p : String → Bool) (xs : List String)
    → (is_nil (keep (λ c. not (p c)) xs) ≡ true) ↔ All (λ c. p c ≡ true) xs
keep-is_nil p [] = ((λ _. tt), (λ _. refl))
keep-is_nil p (c ∷ xs) =
    let rest = keep-is_nil p xs in
    elim (Bool-cases (p c)) [
      | inl y ↦ ((λ h. (y, rest.0 (ground arith))), (λ l. ground (arith, rest.1 l.1)))
      | inr n ↦ ((λ h. absurd (ground arith)), (λ l. absurd (ground (arith, l.0))))
    ]

-- submitElevation names privileged commands, and only those of the policy, where it lists some.
abbrev pub PrivilegedListed : Texts → ApprovalPolicy → String → Fields → Type 0
PrivilegedListed x p name args =
    (not (is_nil p.allowed_privileged_commands) && name == "submitElevation") ≡ true
    → (is_nil (extract_privileged_commands x args) ≡ false)
      × All (λ c. contains c p.allowed_privileged_commands ≡ true)
          (extract_privileged_commands x args)

-- A command tool runs a command of the white list, where the policy has one, and a shell command
-- has no control characters.
abbrev pub CommandListed : Texts → ApprovalPolicy → String → Fields → Type 0
CommandListed x p name args =
    (allowed : List String)
    → p.allowed_commands ≡ some allowed
    → is_command_tool name ≡ true
    → ((extract_command_line x args == "") ≡ false)
      × (any (command_matches (extract_command_line x args)) allowed ≡ true)
      × ((name == "runShellCommand" && x.has_control (extract_command_line x args)) ≡ false)

privileged-none :
    (x : Texts) (p : ApprovalPolicy) (name : String) (args : Fields)
    → (check_privileged x p name args ≡ none) ↔ PrivilegedListed x p name args
unfolding check_privileged
privileged-none x p name args =
    let requested = extract_privileged_commands x args in
    let each = keep-is_nil (λ c. contains c p.allowed_privileged_commands) requested in
    elim (Bool-cases (not (is_nil p.allowed_privileged_commands) && name == "submitElevation")) [
      | inr n ↦ ((λ h y. absurd (ground arith)), (λ l. ground arith))
      | inl y ↦ elim (Bool-cases (is_nil requested)) [
        | inl nil_ ↦ ((λ h. absurd (ground arith)), (λ l. absurd (ground (arith, (l y).0))))
        | inr some_ ↦
            elim (Bool-cases
              (is_nil (keep (λ c. not (contains c p.allowed_privileged_commands)) requested))) [
                | inl fine ↦ ((λ h _. (some_, each.0 fine)), (λ l. ground arith))
                | inr bad ↦
                    ((λ h. absurd (ground arith)), (λ l. absurd (ground (arith, each.1 (l y).1))))
              ]
      ]
    ]

commands-none :
    (x : Texts) (p : ApprovalPolicy) (name : String) (args : Fields)
    → (check_commands x p name args ≡ none) ↔ CommandListed x p name args
unfolding check_commands
commands-none x p name args =
    let cmd = extract_command_line x args in
    elim (Option-cases p.allowed_commands) [
      | inl absent ↦ ((λ h allowed e. absurd (ground arith)), (λ l. ground arith))
      | inr (allowed, present) ↦ (
        (λ h allowed' e tool.
            let same : allowed' ≡ allowed = ground arith in
            (ground arith, ground arith, ground arith)),
        (λ l. elim (Bool-cases (is_command_tool name)) [
          | inr other ↦ ground arith
          | inl tool ↦ let (a, b, c) = l allowed present tool in ground arith
        ]),
      )
    ]

no_paths-Inside :
    (x : Texts) (allowed paths : List String) → is_nil paths ≡ true → Inside x allowed paths
no_paths-Inside x allowed [] h = tt
no_paths-Inside x allowed (path ∷ paths) h = absurd (ground arith)

paths-none :
    (x : Texts) (p : ApprovalPolicy) (args : Fields)
    → (check_paths x p args ≡ none) ↔ (
        Outside x (non_empty p.denied_paths) (paths_of x args)
        × (is_nil (non_empty p.allowed_paths) ≡ false
            → Inside x (non_empty p.allowed_paths) (paths_of x args)))
unfolding check_paths
paths-none x p args =
    let paths = paths_of x args in
    let allowed = non_empty p.allowed_paths in
    let outside = check_denied-none x (non_empty p.denied_paths) paths in
    let inside = check_allowed-none x allowed paths in
    elim (Option-cases (check_denied x (non_empty p.denied_paths) paths)) [
      | inr (reason, hit) ↦
          ((λ h. absurd (ground arith)), (λ l. absurd (ground (arith, outside.1 l.0))))
      | inl misses ↦ elim (Bool-cases (is_nil allowed)) [
        | inl free ↦
            ((λ h. (outside.0 misses, (λ no_. absurd (ground arith)))), (λ l. ground arith))
        | inr listed ↦ elim (Bool-cases (is_nil paths)) [
          | inl empty ↦ (
            (λ h. (outside.0 misses, (λ _. no_paths-Inside x allowed paths empty))),
            (λ l. ground arith),
          )
          | inr full ↦ (
            (λ h. (outside.0 misses, (λ _. inside.0 (ground arith)))),
            (λ l. ground (arith, inside.1 (l.1 listed))),
          )
        ]
      ]
    ]

-- What the policy alone authorises: the tool is listed, its privileged commands and its command line
-- are, no path of the arguments lies in a denied path, and each lies in an allowed path where the
-- policy names some.
pub record IsPreauthorized (x : Texts) (p : ApprovalPolicy) (name : String) (args : Fields)
    : Type 0 where
  pub listed : contains name p.allowed_tools ≡ true
  pub privileged : PrivilegedListed x p name args
  pub command : CommandListed x p name args
  pub outside : Outside x (non_empty p.denied_paths) (paths_of x args)
  pub inside :
      is_nil (non_empty p.allowed_paths) ≡ false
      → Inside x (non_empty p.allowed_paths) (paths_of x args)

-- The static check passes exactly the calls that the policy authorises.
pub static-IsPreauthorized :
    (x : Texts) (p : ApprovalPolicy) (name : String) (args : Fields)
    → ((check_static_preauthorization x p name args).0 ≡ true) ↔ IsPreauthorized x p name args
unfolding check_static_preauthorization
static-IsPreauthorized x p name args =
    let a = privileged-none x p name args in
    let b = commands-none x p name args in
    let c = paths-none x p args in
    elim (Bool-cases (contains name p.allowed_tools)) [
      | inr unlisted ↦ ((λ h. absurd (ground arith)), (λ k. absurd (ground (arith, k.listed))))
      | inl listed ↦ elim (Option-cases (check_privileged x p name args)) [
        | inr (r, bad) ↦
            ((λ h. absurd (ground arith)), (λ k. absurd (ground (arith, a.1 k.privileged))))
        | inl ok1 ↦ elim (Option-cases (check_commands x p name args)) [
          | inr (r, bad) ↦
              ((λ h. absurd (ground arith)), (λ k. absurd (ground (arith, b.1 k.command))))
          | inl ok2 ↦ elim (Option-cases (check_paths x p args)) [
            | inr (r, bad) ↦ (
              (λ h. absurd (ground arith)),
              (λ k. absurd (ground (arith, c.1 (k.outside, k.inside)))),
            )
            | inl ok3 ↦
                let (out, ins) = c.0 ok3 in
                (
                  (λ _. record {
                    listed = listed;
                    privileged = a.0 ok1;
                    command = b.0 ok2;
                    outside = out;
                    inside = ins;
                  }),
                  (λ _. ground arith),
                )
          ]
        ]
      ]
    ]
