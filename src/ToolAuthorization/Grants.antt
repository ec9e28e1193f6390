-- ===== src/ToolAuthorization/Grants.antt =====
-- What _mergeGrant of gateway/service/ToolAuthorizationService.py adds to a policy.
use nereus_door_loong_magic.Common.{
  ◌≡◌, String, Bool, true, false, not, ◌&&◌, ◌||◌, none, some, List, [], ◌∷◌, ◌++◌, refl, arith,
  contains, Bool-cases, Option-cases, inl, inr, ◌==◌, eq_iff,
}
use nereus_door_loong_magic.Preauthorization.{ApprovalPolicy}
use nereus_door_loong_magic.ToolAuthorization.{Fragment}
use nereus_door_loong_magic.ToolAuthorization.Merging.{add_new, add_all, listed, merge_grant}

contains-snoc :
    (t x : String) (xs : List String) → contains t (xs ++ (x ∷ [])) ≡ (contains t xs || t == x)
contains-snoc t x [] = ground arith
contains-snoc t x (y ∷ xs) = ground (arith, contains-snoc t x xs)

contains-add_new :
    (t x : String) (xs : List String) → contains t (add_new x xs) ≡ (contains t xs || t == x)
contains-add_new t x xs = elim (Bool-cases (contains x xs)) [
  | inr new ↦ ground (arith, contains-snoc t x xs)
  | inl old ↦ elim (Bool-cases (t == x)) [
    | inl same ↦
        let e : t ≡ x = (eq_iff t x).0 same in
        let held : contains t xs ≡ true = rw e old in ground (arith, held)
    | inr other ↦ ground arith
  ]
]

contains-add_all :
    (t : String) (ps xs : List String)
    → contains t (add_all ps xs) ≡ (contains t xs || contains t ps)
contains-add_all t [] xs = ground arith
contains-add_all t (p ∷ ps) xs =
    ground (arith, contains-add_all t ps (add_new p xs), contains-add_new t p xs)

-- The command line of a fragment that has one.
abbrev pub is_command_of : String → Fragment → Bool
is_command_of cmd g = elim g.command_line [ none ↦ false | some c ↦ not (c == "") && cmd == c ]

-- A merged policy allows what the policy and the grant name, and nothing more.
pub record IsMerged (p : ApprovalPolicy) (g : Fragment) (m : ApprovalPolicy) : Type 0 where
  pub tools :
      (t : String)
      → contains t m.allowed_tools
        ≡ (contains t p.allowed_tools || (not (g.tool_name == "") && t == g.tool_name))
  pub paths :
      (q : String) → contains q m.allowed_paths ≡ (contains q p.allowed_paths || contains q g.paths)
  pub commands :
      (cmd : String)
      → contains cmd (listed m.allowed_commands)
        ≡ (contains cmd (listed p.allowed_commands) || is_command_of cmd g)
  pub denied : m.denied_paths ≡ p.denied_paths
  pub privileged : m.allowed_privileged_commands ≡ p.allowed_privileged_commands

-- Merging a grant into a policy adds the tool, the paths and the command line of the grant to the
-- lists of the policy, keeps all that they had, adds nothing else, and leaves the denied paths and the
-- privileged commands as they were.
pub merge_grant-IsMerged : (p : ApprovalPolicy) (g : Fragment) → IsMerged p g (merge_grant p g)
unfolding merge_grant
merge_grant-IsMerged p g = record {
  tools = λ t. elim (Bool-cases (g.tool_name == "")) [
    | inl unnamed ↦ ground arith
    | inr named ↦ ground (arith, contains-add_new t g.tool_name p.allowed_tools)
  ];
  paths = λ q. contains-add_all q g.paths p.allowed_paths;
  commands = λ cmd. elim (Option-cases g.command_line) [
    | inl absent ↦ ground arith
    | inr (c, given) ↦ elim (Bool-cases (c == "")) [
      | inl blank ↦ ground arith
      | inr full ↦ ground (arith, contains-add_new cmd c (listed p.allowed_commands))
    ]
  ];
  denied = refl;
  privileged = refl;
}
