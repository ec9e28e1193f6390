-- ===== src/ToolAuthorization/Covers.antt =====
-- The grant that gateway/service/ToolAuthorizationService.py builds for a call that
-- agent/agent_core/agent_loop.py asks for covers that call.
use nereus_door_loong_magic.Common.{
  ℕ, ◌≡◌, String, Bool, true, false, not, ◌&&◌, some, List, [], ◌∷◌, ◌++◌, arith, any, keep, All,
  contains, Bool-cases, Option-cases, inl, inr, if◌then◌else◌, ◌==◌, eq_iff, eq_self,
}
use nereus_door_loong_magic.Common.Json.{object, Fields}
use nereus_door_loong_magic.Preauthorization.{
  Texts, Grant, path_within, extract_command_line, command_matches, is_command_tool, paths_of,
  non_empty, is_nil, add_matches, add_values, extract_path_like_values, flatten_argument_values,
}
use nereus_door_loong_magic.Preauthorization.Decision.{grant_covers}
use nereus_door_loong_magic.ToolAuthorization.{Fragment, Row, first_where}
use nereus_door_loong_magic.ToolAuthorization.Submit.{new_row, submission_of}
use nereus_door_loong_magic.ToolAuthorization.Merging.{build_grant, distinct_to}
use nereus_door_loong_magic.ToolAuthorization.Decisions.{grant_of, grants_of}

-- A grant of a row that is found is among the grants of the rows that a filter keeps.
pub any-grants_of :
    (f h : Row → Bool) (q : Grant → Bool) (rows : List Row) (r : Row) (g : Fragment)
    → first_where h rows ≡ some r
    → f r ≡ true
    → r.grant ≡ some g
    → q (grant_of r.tool_name g) ≡ true
    → any q (grants_of (keep f rows)) ≡ true
any-grants_of f h q [] r g found kept granted good = absurd (ground arith)
any-grants_of f h q (x ∷ rows) r g found kept granted good = elim (Bool-cases (h x)) [
  | inl here ↦
      let same : x ≡ r = ground arith in
      let kept' : f x ≡ true = rw same kept in
      let granted' : x.grant ≡ some g = rw same granted in
      let good' : q (grant_of x.tool_name g) ≡ true = rw same good in
      ground (arith, kept', granted', good')
  | inr there ↦
      let rest = any-grants_of f h q rows r g (ground arith) kept granted good in
      elim (Bool-cases (f x)) [
        | inr dropped ↦ ground (arith, rest)
        | inl kept_x ↦ elim (Option-cases x.grant) [
          | inl none_ ↦ ground (arith, rest)
          | inr (g', has) ↦ ground (arith, rest)
        ]
      ]
]

path_within_self : (x : Texts) (p : String) → (p == "") ≡ false → path_within x p p ≡ true
unfolding path_within
path_within_self x p full = ground (arith, eq_self (x.rstrip_slash p))

contains-keep :
    (t : String) (f : String → Bool) (xs : List String)
    → contains t xs ≡ true
    → f t ≡ true
    → contains t (keep f xs) ≡ true
contains-keep t f [] h k = absurd (ground arith)
contains-keep t f (y ∷ xs) h k = elim (Bool-cases (t == y)) [
  | inl same ↦
      let e : t ≡ y = (eq_iff t y).0 same in let k' : f y ≡ true = rw e at k in ground (arith, k')
  | inr other ↦
      let rest = contains-keep t f xs (ground arith) k in
      elim (Bool-cases (f y)) [
        | inl kept ↦ ground (arith, rest)
        | inr dropped ↦ ground (arith, rest)
      ]
]

contains-snoc_self : (t : String) (xs : List String) → contains t (xs ++ (t ∷ [])) ≡ true
contains-snoc_self t [] = ground (arith, eq_self t)
contains-snoc_self t (y ∷ xs) = ground (arith, contains-snoc_self t xs)

contains-append :
    (t : String) (xs ys : List String) → contains t xs ≡ true → contains t (xs ++ ys) ≡ true
contains-append t [] ys h = absurd (ground arith)
contains-append t (y ∷ xs) ys h = elim (Bool-cases (t == y)) [
  | inl same ↦ ground arith
  | inr other ↦ ground (arith, contains-append t xs ys (ground arith))
]

contains-distinct_to :
    (t : String) (seen ps : List String)
    → contains t seen ≡ true
    → contains t (distinct_to seen ps) ≡ true
contains-distinct_to t seen [] h = h
contains-distinct_to t seen (p ∷ ps) h = elim (Bool-cases (contains p seen)) [
  | inl old ↦ ground (arith, contains-distinct_to t seen ps h)
  | inr new ↦
      ground
        (arith, contains-distinct_to t (seen ++ (p ∷ [])) ps (contains-append t seen (p ∷ []) h))
]

any-contains :
    (q : String → Bool) (t : String) (xs : List String)
    → contains t xs ≡ true
    → q t ≡ true
    → any q xs ≡ true
any-contains q t [] h k = absurd (ground arith)
any-contains q t (y ∷ xs) h k = elim (Bool-cases (t == y)) [
  | inl same ↦
      let e : t ≡ y = (eq_iff t y).0 same in let k' : q y ≡ true = rw e at k in ground (arith, k')
  | inr other ↦ ground (arith, any-contains q t xs (ground arith) k)
]

-- What add_matches collects is not empty text.
abbrev AllFull : List String → Type 0
AllFull ps = All (λ p. (p == "") ≡ false) ps

AllFull-snoc :
    (p : String) (ps : List String) → AllFull ps → (p == "") ≡ false → AllFull (ps ++ (p ∷ []))
AllFull-snoc p [] h k = (k, tt)
AllFull-snoc p (q ∷ ps) h k = (h.0, AllFull-snoc p ps h.1 k)

AllFull-add_matches : (x : Texts) (ps ms : List String) → AllFull ps → AllFull (add_matches x ps ms)
unfolding add_matches
AllFull-add_matches x ps [] h = h
AllFull-add_matches x ps (m ∷ ms) h =
    let c = x.rstrip_punctuation m in
    elim (Bool-cases (not (c == "") && not (contains c ps))) [
      | inr skip ↦ rw skip (AllFull-add_matches x ps ms h)
      | inl new ↦
          let full : (c == "") ≡ false = ground (arith, new) in
          rw new (AllFull-add_matches x (ps ++ (c ∷ [])) ms (AllFull-snoc c ps h full))
    ]

AllFull-add_values : (x : Texts) (ps vs : List String) → AllFull ps → AllFull (add_values x ps vs)
unfolding add_values
AllFull-add_values x ps [] h = h
AllFull-add_values x ps (v ∷ vs) h =
    AllFull-add_values x (add_matches x ps (x.find_paths v)) vs
      (AllFull-add_matches x ps (x.find_paths v) h)

AllFull-paths_of : (x : Texts) (args : Fields) → AllFull (paths_of x args)
unfolding extract_path_like_values
AllFull-paths_of x args = AllFull-add_values x [] (flatten_argument_values (object args)) tt

-- A list of paths lies in its own distinct paths.
covered_by_self :
    (x : Texts) (ps : List String)
    → AllFull ps
    → is_nil ps ≡ false
    → any (λ p. any (path_within x p) (non_empty (distinct_to [] ps))) ps ≡ true
covered_by_self x [] full some_ = absurd (ground arith)
covered_by_self x (p ∷ ps) full some_ =
    let held = contains-distinct_to p (p ∷ []) ps (ground (arith, eq_self p)) in
    let kept =
      contains-keep p (λ q. not (q == "")) (distinct_to (p ∷ []) ps) held
        (ground (arith, full.0)) in
    let inside =
      any-contains (path_within x p) p (non_empty (distinct_to (p ∷ []) ps)) kept
        (path_within_self x p full.0) in
    ground (arith, inside)

matches_self : (cmd : String) → command_matches cmd cmd ≡ true
matches_self cmd = ground (arith, eq_self cmd)

-- The grant that is built for the request of a call covers the call.
pub own_grant-covers :
    (x : Texts) (name : String) (args : Fields) (session reason : String) (ttl runs : ℕ)
    (drawn code : String) (now : ℕ)
    → grant_covers x name
        (paths_of x args)
        (if is_command_tool name then extract_command_line x args else "")
        (grant_of name (
          build_grant (new_row (submission_of x name args session reason ttl runs drawn) code now)))
      ≡ true
unfolding grant_covers build_grant
own_grant-covers x name args session reason ttl runs drawn code now =
    let ps = paths_of x args in
    let cmd = if is_command_tool name then extract_command_line x args else "" in
    let tool = eq_self name in
    let ours = matches_self cmd in
    elim (Bool-cases (is_nil ps)) [
      | inl none_ ↦ elim (Bool-cases (cmd == "")) [
        | inl silent ↦ ground (arith, none_, tool, silent)
        | inr spoken ↦ ground (arith, none_, tool, spoken, ours)
      ]
      | inr some_ ↦
          let inside = covered_by_self x ps (AllFull-paths_of x args) some_ in
          elim (Bool-cases (cmd == "")) [
            | inl silent ↦ ground (arith, inside, tool, silent)
            | inr spoken ↦ ground (arith, inside, tool, spoken, ours)
          ]
    ]
