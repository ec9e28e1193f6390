-- ===== src/PrivilegedAgent/Confined.antt =====
-- What the checks of the unsigned V1 channel of privileged_agent/server.py come to.
use nereus_door_loong_magic.Common.{
  ℕ, ◌≡◌, String, Bool, true, Option, none, some, List, [], ◌∷◌, refl, arith, All, Bool-cases,
  Option-cases, inl, inr, ◌⊎◌, any, contains,
}
use nereus_door_loong_magic.Common.Dict.{Dict}
use nereus_door_loong_magic.Replay.{check_rate}
use nereus_door_loong_magic.PrivilegedAgent.Validator.{Host, is_under, resolve_all}
use nereus_door_loong_magic.PrivilegedAgent.V1.{
  Place, named, resolved, Effect, make_parents, make_directory, write_text, chmod, run_script,
  set_service, query_service, World, allowed_service_actions, allowed_service_names,
  allowed_write_paths, static_dirs, allowed_script_dirs, Verdict, allowed, denied, raised,
  find_parent, when_allowed, given, Reply, check_path_allowed, Decision, refuse, act,
  write_to_allowed, create_directory, set_permissions, write_static_file, exec_script, set_state,
  attempt, carry_out, rate_limited, Request, dispatch, file_write_to_allowed, file_create_directory,
  file_set_permissions, nginx_write_static_file, exec_allowed_script, service_set_state,
}

Verdict-cases : (v : Verdict) → (v ≡ allowed) ⊎ ((v ≡ denied) ⊎ (v ≡ raised))
Verdict-cases allowed = inl refl
Verdict-cases denied = inr (inl refl)
Verdict-cases raised = inr (inr refl)

-- One of the directories, resolved, is an ancestor of the path with these parts.
abbrev pub Under : Host → List String → List String → Type 0
Under h [] parts = ⊥
Under h (d ∷ dirs) parts =
    ((dir : List String) × (h.resolve d ≡ some dir) × (is_under dir parts ≡ true))
    ⊎ Under h dirs parts

-- The path resolves to one under a directory of the list.
abbrev pub PathUnder : Host → List String → String → Type 0
PathUnder h dirs path = (parts : List String) × (h.resolve path ≡ some parts) × Under h dirs parts

-- A place under the directories that the agent may write to; a resolved one is a static file.
abbrev pub Writable : Host → Place → Type 0
Writable h (named path) = PathUnder h allowed_write_paths path
Writable h (resolved parts) = Under h static_dirs parts

-- Nothing is said of the directories on the way to a place.
abbrev pub Confined : Host → Effect → Type 0
Confined h (make_parents place) = Unit {0}
Confined h (make_directory place) = Writable h place
Confined h (write_text place content) = Writable h place
Confined h (chmod place mode) = Writable h place
Confined h (run_script path args) = PathUnder h allowed_script_dirs path
Confined h (set_service action name) =
    (contains action allowed_service_actions ≡ true) × (contains name allowed_service_names ≡ true)
Confined h (query_service name) = contains name allowed_service_names ≡ true

find_parent-Under :
    (h : Host) (dirs parts : List String) → find_parent h dirs parts ≡ allowed → Under h dirs parts
unfolding find_parent
find_parent-Under h [] parts found = absurd (ground arith)
find_parent-Under h (d ∷ dirs) parts found = elim (Option-cases (h.resolve d)) [
  | inl fails ↦ absurd (ground arith)
  | inr (dir, there) ↦ elim (Bool-cases (is_under dir parts)) [
    | inl below ↦ inl (dir, there, below)
    | inr beside ↦ inr (find_parent-Under h dirs parts (ground arith))
  ]
]

check_path_allowed-PathUnder :
    (h : Host) (dirs : List String) (path : String)
    → check_path_allowed h dirs path ≡ allowed
    → PathUnder h dirs path
unfolding check_path_allowed
check_path_allowed-PathUnder h dirs path found = elim (Option-cases (h.resolve path)) [
  | inl fails ↦ absurd (ground arith)
  | inr (parts, there) ↦ (parts, there, find_parent-Under h dirs parts (ground arith))
]

resolve_all-Under :
    (h : Host) (paths : List String) (dirs : List (List String)) (parts : List String)
    → resolve_all h paths ≡ some dirs
    → any (λ dir. is_under dir parts) dirs ≡ true
    → Under h paths parts
unfolding resolve_all
resolve_all-Under h [] [] parts all_there below = absurd (ground arith)
resolve_all-Under h [] (d ∷ dirs) parts all_there below = absurd (ground arith)
resolve_all-Under h (p ∷ paths) [] parts all_there below = absurd (ground arith)
resolve_all-Under h (p ∷ paths) (d ∷ dirs) parts all_there below =
    elim (Option-cases (h.resolve p)) [
      | inl fails ↦ absurd (ground arith)
      | inr (dir, there) ↦ elim (Option-cases (resolve_all h paths)) [
        | inl fails ↦ absurd (ground arith)
        | inr (rest, found) ↦ elim (Bool-cases (is_under d parts)) [
          | inl under ↦ inl (d, ground arith, under)
          | inr beside ↦ inr (resolve_all-Under h paths dirs parts (ground arith) (ground arith))
        ]
      ]
    ]

-- What a decision attempts is confined.
abbrev IsConfined : Host → Decision → Type 0
IsConfined h (refuse code) = Unit {0}
IsConfined h (act effects) = All (Confined h) effects

attempt-All :
    (h : Host) (returns : Effect → Bool) (es : List Effect)
    → All (Confined h) es
    → All (Confined h) (attempt returns es).0
unfolding attempt
attempt-All h returns [] all = tt
attempt-All h returns (e ∷ es) all = elim (Bool-cases (returns e)) [
  | inl y ↦ rw y (all.0, attempt-All h returns es all.1)
  | inr n ↦ rw n (all.0, tt)
]

carry_out-Confined :
    (w : World) (d : Decision) (buckets : Dict (List ℕ))
    → IsConfined w.host d
    → All (Confined w.host) (carry_out w d buckets).effects
unfolding carry_out
carry_out-Confined w (refuse code) buckets c = tt
carry_out-Confined w (act effects) buckets c = attempt-All w.host w.returns effects c

rate_limited-Confined :
    (w : World) (action : String) (now : ℕ) (buckets : Dict (List ℕ)) (d : Decision)
    → IsConfined w.host d
    → All (Confined w.host) (rate_limited w action now buckets d).effects
unfolding rate_limited
rate_limited-Confined w action now buckets d c =
    elim (Bool-cases (check_rate 10 60 action now buckets).0) [
      | inl y ↦ rw y (carry_out-Confined w d (check_rate 10 60 action now buckets).1 c)
      | inr n ↦ rw n tt
    ]

allowed-IsConfined :
    (w : World) (dirs : List String) (path : String) (effects : List Effect)
    → (PathUnder w.host dirs path → All (Confined w.host) effects)
    → IsConfined w.host (when_allowed (check_path_allowed w.host dirs path) effects)
allowed-IsConfined w dirs path effects then_confined =
    elim (Verdict-cases (check_path_allowed w.host dirs path)) [
      | inl y ↦ rw y (then_confined (check_path_allowed-PathUnder w.host dirs path y))
      | inr (inl n) ↦ rw n tt
      | inr (inr r) ↦ rw r tt
    ]

write_static_file-IsConfined :
    (w : World) (target content : String) → IsConfined w.host (write_static_file w target content)
unfolding write_static_file
write_static_file-IsConfined w target content =
    elim (Option-cases (resolve_all w.host static_dirs)) [
      | inl fails ↦ rw fails tt
      | inr (dirs, found) ↦ elim (Option-cases (w.host.resolve target)) [
        | inl fails ↦ rw found (rw fails tt)
        | inr (parts, there) ↦ elim (Bool-cases (any (λ dir. is_under dir parts) dirs)) [
          | inr beside ↦ rw found (rw there (rw beside tt))
          | inl below ↦
              let under = resolve_all-Under w.host static_dirs dirs parts found below in
              rw found (rw there (rw below (tt, (under, (under, tt)))))
        ]
      ]
    ]

exec_script-IsConfined :
    (w : World) (path : String) (args : List String) → IsConfined w.host (exec_script w path args)
unfolding exec_script
exec_script-IsConfined w path args =
    elim (Verdict-cases (check_path_allowed w.host allowed_script_dirs path)) [
      | inr (inl n) ↦ rw (n, IsConfined) tt
      | inr (inr r) ↦ rw (r, IsConfined) tt
      | inl y ↦ elim (Option-cases (w.host.resolve path)) [
        | inl fails ↦ rw (y, IsConfined) (rw fails tt)
        | inr (parts, there) ↦ elim (Bool-cases (w.is_file parts)) [
          | inr missing ↦ rw (y, IsConfined) (rw there (rw missing tt))
          | inl file ↦
              let under = check_path_allowed-PathUnder w.host allowed_script_dirs path y in
              rw (y, IsConfined) (rw there (rw file (under, tt)))
        ]
      ]
    ]

set_state-IsConfined : (h : Host) (name action : String) → IsConfined h (set_state name action)
unfolding set_state
set_state-IsConfined h name action = elim (Bool-cases (contains action allowed_service_actions)) [
  | inr n ↦ rw n tt
  | inl y ↦ elim (Bool-cases (contains name allowed_service_names)) [
    | inr n ↦ rw y (rw n tt)
    | inl z ↦ rw y (rw z ((y, z), (z, tt)))
  ]
]

given-Confined :
    {A : Type 0} (w : World) (buckets : Dict (List ℕ)) (field : Option A) (use_it : A → Reply)
    → ((a : A) → All (Confined w.host) (use_it a).effects)
    → All (Confined w.host) (given w buckets field use_it).effects
unfolding carry_out
given-Confined w buckets none use_it c = tt
given-Confined w buckets (some a) use_it c = c a

-- Whatever request comes over the unsigned channel with one of the actions that check what they are
-- given, each effect that it attempts, but for the missing directories that mkdir makes on the way to
-- its target, stays inside the lists of the agent: a directory, a file or a mode is set at a path that resolves to one under an allowed directory (a static file under the two
-- web directories), a script is run whose path resolves under the script directory, and a service is
-- set to an allowed state only if its name is allowed.
pub dispatch-Confined :
    (w : World) (r : Request) (now : ℕ) (buckets : Dict (List ℕ))
    → All (Confined w.host) (dispatch w r now buckets).effects
unfolding dispatch write_to_allowed create_directory set_permissions
dispatch-Confined w (file_write_to_allowed target content mode) now buckets =
    given-Confined w buckets target _ (λ t. given-Confined w buckets content _ (λ c.
      given-Confined w buckets mode _ (λ m.
        rate_limited-Confined w "file.write_to_allowed_path" now buckets (write_to_allowed w t c m)
          (allowed-IsConfined w allowed_write_paths t _ (λ u. (tt, (u, (u, tt))))))))
dispatch-Confined w (file_create_directory target mode) now buckets =
    given-Confined w buckets target _ (λ t. given-Confined w buckets mode _ (λ m.
      rate_limited-Confined w "file.create_directory_in_allowed" now buckets
        (create_directory w t m)
        (allowed-IsConfined w allowed_write_paths t _ (λ u. (tt, (u, (u, tt)))))))
dispatch-Confined w (file_set_permissions target mode) now buckets =
    given-Confined w buckets target _ (λ t. given-Confined w buckets mode _ (λ m.
      rate_limited-Confined w "file.set_permissions_in_allowed" now buckets (set_permissions w t m)
        (allowed-IsConfined w allowed_write_paths t _ (λ u. (u, tt)))))
dispatch-Confined w (nginx_write_static_file target content) now buckets =
    given-Confined w buckets target _ (λ t. given-Confined w buckets content _ (λ c.
      rate_limited-Confined w "nginx.write_static_file" now buckets (write_static_file w t c)
        (write_static_file-IsConfined w t c)))
dispatch-Confined w (exec_allowed_script path args timeout) now buckets =
    given-Confined w buckets path _ (λ p. given-Confined w buckets timeout _ (λ _.
      rate_limited-Confined w "exec.allowed_script" now buckets (exec_script w p args)
        (exec_script-IsConfined w p args)))
dispatch-Confined w (service_set_state name action) now buckets =
    given-Confined w buckets name _ (λ n.
      given-Confined w buckets action _
        (λ a. carry_out-Confined w (set_state n a) buckets (set_state-IsConfined w.host n a)))
