-- ===== src/PrivilegedAgent/ValidArgs.antt =====
-- The parts of CommandRule.validate of privileged_agent/validator.py, each stated without its control
-- flow.
use nereus_door_loong_magic.Common.{
  ℕ, ◌≡◌, String, true, false, ◌||◌, Option, none, some, List, [], ◌∷◌, refl, arith, inl, inr, any,
  contains, starts_with, Bool-cases, Option-cases, All, subst, ◌↔◌, if◌then◌else◌,
}
use nereus_door_loong_magic.PrivilegedAgent.Validator.{
  Host, AllowedArgs, PathValidation, Check, ok, invalid, crashed, path_not_allowed, ◌then_check◌,
  require, first_in, second_in, is_flag, check_flags, check_modes, validate_allowed_args, is_under,
  resolve_all, is_too_large, check_path, check_paths, validate_paths,
}

pub then_check-eq-ok : (a b : Check) → ((a then_check b) ≡ ok) ↔ ((a ≡ ok) × (b ≡ ok))
then_check-eq-ok ok b = ((λ h. (refl, h)), (λ h. h.1))
then_check-eq-ok invalid b = ((λ h. absurd (ground arith)), (λ h. absurd (ground (arith, h.0))))
then_check-eq-ok crashed b = ((λ h. absurd (ground arith)), (λ h. absurd (ground (arith, h.0))))
then_check-eq-ok (path_not_allowed p) b =
    ((λ h. absurd (ground arith)), (λ h. absurd (ground (arith, h.0))))

-- Each argument that is a flag stands in the list.
abbrev pub FlagsListed : Host → List String → List String → Type 0
FlagsListed h flags args = All (λ arg. is_flag h arg ≡ true → contains arg flags ≡ true) args

-- Each argument is an octal mode, an absolute path, or matches the rule's own pattern.
abbrev pub ModesMatch : Host → String → List String → Type 0
ModesMatch h regex args =
    All
      (λ arg. (h.re_match "^0[0-7]{3}$" arg || starts_with arg "/" || h.re_match regex arg) ≡ true)
      args

-- A path argument resolves to a place under an allowed parent, and is no larger than allowed.
abbrev pub PathAllowed : Host → List (List String) → ℕ → String → Type 0
PathAllowed h parents max_size arg =
    starts_with arg "-" ≡ false
    → starts_with arg "/" ≡ true
    → (parts : List String) × (h.resolve arg ≡ some parts)
      × (any (λ parent. is_under parent parts) parents ≡ true)
      × (is_too_large h max_size arg ≡ false)

check_flags-ok :
    (h : Host) (flags args : List String)
    → (check_flags h flags args ≡ ok) ↔ FlagsListed h flags args
unfolding check_flags
check_flags-ok h flags [] = ((λ _. tt), (λ _. refl))
check_flags-ok h flags (arg ∷ args) =
    let first = if is_flag h arg then require (contains arg flags) else ok in
    let both = then_check-eq-ok first (check_flags h flags args) in
    let rest = check_flags-ok h flags args in
    (
      (λ e. ((λ f. ground (arith, (both.0 e).0)), rest.0 (both.0 e).1)),
      (λ l. both.1 (
        elim (Bool-cases (is_flag h arg)) [ inl f ↦ ground (arith, l.0 f) | inr f ↦ ground arith ],
        rest.1 l.1,
      )),
    )

check_modes-ok :
    (h : Host) (regex : String) (args : List String)
    → (check_modes h regex args ≡ ok) ↔ ModesMatch h regex args
unfolding check_modes
check_modes-ok h regex [] = ((λ _. tt), (λ _. refl))
check_modes-ok h regex (arg ∷ args) =
    let first =
      if h.re_match "^0[0-7]{3}$" arg || starts_with arg "/"
      then ok
      else require (h.re_match regex arg) in
    let both = then_check-eq-ok first (check_modes h regex args) in
    let rest = check_modes-ok h regex args in
    (
      (λ e. (ground (arith, (both.0 e).0), rest.0 (both.0 e).1)),
      (λ l. both.1 (ground (arith, l.0), rest.1 l.1)),
    )

check_path-ok :
    (h : Host) (parents : List (List String)) (max_size : ℕ) (arg : String)
    → (check_path h parents max_size arg ≡ ok) ↔ PathAllowed h parents max_size arg
unfolding check_path
check_path-ok h parents max_size arg = elim (Option-cases (h.resolve arg)) [
  | inl lost ↦ (
    (λ e a b. absurd (ground arith)),
    (λ p. elim (Bool-cases (starts_with arg "-")) [
      | inl f ↦ ground arith
      | inr f ↦ elim (Bool-cases (starts_with arg "/")) [
        | inl g ↦ let (parts, found, u, l) = p f g in absurd (ground (arith, found))
        | inr g ↦ ground arith
      ]
    ]),
  )
  | inr (parts, found) ↦ (
    (λ e a b. (parts, found, ground arith, ground arith)),
    (λ p. elim (Bool-cases (starts_with arg "-")) [
      | inl f ↦ ground arith
      | inr f ↦ elim (Bool-cases (starts_with arg "/")) [
        | inl g ↦ let (q, there, u, l) = p f g in ground (arith, there, u, l)
        | inr g ↦ ground arith
      ]
    ]),
  )
]

check_paths-ok :
    (h : Host) (parents : List (List String)) (max_size : ℕ) (args : List String)
    → (check_paths h parents max_size args ≡ ok) ↔ All (PathAllowed h parents max_size) args
unfolding check_paths
check_paths-ok h parents max_size [] = ((λ _. tt), (λ _. refl))
check_paths-ok h parents max_size (arg ∷ args) =
    let both =
      then_check-eq-ok (check_path h parents max_size arg) (check_paths h parents max_size args) in
    let first = check_path-ok h parents max_size arg in
    let rest = check_paths-ok h parents max_size args in
    ((λ e. (first.0 (both.0 e).0, rest.0 (both.0 e).1)), (λ l. both.1 (first.1 l.0, rest.1 l.1)))

-- The first, or the second, argument stands in the list, where both exist.
abbrev pub HeadIn : Option (List String) → List String → Type 0
HeadIn (some names) (a ∷ args) = contains a names ≡ true
HeadIn _ _ = Unit {0}

abbrev pub SecondIn : Option (List String) → List String → Type 0
SecondIn (some names) (a ∷ b ∷ args) = contains b names ≡ true
SecondIn _ _ = Unit {0}

abbrev pub FlagsAllowed : Host → Option (List String) → List String → Type 0
FlagsAllowed h none args = Unit {0}
FlagsAllowed h (some flags) args = FlagsListed h flags args

abbrev pub ModesAllowed : Host → Option String → List String → Type 0
ModesAllowed h none args = Unit {0}
ModesAllowed h (some regex) args = ModesMatch h regex args

abbrev pub ArgsAllowed : Host → Option AllowedArgs → List String → Type 0
ArgsAllowed h none args = Unit {0}
ArgsAllowed h (some aa) args =
    HeadIn aa.actions args
    × SecondIn aa.services args
    × HeadIn aa.subcommands args
    × FlagsAllowed h aa.flags args
    × ModesAllowed h aa.mode_regex args

abbrev pub PathsAllowed : Host → Option PathValidation → List String → Type 0
PathsAllowed h none args = Unit {0}
PathsAllowed h (some pv) args =
    (parents : List (List String)) × (resolve_all h pv.allowed_parents ≡ some parents)
    × All (PathAllowed h parents pv.max_size) args

first_in-ok :
    (names : Option (List String)) (args : List String)
    → (first_in names args ≡ ok) ↔ HeadIn names args
first_in-ok none args = ((λ _. tt), (λ _. refl))
first_in-ok (some names) [] = ((λ _. tt), (λ _. refl))
first_in-ok (some names) (a ∷ args) = ((λ e. ground arith), (λ e. ground arith))

second_in-ok :
    (names : Option (List String)) (args : List String)
    → (second_in names args ≡ ok) ↔ SecondIn names args
second_in-ok none args = ((λ _. tt), (λ _. refl))
second_in-ok (some names) [] = ((λ _. tt), (λ _. refl))
second_in-ok (some names) (a ∷ []) = ((λ _. tt), (λ _. refl))
second_in-ok (some names) (a ∷ b ∷ args) = ((λ e. ground arith), (λ e. ground arith))

flags-ok :
    (h : Host) (flags : Option (List String)) (args : List String)
    → ((elim flags [ none ↦ ok | some fs ↦ check_flags h fs args ]) ≡ ok)
      ↔ FlagsAllowed h flags args
flags-ok h none args = ((λ _. tt), (λ _. refl))
flags-ok h (some fs) args = check_flags-ok h fs args

modes-ok :
    (h : Host) (regex : Option String) (args : List String)
    → ((elim regex [ none ↦ ok | some r ↦ check_modes h r args ]) ≡ ok) ↔ ModesAllowed h regex args
modes-ok h none args = ((λ _. tt), (λ _. refl))
modes-ok h (some r) args = check_modes-ok h r args

pub args-ok :
    (h : Host) (aa : Option AllowedArgs) (args : List String)
    → ((elim aa [ none ↦ ok | some a ↦ validate_allowed_args h a args ]) ≡ ok)
      ↔ ArgsAllowed h aa args
unfolding validate_allowed_args
args-ok h none args = ((λ _. tt), (λ _. refl))
args-ok h (some a) args =
    let a1 = first_in a.actions args in
    let a2 = second_in a.services args in
    let a3 = first_in a.subcommands args in
    let a4 : Check = elim a.flags [ none ↦ ok | some fs ↦ check_flags h fs args ] in
    let a5 : Check = elim a.mode_regex [ none ↦ ok | some r ↦ check_modes h r args ] in
    let e5 = then_check-eq-ok (a1 then_check a2 then_check a3 then_check a4) a5 in
    let e4 = then_check-eq-ok (a1 then_check a2 then_check a3) a4 in
    let e3 = then_check-eq-ok (a1 then_check a2) a3 in
    let e2 = then_check-eq-ok a1 a2 in
    (
      (λ e.
          let (r4, k5) = e5.0 e in
          let (r3, k4) = e4.0 r4 in
          let (r2, k3) = e3.0 r3 in
          let (k1, k2) = e2.0 r2 in
          (
            (first_in-ok a.actions args).0 k1,
            (second_in-ok a.services args).0 k2,
            (first_in-ok a.subcommands args).0 k3,
            (flags-ok h a.flags args).0 k4,
            (modes-ok h a.mode_regex args).0 k5,
          )),
      (λ l. e5.1 (
        e4.1 (
          e3.1 (
            e2.1 ((first_in-ok a.actions args).1 l.0, (second_in-ok a.services args).1 l.1),
            (first_in-ok a.subcommands args).1 l.2,
          ),
          (flags-ok h a.flags args).1 l.3,
        ),
        (modes-ok h a.mode_regex args).1 l.4,
      )),
    )

pub paths-ok :
    (h : Host) (pv : Option PathValidation) (args : List String)
    → ((elim pv [ none ↦ ok | some v ↦ validate_paths h v args ]) ≡ ok) ↔ PathsAllowed h pv args
unfolding validate_paths
paths-ok h none args = ((λ _. tt), (λ _. refl))
paths-ok h (some v) args = elim (Option-cases (resolve_all h v.allowed_parents)) [
  | inl lost ↦ ((λ e. absurd (ground arith)), (λ l. absurd (ground (arith, l.1))))
  | inr (parents, found) ↦
      let core = check_paths-ok h parents v.max_size args in
      (
        (λ e. (parents, found, core.0 (ground arith))),
        (λ l.
            let same : l.0 ≡ parents = ground (arith, l.1) in
            let k = core.1 (subst (λ ps. All (PathAllowed h ps v.max_size) args) same l.2) in
            ground (arith, k)),
      )
]
