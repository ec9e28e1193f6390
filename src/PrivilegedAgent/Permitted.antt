-- ===== src/PrivilegedAgent/Permitted.antt =====
-- What CommandRule.validate of privileged_agent/validator.py establishes, and that it rejects
-- nothing else.
use nereus_door_loong_magic.Common.{
  ◌≡◌, String, true, false, ◌||◌, none, some, List, arith, inl, inr, any, starts_with, Bool-cases,
  join, ◌↔◌, if◌then◌else◌,
}
use nereus_door_loong_magic.PrivilegedAgent.Validator.{
  Host, Rule, Check, ok, ◌then_check◌, validate_allowed_args, validate_paths, validate_sql_prefix,
  is_given, is_empty, validate,
}
use nereus_door_loong_magic.PrivilegedAgent.ValidArgs.{
  then_check-eq-ok, ArgsAllowed, PathsAllowed, args-ok, paths-ok,
}

-- What a rule permits: a fixed command line takes no arguments; otherwise the actions, services,
-- subcommands, flags and modes are listed, every path lies under an allowed parent, and the SQL
-- statement starts with an allowed prefix where the rule names some and there is a statement.
pub record Permits (h : Host) (rule : Rule) (args : List String) : Type 0 where
  pub fixed : is_given rule.command_line ≡ true → is_empty args ≡ true
  pub listed : is_given rule.command_line ≡ false → ArgsAllowed h rule.allowed_args args
  pub placed : is_given rule.command_line ≡ false → PathsAllowed h rule.path_validation args
  pub prefixed :
      is_given rule.command_line ≡ false
      → (is_empty rule.allowed_sql_prefixes || is_empty args) ≡ false
      → any (λ p. starts_with (h.upper (h.strip (join args))) (h.upper p)) rule.allowed_sql_prefixes
        ≡ true

-- CommandRule.validate accepts exactly the arguments that the rule permits.
pub validate-ok :
    (h : Host) (rule : Rule) (args : List String)
    → (validate h rule args ≡ ok) ↔ Permits h rule args
unfolding validate validate_sql_prefix
validate-ok h rule args =
    let a1 : Check = elim rule.allowed_args [
      | none ↦ ok
      | some aa ↦ validate_allowed_args h aa args
    ] in
    let a2 : Check = elim rule.path_validation [ none ↦ ok | some pv ↦ validate_paths h pv args ] in
    let a3 : Check =
      if is_empty rule.allowed_sql_prefixes || is_empty args
      then ok
      else validate_sql_prefix h rule.allowed_sql_prefixes args in
    let outer = then_check-eq-ok (a1 then_check a2) a3 in
    let inner = then_check-eq-ok a1 a2 in
    elim (Bool-cases (is_given rule.command_line)) [
      | inl f ↦ (
        (λ e. record {
          fixed = λ _. ground arith;
          listed = λ n. absurd (ground arith);
          placed = λ n. absurd (ground arith);
          prefixed = λ n m. absurd (ground arith);
        }),
        (λ p. ground (arith, p.fixed f)),
      )
      | inr f ↦ (
        (λ e.
            let whole : (a1 then_check a2 then_check a3) ≡ ok = ground arith in
            let (k, k3) = outer.0 whole in
            let (k1, k2) = inner.0 k in
            record {
              fixed = λ y. absurd (ground arith);
              listed = λ _. (args-ok h rule.allowed_args args).0 k1;
              placed = λ _. (paths-ok h rule.path_validation args).0 k2;
              prefixed = λ _ m. ground (arith, k3);
            }),
        (λ p.
            let k1 = (args-ok h rule.allowed_args args).1 (p.listed f) in
            let k2 = (paths-ok h rule.path_validation args).1 (p.placed f) in
            let k3 : a3 ≡ ok =
              elim (Bool-cases (is_empty rule.allowed_sql_prefixes || is_empty args)) [
                | inl y ↦ rw y
                | inr y ↦ ground (arith, p.prefixed f y)
              ] in
            let whole = outer.1 (inner.1 (k1, k2), k3) in ground (arith, whole)),
      )
    ]
