-- ===== src/Safety/Misses.antt =====
-- Where the nested loops of agent/safety/rule_engine.py find nothing.
use nereus_door_loong_magic.Common.{
  ◌≡◌, ◌↔◌, inl, inr, String, Bool, true, false, Option, none, List, [], ◌∷◌, refl, arith, All,
  Bool-cases, Option-cases,
}
use nereus_door_loong_magic.Safety.{
  Regex, Danger, first_of, scan, hits_protected, try_protected, try_danger, try_policy,
}

-- A list of tests gives no reason exactly where every test misses every value.
module _ {A : Type 0} (try : A → String → Option String) (hit : A → String → Bool)
    (agrees : (t : A) (v : String) → (try t v ≡ none) ↔ (hit t v ≡ false)) where
  first_of-none :
      (tests : List A) (v : String)
      → (first_of try tests v ≡ none) ↔ All (λ t. hit t v ≡ false) tests
  unfolding first_of
  first_of-none [] v = ((λ _. tt), (λ _. refl))
  first_of-none (t ∷ tests) v =
      let rest = first_of-none tests v in
      let this = agrees t v in
      elim (Option-cases (try t v)) [
        | inl misses ↦
            ((λ h. (this.0 misses, rest.0 (ground arith))), (λ l. ground (arith, rest.1 l.1)))
        | inr (reason, found) ↦
            ((λ h. absurd (ground arith)), (λ l. absurd (ground (arith, this.1 l.0))))
      ]

  pub scan-none :
      (tests : List A) (values : List String)
      → (scan try tests values ≡ none) ↔ All (λ v. All (λ t. hit t v ≡ false) tests) values
  unfolding scan
  scan-none tests [] = ((λ _. tt), (λ _. refl))
  scan-none tests (v ∷ values) =
      let rest = scan-none tests values in
      let first = first_of-none tests v in
      elim (Option-cases (first_of try tests v)) [
        | inl misses ↦
            ((λ h. (first.0 misses, rest.0 (ground arith))), (λ l. ground (arith, rest.1 l.1)))
        | inr (reason, found) ↦
            ((λ h. absurd (ground arith)), (λ l. absurd (ground (arith, first.1 l.0))))
      ]

pub protected_agrees :
    (path v : String) → (try_protected path v ≡ none) ↔ (hits_protected path v ≡ false)
protected_agrees path v = elim (Bool-cases (hits_protected path v)) [
  | inl y ↦ ((λ h. absurd (ground arith)), (λ h. absurd (ground arith)))
  | inr n ↦ ((λ _. n), (λ _. ground arith))
]

pub danger_agrees :
    (e : Regex) (d : Danger) (v : String)
    → (try_danger e d v ≡ none) ↔ (e.search d.regex d.ignore_case v ≡ false)
danger_agrees e d v = elim (Bool-cases (e.search d.regex d.ignore_case v)) [
  | inl y ↦ ((λ h. absurd (ground arith)), (λ h. absurd (ground arith)))
  | inr n ↦ ((λ _. n), (λ _. ground arith))
]

pub policy_agrees :
    (e : Regex) (pat : String × String) (v : String)
    → (try_policy e pat v ≡ none) ↔ (e.search pat.0 true v ≡ false)
policy_agrees e pat v = elim (Bool-cases (e.search pat.0 true v)) [
  | inl y ↦ ((λ h. absurd (ground arith)), (λ h. absurd (ground arith)))
  | inr n ↦ ((λ _. n), (λ _. ground arith))
]
