-- ===== src/Elevation/Frame.antt =====
-- What one call does to one token of the service in gateway/service/elevation_service.py.
use nereus_door_loong_magic.Common.{
  ℕ, ◌+◌, ◌≡◌, ◌≢◌, String, Option, none, some, ◌==◌, ◌⊎◌, inl, inr, ℤ, List, Option-cases,
  Bool-cases, contains, refl, arith, eq_iff,
}
use nereus_door_loong_magic.Common.Dict.{
  lookup, lookup-insert, lookup-insert_ne, keys_where, lookup-remove_all,
}
use nereus_door_loong_magic.Crypto.{Primitives}
use nereus_door_loong_magic.Elevation.{Token, Service, token_is_expired}
use nereus_door_loong_magic.Elevation.Codes.{
  generate_code, get_code, approve_code, reject_code, revoke_token,
}
use nereus_door_loong_magic.Elevation.Signing.{
  Draw, authorise, charge, create_signed_request, cleanup_expired,
}
use nereus_door_loong_magic.Elevation.Steps.{
  Call, generate, get, approve, reject, revoke, sign_request, cleanup, step, Spares,
  authorise-eq-some,
}

abbrev pub token_of : String → Service → Option Token
token_of tid s = lookup tid s.tokens

-- Nothing happened to the token, or it was deleted, or only its count of operations changed.
pub data Change (before later : Option Token) : Type 0 where
  same : later ≡ before → Change before later
  gone : later ≡ none → Change before later
  used :
      (t : Token) (n : ℕ)
      → before ≡ some t
      → later ≡ some (record t { ops_used = n })
      → Change before later

module _ (c : Primitives) (tid : String) (s : Service) where
  pub approve-same :
      (code by new : String) (now : ℕ)
      → new ≢ tid
      → token_of tid (approve_code c code by new now s).1 ≡ token_of tid s
  unfolding approve_code
  approve-same code by new now h = grind (arith, lookup-insert_ne)

  Change-revoke : (other : String) → Change (token_of tid s) (token_of tid (revoke_token other s).1)
  unfolding revoke_token
  Change-revoke other = elim (Option-cases (token_of other s)) [
    | inl none_ ↦ same (ground (arith))
    | inr (t, found) ↦
        let here = lookup-insert other tid (record t { ops_used = t.max_ops }) s.tokens in
        elim (Bool-cases (other == tid)) [
          | inl hit ↦ used t t.max_ops (ground (arith, eq_iff other tid)) (ground (arith, here))
          | inr miss ↦ same (ground (arith, here))
        ]
  ]

  Change-sign_request :
      (other : String) (index : ℤ) (args : List String) (session : String) (d : Draw)
      → Change
          (token_of tid s)
          (token_of tid (create_signed_request c other index args session d s).1)
  unfolding create_signed_request
  Change-sign_request other index args session d =
      elim (Option-cases (authorise c other index args session d.now s)) [
        | inl refused ↦ same (ground arith)
        | inr ((t, a, ch), passed) ↦
            let found =
              (authorise-eq-some c other index args session d.now s t a ch passed).found in
            let here = lookup-insert other tid (charge t) s.tokens in
            elim (Bool-cases (other == tid)) [
              | inl hit ↦
                  used t (t.ops_used + 1) (ground (arith, eq_iff other tid)) (ground (arith, here))
              | inr miss ↦ same (ground (arith, here))
            ]
      ]

  pub token_of-cleanup :
      (now : ℕ)
      → (token_of tid (cleanup_expired now s) ≡ none)
        ⊎ (token_of tid (cleanup_expired now s) ≡ token_of tid s)
  unfolding cleanup_expired
  token_of-cleanup now =
      elim (Bool-cases (contains tid (keys_where (λ t. token_is_expired t now) s.tokens))) [
        | inl hit ↦ inl (rw (lookup-remove_all, hit))
        | inr miss ↦ inr (rw (lookup-remove_all, miss))
      ]

  pub Change-step :
      (call : Call) → Spares tid call → Change (token_of tid s) (token_of tid (step c call s).1)
  unfolding step generate_code get_code reject_code
  Change-step (generate r now) h = same refl
  Change-step (get code now) h = same (ground arith)
  Change-step (approve code by new now) h = same (approve-same code by new now h)
  Change-step (reject code reason) h = same (ground arith)
  Change-step (revoke other) h = Change-revoke other
  Change-step (sign_request other index args session d) h =
      Change-sign_request other index args session d
  Change-step (cleanup now) h = elim (token_of-cleanup now) [ inl e ↦ gone e | inr e ↦ same e ]
