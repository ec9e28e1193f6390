-- ===== src/Elevation/Budget.antt =====
-- How often a token of gateway/service/elevation_service.py can be used.
use nereus_door_loong_magic.Common.{
  ℕ, ◌+◌, ◌-◌, ◌≤◌, ◌≡◌, String, Option, none, some, inl, inr, ℤ, List, [], ◌∷◌, arith, eq_iff,
  Option-cases,
}
use nereus_door_loong_magic.Common.Dict.{lookup, lookup-insert, lookup-insert_self}
use nereus_door_loong_magic.Crypto.{Primitives}
use nereus_door_loong_magic.Elevation.{Token, Service}
use nereus_door_loong_magic.Elevation.Codes.{generate_code, get_code, reject_code, revoke_token}
use nereus_door_loong_magic.Elevation.Signing.{
  Draw, authorise, charge, create_signed_request, sig_payload,
}
use nereus_door_loong_magic.Elevation.Steps.{
  Call, generate, get, approve, reject, revoke, sign_request, cleanup, step, names, Spares,
  AllSpare, signed_count, authorise-eq-some,
}
use nereus_door_loong_magic.Elevation.Frame.{token_of, approve-same, token_of-cleanup}

-- The operations that a token still allows.
abbrev pub left : Option Token → ℕ
left none = 0
left (some t) = t.max_ops - t.ops_used

module _ (c : Primitives) (tid : String) (s : Service) where
  left-sign_request :
      (other : String) (index : ℤ) (args : List String) (session : String) (d : Draw)
      → names tid (create_signed_request c other index args session d s).0
          + left (token_of tid (create_signed_request c other index args session d s).1)
        ≤ left (token_of tid s)
  unfolding create_signed_request sig_payload
  left-sign_request other index args session d =
      elim (Option-cases (authorise c other index args session d.now s)) [
        | inl refused ↦ ground arith
        | inr ((t, a, ch), passed) ↦
            let open_ = authorise-eq-some c other index args session d.now s t a ch passed in
            ground (
              arith,
              open_.found,
              open_.room,
              eq_iff other tid,
              lookup-insert other tid (charge t) s.tokens,
            )
      ]

  left-revoke :
      (other : String) → left (token_of tid (revoke_token other s).1) ≤ left (token_of tid s)
  unfolding revoke_token
  left-revoke other = elim (Option-cases (token_of other s)) [
    | inl none_ ↦ ground arith
    | inr (t, found) ↦ ground (
      arith,
      eq_iff other tid,
      lookup-insert other tid (record t { ops_used = t.max_ops }) s.tokens,
    )
  ]

  -- Each signed request takes one from what is left, and no call gives any back.
  left-step :
      (call : Call)
      → Spares tid call
      → names tid (step c call s).0 + left (token_of tid (step c call s).1) ≤ left (token_of tid s)
  unfolding step generate_code get_code reject_code
  left-step (generate r now) h = ground arith
  left-step (get code now) h = ground arith
  left-step (approve code by new now) h = ground (arith, approve-same c tid s code by new now h)
  left-step (reject code reason) h = ground arith
  left-step (revoke other) h = omega (arith, left-revoke other)
  left-step (sign_request other index args session d) h =
      left-sign_request other index args session d
  left-step (cleanup now) h = ground (arith, token_of-cleanup c tid s now)

-- In any run that draws no token identifier anew, the signed requests that name a token are at
-- most the operations that the token still allowed at the start, and none if it does not exist.
pub signed_count-le-left :
    (c : Primitives) (tid : String) (calls : List Call) (s : Service)
    → AllSpare tid calls
    → signed_count c tid calls s ≤ left (lookup tid s.tokens)
unfolding signed_count
signed_count-le-left c tid [] s h = omega arith
signed_count-le-left c tid (call ∷ calls) s h =
    omega
      (arith, left-step c tid s call h.0, signed_count-le-left c tid calls (step c call s).1 h.1)

left-revoke_self :
    (tid : String) (s : Service) → left (lookup tid (revoke_token tid s).1.tokens) ≡ 0
unfolding revoke_token
left-revoke_self tid s = elim (Option-cases (lookup tid s.tokens)) [
  | inl none_ ↦ ground arith
  | inr (t, found) ↦
      ground (arith, lookup-insert_self tid (record t { ops_used = t.max_ops }) s.tokens)
]

-- After revoke_token on a token, no later run that draws no token identifier anew signs a request
-- for it, whatever else is called.
pub revoke-final :
    (c : Primitives) (tid : String) (calls : List Call) (s : Service)
    → AllSpare tid calls
    → signed_count c tid calls (revoke_token tid s).1 ≡ 0
revoke-final c tid calls s h =
    omega (arith, left-revoke_self tid s, signed_count-le-left c tid calls (revoke_token tid s).1 h)
