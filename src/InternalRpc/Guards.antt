-- ===== src/InternalRpc/Guards.antt =====
-- What _handle_raw of internal_rpc/server.py lets through.
use nereus_door_loong_magic.Common.{
  ℕ, ◌+◌, ◌*◌, ◌≤◌, ◌≡◌, ◌≢◌, String, true, Option, some, List, [], ◌∷◌, arith, refl, Bool-cases,
  Option-cases, inl, inr, leb, eqb, any, ◌⊎◌,
}
use nereus_door_loong_magic.Common.Dict.{Dict, IsUnique, lookup}
use nereus_door_loong_magic.Common.Json.{Json}
use nereus_door_loong_magic.Replay.{is_fresh, check_and_store}
use nereus_door_loong_magic.Replay.Nonces.{
  Remembers, accepted-Remembers, Remembers-check_and_store, Remembers-later, refused_while,
  stale_after,
}
use nereus_door_loong_magic.InternalRpc.{
  Request, ErrorCode, success, Config, Input, Admission, admitted, refused, verify_peercred,
  verify_request_signature, admit_request, admit, call_handler, handle_raw, serve,
}

-- What holds of a request that passed every check.
pub record IsAdmitted (cfg : Config) (i : Input) (nonces : Dict ℕ) (r : Request) : Type 0 where
  pub uid : ℕ
  pub peer : i.peer ≡ some uid
  pub uid_allowed : any (λ u. eqb uid u) cfg.allowed_uids ≡ true
  pub parsed : i.parsed ≡ some r
  pub key : String
  pub configured : cfg.public_key ≡ some key
  pub signed : verify_request_signature cfg.primitives r key ≡ true
  pub fresh : is_fresh cfg.tolerance (cfg.from_iso r.timestamp) i.now ≡ true
  pub new_nonce : (check_and_store cfg.nonce_ttl r.nonce i.now nonces).0 ≡ true
  pub stored : (admit cfg i nonces).1 ≡ (check_and_store cfg.nonce_ttl r.nonce i.now nonces).1

pub admit-IsAdmitted :
    (cfg : Config) (i : Input) (nonces : Dict ℕ) (r : Request)
    → (admit cfg i nonces).0 ≡ admitted r
    → IsAdmitted cfg i nonces r
unfolding admit verify_peercred
admit-IsAdmitted cfg i nonces r h = elim (Option-cases i.peer) [
  | inl gone ↦ absurd (ground arith)
  | inr (uid, peer) ↦ elim (Option-cases cfg.public_key) [
    | inl unset ↦ absurd (ground arith)
    | inr (key, configured) ↦ record {
      uid = uid;
      peer = peer;
      uid_allowed = ground arith;
      parsed = ground arith;
      key = key;
      configured = configured;
      signed = ground arith;
      fresh = ground arith;
      new_nonce = ground arith;
      stored = ground arith;
    }
  ]
]

-- A connection leaves the nonces alone, or stores the nonce of its request.
Stores : Config → Input → Dict ℕ → Dict ℕ → Type 0
Stores cfg i nonces later =
    (later ≡ nonces)
    ⊎ ((r : Request) × (later ≡ (check_and_store cfg.nonce_ttl r.nonce i.now nonces).1))

admit_request-Stores :
    (cfg : Config) (i : Input) (r : Request) (nonces : Dict ℕ)
    → Stores cfg i nonces (admit_request cfg r i.now nonces).1
unfolding admit_request Stores
admit_request-Stores cfg i r nonces = elim (Option-cases cfg.public_key) [
  | inl unset ↦ inl (ground arith)
  | inr (key, configured) ↦ elim (Bool-cases (verify_request_signature cfg.primitives r key)) [
    | inr forged ↦ inl (ground arith)
    | inl signed ↦ elim (Bool-cases (is_fresh cfg.tolerance (cfg.from_iso r.timestamp) i.now)) [
      | inr stale ↦ inl (ground arith)
      | inl fresh ↦ inr (r, ground arith)
    ]
  ]
]

admit-Stores :
    (cfg : Config) (i : Input) (nonces : Dict ℕ) → Stores cfg i nonces (admit cfg i nonces).1
unfolding admit Stores
admit-Stores cfg i nonces = elim (Bool-cases i.is_empty) [
  | inl empty ↦ inl (ground arith)
  | inr full ↦ elim (Option-cases (verify_peercred cfg.allowed_uids i.peer)) [
    | inl denied ↦ inl (ground arith)
    | inr (uid, peer) ↦ elim (Option-cases i.parsed) [
      | inl malformed ↦ inl (ground arith)
      | inr (r, parsed) ↦ elim (admit_request-Stores cfg i r nonces) [
        | inl same ↦ inl (ground (arith, same))
        | inr (q, stored) ↦ inr (q, ground (arith, stored))
      ]
    ]
  ]
]

handle_raw-table :
    (cfg : Config) (i : Input) (nonces : Dict ℕ)
    → (handle_raw cfg i nonces).1 ≡ (admit cfg i nonces).1
unfolding handle_raw
handle_raw-table cfg i nonces = refl

-- The connections come in at instants that do not go back.
abbrev pub IsOrdered : ℕ → List Input → ℕ → Type 0
IsOrdered last [] end_ = last ≤ end_
IsOrdered last (i ∷ inputs) end_ = (last ≤ i.now) × IsOrdered i.now inputs end_

Remembers-handle_raw :
    (cfg : Config) (nonce : String) (expiry last : ℕ) (i : Input) (nonces : Dict ℕ)
    → last ≤ i.now
    → Remembers nonce expiry last nonces
    → Remembers nonce expiry i.now (handle_raw cfg i nonces).1
unfolding Stores
Remembers-handle_raw cfg nonce expiry last i nonces h mem =
    rw (handle_raw-table cfg i nonces) (elim (admit-Stores cfg i nonces) [
      | inl same ↦ rw same (Remembers-later nonce expiry last i.now nonces mem h)
      | inr (r, stored) ↦
          rw stored
            (Remembers-check_and_store nonce expiry last i.now nonces mem h cfg.nonce_ttl r.nonce)
    ])

Remembers-serve :
    (cfg : Config) (nonce : String) (expiry last end_ : ℕ) (inputs : List Input) (nonces : Dict ℕ)
    → IsOrdered last inputs end_
    → Remembers nonce expiry last nonces
    → Remembers nonce expiry end_ (serve cfg inputs nonces)
unfolding serve
Remembers-serve cfg nonce expiry last end_ [] nonces ordered mem =
    Remembers-later nonce expiry last end_ nonces mem ordered
Remembers-serve cfg nonce expiry last end_ (i ∷ inputs) nonces ordered mem =
    Remembers-serve cfg nonce expiry i.now end_ inputs (handle_raw cfg i nonces).1 ordered.1
      (Remembers-handle_raw cfg nonce expiry last i nonces ordered.0 mem)

-- If the time to live of a nonce is at least twice the tolerance, a request that was admitted, from
-- a table that holds each nonce once, is never admitted again: however late, and whatever
-- connections come between (at instants that do not go back), no request with its timestamp and its
-- nonce passes the checks.
pub no_replay :
    (cfg : Config) (first again : Input) (between : List Input) (nonces : Dict ℕ) (r q : Request)
    → 2 * cfg.tolerance ≤ cfg.nonce_ttl
    → IsUnique nonces
    → IsOrdered first.now between again.now
    → q.timestamp ≡ r.timestamp
    → q.nonce ≡ r.nonce
    → (admit cfg first nonces).0 ≡ admitted r
    → (admit cfg again (serve cfg between (handle_raw cfg first nonces).1)).0 ≢ admitted q
no_replay cfg first again between nonces r q wide unique ordered same_time same_nonce ok replayed =
    let a = admit-IsAdmitted cfg first nonces r ok in
    let later = serve cfg between (handle_raw cfg first nonces).1 in
    let b = admit-IsAdmitted cfg again later q replayed in
    let expiry = first.now + cfg.nonce_ttl in
    let mem0 : Remembers r.nonce expiry first.now (handle_raw cfg first nonces).1 =
      rw (handle_raw-table cfg first nonces, a.stored)
        (accepted-Remembers cfg.nonce_ttl r.nonce first.now nonces unique a.new_nonce) in
    let mem =
      Remembers-serve cfg r.nonce expiry first.now again.now between (handle_raw cfg first nonces).1
        ordered mem0 in
    elim (Bool-cases (leb again.now expiry)) [
      | inl early ↦
          let again_new : (check_and_store cfg.nonce_ttl r.nonce again.now later).0 ≡ true =
            rw same_nonce at b.new_nonce in
          let held =
            refused_while r.nonce expiry again.now again.now later mem (omega arith) cfg.nonce_ttl
              (ground arith) in
          absurd (ground (arith, held, again_new))
      | inr late ↦
          let again_fresh : is_fresh cfg.tolerance (cfg.from_iso r.timestamp) again.now ≡ true =
            rw same_time at b.fresh in
          let stale =
            stale_after cfg.tolerance cfg.nonce_ttl first.now again.now (cfg.from_iso r.timestamp)
              wide a.fresh (ground arith) in
          absurd (ground (arith, stale, again_fresh))
    ]

Admission-cases :
    (a : Admission) → ((r : Request) × (a ≡ admitted r)) ⊎ ((code : ErrorCode) × (a ≡ refused code))
Admission-cases (admitted r) = inl (r, refl)
Admission-cases (refused code) = inr (code, refl)

-- A handler answers with success only to a request of an allowed peer, signed under the configured
-- key, with a fresh timestamp and a new nonce, whose method is registered.
pub success-IsAdmitted :
    (cfg : Config) (i : Input) (nonces : Dict ℕ) (result : Json)
    → (handle_raw cfg i nonces).0 ≡ success result
    → (r : Request) × (handler : Json → Option Json) × IsAdmitted cfg i nonces r
      × (lookup r.method cfg.handlers ≡ some handler)
      × (handler r.params ≡ some result)
unfolding handle_raw call_handler
success-IsAdmitted cfg i nonces result h = elim (Admission-cases (admit cfg i nonces).0) [
  | inr (code, no_) ↦ absurd (ground (arith, no_))
  | inl (r, ok) ↦ elim (Option-cases (lookup r.method cfg.handlers)) [
    | inl unknown ↦ absurd (ground (arith, ok))
    | inr (handler, found) ↦
        (r, handler, admit-IsAdmitted cfg i nonces r ok, found, ground (arith, ok))
  ]
]
