-- ===== src/PrivilegedAgent/NoReplay.antt =====
-- Replays against _handle_v2 of privileged_agent/server.py.
use nereus_door_loong_magic.Common.{
  ℕ, ◌+◌, ◌*◌, ◌≤◌, ◌≡◌, ◌≢◌, String, true, some, List, [], ◌∷◌, arith, text_append, Bool-cases,
  Option-cases, inl, inr, leb, ◌⊎◌,
}
use nereus_door_loong_magic.Common.Dict.{Dict, IsUnique}
use nereus_door_loong_magic.Replay.{is_fresh_as_utc, check_and_store, check_nonce}
use nereus_door_loong_magic.Replay.Nonces.{
  Remembers, accepted-Remembers, Remembers-check_and_store, Remembers-later, refused_while,
  stale_as_utc_after,
}
use nereus_door_loong_magic.PrivilegedAgent.Server.{
  V2Request, Config, Input, verify_signature, peer_allowed, handle_request, handle_v2, serve,
}
use nereus_door_loong_magic.PrivilegedAgent.Chain.{acts-IsAuthorised}

abbrev key_of : V2Request → String
key_of r = text_append "nonce:" r.nonce

-- A connection leaves the nonces alone, or stores the nonce of its request.
Stores : Config → Input → Dict ℕ → Dict ℕ → Type 0
Stores cfg i nonces later =
    (later ≡ nonces)
    ⊎ ((r : V2Request) × (later ≡ (check_nonce cfg.nonce_ttl r.nonce i.now nonces).1))

handle_request-Stores :
    (cfg : Config) (i : Input) (r : V2Request) (nonces : Dict ℕ)
    → Stores cfg i nonces (handle_request cfg r i.now nonces).nonces
unfolding handle_request Stores
handle_request-Stores cfg i r nonces = elim (Bool-cases (verify_signature cfg r)) [
  | inr forged ↦ inl (ground arith)
  | inl signed ↦
      elim (Bool-cases (is_fresh_as_utc cfg.tolerance (cfg.from_iso r.timestamp) i.now)) [
        | inr stale ↦ inl (ground arith)
        | inl fresh ↦ inr (r, ground arith)
      ]
]

handle_v2-Stores :
    (cfg : Config) (i : Input) (nonces : Dict ℕ)
    → Stores cfg i nonces (handle_v2 cfg i nonces).nonces
unfolding handle_v2 Stores
handle_v2-Stores cfg i nonces = elim (Bool-cases (peer_allowed cfg.allowed_uids i.peer)) [
  | inr denied ↦ inl (ground arith)
  | inl peer ↦ elim (Option-cases i.parsed) [
    | inl malformed ↦ inl (ground arith)
    | inr (r, parsed) ↦ elim (handle_request-Stores cfg i r nonces) [
      | inl same ↦ inl (ground (arith, same))
      | inr (q, stored) ↦ inr (q, ground (arith, stored))
    ]
  ]
]

-- The connections come in at instants that do not go back.
abbrev pub IsOrdered : ℕ → List Input → ℕ → Type 0
IsOrdered last [] end_ = last ≤ end_
IsOrdered last (i ∷ inputs) end_ = (last ≤ i.now) × IsOrdered i.now inputs end_

Remembers-handle_v2 :
    (cfg : Config) (nonce : String) (expiry last : ℕ) (i : Input) (nonces : Dict ℕ)
    → last ≤ i.now
    → Remembers nonce expiry last nonces
    → Remembers nonce expiry i.now (handle_v2 cfg i nonces).nonces
unfolding Stores check_nonce
Remembers-handle_v2 cfg nonce expiry last i nonces h mem = elim (handle_v2-Stores cfg i nonces) [
  | inl same ↦ rw same (Remembers-later nonce expiry last i.now nonces mem h)
  | inr (r, stored) ↦
      rw stored
        (Remembers-check_and_store nonce expiry last i.now nonces mem h cfg.nonce_ttl (key_of r))
]

Remembers-serve :
    (cfg : Config) (nonce : String) (expiry last end_ : ℕ) (inputs : List Input) (nonces : Dict ℕ)
    → IsOrdered last inputs end_
    → Remembers nonce expiry last nonces
    → Remembers nonce expiry end_ (serve cfg inputs nonces)
unfolding serve
Remembers-serve cfg nonce expiry last end_ [] nonces ordered mem =
    Remembers-later nonce expiry last end_ nonces mem ordered
Remembers-serve cfg nonce expiry last end_ (i ∷ inputs) nonces ordered mem =
    Remembers-serve cfg nonce expiry i.now end_ inputs (handle_v2 cfg i nonces).nonces ordered.1
      (Remembers-handle_v2 cfg nonce expiry last i nonces ordered.0 mem)

-- If the time to live of a nonce is at least twice the tolerance, a request on which _handle_v2 has
-- acted, from a table that holds each nonce once, is never acted on again: however late, and
-- whatever connections come between (at instants that do not go back), a request with its timestamp
-- and its nonce runs nothing and writes nothing.
pub acts_once :
    (cfg : Config) (first again : Input) (between : List Input) (nonces : Dict ℕ) (r q : V2Request)
    → 2 * cfg.tolerance ≤ cfg.nonce_ttl
    → IsUnique nonces
    → IsOrdered first.now between again.now
    → first.parsed ≡ some r
    → again.parsed ≡ some q
    → q.timestamp ≡ r.timestamp
    → q.nonce ≡ r.nonce
    → (handle_v2 cfg first nonces).actions ≢ []
    → ¬ ((handle_v2 cfg again (serve cfg between (handle_v2 cfg first nonces).nonces)).actions ≢ [])
unfolding check_nonce
acts_once cfg first again between nonces r q wide unique ordered is_r is_q same_time same_nonce acts
      replayed =
    let (r', a) = acts-IsAuthorised cfg first nonces acts in
    let later = serve cfg between (handle_v2 cfg first nonces).nonces in
    let (q', b) = acts-IsAuthorised cfg again later replayed in
    let r_same : r' ≡ r = ground (arith, a.parsed) in
    let q_same : q' ≡ q = ground (arith, b.parsed) in
    let time_ : q'.timestamp ≡ r'.timestamp = cc (r_same, q_same, same_time) in
    let key : key_of q' ≡ key_of r' = cc (r_same, q_same, same_nonce) in
    let expiry = first.now + cfg.nonce_ttl in
    let mem0 : Remembers (key_of r') expiry first.now (handle_v2 cfg first nonces).nonces =
      rw a.stored
        (accepted-Remembers cfg.nonce_ttl (key_of r') first.now nonces unique a.new_nonce) in
    let mem =
      Remembers-serve cfg (key_of r') expiry first.now again.now between
        (handle_v2 cfg first nonces).nonces ordered mem0 in
    elim (Bool-cases (leb again.now expiry)) [
      | inl early ↦
          let again_new : (check_and_store cfg.nonce_ttl (key_of r') again.now later).0 ≡ true =
            rw key at b.new_nonce in
          let held =
            refused_while (key_of r') expiry again.now again.now later mem (omega arith)
              cfg.nonce_ttl (ground arith) in
          ground (arith, held, again_new)
      | inr late ↦
          let again_fresh : is_fresh_as_utc cfg.tolerance (cfg.from_iso r'.timestamp) again.now
              ≡ true =
            rw time_ at b.fresh in
          let stale =
            stale_as_utc_after cfg.tolerance cfg.nonce_ttl first.now again.now
              (cfg.from_iso r'.timestamp) wide a.fresh (ground arith) in
          ground (arith, stale, again_fresh)
    ]
