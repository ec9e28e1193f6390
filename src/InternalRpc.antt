-- ===== src/InternalRpc.antt =====
-- internal_rpc: the server that the backend offers to the command line (internal_rpc/server.py) and
-- its checks (internal_rpc/security.py). The socket, the JSON parser and the request model of
-- pydantic are the fields of `Input`; the handlers are a parameter.
pub mod Guards
mod Tests
use nereus_door_loong_magic.Common.{
  ℕ, String, Bool, true, false, not, Option, none, some, List, [], ◌∷◌, eqb, any, if◌then◌else◌,
  ◌==◌,
}
use nereus_door_loong_magic.Common.Dict.{Dict, lookup}
use nereus_door_loong_magic.Common.Json.{Json, null, text, object, field, end}
use nereus_door_loong_magic.Crypto.{Primitives, sign, verify}
use nereus_door_loong_magic.Replay.{IsoTime, is_fresh, check_and_store}

-- InternalRpcRequest
pub record Request : Type 0 where
  pub request_id : String
  pub method : String
  pub params : Json
  pub caller : Json
  pub timestamp : String
  pub nonce : String
  pub signature : String

-- InternalRpcErrorCode
pub data ErrorCode : Type 0 where
  invalid_request unknown_method peer_uid_denied signature_invalid signature_expired nonce_replay
        internal_error :
      ErrorCode

-- InternalRpcResponse
pub data Response : Type 0 where
  success : Json → Response
  failure : ErrorCode → Response

-- signature_payload
unfoldable pub signature_payload : Request → Json
signature_payload r = object (
    field "requestId" (text r.request_id) (
      field "method" (text r.method) (
        field "params" r.params (
          field "caller" r.caller
            (field "timestamp" (text r.timestamp) (field "nonce" (text r.nonce) end))))))

-- sign_request_payload and verify_request_signature
unfoldable pub sign_request_payload : Primitives → Request → String → String
unfolding signature_payload
sign_request_payload c r private_key = sign c (signature_payload r) private_key

unfoldable pub verify_request_signature : Primitives → Request → String → Bool
unfolding signature_payload
verify_request_signature c r public_key = verify c (signature_payload r) r.signature public_key

-- verify_peercred: `none` is a failure of getsockopt.
unfoldable pub verify_peercred : List ℕ → Option ℕ → Option ℕ
verify_peercred allowed none = none
verify_peercred allowed (some uid) = if any (λ u. eqb uid u) allowed then some uid else none

pub record Config : Type 0 where
  pub primitives : Primitives
  pub from_iso : String → Option IsoTime
  pub allowed_uids : List ℕ
  pub public_key : Option String
  pub tolerance : ℕ
  pub nonce_ttl : ℕ
  -- a handler's exception is `none`
  pub handlers : Dict (Json → Option Json)

-- One connection: the bytes read, the credentials of the peer, the request that the bytes decode
-- to, and the time.
pub record Input : Type 0 where
  pub is_empty : Bool
  pub peer : Option ℕ
  pub parsed : Option Request
  pub now : ℕ

pub data Admission : Type 0 where
  admitted : Request → Admission
  refused : ErrorCode → Admission

-- The checks of _handle_raw from the key on.
unfoldable pub admit_request : Config → Request → ℕ → Dict ℕ → Admission × Dict ℕ
admit_request cfg r now nonces = elim cfg.public_key [
  | none ↦ (refused signature_invalid, nonces)
  | some key ↦
      if not (verify_request_signature cfg.primitives r key)
      then (refused signature_invalid, nonces)
      else if not (is_fresh cfg.tolerance (cfg.from_iso r.timestamp) now)
      then (refused signature_expired, nonces)
      else let (new, nonces') = check_and_store cfg.nonce_ttl r.nonce now nonces in
        if new then (admitted r, nonces') else (refused nonce_replay, nonces')
]

-- The checks of _handle_raw, in their order.
unfoldable pub admit : Config → Input → Dict ℕ → Admission × Dict ℕ
unfolding admit_request
admit cfg i nonces =
    if i.is_empty
    then (refused invalid_request, nonces)
    else elim (verify_peercred cfg.allowed_uids i.peer) [
      | none ↦ (refused peer_uid_denied, nonces)
      | some uid ↦ elim i.parsed [
        | none ↦ (refused invalid_request, nonces)
        | some r ↦ admit_request cfg r i.now nonces
      ]
    ]

unfoldable pub call_handler : Config → Request → Response
call_handler cfg r = elim (lookup r.method cfg.handlers) [
  | none ↦ failure unknown_method
  | some handler ↦ elim (handler r.params) [
    | none ↦ failure internal_error
    | some result ↦ success result
  ]
]

abbrev pub answer : Config → Admission → Response
answer cfg (admitted r) = call_handler cfg r
answer cfg (refused code) = failure code

-- _handle_raw
unfoldable pub handle_raw : Config → Input → Dict ℕ → Response × Dict ℕ
unfolding admit call_handler
handle_raw cfg i nonces = let (a, nonces') = admit cfg i nonces in (answer cfg a, nonces')

-- _serve_loop, over the connections that come in
unfoldable pub serve : Config → List Input → Dict ℕ → Dict ℕ
serve cfg [] nonces = nonces
serve cfg (i ∷ inputs) nonces = serve cfg inputs (handle_raw cfg i nonces).1
