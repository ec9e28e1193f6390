-- ===== src/PrivilegedAgent/Server.antt =====
-- privileged_agent/server.py: _verify_peercred, _verify_signature, _handle_v2.
use nereus_door_loong_magic.Common.{
  ℕ, String, Bool, true, false, not, ◌&&◌, ◌||◌, Option, none, some, List, [], ◌∷◌, if◌then◌else◌,
  ◌==◌, eqb, any, join,
}
use nereus_door_loong_magic.Common.Dict.{Dict, lookup}
use nereus_door_loong_magic.Common.Json.{Json, text, array, object, field, end, text_items}
use nereus_door_loong_magic.Crypto.{Primitives, verify, hash_args, hash_cmd, hash_content}
use nereus_door_loong_magic.Replay.{IsoTime, is_fresh_as_utc, check_nonce}
use nereus_door_loong_magic.PrivilegedAgent.Validator.{
  Host, Rule, Registry, ok, invalid, crashed, path_not_allowed, validate,
}
use nereus_door_loong_magic.PrivilegedAgent.Scripts.{
  ErrorCode, invalid_request, signature_invalid, signature_expired, nonce_replay,
  command_not_registered, args_invalid, args_hash_mismatch, peer_uid_denied, cmd_hash_mismatch,
  script_not_found, script_hash_mismatch, System, TextTools, Action, Outcome, failed, died,
}
use nereus_door_loong_magic.PrivilegedAgent.Dispatch.{Splitter, dispatch_v2_command}

-- PrivilegedV2Request, the fields that the handler reads
pub record V2Request : Type 0 where
  pub request_id : String
  pub command : String
  pub args : List String
  pub args_hash : String
  pub token_id : String
  pub session_id : String
  pub timestamp : String
  pub nonce : String
  pub signature : String
  pub cmd_hash : String
  pub script_path : String
  pub script_hash : String

pub record Config : Type 0 where
  pub primitives : Primitives
  pub host : Host
  pub system : System
  pub tools : TextTools
  pub splitter : Splitter
  pub from_iso : String → Option IsoTime
  pub allowed_uids : List ℕ
  pub public_key : Option String
  pub tolerance : ℕ
  pub nonce_ttl : ℕ
  pub registry : Registry

unfoldable pub sig_payload : V2Request → Json
unfolding text_items
sig_payload r = object (
    field "requestId" (text r.request_id) (
      field "command" (text r.command) (
        field "args" (array (text_items r.args)) (
          field "args_hash" (text r.args_hash) (
            field "token_id" (text r.token_id) (
              field "session_id" (text r.session_id) (
                field "timestamp" (text r.timestamp) (
                  field "nonce" (text r.nonce) (
                    field "cmd_hash" (text r.cmd_hash) (
                      field "script_path" (text r.script_path)
                        (field "script_hash" (text r.script_hash) end)))))))))))

-- _verify_signature: with no public key every request passes.
unfoldable pub verify_signature : Config → V2Request → Bool
unfolding sig_payload
verify_signature cfg r = elim cfg.public_key [
  | none ↦ true
  | some key ↦ verify cfg.primitives (sig_payload r) r.signature key
]

-- _verify_peercred
unfoldable pub peer_allowed : List ℕ → Option ℕ → Bool
peer_allowed allowed none = false
peer_allowed allowed (some uid) = any (λ u. eqb uid u) allowed

-- Step 7 of _handle_v2: which hash is compared, by the command. `none` passes.
unfoldable pub check_hashes : Config → V2Request → Option ErrorCode
check_hashes cfg r =
    if r.token_id == ""
    then none
    else if r.command == "exec_arbitrary_cmd"
    then if r.cmd_hash == "" || not (hash_cmd cfg.primitives (join r.args) == r.cmd_hash)
      then some cmd_hash_mismatch
      else none
    else if r.command == "exec_arbitrary_script"
    then elim (cfg.system.read_text r.script_path) [
      | none ↦ some script_not_found
      | some content ↦
          if not (r.script_hash == "") && not (hash_content cfg.primitives content == r.script_hash)
          then some script_hash_mismatch
          else none
    ]
    else if not (r.args_hash == "") && not (hash_args cfg.primitives r.args == r.args_hash)
    then some args_hash_mismatch
    else none

-- Step 6: the registry and the rule's validation.
unfoldable pub check_rule : Config → V2Request → Rule → Option Outcome
check_rule cfg r rule = elim (validate cfg.host rule r.args) [
  | ok ↦ elim (check_hashes cfg r) [ none ↦ none | some code ↦ some (failed code) ]
  | invalid ↦ some (failed args_invalid)
  | path_not_allowed p ↦ some (failed args_invalid)
  | crashed ↦ some died
]

-- Step 8, after steps 6 and 7.
unfoldable pub run_request : Config → V2Request → Outcome × List Action
run_request cfg r = elim (lookup r.command cfg.registry) [
  | none ↦ (failed command_not_registered, [])
  | some rule ↦ elim (check_rule cfg r rule) [
    | some stop ↦ (stop, [])
    | none ↦ dispatch_v2_command cfg.system cfg.tools cfg.splitter rule r.command r.args
  ]
]

-- One connection: the peer's credentials, the request that the bytes decode to, and the time.
pub record Input : Type 0 where
  pub peer : Option ℕ
  pub parsed : Option V2Request
  pub now : ℕ

pub record Reaction : Type 0 where
  pub outcome : Outcome
  pub actions : List Action
  pub nonces : Dict ℕ

abbrev pub refuse : ErrorCode → Dict ℕ → Reaction
refuse code nonces = record { outcome = failed code; actions = []; nonces = nonces }

abbrev pub react : Outcome × List Action → Dict ℕ → Reaction
react o nonces = record { outcome = o.0; actions = o.1; nonces = nonces }

-- Steps 3 to 8.
unfoldable pub handle_request : Config → V2Request → ℕ → Dict ℕ → Reaction
handle_request cfg r now nonces =
    if not (verify_signature cfg r)
    then refuse signature_invalid nonces
    else if not (is_fresh_as_utc cfg.tolerance (cfg.from_iso r.timestamp) now)
    then refuse signature_expired nonces
    else let (new, nonces') = check_nonce cfg.nonce_ttl r.nonce now nonces in
      if new then react (run_request cfg r) nonces' else refuse nonce_replay nonces'

-- _handle_v2
unfoldable pub handle_v2 : Config → Input → Dict ℕ → Reaction
unfolding handle_request
handle_v2 cfg i nonces =
    if not (peer_allowed cfg.allowed_uids i.peer)
    then refuse peer_uid_denied nonces
    else elim i.parsed [
      | none ↦ refuse invalid_request nonces
      | some r ↦ handle_request cfg r i.now nonces
    ]

-- The table after the signed requests that come in, one after the other. In the source an outcome
-- `died` ends serve_forever, so that no request follows it; here the run goes on, which only adds runs.
unfoldable pub serve : Config → List Input → Dict ℕ → Dict ℕ
serve cfg [] nonces = nonces
serve cfg (i ∷ inputs) nonces = serve cfg inputs (handle_v2 cfg i nonces).nonces
