-- ===== src/Elevation/Signing.antt =====
-- create_signed_request and _cleanup_expired of gateway/service/elevation_service.py.
use nereus_door_loong_magic.Common.{
  ℕ, ◌+◌, String, Bool, not, ◌&&◌, ◌==◌, Option, none, some, List, [], ◌∷◌, ltb, if◌then◌else◌,
  or_text, get_elem?, join, ℤ, pos, negsuc, text_append,
}
use nereus_door_loong_magic.Common.Dict.{lookup, insert, update_values, keys_where, remove_all}
use nereus_door_loong_magic.Common.Json.{Json, text, array, object, end, field, text_items}
use nereus_door_loong_magic.Crypto.{Primitives, sign, hash_args, hash_cmd}
use nereus_door_loong_magic.Elevation.{
  Entry, Token, Allowed, token_is_expired, token_is_exhausted, Service,
}
use nereus_door_loong_magic.Elevation.Codes.{is_closed, expire_if_open}

-- The fields that the signature covers.
pub record SigPayload : Type 0 where
  pub request_id : String
  pub command : String
  pub args : List String
  pub args_hash : String
  pub token_id : String
  pub session_id : String
  pub timestamp : String
  pub nonce : String
  pub cmd_hash : String
  pub script_path : String
  pub script_hash : String

-- The dict that is signed, in the order of its keys in the source.
unfoldable pub payload_json : SigPayload → Json
unfolding text_items
payload_json p = object (
    field "requestId" (text p.request_id) (
      field "command" (text p.command) (
        field "args" (array (text_items p.args)) (
          field "args_hash" (text p.args_hash) (
            field "token_id" (text p.token_id) (
              field "session_id" (text p.session_id) (
                field "timestamp" (text p.timestamp) (
                  field "nonce" (text p.nonce) (
                    field "cmd_hash" (text p.cmd_hash) (
                      field "script_path" (text p.script_path)
                        (field "script_hash" (text p.script_hash) end)))))))))))

-- {**sig_payload, "signature": signature}
pub record Signed : Type 0 where
  pub payload : SigPayload
  pub signature : String

-- What one call draws from its surroundings: two `uuid4` and the time, as a number and as text.
pub record Draw : Type 0 where
  pub now : ℕ
  pub request_uuid : String
  pub nonce : String
  pub timestamp : String

abbrev pub first_of_args : List String → String
first_of_args [] = ""
first_of_args (a ∷ as_) = a

-- The hashes of the request, `none` where the check of its channel fails:
-- exec_arbitrary_cmd binds the command text, exec_arbitrary_script copies the token's script hash,
-- and any other command binds its arguments.
pub record Channel : Type 0 where
  pub cmd_hash : String
  pub script_hash : String

unfoldable pub check_channel : Primitives → Token → Allowed → List String → Option Channel
check_channel c t a args =
    if a.command == "exec_arbitrary_cmd"
    then if hash_cmd c (join args) == or_text t.inline_cmd_hash ""
      then some (record { cmd_hash = hash_cmd c (join args); script_hash = "" })
      else none
    else if a.command == "exec_arbitrary_script"
    then some (record { cmd_hash = ""; script_hash = or_text t.script_hash "" })
    else if hash_args c args == a.args_hash
    then some (record { cmd_hash = ""; script_hash = "" })
    else none

-- `allowed_commands[command_index]`, after the test of its range
abbrev pub allowed_at : Token → ℤ → Option Allowed
allowed_at t (pos i) = get_elem? t.allowed_commands i
allowed_at t (negsuc i) = none

-- The guards of create_signed_request, in their order.
unfoldable pub authorise :
    Primitives
    → String
    → ℤ
    → List String
    → String
    → ℕ
    → Service
    → Option (Token × Allowed × Channel)
authorise c tid index args session now s = elim (lookup tid s.tokens) [
  | none ↦ none
  | some t ↦
      if token_is_expired t now
      then none
      else if token_is_exhausted t
      then none
      else if not (t.session_id == session)
      then none
      else elim (allowed_at t index) [
        | none ↦ none
        | some a ↦ elim (check_channel c t a args) [ none ↦ none | some ch ↦ some (t, a, ch) ]
      ]
]

unfoldable pub sig_payload :
    Primitives → String → List String → String → Draw → Allowed → Channel → SigPayload
sig_payload c tid args session d a ch = record {
  request_id = text_append "v2-" d.request_uuid;
  command = a.command;
  args = args;
  args_hash = hash_args c args;
  token_id = tid;
  session_id = session;
  timestamp = d.timestamp;
  nonce = d.nonce;
  cmd_hash = ch.cmd_hash;
  script_path = if a.command == "exec_arbitrary_script" then first_of_args args else "";
  script_hash = ch.script_hash;
}

abbrev pub charge : Token → Token
charge t = record t { ops_used = t.ops_used + 1 }

unfoldable pub create_signed_request :
    Primitives → String → ℤ → List String → String → Draw → Service → Option Signed × Service
unfolding sig_payload payload_json
create_signed_request c tid index args session d s =
    elim (authorise c tid index args session d.now s) [
      | none ↦ (none, s)
      | some (t, a, ch) ↦
          let p = sig_payload c tid args session d a ch in
          (
            some (record { payload = p; signature = sign c (payload_json p) s.priv_key }),
            record s { tokens = insert tid (charge t) s.tokens },
          )
    ]

-- `now - entry.requested_at > 86400`, in seconds
abbrev pub is_stale : ℕ → Entry → Bool
is_stale now e = is_closed e.status && ltb (e.requested_at + 86400) now

-- _cleanup_expired. The first loop marks, the second deletes expired tokens, the third deletes
-- closed codes that are a day old, those just marked among them.
unfoldable pub cleanup_expired : ℕ → Service → Service
cleanup_expired now s =
    let marked = update_values (expire_if_open now) s.codes in
    record s {
      codes = remove_all (keys_where (is_stale now) marked) marked;
      tokens = remove_all (keys_where (λ t. token_is_expired t now) s.tokens) s.tokens;
    }
