-- ===== src/Elevation/Codes.antt =====
-- The operations of ElevationService in gateway/service/elevation_service.py.
use nereus_door_loong_magic.Common.{
  ℕ, String, Bool, true, false, not, ◌&&◌, ◌==◌, Option, none, some, List, if◌then◌else◌, keep,
}
use nereus_door_loong_magic.Common.Dict.{Dict, lookup, insert, values}
use nereus_door_loong_magic.Common.Json.{Json}
use nereus_door_loong_magic.Crypto.{Primitives}
use nereus_door_loong_magic.Elevation.{
  Status, pending, approved, rejected, expired, consumed, Command, Entry, entry_is_expired, Token,
  new_token, Service,
}

-- An operation returns a value, or it raises a KeyError.
pub data Reply (A : Type 0) : Type 0 where
  returned : A → Reply A
  raised : Reply A

abbrev pub is_pending : Status → Bool
is_pending pending = true
is_pending _ = false

-- `status in (STATUS_PENDING, STATUS_APPROVED)`
abbrev pub is_open : Status → Bool
is_open pending = true
is_open approved = true
is_open _ = false

-- `status in (STATUS_CONSUMED, STATUS_REJECTED, STATUS_EXPIRED)`
abbrev pub is_closed : Status → Bool
is_closed consumed = true
is_closed rejected = true
is_closed expired = true
is_closed _ = false

-- The arguments of generate_code, with the string that `_generate_code_string` draws.
pub record Request : Type 0 where
  pub session_id : String
  pub commands : List Command
  pub reason : String
  pub ttl_seconds : ℕ
  pub max_ops : ℕ
  pub code : Option String
  pub drawn : String
  pub inline_cmd : Option String
  pub inline_cmd_hash : Option String
  pub script_path : Option String
  pub script_hash : Option String
  pub request_type : String
  pub task_id : Option ℕ
  pub approval_policy : Option Json
  pub expire_previous : Bool

abbrev pub code_of : Request → String
code_of r = elim r.code [ none ↦ r.drawn | some code ↦ code ]

-- ElevationCodeEntry(...)
unfoldable pub new_entry : Request → ℕ → Entry
new_entry r now = record {
  code = code_of r;
  session_id = r.session_id;
  commands = r.commands;
  reason = r.reason;
  request_type = r.request_type;
  task_id = r.task_id;
  approval_policy = r.approval_policy;
  status = pending;
  ttl_seconds = r.ttl_seconds;
  max_ops = r.max_ops;
  ops_used = 0;
  requested_at = now;
  approved_by = none;
  approved_at = none;
  token_id = none;
  reject_reason = none;
  inline_cmd = r.inline_cmd;
  inline_cmd_hash = r.inline_cmd_hash;
  script_path = r.script_path;
  script_hash = r.script_hash;
}

abbrev pub expire_if_pending : Entry → Entry
expire_if_pending e = if is_pending e.status then record e { status = expired } else e

-- `self._codes[code]` is changed in place, if it is there.
unfoldable pub expire_code : String → Dict Entry → Dict Entry
expire_code code codes = elim (lookup code codes) [
  | none ↦ codes
  | some e ↦ insert code (expire_if_pending e) codes
]

-- The pending code of the session, if any, is marked as expired.
unfoldable pub expire_previous : Request → Service → Dict Entry
unfolding expire_code
expire_previous r s =
    if r.expire_previous
    then elim (lookup r.session_id s.sessions) [
      | none ↦ s.codes
      | some old_code ↦ if old_code == "" then s.codes else expire_code old_code s.codes
    ]
    else s.codes

unfoldable pub generate_code : Request → ℕ → Service → Entry × Service
unfolding new_entry expire_previous
generate_code r now s =
    let entry = new_entry r now in
    (
      entry,
      record s {
        codes = insert (code_of r) entry (expire_previous r s);
        sessions = insert r.session_id (code_of r) s.sessions;
      },
    )

-- The lazy expiry of get_code.
abbrev pub expire_if_open : ℕ → Entry → Entry
expire_if_open now e =
    if entry_is_expired e now && is_open e.status then record e { status = expired } else e

unfoldable pub get_code : String → ℕ → Service → Option Entry × Service
get_code code now s = elim (lookup code s.codes) [
  | none ↦ (none, s)
  | some e ↦ let e' = expire_if_open now e in (some e', record s { codes = insert code e' s.codes })
]

-- The entries that list_pending shows.
unfoldable pub list_pending : ℕ → Service → List Entry
list_pending now s =
    keep (λ e. is_pending e.status && not (entry_is_expired e now)) (values s.codes)

abbrev pub approve_entry : String → String → ℕ → Entry → Entry
approve_entry by tid now e = record e {
  status = approved;
  approved_by = some by;
  approved_at = some now;
  token_id = some tid;
}

-- What approve_code writes before it builds the token stays written when that raises.
abbrev pub issue :
    Primitives → String → String → String → ℕ → Entry → Service → Reply (Option Token) × Service
issue c code by tid now e s =
    let e' = approve_entry by tid now e in
    let codes = insert code e' s.codes in
    elim (new_token c tid e' now) [
      | none ↦ (raised, record s { codes = codes })
      | some t ↦ (returned (some t), record s { codes = codes; tokens = insert tid t s.tokens })
    ]

unfoldable pub approve_code :
    Primitives → String → String → String → ℕ → Service → Reply (Option Token) × Service
approve_code c code by tid now s = elim (lookup code s.codes) [
  | none ↦ (returned none, s)
  | some e ↦
      if is_pending e.status
      then if entry_is_expired e now
        then (
          returned none,
          record s { codes = insert code (record e { status = expired }) s.codes },
        )
        else issue c code by tid now e s
      else (returned none, s)
]

unfoldable pub reject_code : String → String → Service → Service
reject_code code reason s = elim (lookup code s.codes) [
  | none ↦ s
  | some e ↦
      if is_pending e.status
      then record s {
        codes = insert code (record e { status = rejected; reject_reason = some reason }) s.codes;
      }
      else s
]

unfoldable pub revoke_token : String → Service → Bool × Service
revoke_token tid s = elim (lookup tid s.tokens) [
  | none ↦ (false, s)
  | some t ↦ (true, record s { tokens = insert tid (record t { ops_used = t.max_ops }) s.tokens })
]
