-- ===== src/Elevation.antt =====
-- gateway/service/elevation_service.py: the records of the service.
-- An instant and a duration are natural numbers of seconds, and every operation
-- reads the clock once, as its argument `now`. Strings drawn at random (`uuid4`, `secrets`) are
-- arguments too. Operations stand in `Codes` and `Signing`, proofs in the other children.
pub mod Codes
pub mod Signing
pub mod Steps
pub mod Frame
pub mod Budget
pub mod Binding
pub mod Lifecycle
pub mod Sessions
pub mod Cleanup
mod Tests
use nereus_door_loong_magic.Common.{
  ℕ, zero, suc, ◌+◌, String, Bool, Option, none, some, List, [], ◌∷◌, ltb, leb, eqb, if◌then◌else◌,
}
use nereus_door_loong_magic.Common.Dict.{Dict}
use nereus_door_loong_magic.Common.Json.{Json}
use nereus_door_loong_magic.Crypto.{Primitives, hash_args}

-- STATUS_PENDING, STATUS_APPROVED, STATUS_REJECTED, STATUS_EXPIRED, STATUS_CONSUMED
pub data Status : Type 0 where
  pending approved rejected expired consumed : Status

-- A command as the caller gives it: a dict whose keys may be missing.
pub record Command : Type 0 where
  pub command : Option String
  pub args : Option (List String)

-- class ElevationCodeEntry
pub record Entry : Type 0 where
  pub code : String
  pub session_id : String
  pub commands : List Command
  pub reason : String
  pub request_type : String
  pub task_id : Option ℕ
  pub approval_policy : Option Json
  pub status : Status
  pub ttl_seconds : ℕ
  pub max_ops : ℕ
  pub ops_used : ℕ
  pub requested_at : ℕ
  pub approved_by : Option String
  pub approved_at : Option ℕ
  pub token_id : Option String
  pub reject_reason : Option String
  pub inline_cmd : Option String
  pub inline_cmd_hash : Option String
  pub script_path : Option String
  pub script_hash : Option String

-- ElevationCodeEntry.is_expired and is_exhausted
unfoldable pub entry_is_expired : Entry → ℕ → Bool
entry_is_expired e now = ltb (e.requested_at + e.ttl_seconds) now

unfoldable pub entry_is_exhausted : Entry → Bool
entry_is_exhausted e = leb e.max_ops e.ops_used

-- {"command": ..., "args_hash": ...}
pub record Allowed : Type 0 where
  pub command : String
  pub args_hash : String

-- class JITToken
pub record Token : Type 0 where
  pub token_id : String
  pub code : String
  pub session_id : String
  pub allowed_commands : List Allowed
  pub max_ops : ℕ
  pub ops_used : ℕ
  pub issued_at : ℕ
  pub ttl_seconds : ℕ
  pub inline_cmd : Option String
  pub inline_cmd_hash : Option String
  pub script_path : Option String
  pub script_hash : Option String

-- JITToken.is_expired and is_exhausted
unfoldable pub token_is_expired : Token → ℕ → Bool
token_is_expired t now = ltb (t.issued_at + t.ttl_seconds) now

unfoldable pub token_is_exhausted : Token → Bool
token_is_exhausted t = leb t.max_ops t.ops_used

-- `cmd.get("args", [])`
abbrev pub args_of : Command → List String
args_of cmd = elim cmd.args [ none ↦ [] | some args ↦ args ]

-- The loop of JITToken.__init__. `none` is the KeyError of a command with no key "command".
unfoldable pub bind_commands : Primitives → List Command → Option (List Allowed)
bind_commands c [] = some []
bind_commands c (cmd ∷ cmds) = elim cmd.command [
  | none ↦ none
  | some name ↦ elim (bind_commands c cmds) [
    | none ↦ none
    | some rest ↦ some (record { command = name; args_hash = hash_args c (args_of cmd) } ∷ rest)
  ]
]

-- `code_entry.approved_at or time()`
abbrev pub issue_time : Option ℕ → ℕ → ℕ
issue_time none now = now
issue_time (some t) now = if eqb t 0 then now else t

-- JITToken(token_id, code_entry)
unfoldable pub new_token : Primitives → String → Entry → ℕ → Option Token
new_token c tid e now = elim (bind_commands c e.commands) [
  | none ↦ none
  | some allowed ↦ some (record {
    token_id = tid;
    code = e.code;
    session_id = e.session_id;
    allowed_commands = allowed;
    max_ops = e.max_ops;
    ops_used = 0;
    issued_at = issue_time e.approved_at now;
    ttl_seconds = e.ttl_seconds;
    inline_cmd = e.inline_cmd;
    inline_cmd_hash = e.inline_cmd_hash;
    script_path = e.script_path;
    script_hash = e.script_hash;
  })
]

-- The state of ElevationService, less its lock and its threads.
pub record Service : Type 0 where
  pub priv_key : String
  pub codes : Dict Entry
  pub tokens : Dict Token
  pub sessions : Dict String

-- ElevationService.__init__ with the key that it loaded or generated
abbrev pub start : String → Service
start key = record { priv_key = key; codes = []; tokens = []; sessions = [] }
