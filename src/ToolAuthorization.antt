-- ===== src/ToolAuthorization.antt =====
-- gateway/service/ToolAuthorizationService.py with gateway/dao/ToolAuthorizationDaoOrm.py: the
-- requests of unattended runs for tools that their policy does not cover. The table is a list of
-- rows, the newest first; a row keeps the columns that the service decides by.
pub mod Submit
pub mod Merging
pub mod Decisions
pub mod Grants
pub mod Requests
pub mod Covers
pub mod Authorised
mod Tests
use nereus_door_loong_magic.Common.{
  ℕ, ◌+◌, ◌-◌, String, Bool, true, false, not, ◌&&◌, ◌||◌, Option, none, some, List, [], ◌∷◌, ◌++◌,
  any, map, keep, contains, take, if◌then◌else◌, ◌==◌, eqb, ltb, text_append, or_text,
}
use nereus_door_loong_magic.Common.Json.{Json}
use nereus_door_loong_magic.Crypto.{Primitives, hash_cmd}
use nereus_door_loong_magic.Elevation.{Command}
use nereus_door_loong_magic.Elevation
use nereus_door_loong_magic.Elevation.Codes
use nereus_door_loong_magic.Elevation.Codes.{generate_code}
use nereus_door_loong_magic.Preauthorization.{ApprovalPolicy, Grant}

-- AUTH_REQ_STATUS_*
pub data RequestStatus : Type 0 where
  pending approved rejected expired : RequestStatus

-- The dict that _buildGrant makes; `paths` and `command_line` are optional keys.
pub record Fragment : Type 0 where
  pub tool_name : String
  pub paths : List String
  pub command_line : Option String

pub record Row : Type 0 where
  pub code : String
  pub session_id : String
  pub source_type : String
  pub task_id : Option ℕ
  pub tool_name : String
  pub paths : List String
  pub command_line : Option String
  pub status : RequestStatus
  pub ttl_seconds : ℕ
  pub max_runs : ℕ
  pub created_at : ℕ
  pub approved_by : Option String
  pub reject_reason : Option String
  pub token_id : Option String
  pub grant : Option Fragment

-- A scheduled task: whether its status is "deleted", and its approvalPolicy.
pub record Task : Type 0 where
  pub is_deleted : Bool
  pub approval_policy : ApprovalPolicy

-- The table, the elevation service, and the policies that grants are written back to.
pub record Service : Type 0 where
  pub rows : List Row
  pub elevation : Elevation.Service
  pub tasks : List (ℕ × Task)
  pub inspection_policy : ApprovalPolicy

abbrev pub is_pending : RequestStatus → Bool
is_pending pending = true
is_pending _ = false

abbrev pub is_approved : RequestStatus → Bool
is_approved approved = true
is_approved _ = false

abbrev pub first_where : (Row → Bool) → List Row → Option Row
first_where p [] = none
first_where p (r ∷ rows) = if p r then some r else first_where p rows

-- findByCode
unfoldable pub find_by_code : String → List Row → Option Row
find_by_code code rows = first_where (λ r. code == r.code) rows

abbrev pub same_command : Option String → Option String → Bool
same_command none other = true
same_command (some c) none = false
same_command (some c) (some d) = c == d

-- findPendingBySessionAndTool: no command line is no filter. The query has no order; the newest of the
-- rows that match is taken here.
unfoldable pub find_pending : String → String → Option String → List Row → Option Row
find_pending session tool command rows =
    first_where
      (λ r.
        session == r.session_id
        && tool == r.tool_name
        && is_pending r.status
        && same_command command r.command_line)
      rows

-- What updateStatus writes; a missing value leaves its column.
pub record Update : Type 0 where
  pub status : RequestStatus
  pub approved_by : Option String
  pub reject_reason : Option String
  pub token_id : Option String
  pub grant : Option Fragment

abbrev pub or_else : {A : Type 0} → Option A → Option A → Option A
or_else none old = old
or_else (some a) old = some a

abbrev pub apply_update : Update → Row → Row
apply_update u r = record r {
  status = u.status;
  approved_by = or_else u.approved_by r.approved_by;
  reject_reason = or_else u.reject_reason r.reject_reason;
  token_id = or_else u.token_id r.token_id;
  grant = or_else u.grant r.grant;
}

-- updateStatus: every row with the code, and whether there was one.
unfoldable pub update_status : String → Update → List Row → Bool × List Row
update_status code u rows =
    (any (λ r. code == r.code) rows, map (λ r. if code == r.code then apply_update u r else r) rows)
