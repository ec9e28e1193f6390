-- ===== src/ToolAuthorization/Decisions.antt =====
-- approve, reject, expire, listPending and listApprovedGrants of
-- gateway/service/ToolAuthorizationService.py.
use nereus_door_loong_magic.Common.{
  ℕ, ◌-◌, String, Bool, true, false, not, ◌&&◌, ◌||◌, Option, none, some, List, [], ◌∷◌, keep, take,
  if◌then◌else◌, ◌==◌, eqb, ltb, or_text,
}
use nereus_door_loong_magic.Preauthorization.{Grant}
use nereus_door_loong_magic.ToolAuthorization.{
  Fragment, Row, Service, is_pending, is_approved, find_by_code, Update, update_status, approved,
  rejected, expired,
}
use nereus_door_loong_magic.ToolAuthorization.Merging.{
  build_grant, Sessions, resolve_source, write_back, with_prefix,
}

-- approve
unfoldable pub approve :
    Sessions → String → String → String → Option String → Service → Bool × Service
unfolding find_by_code build_grant resolve_source write_back update_status
approve db code approved_by token_id path_prefix s = elim (find_by_code code s.rows) [
  | none ↦ (false, s)
  | some r ↦
      if not (is_pending r.status)
      then (false, s)
      else let grant = with_prefix path_prefix (build_grant r) in
        let s' = write_back (resolve_source db r.session_id) grant s in
        let u : Update = record {
          status = approved;
          approved_by = some approved_by;
          reject_reason = none;
          token_id = some token_id;
          grant = some grant;
        } in
        let (ok, rows) = update_status code u s'.rows in (ok, record s' { rows = rows })
]

-- reject
unfoldable pub reject : String → String → Service → Bool × Service
unfolding find_by_code update_status
reject code reason s = elim (find_by_code code s.rows) [
  | none ↦ (false, s)
  | some r ↦
      let u : Update = record {
        status = rejected;
        approved_by = none;
        reject_reason = some reason;
        token_id = none;
        grant = none;
      } in
      let (ok, rows) = update_status code u s.rows in (ok, record s { rows = rows })
]

abbrev pub expiry : Update
expiry = record {
  status = expired;
  approved_by = none;
  reject_reason = none;
  token_id = none;
  grant = none;
}

-- expire
unfoldable pub expire : String → Service → Bool × Service
unfolding find_by_code update_status
expire code s = elim (find_by_code code s.rows) [
  | none ↦ (false, s)
  | some r ↦
      if not (is_pending r.status)
      then (false, s)
      else let (ok, rows) = update_status code expiry s.rows in (ok, record s { rows = rows })
]

-- now - row.createdAt > (row.ttlSeconds or 3600), both in seconds
abbrev pub is_overdue : ℕ → Row → Bool
is_overdue now r = ltb (if eqb r.ttl_seconds 0 then 3600 else r.ttl_seconds) (now - r.created_at)

unfoldable pub expire_rows : ℕ → List Row → List Row → List Row
unfolding update_status
expire_rows now [] rows = rows
expire_rows now (r ∷ found) rows =
    expire_rows now found (if is_overdue now r then (update_status r.code expiry rows).1 else rows)

-- listRequests(status="pending", limit)
abbrev pub pending_rows : ℕ → List Row → List Row
pending_rows limit rows = take limit (keep (λ r. is_pending r.status) rows)

-- listPending
unfoldable pub list_pending : ℕ → ℕ → Service → List Row × Service
unfolding expire_rows
list_pending limit now s =
    let rows = expire_rows now (pending_rows limit s.rows) s.rows in
    (pending_rows limit rows, record s { rows = rows })

-- The filters of listApproved.
abbrev pub in_session : Option String → Row → Bool
in_session none r = true
in_session (some session) r = session == "" || session == r.session_id

abbrev pub same_task : Option ℕ → ℕ → Bool
same_task none t = false
same_task (some u) t = eqb u t

abbrev pub from_source : Option String → Option ℕ → Row → Bool
from_source none task r = true
from_source (some source) (some t) r =
    if source == "scheduled"
    then r.source_type == "scheduled" && same_task r.task_id t
    else if source == "inspection"
    then r.source_type == "inspection"
    else true
from_source (some source) none r =
    if source == "inspection" then r.source_type == "inspection" else true

abbrev pub grant_of : String → Fragment → Grant
grant_of tool g = record {
  tool_name = tool;
  paths = g.paths;
  command_line = or_text g.command_line "";
}

abbrev pub grants_of : List Row → List Grant
grants_of [] = []
grants_of (r ∷ rows) = elim r.grant [
  | none ↦ grants_of rows
  | some g ↦ grant_of r.tool_name g ∷ grants_of rows
]

-- listApprovedGrants, in the order of the table
unfoldable pub list_approved_grants :
    Option String → Option ℕ → Option String → List Row → List Grant
list_approved_grants session task source rows =
    grants_of
      (keep (λ r. is_approved r.status && in_session session r && from_source source task r) rows)
