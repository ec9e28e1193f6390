-- ===== src/ToolAuthorization/Requests.antt =====
-- The life of a request in gateway/service/ToolAuthorizationService.py.
use nereus_door_loong_magic.Common.{
  ℕ, ◌≡◌, String, Bool, true, false, Option, none, some, List, [], ◌∷◌, refl, arith, any,
  Bool-cases, Option-cases, inl, inr, ◌==◌, eq_self,
}
use nereus_door_loong_magic.Crypto.{Primitives}
use nereus_door_loong_magic.ToolAuthorization.{
  approved, Fragment, Row, Service, is_pending, find_by_code, same_command, find_pending, Update,
  apply_update, update_status,
}
use nereus_door_loong_magic.ToolAuthorization.Submit.{
  Submission, new_row, code_request, submit_request,
}
use nereus_door_loong_magic.ToolAuthorization.Merging.{
  build_grant, Source, scheduled, inspection, manual, Sessions, task_of, write_back,
  grant_to_scheduled_task, grant_to_inspection_policy, resolve_source, with_prefix,
}
use nereus_door_loong_magic.ToolAuthorization.Decisions.{approve}
use nereus_door_loong_magic.Elevation.Codes.{generate_code}

-- The row that findByCode finds after an update is the updated row.
found-updated :
    (code : String) (u : Update) (rows : List Row) (r : Row)
    → find_by_code code rows ≡ some r
    → ((update_status code u rows).0 ≡ true)
      × (find_by_code code (update_status code u rows).1 ≡ some (apply_update u r))
unfolding find_by_code update_status
found-updated code u [] r h = absurd (ground arith)
found-updated code u (x ∷ rows) r h = elim (Bool-cases (code == x.code)) [
  | inl this ↦ (ground arith, ground arith)
  | inr other ↦
      let rest = found-updated code u rows r (ground arith) in
      (ground (arith, rest.0), ground (arith, rest.1))
]

write_back-rows :
    (source : Source) (g : Fragment) (s : Service) → (write_back source g s).rows ≡ s.rows
unfolding write_back grant_to_scheduled_task grant_to_inspection_policy
write_back-rows (scheduled t) g s = elim (Option-cases (task_of t s.tasks)) [
  | inl unknown ↦ ground arith
  | inr (task, found) ↦ elim (Bool-cases task.is_deleted) [
    | inl gone ↦ ground arith
    | inr kept ↦ ground arith
  ]
]
write_back-rows inspection g s = refl
write_back-rows manual g s = refl

same_command_self : (c : Option String) → same_command c c ≡ true
same_command_self none = refl
same_command_self (some c) = eq_self c

-- A request that is not pending is not approved, and nothing changes.
approve-refused :
    (db : Sessions) (code by tid : String) (prefix_ : Option String) (s : Service) (r : Row)
    → find_by_code code s.rows ≡ some r
    → is_pending r.status ≡ false
    → approve db code by tid prefix_ s ≡ (false, s)
unfolding approve
approve-refused db code by tid prefix_ s r found decided = ground arith

abbrev pub approval : String → String → Fragment → Update
approval by tid g = record {
  status = approved;
  approved_by = some by;
  reject_reason = none;
  token_id = some tid;
  grant = some g;
}

-- The row of an approval that succeeds, before and after.
pub approve-updates :
    (db : Sessions) (code by tid : String) (prefix_ : Option String) (s : Service)
    → (approve db code by tid prefix_ s).0 ≡ true
    → (r : Row) × (find_by_code code s.rows ≡ some r)
      × (is_pending r.status ≡ true)
      × (find_by_code code (approve db code by tid prefix_ s).1.rows
          ≡ some (apply_update (approval by tid (with_prefix prefix_ (build_grant r))) r))
unfolding approve
approve-updates db code by tid prefix_ s h = elim (Option-cases (find_by_code code s.rows)) [
  | inl unknown ↦ absurd (ground arith)
  | inr (r, found) ↦ elim (Bool-cases (is_pending r.status)) [
    | inr decided ↦ absurd (ground arith)
    | inl open_ ↦
        let g = with_prefix prefix_ (build_grant r) in
        let s' = write_back (resolve_source db r.session_id) g s in
        let same = write_back-rows (resolve_source db r.session_id) g s in
        let found' : find_by_code code s'.rows ≡ some r = rw same found in
        let next = (found-updated code (approval by tid g) s'.rows r found').1 in
        let after_ : find_by_code code (approve db code by tid prefix_ s).1.rows
            ≡ some (apply_update (approval by tid g) r) =
          ground (arith, next) in
        (r, found, open_, after_)
  ]
]

-- An approval that succeeds finds a pending request, leaves it approved with the grant that it built,
-- and every later approval of the same code is refused and changes nothing.
pub approve-once :
    (db : Sessions) (code by tid : String) (prefix_ : Option String) (s : Service)
    → (approve db code by tid prefix_ s).0 ≡ true
    → (r : Row) × (r' : Row) × (find_by_code code s.rows ≡ some r)
      × (is_pending r.status ≡ true)
      × (find_by_code code (approve db code by tid prefix_ s).1.rows ≡ some r')
      × (r'.status ≡ approved)
      × (r'.grant ≡ some (with_prefix prefix_ (build_grant r)))
      × ((db' : Sessions) (by' tid' : String) (prefix' : Option String)
          → approve db' code by' tid' prefix' (approve db code by tid prefix_ s).1
            ≡ (false, (approve db code by tid prefix_ s).1))
approve-once db code by tid prefix_ s h =
    let (r, found, open_, after_) = approve-updates db code by tid prefix_ s h in
    let r' = apply_update (approval by tid (with_prefix prefix_ (build_grant r))) r in
    (
      r,
      r',
      found,
      open_,
      after_,
      refl,
      refl,
      (λ db' by' tid' prefix'.
          approve-refused db' code by' tid' prefix' (approve db code by tid prefix_ s).1 r' after_
            refl),
    )

reused :
    (c : Primitives) (q : Submission) (now : ℕ) (s : Service) (r : Row)
    → find_pending q.session_id q.tool_name q.command_line s.rows ≡ some r
    → submit_request c q now s ≡ (some (r.code, false), s)
unfolding submit_request
reused c q now s r found = ground arith

-- The row that was just created is found.
found-created :
    (q : Submission) (code : String) (now : ℕ) (rows : List Row)
    → find_pending q.session_id q.tool_name q.command_line (new_row q code now ∷ rows)
      ≡ some (new_row q code now)
unfolding find_pending
found-created q code now rows =
    ground (arith, eq_self q.session_id, eq_self q.tool_name, same_command_self q.command_line)

-- A submission that answers leaves a request that answers to it with its code.
submitted-found :
    (c : Primitives) (q : Submission) (now : ℕ) (s : Service) (code : String) (created : Bool)
    → (submit_request c q now s).0 ≡ some (code, created)
    → (r : Row) × (find_pending q.session_id q.tool_name q.command_line
          (submit_request c q now s).1.rows
        ≡ some r)
      × (r.code ≡ code)
unfolding submit_request
submitted-found c q now s code created h =
    elim (Option-cases (find_pending q.session_id q.tool_name q.command_line s.rows)) [
      | inr (r, found) ↦ (r, ground arith, ground arith)
      | inl unseen ↦
          let e = (generate_code (code_request c q) now s.elevation).0 in
          elim (Bool-cases (any (λ r. e.code == r.code) s.rows)) [
            | inl taken ↦ absurd (ground arith)
            | inr fresh ↦
                let here = found-created q e.code now s.rows in
                (new_row q e.code now, ground (arith, here), ground arith)
          ]
    ]

-- Submitting a request again, at any time and whatever code is drawn, answers with the code of the
-- first submission, creates nothing and changes nothing, as long as nothing has happened in between.
pub submit_request-reuses :
    (c : Primitives) (q : Submission) (drawn : String) (now later : ℕ) (s : Service) (code : String)
    (created : Bool)
    → (submit_request c q now s).0 ≡ some (code, created)
    → submit_request c (record q { drawn = drawn }) later (submit_request c q now s).1
      ≡ (some (code, false), (submit_request c q now s).1)
submit_request-reuses c q drawn now later s code created h =
    let (r, found, same) = submitted-found c q now s code created h in
    let again = reused c (record q { drawn = drawn }) later (submit_request c q now s).1 r found in
    rw⁻¹ same again
