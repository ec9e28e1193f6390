-- ===== src/Elevation/Sessions.antt =====
-- One pending code for each session: the bookkeeping of `_sessions` in generate_code of
-- gateway/service/elevation_service.py.
use nereus_door_loong_magic.Common.{
  ℕ, ◌≡◌, ◌≢◌, String, true, some, ◌==◌, inl, inr, List, [], ◌∷◌, arith, eq_iff, Bool-cases, refl,
}
use nereus_door_loong_magic.Common.Dict.{lookup, lookup-insert}
use nereus_door_loong_magic.Crypto.{Primitives}
use nereus_door_loong_magic.Elevation.{pending, Entry, Service, start}
use nereus_door_loong_magic.Elevation.Codes.{
  Request, code_of, new_entry, expire_code, expire_previous, expire_if_pending, generate_code,
  get_code, approve_code, reject_code, revoke_token,
}
use nereus_door_loong_magic.Elevation.Signing.{create_signed_request, cleanup_expired}
use nereus_door_loong_magic.Elevation.Steps.{
  Call, generate, get, approve, reject, revoke, sign_request, cleanup, step, after,
}
use nereus_door_loong_magic.Elevation.Lifecycle.{Keeps, Comes-step, Comes-expire_previous}

-- Codes are not empty, and each generation expires the previous code of its session.
abbrev pub Replaces : Call → Type 0
Replaces (generate r now) = (code_of r ≢ "") × (r.expire_previous ≡ true)
Replaces _ = Unit {0}

abbrev pub AllReplace : List Call → Type 0
AllReplace [] = Unit {0}
AllReplace (call ∷ calls) = Replaces call × AllReplace calls

-- A pending entry stands under the latest code of its session.
abbrev IsLatest : Service → Type 0
IsLatest s =
    (code : String) (e : Entry)
    → lookup code s.codes ≡ some e
    → e.status ≡ pending
    → (lookup e.session_id s.sessions ≡ some code) × (code ≢ "")

-- The table in which the new entry is written holds no pending entry of its session.
none_pending :
    (r : Request) (s : Service) (code : String) (e : Entry)
    → IsLatest s
    → r.expire_previous ≡ true
    → lookup code (expire_previous r s) ≡ some e
    → e.status ≡ pending
    → (e.session_id ≢ r.session_id)
none_pending r s code e inv on found open_ same =
    let (f, before, later) = Comes-expire_previous code r s e found in
    let was : f.status ≡ pending = ground (arith, later.moved) in
    let (mapped, named) = inv code f before was in
    let latest : lookup r.session_id s.sessions ≡ some code = cc (mapped, later.session_id) in
    unfold expire_previous expire_code in
    ground (
      arith,
      latest,
      before,
      found,
      open_,
      eq_iff code "",
      lookup-insert code code (expire_if_pending f) s.codes,
      eq_iff code code,
    )

IsLatest-generate :
    (r : Request) (now : ℕ) (s : Service)
    → code_of r ≢ ""
    → r.expire_previous ≡ true
    → IsLatest s
    → IsLatest (generate_code r now s).1
unfolding generate_code new_entry
IsLatest-generate r now s named on inv code e found open_ =
    let table = expire_previous r s in
    let here = lookup-insert (code_of r) code (new_entry r now) table in
    let moved = lookup-insert r.session_id e.session_id (code_of r) s.sessions in
    elim (Bool-cases (code_of r == code)) [
      | inl hit ↦
          let same : new_entry r now ≡ e = ground (arith, here) in
          (
            ground (arith, moved, same, eq_iff r.session_id e.session_id, eq_iff (code_of r) code),
            ground (arith, eq_iff (code_of r) code),
          )
      | inr miss ↦
          let kept : lookup code table ≡ some e = ground (arith, here) in
          let other = none_pending r s code e inv on kept open_ in
          let (f, before, later) = Comes-expire_previous code r s e kept in
          let (mapped, full) = inv code f before (ground (arith, later.moved)) in
          (ground (arith, moved, mapped, later.session_id, eq_iff r.session_id e.session_id), full)
    ]

-- Every other call leaves the sessions alone and makes nothing pending.
IsLatest-other :
    (s s' : Service)
    → s'.sessions ≡ s.sessions
    → ((code : String) (e' : Entry)
        → lookup code s'.codes ≡ some e'
        → e'.status ≡ pending
        → (e : Entry) × (lookup code s.codes ≡ some e)
          × (e.status ≡ pending)
          × (e'.session_id ≡ e.session_id))
    → IsLatest s
    → IsLatest s'
IsLatest-other s s' same back inv code e' found open_ =
    let (e, before, was, session) = back code e' found open_ in
    let (mapped, named) = inv code e before was in (cc (same, session, mapped), named)

IsLatest-calm :
    (c : Primitives) (call : Call) (s : Service)
    → ((code : String) → Keeps code call)
    → (step c call s).1.sessions ≡ s.sessions
    → IsLatest s
    → IsLatest (step c call s).1
IsLatest-calm c call s keeps same = IsLatest-other s (step c call s).1 same λ code e' found open_.
    let (e, before, later) = Comes-step c code s call (keeps code) e' found in
    (e, before, ground (arith, later.moved), later.session_id)

approve-sessions :
    (c : Primitives) (code by tid : String) (now : ℕ) (s : Service)
    → (approve_code c code by tid now s).1.sessions ≡ s.sessions
unfolding approve_code
approve-sessions c code by tid now s = ground arith

sign-sessions :
    (c : Primitives) (call : Call) (s : Service)
    → ((r : Request) (now : ℕ) → call ≢ generate r now)
    → (step c call s).1.sessions ≡ s.sessions
unfolding step get_code reject_code revoke_token create_signed_request cleanup_expired
sign-sessions c (generate r now) s h = absurd (h r now refl)
sign-sessions c (approve code by tid now) s h = approve-sessions c code by tid now s
sign-sessions c (get code now) s h = ground arith
sign-sessions c _ s h = ground arith

IsLatest-step :
    (c : Primitives) (call : Call) (s : Service)
    → Replaces call
    → IsLatest s
    → IsLatest (step c call s).1
unfolding step
IsLatest-step c (generate r now) s h inv = IsLatest-generate r now s h.0 h.1 inv
IsLatest-step c (get code now) s h inv =
    IsLatest-calm c (get code now) s (λ _. tt) (sign-sessions c (get code now) s (λ r n. cc)) inv
IsLatest-step c (approve code by tid now) s h inv =
    IsLatest-calm c (approve code by tid now) s (λ _. tt) (approve-sessions c code by tid now s) inv
IsLatest-step c (reject code reason) s h inv =
    IsLatest-calm c (reject code reason) s (λ _. tt)
      (sign-sessions c (reject code reason) s (λ r n. cc)) inv
IsLatest-step c (revoke tid) s h inv =
    IsLatest-calm c (revoke tid) s (λ _. tt) (sign-sessions c (revoke tid) s (λ r n. cc)) inv
IsLatest-step c (sign_request tid i args session d) s h inv =
    IsLatest-calm c (sign_request tid i args session d) s (λ _. tt)
      (sign-sessions c (sign_request tid i args session d) s (λ r n. cc)) inv
IsLatest-step c (cleanup now) s h inv =
    IsLatest-calm c (cleanup now) s (λ _. tt) (sign-sessions c (cleanup now) s (λ r n. cc)) inv

after-IsLatest :
    (c : Primitives) (calls : List Call) (s : Service)
    → AllReplace calls
    → IsLatest s
    → IsLatest (after c calls s)
unfolding after
after-IsLatest c [] s h inv = inv
after-IsLatest c (call ∷ calls) s h inv =
    after-IsLatest c calls (step c call s).1 h.1 (IsLatest-step c call s h.0 inv)

IsLatest-start : (key : String) → IsLatest (start key)
unfolding lookup
IsLatest-start key code e found open_ = absurd (ground arith)

-- In any run of a new service in which codes are not empty and each generation expires the
-- previous code of its session, two pending entries of one session stand under the same code.
pub pending_unique :
    (c : Primitives) (key : String) (calls : List Call) (a b : String) (e f : Entry)
    → AllReplace calls
    → lookup a (after c calls (start key)).codes ≡ some e
    → lookup b (after c calls (start key)).codes ≡ some f
    → e.status ≡ pending
    → f.status ≡ pending
    → e.session_id ≡ f.session_id
    → a ≡ b
pending_unique c key calls a b e f all_ at_a at_b open_a open_b same =
    let inv = after-IsLatest c calls (start key) all_ (IsLatest-start key) in
    let first = (inv a e at_a open_a).0 in
    let second = (inv b f at_b open_b).0 in
    let one : some a ≡ some b = cc (first, second, same) in cc (one)
