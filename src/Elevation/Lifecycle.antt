-- ===== src/Elevation/Lifecycle.antt =====
-- The life of one code in gateway/service/elevation_service.py: which changes of its status the
-- calls can make, and what of it never changes.
use nereus_door_loong_magic.Common.{
  ℕ, ◌≡◌, ◌≢◌, String, Bool, true, false, Option, none, some, ◌==◌, inl, inr, List, [], ◌∷◌, arith,
  eq_iff, Option-cases, Bool-cases,
}
use nereus_door_loong_magic.Common.Dict.{
  Dict, insert, lookup, lookup-insert, lookup-remove_all, lookup-update_values, update_values,
  keys_where,
}
use nereus_door_loong_magic.Crypto.{Primitives}
use nereus_door_loong_magic.Elevation.{
  Status, pending, approved, rejected, expired, consumed, Entry, entry_is_expired, new_token,
  Service,
}
use nereus_door_loong_magic.Elevation.Codes.{
  is_pending, is_closed, Request, code_of, new_entry, expire_if_pending, expire_if_open,
  expire_code, expire_previous, generate_code, get_code, approve_code, approve_entry, reject_code,
  revoke_token, returned,
}
use nereus_door_loong_magic.Elevation.Signing.{create_signed_request, cleanup_expired, is_stale}
use nereus_door_loong_magic.Elevation.Steps.{
  Call, generate, get, approve, reject, revoke, sign_request, cleanup, step, after,
}

-- pending → approved, rejected, expired; approved → expired; nothing else changes.
abbrev pub may_move : Status → Status → Bool
may_move pending approved = true
may_move pending rejected = true
may_move pending expired = true
may_move approved expired = true
may_move pending pending = true
may_move approved approved = true
may_move rejected rejected = true
may_move expired expired = true
may_move consumed consumed = true
may_move _ _ = false

-- `e'` is a later state of the entry `e`.
pub record IsLater (e e' : Entry) : Type 0 where
  pub moved : may_move e.status e'.status ≡ true
  pub commands : e'.commands ≡ e.commands
  pub session_id : e'.session_id ≡ e.session_id
  pub requested_at : e'.requested_at ≡ e.requested_at
  pub ttl_seconds : e'.ttl_seconds ≡ e.ttl_seconds
  pub max_ops : e'.max_ops ≡ e.max_ops

abbrev pub Comes : Option Entry → Option Entry → Type 0
Comes before later = (e' : Entry) → later ≡ some e' → (e : Entry) × (before ≡ some e) × IsLater e e'

abbrev pub entry_of : String → Service → Option Entry
entry_of code s = lookup code s.codes

-- The call makes no new entry under the code.
abbrev pub Keeps : String → Call → Type 0
Keeps code (generate r now) = code_of r ≢ code
Keeps code _ = Unit {0}

abbrev pub AllKeep : String → List Call → Type 0
AllKeep code [] = Unit {0}
AllKeep code (call ∷ calls) = Keeps code call × AllKeep code calls

IsLater-refl : (e : Entry) → IsLater e e
IsLater-refl e = ground arith

IsLater-trans : (e f g : Entry) → IsLater e f → IsLater f g → IsLater e g
IsLater-trans e f g p q = ground arith

Comes-refl : (o : Option Entry) → Comes o o
Comes-refl o e' h = (e', h, IsLater-refl e')

expire_if_pending-IsLater : (e : Entry) → IsLater e (expire_if_pending e)
expire_if_pending-IsLater e = ground arith

expire_if_open-IsLater : (now : ℕ) (e : Entry) → IsLater e (expire_if_open now e)
expire_if_open-IsLater now e = ground arith

-- One entry of the table is replaced by a later state of it.
Comes-insert :
    (code other : String) (e f : Entry) (codes : Dict Entry)
    → lookup other codes ≡ some e
    → IsLater e f
    → Comes (lookup code codes) (lookup code (insert other f codes))
Comes-insert code other e f codes found later e' h = elim (Bool-cases (other == code)) [
  | inl hit ↦
      let same : f ≡ e' = ground (arith, lookup-insert other code f codes) in
      (e, rw (← (eq_iff other code).0 hit) found, rw same at later)
  | inr miss ↦ (e', ground (arith, lookup-insert other code f codes), IsLater-refl e')
]

Comes-expire_code :
    (code other : String) (codes : Dict Entry)
    → Comes (lookup code codes) (lookup code (expire_code other codes))
unfolding expire_code
Comes-expire_code code other codes e' h = elim (Option-cases (lookup other codes)) [
  | inl none_ ↦ (e', ground arith, IsLater-refl e')
  | inr (e, found) ↦
      Comes-insert code other e (expire_if_pending e) codes found (expire_if_pending-IsLater e) e'
        (ground arith)
]

pub Comes-expire_previous :
    (code : String) (r : Request) (s : Service)
    → Comes (lookup code s.codes) (lookup code (expire_previous r s))
unfolding expire_previous
Comes-expire_previous code r s e' h = elim (Bool-cases r.expire_previous) [
  | inr off ↦ (e', ground arith, IsLater-refl e')
  | inl on ↦ elim (Option-cases (lookup r.session_id s.sessions)) [
    | inl none_ ↦ (e', ground arith, IsLater-refl e')
    | inr (old, found) ↦ elim (Bool-cases (old == "")) [
      | inl empty ↦ (e', ground arith, IsLater-refl e')
      | inr named ↦ Comes-expire_code code old s.codes e' (ground arith)
    ]
  ]
]

Comes-cleanup :
    (code : String) (now : ℕ) (s : Service)
    → Comes (lookup code s.codes) (lookup code (cleanup_expired now s).codes)
unfolding cleanup_expired
Comes-cleanup code now s e' h =
    let marked = update_values (expire_if_open now) s.codes in
    let deleted = lookup-remove_all (keys_where (is_stale now) marked) code marked in
    let mapped = lookup-update_values (expire_if_open now) code s.codes in
    elim (Option-cases (lookup code s.codes)) [
      | inl none_ ↦ absurd (ground (arith, deleted, mapped))
      | inr (e, found) ↦
          let same : expire_if_open now e ≡ e' = ground (arith, deleted, mapped) in
          (e, found, rw same at (expire_if_open-IsLater now e))
    ]

pub Comes-generate :
    (code : String) (r : Request) (now : ℕ) (s : Service)
    → code_of r ≢ code
    → Comes (lookup code s.codes) (lookup code (generate_code r now s).1.codes)
unfolding generate_code
Comes-generate code r now s other e' h = Comes-expire_previous code r s e' (
    ground (
      arith,
      eq_iff (code_of r) code,
      lookup-insert (code_of r) code (new_entry r now) (expire_previous r s),
    ))

module _ (c : Primitives) (code : String) (s : Service) where
  Comes-get :
      (other : String) (now : ℕ) → Comes (entry_of code s) (entry_of code (get_code other now s).1)
  unfolding get_code
  Comes-get other now e' h = elim (Option-cases (lookup other s.codes)) [
    | inl none_ ↦ (e', ground arith, IsLater-refl e')
    | inr (e, found) ↦
        Comes-insert code other e (expire_if_open now e) s.codes found
          (expire_if_open-IsLater now e) e' (ground arith)
  ]

  Comes-reject :
      (other reason : String) → Comes (entry_of code s) (entry_of code (reject_code other reason s))
  unfolding reject_code
  Comes-reject other reason e' h = elim (Option-cases (lookup other s.codes)) [
    | inl none_ ↦ (e', ground arith, IsLater-refl e')
    | inr (e, found) ↦ elim (Bool-cases (is_pending e.status)) [
      | inl open_ ↦
          Comes-insert code other e (record e { status = rejected; reject_reason = some reason })
            s.codes found (ground arith) e' (ground arith)
      | inr closed ↦ (e', ground arith, IsLater-refl e')
    ]
  ]

  Comes-approve :
      (other by tid : String) (now : ℕ)
      → Comes (entry_of code s) (entry_of code (approve_code c other by tid now s).1)
  unfolding approve_code
  Comes-approve other by tid now e' h = elim (Option-cases (lookup other s.codes)) [
    | inl none_ ↦ (e', ground arith, IsLater-refl e')
    | inr (e, found) ↦ elim (Bool-cases (is_pending e.status)) [
      | inl open_ ↦ elim (Bool-cases (entry_is_expired e now)) [
        | inl late ↦
            Comes-insert code other e (record e { status = expired }) s.codes found (ground arith)
              e' (ground arith)
        | inr early ↦
            Comes-insert code other e (approve_entry by tid now e) s.codes found (ground arith) e'
              (elim (Option-cases (new_token c tid (approve_entry by tid now e) now)) [
                | inl malformed ↦ ground arith
                | inr (t, built) ↦ ground arith
              ])
      ]
      | inr closed ↦ (e', ground arith, IsLater-refl e')
    ]
  ]

  pub Comes-step :
      (call : Call) → Keeps code call → Comes (entry_of code s) (entry_of code (step c call s).1)
  unfolding step revoke_token create_signed_request
  Comes-step (generate r now) h = Comes-generate code r now s h
  Comes-step (get other now) h = Comes-get other now
  Comes-step (approve other by tid now) h = Comes-approve other by tid now
  Comes-step (reject other reason) h = Comes-reject other reason
  Comes-step (revoke tid) h = λ e' there. (e', ground arith, IsLater-refl e')
  Comes-step (sign_request tid index args session d) h =
      λ e' there. (e', ground arith, IsLater-refl e')
  Comes-step (cleanup now) h = Comes-cleanup code now s

-- In any run that generates no entry under the code again, an entry found under it at the end was
-- there at the start with the same commands, session, request time, lifetime and operation limit,
-- and its status has only moved from pending to approved, rejected or expired, or from approved to
-- expired.
pub after-IsLater :
    (c : Primitives) (code : String) (calls : List Call) (s : Service) (e' : Entry)
    → AllKeep code calls
    → lookup code (after c calls s).codes ≡ some e'
    → (e : Entry) × (lookup code s.codes ≡ some e) × IsLater e e'
unfolding after
after-IsLater c code [] s e' h there = (e', there, IsLater-refl e')
after-IsLater c code (call ∷ calls) s e' h there =
    let (f, mid, later) = after-IsLater c code calls (step c call s).1 e' h.1 there in
    let (e, first, before) = Comes-step c code s call h.0 f mid in
    (e, first, IsLater-trans e f e' before later)

-- A code that was rejected or has expired is never approved: whatever calls follow, unless the
-- code is generated again, approve_code returns no token for it.
pub closed-final :
    (c : Primitives) (code by tid : String) (now : ℕ) (calls : List Call) (s : Service) (e : Entry)
    → AllKeep code calls
    → lookup code s.codes ≡ some e
    → is_closed e.status ≡ true
    → (approve_code c code by tid now (after c calls s)).0 ≡ returned none
unfolding approve_code
closed-final c code by tid now calls s e h found closed =
    elim (Option-cases (lookup code (after c calls s).codes)) [
      | inl none_ ↦ ground arith
      | inr (e', there) ↦
          let (f, first, later) = after-IsLater c code calls s e' h there in
          let same : f ≡ e = ground arith in ground (arith, later.moved)
    ]
