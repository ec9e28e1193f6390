-- ===== src/Elevation/Steps.antt =====
-- The service as a machine: the calls of ElevationService as data, one step for each call, and the
-- signed requests that a run of calls hands out.
use nereus_door_loong_magic.Common.{
  ℕ, ◌+◌, ◌<◌, ◌≡◌, ◌≢◌, String, false, ◌==◌, Option, none, some, List, [], ◌∷◌, if◌then◌else◌, ℤ,
  arith, eq_iff,
}
use nereus_door_loong_magic.Common.Dict.{lookup}
use nereus_door_loong_magic.Crypto.{Primitives}
use nereus_door_loong_magic.Elevation.{
  Token, Allowed, Service, token_is_expired, token_is_exhausted,
}
use nereus_door_loong_magic.Elevation.Codes.{
  Request, generate_code, get_code, approve_code, reject_code, revoke_token,
}
use nereus_door_loong_magic.Elevation.Signing.{
  Signed, Draw, Channel, allowed_at, check_channel, authorise, create_signed_request,
  cleanup_expired,
}

pub data Call : Type 0 where
  generate : Request → ℕ → Call
  get : String → ℕ → Call
  approve : (code by tid : String) → ℕ → Call
  reject : (code reason : String) → Call
  revoke : (tid : String) → Call
  sign_request : (tid : String) → ℤ → List String → (session : String) → Draw → Call
  cleanup : (now : ℕ) → Call

unfoldable pub step : Primitives → Call → Service → Option Signed × Service
step c (generate r now) s = (none, (generate_code r now s).1)
step c (get code now) s = (none, (get_code code now s).1)
step c (approve code by tid now) s = (none, (approve_code c code by tid now s).1)
step c (reject code reason) s = (none, reject_code code reason s)
step c (revoke tid) s = (none, (revoke_token tid s).1)
step c (sign_request tid index args session d) s =
    create_signed_request c tid index args session d s
step c (cleanup now) s = (none, cleanup_expired now s)

unfoldable pub after : Primitives → List Call → Service → Service
after c [] s = s
after c (call ∷ calls) s = after c calls (step c call s).1

-- 1 where a signed request names the token
abbrev pub names : String → Option Signed → ℕ
names tid none = 0
names tid (some r) = if r.payload.token_id == tid then 1 else 0

-- How many of the requests that the run hands out name the token.
unfoldable pub signed_count : Primitives → String → List Call → Service → ℕ
signed_count c tid [] s = 0
signed_count c tid (call ∷ calls) s =
    names tid (step c call s).0 + signed_count c tid calls (step c call s).1

-- No approval in the run draws the token's identifier anew: `uuid4` does not repeat.
abbrev pub Spares : String → Call → Type 0
Spares tid (approve code by new now) = new ≢ tid
Spares tid _ = Unit {0}

abbrev pub AllSpare : String → List Call → Type 0
AllSpare tid [] = Unit {0}
AllSpare tid (call ∷ calls) = Spares tid call × AllSpare tid calls

-- What holds where create_signed_request passes its guards.
pub record Authorised (c : Primitives) (tid : String) (index : ℤ) (args : List String)
    (session : String) (now : ℕ) (s : Service) (t : Token) (a : Allowed) (ch : Channel)
    : Type 0 where
  pub found : lookup tid s.tokens ≡ some t
  pub unexpired : token_is_expired t now ≡ false
  pub room : t.ops_used < t.max_ops
  pub same_session : t.session_id ≡ session
  pub allowed : allowed_at t index ≡ some a
  pub channel : check_channel c t a args ≡ some ch

pub authorise-eq-some :
    (c : Primitives) (tid : String) (index : ℤ) (args : List String) (session : String) (now : ℕ)
    (s : Service) (t : Token) (a : Allowed) (ch : Channel)
    → authorise c tid index args session now s ≡ some (t, a, ch)
    → Authorised c tid index args session now s t a ch
unfolding authorise token_is_exhausted
authorise-eq-some c tid index args session now s t a ch h = record {
  found = ground arith;
  unexpired = ground arith;
  room = ground arith;
  same_session = ground (arith, (eq_iff t.session_id session));
  allowed = ground arith;
  channel = ground arith;
}
