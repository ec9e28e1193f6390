-- ===== src/Elevation/Tests.antt =====
-- Concrete runs of gateway/service/elevation_service.py, and the theorems applied to them.
use nereus_door_loong_magic.Common.{
  ℕ, ◌≡◌, ◌≢◌, ◌≤◌, String, true, false, none, some, ◌==◌, List, [], ◌∷◌, arith, eq_iff, refl, pos,
}
use nereus_door_loong_magic.Common.Dict.{lookup, insert, keys_where, remove_all, update_values}
use nereus_door_loong_magic.Crypto.{sign, hash_args, hash_cmd}
use nereus_door_loong_magic.Crypto.Sample.{sample, sample-IsCollisionFree}
use nereus_door_loong_magic.Elevation.{
  pending, rejected, Command, Entry, Token, entry_is_expired, token_is_expired, token_is_exhausted,
  bind_commands, new_token, Service, start,
}
use nereus_door_loong_magic.Elevation.Codes.{
  Request, new_entry, expire_code, expire_previous, generate_code, approve_code, reject_code,
  revoke_token, returned,
}
use nereus_door_loong_magic.Elevation.Signing.{
  Draw, Signed, SigPayload, sig_payload, payload_json, authorise, check_channel,
  create_signed_request, cleanup_expired,
}
use nereus_door_loong_magic.Elevation.Steps.{
  Call, generate, approve, reject, sign_request, step, after, signed_count,
}
use nereus_door_loong_magic.Elevation.Budget.{left, signed_count-le-left, revoke-final}
use nereus_door_loong_magic.Elevation.Binding.{IsCovered, signed-IsCovered}
use nereus_door_loong_magic.Elevation.Lifecycle.{IsLater, after-IsLater, closed-final}
use nereus_door_loong_magic.Elevation.Sessions.{pending_unique}

abbrev mkdir : Command
mkdir = record { command = some "mkdir"; args = some ("-p" ∷ "/var/www/x" ∷ []) }

abbrev ask : Request
ask = record {
  session_id = "s1";
  commands = mkdir ∷ [];
  reason = "new site";
  ttl_seconds = 3600;
  max_ops = 1;
  code = some "NGA7-K3X9";
  drawn = "AAAA-BBBB";
  inline_cmd = none;
  inline_cmd_hash = none;
  script_path = none;
  script_hash = none;
  request_type = "privileged";
  task_id = none;
  approval_policy = none;
  expire_previous = true;
}

-- The same session asks again, under the code that is drawn.
abbrev ask_again : Request
ask_again = record ask { code = none }

abbrev draw : ℕ → Draw
draw now = record { now = now; request_uuid = "u"; nonce = "nonce-01"; timestamp = "t" }

abbrev sign_mkdir : ℕ → Call
sign_mkdir now = sign_request "tok" (pos 0) ("-p" ∷ "/var/www/x" ∷ []) "s1" (draw now)

program : Unit {0}
unfolding step after signed_count generate_code new_entry expire_previous expire_code approve_code
    reject_code revoke_token create_signed_request sig_payload authorise check_channel
    cleanup_expired new_token bind_commands entry_is_expired token_is_expired token_is_exhausted
    lookup insert keys_where remove_all update_values sample hash_args hash_cmd sign
program = tt

abbrev asked : Service
asked = after sample (generate ask 100 ∷ []) (start "key")

abbrev granted : Service
granted = after sample (generate ask 100 ∷ approve "NGA7-K3X9" "root" "tok" 200 ∷ []) (start "key")

-- The second signature is refused: the token allows one operation.
signs_once : signed_count sample "tok" (sign_mkdir 300 ∷ sign_mkdir 301 ∷ []) granted ≡ 1
unfolding program
signs_once = refl

-- Other arguments than the approved ones are refused.
wrong_args_refused :
    (create_signed_request sample "tok" (pos 0) ("/etc" ∷ []) "s1" (draw 300) granted).0 ≡ none
unfolding program
wrong_args_refused = refl

signed_count-le-left_example :
    signed_count sample "tok" (sign_mkdir 300 ∷ sign_mkdir 301 ∷ []) granted
    ≤ left (lookup "tok" granted.tokens)
signed_count-le-left_example =
    signed_count-le-left sample "tok" (sign_mkdir 300 ∷ sign_mkdir 301 ∷ []) granted (tt, (tt, tt))

revoke-final_example :
    signed_count sample "tok" (sign_mkdir 300 ∷ []) (revoke_token "tok" granted).1 ≡ 0
revoke-final_example = revoke-final sample "tok" (sign_mkdir 300 ∷ []) granted (tt, tt)

abbrev token : Token
token = record {
  token_id = "tok";
  code = "NGA7-K3X9";
  session_id = "s1";
  allowed_commands =
      record { command = "mkdir"; args_hash = hash_args sample ("-p" ∷ "/var/www/x" ∷ []) } ∷ [];
  max_ops = 1;
  ops_used = 0;
  issued_at = 200;
  ttl_seconds = 3600;
  inline_cmd = none;
  inline_cmd_hash = none;
  script_path = none;
  script_hash = none;
}

approves : (approve_code sample "NGA7-K3X9" "root" "tok" 200 asked).0 ≡ returned (some token)
unfolding program
approves = refl

abbrev asked_entry : Entry
unfolding new_entry
asked_entry = new_entry ask 100

abbrev request : Signed
unfolding sign
request =
    let p : SigPayload = record {
      request_id = "v2-u";
      command = "mkdir";
      args = "-p" ∷ "/var/www/x" ∷ [];
      args_hash = hash_args sample ("-p" ∷ "/var/www/x" ∷ []);
      token_id = "tok";
      session_id = "s1";
      timestamp = "t";
      nonce = "nonce-01";
      cmd_hash = "";
      script_path = "";
      script_hash = "";
    } in
    record { payload = p; signature = sign sample (payload_json p) "key" }

signs :
    (create_signed_request sample "tok"
      (pos 0)
      ("-p" ∷ "/var/www/x" ∷ [])
      "s1"
      (draw 300)
      (after sample [] (approve_code sample "NGA7-K3X9" "root" "tok" 200 asked).1)).0
    ≡ some request
unfolding program
signs = refl

signed-IsCovered_example :
    (e : Entry) × (lookup "NGA7-K3X9" asked.codes ≡ some e)
    × (e.status ≡ pending)
    × (entry_is_expired e 200 ≡ false)
    × IsCovered sample e 0 request
signed-IsCovered_example =
    signed-IsCovered sample "NGA7-K3X9" "root" "tok" 200 asked token [] 0 ("-p" ∷ "/var/www/x" ∷ [])
      "s1" (draw 300) request sample-IsCollisionFree approves tt signs

abbrev refuse : List Call
refuse = reject "NGA7-K3X9" "no" ∷ []

abbrev refused_entry : Entry
refused_entry = record asked_entry { status = rejected; reject_reason = some "no" }

refuses : lookup "NGA7-K3X9" (after sample refuse asked).codes ≡ some refused_entry
unfolding program
refuses = refl

after-IsLater_example :
    (e : Entry) × (lookup "NGA7-K3X9" asked.codes ≡ some e) × IsLater e refused_entry
after-IsLater_example = after-IsLater sample "NGA7-K3X9" refuse asked refused_entry (tt, tt) refuses

-- Asking again for a code does not bring back the rejected one.
stays_rejected :
    (approve_code sample "NGA7-K3X9" "root" "tok" 300
      (after sample (generate ask_again 250 ∷ []) (after sample refuse asked))).0
    ≡ returned none
stays_rejected =
    closed-final sample "NGA7-K3X9" "root" "tok" 300 (generate ask_again 250 ∷ [])
      (after sample refuse asked) refused_entry
      ((λ e. ground (arith, eq_iff "AAAA-BBBB" "NGA7-K3X9")), tt) refuses refl

abbrev twice : List Call
twice = generate ask 100 ∷ generate ask_again 150 ∷ []

abbrev second_entry : Entry
unfolding new_entry
second_entry = new_entry ask_again 150

asks_again : lookup "AAAA-BBBB" (after sample twice (start "key")).codes ≡ some second_entry
unfolding program
asks_again = refl

not_empty : (s : String) → (s == "") ≡ false → s ≢ ""
not_empty s h e = ground (arith, eq_iff s "")

pending_unique_example : ◌≡◌ {A = String} "AAAA-BBBB" "AAAA-BBBB"
unfolding new_entry
pending_unique_example =
    pending_unique sample "key" twice "AAAA-BBBB" "AAAA-BBBB" second_entry second_entry
      ((not_empty "NGA7-K3X9" refl, refl), ((not_empty "AAAA-BBBB" refl, refl), tt)) asks_again
      asks_again refl refl refl
