-- ===== src/InternalRpc/Tests.antt =====
-- Concrete connections to the server of internal_rpc/server.py, and the theorems applied to them.
use nereus_door_loong_magic.Common.{
  ℕ, ◌≡◌, ◌≢◌, false, Option, none, some, [], ◌∷◌, arith, refl, ◌==◌, if◌then◌else◌,
}
use nereus_door_loong_magic.Common.Dict.{lookup, insert, keys_where, remove_all}
use nereus_door_loong_magic.Common.Json.{Json, null, text}
use nereus_door_loong_magic.Crypto.{sign, verify}
use nereus_door_loong_magic.Crypto.Sample.{sample}
use nereus_door_loong_magic.Replay.{naive, is_fresh, check_and_store}
use nereus_door_loong_magic.InternalRpc.{
  Request, success, failure, nonce_replay, signature_expired, Config, Input, admitted, admit,
  handle_raw, serve, sign_request_payload, verify_request_signature, verify_peercred,
}
use nereus_door_loong_magic.InternalRpc.Guards.{IsAdmitted, no_replay, success-IsAdmitted}

program : Unit {0}
unfolding handle_raw serve verify_request_signature sign_request_payload verify_peercred verify sign
    is_fresh check_and_store lookup insert keys_where remove_all sample
program = tt

abbrev config : Config
config = record {
  primitives = sample;
  from_iso = λ t. if t == "noon" then some (naive 1000) else none;
  allowed_uids = 0 ∷ 1000 ∷ [];
  public_key = some "key";
  tolerance = 30;
  nonce_ttl = 300;
  handlers = ("ping", (λ p. some (text "pong"))) ∷ [];
}

abbrev unsigned : Request
unsigned = record {
  request_id = "r1";
  method = "ping";
  params = null;
  caller = null;
  timestamp = "noon";
  nonce = "nonce-0001";
  signature = "";
}

abbrev ping : Request
ping = record unsigned { signature = sign_request_payload sample unsigned "key" }

abbrev at_ : ℕ → Input
at_ now = record { is_empty = false; peer = some 1000; parsed = some ping; now = now }

answers : (handle_raw config (at_ 1010) []).0 ≡ success (text "pong")
unfolding program
answers = refl

-- The same request again: first the nonce is known, later the timestamp is stale.
replays_refused :
    ((handle_raw config (at_ 1020) (handle_raw config (at_ 1010) []).1).0 ≡ failure nonce_replay)
    × ((handle_raw config (at_ 1400) (handle_raw config (at_ 1010) []).1).0
        ≡ failure signature_expired)
unfolding program
replays_refused = (refl, refl)

admits : (admit config (at_ 1010) []).0 ≡ admitted ping
unfolding program
admits = refl

no_replay_example :
    (admit config (at_ 1400) (serve config (at_ 1020 ∷ []) (handle_raw config (at_ 1010) []).1)).0
    ≢ admitted ping
no_replay_example =
    no_replay config (at_ 1010) (at_ 1400) (at_ 1020 ∷ []) [] ping ping (omega arith) tt
      (omega arith) refl refl admits

success-IsAdmitted_example :
    (r : Request) × (handler : Json → Option Json) × IsAdmitted config (at_ 1010) [] r
    × (lookup r.method config.handlers ≡ some handler)
    × (handler r.params ≡ some (text "pong"))
success-IsAdmitted_example = success-IsAdmitted config (at_ 1010) [] (text "pong") answers
