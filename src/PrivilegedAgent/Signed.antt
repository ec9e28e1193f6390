-- ===== src/PrivilegedAgent/Signed.antt =====
-- The two ends of the V2 protocol: what create_signed_request of
-- gateway/service/elevation_service.py signs, _handle_v2 of privileged_agent/server.py accepts.
use nereus_door_loong_magic.Common.{
  ◌≡◌, String, true, some, List, arith, refl, ℤ, Option-cases, inl, inr,
}
use nereus_door_loong_magic.Crypto.{Primitives, sign, verify}
use nereus_door_loong_magic.Crypto.Laws.{IsKeyPair, verify-sign}
use nereus_door_loong_magic.Elevation.{Token, Allowed}
use nereus_door_loong_magic.Elevation
use nereus_door_loong_magic.Elevation.Signing
use nereus_door_loong_magic.Elevation.Signing.{
  Draw, Signed, SigPayload, payload_json, create_signed_request, check_channel,
}
use nereus_door_loong_magic.PrivilegedAgent.Server.{
  V2Request, Config, sig_payload, verify_signature,
}

-- The signed dict as PrivilegedV2Request reads it.
abbrev pub request_of : Signed → V2Request
request_of s = record {
  request_id = s.payload.request_id;
  command = s.payload.command;
  args = s.payload.args;
  args_hash = s.payload.args_hash;
  token_id = s.payload.token_id;
  session_id = s.payload.session_id;
  timestamp = s.payload.timestamp;
  nonce = s.payload.nonce;
  signature = s.signature;
  cmd_hash = s.payload.cmd_hash;
  script_path = s.payload.script_path;
  script_hash = s.payload.script_hash;
}

-- Both ends build the same JSON.
payloads_agree : (s : Signed) → sig_payload (request_of s) ≡ payload_json s.payload
unfolding sig_payload payload_json
payloads_agree s = refl

signed_payload :
    (c : Primitives) (tid : String) (index : ℤ) (args : List String) (session : String) (d : Draw)
    (s : Elevation.Service) (r : Signed)
    → (create_signed_request c tid index args session d s).0 ≡ some r
    → r.signature ≡ sign c (payload_json r.payload) s.priv_key
unfolding create_signed_request
signed_payload c tid index args session d s r h =
    elim (Option-cases (Signing.authorise c tid index args session d.now s)) [
      | inl refused ↦ absurd (ground arith)
      | inr ((t, a, ch), passed) ↦ ground arith
    ]

-- A request that the elevation service signs passes the signature check of the agent that has the
-- matching public key, if base64 and Ed25519 keep what they promise.
pub signed-verifies :
    (cfg : Config) (tid : String) (index : ℤ) (args : List String) (session : String) (d : Draw)
    (s : Elevation.Service) (r : Signed) (key : String)
    → IsKeyPair cfg.primitives s.priv_key key
    → cfg.public_key ≡ some key
    → (create_signed_request cfg.primitives tid index args session d s).0 ≡ some r
    → verify_signature cfg (request_of r) ≡ true
unfolding verify_signature
signed-verifies cfg tid index args session d s r key pair configured signed =
    let made = signed_payload cfg.primitives tid index args session d s r signed in
    let passes = verify-sign cfg.primitives s.priv_key key (payload_json r.payload) pair in
    let m2 : r.signature ≡ sign cfg.primitives (sig_payload (request_of r)) s.priv_key =
      cc (made, payloads_agree r) in
    let p2 : verify cfg.primitives (sig_payload (request_of r)) r.signature key ≡ true =
      cc (passes, payloads_agree r) in
    rw (configured, p2)
