-- ===== src/Crypto.antt =====
-- privileged_agent/crypto.py: canonical JSON, signing, verification and payload hashes.
-- The libraries `json`, `hashlib`, `base64` and `cryptography` are the parameter `Primitives`;
-- a key is represented by its PEM text and a byte string by a text.
pub mod Laws
pub mod Sample
use nereus_door_loong_magic.Common.{String, List, Bool, true, false, Option, none, some}
use nereus_door_loong_magic.Common.Json.{Json, text, array, object, end, field, text_items}

pub record Primitives : Type 0 where
  -- json.dumps(payload, sort_keys=True, separators=(",", ":")).encode("utf-8")
  pub canonical_json : Json → String
  -- hashlib.sha256(data).hexdigest()
  pub sha256_hex : String → String
  -- private_key.sign(data); public_key.verify(signature, data), which raises InvalidSignature
  pub key_sign : String → String → String
  pub key_verify : String → String → String → Bool
  -- base64.b64encode(data).decode("ascii"); b64decode raises on malformed input
  pub b64_encode : String → String
  pub b64_decode : String → Option String

unfoldable pub sign : Primitives → Json → String → String
sign c payload priv = c.b64_encode (c.key_sign priv (c.canonical_json payload))

-- Any exception is caught and reads as a failed verification.
unfoldable pub verify : Primitives → Json → String → String → Bool
verify c payload signature_b64 pub_key = elim (c.b64_decode signature_b64) [
  | none ↦ false
  | some sig ↦ c.key_verify pub_key sig (c.canonical_json payload)
]

unfoldable pub hash_payload : Primitives → Json → String
hash_payload c payload = c.sha256_hex (c.canonical_json payload)

-- The three payloads that the program hashes: `{"args": [...]}`, `{"cmd": "..."}` and
-- `{"content": "..."}`.
unfoldable pub hash_args : Primitives → List String → String
unfolding hash_payload text_items
hash_args c args = hash_payload c (object (field "args" (array (text_items args)) end))

unfoldable pub hash_cmd : Primitives → String → String
unfolding hash_payload
hash_cmd c cmd = hash_payload c (object (field "cmd" (text cmd) end))

unfoldable pub hash_content : Primitives → String → String
unfolding hash_payload
hash_content c content = hash_payload c (object (field "content" (text content) end))
