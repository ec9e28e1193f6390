-- ===== src/Crypto/Laws.antt =====
-- What the program relies on of the cryptographic libraries, and what follows for crypto.py.
use nereus_door_loong_magic.Common.{String, List, [], ◌∷◌, ◌≡◌, refl, arith, true, some}
use nereus_door_loong_magic.Common.Json.{Json, text, array, object, end, field, text_items}
use nereus_door_loong_magic.Crypto.{Primitives, sign, verify, hash_args, hash_cmd, hash_content}

-- base64 decodes what it encoded, and a public key accepts what its private key signed.
pub record IsKeyPair (c : Primitives) (priv pub_key : String) : Type 0 where
  pub decode_encode :
      (data_bytes : String) → c.b64_decode (c.b64_encode data_bytes) ≡ some data_bytes
  pub accepts : (message : String) → c.key_verify pub_key (c.key_sign priv message) message ≡ true

-- SHA-256 has no collision, and the canonical JSON of an object with one key, whose value is a text or
-- a list of texts, determines that value; with one key, sorting the keys does nothing.
pub record IsCollisionFree (c : Primitives) : Type 0 where
  pub sha256_injective : (a b : String) → c.sha256_hex a ≡ c.sha256_hex b → a ≡ b
  pub text_injective :
      (key a b : String)
      → c.canonical_json (object (field key (text a) end))
        ≡ c.canonical_json (object (field key (text b) end))
      → a ≡ b
  pub texts_injective :
      (key : String) (xs ys : List String)
      → c.canonical_json (object (field key (array (text_items xs)) end))
        ≡ c.canonical_json (object (field key (array (text_items ys)) end))
      → xs ≡ ys

pub verify-sign :
    (c : Primitives) (priv pub_key : String) (payload : Json)
    → IsKeyPair c priv pub_key
    → verify c payload (sign c payload priv) pub_key ≡ true
unfolding verify sign
verify-sign c priv pub_key payload k = ground (
  arith,
  k.decode_encode (c.key_sign priv (c.canonical_json payload)),
  k.accepts (c.canonical_json payload),
)

pub text_items_injective : (xs ys : List String) → text_items xs ≡ text_items ys → xs ≡ ys
unfolding text_items
text_items_injective [] [] h = refl
text_items_injective [] (y ∷ ys) h = cc
text_items_injective (x ∷ xs) [] h = cc
text_items_injective (x ∷ xs) (y ∷ ys) h =
    let rest : text_items xs ≡ text_items ys = cc in cc (text_items_injective xs ys rest)

pub hash_args_injective :
    (c : Primitives) (xs ys : List String)
    → IsCollisionFree c
    → hash_args c xs ≡ hash_args c ys
    → xs ≡ ys
unfolding hash_args
hash_args_injective c xs ys free h = free.texts_injective "args" xs ys (free.sha256_injective _ _ h)

pub hash_cmd_injective :
    (c : Primitives) (a b : String) → IsCollisionFree c → hash_cmd c a ≡ hash_cmd c b → a ≡ b
unfolding hash_cmd
hash_cmd_injective c a b free h = free.text_injective "cmd" a b (free.sha256_injective _ _ h)

pub hash_content_injective :
    (c : Primitives) (a b : String)
    → IsCollisionFree c
    → hash_content c a ≡ hash_content c b
    → a ≡ b
unfolding hash_content
hash_content_injective c a b free h =
    free.text_injective "content" a b (free.sha256_injective _ _ h)
