-- ===== src/Crypto/Sample.antt =====
-- A concrete instance of the parameter of Crypto.antt, at which its assumptions hold: JSON is
-- written without ambiguity (its keys unsorted, which
-- the assumptions leave open), the hash is the text itself, and a signature is the key before the
-- message. It serves the tests only.
use Prim.Native.Char.{Char, code}
use Prim.Native.String.{String}
use nereus_door_loong_magic.Common.{
  ℕ, ◌≡◌, refl, ap, Bool, true, false, some, arith, ◌==◌, eq_self, text_append,
}
use nereus_door_loong_magic.Common.Json.{
  Json, null, bool, number, text, array, object, Items, nil, cons, Fields, end, field, text_items,
}
use nereus_door_loong_magic.Crypto.{Primitives}
use nereus_door_loong_magic.Crypto.Laws.{IsCollisionFree, IsKeyPair, text_items_injective}

infixr 67 ◌▹◌
abbrev ◌▹◌ : Char → String → String
c ▹ s = String.◌∷◌ c s

abbrev first_code : String → ℕ
first_code String.[] = 0
first_code (String.◌∷◌ c s) = code c

abbrev put_bool : Bool → String → String
put_bool true k = "0" ▹ k
put_bool false k = "1" ▹ k

put_text : String → String → String
put_text String.[] k = "0" ▹ k
put_text (String.◌∷◌ c s) k = "1" ▹ c ▹ put_text s k

mutual
  put_json : Json → String → String
  put_json null k = "0" ▹ k
  put_json (bool b) k = "1" ▹ put_bool b k
  put_json (number t) k = "3" ▹ put_text t k
  put_json (text t) k = "4" ▹ put_text t k
  put_json (array xs) k = "5" ▹ put_items xs k
  put_json (object fs) k = "6" ▹ put_fields fs k

  put_items : Items → String → String
  put_items nil k = "0" ▹ k
  put_items (cons x xs) k = "1" ▹ put_json x (put_items xs k)

  put_fields : Fields → String → String
  put_fields end k = "0" ▹ k
  put_fields (field n x fs) k = "1" ▹ put_text n (put_json x (put_fields fs k))

put_text_injective : (s t : String) (k l : String) → put_text s k ≡ put_text t l → (s ≡ t) × (k ≡ l)
unfolding put_text
put_text_injective String.[] String.[] k l h = (refl, cc)
put_text_injective (String.◌∷◌ c s) (String.◌∷◌ d t) k l h =
    let rest = put_text_injective s t k l (cc) in (cc (rest.0), rest.1)
put_text_injective _ _ k l h = absurd (omega (arith, ap first_code h))

put_bool_injective : (a b : Bool) (k l : String) → put_bool a k ≡ put_bool b l → (a ≡ b) × (k ≡ l)
put_bool_injective true true k l h = (refl, cc)
put_bool_injective false false k l h = (refl, cc)
put_bool_injective _ _ k l h = absurd (omega (arith, ap first_code h))

mutual
  unfolding put_json put_items put_fields

  put_json_injective : (a b : Json) (k l : String) → put_json a k ≡ put_json b l → (a ≡ b) × (k ≡ l)
  put_json_injective null null k l h = (refl, cc)
  put_json_injective (bool a) (bool b) k l h =
      let e = put_bool_injective a b k l (cc) in (cc (e.0), e.1)
  put_json_injective (number s) (number t) k l h =
      let e = put_text_injective s t k l (cc) in (cc (e.0), e.1)
  put_json_injective (text s) (text t) k l h =
      let e = put_text_injective s t k l (cc) in (cc (e.0), e.1)
  put_json_injective (array xs) (array ys) k l h =
      let e = put_items_injective xs ys k l (cc) in (cc (e.0), e.1)
  put_json_injective (object fs) (object gs) k l h =
      let e = put_fields_injective fs gs k l (cc) in (cc (e.0), e.1)
  put_json_injective _ _ k l h = absurd (omega (arith, ap first_code h))

  put_items_injective :
      (a b : Items) (k l : String) → put_items a k ≡ put_items b l → (a ≡ b) × (k ≡ l)
  put_items_injective nil nil k l h = (refl, cc)
  put_items_injective (cons x xs) (cons y ys) k l h =
      let e = put_json_injective x y (put_items xs k) (put_items ys l) (cc) in
      let f = put_items_injective xs ys k l e.1 in (cc (e.0, f.0), f.1)
  put_items_injective _ _ k l h = absurd (omega (arith, ap first_code h))

  put_fields_injective :
      (a b : Fields) (k l : String) → put_fields a k ≡ put_fields b l → (a ≡ b) × (k ≡ l)
  put_fields_injective end end k l h = (refl, cc)
  put_fields_injective (field m x fs) (field n y gs) k l h =
      let d =
        put_text_injective m n (put_json x (put_fields fs k)) (put_json y (put_fields gs l)) (cc) in
      let e = put_json_injective x y (put_fields fs k) (put_fields gs l) d.1 in
      let f = put_fields_injective fs gs k l e.1 in (cc (d.0, e.0, f.0), f.1)
  put_fields_injective _ _ k l h = absurd (omega (arith, ap first_code h))

unfoldable pub sample : Primitives
unfolding put_json put_text
sample = record {
  canonical_json = λ j. put_json j "";
  sha256_hex = λ s. s;
  key_sign = λ key message. text_append key message;
  key_verify = λ key signature message. signature == text_append key message;
  b64_encode = λ s. s;
  b64_decode = λ s. some s;
}

pub sample-IsCollisionFree : IsCollisionFree sample
unfolding sample
sample-IsCollisionFree = record {
  sha256_injective = λ a b h. h;
  text_injective = λ key a b h.
      let same : object (field key (text a) end) ≡ object (field key (text b) end) =
        (put_json_injective _ _ "" "" h).0 in
      cc;
  texts_injective = λ key xs ys h.
      let same : object (field key (array (text_items xs)) end)
          ≡ object (field key (array (text_items ys)) end) =
        (put_json_injective _ _ "" "" h).0 in
      text_items_injective xs ys (cc);
}

pub sample-IsKeyPair : (key : String) → IsKeyPair sample key key
unfolding sample
sample-IsKeyPair key = record {
  decode_encode = λ s. refl;
  accepts = λ m. eq_self (text_append key m);
}
