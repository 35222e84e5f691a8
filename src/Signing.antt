-- ===== src/Signing.antt =====
-- packages/core/src/signing.ts: canonical JSON, device identities and signatures. What the source
-- takes from the platform and from @noble is the record `Platform`.
use tangentfeed.Prelude.{
  ℕ, Bool, true, false, not, ◌&&◌, ◌||◌, Option, none, some, List, [], ◌∷◌, ◌++◌, Text, codes,
  text_ltb, length, take, all, ◌==◌, leb, if◌then◌else◌,
}
use tangentfeed.Values.{Value, Items, Fields, string, array, object, nil, item, end, field}
use tangentfeed.Hlc.{pad_start, to_hex}

-- Bytes are numbers below 256.
abbrev pub Bytes : Type 0
Bytes = List ℕ

pub record DeviceKey : Type 0 where
  pub public_key : Bytes
  pub private_key : Bytes

pub record Platform : Type 0 where
  -- `JSON.stringify(v)` of a value that is no object, and `JSON.stringify(v).length` of any
  pub stringify : Value → Text
  pub json_length : Value → ℕ
  -- `new TextEncoder().encode`
  pub utf8 : Text → Bytes
  pub sha256 : Bytes → Bytes
  pub ed25519_sign : Bytes → Bytes → Bytes
  -- signature, payload, key; `none` where it throws
  pub ed25519_verify : Bytes → Bytes → Bytes → Option Bool
  pub btoa : Bytes → Text
  -- `none` where it throws
  pub atob : Text → Option Bytes

abbrev pub signing_domain : Text
signing_domain = codes "tangentfeed/v2/op"

-- `Object.keys(value).sort()`, where each key carries its property's canonical form.
unfoldable pub insert_key : Text → Text → List (Text × Text) → List (Text × Text)
insert_key k v [] = (k, v) ∷ []
insert_key k v ((j, w) ∷ ks) =
    if text_ltb j k then (j, w) ∷ insert_key k v ks else (k, v) ∷ (j, w) ∷ ks

unfoldable pub sort_keys : List (Text × Text) → List (Text × Text)
unfolding insert_key
sort_keys [] = []
sort_keys ((k, v) ∷ ks) = insert_key k v (sort_keys ks)

-- `parts.join(",")`
unfoldable pub join : List Text → Text
join [] = []
join (x ∷ []) = x
join (x ∷ y ∷ xs) = x ++ b',' ∷ join (y ∷ xs)

-- `/^[A-Za-z0-9+/]*={0,2}$/`
unfoldable pub is_base64_char : ℕ → Bool
is_base64_char c =
    (leb b'A' c && leb c b'Z')
    || (leb b'a' c && leb c b'z')
    || (leb b'0' c && leb c b'9')
    || c == b'+'
    || c == b'/'

pub is_base64 : Text → Bool
unfolding is_base64_char
is_base64 [] = true
is_base64 (c ∷ s) =
    let rest = is_base64 s in
    (is_base64_char c && rest) || (c == b'=' && all (λ d. d == b'=') s && leb (length s) 1)

-- `digest[i].toString(16).padStart(2, "0")` over the bytes
unfoldable pub hex : Bytes → Text
unfolding pad_start to_hex
hex [] = []
hex (b ∷ bs) = pad_start 2 (to_hex b) ++ hex bs

module _ (p : Platform) where
  open p use {stringify, utf8, sha256, ed25519_sign, ed25519_verify, btoa, atob}

  -- `JSON.stringify(k) + ":" + canonicalJson(value[k])`
  unfoldable pub entries_text : List (Text × Text) → List Text
  entries_text [] = []
  entries_text ((k, v) ∷ ks) = (stringify (string k) ++ b':' ∷ v) ∷ entries_text ks

  unfoldable mutual
    unfolding insert_key sort_keys join entries_text

    pub canonical_json : Value → Text
    canonical_json (array xs) = b'[' ∷ (join (canonical_items xs) ++ b']' ∷ [])
    canonical_json (object fs) =
        b'{' ∷ (join (entries_text (sort_keys (canonical_fields fs))) ++ b'}' ∷ [])
    canonical_json v = stringify v

    pub canonical_items : Items → List Text
    canonical_items nil = []
    canonical_items (item v xs) = canonical_json v ∷ canonical_items xs

    pub canonical_fields : Fields → List (Text × Text)
    canonical_fields end = []
    canonical_fields (field k v fs) = (k, canonical_json v) ∷ canonical_fields fs

  unfoldable pub device_id_from_public_key : Bytes → Text
  unfolding hex
  device_id_from_public_key public_key = hex (take 16 (sha256 public_key))

  unfoldable pub sign_payload : Bytes → Bytes → Text
  sign_payload payload private_key = btoa (ed25519_sign payload private_key)

  abbrev base64_decode : Text → Option Bytes
  base64_decode s = if not (is_base64 s) then none else atob s

  -- `try { … } catch { return false; }`
  unfoldable pub verify_payload : Bytes → Text → Bytes → Bool
  unfolding is_base64
  verify_payload payload signature public_key = elim (base64_decode signature) [
    | none ↦ false
    | some sig ↦
        if not (length sig == 64)
        then false
        else elim (ed25519_verify sig payload public_key) [ none ↦ false | some valid ↦ valid ]
  ]
