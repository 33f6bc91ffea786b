-- ===== src/Crypto.antt =====
-- utils/crypto.py and utils/webhook_signature.py: the encrypted blobs, and the signatures of webhooks.
-- Bytes are numbers. The ciphers, the digests and the random source are the libraries'.
pub mod Blobs
pub mod Signed
use Prim.Native.Char.{code}
use Prim.Native.String as Native
use text.Mathlib.Text.{starts_with}
use nightswatch.Prelude.{
  ℕ, suc, ◌+◌, ◌-◌, String, Bool, true, false, not, ◌&&◌, ◌||◌, Option, none, some, List, [], ◌∷◌,
  ◌++◌, length, take, drop, ltb, ◌==◌, str_eq, if◌then◌else◌,
}
use nightswatch.Action.{Result, return, raise, other}
use nightswatch.Queries.{parts}

abbrev pub Bytes : Type 0
Bytes = List ℕ

-- `AESGCM(key)`: `decrypt` is `none` where it raises InvalidTag.
pub record Aead : Type 0 where
  pub encrypt : (nonce plaintext : Bytes) → Bytes
  pub decrypt : (nonce ct_and_tag : Bytes) → Option Bytes

abbrev pub blob_version : ℕ
blob_version = 1

abbrev pub nonce_len : ℕ
nonce_len = 12

-- `EnvelopeEncryptionService.__init__`: `urlsafe_b64decode` is `none` where it raises.
unfoldable pub make_service :
    (urlsafe_b64decode : String → Option Bytes) (aesgcm : Bytes → Aead)
    → (master_key_b64 : String) → Result Aead
make_service urlsafe_b64decode aesgcm master_key_b64 = elim (urlsafe_b64decode master_key_b64) [
  | none ↦ raise (other "EnvelopeEncryptionError")
  | some key ↦
      (if length key == 32 then return (aesgcm key) else raise (other "EnvelopeEncryptionError"))
]

-- `nonce` is what `secrets.token_bytes(12)` gives.
unfoldable pub encrypt : Aead → (nonce plaintext : Bytes) → Bytes
encrypt aead nonce plaintext = blob_version ∷ (nonce ++ aead.encrypt nonce plaintext)

abbrev of_decrypted : Option Bytes → Result Bytes
of_decrypted none = raise (other "EnvelopeEncryptionError")
of_decrypted (some plaintext) = return plaintext

abbrev decrypt_versioned : Aead → Bytes → Result Bytes
decrypt_versioned aead [] = raise (other "EnvelopeEncryptionError")
decrypt_versioned aead (version ∷ rest) =
    if version == blob_version
    then of_decrypted (aead.decrypt (take nonce_len rest) (drop nonce_len rest))
    else raise (other "EnvelopeEncryptionError")

unfoldable pub decrypt : Aead → Bytes → Result Bytes
decrypt aead blob =
    if ltb (length blob) (1 + nonce_len + 16)
    then raise (other "EnvelopeEncryptionError")
    else decrypt_versioned aead blob

-- `encode` is UTF-8, `hexdigest` is `hmac.new(secret, body, sha256).hexdigest()`, and `int` is
-- Python's, as a sign and a number.
pub record Signing : Type 0 where
  pub encode : String → Bytes
  pub hexdigest : (secret body : Bytes) → String
  pub int : String → Option (Bool × ℕ)

abbrev pub drop_text : ℕ → String → String
drop_text n s = Native.slice s n (Native.len s)

abbrev pub is_ascii : String → Bool
is_ascii String.[] = true
is_ascii (String.◌∷◌ c s) = ltb (code c) 128 && is_ascii s

-- `hmac.compare_digest` of two texts: it takes ASCII only.
unfoldable pub compare_digest : String → String → Result Bool
compare_digest a b =
    if is_ascii a && is_ascii b then return (str_eq a b) else raise (other "TypeError")

abbrev pub if_true : Bool → Result Bool → Result Bool
if_true b rest = if b then rest else return false

module _ (s : Signing) where
  unfoldable pub verify_hmac_signature :
      (secret body : Bytes) → (signature_header : String) → Result Bool
  verify_hmac_signature secret body signature_header =
      if_true (starts_with signature_header "sha256=")
        (compare_digest (s.hexdigest secret body) (drop_text 7 signature_header))

  unfoldable pub sign : String → Bytes → String
  sign secret body = parts ("sha256=" ∷ s.hexdigest (s.encode secret) body ∷ [])

  unfoldable pub verify_signature :
      String → Bytes → (signature_header : Option String) → Result Bool
  unfolding verify_hmac_signature
  verify_signature secret body none = return false
  verify_signature secret body (some header) =
      if_true (not (str_eq header "")) (verify_hmac_signature (s.encode secret) body header)

  unfoldable pub slack_signature : (signing_secret timestamp : String) → Bytes → String
  slack_signature signing_secret timestamp body = parts (
      "v0="
      ∷ s.hexdigest (s.encode signing_secret)
          (s.encode "v0:" ++ (s.encode timestamp ++ (s.encode ":" ++ body)))
      ∷ [])

  -- `abs(now - ts)`, in seconds.
  abbrev pub distance : (now : ℕ) → Bool × ℕ → ℕ
  distance now (true, n) = now + n
  distance now (false, n) = (now - n) + (n - now)

  abbrev pub is_recent : (now max_age_seconds : ℕ) → Option (Bool × ℕ) → Bool
  is_recent now max_age_seconds none = false
  is_recent now max_age_seconds (some ts) = not (ltb max_age_seconds (distance now ts))

  unfoldable pub verify_slack_request :
      (signing_secret : String) (now max_age_seconds : ℕ)
      → (timestamp : Option String) → Bytes
      → (signature : Option String) → Result Bool
  unfolding slack_signature
  verify_slack_request signing_secret now max_age_seconds none body signature = return false
  verify_slack_request signing_secret now max_age_seconds (some timestamp) body none = return false
  verify_slack_request signing_secret now max_age_seconds (some timestamp) body (some signature) =
      if_true (not (str_eq timestamp "") && not (str_eq signature "")) (
        if_true (is_recent now max_age_seconds (s.int timestamp))
          (compare_digest (slack_signature signing_secret timestamp body) signature))
