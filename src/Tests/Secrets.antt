-- ===== src/Tests/Secrets.antt =====
-- Encrypted blobs, signatures and the integrations that hold them.
use Prim.Native.Char.{Char, code}
use Prim.Native.String as Native
use nightswatch.Prelude.{
  ℕ, ◌≡◌, ◌↔◌, refl, String, true, false, Option, none, some, [], ◌∷◌, ◌++◌, ◌==◌, if◌then◌else◌,
  arith,
}
use nightswatch.Json
use nightswatch.Json.{text, Fields, end, field}
use nightswatch.Action.{return, raise, other}
use nightswatch.Crypto.{Aead, Bytes, Signing, encrypt, sign, verify_signature}
use nightswatch.Crypto.Blobs.{Authentic}
use nightswatch.Crypto.Signed.{verify_signature_iff, verify_signature-raises}
use nightswatch.Integrations.{
  Codec, Integration, Store, get_by_id, public_view, generate_webhook_secret, get_webhook_secret,
}
use nightswatch.Integrations.Shown.{public_view-set}
use nightswatch.Integrations.Secrets.{generate_webhook_secret-get}

abbrev tag : Bytes
tag = 0 ∷ 0 ∷ 0 ∷ 0 ∷ 0 ∷ 0 ∷ 0 ∷ 0 ∷ 0 ∷ 0 ∷ 0 ∷ 0 ∷ 0 ∷ 0 ∷ 0 ∷ 0 ∷ []

abbrev untag : Bytes → Option Bytes
untag (a ∷ b ∷ c ∷ d ∷ e ∷ f ∷ g ∷ h ∷ i ∷ j ∷ k ∷ l ∷ m ∷ n ∷ o ∷ p ∷ plaintext) = some plaintext
untag _ = none

-- The plaintext, with a tag of sixteen zeros before it.
abbrev pub aead : Aead
aead = record { encrypt = λ nonce plaintext. tag ++ plaintext; decrypt = λ nonce. untag }

aead-Authentic : Authentic aead
aead-Authentic = record {
  round_trip = λ nonce plaintext. refl;
  tagged = λ nonce plaintext. omega arith;
}

abbrev pub nonce : Bytes
nonce = 1 ∷ 2 ∷ 3 ∷ 4 ∷ 5 ∷ 6 ∷ 7 ∷ 8 ∷ 9 ∷ 10 ∷ 11 ∷ 12 ∷ []

abbrev pub signing : Signing
signing = record {
  encode = λ s. Native.len s ∷ [];
  hexdigest = λ secret body. "ab";
  int = λ s. some (false, 1000);
}

abbrev given : Option String
given = some "sha256=ab"

verify_signature_iff_example :
    (verify_signature signing "key" (104 ∷ []) given ≡ return true)
    ↔ (given ≡ some (sign signing "key" (104 ∷ [])))
verify_signature_iff_example =
    verify_signature_iff signing (λ secret body. refl) "key" (104 ∷ []) given

verify_signature-raises_example :
    verify_signature signing "key" (104 ∷ []) (some (Native.◌++◌ "sha256=" "é"))
    ≡ raise (other "TypeError")
verify_signature-raises_example = verify_signature-raises signing "key" "é" (104 ∷ []) refl

-- The texts of the letters a and b, as their codes.
abbrev encode_ab : String → Bytes
encode_ab String.[] = []
encode_ab (String.◌∷◌ c s) = code c ∷ encode_ab s

abbrev letter : ℕ → Option Char
letter n = if n == 97 then some "a" else if n == 98 then some "b" else none

abbrev put : Option Char → Option String → Option String
put (some c) (some s) = some (String.◌∷◌ c s)
put _ _ = none

abbrev decode_ab : Bytes → Option String
decode_ab [] = some ""
decode_ab (n ∷ ns) = put (letter n) (decode_ab ns)

abbrev pub codec : Codec
codec = record {
  dumps = λ config. [];
  loads = λ bytes. return (field "url" (text "http://p/") end);
  encode = encode_ab;
  decode = decode_ab;
  hostname = λ url. url;
  str = λ value. "";
}

public_view-set_example :
    public_view codec "slack" (
      Json.set "bot_token"
        (text "xoxb-2")
        (field "team_id" (text "T1") (field "bot_token" (text "xoxb-1") end)))
    ≡ public_view codec "slack"
        (field "team_id" (text "T1") (field "bot_token" (text "xoxb-1") end))
public_view-set_example =
    public_view-set codec "slack" "bot_token" (text "xoxb-2")
      (field "team_id" (text "T1") (field "bot_token" (text "xoxb-1") end)) refl

abbrev pub row : Integration
row = record {
  id = 4;
  tenant_id = 1;
  kind = "prometheus";
  name = "main";
  config_encrypted = encrypt aead nonce [];
  config_public = end;
  status = "healthy";
  last_health_check_at = none;
  webhook_signing_secret_encrypted = none;
  created_at = 10;
}

abbrev pub store : Store
store = record { rows = row ∷ []; next_id = 5 }

found : get_by_id 1 4 store ≡ some row
unfolding get_by_id
found = refl

generate_webhook_secret-get_example :
    ((generate_webhook_secret codec aead 1 nonce "ab" 4 store).0 ≡ return "ab")
    × ((row' : Integration) × (get_by_id 1 4
            (generate_webhook_secret codec aead 1 nonce "ab" 4 store).1
          ≡ some row')
        × (get_webhook_secret codec aead row' ≡ return (some "ab")))
generate_webhook_secret-get_example =
    generate_webhook_secret-get codec aead aead-Authentic 1 nonce "ab" 4 store row refl refl found
