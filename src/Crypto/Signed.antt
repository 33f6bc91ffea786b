-- ===== src/Crypto/Signed.antt =====
-- Which headers are accepted: the signature of the body under the secret, and nothing else.
use Prim.Native.String as Native
use Prim.Native.Char.{code}
use text.Mathlib.Text.{starts_with}
use text.Mathlib.TextEquality.{starts_with_iff}
use text.Mathlib.TextPositions.{starts_with-append, slice-append_right, len-append, eq_refl}
use text.Mathlib.TextLemmas.{append-nil, cons-append, nil-append}
use nightswatch.Prelude.{
  ℕ, ◌≤◌, String, ◌≡◌, ◌↔◌, refl, sym, ap, ◌∙◌, Bool, true, false, not, ◌&&◌, Option, none, some,
  [], ◌∷◌, ◌++◌, if◌then◌else◌, str_eq, eq_iff, and_true, Bool-cases, inl, inr, ltb, arith,
}
use mathlib.Core.Path.{subst}
use nightswatch.Action.{Exception, Result, return, raise, other}
use nightswatch.Queries.{parts}
use nightswatch.Crypto.{
  Bytes, Signing, drop_text, is_ascii, compare_digest, if_true, verify_hmac_signature, sign,
  verify_signature, slack_signature, distance, is_recent, verify_slack_request,
}

parts_two : (s t : String) → parts (s ∷ t ∷ []) ≡ Native.◌++◌ s t
parts_two s t = ap (Native.◌++◌ s) (append-nil t)

drop_prefix : (u : String) → drop_text 7 (Native.◌++◌ "sha256=" u) ≡ u
drop_prefix u =
    ap (Native.slice (Native.◌++◌ "sha256=" u) 7) (len-append "sha256=" u)
    ∙ slice-append_right "sha256=" u

-- A text that begins with a character is not empty.
not_empty :
    (prefix u : String) → starts_with "" prefix ≡ false → str_eq (Native.◌++◌ prefix u) "" ≡ false
not_empty prefix u h = elim (Bool-cases (str_eq (Native.◌++◌ prefix u) "")) [
  | inl e ↦
      (let empty : Native.◌++◌ prefix u ≡ "" = (eq_iff (Native.◌++◌ prefix u) "").0 e in
        let starts = starts_with-append prefix u in absurd (cc))
  | inr e ↦ e
]

not-true : (b : Bool) → not b ≡ true → b ≡ false
not-true true h = absurd (cc)
not-true false h = refl

not_above : (d n : ℕ) → not (ltb n d) ≡ true → d ≤ n
not_above d n h = ground arith

within : (d n : ℕ) → d ≤ n → not (ltb n d) ≡ true
within d n h = ground arith

guarded : (b : Bool) (r : Result Bool) → if_true b r ≡ return true → (b ≡ true) × (r ≡ return true)
guarded true r h = (refl, h)
guarded false r h = absurd (cc)

decided : (t v : Bool) (e : Exception) → (if t then return v else raise e) ≡ return true → v ≡ true
decided true v e h = cc
decided false v e h = absurd (cc)

refused : (b : Bool) (r x : Result Bool) → (if b && false then r else x) ≡ x
refused true r x = refl
refused false r x = refl

and_assoc : (a b c : Bool) → (a && b) && c ≡ a && (b && c)
and_assoc true b c = refl
and_assoc false b c = refl

is_ascii-append : (s t : String) → is_ascii (Native.◌++◌ s t) ≡ is_ascii s && is_ascii t
is_ascii-append String.[] t = ap is_ascii (nil-append t)
is_ascii-append (String.◌∷◌ c s) t =
    ap is_ascii (cons-append c s t)
    ∙ ap (λ b. ltb (code c) 128 && b) (is_ascii-append s t)
    ∙ sym (and_assoc (ltb (code c) 128) (is_ascii s) (is_ascii t))

compared : (a b : String) → compare_digest a b ≡ return true → a ≡ b
unfolding compare_digest
compared a b h =
    (eq_iff a b).0 (decided (is_ascii a && is_ascii b) (str_eq a b) (other "TypeError") h)

compare_self : (a : String) → is_ascii a ≡ true → compare_digest a a ≡ return true
unfolding compare_digest
compare_self a e = rw (e, eq_refl a)

module _ (s : Signing) where
  -- A digest is written in hexadecimal digits.
  abbrev pub Hexadecimal : Type 0
  Hexadecimal = (secret body : Bytes) → is_ascii (s.hexdigest secret body) ≡ true

  accepted :
      (secret : String) (body : Bytes) (header : String)
      → verify_hmac_signature s (s.encode secret) body header ≡ return true
      → header ≡ sign s secret body
  unfolding verify_hmac_signature sign
  accepted secret body header h =
      let digest = s.hexdigest (s.encode secret) body in
      let (prefixed, same) =
        guarded (starts_with header "sha256=") (compare_digest digest (drop_text 7 header)) h in
      let (u, e) = (starts_with_iff header "sha256=").0 prefixed in
      let found : digest ≡ u =
        compared digest (drop_text 7 header) same ∙ ap (drop_text 7) (sym e) ∙ drop_prefix u in
      sym e ∙ ap (Native.◌++◌ "sha256=") (sym found) ∙ sym (parts_two "sha256=" digest)

  -- A header that is accepted is the signature of the body under the secret.
  pub header-sign :
      (secret : String) (body : Bytes) (header : Option String)
      → verify_signature s secret body header ≡ return true
      → header ≡ some (sign s secret body)
  unfolding verify_signature
  header-sign secret body none h = absurd (cc)
  header-sign secret body (some header) h =
      ap some (accepted secret body header (guarded (not (str_eq header "")) _ h).1)

  present : (secret : String) (body : Bytes) → str_eq (sign s secret body) "" ≡ false
  unfolding sign
  present secret body = not_empty "sha256=" (parts (s.hexdigest (s.encode secret) body ∷ [])) refl

  signed :
      Hexadecimal
      → (secret : String) (body : Bytes)
      → verify_hmac_signature s (s.encode secret) body (sign s secret body) ≡ return true
  unfolding verify_hmac_signature sign
  signed hex secret body =
      let digest = s.hexdigest (s.encode secret) body in
      rw (parts_two "sha256=" digest) (
        rw (starts_with-append "sha256=" digest, drop_prefix digest)
          (compare_self digest (hex (s.encode secret) body)))

  verify_sign :
      Hexadecimal
      → (secret : String) (body : Bytes)
      → verify_signature s secret body (some (sign s secret body)) ≡ return true
  unfolding verify_signature
  verify_sign hex secret body = rw (present secret body) (signed hex secret body)

  -- A header is accepted exactly where it is there and is the signature of the body under the
  -- secret.
  pub verify_signature_iff :
      Hexadecimal
      → (secret : String) (body : Bytes) (header : Option String)
      → (verify_signature s secret body header ≡ return true) ↔ (header ≡ some (sign s secret body))
  unfolding verify_signature
  verify_signature_iff hex secret body none = (header-sign secret body none, λ h. absurd (cc))
  verify_signature_iff hex secret body (some header) = (
    header-sign secret body (some header),
    λ e.
        let same : header ≡ sign s secret body = cc in
        subst (λ given. verify_signature s secret body (some given) ≡ return true) (sym same)
          (verify_sign hex secret body),
  )

  -- A header that goes on with a character outside ASCII after the scheme is not refused: the
  -- comparison raises TypeError, under every secret and for every body.
  pub verify_signature-raises :
      (secret u : String) (body : Bytes)
      → is_ascii u ≡ false
      → verify_signature s secret body (some (Native.◌++◌ "sha256=" u)) ≡ raise (other "TypeError")
  unfolding verify_signature compare_digest
  verify_signature-raises secret u body e =
      rw (not_empty "sha256=" u refl, starts_with-append "sha256=" u, drop_prefix u, e)
        (refused _ _ _)

  -- What a request must be: dated, by a number of seconds that is near, and signed.
  abbrev pub Authorized :
      (secret : String) (now max_age_seconds : ℕ) → Option String → Bytes → Option String → Type 0
  Authorized secret now max_age_seconds none body signature = ⊥
  Authorized secret now max_age_seconds (some timestamp) body none = ⊥
  Authorized secret now max_age_seconds (some timestamp) body (some signature) =
      (str_eq timestamp "" ≡ false)
      × ((seconds : Bool × ℕ) × (s.int timestamp ≡ some seconds)
          × (distance s now seconds ≤ max_age_seconds))
      × (signature ≡ slack_signature s secret timestamp body)

  near :
      (now max_age_seconds : ℕ) (seconds : Option (Bool × ℕ))
      → is_recent s now max_age_seconds seconds ≡ true
      → (n : Bool × ℕ) × (seconds ≡ some n) × (distance s now n ≤ max_age_seconds)
  near now max_age_seconds none h = absurd (cc)
  near now max_age_seconds (some n) h = (n, refl, not_above (distance s now n) max_age_seconds h)

  recent :
      (now max_age_seconds : ℕ) (n : Bool × ℕ)
      → distance s now n ≤ max_age_seconds
      → is_recent s now max_age_seconds (some n) ≡ true
  recent now max_age_seconds n h = within (distance s now n) max_age_seconds h

  signature_written :
      (secret timestamp : String) (body : Bytes)
      → str_eq (slack_signature s secret timestamp body) "" ≡ false
  unfolding slack_signature
  signature_written secret timestamp body = not_empty "v0=" _ refl

  signature_ascii :
      Hexadecimal
      → (secret timestamp : String) (body : Bytes)
      → is_ascii (slack_signature s secret timestamp body) ≡ true
  unfolding slack_signature
  signature_ascii hex secret timestamp body =
      let digest =
        s.hexdigest (s.encode secret)
          (s.encode "v0:" ++ (s.encode timestamp ++ (s.encode ":" ++ body))) in
      ap is_ascii (parts_two "v0=" digest)
      ∙ is_ascii-append "v0=" digest
      ∙ hex (s.encode secret) (s.encode "v0:" ++ (s.encode timestamp ++ (s.encode ":" ++ body)))

  -- A request of Slack is accepted exactly where it has a timestamp, that is a number of seconds at
  -- most `max_age_seconds` away from now, and its signature is the one of the timestamp and the body
  -- under the secret.
  pub verify_slack_request_iff :
      Hexadecimal
      → (secret : String) (now max_age_seconds : ℕ) (timestamp : Option String) (body : Bytes)
        (signature : Option String)
      → (verify_slack_request s secret now max_age_seconds timestamp body signature ≡ return true)
        ↔ Authorized secret now max_age_seconds timestamp body signature
  unfolding verify_slack_request
  verify_slack_request_iff hex secret now max_age_seconds none body signature =
      (λ h. absurd (cc), λ h. elim h [ ])
  verify_slack_request_iff hex secret now max_age_seconds (some timestamp) body none =
      (λ h. absurd (cc), λ h. elim h [ ])
  verify_slack_request_iff hex secret now max_age_seconds (some timestamp) body (some signature) = (
    λ h.
        let (written, rest) =
          guarded (not (str_eq timestamp "") && not (str_eq signature "")) _ h in
        let (recent_, same) = guarded (is_recent s now max_age_seconds (s.int timestamp)) _ rest in
        (
          not-true (str_eq timestamp "") (and_true (not (str_eq timestamp "")) _ written).0,
          near now max_age_seconds (s.int timestamp) recent_,
          sym (compared (slack_signature s secret timestamp body) signature same),
        ),
    λ (written, (n, e, le), same).
        let same' : compare_digest (slack_signature s secret timestamp body) signature
            ≡ return true =
          rw same (compare_self _ (signature_ascii hex secret timestamp body)) in
        let signed' : str_eq signature "" ≡ false =
          rw same (signature_written secret timestamp body) in
        let recent' : is_recent s now max_age_seconds (s.int timestamp) ≡ true =
          rw e (recent now max_age_seconds n le) in
        rw (written, signed', recent', same'),
  )
