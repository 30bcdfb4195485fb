-- ===== src/Broker/Approval.antt =====
-- `_verify_approval` of tool_broker.py and the digests that it compares.
use Prim.Native.String.{◌++◌ as concat}
use vheatm.Prelude.{
  ℕ, String, ◌≡◌, refl, Bool, true, false, not, Option, none, some, List, [], ◌∷◌, arith, ◌==◌,
  eq_iff, ◌≤◌, ◌<◌, ltb, leb, lookup, Outcome, ok, raised, ◌>>=◌, or_raise, replace_zone,
  if◌then◌else◌,
}
use vheatm.Json.{Fields, get, remove, json_eq}
use vheatm.Broker.{Services, Broker, object_field, text_field}

module _ (S : Services) where
  -- `_canonical_digest`
  unfoldable pub canonical_digest : Fields → String
  canonical_digest value = S.sha256 (S.dumps value)

  unfoldable pub request_digest : Fields → String
  unfolding canonical_digest
  request_digest request = canonical_digest request

  unfoldable pub action_digest : Fields → String
  unfolding canonical_digest remove
  action_digest request = canonical_digest (remove "request_id" (remove "requester" request))

  unfoldable pub expected_approval_token_id : Fields → String
  unfolding canonical_digest remove
  expected_approval_token_id token =
      concat "APR-" (S.upper (canonical_digest (remove "token_id" (remove "signature" token))))

  unfoldable pub approval_signing_payload : Fields → String
  unfolding remove
  approval_signing_payload token = S.dumps (remove "signature" token)

  -- `_parse_datetime`; both ways to fail are a ValueError with a message.
  unfoldable pub parse_utc : String → Outcome String ℕ
  unfolding replace_zone
  parse_utc value = do
    parsed ← S.parse_datetime (replace_zone value)
    or_raise parsed "approval token timestamps must include a timezone"

  -- `a[k] == b[j]`, of keys that the schemas require.
  abbrev pub agree : String → Fields → String → Fields → Bool
  agree k a j b = elim (get k a) [
    | none ↦ false
    | some v ↦ elim (get j b) [ none ↦ false | some w ↦ json_eq S.python v w ]
  ]

  abbrev Checked : Type 0
  Checked = Option String × String

  abbrev refuse : String → Checked
  refuse reason = (none, reason)

  -- The rest, once the key is found.
  unfoldable pub check_signature : Fields → Option String → Checked
  check_signature token none = refuse "approval token signing key is unknown"
  check_signature token (some key) =
      if not (
        S.hmac_sha256 key (approval_signing_payload token)
        == text_field "value" (object_field "signature" token))
      then refuse "approval token signature is invalid"
      else if not (text_field "token_id" token == expected_approval_token_id token)
      then refuse "approval token_id does not match signed claims"
      else (some (text_field "token_id" token), "approval verified")

  abbrev pub signing_key : Broker → Fields → Option String
  signing_key b token = lookup (text_field "key_id" (object_field "signature" token)) b.keyring

  unfoldable pub check_times : Broker → Fields → Outcome String ℕ → Outcome String ℕ → ℕ → Checked
  check_times b token (ok issued_at) (ok expires_at) now =
      if ltb now issued_at
      then refuse "approval token was issued in the future"
      else if leb expires_at issued_at
      then refuse "approval token expiry must be after issuance"
      else if leb expires_at now
      then refuse "approval token has expired"
      else check_signature token (signing_key b token)
  check_times b token (ok issued_at) (raised e) now =
      refuse (concat "approval token timestamp is invalid: " e)
  check_times b token (raised e) _ now = refuse (concat "approval token timestamp is invalid: " e)

  abbrev pub time_of : String → Fields → Outcome String ℕ
  time_of k token = parse_utc (text_field k token)

  -- The checks behind the schema.
  unfoldable pub check_claims : Broker → Fields → Fields → ℕ → Checked
  check_claims b request token now =
      if not (agree "requester" token "requester" request)
      then refuse "approval token requester does not match the tool request"
      else if not (agree "tool_class" token "tool_class" request)
      then refuse "approval token tool class does not match the tool request"
      else if not (agree "exact_scope" token "scope" request)
      then refuse "approval token scope does not exactly match the tool request"
      else if not (text_field "request_digest" token == request_digest request)
      then refuse "approval token is not bound to the complete tool request"
      else check_times b token (time_of "issued_at" token) (time_of "expires_at" token) now

  abbrev check_schema : Broker → Fields → Fields → ℕ → List String → Checked
  check_schema b request token now [] = check_claims b request token now
  check_schema b request token now (e ∷ es) =
      refuse (concat "approval token schema validation failed: " e)

  unfoldable pub verify_approval : Broker → Fields → Option Fields → ℕ → Checked
  verify_approval b request none now = refuse "tool class requires an explicit approval token"
  verify_approval b request (some token) now =
      check_schema b request token now (S.token_errors token)

  -- What a verified token has been checked for.
  pub record IsVerified (b : Broker) (request token : Fields) (now : ℕ) (id : String) : Type 0 where
    pub well_formed : S.token_errors token ≡ []
    pub same_requester : agree "requester" token "requester" request ≡ true
    pub same_class : agree "tool_class" token "tool_class" request ≡ true
    pub same_scope : agree "exact_scope" token "scope" request ≡ true
    pub bound : text_field "request_digest" token ≡ request_digest request
    pub issued : (t : ℕ) × (time_of "issued_at" token ≡ ok t) × (t ≤ now)
    pub unexpired : (t : ℕ) × (time_of "expires_at" token ≡ ok t) × (now < t)
    pub signed :
        (key : String) × (signing_key b token ≡ some key)
        × (S.hmac_sha256 key (approval_signing_payload token)
            ≡ text_field "value" (object_field "signature" token))
    pub named : id ≡ expected_approval_token_id token

  check_signature-verified :
      (token : Fields) (found : Option String) (id : String)
      → (check_signature token found).0 ≡ some id
      → (id ≡ expected_approval_token_id token)
        × ((key : String) × (found ≡ some key)
            × (S.hmac_sha256 key (approval_signing_payload token)
                ≡ text_field "value" (object_field "signature" token)))
  unfolding check_signature
  check_signature-verified token none id h = cc
  check_signature-verified token (some key) id h =
      let payload = approval_signing_payload token in
      let signature = text_field "value" (object_field "signature" token) in
      let token_id = text_field "token_id" token in
      let signed = eq_iff (S.hmac_sha256 key payload) signature in
      let named = eq_iff token_id (expected_approval_token_id token) in
      (ground (arith, signed, named), (key, refl, ground (arith, signed, named)))

  check_times-verified :
      (b : Broker) (token : Fields) (issued expires : Outcome String ℕ) (now : ℕ) (id : String)
      → (check_times b token issued expires now).0 ≡ some id
      → ((t : ℕ) × (issued ≡ ok t) × (t ≤ now))
        × ((t : ℕ) × (expires ≡ ok t) × (now < t))
        × ((check_signature token (signing_key b token)).0 ≡ some id)
  unfolding check_times
  check_times-verified b token (ok i) (ok e) now id h =
      ((i, refl, ground arith), (e, refl, ground arith), ground arith)
  check_times-verified b token (ok i) (raised m) now id h = cc
  check_times-verified b token (raised m) expires now id h = cc

  check_claims-parts :
      (b : Broker) (request token : Fields) (now : ℕ) (id : String)
      → (check_claims b request token now).0 ≡ some id
      → (agree "requester" token "requester" request ≡ true)
        × (agree "tool_class" token "tool_class" request ≡ true)
        × (agree "exact_scope" token "scope" request ≡ true)
        × (text_field "request_digest" token ≡ request_digest request)
        × ((check_times b token (time_of "issued_at" token) (time_of "expires_at" token) now).0
            ≡ some id)
  unfolding check_claims
  check_claims-parts b request token now id h =
      ground (arith, eq_iff (text_field "request_digest" token) (request_digest request))

  check_claims-IsVerified :
      (b : Broker) (request token : Fields) (now : ℕ) (id : String)
      → (check_claims b request token now).0 ≡ some id
      → S.token_errors token ≡ []
      → IsVerified b request token now id
  check_claims-IsVerified b request token now id h k =
      let (requester, class, scope, bound, timed) = check_claims-parts b request token now id h in
      let (issued, unexpired, checked) = check_times-verified b token _ _ now id timed in
      let (named, signed) = check_signature-verified token (signing_key b token) id checked in
      record {
        well_formed = k;
        same_requester = requester;
        same_class = class;
        same_scope = scope;
        bound = bound;
        issued = issued;
        unexpired = unexpired;
        signed = signed;
        named = named;
      }

  check_schema-IsVerified :
      (b : Broker) (request token : Fields) (now : ℕ) (id : String) (errors : List String)
      → S.token_errors token ≡ errors
      → (check_schema b request token now errors).0 ≡ some id
      → IsVerified b request token now id
  check_schema-IsVerified b request token now id [] e h =
      check_claims-IsVerified b request token now id h e
  check_schema-IsVerified b request token now id (m ∷ ms) e h = cc

  -- A token that is accepted has passed every check, for this request and at this time.
  pub verify_approval-IsVerified :
      (b : Broker) (request : Fields) (given : Option Fields) (now : ℕ) (id : String)
      → (verify_approval b request given now).0 ≡ some id
      → (token : Fields) × (given ≡ some token) × IsVerified b request token now id
  unfolding verify_approval
  verify_approval-IsVerified b request none now id h = cc
  verify_approval-IsVerified b request (some token) now id h =
      (token, refl, check_schema-IsVerified b request token now id (S.token_errors token) refl h)
