-- ===== src/Salesforce/Auth.antt =====
-- src/salesforce/auth.py: a signed assertion, exchanged for an access token.
use automated_outreach_proto.Prelude.{
  ℕ, ◌+◌, not, some, [], ◌∷◌, ◌++◌, ◌==◌, if◌then◌else◌, Exn, auth_error, attribute_error, Result,
  ok, err,
}
use automated_outreach_proto.Prelude.{◌>>=◌}
use automated_outreach_proto.Text.{Text, codes}
use automated_outreach_proto.Text.Space.{rstrip_of}
use automated_outreach_proto.Unicode.{encode}
use automated_outreach_proto.Dict.{Dict}
use automated_outreach_proto.Json.{Json, int, str, obj, field, end}
use automated_outreach_proto.Salesforce.Http.{
  Bytes, HttpRequest, HttpResponse, Net, json_of, subscript, text_of,
}

-- base64.urlsafe_b64encode, urllib.parse.urlencode, and the signature by a key in PEM form.
pub record Crypto : Type 0 where
  pub urlsafe_b64encode : Bytes → Bytes
  pub urlencode : Dict Text → Text
  pub rsa_sign : Bytes → Bytes → Result Bytes

pub record Credentials : Type 0 where
  pub client_id : Json
  pub username : Json
  pub login_url : Json
  pub private_key_pem : Json

abbrev pub jwt_expiry_seconds : ℕ
jwt_expiry_seconds = 300

abbrev pub jwt_bearer_grant : Text
jwt_bearer_grant = codes "urn:ietf:params:oauth:grant-type:jwt-bearer"

unfoldable pub load_credentials : Net → (Text → Result Text) → Text → Result Credentials
load_credentials n get_secret secret_id = do
  text ← get_secret secret_id
  data' ← n.loads text
  client_id ← subscript (codes "client_id") data'
  username ← subscript (codes "username") data'
  login_url ← subscript (codes "login_url") data'
  private_key ← subscript (codes "private_key") data'
  ok (record {
    client_id = client_id;
    username = username;
    login_url = login_url;
    private_key_pem = private_key;
  })

unfoldable pub b64url : Net → Crypto → Bytes → Result Text
b64url n k bytes = n.decode (rstrip_of (λ c. c == b'=') (k.urlsafe_b64encode bytes))

-- A text, where the program calls its `encode`.
abbrev encodable : Json → Result Text
encodable (str s) = ok s
encodable _ = err attribute_error

-- `now` is the time in seconds.
unfoldable pub build_assertion : Net → Crypto → Credentials → ℕ → Result Text
build_assertion n k creds now = do
  head ← encode (n.dumps (obj (field (codes "alg") (str (codes "RS256")) end)))
  header ← b64url n k head
  payload ← encode (
      n.dumps (
        obj (
          field (codes "iss") creds.client_id (
            field (codes "sub") creds.username (
              field (codes "aud") creds.login_url
                (field (codes "exp") (int (now + jwt_expiry_seconds)) end))))))
  claims ← b64url n k payload
  let signing_input = header ++ (b'.' ∷ claims)
  pem ← encodable creds.private_key_pem
  key ← encode pem
  message ← encode signing_input
  signature ← k.rsa_sign key message
  signed ← b64url n k signature
  ok (signing_input ++ (b'.' ∷ signed))

abbrev token_request : Net → Credentials → Bytes → HttpRequest
token_request n creds body = record {
  method = codes "POST";
  url = text_of n creds.login_url ++ codes "/services/oauth2/token";
  headers = (codes "Content-Type", codes "application/x-www-form-urlencoded") ∷ [];
  body = some body;
}

abbrev token_failed : Net → HttpResponse → Exn
token_failed n r =
    auth_error
      (codes "token request failed: " ++ (text_of n (int r.status) ++ (b' ' ∷ n.repr_bytes r.body)))

-- The token and the URL of the instance, from the response.
unfoldable pub token_of : Net → HttpResponse → Result (Text × Text)
token_of n r = if not (r.status == 200) then err (token_failed n r) else (do
  payload ← json_of n r
  access_token ← subscript (codes "access_token") payload
  instance_url ← subscript (codes "instance_url") payload
  ok (text_of n access_token, text_of n instance_url))

abbrev exchanged : (n : Net) → Result HttpResponse × n.World → Result (Text × Text) × n.World
exchanged n (err e, w) = (err e, w)
exchanged n (ok r, w) = (token_of n r, w)

abbrev requested : (n : Net) → Credentials → Result Bytes → n.World → Result (Text × Text) × n.World
requested n creds (err e) w = (err e, w)
requested n creds (ok body) w = exchanged n (n.transport (token_request n creds body) w)

unfoldable pub get_access_token :
    (n : Net) → Crypto → Credentials → ℕ → n.World → Result (Text × Text) × n.World
get_access_token n k creds now w =
    requested n creds
      (do
        assertion ← build_assertion n k creds now
        encode (
            k.urlencode
              ((codes "grant_type", jwt_bearer_grant) ∷ (codes "assertion", assertion) ∷ [])))
      w
