-- ===== src/TextTorrent/Wire.antt =====
-- src/texttorrent/client.py: what stands on the wire, without the network.
use automated_outreach_proto.Prelude.{
  ℕ, ◌-◌, Bool, true, false, not, ◌&&◌, ◌||◌, Option, none, some, List, [], ◌∷◌, ◌++◌, length, drop,
  filter_by, flat_map, leb, ◌==◌, if◌then◌else◌, texttorrent_error, is_value_error, Result, ok, err,
  type_error, ◌>>=◌, ℤ, pos, negsuc,
}
use automated_outreach_proto.Text.{Text, codes, text_eq, contains}
use automated_outreach_proto.Unicode.{Unicode, encode}
use automated_outreach_proto.Dict.{Dict}
use automated_outreach_proto.Json.{
  Json, null, boolean, int, negative, str, arr, obj, entries, Items, nil, cons, Fields, end, field,
  truthy, iterate, as_dict, index, get_or,
}
use automated_outreach_proto.Salesforce.Http.{
  Bytes, HttpRequest, HttpResponse, Net, subscript, dict_of, to_int, text_of,
}

pub record Credentials : Type 0 where
  pub api_sid : Json
  pub public_key : Json

pub record Client : Type 0 where
  pub creds : Credentials
  pub base : Text

abbrev pub base_url : Text
base_url = codes "https://api.texttorrent.com/api/v1"

unfoldable pub ten_digits : Unicode → Text → Text
ten_digits u phone = let digits = filter_by u.is_decimal phone in drop (length digits - 10) digits

-- The boundary behind "tt-", and the form.
abbrev form_part : Text → Text × Text → Text
form_part boundary (name, value) =
    codes "--"
    ++ (boundary
        ++ (codes "\r\nContent-Disposition: form-data; name=\""
            ++ (name ++ (codes "\"\r\n\r\n" ++ (value ++ codes "\r\n")))))

unfoldable pub multipart : Text → Dict Text → Result Bytes
multipart hex fields =
    let boundary = codes "tt-" ++ hex in
    encode (flat_map (form_part boundary) fields ++ (codes "--" ++ (boundary ++ codes "--\r\n")))

abbrev pub number_or : Text → Json → List Text → List Text
number_or key (str s) deeper = if text_eq key (codes "number") then s ∷ [] else deeper
number_or key _ deeper = deeper

unfoldable mutual
  pub scan_numbers : Json → List Text
  scan_numbers (obj fs) = scan_fields fs
  scan_numbers (arr xs) = scan_items xs
  scan_numbers _ = []

  pub scan_items : Items → List Text
  scan_items nil = []
  scan_items (cons x xs) = scan_numbers x ++ scan_items xs

  pub scan_fields : Fields → List Text
  scan_fields end = []
  scan_fields (field k v fs) = number_or k v (scan_numbers v) ++ scan_fields fs

-- A request has a JSON body, a form with the hexadecimal digits of its boundary, or no body.
pub data Payload : Type 0 where
  no_body : Payload
  json_body : Json → Payload
  form : Text → Dict Text → Payload

-- The body and its content type.
unfoldable pub body_of : Net → Payload → Result (Option Bytes × Dict Text)
body_of n no_body = ok (none, [])
body_of n (json_body x) = do
  body ← encode (n.dumps x)
  ok (some body, (codes "Content-Type", codes "application/json") ∷ [])
body_of n (form hex fields) = do
  body ← multipart hex fields
  ok (some body, (codes "Content-Type", codes "multipart/form-data; boundary=tt-" ++ hex) ∷ [])

-- A header's value, as the HTTP library sends it: a text, or a number in digits.
abbrev header_value : Net → Json → Result Text
header_value n (str s) = ok s
header_value n (int k) = ok (text_of n (int k))
header_value n (negative k) = ok (text_of n (negative k))
header_value n (boolean b) = ok (text_of n (boolean b))
header_value n _ = err type_error

unfoldable pub request_of : Net → Client → Text → Text → Payload → Result HttpRequest
request_of n c method path payload = do
  (body, content_type) ← body_of n payload
  sid ← header_value n c.creds.api_sid
  key ← header_value n c.creds.public_key
  ok (record {
    method = method;
    url = c.base ++ path;
    headers =
        (codes "X-API-SID", sid)
        ∷ (codes "X-API-PUBLIC-KEY", key)
        ∷ (codes "Accept", codes "application/json")
        ∷ content_type;
    body = body;
  })

abbrev pub is_refused : ℕ → Bool
is_refused status = (status == 401 || (status == 403 || status == 429)) || leb 500 status

-- What json.loads made of the text.
unfoldable pub envelope_of : ℕ → Text → Result Json → Result Json
envelope_of status raw (ok envelope) = ok envelope
envelope_of status raw (err e) =
    if is_value_error e then err (texttorrent_error (pos status) raw) else err e

unfoldable pub answer_of : Net → HttpResponse → Result Json
answer_of n r =
    let raw = n.decode_replace r.body in
    if is_refused r.status
    then err (texttorrent_error (pos r.status) raw)
    else envelope_of r.status raw (n.loads raw)

-- x.get(k), x or y
abbrev pub get_in : Text → Json → Result Json
get_in k x = do d ← as_dict x; ok (get_or k null d)

abbrev pub or_else : Json → Json → Json
or_else x y = if truthy x then x else y

abbrev pub is_dict : Json → Bool
is_dict (obj fs) = true
is_dict _ = false

abbrev pub is_null : Json → Bool
is_null null = true
is_null _ = false

-- raise TextTorrentApiError(int(envelope.get("code") or 0), message)
unfoldable pub refusal {ℓ} : {A : Type ℓ} → Net → Dict Json → Text → Result A
refusal n envelope message = do
  code ← to_int n (or_else (get_or (codes "code") null envelope) (int 0))
  err (texttorrent_error code message)

abbrev new_chat : Net → Json → Result (Option ℤ)
new_chat n data' = do id ← subscript (codes "id") data'; number ← to_int n id; ok (some number)

-- envelope.get("success")
abbrev pub succeeded : Dict Json → Bool
succeeded envelope = truthy (get_or (codes "success") null envelope)

-- The answer on a new chat: its id, or none where there is one already.
unfoldable pub chat_created : Net → Dict Json → Result (Option ℤ)
chat_created n envelope =
    let data' = get_or (codes "data") null envelope in
    let message = text_of n (get_or (codes "message") (str []) envelope) in
    if succeeded envelope && is_dict data'
    then new_chat n data'
    else if contains (n.unicode.lower message) (codes "already started")
    then ok none
    else refusal n envelope message

abbrev chat_number : Net → Json → Result (Option ℤ)
chat_number n id = do number ← to_int n id; ok (some number)

-- The first chat of the list with an id.
unfoldable pub first_chat : Net → List Json → Result (Option ℤ)
first_chat n [] = ok none
first_chat n (obj fs ∷ chats) =
    let rest = first_chat n chats in
    let id = get_or (codes "chat_id") null (entries fs) in
    if is_null id then rest else chat_number n id
first_chat n (chat ∷ chats) = first_chat n chats

-- (envelope.get("data") or {}).get("data") or []
unfoldable pub chats_of : Json → Result (List Json)
chats_of envelope = do
  data' ← get_in (codes "data") envelope
  chats ← get_in (codes "data") (or_else data' (obj end))
  iterate (or_else chats (arr nil))

-- ((envelope.get("data") or {}).get(name) or {}).get("data") or []
unfoldable pub listed : Text → Json → Result (List Json)
listed name envelope = do
  data' ← get_in (codes "data") envelope
  named ← get_in name (or_else data' (obj end))
  entries ← get_in (codes "data") (or_else named (obj end))
  iterate (or_else entries (arr nil))

unfoldable pub dicts_of : Net → List Json → Result (List (Dict Json))
dicts_of n [] = ok []
dicts_of n (x ∷ xs) = do d ← dict_of n x; ds ← dicts_of n xs; ok (d ∷ ds)

-- The numbers of a page of the blocked list.
unfoldable pub numbers_of : Net → List Json → Result (List Text)
numbers_of n [] = ok []
numbers_of n (obj fs ∷ xs) = do
  number ← subscript (codes "number") (obj fs)
  rest ← numbers_of n xs
  ok (text_of n number ∷ rest)
numbers_of n (x ∷ xs) = numbers_of n xs

-- An integer as the value that `json` and `str` take.
abbrev pub json_int : ℤ → Json
json_int (pos k) = int k
json_int (negsuc k) = negative k

-- The refusal of what did not succeed, with str(envelope.get("message")).
unfoldable pub unless_refused {ℓ} : {A : Type ℓ} → Net → Dict Json → Result A → Result A
unless_refused n envelope done =
    if not (succeeded envelope)
    then refusal n envelope (text_of n (get_or (codes "message") null envelope))
    else done

-- dict(envelope["data"])
unfoldable pub message_sent : Net → Dict Json → Result (Dict Json)
message_sent n envelope = unless_refused n envelope (index (codes "data") envelope >>= dict_of n)
