-- ===== src/Salesforce/Http.antt =====
-- src/salesforce/http.py: requests, responses, and what the clients take from the network and the
-- libraries.
use automated_outreach_proto.Prelude.{
  ℕ, Bool, Option, List, [], ◌∷◌, Result, ok, err, type_error, ℤ, pos, negsuc, true, false,
  value_error,
}
use automated_outreach_proto.Text.{Text}
use automated_outreach_proto.Unicode.{Unicode}
use automated_outreach_proto.Dict.{Dict, get, put}
use automated_outreach_proto.Json.{
  Json, boolean, int, negative, float, str, arr, obj, items, entries, index, to_str,
}

-- bytes
abbrev pub Bytes : Type 0
Bytes = List ℕ

pub record HttpRequest : Type 0 where
  pub method : Text
  pub url : Text
  pub headers : Dict Text
  pub body : Option Bytes

pub record HttpResponse : Type 0 where
  pub status : ℕ
  pub headers : Dict Text
  pub body : Bytes

-- The network, as a world that each request and each wait changes, and the standard library:
-- `json`, `bytes.decode`, `urllib.parse.quote`, `csv.DictWriter` with "\n", `str` of a number or a
-- container, `repr` of bytes, `int` of a text, of decimal digits and of a float, `==` of a float and
-- an integer, and `dict` of a list of pairs.
pub record Net : Type 1 where
  pub World : Type 0
  pub transport : HttpRequest → World → Result HttpResponse × World
  pub sleep : ℕ → World → World
  pub unicode : Unicode
  pub loads : Text → Result Json
  pub loads_bytes : Bytes → Result Json
  pub dumps : Json → Text
  pub decode : Bytes → Result Text
  pub decode_replace : Bytes → Text
  pub quote : Text → Text
  pub csv_text : List Text → List (Dict Text) → Result Text
  pub render : Json → Text
  pub repr_bytes : Bytes → Text
  pub digits_value : Text → ℕ
  pub int_text : Text → Result ℤ
  pub int_float : Text → Result ℤ
  pub float_equals : Text → ℤ → Bool
  pub dict_pairs : List Json → Result (Dict Json)

lowered : Unicode → Dict Text → Dict Text → Dict Text
lowered u [] d = d
lowered u ((k, v) ∷ hs) d = lowered u hs (put (u.lower k) v d)

-- response.header(name)
unfoldable pub header : Unicode → Text → HttpResponse → Option Text
unfolding lowered
header u name r = get (u.lower name) (lowered u r.headers [])

-- response.json()
unfoldable pub json_of : Net → HttpResponse → Result Json
json_of n r = n.loads_bytes r.body

-- x[k], for a text k
unfoldable pub subscript : Text → Json → Result Json
subscript k (obj fs) = index k (entries fs)
subscript k _ = err type_error

-- dict(x)
unfoldable pub dict_of : Net → Json → Result (Dict Json)
dict_of n (obj fs) = ok (entries fs)
dict_of n (arr xs) = n.dict_pairs (items xs)
dict_of n (str []) = ok []
dict_of n (str (c ∷ s)) = err value_error
dict_of n _ = err type_error

-- int(x)
unfoldable pub to_int : Net → Json → Result ℤ
to_int n (int k) = ok (pos k)
to_int n (negative k) = ok (negsuc k)
to_int n (boolean true) = ok (pos 1)
to_int n (boolean false) = ok (pos 0)
to_int n (float r) = n.int_float r
to_int n (str s) = n.int_text s
to_int n _ = err type_error

-- str(x)
abbrev pub text_of : Net → Json → Text
text_of n x = to_str n.render x
