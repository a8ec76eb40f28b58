-- ===== src/Cleansing/PipelineIo.antt =====
-- src/cleansing/pipeline_io.py: rows as newline-delimited JSON and as CSV in the bucket.
pub mod Ndjson
pub mod Listing
use automated_outreach_proto.Prelude.{
  ℕ, zero, suc, out_of_fuel, Bool, true, false, not, ◌||◌, ◌&&◌, Option, none, some, List, [], ◌∷◌,
  ◌++◌, ◌==◌, leb, filter_by, flat_map, is_some, map, Exn, other, any, unicode_error, type_error,
  Result, ok, err, ◌>>=◌, if◌then◌else◌,
}
use automated_outreach_proto.Text.{Text, codes, is_nil}
use automated_outreach_proto.Unicode.{is_surrogate}
use automated_outreach_proto.Dict.{Dict, get, put, keys}
use automated_outreach_proto.Json.{Json, null, str, obj, Fields, end, field, entries}
use automated_outreach_proto.Suppression.Store.{Backend, Page, more_pages}

-- What the steps take from the libraries: the bucket and its texts, the JSON of one row, `str` of
-- a number or a container, and `csv.DictWriter`, given its field names.
pub record Files : Type 1 where
  pub backend : Backend
  pub decode : backend.Body → Result Text
  pub encode : Text → backend.Body
  pub dumps : Json → Text
  pub loads : Text → Result Json
  pub render : Json → Text
  pub csv_text : List Text → List (Dict Json) → Result Text

abbrev pub Objects : Files → Type 0
Objects f = Dict f.backend.Body

abbrev pub Row : Type 0
Row = Dict Json

abbrev pub fields_of : Row → Fields
fields_of [] = end
fields_of ((k, v) ∷ d) = field k v (fields_of d)

abbrev pub row_json : Row → Json
row_json row = obj (fields_of row)

-- A parsed line, where the program subscripts it with a text.
unfoldable pub as_row : Json → Result Row
as_row (obj fs) = ok (entries fs)
as_row _ = err type_error

-- Where `splitlines` before_datetime-Splits.
unfoldable pub is_line_break : ℕ → Bool
is_line_break c =
    (leb 10 c && leb c 13)
    || ((leb 28 c && leb c 30) || (c == 0x85 || (c == 0x2028 || c == 0x2029)))

abbrev pub part_step : Bool → ℕ → List Text → List Text
part_step b c [] = []
part_step true c (p ∷ ps) = [] ∷ p ∷ ps
part_step false c (p ∷ ps) = (c ∷ p) ∷ ps

-- The parts between line breaks; "\r\n" gives one more empty part than `splitlines`.
unfoldable pub line_parts : Text → List Text
line_parts [] = [] ∷ []
line_parts (c ∷ s) = part_step (is_line_break c) c (line_parts s)

-- [line for line in body.splitlines() if line]
unfoldable pub nonempty_lines : Text → List Text
nonempty_lines s = filter_by (λ p. not (is_nil p)) (line_parts s)

abbrev pub object_found {ℓ} : {A : Type ℓ} → Option A → Result A
object_found none = err (other (codes "NoSuchKey"))
object_found (some body) = ok body

unfoldable pub get_object : (f : Files) → Objects f → Text → Result f.backend.Body
get_object f objects key = object_found (get key objects)

unfoldable pub load_lines : Files → List Text → Result (List Json)
load_lines f [] = ok []
load_lines f (l ∷ ls) = do x ← f.loads l; xs ← load_lines f ls; ok (x ∷ xs)

unfoldable pub read_ndjson : (f : Files) → Objects f → Text → Result (List Json)
read_ndjson f objects key = do
  body ← get_object f objects key
  text ← f.decode body
  load_lines f (nonempty_lines text)

-- "".join(json.dumps(row) + "\n" for row in rows)
unfoldable pub ndjson : Files → List Row → Text
ndjson f rows = flat_map (λ row. f.dumps (row_json row) ++ (b'\n' ∷ [])) rows

unfoldable pub write_ndjson : (f : Files) → Text → List Row → Objects f → Objects f
write_ndjson f key rows objects = put key (f.encode (ndjson f rows)) objects

unfoldable pub step_key : Text → Text → Text
step_key run_id name = codes "staging/pipeline/" ++ (run_id ++ (codes "/" ++ name))

unfoldable pub quarantine_key : Text → Text → Text
quarantine_key run_id step =
    codes "raw/quarantine/" ++ (run_id ++ (codes "/" ++ (step ++ codes ".csv")))

-- The text is encoded and put, unless UTF-8 has no form for it.
unfoldable pub csv_stored :
    (f : Files) → Text → Text → Bool → Objects f → Result (Option Text) × Objects f
csv_stored f key text true objects = (err unicode_error, objects)
csv_stored f key text false objects = (ok (some key), put key (f.encode text) objects)

-- What write_csv does with the text that the writer made, and the key that is returned.
unfoldable pub csv_written :
    (f : Files) → Text → Result Text → Objects f → Result (Option Text) × Objects f
csv_written f key (ok text) objects = csv_stored f key text (any is_surrogate text) objects
csv_written f key (err e) objects = (err e, objects)

unfoldable pub write_quarantine :
    (f : Files) → Text → Text → List Row → Objects f → Result (Option Text) × Objects f
write_quarantine f run_id step [] objects = (ok none, objects)
write_quarantine f run_id step (r ∷ rs) objects =
    csv_written f (quarantine_key run_id step) (f.csv_text (keys r) (r ∷ rs)) objects

-- The `while` loop of `list_keys`, on fuel: one unit for each page.
unfoldable pub list_pages : (f : Files) → Objects f → Text → ℕ → Option Text → Result (List Text)
list_pages f objects prefix zero token = err out_of_fuel
list_pages f objects prefix (suc fuel) token = do
  let page = f.backend.list_objects objects prefix token
  rest ← more_pages (λ next. list_pages f objects prefix fuel (some next)) page.next
  ok (page.contents ++ rest)

unfoldable pub list_keys : (f : Files) → Objects f → Text → Result (List Text)
list_keys f objects prefix = list_pages f objects prefix f.backend.page_fuel none
