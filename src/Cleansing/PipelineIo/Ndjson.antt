-- ===== src/Cleansing/PipelineIo/Ndjson.antt =====
-- What a step writes is what the next step reads.
use automated_outreach_proto.Prelude.{
  ℕ, ◌≡◌, refl, ap, Result, err, ◌∙◌, Bool, true, false, List, [], ◌∷◌, ◌++◌, any, map, arith, some,
  ok,
}
use automated_outreach_proto.Unicode.{is_surrogate}
use automated_outreach_proto.Text.{Text, codes, is_nil, text_eq}
use automated_outreach_proto.Text.Equality.{text_eq_iff}
use automated_outreach_proto.Dict.{get, put}
use automated_outreach_proto.Dict.Laws.{get-put}
use automated_outreach_proto.Json.{Json, entries}
use automated_outreach_proto.Prelude.{Option, none, sym, ok-injective}
use automated_outreach_proto.Dict.{keys}
use automated_outreach_proto.Cleansing.PipelineIo.{csv_stored}
use automated_outreach_proto.Cleansing.PipelineIo.{
  Files, Objects, Row, fields_of, row_json, as_row, is_line_break, part_step, line_parts,
  nonempty_lines, object_found, get_object, load_lines, read_ndjson, ndjson, write_ndjson,
  quarantine_key, csv_written, write_quarantine, step_key,
}

-- What the standard library documents: a decoder undoes the encoder on a text that UTF-8 has a form
-- for, and the JSON of a value is such a text, one line that is not empty and that reads back as the
-- value.
pub record IsFiles (f : Files) : Type 0 where
  pub decode-encode : (s : Text) → any is_surrogate s ≡ false → f.decode (f.encode s) ≡ ok s
  pub loads-dumps : (x : Json) → f.loads (f.dumps x) ≡ ok x
  pub one_line : (x : Json) → any is_line_break (f.dumps x) ≡ false
  pub not_empty : (x : Json) → is_nil (f.dumps x) ≡ false
  pub encodes : (x : Json) → any is_surrogate (f.dumps x) ≡ false

line_parts_nonempty : (s : Text) → (p : Text) × (ps : List Text) × (line_parts s ≡ p ∷ ps)
unfolding line_parts
line_parts_nonempty [] = ([], [], refl)
line_parts_nonempty (c ∷ s) =
    let (p, ps, e) = line_parts_nonempty s in rw e (first_part (is_line_break c) c p ps)
  where
    first_part :
        (b : Bool) (c : ℕ) (p : Text) (ps : List Text)
        → (q : Text) × (qs : List Text) × (part_step b c (p ∷ ps) ≡ q ∷ qs)
    first_part true c p ps = ([], p ∷ ps, refl)
    first_part false c p ps = (c ∷ p, ps, refl)

line_parts-newline :
    (t s : Text) → any is_line_break t ≡ false → line_parts (t ++ (b'\n' ∷ s)) ≡ t ∷ line_parts s
unfolding line_parts is_line_break
line_parts-newline [] s h = let (p, ps, e) = line_parts_nonempty s in rw e refl
line_parts-newline (c ∷ t) s h =
    let first : is_line_break c ≡ false = ground arith in
    let rest = line_parts-newline t s (ground arith) in rw (rest, first) refl

nonempty_lines-line :
    (t s : Text)
    → any is_line_break t ≡ false
    → is_nil t ≡ false
    → nonempty_lines (t ++ (b'\n' ∷ s)) ≡ t ∷ nonempty_lines s
unfolding nonempty_lines
nonempty_lines-line t s h n = rw (line_parts-newline t s h, n) refl

append_newline : (t s : Text) → (t ++ (b'\n' ∷ [])) ++ s ≡ t ++ (b'\n' ∷ s)
append_newline [] s = refl
append_newline (c ∷ t) s = ap (λ r. c ∷ r) (append_newline t s)

entries-fields_of : (row : Row) → entries (fields_of row) ≡ row
entries-fields_of [] = refl
entries-fields_of ((k, v) ∷ row) = ap (λ r. (k, v) ∷ r) (entries-fields_of row)

pub as_row-row_json : (row : Row) → as_row (row_json row) ≡ ok row
unfolding as_row
as_row-row_json row = ap ok (entries-fields_of row)

load_lines-ndjson :
    (f : Files) (i : IsFiles f) (rows : List Row)
    → load_lines f (nonempty_lines (ndjson f rows)) ≡ ok (map row_json rows)
unfolding ndjson load_lines
load_lines-ndjson f i [] = unfold nonempty_lines line_parts in refl
load_lines-ndjson f i (r ∷ rows) =
    let rest = load_lines-ndjson f i rows in
    let x = row_json r in
    ap (λ t. load_lines f (nonempty_lines t)) (append_newline (f.dumps x) (ndjson f rows))
    ∙ ap (load_lines f)
        (nonempty_lines-line (f.dumps x) (ndjson f rows) (i.one_line x) (i.not_empty x))
    ∙ rw (i.loads-dumps x, rest) refl

get_object-put :
    (f : Files) (key : Text) (body : f.backend.Body) (objects : Objects f)
    → get_object f (put key body objects) key ≡ ok body
unfolding get_object
get_object-put f key body objects =
    let stored : get key (put key body objects) ≡ some body =
      get-put key key body objects ∙ rw ((text_eq_iff key key).1 refl) refl in
    ap object_found stored

dumps-encodes :
    (t s : Text)
    → any is_surrogate t ≡ false
    → any is_surrogate s ≡ false
    → any is_surrogate ((t ++ (b'\n' ∷ [])) ++ s) ≡ false
dumps-encodes [] s h k = k
dumps-encodes (c ∷ t) s h k = ground (arith, dumps-encodes t s (ground arith) k)

ndjson-encodes :
    (f : Files) (i : IsFiles f) (rows : List Row) → any is_surrogate (ndjson f rows) ≡ false
unfolding ndjson
ndjson-encodes f i [] = refl
ndjson-encodes f i (r ∷ rows) =
    dumps-encodes (f.dumps (row_json r)) (ndjson f rows) (i.encodes (row_json r))
      (ndjson-encodes f i rows)

-- The rows that were written under a key are read back from it, in their order, whatever else the
-- bucket holds, if bytes, JSON and lines behave as documented.
pub read_ndjson-write_ndjson :
    (f : Files) (i : IsFiles f) (key : Text) (rows : List Row) (objects : Objects f)
    → read_ndjson f (write_ndjson f key rows objects) key ≡ ok (map row_json rows)
unfolding read_ndjson write_ndjson
read_ndjson-write_ndjson f i key rows objects =
    rw
      (
        get_object-put f key (f.encode (ndjson f rows)) objects,
        i.decode-encode (ndjson f rows) (ndjson-encodes f i rows),
      )
      (load_lines-ndjson f i rows)

text_eq-append : (a s t : Text) → text_eq (a ++ s) (a ++ t) ≡ text_eq s t
text_eq-append [] s t = refl
text_eq-append (c ∷ a) s t = ground (arith, text_eq-append a s t)

get_object-other :
    (f : Files) (key other : Text) (body : f.backend.Body) (objects : Objects f)
    → text_eq other key ≡ false
    → get_object f (put other body objects) key ≡ get_object f objects key
unfolding get_object
get_object-other f key other body objects d =
    ap object_found (get-put other key body objects ∙ rw d refl)

-- A write under another key does not touch the file.
pub read_ndjson-other :
    (f : Files) (key other : Text) (rows : List Row) (objects : Objects f)
    → text_eq other key ≡ false
    → read_ndjson f (write_ndjson f other rows objects) key ≡ read_ndjson f objects key
unfolding read_ndjson write_ndjson
read_ndjson-other f key other rows objects d =
    rw (get_object-other f key other (f.encode (ndjson f rows)) objects d) refl

-- Two files of one run have different keys where their names differ.
pub step_key-names :
    (run_id a b : Text) → text_eq (step_key run_id a) (step_key run_id b) ≡ text_eq a b
unfolding step_key
step_key-names run_id a b =
    text_eq-append (codes "staging/pipeline/") (run_id ++ (codes "/" ++ a))
      (run_id ++ (codes "/" ++ b))
    ∙ text_eq-append run_id (codes "/" ++ a) (codes "/" ++ b)
    ∙ text_eq-append (codes "/") a b

keys-apart :
    (run_id step other name : Text)
    → text_eq (quarantine_key run_id step) (step_key other name) ≡ false
unfolding quarantine_key step_key
keys-apart run_id step other name = refl

csv_stored-other :
    (f : Files) (key other text : Text) (lone : Bool) (objects : Objects f)
    → text_eq other key ≡ false
    → read_ndjson f (csv_stored f other text lone objects).1 key ≡ read_ndjson f objects key
unfolding csv_stored read_ndjson
csv_stored-other f key other text true objects d = refl
csv_stored-other f key other text false objects d =
    rw (get_object-other f key other (f.encode text) objects d) refl

csv_written-other :
    (f : Files) (key other : Text) (csv : Result Text) (objects : Objects f)
    → text_eq other key ≡ false
    → read_ndjson f (csv_written f other csv objects).1 key ≡ read_ndjson f objects key
unfolding csv_written
csv_written-other f key other (err e) objects d = refl
csv_written-other f key other (ok text) objects d =
    csv_stored-other f key other text (any is_surrogate text) objects d

-- A quarantine file does not touch the files of the steps.
pub write_quarantine-other :
    (f : Files) (run_id step other name : Text) (rows : List Row) (objects : Objects f)
    → read_ndjson f (write_quarantine f run_id step rows objects).1 (step_key other name)
      ≡ read_ndjson f objects (step_key other name)
unfolding write_quarantine
write_quarantine-other f run_id step other name [] objects = refl
write_quarantine-other f run_id step other name (r ∷ rs) objects =
    csv_written-other f (step_key other name) (quarantine_key run_id step) _ objects
      (keys-apart run_id step other name)

-- The quarantine file: none where there is no row, and else the CSV text of the rows, under the key.
abbrev pub IsQuarantined : (f : Files) → Text → List Row → Option Text → Objects f → Type 0
IsQuarantined f key [] q objects = q ≡ none
IsQuarantined f key (r ∷ rs) q objects =
    (text : Text) × (q ≡ some key)
    × (f.csv_text (keys r) (r ∷ rs) ≡ ok text)
    × (get_object f objects key ≡ ok (f.encode text))

csv_stored-object :
    (f : Files) (key text : Text) (lone : Bool) (objects : Objects f) (q : Option Text)
    → (csv_stored f key text lone objects).0 ≡ ok q
    → (q ≡ some key)
      × (get_object f (csv_stored f key text lone objects).1 key ≡ ok (f.encode text))
unfolding csv_stored
csv_stored-object f key text true objects q h = cc
csv_stored-object f key text false objects q h =
    (sym (ok-injective h), get_object-put f key (f.encode text) objects)

csv_written-object :
    (f : Files) (key : Text) (csv : Result Text) (objects : Objects f) (q : Option Text)
    → (csv_written f key csv objects).0 ≡ ok q
    → (text : Text) × (q ≡ some key)
      × (csv ≡ ok text)
      × (get_object f (csv_written f key csv objects).1 key ≡ ok (f.encode text))
unfolding csv_written
csv_written-object f key (err e) objects q h = cc
csv_written-object f key (ok text) objects q h =
    let (a, b) = csv_stored-object f key text (any is_surrogate text) objects q h in
    (text, a, refl, b)

pub write_quarantine-IsQuarantined :
    (f : Files) (run_id step : Text) (rows : List Row) (objects : Objects f) (q : Option Text)
    → (write_quarantine f run_id step rows objects).0 ≡ ok q
    → IsQuarantined f
        (quarantine_key run_id step)
        rows
        q
        (write_quarantine f run_id step rows objects).1
unfolding write_quarantine
write_quarantine-IsQuarantined f run_id step [] objects q h = sym (ok-injective h)
write_quarantine-IsQuarantined f run_id step (r ∷ rs) objects q h =
    csv_written-object f (quarantine_key run_id step) (f.csv_text (keys r) (r ∷ rs)) objects q h
