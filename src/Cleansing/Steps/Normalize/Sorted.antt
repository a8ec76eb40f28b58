-- ===== src/Cleansing/Steps/Normalize/Sorted.antt =====
-- What becomes of the rows of a batch: each is kept in normal form, or quarantined with its reason.
use automated_outreach_proto.Prelude.{
  ◌≡◌, refl, sym, ap, ◌∙◌, true, ◌||◌, Option, none, some, List, [], ◌∷◌, length, is_some, map,
  Result, ok, err, ◌>>=◌, >>=-eq-ok, ok-injective,
}
use automated_outreach_proto.Text.{Text, codes}
use automated_outreach_proto.Dict.{Dict, get, put}
use automated_outreach_proto.Json.{Json, str, index, index_iff, to_str}
use automated_outreach_proto.Cleansing.Normalize.{
  normalize_company, normalize_phone, normalize_email,
}
use automated_outreach_proto.Cleansing.PipelineIo.{
  Files, Objects, Row, as_row, row_json, read_ndjson, write_ndjson, write_quarantine,
  quarantine_key,
}
use automated_outreach_proto.Cleansing.PipelineIo.Ndjson.{
  IsFiles, IsQuarantined, read_ndjson-write_ndjson, write_quarantine-other,
  write_quarantine-IsQuarantined,
}
use automated_outreach_proto.Cleansing.Steps.Suppress.{opt_text, object_key, object_key-str}
use automated_outreach_proto.Cleansing.Steps.Normalize.{
  Outcome, kept, json_text, with_identifiers, with_company, normalize_row, normalize_rows,
  kept_rows, quarantined_rows, Report, out_key, report, conclude, decisions, handler,
}

-- A field that is a text or null.
abbrev pub text_field : Text → Row → Result (Option Text)
text_field k row = index k row >>= opt_text

-- A row as it is kept: the row with its three fields set to the normal forms of what they held, one
-- of the two identifiers being there.
pub record IsNormal (f : Files) (row normal : Row) : Type 0 where
  pub company : Text
  pub phone : Option Text
  pub email : Option Text
  pub raw_company : Option Text
  pub raw_phone : Option Text
  pub raw_email : Option Text
  pub has_company : text_field (codes "company_name") row ≡ ok raw_company
  pub has_phone : text_field (codes "phone") row ≡ ok raw_phone
  pub has_email : text_field (codes "email") row ≡ ok raw_email
  pub made_company : normalize_company f.backend.unicode raw_company ≡ some company
  pub made_phone : normalize_phone f.backend.unicode f.backend.phones raw_phone ≡ phone
  pub made_email : normalize_email f.backend.unicode raw_email ≡ email
  pub identified : (is_some phone || is_some email) ≡ true
  pub whole :
      normal
      ≡ put
          (codes "email")
          (json_text email)
          (put (codes "phone") (json_text phone) (put (codes "company_name") (str company) row))

-- Why a row is quarantined.
pub data Refused (f : Files) (row : Row) : Text → Type 0 where
  no_company :
      (raw : Option Text)
      → text_field (codes "company_name") row ≡ ok raw
      → normalize_company f.backend.unicode raw ≡ none
      → Refused f row (codes "company_empty_after_normalization")
  no_identifier :
      (phone email : Option Text)
      → text_field (codes "phone") row ≡ ok phone
      → text_field (codes "email") row ≡ ok email
      → normalize_phone f.backend.unicode f.backend.phones phone ≡ none
      → normalize_email f.backend.unicode email ≡ none
      → Refused f row (codes "no_valid_identifier")

-- The rows of a batch, and those that go to the two files, in order.
pub data Sorted (f : Files) : List Json → List Row → List Row → Type 0 where
  no_row : Sorted f [] [] []
  keeps :
      (x : Json) (row normal : Row) {xs : List Json} {good bad : List Row}
      → as_row x ≡ ok row
      → IsNormal f row normal
      → Sorted f xs good bad
      → Sorted f (x ∷ xs) (normal ∷ good) bad
  refuses :
      (x : Json) (row : Row) (why : Text) {xs : List Json} {good bad : List Row}
      → as_row x ≡ ok row
      → Refused f row why
      → Sorted f xs good bad
      → Sorted f (x ∷ xs) good (put (codes "reason") (str why) row ∷ bad)

-- A row with its outcome, in front of the others.
abbrev Placed : Files → Json → Outcome → Type 0
Placed f x o =
    (xs : List Json) (os : List Outcome)
    → Sorted f xs (kept_rows os) (quarantined_rows os)
    → Sorted f (x ∷ xs) (kept_rows (o ∷ os)) (quarantined_rows (o ∷ os))

module _ (f : Files) (x : Json) (row : Row) (is_row : as_row x ≡ ok row)
    (raw_company raw_phone raw_email : Option Text) (company : Text)
    (has_company : text_field (codes "company_name") row ≡ ok raw_company)
    (has_phone : text_field (codes "phone") row ≡ ok raw_phone)
    (has_email : text_field (codes "email") row ≡ ok raw_email)
    (made_company : normalize_company f.backend.unicode raw_company ≡ some company) where
  kept-Placed :
      (phone email : Option Text)
      → normalize_phone f.backend.unicode f.backend.phones raw_phone ≡ phone
      → normalize_email f.backend.unicode raw_email ≡ email
      → (is_some phone || is_some email) ≡ true
      → Placed f x (
          kept (
            put (codes "email") (json_text email) (
              put
                (codes "phone")
                (json_text phone)
                (put (codes "company_name") (str company) row))))
  kept-Placed phone email p e i xs os s =
      keeps x row _ is_row
        (record {
          company = company;
          phone = phone;
          email = email;
          raw_company = raw_company;
          raw_phone = raw_phone;
          raw_email = raw_email;
          has_company = has_company;
          has_phone = has_phone;
          has_email = has_email;
          made_company = made_company;
          made_phone = p;
          made_email = e;
          identified = i;
          whole = refl;
        })
        s

  with_identifiers-Placed :
      (phone email : Option Text)
      → normalize_phone f.backend.unicode f.backend.phones raw_phone ≡ phone
      → normalize_email f.backend.unicode raw_email ≡ email
      → Placed f x (with_identifiers row company phone email)
  unfolding with_identifiers
  with_identifiers-Placed none none p e xs os s =
      refuses x row (codes "no_valid_identifier") is_row
        (no_identifier raw_phone raw_email has_phone has_email p e) s
  with_identifiers-Placed none (some m) p e xs os s = kept-Placed none (some m) p e refl xs os s
  with_identifiers-Placed (some k) none p e xs os s = kept-Placed (some k) none p e refl xs os s
  with_identifiers-Placed (some k) (some m) p e xs os s =
      kept-Placed (some k) (some m) p e refl xs os s

field-eq :
    (k : Text) (row : Row) (v : Json) (t : Option Text)
    → index k row ≡ ok v
    → opt_text v ≡ ok t
    → text_field k row ≡ ok t
field-eq k row v t p q = ap (λ r. r >>= opt_text) p ∙ q

with_company-Placed :
    (f : Files) (x : Json) (row : Row) (raw company : Option Text) (o : Outcome)
    → as_row x ≡ ok row
    → text_field (codes "company_name") row ≡ ok raw
    → normalize_company f.backend.unicode raw ≡ company
    → with_company f row company ≡ ok o
    → Placed f x o
unfolding with_company
with_company-Placed f x row raw none o i c m h =
    rw (← ok-injective h) (λ xs os s.
      refuses x row (codes "company_empty_after_normalization") i (no_company raw c m) s)
with_company-Placed f x row raw (some company) o i c m h =
    let (p, a1, h1) = >>=-eq-ok (index (codes "phone") row) _ h in
    let (phone, a2, h2) = >>=-eq-ok (opt_text p) _ h1 in
    let (e, a3, h3) = >>=-eq-ok (index (codes "email") row) _ h2 in
    let (email, a4, h4) = >>=-eq-ok (opt_text e) _ h3 in
    rw (← ok-injective h4) (
      with_identifiers-Placed f x row i raw phone email company c
        (field-eq (codes "phone") row p phone a1 a2) (field-eq (codes "email") row e email a3 a4) m
        _ _ refl refl)

row-Placed : (f : Files) (x : Json) (o : Outcome) → normalize_row f x ≡ ok o → Placed f x o
unfolding normalize_row
row-Placed f x o h =
    let (row, i, h1) = >>=-eq-ok (as_row x) _ h in
    let (c, p, h2) = >>=-eq-ok (index (codes "company_name") row) _ h1 in
    let (raw, q, h3) = >>=-eq-ok (opt_text c) _ h2 in
    with_company-Placed f x row raw _ o i (field-eq (codes "company_name") row c raw p q) refl h3

rows-Sorted :
    (f : Files) (xs : List Json) (os : List Outcome)
    → normalize_rows f xs ≡ ok os
    → Sorted f xs (kept_rows os) (quarantined_rows os)
unfolding normalize_rows
rows-Sorted f [] os h = rw (← ok-injective h) no_row
rows-Sorted f (x ∷ xs) os h =
    let (o, p, h1) = >>=-eq-ok (normalize_row f x) _ h in
    let (rest, q, h2) = >>=-eq-ok (normalize_rows f xs) _ h1 in
    rw (← ok-injective h2) (row-Placed f x o p xs rest (rows-Sorted f xs rest q))

-- The two files of a run, and what the report says of them.
pub record IsPartitioned (f : Files) (xs : List Json) (r : Report) (objects : Objects f)
    : Type 0 where
  pub good : List Row
  pub bad : List Row
  pub sorted : Sorted f xs good bad
  pub rows_in : r.rows_in ≡ length xs
  pub rows_out : r.rows_out ≡ length good
  pub rows_quarantined : r.rows_quarantined ≡ length bad
  pub kept_file : read_ndjson f objects r.key ≡ ok (map row_json good)
  pub quarantine_file :
      IsQuarantined f
        (quarantine_key (to_str f.render r.run_id) (codes "02_normalize"))
        bad
        r.quarantine_key
        objects

conclude-IsPartitioned :
    (f : Files) (i : IsFiles f) (bucket run_id : Json) (rows : List Json) (os : List Outcome)
    (objects : Objects f) (r : Report)
    → Sorted f rows (kept_rows os) (quarantined_rows os)
    → (conclude f (ok (bucket, run_id, rows, os)) objects).0 ≡ ok r
    → IsPartitioned f rows r (conclude f (ok (bucket, run_id, rows, os)) objects).1
unfolding conclude report out_key
conclude-IsPartitioned f i bucket run_id rows os objects r c h =
    let run = to_str f.render run_id in
    let stored = write_ndjson f (out_key f run_id) (kept_rows os) objects in
    let (q, p, h1) =
      >>=-eq-ok (write_quarantine f run (codes "02_normalize") (quarantined_rows os) stored).0 _
        h in
    rw (← ok-injective h1) (record {
      good = kept_rows os;
      bad = quarantined_rows os;
      sorted = c;
      rows_in = refl;
      rows_out = refl;
      rows_quarantined = refl;
      kept_file =
          write_quarantine-other f run (codes "02_normalize") run (codes "02_normalized.ndjson")
            (quarantined_rows os) stored
          ∙ read_ndjson-write_ndjson f i (out_key f run_id) (kept_rows os) objects;
      quarantine_file =
          write_quarantine-IsQuarantined f run (codes "02_normalize") (quarantined_rows os) stored q
            p;
    })

decisions-rows :
    (f : Files) (event : Dict Json) (objects : Objects f) (bucket run_id : Json) (rows : List Json)
    (os : List Outcome)
    → decisions f event objects ≡ ok (bucket, run_id, rows, os)
    → (key : Text) × (get (codes "key") event ≡ some (str key))
      × (read_ndjson f objects key ≡ ok rows)
      × (normalize_rows f rows ≡ ok os)
unfolding decisions
decisions-rows f event objects bucket run_id rows os h =
    let (_, _, h1) = >>=-eq-ok (index (codes "bucket") event) _ h in
    let (_, _, h2) = >>=-eq-ok (index (codes "run_id") event) _ h1 in
    let (key, p, h3) = >>=-eq-ok (index (codes "key") event) _ h2 in
    let (name, q, h4) = >>=-eq-ok (object_key key) _ h3 in
    let (read, a, h5) = >>=-eq-ok (read_ndjson f objects name) _ h4 in
    let (found, v, h6) = >>=-eq-ok (normalize_rows f read) _ h5 in
    let rows_eq : read ≡ rows = ap (λ x. x.2) (ok-injective h6) in
    let os_eq : found ≡ os = ap (λ x. x.3) (ok-injective h6) in
    (
      name,
      (index_iff (codes "key") event (str name)).0 (p ∙ ap ok (object_key-str key name q)),
      a ∙ ap ok rows_eq,
      ap (normalize_rows f) (sym rows_eq) ∙ (v ∙ ap ok os_eq),
    )

worked-IsPartitioned :
    (f : Files) (i : IsFiles f) (event : Dict Json) (objects : Objects f)
    (work : Result (Json × Json × List Json × List Outcome)) (r : Report)
    → decisions f event objects ≡ work
    → (conclude f work objects).0 ≡ ok r
    → (key : Text) × (rows : List Json) × (get (codes "key") event ≡ some (str key))
      × (read_ndjson f objects key ≡ ok rows)
      × IsPartitioned f rows r (conclude f work objects).1
worked-IsPartitioned f i event objects (err e) r d h = unfold conclude in cc
worked-IsPartitioned f i event objects (ok (bucket, run_id, rows, os)) r d h =
    let (key, p, q, v) = decisions-rows f event objects bucket run_id rows os d in
    (
      key,
      rows,
      p,
      q,
      conclude-IsPartitioned f i bucket run_id rows os objects r (rows-Sorted f rows os v) h,
    )

-- The normalisation step loses no row: where it returns, every row of the file under the event's key
-- has gone to exactly one of two files, in order. The file under the reported key holds the rows with
-- a company name and one of the two identifiers in normal form, each the row that was read with these
-- three fields set to the normal forms of what they held; the quarantine file holds the others, each
-- with the reason that is true of it, as the CSV text of these rows under the reported key, and where
-- there are none no such key is reported. The three counts of the report are those of the rows. JSON,
-- bytes and lines behave as documented.
pub handler-IsPartitioned :
    (f : Files) (i : IsFiles f) (event : Dict Json) (objects : Objects f) (r : Report)
    → (handler f event objects).0 ≡ ok r
    → (key : Text) × (rows : List Json) × (get (codes "key") event ≡ some (str key))
      × (read_ndjson f objects key ≡ ok rows)
      × IsPartitioned f rows r (handler f event objects).1
unfolding handler
handler-IsPartitioned f i event objects r h =
    worked-IsPartitioned f i event objects (decisions f event objects) r refl h
