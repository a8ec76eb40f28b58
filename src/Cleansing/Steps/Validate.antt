-- ===== src/Cleansing/Steps/Validate.antt =====
-- src/cleansing/steps/validate.py: addresses whose domain takes no mail are dropped. The two hooks ask
-- the network; the cache of one run is state.
pub mod Domains
use automated_outreach_proto.Prelude.{
  ℕ, Bool, true, false, Option, none, some, List, [], ◌∷◌, length, if◌then◌else◌, attribute_error,
  Result, ok, err,
}
use automated_outreach_proto.Text.{Text, codes, text_eq, rpartition}
use automated_outreach_proto.Unicode.{Unicode}
use automated_outreach_proto.Dict.{Dict, get, put}
use automated_outreach_proto.Json.{Json, null, str, index, to_str}
use automated_outreach_proto.Io.{Act, pure, raise, lift, ◌>>=◌, ◌>>◌}
use automated_outreach_proto.Cleansing.PipelineIo.{
  Files, Objects, Row, as_row, write_ndjson, step_key, write_quarantine,
}
use automated_outreach_proto.Cleansing.Steps.Normalize.{
  Outcome, kept, quarantined, kept_rows, quarantined_rows, json_text, with_reason,
}
use automated_outreach_proto.Cleansing.Steps.Batch.{Batch, read_batch}

-- `mx_check` and `line_type_lookup`, and the environment variable TWILIO_LOOKUP_ENABLED.
pub record Hooks : Type 1 where
  pub World : Type 0
  pub mx_check : Text → Act World Bool
  pub line_type_lookup : Json → Act World (Option Text)
  pub enabled : Option Text

-- The network, and `mx_cache`.
pub record Seen (h : Hooks) : Type 0 where
  pub world : h.World
  pub mx_cache : Dict Bool

-- email.rpartition("@")[2]
abbrev pub domain_of : Text → Text
domain_of email = elim (rpartition b'@' email) [ some p ↦ p.1 | none ↦ email ]

unfoldable pub lookup_enabled : Unicode → Option Text → Bool
lookup_enabled u none = text_eq (u.lower (codes "false")) (codes "true")
lookup_enabled u (some s) = text_eq (u.lower s) (codes "true")

pub record Report : Type 0 where
  pub bucket : Json
  pub key : Text
  pub run_id : Json
  pub rows_in : ℕ
  pub rows_out : ℕ
  pub rows_quarantined : ℕ
  pub quarantine_key : Option Text

abbrev report_of : Batch → Text → List Outcome → Option Text → Report
report_of b out_key os quarantine = record {
  bucket = b.bucket;
  key = out_key;
  run_id = b.run_id;
  rows_in = length b.rows;
  rows_out = length (kept_rows os);
  rows_quarantined = length (quarantined_rows os);
  quarantine_key = quarantine;
}

abbrev with_key : (Option Text → Report) → Result (Option Text) → Result Report
with_key report (ok quarantine) = ok (report quarantine)
with_key report (err e) = err e

module _ (h : Hooks) where
  -- The answer on a domain that was not asked yet.
  unfoldable pub remembered : Text → Dict Bool → Result Bool × h.World → Result Bool × Seen h
  remembered domain cache (ok b, w) = (ok b, record { world = w; mx_cache = put domain b cache })
  remembered domain cache (err e, w) = (err e, record { world = w; mx_cache = cache })

  unfoldable pub cached_or : Text → Option Bool → Act (Seen h) Bool
  cached_or domain (some b) s = (ok b, s)
  cached_or domain none s = remembered domain s.mx_cache (h.mx_check domain s.world)

  -- mx_cache[domain], once it is there
  unfoldable pub takes_mail : Text → Act (Seen h) Bool
  takes_mail domain s = cached_or domain (get domain s.mx_cache) s

  -- Whether the address of the row may stay: where there is none, nothing is asked.
  unfoldable pub may_stay : Json → Act (Seen h) Bool
  may_stay null = pure true
  may_stay (str email) = takes_mail (domain_of email)
  may_stay _ = raise attribute_error

  abbrev pub on_world : {A : Type 0} → Act h.World A → Act (Seen h) A
  on_world m s = let x = m s.world in (x.0, record { world = x.1; mx_cache = s.mx_cache })

  unfoldable pub line_type_of : Json → Act (Seen h) (Option Text)
  line_type_of null = pure none
  line_type_of phone = on_world (h.line_type_lookup phone)

  unfoldable pub line_type : Bool → Row → Act (Seen h) (Option Text)
  line_type false row = pure none
  line_type true row = do phone ← lift (index (codes "phone") row); line_type_of phone

  unfoldable pub annotated : Bool → Row → Act (Seen h) Outcome
  annotated enabled row = do
    type ← line_type enabled row
    pure (kept (put (codes "line_type") (json_text type) row))

  -- A row whose address may not stay.
  unfoldable pub without_email : Bool → Row → Json → Act (Seen h) Outcome
  without_email enabled row null =
      pure (quarantined (with_reason (codes "email_domain_has_no_mx") row))
  without_email enabled row phone = annotated enabled (put (codes "email") null row)

  unfoldable pub decided : Bool → Row → Bool → Act (Seen h) Outcome
  decided enabled row true = annotated enabled row
  decided enabled row false = do
    phone ← lift (index (codes "phone") row)
    without_email enabled row phone

  unfoldable pub validate_row : Bool → Json → Act (Seen h) Outcome
  validate_row enabled x = do
    row ← lift (as_row x)
    email ← lift (index (codes "email") row)
    stays ← may_stay email
    decided enabled row stays

  -- The loop over the rows.
  unfoldable pub validate_rows : Bool → List Json → Act (Seen h) (List Outcome)
  validate_rows enabled [] = pure []
  validate_rows enabled (x ∷ xs) = do
    o ← validate_row enabled x
    os ← validate_rows enabled xs
    pure (o ∷ os)

  -- The files and the report, once the rows are sorted out.
  unfoldable pub conclude :
      (f : Files)
      → Batch
      → Result (List Outcome) × Seen h
      → Objects f
      → Result Report × Objects f × h.World
  conclude f b (err e, s) objects = (err e, objects, s.world)
  conclude f b (ok os, s) objects =
      let out_key = step_key (to_str f.render b.run_id) (codes "03_validated.ndjson") in
      let written =
        write_quarantine f (to_str f.render b.run_id) (codes "03_validate") (quarantined_rows os)
          (write_ndjson f out_key (kept_rows os) objects) in
      (with_key (report_of b out_key os) written.0, written.1, s.world)

  abbrev pub started :
      (f : Files) → Result Batch → Objects f → h.World → Result Report × Objects f × h.World
  started f (err e) objects w = (err e, objects, w)
  started f (ok b) objects w =
      conclude f b
        (validate_rows (lookup_enabled f.backend.unicode h.enabled) b.rows
          (record { world = w; mx_cache = [] }))
        objects

  unfoldable pub handler :
      (f : Files) → Dict Json → Objects f → h.World → Result Report × Objects f × h.World
  handler f event objects w = started f (read_batch f event objects) objects w
