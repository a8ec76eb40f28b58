-- ===== src/TextTorrent/Reconcile.antt =====
-- src/texttorrent/reconcile.py: the opt-outs of the store and the vendor's blocked list. A set of
-- numbers is a list that holds none twice.
pub mod Agree
use automated_outreach_proto.Prelude.{
  ℕ, zero, suc, ◌+◌, Bool, true, false, not, ◌||◌, Option, none, some, List, [], ◌∷◌, ◌++◌, map,
  length, filter_by, ltb, ◌==◌, if◌then◌else◌, Exn, other, key_error, Result, ok, err, pos,
}
use automated_outreach_proto.Text.{Text, codes, text_eq, one_of, has_char, is_nil}
use automated_outreach_proto.Dict.{Dict, get}
use automated_outreach_proto.Datetime.{Datetime}
use automated_outreach_proto.Json.{Json, str}
use automated_outreach_proto.Io.{Act, pure, raise, lift, ◌>>=◌, ◌>>◌}
use automated_outreach_proto.Cleansing.Normalize.{normalize_phone}
use automated_outreach_proto.Cleansing.PipelineIo.{Files, get_object}
use automated_outreach_proto.Suppression.Store.{
  Backend, State, add_suppression, current_identifiers,
}
use automated_outreach_proto.Salesforce.Http.{Net, text_of}
use automated_outreach_proto.Salesforce.Cloud.{Cloud, Metric, whole}
use automated_outreach_proto.Salesforce.Sync.{environ}
use automated_outreach_proto.TextTorrent.Wire.{Client, base_url}
use automated_outreach_proto.TextTorrent.Client.{load_credentials, blocked_numbers, block_numbers}

pub record Report : Type 0 where
  pub divergence : ℕ
  pub added_from_vendor : List Text
  pub pushed_to_vendor : List Text
  pub unparseable : List Text

-- The network, and the store over its bucket.
pub record Job (n : Net) (b : Backend) : Type 0 where
  pub world : n.World
  pub store : State b

abbrev pub on_world : {n : Net} {b : Backend} {A : Type 0} → Act n.World A → Act (Job n b) A
on_world m s = let x = m s.world in (x.0, record { world = x.1; store = s.store })

abbrev pub on_store : {n : Net} {b : Backend} {A : Type 0} → Act (State b) A → Act (Job n b) A
on_store m s = let x = m s.store in (x.0, record { world = s.world; store = x.1 })

-- s <= t
abbrev pub text_leb : Text → Text → Bool
text_leb [] t = true
text_leb (x ∷ s) [] = false
text_leb (x ∷ s) (y ∷ t) = let rest = text_leb s t in ltb x y || (if x == y then rest else false)

-- sorted(texts)
abbrev pub insert_sorted : Text → List Text → List Text
insert_sorted x [] = x ∷ []
insert_sorted x (y ∷ ys) =
    let rest = insert_sorted x ys in if text_leb x y then x ∷ y ∷ ys else y ∷ rest

abbrev pub sorted : List Text → List Text
sorted [] = []
sorted (x ∷ xs) = insert_sorted x (sorted xs)

-- s.add(x)
abbrev pub add_once : Text → List Text → List Text
add_once x xs = if one_of x xs then xs else x ∷ xs

-- a - b
abbrev pub minus : List Text → List Text → List Text
minus xs ys = filter_by (λ x. not (one_of x ys)) xs

-- One round of the loop over the vendor's numbers: the set, and what cannot be parsed.
unfoldable pub sort_in : Text → Option Text → List Text × List Text → List Text × List Text
sort_in raw none (vendor, unparseable) = (vendor, raw ∷ unparseable)
sort_in raw (some normalized) (vendor, unparseable) = (add_once normalized vendor, unparseable)

unfoldable pub vendor_numbers : Backend → List Text → List Text × List Text
vendor_numbers b [] = ([], [])
vendor_numbers b (raw ∷ more) =
    sort_in raw (normalize_phone b.unicode b.phones (some raw)) (vendor_numbers b more)

unfoldable pub phones_of : List Text → List Text
phones_of identifiers = filter_by (λ i. not (has_char b'@' i)) identifiers

-- What the two lists differ in.
unfoldable pub compared : Backend → List Text → List Text → Report
compared b raw_vendor identifiers =
    let (vendor, unparseable) = vendor_numbers b raw_vendor in
    let ours = phones_of identifiers in
    let added = sorted (minus vendor ours) in
    let pushed = sorted (minus ours vendor) in
    record {
      divergence = length added + length pushed + length unparseable;
      added_from_vendor = added;
      pushed_to_vendor = pushed;
      unparseable = unparseable;
    }

abbrev vendor_reason : Json
vendor_reason = str (codes "present on TextTorrent blocked list")

abbrev vendor_source : Json
vendor_source = str (codes "texttorrent_reconciliation")

-- The loop over the numbers that are missing here; `ids` are the uuid4 of the events.
unfoldable pub add_all :
    (b : Backend) → (ℕ → Text) → Datetime → ℕ → List Text → Act (State b) (Unit {0})
add_all b ids now i [] = pure tt
add_all b ids now i (x ∷ xs) = do
  add_suppression b (ids i) x vendor_reason vendor_source now
  add_all b ids now (suc i) xs

abbrev count_metric : Text → ℕ → Metric
count_metric name k = record { name = name; value = whole (pos k) }

abbrev divergence_metrics : Report → List Metric
divergence_metrics r =
    count_metric (codes "OptOutDivergence") r.divergence
    ∷ count_metric (codes "OptOutsAddedFromVendor") (length r.added_from_vendor)
    ∷ count_metric (codes "OptOutsPushedToVendor") (length r.pushed_to_vendor)
    ∷ []

-- `csv.DictReader`: the field names, and the rows by column, with no value where a row is short.
abbrev pub CsvReader : Type 0
CsvReader = Text → Result (List Text × List (Dict (Option Text)))

-- reader.fieldnames or [""], and the column of the numbers
abbrev pub phone_column : List Text → Text
phone_column [] = []
phone_column (x ∷ xs) = if one_of (codes "phone") (x ∷ xs) then codes "phone" else x

-- What a row adds: its value, where it has one.
abbrev pub value_of : Option (Option Text) → List Text → List Text
value_of (some (some (c ∷ s))) rest = (c ∷ s) ∷ rest
value_of _ rest = rest

unfoldable pub column_values : Text → List (Dict (Option Text)) → List Text
column_values column [] = []
column_values column (row ∷ rows) = value_of (get column row) (column_values column rows)

module _ (n : Net) (f : Files) (c : Cloud n f) (read_csv : CsvReader) where
  unfoldable pub numbers_from_export : Text → Act (Job n f.backend) (List Text)
  numbers_from_export key s =
      let go : Act (Job n f.backend) (List Text) = (do
        body ← lift (get_object f s.store.objects key)
        text ← lift (f.decode body)
        (fields, rows) ← lift (read_csv text)
        pure (column_values (phone_column fields) rows)) in
      go s

  -- The numbers that are compared: of the export, or of the API.
  unfoldable pub raw_numbers : ℕ → Client → Option Json → Act (Job n f.backend) (List Text)
  raw_numbers fuel client none = on_world (blocked_numbers n client fuel)
  raw_numbers fuel client (some key) = numbers_from_export (text_of n key)

  -- What follows the comparison. The opt-outs are added here before any is pushed.
  unfoldable pub settled : (ℕ → Text) → Datetime → Client → Report → Act (Job n f.backend) Report
  settled ids now client r = do
    on_store (add_all f.backend ids now 0 r.added_from_vendor)
    on_world (block_numbers n client r.pushed_to_vendor)
    on_world (c.put_metrics (codes "Outreach/Suppression") (divergence_metrics r))
    pure r

  unfoldable pub reconciled :
      ℕ → (ℕ → Text) → ℕ → Datetime → Option Json → Client → Act (Job n f.backend) Report
  reconciled fuel ids monotonic now key client = do
    raw_vendor ← raw_numbers fuel client key
    identifiers ← on_store (current_identifiers f.backend monotonic)
    settled ids now client (compared f.backend raw_vendor identifiers)

  -- `monotonic` and `now` are the clocks; the environment names the bucket and the secret.
  unfoldable pub handler : ℕ → (ℕ → Text) → ℕ → Datetime → Dict Json → Act (Job n f.backend) Report
  handler fuel ids monotonic now event = do
    bucket ← lift (environ (c.getenv (codes "DATA_BUCKET")))
    secret_id ← lift (environ (c.getenv (codes "TEXTTORRENT_SECRET_ID")))
    creds ← lift (load_credentials n c.get_secret secret_id)
    reconciled fuel ids monotonic now (get (codes "export_key") event)
        (record { creds = creds; base = base_url })
