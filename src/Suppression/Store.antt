-- ===== src/Suppression/Store.antt =====
-- src/suppression/store.py: the state is the bucket's objects and the store's cache; an operation
-- returns its result and the new state, also where it raises.
pub mod Check
pub mod Reduce
pub mod Log
pub mod Memory
pub mod Remembers
pub mod Pages
use automated_outreach_proto.Prelude.{
  ℕ, zero, suc, ◌-◌, ◌≡◌, Bool, true, false, not, ◌&&◌, ◌||◌, Option, none, some, List, [], ◌∷◌,
  ◌++◌, ltb, is_some, Exn, value_error, key_error, type_error, other, out_of_fuel, Result, ok, err,
  ◌>>=◌, if◌then◌else◌,
}
use automated_outreach_proto.Text.{Text, codes, is_nil, has_char}
use automated_outreach_proto.Unicode.{Unicode}
use automated_outreach_proto.Datetime.{Datetime, IsoFormat, before_datetime}
use automated_outreach_proto.Dict.{Dict, get, put, keys}
use automated_outreach_proto.Json.{Json, int, str, obj, Fields, end, field, entries, as_dict, index}
use automated_outreach_proto.Cleansing.Normalize.{PhoneNumbers, normalize_phone, normalize_email}

-- One answer of `list_objects_v2`: its keys, and the token of the next page where it is truncated.
pub record Page : Type 0 where
  pub contents : List Text
  pub next : Option Text

-- What the store takes from the libraries and from S3. The page that S3 answers depends on the
-- objects, the prefix and the token. `page_fuel` bounds the pages of one listing.
pub record Backend : Type 1 where
  pub unicode : Unicode
  pub phones : PhoneNumbers
  pub iso : IsoFormat
  -- The bytes of an object, which only `json` writes and reads.
  pub Body : Type 0
  pub dumps : Json → Body
  pub loads : Body → Result Json
  pub list_objects : Dict Body → Text → Option Text → Page
  pub page_fuel : ℕ

-- json.loads(json.dumps(x)) == x
pub record IsCodec (b : Backend) : Type 0 where
  pub loads-dumps : (x : Json) → b.loads (b.dumps x) ≡ ok x

pub record SuppressionMatch : Type 0 where
  pub identifier : Text
  pub kind : Json
  pub reason : Json
  pub source : Json
  pub occurred_at : Datetime

pub record SuppressionResult : Type 0 where
  pub suppressed : Bool
  pub matches : List SuppressionMatch
  pub indeterminate_identifiers : List Text

-- The bucket, and the two fields of `SuppressionStore` that change.
pub record State (b : Backend) : Type 0 where
  pub objects : Dict b.Body
  pub cache : Dict SuppressionMatch
  pub cache_loaded_at : Option ℕ

-- REFRESH_TTL_SECONDS, in milliseconds
abbrev pub refresh_ttl : ℕ
refresh_ttl = 30000

abbrev pub events_prefix : Text
events_prefix = codes "suppression/events/"

-- A text where the program needs one: anything else has not the methods that it calls.
unfoldable pub as_text : Json → Result Text
as_text (str s) = ok s
as_text _ = err type_error

-- _to_match, of an event whose identifier is a text, as the store writes it. Any other identifier is
-- refused here; the source takes every hashable value.
unfoldable pub to_match : Backend → Dict Json → Result SuppressionMatch
unfolding as_text
to_match b event = do
  identifier ← index (codes "identifier") event
  name ← as_text identifier
  kind ← index (codes "kind") event
  reason ← index (codes "reason") event
  source ← index (codes "source") event
  stamp ← index (codes "occurred_at") event
  text ← as_text stamp
  occurred_at ← b.iso.parse text
  ok (record {
    identifier = name;
    kind = kind;
    reason = reason;
    source = source;
    occurred_at = occurred_at;
  })

-- `existing is None or match.occurred_at < existing.occurred_at`, and the assignment behind it
unfoldable pub keep_earliest :
    SuppressionMatch → Dict SuppressionMatch → Result (Dict SuppressionMatch)
keep_earliest m current = elim (get m.identifier current) [
  | none ↦ ok (put m.identifier m current)
  | some existing ↦ (do
    earlier ← before_datetime m.occurred_at existing.occurred_at
    ok (if earlier then put m.identifier m current else current))
]

-- The loop of `_current_set`, from what it has gathered.
unfoldable pub reduce_events :
    Backend → List (Dict Json) → Dict SuppressionMatch → Result (Dict SuppressionMatch)
reduce_events b [] current = ok current
reduce_events b (e ∷ es) current = do
  m ← to_match b e
  next ← keep_earliest m current
  reduce_events b es next

unfoldable pub current_set : Backend → List (Dict Json) → Result (Dict SuppressionMatch)
unfolding reduce_events
current_set b events = reduce_events b events []

-- get_object, and json.loads of what it returns; an event that is no object is refused here, where
-- the source refuses it at its first field.
unfoldable pub read_event : (b : Backend) → Dict b.Body → Text → Result (Dict Json)
read_event b objects key = do
  body ← elim (get key objects) [ some t ↦ ok t | none ↦ err (other (codes "NoSuchKey")) ]
  parsed ← b.loads body
  as_dict parsed

-- The events of one page.
unfoldable pub read_events : (b : Backend) → Dict b.Body → List Text → Result (List (Dict Json))
read_events b objects [] = ok []
read_events b objects (k ∷ ks) = do
  e ← read_event b objects k
  es ← read_events b objects ks
  ok (e ∷ es)

-- What a further page adds, where there is one.
abbrev pub more_pages {ℓ} : {A : Type ℓ} → (Text → Result (List A)) → Option Text → Result (List A)
more_pages load none = ok []
more_pages load (some token) = load token

-- The `while` loop of `_load_events`, on fuel: one unit for each page.
unfoldable pub load_pages :
    (b : Backend) → Dict b.Body → ℕ → Option Text → Result (List (Dict Json))
load_pages b objects zero token = err out_of_fuel
load_pages b objects (suc fuel) token = do
  let page = b.list_objects objects events_prefix token
  es ← read_events b objects page.contents
  rest ← more_pages (λ next. load_pages b objects fuel (some next)) page.next
  ok (es ++ rest)

unfoldable pub load_events : (b : Backend) → Dict b.Body → Result (List (Dict Json))
load_events b objects = load_pages b objects b.page_fuel none

-- _refresh_if_stale, at the time `now`
abbrev is_fresh : ℕ → Option ℕ → Bool
is_fresh now none = false
is_fresh now (some loaded) = ltb (now - loaded) refresh_ttl

-- The cache after the reload, where that succeeds.
unfoldable pub reloaded :
    {b : Backend} → ℕ → State b → Result (Dict SuppressionMatch) → Result (Unit {0}) × State b
reloaded now s (ok current) = (ok tt, record s { cache = current; cache_loaded_at = some now })
reloaded now s (err e) = (err e, s)

unfoldable pub reload : (b : Backend) → ℕ → State b → Result (Unit {0}) × State b
reload b now s = reloaded now s (do events ← load_events b s.objects; current_set b events)

unfoldable pub refresh_if_stale : (b : Backend) → ℕ → State b → Result (Unit {0}) × State b
refresh_if_stale b now s = if is_fresh now s.cache_loaded_at then (ok tt, s) else reload b now s

unfoldable pub kind_of : Text → Text
kind_of identifier = if has_char b'@' identifier then codes "email" else codes "phone"

unfoldable pub normalize : Backend → Text → Option Text
normalize b identifier =
    if has_char b'@' identifier
    then normalize_email b.unicode (some identifier)
    else normalize_phone b.unicode b.phones (some identifier)

-- The event that is written, with the id that `uuid4` gave.
unfoldable pub event_of : Backend → Text → Text → Text → Json → Json → Datetime → Fields
event_of b event_id normalized identifier reason source occurred_at =
    field (codes "schema_version") (int 1) (
      field (codes "event_id") (str event_id) (
        field (codes "identifier") (str normalized) (
          field (codes "identifier_raw") (str identifier) (
            field (codes "kind") (str (kind_of identifier)) (
              field (codes "reason") reason (
                field (codes "source") source
                  (field (codes "occurred_at") (str (b.iso.print occurred_at)) end)))))))

unfoldable pub event_key : Text → Text
event_key event_id = events_prefix ++ (event_id ++ codes ".json")

-- The assignment to the cache, where its new entry could be worked out.
unfoldable pub cache_updated :
    {b : Backend} → State b → Result (Dict SuppressionMatch) → Result (Unit {0}) × State b
cache_updated s (ok cache) = (ok tt, record s { cache = cache })
cache_updated s (err e) = (err e, s)

-- What stands behind the write of the object: the update of the cache.
unfoldable pub update_cache : (b : Backend) → Fields → State b → Result (Unit {0}) × State b
update_cache b event s =
    cache_updated s (do m ← to_match b (entries event); keep_earliest m s.cache)

-- The write of the event, and the update of the cache.
unfoldable pub append_event : (b : Backend) → Text → Fields → State b → Result (Unit {0}) × State b
append_event b event_id event s =
    update_cache b event
      (record s { objects = put (event_key event_id) (b.dumps (obj event)) s.objects })

-- What follows the normalisation, on its result.
unfoldable pub add_normalized :
    (b : Backend)
    → Text
    → Text
    → Json
    → Json
    → Datetime
    → Option Text
    → State b
    → Result (Unit {0}) × State b
add_normalized b event_id identifier reason source occurred_at none s = (err value_error, s)
add_normalized b event_id identifier reason source occurred_at (some normalized) s =
    append_event b event_id (event_of b event_id normalized identifier reason source occurred_at) s

unfoldable pub add_suppression :
    (b : Backend) → Text → Text → Json → Json → Datetime → State b → Result (Unit {0}) × State b
add_suppression b event_id identifier reason source occurred_at s =
    if not occurred_at.aware
    then (err value_error, s)
    else add_normalized b event_id identifier reason source occurred_at (normalize b identifier) s

-- One round of the loop over the two identifiers: what it adds to the matches and to the
-- indeterminate identifiers.
unfoldable pub check_identifier :
    Dict SuppressionMatch → Option Text → Option Text → List SuppressionMatch × List Text
check_identifier cache none normalized = ([], [])
check_identifier cache (some raw) none = ([], raw ∷ [])
check_identifier cache (some raw) (some normalized) = elim (get normalized cache) [
  | none ↦ ([], [])
  | some m ↦ (m ∷ [], [])
]

abbrev nonempty {ℓ} : {A : Type ℓ} → List A → Bool
nonempty [] = false
nonempty (x ∷ xs) = true

-- The check against the cache as it stands.
unfoldable pub check :
    Backend → Dict SuppressionMatch → Option Text → Option Text → SuppressionResult
unfolding check_identifier
check b cache phone email =
    let (pm, pi) = check_identifier cache phone (normalize_phone b.unicode b.phones phone) in
    let (em, ei) = check_identifier cache email (normalize_email b.unicode email) in
    record {
      suppressed = nonempty (pm ++ em) || nonempty (pi ++ ei);
      matches = pm ++ em;
      indeterminate_identifiers = pi ++ ei;
    }

-- The rest of `is_suppressed`, behind the refresh.
abbrev checked :
    (b : Backend)
    → Option Text
    → Option Text
    → Result (Unit {0}) × State b
    → Result SuppressionResult × State b
checked b phone email (ok _, s) = (ok (check b s.cache phone email), s)
checked b phone email (err e, s) = (err e, s)

unfoldable pub is_suppressed :
    (b : Backend) → ℕ → Option Text → Option Text → State b → Result SuppressionResult × State b
is_suppressed b now none none s = (err value_error, s)
is_suppressed b now (some phone) email s = checked b (some phone) email (refresh_if_stale b now s)
is_suppressed b now none (some email) s = checked b none (some email) (refresh_if_stale b now s)

-- current_identifiers
abbrev listed : {b : Backend} → Result (Unit {0}) × State b → Result (List Text) × State b
listed (ok _, s) = (ok (keys s.cache), s)
listed (err e, s) = (err e, s)

unfoldable pub current_identifiers : (b : Backend) → ℕ → State b → Result (List Text) × State b
current_identifiers b now s = listed (refresh_if_stale b now s)
