-- ===== src/Suppression/Tests.antt =====
-- Witnesses of the opt-out list's properties, over a bucket that keeps its objects as they are.
use automated_outreach_proto.Json.{obj, Fields, end, field, get_or, truthy}
use automated_outreach_proto.Suppression.Api.{
  Surroundings, accepted, request_of, body_text, respond, replied, new_store, handler,
  accepted_stays_suppressed,
}
use automated_outreach_proto.Cleansing.Normalize.{clean}
use automated_outreach_proto.Json.{index}
use automated_outreach_proto.Suppression.Store.{add_normalized}
use automated_outreach_proto.Suppression.Store.{append_event}
use automated_outreach_proto.Suppression.Store.{cache_updated}
use automated_outreach_proto.Suppression.Store.{event_of}
use automated_outreach_proto.Suppression.Store.{keep_earliest}
use automated_outreach_proto.Suppression.Store.{update_cache}
use automated_outreach_proto.Text.{before}
use automated_outreach_proto.Text.{rpartition}
use automated_outreach_proto.Text.Space.{strip}
use automated_outreach_proto.Prelude.{
  ℕ, ◌≡◌, refl, sym, ap, ◌∙◌, Bool-cases, inl, inr, Bool, true, false, ◌||◌, none, some, List, [],
  ◌∷◌, arith, Among, Result, ok, err, value_error, ok-injective, ◌==◌, if◌then◌else◌,
}
use automated_outreach_proto.Suppression.Store.{
  refresh_if_stale, reload, reloaded, load_events, load_pages, read_events, as_text,
  check_identifier, event_key, kind_of, read_event, reduce_events,
}
use automated_outreach_proto.Cleansing.Normalize.{address, email_form}
use automated_outreach_proto.Datetime.{before_datetime}
use automated_outreach_proto.Json.{as_dict}
use automated_outreach_proto.Text.Space.{keep, lstrip_of, rstrip_of}
use automated_outreach_proto.Text.{is_space}
use mathlib.Core.List.{append-nil}
use automated_outreach_proto.Text.{Text, codes, text_eq, starts_with}
use automated_outreach_proto.Text.Equality.{text_eq_iff}
use automated_outreach_proto.Datetime.{Datetime, IsoFormat, IsIsoFormat}
use automated_outreach_proto.Dict.{Dict, get, put}
use automated_outreach_proto.Json.{Json, str}
use automated_outreach_proto.Guardrails.Tests.{ascii}
use automated_outreach_proto.Cleansing.Normalize.{PhoneNumbers, normalize_phone, normalize_email}
use automated_outreach_proto.Suppression.Store.{
  Backend, IsCodec, SuppressionMatch, SuppressionResult, State, events_prefix, normalize,
  add_suppression, check, is_suppressed, current_set, to_match,
}
use automated_outreach_proto.Suppression.Store.Check.{blocks, check-blocks}
use automated_outreach_proto.Suppression.Store.Reduce.{IsEarliest, current_set-IsEarliest}
use automated_outreach_proto.Suppression.Store.Log.{IsListing, listed_keys}
use automated_outreach_proto.Suppression.Store.Memory.{restart, here, next}
use automated_outreach_proto.Suppression.Store.Remembers.{added_stays_suppressed}

-- A region's numbers are the texts that begin with "+".
abbrev pub plus_numbers : PhoneNumbers
plus_numbers = record {
  Number = Text;
  parse = λ s region. if starts_with s (codes "+") then some s else none;
  is_valid_number = λ n. true;
  format_e164 = λ n. n;
}

abbrev pub parse_stamp : Text → Result Datetime
parse_stamp (x ∷ y ∷ []) = ok (record { aware = x == 1; instant = y })
parse_stamp _ = err value_error

abbrev print_stamp : Datetime → Text
print_stamp d = (if d.aware then 1 else 0) ∷ d.instant ∷ []

abbrev pub stamps : IsoFormat
stamps = record { parse = parse_stamp; print = print_stamp }

pub stamps-IsIsoFormat : IsIsoFormat stamps
stamps-IsIsoFormat = record { parse-print = λ d. back d.aware d.instant }
  where
    back :
        (a : Bool) (i : ℕ)
        → parse_stamp ((if a then 1 else 0) ∷ i ∷ []) ≡ ok (record { aware = a; instant = i })
    back true i = refl
    back false i = refl

-- The keys under a prefix.
abbrev keys_under : Text → Dict Json → List Text
keys_under prefix [] = []
keys_under prefix ((k, v) ∷ d) =
    let rest = keys_under prefix d in if starts_with k prefix then k ∷ rest else rest

-- A bucket that lists everything on one page.
abbrev pub bucket : Backend
bucket = record {
  unicode = ascii;
  phones = plus_numbers;
  iso = stamps;
  Body = Json;
  dumps = λ x. x;
  loads = ok;
  list_objects =
      λ objects prefix token. record { contents = keys_under prefix objects; next = none };
  page_fuel = 1;
}

pub bucket-IsCodec : IsCodec bucket
bucket-IsCodec = record { loads-dumps = λ x. refl }

keys_under_complete :
    (d : Dict Json) (key : Text) (v : Json)
    → get key d ≡ some v
    → starts_with key events_prefix ≡ true
    → Among key (keys_under events_prefix d)
unfolding get
keys_under_complete [] key v h s = absurd (ground arith)
keys_under_complete ((k, w) ∷ d) key v h s = elim (Bool-cases (text_eq k key)) [
  | inl e ↦
      let placed : starts_with k events_prefix ≡ true =
        ap (λ x. starts_with x events_prefix) ((text_eq_iff k key).0 e) ∙ s in
      rw placed (inl (sym ((text_eq_iff k key).0 e)))
  | inr n ↦
      let rest = keys_under_complete d key v (ground arith) s in
      elim (Bool-cases (starts_with k events_prefix)) [
        | inl y ↦ rw y (inr rest)
        | inr o ↦ rw o rest
      ]
]

pub bucket-IsListing : IsListing bucket
unfolding listed_keys
bucket-IsListing = record {
  complete = λ objects ks key body l g s.
      rw (← ok-injective l) (rw append-nil (keys_under_complete objects key body g s));
}

abbrev pub start : State bucket
start = record { objects = []; cache = []; cache_loaded_at = none }

abbrev pub noon : Datetime
noon = record { aware = true; instant = 12 }

abbrev pub opted_out : State bucket
opted_out =
    (add_suppression bucket (codes "e1") (codes "Ann+x@b.co") (str (codes "stop"))
      (str (codes "sms")) noon start).1

pub added :
    (add_suppression bucket
      (codes "e1")
      (codes "Ann+x@b.co")
      (str (codes "stop"))
      (str (codes "sms"))
      noon
      start).0
    ≡ ok tt
unfolding add_suppression add_normalized normalize normalize_email clean strip rpartition before
    append_event update_cache cache_updated to_match index get event_of keep_earliest
added = refl

pub named : normalize bucket (codes "Ann+x@b.co") ≡ some (codes "ann@b.co")
unfolding normalize normalize_email clean strip rpartition before
named = refl

asked_as : normalize_email ascii (some (codes "ann@B.co")) ≡ some (codes "ann@b.co")
unfolding normalize_email clean strip rpartition before
asked_as = refl

abbrev answer : SuppressionResult
answer = record {
  suppressed = true;
  matches =
      record {
        identifier = codes "ann@b.co";
        kind = str (codes "email");
        reason = str (codes "stop");
        source = str (codes "sms");
        occurred_at = noon;
      }
      ∷ [];
  indeterminate_identifiers = [];
}

answered :
    (is_suppressed bucket 5 none
      (some (codes "ann@B.co"))
      (record opted_out { cache = []; cache_loaded_at = none })).0
    ≡ ok answer
unfolding is_suppressed add_suppression refresh_if_stale reload reloaded load_events load_pages
    read_events add_normalized normalize normalize_email clean strip rpartition before append_event
    update_cache cache_updated to_match address email_form normalize_phone before_datetime get put
    as_dict index as_text check check_identifier current_set event_key event_of keep_earliest
    kind_of read_event reduce_events keep lstrip_of rstrip_of is_space
answered = refl

added_stays_suppressed_example : answer.suppressed ≡ true
added_stays_suppressed_example =
    added_stays_suppressed bucket bucket-IsCodec bucket-IsListing stamps-IsIsoFormat (codes "e1")
      (codes "Ann+x@b.co") (codes "ann@b.co") (str (codes "stop")) (str (codes "sms")) noon start
      (record opted_out { cache = []; cache_loaded_at = none }) 5 none (some (codes "ann@B.co"))
      answer named added (next here restart) (inr (codes "ann@B.co", refl, asked_as)) answered

abbrev ann : SuppressionMatch
ann = record {
  identifier = codes "a@b.co";
  kind = str (codes "email");
  reason = str [];
  source = str [];
  occurred_at = noon;
}

abbrev event : Dict Json
event =
    (codes "identifier", str (codes "a@b.co"))
    ∷ (codes "kind", str (codes "email"))
    ∷ (codes "reason", str [])
    ∷ (codes "source", str [])
    ∷ (codes "occurred_at", str (print_stamp noon))
    ∷ []

event_read : to_match bucket event ≡ ok ann
unfolding to_match index get
event_read = refl

current_set-IsEarliest_example :
    (d : Dict SuppressionMatch) × (current_set bucket (event ∷ []) ≡ ok d)
    × ((id : Text) → IsEarliest id (ann ∷ []) (get id d))
current_set-IsEarliest_example =
    current_set-IsEarliest bucket (event ∷ []) (ann ∷ []) (event_read, refl, tt)

check-blocks_example : (check bucket [] none (some (codes "not an address"))).suppressed ≡ (
    blocks [] none (normalize_phone ascii plus_numbers none)
    || blocks []
        (some (codes "not an address"))
        (normalize_email ascii (some (codes "not an address"))))
check-blocks_example = check-blocks bucket [] none (some (codes "not an address"))

abbrev payload : Fields
payload = field (codes "identifier") (str (codes "Ann+x@b.co")) (
    field (codes "reason") (str (codes "stop")) (
      field (codes "source") (str (codes "sms"))
        (field (codes "occurred_at") (str (print_stamp noon)) end)))

abbrev surroundings : Surroundings
surroundings = record { loads = λ s. ok (obj payload); data_bucket = some (codes "b") }

abbrev posted : Dict Json
posted = (codes "body", str (codes "{...}")) ∷ []

read_request :
    request_of bucket surroundings posted
    ≡ ok (codes "Ann+x@b.co", str (codes "stop"), str (codes "sms"), noon)
unfolding request_of body_text get_or get truthy index as_text
read_request = refl

accepted_request : (handler bucket surroundings (codes "e1") posted []).0 ≡ ok accepted
unfolding handler respond replied request_of body_text get_or truthy add_suppression
    refresh_if_stale add_normalized normalize normalize_email clean strip rpartition before
    append_event update_cache cache_updated to_match address email_form normalize_phone get put
    index as_text event_key event_of keep_earliest kind_of keep lstrip_of rstrip_of is_space
accepted_request = refl

abbrev mirrored : State bucket
mirrored = new_store bucket (handler bucket surroundings (codes "e1") posted []).1

answered_again : (is_suppressed bucket 5 none (some (codes "ann@B.co")) mirrored).0 ≡ ok answer
unfolding handler respond replied request_of body_text get_or truthy is_suppressed add_suppression
    refresh_if_stale reload reloaded load_events load_pages read_events add_normalized normalize
    normalize_email clean strip rpartition before append_event update_cache cache_updated to_match
    address email_form normalize_phone before_datetime get put as_dict index as_text check
    check_identifier current_set event_key event_of keep_earliest kind_of read_event reduce_events
    keep lstrip_of rstrip_of is_space
answered_again = refl

accepted_stays_suppressed_example : answer.suppressed ≡ true
accepted_stays_suppressed_example =
    accepted_stays_suppressed bucket bucket-IsCodec bucket-IsListing stamps-IsIsoFormat surroundings
      (codes "e1") (codes "Ann+x@b.co") (codes "ann@b.co") (str (codes "stop")) (str (codes "sms"))
      noon posted [] mirrored 5 none (some (codes "ann@B.co")) answer accepted_request read_request
      named here (inr (codes "ann@B.co", refl, asked_as)) answered_again
