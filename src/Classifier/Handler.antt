-- ===== src/Classifier/Handler.antt =====
-- src/classifier/handler.py: `classify`, with the time that it reports as an argument.
pub mod Laws
pub mod Decisions
use automated_outreach_proto.Prelude.{
  ℕ, ◌-◌, ◌≡◌, Bool, true, false, not, ◌&&◌, ◌||◌, Option, none, some, List, [], ◌∷◌, ◌++◌, map,
  filter_by, Exn, value_error, key_error, index_error, type_error, attribute_error, unicode_error,
  json_error, binascii_error, other, salesforce_error, texttorrent_error, auth_error, gap_error,
  out_of_fuel, Result, ok, err, ◌>>=◌, if◌then◌else◌,
}
use automated_outreach_proto.Text.{Text, is_nil, codes, text_eq, ends_with, one_of, join, split_on}
use automated_outreach_proto.Text.Space.{strip}
use automated_outreach_proto.Unicode.{Unicode, encode}
use automated_outreach_proto.Dict.{Dict, get}
use automated_outreach_proto.Json.{
  Json, str, null, boolean, truthy, iterate, as_dict, index, get_or, to_str,
}
use automated_outreach_proto.Guardrails.Rules.{
  Action, Rule, Message, GuardrailResult, sms, evaluate,
}
use automated_outreach_proto.Classifier.Buckets.{Intent, intent_name, rule_name, bucket_intent}

-- What the handler takes from Python's runtime and its surroundings: the Unicode tables, `str` of
-- a number or a container, `json.loads`, the environment and the file system.
pub record Runtime : Type 0 where
  pub unicode : Unicode
  pub render : Json → Text
  pub loads : Text → Result Json
  pub getenv : Text → Option Text
  pub read_text : Text → Result Text

-- ACTIONS
pub data Routing : Type 0 where
  suppress_and_stop human_review auto_reply no_action : Routing

pub record Response : Type 0 where
  pub action : Routing
  pub intent : Option Intent
  pub rule : Option Rule
  pub trigger : Option Text
  pub handoff_reason : Option Text
  pub confidence : Option ℕ
  pub model_version : Text
  -- in microseconds: the source rounds milliseconds to three places
  pub latency : ℕ

abbrev pub model_version : Text
model_version = codes "rules-v1"

abbrev pub handoff_env : Text
handoff_env = codes "CLASSIFY_HANDOFF_INTENTS"

abbrev pub default_handoff_intents : List Text
default_handoff_intents =
    codes "Interested"
    ∷ codes "Call_Request"
    ∷ codes "Amount_Given"
    ∷ codes "Question"
    ∷ codes "Process_Update"
    ∷ codes "Unclear"
    ∷ []

-- type(error).__name__
abbrev pub class_name : Exn → Text
class_name value_error = codes "ValueError"
class_name key_error = codes "KeyError"
class_name index_error = codes "IndexError"
class_name type_error = codes "TypeError"
class_name attribute_error = codes "AttributeError"
class_name unicode_error = codes "UnicodeEncodeError"
class_name json_error = codes "JSONDecodeError"
class_name binascii_error = codes "Error"
class_name (other name) = name
class_name (salesforce_error status text) = codes "SalesforceApiError"
class_name (texttorrent_error status text) = codes "TextTorrentApiError"
class_name (auth_error text) = codes "SalesforceAuthError"
class_name (gap_error text) = codes "InboundGapError"
class_name out_of_fuel = []

abbrev or_empty : Option Text → Text
or_empty none = []
or_empty (some s) = s

-- [part.strip() for part in s.split(",") if part.strip()]
unfoldable pub comma_parts : Text → List Text
comma_parts s = filter_by (λ p. not (is_nil p)) (map strip (split_on b',' s))

-- A set of texts, as a list of its members.
unfoldable pub handoff_intents : Runtime → Result (List Text)
unfolding comma_parts
handoff_intents rt =
    let configured = strip (or_empty (rt.getenv handoff_env)) in
    if is_nil configured
    then ok default_handoff_intents
    else if ends_with (rt.unicode.lower configured) (codes ".json")
    then (do
      text ← rt.read_text configured
      loaded ← rt.loads text
      intents ← iterate loaded
      ok (map (to_str rt.render) intents))
    else ok (comma_parts configured)

-- The time since `started`, where there is one.
elapsed : Option ℕ → ℕ → ℕ
elapsed none now = 0
elapsed (some started) now = now - started

unfoldable pub response :
    Routing → Option Intent → Option Rule → Option Text → Option Text → Option ℕ → ℕ → Response
unfolding elapsed
response action intent rule trigger handoff_reason started now = record {
  action = action;
  intent = intent;
  rule = rule;
  trigger = trigger;
  handoff_reason = handoff_reason;
  confidence = none;
  model_version = model_version;
  latency = elapsed started now;
}

unfoldable pub fail_closed : Text → Option ℕ → ℕ → Response
unfolding response
fail_closed reason started now = response human_review none none none (some reason) started now

-- One item of the thread: each field is read with `item.get`.
message : Runtime → Json → Result Message
message rt item = do
  d ← as_dict item
  ok (record {
    body = to_str rt.render (get_or (codes "body") (str []) d);
    direction = to_str rt.render (get_or (codes "direction") (str []) d);
    is_auto_reply = truthy (get_or (codes "is_auto_reply") (boolean false) d);
  })

messages : Runtime → List Json → Result (List Message)
unfolding message
messages rt [] = ok []
messages rt (x ∷ xs) = do m ← message rt x; ms ← messages rt xs; ok (m ∷ ms)

-- _thread: `raw or ()`
unfoldable pub parse_thread : Runtime → Json → Result (List Message)
unfolding messages
parse_thread rt raw = if truthy raw then (do xs ← iterate raw; messages rt xs) else ok []

-- `isinstance(body, str)`, or a TypeError
unfoldable pub text_body : Json → Result Text
text_body (str s) = ok s
text_body _ = err type_error

-- request.get("channel") or "sms"; a channel that is no text is no known channel
unfoldable pub channel_of : Json → Result Text
channel_of (str []) = ok sms
channel_of (str (c ∷ s)) = ok (c ∷ s)
channel_of x = if truthy x then err value_error else ok sms

-- f"handoff intent {intent} ({evidence})"
unfoldable pub handoff_text : Intent → Text → Text
handoff_text intent evidence =
    codes "handoff intent " ++ (intent_name intent ++ (codes " (" ++ (evidence ++ codes ")")))

-- The handoff test, on a message that the guardrails let through.
unfoldable pub route_intent : Runtime → Intent → Text → Option ℕ → ℕ → Result Response
unfolding response
route_intent rt intent evidence started now = do
  handoff ← handoff_intents rt
  ok (
      if one_of (intent_name intent) handoff
      then response human_review (some intent) none none (some (handoff_text intent evidence))
          started now
      else response no_action (some intent) none none none started now)

-- {verdict.rule}
abbrev rule_text : Option Rule → Text
rule_text none = codes "None"
rule_text (some r) = rule_name r

unfoldable pub route : Runtime → GuardrailResult → Intent → Text → Option ℕ → ℕ → Result Response
unfolding response route_intent
route rt verdict intent evidence started now = elim verdict.action [
  | Action.suppress_and_stop ↦
      ok (response suppress_and_stop (some intent) verdict.rule verdict.trigger none started now)
  | Action.human_review ↦ ok (
      response human_review (some intent) verdict.rule verdict.trigger
        (some (codes "guardrail:" ++ rule_text verdict.rule)) started now)
  | Action.proceed ↦ route_intent rt intent evidence started now
]

-- The `try` block.
unfoldable pub try_classify : Runtime → Dict Json → ℕ → ℕ → Result Response
try_classify rt request started now = do
  raw ← index (codes "body") request
  body ← text_body raw
  thread ← parse_thread rt (get_or (codes "thread") null request)
  channel ← channel_of (get_or (codes "channel") null request)
  verdict ← evaluate rt.unicode body thread channel
  let bucket = bucket_intent rt.unicode body verdict
  route rt verdict bucket.0 bucket.1 (some started) now

-- `except Exception`
unfoldable pub or_fail_closed : Result Response → Option ℕ → ℕ → Response
unfolding fail_closed
or_fail_closed (ok r) started now = r
or_fail_closed (err e) started now =
    fail_closed (codes "internal_error:" ++ class_name e) started now

unfoldable pub classify : Runtime → Dict Json → ℕ → ℕ → Response
unfolding or_fail_closed
classify rt request started now =
    or_fail_closed (try_classify rt request started now) (some started) now
