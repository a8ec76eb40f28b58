-- ===== src/Classifier/Tests.antt =====
-- Witnesses of the classifier's properties: a runtime with ASCII tables, and requests to it.
use automated_outreach_proto.Prelude.{◌↔◌}
use automated_outreach_proto.Classifier.Buckets.{
  declines, opt_out_intent, legal_escalation_intent, hostile, auto_reply_intent,
}
use automated_outreach_proto.Guardrails.Rules.{
  opt_out, legal_escalation, hostility, bounce_or_autoreply,
}
use automated_outreach_proto.Classifier.Handler.{
  try_classify, text_body, route, fail_closed, handoff_intents, handoff_text, or_fail_closed,
  response, route_intent,
}
use automated_outreach_proto.Json.{index, iterate}
use automated_outreach_proto.Guardrails.Rules.{
  evaluate, fuzzy_whole_match, despace, match_legal, auto_reply_count, first_contained,
  first_prefix, match_bounce, match_bounce_or_autoreply, match_hostility, match_keywords, verdict,
}
use automated_outreach_proto.Guardrails.EditDistance.{
  within_edit_distance_1, common_prefix, differences, one_inserted,
}
use automated_outreach_proto.Text.Regex.{match_group, run}
use automated_outreach_proto.Classifier.Buckets.{bucket_for, guardrail_intent}
use automated_outreach_proto.Guardrails.Canonical.{fold, non_word, translate_char, zero_width}
use automated_outreach_proto.Text.Space.{close, keep, lstrip_of, split_from, sub_runs}
use automated_outreach_proto.Text.{is_space}
use automated_outreach_proto.Classifier.Handler.{comma_parts}
use automated_outreach_proto.Classifier.LambdaApi.{compare_digest}
use automated_outreach_proto.Classifier.LambdaApi.{fetch_tokens}
use automated_outreach_proto.Classifier.LambdaApi.{matching_secret}
use automated_outreach_proto.Classifier.LambdaApi.{secret_for}
use automated_outreach_proto.Dict.{put}
use automated_outreach_proto.Json.{as_dict}
use automated_outreach_proto.Json.{to_str}
use automated_outreach_proto.Classifier.Buckets.{is_amount}
use automated_outreach_proto.Classifier.Buckets.{is_process_update}
use automated_outreach_proto.Classifier.Buckets.{text_bucket}
use automated_outreach_proto.Classifier.Handler.{channel_of}
use automated_outreach_proto.Classifier.Handler.{parse_thread}
use automated_outreach_proto.Json.{get_or}
use automated_outreach_proto.Json.{truthy}
use automated_outreach_proto.Text.Regex.{fullmatch}
use automated_outreach_proto.Text.Regex.{search_group}
use automated_outreach_proto.Text.Space.{rstrip_of}
use automated_outreach_proto.Text.Space.{split}
use automated_outreach_proto.Text.Space.{strip}
use automated_outreach_proto.Unicode.{is_word}
use automated_outreach_proto.Prelude.{
  ◌≡◌, ◌⊎◌, ◌↔◌, refl, Bool, true, false, none, some, [], ◌∷◌, is_some, any, arith, value_error,
  unicode_error, binascii_error, ok, err, if◌then◌else◌,
}
use automated_outreach_proto.Guardrails.Rules.{Message}
use automated_outreach_proto.Classifier.Handler.{parse_thread, channel_of}
use automated_outreach_proto.Classifier.Handler.Decisions.{thread_of, channel_field}
use automated_outreach_proto.Classifier.LambdaApi.{
  request_method, expected_tokens, authenticated_secret,
}
use automated_outreach_proto.Text.{Text, codes, text_eq, contains, one_of}
use automated_outreach_proto.Unicode.{is_surrogate}
use automated_outreach_proto.Dict.{Dict, get}
use automated_outreach_proto.Json.{Json, str, obj, boolean, end, field}
use automated_outreach_proto.Guardrails.Tests.{ascii}
use automated_outreach_proto.Guardrails.Canonical.{canonicalize}
use automated_outreach_proto.Guardrails.Rules.{GuardrailResult, Rule, match_opt_out}
use automated_outreach_proto.Guardrails.Rules as Rules
use automated_outreach_proto.Classifier.Buckets.{
  affirmatives, interested, bare_text, bucket_text, bucket_intent, is_decline,
}
use automated_outreach_proto.Classifier.Buckets.Laws.{bucket_intent-interested, bucket_intent-label}
use automated_outreach_proto.Classifier.Handler.{Runtime, suppress_and_stop, no_action, classify}
use automated_outreach_proto.Classifier.Handler.Laws.{IsRulesV1, classify-IsRulesV1}
use automated_outreach_proto.Classifier.Handler.Decisions.{
  IsReadable, Rests, classify-no_action, classify-suppress_iff,
}
use automated_outreach_proto.Classifier.LambdaApi.{
  Services, HttpResponse, classified, handler, payload, raw_body, request_headers,
}
use automated_outreach_proto.Classifier.LambdaApi.Auth.{Authenticated, handler-Authenticated}
use automated_outreach_proto.Classifier.LambdaApi.Answers.{
  IsServed, IsClassify, handler-classify, handler-surrogate, handler-base64,
}

abbrev said : Text → Dict Json
said body = (codes "body", str body) ∷ []

-- `json.loads` of a text: an object with this text as its body.
abbrev runtime : Runtime
runtime = record {
  unicode = ascii;
  render = λ _. [];
  loads = λ s. ok (obj (field (codes "body") (str s) end));
  getenv = λ name.
      if text_eq name (codes "CLASSIFY_TOKEN_SECRET_IDS") then some (codes "owner") else none;
  read_text = λ _. err value_error;
}

abbrev services : Services
services = record {
  runtime = runtime;
  get_secret = λ id. ok (codes "t1");
  b64decode = λ s. err binascii_error;
  sha256 = λ bytes. codes "digest";
  rule_set_hash = ok (codes "rules");
}

abbrev declined : Text
declined = codes "no thanks"

rested : (classify runtime (said declined) 3 8).action ≡ no_action
unfolding classify try_classify index get text_body parse_thread truthy get_or channel_of evaluate
    route match_opt_out fuzzy_whole_match canonicalize within_edit_distance_1 despace match_group
    match_legal bare_text bucket_for bucket_intent bucket_text guardrail_intent is_amount is_decline
    is_process_update text_bucket comma_parts fail_closed handoff_intents handoff_text
    or_fail_closed response route_intent fold non_word translate_char zero_width common_prefix
    differences one_inserted auto_reply_count first_contained first_prefix match_bounce
    match_bounce_or_autoreply match_hostility match_keywords verdict as_dict iterate to_str
    fullmatch run search_group close keep lstrip_of rstrip_of split split_from strip sub_runs
    is_space is_word
rested = refl

classify-no_action_example : Rests runtime (said declined)
classify-no_action_example = classify-no_action runtime (said declined) 3 8 rested

stop_body : get (codes "body") (said (codes "STOP")) ≡ some (str (codes "STOP"))
unfolding get
stop_body = refl

stop_thread : parse_thread runtime (thread_of (said (codes "STOP"))) ≡ ok []
unfolding parse_thread truthy get_or get
stop_thread = refl

stop_channel : channel_of (channel_field (said (codes "STOP"))) ≡ ok (codes "sms")
unfolding channel_of get_or get truthy
stop_channel = refl

abbrev readable : IsReadable runtime (said (codes "STOP"))
readable = record {
  body = codes "STOP";
  thread = [];
  channel = codes "sms";
  has_body = stop_body;
  has_thread = stop_thread;
  has_channel = stop_channel;
  known = refl;
}

classify-suppress_iff_example :
    ((classify runtime (said (codes "STOP")) 3 8).action ≡ suppress_and_stop)
    ↔ (is_some (match_opt_out ascii (canonicalize ascii (codes "STOP"))) ≡ true)
classify-suppress_iff_example = classify-suppress_iff runtime (said (codes "STOP")) 3 8 readable

classify-IsRulesV1_example : IsRulesV1 (classify runtime [] 3 8)
classify-IsRulesV1_example = classify-IsRulesV1 runtime [] 3 8

abbrev passed : GuardrailResult
passed = record { action = Rules.Action.proceed; rule = none; trigger = none }

abbrev eager : Text
eager = codes "We are interested"

counted : (bucket_intent ascii eager passed).0 ≡ interested
unfolding bucket_intent text_bucket is_amount bare_text rstrip_of bucket_text strip split fullmatch
    search_group is_word Rules.first_contained is_process_update is_decline
counted = refl

bucket_intent-interested_example :
    (one_of (bare_text (bucket_text ascii eager)) affirmatives ≡ true)
    ⊎ ((contains (bucket_text ascii eager) (codes "interested") ≡ true)
        × (one_of (bare_text (bucket_text ascii eager)) declines ≡ false)
        × (contains (bucket_text ascii eager) (codes "not interested") ≡ false)
        × (contains (bucket_text ascii eager) (codes "already funded") ≡ false)
        × (contains (bucket_text ascii eager) (codes "we have funding") ≡ false))
bucket_intent-interested_example = bucket_intent-interested ascii eager passed counted

bucket_intent-label_example :
    (((bucket_intent ascii eager passed).0 ≡ opt_out_intent) ↔ (passed.rule ≡ some opt_out))
    × (((bucket_intent ascii eager passed).0 ≡ legal_escalation_intent)
        ↔ (passed.rule ≡ some legal_escalation))
    × (((bucket_intent ascii eager passed).0 ≡ hostile) ↔ (passed.rule ≡ some hostility))
    × (((bucket_intent ascii eager passed).0 ≡ auto_reply_intent)
        ↔ (passed.rule ≡ some bounce_or_autoreply))
bucket_intent-label_example = bucket_intent-label ascii eager passed

-- A POST with this text as its raw body.
abbrev post : Text → Bool → Dict Json
post body encoded =
    (
      codes "requestContext",
      obj (field (codes "http") (obj (field (codes "method") (str (codes "POST")) end)) end),
    )
    ∷ (codes "rawPath", str (codes "/v1/classify"))
    ∷ (codes "headers", obj (field (codes "Authorization") (str (codes "Bearer t1")) end))
    ∷ (codes "body", str body)
    ∷ (codes "isBase64Encoded", boolean encoded)
    ∷ []

abbrev sent_headers : Dict Text
sent_headers = (codes "authorization", codes "Bearer t1") ∷ []

post_method :
    (body : Text) (encoded : Bool) → request_method (post body encoded) ≡ ok (str (codes "POST"))
unfolding request_method as_dict get_or get
post_method body encoded = refl

post_headers :
    (body : Text) (encoded : Bool) → request_headers services (post body encoded) ≡ ok sent_headers
unfolding request_headers as_dict truthy get_or get put to_str
post_headers body encoded = refl

owner_tokens : (expected_tokens services none).0 ≡ ok ((codes "owner", codes "t1") ∷ [])
unfolding expected_tokens comma_parts strip fetch_tokens put
owner_tokens = refl

owner_secret :
    (authenticated_secret services sent_headers (expected_tokens services none).1).0
    ≡ ok (some (codes "owner"))
unfolding authenticated_secret expected_tokens secret_for get_or get comma_parts strip fetch_tokens
    matching_secret put compare_digest
owner_secret = refl

abbrev served : (body : Text) (encoded : Bool) → IsServed services none (post body encoded)
served body encoded = record {
  method = str (codes "POST");
  headers = sent_headers;
  token = (codes "owner", codes "t1");
  tokens = [];
  name = codes "owner";
  has_method = post_method body encoded;
  has_headers = post_headers body encoded;
  has_tokens = owner_tokens;
  has_secret = owner_secret;
}

abbrev classifies : (body : Text) (encoded : Bool) → IsClassify services none (post body encoded)
unfolding get_or get
classifies body encoded = record { served = served body encoded; posted = refl; routed = refl }

given : payload services (post declined false) ≡ ok (said declined)
unfolding payload raw_body truthy get_or get to_str
given = refl

clean :
    (body : Text)
    → get (codes "body") (said declined) ≡ some (str body)
    → any is_surrogate body ≡ false
unfolding get
clean body h = ground arith

handler-classify_example :
    (handler services none (post declined false) 3 8).0
    ≡ ok (record { status = 200; payload = classified (classify runtime (said declined) 3 8) })
handler-classify_example =
    handler-classify services none (post declined false) (said declined) 3 8
      (classifies declined false) given clean

abbrev broken : Text
broken = 0xd800 ∷ []

given_broken : payload services (post broken false) ≡ ok (said broken)
unfolding payload raw_body truthy get_or get to_str
given_broken = refl

found_broken : get (codes "body") (said broken) ≡ some (str broken)
unfolding get
found_broken = refl

handler-surrogate_example : (handler services none (post broken false) 3 8).0 ≡ err unicode_error
handler-surrogate_example =
    handler-surrogate services none (post broken false) (said broken) 3 8 broken
      (classifies broken false) given_broken found_broken refl

undecoded : raw_body services (post declined true) ≡ err binascii_error
unfolding raw_body truthy get_or get
undecoded = refl

handler-base64_example : (handler services none (post declined true) 3 8).0 ≡ err binascii_error
handler-base64_example =
    handler-base64 services none (post declined true) 3 8 binascii_error (classifies declined true)
      undecoded

abbrev served_response : HttpResponse
served_response = record {
  status = 200;
  payload = classified (classify runtime (said declined) 3 8);
}

handled : (handler services none (post declined false) 3 8).0 ≡ ok served_response
handled =
    handler-classify services none (post declined false) (said declined) 3 8
      (classifies declined false) given clean

handler-Authenticated_example :
    (hs : Dict Text) × (request_headers services (post declined false) ≡ ok hs)
    × Authenticated services hs none
handler-Authenticated_example =
    handler-Authenticated services none (post declined false) 3 8 served_response handled
      (λ e. absurd (omega arith)) (λ e. absurd (omega arith))
