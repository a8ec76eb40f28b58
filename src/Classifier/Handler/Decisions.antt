-- ===== src/Classifier/Handler/Decisions.antt =====
-- Which messages `classify` suppresses, and which it lets rest.
use automated_outreach_proto.Prelude.{
  ℕ, ◌≡◌, ◌≢◌, refl, sym, ap, ◌∙◌, ◌↔◌, inl, inr, true, false, Option, some, List, arith, is_some,
  Result, ok, err, >>=-eq-ok, Bool-cases,
}
use automated_outreach_proto.Text.{Text, codes, one_of}
use automated_outreach_proto.Dict.{Dict, get}
use automated_outreach_proto.Json.{Json, str, null, index, index_iff, get_or}
use automated_outreach_proto.Guardrails.Canonical.{canonicalize}
use automated_outreach_proto.Guardrails.Rules.{
  Action, Message, GuardrailResult, channels, match_opt_out, evaluate, verdict,
}
use automated_outreach_proto.Guardrails.Rules.Order.{suppress_iff, evaluate-ok, evaluate_known}
use automated_outreach_proto.Classifier.Buckets.{Intent, intent_name, bucket_intent}
use automated_outreach_proto.Classifier.Handler.{
  Runtime, suppress_and_stop, human_review, no_action, Response, handoff_intents, response,
  fail_closed, parse_thread, text_body, channel_of, route_intent, route, try_classify,
  or_fail_closed, classify,
}

abbrev pub thread_of : Dict Json → Json
thread_of request = get_or (codes "thread") null request

abbrev pub channel_field : Dict Json → Json
channel_field request = get_or (codes "channel") null request

-- A request that the guardrails can be asked about.
pub record IsReadable (rt : Runtime) (request : Dict Json) : Type 0 where
  pub body : Text
  pub thread : List Message
  pub channel : Text
  pub has_body : get (codes "body") request ≡ some (str body)
  pub has_thread : parse_thread rt (thread_of request) ≡ ok thread
  pub has_channel : channel_of (channel_field request) ≡ ok channel
  pub known : one_of channel channels ≡ true

-- What the guardrails say of it, and its intent.
abbrev pub verdict_of :
    (rt : Runtime) (request : Dict Json) → IsReadable rt request → GuardrailResult
verdict_of rt request h = verdict rt.unicode h.body h.thread h.channel

abbrev pub bucket_of : (rt : Runtime) (request : Dict Json) → IsReadable rt request → Intent × Text
bucket_of rt request h = bucket_intent rt.unicode h.body (verdict_of rt request h)

-- `text_body` returns a text only for that text.
text_body_lem : (raw : Json) (body : Text) → text_body raw ≡ ok body → raw ≡ str body
unfolding text_body
text_body_lem (str s) body h = cc
text_body_lem _ body h = cc

try_classify-readable :
    (rt : Runtime) (request : Dict Json) (started now : ℕ) (h : IsReadable rt request)
    → try_classify rt request started now
      ≡ route rt
          (verdict_of rt request h)
          (bucket_of rt request h).0
          (bucket_of rt request h).1
          (some started)
          now
unfolding try_classify text_body
try_classify-readable rt request started now h = rw (
  (index_iff (codes "body") request (str h.body)).1 h.has_body,
  h.has_thread,
  h.has_channel,
  evaluate_known rt.unicode h.body h.thread h.channel h.known,
)

-- The block succeeds only on such requests.
try_classify-IsReadable :
    (rt : Runtime) (request : Dict Json) (started now : ℕ) {r : Response}
    → try_classify rt request started now ≡ ok r
    → IsReadable rt request
unfolding try_classify
try_classify-IsReadable rt request started now h =
    let (raw, e1, h1) = >>=-eq-ok (index (codes "body") request) _ h in
    let (body, e2, h2) = >>=-eq-ok (text_body raw) _ h1 in
    let (thread, e3, h3) = >>=-eq-ok (parse_thread rt (thread_of request)) _ h2 in
    let (channel, e4, h4) = >>=-eq-ok (channel_of (channel_field request)) _ h3 in
    let (v, e5, h5) = >>=-eq-ok (evaluate rt.unicode body thread channel) _ h4 in
    record {
      body = body;
      thread = thread;
      channel = channel;
      has_body =
          (index_iff (codes "body") request (str body)).0 (e1 ∙ ap ok (text_body_lem raw body e2));
      has_thread = e3;
      has_channel = e4;
      known = (evaluate-ok rt.unicode body thread channel e5).0;
    }

or_fail_closed-action :
    (r : Result Response) (started : Option ℕ) (now : ℕ)
    → (or_fail_closed r started now).action ≢ human_review
    → (x : Response) × (r ≡ ok x) × ((or_fail_closed r started now).action ≡ x.action)
unfolding or_fail_closed fail_closed response
or_fail_closed-action (ok r) started now h = (r, refl, refl)
or_fail_closed-action (err e) started now h = absurd (h refl)

route-suppress_iff :
    (rt : Runtime) (v : GuardrailResult) (a : Action) (i : Intent) (evidence : Text)
    (started : Option ℕ) (now : ℕ)
    → v.action ≡ a
    → ((or_fail_closed (route rt v i evidence started now) started now).action ≡ suppress_and_stop)
      ↔ (v.action ≡ Action.suppress_and_stop)
unfolding route or_fail_closed fail_closed response route_intent
route-suppress_iff rt v Action.suppress_and_stop i evidence started now e =
    (λ h. e, λ h. rw (e, route))
route-suppress_iff rt v Action.human_review i evidence started now e =
    (λ h. ground arith, λ h. ground arith)
route-suppress_iff rt v Action.proceed i evidence started now e =
    (λ h. ground arith, λ h. ground arith)

-- On a request whose body is a text, whose thread can be read and whose channel is known, the
-- response is to suppress exactly when the opt-out rule matches the body: neither the thread, the
-- channel, the intent nor the handoff configuration changes that.
pub classify-suppress_iff :
    (rt : Runtime) (request : Dict Json) (started now : ℕ) (h : IsReadable rt request)
    → ((classify rt request started now).action ≡ suppress_and_stop)
      ↔ (is_some (match_opt_out rt.unicode (canonicalize rt.unicode h.body)) ≡ true)
unfolding classify
classify-suppress_iff rt request started now h =
    let s = suppress_iff rt.unicode h.body h.thread h.channel in
    let r =
      route-suppress_iff rt (verdict_of rt request h) (verdict_of rt request h).action
        (bucket_of rt request h).0 (bucket_of rt request h).1 (some started) now refl in
    rw (try_classify-readable rt request started now h) (λ x. s.0 (r.0 x), λ x. r.1 (s.1 x))

-- Why a request may rest: the guardrails let it through, and the handoff list could be read and
-- does not name its intent.
pub record Rests (rt : Runtime) (request : Dict Json) : Type 0 where
  pub readable : IsReadable rt request
  pub passed : (verdict_of rt request readable).action ≡ Action.proceed
  pub handoff : List Text
  pub configured : handoff_intents rt ≡ ok handoff
  pub not_handed : one_of (intent_name (bucket_of rt request readable).0) handoff ≡ false

route_intent-no_action :
    (rt : Runtime) (i : Intent) (evidence : Text) (started : Option ℕ) (now : ℕ) (x : Response)
    → route_intent rt i evidence started now ≡ ok x
    → x.action ≡ no_action
    → (hs : List Text) × (handoff_intents rt ≡ ok hs) × (one_of (intent_name i) hs ≡ false)
unfolding route_intent response
route_intent-no_action rt i evidence started now x h q =
    let (hs, e, k) = >>=-eq-ok (handoff_intents rt) _ h in
    elim (Bool-cases (one_of (intent_name i) hs)) [
      | inl m ↦ absurd (ground arith)
      | inr n ↦ (hs, e, n)
    ]

route-no_action :
    (rt : Runtime) (v : GuardrailResult) (a : Action) (i : Intent) (evidence : Text)
    (started : Option ℕ) (now : ℕ) (x : Response)
    → v.action ≡ a
    → route rt v i evidence started now ≡ ok x
    → x.action ≡ no_action
    → (v.action ≡ Action.proceed) × (route_intent rt i evidence started now ≡ ok x)
unfolding route response
route-no_action rt v Action.suppress_and_stop i evidence started now x e h q = absurd (ground arith)
route-no_action rt v Action.human_review i evidence started now x e h q = absurd (ground arith)
route-no_action rt v Action.proceed i evidence started now x e h q = (e, ground arith)

-- A request is let rest only if it can be read, the guardrails let its message through, and the
-- handoff list could be read and does not name the intent of the message: any error, any matched
-- rule and any listed intent goes to a human or suppresses.
pub classify-no_action :
    (rt : Runtime) (request : Dict Json) (started now : ℕ)
    → (classify rt request started now).action ≡ no_action
    → Rests rt request
unfolding classify
classify-no_action rt request started now q =
    let (x, e, a) =
      or_fail_closed-action (try_classify rt request started now) (some started) now (λ h. cc) in
    let readable = try_classify-IsReadable rt request started now e in
    let b = bucket_of rt request readable in
    let (p, r) =
      route-no_action rt (verdict_of rt request readable) (verdict_of rt request readable).action
        b.0 b.1 (some started) now x refl
        (sym (try_classify-readable rt request started now readable) ∙ e) (sym a ∙ q) in
    let (hs, c, n) = route_intent-no_action rt b.0 b.1 (some started) now x r (sym a ∙ q) in
    record { readable = readable; passed = p; handoff = hs; configured = c; not_handed = n }
