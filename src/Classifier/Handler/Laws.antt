-- ===== src/Classifier/Handler/Laws.antt =====
-- What a response of `classify` says of the message.
use automated_outreach_proto.Prelude.{
  ℕ, ◌≡◌, ◌≢◌, refl, ◌↔◌, Bool, true, false, Option, none, some, List, is_some, Result, ok, err,
  ◌>>=◌, if◌then◌else◌,
}
use automated_outreach_proto.Text.{Text, codes, one_of}
use automated_outreach_proto.Dict.{Dict}
use automated_outreach_proto.Json.{Json, null, index, get_or}
use automated_outreach_proto.Guardrails.Rules.{Action, Rule, GuardrailResult, evaluate}
use automated_outreach_proto.Classifier.Buckets.{Intent, intent_name, bucket_intent}
use automated_outreach_proto.Classifier.Handler.{
  Runtime, suppress_and_stop, human_review, auto_reply, no_action, Response, model_version,
  handoff_intents, response, parse_thread, text_body, channel_of, handoff_text, route_intent, route,
  try_classify, or_fail_closed, classify,
}

-- What holds of every response.
pub record IsRulesV1 (r : Response) : Type 0 where
  pub no_auto_reply : r.action ≢ auto_reply
  pub no_confidence : r.confidence ≡ none
  pub version : r.model_version ≡ model_version
  pub reason_iff : (is_some r.handoff_reason ≡ true) ↔ (r.action ≡ human_review)

reviewed-IsRulesV1 :
    (i : Option Intent) (rule : Option Rule) (trigger : Option Text) (reason : Text)
    (started : Option ℕ) (now : ℕ)
    → IsRulesV1 (response human_review i rule trigger (some reason) started now)
unfolding response
reviewed-IsRulesV1 i rule trigger reason started now = record {
  no_auto_reply = λ e. cc;
  no_confidence = refl;
  version = refl;
  reason_iff = (λ _. refl, λ _. refl);
}

suppressed-IsRulesV1 :
    (i : Option Intent) (rule : Option Rule) (trigger : Option Text) (started : Option ℕ) (now : ℕ)
    → IsRulesV1 (response suppress_and_stop i rule trigger none started now)
unfolding response
suppressed-IsRulesV1 i rule trigger started now = record {
  no_auto_reply = λ e. cc;
  no_confidence = refl;
  version = refl;
  reason_iff = (λ e. cc, λ e. cc);
}

no_action-IsRulesV1 :
    (i : Option Intent) (started : Option ℕ) (now : ℕ)
    → IsRulesV1 (response no_action i none none none started now)
unfolding response
no_action-IsRulesV1 i started now = record {
  no_auto_reply = λ e. cc;
  no_confidence = refl;
  version = refl;
  reason_iff = (λ e. cc, λ e. cc);
}

-- The property of what a fallible block returns.
abbrev Returned : Result Response → Type 0
Returned (ok r) = IsRulesV1 r
Returned (err e) = Unit

route_intent-IsRulesV1 :
    (rt : Runtime) (i : Intent) (evidence : Text) (started : Option ℕ) (now : ℕ)
    → Returned (route_intent rt i evidence started now)
unfolding route_intent
route_intent-IsRulesV1 rt i evidence started now = go (handoff_intents rt)
  where
    handed :
        (b : Bool)
        → IsRulesV1 (
            if b
            then response human_review
                (some i)
                none
                none
                (some (handoff_text i evidence))
                started
                now
            else response no_action (some i) none none none started now)
    handed true = reviewed-IsRulesV1 (some i) none none _ started now
    handed false = no_action-IsRulesV1 (some i) started now

    go :
        (h : Result (List Text))
        → Returned (do
          handoff ← h
          ok (
              if one_of (intent_name i) handoff
              then response human_review
                  (some i)
                  none
                  none
                  (some (handoff_text i evidence))
                  started
                  now
              else response no_action (some i) none none none started now))
    go (ok hs) = handed (one_of (intent_name i) hs)
    go (err e) = tt

route-IsRulesV1 :
    (rt : Runtime) (v : GuardrailResult) (a : Action) (i : Intent) (evidence : Text)
    (started : Option ℕ) (now : ℕ)
    → v.action ≡ a
    → Returned (route rt v i evidence started now)
unfolding route
route-IsRulesV1 rt v Action.suppress_and_stop i evidence started now e =
    rw (e, route) (suppressed-IsRulesV1 (some i) v.rule v.trigger started now)
route-IsRulesV1 rt v Action.human_review i evidence started now e =
    rw (e, route) (reviewed-IsRulesV1 (some i) v.rule v.trigger _ started now)
route-IsRulesV1 rt v Action.proceed i evidence started now e =
    rw (e, route) (route_intent-IsRulesV1 rt i evidence started now)

Returned->>= :
    {A : Type 0} (m : Result A) (f : A → Result Response)
    → ((a : A) → Returned (f a))
    → Returned (m >>= f)
Returned->>= (ok a) f h = h a
Returned->>= (err e) f h = tt

try_classify-IsRulesV1 :
    (rt : Runtime) (request : Dict Json) (started now : ℕ)
    → Returned (try_classify rt request started now)
unfolding try_classify
try_classify-IsRulesV1 rt request started now = Returned->>= (index (codes "body") request) _ λ raw.
    Returned->>= (text_body raw) _ λ body.
      Returned->>= (parse_thread rt (get_or (codes "thread") null request)) _ λ thread.
        Returned->>= (channel_of (get_or (codes "channel") null request)) _ λ channel.
          Returned->>= (evaluate rt.unicode body thread channel) _ λ v.
            route-IsRulesV1 rt v v.action (bucket_intent rt.unicode body v).0
              (bucket_intent rt.unicode body v).1 (some started) now refl

or_fail_closed-IsRulesV1 :
    (r : Result Response) (started : Option ℕ) (now : ℕ)
    → Returned r
    → IsRulesV1 (or_fail_closed r started now)
unfolding or_fail_closed
or_fail_closed-IsRulesV1 (ok r) started now h = h
or_fail_closed-IsRulesV1 (err e) started now h = reviewed-IsRulesV1 none none none _ started now

-- Whatever the request, the response is no automatic reply, states no confidence, names the model
-- version, and gives a reason for the handoff exactly when it asks for a human.
pub classify-IsRulesV1 :
    (rt : Runtime) (request : Dict Json) (started now : ℕ)
    → IsRulesV1 (classify rt request started now)
unfolding classify
classify-IsRulesV1 rt request started now =
    or_fail_closed-IsRulesV1 (try_classify rt request started now) (some started) now
      (try_classify-IsRulesV1 rt request started now)
