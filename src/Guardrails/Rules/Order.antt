-- ===== src/Guardrails/Rules/Order.antt =====
-- The fixed order of the rules, and what the thread and the channel can change.
use automated_outreach_proto.Prelude.{
  ◌+◌, ◌<◌, ◌≡◌, ◌≢◌, ◌↔◌, true, Option, none, some, List, [], ◌∷◌, ◌++◌, arith, leb, is_some, ok,
  err, value_error, if◌then◌else◌,
}
use automated_outreach_proto.Text.{Text, codes, one_of}
use automated_outreach_proto.Unicode.{Unicode}
use automated_outreach_proto.Guardrails.Canonical.{fold, canonicalize}
use automated_outreach_proto.Guardrails.Rules.{
  Action, suppress_and_stop, human_review, proceed, Rule, opt_out, legal_escalation, hostility,
  bounce_or_autoreply, loop_breaker, Message, GuardrailResult, email, channels, match_opt_out,
  match_legal, match_hostility, match_bounce_or_autoreply, auto_reply_count, verdict, evaluate,
  review,
}

-- The rules in their order, each with what it found.
pub findings : Unicode → Text → List Message → Text → List (Rule × Option Text)
findings u body thread channel =
    let canon = canonicalize u body in
    (opt_out, match_opt_out u canon)
    ∷ (legal_escalation, match_legal canon)
    ∷ (hostility, match_hostility canon)
    ∷ (bounce_or_autoreply, match_bounce_or_autoreply u canon (fold u body) channel)
    ∷ (
      loop_breaker,
      if leb 2 (auto_reply_count thread) then some (codes "2 auto-replies in thread") else none,
    )
    ∷ []

abbrev pub action_of : Rule → Action
action_of opt_out = suppress_and_stop
action_of _ = human_review

-- The result of the first rule that found something.
pub first_finding : List (Rule × Option Text) → GuardrailResult
first_finding [] = record { action = proceed; rule = none; trigger = none }
first_finding ((r, none) ∷ rs) = first_finding rs
first_finding ((r, some t) ∷ rs) = record { action = action_of r; rule = some r; trigger = some t }

-- On a known channel the verdict is that of the first rule in the order opt-out, legal escalation,
-- hostility, bounce or auto-reply, loop breaker that found something, and only an opt-out
-- suppresses; on any other channel the call raises.
pub evaluate-first_finding :
    (u : Unicode) (body : Text) (thread : List Message) (channel : Text)
    → evaluate u body thread channel ≡ (
        if one_of channel channels
        then ok (first_finding (findings u body thread channel))
        else err value_error)
unfolding evaluate verdict findings first_finding review
evaluate-first_finding u body thread channel = ground arith

-- The action is to suppress exactly when the opt-out rule matches, whatever else the message or
-- the thread holds.
pub suppress_iff :
    (u : Unicode) (body : Text) (thread : List Message) (channel : Text)
    → ((verdict u body thread channel).action ≡ suppress_and_stop)
      ↔ (is_some (match_opt_out u (canonicalize u body)) ≡ true)
unfolding verdict review
suppress_iff u body thread channel = (λ h. ground arith, λ h. ground arith)

pub auto_reply_count-append :
    (a b : List Message) → auto_reply_count (a ++ b) ≡ auto_reply_count a + auto_reply_count b
unfolding auto_reply_count
auto_reply_count-append [] b = omega arith
auto_reply_count-append (m ∷ a) b = ground (arith, auto_reply_count-append a b)

-- A message that needs a human or is suppressed stays so when the thread grows.
pub verdict_thread_mono :
    (u : Unicode) (body : Text) (thread more : List Message) (channel : Text)
    → (verdict u body thread channel).action ≢ proceed
    → (verdict u body (thread ++ more) channel).action ≡ (verdict u body thread channel).action
unfolding verdict review
verdict_thread_mono u body thread more channel h =
    ground (arith, auto_reply_count-append thread more)

bounce_email_mono :
    (u : Unicode) (canon folded channel : Text)
    → is_some (match_bounce_or_autoreply u canon folded channel) ≡ true
    → is_some (match_bounce_or_autoreply u canon folded email) ≡ true
unfolding match_bounce_or_autoreply
bounce_email_mono u canon folded channel h = ground arith

-- What is not let through on any channel is not let through as an e-mail either: the e-mail
-- rules only add to those of the other channels.
pub verdict-email_mono :
    (u : Unicode) (body : Text) (thread : List Message) (channel : Text)
    → (verdict u body thread channel).action ≢ proceed
    → (verdict u body thread email).action ≡ (verdict u body thread channel).action
unfolding verdict review
verdict-email_mono u body thread channel h =
    ground (arith, bounce_email_mono u (canonicalize u body) (fold u body) channel)

-- The action is to proceed exactly when no rule matches and the thread holds at most one
-- automatic reply.
pub proceed_iff :
    (u : Unicode) (body : Text) (thread : List Message) (channel : Text)
    → ((verdict u body thread channel).action ≡ proceed) ↔ (
        (match_opt_out u (canonicalize u body) ≡ none)
        × (match_legal (canonicalize u body) ≡ none)
        × (match_hostility (canonicalize u body) ≡ none)
        × (match_bounce_or_autoreply u (canonicalize u body) (fold u body) channel ≡ none)
        × (auto_reply_count thread < 2))
unfolding verdict review
proceed_iff u body thread channel =
    (λ h. (ground arith, ground arith, ground arith, ground arith, ground arith), λ h. ground arith)

-- A call that returns was on a known channel.
pub evaluate-ok :
    (u : Unicode) (body : Text) (thread : List Message) (channel : Text) {r : GuardrailResult}
    → evaluate u body thread channel ≡ ok r
    → (one_of channel channels ≡ true) × (r ≡ verdict u body thread channel)
unfolding evaluate
evaluate-ok u body thread channel h = ground arith

-- Unfolds for callers on a known channel.
pub evaluate_known :
    (u : Unicode) (body : Text) (thread : List Message) (channel : Text)
    → one_of channel channels ≡ true
    → evaluate u body thread channel ≡ ok (verdict u body thread channel)
unfolding evaluate
evaluate_known u body thread channel h = ground arith
