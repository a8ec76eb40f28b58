-- ===== src/Classifier/Buckets/Laws.antt =====
-- Which intent a reply gets, and what follows from it.
use automated_outreach_proto.Prelude.{
  ◌≡◌, ◌⊎◌, Bool, true, false, Option, some, arith, refl, none, inl, inr, ◌↔◌,
}
use automated_outreach_proto.Text.{Text, codes, one_of, contains}
use automated_outreach_proto.Unicode.{Unicode}
use automated_outreach_proto.Guardrails.Rules.{
  Rule, opt_out, legal_escalation, hostility, bounce_or_autoreply, loop_breaker, GuardrailResult,
}
use automated_outreach_proto.Classifier.Buckets.{
  Intent, opt_out_intent, legal_escalation_intent, hostile, auto_reply_intent, interested,
  affirmatives, declines, is_decline, bucket_text, bare_text, text_bucket, guardrail_intent,
  bucket_for, bucket_intent,
}

-- A labelling that only a guardrail's rule gives.
abbrev pub is_guardrail_label : Intent → Bool
is_guardrail_label opt_out_intent = true
is_guardrail_label legal_escalation_intent = true
is_guardrail_label hostile = true
is_guardrail_label auto_reply_intent = true
is_guardrail_label _ = false

text_bucket-label :
    (u : Unicode) (body text bare : Text)
    → is_guardrail_label (text_bucket u body text bare).0 ≡ false
unfolding text_bucket
text_bucket-label u body text bare = ground arith

text_bucket-interested :
    (u : Unicode) (body text bare : Text)
    → (text_bucket u body text bare).0 ≡ interested
    → (one_of bare affirmatives ≡ true)
      ⊎ ((is_decline text bare ≡ false) × (contains text (codes "interested") ≡ true))
unfolding text_bucket
text_bucket-interested u body text bare h = ground arith

-- The label that a guardrail's rule gives, at one rule.
bucket_for-label :
    (u : Unicode) (body : Text) (rule : Option Rule)
    → (((bucket_for u body rule).0 ≡ opt_out_intent) ↔ (rule ≡ some opt_out))
      × (((bucket_for u body rule).0 ≡ legal_escalation_intent) ↔ (rule ≡ some legal_escalation))
      × (((bucket_for u body rule).0 ≡ hostile) ↔ (rule ≡ some hostility))
      × (((bucket_for u body rule).0 ≡ auto_reply_intent) ↔ (rule ≡ some bounce_or_autoreply))
unfolding bucket_for guardrail_intent
bucket_for-label u body none =
    let plain = text_bucket-label u body (bucket_text u body) (bare_text (bucket_text u body)) in
    (
      (λ h. absurd (ground arith), λ h. absurd (ground arith)),
      (λ h. absurd (ground arith), λ h. absurd (ground arith)),
      (λ h. absurd (ground arith), λ h. absurd (ground arith)),
      (λ h. absurd (ground arith), λ h. absurd (ground arith)),
    )
bucket_for-label u body (some opt_out) = (
  (λ h. refl, λ h. refl),
  (λ h. absurd (ground arith), λ h. absurd (ground arith)),
  (λ h. absurd (ground arith), λ h. absurd (ground arith)),
  (λ h. absurd (ground arith), λ h. absurd (ground arith)),
)
bucket_for-label u body (some legal_escalation) = (
  (λ h. absurd (ground arith), λ h. absurd (ground arith)),
  (λ h. refl, λ h. refl),
  (λ h. absurd (ground arith), λ h. absurd (ground arith)),
  (λ h. absurd (ground arith), λ h. absurd (ground arith)),
)
bucket_for-label u body (some hostility) = (
  (λ h. absurd (ground arith), λ h. absurd (ground arith)),
  (λ h. absurd (ground arith), λ h. absurd (ground arith)),
  (λ h. refl, λ h. refl),
  (λ h. absurd (ground arith), λ h. absurd (ground arith)),
)
bucket_for-label u body (some bounce_or_autoreply) = (
  (λ h. absurd (ground arith), λ h. absurd (ground arith)),
  (λ h. absurd (ground arith), λ h. absurd (ground arith)),
  (λ h. absurd (ground arith), λ h. absurd (ground arith)),
  (λ h. refl, λ h. refl),
)
bucket_for-label u body (some loop_breaker) =
    let plain = text_bucket-label u body (bucket_text u body) (bare_text (bucket_text u body)) in
    (
      (λ h. absurd (ground arith), λ h. absurd (ground arith)),
      (λ h. absurd (ground arith), λ h. absurd (ground arith)),
      (λ h. absurd (ground arith), λ h. absurd (ground arith)),
      (λ h. absurd (ground arith), λ h. absurd (ground arith)),
    )

-- Opt_Out is given exactly where the guardrails matched the opt-out rule, Legal_Escalation exactly
-- for the rule on legal escalation, Hostile exactly for the one on hostility, and Auto_Reply exactly
-- for the one on bounces and automatic replies: no text earns one of the four by its wording.
pub bucket_intent-label :
    (u : Unicode) (body : Text) (g : GuardrailResult)
    → (((bucket_intent u body g).0 ≡ opt_out_intent) ↔ (g.rule ≡ some opt_out))
      × (((bucket_intent u body g).0 ≡ legal_escalation_intent) ↔ (g.rule ≡ some legal_escalation))
      × (((bucket_intent u body g).0 ≡ hostile) ↔ (g.rule ≡ some hostility))
      × (((bucket_intent u body g).0 ≡ auto_reply_intent) ↔ (g.rule ≡ some bounce_or_autoreply))
unfolding bucket_intent
bucket_intent-label u body g = bucket_for-label u body g.rule

abbrev SaysInterested : Text → Type 0
SaysInterested text =
    (one_of (bare_text text) affirmatives ≡ true)
    ⊎ ((is_decline text (bare_text text) ≡ false) × (contains text (codes "interested") ≡ true))

bucket_for-interested :
    (u : Unicode) (body : Text) (rule : Option Rule)
    → (bucket_for u body rule).0 ≡ interested
    → SaysInterested (bucket_text u body)
unfolding bucket_for
bucket_for-interested u body (some opt_out) h = absurd (ground arith)
bucket_for-interested u body (some legal_escalation) h = absurd (ground arith)
bucket_for-interested u body (some hostility) h = absurd (ground arith)
bucket_for-interested u body (some bounce_or_autoreply) h = absurd (ground arith)
bucket_for-interested u body _ h =
    text_bucket-interested u body (bucket_text u body) (bare_text (bucket_text u body)) h

-- None of the phrasings of a decline.
not_declined :
    (text bare : Text)
    → is_decline text bare ≡ false
    → (one_of bare declines ≡ false)
      × (contains text (codes "not interested") ≡ false)
      × (contains text (codes "already funded") ≡ false)
      × (contains text (codes "we have funding") ≡ false)
unfolding is_decline
not_declined text bare h = ground arith

-- A reply counts as interested only if it is one of the short affirmatives, or says "interested", is
-- no short decline, and contains none of "not interested", "already funded" and "we have funding".
pub bucket_intent-interested :
    (u : Unicode) (body : Text) (g : GuardrailResult)
    → (bucket_intent u body g).0 ≡ interested
    → (one_of (bare_text (bucket_text u body)) affirmatives ≡ true)
      ⊎ ((contains (bucket_text u body) (codes "interested") ≡ true)
          × (one_of (bare_text (bucket_text u body)) declines ≡ false)
          × (contains (bucket_text u body) (codes "not interested") ≡ false)
          × (contains (bucket_text u body) (codes "already funded") ≡ false)
          × (contains (bucket_text u body) (codes "we have funding") ≡ false))
unfolding bucket_intent
bucket_intent-interested u body g h = elim (bucket_for-interested u body g.rule h) [
  | inl a ↦ inl a
  | inr (d, c) ↦
      let (p, q, x, y) = not_declined (bucket_text u body) (bare_text (bucket_text u body)) d in
      inr (c, p, q, x, y)
]
