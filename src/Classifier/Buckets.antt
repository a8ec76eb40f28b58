-- ===== src/Classifier/Buckets.antt =====
-- src/classifier/buckets.py: the pattern buckets that give a reply its intent.
pub mod Laws
use automated_outreach_proto.Prelude.{
  ℕ, ◌+◌, Bool, true, false, not, ◌&&◌, ◌||◌, Option, none, some, List, [], ◌∷◌, ◌++◌, leb, ◌==◌,
  if◌then◌else◌, is_some,
}
use automated_outreach_proto.Text.{
  Text, is_nil, codes, starts_with, ends_with, contains, one_of, join, is_space,
}
use automated_outreach_proto.Text.Space.{split, strip, rstrip_of}
use automated_outreach_proto.Text.Regex.{
  Regex, empty, one, many, seq, alt, opt, fullmatch, search_group, lit,
}
use automated_outreach_proto.Unicode.{Unicode, is_word}
use automated_outreach_proto.Guardrails.Rules.{
  Rule, opt_out, legal_escalation, hostility, bounce_or_autoreply, loop_breaker, GuardrailResult,
  first_contained,
}

pub data Intent : Type 0 where
  opt_out_intent legal_escalation_intent hostile auto_reply_intent : Intent
  amount_given interested question request_more_info call_request process_update : Intent
  not_interested wrong_person unclear : Intent

abbrev pub intent_name : Intent → Text
intent_name opt_out_intent = codes "Opt_Out"
intent_name legal_escalation_intent = codes "Legal_Escalation"
intent_name hostile = codes "Hostile"
intent_name auto_reply_intent = codes "Auto_Reply"
intent_name amount_given = codes "Amount_Given"
intent_name interested = codes "Interested"
intent_name question = codes "Question"
intent_name request_more_info = codes "Request_More_Info"
intent_name call_request = codes "Call_Request"
intent_name process_update = codes "Process_Update"
intent_name not_interested = codes "Not_Interested"
intent_name wrong_person = codes "Wrong_Person"
intent_name unclear = codes "Unclear"

abbrev pub rule_name : Rule → Text
rule_name opt_out = codes "opt_out"
rule_name legal_escalation = codes "legal_escalation"
rule_name hostility = codes "hostility"
rule_name bounce_or_autoreply = codes "bounce_or_autoreply"
rule_name loop_breaker = codes "loop_breaker"

-- GUARDRAIL_INTENT.get(rule)
unfoldable pub guardrail_intent : Rule → Option Intent
guardrail_intent opt_out = some opt_out_intent
guardrail_intent legal_escalation = some legal_escalation_intent
guardrail_intent hostility = some hostile
guardrail_intent bounce_or_autoreply = some auto_reply_intent
guardrail_intent loop_breaker = none

abbrev pub affirmatives : List Text
affirmatives =
    codes "yes"
    ∷ codes "ok"
    ∷ codes "okay"
    ∷ codes "sure"
    ∷ codes "yep"
    ∷ codes "yeah"
    ∷ codes "yes please"
    ∷ codes "absolutely"
    ∷ codes "sounds good"
    ∷ codes "y"
    ∷ []

abbrev pub process_words : List Text
process_words =
    codes "sent"
    ∷ codes "done"
    ∷ codes "submitted"
    ∷ codes "uploaded"
    ∷ codes "sent it"
    ∷ codes "all sent"
    ∷ []

abbrev pub declines : List Text
declines =
    codes "no"
    ∷ codes "nope"
    ∷ codes "no thanks"
    ∷ codes "no thank you"
    ∷ codes "we're good"
    ∷ codes "were good"
    ∷ codes "im good"
    ∷ codes "i'm good"
    ∷ codes "all set"
    ∷ codes "not now"
    ∷ codes "not yet"
    ∷ codes "pass"
    ∷ []

abbrev pub request_info_keywords : List Text
request_info_keywords =
    codes "email me"
    ∷ codes "send me"
    ∷ codes "send info"
    ∷ codes "more info"
    ∷ codes "website"
    ∷ codes "your email"
    ∷ codes "company profile"
    ∷ codes "send over"
    ∷ []

abbrev pub call_keywords : List Text
call_keywords =
    codes "call me"
    ∷ codes "give me a call"
    ∷ codes "please call"
    ∷ codes "can't get text"
    ∷ codes "cant get text"
    ∷ codes "can't receive text"
    ∷ codes "cant receive text"
    ∷ []

abbrev pub wrong_keywords : List Text
wrong_keywords =
    codes "wrong number"
    ∷ codes "wrong person"
    ∷ codes "doesn't work here"
    ∷ codes "doesnt work here"
    ∷ codes "no longer with"
    ∷ codes "not my number"
    ∷ []

-- The letter that a character stands for under re.IGNORECASE: the Turkish i's, the long s and
-- the Kelvin sign match ASCII letters too.
abbrev pub re_fold : ℕ → ℕ
re_fold c =
    if leb b'A' c && leb c b'Z'
    then c + 32
    else if c == 0x130 || c == 0x131
    then b'i'
    else if c == 0x17f
    then b's'
    else if c == 0x212a
    then b'k'
    else c

-- A literal under re.IGNORECASE.
abbrev pub lit_ignorecase : Text → Regex
lit_ignorecase [] = empty
lit_ignorecase (c ∷ s) = seq (one (λ d. re_fold d == c)) (lit_ignorecase s)

abbrev pub alts_ignorecase : List Text → Regex
alts_ignorecase [] = one (λ _. false)
alts_ignorecase (t ∷ ts) = alt (lit_ignorecase t) (alts_ignorecase ts)

-- p+
abbrev pub some_of : (ℕ → Bool) → Regex
some_of p = seq (one p) (many p)

-- AMOUNT_RE
abbrev pub amount_re : Unicode → Regex
amount_re u = seq (opt (lit (codes "$"))) (
    seq (opt (one is_space)) (
      seq (one u.is_decimal) (
        seq (many (λ c. u.is_decimal c || (c == b',' || c == b'.'))) (
          seq (many is_space) (
            opt (
              alts_ignorecase (
                codes "k"
                ∷ codes "m"
                ∷ codes "mm"
                ∷ codes "mil"
                ∷ codes "million"
                ∷ codes "thousand"
                ∷ codes "grand"
                ∷ [])))))))

-- EMAIL_RE
abbrev pub email_re : Unicode → Regex
email_re u = seq (some_of (λ c. is_word u c || (c == b'.' || (c == b'+' || c == b'-')))) (
    seq (lit (codes "@")) (
      seq (some_of (λ c. is_word u c || c == b'-'))
        (seq (lit (codes ".")) (some_of (λ c. is_word u c || c == b'.')))))

-- " ".join(body.split()).strip().lower()
unfoldable pub bucket_text : Unicode → Text → Text
bucket_text u body = u.lower (strip (join (b' ' ∷ []) (split body)))

-- text.rstrip(".!,")
unfoldable pub bare_text : Text → Text
bare_text text = rstrip_of (λ c. c == b'.' || (c == b'!' || c == b',')) text

unfoldable pub is_amount : Unicode → Text → Bool
is_amount u bare = not (is_nil bare) && fullmatch (amount_re u) bare

unfoldable pub is_decline : Text → Text → Bool
is_decline text bare =
    one_of bare declines
    || (contains text (codes "not interested")
        || (contains text (codes "already funded") || contains text (codes "we have funding")))

unfoldable pub is_process_update : Text → Bool
is_process_update bare = one_of bare process_words || starts_with bare (codes "just sent")

keyword : Unicode → Text → Text
keyword u k = codes "keyword: " ++ u.repr k

-- The tests on the text, below those on the guardrail's rule.
unfoldable pub text_bucket : Unicode → Text → Text → Text → Intent × Text
unfolding keyword
text_bucket u body text bare =
    if is_amount u bare
    then (amount_given, codes "bare amount pattern: " ++ u.repr bare)
    else if one_of bare affirmatives
    then (interested, codes "short affirmative: " ++ u.repr bare)
    else if ends_with text (codes "?")
    then (question, codes "ends with '?'")
    else if is_some (search_group (email_re u) body)
    then (request_more_info, codes "contains an email address")
    else elim (first_contained request_info_keywords text) [
      | some k ↦ (request_more_info, keyword u k)
      | none ↦ elim (first_contained call_keywords text) [
        | some k ↦ (call_request, keyword u k)
        | none ↦
            if is_process_update bare
            then (process_update, codes "process word: " ++ u.repr bare)
            else if is_decline text bare
            then (not_interested, codes "decline phrasing")
            else if contains text (codes "interested")
            then (interested, codes "contains 'interested' with no decline phrasing")
            else elim (first_contained wrong_keywords text) [
              | some k ↦ (wrong_person, keyword u k)
              | none ↦ (unclear, codes "no bucket matched (TAXONOMY.md: honest default)")
            ]
      ]
    ]

abbrev pub labelled : Option Rule → Option (Intent × Text)
labelled none = none
labelled (some r) = elim (guardrail_intent r) [
  | none ↦ none
  | some i ↦ some (i, codes "guardrail rule " ++ rule_name r)
]

-- The intent by the guardrail's rule alone.
unfoldable pub bucket_for : Unicode → Text → Option Rule → Intent × Text
unfolding guardrail_intent
bucket_for u body rule =
    let text = bucket_text u body in
    elim (labelled rule) [ some r ↦ r | none ↦ text_bucket u body text (bare_text text) ]

unfoldable pub bucket_intent : Unicode → Text → GuardrailResult → Intent × Text
unfolding bucket_for
bucket_intent u body guardrail = bucket_for u body guardrail.rule
