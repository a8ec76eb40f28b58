-- ===== src/Guardrails/Rules.antt =====
-- src/guardrails/rules.py: the tables of the rules, one matcher for each rule, and `evaluate`.
pub mod OptOut
pub mod Order
use automated_outreach_proto.Prelude.{
  ℕ, suc, Bool, true, false, not, ◌&&◌, ◌||◌, Option, none, some, List, [], ◌∷◌, length, leb, ◌==◌,
  Result, ok, err, value_error, if◌then◌else◌, filter_by,
}
use automated_outreach_proto.Text.{Text, codes, text_eq, starts_with, contains, one_of}
use automated_outreach_proto.Text.Space.{split}
use automated_outreach_proto.Text.Regex.{
  Regex, one, many, seq, alt, boundary, lit, opt, alts, match_group, search_group,
}
use automated_outreach_proto.Unicode.{Unicode, is_word, is_digit}
use automated_outreach_proto.Guardrails.Canonical.{fold, canonicalize}
use automated_outreach_proto.Guardrails.EditDistance.{within_edit_distance_1}

pub data Action : Type 0 where
  suppress_and_stop human_review proceed : Action

-- The names of the rules, as `GuardrailResult.rule` has them.
pub data Rule : Type 0 where
  opt_out legal_escalation hostility bounce_or_autoreply loop_breaker : Rule

pub record Message : Type 0 where
  pub body : Text
  pub direction : Text
  pub is_auto_reply : Bool

pub record GuardrailResult : Type 0 where
  pub action : Action
  pub rule : Option Rule
  pub trigger : Option Text

abbrev pub sms : Text
sms = codes "sms"

abbrev pub email : Text
email = codes "email"

abbrev pub outbound : Text
outbound = codes "outbound"

abbrev pub channels : List Text
channels = sms ∷ email ∷ []

abbrev pub opt_out_keywords : List Text
opt_out_keywords =
    codes "stop"
    ∷ codes "stopall"
    ∷ codes "unsubscribe"
    ∷ codes "cancel"
    ∷ codes "end"
    ∷ codes "quit"
    ∷ codes "revoke"
    ∷ codes "optout"
    ∷ codes "opt out"
    ∷ codes "remove me"
    ∷ []

abbrev pub min_fuzzy_length : ℕ
min_fuzzy_length = 4

abbrev pub contact_verbs : List Text
contact_verbs =
    codes "texting"
    ∷ codes "sending"
    ∷ codes "messaging"
    ∷ codes "contacting"
    ∷ codes "emailing"
    ∷ codes "calling"
    ∷ []

-- _STOP_IMPERATIVE_RE
abbrev pub stop_imperative_re : Unicode → Regex
stop_imperative_re u =
    seq (opt (lit (codes "please ")))
      (seq (lit (codes "stop ")) (seq (alts contact_verbs) (boundary (is_word u))))

abbrev pub legal_prefixes : List Text
legal_prefixes =
    codes "attorney"
    ∷ codes "lawyer"
    ∷ codes "lawsuit"
    ∷ codes "tcpa"
    ∷ codes "fcc"
    ∷ codes "complaint"
    ∷ codes "harass"
    ∷ []

abbrev pub legal_tokens : List Text
legal_tokens = codes "sue" ∷ codes "sues" ∷ codes "sued" ∷ codes "suing" ∷ []

abbrev pub legal_phrases : List Text
legal_phrases = codes "report you" ∷ []

abbrev pub hostility_words : List Text
hostility_words =
    codes "fuck"
    ∷ codes "fucking"
    ∷ codes "shit"
    ∷ codes "bullshit"
    ∷ codes "asshole"
    ∷ codes "bitch"
    ∷ []

abbrev pub hostility_phrases : List Text
hostility_phrases =
    codes "screw you" ∷ codes "piss off" ∷ codes "go to hell" ∷ codes "leave me alone" ∷ []

abbrev pub autoreply_markers : List Text
autoreply_markers =
    codes "out of office"
    ∷ codes "out of the office"
    ∷ codes "automatic reply"
    ∷ codes "auto reply"
    ∷ codes "autoreply"
    ∷ codes "auto submitted"
    ∷ codes "auto generated"
    ∷ codes "on vacation"
    ∷ codes "away from the office"
    ∷ []

abbrev pub bounce_phrases : List Text
bounce_phrases =
    codes "delivery status notification"
    ∷ codes "undeliverable"
    ∷ codes "could not be delivered"
    ∷ codes "mail delivery failed"
    ∷ codes "mailbox unavailable"
    ∷ []

-- _DSN_CODE_RE
abbrev pub dsn_code_re : Unicode → Regex
dsn_code_re u =
    let digit = one u.is_decimal in
    seq (boundary (is_word u)) (
      seq (lit (codes "5.")) (
        seq digit (
          seq (lit (codes "."))
            (seq digit (seq (opt (seq digit (opt digit))) (boundary (is_word u)))))))

-- _SMTP_CODE_RE
abbrev pub smtp_code_re : Unicode → Regex
smtp_code_re u =
    seq (boundary (is_word u))
      (seq (lit (codes "55")) (seq (one (λ c. leb b'0' c && leb c b'4')) (boundary (is_word u))))

-- for phrase in phrases: if phrase in s: return phrase
unfoldable pub first_contained : List Text → Text → Option Text
first_contained [] s = none
first_contained (p ∷ ps) s = if contains s p then some p else first_contained ps s

-- for prefix in prefixes: if token.startswith(prefix): return prefix
unfoldable pub first_prefix : List Text → Text → Option Text
first_prefix [] token = none
first_prefix (p ∷ ps) token = if starts_with token p then some p else first_prefix ps token

-- s.replace(" ", "")
unfoldable pub despace : Text → Text
despace s = filter_by (λ c. not (c == b' ')) s

unfoldable pub fuzzy_whole_match : Text → Text → Bool
fuzzy_whole_match text keyword =
    if text_eq text keyword
    then true
    else leb min_fuzzy_length (length keyword) && within_edit_distance_1 text keyword

unfoldable pub match_keywords : List Text → Text → Text → Option Text
match_keywords [] canon despaced = none
match_keywords (k ∷ ks) canon despaced =
    if fuzzy_whole_match canon k
    then some k
    else if fuzzy_whole_match despaced (despace k)
    then some k
    else match_keywords ks canon despaced

abbrev or_else {ℓ} : {A : Type ℓ} → Option A → Option A → Option A
or_else none o = o
or_else (some a) o = some a

unfoldable pub match_opt_out : Unicode → Text → Option Text
unfolding match_keywords
match_opt_out u canon =
    or_else (match_keywords opt_out_keywords canon (despace canon))
      (match_group (stop_imperative_re u) canon)

match_legal_tokens : List Text → List Text → List Text → Option Text
unfolding first_prefix
match_legal_tokens tokens prefixes [] = none
match_legal_tokens tokens prefixes (t ∷ ts) =
    if one_of t tokens
    then some t
    else or_else (first_prefix prefixes t) (match_legal_tokens tokens prefixes ts)

unfoldable pub match_legal : Text → Option Text
unfolding first_contained match_legal_tokens
match_legal canon =
    or_else (first_contained legal_phrases canon)
      (match_legal_tokens legal_tokens legal_prefixes (split canon))

match_hostile_tokens : List Text → List Text → Option Text
match_hostile_tokens words [] = none
match_hostile_tokens words (t ∷ ts) =
    if one_of t words then some t else match_hostile_tokens words ts

unfoldable pub match_hostility : Text → Option Text
unfolding first_contained match_hostile_tokens
match_hostility canon =
    or_else (first_contained hostility_phrases canon)
      (match_hostile_tokens hostility_words (split canon))

-- The tests that only an e-mail gets.
unfoldable pub match_bounce : Unicode → Text → Text → Option Text
unfolding first_contained
match_bounce u canon folded =
    or_else (first_contained bounce_phrases canon)
      (or_else (search_group (dsn_code_re u) folded) (search_group (smtp_code_re u) folded))

unfoldable pub match_bounce_or_autoreply : Unicode → Text → Text → Text → Option Text
match_bounce_or_autoreply u canon folded channel =
    or_else (first_contained autoreply_markers canon)
      (if text_eq channel email then match_bounce u canon folded else none)

unfoldable pub auto_reply_count : List Message → ℕ
auto_reply_count [] = 0
auto_reply_count (m ∷ ms) =
    let rest = auto_reply_count ms in
    if text_eq m.direction outbound && m.is_auto_reply then suc rest else rest

review : Rule → Text → GuardrailResult
review r t = record { action = human_review; rule = some r; trigger = some t }

-- What follows the test on the channel.
unfoldable pub verdict : Unicode → Text → List Message → Text → GuardrailResult
unfolding review
verdict u body thread channel =
    let canon = canonicalize u body in
    let folded = fold u body in
    elim (match_opt_out u canon) [
      | some t ↦ record { action = suppress_and_stop; rule = some opt_out; trigger = some t }
      | none ↦ elim (match_legal canon) [
        | some t ↦ review legal_escalation t
        | none ↦ elim (match_hostility canon) [
          | some t ↦ review hostility t
          | none ↦ elim (match_bounce_or_autoreply u canon folded channel) [
            | some t ↦ review bounce_or_autoreply t
            | none ↦
                if leb 2 (auto_reply_count thread)
                then review loop_breaker (codes "2 auto-replies in thread")
                else record { action = proceed; rule = none; trigger = none }
          ]
        ]
      ]
    ]

unfoldable pub evaluate : Unicode → Text → List Message → Text → Result GuardrailResult
unfolding verdict
evaluate u body thread channel =
    if not (one_of channel channels) then err value_error else ok (verdict u body thread channel)
