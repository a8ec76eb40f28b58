-- ===== src/Guardrails/Tests.antt =====
-- Runs of the guardrails on concrete messages.
use automated_outreach_proto.Prelude.{true, List, length, is_some, arith, ◌↔◌, ◌⊎◌, ◌≢◌, ◌<◌, ◌≤◌}
use automated_outreach_proto.Text.{Text, join, one_of}
use automated_outreach_proto.Guardrails.Canonical.{fold}
use automated_outreach_proto.Guardrails.Canonical.Laws.{words, canonicalize-words}
use automated_outreach_proto.Guardrails.EditDistance.Laws.{Edit, within_edit_distance_1_iff}
use automated_outreach_proto.Guardrails.Rules.{
  Message, sms, suppress_and_stop, human_review, proceed, verdict, contact_verbs, auto_reply_count,
}
use automated_outreach_proto.Guardrails.Rules.OptOut.{
  OpensWith, long_opt_out_opens, fuzzy_whole_match_iff,
}
use automated_outreach_proto.Guardrails.Rules.Order.{
  findings, first_finding, evaluate-first_finding, suppress_iff, proceed_iff, verdict_thread_mono,
  verdict-email_mono,
}
use automated_outreach_proto.Guardrails.Rules.{match_bounce}
use automated_outreach_proto.Guardrails.EditDistance.{within_edit_distance_1}
use automated_outreach_proto.Guardrails.Rules.{despace}
use automated_outreach_proto.Guardrails.Rules.{fuzzy_whole_match}
use automated_outreach_proto.Guardrails.Rules.{match_bounce_or_autoreply}
use automated_outreach_proto.Guardrails.Rules.{match_hostility}
use automated_outreach_proto.Text.Regex.{match_group}
use automated_outreach_proto.Text.Regex.{search_group}
use automated_outreach_proto.Prelude.{◌≡◌, refl, none, some, [], ◌||◌, ◌∷◌, ◌++◌, map, ok}
use automated_outreach_proto.Text.{codes}
use automated_outreach_proto.Text.Space.{split}
use automated_outreach_proto.Unicode.{Unicode, IsUnicode, is_digit, is_lower, ascii_lower, is_word}
use automated_outreach_proto.Guardrails.Canonical.{canonicalize}
use automated_outreach_proto.Guardrails.Rules.{
  match_opt_out, match_legal, evaluate, email, Action, Rule,
}

-- The tables cut down to ASCII.
abbrev pub ascii : Unicode
ascii = record {
  nfkc = λ s. s;
  casefold = map ascii_lower;
  lower = map ascii_lower;
  is_alnum = λ c. is_lower (ascii_lower c) || is_digit c;
  is_decimal = is_digit;
  repr = λ s. b'\'' ∷ (s ++ (b'\'' ∷ []));
}

-- The tables cut down to ASCII behave as documented.
pub ascii-IsUnicode : IsUnicode ascii
ascii-IsUnicode = record {
  nfkc-ascii = λ s h. refl;
  casefold-ascii = λ s h. refl;
  lower-ascii = λ s h. refl;
}

canonical_run : canonicalize ascii (codes "  St\u{200b}OP,, now!! ") ≡ codes "stop now"
unfolding canonicalize
canonical_run = refl

fuzzy_run : match_opt_out ascii (codes "unsubcribe") ≡ some (codes "unsubscribe")
unfolding match_opt_out fuzzy_whole_match within_edit_distance_1 despace
fuzzy_run = refl

spaced : match_opt_out ascii (codes "s t o p") ≡ some (codes "stop")
unfolding match_opt_out fuzzy_whole_match within_edit_distance_1 despace
spaced = refl

imperative :
    match_opt_out ascii (codes "please stop texting me") ≡ some (codes "please stop texting")
unfolding match_opt_out is_word fuzzy_whole_match within_edit_distance_1 despace match_group
imperative = refl

visit : match_opt_out ascii (codes "stop by our office next week") ≡ none
unfolding match_opt_out fuzzy_whole_match within_edit_distance_1 despace match_group
visit = refl

legal : match_legal (codes "i will have my attorneys sue you") ≡ some (codes "attorney")
unfolding match_legal split
legal = refl

bounce :
    evaluate ascii (codes "Error 5.1.10: no such user") [] email
    ≡ ok (record {
      action = Action.human_review;
      rule = some Rule.bounce_or_autoreply;
      trigger = some (codes "5.1.10");
    })
unfolding evaluate match_opt_out match_legal is_word fuzzy_whole_match canonicalize
    within_edit_distance_1 despace match_group split match_hostility match_bounce_or_autoreply
    search_group match_bounce
bounce = refl

abbrev one_reply : List Message
one_reply =
    record { body = codes "thanks"; direction = codes "outbound"; is_auto_reply = true } ∷ []

evaluate-first_finding_example :
    evaluate ascii (codes "STOP or my attorney calls") one_reply sms
    ≡ ok (first_finding (findings ascii (codes "STOP or my attorney calls") one_reply sms))
evaluate-first_finding_example =
    evaluate-first_finding ascii (codes "STOP or my attorney calls") one_reply sms

suppress_iff_example :
    ((verdict ascii (codes "St0p!") one_reply sms).action ≡ suppress_and_stop)
    ↔ (is_some (match_opt_out ascii (canonicalize ascii (codes "St0p!"))) ≡ true)
suppress_iff_example = suppress_iff ascii (codes "St0p!") one_reply sms

proceed_iff_example : ((verdict ascii (codes "yes") one_reply sms).action ≡ proceed) ↔ (
    (match_opt_out ascii (canonicalize ascii (codes "yes")) ≡ none)
    × (match_legal (canonicalize ascii (codes "yes")) ≡ none)
    × (match_hostility (canonicalize ascii (codes "yes")) ≡ none)
    × (match_bounce_or_autoreply ascii
          (canonicalize ascii (codes "yes"))
          (fold ascii (codes "yes"))
          sms
        ≡ none)
    × (auto_reply_count one_reply < 2))
proceed_iff_example = proceed_iff ascii (codes "yes") one_reply sms

abbrev threat : Text
threat = codes "I will sue"

review-held : (a : Action) → a ≡ human_review → a ≢ proceed
review-held a h = λ e. ground arith

threatened : (verdict ascii threat [] sms).action ≡ human_review
unfolding verdict match_opt_out fuzzy_whole_match canonicalize within_edit_distance_1 despace
    match_group match_legal split
threatened = refl

threatened_again : (verdict ascii threat one_reply sms).action ≡ human_review
unfolding verdict match_opt_out fuzzy_whole_match canonicalize within_edit_distance_1 despace
    match_group match_legal split
threatened_again = refl

verdict_thread_mono_example :
    (verdict ascii threat ([] ++ one_reply) sms).action ≡ (verdict ascii threat [] sms).action
verdict_thread_mono_example =
    verdict_thread_mono ascii threat [] one_reply sms (review-held _ threatened)

verdict-email_mono_example :
    (verdict ascii threat one_reply email).action ≡ (verdict ascii threat one_reply sms).action
verdict-email_mono_example =
    verdict-email_mono ascii threat one_reply sms (review-held _ threatened_again)

abbrev asked : Text
asked = codes "please stop texting me"

asked_opt_out : match_opt_out ascii asked ≡ some (codes "please stop texting")
unfolding match_opt_out fuzzy_whole_match within_edit_distance_1 despace match_group is_word
asked_opt_out = refl

long_opt_out_opens_example :
    (v : Text) × (one_of v contact_verbs ≡ true) × OpensWith asked (codes "please stop texting") v
long_opt_out_opens_example =
    long_opt_out_opens ascii asked (codes "please stop texting") (unfold despace in omega arith)
      asked_opt_out

fuzzy_whole_match_iff_example : (fuzzy_whole_match (codes "stp") (codes "stop") ≡ true) ↔ (
    (codes "stp" ≡ codes "stop")
    ⊎ ((4 ≤ length (codes "stop")) × Edit (codes "stp") (codes "stop")))
fuzzy_whole_match_iff_example = fuzzy_whole_match_iff (codes "stp") (codes "stop")

within_edit_distance_1_iff_example :
    (within_edit_distance_1 (codes "cancle") (codes "cancel") ≡ true)
    ↔ Edit (codes "cancle") (codes "cancel")
within_edit_distance_1_iff_example = within_edit_distance_1_iff (codes "cancle") (codes "cancel")

canonicalize-words_example :
    (canonicalize ascii (codes "Opt-out, NOW")
      ≡ join (b' ' ∷ []) (words ascii (codes "Opt-out, NOW")))
    × (split (canonicalize ascii (codes "Opt-out, NOW")) ≡ words ascii (codes "Opt-out, NOW"))
canonicalize-words_example = canonicalize-words ascii (codes "Opt-out, NOW")
