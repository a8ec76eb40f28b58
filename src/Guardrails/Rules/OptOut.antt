-- ===== src/Guardrails/Rules/OptOut.antt =====
-- When the opt-out rule fires: on a whole message that is a keyword up to one edit, or on one that
-- opens with an imperative.
use automated_outreach_proto.Prelude.{
  ◌+◌, ◌≤◌, ◌<◌, ◌≡◌, ap, ◌∙◌, ◌⊎◌, inl, inr, ◌↔◌, true, some, List, [], ◌∷◌, ◌++◌, arith, All,
  length, Bool-cases, Option-cases,
}
use mathlib.Core.List.{append-nil}
use automated_outreach_proto.Text.{Text, codes, one_of, starts_with}
use automated_outreach_proto.Text.Equality.{text_eq_iff, starts_with-append}
use automated_outreach_proto.Text.Regex.{match_group}
use automated_outreach_proto.Text.Regex.Language.{
  match_group-In, In-seq, In-alt, In-empty, In-lit, In-alts, In-boundary,
}
use automated_outreach_proto.Unicode.{Unicode}
use automated_outreach_proto.Guardrails.EditDistance.Laws.{
  Edit, within_edit_distance_1_iff, Edit-length,
}
use automated_outreach_proto.Guardrails.Rules.{
  opt_out_keywords, contact_verbs, stop_imperative_re, despace, fuzzy_whole_match, match_keywords,
  match_opt_out,
}

-- A whole message counts as a keyword exactly when it is the keyword, or when the keyword has at
-- least four characters and one edit leads from the message to it.
pub fuzzy_whole_match_iff :
    (text keyword : Text)
    → (fuzzy_whole_match text keyword ≡ true)
      ↔ ((text ≡ keyword) ⊎ ((4 ≤ length keyword) × Edit text keyword))
unfolding fuzzy_whole_match
fuzzy_whole_match_iff t k = (
  λ h. ground (arith, text_eq_iff t k, within_edit_distance_1_iff t k),
  λ n. elim n [
    | inl p ↦ ground (arith, text_eq_iff t k)
    | inr q ↦ ground (arith, within_edit_distance_1_iff t k, q.0, q.1)
  ],
)

fuzzy-length :
    (text keyword : Text) → fuzzy_whole_match text keyword ≡ true → length text ≤ length keyword + 1
fuzzy-length t k h = elim ((fuzzy_whole_match_iff t k).0 h) [
  | inl p ↦ omega (arith, ap (length {0}) p)
  | inr q ↦ Edit-length q.1
]

despace-length : (s : Text) → length (despace s) ≤ length s
unfolding despace
despace-length [] = omega arith
despace-length (c ∷ s) = ground (arith, despace-length s)

abbrev Short : Text → Type 0
Short k = length k ≤ 11

match_keywords-length :
    (ks : List Text) (canon t : Text)
    → All Short ks
    → match_keywords ks canon (despace canon) ≡ some t
    → (length (despace canon) ≤ 12)
unfolding match_keywords
match_keywords-length [] canon t h m = cc
match_keywords-length (k ∷ ks) canon t h m = elim (Bool-cases (fuzzy_whole_match canon k)) [
  | inl e ↦ omega (arith, fuzzy-length canon k e, despace-length canon, h.0)
  | inr n ↦ elim (Bool-cases (fuzzy_whole_match (despace canon) (despace k))) [
    | inl e ↦ omega (arith, fuzzy-length (despace canon) (despace k) e, despace-length k, h.0)
    | inr o ↦ match_keywords-length ks canon t h.1 (ground arith)
  ]
]

abbrev pub OpensWith : Text → Text → Text → Type 0
OpensWith canon t v =
    ((t ≡ codes "stop " ++ v) ⊎ (t ≡ codes "please stop " ++ v)) × (starts_with canon t ≡ true)

-- What the imperative pattern finds: a contact verb behind "stop" or "please stop", in front.
pub imperative_opens :
    (u : Unicode) (canon t : Text)
    → match_group (stop_imperative_re u) canon ≡ some t
    → (v : Text) × (one_of v contact_verbs ≡ true) × OpensWith canon t v
imperative_opens u canon t h =
    let (x, (r, e)) = match_group-In (stop_imperative_re u) canon t h in
    let (p, s, xp, xs, es) = In-seq x in
    let (st, q, xst, xq, eq) = In-seq xs in
    let (v, z, xv, xz, ez) = In-seq xq in
    let verb : q ≡ v = ez ∙ ap (λ y. v ++ y) (In-boundary xz) ∙ append-nil v in
    let stop : s ≡ codes "stop " ++ v =
      eq ∙ ap (λ y. y ++ q) (In-lit (codes "stop ") xst) ∙ ap (λ y. codes "stop " ++ y) verb in
    (
      v,
      In-alts contact_verbs xv,
      (
        elim (In-alt xp) [
          | inl xl ↦ inr (
              es
              ∙ ap (λ y. y ++ s) (In-lit (codes "please ") xl)
              ∙ ap (λ y. codes "please " ++ y) stop)
          | inr xr ↦ inl (es ∙ ap (λ y. y ++ s) (In-empty xr) ∙ stop)
        ],
        rw e (starts_with-append t r),
      ),
    )

keywords-Short : All Short opt_out_keywords
keywords-Short = omega arith

-- A message of more than twelve letters, blanks left out, is suppressed only if it opens with
-- "stop" or "please stop" and a contact verb, and then this opening is the trigger.
pub long_opt_out_opens :
    (u : Unicode) (canon t : Text)
    → 12 < length (despace canon)
    → match_opt_out u canon ≡ some t
    → (v : Text) × (one_of v contact_verbs ≡ true) × OpensWith canon t v
unfolding match_opt_out
long_opt_out_opens u canon t long h =
    elim (Option-cases (match_keywords opt_out_keywords canon (despace canon))) [
      | inl n ↦ imperative_opens u canon t (rw n at h)
      | inr found ↦ absurd (
          omega
            (arith, match_keywords-length opt_out_keywords canon found.0 keywords-Short found.1))
    ]
