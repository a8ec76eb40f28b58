-- ===== src/Suppression/Store/Reduce.antt =====
-- The reduction of the event log: one entry for each identifier, the earliest opt-out.
use automated_outreach_proto.Prelude.{
  ◌≤◌, ◌≡◌, ◌⊎◌, refl, sym, ap, ◌∙◌, Bool, true, false, Option, none, some, List, [], ◌∷◌, arith,
  ltb, All, Among, ok, if◌then◌else◌, inl, inr, Option-cases, Bool-cases,
}
use mathlib.Core.Option.{some-injective}
use automated_outreach_proto.Text.{Text, text_eq}
use automated_outreach_proto.Text.Equality.{text_eq_iff}
use automated_outreach_proto.Datetime.{before_datetime}
use automated_outreach_proto.Dict.{Dict, get, put}
use automated_outreach_proto.Dict.Laws.{get-put}
use automated_outreach_proto.Json.{Json}
use automated_outreach_proto.Suppression.Store.{
  Backend, SuppressionMatch, to_match, keep_earliest, reduce_events, current_set,
}

-- The earlier of a match and what is there already, which stays at a tie.
abbrev pub earlier_of : SuppressionMatch → Option SuppressionMatch → SuppressionMatch
earlier_of m none = m
earlier_of m (some e) = if ltb m.occurred_at.instant e.occurred_at.instant then m else e

-- The entry of one identifier after a list of matches.
abbrev pub pick : Text → List SuppressionMatch → Option SuppressionMatch → Option SuppressionMatch
pick id [] found = found
pick id (m ∷ ms) found =
    pick id ms (if text_eq m.identifier id then some (earlier_of m found) else found)

abbrev pub IsAware : SuppressionMatch → Type 0
IsAware m = m.occurred_at.aware ≡ true

-- Every entry has a time zone.
pub AllAware : Dict SuppressionMatch → Type 0
AllAware d = (id : Text) (m : SuppressionMatch) → get id d ≡ some m → IsAware m

-- The events are readable, and `ms` is what they say.
abbrev pub Decodes : Backend → List (Dict Json) → List SuppressionMatch → Type 0
Decodes b [] [] = Unit
Decodes b [] (m ∷ ms) = ⊥
Decodes b (e ∷ es) [] = ⊥
Decodes b (e ∷ es) (m ∷ ms) = (to_match b e ≡ ok m) × IsAware m × Decodes b es ms

-- The entry for `m` against the one that is there, `e`.
keep_found :
    (m e : SuppressionMatch) (d : Dict SuppressionMatch)
    → get m.identifier d ≡ some e
    → IsAware m
    → IsAware e
    → keep_earliest m d
      ≡ ok (if ltb m.occurred_at.instant e.occurred_at.instant then put m.identifier m d else d)
unfolding keep_earliest before_datetime
keep_found m e d g a h = rw (g, keep_earliest) (rw (a, h))

get_found :
    (m e : SuppressionMatch) (d : Dict SuppressionMatch) (b : Bool) (j : Text)
    → get m.identifier d ≡ some e
    → get j (if b then put m.identifier m d else d)
      ≡ (if text_eq m.identifier j then some (if b then m else e) else get j d)
get_found m e d true j g = get-put m.identifier j m d
get_found m e d false j g = elim (Bool-cases (text_eq m.identifier j)) [
  | inl q ↦ rw q (ap (λ i. get i d) (sym ((text_eq_iff m.identifier j).0 q)) ∙ g)
  | inr n ↦ rw n
]

keep_earliest_aware :
    (m : SuppressionMatch) (d : Dict SuppressionMatch)
    → IsAware m
    → AllAware d
    → (d' : Dict SuppressionMatch) × (keep_earliest m d ≡ ok d')
      × ((j : Text)
          → get j d' ≡ (
              if text_eq m.identifier j then some (earlier_of m (get m.identifier d)) else get j d))
unfolding keep_earliest AllAware
keep_earliest_aware m d a h = elim (Option-cases (get m.identifier d)) [
  | inl n ↦ (put m.identifier m d, rw (n, keep_earliest), λ j. get-put m.identifier j m d ∙ rw n)
  | inr found ↦ (
    _,
    keep_found m found.0 d found.1 a (h m.identifier found.0 found.1),
    λ j. get_found m found.0 d _ j found.1 ∙ rw found.1,
  )
]

earlier_of-IsAware :
    (m : SuppressionMatch) (o : Option SuppressionMatch)
    → IsAware m
    → ((e : SuppressionMatch) → o ≡ some e → IsAware e)
    → IsAware (earlier_of m o)
earlier_of-IsAware m none a h = a
earlier_of-IsAware m (some e) a h = ground (arith, h e refl)

next_aware :
    (m : SuppressionMatch) (d d' : Dict SuppressionMatch)
    → IsAware m
    → AllAware d
    → ((j : Text)
        → get j d'
          ≡ (if text_eq m.identifier j then some (earlier_of m (get m.identifier d)) else get j d))
    → AllAware d'
unfolding AllAware
next_aware m d d' a h g j x q = elim (Bool-cases (text_eq m.identifier j)) [
  | inl e ↦
      let p : earlier_of m (get m.identifier d) ≡ x = some-injective _ _ (sym (g j ∙ rw e) ∙ q) in
      rw (← p) (earlier_of-IsAware m (get m.identifier d) a (h m.identifier))
  | inr n ↦ h j x (sym (g j ∙ rw n) ∙ q)
]

-- The loop over a readable log returns, and each identifier has the entry that `pick` picks.
reduce_events-pick :
    (b : Backend) (es : List (Dict Json)) (ms : List SuppressionMatch) (d : Dict SuppressionMatch)
    → Decodes b es ms
    → AllAware d
    → (d' : Dict SuppressionMatch) × (reduce_events b es d ≡ ok d')
      × ((id : Text) → get id d' ≡ pick id ms (get id d))
unfolding reduce_events
reduce_events-pick b [] [] d h a = (d, refl, λ id. refl)
reduce_events-pick b [] (m ∷ ms) d h a = absurd h
reduce_events-pick b (e ∷ es) [] d h a = absurd h
reduce_events-pick b (e ∷ es) (m ∷ ms) d h a =
    let (next, k, g) = keep_earliest_aware m d h.1 a in
    let (d', r, f) = reduce_events-pick b es ms next h.2 (next_aware m d next h.1 a g) in
    (d', rw (h.0, k) r, λ id. f id ∙ ap (pick id ms) (g id ∙ same_entry id))
  where
    same_entry :
        (id : Text)
        → (if text_eq m.identifier id then some (earlier_of m (get m.identifier d)) else get id d)
          ≡ (if text_eq m.identifier id then some (earlier_of m (get id d)) else get id d)
    same_entry id = elim (Bool-cases (text_eq m.identifier id)) [
      | inl q ↦ rw ((text_eq_iff m.identifier id).0 q)
      | inr n ↦ rw n
    ]

-- What an entry says of the log.
abbrev pub IsEarliest : Text → List SuppressionMatch → Option SuppressionMatch → Type 0
IsEarliest id ms none = All (λ x. text_eq x.identifier id ≡ false) ms
IsEarliest id ms (some m) =
    Among m ms
    × (text_eq m.identifier id ≡ true)
    × All (λ x. text_eq x.identifier id ≡ true → m.occurred_at.instant ≤ x.occurred_at.instant) ms

-- A found entry never gets lost, and never later.
pick-some :
    (id : Text) (ms : List SuppressionMatch) (e : SuppressionMatch)
    → (m : SuppressionMatch) × (pick id ms (some e) ≡ some m)
      × (m.occurred_at.instant ≤ e.occurred_at.instant)
      × ((m ≡ e) ⊎ (Among m ms × (text_eq m.identifier id ≡ true)))
      × All (λ x. text_eq x.identifier id ≡ true → m.occurred_at.instant ≤ x.occurred_at.instant) ms
pick-some id [] e = (e, refl, omega arith, inl refl, tt)
pick-some id (x ∷ ms) e = elim (Bool-cases (text_eq x.identifier id)) [
  | inr n ↦
      let (m, p, l, from, a) = pick-some id ms e in
      (
        m,
        rw n p,
        l,
        (elim from [ inl q ↦ inl q | inr q ↦ inr (inr q.0, q.1) ]),
        ((λ h. absurd (cc)), a),
      )
  | inl y ↦ elim (Bool-cases (ltb x.occurred_at.instant e.occurred_at.instant)) [
    | inl b ↦
        let (m, p, l, from, a) = pick-some id ms x in
        (
          m,
          rw (y, b) p,
          ground arith,
          (elim from [ inl q ↦ inr (inl q, rw q y) | inr q ↦ inr (inr q.0, q.1) ]),
          ((λ h. l), a),
        )
    | inr b ↦
        let (m, p, l, from, a) = pick-some id ms e in
        (
          m,
          rw (y, b) p,
          l,
          (elim from [ inl q ↦ inl q | inr q ↦ inr (inr q.0, q.1) ]),
          ((λ h. ground arith), a),
        )
  ]
]

IsEarliest-cons :
    (id : Text) (x : SuppressionMatch) (ms : List SuppressionMatch) (o : Option SuppressionMatch)
    → text_eq x.identifier id ≡ false
    → IsEarliest id ms o
    → IsEarliest id (x ∷ ms) o
IsEarliest-cons id x ms none n h = (n, h)
IsEarliest-cons id x ms (some m) n (a, e, l) = (inr a, e, ((λ h. absurd (cc)), l))

pick-IsEarliest : (id : Text) (ms : List SuppressionMatch) → IsEarliest id ms (pick id ms none)
pick-IsEarliest id [] = tt
pick-IsEarliest id (x ∷ ms) = elim (Bool-cases (text_eq x.identifier id)) [
  | inl y ↦
      let (m, p, l, from, a) = pick-some id ms x in
      rw (y, p)
        (
          (elim from [ inl q ↦ inl q | inr q ↦ inr q.0 ]),
          (elim from [ inl q ↦ rw q y | inr q ↦ q.1 ]),
          ((λ h. l), a),
        )
  | inr n ↦ rw n (IsEarliest-cons id x ms (pick id ms none) n (pick-IsEarliest id ms))
]

-- Of a log whose events can be read, with time zones, the reduction returns, and it has for each
-- identifier an opt-out of that identifier in the log that no other precedes; an identifier that
-- it lacks has no opt-out in the log.
pub current_set-IsEarliest :
    (b : Backend) (es : List (Dict Json)) (ms : List SuppressionMatch)
    → Decodes b es ms
    → (d : Dict SuppressionMatch) × (current_set b es ≡ ok d)
      × ((id : Text) → IsEarliest id ms (get id d))
unfolding current_set AllAware get
current_set-IsEarliest b es ms h =
    let (d, r, g) = reduce_events-pick b es ms [] h (λ id m q. absurd (ground arith)) in
    (d, r, λ id. rw g (pick-IsEarliest id ms))
