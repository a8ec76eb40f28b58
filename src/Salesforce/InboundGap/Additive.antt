-- ===== src/Salesforce/InboundGap/Additive.antt =====
-- The business time of an interval that is cut in two.
use automated_outreach_proto.Prelude.{
  ℕ, ◌+◌, ◌-◌, ◌*◌, ◌≤◌, ◌<◌, ◌≡◌, refl, sym, ap, ◌∙◌, true, false, arith, inl, inr, ◌⊎◌, Result,
  ok, pos, ok-injective,
}
use automated_outreach_proto.Datetime.{Datetime, before_datetime}
use automated_outreach_proto.Salesforce.InboundGap.{hour_micros, time_of, hours_of, business_micros}
use automated_outreach_proto.Salesforce.InboundGap.Sums.{
  between, wall_micros-between, between-add, between-le,
}

-- Two times that can be compared and stand in this order.
pub record Ordered (zone : Datetime → ℕ) (a b : Datetime) : Type 0 where
  pub same_kind : a.aware ≡ b.aware
  pub in_order : a.instant ≤ b.instant
  pub wall_in_order : zone a ≤ zone b

hours_of-ok :
    (opens closes : ℕ)
    → opens < 24
    → closes < 24
    → hours_of (pos opens) (pos closes) ≡ ok (opens * hour_micros, closes * hour_micros)
unfolding hours_of time_of
hours_of-ok opens closes h k = ground arith

before_datetime-cases :
    (zone : Datetime → ℕ) (a b : Datetime)
    → Ordered zone a b
    → ((before_datetime a b ≡ ok true) × (a.instant < b.instant))
      ⊎ ((before_datetime a b ≡ ok false) × (a.instant ≡ b.instant))
unfolding before_datetime
before_datetime-cases zone a b h = let kind = h.same_kind in let order = h.in_order in ground arith

same_time : (a b : Datetime) → a.aware ≡ b.aware → a.instant ≡ b.instant → a ≡ b
same_time a b h k = cc

module _ (zone : Datetime → ℕ) (opens closes : ℕ) (opens-lt : opens < 24)
    (closes-lt : closes < 24) where
  -- What the function returns for these hours.
  abbrev pub spent : Datetime → Datetime → Result ℕ
  spent a b = business_micros a b zone (pos opens) (pos closes)

  counted : Datetime → Datetime → ℕ
  counted a b = between (opens * hour_micros) (closes * hour_micros) (zone a) (zone b)

  spent-later : (a b : Datetime) → before_datetime a b ≡ ok true → spent a b ≡ ok (counted a b)
  unfolding counted business_micros
  spent-later a b h = rw h (
      rw (hours_of-ok opens closes opens-lt closes-lt)
        (wall_micros-between (opens * hour_micros) (closes * hour_micros) (zone a) (zone b)))

  spent-same : (a b : Datetime) → before_datetime a b ≡ ok false → spent a b ≡ ok 0
  unfolding business_micros
  spent-same a b h = rw h refl

  counted-add :
      (a b c : Datetime)
      → Ordered zone a b
      → Ordered zone b c
      → counted a b + counted b c ≡ counted a c
  unfolding counted
  counted-add a b c h k =
      between-add (opens * hour_micros) (closes * hour_micros) (zone a) (zone b) (zone c)
        (omega arith) h.wall_in_order k.wall_in_order

  counted-le : (a b : Datetime) → Ordered zone a b → counted a b ≤ zone b - zone a
  unfolding counted
  counted-le a b h =
      between-le (opens * hour_micros) (closes * hour_micros) (zone a) (zone b) (omega arith)
        h.wall_in_order

  later_trans :
      (a b c : Datetime)
      → Ordered zone a b
      → Ordered zone b c
      → a.instant < b.instant
      → before_datetime a c ≡ ok true
  unfolding before_datetime
  later_trans a b c h k l =
      let e1 = h.same_kind in let e2 = k.same_kind in let o = k.in_order in ground arith

  business_micros-bound :
      (a b : Datetime) → Ordered zone a b → (x : ℕ) × (spent a b ≡ ok x) × (x ≤ zone b - zone a)
  business_micros-bound a b h = elim (before_datetime-cases zone a b h) [
    | inl later ↦ (counted a b, spent-later a b later.0, counted-le a b h)
    | inr same ↦ (0, spent-same a b same.0, omega arith)
  ]

  -- What two intervals, one after the other, take.
  abbrev Splits : Datetime → Datetime → Datetime → Type 0
  Splits a b c =
      (x : ℕ) × (y : ℕ) × (spent a b ≡ ok x) × (spent b c ≡ ok y) × (spent a c ≡ ok (x + y))

  Splits-same :
      (a b c : Datetime) → Ordered zone b c → a ≡ b → before_datetime a b ≡ ok false → Splits a b c
  Splits-same a b c k e h =
      let m = business_micros-bound b c k in
      (0, m.0, spent-same a b h, m.1, (ap (λ d. spent d c) e) ∙ (m.1 ∙ ap ok (omega arith)))

  before_datetime-Splits : (a b c : Datetime) → Ordered zone a b → Ordered zone b c → Splits a b c
  before_datetime-Splits a b c h k = elim (before_datetime-cases zone a b h) [
    | inr same ↦ Splits-same a b c k (same_time a b h.same_kind same.1) same.0
    | inl later ↦ elim (before_datetime-cases zone b c k) [
      | inl last ↦ (
        counted a b,
        counted b c,
        spent-later a b later.0,
        spent-later b c last.0,
        spent-later a c (later_trans a b c h k later.1) ∙ ap ok (sym (counted-add a b c h k)),
      )
      | inr last ↦ (
        counted a b,
        0,
        spent-later a b later.0,
        spent-same b c last.0,
        ap (λ d. spent a d) (sym (same_time b c k.same_kind last.1))
            ∙ (spent-later a b later.0 ∙ ap ok (omega arith)),
      )
    ]
  ]

  -- Where the hours are whole numbers below 24 and the three times are in order, of one kind and in
  -- order on the wall clock too, the business time from the first to the last is the sum of the
  -- business times of the two parts, all three are returned, and the sum is not above the time
  -- between the ends on the wall clock.
  pub business_micros-add :
      (a b c : Datetime)
      → Ordered zone a b
      → Ordered zone b c
      → (x : ℕ) × (y : ℕ) × (business_micros a b zone (pos opens) (pos closes) ≡ ok x)
        × (business_micros b c zone (pos opens) (pos closes) ≡ ok y)
        × (business_micros a c zone (pos opens) (pos closes) ≡ ok (x + y))
        × (x + y ≤ zone c - zone a)
  business_micros-add a b c h k =
      let whole = before_datetime-Splits a b c h k in
      let p1 = h.in_order in
      let p2 = k.in_order in
      let p3 = h.wall_in_order in
      let p4 = k.wall_in_order in
      let bound = business_micros-bound a c (record {
        same_kind = h.same_kind ∙ k.same_kind;
        in_order = omega arith;
        wall_in_order = omega arith;
      }) in
      let e : bound.0 ≡ whole.0 + whole.1 = ok-injective (sym bound.1 ∙ whole.4) in
      (whole.0, whole.1, whole.2, whole.3, whole.4, rw (← e) bound.2)
