-- ===== src/Salesforce/InboundGap/Sums.antt =====
-- The business time as a sum over days.
use automated_outreach_proto.Prelude.{
  ℕ, zero, suc, ◌+◌, ◌-◌, ◌*◌, ◌/◌, ◌≤◌, ◌<◌, ◌≡◌, refl, ltb, arith, if◌then◌else◌, Bool-cases, inl,
  inr, ok,
}
use automated_outreach_proto.Salesforce.InboundGap.{
  day_micros, weekday, max_wall, min_wall, working_part, day_part, days_from, wall_micros,
}

module _ (opens closes : ℕ) where
  -- What one day adds, where the hours are given.
  unfoldable pub part : ℕ → ℕ → ℕ → ℕ
  part start end' day = if ltb (weekday day) 5 then working_part opens closes start end' day else 0

  unfoldable pub total : ℕ → ℕ → ℕ → ℕ → ℕ
  total start end' zero day = 0
  total start end' (suc left) day = part start end' day + total start end' left (suc day)

  pub days_from-total :
      (start end' left day : ℕ)
      → days_from (ok (opens, closes)) start end' left day ≡ ok (total start end' left day)
  unfolding days_from day_part total part
  days_from-total start end' zero day = refl
  days_from-total start end' (suc left) day =
      rw (days_from-total start end' left (suc day))
        (elim (Bool-cases (ltb (weekday day) 5)) [ inl w ↦ rw w refl | inr w ↦ rw w refl ])

  total-append :
      (start end' j k day : ℕ)
      → total start end' (j + k) day ≡ total start end' j day + total start end' k (day + j)
  unfolding total
  total-append start end' zero k day =
      let e : (0 + k) ≡ k = omega arith in
      let f : (day + 0) ≡ day = omega arith in rw e (rw f (omega arith))
  total-append start end' (suc j) k day =
      let e : (suc j + k) ≡ suc (j + k) = omega arith in
      let f : (suc day + j) ≡ (day + suc j) = omega arith in
      let rest = total-append start end' j k (suc day) in rw e (rw (← f) (rw rest (omega arith)))

  -- Days behind the end, and days before the start, add nothing.
  part-after : (start end' day : ℕ) → end' / day_micros < day → part start end' day ≡ 0
  unfolding part working_part
  part-after start end' day h = ground arith

  part-before :
      (start end' day : ℕ)
      → closes ≤ day_micros
      → day < start / day_micros
      → part start end' day ≡ 0
  unfolding part working_part
  part-before start end' day c h = ground arith

  part-add :
      (start mid end' day : ℕ)
      → start ≤ mid
      → mid ≤ end'
      → part start mid day + part mid end' day ≡ part start end' day
  unfolding part working_part
  part-add start mid end' day h k = ground arith

  -- φ(t), the time t moved between the start and the end
  abbrev clamp : ℕ → ℕ → ℕ → ℕ
  clamp start end' t = min_wall end' (max_wall t start)

  part-le :
      (start end' day : ℕ)
      → closes ≤ day_micros
      → start ≤ end'
      → part start end' day + clamp start end' (day * day_micros)
        ≤ clamp start end' (suc day * day_micros)
  unfolding part working_part
  part-le start end' day c h = ground arith

  total-le :
      (start end' left day : ℕ)
      → closes ≤ day_micros
      → start ≤ end'
      → total start end' left day + clamp start end' (day * day_micros)
        ≤ clamp start end' ((day + left) * day_micros)
  unfolding total
  total-le start end' zero day c h = let e : (day + 0) ≡ day = omega arith in rw e (omega arith)
  total-le start end' (suc left) day c h =
      let e : (suc day + left) ≡ (day + suc left) = omega arith in
      let rest = total-le start end' left (suc day) c h in
      let first = part-le start end' day c h in rw (← e) (omega arith)

  total-after : (start end' left day : ℕ) → end' / day_micros < day → total start end' left day ≡ 0
  unfolding total
  total-after start end' zero day h = refl
  total-after start end' (suc left) day h =
      rw (part-after start end' day h)
        (rw (total-after start end' left (suc day) (omega arith)) refl)

  total-before :
      (start end' left day : ℕ)
      → closes ≤ day_micros
      → day + left ≤ start / day_micros
      → total start end' left day ≡ 0
  unfolding total
  total-before start end' zero day c h = refl
  total-before start end' (suc left) day c h =
      rw (part-before start end' day c (omega arith))
        (rw (total-before start end' left (suc day) c (omega arith)) refl)

  total-add :
      (start mid end' left day : ℕ)
      → start ≤ mid
      → mid ≤ end'
      → total start mid left day + total mid end' left day ≡ total start end' left day
  unfolding total
  total-add start mid end' zero day h k = refl
  total-add start mid end' (suc left) day h k =
      let first = part-add start mid end' day h k in
      let rest = total-add start mid end' left (suc day) h k in omega arith

  -- The business time between two local times, where the hours are given.
  unfoldable pub between : ℕ → ℕ → ℕ
  between start end' =
      total start end' (suc (end' / day_micros) - start / day_micros) (start / day_micros)

  pub wall_micros-between :
      (start end' : ℕ) → wall_micros (ok (opens, closes)) start end' ≡ ok (between start end')
  unfolding wall_micros between
  wall_micros-between start end' =
      days_from-total start end' (suc (end' / day_micros) - start / day_micros) (start / day_micros)

  -- The days of both parts may be counted over the days of the whole.
  between-longer :
      (start mid last : ℕ)
      → start ≤ mid
      → mid / day_micros ≤ last
      → total start mid (suc last - start / day_micros) (start / day_micros) ≡ between start mid
  unfolding between
  between-longer start mid last h k =
      let i = start / day_micros in
      let j = mid / day_micros in
      let e : (suc last - i) ≡ (suc j - i) + (last - j) = omega arith in
      rw e (
        rw (total-append start mid (suc j - i) (last - j) i)
          (rw (total-after start mid (last - j) (i + (suc j - i)) (omega arith)) (omega arith)))

  between-earlier :
      (start mid end' : ℕ)
      → closes ≤ day_micros
      → start ≤ mid
      → mid ≤ end'
      → total mid end' (suc (end' / day_micros) - start / day_micros) (start / day_micros)
        ≡ between mid end'
  unfolding between
  between-earlier start mid end' c h k =
      let i = start / day_micros in
      let j = mid / day_micros in
      let e : (suc (end' / day_micros) - i) ≡ (j - i) + (suc (end' / day_micros) - j) =
        omega arith in
      let g : i + (j - i) ≡ j = omega arith in
      rw e (
        rw (total-append mid end' (j - i) (suc (end' / day_micros) - j) i)
          (rw (total-before mid end' (j - i) i c (omega arith)) (rw g (omega arith))))

  pub between-add :
      (start mid end' : ℕ)
      → closes ≤ day_micros
      → start ≤ mid
      → mid ≤ end'
      → between start mid + between mid end' ≡ between start end'
  unfolding between
  between-add start mid end' c h k =
      rw (← between-longer start mid (end' / day_micros) h (omega arith)) (
        rw (← between-earlier start mid end' c h k) (
          total-add start mid end' (suc (end' / day_micros) - start / day_micros)
            (start / day_micros) h k))

  pub between-le :
      (start end' : ℕ) → closes ≤ day_micros → start ≤ end' → between start end' ≤ end' - start
  unfolding between
  between-le start end' c h =
      let whole =
        total-le start end' (suc (end' / day_micros) - start / day_micros) (start / day_micros) c
          h in
      let low : start / day_micros * day_micros ≤ start = omega arith in ground arith
