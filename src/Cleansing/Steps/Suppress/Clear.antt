-- ===== src/Cleansing/Steps/Suppress/Clear.antt =====
-- Nobody who opted out is left in the batch.
use automated_outreach_proto.Prelude.{
  ℕ, suc, ◌*◌, ◌≡◌, refl, sym, ap, ◌∙◌, Bool, true, false, Option, some, List, [], ◌∷◌, map, arith,
  All, Result, ok, err, >>=-eq-ok, ok-injective,
}
use automated_outreach_proto.Text.{Text, codes}
use automated_outreach_proto.Datetime.{Datetime, IsIsoFormat}
use automated_outreach_proto.Dict.{Dict, get}
use automated_outreach_proto.Json.{Json, index, to_str}
use automated_outreach_proto.Suppression.Store.{
  Backend, IsCodec, State, SuppressionResult, normalize, add_suppression, is_suppressed,
}
use automated_outreach_proto.Suppression.Store.Log.{IsListing}
use automated_outreach_proto.Suppression.Store.Memory.{
  Remembers, Names, Reach, restart, ask, asked, Step-Remembers, Reach-Remembers,
}
use automated_outreach_proto.Suppression.Store.Remembers.{add-has}
use automated_outreach_proto.Cleansing.PipelineIo.{
  Files, Objects, Row, as_row, row_json, read_ndjson, write_ndjson,
}
use automated_outreach_proto.Cleansing.PipelineIo.Ndjson.{
  IsFiles, read_ndjson-write_ndjson, read_ndjson-other, step_key-names,
}
use automated_outreach_proto.Cleansing.Steps.Suppress.{
  Surroundings, contact, Outcome, kept, suppressed, cooldown, cooled, sorted_out, decide,
  suppress_contact, suppress_row, suppress_rows, kept_rows, Report, new_store, decisions, out_key,
  excluded_key_of, write_outcomes, conclude, handler, day, excluded_rows, report, object_key,
  as_of_time,
}

-- The row gives no identifier whose normal form is `n`.
abbrev pub IsClear : Backend → Text → Row → Type 0
IsClear b n row =
    (phone email : Option Text) → contact row ≡ ok (phone, email) → ¬ (Names b phone email n)

abbrev IsClearOutcome : Backend → Text → Outcome → Type 0
IsClearOutcome b n (kept row) = IsClear b n row
IsClearOutcome b n (suppressed row) = Unit
IsClearOutcome b n (cooldown row) = Unit

cooled-IsClear :
    (b : Backend) (n : Text) (row : Row) (recent : Result Bool) (o : Outcome)
    → IsClear b n row
    → cooled row recent ≡ ok o
    → IsClearOutcome b n o
unfolding cooled
cooled-IsClear b n row (err e) o c h = cc
cooled-IsClear b n row (ok true) o c h = rw (← ok-injective h) tt
cooled-IsClear b n row (ok false) o c h = rw (← ok-injective h) c

sorted_out-IsClear :
    (b : Backend) (n : Text) (blocked : Bool) (row : Row) (recent : Result Bool) (o : Outcome)
    → (blocked ≡ false → IsClear b n row)
    → sorted_out blocked row recent ≡ ok o
    → IsClearOutcome b n o
unfolding sorted_out
sorted_out-IsClear b n true row recent o c h = rw (← ok-injective h) tt
sorted_out-IsClear b n false row recent o c h = cooled-IsClear b n row recent o (c refl) h

decide-IsClear :
    (f : Files) (n : Text) (as_of : Datetime) (window : ℕ) (row : Row)
    (a : Result SuppressionResult) (o : Outcome)
    → ((r : SuppressionResult) → a ≡ ok r → r.suppressed ≡ false → IsClear f.backend n row)
    → decide f as_of window row a ≡ ok o
    → IsClearOutcome f.backend n o
unfolding decide
decide-IsClear f n as_of window row (err e) o c h = cc
decide-IsClear f n as_of window row (ok r) o c h =
    sorted_out-IsClear f.backend n r.suppressed row _ o (c r refl) h

module _ (f : Files) (c : IsCodec f.backend) (l : IsListing f.backend) (n : Text) where
  contact-IsClear :
      (as_of : Datetime) (window now : ℕ) (row : Row) (s : State f.backend) (o : Outcome)
      (who : Result (Option Text × Option Text))
      → contact row ≡ who
      → Remembers f.backend n s
      → (suppress_contact f as_of window now row who s).0 ≡ ok o
      → IsClearOutcome f.backend n o
  unfolding suppress_contact
  contact-IsClear as_of window now row s o (err e) w m h = cc
  contact-IsClear as_of window now row s o (ok (phone, email)) w m h =
      decide-IsClear f n as_of window row (is_suppressed f.backend now phone email s).0 o
        (λ r q k phone' email' w' named.
          let same : (phone, email) ≡ (phone', email') = ok-injective (sym w ∙ w') in
          let named' : Names f.backend phone email n =
            rw (ap (λ x. x.0) same, ap (λ x. x.1) same) named in
          let blocked = asked f.backend c l n s now phone email r m named' q in ground arith)
        h

  row-IsClear :
      (as_of : Datetime) (window now : ℕ) (row : Result Row) (s : State f.backend) (o : Outcome)
      → Remembers f.backend n s
      → (suppress_row f as_of window now row s).0 ≡ ok o
      → IsClearOutcome f.backend n o
  unfolding suppress_row
  row-IsClear as_of window now (err e) s o m h = cc
  row-IsClear as_of window now (ok row) s o m h =
      contact-IsClear as_of window now row s o (contact row) refl m h

  contact-Remembers :
      (as_of : Datetime) (window now : ℕ) (row : Row) (s : State f.backend)
      (who : Result (Option Text × Option Text))
      → Remembers f.backend n s
      → Remembers f.backend n (suppress_contact f as_of window now row who s).1
  unfolding suppress_contact
  contact-Remembers as_of window now row s (err e) m = m
  contact-Remembers as_of window now row s (ok (phone, email)) m =
      Step-Remembers f.backend c l n m (ask now phone email)

  row-Remembers :
      (as_of : Datetime) (window now : ℕ) (row : Result Row) (s : State f.backend)
      → Remembers f.backend n s
      → Remembers f.backend n (suppress_row f as_of window now row s).1
  unfolding suppress_row
  row-Remembers as_of window now (err e) s m = m
  row-Remembers as_of window now (ok row) s m =
      contact-Remembers as_of window now row s (contact row) m

  rows-IsClear :
      (clock : ℕ → ℕ) (as_of : Datetime) (window i : ℕ) (xs : List Json) (s : State f.backend)
      (os : List Outcome)
      → Remembers f.backend n s
      → suppress_rows f clock as_of window i xs s ≡ ok os
      → All (IsClear f.backend n) (kept_rows os)
  unfolding suppress_rows
  rows-IsClear clock as_of window i [] s os m h = rw (← ok-injective h) tt
  rows-IsClear clock as_of window i (x ∷ xs) s os m h =
      let step = suppress_row f as_of window (clock i) (as_row x) s in
      let (o, p, k) = >>=-eq-ok step.0 _ h in
      let (rest, q, e) = >>=-eq-ok (suppress_rows f clock as_of window (suc i) xs step.1) _ k in
      rw (← ok-injective e) (
        placed o rest (row-IsClear as_of window (clock i) (as_row x) s o m p) (
          rows-IsClear clock as_of window (suc i) xs step.1 rest
            (row-Remembers as_of window (clock i) (as_row x) s m) q))
    where
      placed :
          (o : Outcome) (rest : List Outcome)
          → IsClearOutcome f.backend n o
          → All (IsClear f.backend n) (kept_rows rest)
          → All (IsClear f.backend n) (kept_rows (o ∷ rest))
      placed (kept row) rest a b = (a, b)
      placed (suppressed row) rest a b = b
      placed (cooldown row) rest a b = b

-- The kept rows are what the report's key leads to.
write_outcomes-kept :
    (f : Files) (i : IsFiles f) (run_id : Json) (os : List Outcome) (objects : Objects f)
    → read_ndjson f (write_outcomes f run_id os objects) (out_key f run_id)
      ≡ ok (map row_json (kept_rows os))
unfolding write_outcomes out_key excluded_key_of
write_outcomes-kept f i run_id os objects =
    let run = to_str f.render run_id in
    read_ndjson-other f (out_key f run_id) (excluded_key_of f run_id) (excluded_rows os)
      (write_ndjson f (out_key f run_id) (kept_rows os) objects)
      (step_key-names run (codes "05_excluded.ndjson") (codes "05_suppressed.ndjson"))
    ∙ read_ndjson-write_ndjson f i (out_key f run_id) (kept_rows os) objects

-- A report stands on decisions that were made, and leads to their kept rows.
conclude-kept :
    (f : Files) (i : IsFiles f) (work : Result (Json × Json × List Json × List Outcome))
    (objects : Objects f) (r : Report)
    → (conclude f work objects).0 ≡ ok r
    → (bucket run_id : Json) × (rows : List Json) × (os : List Outcome) × (work
        ≡ ok (bucket, run_id, rows, os))
      × (read_ndjson f (conclude f work objects).1 r.key ≡ ok (map row_json (kept_rows os)))
unfolding conclude report
conclude-kept f i (err e) objects r h = cc
conclude-kept f i (ok (bucket, run_id, rows, os)) objects r h = (
  bucket,
  run_id,
  rows,
  os,
  refl,
  rw (← ap (λ x. x.key) (ok-injective h)) (write_outcomes-kept f i run_id os objects),
)

decisions-IsClear :
    (f : Files) (c : IsCodec f.backend) (l : IsListing f.backend) (n : Text) (sr : Surroundings)
    (event : Dict Json) (objects : Objects f) (rows : List Json) (os : List Outcome)
    → Remembers f.backend n (new_store f objects)
    → decisions f sr event objects ≡ ok (rows, os)
    → All (IsClear f.backend n) (kept_rows os)
unfolding decisions
decisions-IsClear f c l n sr event objects rows os m h =
    let (key, p1, h1) = >>=-eq-ok (index (codes "key") event) _ h in
    let (name, p2, h2) = >>=-eq-ok (object_key key) _ h1 in
    let (read, p3, h3) = >>=-eq-ok (read_ndjson f objects name) _ h2 in
    let (as_of, p4, h4) = >>=-eq-ok (as_of_time f sr (get (codes "as_of") event)) _ h3 in
    let (days, p5, h5) = >>=-eq-ok sr.cooldown_days _ h4 in
    let (outcomes, p6, h6) =
      >>=-eq-ok (suppress_rows f sr.monotonic as_of (days * day) 0 read (new_store f objects)) _
        h5 in
    let same : outcomes ≡ os = ap (λ x. x.1) (ok-injective h6) in
    rw (← same) (
      rows-IsClear f c l n sr.monotonic as_of (days * day) 0 read (new_store f objects) outcomes m
        p6)

-- Once an opt-out was added, no run of the suppression step that returns leaves a row of that
-- contact in the batch: the file under the reported key holds rows none of which has a phone
-- number or an address with the normal form of the opt-out. In between there may be any number of
-- additions under new ids, checks and listings of the store, writes of others under new keys, writes
-- under keys outside the log, new or old, and restarts; no event of the log is overwritten. The
-- bucket, JSON and ISO dates behave as documented.
pub suppress_step-IsClear :
    (f : Files) (i : IsFiles f) (c : IsCodec f.backend) (l : IsListing f.backend)
    → IsIsoFormat f.backend.iso
    → (event_id identifier n : Text) (reason source : Json) (occurred_at : Datetime)
      (s t : State f.backend) (sr : Surroundings) (event : Dict Json) (r : Report)
    → normalize f.backend identifier ≡ some n
    → (add_suppression f.backend event_id identifier reason source occurred_at s).0 ≡ ok tt
    → Reach f.backend
        (add_suppression f.backend event_id identifier reason source occurred_at s).1
        t
    → (handler f sr event t.objects).0 ≡ ok r
    → (rows : List Row) × (read_ndjson f (handler f sr event t.objects).1 r.key
        ≡ ok (map row_json rows))
      × All (IsClear f.backend n) rows
unfolding handler
suppress_step-IsClear f i c l iso event_id identifier n reason source occurred_at s t sr event r k a
      w h =
    let m : Remembers f.backend n (new_store f t.objects) =
      Step-Remembers f.backend c l n
        (Reach-Remembers f.backend c l n
          (add-has f.backend iso event_id identifier n reason source occurred_at s k a) w)
        restart in
    let (bucket, run_id, rows, os, e, q) = conclude-kept f i _ t.objects r h in
    let (_, _, e1) = >>=-eq-ok (index (codes "bucket") event) _ e in
    let (_, _, e2) = >>=-eq-ok (index (codes "run_id") event) _ e1 in
    let (found, p, e3) = >>=-eq-ok (decisions f sr event t.objects) _ e2 in
    let same : found.1 ≡ os = ap (λ x. x.3) (ok-injective e3) in
    (
      kept_rows os,
      q,
      rw (← same) (decisions-IsClear f c l n sr event t.objects found.0 found.1 m p),
    )
