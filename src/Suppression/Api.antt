-- ===== src/Suppression/Api.antt =====
-- src/suppression/api.py: the route that mirrors an opt-out into the list.
use automated_outreach_proto.Prelude.{
  ℕ, ◌≡◌, refl, sym, ap, ◌∙◌, Bool, true, Option, none, some, [], arith, is_value_error, Bool-cases,
  inl, inr, Exn, key_error, type_error, value_error, Result, ok, err, ◌>>=◌, if◌then◌else◌,
}
use automated_outreach_proto.Text.{Text, codes}
use automated_outreach_proto.Datetime.{Datetime, IsIsoFormat}
use automated_outreach_proto.Dict.{Dict}
use automated_outreach_proto.Json.{Json, null, obj, truthy, entries, index, get_or}
use automated_outreach_proto.Suppression.Store.{
  Backend, IsCodec, State, SuppressionResult, as_text, normalize, add_suppression, is_suppressed,
}
use automated_outreach_proto.Suppression.Store.Log.{IsListing}
use automated_outreach_proto.Suppression.Store.Memory.{
  Remembers, Names, Reach, restart, asked, Step-Remembers, Reach-Remembers,
}
use automated_outreach_proto.Suppression.Store.Remembers.{add-has}

-- `json.loads` of a text, and the variable DATA_BUCKET.
pub record Surroundings : Type 0 where
  pub loads : Text → Result Json
  pub data_bucket : Option Text

-- The two answers, 200 and 400.
pub data Reply : Type 0 where
  accepted rejected : Reply

-- event.get("body") or "{}"
unfoldable pub body_text : Json → Result Text
body_text x = if truthy x then as_text x else ok (codes "{}")

abbrev as_payload : Json → Result (Dict Json)
as_payload (obj fs) = ok (entries fs)
as_payload _ = err type_error

abbrev with_zone : Datetime → Result Datetime
with_zone d = if d.aware then ok d else err value_error

abbrev configured : Option Text → Result Text
configured none = err key_error
configured (some name) = ok name

-- What is read from the request, in the order in which the source reads it.
unfoldable pub request_of :
    Backend → Surroundings → Dict Json → Result (Text × Json × Json × Datetime)
request_of b a event = do
  body ← body_text (get_or (codes "body") null event)
  parsed ← a.loads body
  payload ← as_payload parsed
  stamp ← index (codes "occurred_at") payload
  text ← as_text stamp
  parsed_at ← b.iso.parse text
  occurred_at ← with_zone parsed_at
  bucket ← configured a.data_bucket
  identifier ← index (codes "identifier") payload
  reason ← index (codes "reason") payload
  source ← index (codes "source") payload
  name ← as_text identifier
  ok (name, reason, source, occurred_at)

-- except (KeyError, ValueError)
abbrev is_caught : Exn → Bool
is_caught key_error = true
is_caught e = is_value_error e

abbrev refused : Exn → Result Reply
refused e = if is_caught e then ok rejected else err e

unfoldable pub replied : (b : Backend) → Result (Unit {0}) × State b → Result Reply × Dict b.Body
replied b (ok _, s) = (ok accepted, s.objects)
replied b (err e, s) = (refused e, s.objects)

abbrev pub new_store : (b : Backend) → Dict b.Body → State b
new_store b objects = record { objects = objects; cache = []; cache_loaded_at = none }

unfoldable pub respond :
    (b : Backend)
    → Text
    → Result (Text × Json × Json × Datetime)
    → Dict b.Body
    → Result Reply × Dict b.Body
respond b event_id (err e) objects = (refused e, objects)
respond b event_id (ok (name, reason, source, occurred_at)) objects =
    replied b (add_suppression b event_id name reason source occurred_at (new_store b objects))

-- `event_id` is what `uuid4` gives.
unfoldable pub handler :
    (b : Backend) → Surroundings → Text → Dict Json → Dict b.Body → Result Reply × Dict b.Body
handler b a event_id event objects = respond b event_id (request_of b a event) objects

refused-rejected : (e : Exn) → refused e ≡ ok accepted → ⊥
refused-rejected e h = elim (Bool-cases (is_caught e)) [
  | inl c ↦ absurd (ground arith)
  | inr c ↦ absurd (ground arith)
]

replied-accepted :
    (b : Backend) (x : Result (Unit {0}) × State b)
    → (replied b x).0 ≡ ok accepted
    → (x.0 ≡ ok tt) × ((replied b x).1 ≡ x.1.objects)
unfolding replied
replied-accepted b (ok t, s) h = (refl, refl)
replied-accepted b (err e, s) h = absurd (refused-rejected e h)

-- Once the route has answered 200, every later check of a contact with the identifier of the
-- request that returns reports the contact as suppressed. In between there may be any number of
-- additions under new ids, checks and listings of the store, writes of others under new keys, writes
-- under keys outside the log, new or old, and restarts; no event of the log is overwritten.
-- S3 lists every key under a prefix, and JSON and ISO dates are read back as they were written.
pub accepted_stays_suppressed :
    (b : Backend)
    → IsCodec b
    → IsListing b
    → IsIsoFormat b.iso
    → (a : Surroundings) (event_id name n : Text) (reason source : Json) (occurred_at : Datetime)
      (event : Dict Json) (objects : Dict b.Body) (t : State b) (now : ℕ)
      (phone email : Option Text) (r : SuppressionResult)
    → (handler b a event_id event objects).0 ≡ ok accepted
    → request_of b a event ≡ ok (name, reason, source, occurred_at)
    → normalize b name ≡ some n
    → Reach b (new_store b (handler b a event_id event objects).1) t
    → Names b phone email n
    → (is_suppressed b now phone email t).0 ≡ ok r
    → r.suppressed ≡ true
unfolding handler
accepted_stays_suppressed b c l f a event_id name n reason source occurred_at event objects t now
      phone email r h q k w m z =
    let done = add_suppression b event_id name reason source occurred_at (new_store b objects) in
    let same : respond b event_id (request_of b a event) objects ≡ replied b done =
      ap (λ x. respond b event_id x objects) q ∙ unfold respond in refl in
    let (p, o) = replied-accepted b done (sym (ap (λ x. x.0) same) ∙ h) in
    let stored : (respond b event_id (request_of b a event) objects).1 ≡ done.1.objects =
      ap (λ x. x.1) same ∙ o in
    let kept : Remembers b n (new_store b done.1.objects) =
      Step-Remembers b c l n
        (add-has b f event_id name n reason source occurred_at (new_store b objects) k p) restart in
    let kept' : Remembers b n (new_store b (respond b event_id (request_of b a event) objects).1) =
      rw stored kept in
    asked b c l n t now phone email r (Reach-Remembers b c l n kept' w) m z
