-- ===== src/Suppression/Store/Remembers.antt =====
-- An opt-out that was added is never forgotten, whatever the store and other writers do next.
use automated_outreach_proto.Prelude.{
  ℕ, ◌≡◌, refl, sym, ◌∙◌, inl, inr, true, Option, some, ◌++◌, is_some, Result, ok, err, Bool-cases,
  >>=-eq-ok, ok-injective,
}
use automated_outreach_proto.Text.{Text, codes, starts_with}
use automated_outreach_proto.Text.Equality.{starts_with-append, text_eq_iff}
use automated_outreach_proto.Datetime.{Datetime, IsIsoFormat}
use automated_outreach_proto.Dict.{Dict, get}
use automated_outreach_proto.Dict.Laws.{get-put}
use automated_outreach_proto.Json.{Json, obj, str, Fields, entries, index}
use automated_outreach_proto.Suppression.Store.{
  Backend, IsCodec, SuppressionMatch, SuppressionResult, State, events_prefix, to_match,
  cache_updated, kind_of, normalize, event_of, event_key, update_cache, append_event,
  add_normalized, add_suppression, is_suppressed,
}
use automated_outreach_proto.Suppression.Store.Log.{IsListing, IsLogged, keep_earliest-has}
use automated_outreach_proto.Suppression.Store.Memory.{
  Remembers, Names, Reach, asked, Reach-Remembers,
}

-- The event that is written says that the normal form opted out.
event-decodes :
    (b : Backend)
    → IsIsoFormat b.iso
    → (event_id normalized identifier : Text) (reason source : Json) (occurred_at : Datetime)
    → to_match b (entries (event_of b event_id normalized identifier reason source occurred_at))
      ≡ ok (record {
        identifier = normalized;
        kind = str (kind_of identifier);
        reason = reason;
        source = source;
        occurred_at = occurred_at;
      })
unfolding to_match event_of index get
event-decodes b f event_id normalized identifier reason source occurred_at =
    rw (f.parse-print occurred_at)

cache_updated-has :
    (b : Backend) (n : Text) (s : State b) (r : Result (Dict SuppressionMatch))
    → ((d : Dict SuppressionMatch) → r ≡ ok d → is_some (get n d) ≡ true)
    → IsLogged b n s.objects
    → (cache_updated s r).0 ≡ ok tt
    → Remembers b n (cache_updated s r).1
unfolding cache_updated
cache_updated-has b n s (ok d) has g h = record { logged = g; cached = inr (has d refl) }
cache_updated-has b n s (err e) has g h = cc

append_event-has :
    (b : Backend) (event_id : Text) (event : Fields) (m : SuppressionMatch) (s : State b)
    → to_match b (entries event) ≡ ok m
    → (append_event b event_id event s).0 ≡ ok tt
    → Remembers b m.identifier (append_event b event_id event s).1
unfolding append_event update_cache
append_event-has b event_id event m s p h =
    cache_updated-has b m.identifier _ _
      (λ d q.
        let (x, px, k) = >>=-eq-ok (to_match b (entries event)) _ q in
        let same : x ≡ m = ok-injective (sym px ∙ p) in
        rw (← same) (keep_earliest-has x s.cache d k))
      (record {
        key = event_key event_id;
        event = event;
        entry = m;
        stored =
            get-put (event_key event_id) (event_key event_id) (b.dumps (obj event)) s.objects
            ∙ rw ((text_eq_iff (event_key event_id) (event_key event_id)).1 refl);
        placed = key_placed;
        decoded = p;
        named = refl;
      })
      h
  where
    key_placed : starts_with (event_key event_id) events_prefix ≡ true
    key_placed = unfold event_key in starts_with-append events_prefix (event_id ++ codes ".json")

-- A call that returns has logged the normal form of the identifier.
pub add-has :
    (b : Backend)
    → IsIsoFormat b.iso
    → (event_id identifier n : Text) (reason source : Json) (occurred_at : Datetime) (s : State b)
    → normalize b identifier ≡ some n
    → (add_suppression b event_id identifier reason source occurred_at s).0 ≡ ok tt
    → Remembers b n (add_suppression b event_id identifier reason source occurred_at s).1
unfolding add_suppression
add-has b f event_id identifier n reason source occurred_at s k =
    elim (Bool-cases occurred_at.aware) [
      | inr o ↦ rw o (λ h. cc)
      | inl a ↦
          simp (a, k)
            (unfold add_normalized in
              append_event-has b event_id _ _ s
                (event-decodes b f event_id n identifier reason source occurred_at))
    ]

-- Once an opt-out was added, every later check of a contact with that identifier that returns
-- reports the contact as suppressed, on whichever channel: whatever is added, asked or listed in
-- between, whatever other writers log under new keys or write outside the log, and across restarts. S3 lists every key
-- under a prefix, and JSON and ISO dates are read back as they were written.
pub added_stays_suppressed :
    (b : Backend)
    → IsCodec b
    → IsListing b
    → IsIsoFormat b.iso
    → (event_id identifier n : Text) (reason source : Json) (occurred_at : Datetime) (s t : State b)
      (now : ℕ) (phone email : Option Text) (r : SuppressionResult)
    → normalize b identifier ≡ some n
    → (add_suppression b event_id identifier reason source occurred_at s).0 ≡ ok tt
    → Reach b (add_suppression b event_id identifier reason source occurred_at s).1 t
    → Names b phone email n
    → (is_suppressed b now phone email t).0 ≡ ok r
    → r.suppressed ≡ true
added_stays_suppressed b c l f event_id identifier n reason source occurred_at s t now phone email r
      k h w m q =
    asked b c l n t now phone email r
      (Reach-Remembers b c l n (add-has b f event_id identifier n reason source occurred_at s k h)
        w)
      m q
