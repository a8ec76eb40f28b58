-- ===== src/Suppression/Store/Memory.antt =====
-- What the store knows of an opt-out, and what each of its operations and other writers leave of it.
use automated_outreach_proto.Prelude.{false}
use automated_outreach_proto.Suppression.Store.{events_prefix}
use automated_outreach_proto.Prelude.{
  ℕ, ◌≡◌, refl, ap, ◌∙◌, ◌⊎◌, inl, inr, true, Option, none, some, [], arith, is_some, Result, ok,
  err, ◌>>=◌, Bool-cases, >>=-eq-ok, ok-injective,
}
use automated_outreach_proto.Text.{starts_with, Text}
use automated_outreach_proto.Datetime.{Datetime}
use automated_outreach_proto.Dict.{Dict, get, put}
use automated_outreach_proto.Json.{Json, obj, Fields, entries}
use automated_outreach_proto.Cleansing.Normalize.{normalize_phone, normalize_email}
use automated_outreach_proto.Suppression.Store.{
  Backend, IsCodec, SuppressionMatch, SuppressionResult, State, to_match, current_set, load_events,
  is_fresh, reloaded, cache_updated, reload, refresh_if_stale, normalize, event_key, update_cache,
  append_event, add_normalized, add_suppression, check, is_suppressed, checked, listed,
  current_identifiers,
}
use automated_outreach_proto.Suppression.Store.Check.{check-blocks}
use automated_outreach_proto.Suppression.Store.Log.{
  IsListing, IsLogged, current_set-IsLogged, put-IsLogged, keep_earliest-keeps,
}

-- The opt-out is logged, and in the cache unless the next check reloads that.
pub record Remembers (b : Backend) (n : Text) (s : State b) : Type 0 where
  pub logged : IsLogged b n s.objects
  pub cached : (s.cache_loaded_at ≡ none) ⊎ (is_some (get n s.cache) ≡ true)

reloaded-Remembers :
    (b : Backend) (n : Text) (now : ℕ) (s : State b) (r : Result (Dict SuppressionMatch))
    → ((d : Dict SuppressionMatch) → r ≡ ok d → is_some (get n d) ≡ true)
    → Remembers b n s
    → Remembers b n (reloaded now s r).1
unfolding reloaded
reloaded-Remembers b n now s (ok d) has h = record { logged = h.logged; cached = inr (has d refl) }
reloaded-Remembers b n now s (err e) has h = h

reloaded-cached :
    (b : Backend) (n : Text) (now : ℕ) (s : State b) (r : Result (Dict SuppressionMatch))
    → ((d : Dict SuppressionMatch) → r ≡ ok d → is_some (get n d) ≡ true)
    → (reloaded now s r).0 ≡ ok tt
    → is_some (get n (reloaded now s r).1.cache) ≡ true
unfolding reloaded
reloaded-cached b n now s (ok d) has h = has d refl
reloaded-cached b n now s (err e) has h = cc

module _ (b : Backend) (c : IsCodec b) (l : IsListing b) (n : Text) where
  -- What a reload of a log with the opt-out finds.
  found :
      (s : State b)
      → IsLogged b n s.objects
      → (d : Dict SuppressionMatch)
      → (do events ← load_events b s.objects; current_set b events) ≡ ok d
      → is_some (get n d) ≡ true
  found s g d h =
      let (es, p, q) = >>=-eq-ok (load_events b s.objects) (current_set b) h in
      current_set-IsLogged b n s.objects es d c l g p q

  refresh-Remembers :
      (now : ℕ) (s : State b) → Remembers b n s → Remembers b n (refresh_if_stale b now s).1
  unfolding refresh_if_stale reload
  refresh-Remembers now s h = elim (Bool-cases (is_fresh now s.cache_loaded_at)) [
    | inl f ↦ rw f h
    | inr o ↦ rw o (reloaded-Remembers b n now s _ (found s h.logged) h)
  ]

  refresh-cached :
      (now : ℕ) (s : State b)
      → Remembers b n s
      → (refresh_if_stale b now s).0 ≡ ok tt
      → is_some (get n (refresh_if_stale b now s).1.cache) ≡ true
  unfolding refresh_if_stale reload
  refresh-cached now s h r = elim (Bool-cases (is_fresh now s.cache_loaded_at)) [
    | inl f ↦ rw f (fresh_cached f h.cached)
    | inr o ↦ rw o (reloaded-cached b n now s _ (found s h.logged) (rw o at r))
  ]
    where
      fresh_cached :
          is_fresh now s.cache_loaded_at ≡ true
          → (s.cache_loaded_at ≡ none) ⊎ (is_some (get n s.cache) ≡ true)
          → is_some (get n s.cache) ≡ true
      fresh_cached f (inl e) = cc (ap (is_fresh now) e, f)
      fresh_cached f (inr e) = e

-- The contact is given by an identifier whose normal form is `n`.
abbrev pub Names : Backend → Option Text → Option Text → Text → Type 0
Names b phone email n =
    ((raw : Text) × (phone ≡ some raw) × (normalize_phone b.unicode b.phones phone ≡ some n))
    ⊎ ((raw : Text) × (email ≡ some raw) × (normalize_email b.unicode email ≡ some n))

check-Names :
    (b : Backend) (cache : Dict SuppressionMatch) (phone email : Option Text) (n : Text)
    → Names b phone email n
    → is_some (get n cache) ≡ true
    → (check b cache phone email).suppressed ≡ true
check-Names b cache phone email n (inl (raw, e, f)) h =
    check-blocks b cache phone email ∙ rw (f, e) (rw h)
check-Names b cache phone email n (inr (raw, e, f)) h =
    check-blocks b cache phone email ∙ rw (f, e) (ground arith)

checked-Names :
    (b : Backend) (phone email : Option Text) (n : Text) (x : Result (Unit {0}) × State b)
    (r : SuppressionResult)
    → Names b phone email n
    → (x.0 ≡ ok tt → is_some (get n x.1.cache) ≡ true)
    → (checked b phone email x).0 ≡ ok r
    → r.suppressed ≡ true
checked-Names b phone email n (ok t, s) r m h q =
    rw (← ok-injective q) (check-Names b s.cache phone email n m (h refl))
checked-Names b phone email n (err e, s) r m h q = cc

checked-state :
    (b : Backend) (phone email : Option Text) (x : Result (Unit {0}) × State b)
    → (checked b phone email x).1 ≡ x.1
checked-state b phone email (ok t, s) = refl
checked-state b phone email (err e, s) = refl

listed-state : (b : Backend) (x : Result (Unit {0}) × State b) → (listed x).1 ≡ x.1
listed-state b (ok t, s) = refl
listed-state b (err e, s) = refl

-- What may happen to the store and its bucket: the operations of the store, events of other
-- writers under new keys, writes under keys that are not the log's, new or old, and a new process
-- with an empty cache.
pub data Step (b : Backend) (s : State b) : State b → Type 0 where
  add :
      (event_id identifier : Text) (reason source : Json) (occurred_at : Datetime)
      → get (event_key event_id) s.objects ≡ none
      → Step b s (add_suppression b event_id identifier reason source occurred_at s).1
  ask : (now : ℕ) (phone email : Option Text) → Step b s (is_suppressed b now phone email s).1
  list : (now : ℕ) → Step b s (current_identifiers b now s).1
  write :
      (key : Text) (body : b.Body)
      → get key s.objects ≡ none
      → Step b s (record s { objects = put key body s.objects })
  overwrite :
      (key : Text) (body : b.Body)
      → starts_with key events_prefix ≡ false
      → Step b s (record s { objects = put key body s.objects })
  restart : Step b s (record s { cache = []; cache_loaded_at = none })

pub data Reach (b : Backend) (s : State b) : State b → Type 0 where
  here : Reach b s s
  next : {t v : State b} → Reach b s t → Step b t v → Reach b s v

cache_updated-Remembers :
    (b : Backend) (n : Text) (s : State b) (r : Result (Dict SuppressionMatch))
    → ((d : Dict SuppressionMatch)
        → r ≡ ok d
        → is_some (get n s.cache) ≡ true
        → is_some (get n d) ≡ true)
    → Remembers b n s
    → Remembers b n (cache_updated s r).1
unfolding cache_updated
cache_updated-Remembers b n s (ok d) keeps h = record {
  logged = h.logged;
  cached = elim h.cached [ inl e ↦ inl e | inr e ↦ inr (keeps d refl e) ];
}
cache_updated-Remembers b n s (err e) keeps h = h

append_event-Remembers :
    (b : Backend) (n event_id : Text) (event : Fields) (s : State b)
    → get (event_key event_id) s.objects ≡ none
    → Remembers b n s
    → Remembers b n (append_event b event_id event s).1
unfolding append_event update_cache
append_event-Remembers b n event_id event s fresh h =
    cache_updated-Remembers b n _ _
      (λ d q e.
        let (m, p, k) = >>=-eq-ok (to_match b (entries event)) _ q in
        keep_earliest-keeps m s.cache d n k e)
      (record {
        logged =
            put-IsLogged b n s.objects (event_key event_id) (b.dumps (obj event)) (inl fresh)
              h.logged;
        cached = h.cached;
      })

add_normalized-Remembers :
    (b : Backend) (n event_id identifier : Text) (reason source : Json) (occurred_at : Datetime)
    (normalized : Option Text) (s : State b)
    → get (event_key event_id) s.objects ≡ none
    → Remembers b n s
    → Remembers b n (add_normalized b event_id identifier reason source occurred_at normalized s).1
unfolding add_normalized
add_normalized-Remembers b n event_id identifier reason source occurred_at none s fresh h = h
add_normalized-Remembers b n event_id identifier reason source occurred_at (some x) s fresh h =
    append_event-Remembers b n event_id _ s fresh h

add-Remembers :
    (b : Backend) (n event_id identifier : Text) (reason source : Json) (occurred_at : Datetime)
    (s : State b)
    → get (event_key event_id) s.objects ≡ none
    → Remembers b n s
    → Remembers b n (add_suppression b event_id identifier reason source occurred_at s).1
unfolding add_suppression
add-Remembers b n event_id identifier reason source occurred_at s fresh h =
    elim (Bool-cases occurred_at.aware) [
      | inl a ↦ simp a (
          add_normalized-Remembers b n event_id identifier reason source occurred_at
            (normalize b identifier) s fresh h)
      | inr o ↦ rw o h
    ]

-- The store after a check is the store after the refresh.
ask-state :
    (b : Backend) (now : ℕ) (phone email : Option Text) (s : State b)
    → ((is_suppressed b now phone email s).1 ≡ s)
      ⊎ ((is_suppressed b now phone email s).1 ≡ (refresh_if_stale b now s).1)
unfolding is_suppressed
ask-state b now none none s = inl refl
ask-state b now (some phone) email s = inr (checked-state b (some phone) email _)
ask-state b now none (some email) s = inr (checked-state b none (some email) _)

pub asked :
    (b : Backend)
    → IsCodec b
    → IsListing b
    → (n : Text) (s : State b) (now : ℕ) (phone email : Option Text) (r : SuppressionResult)
    → Remembers b n s
    → Names b phone email n
    → (is_suppressed b now phone email s).0 ≡ ok r
    → r.suppressed ≡ true
unfolding is_suppressed
asked b c l n s now none none r h m q = cc
asked b c l n s now (some phone) email r h m q =
    checked-Names b (some phone) email n (refresh_if_stale b now s) r m
      (refresh-cached b c l n now s h) q
asked b c l n s now none (some email) r h m q =
    checked-Names b none (some email) n (refresh_if_stale b now s) r m
      (refresh-cached b c l n now s h) q

pub Step-Remembers :
    (b : Backend)
    → IsCodec b
    → IsListing b
    → (n : Text) {s t : State b} → Remembers b n s
    → Step b s t
    → Remembers b n t
unfolding current_identifiers
Step-Remembers b c l n {s} h (add event_id identifier reason source occurred_at fresh) =
    add-Remembers b n event_id identifier reason source occurred_at s fresh h
Step-Remembers b c l n {s} h (ask now phone email) = elim (ask-state b now phone email s) [
  | inl e ↦ rw e h
  | inr e ↦ rw e (refresh-Remembers b c l n now s h)
]
Step-Remembers b c l n {s} h (list now) =
    rw (listed-state b (refresh_if_stale b now s)) (refresh-Remembers b c l n now s h)
Step-Remembers b c l n {s} h (write key body fresh) = record {
  logged = put-IsLogged b n s.objects key body (inl fresh) h.logged;
  cached = h.cached;
}
Step-Remembers b c l n {s} h (overwrite key body elsewhere) = record {
  logged = put-IsLogged b n s.objects key body (inr elsewhere) h.logged;
  cached = h.cached;
}
Step-Remembers b c l n {s} h restart = record { logged = h.logged; cached = inl refl }

pub Reach-Remembers :
    (b : Backend)
    → IsCodec b
    → IsListing b
    → (n : Text) {s t : State b} → Remembers b n s
    → Reach b s t
    → Remembers b n t
Reach-Remembers b c l n h here = h
Reach-Remembers b c l n h (next r st) = Step-Remembers b c l n (Reach-Remembers b c l n h r) st
