-- ===== src/Suppression/Store/Log.antt =====
-- The event log: what is logged is read back and stands in the reduced list.
use automated_outreach_proto.Prelude.{false}
use automated_outreach_proto.Prelude.{
  ℕ, zero, suc, ◌≡◌, ◌⊎◌, refl, sym, ap, ◌∙◌, inl, inr, true, Option, none, some, List, [], ◌∷◌,
  ◌++◌, arith, Among, is_some, out_of_fuel, Result, ok, err, ◌>>=◌, if◌then◌else◌, Bool-cases,
  >>=-eq-ok, ok-injective,
}
use automated_outreach_proto.Text.{Text, text_eq, starts_with}
use automated_outreach_proto.Text.Equality.{text_eq_iff}
use automated_outreach_proto.Dict.{Dict, get, put}
use automated_outreach_proto.Dict.Laws.{get-put}
use automated_outreach_proto.Json.{Json, obj, Fields, entries, as_dict}
use automated_outreach_proto.Suppression.Store.{
  Backend, IsCodec, SuppressionMatch, events_prefix, to_match, keep_earliest, reduce_events,
  current_set, read_event, read_events, more_pages, load_pages, load_events,
}

-- The keys of a listing, page after page.
unfoldable pub listed_keys : (b : Backend) → Dict b.Body → ℕ → Option Text → Result (List Text)
listed_keys b objects zero token = err out_of_fuel
listed_keys b objects (suc fuel) token = do
  let page = b.list_objects objects events_prefix token
  rest ← more_pages (λ next. listed_keys b objects fuel (some next)) page.next
  ok (page.contents ++ rest)

-- What S3 documents of a listing: its pages together hold every key under the prefix.
pub record IsListing (b : Backend) : Type 0 where
  pub complete :
      (objects : Dict b.Body) (ks : List Text) (key : Text) (body : b.Body)
      → listed_keys b objects b.page_fuel none ≡ ok ks
      → get key objects ≡ some body
      → starts_with key events_prefix ≡ true
      → Among key ks

read_events-append :
    (b : Backend) (objects : Dict b.Body) (ks ls : List Text) (es fs : List (Dict Json))
    → read_events b objects ks ≡ ok es
    → read_events b objects ls ≡ ok fs
    → read_events b objects (ks ++ ls) ≡ ok (es ++ fs)
unfolding read_events
read_events-append b objects [] ls es fs h k = rw (← ok-injective h) k
read_events-append b objects (x ∷ ks) ls es fs h k =
    let (e, p, q) = >>=-eq-ok (read_event b objects x) _ h in
    let (es', p', q') = >>=-eq-ok (read_events b objects ks) _ q in
    rw (p, read_events-append b objects ks ls es' fs p' k)
      (ap (λ x. ok (x ++ fs)) (ok-injective q'))

read_events-Among :
    (b : Backend) (objects : Dict b.Body) (key : Text) (ks : List Text) (es : List (Dict Json))
    → read_events b objects ks ≡ ok es
    → Among key ks
    → (e : Dict Json) × (read_event b objects key ≡ ok e) × Among e es
unfolding read_events
read_events-Among b objects key [] es h a = elim a [ ]
read_events-Among b objects key (x ∷ ks) es h a =
    let (e, p, q) = >>=-eq-ok (read_event b objects x) _ h in
    let (es', p', q') = >>=-eq-ok (read_events b objects ks) _ q in
    elim a [
      | inl s ↦ (e, ap (read_event b objects) s ∙ p, rw (← ok-injective q') (inl refl))
      | inr t ↦
          let (f, r, m) = read_events-Among b objects key ks es' p' t in
          (f, r, rw (← ok-injective q') (inr m))
    ]

-- The keys of the further pages, given those of each one.
more_keys :
    (b : Backend) (objects : Dict b.Body) (fuel : ℕ) (token : Option Text) (es : List (Dict Json))
    → ((next : Text) (fs : List (Dict Json))
        → load_pages b objects fuel (some next) ≡ ok fs
        → (ks : List Text) × (listed_keys b objects fuel (some next) ≡ ok ks)
          × (read_events b objects ks ≡ ok fs))
    → more_pages (λ next. load_pages b objects fuel (some next)) token ≡ ok es
    → (ks : List Text) × (more_pages (λ next. listed_keys b objects fuel (some next)) token ≡ ok ks)
      × (read_events b objects ks ≡ ok es)
unfolding read_events
more_keys b objects fuel none es ih h = ([], refl, h)
more_keys b objects fuel (some next) es ih h = ih next es h

load_pages-keys :
    (b : Backend) (objects : Dict b.Body) (fuel : ℕ) (token : Option Text) (es : List (Dict Json))
    → load_pages b objects fuel token ≡ ok es
    → (ks : List Text) × (listed_keys b objects fuel token ≡ ok ks)
      × (read_events b objects ks ≡ ok es)
unfolding load_pages listed_keys
load_pages-keys b objects zero token es h = absurd (ground arith)
load_pages-keys b objects (suc fuel) token es h =
    let page = b.list_objects objects events_prefix token in
    let (a, p, q) = >>=-eq-ok (read_events b objects page.contents) _ h in
    let (rest, r, k) =
      >>=-eq-ok (more_pages (λ next. load_pages b objects fuel (some next)) page.next) _ q in
    let (ls, l, m) =
      more_keys b objects fuel page.next rest
        (λ next fs. load_pages-keys b objects fuel (some next) fs) r in
    (page.contents ++ ls, rw l, read_events-append b objects page.contents ls a rest p m ∙ k)

-- An opt-out on the list stays on it, and the one that is added is on it.
pub keep_earliest-keeps :
    (m : SuppressionMatch) (d d' : Dict SuppressionMatch) (id : Text)
    → keep_earliest m d ≡ ok d'
    → is_some (get id d) ≡ true
    → is_some (get id d') ≡ true
unfolding keep_earliest
keep_earliest-keeps m d d' id h s = ground (arith, get-put m.identifier id m d)

pub keep_earliest-has :
    (m : SuppressionMatch) (d d' : Dict SuppressionMatch)
    → keep_earliest m d ≡ ok d'
    → is_some (get m.identifier d') ≡ true
unfolding keep_earliest
keep_earliest-has m d d' h =
    ground (arith, get-put m.identifier m.identifier m d, text_eq_iff m.identifier m.identifier)

reduce_events-keeps :
    (b : Backend) (es : List (Dict Json)) (d d' : Dict SuppressionMatch) (id : Text)
    → reduce_events b es d ≡ ok d'
    → is_some (get id d) ≡ true
    → is_some (get id d') ≡ true
unfolding reduce_events
reduce_events-keeps b [] d d' id h s = rw (← ok-injective h) s
reduce_events-keeps b (e ∷ es) d d' id h s =
    let (m, p, q) = >>=-eq-ok (to_match b e) _ h in
    let (n, r, k) = >>=-eq-ok (keep_earliest m d) _ q in
    reduce_events-keeps b es n d' id k (keep_earliest-keeps m d n id r s)

reduce_events-has :
    (b : Backend) (es : List (Dict Json)) (d d' : Dict SuppressionMatch) (e : Dict Json)
    (m : SuppressionMatch)
    → reduce_events b es d ≡ ok d'
    → Among e es
    → to_match b e ≡ ok m
    → is_some (get m.identifier d') ≡ true
unfolding reduce_events
reduce_events-has b [] d d' e m h a t = elim a [ ]
reduce_events-has b (f ∷ es) d d' e m h a t =
    let (x, p, q) = >>=-eq-ok (to_match b f) _ h in
    let (n, r, k) = >>=-eq-ok (keep_earliest x d) _ q in
    elim a [
      | inl s ↦
          let same : x ≡ m = ok-injective (sym p ∙ ap (to_match b) (sym s) ∙ t) in
          reduce_events-keeps b es n d' m.identifier k (rw (← same) (keep_earliest-has x d n r))
      | inr u ↦ reduce_events-has b es n d' e m k u t
    ]

-- The log holds, under some key, an event that says that `n` opted out.
pub record IsLogged (b : Backend) (n : Text) (objects : Dict b.Body) : Type 0 where
  pub key : Text
  pub event : Fields
  pub entry : SuppressionMatch
  pub stored : get key objects ≡ some (b.dumps (obj event))
  pub placed : starts_with key events_prefix ≡ true
  pub decoded : to_match b (entries event) ≡ ok entry
  pub named : entry.identifier ≡ n

read_event-stored :
    (b : Backend)
    → IsCodec b
    → (objects : Dict b.Body) (key : Text) (event : Fields)
    → get key objects ≡ some (b.dumps (obj event))
    → read_event b objects key ≡ ok (entries event)
unfolding read_event as_dict
read_event-stored b c objects key event h = rw (h, c.loads-dumps (obj event))

-- A reload finds it.
pub current_set-IsLogged :
    (b : Backend) (n : Text) (objects : Dict b.Body) (es : List (Dict Json))
    (d : Dict SuppressionMatch)
    → IsCodec b
    → IsListing b
    → IsLogged b n objects
    → load_events b objects ≡ ok es
    → current_set b es ≡ ok d
    → is_some (get n d) ≡ true
unfolding load_events current_set
current_set-IsLogged b n objects es d c l g h r =
    let (ks, k, q) = load_pages-keys b objects b.page_fuel none es h in
    let (e, f, a) =
      read_events-Among b objects g.key ks es q
        (l.complete objects ks g.key (b.dumps (obj g.event)) k g.stored g.placed) in
    let same : e ≡ entries g.event =
      ok-injective (sym f ∙ read_event-stored b c objects g.key g.event g.stored) in
    rw (← g.named) (reduce_events-has b es [] d e g.entry r a (ap (to_match b) same ∙ g.decoded))

-- Writing under a key that is not there yet, or not one of the log, keeps what is logged.
pub put-IsLogged :
    (b : Backend) (n : Text) (objects : Dict b.Body) (key : Text) (body : b.Body)
    → (get key objects ≡ none) ⊎ (starts_with key events_prefix ≡ false)
    → IsLogged b n objects
    → IsLogged b n (put key body objects)
put-IsLogged b n objects key body f g = record {
  key = g.key;
  event = g.event;
  entry = g.entry;
  stored = get-put key g.key body objects ∙ other_key;
  placed = g.placed;
  decoded = g.decoded;
  named = g.named;
}
  where
    other_key :
        (if text_eq key g.key then some body else get g.key objects) ≡ some (b.dumps (obj g.event))
    other_key = elim (Bool-cases (text_eq key g.key)) [
      | inl s ↦ elim f [
        | inl new ↦ cc (sym new ∙ ap (λ k. get k objects) ((text_eq_iff key g.key).0 s) ∙ g.stored)
        | inr elsewhere ↦ cc (
            sym elsewhere
            ∙ ap (λ k. starts_with k events_prefix) ((text_eq_iff key g.key).0 s)
            ∙ g.placed)
      ]
      | inr o ↦ rw o g.stored
    ]
