-- ===== src/Suppression/Store/Pages.antt =====
-- The loop over the pages of the events.
use automated_outreach_proto.Prelude.{
  ℕ, zero, suc, ◌≤◌, ◌≡◌, refl, sym, ap, ◌∙◌, arith, Option, none, some, List, [], ◌∷◌, ◌++◌,
  Result, ok, err, ◌>>=◌,
}
use mathlib.Core.List.{append-nil}
use automated_outreach_proto.Text.{Text}
use automated_outreach_proto.Dict.{Dict}
use automated_outreach_proto.Suppression.Store.{
  Backend, events_prefix, read_event, read_events, load_pages, load_events,
}

-- From this token on, S3 has so many pages with these keys.
pub data Listing (b : Backend) (objects : Dict b.Body) (prefix : Text)
    : Option Text → ℕ → List Text → Type 0 where
  last_page :
      (token : Option Text)
      → (b.list_objects objects prefix token).next ≡ none
      → Listing b objects prefix token 1 (b.list_objects objects prefix token).contents
  a_page :
      (token : Option Text) (next : Text) {k : ℕ} {keys : List Text}
      → (b.list_objects objects prefix token).next ≡ some next
      → Listing b objects prefix (some next) k keys
      → Listing b objects prefix token
          (suc k)
          ((b.list_objects objects prefix token).contents ++ keys)

-- Two lists of results, one after the other.
abbrev both : {A : Type 0} → Result (List A) → Result (List A) → Result (List A)
both y z = y >>= (λ es. z >>= (λ fs. ok (es ++ fs)))

abbrev in_front : {A : Type 0} → A → Result (List A) → Result (List A)
in_front e y = y >>= (λ es. ok (e ∷ es))

both-nil : {A : Type 0} (z : Result (List A)) → both (ok []) z ≡ z
both-nil (ok fs) = refl
both-nil (err e) = refl

both-in_front :
    {A : Type 0} (e : A) (y z : Result (List A)) → both (in_front e y) z ≡ in_front e (both y z)
both-in_front e (err x) z = refl
both-in_front e (ok es) (ok fs) = refl
both-in_front e (ok es) (err x) = refl

first_event :
    {A : Type 0} (x : Result A) (y z w : Result (List A))
    → both y z ≡ w
    → both (x >>= (λ e. in_front e y)) z ≡ (x >>= (λ e. in_front e w))
first_event (err e) y z w h = refl
first_event (ok e) y z w h = both-in_front e y z ∙ ap (in_front e) h

-- The pages of a listing, read one after the other.
read_events-both :
    (b : Backend) (objects : Dict b.Body) (ks ls : List Text)
    → both (read_events b objects ks) (read_events b objects ls) ≡ read_events b objects (ks ++ ls)
unfolding read_events
read_events-both b objects [] ls = both-nil (read_events b objects ls)
read_events-both b objects (k ∷ ks) ls =
    first_event (read_event b objects k) (read_events b objects ks) (read_events b objects ls) _
      (read_events-both b objects ks ls)

no_events : (b : Backend) (objects : Dict b.Body) → read_events b objects [] ≡ ok []
unfolding read_events
no_events b objects = refl

load_pages-Listing :
    (b : Backend) (objects : Dict b.Body) (fuel : ℕ) {token : Option Text} {k : ℕ}
    {keys : List Text}
    → Listing b objects events_prefix token k keys
    → k ≤ fuel
    → load_pages b objects fuel token ≡ read_events b objects keys
unfolding load_pages
load_pages-Listing b objects zero (last_page token e) h = ground arith
load_pages-Listing b objects zero (a_page token next e l) h = ground arith
load_pages-Listing b objects (suc fuel) (last_page token e) h =
    let page = b.list_objects objects events_prefix token in
    rw e (
      ap (both (read_events b objects page.contents)) (sym (no_events b objects))
      ∙ (read_events-both b objects page.contents []
          ∙ ap (read_events b objects) (append-nil page.contents)))
load_pages-Listing b objects (suc fuel) (a_page token next e l) h =
    let page = b.list_objects objects events_prefix token in
    rw e (
      ap (both (read_events b objects page.contents))
        (load_pages-Listing b objects fuel l (omega arith))
      ∙ read_events-both b objects page.contents _)

-- Where the listing of the events ends within the pages that the loop may read, a load does not run
-- out of them: it reads the events under the keys of all pages, in order, and returns them, or raises
-- what the first event that cannot be read raises.
pub load_events-Listing :
    (b : Backend) (objects : Dict b.Body) (k : ℕ) (keys : List Text)
    → Listing b objects events_prefix none k keys
    → k ≤ b.page_fuel
    → load_events b objects ≡ read_events b objects keys
unfolding load_events
load_events-Listing b objects k keys l h = load_pages-Listing b objects b.page_fuel l h
