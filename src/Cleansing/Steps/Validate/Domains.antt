-- ===== src/Cleansing/Steps/Validate/Domains.antt =====
-- One run asks about a domain once, and every row is decided by that answer.
use automated_outreach_proto.Prelude.{
  ◌≡◌, ◌⊎◌, Bool, true, false, Option, none, some, List, [], ◌∷◌, Result, ok,
}
use automated_outreach_proto.Text.{Text, codes}
use automated_outreach_proto.Dict.{Dict, get, put}
use automated_outreach_proto.Json.{Json, null, str}
use automated_outreach_proto.Cleansing.PipelineIo.{Row, as_row}
use automated_outreach_proto.Cleansing.Steps.Normalize.{Outcome, kept, quarantined, json_text}
use automated_outreach_proto.Cleansing.Steps.Validate.{Hooks, Seen, domain_of}

abbrev pub is_null : Json → Bool
is_null null = true
is_null _ = false

-- The row as it is kept: its line type is added, which is null where the lookup is off.
abbrev pub typed : Row → Option Text → Row
typed row t = put (codes "line_type") (json_text t) row

-- How a row is decided, by what the cache says of the domain of its address.
pub data Decided (enabled : Bool) (cache : Dict Bool) (row : Row) : Outcome → Type 0 where
  no_address :
      (t : Option Text)
      → get (codes "email") row ≡ some null
      → (enabled ≡ false → t ≡ none)
      → Decided enabled cache row (kept (typed row t))
  deliverable :
      (s : Text) (t : Option Text)
      → get (codes "email") row ≡ some (str s)
      → get (domain_of s) cache ≡ some true
      → (enabled ≡ false → t ≡ none)
      → Decided enabled cache row (kept (typed row t))
  phone_only :
      (s : Text) (phone : Json) (t : Option Text)
      → get (codes "email") row ≡ some (str s)
      → get (domain_of s) cache ≡ some false
      → get (codes "phone") row ≡ some phone
      → is_null phone ≡ false
      → (enabled ≡ false → t ≡ none)
      → Decided enabled cache row (kept (typed (put (codes "email") null row) t))
  refused :
      (s : Text)
      → get (codes "email") row ≡ some (str s)
      → get (domain_of s) cache ≡ some false
      → get (codes "phone") row ≡ some null
      → Decided enabled cache row
          (quarantined (put (codes "reason") (str (codes "email_domain_has_no_mx")) row))

-- No answer of the cache is forgotten or changed.
abbrev pub Grows : Dict Bool → Dict Bool → Type 0
Grows c d = (k : Text) (b : Bool) → get k c ≡ some b → get k d ≡ some b

-- Every row of the batch with its outcome, in order.
pub data AllDecided (enabled : Bool) (cache : Dict Bool) : List Json → List Outcome → Type 0 where
  no_row : AllDecided enabled cache [] []
  a_row :
      {x : Json} {row : Row} {o : Outcome} {xs : List Json} {os : List Outcome}
      → as_row x ≡ ok row
      → Decided enabled cache row o
      → AllDecided enabled cache xs os
      → AllDecided enabled cache (x ∷ xs) (o ∷ os)

module _ (h : Hooks) where
  -- An answer is in the cache from then on.
  abbrev Answers : Text → Bool → Dict Bool → Result Bool × Seen h → Type 0
  Answers domain b c x = (get domain x.1.mx_cache ≡ some b) × Grows c x.1.mx_cache

  -- What the question about a row's address returns: nothing is asked where there is none.
  Stays : Json → Bool → Dict Bool → Result Bool × Seen h → Type 0
  Stays email b c x =
      ((email ≡ null) × (b ≡ true) × (x.1.mx_cache ≡ c))
      ⊎ ((t : Text) × (email ≡ str t) × Answers (domain_of t) b c x)

  -- Each outcome.
  abbrev Sorted : Bool → Row → Outcome → Seen h → Result Outcome × Seen h → Type 0
  Sorted enabled row o s x = Decided enabled s.mx_cache row o × (x.1.mx_cache ≡ s.mx_cache)
