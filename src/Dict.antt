-- ===== src/Dict.antt =====
-- Python's `dict` with text keys, as its entries in the order of insertion.
pub mod Laws
use automated_outreach_proto.Prelude.{
  ℕ, Bool, true, false, Option, none, some, List, [], ◌∷◌, map, is_some, if◌then◌else◌,
}
use automated_outreach_proto.Text.{Text, text_eq}

abbrev pub Dict {ℓ} : Type ℓ → Type ℓ
Dict V = List (Text × V)

module _ {ℓ} {V : Type ℓ} where
  -- d.get(k)
  unfoldable pub get : Text → Dict V → Option V
  get k [] = none
  get k ((j, v) ∷ d) = if text_eq j k then some v else get k d

  -- d[k] = v: an old key keeps its place, a new one goes to the end.
  unfoldable pub put : Text → V → Dict V → Dict V
  put k v [] = (k, v) ∷ []
  put k v ((j, w) ∷ d) = if text_eq j k then (j, v) ∷ d else (j, w) ∷ put k v d

  -- list(d), list(d.values())
  abbrev pub keys : Dict V → List Text
  keys d = map (λ e. e.0) d

  abbrev pub values : Dict V → List V
  values d = map (λ e. e.1) d
