-- ===== src/Dict/Laws.antt =====
-- The laws of `get` and `put`.
use automated_outreach_proto.Prelude.{◌≡◌, refl, some, [], ◌∷◌, arith, if◌then◌else◌}
use automated_outreach_proto.Text.{Text, text_eq}
use automated_outreach_proto.Text.Equality.{text_eq_iff}
use automated_outreach_proto.Dict.{Dict, get, put}

module _ {ℓ} {V : Type ℓ} where
  pub get-put :
      (k j : Text) (v : V) (d : Dict V)
      → get j (put k v d) ≡ (if text_eq k j then some v else get j d)
  unfolding get put
  get-put k j v [] = refl
  get-put k j v ((i, w) ∷ d) =
      ground (arith, text_eq_iff k j, text_eq_iff i k, text_eq_iff i j, get-put k j v d)
