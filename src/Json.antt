-- ===== src/Json.antt =====
-- The values that `json.loads` returns, and what Python's built-ins make of them.
use automated_outreach_proto.Prelude.{
  ℕ, ◌≡◌, ◌↔◌, arith, Bool, true, false, not, ◌||◌, Option, none, some, List, [], ◌∷◌, ◌==◌, map,
  Result, ok, err, key_error, type_error, attribute_error,
}
use automated_outreach_proto.Text.{Text, codes, text_eq}
use automated_outreach_proto.Dict.{Dict, get}

mutual
  pub data Json : Type 0 where
    null : Json
    boolean : Bool → Json
    -- n, and -(n + 1)
    int : ℕ → Json
    negative : ℕ → Json
    -- A float, by its repr.
    float : Text → Json
    str : Text → Json
    arr : Items → Json
    obj : Fields → Json

  pub data Items : Type 0 where
    nil : Items
    cons : Json → Items → Items

  pub data Fields : Type 0 where
    end : Fields
    field : Text → Json → Fields → Fields

abbrev pub items : Items → List Json
items nil = []
items (cons x xs) = x ∷ items xs

abbrev pub entries : Fields → Dict Json
entries end = []
entries (field k v fs) = (k, v) ∷ entries fs

-- bool(x)
unfoldable pub truthy : Json → Bool
truthy null = false
truthy (boolean b) = b
truthy (int n) = not (n == 0)
truthy (negative n) = true
truthy (float r) = not (text_eq r (codes "0.0") || text_eq r (codes "-0.0"))
truthy (str []) = false
truthy (str (c ∷ s)) = true
truthy (arr nil) = false
truthy (arr (cons x xs)) = true
truthy (obj end) = false
truthy (obj (field k v fs)) = true

-- for x in value
unfoldable pub iterate : Json → Result (List Json)
iterate (str s) = ok (map (λ c. str (c ∷ [])) s)
iterate (arr xs) = ok (items xs)
iterate (obj fs) = ok (map (λ e. str e.0) (entries fs))
iterate _ = err type_error

-- value.get: only a dict has it.
unfoldable pub as_dict : Json → Result (Dict Json)
as_dict (obj fs) = ok (entries fs)
as_dict _ = err attribute_error

-- d[k]
unfoldable pub index {ℓ} : {V : Type ℓ} → Text → Dict V → Result V
index k d = elim (get k d) [ some v ↦ ok v | none ↦ err key_error ]

-- d.get(k, default)
unfoldable pub get_or {ℓ} : {V : Type ℓ} → Text → V → Dict V → V
get_or k v d = elim (get k d) [ some w ↦ w | none ↦ v ]

-- isinstance(x, str)
unfoldable pub as_str : Json → Option Text
as_str (str s) = some s
as_str _ = none

-- str(x), given what it makes of numbers and containers
unfoldable pub to_str : (Json → Text) → Json → Text
to_str render (str s) = s
to_str render null = codes "None"
to_str render (boolean true) = codes "True"
to_str render (boolean false) = codes "False"
to_str render x = render x

-- Looking a key up with `d[k]` returns what `d.get(k)` finds.
pub index_iff {ℓ} :
    {V : Type ℓ} (k : Text) (d : Dict V) (v : V) → (index k d ≡ ok v) ↔ (get k d ≡ some v)
unfolding index
index_iff k d v = (λ h. ground arith, λ h. ground arith)
