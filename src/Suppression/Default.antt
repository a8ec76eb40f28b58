-- ===== src/Suppression/Default.antt =====
-- src/suppression/__init__.py: the functions of the module, on one store of the process.
use automated_outreach_proto.Prelude.{ℕ, Option, none, some, [], Result, ok, err, key_error}
use automated_outreach_proto.Text.{Text}
use automated_outreach_proto.Datetime.{Datetime}
use automated_outreach_proto.Dict.{Dict}
use automated_outreach_proto.Json.{Json}
use automated_outreach_proto.Suppression.Store
use automated_outreach_proto.Suppression.Store.{Backend, State, SuppressionMatch, SuppressionResult}

-- The two fields of a store that change.
pub record Fields : Type 0 where
  pub cache : Dict SuppressionMatch
  pub cache_loaded_at : Option ℕ

-- The bucket, and `_default_store`.
pub record Process (b : Backend) : Type 0 where
  pub objects : Dict b.Body
  pub default_store : Option Fields

unfoldable pub configure : {b : Backend} → Option Fields → Process b → Process b
configure store p = record p { default_store = store }

-- The store, given os.environ["SUPPRESSION_BUCKET"], which is read where there is none yet.
unfoldable pub get_store :
    {b : Backend} → Option Text → Dict b.Body → Option Fields → Result (State b)
get_store bucket objects (some s) =
    ok (record { objects = objects; cache = s.cache; cache_loaded_at = s.cache_loaded_at })
get_store (some bucket) objects none =
    ok (record { objects = objects; cache = []; cache_loaded_at = none })
get_store none objects none = err key_error

-- A call of the store's method; the store stays the process's.
abbrev called :
    {b : Backend} {A : Type 0}
    → (State b → Result A × State b)
    → Process b
    → Result (State b)
    → Result A × Process b
called method p (err e) = (err e, p)
called method p (ok s) =
    let x = method s in
    (
      x.0,
      record {
        objects = x.1.objects;
        default_store = some (record { cache = x.1.cache; cache_loaded_at = x.1.cache_loaded_at });
      },
    )

unfoldable pub is_suppressed :
    (b : Backend)
    → Option Text
    → ℕ
    → Option Text
    → Option Text
    → Process b
    → Result SuppressionResult × Process b
is_suppressed b bucket now phone email p =
    called (Store.is_suppressed b now phone email) p (get_store bucket p.objects p.default_store)

unfoldable pub add_suppression :
    (b : Backend)
    → Option Text
    → Text
    → Text
    → Json
    → Json
    → Datetime
    → Process b
    → Result (Unit {0}) × Process b
add_suppression b bucket event_id identifier reason source occurred_at p =
    called (Store.add_suppression b event_id identifier reason source occurred_at) p
      (get_store bucket p.objects p.default_store)
