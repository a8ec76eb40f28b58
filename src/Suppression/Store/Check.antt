-- ===== src/Suppression/Store/Check.antt =====
-- What a check against the cache reports.
use automated_outreach_proto.Prelude.{
  ◌≡◌, refl, Bool, true, false, ◌||◌, Option, none, some, List, ◌++◌, arith, is_some,
}
use automated_outreach_proto.Text.{Text}
use automated_outreach_proto.Dict.{Dict, get}
use automated_outreach_proto.Cleansing.Normalize.{normalize_phone, normalize_email}
use automated_outreach_proto.Suppression.Store.{
  Backend, SuppressionMatch, check_identifier, nonempty, check,
}

-- An identifier that is given blocks the contact if it has no normal form, or if the list has it.
abbrev pub blocks : Dict SuppressionMatch → Option Text → Option Text → Bool
blocks cache none normalized = false
blocks cache (some raw) none = true
blocks cache (some raw) (some normalized) = is_some (get normalized cache)

identifier_blocks :
    (cache : Dict SuppressionMatch) (raw normalized : Option Text) (ms : List SuppressionMatch)
    (is : List Text)
    → (nonempty ((check_identifier cache raw normalized).0 ++ ms)
        || nonempty ((check_identifier cache raw normalized).1 ++ is))
      ≡ (blocks cache raw normalized || (nonempty ms || nonempty is))
unfolding check_identifier
identifier_blocks cache none normalized ms is = refl
identifier_blocks cache (some raw) none ms is = ground arith
identifier_blocks cache (some raw) (some n) ms is = ground arith

last_blocks :
    (cache : Dict SuppressionMatch) (raw normalized : Option Text)
    → (nonempty (check_identifier cache raw normalized).0
        || nonempty (check_identifier cache raw normalized).1)
      ≡ blocks cache raw normalized
unfolding check_identifier
last_blocks cache none normalized = refl
last_blocks cache (some raw) none = refl
last_blocks cache (some raw) (some n) = ground arith

-- A contact is reported as suppressed exactly when its phone number or its address, where given,
-- cannot be normalised or is on the list: one channel suppresses both, and what cannot be checked
-- is suppressed.
pub check-blocks :
    (b : Backend) (cache : Dict SuppressionMatch) (phone email : Option Text)
    → (check b cache phone email).suppressed ≡ (
        blocks cache phone (normalize_phone b.unicode b.phones phone)
        || blocks cache email (normalize_email b.unicode email))
unfolding check
check-blocks b cache phone email = ground (
  arith,
  identifier_blocks cache phone (normalize_phone b.unicode b.phones phone)
      (check_identifier cache email (normalize_email b.unicode email)).0
      (check_identifier cache email (normalize_email b.unicode email)).1,
  last_blocks cache email (normalize_email b.unicode email),
)
