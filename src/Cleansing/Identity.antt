-- ===== src/Cleansing/Identity.antt =====
-- src/cleansing/identity.py: what names a contact. `uuid5` is str(uuid.uuid5(EXTERNAL_ID_NAMESPACE, key)).
use automated_outreach_proto.Prelude.{Result, ok, err, type_error, [], ◌∷◌, ◌++◌, if◌then◌else◌}
use automated_outreach_proto.Text.{Text}
use automated_outreach_proto.Json.{Json, str, truthy, to_str}

-- str(x or "")
abbrev pub text_or_empty : (Json → Text) → Json → Text
text_or_empty render x = if truthy x then to_str render x else []

unfoldable pub normalized_key : (Json → Text) → Json → Json → Text
normalized_key render phone email =
    text_or_empty render phone ++ (b'|' ∷ text_or_empty render email)

-- A key that is no text is refused.
unfoldable pub external_id : (Text → Text) → Json → Result Text
external_id uuid5 (str key) = ok (uuid5 key)
external_id uuid5 _ = err type_error
