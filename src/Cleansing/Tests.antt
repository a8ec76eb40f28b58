-- ===== src/Cleansing/Tests.antt =====
-- Witnesses of the properties of the normal forms, with the Unicode tables cut down to ASCII.
mod Batches
pub mod Codec
pub mod Steps
use automated_outreach_proto.Cleansing.Normalize.{clean}
use automated_outreach_proto.Text.{before}
use automated_outreach_proto.Text.{rpartition}
use automated_outreach_proto.Text.Space.{strip}
use automated_outreach_proto.Prelude.{◌≡◌, refl, some, ◌∷◌, ◌++◌}
use automated_outreach_proto.Text.{codes, is_space}
use automated_outreach_proto.Guardrails.Tests.{ascii}
use automated_outreach_proto.Cleansing.Normalize.{normalize_email, email_form}
use automated_outreach_proto.Cleansing.Normalize.Email.{
  IsAddress, normalize_email-IsAddress, email_form-tag,
}

normalized : normalize_email ascii (some (codes " Ann+x@B.co ")) ≡ some (codes "ann@b.co")
unfolding normalize_email clean strip rpartition before
normalized = refl

normalize_email-IsAddress_example : IsAddress (codes "ann@b.co")
normalize_email-IsAddress_example =
    normalize_email-IsAddress ascii (some (codes " Ann+x@B.co ")) (codes "ann@b.co") normalized

email_form-tag_example :
    email_form ((codes "ann" ++ (b'+' ∷ codes "x")) ++ (b'@' ∷ codes "b.co"))
    ≡ email_form (codes "ann" ++ (b'@' ∷ codes "b.co"))
unfolding is_space
email_form-tag_example = email_form-tag (codes "ann") (codes "x") (codes "b.co") refl refl
