-- ===== src/Cleansing/Normalize.antt =====
-- src/cleansing/normalize.py: the normal forms of phone numbers, company names and addresses.
pub mod Email
use automated_outreach_proto.Prelude.{
  ℕ, Bool, true, false, not, ◌&&◌, ◌||◌, Option, none, some, List, [], ◌∷◌, ◌++◌, any, filter_by,
  ◌==◌, if◌then◌else◌,
}
use automated_outreach_proto.Text.{
  Text, codes, is_nil, is_space, join, has_char, rpartition, before,
}
use automated_outreach_proto.Text.Space.{strip, split}
use automated_outreach_proto.Unicode.{Unicode}

-- The `phonenumbers` package: a parsed number, its test and its E.164 form. A text that it cannot
-- parse (NumberParseException) has no number.
pub record PhoneNumbers : Type 1 where
  pub Number : Type 0
  pub parse : Text → Text → Option Number
  pub is_valid_number : Number → Bool
  pub format_e164 : Number → Text

-- _ZERO_WIDTH, which `translate` deletes
unfoldable pub zero_width : ℕ → Bool
zero_width c = c == 0x200b || (c == 0x200c || (c == 0x200d || (c == 0x2060 || c == 0xfeff)))

unfoldable pub clean : Unicode → Text → Text
unfolding zero_width
clean u raw = strip (filter_by (λ c. not (zero_width c)) (u.nfkc raw))

abbrev pub default_region : Text
default_region = codes "US"

-- None stays None.
abbrev pub on_text {ℓ} : {A : Type ℓ} → Option Text → (Text → Option A) → Option A
on_text none f = none
on_text (some raw) f = f raw

format_valid : (p : PhoneNumbers) → Option p.Number → Option Text
format_valid p none = none
format_valid p (some n) = if p.is_valid_number n then some (p.format_e164 n) else none

unfoldable pub normalize_phone : Unicode → PhoneNumbers → Option Text → Option Text
unfolding format_valid
normalize_phone u p raw = on_text raw λ r.
    let text = clean u r in
    if is_nil text then none else format_valid p (p.parse text default_region)

unfoldable pub normalize_company : Unicode → Option Text → Option Text
normalize_company u raw = on_text raw λ r.
    let collapsed = join (b' ' ∷ []) (split (clean u r)) in
    if is_nil collapsed then none else some collapsed

-- The address of a local part and a domain.
unfoldable pub address : Text → Text → Option Text
address mailbox domain =
    if is_nil domain || not (has_char b'.' domain)
    then none
    else (let name = before b'+' mailbox in
        if is_nil name then none else some (name ++ (b'@' ∷ domain)))

-- What follows the cleaning and the case folding.
unfoldable pub email_form : Text → Option Text
unfolding address
email_form text = if is_nil text || any is_space text then none else (elim (rpartition b'@' text) [
  | none ↦ none
  | some (mailbox, domain) ↦ address mailbox domain
])

unfoldable pub normalize_email : Unicode → Option Text → Option Text
unfolding email_form
normalize_email u raw = on_text raw λ r. email_form (u.casefold (clean u r))
