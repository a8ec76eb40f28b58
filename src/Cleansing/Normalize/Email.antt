-- ===== src/Cleansing/Normalize/Email.antt =====
-- The shape of a normalised address, and what it forgets.
use automated_outreach_proto.Prelude.{
  ℕ, ◌≡◌, refl, inl, inr, Bool, true, false, ◌||◌, Option, none, some, [], ◌∷◌, ◌++◌, arith, any,
  ◌==◌, Bool-cases, Option-cases, if◌then◌else◌,
}
use automated_outreach_proto.Text.{Text, is_nil, is_space, has_char, rpartition, before}
use automated_outreach_proto.Unicode.{Unicode}
use automated_outreach_proto.Cleansing.Normalize.{address, email_form, normalize_email, clean}

rpartition-none : (c : ℕ) (s : Text) → rpartition c s ≡ none → has_char c s ≡ false
unfolding rpartition
rpartition-none c [] h = refl
rpartition-none c (x ∷ s) h = ground (arith, rpartition-none c s)

-- The text is parted at its last `c`.
rpartition-some :
    (c : ℕ) (s a b : Text)
    → rpartition c s ≡ some (a, b)
    → (s ≡ a ++ (c ∷ b)) × (has_char c b ≡ false)
unfolding rpartition
rpartition-some c [] a b h = absurd (ground arith)
rpartition-some c (x ∷ s) a b h = elim (Option-cases (rpartition c s)) [
  | inl n ↦
      let k = rpartition-none c s n in
      elim (Bool-cases (x == c)) [
        | inl e ↦ (ground arith, ground arith)
        | inr o ↦ absurd (ground arith)
      ]
  | inr found ↦
      let (p, q) = rpartition-some c s found.0.0 found.0.1 found.1 in (ground arith, ground arith)
]

before-has_char : (c : ℕ) (s : Text) → has_char c (before c s) ≡ false
unfolding before
before-has_char c [] = refl
before-has_char c (x ∷ s) = ground (arith, before-has_char c s)

-- What a normalised address looks like.
pub record IsAddress (e : Text) : Type 0 where
  pub name : Text
  pub domain : Text
  pub shape : e ≡ name ++ (b'@' ∷ domain)
  pub has_name : is_nil name ≡ false
  pub no_tag : has_char b'+' name ≡ false
  pub one_at : has_char b'@' domain ≡ false
  pub dotted : has_char b'.' domain ≡ true

address-IsAddress :
    (mailbox domain e : Text)
    → has_char b'@' domain ≡ false
    → address mailbox domain ≡ some e
    → IsAddress e
unfolding address
address-IsAddress mailbox domain e at h = record {
  name = before b'+' mailbox;
  domain = domain;
  shape = ground arith;
  has_name = ground arith;
  no_tag = before-has_char b'+' mailbox;
  one_at = at;
  dotted = ground arith;
}

email_form-IsAddress : (text e : Text) → email_form text ≡ some e → IsAddress e
unfolding email_form
email_form-IsAddress text e h = elim (Option-cases (rpartition b'@' text)) [
  | inl n ↦ absurd (ground arith)
  | inr found ↦
      address-IsAddress found.0.0 found.0.1 e
        (rpartition-some b'@' text found.0.0 found.0.1 found.1).1 (ground arith)
]

-- A normalised address is a non-empty name with no "+", an "@", and a domain with a dot and no
-- other "@".
pub normalize_email-IsAddress :
    (u : Unicode) (raw : Option Text) (e : Text) → normalize_email u raw ≡ some e → IsAddress e
unfolding normalize_email
normalize_email-IsAddress u none e h = absurd (ground arith)
normalize_email-IsAddress u (some r) e h = email_form-IsAddress (u.casefold (clean u r)) e h

rpartition-none_of : (c : ℕ) (s : Text) → has_char c s ≡ false → rpartition c s ≡ none
unfolding rpartition
rpartition-none_of c [] h = refl
rpartition-none_of c (x ∷ s) h = ground (arith, rpartition-none_of c s)

rpartition-append :
    (c : ℕ) (a b : Text) → has_char c b ≡ false → rpartition c (a ++ (c ∷ b)) ≡ some (a, b)
unfolding rpartition
rpartition-append c [] b h = rw (rpartition-none_of c b h, rpartition) (ground arith)
rpartition-append c (x ∷ a) b h = rw (rpartition-append c a b h, rpartition)

before-append : (c : ℕ) (a b : Text) → before c (a ++ (c ∷ b)) ≡ before c a
unfolding before
before-append c [] b = ground arith
before-append c (x ∷ a) b = ground (arith, before-append c a b)

any-append : (p : ℕ → Bool) (a b : Text) → any p (a ++ b) ≡ (any p a || any p b)
any-append p [] b = refl
any-append p (x ∷ a) b = ground (arith, any-append p a b)

is_nil-append : (a b : Text) (c : ℕ) → is_nil (a ++ (c ∷ b)) ≡ false
is_nil-append [] b c = refl
is_nil-append (x ∷ a) b c = refl

email_form-parts :
    (mailbox domain : Text)
    → has_char b'@' domain ≡ false
    → email_form (mailbox ++ (b'@' ∷ domain)) ≡ (
        if any is_space mailbox || any is_space (b'@' ∷ domain)
        then none
        else address mailbox domain)
unfolding email_form
email_form-parts mailbox domain at = rw (
  rpartition-append b'@' mailbox domain at,
  is_nil-append mailbox domain b'@',
  any-append is_space mailbox (b'@' ∷ domain),
)

plus_not_space : is_space b'+' ≡ false
unfolding is_space
plus_not_space = refl

-- A plus tag does not tell addresses apart: with or without it the normal form is the same, and so
-- is the refusal.
pub email_form-tag :
    (mailbox tag domain : Text)
    → any is_space tag ≡ false
    → has_char b'@' domain ≡ false
    → email_form ((mailbox ++ (b'+' ∷ tag)) ++ (b'@' ∷ domain))
      ≡ email_form (mailbox ++ (b'@' ∷ domain))
unfolding address
email_form-tag mailbox tag domain t at =
    rw
      (
        email_form-parts mailbox domain at,
        email_form-parts (mailbox ++ (b'+' ∷ tag)) domain at,
        before-append b'+' mailbox tag,
        any-append is_space mailbox (b'+' ∷ tag),
      )
      (ground (arith, plus_not_space))
