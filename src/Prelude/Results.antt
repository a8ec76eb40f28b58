-- ===== src/Prelude/Results.antt =====
-- Python's exceptions as values: the class names that a handler may tell apart.
use Prim.Native.Nat.{ℕ}
use mathlib.Core.Path.{◌≡◌, refl}
use mathlib.Core.Bool.{Bool, true, false}
use mathlib.Core.List.{List}
use automated_outreach_proto.Prelude.Integers.{ℤ}

pub data Exn : Type 0 where
  value_error key_error index_error type_error attribute_error : Exn
  -- UnicodeEncodeError, json.JSONDecodeError, binascii.Error: subclasses of ValueError
  unicode_error json_error binascii_error : Exn
  -- An exception class of a service or of the operating system, by its name.
  other : List ℕ → Exn
  -- SalesforceApiError and TextTorrentApiError, by their status and what they say; SalesforceAuthError
  -- and InboundGapError, by what they say.
  salesforce_error : ℕ → List ℕ → Exn
  texttorrent_error : ℤ → List ℕ → Exn
  auth_error gap_error : List ℕ → Exn
  -- No exception: a loop that has not returned within its fuel.
  out_of_fuel : Exn

-- What `except ValueError` catches.
abbrev pub is_value_error : Exn → Bool
is_value_error value_error = true
is_value_error unicode_error = true
is_value_error json_error = true
is_value_error binascii_error = true
is_value_error _ = false

pub data Result {ℓ} (A : Type ℓ) : Type ℓ where
  err : Exn → Result A
  ok : A → Result A

infixl 5 ◌>>=◌
abbrev pub ◌>>=◌ {ℓ κ} : {A : Type ℓ} {B : Type κ} → Result A → (A → Result B) → Result B
err e >>= k = err e
ok a >>= k = k a

-- A chain that returns has a first part that returned.
pub >>=-eq-ok {ℓ κ} :
    {A : Type ℓ} {B : Type κ} {y : B} (first : Result A) (k : A → Result B)
    → (first >>= k) ≡ ok y
    → (x : A) × (first ≡ ok x) × (k x ≡ ok y)
>>=-eq-ok (err e) k returned = cc
>>=-eq-ok (ok x) k returned = (x, refl, returned)

pub ok-injective {ℓ} : {A : Type ℓ} {a b : A} → ok a ≡ ok b → a ≡ b
ok-injective p = cc
