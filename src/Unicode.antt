-- ===== src/Unicode.antt =====
-- The Unicode tables behind Python's `str` and `re`, which the standard library ships as data: the
-- functions that the program calls, as a parameter, with what their documentation says of ASCII.
use automated_outreach_proto.Prelude.{
  ℕ, ◌+◌, ◌/◌, ◌%◌, List, [], ◌∷◌, any, flat_map, Result, ok, err, unicode_error, ◌<◌, ◌≡◌, Bool,
  ◌&&◌, ◌||◌, All, map, leb, ◌==◌, if◌then◌else◌,
}
use automated_outreach_proto.Text.{Text}

pub record Unicode : Type 0 where
  -- unicodedata.normalize("NFKC", s)
  pub nfkc : Text → Text
  -- s.casefold()
  pub casefold : Text → Text
  -- s.lower()
  pub lower : Text → Text
  -- c.isalnum()
  pub is_alnum : ℕ → Bool
  -- what `\d` matches
  pub is_decimal : ℕ → Bool
  -- repr(s)
  pub repr : Text → Text

-- [0-9]
abbrev pub is_digit : ℕ → Bool
is_digit c = leb b'0' c && leb c b'9'

-- [a-z]
abbrev pub is_lower : ℕ → Bool
is_lower c = leb b'a' c && leb c b'z'

-- ASCII lower case
abbrev pub ascii_lower : ℕ → ℕ
ascii_lower c = if leb b'A' c && leb c b'Z' then c + 32 else c

abbrev pub IsAscii : Text → Type 0
IsAscii = All (λ c. c < 128)

-- NFKC leaves ASCII alone, and case folding and lower-casing of ASCII are letter by letter.
pub record IsUnicode (u : Unicode) : Type 0 where
  pub nfkc-ascii : (s : Text) → IsAscii s → u.nfkc s ≡ s
  pub casefold-ascii : (s : Text) → IsAscii s → u.casefold s ≡ map ascii_lower s
  pub lower-ascii : (s : Text) → IsAscii s → u.lower s ≡ map ascii_lower s

-- `\w`
unfoldable pub is_word : Unicode → ℕ → Bool
is_word u c = u.is_alnum c || c == b'_'

-- U+D800 to U+DFFF: code points that a `str` may hold and UTF-8 has no form for.
abbrev pub is_surrogate : ℕ → Bool
is_surrogate c = leb 0xd800 c && leb c 0xdfff

-- The UTF-8 bytes of a code point.
unfoldable pub utf8_bytes : ℕ → List ℕ
utf8_bytes c =
    if leb c 0x7f
    then c ∷ []
    else if leb c 0x7ff
    then (0xc0 + c / 64) ∷ (0x80 + c % 64) ∷ []
    else if leb c 0xffff
    then (0xe0 + c / 4096) ∷ (0x80 + (c / 64) % 64) ∷ (0x80 + c % 64) ∷ []
    else (0xf0 + c / 262144)
      ∷ (0x80 + (c / 4096) % 64)
      ∷ (0x80 + (c / 64) % 64)
      ∷ (0x80 + c % 64)
      ∷ []

-- s.encode()
unfoldable pub encode : Text → Result (List ℕ)
unfolding utf8_bytes
encode s = if any is_surrogate s then err unicode_error else ok (flat_map utf8_bytes s)
