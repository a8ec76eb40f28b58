-- ===== src/Guardrails/Canonical.antt =====
-- src/guardrails/text.py: the two forms of a message that the rules are matched against.
pub mod Laws
use automated_outreach_proto.Prelude.{
  ℕ, Bool, false, not, ◌&&◌, ◌||◌, List, [], ◌∷◌, map, ◌==◌, leb, if◌then◌else◌, filter_by,
}
use automated_outreach_proto.Text.{Text}
use automated_outreach_proto.Text.Space.{strip, sub_runs}
use automated_outreach_proto.Unicode.{Unicode, is_digit, is_lower}

-- _CONFUSABLES, by code point
abbrev pub confusables : List (ℕ × ℕ)
confusables =
    (0x430, b'a')
    ∷ (0x432, b'b')
    ∷ (0x435, b'e')
    ∷ (0x43a, b'k')
    ∷ (0x43c, b'm')
    ∷ (0x43e, b'o')
    ∷ (0x440, b'p')
    ∷ (0x441, b'c')
    ∷ (0x455, b's')
    ∷ (0x442, b't')
    ∷ (0x443, b'y')
    ∷ (0x445, b'x')
    ∷ (0x456, b'i')
    ∷ (0x458, b'j')
    ∷ (0x3b1, b'a')
    ∷ (0x3bf, b'o')
    ∷ (0x3bd, b'v')
    ∷ []

-- s.translate(table), for a table that replaces characters
unfoldable pub translate_char : List (ℕ × ℕ) → ℕ → ℕ
translate_char [] c = c
translate_char ((a, b) ∷ t) c = if a == c then b else translate_char t c

-- _ZERO_WIDTH, which `translate` deletes
unfoldable pub zero_width : ℕ → Bool
zero_width c = c == 0x200b || (c == 0x200c || (c == 0x200d || (c == 0x2060 || c == 0xfeff)))

unfoldable pub fold : Unicode → Text → Text
unfolding translate_char zero_width
fold u text =
    filter_by (λ c. not (zero_width c))
      (map (translate_char confusables) (u.casefold (u.nfkc text)))

-- [^a-z0-9]
unfoldable pub non_word : ℕ → Bool
non_word c = not (is_lower c || is_digit c)

unfoldable pub canonicalize : Unicode → Text → Text
unfolding fold non_word strip sub_runs
canonicalize u text = strip (sub_runs non_word b' ' false (fold u text))
