-- ===== src/Text.antt =====
-- Python's `str` as the list of its code points, with the methods that the program calls.
pub mod Equality
pub mod Space
pub mod Regex
use Prim.Native.Char.{code}
use Prim.Native.String.{String}
use automated_outreach_proto.Prelude.{
  ℕ, ◌≡◌, refl, Bool, true, false, ◌&&◌, ◌||◌, List, [], ◌∷◌, Option, none, some, ◌++◌, leb, ◌==◌,
  reverse, if◌then◌else◌,
}

abbrev pub Text : Type 0
Text = List ℕ

-- The code points of a literal.
abbrev pub codes : String → Text
codes String.[] = []
codes (String.◌∷◌ c s) = code c ∷ codes s

-- a == b
abbrev pub text_eq : Text → Text → Bool
text_eq [] [] = true
text_eq [] (y ∷ ys) = false
text_eq (x ∷ xs) [] = false
text_eq (x ∷ xs) (y ∷ ys) = x == y && text_eq xs ys

-- s.startswith(prefix)
abbrev pub starts_with : Text → Text → Bool
starts_with s [] = true
starts_with [] (y ∷ ys) = false
starts_with (x ∷ xs) (y ∷ ys) = x == y && starts_with xs ys

-- part in s
abbrev pub contains : Text → Text → Bool
contains [] part = starts_with [] part
contains (x ∷ xs) part = starts_with (x ∷ xs) part || contains xs part

-- x in (a, b, …), x in frozenset(…)
abbrev pub one_of : Text → List Text → Bool
one_of s [] = false
one_of s (t ∷ ts) = text_eq s t || one_of s ts

-- The pieces of a text, one character in front of them.
abbrev pub split_step : ℕ → ℕ → List Text → List Text
split_step sep c [] = []
split_step sep c (p ∷ ps) = if c == sep then [] ∷ p ∷ ps else (c ∷ p) ∷ ps

-- s.endswith(suffix)
abbrev pub ends_with : Text → Text → Bool
ends_with s suffix = starts_with (reverse s) (reverse suffix)

-- s.split(sep), for a separator of one character
abbrev pub split_on : ℕ → Text → List Text
split_on sep [] = [] ∷ []
split_on sep (c ∷ s) = split_step sep c (split_on sep s)

-- sep.join(parts)
abbrev pub join : Text → List Text → Text
join sep [] = []
join sep (p ∷ []) = p
join sep (p ∷ q ∷ ps) = p ++ (sep ++ join sep (q ∷ ps))

-- Characters with `str.isspace`: what `split` and `strip` take for white space.
unfoldable pub is_space : ℕ → Bool
is_space c =
    (leb 9 c && leb c 13)
    || ((leb 28 c && leb c 32)
        || (c == 0x85
            || (c == 0xa0
                || (c == 0x1680
                    || ((leb 0x2000 c && leb c 0x200a)
                        || (c == 0x2028
                            || (c == 0x2029 || (c == 0x202f || (c == 0x205f || c == 0x3000)))))))))

-- s.rpartition(c): the texts before and behind the last `c`; none where there is no `c`
unfoldable pub rpartition : ℕ → Text → Option (Text × Text)
rpartition c [] = none
rpartition c (x ∷ s) = elim (rpartition c s) [
  | some (a, b) ↦ some (x ∷ a, b)
  | none ↦ if x == c then some ([], s) else none
]

-- s.partition(c)[0]
unfoldable pub before : ℕ → Text → Text
before c [] = []
before c (x ∷ s) = let rest = before c s in if x == c then [] else x ∷ rest

-- c in s, for one character
abbrev pub has_char : ℕ → Text → Bool
has_char c [] = false
has_char c (x ∷ s) = x == c || has_char c s

-- bool(s) is False
abbrev pub is_nil : Text → Bool
is_nil [] = true
is_nil (c ∷ s) = false
