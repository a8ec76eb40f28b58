-- ===== src/Text/Regex.antt =====
-- The part of Python's `re` that the program's patterns use: greedy, first alternative first, with
-- word boundaries. A run returns the places where a match may end, in the order of backtracking.
pub mod Language
use automated_outreach_proto.Prelude.{
  ℕ, ◌==◌, Bool, true, false, not, ◌&&◌, ◌||◌, Option, none, some, List, [], ◌∷◌, ◌++◌, reverse,
  flat_map, is_some, if◌then◌else◌,
}
use automated_outreach_proto.Text.{Text}

pub data Regex : Type 0 where
  empty : Regex
  one : (ℕ → Bool) → Regex
  many : (ℕ → Bool) → Regex
  seq : Regex → Regex → Regex
  alt : Regex → Regex → Regex
  -- `\b`, for the characters that `\w` takes
  boundary : (ℕ → Bool) → Regex

-- A place in the text: what the match took (last character first), the character in front of the
-- place, and the text behind it.
pub record Cursor : Type 0 where
  pub taken : Text
  pub before : Option ℕ
  pub rest : Text

abbrev at_word : (ℕ → Bool) → Option ℕ → Bool
at_word w none = false
at_word w (some c) = w c

abbrev next_char : Text → Option ℕ
next_char [] = none
next_char (c ∷ s) = some c

abbrev xor_bool : Bool → Bool → Bool
xor_bool true b = not b
xor_bool false b = b

step_one : (ℕ → Bool) → Text → Text → List Cursor
step_one p taken [] = []
step_one p taken (c ∷ s) =
    if p c then record { taken = c ∷ taken; before = some c; rest = s } ∷ [] else []

run_many : (ℕ → Bool) → Text → Option ℕ → Text → List Cursor
run_many p taken before [] = record { taken = taken; before = before; rest = [] } ∷ []
run_many p taken before (c ∷ s) =
    let more = run_many p (c ∷ taken) (some c) s in
    let here : List Cursor = record { taken = taken; before = before; rest = c ∷ s } ∷ [] in
    if p c then more ++ here else here

unfoldable pub run : Regex → Cursor → List Cursor
unfolding step_one run_many
run empty k = k ∷ []
run (one p) k = step_one p k.taken k.rest
run (many p) k = run_many p k.taken k.before k.rest
run (seq a b) k = flat_map (run b) (run a k)
run (alt a b) k = run a k ++ run b k
run (boundary w) k =
    if xor_bool (at_word w k.before) (at_word w (next_char k.rest)) then k ∷ [] else []

abbrev start : Option ℕ → Text → Cursor
start before s = record { taken = []; before = before; rest = s }

first_group : List Cursor → Option Text
first_group [] = none
first_group (k ∷ ks) = some (reverse k.taken)

any_end : List Cursor → Bool
any_end [] = false
any_end (record_k ∷ ks) = at_end record_k.rest || any_end ks
  where
    at_end : Text → Bool
    at_end [] = true
    at_end (c ∷ s) = false

-- re.match(s), its group 0
unfoldable pub match_group : Regex → Text → Option Text
unfolding run first_group
match_group e s = first_group (run e (start none s))

-- re.fullmatch(s) is not None
unfoldable pub fullmatch : Regex → Text → Bool
unfolding run any_end
fullmatch e s = any_end (run e (start none s))

search_from : Regex → Option ℕ → Text → Option Text
unfolding run first_group
search_from e before [] = first_group (run e (start before []))
search_from e before (c ∷ s) =
    let later = search_from e (some c) s in
    elim (first_group (run e (start before (c ∷ s)))) [ some g ↦ some g | none ↦ later ]

-- re.search(s), its group 0
unfoldable pub search_group : Regex → Text → Option Text
unfolding search_from
search_group e s = search_from e none s

-- The characters of a literal, one by one.
abbrev pub lit : Text → Regex
lit [] = empty
lit (c ∷ s) = seq (one (λ d. c == d)) (lit s)

-- (?:e)?
abbrev pub opt : Regex → Regex
opt e = alt e empty

-- (?:a|b|…)
abbrev pub alts : List Text → Regex
alts [] = one (λ _. false)
alts (t ∷ []) = lit t
alts (t ∷ u ∷ ts) = alt (lit t) (alts (u ∷ ts))
