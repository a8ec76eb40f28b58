-- ===== src/Text/Space.antt =====
-- White space: `strip`, `rstrip(chars)`, `split()` and `re.sub` of a run of characters.
pub mod Words
use automated_outreach_proto.Prelude.{
  ℕ, ◌≡◌, refl, Bool, true, false, List, [], ◌∷◌, ◌++◌, reverse, if◌then◌else◌,
}
use automated_outreach_proto.Text.{Text, is_space}

-- s.lstrip(chars), for the characters with `p`
unfoldable pub lstrip_of : (ℕ → Bool) → Text → Text
lstrip_of p [] = []
lstrip_of p (c ∷ s) = let rest = lstrip_of p s in if p c then rest else c ∷ s

-- One character in front of what `rstrip` left of the rest.
unfoldable pub keep : (ℕ → Bool) → ℕ → Text → Text
keep p c [] = if p c then [] else c ∷ []
keep p c (d ∷ r) = c ∷ d ∷ r

-- s.rstrip(chars)
unfoldable pub rstrip_of : (ℕ → Bool) → Text → Text
unfolding keep
rstrip_of p [] = []
rstrip_of p (c ∷ s) = keep p c (rstrip_of p s)

-- s.strip()
unfoldable pub strip : Text → Text
unfolding lstrip_of rstrip_of is_space
strip s = rstrip_of is_space (lstrip_of is_space s)

-- A word that has ended; an empty one is no word.
unfoldable pub close : Text → List Text → List Text
close [] ws = ws
close (c ∷ cs) ws = (c ∷ cs) ∷ ws

-- The maximal runs of characters without `p`, with the run read so far.
unfoldable pub split_from : (ℕ → Bool) → Text → Text → List Text
unfolding close
split_from p cur [] = close cur []
split_from p cur (c ∷ s) =
    let rest = split_from p (if p c then [] else cur ++ (c ∷ [])) s in
    if p c then close cur rest else rest

-- s.split()
unfoldable pub split : Text → List Text
unfolding split_from is_space
split s = split_from is_space [] s

-- re.sub("[…]+", r, s): each maximal run of characters with `p` becomes one `r`. The flag is set
-- inside a run.
unfoldable pub sub_runs : (ℕ → Bool) → ℕ → Bool → Text → Text
sub_runs p r inside [] = []
sub_runs p r inside (c ∷ s) =
    let rest = sub_runs p r (p c) s in if p c then (if inside then rest else r ∷ rest) else c ∷ rest
