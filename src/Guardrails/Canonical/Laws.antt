-- ===== src/Guardrails/Canonical/Laws.antt =====
-- The canonical form is the list of the words, joined by single blanks.
use automated_outreach_proto.Prelude.{ℕ, ◌≡◌, refl, false, true, [], ◌∷◌, ◌∙◌, ap, List, arith}
use automated_outreach_proto.Text.{Text, join, is_space}
use automated_outreach_proto.Text.Space.{split, split_from}
use automated_outreach_proto.Text.Space.Words.{strip-sub_runs, split-join-words}
use automated_outreach_proto.Unicode.{Unicode}
use automated_outreach_proto.Guardrails.Canonical.{fold, non_word, canonicalize}

-- The words of a message: the maximal runs of [a-z0-9] in its folded form.
pub words : Unicode → Text → List Text
words u text = split_from non_word [] (fold u text)

word_not_space : (c : ℕ) → non_word c ≡ false → is_space c ≡ false
unfolding non_word is_space
word_not_space c h = ground arith

blank_is_space : is_space b' ' ≡ true
unfolding is_space
blank_is_space = refl

canonicalize-join :
    (u : Unicode) (text : Text) → canonicalize u text ≡ join (b' ' ∷ []) (words u text)
unfolding canonicalize words
canonicalize-join u text =
    strip-sub_runs is_space non_word b' ' blank_is_space word_not_space (fold u text)

-- The canonical form of a message is its words joined by single blanks, and splitting it at white
-- space, as the token rules do, gives exactly these words.
pub canonicalize-words :
    (u : Unicode) (text : Text)
    → (canonicalize u text ≡ join (b' ' ∷ []) (words u text))
      × (split (canonicalize u text) ≡ words u text)
unfolding words split
canonicalize-words u text = (
  canonicalize-join u text,
  ap (split_from is_space []) (canonicalize-join u text)
      ∙ split-join-words is_space non_word b' ' blank_is_space word_not_space (fold u text),
)
