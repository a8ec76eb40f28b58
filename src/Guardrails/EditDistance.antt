-- ===== src/Guardrails/EditDistance.antt =====
-- src/guardrails/text.py: `within_edit_distance_1`.
pub mod Laws
use automated_outreach_proto.Prelude.{
  ℕ, zero, suc, ◌+◌, ◌-◌, Bool, true, false, ◌||◌, [], ◌∷◌, length, drop, ltb, ◌==◌, if◌then◌else◌,
}
use automated_outreach_proto.Text.{Text, text_eq}

-- sum(1 for x, y in zip(a, b, strict=True) if x != y)
unfoldable pub differences : Text → Text → ℕ
differences [] b = 0
differences (x ∷ a) [] = 0
differences (x ∷ a) (y ∷ b) = let rest = differences a b in if x == y then rest else suc rest

-- The `while` loop: how far the texts agree.
unfoldable pub common_prefix : Text → Text → ℕ
common_prefix [] b = 0
common_prefix (x ∷ a) [] = 0
common_prefix (x ∷ a) (y ∷ b) = let rest = common_prefix a b in if x == y then suc rest else 0

-- a[prefix:] == b[prefix + 1:], with `b` the longer one
unfoldable pub one_inserted : Text → Text → Bool
unfolding common_prefix
one_inserted a b = let prefix = common_prefix a b in text_eq (drop prefix a) (drop (suc prefix) b)

unfoldable pub within_edit_distance_1 : Text → Text → Bool
unfolding differences one_inserted
within_edit_distance_1 a b =
    if text_eq a b
    then true
    else if ltb 1 (length a - length b) || ltb 1 (length b - length a)
    then false
    else if length a == length b
    then differences a b == 1
    else if ltb (length b) (length a)
    then one_inserted b a
    else one_inserted a b
