-- ===== src/Guardrails/EditDistance/Laws.antt =====
-- `within_edit_distance_1` decides whether one edit leads from one text to the other.
use automated_outreach_proto.Prelude.{
  ℕ, suc, ◌+◌, ◌≤◌, ◌≡◌, refl, sym, ap, ◌↔◌, inl, inr, ◌∙◌, true, [], ◌∷◌, arith, length, ltb, ◌==◌,
  Bool-cases,
}
use automated_outreach_proto.Text.{Text, text_eq}
use automated_outreach_proto.Text.Equality.{text_eq_iff}
use automated_outreach_proto.Guardrails.EditDistance.{
  differences, common_prefix, one_inserted, within_edit_distance_1,
}

-- At most one character is changed, inserted or deleted.
pub data Edit : Text → Text → Type 0 where
  same : {s : Text} → Edit s s
  change : (x y : ℕ) {s : Text} → Edit (x ∷ s) (y ∷ s)
  insert : (y : ℕ) {s : Text} → Edit s (y ∷ s)
  delete : (x : ℕ) {s : Text} → Edit (x ∷ s) s
  later : (x : ℕ) {s t : Text} → Edit s t → Edit (x ∷ s) (x ∷ t)

pub Edit-symm : {a b : Text} → Edit a b → Edit b a
Edit-symm same = same
Edit-symm (change x y) = change y x
Edit-symm (insert y) = delete y
Edit-symm (delete x) = insert x
Edit-symm (later x e) = later x (Edit-symm e)

-- One edit changes the length by at most one.
pub Edit-length : {a b : Text} → Edit a b → length a ≤ length b + 1
Edit-length same = omega arith
Edit-length (change x y) = omega arith
Edit-length (insert y) = omega arith
Edit-length (delete x) = omega arith
Edit-length (later x e) = omega (arith, Edit-length e)

Edit-of_eq : {a b : Text} → a ≡ b → Edit a b
Edit-of_eq {a} p = rw (sym p) same

no_differences : (a b : Text) → length a ≡ length b → differences a b ≡ 0 → a ≡ b
unfolding differences
no_differences [] [] h d = refl
no_differences [] (y ∷ b) h d = absurd (omega arith)
no_differences (x ∷ a) [] h d = absurd (omega arith)
no_differences (x ∷ a) (y ∷ b) h d = ground (arith, no_differences a b)

differences_self : (a : Text) → differences a a ≡ 0
unfolding differences
differences_self [] = refl
differences_self (x ∷ a) = ground (arith, differences_self a)

Edit-of_difference : (a b : Text) → length a ≡ length b → differences a b ≡ 1 → Edit a b
unfolding differences
Edit-of_difference [] b h d = absurd (omega arith)
Edit-of_difference (x ∷ a) [] h d = absurd (omega arith)
Edit-of_difference (x ∷ a) (y ∷ b) h d = elim (Bool-cases (x == y)) [
  | inl e ↦
      let p : x ≡ y = ground arith in
      let ih : Edit a b = Edit-of_difference a b (omega arith) (ground arith) in rw p (later y ih)
  | inr n ↦ let p : a ≡ b = no_differences a b (omega arith) (ground arith) in rw p (change x y)
]

Edit-of_inserted : (a b : Text) → suc (length a) ≡ length b → one_inserted a b ≡ true → Edit a b
unfolding one_inserted common_prefix
Edit-of_inserted a [] h d = absurd (omega arith)
Edit-of_inserted [] (y ∷ []) h d = insert y
Edit-of_inserted [] (y ∷ z ∷ b) h d = absurd (omega arith)
Edit-of_inserted (x ∷ a) (y ∷ b) h d = elim (Bool-cases (x == y)) [
  | inl e ↦
      let p : x ≡ y = ground arith in
      let ih : Edit a b = Edit-of_inserted a b (omega arith) (ground arith) in rw p (later y ih)
  | inr n ↦ let p : x ∷ a ≡ b = (text_eq_iff (x ∷ a) b).0 (ground arith) in rw p (insert y)
]

inserted_self : (a : Text) (y : ℕ) → one_inserted a (y ∷ a) ≡ true
unfolding one_inserted common_prefix
inserted_self [] y = refl
inserted_self (x ∷ a) y =
    ground (arith, inserted_self a x, text_eq_iff (x ∷ a) (x ∷ a), text_eq_iff a a)

-- What the code tests, on the branch that the lengths choose.
data Tested (a b : Text) : Type 0 where
  equal : a ≡ b → Tested a b
  changed : length a ≡ length b → differences a b ≡ 1 → Tested a b
  longer : suc (length a) ≡ length b → one_inserted a b ≡ true → Tested a b
  shorter : suc (length b) ≡ length a → one_inserted b a ≡ true → Tested a b

one_inserted_later :
    (x : ℕ) (a b : Text) → one_inserted a b ≡ true → one_inserted (x ∷ a) (x ∷ b) ≡ true
unfolding one_inserted common_prefix
one_inserted_later x a b h = ground arith

Tested-later : (x : ℕ) (a b : Text) → Tested a b → Tested (x ∷ a) (x ∷ b)
unfolding differences
Tested-later x a b (equal p) = equal (ap (λ s. x ∷ s) p)
Tested-later x a b (changed l d) = changed (ap suc l) (ground arith)
Tested-later x a b (longer l d) = longer (ap suc l) (one_inserted_later x a b d)
Tested-later x a b (shorter l d) = shorter (ap suc l) (one_inserted_later x b a d)

Tested-change : (x y : ℕ) (s : Text) → Tested (x ∷ s) (y ∷ s)
unfolding differences
Tested-change x y s = elim (Bool-cases (x == y)) [
  | inl e ↦ equal (ground arith)
  | inr n ↦ changed refl (ground (arith, differences_self s))
]

Tested-of_Edit : {a b : Text} → Edit a b → Tested a b
Tested-of_Edit same = equal refl
Tested-of_Edit (change x y {s}) = Tested-change x y s
Tested-of_Edit (insert y {s}) = longer refl (inserted_self s y)
Tested-of_Edit (delete x {s}) = shorter refl (inserted_self s x)
Tested-of_Edit (later x {s} {t} e) = Tested-later x s t (Tested-of_Edit e)

within_of_Tested : (a b : Text) → Tested a b → within_edit_distance_1 a b ≡ true
unfolding within_edit_distance_1
within_of_Tested a b (equal p) = ground (arith, text_eq_iff a b)
within_of_Tested a b (changed l d) = ground arith
within_of_Tested a b (longer l d) = ground arith
within_of_Tested a b (shorter l d) = ground arith

Edit-of_within : (a b : Text) → within_edit_distance_1 a b ≡ true → Edit a b
unfolding within_edit_distance_1
Edit-of_within a b h = elim (Bool-cases (text_eq a b)) [
  | inl e ↦ Edit-of_eq ((text_eq_iff a b).0 e)
  | inr n ↦ elim (Bool-cases (length a == length b)) [
    | inl e ↦ Edit-of_difference a b (ground arith) (ground arith)
    | inr m ↦ elim (Bool-cases (ltb (length b) (length a))) [
      | inl l ↦ Edit-symm (Edit-of_inserted b a (ground arith) (ground arith))
      | inr g ↦ Edit-of_inserted a b (ground arith) (ground arith)
    ]
  ]
]

-- The test holds exactly when one text is the other with at most one character changed, inserted
-- or deleted.
pub within_edit_distance_1_iff : (a b : Text) → (within_edit_distance_1 a b ≡ true) ↔ Edit a b
within_edit_distance_1_iff a b = (Edit-of_within a b, λ e. within_of_Tested a b (Tested-of_Edit e))

-- The order of the two texts does not matter.
pub within_edit_distance_1_comm :
    (a b : Text) → within_edit_distance_1 a b ≡ within_edit_distance_1 b a
within_edit_distance_1_comm a b = elim (Bool-cases (within_edit_distance_1 a b)) [
  | inl e ↦ e ∙ sym ((within_edit_distance_1_iff b a).1 (Edit-symm (Edit-of_within a b e)))
  | inr n ↦ ground (
    arith,
    (λ (e : within_edit_distance_1 b a ≡ true).
        (within_edit_distance_1_iff a b).1 (Edit-symm (Edit-of_within b a e))),
  )
]
