-- ===== src/Salesforce/Upsert/Batches.antt =====
-- The batches cut the records into pieces of the right size.
use automated_outreach_proto.Prelude.{
  ℕ, zero, suc, ◌+◌, ◌-◌, ◌*◌, ◌/◌, ◌≤◌, ◌<◌, ◌≡◌, refl, sym, ap, ◌∙◌, List, [], ◌∷◌, ◌++◌, arith,
  length, take, drop, flat_map, All,
}
use automated_outreach_proto.Salesforce.Upsert.{Record, slices, batches}

drop-all {ℓ} : {A : Type ℓ} (k : ℕ) (xs : List A) → length xs ≤ k → drop k xs ≡ []
drop-all zero [] h = refl
drop-all zero (x ∷ xs) h = absurd (omega arith)
drop-all (suc k) [] h = refl
drop-all (suc k) (x ∷ xs) h = drop-all k xs (omega arith)

drop-add {ℓ} : {A : Type ℓ} (s b : ℕ) (xs : List A) → drop (s + b) xs ≡ drop b (drop s xs)
drop-add zero b xs = let e : 0 + b ≡ b = omega arith in ap (λ k. drop k xs) e
drop-add (suc s) zero [] = let e : suc s + 0 ≡ suc s = omega arith in ap (λ k. drop k []) e
drop-add (suc s) (suc b) [] =
    let e : suc s + suc b ≡ suc (s + suc b) = omega arith in ap (λ k. drop k []) e
drop-add (suc s) b (x ∷ xs) =
    let e : suc s + b ≡ suc (s + b) = omega arith in ap (λ k. drop k (x ∷ xs)) e ∙ drop-add s b xs

take-drop {ℓ} : {A : Type ℓ} (b : ℕ) (ys : List A) → take b ys ++ drop b ys ≡ ys
take-drop zero ys = refl
take-drop (suc b) [] = refl
take-drop (suc b) (y ∷ ys) = ap (λ r. y ∷ r) (take-drop b ys)

length-drop_pos {ℓ} : {A : Type ℓ} (s : ℕ) (xs : List A) → s < length xs → 0 < length (drop s xs)
length-drop_pos zero xs h = h
length-drop_pos (suc s) [] h = absurd (omega arith)
length-drop_pos (suc s) (x ∷ xs) h = length-drop_pos s xs (omega arith)

length-take_pos {ℓ} :
    {A : Type ℓ} (b : ℕ) (ys : List A) → 0 < length ys → 0 < b → 0 < length (take b ys)
length-take_pos zero ys h k = k
length-take_pos (suc b) [] h k = h
length-take_pos (suc b) (y ∷ ys) h k = omega arith

length-take-le {ℓ} : {A : Type ℓ} (b : ℕ) (ys : List A) → length (take b ys) ≤ b
length-take-le zero ys = omega arith
length-take-le (suc b) [] = omega arith
length-take-le (suc b) (y ∷ ys) = omega (arith, length-take-le b ys)

-- The records of all batches, in order.
abbrev pub concat : List (List Record) → List Record
concat bs = flat_map (λ b. b) bs

concat-slices :
    (rounds start size : ℕ) (xs : List Record)
    → length xs ≤ start + rounds * size
    → concat (slices rounds start size xs) ≡ drop start xs
unfolding slices
concat-slices zero start size xs h = sym (drop-all start xs (grind arith))
concat-slices (suc rounds) start size xs h =
    let rest : concat (slices rounds (start + size) size xs) ≡ drop (start + size) xs =
      concat-slices rounds (start + size) size xs (grind arith) in
    rw (rest, drop-add start size xs) (take-drop size (drop start xs))

-- A batch has at least one record, and no more than the size.
abbrev pub IsBatch : ℕ → List Record → Type 0
IsBatch size b = (0 < length b) × (length b ≤ size)

slices-IsBatch :
    (rounds start size : ℕ) (xs : List Record)
    → 0 < size
    → start + rounds * size < length xs + size
    → All (IsBatch size) (slices rounds start size xs)
unfolding slices
slices-IsBatch zero start size xs p h = tt
slices-IsBatch (suc rounds) start size xs p h = (
  (
    length-take_pos size (drop start xs) (length-drop_pos start xs (grind arith)) p,
    length-take-le size (drop start xs),
  ),
  slices-IsBatch rounds (start + size) size xs p (grind arith),
)

module _ (size : ℕ) (records : List Record) (p : 0 < size) where
  rounds_enough : length records ≤ 0 + (length records + size - 1) / size * size
  rounds_enough = grind arith

  rounds_needed : 0 + (length records + size - 1) / size * size < length records + size
  rounds_needed = grind arith

  -- The batches hold every record once, in order.
  pub concat-batches : concat (batches size records) ≡ records
  unfolding batches
  concat-batches = concat-slices _ 0 size records rounds_enough

  pub batches-IsBatch : All (IsBatch size) (batches size records)
  unfolding batches
  batches-IsBatch = slices-IsBatch _ 0 size records p rounds_needed
