-- ===== src/TextTorrent/Reconcile/Agree.antt =====
-- When the comparison finds no divergence.
use automated_outreach_proto.Prelude.{
  ℕ, suc, ◌+◌, ◌≡◌, refl, sym, ap, ◌∙◌, ◌↔◌, ◌⊎◌, inl, inr, arith, true, Bool-cases, Option, none,
  some, List, [], ◌∷◌, length, All, Among,
}
use automated_outreach_proto.Text.{Text, text_eq, one_of}
use automated_outreach_proto.Text.Equality.{text_eq_iff}
use automated_outreach_proto.Cleansing.Normalize.{normalize_phone}
use automated_outreach_proto.Suppression.Store.{Backend}
use automated_outreach_proto.TextTorrent.Reconcile.{
  insert_sorted, sorted, add_once, minus, sort_in, vendor_numbers, phones_of, compared,
}

length-insert_sorted : (x : Text) (xs : List Text) → length (insert_sorted x xs) ≡ suc (length xs)
length-insert_sorted x [] = refl
length-insert_sorted x (y ∷ ys) = ground (arith, length-insert_sorted x ys)

length-sorted : (xs : List Text) → length (sorted xs) ≡ length xs
length-sorted [] = refl
length-sorted (x ∷ xs) = length-insert_sorted x (sorted xs) ∙ ap suc (length-sorted xs)

-- Nothing is left of a list exactly when each of its texts is in the other.
length-minus : (xs ys : List Text) → (length (minus xs ys) ≡ 0) ↔ All (λ x. one_of x ys ≡ true) xs
length-minus [] ys = (λ h. tt, λ h. refl)
length-minus (x ∷ xs) ys = elim (Bool-cases (one_of x ys)) [
  | inl e ↦ rw e (λ h. (refl, (length-minus xs ys).0 h), λ h. (length-minus xs ys).1 h.1)
  | inr e ↦ rw e (λ h. ground arith, λ h. cc)
]

one_of_iff : (x : Text) (xs : List Text) → (one_of x xs ≡ true) ↔ Among x xs
one_of_iff x [] = (λ h. cc, λ a. elim a [ ])
one_of_iff x (y ∷ ys) = elim (Bool-cases (text_eq x y)) [
  | inl e ↦ rw e (λ _. inl ((text_eq_iff x y).0 e), λ _. refl)
  | inr e ↦ rw e (
    λ h. inr ((one_of_iff x ys).0 h),
    λ a. elim a [ inl s ↦ ground (arith, text_eq_iff x y) | inr t ↦ (one_of_iff x ys).1 t ],
  )
]

All-Among : (P : Text → Type 0) {x : Text} (xs : List Text) → All P xs → Among x xs → P x
All-Among P [] p a = elim a [ ]
All-Among P (y ∷ ys) p a = elim a [ inl s ↦ rw s p.0 | inr t ↦ All-Among P ys p.1 t ]

-- What is in a set to which one element was added.
add_once-All :
    (P : Text → Type 0) (x : Text) (xs : List Text) → All P (add_once x xs) ↔ (P x × All P xs)
add_once-All P x xs = elim (Bool-cases (one_of x xs)) [
  | inl e ↦ rw e (λ p. (All-Among P xs p ((one_of_iff x xs).0 e), p), λ q. q.1)
  | inr e ↦ rw e (λ p. p, λ q. q)
]

Among-add_once : (i x : Text) (xs : List Text) → Among i (add_once x xs) ↔ ((i ≡ x) ⊎ Among i xs)
Among-add_once i x xs = elim (Bool-cases (one_of x xs)) [
  | inl e ↦ rw e (λ a. inr a, λ q. elim q [ inl s ↦ rw s ((one_of_iff x xs).0 e) | inr t ↦ t ])
  | inr e ↦ rw e (λ a. a, λ q. q)
]

module _ (b : Backend) where
  -- The phone is the form of one of the vendor's numbers.
  abbrev pub IsTheirs : List Text → Text → Type 0
  IsTheirs raws i =
      (raw : Text) × Among raw raws × (normalize_phone b.unicode b.phones (some raw) ≡ some i)

  IsTheirs-later : (raw i : Text) (raws : List Text) → IsTheirs raws i → IsTheirs (raw ∷ raws) i
  IsTheirs-later raw i raws (r, a, p) = (r, inr a, p)

  sort_in-IsTheirs :
      (raw i : Text) (raws : List Text) (o : Option Text) (v : List Text × List Text)
      → normalize_phone b.unicode b.phones (some raw) ≡ o
      → (Among i v.0 → IsTheirs raws i)
      → Among i (sort_in raw o v).0
      → IsTheirs (raw ∷ raws) i
  unfolding sort_in
  sort_in-IsTheirs raw i raws none v e h a = IsTheirs-later raw i raws (h a)
  sort_in-IsTheirs raw i raws (some m) v e h a = elim ((Among-add_once i m v.0).0 a) [
    | inl s ↦ (raw, inl refl, e ∙ ap some (sym s))
    | inr t ↦ IsTheirs-later raw i raws (h t)
  ]

  vendor-IsTheirs :
      (raws : List Text) (i : Text) → Among i (vendor_numbers b raws).0 → IsTheirs raws i
  unfolding vendor_numbers
  vendor-IsTheirs [] i a = elim a [ ]
  vendor-IsTheirs (raw ∷ raws) i a =
      sort_in-IsTheirs raw i raws _ (vendor_numbers b raws) refl (vendor-IsTheirs raws i) a

  sort_in-keeps :
      (raw i : Text) (o : Option Text) (v : List Text × List Text)
      → Among i v.0
      → Among i (sort_in raw o v).0
  unfolding sort_in
  sort_in-keeps raw i none v a = a
  sort_in-keeps raw i (some m) v a = (Among-add_once i m v.0).1 (inr a)

  sort_in-has : (raw i : Text) (v : List Text × List Text) → Among i (sort_in raw (some i) v).0
  unfolding sort_in
  sort_in-has raw i v = (Among-add_once i i v.0).1 (inl refl)

  IsTheirs-vendor :
      (raws : List Text) (i : Text) → IsTheirs raws i → Among i (vendor_numbers b raws).0
  unfolding vendor_numbers
  IsTheirs-vendor [] i (r, a, p) = elim a [ ]
  IsTheirs-vendor (raw ∷ raws) i (r, a, p) = elim a [
    | inl s ↦ rw (← s) (rw p (sort_in-has r i (vendor_numbers b raws)))
    | inr t ↦ sort_in-keeps raw i _ (vendor_numbers b raws) (IsTheirs-vendor raws i (r, t, p))
  ]

  -- The number has a form, with the property.
  abbrev pub HasForm : (Text → Type 0) → Text → Type 0
  HasForm P raw = (m : Text) × (normalize_phone b.unicode b.phones (some raw) ≡ some m) × P m

  sort_in-All :
      (P : Text → Type 0) (raw : Text) (raws : List Text) (o : Option Text)
      (v : List Text × List Text)
      → normalize_phone b.unicode b.phones (some raw) ≡ o
      → ((All P v.0 × (length v.1 ≡ 0)) ↔ All (HasForm P) raws)
      → (All P (sort_in raw o v).0 × (length (sort_in raw o v).1 ≡ 0))
        ↔ All (HasForm P) (raw ∷ raws)
  unfolding sort_in
  sort_in-All P raw raws none v e h = (λ p. ground arith, λ q. ground arith)
  sort_in-All P raw raws (some m) v e h = (
    λ p. let (first, rest) = (add_once-All P m v.0).0 p.0 in ((m, e, first), h.0 (rest, p.1)),
    λ q.
        let ((j, p, first), rest) = q in
        let e' : j ≡ m = ground arith in
        let (old, none_left) = h.1 rest in
        ((add_once-All P m v.0).1 (rw (← e') first, old), none_left),
  )

  vendor-All :
      (P : Text → Type 0) (raws : List Text)
      → (All P (vendor_numbers b raws).0 × (length (vendor_numbers b raws).1 ≡ 0))
        ↔ All (HasForm P) raws
  unfolding vendor_numbers
  vendor-All P [] = (λ p. tt, λ q. (tt, refl))
  vendor-All P (raw ∷ raws) =
      sort_in-All P raw raws _ (vendor_numbers b raws) refl (vendor-All P raws)

  All-map : (P Q : Text → Type 0) (xs : List Text) → ((x : Text) → P x → Q x) → All P xs → All Q xs
  All-map P Q [] f p = tt
  All-map P Q (x ∷ xs) f p = (f x p.0, All-map P Q xs f p.1)

  -- Nothing is left of one set without the other.
  minus-empty : (xs ys : List Text) → (length (sorted (minus xs ys)) ≡ 0) ↔ All (λ x. Among x ys) xs
  minus-empty xs ys = (
    λ h.
        All-map (λ x. one_of x ys ≡ true) (λ x. Among x ys) xs (λ x. (one_of_iff x ys).0)
          ((length-minus xs ys).0 (sym (length-sorted (minus xs ys)) ∙ h)),
    λ p.
        length-sorted (minus xs ys)
        ∙ (length-minus xs ys).1
            (All-map (λ x. Among x ys) (λ x. one_of x ys ≡ true) xs (λ x. (one_of_iff x ys).1) p),
  )

  -- What the counts are, from the three lists.
  three_zero : (x y z : ℕ) → (x + y + z ≡ 0) ↔ ((x ≡ 0) × (y ≡ 0) × (z ≡ 0))
  three_zero x y z = (λ h. (omega arith, omega arith, omega arith), λ h. ground arith)

  -- The comparison finds no divergence exactly when every entry of the vendor's list can be parsed
  -- and is a phone of ours, and every phone of ours is the form of an entry of the vendor's list.
  pub compared_iff :
      (raws identifiers : List Text)
      → ((compared b raws identifiers).divergence ≡ 0) ↔ (
          All (HasForm (λ m. Among m (phones_of identifiers))) raws
          × All (IsTheirs raws) (phones_of identifiers))
  unfolding compared
  compared_iff raws identifiers =
      let vendor = vendor_numbers b raws in
      let ours = phones_of identifiers in
      let counts =
        three_zero (length (sorted (minus vendor.0 ours))) (length (sorted (minus ours vendor.0)))
          (length vendor.1) in
      let known = vendor-All (λ m. Among m ours) raws in
      (
        λ h.
            let (x, y, z) = counts.0 h in
            (
              known.0 ((minus-empty vendor.0 ours).0 x, z),
              All-map (λ i. Among i vendor.0) (IsTheirs raws) ours (vendor-IsTheirs raws)
                  ((minus-empty ours vendor.0).0 y),
            ),
        λ p.
            let (all, z) = known.1 p.0 in
            counts.1 (
              (minus-empty vendor.0 ours).1 all,
              (minus-empty ours vendor.0).1
                  (All-map (IsTheirs raws) (λ i. Among i vendor.0) ours (IsTheirs-vendor raws) p.1),
              z,
            ),
      )
