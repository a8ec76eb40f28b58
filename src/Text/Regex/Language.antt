-- ===== src/Text/Regex/Language.antt =====
-- What a match takes: the texts of a pattern's language, boundaries left out.
use automated_outreach_proto.Prelude.{
  ℕ, ◌≡◌, refl, sym, ap, ◌∙◌, ◌⊎◌, inl, inr, Bool, true, false, Option, none, some, List, [], ◌∷◌,
  ◌++◌, reverse, arith, All, flat_map, Bool-cases, if◌then◌else◌,
}
use mathlib.Core.List.{append_assoc, append-nil, reverse-append, reverse-reverse}
use mathlib.Core.Option.{some-injective}
use automated_outreach_proto.Text.{Text, one_of}
use automated_outreach_proto.Text.Equality.{text_eq_iff}
use automated_outreach_proto.Text.Regex.{
  Regex, empty, one, many, seq, alt, boundary, Cursor, run, run_many, step_one, start, first_group,
  match_group, lit, alts,
}

pub data In : Regex → Text → Type 0 where
  in_empty : In empty []
  in_one : {p : ℕ → Bool} {c : ℕ} → p c ≡ true → In (one p) (c ∷ [])
  in_many_nil : {p : ℕ → Bool} → In (many p) []
  in_many : {p : ℕ → Bool} {c : ℕ} {s : Text} → p c ≡ true → In (many p) s → In (many p) (c ∷ s)
  in_seq : {a b : Regex} {s t : Text} → In a s → In b t → In (seq a b) (s ++ t)
  in_left : {a b : Regex} {s : Text} → In a s → In (alt a b) s
  in_right : {a b : Regex} {s : Text} → In b s → In (alt a b) s
  in_boundary : {w : ℕ → Bool} → In (boundary w) []

-- From `k` to `l` a match takes `g`, a text of the language.
pub record Takes (e : Regex) (k l : Cursor) : Type 0 where
  pub group : Text
  pub inside : In e group
  pub consumed : k.rest ≡ group ++ l.rest
  pub recorded : l.taken ≡ reverse group ++ k.taken

module _ {ℓ κ} {B : Type ℓ} (Q : B → Type κ) where
  All-append : (xs ys : List B) → All Q xs → All Q ys → All Q (xs ++ ys)
  All-append [] ys h k = k
  All-append (x ∷ xs) ys h k = (h.0, All-append xs ys h.1 k)

module _ {ℓ κ μ ν} {A : Type ℓ} {B : Type κ} (P : A → Type ν) (Q : B → Type μ) where
  All-flat_map :
      (f : A → List B)
      → ((a : A) → P a → All Q (f a))
      → (xs : List A) → All P xs
      → All Q (flat_map f xs)
  All-flat_map f step [] h = tt
  All-flat_map f step (x ∷ xs) h =
      All-append Q (f x) (flat_map f xs) (step x h.0) (All-flat_map f step xs h.1)

module _ {ℓ κ μ} {A : Type ℓ} (P : A → Type κ) (Q : A → Type μ) where
  All-map : ((a : A) → P a → Q a) → (xs : List A) → All P xs → All Q xs
  All-map h [] a = tt
  All-map h (x ∷ xs) a = (h x a.0, All-map h xs a.1)

module _ {ℓ κ} {A : Type ℓ} (P : A → Type κ) where
  All-if : (a : A) (b : Bool) → P a → All P (if b then a ∷ [] else [])
  All-if a true h = (h, tt)
  All-if a false h = tt

Takes-seq : {a b : Regex} {k l m : Cursor} → Takes a k l → Takes b l m → Takes (seq a b) k m
Takes-seq {k = k} {m = m} s t = record {
  group = s.group ++ t.group;
  inside = in_seq s.inside t.inside;
  consumed =
      s.consumed ∙ ap (λ x. s.group ++ x) t.consumed ∙ sym (append_assoc s.group t.group m.rest);
  recorded =
      t.recorded
      ∙ ap (λ x. reverse t.group ++ x) s.recorded
      ∙ sym (append_assoc (reverse t.group) (reverse s.group) k.taken)
      ∙ ap (λ x. x ++ k.taken) (sym (reverse-append s.group t.group));
}

Takes-nil : {e : Regex} (k : Cursor) → In e [] → Takes e k k
Takes-nil k h = record { group = []; inside = h; consumed = refl; recorded = refl }

Takes-one :
    (p : ℕ → Bool) (taken rest : Text) (before : Option ℕ)
    → All
        (Takes (one p) (record { taken = taken; before = before; rest = rest }))
        (step_one p taken rest)
unfolding step_one
Takes-one p taken [] before = tt
Takes-one p taken (c ∷ s) before = elim (Bool-cases (p c)) [
  | inl e ↦
      rw e (record { group = c ∷ []; inside = in_one e; consumed = refl; recorded = refl }, tt)
  | inr n ↦ rw n tt
]

Takes-step :
    (p : ℕ → Bool) (c : ℕ) (taken rest : Text) (before : Option ℕ)
    → p c ≡ true
    → (l : Cursor) → Takes (many p) (record { taken = c ∷ taken; before = some c; rest = rest }) l
    → Takes (many p) (record { taken = taken; before = before; rest = c ∷ rest }) l
Takes-step p c taken rest before e l t = record {
  group = c ∷ t.group;
  inside = in_many e t.inside;
  consumed = ap (λ x. c ∷ x) t.consumed;
  recorded =
      t.recorded
      ∙ sym (append_assoc (reverse t.group) (c ∷ []) taken)
      ∙ ap (λ x. x ++ taken) (sym (reverse-append (c ∷ []) t.group));
}

Takes-many :
    (p : ℕ → Bool) (taken : Text) (before : Option ℕ) (rest : Text)
    → All
        (Takes (many p) (record { taken = taken; before = before; rest = rest }))
        (run_many p taken before rest)
unfolding run_many
Takes-many p taken before [] = (Takes-nil _ in_many_nil, tt)
Takes-many p taken before (c ∷ s) = elim (Bool-cases (p c)) [
  | inl e ↦ rw e (
      All-append (Takes (many p) (record { taken = taken; before = before; rest = c ∷ s }))
        (run_many p (c ∷ taken) (some c) s) _
        (All-map _ _ (Takes-step p c taken s before e) (run_many p (c ∷ taken) (some c) s)
          (Takes-many p (c ∷ taken) (some c) s))
        (Takes-nil _ in_many_nil, tt))
  | inr n ↦ rw n (Takes-nil _ in_many_nil, tt)
]

-- Every end of a match that the matcher tries is one of a text in the pattern's language.
run-Takes : (e : Regex) (k : Cursor) → All (Takes e k) (run e k)
unfolding run
run-Takes empty k = (Takes-nil k in_empty, tt)
run-Takes (one p) k = Takes-one p k.taken k.rest k.before
run-Takes (many p) k = Takes-many p k.taken k.before k.rest
run-Takes (seq a b) k =
    All-flat_map (Takes a k) (Takes (seq a b) k) (run b)
      (λ l s.
        All-map (Takes b l) (Takes (seq a b) k) (λ m t. Takes-seq {l = l} s t) (run b l)
          (run-Takes b l))
      (run a k) (run-Takes a k)
run-Takes (alt a b) k =
    All-append (Takes (alt a b) k) (run a k) (run b k)
      (All-map (Takes a k) (Takes (alt a b) k)
        (λ l t. record {
          group = t.group;
          inside = in_left t.inside;
          consumed = t.consumed;
          recorded = t.recorded;
        })
        (run a k) (run-Takes a k))
      (All-map (Takes b k) (Takes (alt a b) k)
        (λ l t. record {
          group = t.group;
          inside = in_right t.inside;
          consumed = t.consumed;
          recorded = t.recorded;
        })
        (run b k) (run-Takes b k))
run-Takes (boundary w) k = All-if (Takes (boundary w) k) k _ (Takes-nil k in_boundary)

-- The text that a match took is in the language, and the match took it from the front.
first_group-Takes :
    (e : Regex) (k : Cursor) (g : Text) (ls : List Cursor)
    → k.taken ≡ []
    → All (Takes e k) ls
    → first_group ls ≡ some g
    → In e g × ((r : Text) × (k.rest ≡ g ++ r))
unfolding first_group
first_group-Takes e k g [] n h q = cc
first_group-Takes e k g (l ∷ ls) n h q =
    let t = h.0 in
    let taken : l.taken ≡ reverse t.group =
      t.recorded ∙ ap (λ x. reverse t.group ++ x) n ∙ append-nil (reverse t.group) in
    let p : t.group ≡ g =
      sym (reverse-reverse t.group) ∙ ap reverse (sym taken) ∙ some-injective _ _ q in
    (rw p at t.inside, (l.rest, t.consumed ∙ ap (λ x. x ++ l.rest) p))

pub match_group-In :
    (e : Regex) (s g : Text) → match_group e s ≡ some g → In e g × ((r : Text) × (s ≡ g ++ r))
unfolding match_group
match_group-In e s g h =
    first_group-Takes e (start none s) g (run e (start none s)) refl (run-Takes e (start none s)) h

pub In-seq :
    {a b : Regex} {g : Text}
    → In (seq a b) g
    → (s : Text) × (t : Text) × In a s × In b t × (g ≡ s ++ t)
In-seq (in_seq {s = s} {t = t} x y) = (s, t, x, y, refl)

pub In-alt : {a b : Regex} {g : Text} → In (alt a b) g → In a g ⊎ In b g
In-alt (in_left x) = inl x
In-alt (in_right x) = inr x

pub In-empty : {g : Text} → In empty g → g ≡ []
In-empty in_empty = refl

pub In-boundary : {w : ℕ → Bool} {g : Text} → In (boundary w) g → g ≡ []
In-boundary in_boundary = refl

In-one : {p : ℕ → Bool} {g : Text} → In (one p) g → (c : ℕ) × (p c ≡ true) × (g ≡ c ∷ [])
In-one (in_one {c = c} h) = (c, h, refl)

pub In-lit : (t : Text) {g : Text} → In (lit t) g → g ≡ t
In-lit [] x = In-empty x
In-lit (c ∷ t) x =
    let (s, r, y, z, e) = In-seq x in
    let (d, h, f) = In-one y in
    let same : c ≡ d = ground arith in let rest : r ≡ t = In-lit t z in cc

pub In-alts : (ts : List Text) {g : Text} → In (alts ts) g → one_of g ts ≡ true
In-alts [] x = let (d, h, f) = In-one x in cc
In-alts (t ∷ []) {g} x = ground (arith, text_eq_iff g t, In-lit t x)
In-alts (t ∷ u ∷ ts) {g} x = elim (In-alt x) [
  | inl y ↦ ground (arith, text_eq_iff g t, In-lit t y)
  | inr y ↦ ground (arith, In-alts (u ∷ ts) y)
]
