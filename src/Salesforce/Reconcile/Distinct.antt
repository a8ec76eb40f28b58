-- ===== src/Salesforce/Reconcile/Distinct.antt =====
-- The ids that the lake is counted by: each once, and those of its Parquet files.
use automated_outreach_proto.Prelude.{
  ℕ, ◌≡◌, ◌↔◌, ◌⊎◌, inl, inr, refl, sym, ap, ◌∙◌, arith, Bool, Bool-cases, true, false, Option,
  none, some, List, [], ◌∷◌, length, Among, if◌then◌else◌, Result, ok, err, ok-injective,
}
use automated_outreach_proto.Text.{Text, codes, ends_with}
use automated_outreach_proto.Text.Equality.{text_eq_iff}
use automated_outreach_proto.Io.{lift, and_then-eq-ok}
use automated_outreach_proto.Cleansing.PipelineIo.{Files, Objects, get_object, list_keys}
use automated_outreach_proto.Salesforce.Http.{Net}
use automated_outreach_proto.Salesforce.Cloud.{Cloud}
use automated_outreach_proto.Salesforce.Auth.{Crypto}
use automated_outreach_proto.Salesforce.Reconcile.{
  IdColumn, cleansed_prefix, same_id, has_id, update_ids, read_column, with_column, file_ids,
  lake_ids, count_lake,
}

same_id_iff : (x y : Option Text) → (same_id x y ≡ true) ↔ (x ≡ y)
same_id_iff none none = (λ h. refl, λ h. refl)
same_id_iff none (some t) = (λ h. cc, λ h. cc)
same_id_iff (some s) none = (λ h. cc, λ h. cc)
same_id_iff (some s) (some t) =
    (λ h. ap some ((text_eq_iff s t).0 h), λ h. ground (arith, text_eq_iff s t))

has_id_iff : (x : Option Text) (ys : List (Option Text)) → (has_id x ys ≡ true) ↔ Among x ys
has_id_iff x [] = (λ h. absurd (ground arith), λ h. elim h [ ])
has_id_iff x (y ∷ ys) = elim (Bool-cases (same_id x y)) [
  | inl e ↦ rw e (λ h. inl ((same_id_iff x y).0 e), λ a. refl)
  | inr e ↦ rw e (
    λ h. inr ((has_id_iff x ys).0 h),
    λ a. elim a [ inl s ↦ ground (arith, same_id_iff x y) | inr t ↦ (has_id_iff x ys).1 t ],
  )
]

-- No id stands twice.
abbrev pub Distinct : List (Option Text) → Type 0
Distinct [] = Unit
Distinct (x ∷ xs) = (has_id x xs ≡ false) × Distinct xs

update_ids-Distinct : (xs ids : List (Option Text)) → Distinct ids → Distinct (update_ids ids xs)
unfolding update_ids
update_ids-Distinct [] ids d = d
update_ids-Distinct (x ∷ xs) ids d = elim (Bool-cases (has_id x ids)) [
  | inl e ↦ rw (e) (update_ids-Distinct xs ids d)
  | inr e ↦ rw (e) (update_ids-Distinct xs (x ∷ ids) (e, d))
]

-- The ids, after one more has been looked at.
Among-one :
    (x y : Option Text) (ids : List (Option Text))
    → Among x (if has_id y ids then ids else y ∷ ids) ↔ (Among x ids ⊎ (x ≡ y))
Among-one x y ids = elim (Bool-cases (has_id y ids)) [
  | inl e ↦ rw e (λ a. inl a, λ q. elim q [ inl a ↦ a | inr s ↦ rw s ((has_id_iff y ids).0 e) ])
  | inr e ↦
      rw e (
        λ a. elim a [ inl s ↦ inr s | inr t ↦ inl t ],
        λ q. elim q [ inl a ↦ inr a | inr s ↦ inl s ],
      )
]

Among-update_ids :
    (x : Option Text) (xs ids : List (Option Text))
    → Among x (update_ids ids xs) ↔ (Among x ids ⊎ Among x xs)
unfolding update_ids
Among-update_ids x [] ids = (λ a. inl a, λ q. elim q [ inl a ↦ a | inr b ↦ elim b [ ] ])
Among-update_ids x (y ∷ xs) ids =
    let later = Among-update_ids x xs (if has_id y ids then ids else y ∷ ids) in
    let one = Among-one x y ids in
    (
      λ a. elim (later.0 a) [
        | inl b ↦ elim (one.0 b) [ inl c ↦ inl c | inr e ↦ inr (inl e) ]
        | inr b ↦ inr (inr b)
      ],
      λ q. elim q [
        | inl b ↦ later.1 (inl (one.1 (inl b)))
        | inr b ↦ elim b [ inl e ↦ later.1 (inl (one.1 (inr e))) | inr c ↦ later.1 (inr c) ]
      ],
    )

module _ (f : Files) (column : IdColumn f) (objects : Objects f) where
  -- The id stands in the column of the file under the key, which is a Parquet file.
  abbrev pub InFile : Option Text → Text → Type 0
  InFile x key =
      (body : f.backend.Body) × (xs : List (Option Text)) × (ends_with key (codes ".parquet")
        ≡ true)
      × (get_object f objects key ≡ ok body)
      × (column body ≡ ok xs)
      × Among x xs

  -- It stands in one of the files.
  abbrev pub InFiles : Option Text → List Text → Type 0
  InFiles x keys = (key : Text) × Among key keys × InFile x key

  -- What a step of the loop keeps, and what it adds.
  abbrev Adds : (Option Text → Type 0) → List (Option Text) → List (Option Text) → Type 0
  Adds P ids more =
      (Distinct ids → Distinct more) × ((x : Option Text) → Among x more ↔ (Among x ids ⊎ P x))

  -- The file under a key has one column.
  same_column :
      (key : Text) (body : f.backend.Body) (xs : List (Option Text)) (x : Option Text)
      → get_object f objects key ≡ ok body
      → column body ≡ ok xs
      → InFile x key
      → Among x xs
  same_column key body xs x o c (body', xs', p', o', c', b) =
      let same_body : body' ≡ body = ok-injective (sym o' ∙ o) in
      let same_ids : xs' ≡ xs = ok-injective (sym c' ∙ ap column same_body ∙ c) in rw (← same_ids) b

  column-Adds :
      (ids more : List (Option Text)) (key : Text) (object : Result f.backend.Body)
      (read : Result (List (Option Text)))
      → ends_with key (codes ".parquet") ≡ true
      → get_object f objects key ≡ object
      → read_column f column object ≡ read
      → with_column ids read ≡ ok more
      → Adds (λ x. InFile x key) ids more
  column-Adds ids more key (err e) read p o c h =
      let never : err e ≡ ok more = ap (with_column ids) c ∙ h in cc
  column-Adds ids more key (ok body) (err e) p o c h = cc
  column-Adds ids more key (ok body) (ok xs) p o c h = rw (← ok-injective h) (
    update_ids-Distinct xs ids,
    λ x. (
      λ a. elim ((Among-update_ids x xs ids).0 a) [
        | inl b ↦ inl b
        | inr b ↦ inr (body, xs, p, o, c, b)
      ],
      λ q.
          (Among-update_ids x xs ids).1
            (elim q [ inl b ↦ inl b | inr b ↦ inr (same_column key body xs x o c b) ]),
    ),
  )

  file_ids-Adds :
      (ids more : List (Option Text)) (key : Text) (parquet : Bool)
      → ends_with key (codes ".parquet") ≡ parquet
      → file_ids f column objects ids key parquet ≡ ok more
      → Adds (λ x. InFile x key) ids more
  unfolding file_ids
  file_ids-Adds ids more key false e h = rw (← ok-injective h) (
    λ d. d,
    λ x. (λ a. inl a, λ q. elim q [ inl b ↦ b | inr b ↦ let never = b.2 in absurd (ground arith) ]),
  )
  file_ids-Adds ids more key true e h = column-Adds ids more key _ _ e refl refl h

  lake_ids-Adds :
      (keys : List Text) (ids all : List (Option Text))
      → (lake_ids f column objects keys ids tt).0 ≡ ok all
      → Adds (λ x. InFiles x keys) ids all
  unfolding lake_ids
  lake_ids-Adds [] ids all h =
      rw (← ok-injective h)
        (λ d. d, λ x. (λ a. inl a, λ q. elim q [ inl a ↦ a | inr b ↦ elim b.1 [ ] ]))
  lake_ids-Adds (key ∷ keys) ids all h =
      let parquet = ends_with key (codes ".parquet") in
      let (more, p, h1, _) =
        and_then-eq-ok (lift (file_ids f column objects ids key parquet) tt) _ h in
      let (one, this) = file_ids-Adds ids more key parquet refl p in
      let (rest, those) = lake_ids-Adds keys more all h1 in
      (
        λ d. rest (one d),
        λ x. (
          λ a. elim ((those x).0 a) [
            | inl b ↦ elim ((this x).0 b) [ inl c ↦ inl c | inr c ↦ inr (key, inl refl, c) ]
            | inr b ↦ inr (b.0, inr b.1, b.2)
          ],
          λ q. (those x).1 (elim q [
            | inl b ↦ inl ((this x).1 (inl b))
            | inr b ↦ elim b.1 [
              | inl s ↦ inl ((this x).1 (inr (rw (← s) b.2)))
              | inr t ↦ inr (b.0, t, b.2)
            ]
          ]),
        ),
      )

-- What a count of the lake is: the number of the ids that its Parquet files hold, each taken once.
pub record IsCount (f : Files) (column : IdColumn f) (objects : Objects f) (count : ℕ)
    : Type 0 where
  pub keys : List Text
  pub ids : List (Option Text)
  pub listed : list_keys f objects cleansed_prefix ≡ ok keys
  pub distinct : Distinct ids
  pub are_those : (x : Option Text) → Among x ids ↔ InFiles f column objects x keys
  pub counts : length ids ≡ count

pub count_lake-IsCount :
    (n : Net) (f : Files) (k : Crypto) (c : Cloud n f) (column : IdColumn f) (objects : Objects f)
    (count : ℕ)
    → count_lake n f k c column objects ≡ ok count
    → IsCount f column objects count
unfolding count_lake
count_lake-IsCount n f k c column objects count h =
    let (keys, p, h1, _) = and_then-eq-ok (lift (list_keys f objects cleansed_prefix) tt) _ h in
    let (ids, q, h2, _) = and_then-eq-ok (lake_ids f column objects keys [] tt) _ h1 in
    let (d, those) = lake_ids-Adds f column objects keys [] ids q in
    record {
      keys = keys;
      ids = ids;
      listed = p;
      distinct = d tt;
      are_those = λ x.
          (λ a. elim ((those x).0 a) [ inl b ↦ elim b [ ] | inr b ↦ b ], λ b. (those x).1 (inr b));
      counts = ok-injective h2;
    }
