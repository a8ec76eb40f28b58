-- ===== src/Cleansing/Steps/Dedupe/Newest.antt =====
-- Of the rows with one key, none is newer than the one that is kept.
use automated_outreach_proto.Prelude.{
  ◌≡◌, refl, sym, ap, ◌∙◌, inl, inr, arith, All, Among, Bool, true, false, Option, none, some, List,
  [], ◌∷◌, ok, err, ok-injective, ◌>>=◌, key_error, Bool-cases, >>=-eq-ok,
}
use automated_outreach_proto.Text.{Text, codes, text_eq}
use automated_outreach_proto.Text.Equality.{text_eq_iff}
use automated_outreach_proto.Datetime.{Datetime, IsoFormat, before_datetime}
use automated_outreach_proto.Dict.{Dict, get, put}
use automated_outreach_proto.Dict.Laws.{get-put}
use automated_outreach_proto.Json.{Json, str, index}
use automated_outreach_proto.Cleansing.PipelineIo.{Files, Row, as_row}
use automated_outreach_proto.Cleansing.Steps.Dedupe.{
  parsed_time, enriched_at, is_newer, keyed, replace_if, keep_newest, key_of, dedupe_row,
  dedupe_rows,
}

-- The first row was enriched when the second one was, or no earlier.
pub data NotOlder (iso : IsoFormat) (kept row : Row) : Type 0 where
  same : enriched_at iso kept ≡ enriched_at iso row → NotOlder iso kept row
  no_earlier :
      (t u : Datetime)
      → enriched_at iso kept ≡ ok t
      → enriched_at iso row ≡ ok u
      → before_datetime t u ≡ ok false
      → NotOlder iso kept row

before_datetime_asym :
    (t u : Datetime) → before_datetime t u ≡ ok true → before_datetime u t ≡ ok false
unfolding before_datetime
before_datetime_asym t u h = ground arith

before_datetime_trans :
    (t u v : Datetime)
    → before_datetime t u ≡ ok false
    → before_datetime u v ≡ ok false
    → before_datetime t v ≡ ok false
unfolding before_datetime
before_datetime_trans t u v h k = ground arith

NotOlder-trans :
    (iso : IsoFormat) (a b c : Row) → NotOlder iso a b → NotOlder iso b c → NotOlder iso a c
NotOlder-trans iso a b c (same e) (same e') = same (e ∙ e')
NotOlder-trans iso a b c (same e) (no_earlier t u p q h) = no_earlier t u (e ∙ p) q h
NotOlder-trans iso a b c (no_earlier t u p q h) (same e) = no_earlier t u p (sym e ∙ q) h
NotOlder-trans iso a b c (no_earlier t u p q h) (no_earlier v w p' q' h') =
    let e : v ≡ u = ok-injective (sym p' ∙ q) in
    no_earlier t w p q' (before_datetime_trans t u w h (rw (← e) h'))

-- The key that is added is no time.
enriched_at-keyed :
    (iso : IsoFormat) (key : Text) (row : Row)
    → enriched_at iso (keyed key row) ≡ enriched_at iso row
unfolding enriched_at index
enriched_at-keyed iso key row =
    ap (λ o. (elim o [ some v ↦ ok v | none ↦ err key_error ]) >>= parsed_time iso)
      (get-put (codes "normalized_key") (codes "enriched_at") (str key) row)

some-injective : {A : Type 0} {a b : A} → some a ≡ some b → a ≡ b
some-injective p = cc

-- What one row does to the rows that are kept.
data Changed (iso : IsoFormat) (key : Text) (row : Row) (best next : Dict Row) : Type 0 where
  replaced :
      next ≡ put key (keyed key row) best
      → ((old : Row) → get key best ≡ some old → NotOlder iso (keyed key row) old)
      → Changed iso key row best next
  left :
      (old : Row)
      → next ≡ best
      → get key best ≡ some old
      → NotOlder iso old row
      → Changed iso key row best next

module _ (iso : IsoFormat) (key : Text) (row : Row) (best next : Dict Row) where
  replace_if-Changed :
      (old : Row) (t u : Datetime) (newer : Bool)
      → get key best ≡ some old
      → enriched_at iso row ≡ ok t
      → enriched_at iso old ≡ ok u
      → before_datetime u t ≡ ok newer
      → replace_if newer key row best ≡ next
      → Changed iso key row best next
  replace_if-Changed old t u true g p q b h = replaced (sym h) λ old' g'.
      no_earlier t u (enriched_at-keyed iso key row ∙ p) (rw (← (some-injective (sym g ∙ g'))) q)
        (before_datetime_asym u t b)
  replace_if-Changed old t u false g p q b h = left old (sym h) g (no_earlier u t q p b)

  keep_newest-Changed :
      (o : Option Row)
      → get key best ≡ o
      → keep_newest iso key row best o ≡ ok next
      → Changed iso key row best next
  unfolding keep_newest is_newer
  keep_newest-Changed none g h = replaced (sym (ok-injective h)) λ old g'. cc
  keep_newest-Changed (some old) g h =
      let (newer, p, h1) = >>=-eq-ok (is_newer iso row old) _ h in
      let (t, q, h2) = >>=-eq-ok (enriched_at iso row) _ p in
      let (u, q', h3) = >>=-eq-ok (enriched_at iso old) _ h2 in
      replace_if-Changed old t u newer g q q' h3 (ok-injective h1)

  -- What stood for a key is replaced by no older row.
  Changed-keeps :
      Changed iso key row best next
      → (k : Text) (r : Row) → get k best ≡ some r
      → (r' : Row) × (get k next ≡ some r') × NotOlder iso r' r
  Changed-keeps (left old e g n) k r h = (r, rw e h, same refl)
  Changed-keeps (replaced e n) k r h = elim (Bool-cases (text_eq key k)) [
    | inl y ↦ (
      keyed key row,
      rw e (get-put key k (keyed key row) best ∙ rw y refl),
      n r (rw ((text_eq_iff key k).0 y) h),
    )
    | inr y ↦ (r, rw e (get-put key k (keyed key row) best ∙ rw y h), same refl)
  ]

  Changed-has :
      Changed iso key row best next → (r' : Row) × (get key next ≡ some r') × NotOlder iso r' row
  Changed-has (left old e g n) = (old, rw e g, n)
  Changed-has (replaced e n) = (
    keyed key row,
    rw e (get-put key key (keyed key row) best ∙ rw ((text_eq_iff key key).1 refl) refl),
    same (enriched_at-keyed iso key row),
  )

-- A row of the batch with this key, which was given it.
pub record IsChosen (f : Files) (all : List Json) (key : Text) (r : Row) : Type 0 where
  pub source : Row
  pub item : Json
  pub in_batch : Among item all
  pub is_row : as_row item ≡ ok source
  pub has_key : key_of f source ≡ ok key
  pub with_key : r ≡ keyed key source

-- For the item's key a row is kept that was enriched no earlier.
pub record IsCovered (f : Files) (best : Dict Row) (item : Json) : Type 0 where
  pub row : Row
  pub key : Text
  pub kept : Row
  pub is_row : as_row item ≡ ok row
  pub has_key : key_of f row ≡ ok key
  pub found : get key best ≡ some kept
  pub not_older : NotOlder f.backend.iso kept row

module _ (f : Files) where
  abbrev From : List Json → Dict Row → Type 0
  From all best = (k : Text) (r : Row) → get k best ≡ some r → IsChosen f all k r

  -- From one state of the loop to a later one.
  abbrev Later : Dict Row → Dict Row → Type 0
  Later best next =
      (k : Text) (r : Row)
      → get k best ≡ some r
      → (r' : Row) × (get k next ≡ some r') × NotOlder f.backend.iso r' r

  Later-trans : (a b c : Dict Row) → Later a b → Later b c → Later a c
  Later-trans a b c h h' k r g =
      let (r', g', n) = h k r g in
      let (r'', g'', n') = h' k r' g' in (r'', g'', NotOlder-trans f.backend.iso r'' r' r n' n)

  Changed-From :
      (all : List Json) (item : Json) (key : Text) (row : Row) (best next : Dict Row)
      → Among item all
      → as_row item ≡ ok row
      → key_of f row ≡ ok key
      → Changed f.backend.iso key row best next
      → From all best
      → From all next
  Changed-From all item key row best next a p q (left old e g n) h k r g' = h k r (rw (← e) g')
  Changed-From all item key row best next a p q (replaced e n) h k r g' =
      elim (Bool-cases (text_eq key k)) [
        | inl y ↦
            let chosen : keyed key row ≡ r =
              some-injective (sym (get-put key k (keyed key row) best ∙ rw y refl) ∙ rw (← e) g') in
            rw (← (text_eq_iff key k).0 y) (record {
              source = row;
              item = item;
              in_batch = a;
              is_row = p;
              has_key = q;
              with_key = sym chosen;
            })
        | inr y ↦ h k r (sym (get-put key k (keyed key row) best ∙ rw y refl) ∙ rw (← e) g')
      ]

  dedupe_row-Changed :
      (row : Row) (best next : Dict Row)
      → dedupe_row f row best ≡ ok next
      → (key : Text) × (key_of f row ≡ ok key) × Changed f.backend.iso key row best next
  unfolding dedupe_row
  dedupe_row-Changed row best next h =
      let (key, p, h1) = >>=-eq-ok (key_of f row) _ h in
      (key, p, keep_newest-Changed f.backend.iso key row best next (get key best) refl h1)

  dedupe_rows-IsCovered :
      (all xs : List Json) (best last : Dict Row)
      → All (λ x. Among x all) xs
      → From all best
      → dedupe_rows f xs best ≡ ok last
      → From all last × All (IsCovered f last) xs × Later best last
  unfolding dedupe_rows
  dedupe_rows-IsCovered all [] best last m h e =
      rw (← ok-injective e) (h, tt, λ k r g. (r, g, same refl))
  dedupe_rows-IsCovered all (x ∷ xs) best last m h e =
      let (row, p, e1) = >>=-eq-ok (as_row x) _ e in
      let (next, q, e2) = >>=-eq-ok (dedupe_row f row best) _ e1 in
      let (key, q', c) = dedupe_row-Changed row best next q in
      let (from, covered, later) =
        dedupe_rows-IsCovered all xs next last m.1
          (Changed-From all x key row best next m.0 p q' c h) e2 in
      let (r, g, n) = Changed-has f.backend.iso key row best next c in
      let (r', g', n') = later key r g in
      (
        from,
        (
          record {
            row = row;
            key = key;
            kept = r';
            is_row = p;
            has_key = q';
            found = g';
            not_older = NotOlder-trans f.backend.iso r' r row n' n;
          },
          covered,
        ),
        Later-trans best next last (Changed-keeps f.backend.iso key row best next c) later,
      )

Among-more :
    (x : Json) (all xs : List Json) → All (λ y. Among y all) xs → All (λ y. Among y (x ∷ all)) xs
Among-more x all [] m = tt
Among-more x all (y ∷ ys) m = (inr m.0, Among-more x all ys m.1)

All-Among : (xs : List Json) → All (λ x. Among x xs) xs
All-Among [] = tt
All-Among (x ∷ xs) = (inl refl, Among-more x xs xs (All-Among xs))

-- Where the loop over a batch returns, every kept row is a row of the batch with its key added, and
-- for every row of the batch a row with the same key is kept that was enriched at the same time or no
-- earlier: the choice is the newest row of each key, and no contact is lost.
pub dedupe_rows-IsChosen :
    (f : Files) (xs : List Json) (best : Dict Row)
    → dedupe_rows f xs [] ≡ ok best
    → ((k : Text) (r : Row) → get k best ≡ some r → IsChosen f xs k r) × All (IsCovered f best) xs
unfolding get
dedupe_rows-IsChosen f xs best h =
    let (from, covered, _) = dedupe_rows-IsCovered f xs xs [] best (All-Among xs) (λ k r g. cc) h in
    (from, covered)
