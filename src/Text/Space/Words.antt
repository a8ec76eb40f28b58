-- ===== src/Text/Space/Words.antt =====
-- Substituting a separator for the runs between words and stripping is splitting and joining.
use automated_outreach_proto.Prelude.{
  ℕ, ◌≡◌, refl, sym, ap, ◌∙◌, ◌≢◌, inl, inr, Bool, true, false, List, [], ◌∷◌, ◌++◌, arith, All,
  Bool-cases,
}
use mathlib.Core.List.{append_assoc, append-nil}
use automated_outreach_proto.Text.{Text, join}
use automated_outreach_proto.Text.Space.{keep, close, rstrip_of, lstrip_of, split_from, sub_runs}

-- `p` marks what lies between words, `w` is the white space that `strip` removes: `r` is white
-- space, and a character of a word is not.
module _ (w p : ℕ → Bool) (r : ℕ) (w-r : w r ≡ true)
    (w-word : (c : ℕ) → p c ≡ false → w c ≡ false) where
  IsWord : Text → Type 0
  IsWord = All (λ c. p c ≡ false)

  rstrip-word-nil : (u : Text) → IsWord u → rstrip_of w u ≡ u
  unfolding rstrip_of IsWord
  rstrip-word-nil [] h = refl
  rstrip-word-nil (c ∷ []) h = ground (arith, w-word c)
  rstrip-word-nil (c ∷ d ∷ u) h = rw (rstrip-word-nil (d ∷ u) h.1)

  -- What `rstrip` leaves of a word, a separator and a text of which it leaves the second argument.
  glue : Text → Text → Text
  glue u [] = u
  glue u (d ∷ t) = u ++ (r ∷ d ∷ t)

  glue-cons : (c : ℕ) (d : ℕ) (u t : Text) → keep w c (glue (d ∷ u) t) ≡ glue (c ∷ d ∷ u) t
  unfolding keep glue
  glue-cons c d u [] = refl
  glue-cons c d u (e ∷ t) = refl

  glue-one : (c : ℕ) (t : Text) → w c ≡ false → keep w c (keep w r t) ≡ glue (c ∷ []) t
  unfolding keep glue
  glue-one c [] h = ground arith
  glue-one c (d ∷ t) h = refl

  rstrip-word :
      (c : ℕ) (u t : Text)
      → IsWord (c ∷ u)
      → rstrip_of w (c ∷ u ++ (r ∷ t)) ≡ glue (c ∷ u) (rstrip_of w t)
  unfolding rstrip_of IsWord
  rstrip-word c [] t h = glue-one c (rstrip_of w t) (w-word c h.0)
  rstrip-word c (d ∷ u) t h = rw (rstrip-word d u t h.1) (glue-cons c d u (rstrip_of w t))

  IsFull : Text → Type 0
  IsFull u = u ≢ []

  close-IsFull : (cur : Text) (ws : List Text) → All IsFull ws → All IsFull (close cur ws)
  unfolding close IsFull
  close-IsFull [] ws h = h
  close-IsFull (c ∷ cur) ws h = ((λ e. cc), h)

  split-IsFull : (cur s : Text) → All IsFull (split_from p cur s)
  unfolding split_from
  split-IsFull cur [] = close-IsFull cur [] tt
  split-IsFull cur (c ∷ s) = elim (Bool-cases (p c)) [
    | inl e ↦ rw (e, split_from) (close-IsFull cur (split_from p [] s) (split-IsFull [] s))
    | inr n ↦ rw (n, split_from) (split-IsFull (cur ++ (c ∷ [])) s)
  ]

  join-glue :
      (u : Text) (ws : List Text)
      → All IsFull ws
      → join (r ∷ []) (u ∷ ws) ≡ glue u (join (r ∷ []) ws)
  unfolding glue IsFull
  join-glue u [] h = refl
  join-glue u ([] ∷ ws) h = absurd (h.0 refl)
  join-glue u ((c ∷ v) ∷ []) h = refl
  join-glue u ((c ∷ v) ∷ x ∷ ws) h = refl

  IsWord-snoc : (u : Text) (c : ℕ) → IsWord u → p c ≡ false → IsWord (u ++ (c ∷ []))
  unfolding IsWord
  IsWord-snoc [] c h e = (e, tt)
  IsWord-snoc (d ∷ u) c h e = (h.0, IsWord-snoc u c h.1 e)

  is_nil : Text → Bool
  is_nil [] = true
  is_nil (c ∷ u) = false

  rstrip-sub_runs :
      (cur s : Text)
      → IsWord cur
      → rstrip_of w (cur ++ sub_runs p r (is_nil cur) s) ≡ join (r ∷ []) (split_from p cur s)
  unfolding is_nil sub_runs split_from close IsWord
  rstrip-sub_runs [] [] h = unfold rstrip_of in refl
  rstrip-sub_runs (a ∷ u) [] h = rw append-nil (rstrip-word-nil (a ∷ u) h)
  rstrip-sub_runs [] (c ∷ s) h = elim (Bool-cases (p c)) [
    | inl e ↦ rw e (rstrip-sub_runs [] s h)
    | inr n ↦ rw n (rstrip-sub_runs (c ∷ []) s (n, tt))
  ]
  rstrip-sub_runs (a ∷ u) (c ∷ s) h = elim (Bool-cases (p c)) [
    | inl e ↦ rw e (
        rstrip-word a u (sub_runs p r true s) h
        ∙ ap (glue (a ∷ u)) (rstrip-sub_runs [] s tt)
        ∙ sym (join-glue (a ∷ u) (split_from p [] s) (split-IsFull [] s)))
    | inr n ↦ rw n (
        ap (rstrip_of w) (sym (append_assoc (a ∷ u) (c ∷ []) (sub_runs p r false s)))
        ∙ rstrip-sub_runs (a ∷ u ++ (c ∷ [])) s (IsWord-snoc (a ∷ u) c h n))
  ]

  -- Behind `lstrip` a leading separator is gone, as if the text began inside a run.
  lstrip-sub_runs : (s : Text) → lstrip_of w (sub_runs p r false s) ≡ sub_runs p r true s
  unfolding lstrip_of sub_runs
  lstrip-sub_runs [] = refl
  lstrip-sub_runs (c ∷ s) = elim (Bool-cases (p c)) [
    | inl e ↦ rw (e, w-r) (lstrip_all s)
    | inr n ↦ rw (n, w-word c n) refl
  ]
    where
      lstrip_all : (t : Text) → lstrip_of w (sub_runs p r true t) ≡ sub_runs p r true t
      lstrip_all [] = refl
      lstrip_all (d ∷ t) = elim (Bool-cases (p d)) [
        | inl e ↦ rw e (lstrip_all t)
        | inr n ↦ rw (n, w-word d n) refl
      ]

  -- `re.sub` followed by `strip` joins the words.
  pub strip-sub_runs :
      (s : Text)
      → rstrip_of w (lstrip_of w (sub_runs p r false s)) ≡ join (r ∷ []) (split_from p [] s)
  unfolding IsWord is_nil
  strip-sub_runs s = rw lstrip-sub_runs (rstrip-sub_runs [] s tt)

  pub split-words-IsFull : (s : Text) → All (λ u. u ≢ []) (split_from p [] s)
  unfolding IsFull
  split-words-IsFull s = split-IsFull [] s

  split_from-word :
      (cur u s : Text) → IsWord u → split_from w cur (u ++ s) ≡ split_from w (cur ++ u) s
  unfolding split_from IsWord
  split_from-word cur [] s h = rw append-nil
  split_from-word cur (c ∷ u) s h = rw (w-word c h.0) (
      split_from-word (cur ++ (c ∷ [])) u s h.1
      ∙ ap (λ x. split_from w x s) (append_assoc cur (c ∷ []) u))

  -- Splitting at white space undoes joining by it.
  split-join :
      (ws : List Text) → All (λ u. IsWord u × IsFull u) ws → split_from w [] (join (r ∷ []) ws) ≡ ws
  unfolding split_from close IsFull
  split-join [] h = refl
  split-join ([] ∷ ws) h = absurd (h.0.1 refl)
  split-join ((c ∷ u) ∷ []) h =
      ap (split_from w []) (sym (append-nil (c ∷ u))) ∙ split_from-word [] (c ∷ u) [] h.0.0
  split-join ((c ∷ u) ∷ v ∷ ws) h =
      split_from-word [] (c ∷ u) (r ∷ join (r ∷ []) (v ∷ ws)) h.0.0
      ∙ rw w-r (ap (λ x. (c ∷ u) ∷ x) (split-join (v ∷ ws) h.1))

  close-words :
      (cur : Text) (ws : List Text) → IsWord cur → All IsWord ws → All IsWord (close cur ws)
  unfolding close
  close-words [] ws h k = k
  close-words (c ∷ cur) ws h k = (h, k)

  split-words : (cur s : Text) → IsWord cur → All IsWord (split_from p cur s)
  unfolding split_from
  split-words cur [] h = close-words cur [] h tt
  split-words cur (c ∷ s) h = elim (Bool-cases (p c)) [
    | inl e ↦
        rw (e, split_from)
          (close-words cur (split_from p [] s) h (split-words [] s (unfold IsWord in tt)))
    | inr n ↦ rw (n, split_from) (split-words (cur ++ (c ∷ [])) s (IsWord-snoc cur c h n))
  ]

  All-both : (ws : List Text) → All IsWord ws → All IsFull ws → All (λ u. IsWord u × IsFull u) ws
  All-both [] h k = tt
  All-both (u ∷ ws) h k = ((h.0, k.0), All-both ws h.1 k.1)

  -- The words that `split` finds in the joined text are those of the source.
  pub split-join-words :
      (s : Text) → split_from w [] (join (r ∷ []) (split_from p [] s)) ≡ split_from p [] s
  unfolding IsWord
  split-join-words s =
      split-join (split_from p [] s)
        (All-both (split_from p [] s) (split-words [] s tt) (split-IsFull [] s))
