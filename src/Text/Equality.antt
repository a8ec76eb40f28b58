-- ===== src/Text/Equality.antt =====
-- What the tests on texts decide.
use automated_outreach_proto.Prelude.{◌≡◌, refl, ◌↔◌, true, [], ◌∷◌, ◌++◌, arith}
use automated_outreach_proto.Text.{Text, text_eq, starts_with}

pub text_eq_iff : (s t : Text) → (text_eq s t ≡ true) ↔ (s ≡ t)
text_eq_iff [] [] = (λ _. refl, λ _. refl)
text_eq_iff [] (y ∷ ys) = (λ h. cc, λ h. cc)
text_eq_iff (x ∷ xs) [] = (λ h. cc, λ h. cc)
text_eq_iff (x ∷ xs) (y ∷ ys) = ground (arith, text_eq_iff xs ys)

pub starts_with_sound : (s p : Text) → starts_with s p ≡ true → (r : Text) × (s ≡ p ++ r)
starts_with_sound s [] h = (s, refl)
starts_with_sound [] (y ∷ ys) h = cc
starts_with_sound (x ∷ xs) (y ∷ ys) h =
    let (r, e) = starts_with_sound xs ys (ground arith) in (r, ground arith)

pub starts_with-append : (p r : Text) → starts_with (p ++ r) p ≡ true
starts_with-append [] r = refl
starts_with-append (x ∷ xs) r = ground (arith, starts_with-append xs r)
