-- ===== src/Io.antt =====
-- Calls that change a state: a call returns its result with the new state, also where it raises.
use automated_outreach_proto.Prelude.{◌≡◌, refl, Exn, Result, ok, err}

abbrev pub Act : Type 0 → Type 0 → Type 0
Act S A = S → Result A × S

abbrev pub pure : {S A : Type 0} → A → Act S A
pure a s = (ok a, s)

abbrev pub raise : {S A : Type 0} → Exn → Act S A
raise e s = (err e, s)

-- A computation that leaves the state alone.
abbrev pub lift : {S A : Type 0} → Result A → Act S A
lift r s = (r, s)

abbrev pub change : {S : Type 0} → (S → S) → Act S (Unit {0})
change f s = (ok tt, f s)

abbrev pub and_then : {S A B : Type 0} → Result A × S → (A → Act S B) → Result B × S
and_then (ok a, s) k = k a s
and_then (err e, s) k = (err e, s)

infixl 5 ◌>>=◌ ◌>>◌
abbrev pub ◌>>=◌ : {S A B : Type 0} → Act S A → (A → Act S B) → Act S B
m >>= k = λ s. and_then (m s) k

abbrev pub ◌>>◌ : {S A B : Type 0} → Act S A → Act S B → Act S B
m >> n = m >>= λ _. n

-- A chain that returns has a first call that returned.
pub and_then-eq-ok :
    {S A B : Type 0} {y : B} (x : Result A × S) (k : A → Act S B)
    → (and_then x k).0 ≡ ok y
    → (a : A) × (x.0 ≡ ok a) × ((k a x.1).0 ≡ ok y) × ((and_then x k).1 ≡ (k a x.1).1)
and_then-eq-ok (ok a, s) k h = (a, refl, h, refl)
and_then-eq-ok (err e, s) k h = cc
