-- ===== src/Classifier/LambdaApi/Auth.antt =====
-- Who is served: authentication, the token cache, and the errors that leave the handler.
use automated_outreach_proto.Prelude.{
  ℕ, ◌≡◌, ◌≢◌, refl, sym, ap, ◌∙◌, ◌⊎◌, inl, inr, true, Option, none, some, [], ◌∷◌, ◌++◌, arith,
  Result, ok, err, ◌>>=◌, >>=-eq-ok, Bool-cases,
}
use automated_outreach_proto.Text.{Text, codes, starts_with}
use automated_outreach_proto.Text.Equality.{text_eq_iff, starts_with_sound}
use automated_outreach_proto.Dict.{Dict}
use automated_outreach_proto.Json.{Json, get_or}
use automated_outreach_proto.Classifier.LambdaApi.{
  Services, HttpResponse, Cache, bearer, expected_tokens, compare_digest, matching_secret,
  secret_for, authenticated_secret, request_headers, request_method, checked, with_tokens,
  authorize, handle, handler,
}

-- The name and the text are an entry of the tokens.
abbrev pub IsToken : Text → Text → Dict Text → Type 0
IsToken name token [] = ⊥
IsToken name token ((n, t) ∷ d) = ((name ≡ n) × (token ≡ t)) ⊎ IsToken name token d

matching_secret-IsToken :
    (supplied name : Text) (d : Dict Text)
    → matching_secret supplied d ≡ ok (some name)
    → IsToken name supplied d
unfolding matching_secret compare_digest
matching_secret-IsToken supplied name [] h = absurd (ground arith)
matching_secret-IsToken supplied name ((n, t) ∷ d) h =
    let (same, e, k) = >>=-eq-ok (compare_digest supplied t) _ h in
    elim (Bool-cases same) [
      | inl p ↦ inl (ground arith, (text_eq_iff supplied t).0 (ground arith))
      | inr p ↦ inr (matching_secret-IsToken supplied name d (ground arith))
    ]

-- The header says "Bearer " and one of the tokens.
abbrev pub Authenticated : Services → Dict Text → Cache → Type 0
Authenticated sv headers cache =
    (d : Dict Text) × (name : Text) × (token : Text) × ((expected_tokens sv cache).0 ≡ ok d)
    × IsToken name token d
    × (get_or (codes "authorization") [] headers ≡ bearer ++ token)

secret_for-bearer :
    (sv : Services) (token : Text) (cache : Cache)
    → secret_for sv (bearer ++ token) cache ≡ (
      (do d ← (expected_tokens sv cache).0; matching_secret token d),
      (expected_tokens sv cache).1,
    )
unfolding secret_for
secret_for-bearer sv token cache = refl

secret_for-starts :
    (sv : Services) (supplied : Text) (cache : Cache) (name : Text)
    → (secret_for sv supplied cache).0 ≡ ok (some name)
    → starts_with supplied bearer ≡ true
unfolding secret_for
secret_for-starts sv supplied cache name h = ground arith

authenticated_secret-name :
    (sv : Services) (headers : Dict Text) (cache : Cache) (name : Text)
    → (authenticated_secret sv headers cache).0 ≡ ok (some name)
    → Authenticated sv headers cache
unfolding authenticated_secret
authenticated_secret-name sv headers cache name h =
    let supplied : Text = get_or (codes "authorization") [] headers in
    let (token, e) =
      starts_with_sound supplied bearer (secret_for-starts sv supplied cache name h) in
    let h' : (secret_for sv (bearer ++ token) cache).0 ≡ ok (some name) =
      ap (λ s. (secret_for sv s cache).0) (sym e) ∙ h in
    let (d, q, k) =
      >>=-eq-ok (expected_tokens sv cache).0 (matching_secret token)
        (sym (ap (λ x. x.0) (secret_for-bearer sv token cache)) ∙ h') in
    (d, name, token, q, matching_secret-IsToken token name d k, e)

-- A successful look at the tokens leaves a cache from which they are read again.
expected_tokens_again :
    (sv : Services) (cache : Cache) {t : Text × Text} {ts : Dict Text}
    → (expected_tokens sv cache).0 ≡ ok (t ∷ ts)
    → (expected_tokens sv cache).1 ≡ some (t ∷ ts)
unfolding expected_tokens
expected_tokens_again sv cache h = ground arith

checked-served :
    (c : Result (Option Text)) (rest : Result HttpResponse) (r : HttpResponse)
    → checked c rest ≡ ok r
    → r.status ≢ 401
    → r.status ≢ 503
    → (name : Text) × (c ≡ ok (some name)) × (rest ≡ ok r)
unfolding checked
checked-served (err e) rest r h a b = absurd (ground arith)
checked-served (ok none) rest r h a b = absurd (ground arith)
checked-served (ok (some name)) rest r h a b = (name, refl, h)

with_tokens-served :
    (sv : Services) (headers : Dict Text) (cache : Cache) (tokens : Result (Dict Text))
    (rest : Result HttpResponse) (r : HttpResponse)
    → (expected_tokens sv cache).0 ≡ tokens
    → (with_tokens sv headers tokens (expected_tokens sv cache).1 rest).0 ≡ ok r
    → r.status ≢ 401
    → r.status ≢ 503
    → Authenticated sv headers cache × (rest ≡ ok r)
unfolding with_tokens
with_tokens-served sv headers cache (err e) rest r t h a b = absurd (ground arith)
with_tokens-served sv headers cache (ok []) rest r t h a b = absurd (ground arith)
with_tokens-served sv headers cache (ok (x ∷ ts)) rest r t h a b =
    let cache' = (expected_tokens sv cache).1 in
    let (name, e, k) = checked-served (authenticated_secret sv headers cache').0 rest r h a b in
    let (d, n, token, q, m, s) = authenticated_secret-name sv headers cache' name e in
    let again : (expected_tokens sv cache').0 ≡ (expected_tokens sv cache).0 =
      ap (λ c. (expected_tokens sv c).0) (expected_tokens_again sv cache t)
      ∙ unfold expected_tokens in sym t in
    ((d, n, token, sym again ∙ q, m, s), k)

handle-Authenticated :
    (sv : Services) (cache : Cache) (event : Dict Json) (method : Result Json)
    (headers : Result (Dict Text)) (started now : ℕ) (r : HttpResponse)
    → (handle sv cache event method headers started now).0 ≡ ok r
    → r.status ≢ 401
    → r.status ≢ 503
    → (hs : Dict Text) × (headers ≡ ok hs) × Authenticated sv hs cache
unfolding handle authorize
handle-Authenticated sv cache event (err e) headers started now r h a b = absurd (ground arith)
handle-Authenticated sv cache event (ok m) (err e) started now r h a b = absurd (ground arith)
handle-Authenticated sv cache event (ok m) (ok hs) started now r h a b =
    (hs, refl, (with_tokens-served sv hs cache (expected_tokens sv cache).0 _ r refl h a b).0)

-- A response other than 401 and 503 is given only to a request whose authorization header is
-- "Bearer " and one of the configured tokens.
pub handler-Authenticated :
    (sv : Services) (cache : Cache) (event : Dict Json) (started now : ℕ) (r : HttpResponse)
    → (handler sv cache event started now).0 ≡ ok r
    → r.status ≢ 401
    → r.status ≢ 503
    → (hs : Dict Text) × (request_headers sv event ≡ ok hs) × Authenticated sv hs cache
unfolding handler
handler-Authenticated sv cache event started now r =
    handle-Authenticated sv cache event (request_method event) (request_headers sv event) started
      now r
