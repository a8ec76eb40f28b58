-- ===== src/Salesforce/Bulk/Retry.antt =====
-- How often a request is sent, how long it waits, and how it ends.
use automated_outreach_proto.Prelude.{
  ℕ, zero, suc, ◌+◌, ◌^◌, ◌≤◌, ◌<◌, ◌≡◌, refl, sym, ap, ◌∙◌, true, ◌&&◌, Option, arith, ltb, leb,
  Exn, salesforce_error, Result, ok, err, Bool-cases, inl, inr,
}
use automated_outreach_proto.Text.{Text}
use automated_outreach_proto.Salesforce.Http.{Bytes, HttpRequest, HttpResponse, Net}
use automated_outreach_proto.Salesforce.Bulk.{
  Client, Session, max_attempts, is_retryable, record_usage, pause, judged, received, attempts,
  request_of, request,
}
use native.Mathlib.Nat.{pow-suc}

-- Two meters on the network: the requests that were sent, and the seconds that were slept.
pub record Meter (n : Net) : Type 0 where
  pub sent : n.World → ℕ
  pub slept : n.World → ℕ
  pub sent-transport : (req : HttpRequest) (w : n.World) → sent (n.transport req w).1 ≡ suc (sent w)
  pub slept-transport : (req : HttpRequest) (w : n.World) → slept (n.transport req w).1 ≡ slept w
  pub sent-sleep : (k : ℕ) (w : n.World) → sent (n.sleep k w) ≡ sent w
  pub slept-sleep : (k : ℕ) (w : n.World) → slept (n.sleep k w) ≡ slept w + k

-- How a request ends after so many retries: with a response below 400; with an error of its status,
-- and if that is 429 or 503 the attempts are used up; or with what the transport raised.
pub data Ended (n : Net) (req : HttpRequest) (retries : ℕ) : Result HttpResponse → Type 0 where
  answered : (r : HttpResponse) → r.status < 400 → Ended n req retries (ok r)
  refused :
      (status : ℕ) (text : Text)
      → 400 ≤ status
      → (is_retryable status ≡ true → suc retries ≡ max_attempts)
      → Ended n req retries (err (salesforce_error status text))
  broken : (e : Exn) (w : n.World) → (n.transport req w).0 ≡ err e → Ended n req retries (err e)

pub record Tried (n : Net) (m : Meter n) (req : HttpRequest) (attempt : ℕ) (before after : n.World)
    (result : Result HttpResponse) : Type 0 where
  pub retries : ℕ
  pub within : suc retries ≤ max_attempts
  pub not_before : attempt ≤ retries
  pub counted : m.sent after + attempt ≡ m.sent before + suc retries
  pub waited : m.slept after + 2 ^ attempt ≡ m.slept before + 2 ^ retries
  pub ended : Ended n req retries result

module _ (n : Net) (m : Meter n) (req : HttpRequest) where
  -- The attempt that is the last one.
  stopped-Tried :
      (attempt : ℕ) (before after : n.World) (result : Result HttpResponse)
      → suc attempt ≤ max_attempts
      → m.sent after ≡ suc (m.sent before)
      → m.slept after ≡ m.slept before
      → Ended n req attempt result
      → Tried n m req attempt before after result
  stopped-Tried attempt before after result h c w e = record {
    retries = attempt;
    within = h;
    not_before = omega arith;
    counted = omega arith;
    waited = omega arith;
    ended = e;
  }

  -- An attempt, a pause, and what follows.
  retried-Tried :
      (attempt : ℕ) (before middle after : n.World) (result : Result HttpResponse)
      → m.sent middle ≡ suc (m.sent before)
      → m.slept middle ≡ m.slept before + 2 ^ attempt
      → Tried n m req (suc attempt) middle after result
      → Tried n m req attempt before after result
  retried-Tried attempt before middle after result c w t = record {
    retries = t.retries;
    within = t.within;
    not_before = omega (arith, t.not_before);
    counted = omega (arith, t.counted);
    waited = omega (arith, t.waited, pow-suc 2 attempt);
    ended = t.ended;
  }

  judged-Tried :
      (attempt : ℕ) (before : n.World) (again : ℕ → Session n → Result HttpResponse × Session n)
      (r : HttpResponse) (s : Session n)
      → suc attempt ≤ max_attempts
      → m.sent s.world ≡ suc (m.sent before)
      → m.slept s.world ≡ m.slept before
      → (ltb (suc attempt) max_attempts ≡ true
          → (t : Session n)
          → Tried n m req
              (suc attempt)
              t.world
              (again (suc attempt) t).1.world
              (again (suc attempt) t).0)
      → Tried n m req attempt before
          (judged n attempt again r s).1.world
          (judged n attempt again r s).0
  unfolding judged
  judged-Tried attempt before again r s h c w later =
      elim (Bool-cases (is_retryable r.status && ltb (suc attempt) max_attempts)) [
        | inl go ↦ rw go (
            retried-Tried attempt before (pause n (2 ^ attempt) s).world _ _
              (unfold pause in omega (arith, m.sent-sleep (2 ^ attempt) s.world))
              (unfold pause in omega (arith, m.slept-sleep (2 ^ attempt) s.world))
              (later (ground arith) (pause n (2 ^ attempt) s)))
        | inr stop ↦ rw stop (elim (Bool-cases (leb 400 r.status)) [
          | inl bad ↦ rw bad (
              stopped-Tried attempt before s.world _ h c w
                (refused r.status (n.decode_replace r.body) (ground arith) (λ y. ground arith)))
          | inr good ↦
              rw good (stopped-Tried attempt before s.world _ h c w (answered r (ground arith)))
        ])
      ]

  received-Tried :
      (attempt : ℕ) (before : n.World) (usage : Option (ℕ × ℕ))
      (again : ℕ → Session n → Result HttpResponse × Session n) (x : Result HttpResponse × n.World)
      → n.transport req before ≡ x
      → suc attempt ≤ max_attempts
      → (ltb (suc attempt) max_attempts ≡ true
          → (t : Session n)
          → Tried n m req
              (suc attempt)
              t.world
              (again (suc attempt) t).1.world
              (again (suc attempt) t).0)
      → Tried n m req attempt before
          (received n attempt again usage x).1.world
          (received n attempt again usage x).0
  unfolding received
  received-Tried attempt before usage again (err e, w) x h later =
      stopped-Tried attempt before w (err e) h
        (ap (λ y. m.sent y.1) (sym x) ∙ m.sent-transport req before)
        (ap (λ y. m.slept y.1) (sym x) ∙ m.slept-transport req before)
        (broken e before (ap (λ y. y.0) x))
  received-Tried attempt before usage again (ok r, w) x h later =
      judged-Tried attempt before again r _ h
        (unfold record_usage in ap (λ y. m.sent y.1) (sym x) ∙ m.sent-transport req before)
        (unfold record_usage in ap (λ y. m.slept y.1) (sym x) ∙ m.slept-transport req before) later

  attempts-Tried :
      (fuel attempt : ℕ) (s : Session n)
      → suc fuel + attempt ≡ max_attempts
      → Tried n m req attempt s.world
          (attempts n req (suc fuel) attempt s).1.world
          (attempts n req (suc fuel) attempt s).0
  unfolding attempts
  attempts-Tried zero attempt s e =
      received-Tried attempt s.world s.api_usage _ _ refl (omega arith)
        (λ l t. absurd (ground arith))
  attempts-Tried (suc fuel) attempt s e =
      received-Tried attempt s.world s.api_usage _ _ refl (omega arith)
        (λ l t. attempts-Tried fuel (suc attempt) t (omega arith))

-- Every request of the client ends: it is sent once and retried four times at most, the waits in
-- between double from one second, and it returns a response below 400, raises the error of a status
-- from 400 on, for 429 and 503 only after the last attempt, or raises what the transport raised.
pub request-Tried :
    (n : Net) (m : Meter n) (c : Client) (method path : Text) (body : Option Bytes)
    (content_type : Text) (s : Session n)
    → Tried n m
        (request_of c method path body content_type)
        0
        s.world
        (request n c method path body content_type s).1.world
        (request n c method path body content_type s).0
unfolding request
request-Tried n m c method path body content_type s =
    attempts-Tried n m (request_of c method path body content_type) 4 0 s (omega arith)
