-- ===== src/Salesforce/Sync/Failures.antt =====
-- No refused record is dropped: its job's failed records are in the bucket, and reported.
use automated_outreach_proto.Prelude.{
  ℕ, suc, ◌≡◌, ◌≢◌, refl, sym, ap, ◌∙◌, Option, none, some, List, [], ◌∷◌, map, length, arith,
  Among, All, inl, inr, Result, ok, err, ok-injective,
}
use automated_outreach_proto.Text.{Text, codes}
use automated_outreach_proto.Text.Equality.{text_eq_iff}
use automated_outreach_proto.Dict.{Dict, get, put}
use automated_outreach_proto.Dict.Laws.{get-put}
use automated_outreach_proto.Json.{Json, str, index, index_iff}
use automated_outreach_proto.Io.{lift, and_then-eq-ok}
use automated_outreach_proto.Cleansing.PipelineIo.{Files, Row, get_object}
use automated_outreach_proto.Cleansing.Steps.Suppress.{object_key, object_key-str}
use automated_outreach_proto.Salesforce.Http.{Net, text_of}
use automated_outreach_proto.Salesforce.Cloud.{Cloud, Lake}
use automated_outreach_proto.Salesforce.Auth.{
  Crypto, load_credentials, get_access_token, Credentials,
}
use automated_outreach_proto.Salesforce.Bulk.{Client, Session}
use automated_outreach_proto.Salesforce.Upsert.{Record, JobResult, upsert_records}
use automated_outreach_proto.Salesforce.Upsert.Jobs.{
  Jobs, no_job, a_job, IsComplete, upsert_records-Jobs,
}
use automated_outreach_proto.Salesforce.Sync.{
  Report, batch_size, external_id_field, failure_key, lead_records, store_step, store_failures,
  usage_metrics, sum_failed, environ, with_session, with_token, emit, stored, pushed, sync_records,
  handler, count_metrics,
}

-- The bucket holds the text under the key, unless a later job writes the same key.
abbrev pub Holds : (f : Files) → Text → Dict f.backend.Body → Text → Text → List JobResult → Type 0
Holds f run_id objects key csv later =
    All (λ (r : JobResult). failure_key run_id r.job_id ≢ key) later
    → get key objects ≡ some (f.encode csv)

-- What becomes of one job's failed records: their very text is in the bucket under a key of the list.
abbrev pub IsStored :
    (f : Files) → Text → List Text → Dict f.backend.Body → JobResult → List JobResult → Type 0
IsStored f run_id keys objects r later =
    (csv : Text)
    → r.failed_results_csv ≡ some csv
    → Among (failure_key run_id r.job_id) keys
      × Holds f run_id objects (failure_key run_id r.job_id) csv later

-- Of every job of the list, each with those after it.
abbrev pub AllStored :
    (f : Files) → Text → List Text → Dict f.backend.Body → List JobResult → Type 0
AllStored f run_id keys objects [] = Unit
AllStored f run_id keys objects (r ∷ rs) =
    IsStored f run_id keys objects r rs × AllStored f run_id keys objects rs

abbrev encoded : (f : Files) → Option Text → Option f.backend.Body
encoded f none = none
encoded f (some t) = some (f.encode t)

module _ (f : Files) (run_id : Text) where
  -- A key that the rest of the loop does not write keeps its object.
  step-keeps :
      (key : Text) (csv : Option Text) (rs : List JobResult) (k : Text)
      (objects : Dict f.backend.Body)
      → ((o : Dict f.backend.Body) → get k (store_failures f run_id rs o).1 ≡ get k o)
      → key ≢ k
      → get k (store_step f key csv (λ o. store_failures f run_id rs o) objects).1 ≡ get k objects
  unfolding store_step
  step-keeps key none rs k objects rest other = rest objects
  step-keeps key (some csv) rs k objects rest other =
      rest (put key (f.encode csv) objects)
      ∙ ground (arith, get-put key k (f.encode csv) objects, text_eq_iff key k, text_eq_iff k key)

  store-keeps :
      (rs : List JobResult) (k : Text) (objects : Dict f.backend.Body)
      → All (λ (r : JobResult). failure_key run_id r.job_id ≢ k) rs
      → get k (store_failures f run_id rs objects).1 ≡ get k objects
  unfolding store_failures
  store-keeps [] k objects h = refl
  store-keeps (r ∷ rs) k objects h =
      step-keeps (failure_key run_id r.job_id) r.failed_results_csv rs k objects
        (λ o. store-keeps rs k o h.1) h.0

  put-has :
      (key : Text) (v : f.backend.Body) (objects : Dict f.backend.Body)
      → get key (put key v objects) ≡ some v
  put-has key v objects = ground (arith, get-put key key v objects, text_eq_iff key key)

  AllStored-later :
      (key : Text) (keys : List Text) (objects : Dict f.backend.Body) (rs : List JobResult)
      → AllStored f run_id keys objects rs
      → AllStored f run_id (key ∷ keys) objects rs
  AllStored-later key keys objects [] h = tt
  AllStored-later key keys objects (r ∷ rs) h =
      (λ csv c. (inr (h.0 csv c).0, (h.0 csv c).1), AllStored-later key keys objects rs h.1)

  step-AllStored :
      (r : JobResult) (csv : Option Text) (rs : List JobResult) (objects : Dict f.backend.Body)
      → r.failed_results_csv ≡ csv
      → ((o : Dict f.backend.Body)
          → AllStored f run_id (store_failures f run_id rs o).0 (store_failures f run_id rs o).1 rs)
      → AllStored f run_id
          (store_step f
            (failure_key run_id r.job_id)
            csv
            (λ o. store_failures f run_id rs o)
            objects).0
          (store_step f
            (failure_key run_id r.job_id)
            csv
            (λ o. store_failures f run_id rs o)
            objects).1
          (r ∷ rs)
  unfolding store_step
  step-AllStored r none rs objects e rest = (λ text c. absurd (ground arith), rest objects)
  step-AllStored r (some csv) rs objects e rest =
      let key = failure_key run_id r.job_id in
      let after = put key (f.encode csv) objects in
      (
        λ text c. (
          inl refl,
          λ no_later.
              store-keeps rs key after no_later
              ∙ put-has key (f.encode csv) objects
              ∙ ap (encoded f) (sym e ∙ c),
        ),
        AllStored-later key _ _ rs (rest after),
      )

  store-AllStored :
      (rs : List JobResult) (objects : Dict f.backend.Body)
      → AllStored f run_id
          (store_failures f run_id rs objects).0
          (store_failures f run_id rs objects).1
          rs
  unfolding store_failures
  store-AllStored [] objects = tt
  store-AllStored (r ∷ rs) objects =
      step-AllStored r r.failed_results_csv rs objects refl (λ o. store-AllStored rs o)

-- The Salesforce client of a token and its instance.
abbrev pub client_of : Text × Text → Client
client_of t = record { instance_url = t.1; access_token = t.0 }

-- Where the results of the jobs come from: a batch without rows runs no job; any other is upserted
-- whole, as leads by their external id, with the token that the handler has got.
pub data Upserted (n : Net) (f : Files) (k : Crypto) (c : Cloud n f) (now : ℕ) (w : n.World)
    : List Row → List JobResult → Type 0 where
  no_rows : Upserted n f k c now w [] []
  upserted :
      (row : Row) (rows : List Row) (secret_id : Text) (creds : Credentials) (t : Text × Text)
      (results : List JobResult)
      → environ (c.getenv (codes "SALESFORCE_SECRET_ID")) ≡ ok secret_id
      → load_credentials n c.get_secret secret_id ≡ ok creds
      → (get_access_token n k creds now w).0 ≡ ok t
      → (upsert_records n
          (client_of t)
          (lead_records n (row ∷ rows))
          external_id_field
          (codes "Lead")
          batch_size
          (record { world = (get_access_token n k creds now w).1; api_usage = none })).0
        ≡ ok results
      → Upserted n f k c now w (row ∷ rows) results

-- What a sync that returns has done with the results of its jobs.
pub record IsKept (n : Net) (f : Files) (rows : List Row) (results : List JobResult) (r : Report)
    (objects : Dict f.backend.Body) : Type 0 where
  pub read_rows : r.records_in ≡ length rows
  pub complete : All IsComplete results
  pub jobs : r.jobs ≡ map (λ (x : JobResult). x.job_id) results
  pub failed : r.records_failed ≡ sum_failed results
  pub stored_failures : AllStored f (text_of n r.run_id) r.failure_keys objects results

-- The same, with the jobs that the batch was upserted by.
pub record IsSynced (n : Net) (f : Files) (k : Crypto) (c : Cloud n f) (now : ℕ) (w : n.World)
    (rows : List Row) (r : Report) (objects : Dict f.backend.Body) : Type 0 where
  pub results : List JobResult
  pub of_the_batch : Upserted n f k c now w rows results
  pub kept : IsKept n f rows results r objects

module _ (n : Net) (f : Files) (k : Crypto) (c : Cloud n f) where
  stored-IsKept :
      (bucket run_id : Json) (rows : List Row) (results : List JobResult) (usage : Option (ℕ × ℕ))
      (s : Lake n f) (r : Report)
      → All IsComplete results
      → (stored n f k c bucket run_id (length rows) results usage s).0 ≡ ok r
      → IsKept n f rows results r
          (stored n f k c bucket run_id (length rows) results usage s).1.objects
  unfolding stored
  stored-IsKept bucket run_id rows results usage s r complete h =
      let kept = store_failures f (text_of n run_id) results s.objects in
      let s1 : Lake n f = record s { objects = kept.1 } in
      let (more, _, h1, e1) = and_then-eq-ok (lift (usage_metrics usage) s1) _ h in
      let (_, _, h2, e2) =
        and_then-eq-ok (emit n f k c (count_metrics (length rows) (sum_failed results) more) s1) _
          h1 in
      let left : (stored n f k c bucket run_id (length rows) results usage s).1.objects ≡ kept.1 =
        ap (λ (x : Lake n f). x.objects) (e1 ∙ e2) in
      rw (left, ← ok-injective h2)
        (record {
          read_rows = refl;
          complete = complete;
          jobs = refl;
          failed = refl;
          stored_failures = store-AllStored f (text_of n run_id) results s.objects;
        })

  session-IsKept :
      (bucket run_id : Json) (rows : List Row) (objects : Dict f.backend.Body)
      (x : Result (List JobResult) × Session n) (r : Report)
      → ((results : List JobResult) → x.0 ≡ ok results → All IsComplete results)
      → (with_session n f k c x objects (stored n f k c bucket run_id (length rows))).0 ≡ ok r
      → (results : List JobResult) × (x.0 ≡ ok results)
        × IsKept n f rows results r
            (with_session n f k c x objects (stored n f k c bucket run_id (length rows))).1.objects
  session-IsKept bucket run_id rows objects (ok results, s) r complete h = (
    results,
    refl,
    stored-IsKept bucket run_id rows results s.api_usage _ r (complete results refl) h,
  )
  session-IsKept bucket run_id rows objects (err e, s) r complete h = cc

  Jobs-IsComplete :
      (client : Client) (object_name field : Text) {chunks : List (List Record)}
      {results : List JobResult}
      → Jobs n client object_name field chunks results
      → All IsComplete results
  Jobs-IsComplete client object_name field no_job = tt
  Jobs-IsComplete client object_name field (a_job chunk s r p d jobs) =
      (d, Jobs-IsComplete client object_name field jobs)

  length-lead_records : (rows : List Row) → length (lead_records n rows) ≡ length rows
  unfolding lead_records
  length-lead_records [] = refl
  length-lead_records (row ∷ rows) = ap suc (length-lead_records rows)

  pushed-IsKept :
      (bucket run_id : Json) (rows : List Row) (t : Text × Text) (s : Lake n f) (r : Report)
      → (pushed n f k c bucket run_id (lead_records n rows) t s).0 ≡ ok r
      → (results : List JobResult) × ((upsert_records n
            (client_of t)
            (lead_records n rows)
            external_id_field
            (codes "Lead")
            batch_size
            (record { world = s.world; api_usage = none })).0
          ≡ ok results)
        × IsKept n f rows results r
            (pushed n f k c bucket run_id (lead_records n rows) t s).1.objects
  unfolding pushed
  pushed-IsKept bucket run_id rows (access_token, instance_url) s r =
      rw (length-lead_records rows) (
        session-IsKept bucket run_id rows s.objects _ r (λ results p.
          let client : Client = client_of (access_token, instance_url) in
          let (chunks, _, _, jobs) =
            upsert_records-Jobs n client (lead_records n rows) external_id_field (codes "Lead")
              batch_size (record { world = s.world; api_usage = none }) results p in
          Jobs-IsComplete client (codes "Lead") external_id_field jobs))

  token-IsKept :
      (bucket run_id : Json) (rows : List Row) (objects : Dict f.backend.Body)
      (x : Result (Text × Text) × n.World) (r : Report)
      → (with_token n f k c x objects (pushed n f k c bucket run_id (lead_records n rows))).0 ≡ ok r
      → (t : Text × Text) × (results : List JobResult) × (x.0 ≡ ok t)
        × ((upsert_records n
              (client_of t)
              (lead_records n rows)
              external_id_field
              (codes "Lead")
              batch_size
              (record { world = x.1; api_usage = none })).0
            ≡ ok results)
        × IsKept n f rows results r
            (with_token n f k c x objects
              (pushed n f k c bucket run_id (lead_records n rows))).1.objects
  token-IsKept bucket run_id rows objects (ok t, w) r h =
      let (results, p, q) = pushed-IsKept bucket run_id rows t _ r h in (t, results, refl, p, q)
  token-IsKept bucket run_id rows objects (err e, w) r h = cc

  records-IsSynced :
      (now : ℕ) (bucket run_id : Json) (rows : List Row) (s : Lake n f) (r : Report)
      → (sync_records n f k c now bucket run_id (lead_records n rows) s).0 ≡ ok r
      → IsSynced n f k c now s.world rows r
          (sync_records n f k c now bucket run_id (lead_records n rows) s).1.objects
  unfolding sync_records lead_records
  records-IsSynced now bucket run_id [] s r h = rw (← ok-injective h) (record {
    results = [];
    of_the_batch = no_rows;
    kept = record {
      read_rows = refl;
      complete = tt;
      jobs = refl;
      failed = refl;
      stored_failures = tt;
    };
  })
  records-IsSynced now bucket run_id (row ∷ rows) s r h =
      let (secret_id, p, h1, e1) =
        and_then-eq-ok (lift (environ (c.getenv (codes "SALESFORCE_SECRET_ID"))) s) _ h in
      let (creds, q, h2, e2) =
        and_then-eq-ok (lift (load_credentials n c.get_secret secret_id) s) _ h1 in
      let (t, results, got, ran, kept) =
        token-IsKept bucket run_id (row ∷ rows) s.objects (get_access_token n k creds now s.world) r
          h2 in
      record {
        results = results;
        of_the_batch = upserted row rows secret_id creds t results p q got ran;
        kept = rw (ap (λ (x : Lake n f). x.objects) (e1 ∙ e2)) kept;
      }

-- A sync that returns has read the rows of the file under the event's key and reports their number.
-- The jobs it reports are those of the upsert of these rows, every one of them complete, and none is
-- run where there are no rows. For each job whose failed records Salesforce gave as a text, the
-- reported keys name the file of that run and job, and the bucket holds that very text there, encoded,
-- unless a later job of the same run has the same id.
pub handler-IsSynced :
    (n : Net) (f : Files) (k : Crypto) (c : Cloud n f) (now : ℕ) (event : Dict Json) (s : Lake n f)
    (r : Report)
    → (handler n f k c now event s).0 ≡ ok r
    → (key : Text) × (body : f.backend.Body) × (rows : List Row) × (get (codes "key") event
        ≡ some (str key))
      × (get_object f s.objects key ≡ ok body)
      × (c.read_parquet body ≡ ok rows)
      × IsSynced n f k c now s.world rows r (handler n f k c now event s).1.objects
unfolding handler
handler-IsSynced n f k c now event s r h =
    let (bucket, _, h1, e1) = and_then-eq-ok (lift (index (codes "bucket") event) s) _ h in
    let (run_id, _, h2, e2) = and_then-eq-ok (lift (index (codes "run_id") event) s) _ h1 in
    let (key, p3, h3, e3) = and_then-eq-ok (lift (index (codes "key") event) s) _ h2 in
    let (name, p4, h4, e4) = and_then-eq-ok (lift (object_key key) s) _ h3 in
    let (body, p5, h5, e5) = and_then-eq-ok (lift (get_object f s.objects name) s) _ h4 in
    let (rows, p6, h6, e6) = and_then-eq-ok (lift (c.read_parquet body) s) _ h5 in
    (
      name,
      body,
      rows,
      (index_iff (codes "key") event (str name)).0 (p3 ∙ ap ok (object_key-str key name p4)),
      p5,
      p6,
      rw (ap (λ (x : Lake n f). x.objects) (e1 ∙ e2 ∙ e3 ∙ e4 ∙ e5 ∙ e6))
          (records-IsSynced n f k c now bucket run_id rows s r h6),
    )
