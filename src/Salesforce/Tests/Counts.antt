-- ===== src/Salesforce/Tests/Counts.antt =====
-- A run of the reconciliation: one contact in the lake, in one file twice, and one lead.
use automated_outreach_proto.Unicode.{encode, utf8_bytes}
use automated_outreach_proto.Json.{index, get_or, to_str}
use automated_outreach_proto.Dict.{get, put}
use automated_outreach_proto.Salesforce.Bulk.{
  request, attempts, received, judged, record_usage, query_count,
}
use automated_outreach_proto.Salesforce.Http.{json_of, subscript, header, to_int}
use automated_outreach_proto.Salesforce.Auth.{
  load_credentials, get_access_token, build_assertion, b64url, token_of,
}
use automated_outreach_proto.Text.Space.{rstrip_of, keep}
use automated_outreach_proto.Cleansing.PipelineIo.{get_object, list_keys, list_pages}
use automated_outreach_proto.Salesforce.Reconcile.{
  update_ids, file_ids, lake_ids, drift_percent, counted, count_lake, published,
}
use automated_outreach_proto.Prelude.{◌≡◌, ◌↔◌, refl, true, some, List, [], ◌∷◌, ok, pos}
use automated_outreach_proto.Text.{codes}
use automated_outreach_proto.Json.{Json, null, int, obj, end, field}
use automated_outreach_proto.Cleansing.PipelineIo.{Objects}
use automated_outreach_proto.Cleansing.Tests.Steps.{files}
use automated_outreach_proto.Salesforce.Http.{Net}
use automated_outreach_proto.Salesforce.Cloud.{percent}
use automated_outreach_proto.Salesforce.Cloud as Cloud
use automated_outreach_proto.Salesforce.Tests.{Wire, net_of, plain, answers, crypto}
use automated_outreach_proto.Salesforce.Reconcile.{IdColumn, Report, handler}
use automated_outreach_proto.Salesforce.Reconcile.Distinct.{IsCount}
use automated_outreach_proto.Salesforce.Reconcile.Drift.{IsAsked, is_zero_value, handler-drift}

-- The secret, the token, and the number of the leads in the place of the job.
abbrev net : Net
net = net_of (count_in answers)
  where
    count_in : List Json → List Json
    count_in (a ∷ b ∷ rest) = a ∷ b ∷ obj (field (codes "totalSize") (int 1) end) ∷ []
    count_in xs = xs

abbrev cloud : Cloud.Cloud net files
cloud = record {
  get_secret = λ _. ok [];
  getenv = λ s. some s;
  put_metrics = λ _ _ w. (ok tt, w);
  read_parquet = λ _. ok [];
}

abbrev column : IdColumn files
column = λ body. ok (some (codes "a") ∷ some (codes "a") ∷ [])

abbrev lake : Objects files
lake = (codes "staging/cleansed/r.parquet", null) ∷ (codes "other", null) ∷ []

abbrev world : Wire
world = record { left = plain 200 (0 ∷ []) ∷ plain 200 (0 ∷ 0 ∷ []) ∷ []; sent = 0; slept = 0 }

abbrev report : Report
report = record { lake_count = 1; salesforce_count = pos 1; drift = percent 0 1 }

ran : (handler net files crypto cloud column 5 lake world).0 ≡ ok report
unfolding handler count_lake list_keys list_pages lake_ids file_ids update_ids counted query_count
    request attempts received judged record_usage json_of subscript header to_int load_credentials
    get_access_token build_assertion b64url token_of rstrip_of keep get_object drift_percent
    published encode utf8_bytes index get_or to_str get put
ran = refl

handler-drift_example :
    IsCount files column lake 1
    × IsAsked net files crypto cloud 5 world (pos 1)
    × ((is_zero_value (percent 0 1) ≡ true) ↔ (pos 1 ≡ pos 1))
handler-drift_example = handler-drift net files crypto cloud column 5 lake world report ran
