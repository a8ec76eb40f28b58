-- ===== src/Salesforce/InboundGap/Run.antt =====
-- handler of src/salesforce/inbound_gap.py.
use automated_outreach_proto.Prelude.{ℕ, Option, none, some, [], ◌∷◌, Result, ok, err, type_error}
use automated_outreach_proto.Text.{Text, codes}
use automated_outreach_proto.Datetime.{Datetime, IsoFormat}
use automated_outreach_proto.Dict.{Dict, get}
use automated_outreach_proto.Json.{Json, str}
use automated_outreach_proto.Io.{Act, pure, lift, ◌>>=◌, ◌>>◌}
use automated_outreach_proto.Cleansing.PipelineIo.{Files}
use automated_outreach_proto.Salesforce.Http.{Net}
use automated_outreach_proto.Salesforce.Cloud.{Cloud}
use automated_outreach_proto.Salesforce.Auth.{Crypto, load_credentials, get_access_token}
use automated_outreach_proto.Salesforce.Sync.{environ}
use automated_outreach_proto.Salesforce.InboundGap.{
  GapReport, never_inbound, gap_of, gap_since, gap_metric, latest_inbound_at,
}

abbrev pub inbound_namespace : Text
inbound_namespace = codes "Outreach/Inbound"

-- The time of the event, where it has one.
unfoldable pub event_time : IsoFormat → Datetime → Option Json → Result Datetime
event_time iso now none = ok now
event_time iso now (some (str s)) = iso.parse s
event_time iso now (some _) = err type_error

module _ (n : Net) (f : Files) (k : Crypto) (c : Cloud n f) (iso : IsoFormat)
    (zone_info : Text → Result (Datetime → ℕ)) where
  -- What follows the answer on the newest message.
  unfoldable pub reported : Datetime → Option Datetime → Act n.World GapReport
  reported as_of none = pure never_inbound
  reported as_of (some last_inbound) = do
    gap ← lift (gap_since n c.getenv zone_info last_inbound as_of)
    c.put_metrics inbound_namespace (gap_metric gap ∷ [])
    pure (gap_of gap)

  unfoldable pub handler : Datetime → ℕ → Dict Json → Act n.World GapReport
  handler now seconds event = do
    as_of ← lift (event_time iso now (get (codes "as_of") event))
    secret_id ← lift (environ (c.getenv (codes "SALESFORCE_SECRET_ID")))
    creds ← lift (load_credentials n c.get_secret secret_id)
    token ← get_access_token n k creds seconds
    last_inbound ← latest_inbound_at n iso token.0 token.1
    reported as_of last_inbound
