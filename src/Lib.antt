-- ===== src/Lib.antt =====
-- Automated outreach: what an inbound reply means, and who must never be written to again.
--
-- The program's parts and the files that model them. Paths are from the repository's root.
--
-- Guardrails (src/guardrails). Canonical: `fold` and `canonicalize` of src/guardrails/text.py;
-- EditDistance: `within_edit_distance_1` of the same file; Rules: the tables, the matchers
-- (`_match_opt_out`, `_match_legal`, `_match_hostility`, `_match_bounce_or_autoreply`,
-- `_auto_reply_count`) and `evaluate` of src/guardrails/rules.py, under their names without the
-- underscore. The regular expressions are values of Text.Regex, matched by backtracking from the left
-- with the alternatives and the greed of Python's `re`.
--
-- Classifier (src/classifier). Buckets: the tables and `bucket_intent` of
-- src/classifier/buckets.py; Handler: `handoff_intents`, `fail_closed`, `_thread`, `_response` and
-- `classify` of src/classifier/handler.py; LambdaApi: the Function URL handler of
-- src/classifier/lambda_api.py, whose module variable `_token_cache` is state that goes in and
-- comes out. A handler asks the guardrails first and the buckets after them.
--
-- Cleansing (src/cleansing). Normalize: the forms of src/cleansing/normalize.py, which the opt-out
-- list uses too; PipelineIo: the files of rows of src/cleansing/pipeline_io.py; Steps.Suppress: the
-- handler of src/cleansing/steps/suppress.py, which asks a new store about every row of a batch;
-- Steps.Normalize: the handler of src/cleansing/steps/normalize.py. Identity: src/cleansing/identity.py;
-- Steps.SchemaValidate, Steps.Validate, Steps.Dedupe, Steps.ExternalId and Steps.WriteStaging: the
-- handlers of schema_validate.py, validate.py, dedupe.py, assign_external_id.py and write_staging.py of
-- src/cleansing/steps, over what Steps.Batch holds for them. Every step reads the file that the one
-- before it wrote.
--
-- Suppression (src/suppression). Store: `SuppressionStore` of src/suppression/store.py. Its state
-- is the bucket's objects, the cache and the time of the last load; an operation returns its
-- result and the new state, also where it raises. Default: the functions of
-- src/suppression/__init__.py, on one store of the process. Api: the handler of src/suppression/api.py, with
-- a new store for each request.
--
-- Salesforce (src/salesforce). Http: the requests and responses of src/salesforce/http.py and what the
-- clients take from the network; Bulk: `BulkApiClient` of src/salesforce/bulk.py; Upsert: `JobResult`,
-- `_to_csv` and `upsert_records` of the same file; Auth: src/salesforce/auth.py; Sync: the handler of
-- src/salesforce/sync.py, whose state is the network and the bucket's objects; InboundGap and
-- InboundGap.Run: `business_seconds`, `latest_inbound_at` and the handler of
-- src/salesforce/inbound_gap.py, with times in microseconds; Reconcile: the handler of
-- src/salesforce/reconcile.py. Cloud: what the jobs take from AWS besides
-- the bucket. Io: calls that change a state, with the new state also where they raise.
--
-- TextTorrent (src/texttorrent). Wire: the parts of src/texttorrent/client.py that build a request and
-- read an answer; Client: the calls of `TextTorrentClient`; Canary: the handler of
-- src/texttorrent/canary.py; Reconcile: the handler of src/texttorrent/reconcile.py, over the opt-out
-- store of Suppression.
--
-- Shared: Prelude (numbers, lists, results, exceptions), Text (code points, white space, regular
-- expressions), Unicode, Dict (insertion-ordered dictionaries), Json, Datetime.
--
-- Parameters: the Unicode tables (`unicodedata.normalize`, `casefold`, `lower`, `isalnum`), with
-- their documented behaviour on ASCII as `IsUnicode`; `phonenumbers`; `json` and the ISO form of
-- dates, with their round trips as hypotheses; the pages of an S3 listing; Secrets Manager,
-- `b64decode`, SHA-256, the environment and the file system; the network as a world that every request
-- and every wait changes, `csv`, base64, `urlencode`, the RSA signature, Parquet, CloudWatch,
-- `astimezone` of a time zone, and the digits that `uuid4` gives. A time of day is a number: the
-- latency in microseconds, the store's clock in milliseconds, a date by its instant and whether it
-- has a zone.
--
-- Fuel: the loop over the pages of an S3 listing (`load_pages`, `list_pages`) and the one over the vendor's blocked
-- list (`blocked_from`) take one unit for each page; `page_fuel` is the bound that the bucket's listing
-- states. A listing that is longer is an error result of its own, and one that ends in time is read to
-- its end. The retries of a request
-- (`attempts`) have one unit for each of the five attempts, which is enough. The polls of a job are
-- counted down as in the source, and so are the days of the business clock.
--
-- Not modelled: logging, `rule_set_hash` (a digest of source files), `export_snapshot` (a Parquet
-- file), rows of a CSV file with more values than columns, the default hooks of validate.py (DNS and
-- Twilio) and the transport of http.py (urllib), the research scripts and the infrastructure
-- declarations. An event of the opt-out log whose identifier is no text, which `add_suppression` never
-- writes, is refused by `to_match` with a TypeError; src/suppression/store.py takes any hashable value
-- there. The sums of seconds that src/salesforce/inbound_gap.py takes as floats are exact numbers of
-- microseconds, without a float's rounding.
mod Prelude
pub mod Text
pub mod Unicode
pub mod Guardrails
pub mod Dict
pub mod Json
pub mod Classifier
pub mod Datetime
pub mod Cleansing
pub mod Suppression
pub mod Io
pub mod Salesforce
pub mod TextTorrent
