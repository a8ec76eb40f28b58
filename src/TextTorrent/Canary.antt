-- ===== src/TextTorrent/Canary.antt =====
-- src/texttorrent/canary.py: a message is sent and read back.
pub mod ReadBack
use automated_outreach_proto.Prelude.{
  ℕ, zero, suc, Bool, true, false, Option, none, some, List, [], ◌∷◌, ◌++◌, ◌==◌, ◌||◌,
  if◌then◌else◌, Exn, index_error, texttorrent_error, Result, ok, err, ℤ, pos, negsuc,
}
use automated_outreach_proto.Text.{Text, codes, text_eq, is_nil}
use automated_outreach_proto.Dict.{Dict, get}
use automated_outreach_proto.Json.{Json, null, boolean, int, negative, float, truthy, index, get_or}
use automated_outreach_proto.Io.{Act, pure, raise, lift, ◌>>=◌, ◌>>◌}
use automated_outreach_proto.Cleansing.PipelineIo.{Files}
use automated_outreach_proto.Salesforce.Http.{Net, to_int, text_of}
use automated_outreach_proto.Salesforce.Cloud.{Cloud, Metric, whole}
use automated_outreach_proto.Salesforce.Sync.{environ}
use automated_outreach_proto.TextTorrent.Wire.{Client, base_url, json_int}
use automated_outreach_proto.TextTorrent.Client.{
  load_credentials, create_chat, find_chat_id, send_message, chat_messages, active_numbers,
}

pub record CanaryReport : Type 0 where
  pub identical : Bool
  pub submitted : Text
  pub delivered : Text
  pub message_id : ℤ
  pub chat_id : ℤ

abbrev pub canary_namespace : Text
canary_namespace = codes "Outreach/TextTorrent"

unfoldable pub canary_body : Text → Text
canary_body nonce =
    codes "cAnArY mIxEd-case check "
    ++ (nonce
        ++ (codes " — do NOT ''fix'' this text… punctuation stays as sent ;: really!! ~ "
            ++ codes "\"quoted\" [brackets] {braces}\nsecond line kept verbatim"))

-- str(event.get("nonce") or …), with eight digits of a uuid4
unfoldable pub nonce_of : Net → Text → Dict Json → Text
nonce_of n hex event =
    let nonce = get_or (codes "nonce") null event in if truthy nonce then text_of n nonce else hex

-- value == number, for a whole number
unfoldable pub equals_int : Net → Json → ℤ → Bool
equals_int n (int k) (pos j) = k == j
equals_int n (negative k) (negsuc j) = k == j
equals_int n (boolean true) (pos j) = j == 1
equals_int n (boolean false) (pos j) = j == 0
equals_int n (float r) i = n.float_equals r i
equals_int n _ i = false

-- The text of the first message with the id; no text where there is none.
unfoldable pub delivered_text : Net → ℤ → List (Dict Json) → Text
delivered_text n message_id [] = []
delivered_text n message_id (m ∷ ms) =
    let rest = delivered_text n message_id ms in
    if equals_int n (get_or (codes "id") null m) message_id
    then text_of n (get_or (codes "message") null m)
    else rest

-- numbers[0]
abbrev first_number : List Text → Result Text
first_number [] = err index_error
first_number (x ∷ xs) = ok x

abbrev canary_metric : Bool → Metric
canary_metric identical = record {
  name = codes "CanaryByteIdentical";
  value = whole (pos (if identical then 1 else 0));
}

abbrev no_chat : Text → Exn
no_chat to_number =
    texttorrent_error (pos 0) (codes "no chat id resolvable for canary recipient " ++ to_number)

module _ (n : Net) (f : Files) (c : Cloud n f) where
  -- The sender: as the environment names it, or the account's first active number.
  unfoldable pub sender : Client → Option Text → Act n.World Text
  sender client none = do numbers ← active_numbers n client; lift (first_number numbers)
  sender client (some []) = do numbers ← active_numbers n client; lift (first_number numbers)
  sender client (some (x ∷ s)) = pure (x ∷ s)

  unfoldable pub or_found : Client → Text → Option ℤ → Act n.World (Option ℤ)
  or_found client to_number (some chat_id) = pure (some chat_id)
  or_found client to_number none = find_chat_id n client to_number

  unfoldable pub resolved : Text → Option ℤ → Act n.World ℤ
  resolved to_number (some chat_id) = pure chat_id
  resolved to_number none = raise (no_chat to_number)

  -- What follows the read-back.
  unfoldable pub compared : Text → ℤ → ℤ → List (Dict Json) → Act n.World CanaryReport
  compared submitted message_id chat_id messages =
      let delivered = delivered_text n message_id messages in
      let identical = text_eq delivered submitted in
      (do
        c.put_metrics canary_namespace (canary_metric identical ∷ [])
        pure (record {
          identical = identical;
          submitted = submitted;
          delivered = delivered;
          message_id = message_id;
          chat_id = chat_id;
        }))

  unfoldable pub sent_and_read : Client → Text → Text → Text → Text → ℤ → Act n.World CanaryReport
  sent_and_read client hex submitted from_number to_number chat_id = do
    sent ← send_message n client hex chat_id from_number to_number submitted
    id ← lift (index (codes "id") sent)
    message_id ← lift (to_int n id)
    messages ← chat_messages n client chat_id 20
    compared submitted message_id chat_id messages

  -- `nonce` and `hex` are the digits of two uuid4.
  unfoldable pub handler : Text → Text → Dict Json → Act n.World CanaryReport
  handler nonce hex event = do
    secret_id ← lift (environ (c.getenv (codes "TEXTTORRENT_SECRET_ID")))
    creds ← lift (load_credentials n c.get_secret secret_id)
    to_number ← lift (environ (c.getenv (codes "TEXTTORRENT_CANARY_TO")))
    from_number ←
        sender (record { creds = creds; base = base_url })
          (c.getenv (codes "TEXTTORRENT_FROM_NUMBER"))
    started ← create_chat n (record { creds = creds; base = base_url }) to_number from_number
    found ← or_found (record { creds = creds; base = base_url }) to_number started
    chat_id ← resolved to_number found
    sent_and_read (record { creds = creds; base = base_url }) hex
        (canary_body (nonce_of n nonce event)) from_number to_number chat_id
