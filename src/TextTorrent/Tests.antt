-- ===== src/TextTorrent/Tests.antt =====
-- A run of the canary, a short blocked list, and two lists that agree.
use automated_outreach_proto.Unicode.{encode, utf8_bytes}
use automated_outreach_proto.Json.{index, get_or, to_str, as_dict, iterate, truthy}
use automated_outreach_proto.Dict.{get, put}
use automated_outreach_proto.Salesforce.Http.{subscript, dict_of, to_int}
use automated_outreach_proto.TextTorrent.Wire.{
  body_of, request_of, answer_of, envelope_of, chat_created, listed, dicts_of, numbers_of,
  message_sent, unless_refused, multipart, ten_digits,
}
use automated_outreach_proto.TextTorrent.Client.{
  load_credentials, request, create_chat, send_message, chat_messages, blocked_numbers,
}
use automated_outreach_proto.TextTorrent.Canary.{
  canary_body, nonce_of, equals_int, delivered_text, sender, or_found, resolved, compared,
  sent_and_read,
}
use automated_outreach_proto.Prelude.{
  ◌≡◌, ◌↔◌, refl, arith, All, Among, true, some, List, [], ◌∷◌, ◌++◌, ok, pos,
}
use automated_outreach_proto.Text.{Text, codes}
use automated_outreach_proto.Dict.{Dict}
use automated_outreach_proto.Json.{Json, boolean, int, str, arr, nil, cons, obj, end, field}
use automated_outreach_proto.Suppression.Tests.{bucket}
use automated_outreach_proto.Cleansing.Tests.Steps.{files}
use automated_outreach_proto.Salesforce.Http.{HttpResponse, Net}
use automated_outreach_proto.Salesforce.Cloud.{Cloud}
use automated_outreach_proto.Salesforce.Tests.{Wire, net_of, plain}
use automated_outreach_proto.TextTorrent.Wire.{Client, base_url}
use automated_outreach_proto.TextTorrent.Client.Pages.{Answer, last_page, blocked_numbers-Pages}
use automated_outreach_proto.TextTorrent.Canary.{CanaryReport, handler}
use automated_outreach_proto.TextTorrent.Canary.ReadBack.{IsRun, IsDelivered, handler-IsDelivered}
use automated_outreach_proto.TextTorrent.Reconcile as Reconcile
use automated_outreach_proto.TextTorrent.Reconcile.Agree.{HasForm, IsTheirs, compared_iff}

abbrev message : Text
message =
    codes "cAnArY mIxEd-case check n1"
    ++ (codes " — do NOT ''fix'' this text… punctuation stays as sent ;: really!! ~ "
        ++ codes "\"quoted\" [brackets] {braces}\nsecond line kept verbatim")

abbrev stored_message : Json
stored_message = obj (field (codes "id") (int 9) (field (codes "message") (str message) end))

abbrev succeeded_with : Json → Json
succeeded_with x = obj (field (codes "success") (boolean true) (field (codes "data") x end))

abbrev page_of : Text → Json → Json
page_of name x = obj (
    field (codes "data") (obj (field name (obj (field (codes "data") (arr (cons x nil)) end)) end))
      end)

-- The secret, the new chat, the message that was sent, the messages of the chat, a page of numbers.
abbrev answers : List Json
answers =
    obj
      (field (codes "api_sid") (str (codes "s")) (field (codes "public_key") (str (codes "k")) end))
    ∷ succeeded_with (obj (field (codes "id") (int 4) end))
    ∷ succeeded_with (obj (field (codes "id") (int 9) end))
    ∷ page_of (codes "messages") stored_message
    ∷ page_of (codes "blocked_list") (obj (field (codes "number") (str (codes "5")) end))
    ∷ []

abbrev net : Net
net = net_of answers

abbrev cloud : Cloud net files
cloud = record {
  get_secret = λ _. ok [];
  getenv = λ s. some s;
  put_metrics = λ _ _ w. (ok tt, w);
  read_parquet = λ _. ok [];
}

abbrev client : Client
client = record {
  creds = record { api_sid = str (codes "s"); public_key = str (codes "k") };
  base = base_url;
}

abbrev world : List HttpResponse → Wire
world rs = record { left = rs; sent = 0; slept = 0 }

abbrev ready : Wire
ready = world (plain 200 (0 ∷ []) ∷ plain 200 (0 ∷ 0 ∷ []) ∷ plain 200 (0 ∷ 0 ∷ 0 ∷ []) ∷ [])

abbrev event : Dict Json
event = (codes "nonce", str (codes "n1")) ∷ []

abbrev report : CanaryReport
report = record {
  identical = true;
  submitted = message;
  delivered = message;
  message_id = pos 9;
  chat_id = pos 4;
}

ran : (handler net files cloud [] (codes "h") event ready).0 ≡ ok report
unfolding handler load_credentials sender create_chat request request_of body_of encode utf8_bytes
    answer_of envelope_of chat_created or_found resolved sent_and_read send_message message_sent
    unless_refused multipart chat_messages listed dicts_of compared delivered_text equals_int
    canary_body nonce_of index get_or to_str as_dict iterate truthy get put subscript dict_of to_int
    ten_digits
ran = refl

handler-IsDelivered_example :
    (run : IsRun net files cloud [] (codes "h") event ready report) × ((report.identical ≡ true)
      ↔ (report.delivered ≡ canary_body (nonce_of net [] event)))
    × (report.identical ≡ true
        → (m : Dict Json) × Among m run.message.messages
          × IsDelivered net report.message_id (canary_body (nonce_of net [] event)) m)
handler-IsDelivered_example =
    handler-IsDelivered net files cloud [] (codes "h") event ready report ran

abbrev listing : Wire
listing = world (plain 200 (0 ∷ 0 ∷ 0 ∷ 0 ∷ []) ∷ [])

only_page : Answer net client 200 1 listing 1 (codes "5" ∷ []) (record (world []) { sent = 1 })
unfolding request request_of body_of encode utf8_bytes answer_of envelope_of listed numbers_of index
    get_or to_str as_dict iterate truthy get put subscript dict_of to_int
only_page = record {
  envelope = page_of (codes "blocked_list") (obj (field (codes "number") (str (codes "5")) end));
  entries = obj (field (codes "number") (str (codes "5")) end) ∷ [];
  answered = refl;
  lists = refl;
  counted = refl;
  holds = refl;
}

blocked_numbers-Pages_example :
    blocked_numbers net client 3 listing ≡ (ok (codes "5" ∷ []), record (world []) { sent = 1 })
blocked_numbers-Pages_example =
    blocked_numbers-Pages net client 3 1 listing (record (world []) { sent = 1 }) (codes "5" ∷ [])
      (last_page 1 1 only_page (ground arith)) (ground arith)

compared_iff_example :
    ((Reconcile.compared bucket
        (codes "(212) 555-0100" ∷ [])
        (codes "a@b.co" ∷ codes "+12125550100" ∷ [])).divergence
      ≡ 0)
    ↔ (All
          (HasForm bucket
            (λ m. Among m (Reconcile.phones_of (codes "a@b.co" ∷ codes "+12125550100" ∷ []))))
          (codes "(212) 555-0100" ∷ [])
        × All
            (IsTheirs bucket (codes "(212) 555-0100" ∷ []))
            (Reconcile.phones_of (codes "a@b.co" ∷ codes "+12125550100" ∷ [])))
compared_iff_example =
    compared_iff bucket (codes "(212) 555-0100" ∷ []) (codes "a@b.co" ∷ codes "+12125550100" ∷ [])
