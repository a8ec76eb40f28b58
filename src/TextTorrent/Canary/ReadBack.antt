-- ===== src/TextTorrent/Canary/ReadBack.antt =====
-- When the canary reports the message as identical.
use automated_outreach_proto.Prelude.{
  ℕ, ◌≡◌, ◌↔◌, refl, sym, ap, ◌∙◌, true, Option, List, [], ◌∷◌, inl, inr, Bool-cases, Among, Result,
  ok, ok-injective, ℤ,
}
use automated_outreach_proto.Text.{Text, codes, text_eq}
use automated_outreach_proto.Text.Equality.{text_eq_iff}
use automated_outreach_proto.Dict.{Dict}
use automated_outreach_proto.Json.{Json, null, index, get_or}
use automated_outreach_proto.Io.{lift, and_then-eq-ok}
use automated_outreach_proto.Cleansing.PipelineIo.{Files}
use automated_outreach_proto.Salesforce.Http.{Net, to_int, text_of}
use automated_outreach_proto.Salesforce.Cloud.{Cloud}
use automated_outreach_proto.Salesforce.Sync.{environ}
use automated_outreach_proto.TextTorrent.Wire.{Client, base_url}
use automated_outreach_proto.TextTorrent.Client.{
  load_credentials, create_chat, send_message, chat_messages,
}
use automated_outreach_proto.TextTorrent.Canary.{
  CanaryReport, canary_namespace, canary_body, nonce_of, equals_int, delivered_text, sender,
  or_found, resolved, compared, sent_and_read, handler,
}

-- The message that was read back under an id.
pub record IsDelivered (n : Net) (message_id : ℤ) (text : Text) (m : Dict Json) : Type 0 where
  pub same_id : equals_int n (get_or (codes "id") null m) message_id ≡ true
  pub same_text : text_of n (get_or (codes "message") null m) ≡ text

delivered_text-IsDelivered :
    (n : Net) (message_id : ℤ) (ms : List (Dict Json)) (x : ℕ) (text : Text)
    → delivered_text n message_id ms ≡ x ∷ text
    → (m : Dict Json) × Among m ms × IsDelivered n message_id (x ∷ text) m
unfolding delivered_text
delivered_text-IsDelivered n message_id [] x text h = cc
delivered_text-IsDelivered n message_id (m ∷ ms) x text h =
    elim (Bool-cases (equals_int n (get_or (codes "id") null m) message_id)) [
      | inl e ↦ (m, inl refl, record { same_id = e; same_text = simp e at h })
      | inr e ↦
          let (m', a, d) = delivered_text-IsDelivered n message_id ms x text (simp e at h) in
          (m', inr a, d)
    ]

found_message :
    (n : Net) (message_id : ℤ) (ms : List (Dict Json)) (nonce : Text)
    → delivered_text n message_id ms ≡ canary_body nonce
    → (m : Dict Json) × Among m ms × IsDelivered n message_id (canary_body nonce) m
unfolding canary_body
found_message n message_id ms nonce h = delivered_text-IsDelivered n message_id ms _ _ h

-- A call that returned, with the world that it left.
returned : {A W : Type 0} {a : A} (x : Result A × W) → x.0 ≡ ok a → x ≡ (ok a, x.1)
returned (y, w) p = ap (λ z. (z, w)) p

-- The message of a report: sent in the chat of the report, its id that of the answer, and the
-- messages of the chat read next, of which the report's text is that of the id.
pub record IsSent (n : Net) (client : Client) (hex submitted from_number to_number : Text)
    (chat_id : ℤ) (w : n.World) (r : CanaryReport) : Type 0 where
  pub sent : Dict Json
  pub id : Json
  pub messages : List (Dict Json)
  pub after_send : n.World
  pub after_read : n.World
  pub send :
      send_message n client hex chat_id from_number to_number submitted w ≡ (ok sent, after_send)
  pub has_id : index (codes "id") sent ≡ ok id
  pub is_number : to_int n id ≡ ok r.message_id
  pub reads : chat_messages n client chat_id 20 after_send ≡ (ok messages, after_read)
  pub same_chat : r.chat_id ≡ chat_id
  pub as_submitted : r.submitted ≡ submitted
  pub compares : r.identical ≡ text_eq r.delivered submitted
  pub as_delivered : r.delivered ≡ delivered_text n r.message_id messages

-- The run of a report, call by call, each in the world that the call before it left.
pub record IsRun (n : Net) (f : Files) (c : Cloud n f) (nonce hex : Text) (event : Dict Json)
    (w : n.World) (r : CanaryReport) : Type 0 where
  pub secret_id : Text
  pub client : Client
  pub to_number : Text
  pub from_number : Text
  pub started : Option ℤ
  pub found : Option ℤ
  pub chat_id : ℤ
  pub named : environ (c.getenv (codes "TEXTTORRENT_SECRET_ID")) ≡ ok secret_id
  pub of_secret : load_credentials n c.get_secret secret_id ≡ ok client.creds
  pub at_base : client.base ≡ base_url
  pub recipient : environ (c.getenv (codes "TEXTTORRENT_CANARY_TO")) ≡ ok to_number
  pub ready : n.World
  pub opened : n.World
  pub sought : n.World
  pub chosen : n.World
  pub is_sender :
      sender n f c client (c.getenv (codes "TEXTTORRENT_FROM_NUMBER")) w ≡ (ok from_number, ready)
  pub creates : create_chat n client to_number from_number ready ≡ (ok started, opened)
  pub finds : or_found n f c client to_number started opened ≡ (ok found, sought)
  pub resolves : resolved n f c to_number found sought ≡ (ok chat_id, chosen)
  pub message :
      IsSent n client hex
        (canary_body (nonce_of n nonce event))
        from_number
        to_number
        chat_id
        chosen
        r

module _ (n : Net) (f : Files) (c : Cloud n f) where
  compared-report :
      (submitted : Text) (message_id chat_id : ℤ) (messages : List (Dict Json)) (w : n.World)
      (r : CanaryReport)
      → (compared n f c submitted message_id chat_id messages w).0 ≡ ok r
      → r ≡ record {
        identical = text_eq (delivered_text n message_id messages) submitted;
        submitted = submitted;
        delivered = delivered_text n message_id messages;
        message_id = message_id;
        chat_id = chat_id;
      }
  unfolding compared
  compared-report submitted message_id chat_id messages w r h =
      let (t, _, h1, e1) = and_then-eq-ok (c.put_metrics canary_namespace _ w) _ h in
      sym (ok-injective h1)

  sent_and_read-IsSent :
      (client : Client) (hex submitted from_number to_number : Text) (chat_id : ℤ) (w : n.World)
      (r : CanaryReport)
      → (sent_and_read n f c client hex submitted from_number to_number chat_id w).0 ≡ ok r
      → IsSent n client hex submitted from_number to_number chat_id w r
  unfolding sent_and_read
  sent_and_read-IsSent client hex submitted from_number to_number chat_id w r h =
      let w1 = (send_message n client hex chat_id from_number to_number submitted w).1 in
      let (sent, p1, h1, _) =
        and_then-eq-ok (send_message n client hex chat_id from_number to_number submitted w) _ h in
      let (id, p2, h2, _) = and_then-eq-ok (lift (index (codes "id") sent) w1) _ h1 in
      let (message_id, p3, h3, _) = and_then-eq-ok (lift (to_int n id) w1) _ h2 in
      let (messages, p4, h4, _) = and_then-eq-ok (chat_messages n client chat_id 20 w1) _ h3 in
      let e = compared-report submitted message_id chat_id messages _ r h4 in
      record {
        sent = sent;
        id = id;
        messages = messages;
        after_send = w1;
        after_read = (chat_messages n client chat_id 20 w1).1;
        send = returned (send_message n client hex chat_id from_number to_number submitted w) p1;
        has_id = p2;
        is_number = p3 ∙ ap (λ (x : CanaryReport). ok x.message_id) (sym e);
        reads = returned (chat_messages n client chat_id 20 w1) p4;
        same_chat = ap (λ (x : CanaryReport). x.chat_id) e;
        as_submitted = ap (λ (x : CanaryReport). x.submitted) e;
        compares = rw (e) refl;
        as_delivered = rw (e) refl;
      }

  handler-IsRun :
      (nonce hex : Text) (event : Dict Json) (w : n.World) (r : CanaryReport)
      → (handler n f c nonce hex event w).0 ≡ ok r
      → IsRun n f c nonce hex event w r
  unfolding handler
  handler-IsRun nonce hex event w r h =
      let submitted = canary_body (nonce_of n nonce event) in
      let (secret_id, p1, h1, _) =
        and_then-eq-ok (lift (environ (c.getenv (codes "TEXTTORRENT_SECRET_ID"))) w) _ h in
      let (creds, p2, h2, _) =
        and_then-eq-ok (lift (load_credentials n c.get_secret secret_id) w) _ h1 in
      let (to_number, p3, h3, _) =
        and_then-eq-ok (lift (environ (c.getenv (codes "TEXTTORRENT_CANARY_TO"))) w) _ h2 in
      let client : Client = record { creds = creds; base = base_url } in
      let call4 = sender n f c client (c.getenv (codes "TEXTTORRENT_FROM_NUMBER")) w in
      let (from_number, p4, h4, _) = and_then-eq-ok call4 _ h3 in
      let call5 = create_chat n client to_number from_number call4.1 in
      let (started, p5, h5, _) = and_then-eq-ok call5 _ h4 in
      let call6 = or_found n f c client to_number started call5.1 in
      let (found, p6, h6, _) = and_then-eq-ok call6 _ h5 in
      let call7 = resolved n f c to_number found call6.1 in
      let (chat_id, p7, h7, _) = and_then-eq-ok call7 _ h6 in
      record {
        secret_id = secret_id;
        client = client;
        to_number = to_number;
        from_number = from_number;
        started = started;
        found = found;
        chat_id = chat_id;
        named = p1;
        of_secret = p2;
        at_base = refl;
        recipient = p3;
        ready = call4.1;
        opened = call5.1;
        sought = call6.1;
        chosen = call7.1;
        is_sender = returned call4 p4;
        creates = returned call5 p5;
        finds = returned call6 p6;
        resolves = returned call7 p7;
        message =
            sent_and_read-IsSent client hex submitted from_number to_number chat_id call7.1 r h7;
      }

  -- Where the handler returns, it has run call by call, each call in the world the one before it left:
  -- the canary's text, with the nonce, was sent to the recipient in the chat that was created or
  -- found, the id of the report is the one in the answer to this send, and the messages of that chat
  -- were read next. It says `identical` if and only if the text found among them under this id is the
  -- one submitted, and then a message that was read has exactly this id and text: a message that is
  -- not read back is never taken for identical.
  pub handler-IsDelivered :
      (nonce hex : Text) (event : Dict Json) (w : n.World) (r : CanaryReport)
      → (handler n f c nonce hex event w).0 ≡ ok r
      → (run : IsRun n f c nonce hex event w r) × ((r.identical ≡ true)
          ↔ (r.delivered ≡ canary_body (nonce_of n nonce event)))
        × (r.identical ≡ true
            → (m : Dict Json) × Among m run.message.messages
              × IsDelivered n r.message_id (canary_body (nonce_of n nonce event)) m)
  handler-IsDelivered nonce hex event w r h =
      let run = handler-IsRun nonce hex event w r h in
      let read = run.message in
      let same = text_eq_iff r.delivered (canary_body (nonce_of n nonce event)) in
      (
        run,
        (λ p. same.0 (sym read.compares ∙ p), λ p. read.compares ∙ same.1 p),
        λ p.
            found_message n r.message_id read.messages (nonce_of n nonce event)
              (sym read.as_delivered ∙ same.0 (sym read.compares ∙ p)),
      )
