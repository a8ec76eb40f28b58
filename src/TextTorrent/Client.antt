-- ===== src/TextTorrent/Client.antt =====
-- src/texttorrent/client.py: the calls of the vendor's API. The client keeps no state; a call changes
-- the network.
pub mod Pages
use automated_outreach_proto.Prelude.{
  ℕ, zero, suc, ◌+◌, Bool, true, false, Option, none, some, List, [], ◌∷◌, ◌++◌, map, length, ltb,
  if◌then◌else◌, out_of_fuel, Result, ok, err, ℤ,
}
use automated_outreach_proto.Text.{Text, codes}
use automated_outreach_proto.Dict.{Dict}
use automated_outreach_proto.Json.{
  Json, null, int, str, arr, obj, Items, nil, cons, end, field, as_dict, index,
}
use automated_outreach_proto.Io.{Act, pure, raise, lift, ◌>>=◌, ◌>>◌}
use automated_outreach_proto.Salesforce.Http.{Net, subscript, text_of}
use automated_outreach_proto.TextTorrent.Wire.{
  Credentials, Client, Payload, no_body, json_body, form, request_of, answer_of, ten_digits,
  chat_created, chats_of, first_chat, message_sent, listed, dicts_of, numbers_of, scan_numbers,
  get_in, json_int, unless_refused,
}

unfoldable pub load_credentials : Net → (Text → Result Text) → Text → Result Credentials
load_credentials n get_secret secret_id =
    let go : Act (Unit {0}) Credentials = (do
      text ← lift (get_secret secret_id)
      data' ← lift (n.loads text)
      api_sid ← lift (subscript (codes "api_sid") data')
      public_key ← lift (subscript (codes "public_key") data')
      pure (record { api_sid = api_sid; public_key = public_key })) in
    (go tt).0

module _ (n : Net) (c : Client) where
  unfoldable pub request : Text → Text → Payload → Act n.World Json
  request method path payload = do
    req ← lift (request_of n c method path payload)
    r ← n.transport req
    lift (answer_of n r)

  unfoldable pub create_chat : Text → Text → Act n.World (Option ℤ)
  create_chat receiver sender = do
    answer ← request (codes "POST") (codes "/inbox/chat/create") (
        json_body (
          obj (
            field (codes "receiver_number") (str (ten_digits n.unicode receiver))
              (field (codes "sender_id") (str sender) end))))
    envelope ← lift (as_dict answer)
    lift (chat_created n envelope)

  unfoldable pub find_chat_id : Text → Act n.World (Option ℤ)
  find_chat_id number = do
    envelope ←
        request (codes "GET") (codes "/inbox?search=" ++ n.quote (ten_digits n.unicode number))
          no_body
    chats ← lift (chats_of envelope)
    lift (first_chat n chats)

  -- `hex` is the uuid4 of the form's boundary.
  unfoldable pub send_message : Text → ℤ → Text → Text → Text → Act n.World (Dict Json)
  send_message hex chat_id from_number to_number message = do
    answer ← request (codes "POST") (codes "/inbox/chat") (
        form hex (
          (codes "message", message)
          ∷ (codes "chat_id", text_of n (json_int chat_id))
          ∷ (codes "from_number", from_number)
          ∷ (codes "to_number", to_number)
          ∷ []))
    envelope ← lift (as_dict answer)
    lift (message_sent n envelope)

  unfoldable pub chat_messages : ℤ → ℕ → Act n.World (List (Dict Json))
  chat_messages chat_id limit = do
    envelope ←
        request (codes "GET")
          (codes "/inbox/"
            ++ (text_of n (json_int chat_id) ++ (codes "?limit=" ++ text_of n (int limit))))
          no_body
    messages ← lift (listed (codes "messages") envelope)
    lift (dicts_of n messages)

  unfoldable pub active_numbers : Act n.World (List Text)
  active_numbers = do
    envelope ← request (codes "GET") (codes "/inbox/numbers/active?limit=50") no_body
    data' ← lift (get_in (codes "data") envelope)
    pure (scan_numbers data')

  -- One page of the blocked list: its numbers, and whether it is short.
  unfoldable pub blocked_page : ℕ → ℕ → Act n.World (List Text × Bool)
  blocked_page page_size page = do
    envelope ←
        request (codes "GET")
          (codes "/contact/blocked-list/?limit="
            ++ (text_of n (int page_size) ++ (codes "&page=" ++ text_of n (int page))))
          no_body
    entries ← lift (listed (codes "blocked_list") envelope)
    numbers ← lift (numbers_of n entries)
    pure (numbers, ltb (length entries) page_size)

  -- What follows a page.
  abbrev pub and_more : Act n.World (List Text) → List Text × Bool → Act n.World (List Text)
  and_more rest (numbers, true) = pure numbers
  and_more rest (numbers, false) = do more ← rest; pure (numbers ++ more)

  -- The `while` loop, on fuel: one unit for each page.
  unfoldable pub blocked_from : ℕ → ℕ → ℕ → Act n.World (List Text)
  blocked_from page_size zero page s = (err out_of_fuel, s)
  blocked_from page_size (suc fuel) page s =
      (blocked_page page_size page >>= and_more (λ w. blocked_from page_size fuel (suc page) w)) s

  unfoldable pub blocked_numbers : ℕ → Act n.World (List Text)
  blocked_numbers fuel = blocked_from 200 fuel 1

  abbrev pub json_texts : List Text → Items
  json_texts [] = nil
  json_texts (s ∷ ss) = cons (str s) (json_texts ss)

  unfoldable pub block_numbers : List Text → Act n.World (Unit {0})
  block_numbers [] = pure tt
  block_numbers (x ∷ xs) = do
    answer ← request (codes "POST") (codes "/contact/blocked-list/") (
        json_body (
          obj
            (field (codes "numbers") (arr (json_texts (map (ten_digits n.unicode) (x ∷ xs)))) end)))
    envelope ← lift (as_dict answer)
    lift (unless_refused n envelope (ok tt))
