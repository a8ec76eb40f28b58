-- ===== src/TextTorrent/Client/Pages.antt =====
-- The loop over the pages of the blocked list.
use automated_outreach_proto.Prelude.{
  ℕ, zero, suc, ◌≤◌, ◌<◌, ◌≡◌, refl, arith, Bool, true, false, List, ◌++◌, length, ok, ltb,
}
use automated_outreach_proto.Text.{Text, codes}
use automated_outreach_proto.Json.{Json, int}
use automated_outreach_proto.Salesforce.Http.{Net, text_of}
use automated_outreach_proto.TextTorrent.Wire.{Client, no_body, listed, numbers_of}
use automated_outreach_proto.TextTorrent.Client.{
  request, blocked_page, blocked_from, blocked_numbers,
}

-- The vendor's answer to the request for a page: so many entries, with these numbers.
pub record Answer (n : Net) (c : Client) (size page : ℕ) (w : n.World) (count : ℕ)
    (numbers : List Text) (w' : n.World) : Type 0 where
  pub envelope : Json
  pub entries : List Json
  pub answered :
      request n c
        (codes "GET")
        (codes "/contact/blocked-list/?limit="
          ++ (text_of n (int size) ++ (codes "&page=" ++ text_of n (int page))))
        no_body
        w
      ≡ (ok envelope, w')
  pub lists : listed (codes "blocked_list") envelope ≡ ok entries
  pub counted : length entries ≡ count
  pub holds : numbers_of n entries ≡ ok numbers

-- From this page on, the vendor answers so many pages with these numbers, of which the last alone has
-- fewer entries than the size.
pub data Pages (n : Net) (c : Client) (size : ℕ)
    : ℕ → ℕ → n.World → List Text → n.World → Type 0 where
  last_page :
      (page count : ℕ) {w w' : n.World} {numbers : List Text}
      → Answer n c size page w count numbers w'
      → count < size
      → Pages n c size page 1 w numbers w'
  full_page :
      (page count : ℕ) {k : ℕ} {w w' w'' : n.World} {numbers more : List Text}
      → Answer n c size page w count numbers w'
      → size ≤ count
      → Pages n c size (suc page) k w' more w''
      → Pages n c size page (suc k) w (numbers ++ more) w''

blocked_page-Answer :
    (n : Net) (c : Client) (size page count : ℕ) (w w' : n.World) (numbers : List Text)
    (short : Bool)
    → Answer n c size page w count numbers w'
    → ltb count size ≡ short
    → blocked_page n c size page w ≡ (ok (numbers, short), w')
unfolding blocked_page
blocked_page-Answer n c size page count w w' numbers short a h =
    rw a.answered (rw a.lists (rw (a.holds, a.counted, h) refl))

blocked_from-Pages :
    (n : Net) (c : Client) (size fuel : ℕ) {page k : ℕ} {w w' : n.World} {numbers : List Text}
    → Pages n c size page k w numbers w'
    → k ≤ fuel
    → blocked_from n c size fuel page w ≡ (ok numbers, w')
unfolding blocked_from
blocked_from-Pages n c size zero (last_page page count a s) h = ground arith
blocked_from-Pages n c size zero (full_page page count a s p) h = ground arith
blocked_from-Pages n c size (suc fuel) (last_page page count a s) h =
    rw (blocked_page-Answer n c size page count _ _ _ true a (ground arith)) refl
blocked_from-Pages n c size (suc fuel) (full_page page count a s p) h =
    rw (blocked_page-Answer n c size page count _ _ _ false a (ground arith))
      (rw (blocked_from-Pages n c size fuel p (omega arith)) refl)

-- Where the vendor answers the requests for the pages one after the other, the last of the pages alone
-- has fewer than 200 entries, and they are no more than the loop may read, the call returns the numbers
-- of all pages, in order.
pub blocked_numbers-Pages :
    (n : Net) (c : Client) (fuel k : ℕ) (w w' : n.World) (numbers : List Text)
    → Pages n c 200 1 k w numbers w'
    → k ≤ fuel
    → blocked_numbers n c fuel w ≡ (ok numbers, w')
unfolding blocked_numbers
blocked_numbers-Pages n c fuel k w w' numbers p h = blocked_from-Pages n c 200 fuel p h
