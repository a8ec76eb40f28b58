-- ===== src/Cleansing/PipelineIo/Listing.antt =====
-- The loop over the pages of a listing.
use automated_outreach_proto.Prelude.{
  ℕ, zero, suc, ◌≤◌, ◌≡◌, refl, ap, arith, Option, none, List, ok,
}
use mathlib.Core.List.{append-nil}
use automated_outreach_proto.Text.{Text}
use automated_outreach_proto.Suppression.Store.Pages.{Listing, last_page, a_page}
use automated_outreach_proto.Cleansing.PipelineIo.{Files, Objects, list_pages, list_keys}

pub list_pages-Listing :
    (f : Files) (objects : Objects f) (prefix : Text) (fuel : ℕ) {token : Option Text} {k : ℕ}
    {keys : List Text}
    → Listing f.backend objects prefix token k keys
    → k ≤ fuel
    → list_pages f objects prefix fuel token ≡ ok keys
unfolding list_pages
list_pages-Listing f objects prefix zero (last_page token e) h = ground arith
list_pages-Listing f objects prefix zero (a_page token next e l) h = ground arith
list_pages-Listing f objects prefix (suc fuel) (last_page token e) h = rw e (ap ok (append-nil _))
list_pages-Listing f objects prefix (suc fuel) (a_page token next e l) h =
    rw e (rw (list_pages-Listing f objects prefix fuel l (omega arith)) refl)

-- Where the listing ends within the pages that the loop may read, the call returns the keys of all
-- pages, in order.
pub list_keys-Listing :
    (f : Files) (objects : Objects f) (prefix : Text) (k : ℕ) (keys : List Text)
    → Listing f.backend objects prefix none k keys
    → k ≤ f.backend.page_fuel
    → list_keys f objects prefix ≡ ok keys
unfolding list_keys
list_keys-Listing f objects prefix k keys l h = list_pages-Listing f objects prefix _ l h
