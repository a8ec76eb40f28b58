-- ===== src/Datetime.antt =====
-- Python's `datetime` as the program uses it: a point of time that is aware of its time zone or
-- not. The parser and the printer of the ISO form are the standard library's, as a parameter.
use automated_outreach_proto.Prelude.{
  ℕ, ◌+◌, ◌≡◌, Bool, true, false, ltb, Result, ok, err, type_error, if◌then◌else◌,
}
use automated_outreach_proto.Text.{Text}

-- The instant is in microseconds: of UTC if the value is aware, of the wall clock if not.
pub record Datetime : Type 0 where
  pub aware : Bool
  pub instant : ℕ

abbrev same_bool : Bool → Bool → Bool
same_bool true b = b
same_bool false true = false
same_bool false false = true

-- a < b, which raises a TypeError between an aware and a naive value
unfoldable pub before_datetime : Datetime → Datetime → Result Bool
before_datetime a b =
    if same_bool a.aware b.aware then ok (ltb a.instant b.instant) else err type_error

-- a - b < window
unfoldable pub within_window : Datetime → Datetime → ℕ → Result Bool
within_window a b window =
    if same_bool a.aware b.aware then ok (ltb a.instant (b.instant + window)) else err type_error

pub record IsoFormat : Type 0 where
  -- datetime.fromisoformat(s), d.isoformat()
  pub parse : Text → Result Datetime
  pub print : Datetime → Text

-- The parser reads back what the printer wrote.
pub record IsIsoFormat (f : IsoFormat) : Type 0 where
  pub parse-print : (d : Datetime) → f.parse (f.print d) ≡ ok d
