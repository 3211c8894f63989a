-- ===== src/Offers/Time.antt =====
-- packages/offerrail/_canonical.py: time stamps, as instants in microseconds.
use Prim.Native.Char.{code}
use Prim.Native.String.{[] as nil, ◌∷◌ as cons, ◌++◌}
use autonomerce.Prelude.{ℕ, ◌-◌, String, not, ◌||◌, if◌then◌else◌, ◌==◌, string_eq, nat_eq}
use autonomerce.Prelude.Text.{Runtime, Moment, strip, take, len}
use autonomerce.Prelude.Results.{Result, ok, ◌>>=◌, ◌>>◌, raise_if, or_raise}
use autonomerce.Contracts.Offers.{OfferError, contract}
use autonomerce.Payments.Models.Names.{ends_with}

-- `str | datetime`
pub data Time : Type 0 where
  text : String → Time
  moment : Moment → Time

-- `text[:-1] + "+00:00"` if the last character is `Z` or `z`
unfoldable pub zone_spelled : String → String
zone_spelled nil = ""
zone_spelled (cons c s) =
    let rest = zone_spelled s in
    if s == ""
    then (if code c == b'Z' || code c == b'z' then "+00:00" else cons c "")
    else cons c rest

-- the datetime that a text or a datetime stands for
unfoldable pub read_moment : Runtime → Time → Result OfferError Moment
unfolding zone_spelled strip
read_moment py (moment m) = ok m
read_moment py (text value) = do
  raise_if (strip value == "") (contract "timestamp is required")
  or_raise (py.from_isoformat (zone_spelled (strip value))) (contract "invalid timestamp")

-- `parse_timestamp`
unfoldable pub parse_timestamp : Runtime → Time → Result OfferError ℕ
unfolding read_moment
parse_timestamp py value = do
  parsed ← read_moment py value
  raise_if (not parsed.aware) (contract "timestamp must include a timezone")
  ok parsed.instant

-- `canonical_timestamp`, whose text ends in the replaced part at most once
unfoldable pub canonical_timestamp : Runtime → Time → Result OfferError String
unfolding parse_timestamp ends_with take len
canonical_timestamp py value = do
  parsed ← parse_timestamp py value
  let text = py.isoformat parsed
  ok (
      if ends_with ".000000+00:00" text
      then take (len text - 13) text ++ "Z"
      else if ends_with "+00:00" text
      then take (len text - 6) text ++ "Z"
      else text)
