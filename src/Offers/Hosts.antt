-- ===== src/Offers/Hosts.antt =====
-- packages/offerrail/policy.py: the hosts of buyers, and the host rules of a policy.
use Prim.Native.Char.{code}
use Prim.Native.String.{[] as nil, ◌∷◌ as cons, ◌++◌}
use autonomerce.Prelude.{
  ℕ, zero, suc, String, Bool, true, false, not, ◌&&◌, ◌||◌, leb, if◌then◌else◌, ◌==◌, string_eq,
  nat_eq, List, [], ◌∷◌,
}
use autonomerce.Prelude.Text.{Runtime, Url, Port, bad_port, no_port, port, strip, truthy}
use autonomerce.Prelude.Dict.{is_some}
use autonomerce.Prelude.Results.{Result, ok, ◌>>=◌, ◌>>◌, raise_if, or_raise}
use autonomerce.Contracts.Offers.{OfferError, contract}
use autonomerce.Payments.Models.Names.{ends_with, strip_dots, get_or}

-- `text.startswith(prefix)`
unfoldable pub starts_with : String → String → Bool
starts_with nil s = true
starts_with (cons c p) nil = false
starts_with (cons c p) (cons d s) = code c == code d && starts_with p s

-- `part in text`
unfoldable pub includes : String → String → Bool
unfolding starts_with
includes part nil = part == ""
includes part (cons c s) = starts_with part (cons c s) || includes part s

-- `text[n:]`
unfoldable pub drop : ℕ → String → String
drop zero s = s
drop (suc n) nil = ""
drop (suc n) (cons c s) = drop n s

-- the port of a URL that may be used: absent, or a number in range
abbrev pub safe_port : Port → Bool
safe_port bad_port = false
safe_port no_port = true
safe_port (port n) = leb 1 n && leb n 65535

abbrev pub safe_scheme : Runtime → String → Bool
safe_scheme py scheme = py.lower scheme == "http" || py.lower scheme == "https"

-- the tests of an absolute HTTP(S) URL without credentials
unfoldable pub safe_url : Runtime → Url → Bool
safe_url py parsed =
    safe_scheme py parsed.scheme
    && truthy parsed.hostname
    && not (is_some parsed.username)
    && not (is_some parsed.password)
    && safe_port parsed.port

-- `_hostname_from_url`
unfoldable pub hostname_from_url : Runtime → String → Result OfferError String
unfolding safe_url strip_dots
hostname_from_url py value = do
  parsed ← or_raise (py.url_split value) (contract "invalid buyer URL")
  raise_if (not (safe_url py parsed))
      (contract "buyer URL must be absolute HTTP(S) without credentials")
  host ←
      or_raise (py.idna (strip_dots (get_or parsed.hostname "")))
        (contract "invalid buyer hostname")
  ok (py.lower host)

-- a rule that is not written as a URL
unfoldable pub plain_rule : Runtime → String → Result OfferError String
unfolding strip_dots includes
plain_rule py text = do
  let bare = strip_dots text
  raise_if (includes "/" bare || includes "?" bare || includes "#" bare || includes "@" bare)
      (contract "invalid policy host rule")
  or_raise (py.idna bare) (contract "invalid policy host rule")

-- `_normalize_host_rule`
unfoldable pub normalize_host_rule : Runtime → String → Result OfferError (String × Bool)
unfolding strip starts_with drop includes ends_with hostname_from_url plain_rule
normalize_host_rule py value = do
  let whole = py.lower (strip value)
  raise_if (whole == "") (contract "empty policy host rule")
  let include_subdomains = starts_with "*." whole
  let text = if include_subdomains then drop 2 whole else whole
  host ← if includes "://" text then hostname_from_url py text else plain_rule py text
  raise_if (host == "" || starts_with "." host || ends_with "." host || includes ".." host)
      (contract "invalid policy host rule")
  ok (host, include_subdomains)

-- `_matches_host`
unfoldable pub matches_host : String → String × Bool → Bool
unfolding ends_with
matches_host hostname (expected, _) = hostname == expected || ends_with ("." ++ expected) hostname

-- `tuple(_normalize_host_rule(value) for value in values)`
unfoldable pub normalize_rules : Runtime → List String → Result OfferError (List (String × Bool))
unfolding normalize_host_rule
normalize_rules py [] = ok []
normalize_rules py (value ∷ values) =
    let rest = normalize_rules py values in
    do rule ← normalize_host_rule py value; rules ← rest; ok (rule ∷ rules)
