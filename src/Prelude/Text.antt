-- ===== src/Prelude/Text.antt =====
-- Python text: `str.strip`, exactly, and what the source takes from the runtime library.
use Prim.Native.Char.{code}
use Prim.Native.String.{[], ◌∷◌, ◌++◌}
use autonomerce.Prelude.{
  ℕ, zero, suc, String, Bool, false, not, ◌&&◌, ◌||◌, leb, if◌then◌else◌, ◌==◌, string_eq, nat_eq,
  Option, none, some, List,
}

-- The white space of `str.isspace`, which `str.strip` removes.
unfoldable pub is_space : ℕ → Bool
is_space c =
    (leb 9 c && leb c 13)
    || (leb 28 c && leb c 32)
    || c == 0x85
    || c == 0xa0
    || c == 0x1680
    || (leb 0x2000 c && leb c 0x200a)
    || c == 0x2028
    || c == 0x2029
    || c == 0x202f
    || c == 0x205f
    || c == 0x3000

unfoldable pub strip_left : String → String
strip_left [] = []
strip_left (c ∷ s) = let rest = strip_left s in if is_space (code c) then rest else c ∷ s

unfoldable pub strip_right : String → String
strip_right [] = []
strip_right (c ∷ s) =
    let rest = strip_right s in if is_space (code c) && rest == "" then [] else c ∷ rest

-- `text.strip()`
unfoldable pub strip : String → String
unfolding strip_left strip_right is_space
strip s = strip_right (strip_left s)

-- `text[:n]`, in characters
unfoldable pub take : ℕ → String → String
take zero s = []
take (suc n) [] = []
take (suc n) (c ∷ s) = c ∷ take n s

-- `len(text)`, in characters
unfoldable pub len : String → ℕ
len [] = 0
len (c ∷ s) = suc (len s)

-- `text.replace(c, "")` for one character, given by its code
unfoldable pub without : ℕ → String → String
without x [] = []
without x (c ∷ s) = let rest = without x s in if code c == x then rest else c ∷ rest

-- `text.replace("Z", "+00:00")`
unfoldable pub replace_zone : String → String
replace_zone [] = ""
replace_zone (c ∷ s) =
    let rest = replace_zone s in if code c == b'Z' then "+00:00" ++ rest else c ∷ rest

-- Python's truth of an optional text
abbrev pub truthy : Option String → Bool
truthy none = false
truthy (some s) = not (s == "")

-- `parsed.port` of `urllib.parse`: it raises, or it is absent or a number.
pub data Port : Type 0 where
  bad_port no_port : Port
  port : ℕ → Port

pub record Url : Type 0 where
  pub scheme : String
  pub hostname : Option String
  pub username : Option String
  pub password : Option String
  pub port : Port

-- A datetime that `datetime.fromisoformat` read: its instant in microseconds, and whether it
-- names a time zone.
pub record Moment : Type 0 where
  pub aware : Bool
  pub instant : ℕ

-- The parts of the runtime library that the source calls and this development does not define.
pub record Runtime : Type 0 where
  pub lower : String → String
  pub upper : String → String
  pub casefold : String → String
  pub isalnum : String → Bool
  -- `json.dumps` of a list of texts, compact and ASCII
  pub dumps_list : List String → String
  -- `json.dumps` of an object of texts and nulls, its keys sorted
  pub dumps_object : List (String × Option String) → String
  pub sha256_hex : String → String
  pub from_isoformat : String → Option Moment
  pub isoformat : ℕ → String
  -- `none` when `urlsplit` raises
  pub url_split : String → Option Url
  -- `text.encode("idna").decode("ascii")`, `none` when it raises
  pub idna : String → Option String
