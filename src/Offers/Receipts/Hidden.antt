-- ===== src/Offers/Receipts/Hidden.antt =====
-- packages/offerrail/receipts.py: which keys and texts are redacted, said with the parts of a text.
use Prim.Native.Char.{Char}
use Prim.Native.String.{[] as nil, ◌∷◌ as cons, ◌++◌}
use Prim.Native.String.append.{nil as append_nil, cons as append_cons}
use text.Mathlib.TextEquality.{Char-path}
use autonomerce.Prelude.{
  ◌≡◌, refl, sym, ◌↔◌, ◌⊎◌, inl, inr, String, Bool, true, false, ◌&&◌, arith, Among, contains,
  contains_sound, contains_complete, Bool-cases, ◌==◌, string_eq, if◌then◌else◌,
}
use autonomerce.Prelude.Text.{Runtime}
use autonomerce.Payments.Models.Names.{ends_with}
use autonomerce.Offers.Hosts.{starts_with, includes}
use autonomerce.Offers.Receipts.{
  Codec, secret_keys, private_identity_keys, prompt_keys, keep_alnum, is_hidden, redact_string,
  redacted,
}

-- a text that ends in another one
abbrev pub Ends : String → String → Type 0
Ends suffix s = (before : String) × (s ≡ before ++ suffix)

ends_with_sound : (suffix s : String) → ends_with suffix s ≡ true → Ends suffix s
unfolding ends_with
ends_with_sound suffix nil h = ("", rw (append_nil suffix) (ground arith))
ends_with_sound suffix (cons c s) h = elim (Bool-cases (cons c s == suffix)) [
  | inl same ↦ ("", rw (append_nil suffix) (ground arith))
  | inr other ↦
      let w = ends_with_sound suffix s (ground arith) in
      (cons c w.0, ground (arith, w.1, append_cons c w.0 suffix))
]

ends_with_whole : (suffix : String) → ends_with suffix suffix ≡ true
unfolding ends_with
ends_with_whole nil = ground arith
ends_with_whole (cons c s) = ground arith

ends_with_complete : (suffix before : String) → ends_with suffix (before ++ suffix) ≡ true
unfolding ends_with
ends_with_complete suffix nil = rw (append_nil suffix) (ends_with_whole suffix)
ends_with_complete suffix (cons c before) =
    rw (append_cons c before suffix) (ground (arith, ends_with_complete suffix before))

-- a text that begins with another one
abbrev pub Begins : String → String → Type 0
Begins part s = (after : String) × (s ≡ part ++ after)

starts_with_sound : (part s : String) → starts_with part s ≡ true → Begins part s
unfolding starts_with
starts_with_sound nil s h = (s, sym (append_nil s))
starts_with_sound (cons c p) nil h = absurd (ground arith)
starts_with_sound (cons c p) (cons d s) h =
    let w = starts_with_sound p s (ground arith) in
    (w.0, ground (arith, w.1, append_cons c p w.0, Char-path c d (ground arith)))

starts_with_complete : (part after : String) → starts_with part (part ++ after) ≡ true
unfolding starts_with
starts_with_complete nil after = refl
starts_with_complete (cons c p) after =
    rw (append_cons c p after) (ground (arith, starts_with_complete p after))

-- a text that another one is a part of
abbrev pub Includes : String → String → Type 0
Includes part s = (before : String) × (after : String) × (s ≡ before ++ (part ++ after))

includes_sound : (part s : String) → includes part s ≡ true → Includes part s
unfolding includes
includes_sound part nil h =
    let empty : part ≡ "" = ground arith in
    ("", "", rw (append_nil (part ++ ""), empty, append_nil "") refl)
includes_sound part (cons c s) h = elim (Bool-cases (starts_with part (cons c s))) [
  | inl here ↦
      let w = starts_with_sound part (cons c s) here in
      ("", w.0, ground (arith, w.1, append_nil (part ++ w.0)))
  | inr later ↦
      let w = includes_sound part s (ground arith) in
      (cons c w.0, w.1, ground (arith, w.2, append_cons c w.0 (part ++ w.1)))
]

includes_begun : (part s : String) → starts_with part s ≡ true → includes part s ≡ true
unfolding includes starts_with
includes_begun nil nil h = ground arith
includes_begun (cons c p) nil h = absurd (ground arith)
includes_begun part (cons c s) h = ground (arith, h)

includes_complete : (part before after : String) → includes part (before ++ (part ++ after)) ≡ true
unfolding includes
includes_complete part nil after =
    rw (append_nil (part ++ after))
      (includes_begun part (part ++ after) (starts_with_complete part after))
includes_complete part (cons c before) after =
    rw (append_cons c before (part ++ after)) (ground (arith, includes_complete part before after))

includes_iff : (part s : String) → (includes part s ≡ true) ↔ Includes part s
includes_iff part s =
    (includes_sound part s, λ (before, after, same). rw same (includes_complete part before after))

ends_with_iff : (suffix s : String) → (ends_with suffix s ≡ true) ↔ Ends suffix s
ends_with_iff suffix s =
    (ends_with_sound suffix s, λ (before, same). rw same (ends_with_complete suffix before))

-- the letters and digits of a text, in their order
pub data Letters (py : Runtime) : String → String → Type 0 where
  none_left : Letters py "" ""
  kept :
      {c : Char} {s name : String}
      → py.isalnum (cons c "") ≡ true
      → Letters py s name
      → Letters py (cons c s) (cons c name)
  dropped :
      {c : Char} {s name : String}
      → py.isalnum (cons c "") ≡ false
      → Letters py s name
      → Letters py (cons c s) name

keep_alnum-Letters : (py : Runtime) (s : String) → Letters py s (keep_alnum py s)
unfolding keep_alnum
keep_alnum-Letters py nil = none_left
keep_alnum-Letters py (cons c s) = elim (Bool-cases (py.isalnum (cons c ""))) [
  | inl yes_kept ↦ rw (yes_kept, if◌then◌else◌) (kept yes_kept (keep_alnum-Letters py s))
  | inr not_kept ↦ rw (not_kept, if◌then◌else◌) (dropped not_kept (keep_alnum-Letters py s))
]

Letters-keep_alnum : (py : Runtime) (s name : String) → Letters py s name → name ≡ keep_alnum py s
unfolding keep_alnum
Letters-keep_alnum py _ _ none_left = refl
Letters-keep_alnum py _ _ (kept {c} {s} {name} k l) =
    ground (arith, k, Letters-keep_alnum py s name l)
Letters-keep_alnum py _ _ (dropped {c} {s} {name} k l) =
    ground (arith, k, Letters-keep_alnum py s name l)

-- a key that is redacted, by its letters and digits in lower case
abbrev pub Hidden : Runtime → Bool → String → Type 0
Hidden py allow_prompt key =
    (name : String) × Letters py (py.lower key) name
    × (Among name secret_keys
        ⊎ (Ends "accesstoken" name
            ⊎ (Ends "sessiontoken" name
                ⊎ (Among name private_identity_keys
                    ⊎ ((allow_prompt ≡ false) × Among name prompt_keys)))))

pub is_hidden_iff :
    (py : Runtime) (allow_prompt : Bool) (key : String)
    → (is_hidden py allow_prompt key ≡ true) ↔ Hidden py allow_prompt key
unfolding is_hidden
is_hidden_iff py allow_prompt key =
    let found = keep_alnum py (py.lower key) in
    let access = ends_with_iff "accesstoken" found in
    let session = ends_with_iff "sessiontoken" found in
    (
      λ h. (
        found,
        keep_alnum-Letters py (py.lower key),
        elim (Bool-cases (contains found secret_keys)) [
          | inl a ↦ inl (contains_sound found secret_keys a)
          | inr a ↦ elim (Bool-cases (ends_with "accesstoken" found)) [
            | inl b ↦ inr (inl (access.0 b))
            | inr b ↦ elim (Bool-cases (ends_with "sessiontoken" found)) [
              | inl d ↦ inr (inr (inl (session.0 d)))
              | inr d ↦ elim (Bool-cases (contains found private_identity_keys)) [
                | inl e ↦ inr (inr (inr (inl (contains_sound found private_identity_keys e))))
                | inr e ↦ inr (
                    inr (inr (inr (ground arith, contains_sound found prompt_keys (ground arith)))))
              ]
            ]
          ]
        ],
      ),
      λ (name, letters, w).
          let same = Letters-keep_alnum py (py.lower key) name letters in
          elim w [
            | inl a ↦ ground (arith, contains_complete name secret_keys a)
            | inr (inl b) ↦ ground (arith, (ends_with_iff "accesstoken" name).1 b)
            | inr (inr (inl d)) ↦ ground (arith, (ends_with_iff "sessiontoken" name).1 d)
            | inr (inr (inr (inl e))) ↦
                ground (arith, contains_complete name private_identity_keys e)
            | inr (inr (inr (inr (f, g)))) ↦ ground (arith, contains_complete name prompt_keys g)
          ],
    )

-- a text that holds both marks of a private key
abbrev pub HoldsKey : String → Type 0
HoldsKey s = Includes "-----BEGIN" s × Includes "PRIVATE KEY-----" s

-- the text that stands in place of another one
abbrev pub Scrubbed : Codec → String → String → Type 0
Scrubbed c raw s =
    (HoldsKey raw → s ≡ redacted) × (¬ HoldsKey raw → s ≡ c.sub_key (c.sub_query (c.sub_auth raw)))

pub redact_string-Scrubbed : (c : Codec) (raw : String) → Scrubbed c raw (redact_string c raw)
unfolding redact_string
redact_string-Scrubbed c raw =
    let begins = includes_iff "-----BEGIN" raw in
    let key = includes_iff "PRIVATE KEY-----" raw in
    (
      λ (b, k). ground (arith, begins.1 b, key.1 k),
      λ clean. elim (Bool-cases (includes "-----BEGIN" raw && includes "PRIVATE KEY-----" raw)) [
        | inl both ↦ elim (clean (begins.0 (ground arith), key.0 (ground arith))) [ ]
        | inr other ↦ ground arith
      ],
    )
