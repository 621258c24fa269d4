-- ===== src/Gate/Query.antt =====
-- server/services/GateServer/src/HttpConnection.cpp: PreParseGetParam. The target of a request is
-- its bytes, and _get_params the list of its entries; none is an exception of UrlDecode, which the
-- caller answers with 400.
pub mod Parse
use xiguchat.Prelude.{
  ℕ, zero, suc, Bool, true, false, Option, none, some, List, [], ◌∷◌, ◌==◌, if◌then◌else◌, length,
}
use xiguchat.Prelude.Text.{Text, text_eq, is_empty}
use xiguchat.Gate.Url.{url_decode}

abbrev pub Params : Type 0
Params = List (Text × Text)

-- _get_params[key] = value
unfoldable pub set_param : Params → Text → Text → Params
set_param [] key value = (key, value) ∷ []
set_param ((name, old) ∷ params) key value =
    let rest = set_param params key value in
    if text_eq name key then (name, value) ∷ params else (name, old) ∷ rest

abbrev pub before : ℕ → Option (Text × Text) → Option (Text × Text)
before c none = none
before c (some (head, rest)) = some (c ∷ head, rest)

-- find of a character, and the texts in front of it and behind it.
unfoldable pub split_at : ℕ → Text → Option (Text × Text)
split_at sep [] = none
split_at sep (c ∷ str) =
    let rest = split_at sep str in if c == sep then some ([], str) else before c rest

unfoldable pub set_decoded : Params → Option Text → Option Text → Option Params
unfolding set_param
set_decoded params (some key) (some value) = some (set_param params key value)
set_decoded params _ _ = none

-- A pair without an equals sign is left out.
unfoldable pub add_pair : Text → Params → Option Params
unfolding split_at set_decoded
add_pair pair params = elim (split_at b'=' pair) [
  | none ↦ some params
  | some (key, value) ↦ set_decoded params (url_decode key) (url_decode value)
]

abbrev pub last_pair : Text → Params → Option Params
last_pair query params = if is_empty query then some params else add_pair query params

-- The loop on fuel: each round takes at least a separator off the query.
unfoldable pub parse_query : ℕ → Text → Params → Option Params
unfolding split_at
parse_query zero query params = none
parse_query (suc fuel) query params = elim (split_at b'&' query) [
  | none ↦ last_pair query params
  | some (pair, rest) ↦ elim (add_pair pair params) [
    | none ↦ none
    | some params' ↦ parse_query fuel rest params'
  ]
]

abbrev pub with_url : Text → Option Params → Option (Text × Params)
with_url url none = none
with_url url (some params) = some (url, params)

unfoldable pub pre_parse_get_param : Text → Option (Text × Params)
unfolding split_at parse_query
pre_parse_get_param uri = elim (split_at b'?' uri) [
  | none ↦ some (uri, [])
  | some (url, query) ↦ with_url url (parse_query (suc (length query)) query [])
]
