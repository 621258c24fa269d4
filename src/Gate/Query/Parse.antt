-- ===== src/Gate/Query/Parse.antt =====
-- PreParseGetParam finds the parameters that a client has encoded.
use xiguchat.Prelude.{
  ℕ, zero, suc, ◌/◌, ◌%◌, ◌≤◌, ◌<◌, ◌≡◌, refl, ◌∙◌, true, false, none, some, [], ◌∷◌, ◌++◌, ◌==◌,
  arith, Bool-cases, All, length, length-append, inl, inr, ◌⊎◌,
}
use xiguchat.Prelude.Text.{Text, is_empty}
use xiguchat.Gate.Url.{url_encode, is_plain, to_hex}
use xiguchat.Gate.Url.RoundTrip.{url_decode-url_encode}
use xiguchat.Gate.Query.{
  Params, set_param, split_at, set_decoded, add_pair, parse_query, pre_parse_get_param,
}

abbrev pub IsOther : ℕ → ℕ → Type 0
IsOther sep c = (c == sep) ≡ false

split_at-append :
    (sep : ℕ) (xs ys : Text) → All (IsOther sep) xs → split_at sep (xs ++ sep ∷ ys) ≡ some (xs, ys)
unfolding split_at
split_at-append sep [] ys other = ground arith
split_at-append sep (x ∷ xs) ys (first, other) = rw (first, split_at-append sep xs ys other) refl

split_at-none : (sep : ℕ) (xs : Text) → All (IsOther sep) xs → split_at sep xs ≡ none
unfolding split_at
split_at-none sep [] other = refl
split_at-none sep (x ∷ xs) (first, other) = rw (first, split_at-none sep xs other) refl

All-append : (P : ℕ → Type 0) (xs ys : Text) → All P xs → All P ys → All P (xs ++ ys)
All-append P [] ys a b = b
All-append P (x ∷ xs) ys (first, a) b = (first, All-append P xs ys a b)

-- The two separators do not occur in an encoded text.
abbrev IsSafe : ℕ → Type 0
IsSafe sep = (sep ≡ b'&') ⊎ (sep ≡ b'=')

is_plain-IsOther : (sep c : ℕ) → IsSafe sep → is_plain c ≡ true → IsOther sep c
unfolding is_plain
is_plain-IsOther sep c safe h = ground (arith, h, safe)

to_hex-IsOther : (sep x : ℕ) → IsSafe sep → x < 16 → IsOther sep (to_hex x)
unfolding to_hex
to_hex-IsOther sep x safe h = ground (arith, h, safe)

url_encode-IsOther :
    (sep : ℕ) (str : Text)
    → IsSafe sep
    → All (λ c. c < 256) str
    → All (IsOther sep) (url_encode str)
unfolding url_encode
url_encode-IsOther sep [] safe bytes = tt
url_encode-IsOther sep (c ∷ str) safe (byte, bytes) =
    let rest = url_encode-IsOther sep str safe bytes in
    let high = to_hex-IsOther sep (c / 16) safe (omega (arith, byte)) in
    let low = to_hex-IsOther sep (c % 16) safe (omega arith) in
    elim (Bool-cases (is_plain c)) [
      | inl plain ↦ rw (plain) (is_plain-IsOther sep c safe plain, rest)
      | inr special ↦ elim (Bool-cases (c == b' ')) [
        | inl space ↦ rw (special, space) (ground (arith, safe), rest)
        | inr other ↦ rw (special, other) (ground (arith, safe), (high, (low, rest)))
      ]
    ]

-- A parameter as a client writes it, and the query of several.
abbrev pub pair_of : Text × Text → Text
pair_of (key, value) = url_encode key ++ b'=' ∷ url_encode value

abbrev pub IsBytes : Text × Text → Type 0
IsBytes (key, value) = All (λ c. c < 256) key × All (λ c. c < 256) value

abbrev pub query_of : Params → Text
query_of [] = []
query_of (p ∷ []) = pair_of p
query_of (p ∷ q ∷ ps) = pair_of p ++ b'&' ∷ query_of (q ∷ ps)

abbrev pub set_all : Params → Params → Params
set_all params [] = params
set_all params ((key, value) ∷ ps) = set_all (set_param params key value) ps

add_pair-pair_of :
    (p : Text × Text) (params : Params)
    → IsBytes p
    → add_pair (pair_of p) params ≡ some (set_param params p.0 p.1)
unfolding add_pair set_decoded
add_pair-pair_of (key, value) params (k, v) =
    rw
      (
        add_pair,
        split_at-append b'=' (url_encode key) (url_encode value)
            (url_encode-IsOther b'=' key (inr refl) k),
        url_decode-url_encode key k,
        url_decode-url_encode value v,
      )
      refl

pair_of-IsOther : (p : Text × Text) → IsBytes p → All (IsOther b'&') (pair_of p)
pair_of-IsOther (key, value) (k, v) =
    All-append (IsOther b'&') (url_encode key) (b'=' ∷ url_encode value)
      (url_encode-IsOther b'&' key (inl refl) k) (refl, url_encode-IsOther b'&' value (inl refl) v)

text-cases : (xs : Text) → (xs ≡ []) ⊎ ((c : ℕ) × (rest : Text) × (xs ≡ c ∷ rest))
text-cases [] = inl refl
text-cases (c ∷ rest) = inr (c, rest, refl)

pair_of-cons : (p : Text × Text) → (is_empty (pair_of p) ≡ false) × (1 ≤ length (pair_of p))
pair_of-cons (key, value) = elim (text-cases (url_encode key)) [
  | inl e ↦ rw (e) (refl, omega arith)
  | inr (c, rest, e) ↦ rw (e) (refl, omega arith)
]

parse_query-last :
    (fuel : ℕ) (query : Text) (params params' : Params)
    → split_at b'&' query ≡ none
    → is_empty query ≡ false
    → add_pair query params ≡ some params'
    → parse_query (suc fuel) query params ≡ some params'
unfolding parse_query
parse_query-last fuel query params params' e full a = rw (parse_query, e, full, a) refl

parse_query-more :
    (fuel : ℕ) (query pair rest : Text) (params params' : Params)
    → split_at b'&' query ≡ some (pair, rest)
    → add_pair pair params ≡ some params'
    → parse_query (suc fuel) query params ≡ parse_query fuel rest params'
unfolding parse_query
parse_query-more fuel query pair rest params params' e a = rw (parse_query, e, a) refl

parse_query-query_of :
    (fuel : ℕ) (ps params : Params)
    → All IsBytes ps
    → length ps < fuel
    → parse_query fuel (query_of ps) params ≡ some (set_all params ps)
unfolding parse_query split_at
parse_query-query_of zero ps params bytes h = absurd (omega (arith, h))
parse_query-query_of (suc fuel) [] params bytes h = refl
parse_query-query_of (suc fuel) (p ∷ []) params (b, bytes) h =
    parse_query-last fuel (pair_of p) params (set_param params p.0 p.1)
      (split_at-none b'&' (pair_of p) (pair_of-IsOther p b)) (pair_of-cons p).0
      (add_pair-pair_of p params b)
parse_query-query_of (suc fuel) (p ∷ q ∷ ps) params (b, bytes) h =
    parse_query-more fuel (pair_of p ++ b'&' ∷ query_of (q ∷ ps)) (pair_of p) (query_of (q ∷ ps))
      params (set_param params p.0 p.1)
      (split_at-append b'&' (pair_of p) (query_of (q ∷ ps)) (pair_of-IsOther p b))
      (add_pair-pair_of p params b)
    ∙ parse_query-query_of fuel (q ∷ ps) (set_param params p.0 p.1) bytes (omega (arith, h))

length-query_of : (ps : Params) → length ps ≤ length (query_of ps)
length-query_of [] = omega arith
length-query_of (p ∷ []) = omega (arith, (pair_of-cons p).1)
length-query_of (p ∷ q ∷ ps) = omega (
  arith,
  length-query_of (q ∷ ps),
  (pair_of-cons p).1,
  length-append (pair_of p) (b'&' ∷ query_of (q ∷ ps)),
)

-- Of a target that is a path without a question mark and parameters that are encoded with UrlEncode,
-- whatever bytes they hold, PreParseGetParam finds the path, and each parameter, the last of those
-- with one key; it throws no exception.
pub pre_parse_get_param-query_of :
    (url : Text) (ps : Params)
    → All (IsOther b'?') url
    → All IsBytes ps
    → pre_parse_get_param (url ++ b'?' ∷ query_of ps) ≡ some (url, set_all [] ps)
unfolding pre_parse_get_param
pre_parse_get_param-query_of url ps path bytes =
    rw
      (
        pre_parse_get_param,
        split_at-append b'?' url (query_of ps) path,
        parse_query-query_of (suc (length (query_of ps))) ps [] bytes
            (omega (arith, length-query_of ps)),
      )
      refl
