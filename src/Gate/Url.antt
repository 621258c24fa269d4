-- ===== src/Gate/Url.antt =====
-- server/services/GateServer/src/HttpConnection.cpp: ToHex, FromHex, UrlEncode and UrlDecode. A char
-- is its byte; none is the std::invalid_argument that is thrown.
pub mod RoundTrip
use xiguchat.Prelude.{
  ℕ, ◌+◌, ◌-◌, ◌*◌, ◌/◌, ◌%◌, Bool, true, false, ◌&&◌, ◌||◌, Option, none, some, List, [], ◌∷◌, ltb,
  leb, ◌==◌, if◌then◌else◌,
}
use xiguchat.Prelude.Text.{Text}

unfoldable pub to_hex : ℕ → ℕ
to_hex x = if ltb 9 x then x + 55 else x + 48

unfoldable pub from_hex : ℕ → Option ℕ
from_hex x =
    if leb b'A' x && leb x b'F'
    then some (x - b'A' + 10)
    else if leb b'a' x && leb x b'f'
    then some (x - b'a' + 10)
    else if leb b'0' x && leb x b'9'
    then some (x - b'0')
    else none

-- isalnum, and the four marks.
unfoldable pub is_plain : ℕ → Bool
is_plain c =
    (leb b'0' c && leb c b'9')
    || ((leb b'A' c && leb c b'Z')
        || ((leb b'a' c && leb c b'z')
            || ((c == b'-') || ((c == b'_') || ((c == b'.') || (c == b'~'))))))

unfoldable pub url_encode : Text → Text
unfolding is_plain to_hex
url_encode [] = []
url_encode (c ∷ str) =
    let rest = url_encode str in
    if is_plain c
    then c ∷ rest
    else if c == b' '
    then b'+' ∷ rest
    else b'%' ∷ to_hex (c / 16) ∷ to_hex (c % 16) ∷ rest

-- A character that starts no escape.
unfoldable pub decode_plain : ℕ → Option Text → Option Text
decode_plain c none = none
decode_plain c (some rest) = some ((if c == b'+' then b' ' else c) ∷ rest)

unfoldable pub decode_escape : Option ℕ → Option ℕ → Option Text → Option Text
decode_escape (some high) (some low) (some rest) = some ((high * 16 + low) % 256 ∷ rest)
decode_escape _ _ _ = none

-- A per cent sign needs two characters behind it.
unfoldable pub url_decode : Text → Option Text
unfolding decode_plain decode_escape from_hex
url_decode [] = some []
url_decode (c ∷ []) = if c == b'%' then none else decode_plain c (some [])
url_decode (c ∷ a ∷ []) = elim (c == b'%') [
  | true ↦ none
  | false ↦ decode_plain c (url_decode (a ∷ []))
]
url_decode (c ∷ a ∷ b ∷ str) = elim (c == b'%') [
  | true ↦ decode_escape (from_hex a) (from_hex b) (url_decode str)
  | false ↦ decode_plain c (url_decode (a ∷ b ∷ str))
]
