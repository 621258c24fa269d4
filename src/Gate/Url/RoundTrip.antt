-- ===== src/Gate/Url/RoundTrip.antt =====
-- Decoding takes back what encoding did.
use xiguchat.Prelude.{
  ℕ, ◌+◌, ◌*◌, ◌/◌, ◌%◌, ◌<◌, ◌≡◌, refl, ap, ◌∙◌, true, false, some, [], ◌∷◌, ◌==◌, if◌then◌else◌,
  arith, Bool-cases, All, inl, inr,
}
use xiguchat.Prelude.Text.{Text}
use xiguchat.Gate.Url.{
  to_hex, from_hex, is_plain, url_encode, decode_plain, decode_escape, url_decode,
}

from_hex-to_hex : (x : ℕ) → x < 16 → from_hex (to_hex x) ≡ some x
unfolding from_hex to_hex
from_hex-to_hex x h = ground arith

-- A character other than a per cent sign is decoded by itself.
url_decode-plain :
    (c : ℕ) (str : Text)
    → (c == b'%') ≡ false
    → url_decode (c ∷ str) ≡ decode_plain c (url_decode str)
unfolding url_decode
url_decode-plain c [] h = ground (arith, h)
url_decode-plain c (a ∷ []) h = ground (arith, h)
url_decode-plain c (a ∷ b ∷ str) h = ground (arith, h)

is_plain-not_sign : (c : ℕ) → is_plain c ≡ true → ((c == b'%') ≡ false) × ((c == b'+') ≡ false)
unfolding is_plain
is_plain-not_sign c h = ground (arith, h)

high_and_low :
    (c : ℕ) → c < 256 → (c / 16 < 16) × (c % 16 < 16) × ((c / 16 * 16 + c % 16) % 256 ≡ c)
high_and_low c h = (omega (arith, h), omega arith, omega (arith, h))

url_decode_empty : url_decode [] ≡ some []
unfolding url_decode
url_decode_empty = refl

-- One character, before a text whose decoding is known.
module _ (c : ℕ) (t str : Text) (e : url_decode t ≡ some str) where
  decoded_plain : is_plain c ≡ true → url_decode (c ∷ t) ≡ some (c ∷ str)
  unfolding decode_plain
  decoded_plain plain =
      let (percent, plus) = is_plain-not_sign c plain in
      url_decode-plain c t percent ∙ rw (e, plus) refl

  decoded_space : (c == b' ') ≡ true → url_decode (b'+' ∷ t) ≡ some (c ∷ str)
  unfolding decode_plain
  decoded_space space =
      let same : b' ' ≡ c = ground (arith, space) in
      url_decode-plain b'+' t refl ∙ (rw (e) refl) ∙ ap (λ (x : ℕ). some (x ∷ str)) same

  decoded_escape :
      c < 256 → url_decode (b'%' ∷ to_hex (c / 16) ∷ to_hex (c % 16) ∷ t) ≡ some (c ∷ str)
  unfolding url_decode decode_escape
  decoded_escape byte =
      let (high, low, whole) = high_and_low c byte in
      rw (from_hex-to_hex (c / 16) high, from_hex-to_hex (c % 16) low, e, whole) refl

  decoded_one :
      c < 256
      → url_decode (
          if is_plain c
          then c ∷ t
          else if c == b' '
          then b'+' ∷ t
          else b'%' ∷ to_hex (c / 16) ∷ to_hex (c % 16) ∷ t)
        ≡ some (c ∷ str)
  decoded_one byte = elim (Bool-cases (is_plain c)) [
    | inl plain ↦ rw (plain) (decoded_plain plain)
    | inr special ↦ elim (Bool-cases (c == b' ')) [
      | inl space ↦ rw (special, space) (decoded_space space)
      | inr other ↦ rw (special, other) (decoded_escape byte)
    ]
  ]

-- UrlDecode of what UrlEncode makes of a text of bytes never throws and is the text.
pub url_decode-url_encode :
    (str : Text) → All (λ c. c < 256) str → url_decode (url_encode str) ≡ some str
unfolding url_encode
url_decode-url_encode [] bytes = url_decode_empty
url_decode-url_encode (c ∷ str) (byte, bytes) =
    decoded_one c (url_encode str) str (url_decode-url_encode str bytes) byte
