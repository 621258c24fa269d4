-- ===== src/Chat/Json.antt =====
-- What the server uses of jsoncpp's Json::Value, which is not part of the repository: the tests and
-- conversions of a value, its members (null where there is none) and its elements.
use xiguchat.Prelude.{Bool, List}
use xiguchat.Prelude.Text.{Text}
use xiguchat.Prelude.Int.{ℤ}

pub record Json : Type 1 where
  pub Value : Type 0
  pub is_object : Value → Bool
  pub is_int : Value → Bool
  pub is_int64 : Value → Bool
  pub is_string : Value → Bool
  pub is_array : Value → Bool
  pub as_int : Value → ℤ
  pub as_int64 : Value → ℤ
  pub as_string : Value → Text
  pub member : Value → Text → Value
  pub is_member : Value → Text → Bool
  pub elements : Value → List Value
