-- ===== src/Gate/Outside.antt =====
-- What the GateServer and the VerifyServer use that is not part of the repository, as one parameter:
-- the Redis server behind hiredis, the MySQL server behind the X DevAPI, libsodium, Boost's UUIDs,
-- the SMTP server behind POCO, and jsoncpp.
use xiguchat.Prelude.{ℕ, Bool, Option}
use xiguchat.Prelude.Text.{Text}
use xiguchat.Prelude.Int.{ℤ}
use xiguchat.Chat.Json.{Json}
use xiguchat.Chat.World.{Doc, Reply}
use xiguchat.Chat.Database.{Query}

-- A row of the table user.
pub record UserRow : Type 0 where
  pub uid : ℤ
  pub name : Text
  pub pwd : Text

pub record Outside : Type 1 where
  pub json : Json
  pub State : Type 0
  pub parse : Text → Option (Json.Value json)
  pub to_styled_string : Doc → Text
  -- Whether getConnection of the Redis pool gives a connection; GET, and SETEX with the seconds.
  pub redis_open : State → Bool
  pub get : Text → State → Option Reply × State
  pub set_ex : Text → ℕ → Text → State → Option Reply × State
  -- getConnection of the MySQL pool, false for a null pointer, and returnConnection of a healthy
  -- connection or not.
  pub get_connection : State → Bool × State
  pub return_connection : Bool → State → State
  -- CALL reg_user with the name, the email and the password, and SELECT @result.
  pub call_reg_user : Text → Text → Text → Query State (Unit {0})
  pub select_result : Query State (Option ℤ)
  -- The email of a name, UPDATE of the password of a name, and the row of an email.
  pub select_email : Text → Query State (Option Text)
  pub update_user : Text → Text → Query State (Unit {0})
  pub select_login : Text → Query State (Option UserRow)
  -- crypto_pwhash_str, none where it does not return 0, and whether crypto_pwhash_str_verify of the
  -- stored text and the password returns 0.
  pub pwhash_str : Text → State → Option Text × State
  pub pwhash_str_verify : Text → Text → Bool
  -- A random UUID as text; none: the generator throws.
  pub new_uuid : State → Option Text × State
  -- EmailSender::Send to the address, with the subject and the text.
  pub send_mail : Text → Text → Text → State → Bool × State
