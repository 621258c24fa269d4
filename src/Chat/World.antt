-- ===== src/Chat/World.antt =====
-- What a ChatServer process uses that is not part of the repository, as one parameter: the Redis
-- server behind hiredis, Boost's UUIDs, the clock, jsoncpp, and the calls that leave the process.
use xiguchat.Prelude.{ℕ, Bool, Option, if◌then◌else◌}
use xiguchat.Prelude.Text.{Text, text_eq, text_lt}
use xiguchat.Prelude.Int.{ℤ}
use xiguchat.Chat.Json.{Json}
use xiguchat.Chat.Database.{Database}
use xiguchat.Chat.Messages.{AddFriendReq, AuthFriendReq, TextChatMsgReq}

-- The commands that the process sends to Redis.
pub data Command : Type 0 where
  get : Text → Command
  set : Text → Text → Command
  del : Text → Command
  hset : Text → Text → Text → Command
  set_nx_ex : Text → Text → ℕ → Command
  del_if_equal : Text → Text → Command

-- A redisReply by its type; no reply is a null pointer.
pub data Reply : Type 0 where
  string : Text → Reply
  status : Text → Reply
  integer : ℤ → Reply
  other : Reply

-- A Json::Value that the server builds, and toStyledString prints.
mutual
  pub data Doc : Type 0 where
    null : Doc
    int : ℤ → Doc
    text : Text → Doc
    bool : Bool → Doc
    object : Fields → Doc
    array : Docs → Doc

  pub data Fields : Type 0 where
    none_yet : Fields
    with_field : Fields → Text → Doc → Fields

  pub data Docs : Type 0 where
    no_docs : Docs
    then_doc : Docs → Doc → Docs

-- operator[] and an assignment; the members are in the order of their names.
unfoldable pub set_field : Fields → Text → Doc → Fields
set_field none_yet key doc = with_field none_yet key doc
set_field (with_field fields name value) key doc =
    let rest = set_field fields key doc in
    if text_eq name key
    then with_field fields name doc
    else if text_lt name key
    then with_field (with_field fields name value) key doc
    else with_field rest name value

pub record World : Type 1 where
  pub json : Json
  pub State : Type 0
  pub command : Command → State → Option Reply × State
  pub new_uuid : State → Text × State
  -- Milliseconds of the steady clock, seconds of std::time, and sleep_for.
  pub steady_now : State → ℕ × State
  pub time_now : State → ℕ × State
  pub sleep_ms : ℕ → State → State
  pub parse : Text → Option (Json.Value json)
  pub to_styled_string : Doc → Text
  pub db : Database State
  -- The name of SelfServer in the configuration, and the calls of ChatGrpcClient to the named
  -- server; that of a text message returns the error of the answer.
  pub self_name : Text
  pub notify_kick_user : Text → ℤ → State → State
  pub notify_add_friend : Text → AddFriendReq → State → State
  pub notify_auth_friend : Text → AuthFriendReq → State → State
  pub notify_text_chat_msg : Text → TextChatMsgReq → State → ℤ × State
