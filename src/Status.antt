-- ===== src/Status.antt =====
-- The StatusServer (server/services/StatusServer/): src/StatusServiceImpl.cpp, the choice of a chat
-- server by the numbers of connections in Redis, and the tokens of logins. Redis and the UUIDs of
-- the tokens are a parameter. The servers are in any order that the unordered_map gives them.
pub mod Choice
pub mod Token
use xiguchat.Prelude.{
  ℕ, Bool, true, false, not, ◌&&◌, ◌||◌, Option, none, some, List, [], ◌∷◌, ◌++◌, ltb,
  if◌then◌else◌,
}
use xiguchat.Prelude.Text.{Text, codes, text_eq, is_empty}
use xiguchat.Prelude.Int.{ℤ, pos, negsuc, is_positive}
use xiguchat.Prelude.Decimal.{to_string, from_chars, Parsed, value}

pub record ChatServer : Type 0 where
  pub host : Text
  pub port : Text
  pub name : Text
  pub con_count : ℕ

abbrev pub no_server : ChatServer
no_server = record { host = []; port = []; name = []; con_count = 0 }

-- A count that is read to the end and is not negative.
abbrev pub whole_count : Parsed → Option ℕ
whole_count (value (pos n) rest) = if is_empty rest then some n else none
whole_count _ = none

-- The count of a server that may be chosen; none: the loop goes on to the next.
unfoldable pub candidate : Text → ChatServer → Option ℕ
candidate count server =
    if is_empty server.host || is_empty server.port then none else whole_count (from_chars count)

unfoldable pub select : ChatServer → ChatServer → Option ℕ → ChatServer
select selected server none = selected
select selected server (some n) =
    if is_empty selected.name || ltb n selected.con_count
    then record server { con_count = n }
    else selected

-- The loop of getChatServer; `count` is HGet of LOGIN_COUNT.
unfoldable pub scan : (Text → Text) → ChatServer → List ChatServer → ChatServer
unfolding candidate select
scan count selected [] = selected
scan count selected (server ∷ servers) =
    scan count (select selected server (candidate (count server.name) server)) servers

unfoldable pub get_chat_server : (Text → Text) → List ChatServer → ChatServer
unfolding scan
get_chat_server count servers = scan count no_server servers

-- What the service uses of Redis and of Boost.
pub record Redis : Type 1 where
  pub State : Type 0
  pub hget : Text → Text → State → Text
  pub get : Text → State → Option Text
  pub set : Text → Text → State → Bool × State
  pub new_uuid : State → Text × State

-- The answers of the two calls; host, port and token are empty where the source does not set them.
pub data StatusError : Type 0 where
  success rpc_failed token_invalid uid_invalid : StatusError

pub record GetChatServerRsp : Type 0 where
  pub error : StatusError
  pub host : Text
  pub port : Text
  pub token : Text

abbrev pub get_chat_server_failed : GetChatServerRsp
get_chat_server_failed = record { error = rpc_failed; host = []; port = []; token = [] }

pub record LoginRsp : Type 0 where
  pub error : StatusError
  pub uid : ℤ
  pub token : Text

abbrev pub login_failed : StatusError → LoginRsp
login_failed error = record { error = error; uid = pos 0; token = [] }

abbrev pub token_key : ℤ → Text
token_key uid = codes "utoken_" ++ to_string uid

module _ (redis : Redis) where
  open redis use {State, hget, get, set, new_uuid}

  insert_token : ℤ → Text → State → Bool × State
  insert_token uid token = set (token_key uid) token

  unfoldable pub answer_chat_server : ChatServer → ℤ → State → GetChatServerRsp × State
  unfolding insert_token
  answer_chat_server server uid s =
      let (token, s') = new_uuid s in
      let (written, s'') = insert_token uid token s' in
      if not (is_positive uid) || is_empty server.name
      then (get_chat_server_failed, s)
      else if written
      then (record { error = success; host = server.host; port = server.port; token = token }, s'')
      else (get_chat_server_failed, s'')

  unfoldable pub get_chat_server_rpc : List ChatServer → ℤ → State → GetChatServerRsp × State
  unfolding get_chat_server answer_chat_server
  get_chat_server_rpc servers uid s =
      answer_chat_server (get_chat_server (λ name. hget (codes "logincount") name s) servers) uid s

  login_answer : ℤ → Text → Option Text → LoginRsp
  login_answer uid token none = login_failed uid_invalid
  login_answer uid token (some token_value) =
      if text_eq token_value token
      then record { error = success; uid = uid; token = token }
      else login_failed token_invalid

  unfoldable pub login_rpc : ℤ → Text → State → LoginRsp
  unfolding login_answer
  login_rpc uid token s = login_answer uid token (get (token_key uid) s)
