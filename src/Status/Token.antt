-- ===== src/Status/Token.antt =====
-- The token that the StatusServer issues is the one that it, and LoginHandler of the ChatServer,
-- find under the same key.
use xiguchat.Prelude.{◌≡◌, refl, true, some, List, arith}
use xiguchat.Prelude.Text.{Text, codes, text_eq_refl}
use xiguchat.Prelude.Int.{ℤ}
use xiguchat.Status.{
  ChatServer, get_chat_server, Redis, success, token_key, answer_chat_server, get_chat_server_rpc,
  login_rpc,
}

-- What Redis documents of SET and GET of one key.
abbrev pub KeepsValues : Redis → Type 0
KeepsValues redis =
    (key v : Text) (s : Redis.State redis)
    → (Redis.set redis key v s).0 ≡ true
    → Redis.get redis key (Redis.set redis key v s).1 ≡ some v

module _ (redis : Redis) where
  -- An issued token comes with a chat server that has a name, for a positive uid, and is the value
  -- of the user's token key in Redis.
  answer-success :
      (server : ChatServer) (uid : ℤ) (s : Redis.State redis)
      → KeepsValues redis
      → (answer_chat_server redis server uid s).0.error ≡ success
      → Redis.get redis (token_key uid) (answer_chat_server redis server uid s).1
        ≡ some (answer_chat_server redis server uid s).0.token
  unfolding answer_chat_server
  answer-success server uid s keeps ok =
      let (token, s') = redis.new_uuid s in ground (arith, keeps (token_key uid) token s')

  -- After a successful GetChatServer, Login with its uid and token succeeds and answers with both.
  pub get_chat_server-login :
      (servers : List ChatServer) (uid : ℤ) (s : Redis.State redis)
      → KeepsValues redis
      → (get_chat_server_rpc redis servers uid s).0.error ≡ success
      → (let (rsp, s') = get_chat_server_rpc redis servers uid s in
          login_rpc redis uid rsp.token s'
          ≡ record { error = success; uid = uid; token = rsp.token })
  unfolding get_chat_server_rpc login_rpc
  get_chat_server-login servers uid s keeps ok =
      let server = get_chat_server (λ name. redis.hget (codes "logincount") name s) servers in
      rw
        (
          answer-success server uid s keeps ok,
          text_eq_refl (answer_chat_server redis server uid s).0.token,
        )
        refl
