-- ===== src/Chat/Notify.antt =====
-- server/services/ChatServer/src/ChatServiceImpl.cpp: the requests of other ChatServers, and the
-- messages that a server sends to a user's session, its own or on behalf of another server.
use xiguchat.Prelude.{ℕ, Option, none, some, [], ◌∷◌, ◌++◌}
use xiguchat.Prelude.Text.{Text, codes}
use xiguchat.Prelude.Int.{ℤ}
use xiguchat.Prelude.Decimal.{to_string}
use xiguchat.Chat.Protocol.{
  success, uid_invalid, error_number, user_base_info, notify_add_friend_req, notify_auth_friend_req,
  notify_text_chat_msg_req,
}
use xiguchat.Chat.Data.{UserInfo}
use xiguchat.Chat.Messages.{
  AddFriendReq, AddFriendRsp, TextChatData, AuthFriendReq, AuthFriendRsp, TextChatMsgReq,
  TextChatMsgRsp, KickUserRsp,
}
use xiguchat.Chat.World.{
  World, Doc, null, int, text, object, array, Fields, none_yet, Docs, no_docs, then_doc,
}
use xiguchat.Chat.Process.{Action, pure, skip, ◌>>=◌, ◌>>◌}
use xiguchat.Chat.Registry.{get_session, clear_session}
use xiguchat.Chat.Cleanup.{send, notify_offline}
use xiguchat.Chat.Reply.{put_fields, append_each, set_error}
use xiguchat.Chat.Login.{get_base_info}

abbrev pub success_number : ℤ
success_number = error_number success

abbrev pub add_friend_notice : AddFriendReq → Doc
add_friend_notice req = object (
    put_fields none_yet (
      (codes "error", int success_number)
      ∷ (codes "applyuid", int req.applyuid)
      ∷ (codes "name", text req.name)
      ∷ (codes "desc", text req.desc)
      ∷ (codes "icon", text req.icon)
      ∷ (codes "sex", int req.sex)
      ∷ (codes "nick", text req.nick)
      ∷ []))

abbrev pub text_element : ℤ → TextChatData → Doc
text_element thread_id msg = object (
    put_fields none_yet (
      (codes "content", text msg.msgcontent)
      ∷ (codes "msgid", text msg.msgid)
      ∷ (codes "message_id", int msg.message_id)
      ∷ (codes "thread_id", int thread_id)
      ∷ (codes "status", int msg.status)
      ∷ []))

-- A Json::Value that elements were appended to: null if there was none.
abbrev pub appended : Docs → Doc
appended no_docs = null
appended (then_doc docs doc) = array (then_doc docs doc)

abbrev pub text_notice : TextChatMsgReq → Doc
text_notice req = object (
    put_fields none_yet (
      (codes "error", int success_number)
      ∷ (codes "fromuid", int req.fromuid)
      ∷ (codes "touid", int req.touid)
      ∷ (codes "thread_id", int req.thread_id)
      ∷ (
        codes "text_array",
        appended (append_each (text_element req.thread_id) no_docs req.textmsgs),
      )
      ∷ []))

abbrev pub welcome_element : ℤ → TextChatData → Doc
welcome_element thread_id msg = object (
    put_fields none_yet (
      (codes "msgid", text msg.msgid)
      ∷ (codes "content", text msg.msgcontent)
      ∷ (codes "message_id", int msg.message_id)
      ∷ (codes "thread_id", int thread_id)
      ∷ (codes "status", int msg.status)
      ∷ (codes "fromuid", int msg.fromuid)
      ∷ (codes "touid", int msg.touid)
      ∷ []))

-- What the message says of the user who has agreed.
unfoldable pub set_agreed : Fields → Option UserInfo → Fields
unfolding put_fields
set_agreed fields none = set_error fields uid_invalid
set_agreed fields (some user) = put_fields fields (
    (codes "name", text user.name)
    ∷ (codes "nick", text user.nick)
    ∷ (codes "icon", text user.icon)
    ∷ (codes "sex", int user.sex)
    ∷ [])

abbrev pub auth_fields : AuthFriendReq → Fields
auth_fields req = put_fields none_yet (
    (codes "error", int success_number)
    ∷ (codes "fromuid", int req.fromuid)
    ∷ (codes "touid", int req.touid)
    ∷ (codes "thread_id", int req.thread_id)
    ∷ (
      codes "welcome_msgs",
      array (append_each (welcome_element req.thread_id) no_docs req.welcome_msgs),
    )
    ∷ [])

module _ (w : World) where
  -- A message to the session that UserMgr has for a user, if it has one.
  unfoldable pub send_to : Option Text → Doc → ℕ → Action w (Unit {0})
  send_to none notice msg_id = skip
  send_to (some session) notice msg_id = send w session (World.to_styled_string w notice) msg_id

  unfoldable pub notify_add_friend : AddFriendReq → Action w AddFriendRsp
  unfolding send_to put_fields
  notify_add_friend req = do
    session ← get_session req.touid
    send_to session (add_friend_notice req) notify_add_friend_req
    pure (record { error = success_number; applyuid = req.applyuid; touid = req.touid })

  -- The user's session is told, with what is known of the user who has agreed.
  unfoldable pub tell_agreed : Option Text → ℤ → Fields → Action w (Unit {0})
  unfolding send_to set_agreed
  tell_agreed none fromuid fields = skip
  tell_agreed (some session) fromuid fields = do
    user_info ← get_base_info w (user_base_info ++ to_string fromuid) fromuid
    send_to (some session) (object (set_agreed fields user_info)) notify_auth_friend_req

  unfoldable pub notify_auth_friend : AuthFriendReq → Action w AuthFriendRsp
  unfolding tell_agreed put_fields append_each
  notify_auth_friend req = do
    session ← get_session req.touid
    tell_agreed session req.fromuid (auth_fields req)
    pure (record {
      error = success_number;
      fromuid = req.fromuid;
      touid = req.touid;
      thread_id = req.thread_id;
    })

  unfoldable pub notify_text_chat_msg : TextChatMsgReq → Action w TextChatMsgRsp
  unfolding send_to put_fields append_each
  notify_text_chat_msg req = do
    session ← get_session req.touid
    send_to session (text_notice req) notify_text_chat_msg_req
    pure (record { error = success_number; thread_id = req.thread_id })

  unfoldable pub kick_session : ℤ → Option Text → Action w (Unit {0})
  kick_session uid none = skip
  kick_session uid (some session) = do notify_offline w session uid; clear_session session

  unfoldable pub notify_kick_user : ℤ → Action w KickUserRsp
  unfolding kick_session
  notify_kick_user uid = do
    session ← get_session uid
    kick_session uid session
    pure (record { error = success_number; uid = uid })
