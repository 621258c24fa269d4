-- ===== src/Chat/Threads.antt =====
-- server/services/ChatServer/src/LogicSystem.cpp: CreatePrivateChat, LoadChatThreads and
-- LoadChatMessages.
use xiguchat.Prelude.{ℕ, Bool, true, false, Option, none, some, [], ◌∷◌, if◌then◌else◌}
use xiguchat.Prelude.Text.{Text, codes}
use xiguchat.Prelude.Int.{ℤ, pos, eqb_ℤ, is_positive}
use xiguchat.Chat.Protocol.{
  ErrorCodes, success, rpc_failed, error_number, create_private_chat_rsp, load_chat_thread_rsp,
  load_chat_msg_rsp,
}
use xiguchat.Chat.Json.{Json}
use xiguchat.Chat.Data.{UserInfo, ChatThreadInfo, ChatMessageInfo}
use xiguchat.Chat.World.{
  World, Doc, int, text, bool, object, array, Fields, none_yet, set_field, no_docs,
}
use xiguchat.Chat.Process.{Action, pure, outside, ◌>>=◌}
use xiguchat.Chat.Cleanup.{send}
use xiguchat.Chat.Reply.{put_fields, append_each, set_error, thread_item}
use xiguchat.Chat.Dao.{
  Page, get_or_create_private_chat, get_user, get_chat_threads, get_chat_messages,
}
use xiguchat.Chat.Login.{int_of}

abbrev pub page_error : Bool → ErrorCodes
page_error true = success
page_error false = rpc_failed

-- A message of the history: status 1 if the user has sent it, else 3.
abbrev pub history_item : ℤ → ChatMessageInfo → Doc
history_item uid message = object (
    put_fields none_yet (
      (codes "message_id", int message.message_id)
      ∷ (codes "thread_id", int message.thread_id)
      ∷ (codes "fromuid", int message.sender_id)
      ∷ (codes "touid", int message.recv_id)
      ∷ (codes "msgid", text message.client_msg_id)
      ∷ (codes "content", text message.content)
      ∷ (codes "status", int (if eqb_ℤ message.sender_id uid then pos 1 else pos 3))
      ∷ []))

unfoldable pub threads_reply : Page ChatThreadInfo → Doc
unfolding put_fields append_each
threads_reply (ok, threads, has_more) = object (
    put_fields none_yet (
      (codes "error", int (error_number (page_error ok)))
      ∷ (codes "thread_list", array (append_each thread_item no_docs threads))
      ∷ (codes "load_more", bool has_more)
      ∷ []))

unfoldable pub messages_reply : ℤ → ℤ → Page ChatMessageInfo → Doc
unfolding put_fields append_each
messages_reply uid thread_id (ok, messages, has_more) = object (
    put_fields none_yet (
      (codes "error", int (error_number (page_error ok)))
      ∷ (codes "thread_id", int thread_id)
      ∷ (codes "load_more", bool has_more)
      ∷ (codes "text_array", array (append_each (history_item uid) no_docs messages))
      ∷ []))

unfoldable pub set_peer : Fields → Option UserInfo → Fields
unfolding put_fields
set_peer fields none = fields
set_peer fields (some peer) = put_fields fields (
    (codes "name", text peer.name)
    ∷ (codes "nick", text peer.nick)
    ∷ (codes "icon", text peer.icon)
    ∷ (codes "sex", int peer.sex)
    ∷ [])

module _ (w : World) where
  -- A member of the root as an int64.
  unfoldable pub int64_of : Option (Json.Value w.json) → Text → ℤ
  int64_of none key = pos 0
  int64_of (some root) key = Json.as_int64 w.json (Json.member w.json root key)

  unfoldable pub opened_chat : ℤ → ℤ → Action w Fields
  unfolding set_peer put_fields
  opened_chat peer_uid thread_id =
      let reply =
        put_fields none_yet
          ((codes "error", int (error_number success)) ∷ (codes "uid", int peer_uid) ∷ []) in
      if is_positive thread_id
      then (do
        peer ← outside (get_user w.db peer_uid)
        pure (set_peer (set_field reply (codes "thread_id") (int thread_id)) peer))
      else pure (set_error reply rpc_failed)

  unfoldable pub private_chat : ℤ → ℤ → Action w Fields
  unfolding opened_chat
  private_chat uid peer_uid = do
    thread_id ← outside (get_or_create_private_chat w.db uid peer_uid)
    opened_chat peer_uid thread_id

  unfoldable pub create_private_chat : Text → ℕ → Text → Action w (Unit {0})
  unfolding private_chat int_of
  create_private_chat session msg_id msg_data =
      let root = World.parse w msg_data in
      do
        response ← private_chat (int_of w root (codes "fromuid")) (int_of w root (codes "touid"))
        send w session (World.to_styled_string w (object response)) create_private_chat_rsp

  unfoldable pub load_chat_threads : Text → ℕ → Text → Action w (Unit {0})
  unfolding threads_reply int64_of int_of
  load_chat_threads session msg_id msg_data =
      let root = World.parse w msg_data in
      do
        page ← outside (
            get_chat_threads w.db (int_of w root (codes "fromuid"))
              (int64_of root (codes "thread_id")) 100)
        send w session (World.to_styled_string w (threads_reply page)) load_chat_thread_rsp

  unfoldable pub load_chat_messages : Text → ℕ → Text → Action w (Unit {0})
  unfolding messages_reply int64_of int_of
  load_chat_messages session msg_id msg_data =
      let root = World.parse w msg_data in
      let uid = int_of w root (codes "fromuid") in
      let thread_id = int64_of root (codes "thread_id") in
      do
        page ←
            outside (get_chat_messages w.db uid thread_id (int64_of root (codes "message_id")) 100)
        send w session (World.to_styled_string w (messages_reply uid thread_id page))
            load_chat_msg_rsp
