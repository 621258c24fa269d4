-- ===== src/Chat/Texts.antt =====
-- server/services/ChatServer/src/LogicSystem.cpp: DealChatTextMsg.
pub mod Delivery
pub mod Recipient
use xiguchat.Prelude.{
  ℕ, Bool, true, false, not, ◌&&◌, ◌||◌, Option, none, some, List, [], ◌∷◌, map, if◌then◌else◌,
}
use xiguchat.Prelude.Text.{Text, codes, text_eq}
use xiguchat.Prelude.Int.{ℤ, pos, eqb_ℤ}
use xiguchat.Chat.Protocol.{
  ErrorCodes, success, rpc_failed, text_chat_msg_rsp, notify_text_chat_msg_req,
}
use xiguchat.Chat.Json.{Json}
use xiguchat.Chat.Data.{ChatMessageInfo}
use xiguchat.Chat.Messages.{TextChatData, TextChatMsgReq}
use xiguchat.Chat.World.{
  World, Doc, int, text, bool, object, array, Fields, none_yet, set_field, no_docs,
}
use xiguchat.Chat.Process.{Process, Conn, Action, pure, skip, outside, ◌>>=◌, ◌>>◌}
use xiguchat.Chat.Redis.{redis_get}
use xiguchat.Chat.Registry.{has_session, get_session}
use xiguchat.Chat.Cleanup.{ip_key, send}
use xiguchat.Chat.Reply.{put_fields, append_each, set_error}
use xiguchat.Chat.Dao.Save.{save_chat_messages}
use xiguchat.Chat.Notify.{success_number, send_to}
use xiguchat.Chat.Login.{int_of}

-- The receipt of a text before it is saved: status 2, failed.
abbrev pub unsaved_item : Text × Text → Doc
unsaved_item (msgid, content) = object (
    put_fields none_yet (
      (codes "msgid", text msgid)
      ∷ (codes "content", text content)
      ∷ (codes "status", int (pos 2))
      ∷ []))

-- A saved text for one of the two: status 1 is sent, 3 is unread.
abbrev pub saved_item : ℤ → ChatMessageInfo → Doc
saved_item status message = object (
    put_fields none_yet (
      (codes "msgid", text message.client_msg_id)
      ∷ (codes "content", text message.content)
      ∷ (codes "thread_id", int message.thread_id)
      ∷ (codes "message_id", int message.message_id)
      ∷ (codes "status", int status)
      ∷ []))

abbrev pub saved_array : ℤ → List ChatMessageInfo → Doc
saved_array status messages = array (append_each (saved_item status) no_docs messages)

abbrev pub chat_data : ℤ → ℤ → ChatMessageInfo → TextChatData
chat_data uid touid message = record {
  msgid = message.client_msg_id;
  msgcontent = message.content;
  message_id = message.message_id;
  status = pos 3;
  fromuid = uid;
  touid = touid;
}

abbrev pub text_req : ℤ → ℤ → ℤ → List ChatMessageInfo → TextChatMsgReq
text_req uid touid thread_id messages = record {
  fromuid = uid;
  touid = touid;
  textmsgs = map (chat_data uid touid) messages;
  thread_id = thread_id;
}

-- thread_id may be 0 in the request: the saved messages have it.
unfoldable pub thread_of : ℤ → List ChatMessageInfo → ℤ
thread_of thread_id [] = thread_id
thread_of thread_id (message ∷ messages) = message.thread_id

-- The receipt with every text as failed, which each early return sends.
abbrev pub unsaved_reply : ℤ → ℤ → List (Text × Text) → Fields
unsaved_reply uid touid contents = put_fields none_yet (
    (codes "error", int success_number)
    ∷ (codes "text_array", array (append_each unsaved_item no_docs contents))
    ∷ (codes "fromuid", int uid)
    ∷ (codes "touid", int touid)
    ∷ [])

abbrev pub with_texts : Fields → ℤ → ℤ → List ChatMessageInfo → Fields
with_texts fields thread_id status messages =
    set_field (set_field fields (codes "thread_id") (int thread_id)) (codes "text_array")
      (saved_array status messages)

module _ (w : World) where
  unfoldable pub int64_or_zero : Option (Json.Value w.json) → Text → ℤ
  int64_or_zero none key = pos 0
  int64_or_zero (some root) key =
      if Json.is_member w.json root key
      then Json.as_int64 w.json (Json.member w.json root key)
      else pos 0

  unfoldable pub contents_of : Option (Json.Value w.json) → List (Text × Text)
  contents_of none = []
  contents_of (some root) =
      map
        (λ item. (
          Json.as_string w.json (Json.member w.json item (codes "msgid")),
          Json.as_string w.json (Json.member w.json item (codes "content")),
        ))
        (Json.elements w.json (Json.member w.json root (codes "text_array")))

  -- A peer on another server: an error of the call is noted in the receipt.
  unfoldable pub forward : Text → TextChatMsgReq → Fields → Action w Fields
  forward server req reply = do
    error ← outside (World.notify_text_chat_msg w server req)
    pure (
        if eqb_ℤ error success_number
        then reply
        else set_field reply (codes "delivery_pending") (bool true))

  unfoldable pub deliver : Option Text → TextChatMsgReq → Fields → Fields → Action w Fields
  unfolding forward send_to
  deliver none req reply notice = pure reply
  deliver (some to_ip_value) req reply notice =
      if text_eq to_ip_value (World.self_name w)
      then (do
        peer_session ← get_session req.touid
        send_to w peer_session (object notice) notify_text_chat_msg_req
        pure reply)
      else forward to_ip_value req reply

  -- The texts are saved: the peer is told, and the receipt says that they are sent.
  unfoldable pub deliver_saved : ℤ → ℤ → ℤ → Fields → List ChatMessageInfo → Action w Fields
  unfolding deliver
  deliver_saved uid touid thread_id reply messages = do
    to_ip_value ← redis_get w (ip_key touid)
    deliver to_ip_value (text_req uid touid thread_id messages)
        (with_texts reply thread_id (pos 1) messages) (with_texts reply thread_id (pos 3) messages)

  unfoldable pub after_save :
      Text → ℤ → ℤ → ℤ → Fields → Bool × List ChatMessageInfo → Action w Fields
  unfolding deliver_saved thread_of
  after_save session uid touid thread_id reply (false, messages) p = (set_error reply rpc_failed, p)
  after_save session uid touid thread_id reply (true, messages) p =
      if (p.conns session).out.closed || not (has_session p.sessions session)
      then (reply, p)
      else deliver_saved uid touid (thread_of thread_id messages) reply messages p

  unfoldable pub chat_text : Text → ℤ → ℤ → ℤ → List (Text × Text) → Action w Fields
  unfolding after_save put_fields append_each
  chat_text session uid touid thread_id contents = do
    result ← outside (save_chat_messages w.db uid touid thread_id contents)
    after_save session uid touid thread_id (unsaved_reply uid touid contents) result

  unfoldable pub deal_chat_text_msg : Text → ℕ → Text → Action w (Unit {0})
  unfolding chat_text contents_of int64_or_zero int_of
  deal_chat_text_msg session msg_id msg_data =
      let root = World.parse w msg_data in
      do
        rtvalue ←
            chat_text session (int_of w root (codes "fromuid")) (int_of w root (codes "touid"))
              (int64_or_zero root (codes "thread_id")) (contents_of root)
        send w session (World.to_styled_string w (object rtvalue)) text_chat_msg_rsp
