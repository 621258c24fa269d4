-- ===== src/Chat/Callbacks/Handlers.antt =====
-- The handlers of LogicSystem that search, chat and keep a session alive bind no session to a user.
use xiguchat.Prelude.{
  ℕ, ◌||◌, not, Bool, true, false, Option, none, some, List, inl, inr, Bool-cases,
}
use xiguchat.Prelude.Text.{Text, codes, text_eq}
use xiguchat.Prelude.Int.{ℤ, is_positive}
use xiguchat.Chat.Data.{UserInfo, ChatMessageInfo}
use xiguchat.Chat.Messages.{TextChatMsgReq}
use xiguchat.Chat.World.{World, Fields}
use xiguchat.Chat.Process.{Process}
use xiguchat.Chat.Registry.{has_session}
use xiguchat.Chat.Dao.{get_user, get_user_by_name, get_or_create_private_chat}
use xiguchat.Chat.Dao.Save.{save_chat_messages}
use xiguchat.Chat.Login.{string_in, heart_beat_handler}
use xiguchat.Chat.Search.{
  search_info, search_user, is_pure_digit, get_user_by_uid, user_by_uid, query_uid, keep_user,
  query_user_by_name, user_by_name, keep_named,
}
use xiguchat.Chat.Texts.{forward, deliver, deliver_saved, after_save, chat_text, deal_chat_text_msg}
use xiguchat.Chat.Threads.{
  opened_chat, private_chat, create_private_chat, load_chat_threads, load_chat_messages,
}
use xiguchat.Chat.Callbacks.Shedding.{
  Sheds, world-Sheds, get_session-Sheds, redis_get-Sheds, redis_set-Sheds, send-Sheds,
  send_to-Sheds,
}

module _ {w : World} {p : Process w} where
  -- SearchInfo
  keep_user-Sheds :
      {q : Process w} (key : Text) (user : Option UserInfo)
      → Sheds p q
      → Sheds p (keep_user w key user q).1
  unfolding keep_user
  keep_user-Sheds key none h = h
  keep_user-Sheds key (some user) h = redis_set-Sheds key _ h

  query_uid-Sheds :
      {q : Process w} (key : Text) (uid : Option ℤ) → Sheds p q → Sheds p (query_uid w key uid q).1
  unfolding query_uid
  query_uid-Sheds key none h = h
  query_uid-Sheds {q} key (some uid) h =
      let (user, s) = get_user w.db uid q.world in keep_user-Sheds key user (world-Sheds s h)

  user_by_uid-Sheds :
      {q : Process w} (key uid_str : Text) (info : Option Text)
      → Sheds p q
      → Sheds p (user_by_uid w key uid_str info q).1
  unfolding user_by_uid
  user_by_uid-Sheds key uid_str none h = query_uid-Sheds key _ h
  user_by_uid-Sheds key uid_str (some info) h = h

  keep_named-Sheds :
      {q : Process w} (key : Text) (user : Option UserInfo)
      → Sheds p q
      → Sheds p (keep_named w key user q).1
  unfolding keep_named
  keep_named-Sheds key none h = h
  keep_named-Sheds key (some user) h = redis_set-Sheds key _ h

  user_by_name-Sheds :
      {q : Process w} (key name : Text) (info : Option Text)
      → Sheds p q
      → Sheds p (user_by_name w key name info q).1
  unfolding user_by_name
  user_by_name-Sheds {q} key name none h =
      let (user, s) = get_user_by_name w.db name q.world in
      keep_named-Sheds key user (world-Sheds s h)
  user_by_name-Sheds key name (some info) h = h

  search_user-Sheds :
      {q : Process w} (uid_str : Text) → Sheds p q → Sheds p (search_user w uid_str q).1
  unfolding search_user get_user_by_uid query_user_by_name
  search_user-Sheds uid_str h = elim (Bool-cases (is_pure_digit uid_str)) [
    | inl number ↦ rw (number) (user_by_uid-Sheds _ uid_str _ (redis_get-Sheds _ h))
    | inr name ↦ rw (name) (user_by_name-Sheds _ uid_str _ (redis_get-Sheds _ h))
  ]

  pub search_info-Sheds :
      {q : Process w} (session : Text) (id : ℕ) (msg_data : Text)
      → Sheds p q
      → Sheds p (search_info w session id msg_data q).1
  unfolding search_info
  search_info-Sheds session id msg_data h =
      send-Sheds session _ _
        (search_user-Sheds (string_in w (World.parse w msg_data) (codes "uid")) h)

  -- DealChatTextMsg
  deliver-Sheds :
      {q : Process w} (server : Option Text) (req : TextChatMsgReq) (reply notice : Fields)
      → Sheds p q
      → Sheds p (deliver w server req reply notice q).1
  unfolding deliver forward
  deliver-Sheds none req reply notice h = h
  deliver-Sheds (some server) req reply notice h = elim (Bool-cases (text_eq server w.self_name)) [
    | inl here ↦ rw (here) (send_to-Sheds _ _ _ (get_session-Sheds req.touid h))
    | inr there ↦ rw (there) (world-Sheds _ h)
  ]

  after_save-Sheds :
      {q : Process w} (session : Text) (uid touid thread_id : ℤ) (reply : Fields)
      (result : Bool × List ChatMessageInfo)
      → Sheds p q
      → Sheds p (after_save w session uid touid thread_id reply result q).1
  unfolding after_save deliver_saved
  after_save-Sheds session uid touid thread_id reply (false, messages) h = h
  after_save-Sheds {q} session uid touid thread_id reply (true, messages) h =
      elim (Bool-cases ((q.conns session).out.closed || not (has_session q.sessions session))) [
        | inl gone ↦ rw (gone) h
        | inr there ↦ rw (there) (deliver-Sheds _ _ _ _ (redis_get-Sheds _ h))
      ]

  chat_text-Sheds :
      {q : Process w} (session : Text) (uid touid thread_id : ℤ) (contents : List (Text × Text))
      → Sheds p q
      → Sheds p (chat_text w session uid touid thread_id contents q).1
  unfolding chat_text
  chat_text-Sheds {q} session uid touid thread_id contents h =
      let (result, s) = save_chat_messages w.db uid touid thread_id contents q.world in
      after_save-Sheds session uid touid thread_id _ result (world-Sheds s h)

  pub deal_chat_text_msg-Sheds :
      {q : Process w} (session : Text) (id : ℕ) (msg_data : Text)
      → Sheds p q
      → Sheds p (deal_chat_text_msg w session id msg_data q).1
  unfolding deal_chat_text_msg
  deal_chat_text_msg-Sheds session id msg_data h =
      send-Sheds session _ _ (chat_text-Sheds session _ _ _ _ h)

  -- The chats, and the heartbeat
  opened_chat-Sheds :
      {q : Process w} (peer_uid thread_id : ℤ)
      → Sheds p q
      → Sheds p (opened_chat w peer_uid thread_id q).1
  unfolding opened_chat
  opened_chat-Sheds peer_uid thread_id h = elim (Bool-cases (is_positive thread_id)) [
    | inl there ↦ rw (there) (world-Sheds _ h)
    | inr absent ↦ rw (absent) h
  ]

  private_chat-Sheds :
      {q : Process w} (uid peer_uid : ℤ) → Sheds p q → Sheds p (private_chat w uid peer_uid q).1
  unfolding private_chat
  private_chat-Sheds {q} uid peer_uid h =
      let (thread_id, s) = get_or_create_private_chat w.db uid peer_uid q.world in
      opened_chat-Sheds peer_uid thread_id (world-Sheds s h)

  pub create_private_chat-Sheds :
      {q : Process w} (session : Text) (id : ℕ) (msg_data : Text)
      → Sheds p q
      → Sheds p (create_private_chat w session id msg_data q).1
  unfolding create_private_chat
  create_private_chat-Sheds session id msg_data h =
      send-Sheds session _ _ (private_chat-Sheds _ _ h)

  pub load_chat_threads-Sheds :
      {q : Process w} (session : Text) (id : ℕ) (msg_data : Text)
      → Sheds p q
      → Sheds p (load_chat_threads w session id msg_data q).1
  unfolding load_chat_threads
  load_chat_threads-Sheds session id msg_data h = send-Sheds session _ _ (world-Sheds _ h)

  pub load_chat_messages-Sheds :
      {q : Process w} (session : Text) (id : ℕ) (msg_data : Text)
      → Sheds p q
      → Sheds p (load_chat_messages w session id msg_data q).1
  unfolding load_chat_messages
  load_chat_messages-Sheds session id msg_data h = send-Sheds session _ _ (world-Sheds _ h)

  pub heart_beat_handler-Sheds :
      {q : Process w} (session : Text) (id : ℕ) (msg_data : Text)
      → Sheds p q
      → Sheds p (heart_beat_handler w session id msg_data q).1
  unfolding heart_beat_handler
  heart_beat_handler-Sheds session id msg_data h = send-Sheds session _ _ h
