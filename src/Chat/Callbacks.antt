-- ===== src/Chat/Callbacks.antt =====
-- server/services/ChatServer/src/LogicSystem.cpp: RegisterCallBacks.
pub mod Shedding
pub mod Handlers
pub mod Friendship
pub mod Sound
use xiguchat.Prelude.{ℕ, Option, none, some, ◌==◌, if◌then◌else◌}
use xiguchat.Chat.Protocol.{
  chat_login, search_user_req, add_friend_req, auth_friend_req, text_chat_msg_req, heart_beat_req,
  create_private_chat_req, load_chat_thread_req, load_chat_msg_req,
}
use xiguchat.Chat.World.{World}
use xiguchat.Chat.Logic.{Handler}
use xiguchat.Chat.Login.{login_handler, heart_beat_handler}
use xiguchat.Chat.Search.{search_info}
use xiguchat.Chat.Friends.{add_friend_apply_handler, auth_friend_apply}
use xiguchat.Chat.Texts.{deal_chat_text_msg}
use xiguchat.Chat.Threads.{create_private_chat, load_chat_threads, load_chat_messages}

module _ (w : World) where
  unfoldable pub fun_callbacks : ℕ → Option (Handler w)
  fun_callbacks id =
      if id == chat_login
      then some (login_handler w)
      else if id == search_user_req
      then some (search_info w)
      else if id == add_friend_req
      then some (add_friend_apply_handler w)
      else if id == auth_friend_req
      then some (auth_friend_apply w)
      else if id == text_chat_msg_req
      then some (deal_chat_text_msg w)
      else if id == create_private_chat_req
      then some (create_private_chat w)
      else if id == load_chat_thread_req
      then some (load_chat_threads w)
      else if id == load_chat_msg_req
      then some (load_chat_messages w)
      else if id == heart_beat_req
      then some (heart_beat_handler w)
      else none
