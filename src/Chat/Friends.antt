-- ===== src/Chat/Friends.antt =====
-- server/services/ChatServer/src/LogicSystem.cpp: AddFriendApply and AuthFriendApply.
use xiguchat.Prelude.{
  ℕ, Bool, true, false, Option, none, some, List, [], ◌∷◌, ◌++◌, map, if◌then◌else◌,
}
use xiguchat.Prelude.Text.{Text, codes, text_eq, is_empty}
use xiguchat.Prelude.Int.{ℤ, pos, is_positive}
use xiguchat.Prelude.Decimal.{to_string}
use xiguchat.Chat.Protocol.{
  success, rpc_failed, uid_invalid, add_friend_rsp, notify_add_friend_req, auth_friend_rsp,
  user_base_info,
}
use xiguchat.Chat.Data.{UserInfo, ChatMessageInfo}
use xiguchat.Chat.Messages.{AddFriendReq, TextChatData, AuthFriendReq}
use xiguchat.Chat.World.{World, Doc, int, text, object, array, Fields, none_yet, set_field, no_docs}
use xiguchat.Chat.Process.{Action, pure, skip, outside, ◌>>=◌, ◌>>◌}
use xiguchat.Chat.Redis.{redis_get}
use xiguchat.Chat.Registry.{get_session}
use xiguchat.Chat.Cleanup.{ip_key, send}
use xiguchat.Chat.Reply.{put_fields, append_each, set_error}
use xiguchat.Chat.Dao.{add_friend_apply, add_friend, get_or_create_private_chat}
use xiguchat.Chat.Dao.Save.{save_chat_messages}
use xiguchat.Chat.Notify.{success_number, send_to, tell_agreed}
use xiguchat.Chat.Login.{int_of, string_in, get_base_info}

-- kDefaultFriendWelcome in UTF-8, and kDefaultApproveWelcome
abbrev pub default_friend_welcome : Text
default_friend_welcome =
    228 ∷ 189 ∷ 160 ∷ 229 ∷ 165 ∷ 189 ∷ 239 ∷ 188 ∷ 140 ∷ 229 ∷ 190 ∷ 136 ∷ 233 ∷ 171 ∷ 152 ∷ 229
    ∷ 133 ∷ 180 ∷ 232 ∷ 174 ∷ 164 ∷ 232 ∷ 175 ∷ 134 ∷ 228 ∷ 189 ∷ 160 ∷ []

abbrev pub default_approve_welcome : Text
default_approve_welcome = codes "We are friends now!"

abbrev pub or_default : Text → Text
or_default welcome = if is_empty welcome then default_friend_welcome else welcome

-- The applicant as another server is told; without base data the name is the uid.
unfoldable pub add_friend_req_of : ℤ → ℤ → Text → Option UserInfo → AddFriendReq
add_friend_req_of uid touid welcome none = record {
  applyuid = uid;
  name = to_string uid;
  desc = welcome;
  icon = [];
  nick = [];
  sex = pos 0;
  touid = touid;
}
add_friend_req_of uid touid welcome (some info) = record {
  applyuid = uid;
  name = info.name;
  desc = welcome;
  icon = info.icon;
  nick = info.nick;
  sex = info.sex;
  touid = touid;
}

abbrev applicant : ℤ → Text → Text → Fields
applicant uid name welcome = put_fields none_yet (
    (codes "error", int success_number)
    ∷ (codes "applyuid", int uid)
    ∷ (codes "name", text name)
    ∷ (codes "desc", text welcome)
    ∷ [])

-- The applicant as a session of this server is told.
unfoldable pub apply_notice : ℤ → Text → Option UserInfo → Doc
unfolding put_fields
apply_notice uid welcome none = object (applicant uid (to_string uid) welcome)
apply_notice uid welcome (some info) = object (
    put_fields (applicant uid info.name welcome) (
      (codes "icon", text info.icon)
      ∷ (codes "sex", int info.sex)
      ∷ (codes "nick", text info.nick)
      ∷ []))

-- The two welcome messages with the status that each has for a reader.
abbrev pub View : Type 0
View = List (ChatMessageInfo × ℤ)

abbrev pub view : ℤ → ℤ → List ChatMessageInfo → List ChatMessageInfo → View
view by_applicant by_approver applicant_msgs approver_msgs =
    map (λ message. (message, by_applicant)) applicant_msgs
    ++ map (λ message. (message, by_approver)) approver_msgs

abbrev pub welcome_item : ℤ → ChatMessageInfo × ℤ → Doc
welcome_item thread_id (message, status) = object (
    put_fields none_yet (
      (codes "msgid", text message.client_msg_id)
      ∷ (codes "content", text message.content)
      ∷ (codes "message_id", int message.message_id)
      ∷ (codes "thread_id", int thread_id)
      ∷ (codes "status", int status)
      ∷ (codes "fromuid", int message.sender_id)
      ∷ (codes "touid", int message.recv_id)
      ∷ []))

abbrev pub welcome_data : ChatMessageInfo × ℤ → TextChatData
welcome_data (message, status) = record {
  msgid = message.client_msg_id;
  msgcontent = message.content;
  message_id = message.message_id;
  status = status;
  fromuid = message.sender_id;
  touid = message.recv_id;
}

abbrev pub welcome_array : ℤ → View → Doc
welcome_array thread_id items = array (append_each (welcome_item thread_id) no_docs items)

unfoldable pub set_thread : ℤ → Fields → Fields
set_thread thread_id fields =
    if is_positive thread_id then set_field fields (codes "thread_id") (int thread_id) else fields

-- The member is there only if there is a message.
unfoldable pub set_welcome : ℤ → View → Fields → Fields
unfolding append_each
set_welcome thread_id [] fields = fields
set_welcome thread_id (item ∷ items) fields =
    set_field fields (codes "welcome_msgs") (welcome_array thread_id (item ∷ items))

abbrev pub agreed_reply : ℤ → UserInfo → Fields
agreed_reply touid user = put_fields none_yet (
    (codes "error", int success_number)
    ∷ (codes "name", text user.name)
    ∷ (codes "nick", text user.nick)
    ∷ (codes "icon", text user.icon)
    ∷ (codes "sex", int user.sex)
    ∷ (codes "uid", int touid)
    ∷ [])

abbrev pub agreed_notice : ℤ → ℤ → ℤ → View → Fields
agreed_notice uid touid thread_id items =
    set_field
      (set_thread thread_id (
        put_fields none_yet (
          (codes "error", int success_number)
          ∷ (codes "fromuid", int uid)
          ∷ (codes "touid", int touid)
          ∷ [])))
      (codes "welcome_msgs") (welcome_array thread_id items)

abbrev pub agreed_req : ℤ → ℤ → ℤ → View → AuthFriendReq
agreed_req uid touid thread_id items = record {
  fromuid = uid;
  touid = touid;
  thread_id = if is_positive thread_id then thread_id else pos 0;
  welcome_msgs = map welcome_data items;
}

abbrev pub welcome_id : ℤ → ℤ → Text
welcome_id from to = codes "friend-welcome-" ++ to_string from ++ codes "-" ++ to_string to

module _ (w : World) where
  -- On this server the session of the user is told, else the server of the user.
  unfoldable pub tell_apply : Text → ℤ → ℤ → Text → Option UserInfo → Action w (Unit {0})
  unfolding send_to apply_notice add_friend_req_of
  tell_apply to_ip_value uid touid welcome info =
      if text_eq to_ip_value (World.self_name w)
      then (do
        session ← get_session touid
        send_to w session (apply_notice uid welcome info) notify_add_friend_req)
      else outside (λ s.
        (tt, World.notify_add_friend w to_ip_value (add_friend_req_of uid touid welcome info) s))

  unfoldable pub route_apply : ℤ → ℤ → Text → Option Text → Action w (Unit {0})
  unfolding tell_apply
  route_apply uid touid welcome none = skip
  route_apply uid touid welcome (some to_ip_value) = do
    info ← get_base_info w (user_base_info ++ to_string uid) uid
    tell_apply to_ip_value uid touid welcome info

  unfoldable pub after_apply : ℤ → ℤ → Text → Bool → Action w Fields
  unfolding route_apply
  after_apply uid touid welcome false = pure (set_error (set_error none_yet success) rpc_failed)
  after_apply uid touid welcome true = do
    to_ip_value ← redis_get w (ip_key touid)
    route_apply uid touid welcome to_ip_value
    pure (set_error none_yet success)

  unfoldable pub apply_friend : ℤ → ℤ → Text → Text → Action w Fields
  unfolding after_apply
  apply_friend uid touid welcome bakname = do
    applied ← outside (add_friend_apply w.db uid touid welcome bakname)
    after_apply uid touid welcome applied

  unfoldable pub add_friend_apply_handler : Text → ℕ → Text → Action w (Unit {0})
  unfolding apply_friend int_of string_in
  add_friend_apply_handler session msg_id msg_data =
      let root = World.parse w msg_data in
      do
        rtvalue ←
            apply_friend (int_of w root (codes "uid")) (int_of w root (codes "touid"))
              (or_default (string_in w root (codes "applyname")))
              (string_in w root (codes "bakname"))
        send w session (World.to_styled_string w (object rtvalue)) add_friend_rsp

  -- The applicant's words, then the approver's sentence; what fails is only logged.
  unfoldable pub save_welcomes :
      ℤ → ℤ → ℤ → Text → Action w (List ChatMessageInfo × List ChatMessageInfo)
  save_welcomes uid touid thread_id apply_desc =
      if is_positive thread_id
      then (do
        (_, applicant_msgs) ← outside (
            save_chat_messages w.db touid uid thread_id
              ((welcome_id touid uid, or_default apply_desc) ∷ []))
        (_, approver_msgs) ← outside (
            save_chat_messages w.db uid touid thread_id
              ((welcome_id uid touid, default_approve_welcome) ∷ []))
        pure (applicant_msgs, approver_msgs))
      else pure ([], [])

  unfoldable pub tell_approval : ℤ → ℤ → ℤ → View → Option Text → Action w (Unit {0})
  unfolding tell_agreed set_thread append_each put_fields
  tell_approval uid touid thread_id items none = skip
  tell_approval uid touid thread_id items (some to_ip_value) =
      if text_eq to_ip_value (World.self_name w)
      then (do
        session ← get_session touid
        tell_agreed w session uid (agreed_notice uid touid thread_id items))
      else outside (λ s.
        (tt, World.notify_auth_friend w to_ip_value (agreed_req uid touid thread_id items) s))

  unfoldable pub after_add : ℤ → ℤ → Fields → Option Text → Action w Fields
  unfolding save_welcomes tell_approval set_thread set_welcome
  after_add uid touid reply none = pure (set_error reply rpc_failed)
  after_add uid touid reply (some apply_desc) = do
    thread_id ← outside (get_or_create_private_chat w.db uid touid)
    (applicant_msgs, approver_msgs) ← save_welcomes uid touid thread_id apply_desc
    to_ip_value ← redis_get w (ip_key touid)
    tell_approval uid touid thread_id (view (pos 1) (pos 3) applicant_msgs approver_msgs)
        to_ip_value
    pure (
        set_welcome thread_id (view (pos 3) (pos 1) applicant_msgs approver_msgs)
          (set_thread thread_id reply))

  unfoldable pub agree : ℤ → ℤ → Text → Option UserInfo → Action w Fields
  unfolding after_add put_fields
  agree uid touid back_name none = pure (set_error (set_error none_yet success) uid_invalid)
  agree uid touid back_name (some user) = do
    apply_desc ← outside (add_friend w.db uid touid back_name)
    after_add uid touid (agreed_reply touid user) apply_desc

  unfoldable pub auth_friend : ℤ → ℤ → Text → Action w Fields
  unfolding agree
  auth_friend uid touid back_name = do
    user_info ← get_base_info w (user_base_info ++ to_string touid) touid
    agree uid touid back_name user_info

  unfoldable pub auth_friend_apply : Text → ℕ → Text → Action w (Unit {0})
  unfolding auth_friend int_of string_in
  auth_friend_apply session msg_id msg_data =
      let root = World.parse w msg_data in
      do
        rtvalue ←
            auth_friend (int_of w root (codes "fromuid")) (int_of w root (codes "touid"))
              (string_in w root (codes "back"))
        send w session (World.to_styled_string w (object rtvalue)) auth_friend_rsp
