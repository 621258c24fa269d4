-- ===== src/Client/Events.antt =====
-- client/core/service/sessionservice.cpp: what the constructor connects to the signals of TcpMgr and to
-- the timers, as the events of the client. The events come one after the other on one thread. What the
-- user does through the other services (ChatService) is not among them.
pub mod Consistent
pub mod Login
pub mod Pending
pub mod Received
pub mod Runs
use xiguchat.Prelude.{
  ℕ, Bool, true, false, not, ◌&&◌, ◌||◌, Option, none, some, List, [], ◌∷◌, map, if◌then◌else◌,
}
use xiguchat.Prelude.Text.{Text, codes}
use xiguchat.Prelude.Int.{ℤ, pos, eqb_ℤ, is_positive}
use xiguchat.Chat.World.{Doc, int, object, none_yet}
use xiguchat.Chat.Reply.{put_fields}
use xiguchat.Chat.Protocol.{heart_beat_req}
use xiguchat.Client.History.{TextChatData, ChatMessageStatus, sent, failed, unread}
use xiguchat.Client.Users.{
  Users, FriendInfo, ApplyEntry, add_known_friend, append_friend_chat_msg, append_chat_threads,
  remove_pending, set_thread_id, update_friend_message, friend_id_by_thread, has_apply,
  add_apply_list, set_apply_status,
}
use xiguchat.Client.SessionService.{
  ServerInfo, no_server, Failure, timed_out, closed_in_login, replaced_in_login, unreachable,
  Service, LoginData, change_users, send_data, lost, close_session, fail_and_reset, connect_to_chat,
  on_tcp_connected, on_chat_login_failed, on_chat_logged_in, request_messages, request_threads,
}

-- A text message of the server, a page of a thread's history, and the answer to a friendship.
pub record ChatMsg : Type 0 where
  pub from_uid : ℤ
  pub to_uid : ℤ
  pub thread_id : ℤ
  pub chat_msgs : List TextChatData

-- status is none where the server does not give it.
pub record HistoryItem : Type 0 where
  pub msgid : Text
  pub content : Text
  pub fromuid : ℤ
  pub message_id : ℤ
  pub status : Option ChatMessageStatus

pub record HistoryPage : Type 0 where
  pub thread_id : ℤ
  pub text_array : List HistoryItem
  pub load_more : Bool

unfoldable pub receive_text : ChatMsg → Users → Users
unfolding append_friend_chat_msg set_thread_id
receive_text msg u =
    let peer_uid = if eqb_ℤ msg.from_uid u.uid then msg.to_uid else msg.from_uid in
    append_friend_chat_msg peer_uid msg.chat_msgs
      (if is_positive msg.thread_id then set_thread_id peer_uid msg.thread_id u else u)

unfoldable pub fail_messages : ℤ → List Text → Users → Users
unfolding update_friend_message
fail_messages peer_uid [] u = u
fail_messages peer_uid (msgid ∷ msgids) u =
    fail_messages peer_uid msgids (update_friend_message peer_uid msgid (pos 0) failed u)

abbrev pub status_of : ℤ → HistoryItem → ChatMessageStatus
status_of uid item = elim item.status [
  | some status ↦ status
  | none ↦ if eqb_ℤ item.fromuid uid then sent else unread
]

abbrev pub history_text : ℤ → ℤ → HistoryItem → TextChatData
history_text uid thread_id item = record {
  msg_id = item.msgid;
  message_id = item.message_id;
  thread_id = thread_id;
  status = status_of uid item;
  msg_content = item.content;
}

abbrev pub last_item : ℤ → List HistoryItem → Option ℤ
last_item last [] = some last
last_item last (item ∷ items) = last_item item.message_id items

-- The cursor of the next page, if there is one.
abbrev pub next_cursor : HistoryPage → Option ℤ
next_cursor page = elim page.text_array [
  | [] ↦ none
  | item ∷ items ↦ if page.load_more then last_item item.message_id items else none
]

abbrev pub request_next : ℤ → Option ℤ → Service → Service
request_next thread_id none s = s
request_next thread_id (some last) s = request_messages thread_id last s

unfoldable pub receive_page : HistoryPage → Service → Service
unfolding friend_id_by_thread append_friend_chat_msg request_messages
receive_page page s =
    let peer_uid = friend_id_by_thread page.thread_id s.users.friend_list s.users in
    if is_positive peer_uid
    then request_next page.thread_id (next_cursor page) (
        change_users
          (append_friend_chat_msg peer_uid
            (map (history_text s.users.uid page.thread_id) page.text_array))
          s)
    else s

unfoldable pub receive_threads : List (ℤ × ℤ) → Bool → Service → Service
unfolding append_chat_threads request_threads
receive_threads threads load_more s =
    request_threads load_more threads (change_users (append_chat_threads threads) s)

unfoldable pub chat_created : ℤ → ℤ → ℤ → Users → Users
unfolding remove_pending set_thread_id
chat_created error uid thread_id u =
    if eqb_ℤ error (pos 0) then set_thread_id uid thread_id u else remove_pending uid u

unfoldable pub receive_apply : ApplyEntry → Users → Users
unfolding has_apply
receive_apply apply u = if has_apply apply.uid u.apply_list then u else add_apply_list apply u

-- The friend of an AuthInfo or an AuthRsp, which has the welcome messages.
unfoldable pub receive_friend : FriendInfo → Users → Users
unfolding add_known_friend set_thread_id append_friend_chat_msg
receive_friend info u =
    let known = set_thread_id info.uid info.thread_id (add_known_friend info u) in
    elim info.chat_msgs [
      | [] ↦ known
      | text ∷ texts ↦ append_friend_chat_msg info.uid (text ∷ texts) known
    ]

unfoldable pub receive_auth_rsp : FriendInfo → Users → Users
unfolding receive_friend set_apply_status
receive_auth_rsp info u =
    receive_friend info (record u { apply_list = set_apply_status info.uid (pos 1) u.apply_list })

unfoldable pub on_con_failed : Text → Service → Service
unfolding fail_and_reset
on_con_failed message s =
    if s.connecting || s.ready then fail_and_reset (unreachable message) s else s

unfoldable pub on_connection_closed : Service → Service
unfolding fail_and_reset lost
on_connection_closed s = if s.connecting then fail_and_reset closed_in_login s else lost s

unfoldable pub on_notify_offline : Service → Service
unfolding fail_and_reset
on_notify_offline s =
    if s.connecting
    then fail_and_reset replaced_in_login s
    else record s { ready = false; heartbeat = false }

-- The single shot: the timer has stopped when its slot is called.
unfoldable pub on_timeout : Service → Service
unfolding fail_and_reset
on_timeout s = if s.timeout then fail_and_reset timed_out (record s { timeout = false }) else s

abbrev pub beat_frame : ℤ → Doc
beat_frame uid = object (put_fields none_yet ((codes "fromuid", int uid) ∷ []))

unfoldable pub on_heartbeat : Service → Service
on_heartbeat s =
    if s.heartbeat && s.ready then send_data heart_beat_req (beat_frame s.current.uid) s else s

pub data Event : Type 0 where
  connect : ServerInfo → Event
  leave : Event
  socket_connected socket_closed : Event
  con_failed : Text → Event
  refused_login : ℤ → Event
  login_done : LoginData → Event
  offline timer beat : Event
  text_msg : ChatMsg → Event
  texts_failed : ℤ → List Text → Event
  threads_loaded : List (ℤ × ℤ) → Bool → Event
  page_loaded : HistoryPage → Event
  chat_made : ℤ → ℤ → ℤ → Event
  applied : ApplyEntry → Event
  befriended : FriendInfo → Event
  agreed : FriendInfo → Event

unfoldable pub handle : Event → Service → Service
unfolding connect_to_chat close_session on_tcp_connected on_chat_login_failed on_chat_logged_in
    receive_page receive_threads on_con_failed on_connection_closed on_notify_offline on_timeout
    on_heartbeat receive_text fail_messages chat_created receive_apply receive_friend
    receive_auth_rsp
handle (connect info) s = connect_to_chat info s
handle leave s = close_session s
handle socket_connected s = on_tcp_connected true (record s { connected = true })
handle socket_closed s = on_connection_closed (record s { connected = false })
handle (con_failed message) s = on_con_failed message s
handle (refused_login code) s = on_chat_login_failed code s
handle (login_done login) s = on_chat_logged_in login s
handle offline s = on_notify_offline s
handle timer s = on_timeout s
handle beat s = on_heartbeat s
handle (text_msg msg) s = change_users (receive_text msg) s
handle (texts_failed peer_uid msgids) s = change_users (fail_messages peer_uid msgids) s
handle (threads_loaded threads load_more) s = receive_threads threads load_more s
handle (page_loaded page) s = receive_page page s
handle (chat_made error uid thread_id) s = change_users (chat_created error uid thread_id) s
handle (applied apply) s = change_users (receive_apply apply) s
handle (befriended info) s = change_users (receive_friend info) s
handle (agreed info) s = change_users (receive_auth_rsp info) s

-- The events of a run, one after the other.
unfoldable pub run : List Event → Service → Service
unfolding handle
run [] s = s
run (event ∷ events) s = run events (handle event s)

abbrev pub no_session : Users → Service
no_session users = record {
  current = no_server;
  pending = no_server;
  ready = false;
  connecting = false;
  timeout = false;
  heartbeat = false;
  connected = false;
  users = users;
  sent = [];
  signals = [];
}
