-- ===== src/Client/SessionService.antt =====
-- client/core/service/sessionservice.cpp: the session with a chat server, from the login by HTTP to its
-- end, and what the messages of the server change in UserMgr. A QJsonObject is the members that the
-- handler reads. The reasons of failures are data in place of the texts that are displayed.
use xiguchat.Prelude.{ℕ, Bool, true, false, not, List, [], ◌∷◌, ◌++◌, if◌then◌else◌}
use xiguchat.Prelude.Text.{Text, codes}
use xiguchat.Prelude.Int.{ℤ, pos, eqb_ℤ, is_positive}
use xiguchat.Chat.World.{Doc, int, text, object, none_yet}
use xiguchat.Chat.Reply.{put_fields}
use xiguchat.Chat.Protocol.{chat_login, load_chat_msg_req, load_chat_thread_req}
use xiguchat.Client.Users.{
  Users, ApplyEntry, append_friend_list, set_chat_threads, fail_pending_messages, clear_users,
}

pub record ServerInfo : Type 0 where
  pub uid : ℤ
  pub token : Text

abbrev pub no_server : ServerInfo
no_server = record { uid = pos 0; token = [] }

pub data Failure : Type 0 where
  timed_out network wrong_account closed_in_login replaced_in_login : Failure
  login_refused : ℤ → Failure
  unreachable : Text → Failure

-- The signals to the user interface.
pub data Signal : Type 0 where
  connecting session_ready : Signal
  connect_failed : Failure → Signal

-- timeout and heartbeat: whether the timers run. connected: whether the socket of TcpMgr is. sent are
-- the frames that sig_send_data has been given.
pub record Service : Type 0 where
  pub current : ServerInfo
  pub pending : ServerInfo
  pub ready : Bool
  pub connecting : Bool
  pub timeout : Bool
  pub heartbeat : Bool
  pub connected : Bool
  pub users : Users
  pub sent : List (ℕ × Doc)
  pub signals : List Signal

abbrev pub emit : Signal → Service → Service
emit signal s = record s { signals = s.signals ++ signal ∷ [] }

abbrev pub send_data : ℕ → Doc → Service → Service
send_data id doc s = record s { sent = s.sent ++ (id, doc) ∷ [] }

abbrev pub change_users : (Users → Users) → Service → Service
change_users f s = record s { users = f s.users }

-- What sig_connection_closed does outside a login.
unfoldable pub lost : Service → Service
lost s = record s { ready = false; heartbeat = false; users = fail_pending_messages s.users }

-- The members after closeSession has set them, before it closes the socket.
abbrev pub reset_session : Service → Service
reset_session s = record s {
  timeout = false;
  heartbeat = false;
  ready = false;
  connecting = false;
  current = no_server;
  pending = no_server;
}

-- A socket that is connected tells at once that it is disconnected.
unfoldable pub close_session : Service → Service
unfolding lost
close_session s =
    if s.connected then lost (record (reset_session s) { connected = false }) else reset_session s

unfoldable pub fail_and_reset : Failure → Service → Service
unfolding close_session
fail_and_reset reason s = emit (connect_failed reason) (close_session s)

unfoldable pub connect_to_chat : ServerInfo → Service → Service
unfolding close_session
connect_to_chat info s = emit connecting (record (change_users clear_users (close_session s)) {
  pending = info;
  connecting = true;
  ready = false;
  timeout = true;
})

abbrev pub login_frame : ServerInfo → Doc
login_frame info =
    object
      (put_fields none_yet ((codes "uid", int info.uid) ∷ (codes "token", text info.token) ∷ []))

unfoldable pub on_tcp_connected : Bool → Service → Service
unfolding fail_and_reset
on_tcp_connected ok s =
    if not s.connecting
    then s
    else if ok
    then send_data chat_login (login_frame s.pending) s
    else fail_and_reset network s

unfoldable pub on_chat_login_failed : ℤ → Service → Service
unfolding fail_and_reset
on_chat_login_failed code s = if s.connecting then fail_and_reset (login_refused code) s else s

-- requestMessages: the page behind a message id of a thread.
unfoldable pub request_messages : ℤ → ℤ → Service → Service
request_messages thread_id last_message_id s =
    if is_positive thread_id
    then send_data load_chat_msg_req
        (object (
          put_fields none_yet (
            (codes "fromuid", int s.users.uid)
            ∷ (codes "thread_id", int thread_id)
            ∷ (codes "message_id", int last_message_id)
            ∷ [])))
        s
    else s

unfoldable pub load_more_threads : ℤ → Service → Service
load_more_threads last_thread_id s =
    if is_positive last_thread_id
    then send_data load_chat_thread_req
        (object (
          put_fields none_yet
            ((codes "fromuid", int s.users.uid) ∷ (codes "thread_id", int last_thread_id) ∷ [])))
        s
    else s

-- The first page of each thread.
unfoldable pub request_each : List (ℤ × ℤ) → Service → Service
unfolding request_messages
request_each [] s = s
request_each ((uid, thread_id) ∷ threads) s =
    request_each threads (request_messages thread_id (pos 0) s)

abbrev pub last_thread : ℤ → List (ℤ × ℤ) → ℤ
last_thread last [] = last
last_thread last ((uid, thread_id) ∷ threads) = last_thread thread_id threads

-- The rest of the threads, if there are more; the cursor 0 of no thread asks for nothing.
unfoldable pub request_threads : Bool → List (ℤ × ℤ) → Service → Service
unfolding request_each load_more_threads
request_threads more threads s =
    let requested = request_each threads s in
    if more then load_more_threads (last_thread (pos 0) threads) requested else requested

pub record LoginData : Type 0 where
  pub uid : ℤ
  pub apply_list : List ApplyEntry
  pub friend_list : List ℤ
  pub thread_list : List (ℤ × ℤ)
  pub thread_more : Bool

-- SetUserInfo, AppendApplyList, AppendFriendList and SetChatThreads.
unfoldable pub fill_users : LoginData → Users → Users
unfolding append_friend_list set_chat_threads
fill_users login u = set_chat_threads login.thread_list (
    append_friend_list login.friend_list
      (record u { uid = login.uid; apply_list = u.apply_list ++ login.apply_list }))

unfoldable pub on_chat_logged_in : LoginData → Service → Service
unfolding fail_and_reset fill_users request_threads
on_chat_logged_in login s =
    if not s.connecting
    then s
    else if eqb_ℤ login.uid s.pending.uid
    then emit session_ready
        (record (request_threads login.thread_more login.thread_list
          (change_users (fill_users login) s)) {
            connecting = false;
            timeout = false;
            ready = true;
            current = s.pending;
            heartbeat = true;
          })
    else fail_and_reset wrong_account s
