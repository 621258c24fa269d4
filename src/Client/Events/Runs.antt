-- ===== src/Client/Events/Runs.antt =====
-- client/core/service/sessionservice.cpp: the members agree after every run of events.
use xiguchat.Prelude.{
  refl, sym, subst, Bool, true, false, ◌&&◌, Option, none, some, List, [], ◌∷◌, map, ◌||◌, arith,
}
use xiguchat.Prelude.Text.{Text}
use xiguchat.Prelude.Int.{ℤ, is_positive}
use xiguchat.Client.Users.{Users, append_friend_chat_msg, append_chat_threads, friend_id_by_thread}
use xiguchat.Client.Users.Index.{IsIndexed}
use xiguchat.Client.Users.Later.{append_friend_chat_msg-IsLater, append_chat_threads-IsLater}
use xiguchat.Client.SessionService.{
  closed_in_login, replaced_in_login, timed_out, unreachable, login_refused, Service, change_users,
  on_chat_login_failed, request_messages,
}
use xiguchat.Client.Events.Consistent.{IsConsistent, if-IsConsistent, fail_and_reset-IsConsistent}
use xiguchat.Client.Events.Consistent.{
  change_users-IsConsistent, lost-IsConsistent, close_session-IsConsistent,
  connect_to_chat-IsConsistent,
}
use xiguchat.Client.Events.Login.{
  request_messages-sent, request_threads-sent, on_tcp_connected-IsConsistent,
  on_chat_logged_in-IsConsistent,
}
use xiguchat.Client.Events.{
  HistoryPage, receive_text, fail_messages, history_text, next_cursor, request_next, receive_page,
  receive_threads, chat_created, receive_apply, receive_friend, receive_auth_rsp, on_con_failed,
  on_connection_closed, on_notify_offline, on_timeout, on_heartbeat, Event, connect, leave,
  socket_connected, socket_closed, con_failed, refused_login, login_done, offline, timer, beat,
  text_msg, texts_failed, threads_loaded, page_loaded, chat_made, applied, befriended, agreed,
  handle, run, no_session,
}
use xiguchat.Client.Events.Received.{
  receive_text-IsLater, fail_messages-IsLater, chat_created-IsLater, receive_apply-IsLater,
  receive_friend-IsLater, receive_auth_rsp-IsLater,
}

request_messages-IsConsistent :
    (thread_id last : ℤ) (s : Service)
    → IsConsistent s
    → IsConsistent (request_messages thread_id last s)
request_messages-IsConsistent thread_id last s c =
    subst (λ (z : Service). IsConsistent z) (sym (request_messages-sent thread_id last s))
      (record {
        timeout = c.timeout;
        heartbeat = c.heartbeat;
        exclusive = c.exclusive;
        account = c.account;
        indexed = c.indexed;
      })

request_next-IsConsistent :
    (thread_id : ℤ) (last : Option ℤ) (s : Service)
    → IsConsistent s
    → IsConsistent (request_next thread_id last s)
request_next-IsConsistent thread_id none s c = c
request_next-IsConsistent thread_id (some last) s c =
    request_messages-IsConsistent thread_id last s c

receive_page-IsConsistent :
    (page : HistoryPage) (s : Service) → IsConsistent s → IsConsistent (receive_page page s)
unfolding receive_page
receive_page-IsConsistent page s c =
    let peer_uid = friend_id_by_thread page.thread_id s.users.friend_list s.users in
    let texts = map (history_text s.users.uid page.thread_id) page.text_array in
    if-IsConsistent (is_positive peer_uid)
      (λ known.
        request_next-IsConsistent page.thread_id (next_cursor page)
          (change_users (append_friend_chat_msg peer_uid texts) s)
          (change_users-IsConsistent (append_friend_chat_msg peer_uid texts) s
            (append_friend_chat_msg-IsLater peer_uid texts s.users) c))
      (λ unknown. c)

receive_threads-IsConsistent :
    (threads : List (ℤ × ℤ)) (more : Bool) (s : Service)
    → IsConsistent s
    → IsConsistent (receive_threads threads more s)
unfolding receive_threads
receive_threads-IsConsistent threads more s c =
    let s' = change_users (append_chat_threads threads) s in
    let c' =
      change_users-IsConsistent (append_chat_threads threads) s
        (append_chat_threads-IsLater threads s.users) c in
    subst (λ (z : Service). IsConsistent z) (sym (request_threads-sent more threads s'))
      (record {
        timeout = c'.timeout;
        heartbeat = c'.heartbeat;
        exclusive = c'.exclusive;
        account = c'.account;
        indexed = c'.indexed;
      })

on_chat_login_failed-IsConsistent :
    (code : ℤ) (s : Service) → IsConsistent s → IsConsistent (on_chat_login_failed code s)
unfolding on_chat_login_failed
on_chat_login_failed-IsConsistent code s c =
    if-IsConsistent s.connecting
      (λ waiting. fail_and_reset-IsConsistent (login_refused code) s c.indexed) (λ calm. c)

on_con_failed-IsConsistent :
    (message : Text) (s : Service) → IsConsistent s → IsConsistent (on_con_failed message s)
unfolding on_con_failed
on_con_failed-IsConsistent message s c =
    if-IsConsistent (s.connecting || s.ready)
      (λ used. fail_and_reset-IsConsistent (unreachable message) s c.indexed) (λ idle. c)

on_connection_closed-IsConsistent :
    (s : Service) → IsConsistent s → IsConsistent (on_connection_closed s)
unfolding on_connection_closed
on_connection_closed-IsConsistent s c =
    if-IsConsistent s.connecting
      (λ waiting. fail_and_reset-IsConsistent closed_in_login s c.indexed)
      (λ calm. lost-IsConsistent s c.timeout c.indexed)

on_notify_offline-IsConsistent : (s : Service) → IsConsistent s → IsConsistent (on_notify_offline s)
unfolding on_notify_offline
on_notify_offline-IsConsistent s c =
    if-IsConsistent s.connecting
      (λ waiting. fail_and_reset-IsConsistent replaced_in_login s c.indexed)
      (λ calm. record {
        timeout = c.timeout;
        heartbeat = refl;
        exclusive = refl;
        account = λ h. ground (arith, h);
        indexed = c.indexed;
      })

on_timeout-IsConsistent : (s : Service) → IsConsistent s → IsConsistent (on_timeout s)
unfolding on_timeout
on_timeout-IsConsistent s c =
    if-IsConsistent s.timeout
      (λ late. fail_and_reset-IsConsistent timed_out (record s { timeout = false }) c.indexed)
      (λ calm. c)

on_heartbeat-IsConsistent : (s : Service) → IsConsistent s → IsConsistent (on_heartbeat s)
unfolding on_heartbeat
on_heartbeat-IsConsistent s c =
    if-IsConsistent (s.heartbeat && s.ready)
      (λ alive. record {
        timeout = c.timeout;
        heartbeat = c.heartbeat;
        exclusive = c.exclusive;
        account = c.account;
        indexed = c.indexed;
      })
      (λ idle. c)

-- The socket's state is none of the members that have to agree.
set_connected-IsConsistent :
    (up : Bool) (s : Service) → IsConsistent s → IsConsistent (record s { connected = up })
set_connected-IsConsistent up s c = record {
  timeout = c.timeout;
  heartbeat = c.heartbeat;
  exclusive = c.exclusive;
  account = c.account;
  indexed = c.indexed;
}

handle-IsConsistent : (event : Event) (s : Service) → IsConsistent s → IsConsistent (handle event s)
unfolding handle
handle-IsConsistent (connect info) s c = connect_to_chat-IsConsistent info s
handle-IsConsistent leave s c = close_session-IsConsistent s c.indexed
handle-IsConsistent socket_connected s c =
    on_tcp_connected-IsConsistent true (record s { connected = true })
      (set_connected-IsConsistent true s c)
handle-IsConsistent socket_closed s c =
    on_connection_closed-IsConsistent (record s { connected = false })
      (set_connected-IsConsistent false s c)
handle-IsConsistent (con_failed message) s c = on_con_failed-IsConsistent message s c
handle-IsConsistent (refused_login code) s c = on_chat_login_failed-IsConsistent code s c
handle-IsConsistent (login_done login) s c = on_chat_logged_in-IsConsistent login s c
handle-IsConsistent offline s c = on_notify_offline-IsConsistent s c
handle-IsConsistent timer s c = on_timeout-IsConsistent s c
handle-IsConsistent beat s c = on_heartbeat-IsConsistent s c
handle-IsConsistent (text_msg msg) s c =
    change_users-IsConsistent (receive_text msg) s (receive_text-IsLater msg s.users) c
handle-IsConsistent (texts_failed peer_uid msgids) s c =
    change_users-IsConsistent (fail_messages peer_uid msgids) s
      (fail_messages-IsLater peer_uid msgids s.users) c
handle-IsConsistent (threads_loaded threads more) s c =
    receive_threads-IsConsistent threads more s c
handle-IsConsistent (page_loaded page) s c = receive_page-IsConsistent page s c
handle-IsConsistent (chat_made error uid thread_id) s c =
    change_users-IsConsistent (chat_created error uid thread_id) s
      (chat_created-IsLater error uid thread_id s.users) c
handle-IsConsistent (applied apply) s c =
    change_users-IsConsistent (receive_apply apply) s (receive_apply-IsLater apply s.users) c
handle-IsConsistent (befriended info) s c =
    change_users-IsConsistent (receive_friend info) s (receive_friend-IsLater info s.users) c
handle-IsConsistent (agreed info) s c =
    change_users-IsConsistent (receive_auth_rsp info) s (receive_auth_rsp-IsLater info s.users) c

runs-IsConsistent :
    (events : List Event) (s : Service) → IsConsistent s → IsConsistent (run events s)
unfolding run
runs-IsConsistent [] s c = c
runs-IsConsistent (event ∷ events) s c =
    runs-IsConsistent events (handle event s) (handle-IsConsistent event s c)

-- Whatever of the events come, in whatever order, from the client without a session whose list and
-- map of the friends belong together: the login timeout runs exactly while a login is in progress, the
-- heartbeat exactly while the session is ready, never both; the data in UserMgr is then of the account
-- that is logged in; and each uid in the map is a friend of the list with this uid.
pub run-IsConsistent :
    (events : List Event) (users : Users)
    → IsIndexed users
    → IsConsistent (run events (no_session users))
run-IsConsistent events users indexed = runs-IsConsistent events (no_session users) (record {
  timeout = refl;
  heartbeat = refl;
  exclusive = refl;
  account = λ h. ground (arith, h);
  indexed = indexed;
})
