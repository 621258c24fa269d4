-- ===== src/Client/Events/Login.antt =====
-- client/core/service/sessionservice.cpp: the requests for pages change only what is sent, and the
-- events of a login keep the members in agreement.
use xiguchat.Prelude.{
  ◌≡◌, refl, sym, ap, subst, ◌∙◌, Bool, true, false, List, [], ◌∷◌, ◌++◌, not, inl, inr, Bool-cases,
}
use xiguchat.Prelude.Int.{ℤ, pos, eqb_ℤ, eqb_ℤ→eq, is_positive}
use xiguchat.Client.Users.{Users, append_friend_list, set_chat_threads}
use xiguchat.Client.Users.Index.{IsIndexed, IsLater, IsLater-trans}
use xiguchat.Client.Users.Later.{append_friend_list-IsLater, set_chat_threads-IsLater}
use xiguchat.Client.SessionService.{
  network, wrong_account, Service, LoginData, change_users, emit, session_ready, on_tcp_connected,
  on_chat_logged_in, request_messages, load_more_threads, request_each, request_threads,
  last_thread, fill_users,
}
use xiguchat.Client.Events.Consistent.{IsConsistent, if-IsConsistent, fail_and_reset-IsConsistent}

-- Asking for a page changes only what has been sent.
pub request_messages-sent :
    (thread_id last : ℤ) (s : Service)
    → request_messages thread_id last s
      ≡ record s { sent = (request_messages thread_id last s).sent }
unfolding request_messages
request_messages-sent thread_id last s = elim (Bool-cases (is_positive thread_id)) [
  | inl given ↦ rw given refl
  | inr absent ↦ rw absent refl
]

load_more_threads-sent :
    (last : ℤ) (s : Service)
    → load_more_threads last s ≡ record s { sent = (load_more_threads last s).sent }
unfolding load_more_threads
load_more_threads-sent last s = elim (Bool-cases (is_positive last)) [
  | inl given ↦ rw given refl
  | inr absent ↦ rw absent refl
]

request_each-sent :
    (threads : List (ℤ × ℤ)) (s : Service)
    → request_each threads s ≡ record s { sent = (request_each threads s).sent }
unfolding request_each
request_each-sent [] s = refl
request_each-sent ((uid, thread_id) ∷ threads) s =
    let s' = request_messages thread_id (pos 0) s in
    request_each-sent threads s'
    ∙ ap (λ (z : Service). record z { sent = (request_each threads s').sent })
        (request_messages-sent thread_id (pos 0) s)

pub request_threads-sent :
    (more : Bool) (threads : List (ℤ × ℤ)) (s : Service)
    → request_threads more threads s ≡ record s { sent = (request_threads more threads s).sent }
unfolding request_threads
request_threads-sent false threads s = request_each-sent threads s
request_threads-sent true threads s =
    let s' = request_each threads s in
    load_more_threads-sent (last_thread (pos 0) threads) s'
    ∙ ap
        (λ (z : Service). record z {
          sent = (load_more_threads (last_thread (pos 0) threads) s').sent;
        })
        (request_each-sent threads s)

fill_users-IsLater :
    (login : LoginData) (u : Users)
    → IsIndexed u
    → (IsIndexed (fill_users login u)) × ((fill_users login u).uid ≡ login.uid)
unfolding fill_users
fill_users-IsLater login u indexed =
    let own = record u { uid = login.uid; apply_list = u.apply_list ++ login.apply_list } in
    let befriended = append_friend_list login.friend_list own in
    let later : IsLater own (set_chat_threads login.thread_list befriended) =
      IsLater-trans (set_chat_threads login.thread_list befriended)
        (append_friend_list-IsLater login.friend_list own)
        (set_chat_threads-IsLater login.thread_list befriended) in
    (later.indexed (record { mapped = indexed.mapped; made = indexed.made }), later.uid)

pub on_tcp_connected-IsConsistent :
    (ok : Bool) (s : Service) → IsConsistent s → IsConsistent (on_tcp_connected ok s)
unfolding on_tcp_connected
on_tcp_connected-IsConsistent ok s c =
    if-IsConsistent (not s.connecting) (λ calm. c)
      (λ waiting.
        if-IsConsistent ok
          (λ good. record {
            timeout = c.timeout;
            heartbeat = c.heartbeat;
            exclusive = c.exclusive;
            account = c.account;
            indexed = c.indexed;
          })
          (λ bad. fail_and_reset-IsConsistent network s c.indexed))

-- A session that is ready is of the account that the login is about.
logged_in-IsConsistent :
    (login : LoginData) (s : Service)
    → login.uid ≡ s.pending.uid
    → IsConsistent s
    → IsConsistent (
        emit session_ready
          (record (request_threads login.thread_more login.thread_list
            (change_users (fill_users login) s)) {
              connecting = false;
              timeout = false;
              ready = true;
              current = s.pending;
              heartbeat = true;
            }))
logged_in-IsConsistent login s same c =
    let (indexed, own) = fill_users-IsLater login s.users c.indexed in
    let sends =
      request_threads-sent login.thread_more login.thread_list
        (change_users (fill_users login) s) in
    let users : (request_threads login.thread_more login.thread_list
          (change_users (fill_users login) s)).users
        ≡ fill_users login s.users =
      ap (λ (z : Service). z.users) sends in
    record {
      timeout = refl;
      heartbeat = refl;
      exclusive = refl;
      account = λ h. ap (λ (u : Users). u.uid) users ∙ own ∙ same;
      indexed = subst (λ (u : Users). IsIndexed u) (sym users) indexed;
    }

pub on_chat_logged_in-IsConsistent :
    (login : LoginData) (s : Service) → IsConsistent s → IsConsistent (on_chat_logged_in login s)
unfolding on_chat_logged_in
on_chat_logged_in-IsConsistent login s c =
    if-IsConsistent (not s.connecting) (λ calm. c)
      (λ waiting.
        if-IsConsistent (eqb_ℤ login.uid s.pending.uid)
          (λ same. logged_in-IsConsistent login s (eqb_ℤ→eq login.uid s.pending.uid same) c)
          (λ differs. fail_and_reset-IsConsistent wrong_account s c.indexed))
