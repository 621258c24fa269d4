-- ===== src/Client/Events/Pending.antt =====
-- client/core/usermgr.cpp and client/core/service/sessionservice.cpp: a connection that is lost leaves no
-- message that waits for the server.
use xiguchat.Prelude.{
  ℕ, ◌≡◌, refl, sym, ap, subst, Bool, true, false, some, List, [], ◌∷◌, ◌==◌, ◌||◌, inl, inr,
  Bool-cases, if◌then◌else◌, arith,
}
use xiguchat.Prelude.Int.{ℤ}
use xiguchat.Client.History.{failed, TextChatData}
use xiguchat.Client.Users.{Users, FriendInfo, fail_pending_messages}
use xiguchat.Client.Users.Index.{IsIndexed}
use xiguchat.Client.SessionService.{closed_in_login, Service, lost, fail_and_reset}
use xiguchat.Client.Events.{on_connection_closed, Event, socket_closed, handle, run, no_session}
use xiguchat.Client.History.{
  ChatMessageStatus, sending, sent, unread, read, fail_pending, fail_status,
}
use xiguchat.Client.Users.{find_in, edit_info, each_info}
use xiguchat.Client.Users.Index.{is_in}
use xiguchat.Client.Events.Runs.{run-IsConsistent}

abbrev pub is_sending : ChatMessageStatus → Bool
is_sending sending = true
is_sending _ = false

abbrev pub has_sending : List TextChatData → Bool
has_sending [] = false
has_sending (message ∷ messages) = is_sending message.status || has_sending messages

fail_status-is_sending : (status : ChatMessageStatus) → is_sending (fail_status status) ≡ false
fail_status-is_sending sending = refl
fail_status-is_sending sent = refl
fail_status-is_sending failed = refl
fail_status-is_sending unread = refl
fail_status-is_sending read = refl

fail_pending-has_sending :
    (messages : List TextChatData) → has_sending (fail_pending messages) ≡ false
unfolding fail_pending
fail_pending-has_sending [] = refl
fail_pending-has_sending (message ∷ messages) =
    rw (fail_status-is_sending message.status) (fail_pending-has_sending messages)

abbrev fail_info : FriendInfo → FriendInfo
fail_info info = record info { chat_msgs = fail_pending info.chat_msgs }

-- A friend that is done stays done, and each friend of the list is done.
each_info-kept :
    (friends : List ℕ) (u : Users) (n : ℕ)
    → has_sending (u.infos n).chat_msgs ≡ false
    → has_sending ((each_info fail_info friends u).infos n).chat_msgs ≡ false
unfolding each_info
each_info-kept [] u n done = done
each_info-kept (friend ∷ friends) u n done =
    each_info-kept friends (edit_info friend fail_info u) n (elim (Bool-cases (n == friend)) [
      | inl here ↦ rw here (fail_pending-has_sending (u.infos n).chat_msgs)
      | inr away ↦ rw away done
    ])

each_info-has_sending :
    (friends : List ℕ) (u : Users) (n : ℕ)
    → is_in n friends ≡ true
    → has_sending ((each_info fail_info friends u).infos n).chat_msgs ≡ false
unfolding each_info is_in
each_info-has_sending [] u n h = ground (arith, h)
each_info-has_sending (friend ∷ friends) u n h = elim (Bool-cases (friend == n)) [
  | inl here ↦
      let same : (n == friend) ≡ true = ground (arith, here) in
      each_info-kept friends (edit_info friend fail_info u) n
        (rw same (fail_pending-has_sending (u.infos n).chat_msgs))
  | inr away ↦
      each_info-has_sending friends (edit_info friend fail_info u) n (ground (arith, away, h))
]

each_info-map :
    (f : FriendInfo → FriendInfo) (friends : List ℕ) (u : Users)
    → (each_info f friends u).friend_map ≡ u.friend_map
unfolding each_info
each_info-map f [] u = refl
each_info-map f (friend ∷ friends) u = each_info-map f friends (edit_info friend f u)

lost-has_sending :
    (s : Service) (uid : ℤ) (friend : ℕ)
    → IsIndexed s.users
    → find_in (lost s).users.friend_map uid ≡ some friend
    → has_sending ((lost s).users.infos friend).chat_msgs ≡ false
unfolding lost fail_pending_messages
lost-has_sending s uid friend indexed h =
    let before : find_in s.users.friend_map uid ≡ some friend =
      subst (λ (m : List (ℤ × ℕ)). find_in m uid ≡ some friend)
        (each_info-map fail_info s.users.friend_list s.users) h in
    let (listed, named) = indexed.mapped uid friend before in
    each_info-has_sending s.users.friend_list s.users friend listed

on_connection_closed-lost : (s : Service) → s.connecting ≡ false → on_connection_closed s ≡ lost s
unfolding on_connection_closed
on_connection_closed-lost s calm =
    ap (λ (test : Bool). if test then fail_and_reset closed_in_login s else lost s) calm

-- Where the socket is lost outside a login, after any events from the client without a session whose
-- list and map of the friends belong together: no friend that the map has for a uid has a message with
-- the status of one that is being sent.
pub run-has_sending :
    (events : List Event) (users : Users) (uid : ℤ) (friend : ℕ)
    → IsIndexed users
    → (run events (no_session users)).connecting ≡ false
    → find_in (handle socket_closed (run events (no_session users))).users.friend_map uid
      ≡ some friend
    → has_sending
        ((handle socket_closed (run events (no_session users))).users.infos friend).chat_msgs
      ≡ false
unfolding handle
run-has_sending events users uid friend indexed calm =
    let s = run events (no_session users) in
    let closed : Service = record s { connected = false } in
    subst
      (λ (z : Service).
        find_in z.users.friend_map uid ≡ some friend
        → has_sending (z.users.infos friend).chat_msgs ≡ false)
      (sym (on_connection_closed-lost closed calm))
      (lost-has_sending closed uid friend (run-IsConsistent events users indexed).indexed)
