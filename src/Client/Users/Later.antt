-- ===== src/Client/Users/Later.antt =====
-- client/core/usermgr.cpp: no operation sets the list and the map of the friends apart.
use xiguchat.Prelude.{ℕ, ◌≡◌, refl, Option, none, some, List, [], ◌∷◌, inl, inr, Bool-cases, arith}
use xiguchat.Prelude.Text.{Text}
use xiguchat.Prelude.Int.{ℤ, pos, is_positive}
use xiguchat.Client.History.{
  TextChatData, ChatMessageStatus, append_chat_msgs, update_chat_message, fail_pending,
}
use xiguchat.Client.Users.{
  Users, FriendInfo, get_friend_by_id, find_in, edit_info, push_friend, append_friend_list,
  add_friend_info, add_known_friend, append_friend_chat_msg, with_thread, append_chat_threads,
  each_info, set_chat_threads, remove_pending, set_thread_id, update_friend_message,
  fail_pending_messages, clear_users, edit_found,
}
use xiguchat.Client.Users.Index.{
  IsIndexed, is_in, IsLater, IsLater-refl, IsLater-trans, edit_info-IsLater, edit_found-IsLater,
  push_friend-IsLater,
}

pub append_friend_list-IsLater : (uids : List ℤ) (u : Users) → IsLater u (append_friend_list uids u)
unfolding append_friend_list
append_friend_list-IsLater [] u = IsLater-refl u
append_friend_list-IsLater (uid ∷ uids) u =
    let info : FriendInfo = record { uid = uid; thread_id = pos 0; chat_msgs = [] } in
    IsLater-trans (append_friend_list uids (push_friend info u)) (push_friend-IsLater info u)
      (append_friend_list-IsLater uids (push_friend info u))

add_friend_info-IsLater :
    (info : FriendInfo) (known : Option ℕ) (u : Users) → IsLater u (add_friend_info info known u)
unfolding add_friend_info
add_friend_info-IsLater info (some friend) u = IsLater-refl u
add_friend_info-IsLater info none u = push_friend-IsLater info u

pub add_known_friend-IsLater : (info : FriendInfo) (u : Users) → IsLater u (add_known_friend info u)
unfolding add_known_friend
add_known_friend-IsLater info u = add_friend_info-IsLater info (get_friend_by_id info.uid u) u

pub append_friend_chat_msg-IsLater :
    (friend_id : ℤ) (msgs : List TextChatData) (u : Users)
    → IsLater u (append_friend_chat_msg friend_id msgs u)
unfolding append_friend_chat_msg
append_friend_chat_msg-IsLater friend_id msgs u =
    edit_found-IsLater (get_friend_by_id friend_id u)
      (λ info. record info { chat_msgs = append_chat_msgs info.chat_msgs msgs }) u (λ info. refl)

pub append_chat_threads-IsLater :
    (threads : List (ℤ × ℤ)) (u : Users) → IsLater u (append_chat_threads threads u)
unfolding append_chat_threads
append_chat_threads-IsLater [] u = IsLater-refl u
append_chat_threads-IsLater ((uid, thread_id) ∷ threads) u =
    let u' = edit_found (get_friend_by_id uid u) (with_thread thread_id) u in
    IsLater-trans (append_chat_threads threads u')
      (edit_found-IsLater (get_friend_by_id uid u) (with_thread thread_id) u (λ info. refl))
      (append_chat_threads-IsLater threads u')

each_info-IsLater :
    (f : FriendInfo → FriendInfo) (friends : List ℕ) (u : Users)
    → ((info : FriendInfo) → (f info).uid ≡ info.uid)
    → IsLater u (each_info f friends u)
unfolding each_info
each_info-IsLater f [] u keeps = IsLater-refl u
each_info-IsLater f (friend ∷ friends) u keeps =
    IsLater-trans (each_info f friends (edit_info friend f u)) (edit_info-IsLater friend f u keeps)
      (each_info-IsLater f friends (edit_info friend f u) keeps)

pub set_chat_threads-IsLater :
    (threads : List (ℤ × ℤ)) (u : Users) → IsLater u (set_chat_threads threads u)
unfolding set_chat_threads
set_chat_threads-IsLater threads u =
    let u' = each_info (with_thread (pos 0)) u.friend_list u in
    IsLater-trans (append_chat_threads threads u')
      (each_info-IsLater (with_thread (pos 0)) u.friend_list u (λ info. refl))
      (append_chat_threads-IsLater threads u')

pub remove_pending-IsLater : (uid : ℤ) (u : Users) → IsLater u (remove_pending uid u)
unfolding remove_pending
remove_pending-IsLater uid u = record {
  uid = refl;
  indexed = λ v. record { mapped = v.mapped; made = v.made };
}

pub set_thread_id-IsLater :
    (friend_id thread_id : ℤ) (u : Users) → IsLater u (set_thread_id friend_id thread_id u)
unfolding set_thread_id
set_thread_id-IsLater friend_id thread_id u = elim (Bool-cases (is_positive thread_id)) [
  | inl given ↦ rw given (
      IsLater-trans
        (edit_found (get_friend_by_id friend_id u) (with_thread thread_id)
          (remove_pending friend_id u))
        (remove_pending-IsLater friend_id u)
        (edit_found-IsLater (get_friend_by_id friend_id u) (with_thread thread_id)
          (remove_pending friend_id u) (λ info. refl)))
  | inr absent ↦ rw absent (remove_pending-IsLater friend_id u)
]

pub update_friend_message-IsLater :
    (friend_id : ℤ) (msg_id : Text) (message_id : ℤ) (status : ChatMessageStatus) (u : Users)
    → IsLater u (update_friend_message friend_id msg_id message_id status u)
unfolding update_friend_message
update_friend_message-IsLater friend_id msg_id message_id status u =
    edit_found-IsLater (get_friend_by_id friend_id u)
      (λ info. record info {
        chat_msgs = update_chat_message info.chat_msgs msg_id message_id status;
      })
      u (λ info. refl)

pub fail_pending_messages-IsLater : (u : Users) → IsLater u (fail_pending_messages u)
unfolding fail_pending_messages
fail_pending_messages-IsLater u =
    each_info-IsLater (λ info. record info { chat_msgs = fail_pending info.chat_msgs })
      u.friend_list u (λ info. refl)

-- Nothing is in the map and in the list of nobody.
pub clear_users-IsIndexed : (u : Users) → IsIndexed (clear_users u)
unfolding clear_users find_in is_in
clear_users-IsIndexed u = record {
  mapped = λ uid friend h. ground (arith, h);
  made = λ friend h. ground (arith, h);
}
