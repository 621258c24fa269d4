-- ===== src/Client/Events/Received.antt =====
-- client/core/service/sessionservice.cpp: what the messages of the server change in UserMgr leaves
-- the list and the map of the friends in agreement.
use xiguchat.Prelude.{refl, Bool, true, false, List, [], ◌∷◌, ◌++◌, if◌then◌else◌}
use xiguchat.Prelude.Text.{Text}
use xiguchat.Prelude.Int.{ℤ, pos, eqb_ℤ, is_positive}
use xiguchat.Client.History.{failed, TextChatData}
use xiguchat.Client.Users.{
  Users, FriendInfo, append_friend_chat_msg, update_friend_message, set_thread_id, has_apply,
  add_known_friend, set_apply_status, ApplyEntry,
}
use xiguchat.Client.Users.Index.{IsLater, IsLater-refl, IsLater-trans}
use xiguchat.Client.Users.Later.{
  append_friend_chat_msg-IsLater, update_friend_message-IsLater, remove_pending-IsLater,
  set_thread_id-IsLater, add_known_friend-IsLater,
}
use xiguchat.Client.Events.{
  ChatMsg, receive_text, fail_messages, chat_created, receive_apply, receive_friend,
  receive_auth_rsp,
}

if-IsLater :
    (test : Bool) {u v v' : Users} → IsLater u v → IsLater u v' → IsLater u (if test then v else v')
if-IsLater true a b = a
if-IsLater false a b = b

pub receive_text-IsLater : (msg : ChatMsg) (u : Users) → IsLater u (receive_text msg u)
unfolding receive_text
receive_text-IsLater msg u =
    let peer_uid = if eqb_ℤ msg.from_uid u.uid then msg.to_uid else msg.from_uid in
    let threaded =
      if is_positive msg.thread_id then set_thread_id peer_uid msg.thread_id u else u in
    IsLater-trans (append_friend_chat_msg peer_uid msg.chat_msgs threaded)
      (if-IsLater (is_positive msg.thread_id) (set_thread_id-IsLater peer_uid msg.thread_id u)
        (IsLater-refl u))
      (append_friend_chat_msg-IsLater peer_uid msg.chat_msgs threaded)

pub fail_messages-IsLater :
    (peer_uid : ℤ) (msgids : List Text) (u : Users) → IsLater u (fail_messages peer_uid msgids u)
unfolding fail_messages
fail_messages-IsLater peer_uid [] u = IsLater-refl u
fail_messages-IsLater peer_uid (msgid ∷ msgids) u =
    let u' = update_friend_message peer_uid msgid (pos 0) failed u in
    IsLater-trans (fail_messages peer_uid msgids u')
      (update_friend_message-IsLater peer_uid msgid (pos 0) failed u)
      (fail_messages-IsLater peer_uid msgids u')

pub chat_created-IsLater :
    (error uid thread_id : ℤ) (u : Users) → IsLater u (chat_created error uid thread_id u)
unfolding chat_created
chat_created-IsLater error uid thread_id u =
    if-IsLater (eqb_ℤ error (pos 0)) (set_thread_id-IsLater uid thread_id u)
      (remove_pending-IsLater uid u)

set_applies-IsLater :
    (applies : List ApplyEntry) (u : Users) → IsLater u (record u { apply_list = applies })
set_applies-IsLater applies u = record {
  uid = refl;
  indexed = λ v. record { mapped = v.mapped; made = v.made };
}

pub receive_apply-IsLater : (apply : ApplyEntry) (u : Users) → IsLater u (receive_apply apply u)
unfolding receive_apply
receive_apply-IsLater apply u =
    if-IsLater (has_apply apply.uid u.apply_list) (IsLater-refl u)
      (set_applies-IsLater (u.apply_list ++ apply ∷ []) u)

known-IsLater :
    (info : FriendInfo) (u : Users)
    → IsLater u (set_thread_id info.uid info.thread_id (add_known_friend info u))
known-IsLater info u =
    IsLater-trans (set_thread_id info.uid info.thread_id (add_known_friend info u))
      (add_known_friend-IsLater info u)
      (set_thread_id-IsLater info.uid info.thread_id (add_known_friend info u))

pub receive_friend-IsLater : (info : FriendInfo) (u : Users) → IsLater u (receive_friend info u)
unfolding receive_friend
receive_friend-IsLater info u =
    let known = set_thread_id info.uid info.thread_id (add_known_friend info u) in
    let adds : (texts : List TextChatData)
        → IsLater u (append_friend_chat_msg info.uid texts known) =
      λ texts.
        IsLater-trans (append_friend_chat_msg info.uid texts known) (known-IsLater info u)
          (append_friend_chat_msg-IsLater info.uid texts known) in
    elim info.chat_msgs
      as (λ texts. IsLater u (elim texts [
        | [] ↦ known
        | text ∷ more ↦ append_friend_chat_msg info.uid (text ∷ more) known
      ])) [ [] ↦ known-IsLater info u | text ∷ texts ↦ adds (text ∷ texts) ]

pub receive_auth_rsp-IsLater : (info : FriendInfo) (u : Users) → IsLater u (receive_auth_rsp info u)
unfolding receive_auth_rsp
receive_auth_rsp-IsLater info u =
    let agreed_to = record u { apply_list = set_apply_status info.uid (pos 1) u.apply_list } in
    IsLater-trans (receive_friend info agreed_to)
      (set_applies-IsLater (set_apply_status info.uid (pos 1) u.apply_list) u)
      (receive_friend-IsLater info agreed_to)
