-- ===== src/Client/Users.antt =====
-- client/core/usermgr.cpp: the friends with their chats, the applications and the chats that are being
-- created. A FriendInfo is an object that the list and the map share: both have its number, and infos
-- has what it is at the moment. The members that only the display reads are left out.
pub mod Index
pub mod Later
use xiguchat.Prelude.{
  ℕ, suc, ◌==◌, Bool, true, false, not, ◌&&◌, ◌||◌, Option, none, some, List, [], ◌∷◌, ◌++◌,
  if◌then◌else◌,
}
use xiguchat.Prelude.Text.{Text}
use xiguchat.Prelude.Int.{ℤ, pos, eqb_ℤ, is_positive}
use xiguchat.Client.History.{
  TextChatData, ChatMessageStatus, append_chat_msgs, update_chat_message, fail_pending,
}

pub record FriendInfo : Type 0 where
  pub uid : ℤ
  pub thread_id : ℤ
  pub chat_msgs : List TextChatData

pub record ApplyEntry : Type 0 where
  pub uid : ℤ
  pub status : ℤ

-- uid is GetUid, 0 without user information. The objects from next on are not made yet.
pub record Users : Type 0 where
  pub uid : ℤ
  pub apply_list : List ApplyEntry
  pub infos : ℕ → FriendInfo
  pub next : ℕ
  pub friend_list : List ℕ
  pub friend_map : List (ℤ × ℕ)
  pub pending_private_chats : List ℤ

abbrev pub no_friend : FriendInfo
no_friend = record { uid = pos 0; thread_id = pos 0; chat_msgs = [] }

unfoldable pub find_in : List (ℤ × ℕ) → ℤ → Option ℕ
find_in [] uid = none
find_in ((other, friend) ∷ map) uid =
    let rest = find_in map uid in if eqb_ℤ other uid then some friend else rest

-- operator[] of the map and an assignment.
unfoldable pub insert_in : List (ℤ × ℕ) → ℤ → ℕ → List (ℤ × ℕ)
insert_in [] uid friend = (uid, friend) ∷ []
insert_in ((other, old) ∷ map) uid friend =
    let rest = insert_in map uid friend in
    if eqb_ℤ other uid then (other, friend) ∷ map else (other, old) ∷ rest

abbrev pub get_friend_by_id : ℤ → Users → Option ℕ
get_friend_by_id uid u = find_in u.friend_map uid

abbrev pub edit_info : ℕ → (FriendInfo → FriendInfo) → Users → Users
edit_info friend f u = record u { infos = λ n. if n == friend then f (u.infos n) else u.infos n }

abbrev pub edit_found : Option ℕ → (FriendInfo → FriendInfo) → Users → Users
edit_found none f u = u
edit_found (some friend) f u = edit_info friend f u

abbrev pub push_friend : FriendInfo → Users → Users
push_friend info u = record u {
  infos = λ n. if n == u.next then info else u.infos n;
  next = suc u.next;
  friend_list = u.friend_list ++ u.next ∷ [];
  friend_map = insert_in u.friend_map info.uid u.next;
}

unfoldable pub append_friend_list : List ℤ → Users → Users
unfolding insert_in
append_friend_list [] u = u
append_friend_list (uid ∷ uids) u =
    append_friend_list uids
      (push_friend (record { uid = uid; thread_id = pos 0; chat_msgs = [] }) u)

-- AddFriend of an AuthInfo and of an AuthRsp.
unfoldable pub add_friend_info : FriendInfo → Option ℕ → Users → Users
unfolding insert_in
add_friend_info info (some friend) u = u
add_friend_info info none u = push_friend info u

unfoldable pub add_known_friend : FriendInfo → Users → Users
unfolding add_friend_info find_in
add_known_friend info u = add_friend_info info (get_friend_by_id info.uid u) u

unfoldable pub append_friend_chat_msg : ℤ → List TextChatData → Users → Users
unfolding find_in append_chat_msgs
append_friend_chat_msg friend_id msgs u =
    edit_found (get_friend_by_id friend_id u)
      (λ info. record info { chat_msgs = append_chat_msgs info.chat_msgs msgs }) u

abbrev pub with_thread : ℤ → FriendInfo → FriendInfo
with_thread thread_id info = record info { thread_id = thread_id }

-- AppendChatThreads over the pairs of a uid and a thread id.
unfoldable pub append_chat_threads : List (ℤ × ℤ) → Users → Users
unfolding find_in
append_chat_threads [] u = u
append_chat_threads ((uid, thread_id) ∷ threads) u =
    append_chat_threads threads (edit_found (get_friend_by_id uid u) (with_thread thread_id) u)

-- A loop over the friends of the list.
unfoldable pub each_info : (FriendInfo → FriendInfo) → List ℕ → Users → Users
each_info f [] u = u
each_info f (friend ∷ friends) u = each_info f friends (edit_info friend f u)

unfoldable pub set_chat_threads : List (ℤ × ℤ) → Users → Users
unfolding each_info append_chat_threads
set_chat_threads threads u =
    append_chat_threads threads (each_info (with_thread (pos 0)) u.friend_list u)

abbrev pub without_uid : ℤ → List ℤ → List ℤ
without_uid uid [] = []
without_uid uid (other ∷ uids) =
    let rest = without_uid uid uids in if eqb_ℤ other uid then rest else other ∷ rest

-- remove of _pending_private_chats
unfoldable pub remove_pending : ℤ → Users → Users
remove_pending uid u = record u { pending_private_chats = without_uid uid u.pending_private_chats }

unfoldable pub set_thread_id : ℤ → ℤ → Users → Users
unfolding find_in remove_pending
set_thread_id friend_id thread_id u =
    if is_positive thread_id
    then edit_found (get_friend_by_id friend_id u) (with_thread thread_id)
        (remove_pending friend_id u)
    else remove_pending friend_id u

unfoldable pub update_friend_message : ℤ → Text → ℤ → ChatMessageStatus → Users → Users
unfolding find_in update_chat_message
update_friend_message friend_id msg_id message_id status u =
    edit_found (get_friend_by_id friend_id u)
      (λ info. record info {
        chat_msgs = update_chat_message info.chat_msgs msg_id message_id status;
      })
      u

unfoldable pub fail_pending_messages : Users → Users
unfolding each_info fail_pending
fail_pending_messages u =
    each_info (λ info. record info { chat_msgs = fail_pending info.chat_msgs }) u.friend_list u

-- FriendIdByThread over the list.
unfoldable pub friend_id_by_thread : ℤ → List ℕ → Users → ℤ
friend_id_by_thread thread_id [] u = pos 0
friend_id_by_thread thread_id (friend ∷ friends) u =
    let rest = friend_id_by_thread thread_id friends u in
    if eqb_ℤ (u.infos friend).thread_id thread_id then (u.infos friend).uid else rest

unfoldable pub has_apply : ℤ → List ApplyEntry → Bool
has_apply uid [] = false
has_apply uid (apply ∷ applies) = eqb_ℤ apply.uid uid || has_apply uid applies

abbrev pub add_apply_list : ApplyEntry → Users → Users
add_apply_list apply u = record u { apply_list = u.apply_list ++ apply ∷ [] }

-- The first application of the uid with another status.
unfoldable pub set_apply_status : ℤ → ℤ → List ApplyEntry → List ApplyEntry
set_apply_status uid status [] = []
set_apply_status uid status (apply ∷ applies) =
    let rest = set_apply_status uid status applies in
    if eqb_ℤ apply.uid uid && not (eqb_ℤ apply.status status)
    then record apply { status = status } ∷ applies
    else apply ∷ rest

-- ClearSession; the objects that nothing refers to are gone.
unfoldable pub clear_users : Users → Users
clear_users u = record u {
  uid = pos 0;
  apply_list = [];
  friend_list = [];
  friend_map = [];
  pending_private_chats = [];
}
