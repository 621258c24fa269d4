-- ===== src/Examples/Histories.antt =====
-- Runs of the merge of a client's chat.
use xiguchat.Prelude.{ℕ, ◌≡◌, refl, ◌≤◌, some, List, [], ◌∷◌, map, arith}
use xiguchat.Prelude.Text.{Text, codes, text_eq}
use xiguchat.Prelude.Int.{pos}
use xiguchat.Client.History.{
  TextChatData, ChatMessageStatus, sending, sent, unread, append_one, append_all, insert,
  stable_sort, append_chat_msgs, find_msg, update_chat_message,
}
use xiguchat.Client.History.Order.{Ascending, append_chat_msgs-Ascending}
use xiguchat.Client.History.Merge.{copies}
use xiguchat.Client.History.Lookup.{put_all, find_msg-append_chat_msgs}
use xiguchat.Client.History.Receipt.{find_msg-update_chat_message}

abbrev message : Text → ℕ → ChatMessageStatus → TextChatData
message msg_id id status = record {
  msg_id = msg_id;
  message_id = pos id;
  thread_id = pos 7;
  status = status;
  msg_content = codes "hi";
}

-- A message that is being sent, behind one of the peer.
abbrev open_chat : List TextChatData
open_chat = message (codes "a") 4 unread ∷ message (codes "b") 0 sending ∷ []

-- A history page with an older message and the one that was being sent.
abbrev page : List TextChatData
page = message (codes "c") 2 unread ∷ message (codes "b") 5 sent ∷ []

page_run : map (λ m. m.message_id) (append_chat_msgs open_chat page) ≡ pos 2 ∷ pos 4 ∷ pos 5 ∷ []
unfolding append_chat_msgs append_all append_one stable_sort insert text_eq
page_run = refl

append_chat_msgs-Ascending_example : Ascending (append_chat_msgs open_chat page)
append_chat_msgs-Ascending_example = append_chat_msgs-Ascending open_chat page

once : copies (codes "b") open_chat ≤ 1
unfolding copies text_eq
once = omega arith

find_msg-append_chat_msgs_example :
    find_msg (codes "b") (append_chat_msgs open_chat page)
    ≡ put_all page (λ i. find_msg i open_chat) (codes "b")
find_msg-append_chat_msgs_example = find_msg-append_chat_msgs (codes "b") open_chat page once

find_msg-update_chat_message_example :
    find_msg (codes "b") (update_chat_message open_chat (codes "b") (pos 5) sent)
    ≡ some (message (codes "b") 5 sent)
unfolding find_msg text_eq
find_msg-update_chat_message_example =
    find_msg-update_chat_message (codes "b") (pos 5) sent (codes "b") open_chat once
