-- ===== src/Client/History.antt =====
-- client/core/userdata.cpp and client/core/usermgr.cpp: the messages of a chat, which the receipts,
-- the notices and the history pages are merged into. A message that is shared between the chat and
-- the caller's vector is a value here.
pub mod Order
pub mod Merge
pub mod Lookup
pub mod Receipt
pub mod Cursor
use xiguchat.Prelude.{
  ℕ, zero, suc, ◌+◌, Bool, true, false, not, Option, none, some, ◌&&◌, ◌||◌, List, [], ◌∷◌, map,
  if◌then◌else◌,
}
use xiguchat.Prelude.Text.{Text, text_eq}
use xiguchat.Prelude.Int.{ℤ, pos, eqb_ℤ, ltb_ℤ, is_positive}

pub data ChatMessageStatus : Type 0 where
  sending : ChatMessageStatus
  sent : ChatMessageStatus
  failed : ChatMessageStatus
  unread : ChatMessageStatus
  read : ChatMessageStatus

pub record TextChatData : Type 0 where
  pub msg_id : Text
  pub message_id : ℤ
  pub thread_id : ℤ
  pub status : ChatMessageStatus
  pub msg_content : Text

abbrev pub is_unconfirmed : TextChatData → Bool
is_unconfirmed message = eqb_ℤ message.message_id (pos 0)

-- What a message takes over from one with the same msgid.
abbrev pub merged : TextChatData → TextChatData → TextChatData
merged existing text =
    if is_unconfirmed existing || is_positive text.message_id
    then record existing {
      message_id = text.message_id;
      thread_id = text.thread_id;
      status = text.status;
      msg_content = text.msg_content;
    }
    else existing

-- find_if over the messages, then push_back or an update in place.
unfoldable pub append_one : TextChatData → List TextChatData → List TextChatData
append_one text [] = text ∷ []
append_one text (item ∷ items) =
    let rest = append_one text items in
    if text_eq item.msg_id text.msg_id then merged item text ∷ items else item ∷ rest

unfoldable pub append_all : List TextChatData → List TextChatData → List TextChatData
unfolding append_one
append_all [] messages = messages
append_all (text ∷ texts) messages = append_all texts (append_one text messages)

-- The comparison of two server ids: 0 is no id yet and comes last.
abbrev pub precedes : ℤ → ℤ → Bool
precedes left right =
    if eqb_ℤ left (pos 0) || eqb_ℤ right (pos 0)
    then not (eqb_ℤ left (pos 0)) && eqb_ℤ right (pos 0)
    else ltb_ℤ left right

-- stable_sort with that comparison, as an insertion before the first message that does not precede.
unfoldable pub insert : TextChatData → List TextChatData → List TextChatData
insert text [] = text ∷ []
insert text (item ∷ items) =
    let rest = insert text items in
    if precedes item.message_id text.message_id then item ∷ rest else text ∷ item ∷ items

unfoldable pub stable_sort : List TextChatData → List TextChatData
unfolding insert
stable_sort [] = []
stable_sort (text ∷ texts) = insert text (stable_sort texts)

unfoldable pub append_chat_msgs : List TextChatData → List TextChatData → List TextChatData
unfolding append_all stable_sort
append_chat_msgs messages text_vec = stable_sort (append_all text_vec messages)

-- The server's receipt of a message.
abbrev pub receipted : ℤ → ChatMessageStatus → TextChatData → TextChatData
receipted message_id status message = record message {
  message_id = if is_positive message_id then message_id else message.message_id;
  status = status;
}

unfoldable pub find_msg : Text → List TextChatData → Option TextChatData
find_msg msg_id [] = none
find_msg msg_id (message ∷ messages) =
    let rest = find_msg msg_id messages in
    if text_eq message.msg_id msg_id then some message else rest

-- The change of the object that the loop has found, which is shared with the chat.
unfoldable pub set_receipt : Text → ℤ → ChatMessageStatus → List TextChatData → List TextChatData
set_receipt msg_id message_id status [] = []
set_receipt msg_id message_id status (message ∷ messages) =
    let rest = set_receipt msg_id message_id status messages in
    if text_eq message.msg_id msg_id
    then receipted message_id status message ∷ messages
    else message ∷ rest

unfoldable pub update_chat_message :
    List TextChatData → Text → ℤ → ChatMessageStatus → List TextChatData
unfolding find_msg set_receipt append_chat_msgs
update_chat_message messages msg_id message_id status = elim (find_msg msg_id messages) [
  | none ↦ messages
  | some message ↦
      append_chat_msgs (set_receipt msg_id message_id status messages)
        (receipted message_id status message ∷ [])
]

abbrev pub fail_status : ChatMessageStatus → ChatMessageStatus
fail_status sending = failed
fail_status status = status

-- FailPendingMessages, on one friend's chat.
unfoldable pub fail_pending : List TextChatData → List TextChatData
fail_pending messages =
    map {A = TextChatData} (λ message. record message { status = fail_status message.status })
      messages

abbrev pub q_max : ℤ → ℤ → ℤ
q_max a b = if ltb_ℤ a b then b else a

unfoldable pub last_id_from : ℤ → List TextChatData → ℤ
last_id_from last_id [] = last_id
last_id_from last_id (message ∷ messages) = last_id_from (q_max last_id message.message_id) messages

unfoldable pub last_message_id : List TextChatData → ℤ
unfolding last_id_from
last_message_id messages = last_id_from (pos 0) messages
