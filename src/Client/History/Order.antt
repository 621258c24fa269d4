-- ===== src/Client/History/Order.antt =====
-- client/core/userdata.cpp: the order of a chat's messages after AppendChatMsgs.
use xiguchat.Prelude.{
  ◌==◌, All, ◌≤◌, ◌<◌, ◌⊎◌, ◌≡◌, true, false, List, [], ◌∷◌, inl, inr, Bool-cases, Option-cases,
  arith,
}
use xiguchat.Prelude.Text.{Text}
use xiguchat.Prelude.Int.{ℤ, pos, negsuc}
use xiguchat.Client.History.{
  TextChatData, precedes, insert, stable_sort, append_all, append_chat_msgs, ChatMessageStatus,
  find_msg, receipted, set_receipt, update_chat_message,
}

-- No message of the list precedes one with this id.
unfoldable pub IsFirst : ℤ → List TextChatData → Type 0
IsFirst id [] = Unit
IsFirst id (item ∷ items) = (precedes item.message_id id ≡ false) × IsFirst id items

unfoldable pub IsOrdered : List TextChatData → Type 0
unfolding IsFirst
IsOrdered [] = Unit
IsOrdered (item ∷ items) = IsFirst item.message_id items × IsOrdered items

precedes_asym : (x y : ℤ) → precedes y x ≡ true → precedes x y ≡ false
precedes_asym (pos a) (pos b) h = ground arith
precedes_asym (pos a) (negsuc b) h = ground arith
precedes_asym (negsuc a) (pos b) h = ground arith
precedes_asym (negsuc a) (negsuc b) h = ground arith

precedes_trans : (x y z : ℤ) → precedes y x ≡ false → precedes z y ≡ false → precedes z x ≡ false
precedes_trans (pos a) (pos b) (pos c) h i = ground arith
precedes_trans (pos a) (pos b) (negsuc c) h i = ground arith
precedes_trans (pos a) (negsuc b) (pos c) h i = ground arith
precedes_trans (pos a) (negsuc b) (negsuc c) h i = ground arith
precedes_trans (negsuc a) (pos b) (pos c) h i = ground arith
precedes_trans (negsuc a) (pos b) (negsuc c) h i = ground arith
precedes_trans (negsuc a) (negsuc b) (pos c) h i = ground arith
precedes_trans (negsuc a) (negsuc b) (negsuc c) h i = ground arith

IsFirst-trans :
    (items : List TextChatData) (x y : ℤ) → precedes y x ≡ false → IsFirst y items → IsFirst x items
unfolding IsFirst
IsFirst-trans [] x y h first = tt
IsFirst-trans (item ∷ items) x y h (head, tail) =
    (precedes_trans x y item.message_id h head, IsFirst-trans items x y h tail)

IsFirst-insert :
    (items : List TextChatData) (text : TextChatData) (id : ℤ)
    → precedes text.message_id id ≡ false
    → IsFirst id items
    → IsFirst id (insert text items)
unfolding IsFirst insert
IsFirst-insert [] text id h first = (h, tt)
IsFirst-insert (item ∷ items) text id h (head, tail) =
    elim (Bool-cases (precedes item.message_id text.message_id)) [
      | inl before ↦ rw before (head, IsFirst-insert items text id h tail)
      | inr after ↦ rw after (h, (head, tail))
    ]

insert-IsOrdered :
    (items : List TextChatData) (text : TextChatData)
    → IsOrdered items
    → IsOrdered (insert text items)
unfolding IsOrdered IsFirst insert
insert-IsOrdered [] text ordered = (tt, tt)
insert-IsOrdered (item ∷ items) text (first, ordered) =
    elim (Bool-cases (precedes item.message_id text.message_id)) [
      | inl before ↦ rw before (
        IsFirst-insert items text item.message_id
            (precedes_asym text.message_id item.message_id before) first,
        insert-IsOrdered items text ordered,
      )
      | inr after ↦ rw after (
        (after, IsFirst-trans items text.message_id item.message_id after first),
        (first, ordered),
      )
    ]

stable_sort-IsOrdered : (texts : List TextChatData) → IsOrdered (stable_sort texts)
unfolding stable_sort IsOrdered
stable_sort-IsOrdered [] = tt
stable_sort-IsOrdered (text ∷ texts) =
    insert-IsOrdered (stable_sort texts) text (stable_sort-IsOrdered texts)

-- In the order of the server ids: an id that is 0 is no id yet, and may stand before another such one
-- only; every other id may stand before one that is not less and before one that is none.
abbrev pub IsBefore : ℤ → ℤ → Type 0
IsBefore (pos a) (pos b) = (b ≡ 0) ⊎ ((0 < a) × (a ≤ b))
IsBefore (pos a) (negsuc b) = ⊥
IsBefore (negsuc a) (pos b) = Unit
IsBefore (negsuc a) (negsuc b) = b ≤ a

-- Each message may stand before all that are behind it.
abbrev pub Ascending : List TextChatData → Type 0
Ascending [] = Unit
Ascending (item ∷ items) =
    All (λ (behind : TextChatData). IsBefore item.message_id behind.message_id) items
    × Ascending items

precedes-IsBefore : (x y : ℤ) → precedes y x ≡ false → IsBefore x y
precedes-IsBefore (pos a) (pos b) h = elim (Bool-cases (b == 0)) [
  | inl unset ↦ inl (ground (arith, unset))
  | inr given ↦ inr (ground (arith, h, given), ground (arith, h, given))
]
precedes-IsBefore (pos a) (negsuc b) h = ground (arith, h)
precedes-IsBefore (negsuc a) (pos b) h = tt
precedes-IsBefore (negsuc a) (negsuc b) h = ground (arith, h)

IsFirst-IsBefore :
    (id : ℤ) (items : List TextChatData)
    → IsFirst id items
    → All (λ (behind : TextChatData). IsBefore id behind.message_id) items
unfolding IsFirst
IsFirst-IsBefore id [] first = tt
IsFirst-IsBefore id (item ∷ items) (head, tail) =
    (precedes-IsBefore id item.message_id head, IsFirst-IsBefore id items tail)

IsOrdered-Ascending : (items : List TextChatData) → IsOrdered items → Ascending items
unfolding IsOrdered
IsOrdered-Ascending [] ordered = tt
IsOrdered-Ascending (item ∷ items) (first, ordered) =
    (IsFirst-IsBefore item.message_id items first, IsOrdered-Ascending items ordered)

append_chat_msgs-IsOrdered :
    (messages text_vec : List TextChatData) → IsOrdered (append_chat_msgs messages text_vec)
unfolding append_chat_msgs
append_chat_msgs-IsOrdered messages text_vec = stable_sort-IsOrdered (append_all text_vec messages)

-- After AppendChatMsgs the messages of a chat are in the order of their server ids as numbers, not in
-- that of the code's comparison, and the messages that have none yet are behind all that have one,
-- whatever the order before was.
pub append_chat_msgs-Ascending :
    (messages text_vec : List TextChatData) → Ascending (append_chat_msgs messages text_vec)
append_chat_msgs-Ascending messages text_vec =
    IsOrdered-Ascending (append_chat_msgs messages text_vec)
      (append_chat_msgs-IsOrdered messages text_vec)

-- UpdateChatMessage keeps that order: a message that gets its server id is put in its place.
pub update_chat_message-IsOrdered :
    (messages : List TextChatData) (msg_id : Text) (message_id : ℤ) (status : ChatMessageStatus)
    → IsOrdered messages
    → IsOrdered (update_chat_message messages msg_id message_id status)
unfolding update_chat_message
update_chat_message-IsOrdered messages msg_id message_id status ordered =
    elim (Option-cases (find_msg msg_id messages)) [
      | inl absent ↦ rw (update_chat_message, absent) ordered
      | inr (message, found) ↦
          rw (update_chat_message, found)
            (append_chat_msgs-IsOrdered (set_receipt msg_id message_id status messages)
              (receipted message_id status message ∷ []))
    ]
