-- ===== src/Client/History/Receipt.antt =====
-- client/core/usermgr.cpp: what UpdateChatMessage changes, looked up by the msgids.
use xiguchat.Prelude.{
  ◌≡◌, refl, sym, ap, ◌∙◌, subst, ℕ, suc, ◌≤◌, Bool, false, Option, none, some, List, [], ◌∷◌, inl,
  inr, Bool-cases, Option-cases, if◌then◌else◌, ◌||◌,
}
use mathlib.Core.Option
use xiguchat.Prelude.Text.{Text, text_eq, text_eq→eq}
use xiguchat.Prelude.Int.{ℤ, is_positive}
use xiguchat.Client.History.{
  ChatMessageStatus, TextChatData, is_unconfirmed, merged, find_msg, receipted, set_receipt,
  update_chat_message,
}
use xiguchat.Client.History.Merge.{copies}
use xiguchat.Client.History.Lookup.{put_all, find_msg-append_chat_msgs}

merged-itself : (message : TextChatData) → merged message message ≡ message
merged-itself message =
    elim (Bool-cases (is_unconfirmed message || is_positive message.message_id)) [
      | inl taken ↦ rw taken refl
      | inr kept ↦ rw kept refl
    ]

find_msg-msg_id :
    (id : Text) (messages : List TextChatData) (message : TextChatData)
    → find_msg id messages ≡ some message
    → message.msg_id ≡ id
unfolding find_msg
find_msg-msg_id id [] message h = cc
find_msg-msg_id id (item ∷ items) message h = elim (Bool-cases (text_eq item.msg_id id)) [
  | inl found ↦
      let e : some item ≡ some message =
        subst (λ (b : Bool). (if b then some item else find_msg id items) ≡ some message) found h in
      let same : item ≡ message = cc in
      subst (λ (m : TextChatData). m.msg_id ≡ id) same (text_eq→eq item.msg_id id found)
  | inr other ↦
      find_msg-msg_id id items message
        (subst (λ (b : Bool). (if b then some item else find_msg id items) ≡ some message) other h)
]

module _ (msg_id : Text) (message_id : ℤ) (status : ChatMessageStatus) where
  copies-set_receipt :
      (id : Text) (messages : List TextChatData)
      → copies id (set_receipt msg_id message_id status messages) ≡ copies id messages
  unfolding copies set_receipt
  copies-set_receipt id [] = refl
  copies-set_receipt id (item ∷ items) = elim (Bool-cases (text_eq item.msg_id msg_id)) [
    | inl found ↦ rw (set_receipt, found) refl
    | inr other ↦
        rw (set_receipt, other)
          (ap (λ (n : ℕ). if text_eq item.msg_id id then suc n else n)
            (copies-set_receipt id items))
  ]

  find_msg-set_receipt :
      (messages : List TextChatData)
      → find_msg msg_id (set_receipt msg_id message_id status messages)
        ≡ Option.map (receipted message_id status) (find_msg msg_id messages)
  unfolding find_msg set_receipt
  find_msg-set_receipt [] = refl
  find_msg-set_receipt (item ∷ items) = elim (Bool-cases (text_eq item.msg_id msg_id)) [
    | inl found ↦ rw (set_receipt, found) (rw found refl)
    | inr other ↦ rw (set_receipt, other) (rw other (find_msg-set_receipt items))
  ]

  find_msg-set_receipt-other :
      (id : Text) (messages : List TextChatData)
      → text_eq msg_id id ≡ false
      → find_msg id (set_receipt msg_id message_id status messages) ≡ find_msg id messages
  unfolding find_msg set_receipt
  find_msg-set_receipt-other id [] h = refl
  find_msg-set_receipt-other id (item ∷ items) h = elim (Bool-cases (text_eq item.msg_id msg_id)) [
    | inl found ↦
        let no : text_eq item.msg_id id ≡ false =
          subst (λ (m : Text). text_eq m id ≡ false) (sym (text_eq→eq item.msg_id msg_id found))
            h in
        rw (set_receipt, found) (rw no refl)
    | inr other ↦
        rw (set_receipt, other)
          (ap (λ (o : Option TextChatData). if text_eq item.msg_id id then some item else o)
            (find_msg-set_receipt-other id items h))
  ]

  -- After a receipt, a chat that does not have two messages of a msgid has them as before, but for the
  -- message that the receipt is for: it has the status of the receipt, and its id if that is positive.
  -- A receipt for a message that the chat does not have changes nothing.
  pub find_msg-update_chat_message :
      (id : Text) (messages : List TextChatData)
      → copies id messages ≤ 1
      → find_msg id (update_chat_message messages msg_id message_id status) ≡ (
          if text_eq msg_id id
          then Option.map (receipted message_id status) (find_msg id messages)
          else find_msg id messages)
  unfolding update_chat_message put_all
  find_msg-update_chat_message id messages h = elim (Option-cases (find_msg msg_id messages)) [
    | inl absent ↦
        rw (update_chat_message, absent)
          (elim (Bool-cases (text_eq msg_id id)) [
            | inl same ↦
                let none_here : find_msg id messages ≡ none =
                  subst (λ (i : Text). find_msg i messages ≡ none) (text_eq→eq msg_id id same)
                    absent in
                rw (same, none_here) refl
            | inr other ↦ rw other refl
          ])
    | inr (message, found) ↦
        let message' = receipted message_id status message in
        let changed = set_receipt msg_id message_id status messages in
        let e : message.msg_id ≡ msg_id = find_msg-msg_id msg_id messages message found in
        let bound : copies id changed ≤ 1 =
          subst (λ (n : ℕ). n ≤ 1) (sym (copies-set_receipt id messages)) h in
        rw (update_chat_message, found)
          (find_msg-append_chat_msgs id changed (message' ∷ []) bound
            ∙ elim (Bool-cases (text_eq msg_id id)) [
              | inl same ↦
                  let i = text_eq→eq msg_id id same in
                  let there : find_msg id messages ≡ some message =
                    subst (λ (i : Text). find_msg i messages ≡ some message) i found in
                  let now : find_msg id changed ≡ some message' =
                    subst
                      (λ (i : Text).
                        find_msg i changed
                        ≡ Option.map (receipted message_id status) (find_msg i messages))
                      i (find_msg-set_receipt messages)
                    ∙ rw there refl in
                  rw (e, same, now, there) (ap some (merged-itself message'))
              | inr other ↦ rw (e, other) (find_msg-set_receipt-other id messages other)
            ])
  ]
