-- ===== src/Client/History/Merge.antt =====
-- client/core/userdata.cpp: what AppendChatMsgs keeps and adds, by the msgids.
use xiguchat.Prelude.{
  subst, ◌≡◌, refl, ap, ◌∙◌, ℕ, zero, suc, Bool, false, ◌||◌, List, [], ◌∷◌, inl, inr, Bool-cases,
  if◌then◌else◌,
}
use xiguchat.Prelude.Text.{Text, text_eq, text_eq→eq, text_eq_refl}
use xiguchat.Prelude.Int.{pos, eqb_ℤ, is_positive}
use xiguchat.Client.History.{
  TextChatData, merged, append_one, append_all, precedes, insert, stable_sort, append_chat_msgs,
}

-- How many messages have the msgid.
unfoldable pub copies : Text → List TextChatData → ℕ
copies id [] = 0
copies id (item ∷ items) =
    let rest = copies id items in if text_eq item.msg_id id then suc rest else rest

unfoldable pub has_msg : Text → List TextChatData → Bool
has_msg id [] = false
has_msg id (item ∷ items) = text_eq item.msg_id id || has_msg id items

abbrev pub at_least_one : ℕ → ℕ
at_least_one zero = 1
at_least_one (suc n) = suc n

pub merged-msg_id : (item text : TextChatData) → (merged item text).msg_id ≡ item.msg_id
merged-msg_id item text = elim (Bool-cases (eqb_ℤ item.message_id (pos 0))) [
  | inl new ↦ rw new refl
  | inr old ↦ elim (Bool-cases (is_positive text.message_id)) [
    | inl known ↦ rw (old, known) refl
    | inr unknown ↦ rw (old, unknown) refl
  ]
]

copies-merged :
    (id : Text) (item text : TextChatData) (items : List TextChatData)
    → copies id (merged item text ∷ items) ≡ copies id (item ∷ items)
unfolding copies
copies-merged id item text items =
    ap (λ (m : Text). if text_eq m id then suc (copies id items) else copies id items)
      (merged-msg_id item text)

copies-same :
    (text : TextChatData) (items : List TextChatData)
    → copies text.msg_id (append_one text items) ≡ at_least_one (copies text.msg_id items)
unfolding append_one copies
copies-same text [] = rw (text_eq_refl text.msg_id) refl
copies-same text (item ∷ items) = elim (Bool-cases (text_eq item.msg_id text.msg_id)) [
  | inl found ↦ rw (append_one, found) (copies-merged text.msg_id item text items ∙ rw found refl)
  | inr other ↦ rw (append_one, other) (rw other (copies-same text items))
]

copies-other :
    (id : Text) (text : TextChatData) (items : List TextChatData)
    → text_eq text.msg_id id ≡ false
    → copies id (append_one text items) ≡ copies id items
unfolding append_one copies
copies-other id text [] h = rw h refl
copies-other id text (item ∷ items) h = elim (Bool-cases (text_eq item.msg_id text.msg_id)) [
  | inl found ↦ rw (append_one, found) (copies-merged id item text items)
  | inr other ↦
      rw (append_one, other)
        (ap (λ (n : ℕ). if text_eq item.msg_id id then suc n else n) (copies-other id text items h))
]

at_least_one_idem : (n : ℕ) → at_least_one (at_least_one n) ≡ at_least_one n
at_least_one_idem zero = refl
at_least_one_idem (suc n) = refl

pub copies-append_all :
    (id : Text) (texts messages : List TextChatData)
    → copies id (append_all texts messages)
      ≡ (if has_msg id texts then at_least_one (copies id messages) else copies id messages)
unfolding append_all has_msg
copies-append_all id [] messages = refl
copies-append_all id (text ∷ texts) messages =
    let after = copies-append_all id texts (append_one text messages) in
    elim (Bool-cases (text_eq text.msg_id id)) [
      | inl same ↦
          let e = text_eq→eq text.msg_id id same in
          let one : copies id (append_one text messages) ≡ at_least_one (copies id messages) =
            subst
              (λ (i : Text). copies i (append_one text messages) ≡ at_least_one (copies i messages))
              e (copies-same text messages) in
          rw same (
            after ∙ elim (Bool-cases (has_msg id texts)) [
              | inl again ↦ rw (again, one) (at_least_one_idem (copies id messages))
              | inr last ↦ rw (last, one) refl
            ])
      | inr other ↦ rw other (after ∙ rw (copies-other id text messages other) refl)
    ]

pub copies-insert :
    (id : Text) (text : TextChatData) (items : List TextChatData)
    → copies id (insert text items) ≡ copies id (text ∷ items)
unfolding insert copies
copies-insert id text [] = refl
copies-insert id text (item ∷ items) =
    elim (Bool-cases (precedes item.message_id text.message_id)) [
      | inl before ↦
          rw (insert, before)
            (ap (λ (n : ℕ). if text_eq item.msg_id id then suc n else n)
                (copies-insert id text items)
              ∙ elim (Bool-cases (text_eq item.msg_id id)) [
                | inl a ↦ elim (Bool-cases (text_eq text.msg_id id)) [
                  | inl b ↦ rw (a, b) refl
                  | inr b ↦ rw (a, b) refl
                ]
                | inr a ↦ elim (Bool-cases (text_eq text.msg_id id)) [
                  | inl b ↦ rw (a, b) refl
                  | inr b ↦ rw (a, b) refl
                ]
              ])
      | inr after ↦ rw (insert, after) refl
    ]

pub copies-stable_sort :
    (id : Text) (texts : List TextChatData) → copies id (stable_sort texts) ≡ copies id texts
unfolding stable_sort copies
copies-stable_sort id [] = refl
copies-stable_sort id (text ∷ texts) =
    copies-insert id text (stable_sort texts)
    ∙ ap (λ (n : ℕ). if text_eq text.msg_id id then suc n else n) (copies-stable_sort id texts)

-- AppendChatMsgs loses no message and doubles none: a msgid of the batch is in the chat after it, once
-- if it was new, also if the batch has it twice, and every other msgid as often as before.
pub copies-append_chat_msgs :
    (id : Text) (messages text_vec : List TextChatData)
    → copies id (append_chat_msgs messages text_vec)
      ≡ (if has_msg id text_vec then at_least_one (copies id messages) else copies id messages)
unfolding append_chat_msgs
copies-append_chat_msgs id messages text_vec =
    copies-stable_sort id (append_all text_vec messages) ∙ copies-append_all id text_vec messages
