-- ===== src/Client/History/Lookup.antt =====
-- client/core/userdata.cpp: a chat as a map from msgids to messages, which AppendChatMsgs changes.
use xiguchat.Prelude.{
  ◌≡◌, refl, sym, ap, ◌∙◌, subst, fun_ext, ℕ, zero, suc, ◌≤◌, Bool, true, false, Option, none, some,
  List, [], ◌∷◌, inl, inr, Bool-cases, if◌then◌else◌, arith,
}
use xiguchat.Prelude.Text.{Text, text_eq, text_eq→eq, text_eq_refl}
use xiguchat.Client.History.{
  TextChatData, merged, append_one, append_all, precedes, insert, stable_sort, append_chat_msgs,
  find_msg,
}
use xiguchat.Client.History.Merge.{
  copies, has_msg, at_least_one, copies-append_all, copies-stable_sort, merged-msg_id,
}

-- The map that a chat stands for.
abbrev pub ChatMap : Type 0
ChatMap = Text → Option TextChatData

abbrev pub joined : TextChatData → Option TextChatData → TextChatData
joined text none = text
joined text (some item) = merged item text

abbrev pub put : TextChatData → ChatMap → ChatMap
put text chat id = if text_eq text.msg_id id then some (joined text (chat id)) else chat id

unfoldable pub put_all : List TextChatData → ChatMap → ChatMap
put_all [] chat = chat
put_all (text ∷ texts) chat = put_all texts (put text chat)

abbrev look : List TextChatData → ChatMap
look messages id = find_msg id messages

look-same :
    (text : TextChatData) (items : List TextChatData)
    → find_msg text.msg_id (append_one text items) ≡ some (joined text (find_msg text.msg_id items))
unfolding append_one find_msg
look-same text [] = rw (text_eq_refl text.msg_id) refl
look-same text (item ∷ items) = elim (Bool-cases (text_eq item.msg_id text.msg_id)) [
  | inl found ↦ rw (append_one, found) (rw (merged-msg_id item text, found) refl)
  | inr other ↦ rw (append_one, other) (rw other (look-same text items))
]

look-other :
    (id : Text) (text : TextChatData) (items : List TextChatData)
    → text_eq text.msg_id id ≡ false
    → find_msg id (append_one text items) ≡ find_msg id items
unfolding append_one find_msg
look-other id text [] h = rw h refl
look-other id text (item ∷ items) h = elim (Bool-cases (text_eq item.msg_id text.msg_id)) [
  | inl found ↦
      let e = text_eq→eq item.msg_id text.msg_id found in
      let no : text_eq item.msg_id id ≡ false =
        subst (λ (m : Text). text_eq m id ≡ false) (sym e) h in
      rw (append_one, found) (rw (merged-msg_id item text, no) refl)
  | inr other ↦
      rw (append_one, other)
        (ap (λ (o : Option TextChatData). if text_eq item.msg_id id then some item else o)
          (look-other id text items h))
]

look-append_one :
    (text : TextChatData) (items : List TextChatData)
    → look (append_one text items) ≡ put text (look items)
look-append_one text items = fun_ext (λ id. elim (Bool-cases (text_eq text.msg_id id)) [
  | inl same ↦ rw same (
      subst
        (λ (i : Text). find_msg i (append_one text items) ≡ some (joined text (find_msg i items)))
        (text_eq→eq text.msg_id id same) (look-same text items))
  | inr other ↦ rw other (look-other id text items other)
])

look-append_all :
    (texts messages : List TextChatData)
    → look (append_all texts messages) ≡ put_all texts (look messages)
unfolding append_all put_all
look-append_all [] messages = refl
look-append_all (text ∷ texts) messages =
    look-append_all texts (append_one text messages)
    ∙ ap (put_all texts) (look-append_one text messages)

abbrev more : Bool → ℕ → ℕ
more b n = if b then suc n else n

one_holds : (a b : Bool) (n : ℕ) → more a (more b n) ≤ 1 → a ≡ true → b ≡ false
one_holds true true n h e = ground (arith, h)
one_holds true false n h e = refl
one_holds false true n h e = cc
one_holds false false n h e = refl

fewer : (a b : Bool) (n : ℕ) → more a (more b n) ≤ 1 → more a n ≤ 1
fewer true true n h = omega (arith, h)
fewer true false n h = h
fewer false true n h = omega (arith, h)
fewer false false n h = h

find_msg-insert :
    (id : Text) (text : TextChatData) (items : List TextChatData)
    → copies id (text ∷ items) ≤ 1
    → find_msg id (insert text items) ≡ find_msg id (text ∷ items)
unfolding insert find_msg copies
find_msg-insert id text [] h = refl
find_msg-insert id text (item ∷ items) h =
    elim (Bool-cases (precedes item.message_id text.message_id)) [
      | inr after ↦ rw (insert, after) refl
      | inl before ↦
          let a = text_eq text.msg_id id in
          let b = text_eq item.msg_id id in
          let once = find_msg-insert id text items (fewer a b (copies id items) h) in
          rw (insert, before)
            (ap (λ (o : Option TextChatData). if b then some item else o) once
              ∙ elim (Bool-cases a) [
                | inl mine ↦ rw (mine, one_holds a b (copies id items) h mine) refl
                | inr other ↦ rw other refl
              ])
    ]

find_msg-stable_sort :
    (id : Text) (texts : List TextChatData)
    → copies id texts ≤ 1
    → find_msg id (stable_sort texts) ≡ find_msg id texts
unfolding stable_sort find_msg copies
find_msg-stable_sort id [] h = refl
find_msg-stable_sort id (text ∷ texts) h =
    let a = text_eq text.msg_id id in
    let same = copies-stable_sort id texts in
    find_msg-insert id text (stable_sort texts) (subst (λ (n : ℕ). more a n ≤ 1) (sym same) h)
    ∙ ap (λ (o : Option TextChatData). if a then some text else o)
        (find_msg-stable_sort id texts (fewer false a (copies id texts) h))

stays_one : (b : Bool) (n : ℕ) → n ≤ 1 → (if b then at_least_one n else n) ≤ 1
stays_one true zero h = omega arith
stays_one true (suc n) h = h
stays_one false n h = h

-- Looked up by a msgid that the chat does not have twice, the chat after AppendChatMsgs is the map in
-- which each message of the batch, in turn, is put under its msgid: as it is if there was none, and
-- else merged into the one that is there. The order of the chat plays no part.
pub find_msg-append_chat_msgs :
    (id : Text) (messages text_vec : List TextChatData)
    → copies id messages ≤ 1
    → find_msg id (append_chat_msgs messages text_vec)
      ≡ put_all text_vec (λ i. find_msg i messages) id
unfolding append_chat_msgs
find_msg-append_chat_msgs id messages text_vec h =
    let all = append_all text_vec messages in
    let bound : copies id all ≤ 1 =
      subst (λ (n : ℕ). n ≤ 1) (sym (copies-append_all id text_vec messages))
        (stays_one (has_msg id text_vec) (copies id messages) h) in
    find_msg-stable_sort id all bound
    ∙ ap (λ (chat : ChatMap). chat id) (look-append_all text_vec messages)
