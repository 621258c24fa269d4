-- ===== src/Chat/Texts/Delivery.antt =====
-- A text message reaches the peer in the same way whether the peer's session is on the sender's
-- server or on another one.
use xiguchat.Prelude.{◌≢◌, ◌≡◌, refl, sym, ap, ◌∙◌, subst, some, List, [], ◌∷◌, map, All}
use xiguchat.Prelude.Text.{Text, codes, text_eq, text_lt, text_eq_refl}
use xiguchat.Prelude.Int.{ℤ, pos}
use xiguchat.Chat.Data.{ChatMessageInfo}
use xiguchat.Chat.World.{
  World, Doc, int, object, array, Fields, none_yet, set_field, Docs, no_docs, then_doc,
}
use xiguchat.Chat.Process.{Process}
use xiguchat.Chat.Protocol.{notify_text_chat_msg_req}
use xiguchat.Chat.Registry.{get_session}
use xiguchat.Chat.Dao.Save.{save_chat_messages}
use xiguchat.Chat.Dao.Save.Saved.{IsOfThread, IsOfOneThread, save_chat_messages-IsOfOneThread}
use xiguchat.Chat.Reply.{put_fields, append_each}
use xiguchat.Chat.Notify.{
  appended, success_number, text_element, text_notice, notify_text_chat_msg, send_to,
}
use xiguchat.Chat.Texts.{
  saved_item, chat_data, text_req, thread_of, unsaved_reply, with_texts, deliver,
}

text_element-chat_data :
    (uid touid : ℤ) (message : ChatMessageInfo)
    → text_element message.thread_id (chat_data uid touid message) ≡ saved_item (pos 3) message
unfolding put_fields set_field text_eq text_lt
text_element-chat_data uid touid message = refl

append_each-chat_data :
    (uid touid thread_id : ℤ) (docs : Docs) (messages : List ChatMessageInfo)
    → All (λ message. message.thread_id ≡ thread_id) messages
    → append_each (text_element thread_id) docs (map (chat_data uid touid) messages)
      ≡ append_each (saved_item (pos 3)) docs messages
unfolding append_each
append_each-chat_data uid touid thread_id docs [] same = refl
append_each-chat_data uid touid thread_id docs (message ∷ messages) (here, rest) =
    append_each-chat_data uid touid thread_id
      (then_doc docs (text_element thread_id (chat_data uid touid message))) messages rest
    ∙ ap (λ doc. append_each (saved_item (pos 3)) (then_doc docs doc) messages)
        (subst
          (λ (t : ℤ). text_element t (chat_data uid touid message) ≡ saved_item (pos 3) message)
          here (text_element-chat_data uid touid message))

-- The four members around the array of texts.
abbrev with_texts_array : ℤ → ℤ → ℤ → Doc → Fields
with_texts_array uid touid thread_id texts = put_fields none_yet (
    (codes "error", int success_number)
    ∷ (codes "fromuid", int uid)
    ∷ (codes "touid", int touid)
    ∷ (codes "thread_id", int thread_id)
    ∷ (codes "text_array", texts)
    ∷ [])

appended-append_each :
    {A : Type 0} (item : A → Doc) (docs : Docs) (doc : Doc) (xs : List A)
    → appended (append_each item (then_doc docs doc) xs)
      ≡ array (append_each item (then_doc docs doc) xs)
unfolding append_each
appended-append_each item docs doc [] = refl
appended-append_each item docs doc (x ∷ xs) =
    appended-append_each item (then_doc docs doc) (item x) xs

-- A list that is not empty is appended to an array.
appended-first :
    {A : Type 0} (item : A → Doc) (xs : List A)
    → xs ≢ []
    → appended (append_each item no_docs xs) ≡ array (append_each item no_docs xs)
unfolding append_each
appended-first item [] some_one = elim (some_one refl) [ ]
appended-first item (x ∷ xs) some_one = appended-append_each item no_docs (item x) xs

text_notice-text_req :
    (uid touid thread_id : ℤ) (contents : List (Text × Text)) (messages : List ChatMessageInfo)
    → messages ≢ []
    → All (λ message. message.thread_id ≡ thread_id) messages
    → text_notice (text_req uid touid thread_id messages)
      ≡ object (with_texts (unsaved_reply uid touid contents) thread_id (pos 3) messages)
unfolding put_fields set_field text_eq text_lt
text_notice-text_req uid touid thread_id contents messages saved same =
    let docs = append_each-chat_data uid touid thread_id no_docs messages same in
    ap (λ texts. object (with_texts_array uid touid thread_id texts))
      (ap appended docs ∙ appended-first (saved_item (pos 3)) messages saved)

-- The saved messages are of the thread that the receipt names.
thread_of-IsOfThread :
    (default_id : ℤ) (messages : List ChatMessageInfo)
    → IsOfOneThread messages
    → IsOfThread (thread_of default_id messages) messages
unfolding thread_of
thread_of-IsOfThread default_id [] all = tt
thread_of-IsOfThread default_id (message ∷ messages) (thread_id, (here, rest)) =
    subst (λ (t : ℤ). IsOfThread t (message ∷ messages)) (sym here) (here, rest)

module _ (w : World) where
  -- Texts of which at least one was saved, whatever the statements answered and in whatever state s of
  -- the sender's world: the request that is forwarded to another server does to that server exactly
  -- what the delivery to a peer on the sender's own server does there, the text that the peer's
  -- session is sent included.
  pub notify_text_chat_msg-deliver :
      (s : World.State w) (uid touid thread_id : ℤ) (contents : List (Text × Text)) (p : Process w)
      → (save_chat_messages w.db uid touid thread_id contents s).0.1 ≢ []
      → (let messages = (save_chat_messages w.db uid touid thread_id contents s).0.1 in
          let id = thread_of thread_id messages in
          let req = text_req uid touid id messages in
          let reply = unsaved_reply uid touid contents in
          (notify_text_chat_msg w req p).1
          ≡ (deliver w
              (some w.self_name)
              req
              (with_texts reply id (pos 1) messages)
              (with_texts reply id (pos 3) messages)
              p).1)
  unfolding notify_text_chat_msg deliver
  notify_text_chat_msg-deliver s uid touid thread_id contents p saved =
      let messages = (save_chat_messages w.db uid touid thread_id contents s).0.1 in
      let id = thread_of thread_id messages in
      let same =
        thread_of-IsOfThread thread_id messages
          (save_chat_messages-IsOfOneThread w.db uid touid thread_id contents s) in
      let (session, q) = get_session touid p in
      rw (deliver, text_eq_refl w.self_name)
        (ap (λ doc. (send_to w session doc notify_text_chat_msg_req q).1)
          (text_notice-text_req uid touid id contents messages saved same))
