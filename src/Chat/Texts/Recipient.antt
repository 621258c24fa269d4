-- ===== src/Chat/Texts/Recipient.antt =====
-- Whose session a text message or a friend application reaches.
use xiguchat.Prelude.{
  ℕ, ◌≡◌, refl, ap, ◌∙◌, true, false, not, ◌||◌, ◌⊎◌, inl, inr, Option, none, some, List, arith,
  Bool-cases,
}
use xiguchat.Prelude.Text.{Text, text_eq, text_eq→eq}
use xiguchat.Prelude.Int.{ℤ, pos}
use xiguchat.Chat.Session
use xiguchat.Chat.Data.{ChatMessageInfo}
use xiguchat.Chat.Messages.{TextChatMsgReq}
use xiguchat.Chat.World.{World, Doc, Fields}
use xiguchat.Chat.Process.{Process, Conn, put_conn}
use xiguchat.Chat.Redis.{redis_get}
use xiguchat.Chat.Registry.{find_user, has_session, get_session}
use xiguchat.Chat.Cleanup.{deal_exception_session, ip_key, send}
use xiguchat.Chat.Cleanup.Local.{
  IsOutside, redis_get-IsOutside, conns-deal_exception_session, deal_exception_session-done,
}
use xiguchat.Chat.Dao.Save.{save_chat_messages}
use xiguchat.Chat.Notify.{send_to}
use xiguchat.Chat.Texts.{
  forward, deliver, deliver_saved, after_save, chat_text, thread_of, text_req, unsaved_reply,
  with_texts,
}

module _ (w : World) where
  conns-dealt :
      (id other : Text) (p : Process w)
      → text_eq id other ≡ false
      → (deal_exception_session w id p).1.conns other ≡ p.conns other
  conns-dealt id other p differ = elim (Bool-cases (p.conns id).cleanup_started) [
    | inl done ↦ rw (deal_exception_session-done w id p done)
    | inr fresh ↦
        ap (λ (c : Text → Conn). c other) (conns-deal_exception_session w id p fresh)
        ∙ ground (arith, differ)
  ]

  -- Send changes its own session only.
  pub conns-send :
      (id msg : Text) (msg_id : ℕ) (other : Text) (p : Process w)
      → text_eq id other ≡ false
      → (send w id msg msg_id p).1.conns other ≡ p.conns other
  unfolding send
  conns-send id msg msg_id other p differ =
      let sent = record (p.conns id) { out = (Session.send (p.conns id).out msg msg_id).0 } in
      let first : (put_conn {w = w} id sent p).conns other ≡ p.conns other =
        ground (arith, differ) in
      elim (Bool-cases (Session.send (p.conns id).out msg msg_id).1) [
        | inl clean ↦ rw (clean) (conns-dealt id other (put_conn id sent p) differ ∙ first)
        | inr whole ↦ rw (whole) first
      ]

  -- The session's object is as before, or the session is the one that UserMgr has for the user.
  abbrev Reaches : ℤ → Text → Process w → Process w → Type 0
  Reaches touid id p q = (q.conns id ≡ p.conns id) ⊎ (find_user p.users touid ≡ some id)

  send_to-Reaches :
      (touid : ℤ) (session : Option Text) (notice : Doc) (msg_id : ℕ) (id : Text) (p : Process w)
      → find_user p.users touid ≡ session
      → Reaches touid id p (send_to w session notice msg_id p).1
  unfolding send_to
  send_to-Reaches touid none notice msg_id id p e = inl refl
  send_to-Reaches touid (some session) notice msg_id id p e =
      elim (Bool-cases (text_eq session id)) [
        | inl same ↦ inr (e ∙ ap some (text_eq→eq session id same))
        | inr differ ↦ inl (conns-send session _ msg_id id p differ)
      ]

  -- An action on a process that differs in its world only.
  Reaches-outside :
      (touid : ℤ) (id : Text) (p q r : Process w)
      → IsOutside w p q
      → Reaches touid id q r
      → Reaches touid id p r
  Reaches-outside touid id p q r e h =
      let conns = ap (λ (x : Process w). x.conns id) e in
      let users = ap (λ (x : Process w). find_user x.users touid) e in
      elim h [ inl same ↦ inl (same ∙ conns) | inr found ↦ inr (ground (arith, users, found)) ]

  deliver-Reaches :
      (server : Option Text) (req : TextChatMsgReq) (reply notice : Fields) (id : Text)
      (p : Process w)
      → Reaches req.touid id p (deliver w server req reply notice p).1
  unfolding deliver forward get_session
  deliver-Reaches none req reply notice id p = inl refl
  deliver-Reaches (some server) req reply notice id p =
      elim (Bool-cases (text_eq server w.self_name)) [
        | inl here ↦ rw (here) (send_to-Reaches req.touid _ _ _ id p refl)
        | inr there ↦ rw (there) (inl refl)
      ]

  deliver_saved-Reaches :
      (uid touid thread_id : ℤ) (reply : Fields) (messages : List ChatMessageInfo) (id : Text)
      (p : Process w)
      → Reaches touid id p (deliver_saved w uid touid thread_id reply messages p).1
  unfolding deliver_saved
  deliver_saved-Reaches uid touid thread_id reply messages id p =
      let (server, r) = redis_get w (ip_key touid) p in
      let receipt = with_texts reply thread_id (pos 1) messages in
      let notice = with_texts reply thread_id (pos 3) messages in
      let req = text_req uid touid thread_id messages in
      Reaches-outside touid id p r (deliver w server req receipt notice r).1
        (redis_get-IsOutside w (ip_key touid) p) (deliver-Reaches server req receipt notice id r)

  -- What DealChatTextMsg does before it answers the sender: a session whose object changes is the
  -- one that UserMgr has for the receiver, and the messages have been saved then. No other session
  -- is sent anything, and a message that is not in the database is told to nobody on this server.
  pub chat_text-Reaches :
      (session : Text) (uid touid thread_id : ℤ) (contents : List (Text × Text)) (id : Text)
      (p : Process w)
      → ((chat_text w session uid touid thread_id contents p).1.conns id ≡ p.conns id)
        ⊎ ((find_user p.users touid ≡ some id)
            × ((save_chat_messages w.db uid touid thread_id contents p.world).0.0 ≡ true))
  unfolding chat_text after_save deliver_saved
  chat_text-Reaches session uid touid thread_id contents id p =
      let ((ok, messages), s) = save_chat_messages w.db uid touid thread_id contents p.world in
      let q : Process w = record p { world = s } in
      elim (Bool-cases ok) [
        | inr failed ↦ rw (chat_text, after_save, failed) (inl refl)
        | inl done ↦
            elim (Bool-cases
              ((p.conns session).out.closed || not (has_session p.sessions session))) [
                | inl gone ↦ rw (chat_text, after_save, done, gone) (inl refl)
                | inr there ↦
                    let told =
                      deliver_saved-Reaches uid touid (thread_of thread_id messages)
                        (unsaved_reply uid touid contents) messages id q in
                    rw (chat_text, after_save, done, there)
                      (elim told [ inl same ↦ inl same | inr found ↦ inr (found, refl) ])
              ]
      ]
