-- ===== src/Examples/Chats.antt =====
-- Runs of a whole ChatServer process: user 7, logged in as session "old", sends a heartbeat and a
-- text message to user 8.
use xiguchat.Prelude.{
  ◌≢◌, ap, arith, ◌≤◌, ◌≡◌, ◌⊎◌, refl, true, some, List, [], ◌∷◌, arith, suc, length,
}
use xiguchat.Prelude.Text.{Text, codes}
use xiguchat.Prelude.Int.{pos}
use xiguchat.Chat.Process.{Process}
use xiguchat.Chat.Registry.{find_user}
use xiguchat.Chat.Logic.{max_logicque, post_msg_to_que, deal_msg, deal_rounds, set_stop}
use xiguchat.Chat.Dao.{get_or_create_private_chat}
use xiguchat.Chat.Dao.Save.{save_chat_messages}
use xiguchat.Chat.Notify.{notify_text_chat_msg}
use xiguchat.Chat.Texts.{text_req, thread_of, unsaved_reply, with_texts, deliver, chat_text}
use xiguchat.Chat.Texts.Delivery.{notify_text_chat_msg-deliver}
use xiguchat.Chat.Texts.Recipient.{chat_text-Reaches}
use xiguchat.Chat.Callbacks.{fun_callbacks}
use xiguchat.Chat.Callbacks.Sound.{IsSound}
use xiguchat.Chat.Steps.{Step, Reach}
use xiguchat.Chat.Steps.Sound.{Reach-IsSound}
use xiguchat.Chat.Steps.Queue.{
  IsQueued, Step-IsQueued, Reach-msg_que, deal_in_turn, deal_rounds-set_stop,
}
use xiguchat.Examples.Values.{small_world}
use xiguchat.Examples.Logins.{p, p-IsRegistered, beat}

p-IsSound : IsSound small_world p
unfolding find_user
p-IsSound = record { registered = p-IsRegistered; nobody = refl }

-- The heartbeat is queued, and a round of DealMsg answers it.
abbrev queued : Process small_world
queued = (post_msg_to_que small_world beat p).1

abbrev answered : Process small_world
answered = (deal_msg small_world (fun_callbacks small_world) queued).1

steps : Reach small_world p answered
steps =
    Reach.then_step queued answered (Reach.then_step p queued Reach.start (Step.posts beat))
      Step.deals

Reach-IsSound_example : IsSound small_world answered
Reach-IsSound_example = Reach-IsSound p answered steps p-IsSound

empty_within : length p.msg_que ≤ max_logicque
empty_within = omega arith

Reach-msg_que_example : length answered.msg_que ≤ max_logicque
Reach-msg_que_example = Reach-msg_que p answered steps p-IsSound empty_within

Step-IsQueued_example : IsQueued p queued
Step-IsQueued_example = Step-IsQueued p queued p-IsSound (Step.posts beat)

queued-IsSound : IsSound small_world queued
queued-IsSound =
    Reach-IsSound p queued (Reach.then_step p queued Reach.start (Step.posts beat)) p-IsSound

deal_rounds-set_stop_example :
    (deal_rounds small_world
        (suc (length queued.msg_que))
        (fun_callbacks small_world)
        (set_stop small_world queued).1
      ≡ some (deal_in_turn queued.msg_que (set_stop small_world queued).1))
    × ((deal_in_turn queued.msg_que (set_stop small_world queued).1).msg_que ≡ [])
deal_rounds-set_stop_example = deal_rounds-set_stop queued queued-IsSound

abbrev contents : List (Text × Text)
contents = (codes "m1", codes "hi") ∷ []

saved_length :
    length (save_chat_messages small_world.db (pos 8) (pos 7) (pos 0) contents p.world).0.1 ≡ 1
unfolding save_chat_messages get_or_create_private_chat
saved_length = refl

saved_one : (save_chat_messages small_world.db (pos 8) (pos 7) (pos 0) contents p.world).0.1 ≢ []
saved_one e = omega (arith, saved_length, ap length e)

notify_text_chat_msg-deliver_example :
    (let messages =
        (save_chat_messages small_world.db (pos 8) (pos 7) (pos 0) contents p.world).0.1 in
      let id = thread_of (pos 0) messages in
      let req = text_req (pos 8) (pos 7) id messages in
      let reply = unsaved_reply (pos 8) (pos 7) contents in
      (notify_text_chat_msg small_world req p).1
      ≡ (deliver small_world
          (some small_world.self_name)
          req
          (with_texts reply id (pos 1) messages)
          (with_texts reply id (pos 3) messages)
          p).1)
notify_text_chat_msg-deliver_example =
    notify_text_chat_msg-deliver small_world p.world (pos 8) (pos 7) (pos 0) contents p saved_one

chat_text-Reaches_example :
    ((chat_text small_world (codes "new") (pos 8) (pos 7) (pos 5) contents p).1.conns (codes "old")
      ≡ p.conns (codes "old"))
    ⊎ ((find_user p.users (pos 7) ≡ some (codes "old"))
        × ((save_chat_messages small_world.db (pos 8) (pos 7) (pos 5) contents p.world).0.0 ≡ true))
chat_text-Reaches_example =
    chat_text-Reaches small_world (codes "new") (pos 8) (pos 7) (pos 5) contents (codes "old") p
