-- ===== src/Chat/Steps/Queue.antt =====
-- LogicSystem's queue: its bound and its order under every step, and the end of the worker.
use xiguchat.Prelude.{
  suc, ◌≤◌, ◌<◌, ◌≡◌, refl, sym, ap, ◌∙◌, subst, true, false, not, ◌||◌, inl, inr, some, List, [],
  ◌∷◌, ◌++◌, arith, leb, length, length-append, Bool-cases, List-cases,
}
use xiguchat.Chat.World.{World}
use xiguchat.Chat.Process.{Process, LogicNode}
use xiguchat.Chat.Registry.{handle_accept}
use xiguchat.Chat.Server.{update_heartbeat}
use xiguchat.Chat.Logic.{
  max_logicque, post_msg_to_que, set_stop, release_server, deal_node, deal_msg, deal_rounds,
}
use xiguchat.Chat.Callbacks.{fun_callbacks}
use xiguchat.Chat.Callbacks.Shedding.{
  Sheds-refl, deal-Sheds, notify_add_friend-Sheds, notify_auth_friend-Sheds,
  notify_text_chat_msg-Sheds, notify_kick_user-Sheds,
}
use xiguchat.Chat.Callbacks.Sound.{IsSound, deal_msg-IsSound, deal_msg-queue}
use xiguchat.Chat.Steps.{Step, Reach}
use xiguchat.Chat.Steps.Sound.{on_timer-Sheds, stop_server-Sheds, Reach-IsSound}

module _ {w : World} where
  deal_msg-empty :
      (p : Process w)
      → p.msg_que ≡ []
      → ((deal_msg w (fun_callbacks w) p).1 ≡ p)
        × ((deal_msg w (fun_callbacks w) p).0 ≡ not p.b_stop)
  unfolding deal_msg
  deal_msg-empty p e = (simp (deal_msg, e), simp (deal_msg, e))

  deal_msg-taken :
      (node : LogicNode) (nodes : List LogicNode) (p : Process w)
      → p.msg_que ≡ node ∷ nodes
      → (deal_msg w (fun_callbacks w) p).1
        ≡ (deal_node w (fun_callbacks w) node (record p { msg_que = nodes })).1
  unfolding deal_msg
  deal_msg-taken node nodes p e = simp (deal_msg, e)

  -- What a step may do with the queue.
  pub data IsQueued (p q : Process w) : Type 0 where
    kept : q.msg_que ≡ p.msg_que → IsQueued p q
    pushed :
        (msg : LogicNode)
        → p.b_stop ≡ false
        → length p.msg_que < max_logicque
        → q.msg_que ≡ p.msg_que ++ msg ∷ []
        → IsQueued p q
    popped : (msg : LogicNode) → p.msg_que ≡ msg ∷ q.msg_que → IsQueued p q

  -- Every step of a process keeps LogicSystem's queue, or puts one message behind it, which happens
  -- only before Stop and while it is shorter than MAX_LOGICQUE, or takes the oldest message from it:
  -- so the messages are dealt with in the order in which they were accepted.
  pub Step-IsQueued : (p q : Process w) → IsSound w p → Step w p q → IsQueued p q
  unfolding post_msg_to_que handle_accept update_heartbeat set_stop release_server deal_msg
  Step-IsQueued p q v (Step.accepts id conn true fresh zero_uid) = kept refl
  Step-IsQueued p q v (Step.accepts id conn false fresh zero_uid) = kept refl
  Step-IsQueued p q v (Step.posts msg) =
      elim (Bool-cases (p.b_stop || leb max_logicque (length p.msg_que))) [
        | inl full ↦ rw (post_msg_to_que, full) (kept refl)
        | inr room ↦
            rw (post_msg_to_que, room)
              (pushed msg (ground (arith, room)) (ground (arith, room)) refl)
      ]
  Step-IsQueued p q v Step.deals = elim (List-cases p.msg_que) [
    | inl e ↦ kept (ap (λ (x : Process w). x.msg_que) (deal_msg-empty p e).0)
    | inr (node, nodes, e) ↦
        popped node (e ∙ ap (λ rest. node ∷ rest) (sym (deal_msg-queue w node nodes p v e).1))
  ]
  Step-IsQueued p q v (Step.times ec) = kept (on_timer-Sheds ec v.registered).queue.0
  Step-IsQueued p q v (Step.fails id) = kept (deal-Sheds id (Sheds-refl v.registered)).queue.0
  Step-IsQueued p q v (Step.beats id) = kept refl
  Step-IsQueued p q v (Step.adds req) = kept (notify_add_friend-Sheds p req v.registered).queue.0
  Step-IsQueued p q v (Step.agrees req) = kept (notify_auth_friend-Sheds p req v.registered).queue.0
  Step-IsQueued p q v (Step.texts req) =
      kept (notify_text_chat_msg-Sheds p req v.registered).queue.0
  Step-IsQueued p q v (Step.kicks uid) = kept (notify_kick_user-Sheds p uid v.registered).queue.0
  Step-IsQueued p q v Step.stops = kept (stop_server-Sheds v.registered).queue.0
  Step-IsQueued p q v Step.stops_logic = kept refl
  Step-IsQueued p q v Step.releases = kept refl
  Step-IsQueued p q v (Step.writes id out) = kept refl
  Step-IsQueued p q v (Step.goes_on state closed) = kept refl

  IsQueued-bound :
      (p q : Process w)
      → IsQueued p q
      → length p.msg_que ≤ max_logicque
      → length q.msg_que ≤ max_logicque
  IsQueued-bound p q (kept e) h = rw (e) h
  IsQueued-bound p q (pushed msg running room e) h =
      rw (e, length-append p.msg_que (msg ∷ [])) (omega (arith, room))
  IsQueued-bound p q (popped msg e) h =
      let longer : suc (length q.msg_que) ≤ max_logicque =
        subst (λ (l : List LogicNode). length l ≤ max_logicque) e h in
      omega (arith, longer)

  -- In every order of the steps of a process the queue of LogicSystem stays within MAX_LOGICQUE.
  pub Reach-msg_que :
      (p q : Process w)
      → Reach w p q
      → IsSound w p
      → length p.msg_que ≤ max_logicque
      → length q.msg_que ≤ max_logicque
  Reach-msg_que p q Reach.start v h = h
  Reach-msg_que p q (Reach.then_step r _ steps step) v h =
      IsQueued-bound r q (Step-IsQueued r q (Reach-IsSound p r steps v) step)
        (Reach-msg_que p r steps v h)

  -- Each message of a list is taken by DealMsg in its turn, with what is behind it as the queue.
  unfoldable pub deal_in_turn : List LogicNode → Process w → Process w
  deal_in_turn [] p = p
  deal_in_turn (node ∷ nodes) p =
      deal_in_turn nodes (deal_node w (fun_callbacks w) node (record p { msg_que = nodes })).1

  deal_rounds-drains :
      (nodes : List LogicNode) (p : Process w)
      → IsSound w p
      → p.msg_que ≡ nodes
      → p.b_stop ≡ true
      → (deal_rounds w (suc (length nodes)) (fun_callbacks w) p ≡ some (deal_in_turn nodes p))
        × ((deal_in_turn nodes p).msg_que ≡ [])
  unfolding deal_rounds deal_in_turn
  deal_rounds-drains [] p v e stopped =
      let (same, ends) = deal_msg-empty p e in
      let over : (deal_msg w (fun_callbacks w) p).0 ≡ false = ground (arith, ends, stopped) in
      (rw (deal_rounds, over) (ap some same), e)
  deal_rounds-drains (node ∷ nodes) p v e stopped =
      let (goes_on, queue, flag) = deal_msg-queue w node nodes p v e in
      let p' = (deal_msg w (fun_callbacks w) p).1 in
      let (done, emptied) =
        deal_rounds-drains nodes p' (deal_msg-IsSound w p v) queue (flag ∙ stopped) in
      let taken = deal_msg-taken node nodes p e in
      (
        rw (deal_rounds, goes_on)
            (done ∙ ap (λ (x : Process w). some (deal_in_turn nodes x)) taken),
        ap (λ (x : Process w). (deal_in_turn nodes x).msg_que) (sym taken) ∙ emptied,
      )

  -- After Stop has set its flag, the loop of DealMsg ends, with a round for each message that was
  -- still queued and one more, and the join of Stop returns: the process is then as each of these
  -- messages, the oldest first, leaves it when DealMsg has dealt with it, and the queue is empty.
  pub deal_rounds-set_stop :
      (p : Process w)
      → IsSound w p
      → (deal_rounds w (suc (length p.msg_que)) (fun_callbacks w) (set_stop w p).1
          ≡ some (deal_in_turn p.msg_que (set_stop w p).1))
        × ((deal_in_turn p.msg_que (set_stop w p).1).msg_que ≡ [])
  unfolding set_stop
  deal_rounds-set_stop p v =
      deal_rounds-drains p.msg_que (set_stop w p).1
        (record {
          registered = record { listed = v.registered.listed; bound = v.registered.bound };
          nobody = v.nobody;
        })
        refl refl
