-- ===== src/Chat/Steps/Sound.antt =====
-- The maps of the process agree after every step.
use xiguchat.Prelude.{
  ℕ, ◌≡◌, refl, ◌∙◌, ◌++◌, true, false, ◌||◌, inl, inr, Bool, List, [], ◌∷◌, arith, leb, length,
  Bool-cases,
}
use xiguchat.Prelude.Text.{Text, text_eq→eq}
use xiguchat.Prelude.Int.{pos}
use xiguchat.Prelude.Decimal.{to_string}
use xiguchat.Chat.World.{World}
use xiguchat.Chat.Process.{Process, Conn}
use xiguchat.Chat.Registry.{has_session, handle_accept}
use xiguchat.Chat.Registry.Bindings.{IsRegistered}
use xiguchat.Chat.Cleanup.{close_conn}
use xiguchat.Chat.Server.{
  login_count, is_heartbeat_expired, update_heartbeat, scan_sessions, deal_each, scan_and_report,
  on_timer, close_and_deal_each, stop_server,
}
use xiguchat.Chat.Server.Expiry.{redis_hset-IsOutside}
use xiguchat.Chat.Logic.{max_logicque, post_msg_to_que, set_stop, release_server}
use xiguchat.Chat.Callbacks.Shedding.{
  Sheds, Sheds-refl, world-Sheds, IsOutside-Sheds, put_conn-Sheds, deal-Sheds, if-Sheds,
  notify_add_friend-Sheds, notify_auth_friend-Sheds, notify_text_chat_msg-Sheds,
  notify_kick_user-Sheds,
}
use xiguchat.Chat.Callbacks.Sound.{IsSound, Sheds-IsSound, deal_msg-IsSound}
use xiguchat.Chat.Steps.{Step, Reach}

module _ {w : World} {p : Process w} where
  scan_sessions-Sheds :
      (now : ℕ) (ids : List Text) {q : Process w}
      → Sheds p q
      → Sheds p (scan_sessions w now ids q).1
  unfolding scan_sessions
  scan_sessions-Sheds now [] h = h
  scan_sessions-Sheds now (id ∷ ids) {q} h =
      elim (Bool-cases (is_heartbeat_expired now (q.conns id))) [
        | inl old ↦
            rw (old)
              (scan_sessions-Sheds now ids (put_conn-Sheds id (close_conn (q.conns id)) refl h))
        | inr young ↦ rw (young) (scan_sessions-Sheds now ids h)
      ]

  deal_each-Sheds : (ids : List Text) {q : Process w} → Sheds p q → Sheds p (deal_each w ids q).1
  unfolding deal_each
  deal_each-Sheds [] h = h
  deal_each-Sheds (id ∷ ids) h = deal_each-Sheds ids (deal-Sheds id h)

  close_and_deal_each-Sheds :
      (ids : List Text) {q : Process w} → Sheds p q → Sheds p (close_and_deal_each w ids q).1
  unfolding close_and_deal_each
  close_and_deal_each-Sheds [] h = h
  close_and_deal_each-Sheds (id ∷ ids) {q} h =
      close_and_deal_each-Sheds ids
        (deal-Sheds id (put_conn-Sheds id (close_conn (q.conns id)) refl h))

  scan_and_report-Sheds : {q : Process w} → Sheds p q → Sheds p (scan_and_report w q).1
  unfolding scan_and_report
  scan_and_report-Sheds {q} h =
      let (now, s) = w.time_now q.world in
      let p1 : Process w = record q { world = s } in
      let ((expired, count), p2) = scan_sessions w now p1.sessions p1 in
      deal_each-Sheds expired (
        IsOutside-Sheds (scan_sessions-Sheds now p1.sessions (world-Sheds s h))
          (redis_hset-IsOutside w login_count w.self_name (to_string (pos count)) p2))

  pub on_timer-Sheds : (ec : Bool) → IsRegistered p → Sheds p (on_timer w ec p).1
  unfolding on_timer
  on_timer-Sheds ec v = elim (Bool-cases (p.stopped || ec)) [
    | inl off ↦ rw (off) (Sheds-refl v)
    | inr on ↦ rw (on) (scan_and_report-Sheds (Sheds-refl v))
  ]

  pub stop_server-Sheds : IsRegistered p → Sheds p (stop_server w p).1
  unfolding stop_server
  stop_server-Sheds v =
      let stopping : Process w = record p { stopped = true } in
      if-Sheds p.stopped (tt, p) (close_and_deal_each w p.sessions stopping) (Sheds-refl v)
        (close_and_deal_each-Sheds p.sessions (record {
          registered = record { listed = v.listed; bound = v.bound };
          only = λ uid id found. found;
          queue = (refl, refl);
        }))

has_session-append :
    (ids : List Text) (id other : Text)
    → has_session ids other ≡ true
    → has_session (ids ++ id ∷ []) other ≡ true
unfolding has_session
has_session-append [] id other there = ground (arith, there)
has_session-append (key ∷ ids) id other there =
    ground (arith, there, has_session-append ids id other)

module _ {w : World} where
  -- A session with a fresh id, of no user.
  handle_accept-IsSound :
      (id : Text) (conn : Conn) (error : Bool) (p : Process w)
      → has_session p.sessions id ≡ false
      → IsSound w p
      → IsSound w (handle_accept id conn error p).1
  unfolding handle_accept
  handle_accept-IsSound id conn true p fresh v = v
  handle_accept-IsSound id conn false p fresh v = record {
    registered = record {
      listed = λ uid other found.
          ground
            (arith, v.registered.listed uid other found, has_session-append p.sessions id other);
      bound = λ uid other found. ground (
        arith,
        text_eq→eq id other,
        v.registered.listed uid other found,
        v.registered.bound uid other found,
        fresh,
      );
    };
    nobody = v.nobody;
  }

  -- The fields outside the maps and the sessions' users do not matter.
  same_maps-IsSound :
      (p q : Process w)
      → q.users ≡ p.users
      → q.sessions ≡ p.sessions
      → ((id : Text) → (q.conns id).user_uid ≡ (p.conns id).user_uid)
      → IsSound w p
      → IsSound w q
  same_maps-IsSound p q users sessions uids v = record {
    registered = record {
      listed = λ uid id found. ground (arith, users, sessions, found, v.registered.listed uid id);
      bound = λ uid id found. uids id ∙ ground (arith, users, found, v.registered.bound uid id);
    };
    nobody = ground (arith, users, v.nobody);
  }

  Step-IsSound : (p q : Process w) → Step w p q → IsSound w p → IsSound w q
  unfolding post_msg_to_que set_stop release_server update_heartbeat
  Step-IsSound p q (Step.accepts id conn error fresh zero_uid) v =
      handle_accept-IsSound id conn error p fresh v
  Step-IsSound p q (Step.posts msg) v =
      elim (Bool-cases (p.b_stop || leb max_logicque (length p.msg_que))) [
        | inl full ↦ rw (post_msg_to_que, full) v
        | inr room ↦ rw (post_msg_to_que, room) (same_maps-IsSound p _ refl refl (λ id. refl) v)
      ]
  Step-IsSound p q Step.deals v = deal_msg-IsSound w p v
  Step-IsSound p q (Step.times ec) v = Sheds-IsSound w p q v (on_timer-Sheds ec v.registered)
  Step-IsSound p q (Step.fails id) v =
      Sheds-IsSound w p q v (deal-Sheds id (Sheds-refl v.registered))
  Step-IsSound p q (Step.beats id) v =
      same_maps-IsSound p q refl refl (λ other. ground (arith, text_eq→eq id other)) v
  Step-IsSound p q (Step.adds req) v =
      Sheds-IsSound w p q v (notify_add_friend-Sheds p req v.registered)
  Step-IsSound p q (Step.agrees req) v =
      Sheds-IsSound w p q v (notify_auth_friend-Sheds p req v.registered)
  Step-IsSound p q (Step.texts req) v =
      Sheds-IsSound w p q v (notify_text_chat_msg-Sheds p req v.registered)
  Step-IsSound p q (Step.kicks uid) v =
      Sheds-IsSound w p q v (notify_kick_user-Sheds p uid v.registered)
  Step-IsSound p q Step.stops v = Sheds-IsSound w p q v (stop_server-Sheds v.registered)
  Step-IsSound p q Step.stops_logic v = same_maps-IsSound p q refl refl (λ id. refl) v
  Step-IsSound p q Step.releases v = same_maps-IsSound p q refl refl (λ id. refl) v
  Step-IsSound p q (Step.writes id out) v =
      same_maps-IsSound p q refl refl (λ other. ground (arith, text_eq→eq id other)) v
  Step-IsSound p q (Step.goes_on state closed) v = same_maps-IsSound p q refl refl (λ id. refl) v

  -- In every order of what the threads of a ChatServer do (accepting sessions with fresh ids,
  -- queueing and dealing with messages, the timer, failures of sessions, the requests of other
  -- servers, the end of the server), whatever Redis, MySQL and the clients answer: the session that
  -- UserMgr has for a user is in the session table and its object has that user's uid, so that no
  -- session is the current one of two users; and no session is bound to the uid 0.
  pub Reach-IsSound : (p q : Process w) → Reach w p q → IsSound w p → IsSound w q
  Reach-IsSound p q Reach.start v = v
  Reach-IsSound p q (Reach.then_step r _ steps step) v =
      Step-IsSound r q step (Reach-IsSound p r steps v)
