-- ===== src/Chat/Callbacks/Sound.antt =====
-- DealMsg with the table of RegisterCallBacks keeps the maps of the process in agreement.
use xiguchat.Prelude.{
  ℕ, ◌≡◌, ◌≢◌, refl, sym, ◌∙◌, subst, true, false, inl, inr, Option, none, some, List, ◌∷◌, ◌==◌,
  arith, if◌then◌else◌, Bool, Option-cases, List-cases,
}
use xiguchat.Prelude.Text.{Text, codes}
use xiguchat.Prelude.Int.{ℤ, pos, is_positive}
use xiguchat.Chat.Protocol.{
  chat_login, search_user_req, add_friend_req, auth_friend_req, text_chat_msg_req, heart_beat_req,
  create_private_chat_req, load_chat_thread_req, load_chat_msg_req,
}
use xiguchat.Chat.World.{World}
use xiguchat.Chat.Process.{Process, LogicNode, SameQueue}
use xiguchat.Chat.Registry.{find_user}
use xiguchat.Chat.Registry.Bindings.{IsRegistered}
use xiguchat.Chat.Logic.{Handler, data_of, deal_node, deal_msg, refusal}
use xiguchat.Chat.Logic.Served.{IsServed, IsDealt, deal_node-IsDealt}
use xiguchat.Chat.Login.{int_of, string_in, login, login_handler}
use xiguchat.Chat.Login.Handler.{login-IsKept}
use xiguchat.Chat.Callbacks.{fun_callbacks}
use xiguchat.Chat.Callbacks.Shedding.{Sheds, Sheds-refl, send-Sheds}
use xiguchat.Chat.Callbacks.Friendship.{add_friend_apply_handler-Sheds, auth_friend_apply-Sheds}
use xiguchat.Chat.Callbacks.Handlers.{
  search_info-Sheds, deal_chat_text_msg-Sheds, create_private_chat-Sheds, load_chat_threads-Sheds,
  load_chat_messages-Sheds, heart_beat_handler-Sheds,
}

module _ (w : World) where
  -- The users' sessions agree with the session table, and no session is bound to the uid 0, which a
  -- session has before its login.
  pub record IsSound (p : Process w) : Type 0 where
    pub registered : IsRegistered p
    pub nobody : find_user p.users (pos 0) ≡ none

  absent_of : {A : Type 0} (o : Option A) → ((a : A) → o ≢ some a) → o ≡ none
  absent_of o h = elim (Option-cases o) [ inl e ↦ e | inr (a, e) ↦ elim (h a e) [ ] ]

  pub Sheds-IsSound : (p q : Process w) → IsSound p → Sheds p q → IsSound q
  Sheds-IsSound p q v h = record {
    registered = h.registered;
    nobody =
        absent_of (find_user q.users (pos 0))
          (λ id e. ground (arith, h.only (pos 0) id e, v.nobody));
  }

  -- What a handler keeps: the invariant, and the queue, which is LogicSystem's own.
  record Continues (p q : Process w) : Type 0 where
    pub sound : IsSound q
    pub queue : SameQueue p q

  Sheds-Continues : (p q : Process w) → IsSound p → Sheds p q → Continues p q
  Sheds-Continues p q v h = record { sound = Sheds-IsSound p q v h; queue = h.queue }

  -- The handlers that bind no session.
  abbrev IsMild : Handler w → Type 0
  IsMild handler =
      (session : Text) (id : ℕ) (msg_data : Text) (p : Process w)
      → IsRegistered p
      → Sheds p (handler session id msg_data p).1

  abbrev IsMildly : Option (Handler w) → Type 0
  IsMildly none = Unit
  IsMildly (some handler) = IsMild handler

  pick :
      (b : Bool) (x y : Option (Handler w))
      → IsMildly x
      → IsMildly y
      → IsMildly (if b then x else y)
  pick true x y h g = h
  pick false x y h g = g

  mild_callbacks : (id : ℕ) → (id == chat_login) ≡ false → IsMildly (fun_callbacks w id)
  unfolding fun_callbacks
  mild_callbacks id other =
      let fine : IsMildly (fun_callbacks w id) = rw (other) (
        pick (id == search_user_req) _ _ (λ s i d p v. search_info-Sheds s i d (Sheds-refl v))
          (pick (id == add_friend_req) _ _
            (λ s i d p v. add_friend_apply_handler-Sheds s i d (Sheds-refl v))
            (pick (id == auth_friend_req) _ _
              (λ s i d p v. auth_friend_apply-Sheds s i d (Sheds-refl v))
              (pick (id == text_chat_msg_req) _ _
                (λ s i d p v. deal_chat_text_msg-Sheds s i d (Sheds-refl v))
                (pick (id == create_private_chat_req) _ _
                  (λ s i d p v. create_private_chat-Sheds s i d (Sheds-refl v))
                  (pick (id == load_chat_thread_req) _ _
                    (λ s i d p v. load_chat_threads-Sheds s i d (Sheds-refl v))
                    (pick (id == load_chat_msg_req) _ _
                      (λ s i d p v. load_chat_messages-Sheds s i d (Sheds-refl v))
                      (pick (id == heart_beat_req) _ _
                        (λ s i d p v. heart_beat_handler-Sheds s i d (Sheds-refl v)) tt)))))))) in
      fine

  -- A session without a user is nobody's.
  unbound :
      (session : Text) (p : Process w)
      → IsSound p
      → (p.conns session).user_uid ≡ pos 0
      → (u : ℤ) → find_user p.users u ≢ some session
  unbound session p v zero_uid u found =
      let e : u ≡ pos 0 = sym (v.registered.bound u session found) ∙ zero_uid in
      let at_zero : find_user p.users (pos 0) ≡ some session =
        subst (λ (x : ℤ). find_user p.users x ≡ some session) e found in
      ground (arith, at_zero, v.nobody)

  login_handler-Continues :
      (session : Text) (id : ℕ) (msg_data : Text) (p : Process w)
      → IsSound p
      → (p.conns session).user_uid ≡ pos 0
      → is_positive (int_of w (w.parse msg_data) (codes "uid")) ≡ true
      → Continues p (login_handler w session id msg_data p).1
  unfolding login_handler
  login_handler-Continues session id msg_data p v zero_uid positive =
      let uid = int_of w (w.parse msg_data) (codes "uid") in
      let token = string_in w (w.parse msg_data) (codes "token") in
      let (reply, q) = login w session uid token p in
      let kept = login-IsKept w session uid token p v.registered (unbound session p v zero_uid) in
      let not_zero : pos 0 ≢ uid =
        λ e. ground (arith, subst (λ (x : ℤ). is_positive x ≡ true) (sym e) positive) in
      let middle : IsSound q = record {
        registered = kept.registered;
        nobody =
            absent_of (find_user q.users (pos 0))
              (λ found e. ground (arith, kept.only (pos 0) found not_zero e, v.nobody));
      } in
      let last =
        Sheds-Continues q _ middle (send-Sheds session _ _ (Sheds-refl middle.registered)) in
      record {
        sound = last.sound;
        queue = (last.queue.0 ∙ kept.queue.0, last.queue.1 ∙ kept.queue.1);
      }

  -- The handler that an option holds keeps the invariant for one message.
  abbrev SoundAt : LogicNode → Process w → Option (Handler w) → Type 0
  SoundAt node p none = Unit
  SoundAt node p (some handler) =
      Continues p (handler node.session node.recvnode.msg_id (data_of node.recvnode) p).1

  callback-login : (id : ℕ) → id ≡ chat_login → fun_callbacks w id ≡ some (login_handler w)
  unfolding fun_callbacks
  callback-login id e = rw (e)

  served-SoundAt :
      (node : LogicNode) (p : Process w)
      → IsSound p
      → IsServed w node p
      → SoundAt node p (fun_callbacks w node.recvnode.msg_id)
  unfolding int_of
  served-SoundAt node p v served = elim served.authorised [
    | inl (is_login, zero_uid, positive, token) ↦
        subst (SoundAt node p) (sym (callback-login node.recvnode.msg_id is_login)) (
          login_handler-Continues node.session node.recvnode.msg_id (data_of node.recvnode) p v
            zero_uid (rw (served.parsed) positive))
    | inr (other, logged_in, acts) ↦
        mild_at (fun_callbacks w node.recvnode.msg_id)
          (mild_callbacks node.recvnode.msg_id (ground (arith, other)))
  ]
    where
      mild_at : (o : Option (Handler w)) → IsMildly o → SoundAt node p o
      mild_at none mild = tt
      mild_at (some handler) mild =
          Sheds-Continues p _ v
            (mild node.session node.recvnode.msg_id (data_of node.recvnode) p v.registered)

  deal_node-Continues :
      (node : LogicNode) (p : Process w)
      → IsSound p
      → Continues p (deal_node w (fun_callbacks w) node p).1
  deal_node-Continues node p v = elim (deal_node-IsDealt w (fun_callbacks w) node p) [
    | IsDealt.ignored reason e ↦ rw e (record { sound = v; queue = (refl, refl) })
    | IsDealt.refused error failed e ↦ rw e (
        Sheds-Continues p _ v
          (send-Sheds node.session (refusal w error) _ (Sheds-refl v.registered)))
    | IsDealt.handled handler found served e ↦
        rw e (subst (SoundAt node p) found (served-SoundAt node p v served))
  ]

  -- The process after the message has been taken from the queue.
  rest_of :
      (nodes : List LogicNode) (p : Process w) → IsSound p → IsSound (record p { msg_que = nodes })
  rest_of nodes p v = record {
    registered = record { listed = v.registered.listed; bound = v.registered.bound };
    nobody = v.nobody;
  }

  -- The next message is taken, and nothing else happens to the queue and its flag.
  pub deal_msg-queue :
      (node : LogicNode) (nodes : List LogicNode) (p : Process w)
      → IsSound p
      → p.msg_que ≡ node ∷ nodes
      → ((deal_msg w (fun_callbacks w) p).0 ≡ true)
        × ((deal_msg w (fun_callbacks w) p).1.msg_que ≡ nodes)
        × ((deal_msg w (fun_callbacks w) p).1.b_stop ≡ p.b_stop)
  unfolding deal_msg
  deal_msg-queue node nodes p v e =
      let next = deal_node-Continues node (record p { msg_que = nodes }) (rest_of nodes p v) in
      rw (deal_msg, e) (refl, next.queue.0, next.queue.1)

  -- A round of DealMsg, with the handlers of RegisterCallBacks and whatever message is next, keeps
  -- the maps in agreement: every user's session is in the session table and its object has the
  -- user's uid, and nothing is bound to the uid 0. So after any number of messages no session that
  -- has not logged in is anyone's, and a session is the current one of at most its own user.
  pub deal_msg-IsSound : (p : Process w) → IsSound p → IsSound (deal_msg w (fun_callbacks w) p).1
  unfolding deal_msg
  deal_msg-IsSound p v = elim (List-cases p.msg_que) [
    | inl e ↦ rw (deal_msg, e) v
    | inr (node, nodes, e) ↦
        rw (deal_msg, e)
          ((deal_node-Continues node (record p { msg_que = nodes }) (rest_of nodes p v)).sound)
  ]
