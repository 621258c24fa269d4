-- ===== src/Chat/Callbacks/Shedding.antt =====
-- Actions that bind no session to a user: they may only take sessions out of the maps.
use xiguchat.Prelude.{
  ℕ, ◌≡◌, refl, sym, ◌∙◌, subst, Bool, true, false, Option, none, some, if◌then◌else◌,
}
use xiguchat.Prelude.Text.{Text}
use xiguchat.Prelude.Int.{ℤ}
use xiguchat.Chat.World.{World, Doc, Fields}
use xiguchat.Chat.Process.{Process, Conn, SameQueue, put_conn}
use xiguchat.Chat.Redis.{redis_get, redis_set}
use xiguchat.Chat.Registry.{find_user, get_session}
use xiguchat.Chat.Registry.Bindings.{IsRegistered}
use xiguchat.Chat.Cleanup.{deal_exception_session, send}
use xiguchat.Chat.Cleanup.Local.{IsOutside, redis_get-IsOutside}
use xiguchat.Chat.Cleanup.Removes.{
  Removes, put_conn-Removes, deal_exception_session-Removes, send-Removes, notify_offline-Removes,
  clear_session-Removes,
}
use xiguchat.Chat.Login.{get_base_info}
use xiguchat.Chat.Login.Binding.{redis_set-IsOutside}
use xiguchat.Chat.Login.Handler.{get_base_info-IsOutside}
use xiguchat.Chat.Messages.{AddFriendReq, AuthFriendReq, TextChatMsgReq}
use xiguchat.Chat.Notify.{
  send_to, tell_agreed, kick_session, notify_add_friend, notify_auth_friend, notify_text_chat_msg,
  notify_kick_user,
}

module _ {w : World} where
  pub record Sheds (p q : Process w) : Type 0 where
    pub registered : IsRegistered q
    pub only :
        (uid : ℤ) (id : Text) → find_user q.users uid ≡ some id → find_user p.users uid ≡ some id
    pub queue : SameQueue p q

  pub Sheds-refl : {p : Process w} → IsRegistered p → Sheds p p
  Sheds-refl v = record { registered = v; only = λ uid id found. found; queue = (refl, refl) }

  Removes-Sheds : (id : Text) {p q r : Process w} → Sheds p q → Removes w id q r → Sheds p r
  Removes-Sheds id h step = record {
    registered = step.registered;
    only = λ uid other found. h.only uid other (step.only uid other found);
    queue = (step.queue.0 ∙ h.queue.0, step.queue.1 ∙ h.queue.1);
  }

  pub world-Sheds :
      {p q : Process w} (s : World.State w) → Sheds p q → Sheds p (record q { world = s })
  world-Sheds s h = record {
    registered = record { listed = h.registered.listed; bound = h.registered.bound };
    only = h.only;
    queue = h.queue;
  }

  pub IsOutside-Sheds : {p q r : Process w} → Sheds p q → IsOutside w q r → Sheds p r
  IsOutside-Sheds {p} {r} h e = subst (Sheds p) (sym e) (world-Sheds r.world h)

  pub if-Sheds :
      {A : Type 0} {p : Process w} (b : Bool) (x y : A × Process w)
      → Sheds p x.1
      → Sheds p y.1
      → Sheds p (if b then x else y).1
  if-Sheds true x y h g = h
  if-Sheds false x y h g = g

  -- The session's object changes, but not its user.
  pub put_conn-Sheds :
      {p q : Process w} (id : Text) (c : Conn)
      → c.user_uid ≡ (q.conns id).user_uid
      → Sheds p q
      → Sheds p (put_conn id c q)
  put_conn-Sheds {q} id c same h = Removes-Sheds id h (put_conn-Removes w id c q same h.registered)

  pub deal-Sheds :
      {p q : Process w} (id : Text) → Sheds p q → Sheds p (deal_exception_session w id q).1
  deal-Sheds id h = Removes-Sheds id h (deal_exception_session-Removes w id _ h.registered)

  pub get_session-Sheds : {p q : Process w} (uid : ℤ) → Sheds p q → Sheds p (get_session uid q).1
  unfolding get_session
  get_session-Sheds uid h = h

  pub redis_get-Sheds : {p q : Process w} (key : Text) → Sheds p q → Sheds p (redis_get w key q).1
  redis_get-Sheds key h = IsOutside-Sheds h (redis_get-IsOutside w key _)

  pub redis_set-Sheds :
      {p q : Process w} (key value : Text) → Sheds p q → Sheds p (redis_set w key value q).1
  redis_set-Sheds key value h = IsOutside-Sheds h (redis_set-IsOutside w key value _)

  pub get_base_info-Sheds :
      {p q : Process w} (key : Text) (uid : ℤ) → Sheds p q → Sheds p (get_base_info w key uid q).1
  get_base_info-Sheds key uid h = IsOutside-Sheds h (get_base_info-IsOutside w key uid _)

  pub send-Sheds :
      {p q : Process w} (id msg : Text) (msg_id : ℕ)
      → Sheds p q
      → Sheds p (send w id msg msg_id q).1
  send-Sheds id msg msg_id h = Removes-Sheds id h (send-Removes w id msg msg_id _ h.registered)

  pub send_to-Sheds :
      {p q : Process w} (session : Option Text) (notice : Doc) (msg_id : ℕ)
      → Sheds p q
      → Sheds p (send_to w session notice msg_id q).1
  unfolding send_to
  send_to-Sheds none notice msg_id h = h
  send_to-Sheds (some session) notice msg_id h = send-Sheds session _ msg_id h

  pub tell_agreed-Sheds :
      {p q : Process w} (session : Option Text) (uid : ℤ) (fields : Fields)
      → Sheds p q
      → Sheds p (tell_agreed w session uid fields q).1
  unfolding tell_agreed
  tell_agreed-Sheds none uid fields h = h
  tell_agreed-Sheds (some session) uid fields h =
      send_to-Sheds (some session) _ _ (get_base_info-Sheds _ uid h)

  kick_session-Sheds :
      {p q : Process w} (uid : ℤ) (session : Option Text)
      → Sheds p q
      → Sheds p (kick_session w uid session q).1
  unfolding kick_session
  kick_session-Sheds uid none h = h
  kick_session-Sheds uid (some session) h =
      let told = Removes-Sheds session h (notify_offline-Removes w session uid _ h.registered) in
      Removes-Sheds session told (clear_session-Removes w session _ told.registered)

  -- The requests of other servers
  pub notify_add_friend-Sheds :
      (p : Process w) (req : AddFriendReq) → IsRegistered p → Sheds p (notify_add_friend w req p).1
  unfolding notify_add_friend
  notify_add_friend-Sheds p req v = send_to-Sheds _ _ _ (get_session-Sheds req.touid (Sheds-refl v))

  pub notify_auth_friend-Sheds :
      (p : Process w) (req : AuthFriendReq)
      → IsRegistered p
      → Sheds p (notify_auth_friend w req p).1
  unfolding notify_auth_friend
  notify_auth_friend-Sheds p req v =
      tell_agreed-Sheds _ _ _ (get_session-Sheds req.touid (Sheds-refl v))

  pub notify_text_chat_msg-Sheds :
      (p : Process w) (req : TextChatMsgReq)
      → IsRegistered p
      → Sheds p (notify_text_chat_msg w req p).1
  unfolding notify_text_chat_msg
  notify_text_chat_msg-Sheds p req v =
      send_to-Sheds _ _ _ (get_session-Sheds req.touid (Sheds-refl v))

  pub notify_kick_user-Sheds :
      (p : Process w) (uid : ℤ) → IsRegistered p → Sheds p (notify_kick_user w uid p).1
  unfolding notify_kick_user
  notify_kick_user-Sheds p uid v = kick_session-Sheds _ _ (get_session-Sheds uid (Sheds-refl v))
