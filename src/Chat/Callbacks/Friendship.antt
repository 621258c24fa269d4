-- ===== src/Chat/Callbacks/Friendship.antt =====
-- AddFriendApply and AuthFriendApply bind no session to a user.
use xiguchat.Prelude.{ℕ, Bool, true, false, Option, none, some, inl, inr, Bool-cases}
use xiguchat.Prelude.Text.{Text, text_eq}
use xiguchat.Prelude.Int.{ℤ, pos, is_positive}
use xiguchat.Chat.Data.{UserInfo}
use xiguchat.Chat.World.{World, Fields}
use xiguchat.Chat.Process.{Process}
use xiguchat.Chat.Redis.{redis_get}
use xiguchat.Chat.Cleanup.{ip_key}
use xiguchat.Chat.Dao.{add_friend_apply, add_friend, get_or_create_private_chat}
use xiguchat.Chat.Friends.{
  View, view, tell_apply, route_apply, after_apply, apply_friend, add_friend_apply_handler,
  save_welcomes, tell_approval, after_add, agree, auth_friend, auth_friend_apply,
}
use xiguchat.Chat.Callbacks.Shedding.{
  Sheds, world-Sheds, get_session-Sheds, redis_get-Sheds, get_base_info-Sheds, send-Sheds,
  send_to-Sheds, tell_agreed-Sheds,
}

module _ {w : World} {p : Process w} where
  -- AddFriendApply
  tell_apply-Sheds :
      {q : Process w} (server : Text) (uid touid : ℤ) (welcome : Text) (info : Option UserInfo)
      → Sheds p q
      → Sheds p (tell_apply w server uid touid welcome info q).1
  unfolding tell_apply
  tell_apply-Sheds server uid touid welcome info h =
      elim (Bool-cases (text_eq server w.self_name)) [
        | inl here ↦ rw (here) (send_to-Sheds _ _ _ (get_session-Sheds touid h))
        | inr there ↦ rw (there) (world-Sheds _ h)
      ]

  route_apply-Sheds :
      {q : Process w} (uid touid : ℤ) (welcome : Text) (server : Option Text)
      → Sheds p q
      → Sheds p (route_apply w uid touid welcome server q).1
  unfolding route_apply
  route_apply-Sheds uid touid welcome none h = h
  route_apply-Sheds uid touid welcome (some server) h =
      tell_apply-Sheds server uid touid welcome _ (get_base_info-Sheds _ uid h)

  after_apply-Sheds :
      {q : Process w} (uid touid : ℤ) (welcome : Text) (applied : Bool)
      → Sheds p q
      → Sheds p (after_apply w uid touid welcome applied q).1
  unfolding after_apply
  after_apply-Sheds uid touid welcome false h = h
  after_apply-Sheds uid touid welcome true h =
      route_apply-Sheds uid touid welcome _ (redis_get-Sheds _ h)

  apply_friend-Sheds :
      {q : Process w} (uid touid : ℤ) (welcome bakname : Text)
      → Sheds p q
      → Sheds p (apply_friend w uid touid welcome bakname q).1
  unfolding apply_friend
  apply_friend-Sheds {q} uid touid welcome bakname h =
      let (applied, s) = add_friend_apply w.db uid touid welcome bakname q.world in
      after_apply-Sheds uid touid welcome applied (world-Sheds s h)

  pub add_friend_apply_handler-Sheds :
      {q : Process w} (session : Text) (id : ℕ) (msg_data : Text)
      → Sheds p q
      → Sheds p (add_friend_apply_handler w session id msg_data q).1
  unfolding add_friend_apply_handler
  add_friend_apply_handler-Sheds session id msg_data h =
      send-Sheds session _ _ (apply_friend-Sheds _ _ _ _ h)

  -- AuthFriendApply
  save_welcomes-Sheds :
      {q : Process w} (uid touid thread_id : ℤ) (desc : Text)
      → Sheds p q
      → Sheds p (save_welcomes w uid touid thread_id desc q).1
  unfolding save_welcomes
  save_welcomes-Sheds uid touid thread_id desc h = elim (Bool-cases (is_positive thread_id)) [
    | inl there ↦ rw (there) (world-Sheds _ h)
    | inr absent ↦ rw (absent) h
  ]

  tell_approval-Sheds :
      {q : Process w} (uid touid thread_id : ℤ) (items : View) (server : Option Text)
      → Sheds p q
      → Sheds p (tell_approval w uid touid thread_id items server q).1
  unfolding tell_approval
  tell_approval-Sheds uid touid thread_id items none h = h
  tell_approval-Sheds uid touid thread_id items (some server) h =
      elim (Bool-cases (text_eq server w.self_name)) [
        | inl here ↦ rw (here) (tell_agreed-Sheds _ _ _ (get_session-Sheds touid h))
        | inr there ↦ rw (there) (world-Sheds _ h)
      ]

  after_add-Sheds :
      {q : Process w} (uid touid : ℤ) (reply : Fields) (desc : Option Text)
      → Sheds p q
      → Sheds p (after_add w uid touid reply desc q).1
  unfolding after_add
  after_add-Sheds uid touid reply none h = h
  after_add-Sheds {q} uid touid reply (some desc) h =
      let (thread_id, s) = get_or_create_private_chat w.db uid touid q.world in
      let (saved, q') = save_welcomes w uid touid thread_id desc (record q { world = s }) in
      tell_approval-Sheds uid touid thread_id (view (pos 1) (pos 3) saved.0 saved.1)
        (redis_get w (ip_key touid) q').0
        (redis_get-Sheds (ip_key touid)
          (save_welcomes-Sheds uid touid thread_id desc (world-Sheds s h)))

  agree-Sheds :
      {q : Process w} (uid touid : ℤ) (back : Text) (user : Option UserInfo)
      → Sheds p q
      → Sheds p (agree w uid touid back user q).1
  unfolding agree
  agree-Sheds uid touid back none h = h
  agree-Sheds {q} uid touid back (some user) h =
      let (desc, s) = add_friend w.db uid touid back q.world in
      after_add-Sheds uid touid _ desc (world-Sheds s h)

  auth_friend-Sheds :
      {q : Process w} (uid touid : ℤ) (back : Text)
      → Sheds p q
      → Sheds p (auth_friend w uid touid back q).1
  unfolding auth_friend
  auth_friend-Sheds uid touid back h = agree-Sheds uid touid back _ (get_base_info-Sheds _ touid h)

  pub auth_friend_apply-Sheds :
      {q : Process w} (session : Text) (id : ℕ) (msg_data : Text)
      → Sheds p q
      → Sheds p (auth_friend_apply w session id msg_data q).1
  unfolding auth_friend_apply
  auth_friend_apply-Sheds session id msg_data h = send-Sheds session _ _ (auth_friend-Sheds _ _ _ h)
