-- ===== src/Chat/Cleanup/Local.antt =====
-- What the clean-up of a session leaves of the maps of the process, whatever Redis answers.
use xiguchat.Prelude.{
  ℕ, ◌≡◌, refl, sym, ap, ◌∙◌, subst, true, false, inl, inr, Option, none, some, arith,
  if◌then◌else◌, Bool-cases,
}
use xiguchat.Prelude.Text.{Text, text_eq, is_empty, text_eq→eq, text_eq_refl}
use xiguchat.Prelude.Int.{ℤ, pos, eqb_ℤ}
use xiguchat.Chat.World.{World}
use xiguchat.Chat.Process.{Process, Conn, SameQueue, put_conn}
use xiguchat.Chat.Redis.{redis_get, redis_del, acquire_lock, release_lock}
use xiguchat.Chat.Registry.{find_user, has_session, clear_session}
use xiguchat.Chat.Registry.Bindings.{
  IsRegistered, clear_session_lem, clear_session-IsRegistered, conns-clear_session,
}
use xiguchat.Chat.Cleanup.{
  session_key, ip_key, lock_key, lock_time_out, acquire_time_out, forget_login, forget_shared,
  clean_user, deal_exception_session,
}

module _ (w : World) where
  -- q is p with another world.
  abbrev pub IsOutside : Process w → Process w → Type 0
  IsOutside p q = q ≡ record p { world = q.world }

  pub redis_get-IsOutside : (key : Text) (p : Process w) → IsOutside p (redis_get w key p).1
  unfolding redis_get
  redis_get-IsOutside key p = elim (Bool-cases p.redis_closed) [
    | inl closed ↦ rw (closed, redis_get)
    | inr opened ↦ rw (opened, redis_get)
  ]

  redis_del-IsOutside : (key : Text) (p : Process w) → IsOutside p (redis_del w key p).1
  unfolding redis_del
  redis_del-IsOutside key p = ground arith

  pub acquire_lock-IsOutside :
      (name : Text) (m n : ℕ) (p : Process w) → IsOutside p (acquire_lock w name m n p).1
  unfolding acquire_lock
  acquire_lock-IsOutside name m n p = ground arith

  pub release_lock-IsOutside :
      (name identifier : Text) (p : Process w) → IsOutside p (release_lock w name identifier p).1
  unfolding release_lock
  release_lock-IsOutside name identifier p = ground arith

  pub IsOutside-trans : (p q r : Process w) → IsOutside p q → IsOutside q r → IsOutside p r
  IsOutside-trans p q r a b = b ∙ ap (λ (x : Process w). record x { world = r.world }) a

  clear_session-world :
      (p : Process w) (id : Text) (s : World.State w)
      → (clear_session id (record p { world = s })).1 ≡ record (clear_session id p).1 { world = s }
  unfolding clear_session
  clear_session-world p id s = elim (Bool-cases (has_session p.sessions id)) [
    | inl e ↦ rw (e)
    | inr e ↦ rw (e)
  ]

  IsOutside-clear :
      (p q : Process w) (id : Text)
      → IsOutside p q
      → IsOutside (clear_session id p).1 (clear_session id q).1
  IsOutside-clear p q id e =
      let same =
        ap (λ (x : Process w). (clear_session id x).1) e ∙ clear_session-world p id q.world in
      same
      ∙ ap (λ (s : World.State w). record (clear_session id p).1 { world = s })
          (sym (ap (λ (x : Process w). x.world) same))

  forget_login-IsOutside :
      (uid : ℤ) (session_id : Text) (found : Option Text) (p : Process w)
      → IsOutside p (forget_login w uid session_id found p).1
  unfolding forget_login
  forget_login-IsOutside uid session_id none p = refl
  forget_login-IsOutside uid session_id (some found) p =
      let p' = (redis_del w (session_key uid) p).1 in
      let p'' = (redis_del w (ip_key uid) p').1 in
      let both =
        IsOutside-trans p p' p'' (redis_del-IsOutside (session_key uid) p)
          (redis_del-IsOutside (ip_key uid) p') in
      elim (Bool-cases (text_eq found session_id)) [ inl e ↦ rw (e) both | inr e ↦ rw (e) ]

  forget_shared-IsOutside :
      (uid : ℤ) (session_id identifier : Text) (p : Process w)
      → IsOutside p (forget_shared w uid session_id identifier p).1
  unfolding forget_shared
  forget_shared-IsOutside uid session_id identifier p =
      let (found, p') = redis_get w (session_key uid) p in
      let p'' = (forget_login w uid session_id found p').1 in
      let both =
        IsOutside-trans p p' p'' (redis_get-IsOutside (session_key uid) p)
          (forget_login-IsOutside uid session_id found p') in
      elim (Bool-cases (is_empty identifier)) [ inl e ↦ rw (e) | inr e ↦ rw (e) both ]

  clean_user-IsOutside :
      (uid : ℤ) (session_id : Text) (p : Process w)
      → IsOutside (clear_session session_id p).1 (clean_user w uid session_id p).1
  unfolding clean_user
  clean_user-IsOutside uid session_id p =
      let (identifier, p1) = acquire_lock w (lock_key uid) lock_time_out acquire_time_out p in
      let p2 = (forget_shared w uid session_id identifier p1).1 in
      let p3 = (clear_session session_id p2).1 in
      let before =
        IsOutside-trans p p1 p2
          (acquire_lock-IsOutside (lock_key uid) lock_time_out acquire_time_out p)
          (forget_shared-IsOutside uid session_id identifier p1) in
      IsOutside-trans (clear_session session_id p).1 p3
        (release_lock w (lock_key uid) identifier p3).1 (IsOutside-clear p p2 session_id before)
        (release_lock-IsOutside (lock_key uid) identifier p3)

  pub clear_session-SameQueue : (id : Text) (p : Process w) → SameQueue p (clear_session id p).1
  unfolding clear_session
  clear_session-SameQueue id p = elim (Bool-cases (has_session p.sessions id)) [
    | inl e ↦ rw (e) (refl, refl)
    | inr e ↦ rw (e) (refl, refl)
  ]

  -- The session is marked before anything else.
  abbrev pub started : Text → Process w → Process w
  started id p = put_conn id (record (p.conns id) { cleanup_started = true }) p

  deal_exception_session-IsOutside :
      (id : Text) (p : Process w)
      → (p.conns id).cleanup_started ≡ false
      → IsOutside (clear_session id (started id p)).1 (deal_exception_session w id p).1
  unfolding deal_exception_session
  deal_exception_session-IsOutside id p fresh =
      elim (Bool-cases (eqb_ℤ (p.conns id).user_uid (pos 0))) [
        | inl e ↦ rw (fresh, e)
        | inr e ↦ rw (fresh, e) (clean_user-IsOutside (p.conns id).user_uid id (started id p))
      ]

  started-IsRegistered : (id : Text) (p : Process w) → IsRegistered p → IsRegistered (started id p)
  started-IsRegistered id p v = record {
    listed = v.listed;
    bound = λ uid other e. ground (arith, text_eq→eq id other, v.bound uid other e);
  }

  -- DealExceptionSession of a session that it has not cleaned up yet, whatever Redis answers and
  -- whether or not the user's lock is obtained: the session is no longer valid and every other
  -- session is as valid as before; no user is left with the session, and a user of another session
  -- (the one of a newer login, say) keeps that session.
  pub deal_exception_session_lem :
      (id : Text) (p : Process w)
      → IsRegistered p
      → (p.conns id).cleanup_started ≡ false
      → ((other : Text)
          → has_session (deal_exception_session w id p).1.sessions other
            ≡ (if text_eq id other then false else has_session p.sessions other))
        × ((uid : ℤ)
            → find_user (deal_exception_session w id p).1.users uid ≡ elim (find_user p.users uid) [
              | none ↦ none
              | some found ↦ if text_eq found id then none else some found
            ])
  deal_exception_session_lem id p v fresh =
      let e = deal_exception_session-IsOutside id p fresh in
      let (valid, users) = clear_session_lem (started id p) id (started-IsRegistered id p v) in
      (
        λ other. ap (λ (q : Process w). has_session q.sessions other) e ∙ valid other,
        λ uid. ap (λ (q : Process w). find_user q.users uid) e ∙ users uid,
      )

  pub conns-deal_exception_session :
      (id : Text) (p : Process w)
      → (p.conns id).cleanup_started ≡ false
      → (deal_exception_session w id p).1.conns ≡ (started id p).conns
  conns-deal_exception_session id p fresh =
      ap (λ (q : Process w). q.conns) (deal_exception_session-IsOutside id p fresh)
      ∙ conns-clear_session (started id p) id

  pub deal_exception_session-done :
      (id : Text) (p : Process w)
      → (p.conns id).cleanup_started ≡ true
      → deal_exception_session w id p ≡ (tt, p)
  unfolding deal_exception_session
  deal_exception_session-done id p done = rw (done)

  pub deal_exception_session-SameQueue :
      (id : Text) (p : Process w) → SameQueue p (deal_exception_session w id p).1
  unfolding clear_session
  deal_exception_session-SameQueue id p = elim (Bool-cases (p.conns id).cleanup_started) [
    | inl done ↦ rw (deal_exception_session-done id p done) (refl, refl)
    | inr fresh ↦
        let e = deal_exception_session-IsOutside id p fresh in
        let (queue, stop) = clear_session-SameQueue id (started id p) in
        (ap (λ (x : Process w). x.msg_que) e ∙ queue, ap (λ (x : Process w). x.b_stop) e ∙ stop)
  ]

  -- A second DealExceptionSession of the same session (the read, the write and the timer can each
  -- fail and call it) does nothing: no map of the process and nothing in Redis changes.
  pub deal_exception_session-once :
      (id : Text) (p : Process w)
      → deal_exception_session w id (deal_exception_session w id p).1
        ≡ (tt, (deal_exception_session w id p).1)
  deal_exception_session-once id p = elim (Bool-cases (p.conns id).cleanup_started) [
    | inl done ↦ rw (deal_exception_session-done id p done) (deal_exception_session-done id p done)
    | inr fresh ↦ deal_exception_session-done id (deal_exception_session w id p).1 (
        ap (λ (c : Text → Conn). (c id).cleanup_started) (conns-deal_exception_session id p fresh)
        ∙ ground (arith, text_eq_refl id))
  ]

  -- DealExceptionSession keeps every user's session in the table of sessions, with the user's uid.
  pub deal_exception_session-IsRegistered :
      (id : Text) (p : Process w) → IsRegistered p → IsRegistered (deal_exception_session w id p).1
  deal_exception_session-IsRegistered id p v = elim (Bool-cases (p.conns id).cleanup_started) [
    | inl done ↦ rw (deal_exception_session-done id p done) v
    | inr fresh ↦
        let kept = clear_session-IsRegistered (started id p) id (started-IsRegistered id p v) in
        subst IsRegistered (sym (deal_exception_session-IsOutside id p fresh))
          (record { listed = kept.listed; bound = kept.bound })
  ]
