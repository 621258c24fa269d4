-- ===== src/Chat/Cleanup/Removes.antt =====
-- An action that may take one session out of the maps of the process and changes nothing else in
-- them: DealExceptionSession, Send and NotifyOffline on that session, and ClearSession of it.
use xiguchat.Prelude.{
  ℕ, ◌≡◌, refl, sym, ◌∙◌, subst, false, inl, inr, none, some, arith, if◌then◌else◌, Bool-cases,
  Option-cases,
}
use xiguchat.Prelude.Text.{Text, text_eq, text_eq→eq, text_eq_refl}
use xiguchat.Prelude.Int.{ℤ}
use xiguchat.Chat.Session
use xiguchat.Chat.World.{World}
use xiguchat.Chat.Process.{Process, Conn, SameQueue, put_conn}
use xiguchat.Chat.Registry.{find_user, has_session, clear_session}
use xiguchat.Chat.Registry.Bindings.{IsRegistered, clear_session_lem, clear_session-IsRegistered}
use xiguchat.Chat.Cleanup.{deal_exception_session, send, notify_offline}
use xiguchat.Chat.Cleanup.Local.{
  IsOutside, clear_session-SameQueue, deal_exception_session-SameQueue, deal_exception_session_lem,
  deal_exception_session-done, deal_exception_session-IsRegistered,
}

module _ (w : World) where
  pub record Removes (id : Text) (p q : Process w) : Type 0 where
    pub registered : IsRegistered q
    pub sessions :
        (other : Text)
        → text_eq id other ≡ false
        → has_session q.sessions other ≡ has_session p.sessions other
    pub kept :
        (uid : ℤ) (other : Text)
        → text_eq id other ≡ false
        → find_user p.users uid ≡ some other
        → find_user q.users uid ≡ some other
    pub only :
        (uid : ℤ) (other : Text)
        → find_user q.users uid ≡ some other
        → find_user p.users uid ≡ some other
    pub queue : SameQueue p q

  pub Removes-refl : (id : Text) (p : Process w) → IsRegistered p → Removes id p p
  Removes-refl id p v = record {
    registered = v;
    sessions = λ other differ. refl;
    kept = λ uid other differ e. e;
    only = λ uid other e. e;
    queue = (refl, refl);
  }

  pub Removes-trans :
      (id : Text) (p q r : Process w) → Removes id p q → Removes id q r → Removes id p r
  Removes-trans id p q r a b = record {
    registered = b.registered;
    sessions = λ other differ. b.sessions other differ ∙ a.sessions other differ;
    kept = λ uid other differ e. b.kept uid other differ (a.kept uid other differ e);
    only = λ uid other e. a.only uid other (b.only uid other e);
    queue = (b.queue.0 ∙ a.queue.0, b.queue.1 ∙ a.queue.1);
  }

  pub IsOutside-IsRegistered : (p q : Process w) → IsOutside w p q → IsRegistered p → IsRegistered q
  IsOutside-IsRegistered p q e v =
      subst IsRegistered (sym e) (record { listed = v.listed; bound = v.bound })

  -- The two laws of clear_session_lem give the rest.
  removed-Removes :
      (id : Text) (p q : Process w)
      → IsRegistered q
      → ((other : Text)
          → has_session q.sessions other
            ≡ (if text_eq id other then false else has_session p.sessions other))
        × ((uid : ℤ)
            → find_user q.users uid ≡ elim (find_user p.users uid) [
              | none ↦ none
              | some found ↦ if text_eq found id then none else some found
            ])
      → SameQueue p q
      → Removes id p q
  removed-Removes id p q v (valid, users) queue = record {
    registered = v;
    sessions = λ other differ. valid other ∙ rw differ;
    kept = λ uid other differ e. ground (arith, users uid, e, text_eq→eq other id, text_eq_refl id);
    only = λ uid other e. elim (Option-cases (find_user p.users uid)) [
      | inl absent ↦ ground (arith, users uid, absent, e)
      | inr (found, there) ↦ ground (arith, users uid, there, e)
    ];
    queue = queue;
  }

  pub clear_session-Removes :
      (id : Text) (p : Process w) → IsRegistered p → Removes id p (clear_session id p).1
  clear_session-Removes id p v =
      removed-Removes id p (clear_session id p).1 (clear_session-IsRegistered p id v)
        (clear_session_lem p id v) (clear_session-SameQueue w id p)

  pub deal_exception_session-Removes :
      (id : Text) (p : Process w) → IsRegistered p → Removes id p (deal_exception_session w id p).1
  deal_exception_session-Removes id p v = elim (Bool-cases (p.conns id).cleanup_started) [
    | inl done ↦ rw (deal_exception_session-done w id p done) (Removes-refl id p v)
    | inr fresh ↦
        removed-Removes id p (deal_exception_session w id p).1
          (deal_exception_session-IsRegistered w id p v) (deal_exception_session_lem w id p v fresh)
          (deal_exception_session-SameQueue w id p)
  ]

  pub put_conn-Removes :
      (id : Text) (c : Conn) (p : Process w)
      → c.user_uid ≡ (p.conns id).user_uid
      → IsRegistered p
      → Removes id p (put_conn id c p)
  put_conn-Removes id c p same v = record {
    registered = record {
      listed = v.listed;
      bound = λ uid other e. ground (arith, text_eq→eq id other, v.bound uid other e, same);
    };
    sessions = λ other differ. refl;
    kept = λ uid other differ e. e;
    only = λ uid other e. e;
    queue = (refl, refl);
  }

  pub send-Removes :
      (id msg : Text) (msg_id : ℕ) (p : Process w)
      → IsRegistered p
      → Removes id p (send w id msg msg_id p).1
  unfolding send
  send-Removes id msg msg_id p v =
      let sent = record (p.conns id) { out = (Session.send (p.conns id).out msg msg_id).0 } in
      let first = put_conn-Removes id sent p refl v in
      elim (Bool-cases (Session.send (p.conns id).out msg msg_id).1) [
        | inl clean ↦ rw (clean) (
            Removes-trans id p (put_conn id sent p) _ first
              (deal_exception_session-Removes id (put_conn id sent p) first.registered))
        | inr whole ↦ rw (whole) first
      ]

  pub notify_offline-Removes :
      (id : Text) (uid : ℤ) (p : Process w)
      → IsRegistered p
      → Removes id p (notify_offline w id uid p).1
  unfolding notify_offline
  notify_offline-Removes id uid p v = send-Removes id _ _ p v
