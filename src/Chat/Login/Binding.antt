-- ===== src/Chat/Login/Binding.antt =====
-- What LoginHandler leaves of the maps of the process: the user is bound to the session, the
-- earlier session of the user is not, and nothing else changes.
use xiguchat.Prelude.{
  ◌≡◌, ◌≢◌, refl, sym, ap, ◌∙◌, subst, true, false, inl, inr, Option, none, some, arith,
  if◌then◌else◌, Bool-cases, Option-cases,
}
use xiguchat.Prelude.Text.{Text, text_eq, text_eq→eq, text_eq_refl}
use xiguchat.Prelude.Int.{ℤ, eqb_ℤ, eqb_ℤ→eq, eqb_ℤ_refl}
use xiguchat.Chat.World.{World}
use xiguchat.Chat.Process.{Process, SameQueue, put_conn}
use xiguchat.Chat.Redis.{redis_get, redis_set}
use xiguchat.Chat.Registry.{find_user, has_session, get_session, set_user_session, clear_session}
use xiguchat.Chat.Registry.Bindings.{IsRegistered, find_user-assign_user}
use xiguchat.Chat.Cleanup.{notify_offline, ip_key, session_key}
use xiguchat.Chat.Cleanup.Local.{IsOutside, IsOutside-trans, redis_get-IsOutside}
use xiguchat.Chat.Cleanup.Removes.{
  Removes, Removes-trans, IsOutside-IsRegistered, clear_session-Removes, notify_offline-Removes,
}
use xiguchat.Chat.Login.{kick_local, kick, register}

module _ (w : World) where
  pub redis_set-IsOutside :
      (key value : Text) (p : Process w) → IsOutside w p (redis_set w key value p).1
  unfolding redis_set
  redis_set-IsOutside key value p = ground arith

  -- The binding alone, without what goes to Redis.
  abbrev bind : Text → ℤ → Process w → Process w
  bind session uid p =
      (set_user_session uid session
        (put_conn session (record (p.conns session) { user_uid = uid }) p)).1

  bind-IsRegistered :
      (session : Text) (uid : ℤ) (p : Process w)
      → IsRegistered p
      → has_session p.sessions session ≡ true
      → ((u : ℤ) → find_user p.users u ≢ some session)
      → IsRegistered (bind session uid p)
  unfolding set_user_session
  bind-IsRegistered session uid p v valid free = record {
    listed = λ u other e.
        ground (arith, find_user-assign_user p.users uid u session, v.listed u other, valid, e);
    bound = λ u other e. ground (
      arith,
      find_user-assign_user p.users uid u session,
      eqb_ℤ→eq uid u,
      text_eq→eq session other,
      text_eq_refl session,
      v.bound u other,
      free u,
      e,
    );
  }

  kick_local-Removes :
      (uid : ℤ) (old : Text) (p : Process w)
      → IsRegistered p
      → Removes w old p (kick_local w uid (some old) p).1
  unfolding kick_local
  kick_local-Removes uid old p v =
      let told = notify_offline-Removes w old uid p v in
      let q = (notify_offline w old uid p).1 in
      Removes-trans w old p q (clear_session old q).1 told
        (clear_session-Removes w old q told.registered)

  -- After the kick: the session that logs in is still valid and still nobody's, and the other users
  -- keep their sessions.
  record IsKicked (session : Text) (uid : ℤ) (p q : Process w) : Type 0 where
    pub registered : IsRegistered q
    pub valid : has_session q.sessions session ≡ true
    pub free : (u : ℤ) → find_user q.users u ≢ some session
    pub others :
        (u : ℤ) (other : Text)
        → u ≢ uid
        → find_user p.users u ≡ some other
        → find_user q.users u ≡ some other
    pub only :
        (u : ℤ) (other : Text) → find_user q.users u ≡ some other → find_user p.users u ≡ some other
    pub queue : SameQueue p q

  Removes-IsKicked :
      (session old : Text) (uid : ℤ) (p q : Process w)
      → IsRegistered p
      → has_session p.sessions session ≡ true
      → ((u : ℤ) → find_user p.users u ≢ some session)
      → find_user p.users uid ≡ some old
      → Removes w old p q
      → IsKicked session uid p q
  Removes-IsKicked session old uid p q v valid free e r =
      let differ : text_eq old session ≡ false =
        ground (arith, text_eq→eq old session, e, free uid) in
      record {
        registered = r.registered;
        valid = r.sessions session differ ∙ valid;
        free = λ u found. free u (r.only u session found);
        others = λ u other apart found.
            r.kept u other
              (ground (arith, text_eq→eq old other, v.bound u other found, v.bound uid old e))
              found;
        only = r.only;
        queue = r.queue;
      }

  same-IsKicked :
      (session : Text) (uid : ℤ) (p q : Process w)
      → IsOutside w p q
      → IsRegistered p
      → has_session p.sessions session ≡ true
      → ((u : ℤ) → find_user p.users u ≢ some session)
      → IsKicked session uid p q
  same-IsKicked session uid p q e v valid free = subst (IsKicked session uid p) (sym e) (record {
    registered = record { listed = v.listed; bound = v.bound };
    valid = valid;
    free = free;
    others = λ u other apart found. found;
    only = λ u other found. found;
    queue = (refl, refl);
  })

  kick-here :
      (uid : ℤ) (ip : Text) (p : Process w)
      → text_eq ip w.self_name ≡ true
      → kick w uid (some ip) p ≡ kick_local w uid (find_user p.users uid) p
  unfolding kick get_session
  kick-here uid ip p here = rw (here)

  kick-IsKicked :
      (session : Text) (uid : ℤ) (ip : Option Text) (p : Process w)
      → IsRegistered p
      → has_session p.sessions session ≡ true
      → ((u : ℤ) → find_user p.users u ≢ some session)
      → IsKicked session uid p (kick w uid ip p).1
  unfolding kick kick_local
  kick-IsKicked session uid none p v valid free = same-IsKicked session uid p p refl v valid free
  kick-IsKicked session uid (some ip) p v valid free = elim (Bool-cases (text_eq ip w.self_name)) [
    | inr remote ↦ rw (remote) (same-IsKicked session uid p _ refl v valid free)
    | inl here ↦ elim (Option-cases (find_user p.users uid)) [
      | inl absent ↦
          rw (kick-here uid ip p here, absent) (same-IsKicked session uid p p refl v valid free)
      | inr (old, e) ↦
          rw (kick-here uid ip p here, e)
            (Removes-IsKicked session old uid p _ v valid free e (kick_local-Removes uid old p v))
    ]
  ]

  looked_up-IsKicked :
      (session : Text) (uid : ℤ) (ip : Option Text) (p read : Process w)
      → IsOutside w p read
      → IsRegistered p
      → has_session p.sessions session ≡ true
      → ((u : ℤ) → find_user p.users u ≢ some session)
      → IsKicked session uid p (kick w uid ip read).1
  looked_up-IsKicked session uid ip p read e v valid free =
      let same : Process w = record p { world = read.world } in
      let kicked =
        kick-IsKicked session uid ip same (record { listed = v.listed; bound = v.bound }) valid
          free in
      subst (λ (x : Process w). IsKicked session uid p (kick w uid ip x).1) (sym e)
        (record {
          registered = kicked.registered;
          valid = kicked.valid;
          free = kicked.free;
          others = kicked.others;
          only = kicked.only;
          queue = kicked.queue;
        })

  find_user-bind :
      (session : Text) (uid u : ℤ) (p : Process w)
      → find_user (bind session uid p).users u
        ≡ (if eqb_ℤ uid u then some session else find_user p.users u)
  unfolding set_user_session
  find_user-bind session uid u p = find_user-assign_user p.users uid u session

  set_user_session-IsOutside :
      (uid : ℤ) (session : Text) (p q : Process w)
      → IsOutside w p q
      → IsOutside w (set_user_session uid session p).1 (set_user_session uid session q).1
  unfolding set_user_session
  set_user_session-IsOutside uid session p q e =
      ap (λ (x : Process w). (set_user_session uid session x).1) e

  -- What register adds to kick and bind is outside the process.
  register-IsOutside :
      (session : Text) (uid : ℤ) (p : Process w)
      → (let (ip, read) = redis_get w (ip_key uid) p in
          IsOutside w (bind session uid (kick w uid ip read).1) (register w session uid p).1)
  unfolding register
  register-IsOutside session uid p =
      let (ip, read) = redis_get w (ip_key uid) p in
      let k = (kick w uid ip read).1 in
      let edited = put_conn session (record (k.conns session) { user_uid = uid }) k in
      let set_ip = (redis_set w (ip_key uid) w.self_name edited).1 in
      let bound = (set_user_session uid session set_ip).1 in
      IsOutside-trans w (bind session uid k) bound (redis_set w (session_key uid) session bound).1
        (set_user_session-IsOutside uid session edited set_ip
          (redis_set-IsOutside (ip_key uid) w.self_name edited))
        (redis_set-IsOutside (session_key uid) session bound)

  -- LoginHandler's registration of a valid session that is nobody's, whatever Redis answers: the
  -- user is bound to the session, which stays valid; the other users keep their sessions; and every
  -- user's session is in the table of sessions, with the user's uid.
  pub register-IsRegistered :
      (session : Text) (uid : ℤ) (p : Process w)
      → IsRegistered p
      → has_session p.sessions session ≡ true
      → ((u : ℤ) → find_user p.users u ≢ some session)
      → (find_user (register w session uid p).1.users uid ≡ some session)
        × (has_session (register w session uid p).1.sessions session ≡ true)
        × ((u : ℤ) (other : Text)
            → u ≢ uid
            → find_user p.users u ≡ some other
            → find_user (register w session uid p).1.users u ≡ some other)
        × IsRegistered (register w session uid p).1
  unfolding set_user_session
  register-IsRegistered session uid p v valid free =
      let (ip, read) = redis_get w (ip_key uid) p in
      let k = (kick w uid ip read).1 in
      let e = register-IsOutside session uid p in
      let kicked =
        looked_up-IsKicked session uid ip p read (redis_get-IsOutside w (ip_key uid) p) v valid
          free in
      let users =
        λ (u : ℤ). ap (λ (x : Process w). find_user x.users u) e ∙ find_user-bind session uid u k in
      (
        users uid ∙ ground (arith, eqb_ℤ_refl uid),
        ap (λ (x : Process w). has_session x.sessions session) e ∙ kicked.valid,
        λ u other apart found.
            users u ∙ ground (arith, eqb_ℤ→eq uid u, kicked.others u other apart found),
        IsOutside-IsRegistered w (bind session uid k) (register w session uid p).1 e
            (bind-IsRegistered session uid k kicked.registered kicked.valid kicked.free),
      )

  -- No other user gets a session.
  pub register-only :
      (session : Text) (uid : ℤ) (p : Process w)
      → IsRegistered p
      → has_session p.sessions session ≡ true
      → ((u : ℤ) → find_user p.users u ≢ some session)
      → (u : ℤ) (other : Text) → u ≢ uid
      → find_user (register w session uid p).1.users u ≡ some other
      → find_user p.users u ≡ some other
  unfolding set_user_session
  register-only session uid p v valid free u other apart found =
      let (ip, read) = redis_get w (ip_key uid) p in
      let k = (kick w uid ip read).1 in
      let kicked =
        looked_up-IsKicked session uid ip p read (redis_get-IsOutside w (ip_key uid) p) v valid
          free in
      let users =
        ap (λ (x : Process w). find_user x.users u) (register-IsOutside session uid p)
        ∙ find_user-bind session uid u k in
      kicked.only u other (ground (arith, users, found, eqb_ℤ→eq uid u, apart))

  pub register-SameQueue :
      (session : Text) (uid : ℤ) (p : Process w)
      → IsRegistered p
      → has_session p.sessions session ≡ true
      → ((u : ℤ) → find_user p.users u ≢ some session)
      → SameQueue p (register w session uid p).1
  unfolding set_user_session
  register-SameQueue session uid p v valid free =
      let (ip, read) = redis_get w (ip_key uid) p in
      let e = register-IsOutside session uid p in
      let kicked =
        looked_up-IsKicked session uid ip p read (redis_get-IsOutside w (ip_key uid) p) v valid
          free in
      (
        ap (λ (x : Process w). x.msg_que) e ∙ kicked.queue.0,
        ap (λ (x : Process w). x.b_stop) e ∙ kicked.queue.1,
      )
