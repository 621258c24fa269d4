-- ===== src/Chat/Login/Handler.antt =====
-- LoginHandler as a whole: who is let in, and what every outcome keeps.
use xiguchat.Prelude.{
  ◌≡◌, ◌≢◌, refl, sym, ◌∙◌, subst, true, not, ◌||◌, inl, inr, Option, none, some, ◌++◌, arith,
  Bool-cases, Option-cases,
}
use xiguchat.Prelude.Text.{Text, text_eq, text_eq→eq, is_empty}
use xiguchat.Prelude.Int.{ℤ, pos}
use xiguchat.Prelude.Decimal.{to_string}
use xiguchat.Chat.Protocol.{user_token_prefix, user_base_info}
use xiguchat.Chat.Data.{UserInfo}
use xiguchat.Chat.Dao.{get_user, get_chat_threads, get_apply_list, get_friend_list}
use xiguchat.Chat.World.{World, Fields}
use xiguchat.Chat.Process.{Process, SameQueue, Action, outside}
use xiguchat.Chat.Redis.{redis_get, acquire_lock, release_lock}
use xiguchat.Chat.Registry.{find_user, has_session}
use xiguchat.Chat.Registry.Bindings.{IsRegistered}
use xiguchat.Chat.Cleanup.{lock_time_out, acquire_time_out, lock_key}
use xiguchat.Chat.Cleanup.Local.{
  IsOutside, IsOutside-trans, redis_get-IsOutside, acquire_lock-IsOutside, release_lock-IsOutside,
}
use xiguchat.Chat.Login.Binding.{
  redis_set-IsOutside, register-IsRegistered, register-only, register-SameQueue,
}
use xiguchat.Chat.Login.{
  cache_user, base_info, get_base_info, register_if_valid, with_lock, logged_in, check_token, login,
}

module _ (w : World) where
  -- A login whose token is not the one that Redis holds for the uid changes nothing in the process:
  -- it binds no session and takes none from another user.
  pub login-token :
      (session : Text) (uid : ℤ) (token : Text) (p : Process w)
      → (redis_get w (user_token_prefix ++ to_string uid) p).0 ≢ some token
      → IsOutside w p (login w session uid token p).1
  unfolding login check_token
  login-token session uid token p wrong =
      let key = user_token_prefix ++ to_string uid in
      elim (Bool-cases (p.conns session).out.closed) [
        | inl closed ↦ rw (closed)
        | inr opened ↦ elim (Option-cases (redis_get w key p).0) [
          | inl absent ↦ rw (opened, absent) (redis_get-IsOutside w key p)
          | inr (value, e) ↦ elim (Bool-cases (text_eq value token)) [
            | inl same ↦ ground (arith, text_eq→eq value token, e)
            | inr differ ↦ rw (opened, e, differ) (redis_get-IsOutside w key p)
          ]
        ]
      ]

  cache_user-IsOutside :
      (key : Text) (uid : ℤ) (user : Option UserInfo) (p : Process w)
      → IsOutside w p (cache_user w key uid user p).1
  unfolding cache_user
  cache_user-IsOutside key uid none p = refl
  cache_user-IsOutside key uid (some user) p = redis_set-IsOutside w key _ p

  base_info-IsOutside :
      (key : Text) (uid : ℤ) (info : Option Text) (p : Process w)
      → IsOutside w p (base_info w key uid info p).1
  unfolding base_info
  base_info-IsOutside key uid (some info) p = refl
  base_info-IsOutside key uid none p =
      let (found, s) = get_user w.db uid p.world in
      let q = record p { world = s } in
      IsOutside-trans w p q (cache_user w key uid found q).1 refl
        (cache_user-IsOutside key uid found q)

  pub get_base_info-IsOutside :
      (key : Text) (uid : ℤ) (p : Process w) → IsOutside w p (get_base_info w key uid p).1
  unfolding get_base_info
  get_base_info-IsOutside key uid p =
      let (info, q) = redis_get w key p in
      IsOutside-trans w p q (base_info w key uid info q).1 (redis_get-IsOutside w key p)
        (base_info-IsOutside key uid info q)

  -- The session that logs in is nobody's yet.
  abbrev IsFree : Text → Process w → Type 0
  IsFree session p = (u : ℤ) → find_user p.users u ≢ some session

  -- What every outcome of a login of the user keeps.
  pub record IsKept (uid : ℤ) (p q : Process w) : Type 0 where
    pub registered : IsRegistered q
    pub others :
        (u : ℤ) (other : Text)
        → u ≢ uid
        → find_user p.users u ≡ some other
        → find_user q.users u ≡ some other
    pub only :
        (u : ℤ) (other : Text)
        → u ≢ uid
        → find_user q.users u ≡ some other
        → find_user p.users u ≡ some other
    pub queue : SameQueue p q

  outside-IsKept : (uid : ℤ) (p q : Process w) → IsOutside w p q → IsRegistered p → IsKept uid p q
  outside-IsKept uid p q e v = subst (IsKept uid p) (sym e) (record {
    registered = record { listed = v.listed; bound = v.bound };
    others = λ u other apart found. found;
    only = λ u other apart found. found;
    queue = (refl, refl);
  })

  IsKept-outside : (uid : ℤ) (p q r : Process w) → IsKept uid p q → IsOutside w q r → IsKept uid p r
  IsKept-outside uid p q r k e =
      let after = outside-IsKept uid q r e k.registered in
      record {
        registered = after.registered;
        others = λ u other apart found. after.others u other apart (k.others u other apart found);
        only = λ u other apart found. k.only u other apart (after.only u other apart found);
        queue = (after.queue.0 ∙ k.queue.0, after.queue.1 ∙ k.queue.1);
      }

  -- An action that keeps, on every registered process in which the session is free.
  abbrev Keeps : {A : Type 0} → Text → ℤ → Action w A → Type 0
  Keeps session uid m = (p : Process w) → IsRegistered p → IsFree session p → IsKept uid p (m p).1

  register_if_valid-Keeps :
      (session : Text) (uid : ℤ) (reply : Fields)
      → Keeps session uid (register_if_valid w session uid reply)
  unfolding register_if_valid
  register_if_valid-Keeps session uid reply p v free =
      elim (Bool-cases ((p.conns session).out.closed || not (has_session p.sessions session))) [
        | inl gone ↦ rw (gone) (outside-IsKept uid p p refl v)
        | inr there ↦
            let valid : has_session p.sessions session ≡ true = ground (arith, there) in
            let (bound, still, others, registered) =
              register-IsRegistered w session uid p v valid free in
            rw (there) (record {
              registered = registered;
              others = others;
              only = register-only w session uid p v valid free;
              queue = register-SameQueue w session uid p v valid free;
            })
      ]

  after_outside :
      (session : Text) (uid : ℤ) {A : Type 0} (m : Action w A) (p q : Process w)
      → Keeps session uid m
      → IsRegistered p
      → IsFree session p
      → IsOutside w p q
      → IsKept uid p (m q).1
  after_outside session uid m p q keeps v free e =
      let same : Process w = record p { world = q.world } in
      let kept = keeps same (record { listed = v.listed; bound = v.bound }) free in
      subst (λ (x : Process w). IsKept uid p (m x).1) (sym e)
        (record {
          registered = kept.registered;
          others = kept.others;
          only = kept.only;
          queue = kept.queue;
        })

  with_lock-Keeps :
      (session : Text) (uid : ℤ) (reply : Fields) (identifier : Text)
      → Keeps session uid (with_lock w session uid reply identifier)
  unfolding with_lock
  with_lock-Keeps session uid reply identifier p v free = elim (Bool-cases (is_empty identifier)) [
    | inl none_got ↦ rw (none_got) (outside-IsKept uid p p refl v)
    | inr got ↦
        let (rtvalue, q) = register_if_valid w session uid reply p in
        rw (got) (
          IsKept-outside uid p q (release_lock w (lock_key uid) identifier q).1
            (register_if_valid-Keeps session uid reply p v free)
            (release_lock-IsOutside w (lock_key uid) identifier q))
  ]

  logged_in-Keeps :
      (session : Text) (uid : ℤ) (user : Option UserInfo)
      → Keeps session uid (logged_in w session uid user)
  unfolding logged_in
  logged_in-Keeps session uid none p v free = outside-IsKept uid p p refl v
  logged_in-Keeps session uid (some user) p v free =
      let q =
        (outside {w = w} (get_friend_list w.db uid)
          (outside {w = w} (get_apply_list w.db uid 0 10)
            (outside {w = w} (get_chat_threads w.db uid (pos 0) 100) p).1).1).1 in
      let (identifier, r) = acquire_lock w (lock_key uid) lock_time_out acquire_time_out q in
      after_outside session uid (λ x. with_lock w session uid _ identifier x) p r
        (with_lock-Keeps session uid _ identifier) v free
        (IsOutside-trans w p q r refl
          (acquire_lock-IsOutside w (lock_key uid) lock_time_out acquire_time_out q))

  check_token-Keeps :
      (session : Text) (uid : ℤ) (token : Text) (found : Option Text)
      → Keeps session uid (check_token w session uid token found)
  unfolding check_token
  check_token-Keeps session uid token none p v free = outside-IsKept uid p p refl v
  check_token-Keeps session uid token (some value) p v free =
      elim (Bool-cases (text_eq value token)) [
        | inr differ ↦ rw (differ) (outside-IsKept uid p p refl v)
        | inl same ↦
            let key = user_base_info ++ to_string uid in
            let (user, q) = get_base_info w key uid p in
            rw (same) (
              after_outside session uid (logged_in w session uid user) p q
                (logged_in-Keeps session uid user) v free (get_base_info-IsOutside key uid p))
      ]

  -- Every outcome of a login on a session that is nobody's, whatever Redis, the database and the
  -- user's lock answer: the other users keep their sessions and get no other, and every user's
  -- session is in the table of sessions, with the user's uid.
  pub login-IsKept :
      (session : Text) (uid : ℤ) (token : Text) (p : Process w)
      → IsRegistered p
      → ((u : ℤ) → find_user p.users u ≢ some session)
      → IsKept uid p (login w session uid token p).1
  unfolding login
  login-IsKept session uid token p v free = elim (Bool-cases (p.conns session).out.closed) [
    | inl closed ↦ rw (closed) (outside-IsKept uid p p refl v)
    | inr opened ↦
        let key = user_token_prefix ++ to_string uid in
        let (value, q) = redis_get w key p in
        rw (opened) (
          after_outside session uid (check_token w session uid token value) p q
            (check_token-Keeps session uid token value) v free (redis_get-IsOutside w key p))
  ]
