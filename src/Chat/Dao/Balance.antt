-- ===== src/Chat/Dao/Balance.antt =====
-- The connections of the pool: every method of the data access layer gives back what it takes.
use xiguchat.Prelude.{
  ℕ, zero, suc, ◌+◌, ◌-◌, ◌≡◌, refl, ◌∙◌, true, false, not, ◌||◌, inl, inr, Bool, Option, none,
  some, List, [], ◌∷◌, arith, if◌then◌else◌, Bool-cases, Option-cases,
}
use xiguchat.Prelude.Text.{Text}
use xiguchat.Prelude.Int.{ℤ, pos, eqb_ℤ, is_positive}
use xiguchat.Chat.Database.{Database, Query}
use xiguchat.Chat.Dao.{
  give, returned, returned_rows, with_connection, with_rows, or_rollback, get_user,
  get_user_by_name, named, add_friend_apply, confirm_friend, add_friend, get_apply_list,
  each_friend, get_friend_list, create_chat, found_chat, friends_chat, chat_body, chat_attempts,
  get_or_create_private_chat, get_chat_threads, messages_of, get_chat_messages, page_limit,
  read_page, friends_of, min_ℤ, max_ℤ, ◌>>=◌,
}

module _ {S : Type 0} (lent : S → ℕ) where
  -- A statement that neither takes a connection nor gives one back.
  pub record IsQuiet {A : Type 0} (m : Query S A) : Type 0 where
    pub run : (s : S) → lent (m s).1 ≡ lent s

  -- What the pool and the statements do with the number of the connections that are lent.
  pub record IsCounted (db : Database S) : Type 0 where
    pub taken :
        (s : S)
        → lent (db.get_connection s).1 ≡ (if (db.get_connection s).0 then suc (lent s) else lent s)
    pub given : (healthy : Bool) (s : S) → lent (db.return_connection healthy s) ≡ lent s - 1
    pub start_transaction : IsQuiet db.start_transaction
    pub commit : IsQuiet db.commit
    pub rollback : IsQuiet db.rollback
    pub select_user : (uid : ℤ) → IsQuiet (db.select_user uid)
    pub select_user_by_name : (name : Text) → IsQuiet (db.select_user_by_name name)
    pub call_reg_user : (name email pwd : Text) → IsQuiet (db.call_reg_user name email pwd)
    pub select_result : IsQuiet db.select_result
    pub select_email : (name : Text) → IsQuiet (db.select_email name)
    pub update_user : (pwd name : Text) → IsQuiet (db.update_user pwd name)
    pub select_login : (email : Text) → IsQuiet (db.select_login email)
    pub insert_apply :
        (from to : ℤ) (desc back : Text) → IsQuiet (db.insert_apply from to desc back)
    pub select_apply : (from to : ℤ) → IsQuiet (db.select_apply from to)
    pub confirm_apply : (from to : ℤ) → IsQuiet (db.confirm_apply from to)
    pub select_apply_list :
        (uid : ℤ) (begin limit : ℕ) → IsQuiet (db.select_apply_list uid begin limit)
    pub insert_friend : (from to : ℤ) (back : Text) → IsQuiet (db.insert_friend from to back)
    pub has_friend : (user1 user2 : ℤ) → IsQuiet (db.has_friend user1 user2)
    pub select_friends : (uid : ℤ) → IsQuiet (db.select_friends uid)
    pub insert_thread : IsQuiet db.insert_thread
    pub last_insert_id : IsQuiet db.last_insert_id
    pub select_private_chat : (low high : ℤ) → IsQuiet (db.select_private_chat low high)
    pub insert_private_chat : (id low high : ℤ) → IsQuiet (db.insert_private_chat id low high)
    pub touch_thread : (id : ℤ) → IsQuiet (db.touch_thread id)
    pub select_threads : (uid last : ℤ) (limit : ℕ) → IsQuiet (db.select_threads uid last limit)
    pub is_thread_of : (id uid : ℤ) → IsQuiet (db.is_thread_of id uid)
    pub is_thread_between : (id sender recv : ℤ) → IsQuiet (db.is_thread_between id sender recv)
    pub select_messages : (id last : ℤ) (limit : ℕ) → IsQuiet (db.select_messages id last limit)
    pub insert_message :
        (id sender recv : ℤ) (client_id content : Text)
        → IsQuiet (db.insert_message id sender recv client_id content)

  pub give-IsQuiet : {A : Type 0} (a : A) → IsQuiet (give a)
  give-IsQuiet a = record { run = λ s. refl }

  pub bind-IsQuiet :
      {A B : Type 0} {m : Query S A} {f : A → Query S B}
      → IsQuiet m
      → ((a : A) → IsQuiet (f a))
      → IsQuiet (m >>= f)
  bind-IsQuiet {m} {f} first next = record {
    run = λ s. elim (Option-cases (m s).0) [
      | inl e ↦ rw (◌>>=◌, e) (first.run s)
      | inr (a, e) ↦ rw (◌>>=◌, e) ((next a).run (m s).1 ∙ first.run s)
    ];
  }

  module _ (db : Database S) (c : IsCounted db) where
    or_rollback-IsQuiet : {A : Type 0} {m : Query S A} → IsQuiet m → IsQuiet (or_rollback db m)
    unfolding or_rollback
    or_rollback-IsQuiet {m} body = record {
      run = λ s. elim (Option-cases (m s).0) [
        | inl e ↦ rw (or_rollback, e) (c.rollback.run (m s).1 ∙ body.run s)
        | inr (a, e) ↦ rw (or_rollback, e) (body.run s)
      ];
    }

    returned-lent :
        {A : Type 0} (failed : A) (r : Option A × S) → lent (returned db failed r).1 ≡ lent r.1 - 1
    unfolding returned
    returned-lent failed (none, s) = c.given false s
    returned-lent failed (some a, s) = c.given true s

    returned_rows-lent :
        {A : Type 0} (failed : A) (r : Option (A × Bool) × S)
        → lent (returned_rows db failed r).1 ≡ lent r.1 - 1
    unfolding returned_rows
    returned_rows-lent failed (none, s) = c.given false s
    returned_rows-lent failed (some (a, threw), s) = c.given (not threw) s

    pub with_connection-lent :
        {A : Type 0} (failed : A) {body : Query S A}
        → IsQuiet body
        → (s : S) → lent (with_connection db failed body s).1 ≡ lent s
    unfolding with_connection
    with_connection-lent failed {body} quiet s =
        let (got, s') = db.get_connection s in
        elim (Bool-cases got) [
          | inl e ↦
              rw (e) (returned-lent failed (body s') ∙ ground (arith, c.taken s, e, quiet.run s'))
          | inr e ↦ rw (e) (ground (arith, c.taken s, e))
        ]

    with_rows-lent :
        {A : Type 0} (failed : A) {body : Query S (A × Bool)}
        → IsQuiet body
        → (s : S) → lent (with_rows db failed body s).1 ≡ lent s
    unfolding with_rows
    with_rows-lent failed {body} quiet s =
        let (got, s') = db.get_connection s in
        elim (Bool-cases got) [
          | inl e ↦
              rw (e)
                (returned_rows-lent failed (body s') ∙ ground (arith, c.taken s, e, quiet.run s'))
          | inr e ↦ rw (e) (ground (arith, c.taken s, e))
        ]

    pub get_user-lent : (uid : ℤ) (s : S) → lent (get_user db uid s).1 ≡ lent s
    unfolding get_user
    get_user-lent uid = with_connection-lent none (c.select_user uid)

    pub get_user_by_name-lent : (name : Text) (s : S) → lent (get_user_by_name db name s).1 ≡ lent s
    unfolding get_user_by_name
    get_user_by_name-lent name =
        with_connection-lent none
          (bind-IsQuiet (c.select_user_by_name name) (λ row. give-IsQuiet (named db name row)))

    pub add_friend_apply-lent :
        (from to : ℤ) (desc back : Text) (s : S)
        → lent (add_friend_apply db from to desc back s).1 ≡ lent s
    unfolding add_friend_apply
    add_friend_apply-lent from to desc back =
        with_connection-lent false
          (bind-IsQuiet (c.insert_apply from to desc back) (λ _. give-IsQuiet true))

    confirm_friend-IsQuiet :
        (from to : ℤ) (back : Text) (apply : Option (Text × Text))
        → IsQuiet (confirm_friend db from to back apply)
    unfolding confirm_friend
    confirm_friend-IsQuiet from to back none = bind-IsQuiet c.rollback (λ _. give-IsQuiet none)
    confirm_friend-IsQuiet from to back (some (desc, reverse_back)) =
        bind-IsQuiet (c.confirm_apply to from) (λ _.
          bind-IsQuiet (c.insert_friend from to back) (λ _.
            bind-IsQuiet (c.insert_friend to from reverse_back)
              (λ _. bind-IsQuiet c.commit (λ _. give-IsQuiet (some desc)))))

    pub add_friend-lent :
        (from to : ℤ) (back : Text) (s : S) → lent (add_friend db from to back s).1 ≡ lent s
    unfolding add_friend
    add_friend-lent from to back = with_connection-lent none (
        or_rollback-IsQuiet (
          bind-IsQuiet c.start_transaction (λ _.
            bind-IsQuiet (c.select_apply to from)
              (λ apply. confirm_friend-IsQuiet from to back apply))))

    pub get_apply_list-lent :
        (uid : ℤ) (begin limit : ℕ) (s : S) → lent (get_apply_list db uid begin limit s).1 ≡ lent s
    unfolding get_apply_list
    get_apply_list-lent uid begin limit =
        with_rows-lent (false, [])
          (bind-IsQuiet (c.select_apply_list uid begin limit) (λ rows. give-IsQuiet _))

    each_friend-lent : (ids : List ℤ) (s : S) → lent (each_friend db ids s).1 ≡ lent s
    unfolding each_friend
    each_friend-lent [] s = refl
    each_friend-lent (id ∷ ids) s = each_friend-lent ids (get_user db id s).1 ∙ get_user-lent id s

    friends_of-IsQuiet : (ids : List ℤ) → IsQuiet (friends_of db ids)
    unfolding friends_of
    friends_of-IsQuiet ids = record { run = λ s. each_friend-lent ids s }

    pub get_friend_list-lent : (uid : ℤ) (s : S) → lent (get_friend_list db uid s).1 ≡ lent s
    unfolding get_friend_list
    get_friend_list-lent uid =
        with_rows-lent (false, [])
          (bind-IsQuiet (c.select_friends uid) (λ rows.
            bind-IsQuiet (friends_of-IsQuiet rows.fetched)
              (λ list. give-IsQuiet ((not rows.threw, list), rows.threw))))

    create_chat-IsQuiet :
        (low high : ℤ) (id_row : Option ℤ) → IsQuiet (create_chat db low high id_row)
    unfolding create_chat
    create_chat-IsQuiet low high none = bind-IsQuiet c.rollback (λ _. give-IsQuiet (pos 0))
    create_chat-IsQuiet low high (some id) =
        bind-IsQuiet (c.insert_private_chat id low high)
          (λ _. bind-IsQuiet c.commit (λ _. give-IsQuiet id))

    found_chat-IsQuiet : (low high : ℤ) (found : Option ℤ) → IsQuiet (found_chat db low high found)
    unfolding found_chat
    found_chat-IsQuiet low high none =
        bind-IsQuiet c.insert_thread
          (λ _. bind-IsQuiet c.last_insert_id (λ id_row. create_chat-IsQuiet low high id_row))
    found_chat-IsQuiet low high (some id) = bind-IsQuiet c.commit (λ _. give-IsQuiet id)

    friends_chat-IsQuiet :
        (low high : ℤ) (friendship : Bool) → IsQuiet (friends_chat db low high friendship)
    unfolding friends_chat
    friends_chat-IsQuiet low high false = bind-IsQuiet c.rollback (λ _. give-IsQuiet (pos 0))
    friends_chat-IsQuiet low high true =
        bind-IsQuiet (c.select_private_chat low high) (λ found. found_chat-IsQuiet low high found)

    chat_body-IsQuiet : (user1 user2 : ℤ) → IsQuiet (chat_body db user1 user2)
    unfolding chat_body
    chat_body-IsQuiet user1 user2 = or_rollback-IsQuiet (
        bind-IsQuiet c.start_transaction (λ _.
          bind-IsQuiet (c.has_friend user1 user2) (λ friendship.
            friends_chat-IsQuiet (min_ℤ user1 user2) (max_ℤ user1 user2) friendship)))

    chat_attempts-lent :
        (attempts : ℕ) (user1 user2 : ℤ) (s : S)
        → lent (chat_attempts db attempts user1 user2 s).1 ≡ lent s
    unfolding chat_attempts
    chat_attempts-lent zero user1 user2 s = refl
    chat_attempts-lent (suc attempts) user1 user2 s =
        let (got, s') = db.get_connection s in
        let (done, s'') = chat_body db user1 user2 s' in
        let quiet = (chat_body-IsQuiet user1 user2).run s' in
        let again = chat_attempts-lent attempts user1 user2 (db.return_connection false s'') in
        elim (Bool-cases got) [
          | inr e ↦ rw (chat_attempts, e) (ground (arith, c.taken s, e))
          | inl e ↦ elim (Option-cases done) [
            | inl e' ↦
                rw (chat_attempts, e, e')
                  (again ∙ ground (arith, c.given false s'', c.taken s, e, quiet))
            | inr (id, e') ↦
                rw (chat_attempts, e, e') (ground (arith, c.given true s'', c.taken s, e, quiet))
          ]
        ]

    pub get_or_create_private_chat-lent :
        (user1 user2 : ℤ) (s : S) → lent (get_or_create_private_chat db user1 user2 s).1 ≡ lent s
    unfolding get_or_create_private_chat
    get_or_create_private_chat-lent user1 user2 s =
        elim (Bool-cases
          (not (is_positive user1) || (not (is_positive user2) || eqb_ℤ user1 user2))) [
            | inl e ↦ rw (e) refl
            | inr e ↦ rw (e) (chat_attempts-lent 2 user1 user2 s)
          ]

    pub get_chat_threads-lent :
        (uid last : ℤ) (limit : ℕ) (s : S) → lent (get_chat_threads db uid last limit s).1 ≡ lent s
    unfolding get_chat_threads
    get_chat_threads-lent uid last limit =
        with_rows-lent (false, [], false)
          (bind-IsQuiet (c.select_threads uid last (page_limit limit + 1))
            (λ rows. give-IsQuiet (read_page (page_limit limit) rows)))

    messages_of-IsQuiet :
        (id last : ℤ) (limit : ℕ) (member : Bool) → IsQuiet (messages_of db id last limit member)
    unfolding messages_of
    messages_of-IsQuiet id last limit false = give-IsQuiet ((false, [], false), false)
    messages_of-IsQuiet id last limit true =
        bind-IsQuiet (c.select_messages id last (limit + 1))
          (λ rows. give-IsQuiet (read_page limit rows))

    pub get_chat_messages-lent :
        (uid id last : ℤ) (limit : ℕ) (s : S)
        → lent (get_chat_messages db uid id last limit s).1 ≡ lent s
    unfolding get_chat_messages
    get_chat_messages-lent uid id last limit =
        with_rows-lent (false, [], false)
          (bind-IsQuiet (c.is_thread_of id uid)
            (λ member. messages_of-IsQuiet id last (page_limit limit) member))
