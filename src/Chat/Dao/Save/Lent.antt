-- ===== src/Chat/Dao/Save/Lent.antt =====
-- SaveChatMessages gives back the connections that it takes, and so does every other method.
use xiguchat.Prelude.{
  ◌-◌, ℕ, ◌≡◌, refl, ◌∙◌, true, false, inl, inr, Bool, Option, none, some, List, [], ◌∷◌, ◌++◌,
  arith, Bool-cases, Option-cases,
}
use xiguchat.Prelude.Text.{Text}
use xiguchat.Prelude.Int.{ℤ, is_positive}
use xiguchat.Chat.Data.{ChatMessageInfo}
use xiguchat.Chat.Data.{UserInfo}
use xiguchat.Chat.Dao.Users.{
  reg_user, check_email, update_pwd, check_pwd, reg_user-lent, check_email-lent, update_pwd-lent,
  check_pwd-lent,
}
use xiguchat.Chat.Database.{Database}
use xiguchat.Chat.Dao.{
  get_user, get_user_by_name, add_friend_apply, add_friend, get_apply_list, get_friend_list,
  get_or_create_private_chat, get_chat_threads, get_chat_messages,
}
use xiguchat.Chat.Dao.Balance.{
  IsQuiet, IsCounted, give-IsQuiet, bind-IsQuiet, get_user-lent, get_user_by_name-lent,
  add_friend_apply-lent, add_friend-lent, get_apply_list-lent, get_friend_list-lent,
  get_or_create_private_chat-lent, get_chat_threads-lent, get_chat_messages-lent,
}
use xiguchat.Chat.Dao.Save.{
  Saving, saved_row, insert_one, insert_each, close_batch, save_batch, saved, save_in, save_in_new,
  save_with_friend, save_chat_messages,
}

module _ {S : Type 0} (lent : S → ℕ) (db : Database S) (c : IsCounted lent db) where
  module _ (sender recv : ℤ) where
    saved_row-IsQuiet :
        (id : ℤ) (client_id content : Text) (id_row : Option ℤ)
        → IsQuiet lent (saved_row db sender recv id client_id content id_row)
    unfolding saved_row
    saved_row-IsQuiet id client_id content none =
        bind-IsQuiet lent c.rollback (λ _. give-IsQuiet lent none)
    saved_row-IsQuiet id client_id content (some row) = give-IsQuiet lent _

    insert_one-IsQuiet :
        (id : ℤ) (client_id content : Text)
        → IsQuiet lent (insert_one db sender recv id client_id content)
    unfolding insert_one
    insert_one-IsQuiet id client_id content =
        bind-IsQuiet lent (c.insert_message id sender recv client_id content) (λ _.
          bind-IsQuiet lent c.last_insert_id (λ row. saved_row-IsQuiet id client_id content row))

    insert_each-lent :
        (id : ℤ) (contents : List (Text × Text)) (messages : List ChatMessageInfo) (s : S)
        → lent (insert_each db sender recv id contents messages s).1 ≡ lent s
    unfolding insert_each
    insert_each-lent id [] messages s = refl
    insert_each-lent id ((client_id, content) ∷ contents) messages s =
        let (o, s') = insert_one db sender recv id client_id content s in
        let quiet = (insert_one-IsQuiet id client_id content).run s in
        elim (Option-cases o) [
          | inl e ↦ rw (insert_each, e) quiet
          | inr (row, e) ↦ elim (Option-cases row) [
            | inl e' ↦ rw (insert_each, e, e') quiet
            | inr (info, e') ↦
                rw (insert_each, e, e')
                  (insert_each-lent id contents (messages ++ info ∷ []) s' ∙ quiet)
          ]
        ]

    close_batch-lent :
        (id : ℤ) (r : Saving × S) → lent (close_batch db sender recv id r).1 ≡ lent r.1
    unfolding close_batch
    close_batch-lent id ((none, messages), s) = refl
    close_batch-lent id ((some false, messages), s) = refl
    close_batch-lent id ((some true, messages), s) =
        (bind-IsQuiet lent (c.touch_thread id)
            (λ _. bind-IsQuiet lent c.commit (λ _. give-IsQuiet lent true))).run
          s

    save_batch-lent :
        (id : ℤ) (contents : List (Text × Text)) (s : S)
        → lent (save_batch db sender recv id contents s).1 ≡ lent s
    unfolding save_batch
    save_batch-lent id contents s =
        let (member, s') = db.is_thread_between id sender recv s in
        let (begun, s'') = db.start_transaction s' in
        let asked = (c.is_thread_between id sender recv).run s in
        let started = c.start_transaction.run s' in
        elim (Option-cases member) [
          | inl e ↦ rw (save_batch, e) asked
          | inr (between, e) ↦ elim (Bool-cases between) [
            | inr b ↦ rw (save_batch, e, b) asked
            | inl b ↦ elim (Option-cases begun) [
              | inl e' ↦ rw (save_batch, e, b, e') (started ∙ asked)
              | inr (_, e') ↦
                  rw (save_batch, e, b, e')
                    (close_batch-lent id (insert_each db sender recv id contents [] s'')
                      ∙ insert_each-lent id contents [] s''
                      ∙ started
                      ∙ asked)
            ]
          ]
        ]

    saved-lent : (r : Saving × S) → lent (saved db sender recv r).1 ≡ lent r.1 - 1
    unfolding saved
    saved-lent ((none, messages), s) =
        ground (arith, c.given false (db.rollback s).1, c.rollback.run s)
    saved-lent ((some ok, messages), s) = c.given true s

    save_in-lent :
        (id : ℤ) (contents : List (Text × Text)) (s : S)
        → lent (save_in db sender recv id contents s).1 ≡ lent s - 1
    unfolding save_in
    save_in-lent id contents s =
        saved-lent (save_batch db sender recv id contents s)
        ∙ ground (arith, save_batch-lent id contents s)

    save_in_new-lent :
        (contents : List (Text × Text)) (s : S)
        → lent (save_in_new db sender recv contents s).1 ≡ lent s
    unfolding save_in_new
    save_in_new-lent contents s =
        let (id, s') = get_or_create_private_chat db sender recv s in
        let (got, s'') = db.get_connection s' in
        let before = get_or_create_private_chat-lent lent db c sender recv s in
        elim (Bool-cases got) [
          | inr b ↦ rw (b) (ground (arith, before, c.taken s', b))
          | inl b ↦ elim (Bool-cases (is_positive id)) [
            | inl known ↦
                rw (b, known) (save_in-lent id contents s'' ∙ ground (arith, before, c.taken s', b))
            | inr absent ↦ rw (b, absent) (ground (arith, before, c.taken s', c.given true s'', b))
          ]
        ]

    save_with_friend-lent :
        (contents : List (Text × Text)) (r : Option Bool × S)
        → lent (save_with_friend db sender recv contents r).1 ≡ lent r.1 - 1
    unfolding save_with_friend
    save_with_friend-lent contents (none, s) = c.given false s
    save_with_friend-lent contents (some false, s) = c.given true s
    save_with_friend-lent contents (some true, s) =
        save_in_new-lent contents (db.return_connection true s) ∙ c.given true s

    save_chat_messages-lent :
        (id : ℤ) (contents : List (Text × Text)) (s : S)
        → lent (save_chat_messages db sender recv id contents s).1 ≡ lent s
    unfolding save_chat_messages
    save_chat_messages-lent id [] s = refl
    save_chat_messages-lent id (content ∷ contents) s =
        let (got, s') = db.get_connection s in
        elim (Bool-cases got) [
          | inr b ↦ rw (b) (ground (arith, c.taken s, b))
          | inl b ↦ elim (Bool-cases (is_positive id)) [
            | inl known ↦
                rw (b, known)
                  (save_in-lent id (content ∷ contents) s' ∙ ground (arith, c.taken s, b))
            | inr absent ↦
                rw (b, absent)
                  (save_with_friend-lent (content ∷ contents) (db.has_friend sender recv s')
                    ∙ ground (arith, c.taken s, b, (c.has_friend sender recv).run s'))
          ]
        ]

  -- Each of the fourteen methods of MysqlDao, on every path (no connection, no row, a statement that
  -- throws, a transaction that is rolled back, a second attempt), gives back each connection that it
  -- has taken from the pool and no other: if getConnection and returnConnection are the only calls
  -- that change the number of connections that are lent, no method changes it.
  pub dao-lent :
      (s : S) (uid other id last : ℤ) (limit begin : ℕ) (name desc pwd : Text) (info : UserInfo)
      (contents : List (Text × Text))
      → (lent (get_user db uid s).1 ≡ lent s)
        × (lent (get_user_by_name db name s).1 ≡ lent s)
        × (lent (add_friend_apply db uid other desc name s).1 ≡ lent s)
        × (lent (add_friend db uid other name s).1 ≡ lent s)
        × (lent (get_apply_list db uid begin limit s).1 ≡ lent s)
        × (lent (get_friend_list db uid s).1 ≡ lent s)
        × (lent (get_or_create_private_chat db uid other s).1 ≡ lent s)
        × (lent (get_chat_threads db uid last limit s).1 ≡ lent s)
        × (lent (get_chat_messages db uid id last limit s).1 ≡ lent s)
        × (lent (save_chat_messages db uid other id contents s).1 ≡ lent s)
        × (lent (reg_user db name desc pwd s).1 ≡ lent s)
        × (lent (check_email db name desc s).1 ≡ lent s)
        × (lent (update_pwd db name pwd s).1 ≡ lent s)
        × (lent (check_pwd db desc pwd info s).1 ≡ lent s)
  dao-lent s uid other id last limit begin name desc pwd info contents = (
    get_user-lent lent db c uid s,
    get_user_by_name-lent lent db c name s,
    add_friend_apply-lent lent db c uid other desc name s,
    add_friend-lent lent db c uid other name s,
    get_apply_list-lent lent db c uid begin limit s,
    get_friend_list-lent lent db c uid s,
    get_or_create_private_chat-lent lent db c uid other s,
    get_chat_threads-lent lent db c uid last limit s,
    get_chat_messages-lent lent db c uid id last limit s,
    save_chat_messages-lent uid other id contents s,
    reg_user-lent lent db c name desc pwd s,
    check_email-lent lent db c name desc s,
    update_pwd-lent lent db c name pwd s,
    check_pwd-lent lent db c desc pwd info s,
  )
