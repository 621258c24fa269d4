-- ===== src/Chat/Dao/Save/Saved.antt =====
-- What SaveChatMessages puts into its out parameter.
use xiguchat.Prelude.{
  ◌≡◌, refl, sym, ap, ◌∙◌, subst, true, false, inl, inr, Bool, Option, none, some, List, [], ◌∷◌,
  ◌++◌, All, Bool-cases, Option-cases,
}
use xiguchat.Prelude.Text.{Text}
use xiguchat.Prelude.Int.{ℤ, is_positive}
use xiguchat.Chat.Data.{ChatMessageInfo}
use xiguchat.Chat.Database.{Database}
use xiguchat.Chat.Dao.{get_or_create_private_chat}
use xiguchat.Chat.Dao.Save.{
  Saving, saved_row, insert_one, insert_each, close_batch, save_batch, saved, save_in, save_in_new,
  save_with_friend, save_chat_messages,
}

-- All messages are of one thread.
abbrev pub IsOfThread : ℤ → List ChatMessageInfo → Type 0
IsOfThread thread_id messages = All (λ message. message.thread_id ≡ thread_id) messages

-- Of some thread.
abbrev pub IsOfOneThread : List ChatMessageInfo → Type 0
IsOfOneThread messages = (thread_id : ℤ) × IsOfThread thread_id messages

IsOfThread-append :
    (thread_id : ℤ) (messages : List ChatMessageInfo) (info : ChatMessageInfo)
    → IsOfThread thread_id messages
    → info.thread_id ≡ thread_id
    → IsOfThread thread_id (messages ++ info ∷ [])
IsOfThread-append thread_id [] info tt e = (e, tt)
IsOfThread-append thread_id (message ∷ messages) info (here, rest) e =
    (here, IsOfThread-append thread_id messages info rest e)

module _ {S : Type 0} (db : Database S) (sender_id recv_id : ℤ) where
  -- A message that was pushed is of the thread.
  abbrev Pushed : ℤ → Option (Option ChatMessageInfo) → Type 0
  Pushed thread_id (some (some info)) = info.thread_id ≡ thread_id
  Pushed thread_id _ = Unit

  saved_row-Pushed :
      (thread_id : ℤ) (client_id content : Text) (id_row : Option ℤ) (s : S)
      → Pushed thread_id (saved_row db sender_id recv_id thread_id client_id content id_row s).0
  unfolding saved_row
  saved_row-Pushed thread_id client_id content none s = elim (Option-cases (db.rollback s).0) [
    | inl e ↦ rw (Pushed, saved_row, e) tt
    | inr (_, e) ↦ rw (Pushed, saved_row, e) tt
  ]
  saved_row-Pushed thread_id client_id content (some id) s = refl

  insert_one-Pushed :
      (thread_id : ℤ) (client_id content : Text) (s : S)
      → Pushed thread_id (insert_one db sender_id recv_id thread_id client_id content s).0
  unfolding insert_one
  insert_one-Pushed thread_id client_id content s =
      let (inserted, s') = db.insert_message thread_id sender_id recv_id client_id content s in
      let (id_row, s'') = db.last_insert_id s' in
      elim (Option-cases inserted) [
        | inl e ↦ rw (Pushed, insert_one, e) tt
        | inr (_, e) ↦ elim (Option-cases id_row) [
          | inl e' ↦ rw (Pushed, insert_one, e, e') tt
          | inr (row, e') ↦
              rw (Pushed, insert_one, e, e') (saved_row-Pushed thread_id client_id content row s'')
        ]
      ]

  insert_each-IsOfThread :
      (thread_id : ℤ) (contents : List (Text × Text)) (messages : List ChatMessageInfo) (s : S)
      → IsOfThread thread_id messages
      → IsOfThread thread_id (insert_each db sender_id recv_id thread_id contents messages s).0.1
  unfolding insert_each
  insert_each-IsOfThread thread_id [] messages s all = all
  insert_each-IsOfThread thread_id ((client_id, content) ∷ contents) messages s all =
      let (o, s') = insert_one db sender_id recv_id thread_id client_id content s in
      let pushed = insert_one-Pushed thread_id client_id content s in
      elim (Option-cases o) [
        | inl e ↦ rw (insert_each, e) all
        | inr (row, e) ↦ elim (Option-cases row) [
          | inl e' ↦ rw (insert_each, e, e') all
          | inr (info, e') ↦
              let of_thread : info.thread_id ≡ thread_id =
                subst (Pushed thread_id) (e ∙ ap some e') pushed in
              rw (insert_each, e, e')
                (insert_each-IsOfThread thread_id contents (messages ++ info ∷ []) s'
                  (IsOfThread-append thread_id messages info all of_thread))
        ]
      ]

  close_batch-messages :
      (thread_id : ℤ) (r : Saving × S) → (close_batch db sender_id recv_id thread_id r).0.1 ≡ r.0.1
  unfolding close_batch
  close_batch-messages thread_id ((none, messages), s) = refl
  close_batch-messages thread_id ((some false, messages), s) = refl
  close_batch-messages thread_id ((some true, messages), s) = refl

  save_batch-IsOfThread :
      (thread_id : ℤ) (contents : List (Text × Text)) (s : S)
      → IsOfThread thread_id (save_batch db sender_id recv_id thread_id contents s).0.1
  unfolding save_batch
  save_batch-IsOfThread thread_id contents s =
      let (member, s') = db.is_thread_between thread_id sender_id recv_id s in
      let (begun, s'') = db.start_transaction s' in
      elim (Option-cases member) [
        | inl e ↦ rw (save_batch, e) tt
        | inr (between, e) ↦ elim (Bool-cases between) [
          | inr b ↦ rw (save_batch, e, b) tt
          | inl b ↦ elim (Option-cases begun) [
            | inl e' ↦ rw (save_batch, e, b, e') tt
            | inr (_, e') ↦
                rw (save_batch, e, b, e')
                  (subst (IsOfThread thread_id) (sym (close_batch-messages thread_id _))
                    (insert_each-IsOfThread thread_id contents [] s'' tt))
          ]
        ]
      ]

  saved-messages : (r : Saving × S) → (saved db sender_id recv_id r).0.1 ≡ r.0.1
  unfolding saved
  saved-messages ((none, messages), s) = refl
  saved-messages ((some ok, messages), s) = refl

  save_in-IsOfThread :
      (thread_id : ℤ) (contents : List (Text × Text)) (s : S)
      → IsOfThread thread_id (save_in db sender_id recv_id thread_id contents s).0.1
  unfolding save_in
  save_in-IsOfThread thread_id contents s =
      subst (IsOfThread thread_id)
        (sym (saved-messages (save_batch db sender_id recv_id thread_id contents s)))
        (save_batch-IsOfThread thread_id contents s)

  save_in_new-IsOfOneThread :
      (contents : List (Text × Text)) (s : S)
      → IsOfOneThread (save_in_new db sender_id recv_id contents s).0.1
  unfolding save_in_new
  save_in_new-IsOfOneThread contents s =
      let (thread_id, s') = get_or_create_private_chat db sender_id recv_id s in
      let (got, s'') = db.get_connection s' in
      elim (Bool-cases got) [
        | inr b ↦ rw (b) (thread_id, tt)
        | inl b ↦ elim (Bool-cases (is_positive thread_id)) [
          | inl known ↦ rw (b, known) (thread_id, save_in-IsOfThread thread_id contents s'')
          | inr absent ↦ rw (b, absent) (thread_id, tt)
        ]
      ]

  save_with_friend-IsOfOneThread :
      (thread_id : ℤ) (contents : List (Text × Text)) (r : Option Bool × S)
      → IsOfOneThread (save_with_friend db sender_id recv_id contents r).0.1
  unfolding save_with_friend
  save_with_friend-IsOfOneThread thread_id contents (none, s) = (thread_id, tt)
  save_with_friend-IsOfOneThread thread_id contents (some false, s) = (thread_id, tt)
  save_with_friend-IsOfOneThread thread_id contents (some true, s) =
      save_in_new-IsOfOneThread contents (db.return_connection true s)

  pub save_chat_messages-IsOfOneThread :
      (thread_id : ℤ) (contents : List (Text × Text)) (s : S)
      → IsOfOneThread (save_chat_messages db sender_id recv_id thread_id contents s).0.1
  unfolding save_chat_messages
  save_chat_messages-IsOfOneThread thread_id [] s = (thread_id, tt)
  save_chat_messages-IsOfOneThread thread_id (content ∷ contents) s =
      let (got, s') = db.get_connection s in
      elim (Bool-cases got) [
        | inr b ↦ rw (b) (thread_id, tt)
        | inl b ↦ elim (Bool-cases (is_positive thread_id)) [
          | inl known ↦
              rw (b, known) (thread_id, save_in-IsOfThread thread_id (content ∷ contents) s')
          | inr absent ↦
              rw (b, absent)
                (save_with_friend-IsOfOneThread thread_id (content ∷ contents)
                  (db.has_friend sender_id recv_id s'))
        ]
      ]
