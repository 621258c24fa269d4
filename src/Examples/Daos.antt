-- ===== src/Examples/Daos.antt =====
-- Runs of the data access layer: a pool that only counts, and a user with three chats.
use xiguchat.Prelude.{none, ℕ, suc, ◌-◌, ◌≡◌, refl, true, false, some, List, [], ◌∷◌, take}
use xiguchat.Prelude.Text.{codes}
use xiguchat.Prelude.Int.{pos}
use xiguchat.Chat.Data.{no_user, ChatThreadInfo}
use xiguchat.Chat.Database.{Database, Query}
use xiguchat.Chat.Dao.{
  get_user, get_user_by_name, add_friend_apply, add_friend, get_apply_list, get_friend_list,
  get_or_create_private_chat, get_chat_threads, get_chat_messages,
}
use xiguchat.Chat.Dao.Balance.{IsQuiet, IsCounted}
use xiguchat.Chat.Dao.Paging.Cursor.{above}
use xiguchat.Chat.Dao.Paging.{IsTable, all_pages, all_pages-rows}
use xiguchat.Chat.Dao.Save.{save_chat_messages}
use xiguchat.Chat.Data.{no_user}
use xiguchat.Chat.Dao.Users.{reg_user, check_email, update_pwd, check_pwd}
use xiguchat.Chat.Dao.Save.Lent.{dao-lent}

abbrev chat : ℕ → ChatThreadInfo
chat n = record {
  thread_id = pos n;
  peer_uid = pos n;
  peer_name = [];
  peer_nick = [];
  peer_icon = [];
  peer_sex = pos 0;
}

abbrev chats : List ChatThreadInfo
chats = chat 2 ∷ chat 3 ∷ chat 7 ∷ []

abbrev done : Query ℕ (Unit {0})
done s = (some tt, s)

-- The state is the number of the connections that are lent.
abbrev counting : Database ℕ
counting = record {
  get_connection = λ s. (true, suc s);
  return_connection = λ healthy s. s - 1;
  start_transaction = done;
  commit = done;
  rollback = done;
  select_user = λ uid s. (some (some (record no_user { uid = uid })), s);
  select_user_by_name = λ name s. (some (some no_user), s);
  insert_apply = λ from to desc back. done;
  select_apply = λ from to s. (some (some (codes "hello", codes "pal")), s);
  confirm_apply = λ from to. done;
  select_apply_list = λ uid begin limit s. (some (record { fetched = []; threw = true }), s);
  insert_friend = λ from to back. done;
  has_friend = λ user1 user2 s. (some true, s);
  select_friends = λ uid s. (some (record { fetched = pos 8 ∷ pos 9 ∷ []; threw = true }), s);
  insert_thread = done;
  last_insert_id = λ s. (some (some (pos 41)), s);
  select_private_chat = λ low high s. (some (some (pos 5)), s);
  insert_private_chat = λ id low high. done;
  touch_thread = λ id. done;
  select_threads = λ uid last limit s.
      (some (record { fetched = take limit (above last chats); threw = false }), s);
  is_thread_of = λ id uid s. (some true, s);
  is_thread_between = λ id a b s. (some true, s);
  select_messages = λ id last limit s. (some (record { fetched = []; threw = false }), s);
  call_reg_user = λ name email pwd s. (some tt, s);
  select_result = λ s. (some none, s);
  select_email = λ name s. (some none, s);
  update_user = λ pwd name s. (some tt, s);
  select_login = λ email s. (some none, s);
  insert_message = λ id sender recv client_id content. done;
}

abbrev quiet : {A : Type 0} (m : Query ℕ A) → ((s : ℕ) → (m s).1 ≡ s) → IsQuiet (λ s. s) m
quiet m h = record { run = h }

counting-IsCounted : IsCounted (λ s. s) counting
counting-IsCounted = record {
  taken = λ s. refl;
  given = λ healthy s. refl;
  start_transaction = quiet _ (λ s. refl);
  commit = quiet _ (λ s. refl);
  rollback = quiet _ (λ s. refl);
  select_user = λ uid. quiet _ (λ s. refl);
  select_user_by_name = λ name. quiet _ (λ s. refl);
  insert_apply = λ from to desc back. quiet _ (λ s. refl);
  select_apply = λ from to. quiet _ (λ s. refl);
  confirm_apply = λ from to. quiet _ (λ s. refl);
  select_apply_list = λ uid begin limit. quiet _ (λ s. refl);
  insert_friend = λ from to back. quiet _ (λ s. refl);
  has_friend = λ user1 user2. quiet _ (λ s. refl);
  select_friends = λ uid. quiet _ (λ s. refl);
  insert_thread = quiet _ (λ s. refl);
  last_insert_id = quiet _ (λ s. refl);
  select_private_chat = λ low high. quiet _ (λ s. refl);
  insert_private_chat = λ id low high. quiet _ (λ s. refl);
  touch_thread = λ id. quiet _ (λ s. refl);
  select_threads = λ uid last limit. quiet _ (λ s. refl);
  is_thread_of = λ id uid. quiet _ (λ s. refl);
  is_thread_between = λ id sender recv. quiet _ (λ s. refl);
  select_messages = λ id last limit. quiet _ (λ s. refl);
  insert_message = λ id sender recv client_id content. quiet _ (λ s. refl);
  call_reg_user = λ name email pwd. quiet _ (λ s. refl);
  select_result = quiet _ (λ s. refl);
  select_email = λ name. quiet _ (λ s. refl);
  update_user = λ pwd name. quiet _ (λ s. refl);
  select_login = λ email. quiet _ (λ s. refl);
}

dao-lent_example :
    ((get_user counting (pos 7) 3).1 ≡ 3)
    × ((get_user_by_name counting (codes "seven") 3).1 ≡ 3)
    × ((add_friend_apply counting (pos 7) (pos 8) (codes "hi") (codes "seven") 3).1 ≡ 3)
    × ((add_friend counting (pos 7) (pos 8) (codes "seven") 3).1 ≡ 3)
    × ((get_apply_list counting (pos 7) 0 10 3).1 ≡ 3)
    × ((get_friend_list counting (pos 7) 3).1 ≡ 3)
    × ((get_or_create_private_chat counting (pos 7) (pos 8) 3).1 ≡ 3)
    × ((get_chat_threads counting (pos 7) (pos 2) 10 3).1 ≡ 3)
    × ((get_chat_messages counting (pos 7) (pos 5) (pos 2) 10 3).1 ≡ 3)
    × ((save_chat_messages counting (pos 7) (pos 8) (pos 5) ((codes "m1", codes "hi") ∷ []) 3).1
        ≡ 3)
    × ((reg_user counting (codes "seven") (codes "hi") (codes "pw") 3).1 ≡ 3)
    × ((check_email counting (codes "seven") (codes "hi") 3).1 ≡ 3)
    × ((update_pwd counting (codes "seven") (codes "pw") 3).1 ≡ 3)
    × ((check_pwd counting (codes "hi") (codes "pw") no_user 3).1 ≡ 3)
dao-lent_example =
    dao-lent (λ s. s) counting counting-IsCounted 3 (pos 7) (pos 8) (pos 5) (pos 2) 10 0
      (codes "seven") (codes "hi") (codes "pw") no_user ((codes "m1", codes "hi") ∷ [])

chats-IsTable : IsTable counting (pos 7) chats
chats-IsTable = record {
  ascending = ((refl, (refl, tt)), ((refl, tt), (tt, tt)));
  connected = λ s. refl;
  selected = λ last limit s. refl;
}

-- Pages of two.
all_pages-rows_example : all_pages counting (pos 7) 2 4 (pos 0) 0 ≡ some chats
all_pages-rows_example =
    all_pages-rows counting (pos 7) 2 chats chats-IsTable 0 (refl, (refl, (refl, tt)))
