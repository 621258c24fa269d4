-- ===== src/Chat/Reply.antt =====
-- server/services/ChatServer/src/LogicSystem.cpp: the JSON documents that the handlers build.
use xiguchat.Prelude.{Bool, true, false, List, [], ◌∷◌}
use xiguchat.Prelude.Text.{Text, codes}
use xiguchat.Prelude.Int.{ℤ}
use xiguchat.Chat.Protocol.{ErrorCodes, error_number}
use xiguchat.Chat.Data.{UserInfo, ApplyInfo, ChatThreadInfo}
use xiguchat.Chat.Dao.{Page}
use xiguchat.Chat.World.{
  Doc, int, text, bool, object, array, Fields, none_yet, set_field, Docs, no_docs, then_doc,
}

-- Assignments to members, in the order of the list.
unfoldable pub put_fields : Fields → List (Text × Doc) → Fields
put_fields fields [] = fields
put_fields fields ((key, doc) ∷ rest) = put_fields (set_field fields key doc) rest

abbrev pub thread_item : ChatThreadInfo → Doc
thread_item thread = object (
    set_field
      (set_field
        (set_field
          (set_field
            (set_field (set_field none_yet (codes "thread_id") (int thread.thread_id)) (codes "uid")
              (int thread.peer_uid))
            (codes "name") (text thread.peer_name))
          (codes "nick") (text thread.peer_nick))
        (codes "icon") (text thread.peer_icon))
      (codes "sex") (int thread.peer_sex))

abbrev pub apply_item : ApplyInfo → Doc
apply_item apply = object (
    set_field
      (set_field
        (set_field
          (set_field
            (set_field
              (set_field (set_field none_yet (codes "name") (text apply.name)) (codes "uid")
                (int apply.uid))
              (codes "icon") (text apply.icon))
            (codes "nick") (text apply.nick))
          (codes "sex") (int apply.sex))
        (codes "desc") (text apply.desc))
      (codes "status") (int apply.status))

abbrev pub friend_item : UserInfo → Doc
friend_item user = object (
    set_field
      (set_field
        (set_field
          (set_field
            (set_field
              (set_field (set_field none_yet (codes "name") (text user.name)) (codes "uid")
                (int user.uid))
              (codes "icon") (text user.icon))
            (codes "nick") (text user.nick))
          (codes "sex") (int user.sex))
        (codes "desc") (text user.desc))
      (codes "back") (text user.back))

-- A loop of append.
unfoldable pub append_each : {A : Type 0} → (A → Doc) → Docs → List A → Docs
append_each item docs [] = docs
append_each item docs (x ∷ xs) = append_each item (then_doc docs (item x)) xs

-- A loop that appends to a member, which is there only after the first element.
unfoldable pub append_to_member : {A : Type 0} → (A → Doc) → Text → List A → Fields → Fields
unfolding append_each
append_to_member item key [] fields = fields
append_to_member item key (x ∷ xs) fields =
    set_field fields key (array (append_each item no_docs (x ∷ xs)))

abbrev pub set_error : Fields → ErrorCodes → Fields
set_error fields error = set_field fields (codes "error") (int (error_number error))

-- The members that a reply and the cache of a user share.
abbrev pub user_fields : Fields → ℤ → UserInfo → Fields
user_fields fields uid user =
    set_field
      (set_field
        (set_field
          (set_field
            (set_field
              (set_field (set_field fields (codes "uid") (int uid)) (codes "name") (text user.name))
              (codes "email") (text user.email))
            (codes "nick") (text user.nick))
          (codes "desc") (text user.desc))
        (codes "sex") (int user.sex))
      (codes "icon") (text user.icon)

unfoldable pub thread_fields : Page ChatThreadInfo → Fields → Fields
unfolding append_each
thread_fields (false, threads, more) fields = fields
thread_fields (true, threads, more) fields =
    set_field
      (set_field fields (codes "thread_list") (array (append_each thread_item no_docs threads)))
      (codes "thread_more") (bool more)

unfoldable pub apply_fields : Bool × List ApplyInfo → Fields → Fields
unfolding append_to_member
apply_fields (false, list) fields = fields
apply_fields (true, list) fields = append_to_member apply_item (codes "apply_list") list fields
