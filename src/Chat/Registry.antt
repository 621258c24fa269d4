-- ===== src/Chat/Registry.antt =====
-- server/services/ChatServer/src/UserMgr.cpp, and the session table of CServer.cpp: GetSession,
-- SetUserSession, RmvUserSession, ClearSession, CheckValid and HandleAccept.
pub mod Bindings
use xiguchat.Prelude.{ℕ, Bool, true, false, Option, none, some, List, [], ◌∷◌, ◌++◌, if◌then◌else◌}
use xiguchat.Prelude.Text.{Text, text_eq}
use xiguchat.Prelude.Int.{ℤ, pos, eqb_ℤ}
use xiguchat.Chat.World.{World}
use xiguchat.Chat.Process.{Process, Conn, Action, put_conn}

-- std::unordered_map<int, shared_ptr<CSession>>
unfoldable pub find_user : List (ℤ × Text) → ℤ → Option Text
find_user [] uid = none
find_user ((key, id) ∷ users) uid = if eqb_ℤ key uid then some id else find_user users uid

unfoldable pub erase_user : List (ℤ × Text) → ℤ → List (ℤ × Text)
erase_user [] uid = []
erase_user ((key, id) ∷ users) uid =
    let rest = erase_user users uid in if eqb_ℤ key uid then rest else (key, id) ∷ rest

unfoldable pub assign_user : List (ℤ × Text) → ℤ → Text → List (ℤ × Text)
unfolding erase_user
assign_user users uid id = (uid, id) ∷ erase_user users uid

-- The keys of std::map<string, shared_ptr<CSession>> _sessions.
unfoldable pub has_session : List Text → Text → Bool
has_session [] id = false
has_session (key ∷ keys) id = if text_eq key id then true else has_session keys id

unfoldable pub erase_session : List Text → Text → List Text
erase_session [] id = []
erase_session (key ∷ keys) id =
    let rest = erase_session keys id in if text_eq key id then rest else key ∷ rest

-- Only if the user's session is still the given one.
removed : List (ℤ × Text) → ℤ → Text → Option Text → List (ℤ × Text)
removed users uid session_id none = users
removed users uid session_id (some id) =
    if text_eq id session_id then erase_user users uid else users

module _ {w : World} where
  -- UserMgr
  unfoldable pub get_session : ℤ → Action w (Option Text)
  get_session uid p = (find_user p.users uid, p)

  unfoldable pub set_user_session : ℤ → Text → Action w (Unit {0})
  set_user_session uid id p = (tt, record p { users = assign_user p.users uid id })

  unfoldable pub rmv_user_session : ℤ → Text → Action w (Unit {0})
  unfolding removed
  rmv_user_session uid session_id p =
      (tt, record p { users = removed p.users uid session_id (find_user p.users uid) })

  -- CServer
  unfoldable pub check_valid : Text → Action w Bool
  check_valid id p = (has_session p.sessions id, p)

  unfoldable pub clear_session : Text → Action w (Unit {0})
  unfolding rmv_user_session
  clear_session id p =
      let unbound = (rmv_user_session (p.conns id).user_uid id p).1 in
      let known = if has_session p.sessions id then unbound else p in
      (tt, record known { sessions = erase_session p.sessions id })

  -- The table's part of HandleAccept: a new session object, unless the accept failed.
  unfoldable pub handle_accept : Text → Conn → Bool → Action w (Unit {0})
  handle_accept id new_session error p = if error then (tt, p) else (
    tt,
    put_conn id new_session (record p {
      sessions = if has_session p.sessions id then p.sessions else p.sessions ++ id ∷ [];
    }),
  )
