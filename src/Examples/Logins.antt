-- ===== src/Examples/Logins.antt =====
-- Runs of the maps of a ChatServer process: user 7 is logged in as session "old" and logs in again.
use xiguchat.Prelude.{
  not, ◌&&◌, ℕ, ◌≡◌, ◌≢◌, refl, ◌∙◌, subst, ◌==◌, true, false, Option, none, some, List, [], ◌∷◌,
  ◌++◌, arith, if◌then◌else◌,
}
use xiguchat.Prelude.Text.{Text, codes, text_eq}
use xiguchat.Prelude.Int.{ℤ, pos, eqb_ℤ→eq}
use xiguchat.Prelude.Decimal.{to_string}
use xiguchat.Chat.Session
use xiguchat.Chat.Protocol.{chat_login, user_token_prefix, heart_beat_req}
use xiguchat.Chat.Process.{Process, Conn, LogicNode}
use xiguchat.Chat.Registry.{find_user, has_session}
use xiguchat.Chat.Registry.Bindings.{IsRegistered}
use xiguchat.Chat.Redis.{redis_get}
use xiguchat.Chat.Cleanup.{deal_exception_session}
use xiguchat.Chat.Cleanup.Local.{IsOutside, deal_exception_session_lem}
use xiguchat.Chat.Server.{on_timer, stop_server, is_heartbeat_expired}
use xiguchat.Chat.Server.Timer.{IsLive, stop_server-empties}
use xiguchat.Chat.Server.Expiry.{on_timer-sessions}
use xiguchat.Chat.Logic.{Handler}
use xiguchat.Chat.Logic.Served.{IsDealt, deal_node-IsDealt}
use xiguchat.Chat.Login.{register, login, heart_beat_handler}
use xiguchat.Chat.Login.Binding.{register-IsRegistered}
use xiguchat.Chat.Login.Replaced.{IsTurnedAway, register-replaces}
use xiguchat.Chat.Login.Handler.{IsKept, login-token, login-IsKept}
use xiguchat.Examples.Values.{small_world}

abbrev conn_of : ℤ → Conn
conn_of uid = record {
  user_uid = uid;
  last_heartbeat = 0;
  cleanup_started = false;
  out = Session.initial;
}

abbrev store : List (Text × Text)
store = (codes "utoken_7", codes "t7") ∷ (codes "uip_7", codes "chat1") ∷ []

abbrev pub p : Process small_world
p = record {
  world = record { store = store; clock = 0 };
  redis_closed = false;
  conns = λ id. if text_eq id (codes "old") then conn_of (pos 7) else conn_of (pos 0);
  sessions = codes "old" ∷ codes "new" ∷ [];
  users = (pos 7, codes "old") ∷ [];
  stopped = false;
  msg_que = [];
  b_stop = false;
  p_server = true;
}

only_old :
    (uid : ℤ) (id : Text) → find_user p.users uid ≡ some id → (codes "old" ≡ id) × (pos 7 ≡ uid)
unfolding find_user
only_old uid id e = ground (arith, e, eqb_ℤ→eq (pos 7) uid)

old_listed : has_session p.sessions (codes "old") ≡ true
unfolding has_session text_eq
old_listed = refl

old_bound : (p.conns (codes "old")).user_uid ≡ pos 7
unfolding text_eq
old_bound = refl

pub p-IsRegistered : IsRegistered p
p-IsRegistered = record {
  listed =
      λ uid id e. subst (λ x. has_session p.sessions x ≡ true) (only_old uid id e).0 old_listed;
  bound = λ uid id e.
      subst (λ x. (p.conns x).user_uid ≡ uid) (only_old uid id e).0
        (old_bound ∙ (only_old uid id e).1);
}

old_is_not_new : codes "old" ≢ codes "new"
old_is_not_new e = ground (arith, e)

new-IsFree : (u : ℤ) → find_user p.users u ≢ some (codes "new")
new-IsFree u e = old_is_not_new (only_old u (codes "new") e).0

new_listed : has_session p.sessions (codes "new") ≡ true
unfolding has_session text_eq
new_listed = refl

old_fresh : (p.conns (codes "old")).cleanup_started ≡ false
unfolding text_eq
old_fresh = refl

old_found : find_user p.users (pos 7) ≡ some (codes "old")
unfolding find_user
old_found = refl

token_wrong :
    (redis_get small_world (user_token_prefix ++ to_string (pos 7)) p).0 ≢ some (codes "x")
unfolding redis_get text_eq to_string
token_wrong e = ground (arith, e)

register-IsRegistered_example :
    (find_user (register small_world (codes "new") (pos 7) p).1.users (pos 7) ≡ some (codes "new"))
    × (has_session (register small_world (codes "new") (pos 7) p).1.sessions (codes "new") ≡ true)
    × ((u : ℤ) (other : Text)
        → u ≢ pos 7
        → find_user p.users u ≡ some other
        → find_user (register small_world (codes "new") (pos 7) p).1.users u ≡ some other)
    × IsRegistered (register small_world (codes "new") (pos 7) p).1
register-IsRegistered_example =
    register-IsRegistered small_world (codes "new") (pos 7) p p-IsRegistered new_listed new-IsFree

login-token_example :
    IsOutside small_world p (login small_world (codes "new") (pos 7) (codes "x") p).1
login-token_example = login-token small_world (codes "new") (pos 7) (codes "x") p token_wrong

login-IsKept_example :
    IsKept small_world (pos 7) p (login small_world (codes "new") (pos 7) (codes "t7") p).1
login-IsKept_example =
    login-IsKept small_world (codes "new") (pos 7) (codes "t7") p p-IsRegistered new-IsFree

deal_exception_session_lem_example :
    ((other : Text)
      → has_session (deal_exception_session small_world (codes "old") p).1.sessions other
        ≡ (if text_eq (codes "old") other then false else has_session p.sessions other))
    × ((uid : ℤ)
        → find_user (deal_exception_session small_world (codes "old") p).1.users uid
          ≡ elim (find_user p.users uid) [
            | none ↦ none
            | some found ↦ if text_eq found (codes "old") then none else some found
          ])
deal_exception_session_lem_example =
    deal_exception_session_lem small_world (codes "old") p p-IsRegistered old_fresh

-- The table of callbacks with the heartbeat alone, and a heartbeat of the first session.
abbrev callbacks : ℕ → Option (Handler small_world)
callbacks id = if id == heart_beat_req then some (heart_beat_handler small_world) else none

abbrev pub beat : LogicNode
beat = record {
  session = codes "old";
  recvnode = record {
    node = record { cur_len = 4; total_len = 4; bytes = codes "beat" };
    msg_id = heart_beat_req;
  };
}

not_login : beat.recvnode.msg_id ≢ chat_login
not_login e = omega (arith, e)

register-replaces_example :
    IsTurnedAway small_world callbacks beat (register small_world (codes "new") (pos 7) p).1
register-replaces_example =
    register-replaces small_world (codes "new") (codes "old") (pos 7) p callbacks beat
      p-IsRegistered new_listed new-IsFree old_found refl not_login

deal_node-IsDealt_example : IsDealt small_world callbacks beat p
deal_node-IsDealt_example = deal_node-IsDealt small_world callbacks beat p

p-IsLive : IsLive small_world p
p-IsLive = record { registered = p-IsRegistered; fresh = λ id there. ground arith }

on_timer-sessions_example :
    IsLive small_world (on_timer small_world false p).1
    × ((id : Text)
        → has_session (on_timer small_world false p).1.sessions id
          ≡ (has_session p.sessions id && not (is_heartbeat_expired 0 (p.conns id))))
on_timer-sessions_example = on_timer-sessions small_world p p-IsLive refl

stop_server-empties_example :
    ((id : Text) → has_session (stop_server small_world p).1.sessions id ≡ false)
    × ((uid : ℤ) → find_user (stop_server small_world p).1.users uid ≡ none)
stop_server-empties_example = stop_server-empties small_world p p-IsLive refl
