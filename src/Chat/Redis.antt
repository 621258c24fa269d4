-- ===== src/Chat/Redis.antt =====
-- server/services/ChatServer/src/RedisMgr.cpp and DistLock.cpp: the Redis operations of the
-- process. The connection that each takes from the pool and gives back is not modelled, but that
-- a closed pool hands out none.
pub mod Lock
use xiguchat.Prelude.{
  ℕ, zero, suc, ◌+◌, ◌*◌, Bool, true, false, ◌||◌, Option, none, some, [], ◌++◌, ltb, if◌then◌else◌,
}
use xiguchat.Prelude.Text.{Text, codes, text_eq, is_empty}
use xiguchat.Prelude.Int.{pos, eqb_ℤ}
use xiguchat.Chat.World.{
  World, Command, get, set, del, hset, set_nx_ex, del_if_equal, Reply, string, status, integer,
}
use xiguchat.Chat.Process.{Action, pure, outside}

abbrev pub is_ok : Option Reply → Bool
is_ok (some (status s)) = text_eq s (codes "OK") || text_eq s (codes "ok")
is_ok _ = false

abbrev is_exactly_ok : Option Reply → Bool
is_exactly_ok (some (status s)) = text_eq s (codes "OK")
is_exactly_ok _ = false

abbrev is_integer : Option Reply → Bool
is_integer (some (integer n)) = true
is_integer _ = false

abbrev is_one : Option Reply → Bool
is_one (some (integer n)) = eqb_ℤ n (pos 1)
is_one _ = false

abbrev pub string_of : Option Reply → Option Text
string_of (some (string v)) = some v
string_of _ = none

module _ (w : World) where
  open w use {State, command, new_uuid, steady_now, sleep_ms}

  -- getConnection, then redisCommand: the result `closed` stands for a null connection.
  redis_command : {A : Type 0} → A → Command → (Option Reply → A) → Action w A
  redis_command closed c f p =
      if p.redis_closed then (closed, p) else let (reply, q) = outside (command c) p in (f reply, q)

  unfoldable pub redis_get : Text → Action w (Option Text)
  unfolding redis_command
  redis_get key = redis_command none (get key) string_of

  unfoldable pub redis_set : Text → Text → Action w Bool
  unfolding redis_command
  redis_set key value = redis_command false (set key value) is_ok

  unfoldable pub redis_del : Text → Action w Bool
  unfolding redis_command
  redis_del key = redis_command false (del key) is_integer

  unfoldable pub redis_hset : Text → Text → Text → Action w Bool
  unfolding redis_command
  redis_hset key hkey value = redis_command false (hset key hkey value) is_integer

  -- The loop of DistLock::acquireLock on fuel; none: the fuel ran out.
  unfoldable pub acquire_loop : ℕ → Text → Text → ℕ → ℕ → State → Option Text × State
  acquire_loop zero key identifier timeout end_time s = (none, s)
  acquire_loop (suc fuel) key identifier timeout end_time s =
      let (now, s') = steady_now s in
      let (reply, s'') = command (set_nx_ex key identifier timeout) s' in
      let again = acquire_loop fuel key identifier timeout end_time (sleep_ms 1 s'') in
      if ltb now end_time
      then (if is_exactly_ok reply then (some identifier, s'') else again)
      else (some [], s')

  abbrev obtained : Option Text × State → Text × State
  obtained (none, s) = ([], s)
  obtained (some identifier, s) = (identifier, s)

  -- Each round sleeps a millisecond, so a round for each millisecond of the time allowed and one
  -- more is enough. An empty identifier says that the lock was not obtained in time.
  unfoldable pub acquire_lock : Text → ℕ → ℕ → Action w Text
  unfolding acquire_loop
  acquire_lock lock_name lock_timeout acquire_timeout p =
      if p.redis_closed
      then ([], p)
      else outside
          (λ s.
            let (identifier, s') = new_uuid s in
            let (now, s'') = steady_now s' in
            obtained (
              acquire_loop (suc (1000 * acquire_timeout)) (codes "lock:" ++ lock_name) identifier
                lock_timeout (now + 1000 * acquire_timeout) s''))
          p

  unfoldable pub release_lock : Text → Text → Action w Bool
  unfolding redis_command
  release_lock lock_name identifier =
      if is_empty identifier
      then pure true
      else redis_command false (del_if_equal (codes "lock:" ++ lock_name) identifier) is_one
