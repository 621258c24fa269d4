-- ===== src/Examples/Locks.antt =====
-- A run of the user lock.
use xiguchat.Prelude.{◌≤◌, ◌≢◌, refl, none, [], arith}
use xiguchat.Prelude.Text.{codes}
use xiguchat.Chat.World.{Command, get, set, del, hset, set_nx_ex, del_if_equal}
use xiguchat.Chat.Redis.{acquire_loop}
use xiguchat.Chat.Redis.Lock.{SteadyClock, acquire_loop-ends}
use xiguchat.Examples.Values.{small_world, Outside}

same_clock : (c : Command) (s : Outside) → s.clock ≤ (small_world.command c s).1.clock
same_clock (get key) s = omega arith
same_clock (set key v) s = omega arith
same_clock (del key) s = omega arith
same_clock (hset key field v) s = omega arith
same_clock (set_nx_ex key v seconds) s = omega arith
same_clock (del_if_equal key v) s = omega arith

small_clock : SteadyClock small_world
small_clock = record {
  clock = λ s. s.clock;
  reads = λ s. refl;
  after_read = λ s. omega arith;
  after_command = same_clock;
  after_sleep = λ k s. omega arith;
}

acquire_loop-ends_example :
    (acquire_loop small_world 6
      (codes "lock:lock_7")
      (codes "uuid")
      10
      5
      (record { store = []; clock = 0 })).0
    ≢ none
acquire_loop-ends_example =
    acquire_loop-ends small_world small_clock 5 (codes "lock:lock_7") (codes "uuid") 10 5
      (record { store = []; clock = 0 }) (omega arith)
