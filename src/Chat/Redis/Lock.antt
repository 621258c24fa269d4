-- ===== src/Chat/Redis/Lock.antt =====
-- The loop of DistLock::acquireLock ends: its fuel is enough on a clock that does not run backwards.
use xiguchat.Prelude.{ℕ, zero, suc, ◌+◌, ◌≤◌, ◌≡◌, ◌≢◌, none, arith}
use xiguchat.Prelude.Text.{Text}
use xiguchat.Chat.World.{World, Command, set_nx_ex}
use xiguchat.Chat.Redis.{acquire_loop}

-- What std::chrono documents of the steady clock and of sleep_for, in milliseconds: a reading is the
-- time, no call takes the time back, and a sleep lasts at least as long as asked.
pub record SteadyClock (w : World) : Type 0 where
  pub clock : World.State w → ℕ
  pub reads : (s : World.State w) → (World.steady_now w s).0 ≡ clock s
  pub after_read : (s : World.State w) → clock s ≤ clock (World.steady_now w s).1
  pub after_command : (c : Command) (s : World.State w) → clock s ≤ clock (World.command w c s).1
  pub after_sleep : (k : ℕ) (s : World.State w) → clock s + k ≤ clock (World.sleep_ms w k s)

-- With a unit of fuel for each millisecond up to the end, and one more, the loop of acquireLock never
-- runs out of it, whatever Redis answers: it ends with the lock or at the end time.
pub acquire_loop-ends :
    (w : World) (c : SteadyClock w) (n : ℕ) (key identifier : Text) (timeout end_time : ℕ)
    (s : World.State w)
    → end_time ≤ c.clock s + n
    → (acquire_loop w (suc n) key identifier timeout end_time s).0 ≢ none
unfolding acquire_loop
acquire_loop-ends w c zero key identifier timeout end_time s enough =
    ground (arith, c.reads s, enough)
acquire_loop-ends w c (suc n) key identifier timeout end_time s enough =
    let (now, s') = w.steady_now s in
    let (reply, s'') = w.command (set_nx_ex key identifier timeout) s' in
    let slept = w.sleep_ms 1 s'' in
    let later : end_time ≤ c.clock slept + n = omega (
      arith,
      enough,
      c.after_read s,
      c.after_command (set_nx_ex key identifier timeout) s',
      c.after_sleep 1 s'',
    ) in
    ground (arith, acquire_loop-ends w c n key identifier timeout end_time slept later)
