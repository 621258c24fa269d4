-- ===== src/Chat/Server.antt =====
-- server/services/ChatServer/src/CServer.cpp: the timer's scan of the heartbeats, on_timer, and Stop;
-- of CSession.cpp IsHeartbeatExpired and UpdateHeartbeat. The acceptor and the timer itself belong to
-- Boost.Asio.
pub mod Timer
pub mod Expiry
use xiguchat.Prelude.{ℕ, suc, ◌+◌, ◌-◌, Bool, true, false, ◌||◌, List, [], ◌∷◌, ltb, if◌then◌else◌}
use xiguchat.Prelude.Text.{Text, codes}
use xiguchat.Prelude.Int.{ℤ, pos}
use xiguchat.Prelude.Decimal.{to_string}
use xiguchat.Chat.World.{World}
use xiguchat.Chat.Process.{
  Process, Conn, Action, pure, skip, outside, put_conn, edit_conn, ◌>>=◌, ◌>>◌,
}
use xiguchat.Chat.Redis.{redis_hset}
use xiguchat.Chat.Cleanup.{deal_exception_session, close_conn}

-- HEART_THRESHOLD
abbrev pub heart_threshold : ℕ
heart_threshold = 20

abbrev pub login_count : Text
login_count = codes "logincount"

unfoldable pub is_heartbeat_expired : ℕ → Conn → Bool
is_heartbeat_expired now conn = ltb heart_threshold (now - conn.last_heartbeat)

module _ (w : World) where
  unfoldable pub update_heartbeat : Text → Action w (Unit {0})
  update_heartbeat id = do
    now ← outside (World.time_now w)
    edit_conn id (λ conn. record conn { last_heartbeat = now })

  -- The loop over the copy of the table: the expired sessions, closed, and the number of the others.
  unfoldable pub scan_sessions : ℕ → List Text → Action w (List Text × ℕ)
  unfolding is_heartbeat_expired
  scan_sessions now [] p = (([], 0), p)
  scan_sessions now (id ∷ ids) p =
      let b_expired = is_heartbeat_expired now (p.conns id) in
      let p' = if b_expired then put_conn id (close_conn (p.conns id)) p else p in
      let ((expired, count), q) = scan_sessions now ids p' in
      if b_expired then ((id ∷ expired, count), q) else ((expired, suc count), q)

  unfoldable pub deal_each : List Text → Action w (Unit {0})
  deal_each [] = skip
  deal_each (id ∷ ids) = do deal_exception_session w id; deal_each ids

  unfoldable pub scan_and_report : Action w (Unit {0})
  unfolding scan_sessions deal_each
  scan_and_report p =
      let (now, p1) = outside {w = w} (World.time_now w) p in
      let ((expired, session_count), p2) = scan_sessions now p1.sessions p1 in
      let p3 =
        (redis_hset w login_count (World.self_name w) (to_string (pos session_count)) p2).1 in
      deal_each expired p3

  -- The timer is set again at the end, unless the server has stopped.
  unfoldable pub on_timer : Bool → Action w (Unit {0})
  unfolding scan_and_report
  on_timer ec p = if p.stopped || ec then (tt, p) else scan_and_report p

  unfoldable pub close_and_deal_each : List Text → Action w (Unit {0})
  close_and_deal_each [] = skip
  close_and_deal_each (id ∷ ids) = do
    edit_conn id close_conn
    deal_exception_session w id
    close_and_deal_each ids

  unfoldable pub stop_server : Action w (Unit {0})
  unfolding close_and_deal_each
  stop_server p =
      if p.stopped then (tt, p) else close_and_deal_each p.sessions (record p { stopped = true })
