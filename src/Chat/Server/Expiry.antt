-- ===== src/Chat/Server/Expiry.antt =====
-- Which sessions the timer's scan ends, and the number that it reports.
use xiguchat.Prelude.{
  ℕ, ◌+◌, ◌≡◌, refl, sym, ap, ◌∙◌, subst, false, not, ◌&&◌, inl, inr, List, [], ◌∷◌, arith,
  Bool-cases, length,
}
use xiguchat.Prelude.Text.{Text, text_eq→eq}
use xiguchat.Prelude.Int.{pos}
use xiguchat.Prelude.Decimal.{to_string}
use xiguchat.Chat.World.{World}
use xiguchat.Chat.Process.{Process, put_conn}
use xiguchat.Chat.Redis.{redis_hset}
use xiguchat.Chat.Registry.{has_session}
use xiguchat.Chat.Cleanup.{close_conn}
use xiguchat.Chat.Cleanup.Local.{IsOutside}
use xiguchat.Chat.Server.{
  is_heartbeat_expired, scan_sessions, scan_and_report, on_timer, login_count,
}
use xiguchat.Chat.Server.Timer.{IsLive, close-IsLive, deal_each_lem}

module _ (w : World) where
  -- Closing a session changes no heartbeat.
  expired-close :
      (now : ℕ) (id other : Text) (p : Process w)
      → is_heartbeat_expired now ((put_conn id (close_conn (p.conns id)) p).conns other)
        ≡ is_heartbeat_expired now (p.conns other)
  unfolding is_heartbeat_expired
  expired-close now id other p = ground (arith, text_eq→eq id other)

  -- The scan of a list of sessions.
  pub record IsScan (now : ℕ) (ids : List Text) (p : Process w) (r : (List Text × ℕ) × Process w)
      : Type 0 where
    pub live : IsLive w r.1
    pub sessions : r.1.sessions ≡ p.sessions
    pub expired :
        (id : Text)
        → has_session r.0.0 id ≡ (has_session ids id && is_heartbeat_expired now (p.conns id))
    pub counted : r.0.1 + length r.0.0 ≡ length ids

  scan_sessions-IsScan :
      (now : ℕ) (ids : List Text) (p : Process w)
      → IsLive w p
      → IsScan now ids p (scan_sessions w now ids p)
  unfolding scan_sessions has_session
  scan_sessions-IsScan now [] p v = record {
    live = v;
    sessions = refl;
    expired = λ id. refl;
    counted = refl;
  }
  scan_sessions-IsScan now (id ∷ ids) p v =
      elim (Bool-cases (is_heartbeat_expired now (p.conns id))) [
        | inl old ↦
            let s =
              scan_sessions-IsScan now ids (put_conn id (close_conn (p.conns id)) p)
                (close-IsLive w id p v) in
            rw (old) (record {
              live = s.live;
              sessions = s.sessions;
              expired = λ other.
                  ground (
                    arith,
                    s.expired other,
                    expired-close now id other p,
                    text_eq→eq id other,
                    old,
                  );
              counted = omega (arith, s.counted);
            })
        | inr young ↦
            let s = scan_sessions-IsScan now ids p v in
            rw (young) (record {
              live = s.live;
              sessions = s.sessions;
              expired = λ other. ground (arith, s.expired other, text_eq→eq id other, young);
              counted = omega (arith, s.counted);
            })
      ]

  pub redis_hset-IsOutside :
      (key field value : Text) (p : Process w) → IsOutside w p (redis_hset w key field value p).1
  unfolding redis_hset
  redis_hset-IsOutside key field value p = ground arith

  outside-IsLive : (p q : Process w) → IsOutside w p q → IsLive w p → IsLive w q
  outside-IsLive p q e v = subst (IsLive w) (sym e) (record {
    registered = record { listed = v.registered.listed; bound = v.registered.bound };
    fresh = v.fresh;
  })

  -- What one scan makes of the process.
  IsExpiry : (p q : Process w) → Type 0
  IsExpiry p q =
      IsLive w q
      × ((id : Text)
          → has_session q.sessions id ≡ (
              has_session p.sessions id
              && not (is_heartbeat_expired (w.time_now p.world).0 (p.conns id))))

  scan_and_report-IsExpiry : (p : Process w) → IsLive w p → IsExpiry p (scan_and_report w p).1
  unfolding scan_and_report IsExpiry
  scan_and_report-IsExpiry p v =
      let (now, s0) = w.time_now p.world in
      let p1 : Process w = record p { world = s0 } in
      let live : IsLive w p1 = record {
        registered = record { listed = v.registered.listed; bound = v.registered.bound };
        fresh = v.fresh;
      } in
      let scan = scan_sessions-IsScan now p1.sessions p1 live in
      let ((expired, count), p2) = scan_sessions w now p1.sessions p1 in
      let p3 = (redis_hset w login_count w.self_name (to_string (pos count)) p2).1 in
      let e = redis_hset-IsOutside login_count w.self_name (to_string (pos count)) p2 in
      let (after, gone) = deal_each_lem w expired p3 (outside-IsLive p2 p3 e scan.live) in
      (
        after,
        λ id.
            gone id
            ∙ ground (
              arith,
              scan.expired id,
              ap (λ (x : Process w). has_session x.sessions id) e,
              ap (λ (x : List Text). has_session x id) scan.sessions,
            ),
      )

  on_timer-runs : (p : Process w) → p.stopped ≡ false → scan_and_report w p ≡ on_timer w false p
  unfolding on_timer
  on_timer-runs p runs = ground (arith, runs)

  -- One run of the timer on a running server: the sessions in the table afterwards are exactly those
  -- before whose last packet is not older than the threshold, at the time that the run reads; the
  -- tables still agree, and no session in them has been cleaned up.
  pub on_timer-sessions :
      (p : Process w)
      → IsLive w p
      → p.stopped ≡ false
      → IsLive w (on_timer w false p).1
        × ((id : Text)
            → has_session (on_timer w false p).1.sessions id ≡ (
                has_session p.sessions id
                && not (is_heartbeat_expired (w.time_now p.world).0 (p.conns id))))
  unfolding IsExpiry
  on_timer-sessions p v runs =
      subst (λ (r : Unit {0} × Process w). IsExpiry p r.1) (on_timer-runs p runs)
        (scan_and_report-IsExpiry p v)
