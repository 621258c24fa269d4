-- ===== src/Chat/Server/Timer.antt =====
-- What the timer's scan and Stop leave of the table of sessions.
use xiguchat.Prelude.{
  ◌≡◌, refl, ap, ◌∙◌, true, false, inl, inr, none, List, [], ◌∷◌, arith, if◌then◌else◌, Bool-cases,
  Option-cases,
}
use xiguchat.Prelude.Text.{Text, text_eq, text_eq→eq}
use xiguchat.Prelude.Int.{ℤ}
use xiguchat.Chat.World.{World}
use xiguchat.Chat.Process.{Process, Conn, put_conn}
use xiguchat.Chat.Registry.{find_user, has_session}
use xiguchat.Chat.Registry.Bindings.{IsRegistered}
use xiguchat.Chat.Cleanup.{deal_exception_session, close_conn}
use xiguchat.Chat.Cleanup.Local.{
  deal_exception_session_lem, deal_exception_session-done, deal_exception_session-IsRegistered,
  conns-deal_exception_session,
}
use xiguchat.Chat.Server.{deal_each, close_and_deal_each, stop_server}

module _ (w : World) where
  -- The tables agree, and no session in them has been cleaned up.
  pub record IsLive (p : Process w) : Type 0 where
    pub registered : IsRegistered p
    pub fresh :
        (id : Text) → has_session p.sessions id ≡ true → (p.conns id).cleanup_started ≡ false

  -- After a clean-up the session is not in the table, whether or not it was cleaned up before.
  has_session-deal :
      (id other : Text) (p : Process w)
      → IsLive p
      → has_session (deal_exception_session w id p).1.sessions other
        ≡ (if text_eq id other then false else has_session p.sessions other)
  has_session-deal id other p v = elim (Bool-cases (p.conns id).cleanup_started) [
    | inl done ↦
        rw (deal_exception_session-done w id p done)
          (ground (arith, done, text_eq→eq id other, v.fresh id))
    | inr fresh ↦ (deal_exception_session_lem w id p v.registered fresh).0 other
  ]

  deal-IsLive : (id : Text) (p : Process w) → IsLive p → IsLive (deal_exception_session w id p).1
  deal-IsLive id p v = record {
    registered = deal_exception_session-IsRegistered w id p v.registered;
    fresh = λ other there. elim (Bool-cases (p.conns id).cleanup_started) [
      | inl done ↦
          rw (deal_exception_session-done w id p done)
            (v.fresh other (rw (deal_exception_session-done w id p done) at there))
      | inr fresh ↦
          ap (λ (c : Text → Conn). (c other).cleanup_started)
            (conns-deal_exception_session w id p fresh)
          ∙ ground (arith, has_session-deal id other p v, there, v.fresh other)
    ];
  }

  -- Whether an id is in a list of sessions is has_session.
  pub deal_each_lem :
      (ids : List Text) (p : Process w)
      → IsLive p
      → IsLive (deal_each w ids p).1
        × ((other : Text)
            → has_session (deal_each w ids p).1.sessions other
              ≡ (if has_session ids other then false else has_session p.sessions other))
  unfolding deal_each has_session
  deal_each_lem [] p v = (v, λ other. refl)
  deal_each_lem (id ∷ ids) p v =
      let q = (deal_exception_session w id p).1 in
      let (live, rest) = deal_each_lem ids q (deal-IsLive id p v) in
      (live, λ other. rest other ∙ ground (arith, has_session-deal id other p v))

  pub close-IsLive :
      (id : Text) (p : Process w) → IsLive p → IsLive (put_conn id (close_conn (p.conns id)) p)
  close-IsLive id p v = record {
    registered = record {
      listed = v.registered.listed;
      bound = λ uid other e. ground (arith, text_eq→eq id other, v.registered.bound uid other e);
    };
    fresh = λ other there. ground (arith, text_eq→eq id other, v.fresh other there);
  }

  close_and_deal_each_lem :
      (ids : List Text) (p : Process w)
      → IsLive p
      → IsLive (close_and_deal_each w ids p).1
        × ((other : Text)
            → has_session (close_and_deal_each w ids p).1.sessions other
              ≡ (if has_session ids other then false else has_session p.sessions other))
  unfolding close_and_deal_each has_session
  close_and_deal_each_lem [] p v = (v, λ other. refl)
  close_and_deal_each_lem (id ∷ ids) p v =
      let closed = put_conn id (close_conn (p.conns id)) p in
      let live_closed = close-IsLive id p v in
      let q = (deal_exception_session w id closed).1 in
      let (live, rest) = close_and_deal_each_lem ids q (deal-IsLive id closed live_closed) in
      (live, λ other. rest other ∙ ground (arith, has_session-deal id other closed live_closed))

  -- Stop of a running server leaves no session valid and no user bound to one.
  pub stop_server-empties :
      (p : Process w)
      → IsLive p
      → p.stopped ≡ false
      → ((id : Text) → has_session (stop_server w p).1.sessions id ≡ false)
        × ((uid : ℤ) → find_user (stop_server w p).1.users uid ≡ none)
  unfolding stop_server
  stop_server-empties p v runs =
      let start : Process w = record p { stopped = true } in
      let live : IsLive start = record {
        registered = record { listed = v.registered.listed; bound = v.registered.bound };
        fresh = v.fresh;
      } in
      let (after, gone) = close_and_deal_each_lem p.sessions start live in
      rw (runs) (
        (λ id. gone id ∙ ground arith),
        λ uid.
            elim (Option-cases (find_user (close_and_deal_each w p.sessions start).1.users uid)) [
              | inl absent ↦ absent
              | inr (id, e) ↦ ground (arith, after.registered.listed uid id e, gone id)
            ],
      )
