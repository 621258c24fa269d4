-- ===== src/Examples/Sessions.antt =====
-- Runs of the sending half of a session.
use xiguchat.Prelude.{◌≡◌, ◌≢◌, none, ◌∷◌, arith, refl, false, [], ◌++◌}
use xiguchat.Prelude.Text.{codes}
use xiguchat.Chat.Session.{Session, initial, send, run_posted}
use xiguchat.Chat.Session.Concurrent.{
  counts, admitted, begin_send, advance, Shared, sends, advances, Reach, start, then_step,
}
use xiguchat.Chat.Session.Concurrent.Bounded.{IsBounded, Reach-IsBounded}
use xiguchat.Chat.Session.Order.{History, sent, accepted, outbox, accepted-outbox}

abbrev one_sent : Session
one_sent = (send initial (codes "hi") 1018).0

abbrev two_sent : Session
two_sent = (send one_sent (codes "you") 1024).0

-- Two threads in Send at once: the second one counts first, and both are admitted.
two_callers : Reach (record {
  session = initial;
  callers = counts (codes "you") 1024 ∷ counts (codes "hi") 1018 ∷ [];
})
unfolding begin_send
two_callers =
    then_step (then_step start (sends initial [] (codes "hi") 1018 (omega arith)))
      (sends initial (counts (codes "hi") 1018 ∷ []) (codes "you") 1024 (omega arith))

abbrev two_admitted : Shared
two_admitted = record {
  session = record initial { pending_sends = 2 };
  callers = admitted (codes "you") 1024 ∷ admitted (codes "hi") 1018 ∷ [];
}

two_admitted-Reach : Reach two_admitted
unfolding advance
two_admitted-Reach =
    then_step
      (then_step two_callers
        (advances initial [] (counts (codes "you") 1024) (counts (codes "hi") 1018 ∷ [])))
      (advances (record initial { pending_sends = 1 }) (admitted (codes "you") 1024 ∷ [])
        (counts (codes "hi") 1018) [])

Reach-IsBounded_example :
    IsBounded two_admitted × (run_posted two_admitted.session two_admitted.session.posted ≢ none)
Reach-IsBounded_example = Reach-IsBounded two_admitted-Reach

two_History :
    History two_sent
      (([] ++ accepted initial (codes "hi") 1018) ++ accepted one_sent (codes "you") 1024)
      []
two_History = sent (codes "you") 1024 (sent (codes "hi") 1018 History.start)

two_open : two_sent.closed ≡ false
unfolding send
two_open = refl

accepted-outbox_example :
    ([] ++ accepted initial (codes "hi") 1018) ++ accepted one_sent (codes "you") 1024
    ≡ [] ++ outbox two_sent
accepted-outbox_example = accepted-outbox two_History two_open
