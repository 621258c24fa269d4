-- ===== src/Chat/Session/Order.antt =====
-- The sending half of a session as a queue of packets: what is accepted goes out once and in order.
use mathlib.Core.Option.{some-injective}
use mathlib.Core.List.{map-append}
use xiguchat.Prelude.{
  ℕ, ◌+◌, ◌≤◌, ◌<◌, ◌≡◌, refl, sym, ap, ◌∙◌, true, false, inl, inr, some, List, [], ◌∷◌, ◌++◌, map,
  append_assoc, arith, Bool-cases, length, All, if◌then◌else◌,
}
use xiguchat.Prelude.Text.{Text}
use xiguchat.Wire.Node.{IdNode, sent_bytes, packet, short_max}
use xiguchat.Wire.Encode.{sent_bytes-send_node}
use xiguchat.Chat.Session.{
  Session, Task, send_on_io_task, close_task, initial, send, close, send_on_io, run_task,
  run_posted, handle_write, push_node,
}
use xiguchat.Chat.Session.Invariant.{
  Reach, here, next, sends, closes, runs, writes, Fits, Reach-IsConsistent,
}

-- The packets of the callbacks and those of the queue, oldest first.
abbrev pub posted_packets : List Task → List Text
posted_packets [] = []
posted_packets (send_on_io_task msg msg_id ∷ ts) = packet msg_id msg ∷ posted_packets ts
posted_packets (close_task ∷ ts) = posted_packets ts

abbrev pub outbox : Session → List Text
outbox s = map sent_bytes s.send_que ++ posted_packets s.posted

-- What a call of Send adds to the accepted packets: nothing on a closed session or on refusal.
abbrev pub accepted : Session → Text → ℕ → List Text
accepted s msg msg_id =
    if s.closed then [] else if (send s msg msg_id).1 then [] else packet msg_id msg ∷ []

abbrev pub front : List IdNode → List Text
front [] = []
front (node ∷ nodes) = sent_bytes node ∷ []

-- A history of a session: the packets that Send accepted and those whose write has completed.
pub data History : Session → List Text → List Text → Type 0 where
  start : History initial [] []
  sent :
      {s : Session} {a w : List Text} (msg : Text) (msg_id : ℕ)
      → History s a w
      → History (send s msg msg_id).0 (a ++ accepted s msg msg_id) w
  closed : {s : Session} {a w : List Text} → History s a w → History (close s) a w
  ran :
      {s : Session} {a w : List Text} (t : Session)
      → History s a w
      → run_posted s s.posted ≡ some t
      → History t a w
  written :
      {s : Session} {a w : List Text}
      → History s a w
      → 0 < s.writing
      → History (handle_write s false).0 a (w ++ front s.send_que)
  failed :
      {s : Session} {a w : List Text}
      → History s a w
      → 0 < s.writing
      → History (handle_write s true).0 a w

History-Reach : {s : Session} {a w : List Text} → History s a w → Reach initial s
History-Reach start = here
History-Reach (sent {s = s} msg msg_id h) = next (History-Reach h) (sends s msg msg_id)
History-Reach (closed {s = s} h) = next (History-Reach h) (closes s)
History-Reach (ran {s = s} t h e) = next (History-Reach h) (runs s t e)
History-Reach (written {s = s} h p) = next (History-Reach h) (writes s false p)
History-Reach (failed {s = s} h p) = next (History-Reach h) (writes s true p)

posted_packets-append :
    (ts us : List Task) → posted_packets (ts ++ us) ≡ posted_packets ts ++ posted_packets us
posted_packets-append [] us = refl
posted_packets-append (send_on_io_task msg msg_id ∷ ts) us =
    ap (λ x. packet msg_id msg ∷ x) (posted_packets-append ts us)
posted_packets-append (close_task ∷ ts) us = posted_packets-append ts us

outbox-send :
    (s : Session) (msg : Text) (msg_id : ℕ)
    → (send s msg msg_id).0.closed ≡ false
    → (s.closed ≡ false) × (outbox (send s msg msg_id).0 ≡ outbox s ++ accepted s msg msg_id)
unfolding send
outbox-send s msg msg_id e = ground (
  arith,
  posted_packets-append s.posted (send_on_io_task msg msg_id ∷ []),
  append_assoc (map sent_bytes s.send_que) (posted_packets s.posted) (packet msg_id msg ∷ []),
)

outbox-write :
    (s : Session)
    → (handle_write s false).0.closed ≡ false
    → (s.closed ≡ false) × (outbox s ≡ front s.send_que ++ outbox (handle_write s false).0)
unfolding handle_write
outbox-write s e = ground arith

not_closed : (s : Session) → (close s).closed ≡ false → ⊥
unfolding close
not_closed s e = ground arith

not_failed : (s : Session) → (handle_write s true).0.closed ≡ false → ⊥
unfolding handle_write
not_failed s e = ground arith

outbox-push :
    (s : Session) (ts : List Task) (node : IdNode)
    → (outbox (push_node (record s { posted = ts }) node)
        ≡ map sent_bytes s.send_que ++ sent_bytes node ∷ posted_packets ts)
      × ((push_node (record s { posted = ts }) node).closed ≡ s.closed)
unfolding push_node
outbox-push s ts node = ground (
  arith,
  map-append sent_bytes s.send_que (node ∷ []),
  append_assoc (map sent_bytes s.send_que) (sent_bytes node ∷ []) (posted_packets ts),
)

outbox-sent :
    (s t : Session) (msg : Text) (msg_id : ℕ) (ts : List Task)
    → length msg + 4 ≤ short_max
    → s.posted ≡ send_on_io_task msg msg_id ∷ ts
    → send_on_io (record s { posted = ts }) msg msg_id ≡ some t
    → t.closed ≡ false
    → (s.closed ≡ false) × (outbox t ≡ outbox s)
unfolding send_on_io
outbox-sent s t msg msg_id ts f p e alive =
    let (node, made, bytes) = sent_bytes-send_node msg msg_id f in
    let (pushed, still) = outbox-push s ts node in
    elim (Bool-cases s.closed) [
      | inl gone ↦ absurd (ground (arith, e))
      | inr open_yet ↦
          let is = some-injective _ t (rw (open_yet, made) at e) in
          (
            open_yet,
            ap outbox (sym is)
                ∙ pushed
                ∙ ap (λ x. map sent_bytes s.send_que ++ x) (cc (bytes, ap posted_packets p)),
          )
    ]

outbox-run :
    (s t : Session) (tasks : List Task)
    → s.posted ≡ tasks
    → All Fits tasks
    → run_posted s tasks ≡ some t
    → t.closed ≡ false
    → (s.closed ≡ false) × (outbox t ≡ outbox s)
unfolding run_posted run_task
outbox-run s t [] p f e alive = ground arith
outbox-run s t (close_task ∷ ts) p f e alive = ground arith
outbox-run s t (send_on_io_task msg msg_id ∷ ts) p f e alive =
    outbox-sent s t msg msg_id ts f.0 p e alive

-- As long as a session is open, the accepted packets are exactly those whose write has completed
-- and then those that wait, each once and in the order in which Send accepted them.
pub accepted-outbox :
    {s : Session} {a w : List Text} → History s a w → s.closed ≡ false → a ≡ w ++ outbox s
accepted-outbox start alive = refl
accepted-outbox (sent {s = s} {a = a} {w = w} msg msg_id h) alive =
    let (before, e) = outbox-send s msg msg_id alive in
    ap (λ x. x ++ accepted s msg msg_id) (accepted-outbox h before)
    ∙ append_assoc w (outbox s) (accepted s msg msg_id)
    ∙ ap (λ x. w ++ x) (sym e)
accepted-outbox (closed {s = s} h) alive = absurd (not_closed s alive)
accepted-outbox (ran {s = s} {w = w} t h e) alive =
    let (before, o) =
      outbox-run s t s.posted refl (Reach-IsConsistent (History-Reach h)).fits e alive in
    accepted-outbox h before ∙ ap (λ x. w ++ x) (sym o)
accepted-outbox (written {s = s} {w = w} h p) alive =
    let (before, o) = outbox-write s alive in
    accepted-outbox h before
    ∙ ap (λ x. w ++ x) o
    ∙ sym (append_assoc w (front s.send_que) (outbox (handle_write s false).0))
accepted-outbox (failed {s = s} h p) alive = absurd (not_failed s alive)
