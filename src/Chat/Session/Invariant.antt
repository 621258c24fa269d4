-- ===== src/Chat/Session/Invariant.antt =====
-- What holds of the sending half of a session: beside the callers that hold a place in pending_sends
-- (Concurrent), and where each call of Send runs to its end at once.
use xiguchat.Prelude.{
  ℕ, suc, ◌+◌, ◌^◌, ◌≤◌, ◌<◌, min, ◌≡◌, ◌≢◌, refl, ap, ◌∙◌, subst, Bool, false, inl, inr, none,
  some, List, [], ◌∷◌, ◌++◌, arith, Bool-cases, length, length-append, All,
}
use mathlib.Core.Option.{some-injective}
use xiguchat.Prelude.Text.{Text}
use xiguchat.Wire.Node.{IdNode, short_max}
use xiguchat.Wire.Encode.{sent_bytes-send_node}
use xiguchat.Chat.Session.{
  Session, Task, send_on_io_task, close_task, max_sendque, initial, send, close, send_on_io,
  run_task, run_posted, handle_write, push_node,
}

abbrev pub count_sends : List Task → ℕ
count_sends [] = 0
count_sends (send_on_io_task msg msg_id ∷ ts) = suc (count_sends ts)
count_sends (close_task ∷ ts) = count_sends ts

abbrev pub Fits : Task → Type 0
Fits (send_on_io_task msg msg_id) = length msg + 4 ≤ short_max
Fits close_task = Unit

-- The threads of a process that may be in Send at once.
abbrev pub max_callers : ℕ
max_callers = 2 ^ 32

-- pending_sends counts the tasks, the queue and the callers that hold a place; the tasks, the queue and
-- the callers that are admitted are within the limit; at most one write is under way, its buffer is at
-- the head of the queue, and an open session with a queue has one.
pub record IsConsistent (held admitted : ℕ) (s : Session) : Type 0 where
  pub counted : s.pending_sends ≡ count_sends s.posted + length s.send_que + held
  pub bounded : count_sends s.posted + length s.send_que + admitted ≤ max_sendque
  pub within : admitted ≤ held
  pub few : held ≤ max_callers
  pub single : s.writing ≤ 1
  pub backed : s.writing ≤ length s.send_que
  pub live : s.closed ≡ false → min 1 (length s.send_que) ≤ s.writing
  pub fits : All Fits s.posted

-- One event: a call from any thread, the next task of the IO thread, or the end of a write.
pub data Step : Session → Session → Type 0 where
  sends : (s : Session) (msg : Text) (msg_id : ℕ) → Step s (send s msg msg_id).0
  closes : (s : Session) → Step s (close s)
  runs : (s t : Session) → run_posted s s.posted ≡ some t → Step s t
  writes : (s : Session) (error : Bool) → 0 < s.writing → Step s (handle_write s error).0

pub data Reach (s : Session) : Session → Type 0 where
  here : Reach s s
  next : {t u : Session} → Reach s t → Step t u → Reach s u

pub count_sends-append :
    (ts us : List Task) → count_sends (ts ++ us) ≡ count_sends ts + count_sends us
count_sends-append [] us = omega arith
count_sends-append (send_on_io_task msg msg_id ∷ ts) us = omega (arith, count_sends-append ts us)
count_sends-append (close_task ∷ ts) us = count_sends-append ts us

pub All-append : (ts us : List Task) → All Fits ts → All Fits us → All Fits (ts ++ us)
All-append [] us a b = b
All-append (t ∷ ts) us a b = (a.0, All-append ts us a.1 b)

module _ {held admitted : ℕ} where
  pub close-IsConsistent :
      (s : Session) → IsConsistent held admitted s → IsConsistent held admitted (close s)
  unfolding close
  close-IsConsistent s v = ground (
    arith,
    count_sends-append s.posted (close_task ∷ []),
    All-append s.posted (close_task ∷ []) v.fits,
  )

  pub write-IsConsistent :
      (s : Session) (error : Bool)
      → 0 < s.writing
      → IsConsistent held admitted s
      → IsConsistent held admitted (handle_write s error).0
  unfolding handle_write
  write-IsConsistent s error h v = ground (
    arith,
    count_sends-append s.posted (close_task ∷ []),
    All-append s.posted (close_task ∷ []) v.fits,
  )

  push_node-IsConsistent :
      (s : Session) (ts : List Task) (node : IdNode)
      → IsConsistent held admitted s
      → s.pending_sends ≡ suc (count_sends ts + length s.send_que) + held
      → s.closed ≡ false
      → All Fits ts
      → IsConsistent held admitted (push_node (record s { posted = ts }) node)
  unfolding push_node
  push_node-IsConsistent s ts node v n alive f =
      ground (arith, length-append s.send_que (node ∷ []))

  sent-IsConsistent :
      (s t : Session) (msg : Text) (msg_id : ℕ) (ts : List Task)
      → (length msg + 4 ≤ short_max) × All Fits ts
      → s.pending_sends ≡ suc (count_sends ts) + length s.send_que + held
      → send_on_io (record s { posted = ts }) msg msg_id ≡ some t
      → IsConsistent held admitted s
      → IsConsistent held admitted t
  unfolding send_on_io
  sent-IsConsistent s t msg msg_id ts f n e v =
      let (node, sent, bytes) = sent_bytes-send_node msg msg_id f.0 in
      elim (Bool-cases s.closed) [
        | inl gone ↦ ground (arith, e)
        | inr alive ↦
            subst (IsConsistent held admitted) (some-injective _ t (rw (alive, sent) at e))
              (push_node-IsConsistent s ts node v (omega arith) alive f.1)
      ]

  run_task-IsConsistent :
      (s t : Session) (task : Task) (ts : List Task)
      → s.posted ≡ task ∷ ts
      → run_task (record s { posted = ts }) task ≡ some t
      → IsConsistent held admitted s
      → IsConsistent held admitted t
  unfolding run_task
  run_task-IsConsistent s t close_task ts p e v =
      subst (IsConsistent held admitted) (some-injective _ t e) (
        let f = subst (All Fits) p v.fits in
        let c = ap count_sends p in
        record {
          counted = omega (arith, v.counted, c);
          bounded = omega (arith, v.bounded, c);
          within = v.within;
          few = v.few;
          single = v.single;
          backed = v.backed;
          live = v.live;
          fits = f.1;
        })
  run_task-IsConsistent s t (send_on_io_task msg msg_id) ts p e v =
      sent-IsConsistent s t msg msg_id ts (subst (All Fits) p v.fits)
        (v.counted ∙ ap (λ (n : ℕ). n + length s.send_que + held) (ap count_sends p)) e v

  pub run-IsConsistent :
      (s t : Session) (tasks : List Task)
      → s.posted ≡ tasks
      → run_posted s tasks ≡ some t
      → IsConsistent held admitted s
      → IsConsistent held admitted t
  unfolding run_posted
  run-IsConsistent s t [] p e v = subst (IsConsistent held admitted) (some-injective s t e) v
  run-IsConsistent s t (task ∷ ts) p e v = run_task-IsConsistent s t task ts p e v

send-IsConsistent :
    (s : Session) (msg : Text) (msg_id : ℕ)
    → IsConsistent 0 0 s
    → IsConsistent 0 0 (send s msg msg_id).0
unfolding send
send-IsConsistent s msg msg_id v = ground (
  arith,
  count_sends-append s.posted (close_task ∷ []),
  count_sends-append s.posted (send_on_io_task msg msg_id ∷ []),
  All-append s.posted (close_task ∷ []) v.fits,
  All-append s.posted (send_on_io_task msg msg_id ∷ []) v.fits,
)

-- No callback throws: every node that a callback makes fits a short.
pub run_posted-ne-none :
    (s : Session) (tasks : List Task) → All Fits tasks → run_posted s tasks ≢ none
unfolding run_posted run_task send_on_io
run_posted-ne-none s [] f e = cc
run_posted-ne-none s (close_task ∷ ts) f e = cc
run_posted-ne-none s (send_on_io_task msg msg_id ∷ ts) f e =
    let (node, sent, bytes) = sent_bytes-send_node msg msg_id f.0 in ground (arith, sent)

Step-IsConsistent : {s t : Session} → Step s t → IsConsistent 0 0 s → IsConsistent 0 0 t
Step-IsConsistent (sends s msg msg_id) v = send-IsConsistent s msg msg_id v
Step-IsConsistent (closes s) v = close-IsConsistent s v
Step-IsConsistent (runs s t e) v = run-IsConsistent s t s.posted refl e v
Step-IsConsistent (writes s error h) v = write-IsConsistent s error h v

-- Where each call of Send runs to its end before another one starts, pending_sends is the number of
-- the messages that wait, which is within the limit.
pub Reach-IsConsistent : {s : Session} → Reach initial s → IsConsistent 0 0 s
Reach-IsConsistent here = record {
  counted = omega arith;
  bounded = omega arith;
  within = omega arith;
  few = omega arith;
  single = omega arith;
  backed = omega arith;
  live = λ e. omega arith;
  fits = tt;
}
Reach-IsConsistent (next r st) = Step-IsConsistent st (Reach-IsConsistent r)

-- And the next callback of the IO thread never throws.
pub Reach-run_posted : {s : Session} → Reach initial s → run_posted s s.posted ≢ none
Reach-run_posted {s} r = run_posted-ne-none s s.posted (Reach-IsConsistent r).fits
