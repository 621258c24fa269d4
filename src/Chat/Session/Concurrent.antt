-- ===== src/Chat/Session/Concurrent.antt =====
-- Send and Close of server/services/ChatServer/src/CSession.cpp as the operations on the atomics and the
-- io_context that they are made of: between any two of them other threads may run. A callback of the IO
-- thread is one step.
pub mod Bounded
use xiguchat.Prelude.{
  ℕ, zero, suc, ◌<◌, ◌-◌, arith, ◌≡◌, Bool, true, false, ◌||◌, Option, none, some, List, [], ◌∷◌,
  ◌++◌, length, ltb, leb, if◌then◌else◌,
}
use xiguchat.Prelude.Text.{Text, is_empty}
use xiguchat.Wire.Node.{short_max, head_total_len}
use xiguchat.Chat.Session.{
  Session, send_on_io_task, close_task, max_sendque, initial, fetch_add_one, fetch_sub, post,
  run_posted, handle_write, send, close,
}
use xiguchat.Chat.Session.Invariant.{max_callers}

-- What a thread in Send or Close does next: fetch_add, the post of SendOnIO, fetch_sub, the exchange
-- of Close, or the post of Close.
pub data Caller : Type 0 where
  counts : Text → ℕ → Caller
  admitted : Text → ℕ → Caller
  turned_away closing posts_close : Caller

-- Send up to its tests of the connection and of the length.
unfoldable pub begin_send : Session → Text → ℕ → Option Caller
begin_send s msg msg_id =
    if s.closed
    then none
    else if is_empty msg || ltb (short_max - head_total_len) (length msg)
    then some closing
    else some (counts msg msg_id)

-- One operation, and what is next.
unfoldable pub advance : Caller → Session → Option Caller × Session
unfolding post
advance (counts msg msg_id) s = (
  if leb max_sendque s.pending_sends then some turned_away else some (admitted msg msg_id),
  record s { pending_sends = fetch_add_one s.pending_sends },
)
advance (admitted msg msg_id) s = (none, post s (send_on_io_task msg msg_id))
advance turned_away s = (some closing, record s { pending_sends = fetch_sub s.pending_sends 1 })
advance closing s = (if s.closed then none else some posts_close, record s { closed = true })
advance posts_close s = (none, post s close_task)

-- The session and the threads in Send and Close.
pub record Shared : Type 0 where
  pub session : Session
  pub callers : List Caller

abbrev pub quiet : Shared
quiet = record { session = initial; callers = [] }

abbrev pub with_next : Option Caller → List Caller → List Caller
with_next none callers = callers
with_next (some caller) callers = caller ∷ callers

-- A call of Send or of Close starts, any of the threads does its next operation, the IO thread runs its
-- oldest task, or an async_write completes.
pub data Step : Shared → Shared → Type 0 where
  sends :
      (s : Session) (callers : List Caller) (msg : Text) (msg_id : ℕ)
      → length callers < max_callers
      → Step
          (record { session = s; callers = callers })
          (record { session = s; callers = with_next (begin_send s msg msg_id) callers })
  closes :
      (s : Session) (callers : List Caller)
      → length callers < max_callers
      → Step
          (record { session = s; callers = callers })
          (record { session = s; callers = closing ∷ callers })
  advances :
      (s : Session) (before : List Caller) (caller : Caller) (after : List Caller)
      → Step
          (record { session = s; callers = before ++ caller ∷ after })
          (record {
            session = (advance caller s).1;
            callers = before ++ with_next (advance caller s).0 after;
          })
  runs :
      (s t : Session) (callers : List Caller)
      → run_posted s s.posted ≡ some t
      → Step (record { session = s; callers = callers }) (record { session = t; callers = callers })
  writes :
      (s : Session) (callers : List Caller) (error : Bool)
      → 0 < s.writing
      → Step
          (record { session = s; callers = callers })
          (record { session = (handle_write s error).0; callers = callers })

pub data Reach : Shared → Type 0 where
  start : Reach quiet
  then_step : {c d : Shared} → Reach c → Step c d → Reach d

-- A thread whose operations no other one comes between; it has at most four left.
unfoldable pub alone : ℕ → Option Caller → Session → Session
unfolding advance
alone n none s = s
alone zero (some caller) s = s
alone (suc n) (some caller) s = alone n (advance caller s).0 (advance caller s).1

-- Send of Chat.Session is Send as it runs alone.
pub send-alone :
    (s : Session) (msg : Text) (msg_id : ℕ)
    → (send s msg msg_id).0 ≡ alone 4 (begin_send s msg msg_id) s
unfolding send alone begin_send close
send-alone s msg msg_id = ground arith
