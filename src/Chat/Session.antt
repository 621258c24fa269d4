-- ===== src/Chat/Session.antt =====
-- The sending half of server/services/ChatServer/src/CSession.cpp: Send, SendOnIO, HandleWrite and
-- Close. The io_context of the session is the list of the tasks that were posted to it, oldest
-- first; `writing` counts the async_write calls that have not completed. A counter is a size_t.
pub mod Concurrent
pub mod Invariant
pub mod Order
use xiguchat.Prelude.{
  ℕ, suc, ◌+◌, ◌-◌, ◌*◌, ◌%◌, ◌^◌, Bool, true, false, not, ◌&&◌, ◌||◌, Option, none, some, List, [],
  ◌∷◌, ◌++◌, ltb, leb, if◌then◌else◌, length,
}
use xiguchat.Prelude.Text.{Text, is_empty}
use xiguchat.Wire.Node.{IdNode, send_node, short_max, head_total_len}

abbrev pub max_sendque : ℕ
max_sendque = 1000

-- The callbacks that Send and Close post.
pub data Task : Type 0 where
  send_on_io_task : Text → ℕ → Task
  close_task : Task

pub record Session : Type 0 where
  pub closed : Bool
  pub socket_open : Bool
  pub pending_sends : ℕ
  pub posted : List Task
  pub send_que : List IdNode
  pub writing : ℕ

abbrev pub initial : Session
initial = record {
  closed = false;
  socket_open = true;
  pending_sends = 0;
  posted = [];
  send_que = [];
  writing = 0;
}

abbrev pub size_mod : ℕ
size_mod = 2 ^ 64

-- fetch_add(1) and fetch_sub on std::atomic<std::size_t> wrap.
abbrev pub fetch_add_one : ℕ → ℕ
fetch_add_one n = (n + 1) % size_mod

abbrev pub fetch_sub : ℕ → ℕ → ℕ
fetch_sub n k = (n + size_mod - k) % size_mod

unfoldable pub post : Session → Task → Session
post s t = record s { posted = s.posted ++ t ∷ [] }

unfoldable pub close : Session → Session
unfolding post
close s = if s.closed then s else post (record s { closed = true }) close_task

-- The session after a Send that no other thread comes between (Concurrent has its operations one by
-- one), and whether it went on to DealExceptionSession.
unfoldable pub send : Session → Text → ℕ → Session × Bool
unfolding close post
send s msg msg_id =
    let counted = record s { pending_sends = fetch_add_one s.pending_sends } in
    if s.closed
    then (s, false)
    else if is_empty msg || ltb (short_max - head_total_len) (length msg)
    then (close s, true)
    else if leb max_sendque s.pending_sends
    then (close (record counted { pending_sends = fetch_sub counted.pending_sends 1 }), true)
    else (post counted (send_on_io_task msg msg_id), false)

-- Send(char*, short, short); `msg` holds the max_length bytes that the pointer shows, or is none
-- for a null pointer.
unfoldable pub send_bytes : Session → Option Text → ℕ → Session × Bool
unfolding send
send_bytes s none msg_id = (s, false)
send_bytes s (some msg) msg_id = if is_empty msg then (s, false) else send s msg msg_id

-- A node behind the queue starts an async_write only if none is under way.
push_node : Session → IdNode → Session
push_node s node =
    let queued = record s { send_que = s.send_que ++ node ∷ [] } in
    elim s.send_que [ [] ↦ record queued { writing = suc s.writing } | _ ∷ _ ↦ queued ]

-- none: the constructor of SendNode throws, out of io_context::run.
unfoldable pub send_on_io : Session → Text → ℕ → Option Session
unfolding push_node
send_on_io s msg msg_id =
    if s.closed
    then some (record s { pending_sends = fetch_sub s.pending_sends 1 })
    else elim (send_node msg (length msg) msg_id) [
      | none ↦ none
      | some node ↦ some (push_node s node)
    ]

-- The IO thread takes the oldest task.
run_task : Session → Task → Option Session
unfolding send_on_io
run_task s (send_on_io_task msg msg_id) = send_on_io s msg msg_id
run_task s close_task = some (record s { socket_open = false })

unfoldable pub run_posted : Session → List Task → Option Session
unfolding run_task
run_posted s [] = some s
run_posted s (t ∷ ts) = run_task (record s { posted = ts }) t

write_next : Session → List IdNode → Session
write_next s [] = s
write_next s (node ∷ nodes) = if s.closed then s else record s { writing = suc s.writing }

pop : List IdNode → List IdNode
pop [] = []
pop (node ∷ nodes) = nodes

-- One async_write has completed, with an error or not; and whether it went on to
-- DealExceptionSession.
unfoldable pub handle_write : Session → Bool → Session × Bool
unfolding close pop write_next
handle_write s error =
    let done = record s { writing = s.writing - 1 } in
    let dropped = close done in
    let shorter = record done {
      send_que = pop s.send_que;
      pending_sends = fetch_sub s.pending_sends 1;
    } in
    if error
    then (
      record dropped {
        pending_sends = fetch_sub dropped.pending_sends (length dropped.send_que);
        send_que = [];
      },
      true,
    )
    else (write_next shorter shorter.send_que, false)
