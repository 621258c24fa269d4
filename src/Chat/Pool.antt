-- ===== src/Chat/Pool.antt =====
-- server/services/ChatServer/src/MysqlDao.cpp: MySqlPool, the pool of database connections that the
-- business threads and one checking thread share. Each section under the mutex is one event; a
-- connection is what the pool reads of it, and the database's answers are parts of the events.
pub mod Balance
pub mod Reach
use xiguchat.Prelude.{
  ℕ, zero, suc, ◌+◌, ◌-◌, ◌%◌, ◌^◌, Bool, true, false, not, ◌&&◌, ◌||◌, Option, none, some, List,
  [], ◌∷◌, ◌++◌, leb, if◌then◌else◌, length,
}

pub record SqlConnection : Type 0 where
  pub has_session : Bool
  pub last_oper_time : ℕ
  pub healthy : Bool

abbrev pub new_connection : ℕ → SqlConnection
new_connection timestamp = record { has_session = true; last_oper_time = timestamp; healthy = true }

pub record MySqlPool : Type 0 where
  pub pool_size : ℕ
  pub pool : List SqlConnection
  pub check_requested : Bool
  pub connection_count : ℕ
  pub b_stop : Bool

-- ++ and -- on a size_t.
abbrev pub size_mod : ℕ
size_mod = 2 ^ 64

abbrev pub increment : ℕ → ℕ
increment n = (n + 1) % size_mod

abbrev pub decrement : ℕ → ℕ
decrement n = (n + (size_mod - 1)) % size_mod

abbrev pub push : MySqlPool → SqlConnection → MySqlPool
push p con = record p { pool = p.pool ++ con ∷ [] }

-- The constructor's loop: a round for each element, with the time of a connection that the server
-- accepted.
unfoldable pub connect_all : MySqlPool → List (Option ℕ) → MySqlPool
connect_all p [] = p
connect_all p (none ∷ rounds) = connect_all p rounds
connect_all p (some timestamp ∷ rounds) =
    connect_all
      (record p {
        pool = p.pool ++ new_connection timestamp ∷ [];
        connection_count = increment p.connection_count;
      })
      rounds

-- poolSize_ is the number of the rounds.
unfoldable pub new_pool : List (Option ℕ) → MySqlPool
unfolding connect_all
new_pool rounds =
    connect_all
      (record {
        pool_size = length rounds;
        pool = [];
        check_requested = true;
        connection_count = 0;
        b_stop = false;
      })
      rounds

-- A call of getConnection waits, ends without a connection, or has one.
pub data Borrowed : Type 0 where
  waits : Borrowed
  null : Borrowed
  lent : SqlConnection → MySqlPool → Borrowed

unfoldable pub take_front : MySqlPool → List SqlConnection → Borrowed
take_front p [] = waits
take_front p (con ∷ cons) = lent con (record p { pool = cons })

unfoldable pub get_connection : MySqlPool → Borrowed
unfolding take_front
get_connection p = if p.b_stop then null else take_front p p.pool

unfoldable pub return_connection : MySqlPool → Option SqlConnection → ℕ → MySqlPool
return_connection p none now = p
return_connection p (some con) now =
    if p.b_stop
    then p
    else if not con.healthy || not con.has_session
    then record p { connection_count = decrement p.connection_count; check_requested = true }
    else push p (record con { last_oper_time = now })

-- The heartbeat of checkConnection, outside the mutex: the connection, and whether it is healthy.
unfoldable pub check_one : SqlConnection → ℕ → Bool → SqlConnection × Bool
check_one con timestamp alive =
    if leb 5 (timestamp - con.last_oper_time)
    then (if alive then (record con { last_oper_time = timestamp }, true) else (con, false))
    else (con, true)

unfoldable pub give_back : MySqlPool → SqlConnection → Bool → MySqlPool
give_back p con healthy =
    if healthy
    then (if p.b_stop
        then record p { connection_count = decrement p.connection_count }
        else push p con)
    else record p { connection_count = decrement p.connection_count }

-- The end of reconnect, under the mutex: false if the pool has stopped.
unfoldable pub add_connection : MySqlPool → ℕ → MySqlPool × Bool
add_connection p timestamp = if p.b_stop then (p, false) else (
  record p {
    pool = p.pool ++ new_connection timestamp ∷ [];
    connection_count = increment p.connection_count;
  },
  true,
)

-- Where the checking thread stands: waiting; at the start of checkConnection; in the first loop of checkConnection, with the rounds
-- that are left, without and with a connection in hand; in the second loop, before the test of the
-- capacity and before the end of reconnect; and joined.
pub data Checker : Type 0 where
  idle : Checker
  started : Checker
  checking : ℕ → ℕ → Checker
  holding : ℕ → ℕ → SqlConnection → Checker
  refill : ℕ → Checker
  connecting : ℕ → Checker
  joined : Checker

-- The pool, the number of connections that business threads hold, and the checking thread.
pub record Run : Type 0 where
  pub shared : MySqlPool
  pub lent_out : ℕ
  pub checker : Checker

pub data Event : Type 0 where
  -- A business thread calls getConnection, and returnConnection with one that it holds.
  borrow : Event
  give : SqlConnection → ℕ → Event
  -- The checking thread's next section, with the time, the answer to SELECT 1 and whether a new
  -- connection is made.
  check : ℕ → Bool → Bool → Event
  -- The two sections of Close; the second follows the join.
  stop : Event
  drain : Event

unfoldable pub borrowed : Run → Borrowed → Option Run
borrowed r waits = none
borrowed r null = some r
borrowed r (lent con p) = some (record r { shared = p; lent_out = suc r.lent_out })

unfoldable pub give_one : Run → SqlConnection → ℕ → ℕ → Option Run
unfolding return_connection
give_one r con now zero = none
give_one r con now (suc n) =
    some (record r { shared = return_connection r.shared (some con) now; lent_out = n })

unfoldable pub check_front : Run → ℕ → ℕ → List SqlConnection → Run
check_front r timestamp left [] = record r { checker = refill timestamp }
check_front r timestamp left (con ∷ cons) = record r {
  shared = record r.shared { pool = cons };
  checker = holding timestamp left con;
}

unfoldable pub check_step : Run → ℕ → Bool → Bool → Checker → Option Run
unfolding check_front check_one give_back add_connection
check_step r now alive made idle =
    if r.shared.b_stop
    then some (record r { checker = joined })
    else some (record r { shared = record r.shared { check_requested = false }; checker = started })
check_step r now alive made started =
    some (record r { checker = checking now (length r.shared.pool) })
check_step r now alive made (checking timestamp zero) =
    some (record r { checker = refill timestamp })
check_step r now alive made (checking timestamp (suc left)) =
    some (check_front r timestamp left r.shared.pool)
check_step r now alive made (holding timestamp left con) =
    let (con', healthy) = check_one con timestamp alive in
    some (record r { shared = give_back r.shared con' healthy; checker = checking timestamp left })
check_step r now alive made (refill timestamp) =
    if r.shared.b_stop || leb r.shared.pool_size r.shared.connection_count
    then some (record r { checker = idle })
    else some (record r { checker = connecting timestamp })
check_step r now alive made (connecting timestamp) =
    let (p, added) = add_connection r.shared timestamp in
    if made
    then some (record r { shared = p; checker = if added then refill timestamp else idle })
    else some (record r { checker = idle })
check_step r now alive made joined = none

unfoldable pub drain_joined : Run → Checker → Option Run
drain_joined r joined =
    some (record r { shared = record r.shared { pool = []; connection_count = 0 } })
drain_joined r _ = none

-- none: the event cannot happen here.
unfoldable pub step : Event → Run → Option Run
unfolding borrowed get_connection give_one check_step drain_joined
step borrow r = borrowed r (get_connection r.shared)
step (give con now) r = give_one r con now r.lent_out
step (check now alive made) r = check_step r now alive made r.checker
step stop r = some (record r { shared = record r.shared { b_stop = true } })
step drain r = drain_joined r r.checker
