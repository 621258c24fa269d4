-- ===== src/Examples/Pools.antt =====
-- Runs of the connection pool: one connection of two is made and lent; and a connection comes back
-- after the pool was closed.
use xiguchat.Prelude.{ℕ, ◌≡◌, refl, some, none, true, false, List, [], ◌∷◌, Option, arith}
use xiguchat.Chat.Pool.{
  SqlConnection, Run, borrow, give, step, new_pool, connect_all, get_connection, borrowed,
  take_front, give_one, return_connection, new_connection, joined,
}
use xiguchat.Chat.Pool.Balance.{IsBalanced}
use xiguchat.Chat.Pool.Reach.{begin, next, initial, Reach-IsBalanced}

abbrev two_rounds : List (Option ℕ)
two_rounds = some 100 ∷ none ∷ []

abbrev broken : SqlConnection
broken = record (new_connection 100) { healthy = false }

abbrev lent_run : Run
lent_run = record (initial two_rounds) {
  shared = record (new_pool two_rounds) { pool = [] };
  lent_out = 1;
}

lends : step borrow (initial two_rounds) ≡ some lent_run
unfolding step borrowed get_connection take_front new_pool connect_all
lends = refl

Reach-IsBalanced_example : IsBalanced lent_run
Reach-IsBalanced_example =
    Reach-IsBalanced two_rounds lent_run (omega arith)
      (next borrow (initial two_rounds) lent_run begin lends)

abbrev closed_run : Run
closed_run = record {
  shared = record {
    pool_size = 2;
    pool = [];
    check_requested = false;
    connection_count = 0;
    b_stop = true;
  };
  lent_out = 1;
  checker = joined;
}

late_give :
    step (give (new_connection 100) 160) closed_run ≡ some (record closed_run { lent_out = 0 })
unfolding step give_one return_connection
late_give = refl
