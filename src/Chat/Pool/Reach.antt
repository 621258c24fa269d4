-- ===== src/Chat/Pool/Reach.antt =====
-- What holds of MySqlPool from its constructor on, and after Close.
use xiguchat.Prelude.{
  ℕ, zero, suc, ◌+◌, ◌%◌, ◌^◌, ◌≤◌, ◌<◌, ◌≡◌, refl, subst, Bool, true, false, Option, none, some,
  List, [], ◌∷◌, ◌++◌, length, arith, length-append,
}
use xiguchat.Chat.Pool.{
  SqlConnection, MySqlPool, connect_all, new_pool, new_connection, get_connection, null, borrowed,
  return_connection, check_step, give_one, drain_joined, Checker, idle, joined, Run, Event, borrow,
  give, check, stop, drain, step,
}
use xiguchat.Chat.Pool.Balance.{IsBalanced, step-IsBalanced, some-eq}

abbrev pub initial : List (Option ℕ) → Run
initial rounds = record { shared = new_pool rounds; lent_out = 0; checker = idle }

pub data Reach (rounds : List (Option ℕ)) : Run → Type 0 where
  begin : Reach rounds (initial rounds)
  next : (event : Event) (r r' : Run) → Reach rounds r → step event r ≡ some r' → Reach rounds r'

-- The constructor's loop counts what it pushes.
connect_all-counts :
    (p : MySqlPool) (rounds : List (Option ℕ))
    → p.connection_count ≡ length p.pool
    → p.pool_size < 2 ^ 31
    → p.connection_count + length rounds ≤ p.pool_size
    → ((connect_all p rounds).connection_count ≡ length (connect_all p rounds).pool)
      × ((connect_all p rounds).connection_count ≤ (connect_all p rounds).pool_size)
      × ((connect_all p rounds).pool_size ≡ p.pool_size)
unfolding connect_all
connect_all-counts p [] counted small fits = ground arith
connect_all-counts p (none ∷ rounds) counted small fits =
    connect_all-counts p rounds counted small (omega (arith, fits))
connect_all-counts p (some timestamp ∷ rounds) counted small fits =
    let pushed = length-append p.pool (new_connection timestamp ∷ []) in
    let q = record p {
      pool = p.pool ++ new_connection timestamp ∷ [];
      connection_count = (p.connection_count + 1) % 2 ^ 64;
    } in
    connect_all-counts q rounds (omega (arith, pushed, counted, fits, small)) small
      (omega (arith, fits, small))

new_pool-IsBalanced :
    (rounds : List (Option ℕ)) → length rounds < 2 ^ 31 → IsBalanced (initial rounds)
unfolding new_pool
new_pool-IsBalanced rounds small =
    let p : MySqlPool = record {
      pool_size = length rounds;
      pool = [];
      check_requested = true;
      connection_count = 0;
      b_stop = false;
    } in
    let (counted, fits, size) = connect_all-counts p rounds refl small (omega arith) in
    record {
      small = omega (arith, size, small);
      counted = λ runs. omega (arith, counted);
      bounded = λ runs. fits;
      room = λ runs busy. ground (arith, busy);
      ended = λ end. ground (arith, end);
    }

-- In every state of the pool that the threads reach, in whatever order their sections run and
-- whatever the database answers: until the pool stops, connection_count is the number of the
-- connections that wait in the pool, that business threads hold and that the checking thread holds,
-- and together they are at most poolSize.
pub Reach-IsBalanced :
    (rounds : List (Option ℕ)) (r : Run) → length rounds < 2 ^ 31 → Reach rounds r → IsBalanced r
Reach-IsBalanced rounds r small begin = new_pool-IsBalanced rounds small
Reach-IsBalanced rounds r small (next event r' r'' reach e) =
    step-IsBalanced event r' r (Reach-IsBalanced rounds r' small reach) e

-- After Close.
pub record IsClosed (r : Run) : Type 0 where
  pub stopped : r.shared.b_stop ≡ true
  pub empty : r.shared.pool ≡ []
  pub ended : r.checker ≡ joined

check_step-IsClosed :
    (r r' : Run) (now : ℕ) (alive made : Bool) (c : Checker)
    → c ≡ joined
    → check_step r now alive made c ≡ some r'
    → IsClosed r'
unfolding check_step
check_step-IsClosed r r' now alive made joined at e = ground (arith, e)
check_step-IsClosed r r' now alive made c at e = ground (arith, at)

drain_joined-IsClosed :
    (r r' : Run) (c : Checker) → IsClosed r → c ≡ joined → drain_joined r c ≡ some r' → IsClosed r'
unfolding drain_joined
drain_joined-IsClosed r r' joined v at e =
    subst IsClosed (some-eq _ _ e) (record { stopped = v.stopped; empty = refl; ended = v.ended })
drain_joined-IsClosed r r' c v at e = ground (arith, at)

give_one-IsClosed :
    (r r' : Run) (con : SqlConnection) (now n : ℕ)
    → IsClosed r
    → give_one r con now n ≡ some r'
    → IsClosed r'
unfolding give_one return_connection
give_one-IsClosed r r' con now zero v e = ground (arith, e)
give_one-IsClosed r r' con now (suc n) v e =
    let kept : Run = record r { lent_out = n } in
    let same : kept ≡ r' = ground (arith, v.stopped, e) in
    subst IsClosed same (record { stopped = v.stopped; empty = v.empty; ended = v.ended })

borrowed-IsClosed :
    (r r' : Run) → IsClosed r → borrowed r (get_connection r.shared) ≡ some r' → IsClosed r'
unfolding borrowed get_connection
borrowed-IsClosed r r' v e = subst IsClosed (ground (arith, v.stopped, e)) v

next-IsClosed : (event : Event) (r r' : Run) → IsClosed r → step event r ≡ some r' → IsClosed r'
unfolding step
next-IsClosed borrow r r' v e = borrowed-IsClosed r r' v e
next-IsClosed (give con now) r r' v e = give_one-IsClosed r r' con now r.lent_out v e
next-IsClosed (check now alive made) r r' v e =
    check_step-IsClosed r r' now alive made r.checker v.ended e
next-IsClosed stop r r' v e =
    subst IsClosed (some-eq _ _ e) (record { stopped = refl; empty = v.empty; ended = v.ended })
next-IsClosed drain r r' v e = drain_joined-IsClosed r r' r.checker v v.ended e

-- Once Close has drained the pool, no section of any thread puts a connection into it again or
-- hands one out: a connection that a business thread still holds is dropped when it is returned.
pub step-IsClosed :
    (event : Event) (r r' : Run)
    → IsClosed r
    → step event r ≡ some r'
    → IsClosed r' × (get_connection r'.shared ≡ null)
unfolding get_connection
step-IsClosed event r r' v e =
    let v' = next-IsClosed event r r' v e in (v', ground (arith, v'.stopped))
