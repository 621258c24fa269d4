-- ===== src/Chat/Process.antt =====
-- One ChatServer process: the session objects, CServer's table of them, UserMgr's map from users
-- to sessions, LogicSystem's queue, and the world outside. A shared_ptr to a session is its session
-- id, a UUID; a method is an action that returns the new process beside its result.
use xiguchat.Prelude.{ℕ, ◌≡◌, Bool, List}
use xiguchat.Prelude.Text.{Text, text_eq}
use xiguchat.Prelude.Int.{ℤ}
use xiguchat.Prelude.{if◌then◌else◌}
use xiguchat.Wire.Node.{IdNode}
use xiguchat.Chat.Session.{Session}
use xiguchat.Chat.World.{World}

-- The members of CSession outside its sending half.
pub record Conn : Type 0 where
  pub user_uid : ℤ
  pub last_heartbeat : ℕ
  pub cleanup_started : Bool
  pub out : Session

-- A LogicNode: the session and the received message.
pub record LogicNode : Type 0 where
  pub session : Text
  pub recvnode : IdNode

pub record Process (w : World) : Type 0 where
  pub world : World.State w
  pub redis_closed : Bool
  pub conns : Text → Conn
  pub sessions : List Text
  pub users : List (ℤ × Text)
  pub stopped : Bool
  pub msg_que : List LogicNode
  pub b_stop : Bool
  -- Whether LogicSystem's _p_server is set.
  pub p_server : Bool

-- LogicSystem's queue and its flag are as before.
abbrev pub SameQueue : {w : World} → Process w → Process w → Type 0
SameQueue p q = (q.msg_que ≡ p.msg_que) × (q.b_stop ≡ p.b_stop)

abbrev pub Action : World → Type 0 → Type 0
Action w A = Process w → A × Process w

module _ {w : World} where
  abbrev pub pure : {A : Type 0} → A → Action w A
  pure a p = (a, p)

  infixl 5 ◌>>=◌ ◌>>◌
  abbrev pub ◌>>=◌ : {A B : Type 0} → Action w A → (A → Action w B) → Action w B
  ◌>>=◌ m f p = let (a, q) = m p in f a q

  abbrev pub ◌>>◌ : {A B : Type 0} → Action w A → Action w B → Action w B
  m >> k = m >>= λ _. k

  abbrev pub skip : Action w (Unit {0})
  skip p = (tt, p)

  -- A call of the world.
  abbrev pub outside : {A : Type 0} → (World.State w → A × World.State w) → Action w A
  outside f p = let (a, state) = f p.world in (a, record p { world = state })

  abbrev pub put_conn : Text → Conn → Process w → Process w
  put_conn id c p = record p { conns = λ j. if text_eq id j then c else p.conns j }

  abbrev pub edit_conn : Text → (Conn → Conn) → Action w (Unit {0})
  edit_conn id f p = (tt, put_conn id (f (p.conns id)) p)
