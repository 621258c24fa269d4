-- ===== src/Examples/Status.antt =====
-- Runs of the StatusServer.
use xiguchat.Prelude.{◌≡◌, refl, ◌⊎◌, true, none, some, List, [], ◌∷◌, All, if◌then◌else◌}
use xiguchat.Prelude.Text.{Text, codes, text_eq, text_eq_refl}
use xiguchat.Prelude.Int.{pos}
use xiguchat.Prelude.Decimal.{from_chars, parse_digits}
use xiguchat.Status.{
  ChatServer, no_server, get_chat_server, scan, select, candidate, Redis, success,
  get_chat_server_rpc, answer_chat_server, login_rpc,
}
use xiguchat.Status.Choice.{IsBest, count_of, get_chat_server-IsBest}
use xiguchat.Status.Token.{KeepsValues, get_chat_server-login}

abbrev counts : Text → Text
counts name = if text_eq name (codes "c1") then codes "12" else codes "3"

abbrev server : Text → ChatServer
server name = record { host = codes "h"; port = codes "80"; name = name; con_count = 0 }

abbrev servers : List ChatServer
servers = server (codes "c1") ∷ server (codes "c2") ∷ []

get_chat_server-IsBest_example :
    ((get_chat_server counts servers ≡ no_server) × All (λ t. count_of counts t ≡ none) servers)
    ⊎ IsBest counts servers (get_chat_server counts servers)
get_chat_server-IsBest_example = get_chat_server-IsBest counts servers (refl, (refl, tt))

abbrev small_redis : Redis
small_redis = record {
  State = Text → Text;
  hget = λ key name s. counts name;
  get = λ key s. some (s key);
  set = λ key v s. (true, λ k. if text_eq k key then v else s k);
  new_uuid = λ s. (codes "uuid", s);
}

keeps : KeepsValues small_redis
keeps key v s written = rw (text_eq_refl key) refl

served : (get_chat_server_rpc small_redis servers (pos 7) (λ key. [])).0.error ≡ success
unfolding get_chat_server_rpc answer_chat_server get_chat_server scan select candidate text_eq
    from_chars parse_digits
served = refl

get_chat_server-login_example :
    (let (rsp, s) = get_chat_server_rpc small_redis servers (pos 7) (λ key. []) in
      login_rpc small_redis (pos 7) rsp.token s
      ≡ record { error = success; uid = pos 7; token = rsp.token })
get_chat_server-login_example =
    get_chat_server-login small_redis servers (pos 7) (λ key. []) keeps served
