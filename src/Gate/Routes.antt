-- ===== src/Gate/Routes.antt =====
-- server/services/GateServer/: HandleReq and the exception handler of Start in src/HttpConnection.cpp,
-- HandleGet, HandlePost and the tables of handlers in src/LogicSystem.cpp.
pub mod Authority
use xiguchat.Prelude.{ℕ, suc, Option, none, some, List, [], ◌∷◌, ◌++◌, if◌then◌else◌}
use xiguchat.Prelude.Text.{Text, codes, text_eq}
use xiguchat.Prelude.Int.{ℤ, pos}
use xiguchat.Prelude.Decimal.{to_string}
use xiguchat.Chat.World.{Doc}
use xiguchat.Status.{GetChatServerRsp}
use xiguchat.Gate.Query.{Params, pre_parse_get_param}
use xiguchat.Gate.Outside.{Outside}
use xiguchat.Gate.Accounts.{get_verifycode, user_register, reset_pwd, user_login}

pub data Method : Type 0 where
  get post other : Method

pub record Request : Type 0 where
  pub method : Method
  pub target : Text
  pub body : Text

-- The answer; an empty text for a field that is not set.
pub record Response : Type 0 where
  pub result : ℕ
  pub content_type : Text
  pub server : Text
  pub body : Text

abbrev pub not_found : Response
not_found = record {
  result = 404;
  content_type = codes "text/plain";
  server = [];
  body = codes "url not found" ++ 13 ∷ 10 ∷ [];
}

-- What Start answers after an exception.
abbrev pub bad_request : Response
bad_request = record {
  result = 400;
  content_type = codes "text/plain";
  server = [];
  body = codes "Bad request";
}

abbrev pub found : Text → Text → Response
found content_type body = record {
  result = 200;
  content_type = content_type;
  server = codes "GateServer";
  body = body;
}

-- The parameters in the order in which _get_params has them, each with its number.
unfoldable pub params_text : ℕ → Params → Text
params_text i [] = []
params_text i ((key, value) ∷ params) =
    codes "param"
    ++ (to_string (pos i)
        ++ (codes " key is "
            ++ (key ++ (codes ",  value is " ++ (value ++ 10 ∷ params_text (suc i) params)))))

unfoldable pub get_test : Params → Text
unfolding params_text
get_test params = codes "receive get_test req" ++ 10 ∷ params_text 1 params

unfoldable pub handle_get : Option (Text × Params) → Response
unfolding get_test
handle_get none = bad_request
handle_get (some (url, params)) =
    if text_eq url (codes "/get_test") then found [] (get_test params) else not_found

module _ (o : Outside) where
  open o use {State, to_styled_string}

  module _ (verify_rpc : Text → State → Option ℤ × State)
      (status_rpc : ℤ → State → Option GetChatServerRsp × State) where
    unfoldable pub post_handlers : Text → Option (Text → State → Doc × State)
    post_handlers path =
        if text_eq path (codes "/get_verifycode")
        then some (get_verifycode o verify_rpc)
        else if text_eq path (codes "/user_register")
        then some (user_register o)
        else if text_eq path (codes "/reset_pwd")
        then some (reset_pwd o)
        else if text_eq path (codes "/user_login")
        then some (user_login o status_rpc)
        else none

    abbrev pub answered : Doc × State → Option Response × State
    answered (doc, s) = (some (found (codes "application/json") (to_styled_string doc)), s)

    abbrev pub handle_post :
        Option (Text → State → Doc × State) → Text → State → Option Response × State
    handle_post none body s = (some not_found, s)
    handle_post (some handler) body s = answered (handler body s)

    abbrev pub handle_method : Method → Text → Text → State → Option Response × State
    handle_method get target body s = (some (handle_get (pre_parse_get_param target)), s)
    handle_method post target body s = handle_post (post_handlers target) body s
    handle_method other target body s = (none, s)

    -- none: another method, which has no answer.
    unfoldable pub handle_req : Request → State → Option Response × State
    unfolding post_handlers handle_get pre_parse_get_param
    handle_req request = handle_method request.method request.target request.body
