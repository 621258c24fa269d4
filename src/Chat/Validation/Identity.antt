-- ===== src/Chat/Validation/Identity.antt =====
-- What a successful ValidateChatRequest guarantees to the handlers.
use xiguchat.Prelude.{ℕ, ◌≡◌, ◌≢◌, ◌⊎◌, true, false, List, [], ◌∷◌, arith, All}
use xiguchat.Prelude.Text.{Text, codes, is_empty}
use xiguchat.Prelude.Int.{ℤ, pos, eqb_ℤ, eqb_ℤ→eq, is_positive}
use xiguchat.Chat.Protocol.{
  success, token_invalid, chat_login, search_user_req, add_friend_req, auth_friend_req,
  text_chat_msg_req, heart_beat_req, create_private_chat_req,
}
use xiguchat.Chat.Json.{Json}
use xiguchat.Chat.Validation.{
  positive_id, string_field, same_uid, validate_login, validate_load, validate_create, valid_texts,
  validate_text, validate_payload, actor_key, validate_actor, validate_chat_request,
}

module _ (json : Json) where
  open json use {Value, is_object, is_array, is_string, as_int, as_string, member, elements}

  -- The request is made by the session's own user.
  abbrev pub IsActor : Value → Text → ℤ → Type 0
  IsActor root key uid =
      (is_positive (as_int (member root key)) ≡ true) × (as_int (member root key) ≡ uid)

  -- The request is for another user.
  abbrev pub IsTarget : Value → ℤ → Type 0
  IsTarget root uid =
      (is_positive (as_int (member root (codes "touid"))) ≡ true)
      × (eqb_ℤ (as_int (member root (codes "touid"))) uid ≡ false)

  login-success :
      (root : Value) (uid : ℤ)
      → validate_login json root uid ≡ success
      → (uid ≡ pos 0)
        × (is_positive (as_int (member root (codes "uid"))) ≡ true)
        × (is_empty (as_string (member root (codes "token"))) ≡ false)
  unfolding validate_login positive_id string_field
  login-success root uid h = ground (arith, eqb_ℤ→eq uid (pos 0))

  load-success :
      (id : ℕ) (root : Value) (uid : ℤ)
      → validate_load json id root uid ≡ success
      → IsActor root (codes "fromuid") uid
  unfolding validate_load positive_id same_uid
  load-success id root uid h = ground (arith, eqb_ℤ→eq (as_int (member root (codes "fromuid"))) uid)

  create-success :
      (root : Value) (uid : ℤ)
      → validate_create json root uid ≡ success
      → IsActor root (codes "fromuid") uid × IsTarget root uid
  unfolding validate_create positive_id same_uid
  create-success root uid h = ground (arith, eqb_ℤ→eq (as_int (member root (codes "fromuid"))) uid)

  validate_actor-IsActor :
      (id : ℕ) (root : Value) (uid : ℤ)
      → validate_actor json id root uid ≡ success
      → IsActor root (actor_key json id) uid
        × ((id ≡ heart_beat_req) ⊎ (IsTarget root uid × (validate_payload json id root ≡ success)))
  unfolding validate_actor positive_id same_uid
  validate_actor-IsActor id root uid h =
      ground (arith, eqb_ℤ→eq (as_int (member root (actor_key json id))) uid)

  -- What the session may do with a request that passed.
  abbrev pub IsAuthorised : ℕ → Value → ℤ → Type 0
  IsAuthorised id root uid =
      ((id ≡ chat_login)
        × (uid ≡ pos 0)
        × (is_positive (as_int (member root (codes "uid"))) ≡ true)
        × (is_empty (as_string (member root (codes "token"))) ≡ false))
      ⊎ ((id ≢ chat_login)
          × (is_positive uid ≡ true)
          × ((id ≡ search_user_req) ⊎ IsActor root (actor_key json id) uid))

  -- A request that passes is either a login with a positive uid and a non-empty token on a session
  -- that has no user, or comes from a session with a positive uid and, unless it is a search,
  -- declares exactly that uid as the one who acts.
  pub validate-IsAuthorised :
      (id : ℕ) (root : Value) (uid : ℤ)
      → validate_chat_request json id root uid ≡ success
      → IsAuthorised id root uid
  unfolding validate_chat_request
  validate-IsAuthorised id root uid h = ground (
    arith,
    login-success root uid,
    load-success id root uid,
    create-success root uid,
    validate_actor-IsActor id root uid,
  )

  abbrev pub HasTarget : ℕ → Type 0
  HasTarget id =
      (id ≡ create_private_chat_req)
      ⊎ (id ≡ add_friend_req)
      ⊎ (id ≡ auth_friend_req)
      ⊎ (id ≡ text_chat_msg_req)

  -- A friend request, its approval, a text message or the opening of a chat that passes names
  -- another user as its target, by a positive uid.
  pub validate-IsTarget :
      (id : ℕ) (root : Value) (uid : ℤ)
      → HasTarget id
      → validate_chat_request json id root uid ≡ success
      → IsTarget root uid
  unfolding validate_chat_request
  validate-IsTarget id root uid t h =
      ground (arith, create-success root uid, validate_actor-IsActor id root uid)

  -- An item of text_array: an object with a string content and a string msgid that is not empty.
  pub record IsText (text : Value) : Type 0 where
    pub object : is_object text ≡ true
    pub content : is_string (member text (codes "content")) ≡ true
    pub msgid : is_string (member text (codes "msgid")) ≡ true
    pub named : is_empty (as_string (member text (codes "msgid"))) ≡ false

  valid_texts-All : (texts : List Value) → valid_texts json texts ≡ true → All IsText texts
  unfolding valid_texts
  valid_texts-All [] h = tt
  valid_texts-All (text ∷ texts) h = ground (arith, valid_texts-All texts)

  texts_accepted :
      (root : Value)
      → validate_text json root ≡ success
      → (elements (member root (codes "text_array")) ≢ [])
        × All IsText (elements (member root (codes "text_array")))
  unfolding validate_text
  texts_accepted root h =
      ground (arith, valid_texts-All (elements (member root (codes "text_array"))))

  payload-text :
      (root : Value)
      → validate_payload json text_chat_msg_req root ≡ success
      → validate_text json root ≡ success
  unfolding validate_payload
  payload-text root h = h

  -- A text message that passes has at least one text, and every text in it has a string content
  -- and a msgid, so the handler's conversions never throw.
  pub validate-IsText :
      (root : Value) (uid : ℤ)
      → validate_chat_request json text_chat_msg_req root uid ≡ success
      → (elements (member root (codes "text_array")) ≢ [])
        × All IsText (elements (member root (codes "text_array")))
  unfolding validate_chat_request
  validate-IsText root uid h =
      texts_accepted root
        (payload-text root (ground (arith, validate_actor-IsActor text_chat_msg_req root uid)))

  -- On a session without a user every object that is not a login is refused as TokenInvalid, and a
  -- login is refused so on a session that has a user.
  pub validate-token_invalid :
      (id : ℕ) (root : Value) (uid : ℤ)
      → is_object root ≡ true
      → ((id ≢ chat_login) × (is_positive uid ≡ false)) ⊎ ((id ≡ chat_login) × (uid ≢ pos 0))
      → validate_chat_request json id root uid ≡ token_invalid
  unfolding validate_chat_request validate_login
  validate-token_invalid id root uid o h = ground (arith, eqb_ℤ→eq uid (pos 0))
