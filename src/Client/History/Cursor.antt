-- ===== src/Client/History/Cursor.antt =====
-- client/core/usermgr.cpp: LastMessageId, behind which the client asks for the next history page.
use xiguchat.Prelude.{◌≡◌, false, List, [], ◌∷◌, inl, inr, Bool-cases}
use xiguchat.Prelude.Int.{ℤ, pos, ltb_ℤ, ltb_ℤ_asym, ltb_ℤ_irrefl, ltb_ℤ_trans}
use xiguchat.Client.History.{TextChatData, q_max, last_id_from, last_message_id}

-- No message of the list has an id above the cursor.
unfoldable pub IsWithin : ℤ → List TextChatData → Type 0
IsWithin last [] = Unit
IsWithin last (message ∷ messages) =
    (ltb_ℤ last message.message_id ≡ false) × IsWithin last messages

q_max-bounds : (a b : ℤ) → (ltb_ℤ (q_max a b) a ≡ false) × (ltb_ℤ (q_max a b) b ≡ false)
q_max-bounds a b = elim (Bool-cases (ltb_ℤ a b)) [
  | inl less ↦ rw less (ltb_ℤ_asym a b less, ltb_ℤ_irrefl b)
  | inr other ↦ rw other (ltb_ℤ_irrefl a, other)
]

last_id_from-IsWithin :
    (messages : List TextChatData) (last : ℤ)
    → (ltb_ℤ (last_id_from last messages) last ≡ false)
      × IsWithin (last_id_from last messages) messages
unfolding last_id_from IsWithin
last_id_from-IsWithin [] last = (ltb_ℤ_irrefl last, tt)
last_id_from-IsWithin (message ∷ messages) last =
    let next = q_max last message.message_id in
    let (bound, within) = last_id_from-IsWithin messages next in
    let (old, new) = q_max-bounds last message.message_id in
    let top = last_id_from next messages in
    (
      ltb_ℤ_trans last next top old bound,
      (ltb_ℤ_trans message.message_id next top new bound, within),
    )

-- No message of a chat has an id above its LastMessageId, which is not below 0.
pub last_message_id-IsWithin :
    (messages : List TextChatData)
    → (ltb_ℤ (last_message_id messages) (pos 0) ≡ false)
      × IsWithin (last_message_id messages) messages
unfolding last_message_id
last_message_id-IsWithin messages = last_id_from-IsWithin messages (pos 0)
