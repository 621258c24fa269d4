-- ===== src/Chat/Dao/Paging.antt =====
-- The pages of GetChatThreads, and what a client reads that follows the cursor.
pub mod Cursor
use xiguchat.Prelude.{
  ℕ, zero, suc, ◌+◌, ◌-◌, ◌≤◌, ◌<◌, ◌≡◌, refl, sym, ap, ◌∙◌, subst, true, false, not, inl, inr,
  Bool, Option, none, some, List, [], ◌∷◌, ◌++◌, append_assoc, append-nil, arith, leb, ◌==◌,
  if◌then◌else◌, length, take, drop, length-append, length-take, length-drop, take_whole, take-take,
  take-append-drop, ◌⊎◌, All, Bool-cases,
}
use mathlib.Core.Option
use xiguchat.Prelude.Int.{ℤ, pos, negsuc, ltb_ℤ}
use xiguchat.Chat.Data.{ChatThreadInfo}
use xiguchat.Chat.Database.{Database}
use xiguchat.Chat.Dao.Paging.Cursor.{above, above_whole, last_id, IsAscending, cursor-rest}
use xiguchat.Chat.Dao.{
  page_limit, take_page, read_page, with_rows, returned_rows, get_chat_threads, ◌>>=◌,
}

take_page-short :
    {A : Type 0} (limit : ℕ) (page rows : List A) (threw : Bool)
    → length page + length rows ≤ limit
    → take_page limit page rows threw ≡ (not threw, page ++ rows, false)
unfolding take_page
take_page-short limit page [] threw h = rw (append-nil page) refl
take_page-short limit page (row ∷ rows) threw h =
    let room : (length page == limit) ≡ false = ground (arith, h) in
    let longer = length-append page (row ∷ []) in
    rw (room) (
      take_page-short limit (page ++ row ∷ []) rows threw (omega (arith, longer, h))
      ∙ ap (λ l. (not threw, l, false)) (append_assoc page (row ∷ []) rows))

take_page-long :
    {A : Type 0} (limit : ℕ) (page rows : List A) (threw : Bool)
    → length page ≤ limit
    → limit < length page + length rows
    → take_page limit page rows threw ≡ (true, page ++ take (limit - length page) rows, true)
unfolding take_page
take_page-long limit page [] threw h g = ground (arith, h, g)
take_page-long limit page (row ∷ rows) threw h g = elim (Bool-cases (length page == limit)) [
  | inl full ↦
      let none_left : limit - length page ≡ 0 = ground (arith, full) in
      rw (full, none_left) (ap (λ l. (true, l, true)) (sym (append-nil page)))
  | inr room ↦
      let longer = length-append page (row ∷ []) in
      let below : length page < limit = ground (arith, h, room) in
      let one_more : limit - length page ≡ suc (limit - length (page ++ row ∷ [])) =
        omega (arith, longer, below) in
      rw (room, one_more)
        (take_page-long limit (page ++ row ∷ []) rows threw (omega (arith, longer, below))
            (omega (arith, longer, g))
          ∙ ap (λ l. (true, l, true))
              (append_assoc page (row ∷ []) (take (limit - length (page ++ row ∷ [])) rows)))
]

-- What the SELECT of GetChatThreads is documented to give of the chats of a user, in the order of
-- their ids, on a pool that is open.
pub record IsTable {S : Type 0} (db : Database S) (uid : ℤ) (rows : List ChatThreadInfo)
    : Type 0 where
  pub ascending : IsAscending rows
  pub connected : (s : S) → (db.get_connection s).0 ≡ true
  pub selected :
      (last : ℤ) (limit : ℕ) (s : S)
      → (db.select_threads uid last limit s).0
        ≡ some (record { fetched = take limit (above last rows); threw = false })

-- A page of the table: the rows above the cursor up to the limit, and whether there are more.
get_chat_threads_lem :
    {S : Type 0} (db : Database S) (uid : ℤ) (rows : List ChatThreadInfo) (last : ℤ) (limit : ℕ)
    (s : S)
    → IsTable db uid rows
    → (get_chat_threads db uid last limit s).0
      ≡ take_page (page_limit limit) [] (take (page_limit limit + 1) (above last rows)) false
unfolding get_chat_threads with_rows returned_rows read_page
get_chat_threads_lem db uid rows last limit s table =
    let s' = (db.get_connection s).1 in
    rw
      (
        get_chat_threads,
        with_rows,
        returned_rows,
        ◌>>=◌,
        table.connected s,
        table.selected last (page_limit limit + 1) s',
      )
      refl

module _ {S : Type 0} (db : Database S) (uid : ℤ) (limit : ℕ) where
  -- A client that asks for the next page with the last id of a page as long as there are more;
  -- none: the fuel ran out.
  unfoldable pub all_pages : ℕ → ℤ → S → Option (List ChatThreadInfo)
  all_pages zero last s = none
  all_pages (suc fuel) last s =
      let ((ok, threads, has_more), s') = get_chat_threads db uid last limit s in
      let rest = all_pages fuel (last_id last threads) s' in
      if has_more then Option.map (λ l. threads ++ l) rest else some threads

  one_page :
      (fuel : ℕ) (last : ℤ) (s : S) (threads : List ChatThreadInfo)
      → (get_chat_threads db uid last limit s).0 ≡ (true, threads, false)
      → all_pages (suc fuel) last s ≡ some threads
  unfolding all_pages
  one_page fuel last s threads e = rw (all_pages, e) refl

  more_pages :
      (fuel : ℕ) (last : ℤ) (s : S) (threads rest : List ChatThreadInfo)
      → (get_chat_threads db uid last limit s).0 ≡ (true, threads, true)
      → all_pages fuel (last_id last threads) (get_chat_threads db uid last limit s).1 ≡ some rest
      → all_pages (suc fuel) last s ≡ some (threads ++ rest)
  unfolding all_pages
  more_pages fuel last s threads rest e h = rw (all_pages, e) (rw h refl)

  positive_limit : 1 ≤ page_limit limit
  positive_limit = ground arith

  module _ (rows : List ChatThreadInfo) (table : IsTable db uid rows) where
    page-cases :
        (last : ℤ) (rest : List ChatThreadInfo) (s : S)
        → above last rows ≡ rest
        → ((get_chat_threads db uid last limit s).0 ≡ (true, rest, false))
          ⊎ ((page_limit limit < length rest)
              × ((get_chat_threads db uid last limit s).0
                  ≡ (true, take (page_limit limit) rest, true)))
    page-cases last rest s e =
        let p = page_limit limit in
        let asked = get_chat_threads_lem db uid rows last limit s table in
        elim (Bool-cases (leb (length rest) p)) [
          | inl fits ↦ inl (
              asked
              ∙ rw (e, take_whole (p + 1) rest (ground (arith, fits)))
                  (take_page-short p [] rest false (ground (arith, fits))))
          | inr longer ↦
              let above_p : p < length rest = ground (arith, longer) in
              let whole_p : p - 0 ≡ p = omega arith in
              inr (
                above_p,
                asked
                    ∙ rw e (
                        take_page-long p [] (take (p + 1) rest) false (omega arith)
                          (omega (arith, length-take (p + 1) rest, above_p))
                        ∙ ap (λ n. (true, take n (take (p + 1) rest), true)) whole_p
                        ∙ ap (λ l. (true, l, true)) (take-take p (p + 1) rest (omega arith))),
              )
        ]

    all_pages-rest :
        (fuel : ℕ) (before rest : List ChatThreadInfo) (last : ℤ) (s : S)
        → rows ≡ before ++ rest
        → above last rows ≡ rest
        → length rest < fuel
        → all_pages fuel last s ≡ some rest
    all_pages-rest zero before rest last s split e h = elim h [ ]
    all_pages-rest (suc fuel) before rest last s split e h = elim (page-cases last rest s e) [
      | inl page ↦ one_page fuel last s rest page
      | inr (longer, page) ↦
          let p = page_limit limit in
          let whole = take-append-drop p rest in
          let split' : rows ≡ (before ++ take p rest) ++ drop p rest =
            split
            ∙ ap (λ l. before ++ l) (sym whole)
            ∙ sym (append_assoc before (take p rest) (drop p rest)) in
          let filled : 1 ≤ length (take p rest) =
            omega (arith, length-take p rest, positive_limit, longer) in
          let cursor =
            cursor-rest last before (take p rest) (drop p rest) rows table.ascending split'
              filled in
          more_pages fuel last s (take p rest) (drop p rest) page (
            all_pages-rest fuel (before ++ take p rest) (drop p rest) (last_id last (take p rest))
              (get_chat_threads db uid last limit s).1 split' cursor
              (omega (arith, length-drop p rest, positive_limit, longer)))
          ∙ ap some whole
    ]

    -- With the rows that the SELECT is documented to give, whatever limit a client asks for: asking
    -- for page after page, each from the last id of the page before, until GetChatThreads says that
    -- there are no more, ends, and gives every chat of the user once and in order.
    pub all_pages-rows :
        (s : S)
        → All (λ row. ltb_ℤ (pos 0) row.thread_id ≡ true) rows
        → all_pages (suc (length rows)) (pos 0) s ≡ some rows
    all_pages-rows s positive =
        all_pages-rest (suc (length rows)) [] rows (pos 0) s refl
          (above_whole (pos 0) rows positive) (omega arith)
