-- ===== src/Chat/Messages/Pages.antt =====
-- The pages of a room show every message once, newest first.
use mathlib.Core.List.{Perm}
use realtime_chat_platform.Prelude.{
  ℕ, zero, suc, ◌+◌, ◌-◌, ◌*◌, ◌%◌, ◌^◌, ◌≤◌, ◌<◌, ◌≡◌, refl, sym, ap, ◌∙◌, String, ℤ, pos, negsuc,
  Option, none, some, List, [], ◌∷◌, ◌++◌, if◌then◌else◌, ltb, lt→ltb, take, drop,
  take_of_length-le, arith,
}
use realtime_chat_platform.Chat.Messages.{
  StoredMessage, Messages, of_room, newest_first, list_by_room, count_by_room, int64, page_of,
  per_page_of, PaginatedMessages, with_messages, list_messages,
}
use realtime_chat_platform.Chat.Messages.Order.{
  IsNewestFirst, newest_first-IsNewestFirst, newest_first-perm, length-newest_first,
}

-- The messages of the pages 1 to `n`, one after the other.
unfoldable pub pages : Messages → String → ℤ → ℕ → Option (List StoredMessage)
unfolding list_messages
pages table room per_page zero = some []
pages table room per_page (suc n) = elim (pages table room per_page n) [
  | none ↦ none
  | some before ↦ elim (list_messages table room (pos (suc n)) per_page) [
    | none ↦ none
    | some page ↦ some (before ++ page.messages)
  ]
]

take_none {ℓ} : {A : Type ℓ} (n : ℕ) → take {A = A} n [] ≡ []
take_none zero = refl
take_none (suc n) = refl

take_add {ℓ} : {A : Type ℓ} (n s : ℕ) (l : List A) → take n l ++ take s (drop n l) ≡ take (n + s) l
take_add zero s l = let same : s ≡ 0 + s = omega arith in ap (λ k. take k l) same
take_add (suc n) s [] = take_none s ∙ sym (take_none (suc n + s))
take_add (suc n) s (x ∷ l) =
    let same : suc (n + s) ≡ suc n + s = omega arith in
    ap (λ k. x ∷ k) (take_add n s l) ∙ ap (λ k. take k (x ∷ l)) same

int64_small : (n : ℕ) → n < 2 ^ 63 → int64 n ≡ pos n
unfolding int64
int64_small n h =
    let same : n % 2 ^ 64 ≡ n = omega arith in
    ap (λ w. if ltb w (2 ^ 63) then pos w else negsuc (2 ^ 64 - 1 - w)) same
    ∙ ap (λ b. if b then pos n else negsuc (2 ^ 64 - 1 - n)) (lt→ltb n (2 ^ 63) h)

page_of-suc : (n : ℕ) → page_of (pos (suc n)) ≡ suc n
unfolding page_of
page_of-suc n = ground arith

module _ (table : Messages) (room : String) (per_page : ℤ) where
  abbrev size : ℕ
  size = per_page_of per_page

  abbrev archive : List StoredMessage
  archive = newest_first (of_room room table.rows)

  abbrev page_at : ℕ → PaginatedMessages
  page_at n = record {
    messages = take size (drop (n * size) archive);
    total = count_by_room table room;
    page = suc n;
    per_page = size;
  }

  one_page :
      (n : ℕ)
      → n * size < 2 ^ 63
      → list_messages table room (pos (suc n)) per_page ≡ some (page_at n)
  unfolding list_messages list_by_room with_messages
  one_page n h =
      let less : suc n - 1 ≡ n = omega arith in
      ap
        (λ p.
          with_messages table room p size (list_by_room table room size (int64 ((p - 1) * size))))
        (page_of-suc n)
      ∙ ap
          (λ k.
            with_messages table room (suc n) size (list_by_room table room size (int64 (k * size))))
          less
      ∙ ap (λ o. with_messages table room (suc n) size (list_by_room table room size o))
          (int64_small (n * size) h)

  -- The next page after some messages.
  abbrev add_page : Option PaginatedMessages → List StoredMessage → Option (List StoredMessage)
  add_page p before = elim p [ none ↦ none | some page ↦ some (before ++ page.messages) ]

  pages-take :
      (n : ℕ) → n * size < 2 ^ 63 → pages table room per_page n ≡ some (take (n * size) archive)
  unfolding pages
  pages-take zero h = let same : 0 ≡ 0 * size = omega arith in ap (λ k. some (take k archive)) same
  pages-take (suc n) h =
      let small : n * size < 2 ^ 63 = omega arith in
      let more : n * size + size ≡ suc n * size = omega arith in
      ap
        (λ o. elim o [
          | none ↦ none
          | some before ↦ add_page (list_messages table room (pos (suc n)) per_page) before
        ])
        (pages-take n small)
      ∙ ap (λ p. add_page p (take (n * size) archive)) (one_page n small)
      ∙ ap some (take_add (n * size) size archive ∙ ap (λ k. take k archive) more)

  -- As many pages as the total asks for, one after the other, show every message of the room once,
  -- newest first: none is skipped at the edge of a page and none shown twice. The number of
  -- messages asked for must be below 2 ^ 63, where Go's offset would wrap.
  pub pages_cover :
      (n : ℕ)
      → count_by_room table room ≤ n * per_page_of per_page
      → n * per_page_of per_page < 2 ^ 63
      → (all : List StoredMessage) × (pages table room per_page n ≡ some all)
        × IsNewestFirst all
        × Perm all (of_room room table.rows)
  unfolding count_by_room
  pages_cover n enough h =
      let all = newest_first (of_room room table.rows) in
      let whole : take (n * size) all ≡ all =
        take_of_length-le (n * size) all
          (omega (arith, length-newest_first (of_room room table.rows))) in
      (
        all,
        pages-take n h ∙ ap some whole,
        newest_first-IsNewestFirst (of_room room table.rows),
        newest_first-perm (of_room room table.rows),
      )
