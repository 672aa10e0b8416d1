-- ===== src/Chat/Messages/Endpoint.antt =====
-- chat-service/internal/controller/message_controller.go: `GET /rooms/:room/messages`.
use realtime_chat_platform.Prelude.{
  ℕ, ◌≤◌, ◌≡◌, inl, inr, ap, sym, ◌∙◌, ◌-◌, ◌*◌, subst, String, String_discrete, ℤ, pos, negsuc,
  Option, none, some, List, ite, codes, length, take, drop, arith, Option-cases,
}
use realtime_chat_platform.Prelude.Decimal.{parse_int}
use realtime_chat_platform.Prelude.Lists.{length-take-le}
use realtime_chat_platform.Chat.Handler.{validate_room_name}
use realtime_chat_platform.Chat.Messages.{
  Messages, PaginatedMessages, StoredMessage, list_messages, list_by_room, with_messages, page_of,
  per_page_of, int64, of_room, newest_first, count_by_room,
}

pub data MessagesAnswer : Type 0 where
  refused : ℕ → MessagesAnswer
  shown : PaginatedMessages → MessagesAnswer

-- A parameter that is not there is zero, for which the service has its default.
unfoldable pub number_of : String → Option ℤ
number_of param = ite (String_discrete param "") (some (pos 0)) (parse_int (codes param))

-- `ListByRoom` of the controller, with a database that works but for the offset.
unfoldable pub messages_handler : Messages → String → String → String → MessagesAnswer
unfolding validate_room_name number_of list_messages
messages_handler table room page per_page = elim (validate_room_name room) [
  | some e ↦ refused 400
  | none ↦ elim (number_of page) [
    | none ↦ refused 400
    | some p ↦ elim (number_of per_page) [
      | none ↦ refused 400
      | some size ↦ elim (list_messages table room p size) [
        | none ↦ refused 500
        | some messages ↦ shown messages
      ]
    ]
  ]
]

per_page_of-le : (per_page : ℤ) → per_page_of per_page ≤ 100
unfolding per_page_of
per_page_of-le (negsuc n) = omega arith
per_page_of-le (pos n) = ground arith

list_by_room-le :
    (table : Messages) (room : String) (limit : ℕ) (offset : ℤ) (ms : List StoredMessage)
    → list_by_room table room limit offset ≡ some ms
    → length ms ≤ limit
unfolding list_by_room
list_by_room-le table room limit (pos n) ms h =
    let page = drop n (newest_first (of_room room table.rows)) in
    let same : take limit page ≡ ms = ground arith in
    omega (arith, ap length same, length-take-le {0} limit page)
list_by_room-le table room limit (negsuc n) ms h = absurd (ground arith)

list_messages-le :
    (table : Messages) (room : String) (page per_page : ℤ) (p : PaginatedMessages)
    → list_messages table room page per_page ≡ some p
    → (length p.messages ≤ 100) × (p.total ≡ count_by_room table room)
unfolding list_messages with_messages
list_messages-le table room page per_page p h =
    let size = per_page_of per_page in
    let offset = int64 ((page_of page - 1) * size) in
    elim (Option-cases (list_by_room table room size offset)) [
      | inl none_read ↦ absurd (ground (arith, none_read))
      | inr (ms, read) ↦
          (let small = list_by_room-le table room size offset ms read in
            let same : ms ≡ p.messages = ground (arith, read, h) in
            (
              omega (arith, small, ap length same, per_page_of-le per_page),
              ground (arith, read, h),
            ))
    ]

-- A page that is answered is of a room with a valid name, and has at most 100 messages, whatever
-- was asked for; its total is the number of the room's messages.
pub shown-le :
    (table : Messages) (room page per_page : String) (p : PaginatedMessages)
    → messages_handler table room page per_page ≡ shown p
    → (validate_room_name room ≡ none)
      × (length p.messages ≤ 100)
      × (p.total ≡ count_by_room table room)
unfolding messages_handler
shown-le table room page per_page p h = elim (Option-cases (validate_room_name room)) [
  | inr (e, bad) ↦ absurd (ground (arith, bad))
  | inl fine ↦ elim (Option-cases (number_of page)) [
    | inl bad ↦ absurd (ground (arith, fine, bad))
    | inr (n, page_read) ↦ elim (Option-cases (number_of per_page)) [
      | inl bad ↦ absurd (ground (arith, fine, page_read, bad))
      | inr (k, size_read) ↦ elim (Option-cases (list_messages table room n k)) [
        | inl bad ↦ absurd (ground (arith, fine, page_read, size_read, bad))
        | inr (q, listed) ↦
            let same : q ≡ p = ground (arith, fine, page_read, size_read, listed) in
            let (short, total) = list_messages-le table room n k q listed in
            (
              fine,
              subst (λ (q : PaginatedMessages). length q.messages ≤ 100) same short,
              ap (λ (q : PaginatedMessages). q.total) (sym same) ∙ total,
            )
      ]
    ]
  ]
]
