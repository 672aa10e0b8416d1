-- ===== src/Chat/Messages.antt =====
-- chat-service/internal/repository/message_repository.go and internal/service/message_service.go:
-- the archive of messages and its pages. The table is in the order of insertion; ids grow. Whether
-- the database fails is an argument. A page or size is Go's int, and so is the offset, which may
-- wrap; a negative offset is refused by the database.
pub mod Order
pub mod Pages
pub mod Endpoint
use realtime_chat_platform.Prelude.{
  ℕ, suc, ◌+◌, ◌-◌, ◌*◌, ◌%◌, ◌^◌, String, String_discrete, ℤ, pos, negsuc, Bool, true, false, ◌&&◌,
  ◌||◌, Option, none, some, List, [], ◌∷◌, ◌++◌, ite, if◌then◌else◌, ltb, leb, ◌==◌, length, take,
  drop,
}

pub record StoredMessage : Type 0 where
  pub id : ℕ
  pub room_id : String
  pub user_id : ℤ
  pub content : String
  pub created_at : ℕ

pub record Messages : Type 0 where
  pub next_id : ℕ
  pub rows : List StoredMessage

unfoldable pub create_row : Bool → Messages → StoredMessage → Option (Messages × StoredMessage)
create_row true table message = none
create_row false table message =
    let row = record message { id = table.next_id } in
    some (record { next_id = suc table.next_id; rows = table.rows ++ (row ∷ []) }, row)

-- `Create` of the service.
unfoldable pub create_message :
    Bool → Messages → String → ℤ → String → ℕ → Option (Messages × StoredMessage)
unfolding create_row
create_message fails table room user_id content created_at = create_row fails table (record {
  id = 0;
  room_id = room;
  user_id = user_id;
  content = content;
  created_at = created_at;
})

-- `WHERE room_id = ?`
unfoldable pub of_room : String → List StoredMessage → List StoredMessage
of_room room [] = []
of_room room (m ∷ ms) =
    let rest = of_room room ms in ite (String_discrete m.room_id room) (m ∷ rest) rest

-- Whether a row comes before another under `ORDER BY created_at DESC, id DESC`.
unfoldable pub is_newer : StoredMessage → StoredMessage → Bool
is_newer a b = ltb b.created_at a.created_at || ((b.created_at == a.created_at) && leb b.id a.id)

unfoldable pub insert_row : StoredMessage → List StoredMessage → List StoredMessage
unfolding is_newer
insert_row m [] = m ∷ []
insert_row m (n ∷ ns) = let rest = insert_row m ns in if is_newer m n then m ∷ n ∷ ns else n ∷ rest

unfoldable pub newest_first : List StoredMessage → List StoredMessage
unfolding insert_row
newest_first [] = []
newest_first (m ∷ ms) = insert_row m (newest_first ms)

-- `LIMIT ? OFFSET ?`
unfoldable pub list_by_room : Messages → String → ℕ → ℤ → Option (List StoredMessage)
unfolding of_room newest_first
list_by_room table room limit (pos offset) =
    some (take limit (drop offset (newest_first (of_room room table.rows))))
list_by_room table room limit (negsuc n) = none

unfoldable pub count_by_room : Messages → String → ℕ
unfolding of_room
count_by_room table room = length (of_room room table.rows)

abbrev pub default_per_page : ℕ
default_per_page = 50

abbrev pub max_per_page : ℕ
max_per_page = 100

-- A number as an int64.
unfoldable pub int64 : ℕ → ℤ
int64 n = let w = n % 2 ^ 64 in if ltb w (2 ^ 63) then pos w else negsuc (2 ^ 64 - 1 - w)

unfoldable pub page_of : ℤ → ℕ
page_of (negsuc n) = 1
page_of (pos n) = if ltb n 1 then 1 else n

unfoldable pub per_page_of : ℤ → ℕ
per_page_of (negsuc n) = default_per_page
per_page_of (pos n) =
    let given = if ltb n 1 then default_per_page else n in
    if ltb max_per_page given then max_per_page else given

pub record PaginatedMessages : Type 0 where
  pub messages : List StoredMessage
  pub total : ℕ
  pub page : ℕ
  pub per_page : ℕ

-- The end of `List`.
unfoldable pub with_messages :
    Messages → String → ℕ → ℕ → Option (List StoredMessage) → Option PaginatedMessages
unfolding count_by_room
with_messages table room page per_page none = none
with_messages table room page per_page (some messages) = some (record {
  messages = messages;
  total = count_by_room table room;
  page = page;
  per_page = per_page;
})

-- `List` of the service.
unfoldable pub list_messages : Messages → String → ℤ → ℤ → Option PaginatedMessages
unfolding page_of per_page_of int64 list_by_room with_messages
list_messages table room page per_page =
    let p = page_of page in
    let size = per_page_of per_page in
    with_messages table room p size (list_by_room table room size (int64 ((p - 1) * size)))
