-- ===== src/Store/Messages.antt =====
-- The statements of internal/db/sqlc/channel_messages.sql.go and direct_messages.sql.go, with the
-- constraints of the two tables and the trigger on insertions.
use waypoint_be.Base.{
  ℕ, ◌+◌, String, Bool, true, false, not, ◌&&◌, Option, none, some, List, [], ◌∷◌, ◌++◌, map, ◌==◌,
  if◌then◌else◌, filter, any, find?, count, order_by, is_empty, Result, ok, err, and_then, page,
  order_by_desc, Int32, nonneg, negative,
}
use waypoint_be.Store.{
  Uuid, Time, ChannelMessageRow, DirectMessageRow, Store, DbError, negative_row_count,
  unique_violation, foreign_key_violation, check_violation, Query, has_user,
}
use waypoint_be.Store.Threads.{is_reply, is_anchored, delete_messages}
use waypoint_be.Store.Users.{one_row}
use Prim.Native.Nat.{min, max}

abbrev pub has_channel : Uuid → Store → Bool
has_channel c st = any (λ r. r.id == c) st.channels

pub record CreateChannelMessageParams : Type 0 where
  pub id : Uuid
  pub author_id : Uuid
  pub channel_id : Uuid
  pub body : String
  pub thread_root_id : Option Uuid

-- The insert trigger: one more reply for the rows that `root` names.
abbrev pub bump : Option Uuid → ChannelMessageRow → ChannelMessageRow
bump none m = m
bump (some r) m = if m.id == r then record m { reply_count = m.reply_count + 1 } else m

-- The row returned is the one inserted, before the trigger.
unfoldable pub create_channel_message : CreateChannelMessageParams → Time → Query ChannelMessageRow
create_channel_message arg now st =
    let row : ChannelMessageRow = record {
      id = arg.id;
      author_id = arg.author_id;
      channel_id = arg.channel_id;
      created_at = now;
      updated_at = now;
      body = arg.body;
      thread_root_id = arg.thread_root_id;
      reply_count = 0;
    } in
    if is_empty arg.body
    then err (check_violation "messages_body_check")
    else if any (λ m. m.id == arg.id) st.channel_messages
    then err (unique_violation "messages_pkey")
    else if not (has_user arg.author_id st)
    then err (foreign_key_violation "channel_messages_author_id_fkey")
    else if not (has_channel arg.channel_id st)
    then err (foreign_key_violation "channel_messages_channel_id_fkey")
    else if not (is_anchored (st.channel_messages ++ row ∷ []) row)
    then err (foreign_key_violation "channel_messages_thread_root_id_fkey")
    else ok (
      row,
      record st {
        channel_messages = map (bump arg.thread_root_id) (st.channel_messages ++ row ∷ []);
      },
    )

unfoldable pub select_channel_message : Uuid → Query ChannelMessageRow
select_channel_message id st = one_row (find? (λ m. m.id == id) st.channel_messages) st

abbrev pub rebody : Uuid → String → Time → ChannelMessageRow → ChannelMessageRow
rebody id body now m = if m.id == id then record m { body = body; updated_at = now } else m

unfoldable pub update_channel_message_body : Uuid → String → Time → Query ChannelMessageRow
update_channel_message_body id body now st =
    if is_empty body && any (λ m. m.id == id) st.channel_messages
    then err (check_violation "messages_body_check")
    else let messages = map (rebody id body now) st.channel_messages in
      one_row (find? (λ m. m.id == id) messages) (record st { channel_messages = messages })

unfoldable pub delete_channel_message : Uuid → Query ℕ
delete_channel_message id st =
    and_then (delete_messages (λ m. m.id == id) st.channel_messages) λ messages.
      ok (count (λ m. m.id == id) st.channel_messages, record st { channel_messages = messages })

-- LIMIT and OFFSET take the rows of an ordered result; PostgreSQL refuses negative ones.
abbrev pub limited : {A : Type 0} → Int32 → Int32 → List A → Store → Result DbError (List A × Store)
limited (nonneg limit) (nonneg offset) rows st = ok (page limit offset rows, st)
limited (nonneg limit) (negative offset) rows st = err negative_row_count
limited (negative limit) offset rows st = err negative_row_count

abbrev pub is_top_level : Uuid → ChannelMessageRow → Bool
is_top_level channel m =
    m.channel_id == channel && elim m.thread_root_id [ none ↦ true | some _ ↦ false ]

unfoldable pub list_channel_messages : Uuid → Int32 → Int32 → Query (List ChannelMessageRow)
list_channel_messages channel limit offset st =
    limited limit offset
      (order_by_desc (λ m. m.created_at) (filter (is_top_level channel) st.channel_messages)) st

unfoldable pub list_channel_thread_replies : Uuid → Query (List ChannelMessageRow)
list_channel_thread_replies root st =
    ok (order_by (λ m. m.created_at) (filter (is_reply root) st.channel_messages), st)

pub record CreateDirectMessageParams : Type 0 where
  pub id : Uuid
  pub author_id : Uuid
  pub recipient_id : Uuid
  pub body : String

unfoldable pub create_direct_message : CreateDirectMessageParams → Time → Query DirectMessageRow
create_direct_message arg now st =
    let row : DirectMessageRow = record {
      id = arg.id;
      author_id = arg.author_id;
      recipient_id = arg.recipient_id;
      body = arg.body;
      created_at = now;
      updated_at = now;
    } in
    if is_empty arg.body
    then err (check_violation "direct_messages_body_check")
    else if any (λ m. m.id == arg.id) st.direct_messages
    then err (unique_violation "direct_messages_pkey")
    else if not (has_user arg.author_id st)
    then err (foreign_key_violation "direct_messages_author_id_fkey")
    else if not (has_user arg.recipient_id st)
    then err (foreign_key_violation "direct_messages_recipient_id_fkey")
    else ok (row, record st { direct_messages = st.direct_messages ++ row ∷ [] })

unfoldable pub select_direct_message : Uuid → Query DirectMessageRow
select_direct_message id st = one_row (find? (λ m. m.id == id) st.direct_messages) st

abbrev pub rebody_direct : Uuid → String → Time → DirectMessageRow → DirectMessageRow
rebody_direct id body now m = if m.id == id then record m { body = body; updated_at = now } else m

unfoldable pub update_direct_message_body : Uuid → String → Time → Query DirectMessageRow
update_direct_message_body id body now st =
    if is_empty body && any (λ m. m.id == id) st.direct_messages
    then err (check_violation "direct_messages_body_check")
    else let messages = map (rebody_direct id body now) st.direct_messages in
      one_row (find? (λ m. m.id == id) messages) (record st { direct_messages = messages })

unfoldable pub delete_direct_message : Uuid → Query ℕ
delete_direct_message id st = ok (
  count (λ m. m.id == id) st.direct_messages,
  record st { direct_messages = filter (λ m. not (m.id == id)) st.direct_messages },
)

-- The two ends of the message are the two users, in either order.
abbrev pub is_between : Uuid → Uuid → DirectMessageRow → Bool
is_between a b m =
    min m.author_id m.recipient_id == min a b && max m.author_id m.recipient_id == max a b

unfoldable pub list_direct_messages_between :
    Uuid → Uuid → Int32 → Int32 → Query (List DirectMessageRow)
list_direct_messages_between a b limit offset st =
    limited limit offset
      (order_by_desc (λ m. m.created_at) (filter (is_between a b) st.direct_messages)) st
