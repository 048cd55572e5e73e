-- ===== src/Message/Service/Paging.antt =====
-- internal/message/service.go, the pages of messages: the views that they are pages of.
use waypoint_be.Base.{
  ℕ, ◌≡◌, Bool, ◌&&◌, ◌||◌, Option, none, some, List, [], ◌∷◌, true, false, refl, map, arith, ltb,
  ◌==◌, if◌then◌else◌, filter, filter_ext, ok, err, page, order_by_desc, max_int32, map-page,
}
use waypoint_be.Store.{Uuid, DirectMessageRow, ChannelMessageRow, Store}
use waypoint_be.Store.Messages
use waypoint_be.Session.{query, sentinel, with_value}
use waypoint_be.Session.Healthy.{healthy}
use waypoint_be.Message.{
  invalid_limit, invalid_offset, conversation_with_self, Error, SentDirectMessage,
  SentChannelMessage, sent_direct, sent_channel,
}
use waypoint_be.Message.Service.{read_direct_message_page, read_channel_message_page}

-- One of the two users wrote the message to the other.
abbrev pub is_exchange : Uuid → Uuid → DirectMessageRow → Bool
is_exchange a b m =
    (m.author_id == a && m.recipient_id == b) || (m.author_id == b && m.recipient_id == a)

-- The messages that two users exchanged, newest first.
abbrev pub conversation : Uuid → Uuid → Store → List SentDirectMessage
conversation a b st =
    map sent_direct
      (order_by_desc (λ m. m.created_at) (filter (is_exchange a b) st.direct_messages))

-- LEAST and GREATEST compare the ends as an unordered pair.
between-exchange :
    (a b : Uuid) (m : DirectMessageRow) → Messages.is_between a b m ≡ is_exchange a b m
between-exchange a b m = ground arith

-- The refusals of the page methods.
abbrev pub page_refusal : ℕ → ℕ → Option Error
page_refusal limit offset =
    if ltb max_int32 limit
    then some (with_value (sentinel invalid_limit) limit)
    else if ltb max_int32 offset
    then some (with_value (sentinel invalid_offset) offset)
    else none

-- With every driver call served, ReadDirectMessagePage changes nothing; it refuses a limit or an
-- offset above the largest int32 and a conversation of a user with themselves, in this order, and
-- otherwise returns that page of the conversation.
pub read_direct_message_page-table :
    (a b limit offset : ℕ) (st : Store)
    → read_direct_message_page a b limit offset (healthy st) ≡ (
      (if ltb max_int32 limit
          then err (with_value (sentinel invalid_limit) limit)
          else if ltb max_int32 offset
          then err (with_value (sentinel invalid_offset) offset)
          else if a == b
          then err (sentinel conversation_with_self)
          else ok (page limit offset (conversation a b st))),
      healthy st,
    )
unfolding read_direct_message_page query Messages.list_direct_messages_between
read_direct_message_page-table a b limit offset st = ground (
  arith,
  filter_ext (Messages.is_between a b) (is_exchange a b) st.direct_messages (between-exchange a b),
  map-page sent_direct limit offset
      (order_by_desc (λ m. m.created_at) (filter (is_exchange a b) st.direct_messages)),
)

has_no_root : Option Uuid → Bool
has_no_root none = true
has_no_root (some _) = false

-- A message that starts a thread of its own.
pub starts_thread : ChannelMessageRow → Bool
unfolding has_no_root
starts_thread m = has_no_root m.thread_root_id

-- The messages of a channel that are no replies, newest first.
unfoldable pub channel_view : Uuid → Store → List SentChannelMessage
channel_view c st = map sent_channel (
    order_by_desc (λ m. m.created_at)
      (filter starts_thread (filter (λ m. m.channel_id == c) st.channel_messages)))

is_top_level-starts_thread :
    (c : Uuid) (m : ChannelMessageRow)
    → Messages.is_top_level c m ≡ ((m.channel_id == c) && starts_thread m)
unfolding starts_thread has_no_root
is_top_level-starts_thread c m = go m.thread_root_id
  where
    go :
        (o : Option Uuid)
        → ((m.channel_id == c) && elim o [ none ↦ true | some _ ↦ false ])
          ≡ ((m.channel_id == c) && has_no_root o)
    go none = refl
    go (some r) = refl

top_level-starts_thread :
    (c : Uuid) (ms : List ChannelMessageRow)
    → filter (Messages.is_top_level c) ms
      ≡ filter starts_thread (filter (λ m. m.channel_id == c) ms)
unfolding filter
top_level-starts_thread c [] = refl
top_level-starts_thread c (m ∷ ms) =
    ground (arith, top_level-starts_thread c ms, is_top_level-starts_thread c m)

-- With every driver call served, ReadChannelMessagePage changes nothing; it refuses a limit or an
-- offset above the largest int32, in this order, and otherwise returns that page of the channel's
-- messages that are no replies.
pub read_channel_message_page-table :
    (c limit offset : ℕ) (st : Store)
    → read_channel_message_page c limit offset (healthy st) ≡ (
      (if ltb max_int32 limit
          then err (with_value (sentinel invalid_limit) limit)
          else if ltb max_int32 offset
          then err (with_value (sentinel invalid_offset) offset)
          else ok (page limit offset (channel_view c st))),
      healthy st,
    )
unfolding read_channel_message_page query Messages.list_channel_messages channel_view
read_channel_message_page-table c limit offset st = ground (
  arith,
  top_level-starts_thread c st.channel_messages,
  map-page sent_channel limit offset
      (order_by_desc (λ m. m.created_at) (filter (Messages.is_top_level c) st.channel_messages)),
)
