-- ===== src/Message/Service.antt =====
-- internal/message/service.go, one function for each method of Service. Each method makes one
-- statement outside a transaction. The new UUID and the server's time are arguments.
pub mod Threading
pub mod Paging
pub mod Direct
use waypoint_be.Base.{ℕ, String, List, [], map, ltb, ◌==◌, length, is_empty, max_int32, int32}
use waypoint_be.Store.{Uuid, Time, Store, DbError, no_rows}
use waypoint_be.Store.Messages
use waypoint_be.Session.{
  Action, ◌>>=◌, ◌>>◌, pure, reject_if, on_error, query, sentinel, wrapped, with_value, wrap_driver,
}
use waypoint_be.Message.{
  not_found, empty_body, message_to_self, invalid_limit, invalid_offset, conversation_with_self,
  Error, DirectMessage, SentDirectMessage, ChannelMessage, SentChannelMessage, sent_direct,
  sent_channel,
}

-- fmt.Errorf("text: %w", ErrNotFound) where no row answers, and the driver's error otherwise
pub missing : String → String → DbError → Error
missing what doing no_rows = wrapped what (sentinel not_found)
missing what doing e = wrap_driver doing e

-- Service.SendDirectMessage
unfoldable pub send_direct_message : Uuid → Time → DirectMessage → Action Error SentDirectMessage
send_direct_message fresh now dm = do
  reject_if (is_empty dm.body) (sentinel empty_body)
  reject_if (dm.author_id == dm.recipient_id) (sentinel message_to_self)
  sent ← on_error (wrap_driver "create direct message") (
      query (
        Messages.create_direct_message
          (record {
            id = fresh;
            author_id = dm.author_id;
            recipient_id = dm.recipient_id;
            body = dm.body;
          })
          now))
  pure (sent_direct sent)

-- Service.UpdateDirectMessage
unfoldable pub update_direct_message : Uuid → String → Time → Action Error SentDirectMessage
unfolding missing
update_direct_message id new_body now = do
  reject_if (is_empty new_body) (sentinel empty_body)
  updated ←
      on_error (missing "direct message" "update direct message")
        (query (Messages.update_direct_message_body id new_body now))
  pure (sent_direct updated)

-- Service.ReadSingleDirectMessage
unfoldable pub read_single_direct_message : Uuid → Action Error SentDirectMessage
unfolding missing
read_single_direct_message id = do
  msg ←
      on_error (missing "direct message" "read single direct message")
        (query (Messages.select_direct_message id))
  pure (sent_direct msg)

-- Service.ReadDirectMessagePage; `limit` and `offset` are uint32
unfoldable pub read_direct_message_page :
    Uuid → Uuid → ℕ → ℕ → Action Error (List SentDirectMessage)
read_direct_message_page user_a user_b limit offset = do
  reject_if (ltb max_int32 limit) (with_value (sentinel invalid_limit) limit)
  reject_if (ltb max_int32 offset) (with_value (sentinel invalid_offset) offset)
  reject_if (user_a == user_b) (sentinel conversation_with_self)
  messages ←
      on_error (wrap_driver "list direct messages")
        (query (Messages.list_direct_messages_between user_a user_b (int32 limit) (int32 offset)))
  pure (map sent_direct messages)

-- Service.DeleteDirectMessage
unfoldable pub delete_direct_message : Uuid → Action Error (Unit {0})
delete_direct_message id = do
  rows ← on_error (wrap_driver "delete direct message") (query (Messages.delete_direct_message id))
  reject_if (rows == 0) (wrapped "direct message" (sentinel not_found))

-- Service.SendChannelMessage
unfoldable pub send_channel_message : Uuid → Time → ChannelMessage → Action Error SentChannelMessage
send_channel_message fresh now cm = do
  reject_if (is_empty cm.body) (sentinel empty_body)
  sent ← on_error (wrap_driver "create channel message") (
      query (
        Messages.create_channel_message
          (record {
            id = fresh;
            author_id = cm.author_id;
            channel_id = cm.channel_id;
            body = cm.body;
            thread_root_id = cm.thread_root_id;
          })
          now))
  pure (sent_channel sent)

-- Service.UpdateChannelMessage
unfoldable pub update_channel_message : Uuid → String → Time → Action Error SentChannelMessage
unfolding missing
update_channel_message id new_body now = do
  reject_if (is_empty new_body) (sentinel empty_body)
  updated ←
      on_error (missing "channel message" "update channel message")
        (query (Messages.update_channel_message_body id new_body now))
  pure (sent_channel updated)

-- Service.ReadSingleChannelMessage
unfoldable pub read_single_channel_message : Uuid → Action Error SentChannelMessage
unfolding missing
read_single_channel_message id = do
  msg ←
      on_error (missing "channel message" "read single channel message")
        (query (Messages.select_channel_message id))
  pure (sent_channel msg)

-- Service.ReadChannelMessagePage; `limit` and `offset` are uint32
unfoldable pub read_channel_message_page : Uuid → ℕ → ℕ → Action Error (List SentChannelMessage)
read_channel_message_page channel_id limit offset = do
  reject_if (ltb max_int32 limit) (with_value (sentinel invalid_limit) limit)
  reject_if (ltb max_int32 offset) (with_value (sentinel invalid_offset) offset)
  messages ←
      on_error (wrap_driver "list channel messages")
        (query (Messages.list_channel_messages channel_id (int32 limit) (int32 offset)))
  pure (map sent_channel messages)

-- Service.ReadChannelThreadReplies
unfoldable pub read_channel_thread_replies : Uuid → Action Error (List SentChannelMessage)
read_channel_thread_replies root = do
  messages ←
      on_error (wrap_driver "read channel thread replies")
        (query (Messages.list_channel_thread_replies root))
  reject_if (length messages == 0) (wrapped "channel thread replies" (sentinel not_found))
  pure (map sent_channel messages)

-- Service.DeleteChannelMessage
unfoldable pub delete_channel_message : Uuid → Action Error (Unit {0})
delete_channel_message id = do
  rows ←
      on_error (wrap_driver "delete channel message") (query (Messages.delete_channel_message id))
  reject_if (rows == 0) (wrapped "channel message" (sentinel not_found))
