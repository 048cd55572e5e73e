-- ===== src/Tests/Messages.antt =====
-- The theorems on messages at the small workspace.
use waypoint_be.Message.Service.Direct.{
  send_direct_message-read_single_direct_message, update_direct_message-read_single_direct_message,
}
use waypoint_be.Base.{
  ◌≡◌, refl, none, some, List, [], ◌∷◌, map, arith, ltb, ◌==◌, if◌then◌else◌, filter, any, find?,
  is_empty, ok, err, page, order_by_desc, max_int32,
}
use waypoint_be.Store.{ChannelMessageRow, Store}
use waypoint_be.Store.Threads.{delete_messages}
use waypoint_be.Session.{query, sentinel, wrapped, with_value}
use waypoint_be.Session.Healthy.{healthy}
use waypoint_be.Threads.{IsCounted}
use waypoint_be.Threads.Change.Rows.{Pruned}
use waypoint_be.Threads.Change.{delete_messages-IsCounted}
use waypoint_be.Message.{
  not_found, invalid_limit, invalid_offset, conversation_with_self, DirectMessage,
  SentDirectMessage, ChannelMessage, SentChannelMessage,
}
use waypoint_be.Message.Service.{
  send_direct_message, read_single_direct_message, update_direct_message, send_channel_message,
  delete_channel_message, read_direct_message_page, read_channel_message_page,
}
use waypoint_be.Message.Service.Threading.{
  send_channel_message-IsCounted, delete_channel_message-table,
}
use waypoint_be.Message.Service.Paging.{
  conversation, read_direct_message_page-table, channel_view, read_channel_message_page-table,
}
use waypoint_be.Tests.{team, team-IsCounted, losing}

abbrev reply : ChannelMessage
reply = record { author_id = 1; channel_id = 20; body = "ok"; thread_root_id = some 50 }

-- The reply is counted at its root.
reply_counted :
    map
      (λ m. m.reply_count)
      (send_channel_message 52 9 reply (healthy team)).1.committed.channel_messages
    ≡ 2 ∷ 0 ∷ 0 ∷ []
unfolding send_channel_message query is_empty waypoint_be.Store.Messages.create_channel_message any
reply_counted = refl

send_channel_message-IsCounted_example :
    IsCounted (send_channel_message 52 9 reply losing).1.committed.channel_messages
send_channel_message-IsCounted_example =
    send_channel_message-IsCounted 52 9 reply losing team-IsCounted

delete_channel_message-table_example :
    (left : List ChannelMessageRow) × (delete_channel_message 51 (healthy team) ≡ (
      (if any (λ m. m.id == 51) team.channel_messages
          then ok tt
          else err (wrapped "channel message" (sentinel not_found))),
      record (healthy team) { committed = record team { channel_messages = left } },
    ))
    × IsCounted left
    × Pruned 51 50 team.channel_messages left
delete_channel_message-table_example =
    delete_channel_message-table 51 50 team team-IsCounted (λ e. ground arith)

delete_messages-IsCounted_example :
    (left : List ChannelMessageRow) × (delete_messages (λ m. m.id == 51) team.channel_messages
      ≡ ok left)
    × IsCounted left
delete_messages-IsCounted_example =
    delete_messages-IsCounted (λ m. m.id == 51) team.channel_messages team-IsCounted

read_direct_message_page-table_example : read_direct_message_page 1 2 1 0 (healthy team) ≡ (
  (if ltb max_int32 1
      then err (with_value (sentinel invalid_limit) 1)
      else if ltb max_int32 0
      then err (with_value (sentinel invalid_offset) 0)
      else if 1 == 2
      then err (sentinel conversation_with_self)
      else ok (page 1 0 (conversation 1 2 team))),
  healthy team,
)
read_direct_message_page-table_example = read_direct_message_page-table 1 2 1 0 team

read_channel_message_page-table_example : read_channel_message_page 20 5 0 (healthy team) ≡ (
  (if ltb max_int32 5
      then err (with_value (sentinel invalid_limit) 5)
      else if ltb max_int32 0
      then err (with_value (sentinel invalid_offset) 0)
      else ok (page 5 0 (channel_view 20 team))),
  healthy team,
)
read_channel_message_page-table_example = read_channel_message_page-table 20 5 0 team

abbrev newest : SentDirectMessage
newest = record {
  id = 61;
  author_id = 2;
  recipient_id = 1;
  body = "b";
  created_at = 9;
  updated_at = 9;
}

abbrev oldest : SentDirectMessage
oldest = record {
  id = 60;
  author_id = 1;
  recipient_id = 2;
  body = "a";
  created_at = 8;
  updated_at = 8;
}

first_page : (read_direct_message_page 1 2 1 0 (healthy team)).0 ≡ ok (newest ∷ [])
unfolding read_direct_message_page query waypoint_be.Store.Messages.list_direct_messages_between
    order_by_desc filter
first_page = refl

-- The reply in the channel is not on the page.
abbrev root : SentChannelMessage
root = record {
  id = 50;
  author_id = 1;
  channel_id = 20;
  created_at = 5;
  updated_at = 5;
  body = "hi";
  thread_root_id = none;
  reply_count = 1;
}

channel_page : (read_channel_message_page 20 5 0 (healthy team)).0 ≡ ok (root ∷ [])
unfolding read_channel_message_page query waypoint_be.Store.Messages.list_channel_messages
    order_by_desc filter
channel_page = refl

abbrev hello : DirectMessage
hello = record { author_id = 1; recipient_id = 3; body = "hello" }

abbrev sent_hello : SentDirectMessage
sent_hello = record {
  id = 62;
  author_id = 1;
  recipient_id = 3;
  body = "hello";
  created_at = 10;
  updated_at = 10;
}

hello_sent : (send_direct_message 62 10 hello (healthy team)).0 ≡ ok sent_hello
unfolding send_direct_message query waypoint_be.Store.Messages.create_direct_message is_empty any
hello_sent = refl

send_direct_message-read_single_direct_message_example :
    (read_single_direct_message 62
      (healthy (send_direct_message 62 10 hello (healthy team)).1.committed)).0
    ≡ ok sent_hello
send_direct_message-read_single_direct_message_example =
    send_direct_message-read_single_direct_message 62 10 hello (healthy team) sent_hello hello_sent

abbrev changed : SentDirectMessage
changed = record newest { body = "c"; updated_at = 11 }

newest_changed : (update_direct_message 61 "c" 11 (healthy team)).0 ≡ ok changed
unfolding update_direct_message query waypoint_be.Store.Messages.update_direct_message_body is_empty
    any find?
newest_changed = refl

update_direct_message-read_single_direct_message_example :
    let after = (update_direct_message 61 "c" 11 (healthy team)).1.committed in
    (old : SentDirectMessage) × ((read_single_direct_message 61 (healthy team)).0 ≡ ok old)
    × (changed ≡ record old { body = "c"; updated_at = 11 })
    × ((read_single_direct_message 61 (healthy after)).0 ≡ ok changed)
    × ((read_single_direct_message 60 (healthy after)).0
        ≡ (read_single_direct_message 60 (healthy team)).0)
update_direct_message-read_single_direct_message_example =
    update_direct_message-read_single_direct_message 61 "c" 11 (healthy team) changed 60
      newest_changed (ground arith)
