-- ===== src/Message.antt =====
-- internal/message: model.go and errors.go. The service and its proofs are in the children.
pub mod Service
use waypoint_be.Base.{ℕ, String, Option}
use waypoint_be.Store.{Uuid, Time, ChannelMessageRow, DirectMessageRow}
use waypoint_be.Session.{Failure}

pub data MessageError : Type 0 where
  not_found empty_body message_to_self invalid_limit invalid_offset : MessageError
  conversation_with_self : MessageError

abbrev pub Error : Type 0
Error = Failure MessageError

pub record DirectMessage : Type 0 where
  pub author_id : Uuid
  pub recipient_id : Uuid
  pub body : String

pub record SentDirectMessage : Type 0 where
  pub id : Uuid
  pub author_id : Uuid
  pub recipient_id : Uuid
  pub body : String
  pub created_at : Time
  pub updated_at : Time

pub record ChannelMessage : Type 0 where
  pub author_id : Uuid
  pub channel_id : Uuid
  pub body : String
  pub thread_root_id : Option Uuid

pub record SentChannelMessage : Type 0 where
  pub id : Uuid
  pub author_id : Uuid
  pub channel_id : Uuid
  pub body : String
  pub thread_root_id : Option Uuid
  pub reply_count : ℕ
  pub created_at : Time
  pub updated_at : Time

-- The composite literals that the service builds from a row.
abbrev pub sent_direct : DirectMessageRow → SentDirectMessage
sent_direct m = record {
  id = m.id;
  author_id = m.author_id;
  recipient_id = m.recipient_id;
  body = m.body;
  created_at = m.created_at;
  updated_at = m.updated_at;
}

abbrev pub sent_channel : ChannelMessageRow → SentChannelMessage
sent_channel m = record {
  id = m.id;
  author_id = m.author_id;
  channel_id = m.channel_id;
  body = m.body;
  thread_root_id = m.thread_root_id;
  reply_count = m.reply_count;
  created_at = m.created_at;
  updated_at = m.updated_at;
}
