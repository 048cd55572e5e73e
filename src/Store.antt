-- ===== src/Store.antt =====
-- The schema of db/migrations as a record of tables, with the rows of internal/db/sqlc/models.go,
-- and the errors that a statement may end in. A UUID is its 128-bit number and a time is a number.
-- The children translate the statements, the foreign keys and the triggers.
pub mod Threads
pub mod Users
pub mod Workspaces
pub mod Channels
pub mod Messages
use waypoint_be.Base.{ℕ, String, Option, List, ◌==◌, Bool, any, Result}

abbrev pub Uuid : Type 0
Uuid = ℕ

-- The zero UUID, `uuid.UUID{}`.
abbrev pub zero_id : Uuid
zero_id = 0

abbrev pub Time : Type 0
Time = ℕ

pub record UserRow : Type 0 where
  pub id : Uuid
  pub email : String
  pub user_name : String
  pub display_name : String
  pub created_at : Time

pub record UserIdentityRow : Type 0 where
  pub id : Uuid
  pub user_id : Uuid
  pub issuer : String
  pub subject : String
  pub created_at : Time

pub record WorkspaceRow : Type 0 where
  pub id : Uuid
  pub name : String
  pub created_at : Time

pub record WorkspaceMemberRow : Type 0 where
  pub workspace_id : Uuid
  pub user_id : Uuid
  pub role : String
  pub joined_at : Time

pub record ChannelRow : Type 0 where
  pub id : Uuid
  pub workspace_id : Uuid
  pub name : String
  pub created_at : Time

pub record ChannelMemberRow : Type 0 where
  pub workspace_id : Uuid
  pub channel_id : Uuid
  pub user_id : Uuid
  pub joined_at : Time

-- `reply_count` is a BIGINT that a CHECK keeps at 0 or more.
pub record ChannelMessageRow : Type 0 where
  pub id : Uuid
  pub author_id : Uuid
  pub channel_id : Uuid
  pub created_at : Time
  pub updated_at : Time
  pub body : String
  pub thread_root_id : Option Uuid
  pub reply_count : ℕ

pub record DirectMessageRow : Type 0 where
  pub id : Uuid
  pub author_id : Uuid
  pub recipient_id : Uuid
  pub body : String
  pub created_at : Time
  pub updated_at : Time

pub record Store : Type 0 where
  pub users : List UserRow
  pub identities : List UserIdentityRow
  pub workspaces : List WorkspaceRow
  pub members : List WorkspaceMemberRow
  pub channels : List ChannelRow
  pub channel_members : List ChannelMemberRow
  pub channel_messages : List ChannelMessageRow
  pub direct_messages : List DirectMessageRow

-- What a driver call returns in place of a result. A violation carries its constraint's name;
-- `no_rows` is pgx.ErrNoRows, `in_failed_transaction` the answer of an aborted transaction,
-- `commit_rollback` pgx.ErrTxCommitRollback, `unavailable` any failure of the driver itself and
-- `negative_row_count` the refusal of a negative LIMIT or OFFSET.
pub data DbError : Type 0 where
  no_rows in_failed_transaction tx_closed commit_rollback unavailable negative_row_count : DbError
  unique_violation foreign_key_violation restrict_violation check_violation : String → DbError

-- A statement on the tables: its result and the tables after it, or an error.
abbrev pub Query : Type 0 → Type 0
Query A = Store → Result DbError (A × Store)

-- The rows that a key names.
abbrev pub has_user : Uuid → Store → Bool
has_user u st = any (λ r. r.id == u) st.users

abbrev pub has_workspace : Uuid → Store → Bool
has_workspace w st = any (λ r. r.id == w) st.workspaces
