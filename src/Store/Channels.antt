-- ===== src/Store/Channels.antt =====
-- The statements of internal/db/sqlc/channels.sql.go, with the constraints of the tables `channels`
-- and `channel_members` and the foreign keys that cascade from them.
use waypoint_be.Base.{
  ℕ, String, not, ◌&&◌, List, [], ◌∷◌, ◌++◌, str_eq, ◌==◌, if◌then◌else◌, filter, any, find?, count,
  order_by, ok, err, and_then,
}
use waypoint_be.Store.{
  Uuid, Time, ChannelRow, ChannelMemberRow, unique_violation, foreign_key_violation, Query,
  has_user, has_workspace,
}
use waypoint_be.Store.Threads.{delete_messages}
use waypoint_be.Store.Users.{one_row}
use waypoint_be.Store.Workspaces.{is_member}

pub record AddChannelMemberParams : Type 0 where
  pub workspace_id : Uuid
  pub channel_id : Uuid
  pub user_id : Uuid

-- ON CONFLICT DO NOTHING leaves a row with the key as it is, and checks no foreign key.
unfoldable pub add_channel_member : AddChannelMemberParams → Time → Query (Unit {0})
add_channel_member arg now st =
    let row : ChannelMemberRow = record {
      workspace_id = arg.workspace_id;
      channel_id = arg.channel_id;
      user_id = arg.user_id;
      joined_at = now;
    } in
    if any (λ r. r.channel_id == arg.channel_id && r.user_id == arg.user_id) st.channel_members
    then ok (tt, st)
    else if not (has_user arg.user_id st)
    then err (foreign_key_violation "channel_members_user_id_fkey")
    else if not
        (any (λ c. c.workspace_id == arg.workspace_id && c.id == arg.channel_id) st.channels)
    then err (foreign_key_violation "channel_members_workspace_channel_fkey")
    else if not (any (is_member arg.workspace_id arg.user_id) st.members)
    then err (foreign_key_violation "channel_members_workspace_member_fkey")
    else ok (tt, record st { channel_members = st.channel_members ++ row ∷ [] })

pub record CreateChannelParams : Type 0 where
  pub id : Uuid
  pub workspace_id : Uuid
  pub name : String

unfoldable pub create_channel : CreateChannelParams → Time → Query ChannelRow
create_channel arg now st =
    let row : ChannelRow = record {
      id = arg.id;
      workspace_id = arg.workspace_id;
      name = arg.name;
      created_at = now;
    } in
    if any (λ c. c.id == arg.id) st.channels
    then err (unique_violation "channels_pkey")
    else if any (λ c. c.workspace_id == arg.workspace_id && str_eq c.name arg.name) st.channels
    then err (unique_violation "channels_workspace_name_unique")
    else if not (has_workspace arg.workspace_id st)
    then err (foreign_key_violation "channels_workspace_id_fkey")
    else ok (row, record st { channels = st.channels ++ row ∷ [] })

-- The deletion of a channel takes its members and its messages with it.
unfoldable pub delete_channel : Uuid → Query ℕ
delete_channel id st =
    and_then
      (delete_messages (λ m. m.channel_id == id && any (λ c. c.id == id) st.channels)
        st.channel_messages)
      λ messages. ok (
        count (λ c. c.id == id) st.channels,
        record st {
          channels = filter (λ c. not (c.id == id)) st.channels;
          channel_members =
              filter
                (λ r. not (
                  any (λ c. c.id == id && c.id == r.channel_id && c.workspace_id == r.workspace_id)
                    st.channels))
                st.channel_members;
          channel_messages = messages;
        },
      )

-- ORDER BY name, given the place of each text in the collation of the database.
unfoldable pub list_workspace_channels : (String → ℕ) → Uuid → Query (List ChannelRow)
list_workspace_channels place w st =
    ok (order_by (λ c. place c.name) (filter (λ c. c.workspace_id == w) st.channels), st)

unfoldable pub select_channel : Uuid → Query ChannelRow
select_channel id st = one_row (find? (λ c. c.id == id) st.channels) st
