-- ===== src/Message/Service/Threading.antt =====
-- internal/message/service.go, SendChannelMessage and DeleteChannelMessage, against the threads.
use waypoint_be.Base.{
  ◌≡◌, refl, ◌≢◌, inl, inr, Bool, not, List, arith, ◌==◌, if◌then◌else◌, Bool-cases, any, count,
  any-count, any-false-count, is_empty, ok, err,
}
use waypoint_be.Store.{Uuid, Time, ChannelMessageRow, Store}
use waypoint_be.Store.Messages
use waypoint_be.Session.{Session, query, sentinel, wrapped, wrap_driver}
use waypoint_be.Session.Healthy.{healthy}
use waypoint_be.Session.Rules.{pure-Triple, bind-Triple, reject-Triple, Kept, ends-Kept}
use waypoint_be.Session.Statement.{query-Triple}
use waypoint_be.Threads.{IsCounted}
use waypoint_be.Threads.Change.{delete_messages-IsCounted}
use waypoint_be.Threads.Change.Rows.{Pruned, delete_messages-Pruned}
use waypoint_be.Threads.Insert.{create_channel_message-IsCounted}
use waypoint_be.Message.{not_found, empty_body, ChannelMessage, sent_channel}
use waypoint_be.Message.Service.{send_channel_message, delete_channel_message}

abbrev Counted : Store → Type 0
Counted st = IsCounted st.channel_messages

-- On any session whose committed threads are counted, they are counted after SendChannelMessage.
pub send_channel_message-IsCounted :
    (fresh : Uuid) (now : Time) (cm : ChannelMessage) (s : Session)
    → IsCounted s.committed.channel_messages
    → IsCounted (send_channel_message fresh now cm s).1.committed.channel_messages
unfolding send_channel_message
send_channel_message-IsCounted fresh now cm s c =
    ends-Kept Counted
      (reject-Triple (is_empty cm.body) (sentinel empty_body) (λ t h. h)
        λ _.
          bind-Triple (λ _. Kept Counted)
            (query-Triple Counted (Messages.create_channel_message _ now)
              (λ st k row st' h. create_channel_message-IsCounted _ now st row st' h k)
              (wrap_driver "create channel message"))
            λ sent. pure-Triple (λ _. Kept Counted) _ (sent_channel sent))
      s c

-- `rows == 0` is false exactly where a row was doomed.
rows-found :
    (p : ChannelMessageRow → Bool) (ms : List ChannelMessageRow)
    → (count p ms == 0) ≡ not (any p ms)
rows-found p ms = elim (Bool-cases (any p ms)) [
  | inl e ↦ ground (arith, any-count p ms)
  | inr e ↦ ground (arith, any-false-count p ms)
]

-- With counted threads and every driver call served, DeleteChannelMessage succeeds where the
-- channel messages have the id and otherwise answers that there is no such channel message; the
-- committed tables have then only other channel messages, which are counted, among them no
-- message with the id and no reply to it, and every other message that starts a thread is there
-- if it was before.
pub delete_channel_message-table :
    (id other : Uuid) (st : Store)
    → IsCounted st.channel_messages
    → other ≢ id
    → (left : List ChannelMessageRow) × (delete_channel_message id (healthy st) ≡ (
      (if any (λ m. m.id == id) st.channel_messages
          then ok tt
          else err (wrapped "channel message" (sentinel not_found))),
      record (healthy st) { committed = record st { channel_messages = left } },
    ))
      × IsCounted left
      × Pruned id other st.channel_messages left
unfolding delete_channel_message Messages.delete_channel_message query
delete_channel_message-table id other st c n =
    let (left, done, counted) = delete_messages-IsCounted (λ m. m.id == id) st.channel_messages c in
    let found = rows-found (λ m. m.id == id) st.channel_messages in
    (
      left,
      (rw (done, found)
          elim (Bool-cases (any (λ m. m.id == id) st.channel_messages)) [
            | inl e ↦ rw e refl
            | inr e ↦ rw e refl
          ]),
      counted,
      delete_messages-Pruned id other st.channel_messages left n c counted done,
    )
