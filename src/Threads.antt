-- ===== src/Threads.antt =====
-- What the table `channel_messages` promises of threads: the foreign key on `thread_root_id`, and
-- the counters that the triggers of db/migrations keep.
pub mod Sweep
pub mod Change
pub mod Insert
use waypoint_be.Base.{◌≡◌, true, List, [], ◌==◌, all}
use waypoint_be.Store.{ChannelMessageRow}
use waypoint_be.Store.Threads.{replies, is_anchored}

pub record IsCounted (ms : List ChannelMessageRow) : Type 0 where
  -- every reply's root is a row
  pub anchored : all (is_anchored ms) ms ≡ true
  -- every counter is the number of replies
  pub counted : all (λ m. m.reply_count == replies m.id ms) ms ≡ true
