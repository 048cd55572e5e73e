-- ===== src/Threads/Change.antt =====
-- The deletion of channel messages, with its cascade and its trigger, against the counters.
pub mod Rows
use waypoint_be.Base.{
  ◌≤◌, ◌≡◌, refl, ◌∙◌, Bool, true, false, not, Option, none, some, List, map, arith, ltb, ◌==◌,
  length, filter, any, count-filter-le, all, all_mono, all-filter, all-any_not, length-filter-le,
  any-map, all-map, count-map, ok,
}
use waypoint_be.Store.{Uuid, ChannelMessageRow}
use waypoint_be.Store.Threads.{
  is_reply, replies, is_anchored, sweep, lost_replies, discount, delete_messages,
}
use waypoint_be.Threads.{IsCounted}
use waypoint_be.Threads.Sweep.{sweep-anchored, count-sweep-le, all-sweep}

abbrev counts : List ChannelMessageRow → ChannelMessageRow → Bool
counts ms m = m.reply_count == replies m.id ms

module _ (doomed : ChannelMessageRow → Bool) (ms : List ChannelMessageRow) where
  alive : List ChannelMessageRow
  alive = filter (λ m. not (doomed m)) ms

  kept : List ChannelMessageRow
  unfolding alive
  kept = sweep (length ms) alive

  fewer : (r : Uuid) → replies r kept ≤ replies r ms
  unfolding kept alive
  fewer r = omega (
    arith,
    count-sweep-le (is_reply r) (length ms) alive,
    count-filter-le (is_reply r) (λ m. not (doomed m)) ms,
  )

  kept-anchored : all (is_anchored kept) kept ≡ true
  unfolding kept alive
  kept-anchored = sweep-anchored (length ms) alive (length-filter-le (λ m. not (doomed m)) ms)

  kept-counts : all (counts ms) ms ≡ true → all (counts ms) kept ≡ true
  unfolding kept alive
  kept-counts h =
      all-sweep (counts ms) (length ms) alive (all-filter (counts ms) (λ m. not (doomed m)) ms h)

  -- A counter that was right does not fall below 0.
  none_overdrawn :
      all (counts ms) ms ≡ true → any (λ m. ltb m.reply_count (lost_replies ms kept m)) kept ≡ false
  none_overdrawn h =
      all-any_not (counts ms) (λ m. ltb m.reply_count (lost_replies ms kept m)) kept
        (λ m e. ground arith) (kept-counts h)

  replies-discount : (r : Uuid) → replies r (map (discount ms kept) kept) ≡ replies r kept
  replies-discount r = count-map (discount ms kept) (is_reply r) kept

  anchored-discount :
      (m : ChannelMessageRow)
      → is_anchored kept m ≡ true
      → is_anchored (map (discount ms kept) kept) (discount ms kept m) ≡ true
  anchored-discount m h = anchored_at m.thread_root_id h
    where
      anchored_at :
          (o : Option Uuid)
          → elim o [ none ↦ true | some t ↦ any (λ r. r.id == t) kept ] ≡ true
          → elim o [ none ↦ true | some t ↦ any (λ r. r.id == t) (map (discount ms kept) kept) ]
            ≡ true
      anchored_at none e = refl
      anchored_at (some t) e = any-map (discount ms kept) (λ r. r.id == t) kept ∙ e

  discounted-IsCounted : all (counts ms) ms ≡ true → IsCounted (map (discount ms kept) kept)
  discounted-IsCounted h = record {
    anchored =
        all-map (discount ms kept) _ kept
        ∙ all_mono (is_anchored kept) _ kept anchored-discount kept-anchored;
    counted =
        all-map (discount ms kept) _ kept
        ∙ all_mono (counts ms) _ kept (λ m e. ground (arith, replies-discount m.id, fewer m.id))
            (kept-counts h);
  }

  delete_messages_lem :
      all (counts ms) ms ≡ true → delete_messages doomed ms ≡ ok (map (discount ms kept) kept)
  unfolding delete_messages kept alive
  delete_messages_lem h = rw (none_overdrawn h) refl

-- In counted threads a deletion of messages succeeds, and the threads that are left are counted:
-- the cascade leaves no reply without its root, and each counter is the number of replies that
-- are left.
pub delete_messages-IsCounted :
    (doomed : ChannelMessageRow → Bool) (ms : List ChannelMessageRow)
    → IsCounted ms
    → (left : List ChannelMessageRow) × (delete_messages doomed ms ≡ ok left) × IsCounted left
delete_messages-IsCounted doomed ms c = (
  map (discount ms (kept doomed ms)) (kept doomed ms),
  delete_messages_lem doomed ms c.counted,
  discounted-IsCounted doomed ms c.counted,
)
