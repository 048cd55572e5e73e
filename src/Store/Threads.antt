-- ===== src/Store/Threads.antt =====
-- Deleting channel messages: the foreign key on `thread_root_id` that cascades to replies, and the
-- trigger that keeps `reply_count` (db/migrations 000001, 000003 and 000005).
use waypoint_be.Base.{
  ℕ, zero, suc, ◌-◌, Bool, true, false, not, none, some, List, map, ltb, ◌==◌, if◌then◌else◌,
  length, filter, any, count, Result, ok, err,
}
use waypoint_be.Store.{Uuid, ChannelMessageRow, DbError, check_violation}

abbrev pub is_reply : Uuid → ChannelMessageRow → Bool
is_reply r m = elim m.thread_root_id [ none ↦ false | some t ↦ t == r ]

-- The number of rows whose thread root is `r`.
abbrev pub replies : Uuid → List ChannelMessageRow → ℕ
replies r ms = count (is_reply r) ms

-- The foreign key on `thread_root_id` holds for this row.
abbrev pub is_anchored : List ChannelMessageRow → ChannelMessageRow → Bool
is_anchored ms m = elim m.thread_root_id [ none ↦ true | some t ↦ any (λ r. r.id == t) ms ]

-- ON DELETE CASCADE, one generation of replies in each round.
unfoldable pub sweep : ℕ → List ChannelMessageRow → List ChannelMessageRow
sweep zero ms = ms
sweep (suc n) ms = sweep n (filter (is_anchored ms) ms)

-- The delete trigger's effect on a row that stays: one less for each of its replies that went.
abbrev pub lost_replies : List ChannelMessageRow → List ChannelMessageRow → ChannelMessageRow → ℕ
lost_replies before after m = replies m.id before - replies m.id after

abbrev pub discount :
    List ChannelMessageRow → List ChannelMessageRow → ChannelMessageRow → ChannelMessageRow
discount before after m = record m { reply_count = m.reply_count - lost_replies before after m }

-- The rows that `doomed` names go, then the replies to them, and the counters are brought down; a
-- counter that would fall below 0 violates its CHECK.
unfoldable pub delete_messages :
    (ChannelMessageRow → Bool) → List ChannelMessageRow → Result DbError (List ChannelMessageRow)
delete_messages doomed ms =
    let kept = sweep (length ms) (filter (λ m. not (doomed m)) ms) in
    if any (λ m. ltb m.reply_count (lost_replies ms kept m)) kept
    then err (check_violation "channel_messages_reply_count_check")
    else ok (map (discount ms kept) kept)
