-- ===== src/Threads/Insert.antt =====
-- A new channel message, with the trigger that counts it.
use mathlib.Core.Path.{subst}
use waypoint_be.Base.{
  ◌+◌, ◌≡◌, refl, ap, ◌∙◌, Bool, true, false, not, Option, none, some, List, [], ◌∷◌, ◌++◌, map,
  arith, ◌==◌, if◌then◌else◌, ==-false_of_test, any, count-append, count-single, count_ext, any_ext,
  any-append, all_mono, all-append, all-count_zero, any-map, all-map, count-map, all-single,
  is_empty, Result, ok, unless-ok,
}
use waypoint_be.Store.{Uuid, Time, ChannelMessageRow, Store, DbError, has_user}
use waypoint_be.Store.Threads.{is_reply, replies, is_anchored}
use waypoint_be.Store.Messages.{
  bump, create_channel_message, CreateChannelMessageParams, has_channel,
}
use waypoint_be.Threads.{IsCounted}

abbrev counts : List ChannelMessageRow → ChannelMessageRow → Bool
counts ms m = m.reply_count == replies m.id ms

bump-id : (root : Option Uuid) (m : ChannelMessageRow) → (bump root m).id ≡ m.id
bump-id none m = refl
bump-id (some r) m = ground arith

bump-root :
    (root : Option Uuid) (m : ChannelMessageRow) → (bump root m).thread_root_id ≡ m.thread_root_id
bump-root none m = refl
bump-root (some r) m = ground arith

-- The rows that a new reply counts for.
abbrev is_root : Option Uuid → Uuid → Bool
is_root root id = elim root [ none ↦ false | some t ↦ t == id ]

bump-count :
    (root : Option Uuid) (m : ChannelMessageRow)
    → (bump root m).reply_count ≡ m.reply_count + (if is_root root m.id then 1 else 0)
bump-count none m = omega arith
bump-count (some r) m = ground arith

module _ (ms : List ChannelMessageRow) (row : ChannelMessageRow) where
  abbrev longer : List ChannelMessageRow
  longer = ms ++ row ∷ []

  abbrev root : Option Uuid
  root = row.thread_root_id

  abbrev bumped : List ChannelMessageRow
  bumped = map (bump root) longer

  is_reply-bump : (r : Uuid) (m : ChannelMessageRow) → is_reply r (bump root m) ≡ is_reply r m
  is_reply-bump r m = ap (λ o. is_root o r) (bump-root root m)

  replies-bumped : (r : Uuid) → replies r bumped ≡ replies r ms + (if is_root root r then 1 else 0)
  replies-bumped r =
      count-map (bump root) (is_reply r) longer
      ∙ count_ext (λ m. is_reply r (bump root m)) (is_reply r) longer (is_reply-bump r)
      ∙ count-append (is_reply r) ms (row ∷ [])
      ∙ ap (λ n. replies r ms + n) (count-single (is_reply r) row)

  -- A root that stood stands after the insertion and the trigger.
  anchored_on :
      (m : ChannelMessageRow)
      → is_anchored longer m ≡ true
      → is_anchored bumped (bump root m) ≡ true
  anchored_on m h =
      ap (λ o. elim o [ none ↦ true | some t ↦ any (λ r. r.id == t) bumped ]) (bump-root root m)
      ∙ go m.thread_root_id h
    where
      go :
          (o : Option Uuid)
          → elim o [ none ↦ true | some t ↦ any (λ r. r.id == t) longer ] ≡ true
          → elim o [ none ↦ true | some t ↦ any (λ r. r.id == t) bumped ] ≡ true
      go none e = refl
      go (some t) e =
          any-map (bump root) (λ r. r.id == t) longer
          ∙ any_ext (λ m. (bump root m).id == t) (λ m. m.id == t) longer
              (λ m. ap (λ i. i == t) (bump-id root m))
          ∙ e

  anchored_longer : (m : ChannelMessageRow) → is_anchored ms m ≡ true → is_anchored longer m ≡ true
  anchored_longer m h = go m.thread_root_id h
    where
      go :
          (o : Option Uuid)
          → elim o [ none ↦ true | some t ↦ any (λ r. r.id == t) ms ] ≡ true
          → elim o [ none ↦ true | some t ↦ any (λ r. r.id == t) longer ] ≡ true
      go none e = refl
      go (some t) e = any-append (λ r. r.id == t) ms (row ∷ []) ∙ ground arith

  module _ (c : IsCounted ms) (fresh : any (λ m. m.id == row.id) ms ≡ false)
      (start : row.reply_count ≡ 0) (there : is_anchored longer row ≡ true) where
    -- No row can be a reply to one that is not there.
    no_replies : replies row.id ms ≡ 0
    no_replies =
        all-count_zero (is_anchored ms) (is_reply row.id) ms (λ m h. go m.thread_root_id h)
          c.anchored
      where
        go :
            (o : Option Uuid)
            → elim o [ none ↦ true | some t ↦ any (λ r. r.id == t) ms ] ≡ true
            → is_root o row.id ≡ false
        go none e = refl
        go (some t) e = ==-false_of_test (λ k. any (λ r. r.id == k) ms) t row.id e fresh

    counts_on : (m : ChannelMessageRow) → counts ms m ≡ true → counts bumped (bump root m) ≡ true
    counts_on m h = rw (bump-id root m) (ground (arith, bump-count root m, replies-bumped m.id))

    bumped-IsCounted : IsCounted bumped
    bumped-IsCounted = record {
      anchored =
          all-map (bump root) _ longer
          ∙ all_mono (is_anchored longer) _ longer anchored_on (
              all-append (is_anchored longer) ms (row ∷ [])
              ∙ ground (
                arith,
                all_mono (is_anchored ms) (is_anchored longer) ms anchored_longer c.anchored,
                all-single (is_anchored longer) row,
              ));
      counted =
          all-map (bump root) _ longer
          ∙ all_mono (counts ms) _ longer counts_on (
              all-append (counts ms) ms (row ∷ [])
              ∙ ground (arith, c.counted, all-single (counts ms) row, no_replies));
    }

abbrev row_of : CreateChannelMessageParams → Time → ChannelMessageRow
row_of arg now = record {
  id = arg.id;
  author_id = arg.author_id;
  channel_id = arg.channel_id;
  created_at = now;
  updated_at = now;
  body = arg.body;
  thread_root_id = arg.thread_root_id;
  reply_count = 0;
}

-- The tests of the statement, passed, and the tables that it leaves.
record Sent (arg : CreateChannelMessageParams) (now : Time) (st : Store) (row : ChannelMessageRow)
    (st' : Store) : Type 0 where
  fresh : any (λ m. m.id == arg.id) st.channel_messages ≡ false
  unrooted : not (is_anchored (st.channel_messages ++ row_of arg now ∷ []) (row_of arg now)) ≡ false
  tables :
      ◌≡◌ {A = Result DbError (ChannelMessageRow × Store)}
        (ok (
          row_of arg now,
          record st {
            channel_messages =
                map (bump arg.thread_root_id) (st.channel_messages ++ row_of arg now ∷ []);
          },
        ))
        (ok (row, st'))

create_channel_message-Sent :
    (arg : CreateChannelMessageParams) (now : Time) (st : Store) (row : ChannelMessageRow)
    (st' : Store)
    → create_channel_message arg now st ≡ ok (row, st')
    → Sent arg now st row st'
unfolding create_channel_message
create_channel_message-Sent arg now st row st' h =
    let a = unless-ok (is_empty arg.body) _ _ (row, st') h in
    let b = unless-ok (any (λ m. m.id == arg.id) st.channel_messages) _ _ (row, st') a.1 in
    let c = unless-ok (not (has_user arg.author_id st)) _ _ (row, st') b.1 in
    let d = unless-ok (not (has_channel arg.channel_id st)) _ _ (row, st') c.1 in
    let e =
      unless-ok (not (is_anchored (st.channel_messages ++ row_of arg now ∷ []) (row_of arg now))) _
        _ (row, st') d.1 in
    record { fresh = b.0; unrooted = e.0; tables = e.1 }

-- A successful insertion keeps the threads counted.
pub create_channel_message-IsCounted :
    (arg : CreateChannelMessageParams) (now : Time) (st : Store) (row : ChannelMessageRow)
    (st' : Store)
    → create_channel_message arg now st ≡ ok (row, st')
    → IsCounted st.channel_messages
    → IsCounted st'.channel_messages
create_channel_message-IsCounted arg now st row st' h c =
    let s = create_channel_message-Sent arg now st row st' h in
    let after =
      bumped-IsCounted st.channel_messages (row_of arg now) c s.fresh refl (unnot _ s.unrooted) in
    let same : record st {
      channel_messages = map (bump arg.thread_root_id) (st.channel_messages ++ row_of arg now ∷ []);
    }
        ≡ st' =
      cc s.tables in
    subst (λ t. IsCounted t.channel_messages) same after
  where
    unnot : (b : Bool) → not b ≡ false → b ≡ true
    unnot true e = refl
    unnot false e = cc
