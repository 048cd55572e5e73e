-- ===== src/Message/Service/Direct.antt =====
-- internal/message/service.go, the methods on single direct messages: reading back what was sent
-- or changed.
use mathlib.Core.Path.{subst}
use waypoint_be.Base.{
  String, ◌≡◌, refl, sym, ap, ◌∙◌, inl, inr, Bool, true, false, Option, none, some, List, [], ◌∷◌,
  ◌++◌, map, ◌≢◌, find?-sound, arith, ◌==◌, ==_refl, Option-cases, any, find?, find?-last, is_empty,
  ok, err,
}
use waypoint_be.Store.{Uuid, Time, DirectMessageRow, Store}
use waypoint_be.Store.Messages
use waypoint_be.Session.{
  Session, Action, ◌>>=◌, ◌>>◌, pure, reject_if, on_error, query, sentinel, wrapped, wrap_driver,
}
use waypoint_be.Session.Healthy.{healthy}
use waypoint_be.Session.Statement.{answered}
use waypoint_be.Message.{
  not_found, empty_body, message_to_self, Error, DirectMessage, SentDirectMessage, sent_direct,
}
use waypoint_be.Message.Service.{
  missing, send_direct_message, update_direct_message, read_single_direct_message,
}

-- A method that answered got past its checks.
past_check :
    {A : Type 0} (test : Bool) (e : Error) (m : Action Error A) (s : Session) (b : A)
    → ((reject_if test e >> m) s).0 ≡ ok b
    → (reject_if test e >> m) s ≡ m s
past_check true e m s b h = cc
past_check false e m s b h = refl

reading :
    (id : Uuid) (st : Store)
    → (read_single_direct_message id (healthy st)).0
      ≡ elim (find? (λ m. m.id == id) st.direct_messages) [
        | none ↦ err (wrapped "direct message" (sentinel not_found))
        | some row ↦ ok (sent_direct row)
      ]
unfolding read_single_direct_message query Messages.select_direct_message missing
reading id st = elim (Option-cases (find? (λ m. m.id == id) st.direct_messages)) [
  | inl e ↦ rw e refl
  | inr (row, e) ↦ rw e refl
]

-- Reading a row that the tables hold.
reading_found :
    (id : Uuid) (st : Store) (row : DirectMessageRow) (m : SentDirectMessage)
    → find? (λ m. m.id == id) st.direct_messages ≡ some row
    → sent_direct row ≡ m
    → (read_single_direct_message id (healthy st)).0 ≡ ok m
reading_found id st row m h e = reading id st ∙ rw h (ap ok e)

-- Tables that agree on a row read alike.
reading_same :
    (id : Uuid) (st st' : Store)
    → find? (λ m. m.id == id) st.direct_messages ≡ find? (λ m. m.id == id) st'.direct_messages
    → (read_single_direct_message id (healthy st)).0
      ≡ (read_single_direct_message id (healthy st')).0
reading_same id st st' h = reading id st ∙ rw h (sym (reading id st'))

insertion_found :
    (arg : Messages.CreateDirectMessageParams) (now : Time) (st st' : Store)
    (row : DirectMessageRow)
    → Messages.create_direct_message arg now st ≡ ok (row, st')
    → find? (λ m. m.id == arg.id) st'.direct_messages ≡ some row
unfolding Messages.create_direct_message
insertion_found arg now st st' row h =
    let same : st'.direct_messages ≡ st.direct_messages ++ row ∷ [] = ground arith in
    let absent : any (λ m. m.id == arg.id) st.direct_messages ≡ false = ground arith in
    let named : (row.id == arg.id) ≡ true = ground (arith, ==_refl arg.id) in
    rw same (find?-last (λ m. m.id == arg.id) st.direct_messages row absent named)

-- What an UPDATE makes of the row with an id.
find?-rebody_direct :
    (id : Uuid) (body : String) (now : Time) (k : Uuid) (rows : List DirectMessageRow)
    → find? (λ m. m.id == k) (map (Messages.rebody_direct id body now) rows)
      ≡ elim (find? (λ m. m.id == k) rows) [
        | none ↦ none
        | some row ↦ some (Messages.rebody_direct id body now row)
      ]
unfolding find?
find?-rebody_direct id body now k [] = refl
find?-rebody_direct id body now k (m ∷ rows) =
    ground (arith, find?-rebody_direct id body now k rows)

-- A direct message that SendDirectMessage returned, on any session, is what
-- ReadSingleDirectMessage then returns for its id when its driver call is served.
pub send_direct_message-read_single_direct_message :
    (fresh : Uuid) (now : Time) (dm : DirectMessage) (s : Session) (m : SentDirectMessage)
    → (send_direct_message fresh now dm s).0 ≡ ok m
    → (read_single_direct_message fresh
        (healthy (send_direct_message fresh now dm s).1.committed)).0
      ≡ ok m
unfolding send_direct_message
send_direct_message-read_single_direct_message fresh now dm s m h =
    let arg : Messages.CreateDirectMessageParams = record {
      id = fresh;
      author_id = dm.author_id;
      recipient_id = dm.recipient_id;
      body = dm.body;
    } in
    let inserting : Action Error SentDirectMessage =
      on_error (wrap_driver "create direct message")
        (query (Messages.create_direct_message arg now))
      >>= λ sent. pure (sent_direct sent) in
    let checked : Action Error SentDirectMessage =
      reject_if (dm.author_id == dm.recipient_id) (sentinel message_to_self) >> inserting in
    let e1 : send_direct_message fresh now dm s ≡ checked s =
      past_check (is_empty dm.body) (sentinel empty_body) checked s m h in
    let e2 : checked s ≡ inserting s =
      past_check (dm.author_id == dm.recipient_id) (sentinel message_to_self) inserting s m
        (ap (λ x. x.0) (sym e1) ∙ h) in
    let (row, same, took) =
      answered (Messages.create_direct_message arg now) (wrap_driver "create direct message")
        sent_direct s m (ap (λ x. x.0) (sym (e1 ∙ e2)) ∙ h) in
    subst (λ x. (read_single_direct_message fresh (healthy x.1.committed)).0 ≡ ok m) (sym (e1 ∙ e2))
      (reading_found fresh _ row m (insertion_found arg now s.committed _ row took) same)

-- The row that an UPDATE returned, and the rows around it.
change_found :
    (id : Uuid) (body : String) (now : Time) (st st' : Store) (row : DirectMessageRow)
    → Messages.update_direct_message_body id body now st ≡ ok (row, st')
    → (find? (λ m. m.id == id) (map (Messages.rebody_direct id body now) st.direct_messages)
        ≡ some row)
      × (st'.direct_messages ≡ map (Messages.rebody_direct id body now) st.direct_messages)
unfolding Messages.update_direct_message_body
change_found id body now st st' row h = ground arith

changed_row :
    (id : Uuid) (body : String) (now : Time) (rows : List DirectMessageRow) (row : DirectMessageRow)
    → find? (λ m. m.id == id) (map (Messages.rebody_direct id body now) rows) ≡ some row
    → (old : DirectMessageRow) × (find? (λ m. m.id == id) rows ≡ some old)
      × (row ≡ record old { body = body; updated_at = now })
changed_row id body now rows row h =
    go (find? (λ m. m.id == id) rows) refl (sym (find?-rebody_direct id body now id rows) ∙ h)
  where
    go :
        (o : Option DirectMessageRow)
        → find? (λ m. m.id == id) rows ≡ o
        → elim o [ none ↦ none | some old ↦ some (Messages.rebody_direct id body now old) ]
          ≡ some row
        → (old : DirectMessageRow) × (find? (λ m. m.id == id) rows ≡ some old)
          × (row ≡ record old { body = body; updated_at = now })
    go none e k = ground arith
    go (some old) e k = (old, e, ground (arith, find?-sound (λ m. m.id == id) rows old e))

unchanged_row :
    (id : Uuid) (body : String) (now : Time) (other : Uuid) (rows : List DirectMessageRow)
    → other ≢ id
    → find? (λ m. m.id == other) (map (Messages.rebody_direct id body now) rows)
      ≡ find? (λ m. m.id == other) rows
unfolding find?
unchanged_row id body now other [] n = refl
unchanged_row id body now other (m ∷ rows) n =
    ground (arith, unchanged_row id body now other rows n)

-- Where UpdateDirectMessage, on any session, returned a direct message, it is the message that
-- ReadSingleDirectMessage returned for the id before, its driver call served, with the new body
-- and the time of the update and otherwise unchanged; it is what ReadSingleDirectMessage then
-- returns for the id, and for every other id ReadSingleDirectMessage answers as before.
pub update_direct_message-read_single_direct_message :
    (id : Uuid) (body : String) (now : Time) (s : Session) (m : SentDirectMessage) (other : Uuid)
    → (update_direct_message id body now s).0 ≡ ok m
    → other ≢ id
    → let after = (update_direct_message id body now s).1.committed in
      (old : SentDirectMessage) × ((read_single_direct_message id (healthy s.committed)).0 ≡ ok old)
      × (m ≡ record old { body = body; updated_at = now })
      × ((read_single_direct_message id (healthy after)).0 ≡ ok m)
      × ((read_single_direct_message other (healthy after)).0
          ≡ (read_single_direct_message other (healthy s.committed)).0)
unfolding update_direct_message
update_direct_message-read_single_direct_message id body now s m other h n =
    let changing : Action Error SentDirectMessage =
      on_error (missing "direct message" "update direct message")
        (query (Messages.update_direct_message_body id body now))
      >>= λ updated. pure (sent_direct updated) in
    let e : update_direct_message id body now s ≡ changing s =
      past_check (is_empty body) (sentinel empty_body) changing s m h in
    let (row, same, took) =
      answered (Messages.update_direct_message_body id body now)
        (missing "direct message" "update direct message") sent_direct s m
        (ap (λ x. x.0) (sym e) ∙ h) in
    let (found, rows) = change_found id body now s.committed _ row took in
    let (old, had, made) = changed_row id body now s.committed.direct_messages row found in
    subst
      (λ x.
        (old : SentDirectMessage) × ((read_single_direct_message id (healthy s.committed)).0
          ≡ ok old)
        × (m ≡ record old { body = body; updated_at = now })
        × ((read_single_direct_message id (healthy x.1.committed)).0 ≡ ok m)
        × ((read_single_direct_message other (healthy x.1.committed)).0
            ≡ (read_single_direct_message other (healthy s.committed)).0))
      (sym e)
      (
        sent_direct old,
        reading_found id s.committed old (sent_direct old) had refl,
        sym same ∙ ap sent_direct made,
        reading_found id (changing s).1.committed row m (ap (find? (λ m. m.id == id)) rows ∙ found)
            same,
        reading_same other (changing s).1.committed s.committed (
            ap (find? (λ m. m.id == other)) rows
            ∙ unchanged_row id body now other s.committed.direct_messages n),
      )
