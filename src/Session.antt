-- ===== src/Session.antt =====
-- internal/db: the connection that a request uses, its transaction (tx.go, db.go, errors.go), and
-- the error values that the services return. What the network and the server do to each driver
-- call is an argument, the list `faults`; a call past its end is served.
pub mod Rules
pub mod Clear
pub mod Statement
pub mod Healthy
pub mod Results
use waypoint_be.Base.{
  ◌<>◌, decimal, ℕ, ℕ, String, Bool, false, ◌||◌, List, [], ◌∷◌, str_eq, if◌then◌else◌, Result, ok,
  err, map_err,
}
use waypoint_be.Store.{
  Store, DbError, no_rows, in_failed_transaction, tx_closed, commit_rollback, unavailable,
  unique_violation, foreign_key_violation, Query,
}

-- What befalls one driver call: it is served; it fails before anything is sent; it fails on the
-- way to the server; it takes effect and its answer is lost.
pub data Fault : Type 0 where
  served unsent failed lost : Fault

-- `aborted` is a transaction in which a statement failed: the server refuses all but its end.
pub data TxStatus : Type 0 where
  open_tx aborted_tx closed_tx : TxStatus

pub record Session : Type 0 where
  pub committed : Store  -- what other connections see
  pub current : Store  -- what the transaction sees
  pub status : TxStatus
  pub faults : List Fault

abbrev pub Action : Type 0 → Type 0 → Type 0
Action E A = Session → Result E A × Session

-- The rest of a body, after a call that has ended.
abbrev pub continue :
    {E A B : Type 0} → (A → Action E B) → Result E A × Session → Result E B × Session
continue f (ok a, s) = f a s
continue f (err e, s) = (err e, s)

infixl 5 ◌>>=◌ ◌>>◌
abbrev pub ◌>>=◌ : {E A B : Type 0} → Action E A → (A → Action E B) → Action E B
◌>>=◌ m f s = continue f (m s)

abbrev pub ◌>>◌ : {E A B : Type 0} → Action E A → Action E B → Action E B
m >> k = m >>= λ _. k

abbrev pub pure : {E A : Type 0} → A → Action E A
pure a s = (ok a, s)

-- `if test { return nil, e }`
abbrev pub reject_if : {E : Type 0} → Bool → E → Action E (Unit {0})
reject_if test e s = (if test then err e else ok tt, s)

-- `if err != nil { return nil, f(err) }`
abbrev pub on_error : {D E A : Type 0} → (D → E) → Action D A → Action E A
on_error f m s = let (r, s') = m s in (map_err f r, s')

-- A call whose error the caller looks at.
abbrev pub attempt : {D E A : Type 0} → Action D A → Action E (Result D A)
attempt m s = let (r, s') = m s in (ok r, s')

pub next_fault : List Fault → Fault
next_fault [] = served
next_fault (f ∷ _) = f

pub later_faults : List Fault → List Fault
later_faults [] = []
later_faults (_ ∷ fs) = fs

abbrev pub step : Session → Session
step s = record s { faults = later_faults s.faults }

-- A failing statement aborts the transaction; finding no row is no failure of the statement.
abbrev pub status_after : DbError → TxStatus
status_after no_rows = open_tx
status_after _ = aborted_tx

pub answer : {A : Type 0} → Session → Result DbError (A × Store) → Result DbError A × Session
answer s (ok (a, st)) = (ok a, record s { current = st })
answer s (err e) = (err e, record s { status = status_after e })

pub exec_served : {A : Type 0} → TxStatus → Query A → Action DbError A
unfolding answer
exec_served open_tx q s = answer s (q s.current)
exec_served aborted_tx q s = (err in_failed_transaction, s)
exec_served closed_tx q s = (err tx_closed, s)

abbrev pub break_tx : TxStatus → TxStatus
break_tx closed_tx = closed_tx
break_tx _ = aborted_tx

pub exec_at : {A : Type 0} → Fault → Query A → Action DbError A
unfolding exec_served
exec_at served q s = exec_served s.status q s
exec_at unsent q s = (err unavailable, s)
exec_at failed q s = (err unavailable, record s { status = break_tx s.status })
exec_at lost q s = (err unavailable, record s { status = break_tx s.status })

-- A generated query on a Transaction.
unfoldable pub exec : {A : Type 0} → Query A → Action DbError A
unfolding exec_at next_fault later_faults
exec q s = exec_at (next_fault s.faults) q (step s)

pub query_answer : {A : Type 0} → Session → Result DbError (A × Store) → Result DbError A × Session
query_answer s (ok (a, st)) = (ok a, record s { committed = st })
query_answer s (err e) = (err e, s)

pub query_at : {A : Type 0} → Fault → Query A → Action DbError A
unfolding query_answer
query_at served q s = query_answer s (q s.committed)
query_at unsent q s = (err unavailable, s)
query_at failed q s = (err unavailable, s)
query_at lost q s = (err unavailable, (query_answer s (q s.committed)).1)

-- A generated query on the Database: one statement, committed by itself.
unfoldable pub query : {A : Type 0} → Query A → Action DbError A
unfolding query_at next_fault later_faults
query q s = query_at (next_fault s.faults) q (step s)

-- Database.Ping: pgxpool runs an empty statement.
unfoldable pub ping : Action DbError (Unit {0})
unfolding query
ping = query (λ st. ok (tt, st))

pub begin_at : Fault → Action DbError (Unit {0})
begin_at served s = (ok tt, record s { current = s.committed; status = open_tx })
begin_at _ s = (err unavailable, s)

-- Database.BeginTx
unfoldable pub begin_tx : Action DbError (Unit {0})
unfolding begin_at next_fault later_faults
begin_tx s = begin_at (next_fault s.faults) (step s)

pub commit_at : Fault → TxStatus → Action DbError (Unit {0})
commit_at served open_tx s = (ok tt, record s { committed = s.current; status = closed_tx })
commit_at served aborted_tx s = (err commit_rollback, record s { status = closed_tx })
commit_at lost open_tx s = (err unavailable, record s { committed = s.current; status = closed_tx })
commit_at _ closed_tx s = (err tx_closed, s)
commit_at _ _ s = (err unavailable, record s { status = closed_tx })

-- Transaction.Commit: the transaction is closed by it, also when it fails.
unfoldable pub commit : Action DbError (Unit {0})
unfolding commit_at next_fault later_faults
commit s = commit_at (next_fault s.faults) s.status (step s)

pub rollback_at : Fault → Session → Result DbError (Unit {0}) × Session
rollback_at served s = (ok tt, record s { status = closed_tx })
rollback_at _ s = (err unavailable, record s { status = closed_tx })

abbrev pub rollback_from : TxStatus → Action DbError (Unit {0})
unfolding rollback_at
rollback_from closed_tx s = (err tx_closed, s)
rollback_from _ s = rollback_at (next_fault s.faults) (step s)

-- Transaction.Rollback
unfoldable pub rollback : Action DbError (Unit {0})
unfolding rollback_at next_fault later_faults
rollback s = rollback_from s.status s

abbrev pub ignore_closed : Result DbError (Unit {0}) → Result DbError (Unit {0})
ignore_closed (err tx_closed) = ok tt
ignore_closed r = r

-- Transaction.RollbackUnlessClosed
unfoldable pub rollback_unless_closed : Action DbError (Unit {0})
unfolding rollback
rollback_unless_closed s = let (r, s') = rollback s in (ignore_closed r, s')

-- IsUniqueViolation and IsForeignKeyViolation
unfoldable pub is_unique_violation : DbError → String → Bool
is_unique_violation (unique_violation name) constraint = str_eq name constraint
is_unique_violation _ constraint = false

unfoldable pub is_foreign_key_violation : DbError → String → Bool
is_foreign_key_violation (foreign_key_violation name) constraint = str_eq name constraint
is_foreign_key_violation _ constraint = false

-- A service's error: one of its sentinels, a driver's error, `fmt.Errorf("text: %w", e)`,
-- `errors.Join(e, f)`, or `fmt.Errorf("%w: %v", e, n)`.
pub data Failure (S : Type 0) : Type 0 where
  sentinel : S → Failure S
  driver : DbError → Failure S
  wrapped : String → Failure S → Failure S
  joined : Failure S → Failure S → Failure S
  with_value : Failure S → ℕ → Failure S
  -- an error of another library
  other : String → Failure S

-- `fmt.Errorf("text: %w", err)` of a driver's error
abbrev pub wrap_driver : {S : Type 0} → String → DbError → Failure S
wrap_driver text e = wrapped text (driver e)

-- errors.Is at a sentinel, for a test of the sentinels
unfoldable pub is_sentinel : {S : Type 0} → (S → Bool) → Failure S → Bool
is_sentinel test (sentinel x) = test x
is_sentinel test (driver _) = false
is_sentinel test (wrapped _ f) = is_sentinel test f
is_sentinel test (joined f g) = is_sentinel test f || is_sentinel test g
is_sentinel test (with_value f _) = is_sentinel test f
is_sentinel test (other _) = false

-- err.Error(), given the texts of the sentinels and of the driver's errors
unfoldable pub error_text : {S : Type 0} → (S → String) → (DbError → String) → Failure S → String
error_text name text (sentinel x) = name x
error_text name text (driver e) = text e
error_text name text (wrapped t f) = t <> ": " <> error_text name text f
error_text name text (joined f g) = error_text name text f <> "\n" <> error_text name text g
error_text name text (with_value f n) = error_text name text f <> ": " <> decimal n
error_text name text (other t) = t

-- The deferred call: a failing rollback is joined to the error that the body returned.
pub data JoinOrder : Type 0 where
  rollback_last rollback_first : JoinOrder

abbrev pub join_rollback :
    {S A : Type 0}
    → JoinOrder
    → Result (Failure S) A
    → Result DbError (Unit {0})
    → Result (Failure S) A
join_rollback order r (ok _) = r
join_rollback order (ok _) (err e) = err (wrap_driver "rollback transaction" e)
join_rollback rollback_last (err f) (err e) = err (joined f (wrap_driver "rollback transaction" e))
join_rollback rollback_first (err f) (err e) = err (joined (wrap_driver "rollback transaction" e) f)

pub close_tx :
    {S A : Type 0} → JoinOrder → Result (Failure S) A × Session → Result (Failure S) A × Session
close_tx order (r, s) =
    let (closed, s') = rollback_unless_closed s in (join_rollback order r closed, s')

-- BeginTx wraps the error of the pool, and the service wraps that.
abbrev pub begin_failure : {S : Type 0} → String → DbError → Failure S
begin_failure text e = wrapped text (wrap_driver "begin transaction" e)

-- `tx, err := BeginTx(ctx); defer RollbackUnlessClosed(ctx)` round a body
unfoldable pub with_tx :
    {S A : Type 0} → JoinOrder → String → Action (Failure S) A → Action (Failure S) A
unfolding close_tx begin_tx rollback_unless_closed
with_tx order text body = on_error (begin_failure text) begin_tx >> λ s. close_tx order (body s)
