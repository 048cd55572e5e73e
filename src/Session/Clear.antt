-- ===== src/Session/Clear.antt =====
-- Sessions in which every call of the driver reaches the server, where a statement's error leaves
-- no open transaction.
use waypoint_be.Base.{
  String, ◌≡◌, refl, ◌≢◌, Bool, true, false, List, [], ◌∷◌, arith, any, Result, ok, err,
}
use waypoint_be.Store.{
  Store, DbError, no_rows, in_failed_transaction, tx_closed, commit_rollback, unavailable,
  negative_row_count, unique_violation, foreign_key_violation, restrict_violation, check_violation,
  Query,
}
use waypoint_be.Session.{
  Fault, served, unsent, failed, lost, TxStatus, open_tx, aborted_tx, closed_tx, Session, Action,
  on_error, next_fault, later_faults, step, status_after, answer, exec_served, break_tx, exec_at,
  exec, begin_tx, Failure, begin_failure, JoinOrder, with_tx,
}
use waypoint_be.Session.Rules.{
  Ends, returned, raised, Triple, weaken-Triple, bind-Triple, on_error-Triple, Kept, During,
  exec-Triple, begin-Triple, close-Triple,
}

abbrev pub is_unsent : Fault → Bool
is_unsent unsent = true
is_unsent _ = false

-- No call to come fails before anything is sent.
abbrev pub IsClear : Session → Type 0
IsClear s = any is_unsent s.faults ≡ false

pub IsClear-later :
    (fs : List Fault) → any is_unsent fs ≡ false → any is_unsent (later_faults fs) ≡ false
unfolding any later_faults
IsClear-later [] h = refl
IsClear-later (served ∷ fs) h = h
IsClear-later (unsent ∷ fs) h = cc
IsClear-later (failed ∷ fs) h = h
IsClear-later (lost ∷ fs) h = h

exec-faults : {A : Type 0} (q : Query A) (s : Session) → (exec q s).1.faults ≡ later_faults s.faults
unfolding exec
exec-faults q s = ground arith

begin-faults : (s : Session) → (begin_tx s).1.faults ≡ later_faults s.faults
unfolding begin_tx
begin-faults s = ground arith

-- What an action leaves alone may stand beside its assertions.
frame-Triple :
    {E A : Type 0} (Frame : Session → Type 0) {P : Session → Type 0} {m : Action E A}
    {Q : A → Session → Type 0} {R : E → Session → Type 0}
    → ((s : Session) → Frame s → Frame (m s).1)
    → Triple P m Q R
    → Triple (λ s. P s × Frame s) m (λ a s. Q a s × Frame s) R
frame-Triple {E} {A} Frame {P} {m} {Q} {R} keep t = record {
  run = λ s h. go (m s) (t.run s h.0) (keep s h.1);
}
  where
    go : (x : Result E A × Session) → Ends Q R x → Frame x.1 → Ends (λ a s. Q a s × Frame s) R x
    go _ (returned a s h) f = returned a s (h, f)
    go _ (raised e s h) f = raised e s h

pub exec-IsClear : {A : Type 0} (q : Query A) (s : Session) → IsClear s → IsClear (exec q s).1
exec-IsClear q s h = rw (exec-faults q s) (IsClear-later s.faults h)

pub begin-IsClear : (s : Session) → IsClear s → IsClear (begin_tx s).1
begin-IsClear s h = rw (begin-faults s) (IsClear-later s.faults h)

module _ (Inv : Store → Type 0) where
  -- A statement's error leaves no open transaction, where it is no missing row.
  abbrev pub Shut : Session → Type 0
  Shut s = Inv s.committed × (s.status ≢ open_tx)

  module _ {A : Type 0} (q : Query A) (Now : Store → Type 0) (After : A → Store → Type 0)
      (run_q : (st : Store) → Now st → (a : A) (st' : Store) → q st ≡ ok (a, st') → After a st')
      (reads_nothing : (st : Store) → q st ≢ err no_rows) where
    answer-Shut :
        (s : Session) (r : Result DbError (A × Store))
        → Inv s.committed
        → Now s.current
        → q s.current ≡ r
        → Ends (λ a. During Inv (After a)) (λ _. Shut) (answer s r)
    unfolding answer
    answer-Shut s (ok (a, st)) i n e = returned a _ (i, λ _. run_q s.current n a st e)
    answer-Shut s (err d) i n e = raised d _ (i, λ o. go d e o)
      where
        go : (d : DbError) → q s.current ≡ err d → status_after d ≢ open_tx
        go no_rows e o = reads_nothing s.current e
        go in_failed_transaction e o = cc
        go tx_closed e o = cc
        go commit_rollback e o = cc
        go unavailable e o = cc
        go negative_row_count e o = cc
        go (unique_violation c) e o = cc
        go (foreign_key_violation c) e o = cc
        go (restrict_violation c) e o = cc
        go (check_violation c) e o = cc

    exec_served-Shut :
        (t : TxStatus) (s : Session)
        → Inv s.committed
        → (t ≡ open_tx → Now s.current)
        → s.status ≡ t
        → Ends (λ a. During Inv (After a)) (λ _. Shut) (exec_served t q s)
    unfolding exec_served
    exec_served-Shut open_tx s i n e = answer-Shut s (q s.current) i (n refl) refl
    exec_served-Shut aborted_tx s i n e = raised _ s (i, λ o. cc)
    exec_served-Shut closed_tx s i n e = raised _ s (i, λ o. cc)

    break_tx_ne : (t : TxStatus) → break_tx t ≢ open_tx
    break_tx_ne open_tx o = cc
    break_tx_ne aborted_tx o = cc
    break_tx_ne closed_tx o = cc

    exec_at-Shut :
        (f : Fault) (s : Session)
        → During Inv Now s
        → is_unsent f ≡ false
        → Ends (λ a. During Inv (After a)) (λ _. Shut) (exec_at f q s)
    unfolding exec_at
    exec_at-Shut served s h c = exec_served-Shut s.status s h.0 h.1 refl
    exec_at-Shut unsent s h c = cc
    exec_at-Shut failed s h c = raised _ _ (h.0, break_tx_ne s.status)
    exec_at-Shut lost s h c = raised _ _ (h.0, break_tx_ne s.status)

    next_sent : (fs : List Fault) → any is_unsent fs ≡ false → is_unsent (next_fault fs) ≡ false
    unfolding any next_fault
    next_sent [] h = refl
    next_sent (f ∷ fs) h = ground arith

    pub write-Triple :
        Triple (λ s. During Inv Now s × IsClear s) (exec q) (λ a. During Inv (After a)) (λ _. Shut)
    unfolding exec
    write-Triple = record {
      run = λ s h. exec_at-Shut (next_fault s.faults) (step s) h.0 (next_sent s.faults h.1);
    }

  -- A transaction whose body relies on every call reaching the server.
  pub with_tx-IsClear-Triple :
      {S A : Type 0} (order : JoinOrder) (text : String) {body : Action (Failure S) A}
      → Triple (λ s. During Inv Inv s × IsClear s) body (λ _. Kept Inv) (λ _. Kept Inv)
      → Triple
          (λ s. Kept Inv s × IsClear s)
          (with_tx order text body)
          (λ _. Kept Inv)
          (λ _. Kept Inv)
  unfolding with_tx
  with_tx-IsClear-Triple order text t =
      bind-Triple (λ _ s. During Inv Inv s × IsClear s)
        (on_error-Triple (begin_failure text) (Kept Inv)
          (frame-Triple IsClear begin-IsClear (begin-Triple Inv)))
        λ _. close-Triple Inv order t

  -- A statement among others, its error returned from the body.
  pub statement-IsClear-Triple :
      {A E : Type 0} (q : Query A) (Now : Store → Type 0) (After : A → Store → Type 0)
      → ((st : Store) → Now st → (a : A) (st' : Store) → q st ≡ ok (a, st') → After a st')
      → (g : DbError → E)
      → Triple
          (λ s. During Inv Now s × IsClear s)
          (on_error g (exec q))
          (λ a s. During Inv (After a) s × IsClear s)
          (λ _. Kept Inv)
  statement-IsClear-Triple q Now After run_q g = on_error-Triple g (Kept Inv) (
      frame-Triple IsClear (exec-IsClear q)
        (weaken-Triple (λ s h. h) (λ a s h. h) (λ e s h. h.0) (exec-Triple Inv q Now After run_q)))
