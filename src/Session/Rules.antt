-- ===== src/Session/Rules.antt =====
-- Reasoning about transactions: assertions before and after an action, for a property of the
-- committed tables that every way out of the action has to keep.
use waypoint_be.Base.{String, ◌≡◌, refl, Bool, true, false, arith, Result, ok, err, map_err}
use waypoint_be.Store.{Store, DbError, Query}
use waypoint_be.Session.{
  Fault, served, unsent, failed, lost, TxStatus, open_tx, aborted_tx, closed_tx, Session, Action,
  continue, ◌>>=◌, ◌>>◌, pure, reject_if, on_error, next_fault, step, answer, exec_served, break_tx,
  exec_at, exec, begin_at, begin_tx, commit_at, commit, rollback_unless_closed, Failure,
  begin_failure, JoinOrder, rollback_last, rollback_first, join_rollback, close_tx, with_tx,
}

-- How an action ended, with what holds there.
pub data Ends {E A : Type 0} (Q : A → Session → Type 0) (R : E → Session → Type 0)
    : Result E A × Session → Type 0 where
  returned : (a : A) (s : Session) → Q a s → Ends Q R (ok a, s)
  raised : (e : E) (s : Session) → R e s → Ends Q R (err e, s)

pub record Triple {E A : Type 0} (P : Session → Type 0) (m : Action E A) (Q : A → Session → Type 0)
    (R : E → Session → Type 0) : Type 0 where
  pub run : (s : Session) → P s → Ends Q R (m s)

module _ {E A : Type 0} where
  pub pure-Triple :
      (Q : A → Session → Type 0) (R : E → Session → Type 0) (a : A) → Triple (Q a) (pure a) Q R
  pure-Triple Q R a = record { run = λ s h. returned a s h }

  pub weaken-Triple :
      {P P' : Session → Type 0} {m : Action E A} {Q Q' : A → Session → Type 0}
      {R R' : E → Session → Type 0}
      → ((s : Session) → P' s → P s)
      → ((a : A) (s : Session) → Q a s → Q' a s)
      → ((e : E) (s : Session) → R e s → R' e s)
      → Triple P m Q R
      → Triple P' m Q' R'
  weaken-Triple {m} {Q} {Q'} {R} {R'} p q r t = record { run = λ s h. go (m s) (t.run s (p s h)) }
    where
      go : (x : Result E A × Session) → Ends Q R x → Ends Q' R' x
      go _ (returned a s h) = returned a s (q a s h)
      go _ (raised e s h) = raised e s (r e s h)

module _ {E A B : Type 0} where
  pub bind-Triple :
      {P : Session → Type 0} {m : Action E A} {f : A → Action E B} (Q : A → Session → Type 0)
      {Q' : B → Session → Type 0} {R : E → Session → Type 0}
      → Triple P m Q R
      → ((a : A) → Triple (Q a) (f a) Q' R)
      → Triple P (m >>= f) Q' R
  bind-Triple {m} {f} Q {Q'} {R} t k = record { run = λ s h. go (m s) (t.run s h) }
    where
      go : (x : Result E A × Session) → Ends Q R x → Ends Q' R (continue f x)
      go _ (returned a s h) = (k a).run s h
      go _ (raised e s h) = raised e s h

  pub on_error-Triple :
      {P : Session → Type 0} {m : Action E A} (g : E → B) {Q : A → Session → Type 0}
      (R : Session → Type 0)
      → Triple P m Q (λ _. R)
      → Triple P (on_error g m) Q (λ _. R)
  on_error-Triple {m} g {Q} R t = record { run = λ s h. go (m s) (t.run s h) }
    where
      go : (x : Result E A × Session) → Ends Q (λ _. R) x → Ends Q (λ _. R) (map_err g x.0, x.1)
      go _ (returned a s h) = returned a s h
      go _ (raised e s h) = raised (g e) s h

-- `rest` after `if test { return e }`
pub reject-Triple :
    {E A : Type 0} (test : Bool) (e : E) {P : Session → Type 0} {m : Action E A}
    {Q : A → Session → Type 0} {R : E → Session → Type 0}
    → ((s : Session) → P s → R e s)
    → (test ≡ false → Triple P m Q R)
    → Triple P (reject_if test e >> m) Q R
reject-Triple true e r t = record { run = λ s h. raised e s (r s h) }
reject-Triple false e r t = record { run = λ s h. (t refl).run s h }

-- `if test { return e }` at the end of a body
pub reject_if-Triple :
    {E : Type 0} (test : Bool) (e : E) {P : Session → Type 0} {Q : Unit {0} → Session → Type 0}
    {R : E → Session → Type 0}
    → ((s : Session) → P s → R e s)
    → (test ≡ false → (s : Session) → P s → Q tt s)
    → Triple P (reject_if test e) Q R
reject_if-Triple true e r q = record { run = λ s h. raised e s (r s h) }
reject_if-Triple false e r q = record { run = λ s h. returned tt s (q refl s h) }

module _ (Inv : Store → Type 0) where
  -- The committed tables have the property.
  abbrev pub Kept : Session → Type 0
  Kept s = Inv s.committed

  -- Inside a transaction: an open one sees tables with the property `Now`.
  abbrev pub During : (Store → Type 0) → Session → Type 0
  During Now s = Inv s.committed × (s.status ≡ open_tx → Now s.current)

  module _ {A : Type 0} (q : Query A) (Now : Store → Type 0) (After : A → Store → Type 0)
      (run_q : (st : Store)
        → Now st
        → (a : A) (st' : Store) → q st ≡ ok (a, st')
        → After a st') where
    answer-Ends :
        (s : Session) (r : Result DbError (A × Store))
        → Inv s.committed
        → Now s.current
        → q s.current ≡ r
        → Ends (λ a. During (After a)) (λ _. During Now) (answer s r)
    unfolding answer
    answer-Ends s (ok (a, st)) i n e = returned a _ (i, λ _. run_q s.current n a st e)
    answer-Ends s (err d) i n e = raised d _ (i, λ _. n)

    exec_served-Ends :
        (t : TxStatus) (s : Session)
        → Inv s.committed
        → (t ≡ open_tx → Now s.current)
        → s.status ≡ t
        → Ends (λ a. During (After a)) (λ _. During Now) (exec_served t q s)
    unfolding exec_served
    exec_served-Ends open_tx s i n e = answer-Ends s (q s.current) i (n refl) refl
    exec_served-Ends aborted_tx s i n e = raised _ s (i, λ o. cc)
    exec_served-Ends closed_tx s i n e = raised _ s (i, λ o. cc)

    broken : (s : Session) → During Now s → During Now (record s { status = break_tx s.status })
    broken s h = (h.0, λ o. go s.status o)
      where
        go : (t : TxStatus) → break_tx t ≡ open_tx → Now s.current
        go open_tx o = cc
        go aborted_tx o = cc
        go closed_tx o = cc

    exec_at-Ends :
        (f : Fault) (s : Session)
        → During Now s
        → Ends (λ a. During (After a)) (λ _. During Now) (exec_at f q s)
    unfolding exec_at
    exec_at-Ends served s h = exec_served-Ends s.status s h.0 h.1 refl
    exec_at-Ends unsent s h = raised _ s h
    exec_at-Ends failed s h = raised _ _ (broken s h)
    exec_at-Ends lost s h = raised _ _ (broken s h)

    -- A statement in a transaction: if it answers, its effect is that of the query; if it fails, an
    -- open transaction still sees what it saw.
    pub exec-Triple : Triple (During Now) (exec q) (λ a. During (After a)) (λ _. During Now)
    unfolding exec
    exec-Triple = record { run = λ s h. exec_at-Ends (next_fault s.faults) (step s) h }

    -- The same, where a failure is returned from the body.
    pub statement-Triple :
        {E : Type 0} (g : DbError → E)
        → Triple (During Now) (on_error g (exec q)) (λ a. During (After a)) (λ _. Kept)
    statement-Triple g =
        on_error-Triple g Kept (weaken-Triple (λ s h. h) (λ a s h. h) (λ e s h. h.0) exec-Triple)

  module _ (Now : Store → Type 0) (keep : (st : Store) → Now st → Inv st) where
    commit_at-Ends :
        (f : Fault) (t : TxStatus) (s : Session)
        → During Now s
        → s.status ≡ t
        → Ends (λ _. Kept) (λ _. Kept) (commit_at f t s)
    unfolding commit_at
    commit_at-Ends served open_tx s h e = returned _ _ (keep _ (h.1 e))
    commit_at-Ends served aborted_tx s h e = raised _ _ h.0
    commit_at-Ends served closed_tx s h e = raised _ _ h.0
    commit_at-Ends lost open_tx s h e = raised _ _ (keep _ (h.1 e))
    commit_at-Ends lost aborted_tx s h e = raised _ _ h.0
    commit_at-Ends lost closed_tx s h e = raised _ _ h.0
    commit_at-Ends unsent open_tx s h e = raised _ _ h.0
    commit_at-Ends unsent aborted_tx s h e = raised _ _ h.0
    commit_at-Ends unsent closed_tx s h e = raised _ _ h.0
    commit_at-Ends failed open_tx s h e = raised _ _ h.0
    commit_at-Ends failed aborted_tx s h e = raised _ _ h.0
    commit_at-Ends failed closed_tx s h e = raised _ _ h.0

    -- Committing tables that have the property keeps it, also where the answer is lost.
    pub commit-Triple : Triple (During Now) commit (λ _. Kept) (λ _. Kept)
    unfolding commit
    commit-Triple = record {
      run = λ s h. commit_at-Ends (next_fault s.faults) s.status (step s) h refl;
    }

  module _ (Now : Store → Type 0) (keep : (st : Store) → Now st → Inv st) where
    begin_at-Ends :
        (f : Fault) (s : Session)
        → Now s.committed
        → Ends (λ _. During Now) (λ _. Kept) (begin_at f s)
    unfolding begin_at
    begin_at-Ends served s h = returned _ _ (keep s.committed h, λ _. h)
    begin_at-Ends unsent s h = raised _ _ (keep s.committed h)
    begin_at-Ends failed s h = raised _ _ (keep s.committed h)
    begin_at-Ends lost s h = raised _ _ (keep s.committed h)

    pub begin_from-Triple : Triple (λ s. Now s.committed) begin_tx (λ _. During Now) (λ _. Kept)
    unfolding begin_tx
    begin_from-Triple = record { run = λ s h. begin_at-Ends (next_fault s.faults) (step s) h }

  pub begin-Triple : Triple Kept begin_tx (λ _. During Inv) (λ _. Kept)
  begin-Triple = begin_from-Triple Inv (λ st h. h)

  pub rollback_committed : (s : Session) → (rollback_unless_closed s).1.committed ≡ s.committed
  unfolding rollback_unless_closed
  rollback_committed s = ground arith

  close-Ends :
      {S A : Type 0} (order : JoinOrder) (r : Result (Failure S) A) (c : Result DbError (Unit {0}))
      (s : Session)
      → Kept s
      → Ends (λ _. Kept) (λ _. Kept) (join_rollback order r c, s)
  close-Ends order (ok a) (ok _) s h = returned a s h
  close-Ends order (err e) (ok _) s h = raised e s h
  close-Ends order (ok a) (err _) s h = raised _ s h
  close-Ends rollback_last (err e) (err _) s h = raised _ s h
  close-Ends rollback_first (err e) (err _) s h = raised _ s h

  -- The deferred rollback round a body that keeps the property.
  pub close-Triple :
      {S A : Type 0} (order : JoinOrder) {Before : Session → Type 0} {body : Action (Failure S) A}
      → Triple Before body (λ _. Kept) (λ _. Kept)
      → Triple Before (λ s. close_tx order (body s)) (λ _. Kept) (λ _. Kept)
  unfolding close_tx
  close-Triple {S} {A} order {Before} {body} t = record { run = λ s h. go (body s) (t.run s h) }
    where
      go :
          (x : Result (Failure S) A × Session)
          → Ends (λ _. Kept) (λ _. Kept) x
          → Ends (λ _. Kept) (λ _. Kept) (close_tx order x)
      go _ (returned a s h) = close-Ends order (ok a) _ _ (rw (rollback_committed s) h)
      go _ (raised e s h) = close-Ends order (err e) _ _ (rw (rollback_committed s) h)

  -- A body that keeps the property, in a transaction: so does the whole.
  pub with_tx-Triple :
      {S A : Type 0} (order : JoinOrder) (text : String) {body : Action (Failure S) A}
      → Triple (During Inv) body (λ _. Kept) (λ _. Kept)
      → Triple Kept (with_tx order text body) (λ _. Kept) (λ _. Kept)
  unfolding with_tx
  with_tx-Triple order text t =
      bind-Triple (λ _. During Inv) (on_error-Triple (begin_failure text) Kept begin-Triple)
        λ _. close-Triple order t

  -- The same from tables of which more is known.
  pub with_tx_from-Triple :
      {S A : Type 0} (Now : Store → Type 0)
      → ((st : Store) → Now st → Inv st)
      → (order : JoinOrder) (text : String) {body : Action (Failure S) A}
      → Triple (During Now) body (λ _. Kept) (λ _. Kept)
      → Triple (λ s. Now s.committed) (with_tx order text body) (λ _. Kept) (λ _. Kept)
  unfolding with_tx
  with_tx_from-Triple Now keep order text t =
      bind-Triple (λ _. During Now)
        (on_error-Triple (begin_failure text) Kept (begin_from-Triple Now keep))
        λ _. close-Triple order t

  -- What a whole service call leaves committed.
  pub ends_from-Kept :
      {E A : Type 0} {m : Action E A} (P : Session → Type 0)
      → Triple P m (λ _. Kept) (λ _. Kept)
      → (s : Session) → P s
      → Kept (m s).1
  ends_from-Kept {E} {A} {m} P t s h = go (m s) (t.run s h)
    where
      go : (x : Result E A × Session) → Ends (λ _. Kept) (λ _. Kept) x → Kept x.1
      go _ (returned a s' k) = k
      go _ (raised e s' k) = k

  pub ends-Kept :
      {E A : Type 0} {m : Action E A}
      → Triple Kept m (λ _. Kept) (λ _. Kept)
      → (s : Session) → Kept s
      → Kept (m s).1
  ends-Kept t = ends_from-Kept Kept t

  pub During-weaken :
      (Now Now' : Store → Type 0)
      → ((st : Store) → Now st → Now' st)
      → (s : Session) → During Now s
      → During Now' s
  During-weaken Now Now' f s h = (h.0, λ o. f s.current (h.1 o))
