-- ===== src/Session/Healthy.antt =====
-- Sessions on which every call is served: what a chain of calls answers there.
use mathlib.Core.Path.{subst}
use waypoint_be.Base.{
  String, ◌≡◌, refl, sym, ap, ◌∙◌, Bool, true, false, [], arith, Result, ok, err,
}
use waypoint_be.Store.{Store, DbError, Query}
use waypoint_be.Session.{
  open_tx, closed_tx, Session, Action, continue, ◌>>=◌, ◌>>◌, reject_if, on_error, status_after,
  answer, exec, commit, rollback_unless_closed, Failure, JoinOrder, join_rollback, close_tx,
  with_tx,
}

-- A connection at rest, and one inside a transaction.
abbrev pub healthy : Store → Session
healthy st = record { committed = st; current = st; status = closed_tx; faults = [] }

abbrev pub inside : Store → Store → Session
inside st cur = record { committed = st; current = cur; status = open_tx; faults = [] }

-- How a call ended: its result, the committed tables, and no fault pending.
pub record Answers {E A : Type 0} (x : Result E A × Session) (r : Result E A) (st : Store)
    : Type 0 where
  pub result : x.0 ≡ r
  pub store : x.1.committed ≡ st
  pub quiet : x.1.faults ≡ []

module _ {A : Type 0} (q : Query A) (st cur : Store) where
  pub exec-inside :
      (a : A) (cur' : Store)
      → q cur ≡ ok (a, cur')
      → exec q (inside st cur) ≡ (ok a, inside st cur')
  unfolding exec answer
  exec-inside a cur' h = ap (answer (inside st cur)) h

  pub exec-inside_err :
      (e : DbError)
      → q cur ≡ err e
      → exec q (inside st cur) ≡ (err e, record (inside st cur) { status = status_after e })
  unfolding exec answer
  exec-inside_err e h = ap (answer (inside st cur)) h

pub commit-inside :
    (st cur : Store)
    → commit (inside st cur)
      ≡ (ok tt, record (inside st cur) { committed = cur; status = closed_tx })
unfolding commit
commit-inside st cur = refl

module _ {E A B : Type 0} (m : Action E A) (f : A → Action E B) (s : Session) where
  pub Answers-bind :
      (a : A) (s' : Session) {r : Result E B} {st : Store}
      → m s ≡ (ok a, s')
      → Answers (f a s') r st
      → Answers ((m >>= f) s) r st
  Answers-bind a s' {r} {st} h k = subst (λ x. Answers (continue f x) r st) (sym h) k

  pub Answers-raise :
      (e : E) (s' : Session) {st : Store}
      → m s ≡ (err e, s')
      → s'.committed ≡ st
      → s'.faults ≡ []
      → Answers ((m >>= f) s) (err e) st
  Answers-raise e s' {st} h c q =
      subst (λ x. Answers (continue f x) (err e) st) (sym h)
        (record { result = refl; store = c; quiet = q })

pub on_error-ok :
    {D E A : Type 0} (g : D → E) (m : Action D A) (s s' : Session) (a : A)
    → m s ≡ (ok a, s')
    → on_error g m s ≡ (ok a, s')
on_error-ok g m s s' a h = rw h refl

pub on_error-err :
    {D E A : Type 0} (g : D → E) (m : Action D A) (s s' : Session) (d : D)
    → m s ≡ (err d, s')
    → on_error g m s ≡ (err (g d), s')
on_error-err g m s s' d h = rw h refl

pub reject_if-true :
    {E A : Type 0} (test : Bool) (e : E) (m : Action E A) (s : Session)
    → test ≡ true
    → (reject_if test e >> m) s ≡ (err e, s)
reject_if-true test e m s h = rw h refl

pub reject_if-false :
    {E A : Type 0} (test : Bool) (e : E) (m : Action E A) (s : Session)
    → test ≡ false
    → (reject_if test e >> m) s ≡ m s
reject_if-false test e m s h = rw h refl

rollback-quiet :
    (s : Session)
    → s.faults ≡ []
    → ((rollback_unless_closed s).0 ≡ ok tt)
      × ((rollback_unless_closed s).1.committed ≡ s.committed)
      × ((rollback_unless_closed s).1.faults ≡ [])
unfolding rollback_unless_closed
rollback-quiet s h = ground arith

-- The deferred rollback changes neither the answer nor the committed tables.
close-Answers :
    {S A : Type 0} (order : JoinOrder) (x : Result (Failure S) A × Session)
    {r : Result (Failure S) A} {st : Store}
    → Answers x r st
    → Answers (close_tx order x) r st
unfolding close_tx
close-Answers order (x, s) h =
    let k = rollback-quiet s h.quiet in
    record {
      result = ap (join_rollback order x) k.0 ∙ h.result;
      store = k.1 ∙ h.store;
      quiet = k.2;
    }

pub with_tx-Answers :
    {S A : Type 0} (order : JoinOrder) (text : String) (body : Action (Failure S) A) (st : Store)
    {r : Result (Failure S) A} {st' : Store}
    → Answers (body (inside st st)) r st'
    → Answers (with_tx order text body (healthy st)) r st'
unfolding with_tx
with_tx-Answers order text body st h = close-Answers order (body (inside st st)) h
