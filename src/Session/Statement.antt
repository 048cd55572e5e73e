-- ===== src/Session/Statement.antt =====
-- Reasoning about single statements outside a transaction.
use waypoint_be.Base.{arith, map_err, sym, ◌∙◌, ◌≡◌, refl, ap, Result, ok, err, ok-injective}
use waypoint_be.Store.{Store, DbError, Query}
use waypoint_be.Session.{
  continue, pure, later_faults, Fault, served, unsent, failed, lost, Session, on_error, next_fault,
  step, query_answer, query_at, query,
}
use waypoint_be.Session.Rules.{Ends, returned, raised, Triple, on_error-Triple, Kept}

module _ (Inv : Store → Type 0) {A : Type 0} (q : Query A)
    (keeps : (st : Store) → Inv st → (a : A) (st' : Store) → q st ≡ ok (a, st') → Inv st') where
  query_answer-Ends :
      (s : Session) (r : Result DbError (A × Store))
      → Inv s.committed
      → q s.committed ≡ r
      → Ends (λ _. Kept Inv) (λ _. Kept Inv) (query_answer s r)
  unfolding query_answer
  query_answer-Ends s (ok (a, st)) i e = returned a _ (keeps s.committed i a st e)
  query_answer-Ends s (err d) i e = raised d _ i

  query_answer-Kept :
      (s : Session) (r : Result DbError (A × Store))
      → Inv s.committed
      → q s.committed ≡ r
      → Inv (query_answer s r).1.committed
  unfolding query_answer
  query_answer-Kept s (ok (a, st)) i e = keeps s.committed i a st e
  query_answer-Kept s (err d) i e = i

  query_at-Ends :
      (f : Fault) (s : Session)
      → Inv s.committed
      → Ends (λ _. Kept Inv) (λ _. Kept Inv) (query_at f q s)
  unfolding query_at
  query_at-Ends served s i = query_answer-Ends s (q s.committed) i refl
  query_at-Ends unsent s i = raised _ _ i
  query_at-Ends failed s i = raised _ _ i
  query_at-Ends lost s i = raised _ _ (query_answer-Kept s (q s.committed) i refl)

  -- A statement that keeps a property of the tables, also where its answer is lost.
  pub query-Triple :
      {E : Type 0} (g : DbError → E)
      → Triple (Kept Inv) (on_error g (query q)) (λ _. Kept Inv) (λ _. Kept Inv)
  unfolding query
  query-Triple g =
      on_error-Triple g (Kept Inv)
        (record { run = λ s h. query_at-Ends (next_fault s.faults) (step s) h })

module _ {A : Type 0} (q : Query A) (a : A) where
  answer_served :
      (s : Session) (r : Result DbError (A × Store))
      → (query_answer s r).0 ≡ ok a
      → r ≡ ok (a, (query_answer s r).1.committed)
  unfolding query_answer
  answer_served s (ok (b, st)) h = ap (λ x. ok (x, st)) (ok-injective b a h)
  answer_served s (err d) h = cc

  fault_served :
      (f : Fault) (s : Session)
      → (query_at f q s).0 ≡ ok a
      → q s.committed ≡ ok (a, (query_at f q s).1.committed)
  unfolding query_at
  fault_served served s h = answer_served s (q s.committed) h
  fault_served unsent s h = cc
  fault_served failed s h = cc
  fault_served lost s h = cc

  -- A statement that answered has taken effect.
  pub query-ok :
      (s : Session) → (query q s).0 ≡ ok a → q s.committed ≡ ok (a, (query q s).1.committed)
  unfolding query
  query-ok s h = fault_served (next_fault s.faults) (step s) h

-- A statement that only reads leaves the committed tables alone, whatever befalls it.
module _ {A : Type 0} (q : Query A)
    (reads : (st : Store) (a : A) (st' : Store) → q st ≡ ok (a, st') → st' ≡ st) where
  answer-read :
      (s : Session) (r : Result DbError (A × Store))
      → q s.committed ≡ r
      → (query_answer s r).1.committed ≡ s.committed
  unfolding query_answer
  answer-read s (ok (a, st)) e = reads s.committed a st e
  answer-read s (err d) e = refl

  fault-read : (f : Fault) (s : Session) → (query_at f q s).1.committed ≡ s.committed
  unfolding query_at
  fault-read served s = answer-read s (q s.committed) refl
  fault-read unsent s = refl
  fault-read failed s = refl
  fault-read lost s = answer-read s (q s.committed) refl

  pub query-read : (s : Session) → (query q s).1.committed ≡ s.committed
  unfolding query
  query-read s = fault-read (next_fault s.faults) (step s)

pub query-faults :
    {A : Type 0} (q : Query A) (s : Session) → (query q s).1.faults ≡ later_faults s.faults
unfolding query query_at query_answer
query-faults q s = ground arith

-- A method that is one statement: its answer, and what it leaves.
module _ {E A B : Type 0} (q : Query A) (g : DbError → E) (f : A → B) where
  abbrev ended : Result DbError A × Session → Result E B × Session
  ended x = continue (λ a. pure (f a)) (map_err g x.0, x.1)

  ended-session : (x : Result DbError A × Session) → (ended x).1 ≡ x.1
  ended-session (ok a, s) = refl
  ended-session (err d, s) = refl

  ended-ok :
      (x : Result DbError A × Session) (b : B)
      → (ended x).0 ≡ ok b
      → (a : A) × (x.0 ≡ ok a) × (f a ≡ b)
  ended-ok (ok a, s) b h = (a, refl, ok-injective (f a) b h)
  ended-ok (err d, s) b h = cc

  pub method-session : (s : Session) → (ended (query q s)).1 ≡ (query q s).1
  method-session s = ended-session (query q s)

  -- What the answer says of the statement.
  pub answered :
      (s : Session) (b : B)
      → (ended (query q s)).0 ≡ ok b
      → (a : A) × (f a ≡ b) × (q s.committed ≡ ok (a, (ended (query q s)).1.committed))
  answered s b h =
      let (a, e, same) = ended-ok (query q s) b h in
      (a, same, query-ok q a s e ∙ ap (λ t. ok (a, t.committed)) (sym (method-session s)))
