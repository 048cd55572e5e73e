-- ===== src/Session/Results.antt =====
-- What holds of a result that a transaction returns, and of the tables that it committed with it.
use waypoint_be.Base.{String, ◌≡◌, refl, Result, ok, err}
use waypoint_be.Store.{Store, DbError}
use waypoint_be.Session.{
  Fault, served, unsent, failed, lost, TxStatus, open_tx, aborted_tx, closed_tx, Session, Action,
  next_fault, step, commit_at, commit, Failure, begin_failure, JoinOrder, rollback_last,
  rollback_first, join_rollback, close_tx, with_tx,
}
use waypoint_be.Session.Rules.{
  Ends, returned, raised, Triple, bind-Triple, on_error-Triple, Kept, During, begin_from-Triple,
  rollback_committed,
}

-- No property of the committed tables.
abbrev pub Any : Store → Type 0
Any _ = Unit {0}

module _ (Now : Store → Type 0) where
  commit_at-Now :
      (f : Fault) (t : TxStatus) (s : Session)
      → During Any Now s
      → s.status ≡ t
      → Ends (λ _ s. Now s.committed) (λ _. Kept Any) (commit_at f t s)
  unfolding commit_at
  commit_at-Now served open_tx s h e = returned _ _ (h.1 e)
  commit_at-Now served aborted_tx s h e = raised _ _ tt
  commit_at-Now served closed_tx s h e = raised _ _ tt
  commit_at-Now lost open_tx s h e = raised _ _ tt
  commit_at-Now lost aborted_tx s h e = raised _ _ tt
  commit_at-Now lost closed_tx s h e = raised _ _ tt
  commit_at-Now unsent open_tx s h e = raised _ _ tt
  commit_at-Now unsent aborted_tx s h e = raised _ _ tt
  commit_at-Now unsent closed_tx s h e = raised _ _ tt
  commit_at-Now failed open_tx s h e = raised _ _ tt
  commit_at-Now failed aborted_tx s h e = raised _ _ tt
  commit_at-Now failed closed_tx s h e = raised _ _ tt

  -- A commit that succeeds commits what the transaction saw.
  pub commit_now-Triple : Triple (During Any Now) commit (λ _ s. Now s.committed) (λ _. Kept Any)
  unfolding commit
  commit_now-Triple = record {
    run = λ s h. commit_at-Now (next_fault s.faults) s.status (step s) h refl;
  }

close-Now :
    {S A : Type 0} (order : JoinOrder) (Q : A → Store → Type 0) (r : Result (Failure S) A)
    (c : Result DbError (Unit {0})) (s : Session)
    → Ends (λ a s. Q a s.committed) (λ _. Kept Any) (r, s)
    → Ends (λ a s. Q a s.committed) (λ _. Kept Any) (join_rollback order r c, s)
close-Now order Q r (ok _) s h = h
close-Now order Q (ok a) (err _) s h = raised _ s tt
close-Now rollback_last Q (err e) (err _) s h = raised _ s tt
close-Now rollback_first Q (err e) (err _) s h = raised _ s tt

-- A property of the result and the committed tables outlives the deferred rollback.
pub with_tx_into-Triple :
    {S A : Type 0} (Now : Store → Type 0) (Q : A → Store → Type 0) (order : JoinOrder)
    (text : String) {body : Action (Failure S) A}
    → Triple (During Any Now) body (λ a s. Q a s.committed) (λ _. Kept Any)
    → Triple
        (λ s. Now s.committed)
        (with_tx order text body)
        (λ a s. Q a s.committed)
        (λ _. Kept Any)
unfolding with_tx close_tx
with_tx_into-Triple {S} {A} Now Q order text {body} t =
    bind-Triple (λ _. During Any Now)
      (on_error-Triple (begin_failure text) (Kept Any) (begin_from-Triple Any Now (λ st h. tt)))
      λ _. record { run = λ s h. go (body s) (t.run s h) }
  where
    go :
        (x : Result (Failure S) A × Session)
        → Ends (λ a s. Q a s.committed) (λ _. Kept Any) x
        → Ends (λ a s. Q a s.committed) (λ _. Kept Any) (close_tx order x)
    go _ (returned a s h) =
        close-Now order Q (ok a) _ _ (returned a _ (rw (rollback_committed Any s) h))
    go _ (raised e s h) = close-Now order Q (err e) _ _ (raised e _ tt)

-- A call that returned a result.
pub ends_ok :
    {E A : Type 0} {m : Action E A} (P : Session → Type 0) (Q : A → Store → Type 0)
    → Triple P m (λ a s. Q a s.committed) (λ _. Kept Any)
    → (s : Session) (a : A) → P s
    → (m s).0 ≡ ok a
    → Q a (m s).1.committed
ends_ok {E} {A} {m} P Q t s a h e = go (m s) (t.run s h) e
  where
    go :
        (x : Result E A × Session)
        → Ends (λ a s. Q a s.committed) (λ _. Kept Any) x
        → x.0 ≡ ok a
        → Q a x.1.committed
    go _ (returned b s' q) e = let p : b ≡ a = cc in rw (← p) q
    go _ (raised d s' q) e = cc
