-- ===== src/Http/Rules.antt =====
-- Reasoning about handlers: assertions before and after a part of one, and where it returns.
use waypoint_be.Base.{ℕ, String, ◌≡◌, refl, Option, none, some, Result, ok, err}
use waypoint_be.Session.{Session, Action}
use waypoint_be.Session.Rules.{Ends, returned, raised}
use waypoint_be.Http.{Payload, Libraries, Reply}
use waypoint_be.Http.Serving.{
  Exchange, Serving, proceed, ◌>>=◌, respond, valid, ended, call, send_json,
}

-- How a part of a handler ended, with what holds there.
pub data Served {A : Type 0} (Q : A → Exchange → Type 0) (R : Exchange → Type 0)
    : Option A × Exchange → Type 0 where
  going : (a : A) (x : Exchange) → Q a x → Served Q R (some a, x)
  done : (x : Exchange) → R x → Served Q R (none, x)

pub record Serves {A : Type 0} (P : Exchange → Type 0) (m : Serving A) (Q : A → Exchange → Type 0)
    (R : Exchange → Type 0) : Type 0 where
  pub run : (x : Exchange) → P x → Served Q R (m x)

module _ {P R : Exchange → Type 0} where
  pub bind-Serves :
      {A B : Type 0} {m : Serving A} {f : A → Serving B} (Q : A → Exchange → Type 0)
      {Q' : B → Exchange → Type 0}
      → Serves P m Q R
      → ((a : A) → Serves (Q a) (f a) Q' R)
      → Serves P (m >>= f) Q' R
  bind-Serves {A} {B} {m} {f} Q {Q'} t k = record { run = λ x h. go (m x) (t.run x h) }
    where
      go : (y : Option A × Exchange) → Served Q R y → Served Q' R (proceed f y)
      go _ (going a x h) = (k a).run x h
      go _ (done x h) = done x h

  pub valid-Serves :
      {E A : Type 0} (r : Result E A) (f : E → Reply → Reply) (Q : A → Exchange → Type 0)
      → ((e : E) (x : Exchange) → P x → R (record x { reply = f e x.reply }))
      → ((a : A) → r ≡ ok a → (x : Exchange) → P x → Q a x)
      → Serves P (valid r f) Q R
  valid-Serves (ok a) f Q refused passed = record { run = λ x h. going a x (passed a refl x h) }
  valid-Serves (err e) f Q refused passed = record { run = λ x h. done _ (refused e x h) }

  pub call-Serves :
      {E A : Type 0} (m : Action E A) (f : E → Reply → Reply) (Q : A → Exchange → Type 0)
      → ((x : Exchange)
          → P x
          → Ends
              (λ a s. Q a (record x { session = s }))
              (λ e s. R (record x { session = s; reply = f e x.reply }))
              (m x.session))
      → Serves P (call m f) Q R
  call-Serves {E} {A} m f Q t = record { run = λ x h. go x (m x.session) (t x h) }
    where
      go :
          (x : Exchange) (y : Result E A × Session)
          → Ends
              (λ a s. Q a (record x { session = s }))
              (λ e s. R (record x { session = s; reply = f e x.reply }))
              y
          → Served Q R (ended f x y)
      go x _ (returned a s h) = going a _ h
      go x _ (raised e s h) = done _ h

  pub respond-Serves :
      (f : Reply → Reply) (Q : Unit {0} → Exchange → Type 0)
      → ((x : Exchange) → P x → Q tt (record x { reply = f x.reply }))
      → Serves P (respond f) Q R
  respond-Serves f Q t = record { run = λ x h. going tt _ (t x h) }

pub weaken-Serves :
    {A : Type 0} {P R R' : Exchange → Type 0} {m : Serving A} {Q : A → Exchange → Type 0}
    → ((x : Exchange) → R x → R' x)
    → Serves P m Q R
    → Serves P m Q R'
weaken-Serves {A} {P} {R} {R'} {m} {Q} f t = record { run = λ x h. go (m x) (t.run x h) }
  where
    go : (y : Option A × Exchange) → Served Q R y → Served Q R' y
    go _ (going a x k) = going a x k
    go _ (done x k) = done x (f x k)

-- What holds when the handler has ended, either way.
pub served-end :
    {A : Type 0} {P R : Exchange → Type 0} {m : Serving A}
    → Serves P m (λ _. R) R
    → (x : Exchange) → P x
    → R (m x).1
served-end {A} {P} {R} {m} t x h = go (m x) (t.run x h)
  where
    go : (y : Option A × Exchange) → Served (λ _. R) R y → R y.1
    go _ (going a x' k) = k
    go _ (done x' k) = k

-- An action seen from its session alone.
abbrev pub At : (Session → Type 0) → Exchange → Type 0
At P x = P x.session

pub after-Ends :
    {E A : Type 0} (R : Session → Type 0) (x : Result E A × Session)
    → R x.1
    → Ends (λ _. R) (λ _. R) x
after-Ends R (ok a, s) h = returned a s h
after-Ends R (err e, s) h = raised e s h

module _ (P R : Session → Type 0) where
  pub checks-Serves :
      {E A : Type 0} (r : Result E A) (f : E → Reply → Reply)
      → ((s : Session) → P s → R s)
      → Serves (At P) (valid r f) (λ _. At P) (At R)
  checks-Serves r f keep = valid-Serves r f (λ _. At P) (λ e x h. keep x.session h) (λ a e x h. h)

  pub acts-Serves :
      {E A : Type 0} (m : Action E A) (f : E → Reply → Reply)
      → ((s : Session) → P s → R (m s).1)
      → Serves (At P) (call m f) (λ _. At R) (At R)
  acts-Serves {E} {A} m f keep =
      call-Serves m f (λ _. At R)
        λ x h. lift x (m x.session) (after-Ends R (m x.session) (keep x.session h))
    where
      lift :
          (x : Exchange) (y : Result E A × Session)
          → Ends (λ _. R) (λ _. R) y
          → Ends
              (λ a s. At R (record x { session = s }))
              (λ e s. At R (record x { session = s; reply = f e x.reply }))
              y
      lift x _ (returned a s k) = returned a s k
      lift x _ (raised e s k) = raised e s k

pub responds-Serves :
    (R : Session → Type 0) (f : Reply → Reply) → Serves (At R) (respond f) (λ _. At R) (At R)
responds-Serves R f = respond-Serves f (λ _. At R) (λ x h. h)

-- A call, with what its answer says.
pub reports-Serves :
    {E A : Type 0} (P R : Session → Type 0) (m : Action E A) (f : E → Reply → Reply)
    (Q : A → Session → Type 0)
    → ((s : Session) → P s → R (m s).1)
    → ((s : Session) → P s → (a : A) → (m s).0 ≡ ok a → Q a (m s).1)
    → Serves (At P) (call m f) (λ a. At (Q a)) (At R)
reports-Serves {E} {A} P R m f Q keep says =
    call-Serves m f (λ a. At (Q a)) λ x h. go x (m x.session) (keep x.session h) (says x.session h)
  where
    go :
        (x : Exchange) (y : Result E A × Session)
        → R y.1
        → ((a : A) → y.0 ≡ ok a → Q a y.1)
        → Ends
            (λ a s. At (Q a) (record x { session = s }))
            (λ e s. At R (record x { session = s; reply = f e x.reply }))
            y
    go x (ok a, s) k q = returned a s (q a refl)
    go x (err e, s) k q = raised e s k

pub sends-Serves :
    (R : Session → Type 0) (lib : Libraries) (status : ℕ) (value : Payload)
    (f : String → Reply → Reply)
    → Serves (At R) (send_json lib status value f) (λ _. At R) (At R)
unfolding send_json
sends-Serves R lib status value f = responds-Serves R _
