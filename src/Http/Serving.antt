-- ===== src/Http/Serving.antt =====
-- A handler's run: the request's session and its response, threaded through the handler's calls,
-- and the `return` that ends it after a refusal.
use waypoint_be.Base.{ℕ, String, Option, none, some, Result, ok, err}
use waypoint_be.Session.{Session, Action}
use waypoint_be.Http.{Payload, Libraries, Reply, write_json}

pub record Exchange : Type 0 where
  pub session : Session
  pub reply : Reply

-- `none` where the handler has returned.
abbrev pub Serving : Type 0 → Type 0
Serving A = Exchange → Option A × Exchange

abbrev pub proceed : {A B : Type 0} → (A → Serving B) → Option A × Exchange → Option B × Exchange
proceed f (some a, x) = f a x
proceed f (none, x) = (none, x)

infixl 5 ◌>>=◌ ◌>>◌
abbrev pub ◌>>=◌ : {A B : Type 0} → Serving A → (A → Serving B) → Serving B
◌>>=◌ m f x = proceed f (m x)

abbrev pub ◌>>◌ : {A B : Type 0} → Serving A → Serving B → Serving B
m >> k = m >>= λ _. k

abbrev pub pure : {A : Type 0} → A → Serving A
pure a x = (some a, x)

-- Writing to the response.
abbrev pub respond : (Reply → Reply) → Serving (Unit {0})
respond f x = (some tt, record x { reply = f x.reply })

abbrev pub refusal :
    {E A : Type 0} → (E → Reply → Reply) → Exchange → Result E A → Option A × Exchange
refusal f x (ok a) = (some a, x)
refusal f x (err e) = (none, record x { reply = f e x.reply })

-- `if err != nil { f(w, err); return }` after a computation
abbrev pub valid : {E A : Type 0} → Result E A → (E → Reply → Reply) → Serving A
valid r f x = refusal f x r

abbrev pub ended :
    {E A : Type 0} → (E → Reply → Reply) → Exchange → Result E A × Session → Option A × Exchange
ended f x (r, s) = refusal f (record x { session = s }) r

-- The same after a call of a service.
abbrev pub call : {E A : Type 0} → Action E A → (E → Reply → Reply) → Serving A
call m f x = ended f x (m x.session)

-- `if err := httpx.WriteJSON(w, status, value); err != nil { f(w, err) }`
abbrev pub wrote : (String → Reply → Reply) → Result String (Unit {0}) × Reply → Reply
wrote f (ok _, r) = r
wrote f (err e, r) = f e r

unfoldable pub send_json : Libraries → ℕ → Payload → (String → Reply → Reply) → Serving (Unit {0})
unfolding write_json
send_json lib status value f = respond (λ r. wrote f (write_json lib status value r))
