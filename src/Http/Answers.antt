-- ===== src/Http/Answers.antt =====
-- What a handler has answered when it ends: the status of the header that it has sent.
use waypoint_be.Base.{
  ℕ, String, ◌≡◌, refl, ap, ◌∙◌, ◌⊎◌, inl, inr, Bool, true, Option, none, some, List, [], ◌∷◌,
  arith, ◌==◌, any, Result, ok, err,
}
use waypoint_be.Session.{Session, Action}
use waypoint_be.Session.Rules.{Ends, returned, raised}
use waypoint_be.Http.{
  Payload, Libraries, Head, Reply, write_header, write_from, write, http_error, write_payload,
  write_json,
}
use waypoint_be.Http.Serving.{Exchange, respond, valid, call, wrote, send_json}
use waypoint_be.Http.Rules.{Serves, valid-Serves, call-Serves, respond-Serves}

-- The statuses of a refusal.
pub refusals : List ℕ
refusals = 400 ∷ 401 ∷ 403 ∷ 404 ∷ 405 ∷ 409 ∷ 500 ∷ 503 ∷ []

unfoldable pub is_refusal : ℕ → Bool
unfolding refusals
is_refusal code = any (λ n. n == code) refusals

abbrev pub Unanswered : Reply → Type 0
Unanswered r = r.head ≡ none

-- The header that was sent has the status of success, or the status of a refusal.
pub record Answered (success : ℕ) (r : Reply) : Type 0 where
  pub head : Head
  pub sent : r.head ≡ some head
  pub status : (head.status ≡ success) ⊎ (is_refusal head.status ≡ true)

-- A refusal sends its header where none was sent, and keeps the one that was.
pub record Refuses {E : Type 0} (f : E → Reply → Reply) : Type 0 where
  pub code : E → ℕ
  pub refused : (e : E) → is_refusal (code e) ≡ true
  pub fresh :
      (e : E) (r : Reply)
      → Unanswered r
      → (h : Head) × (h.status ≡ code e) × ((f e r).head ≡ some h)
  pub kept : (e : E) (r : Reply) (h : Head) → r.head ≡ some h → (f e r).head ≡ some h

pub head-write_from :
    (ws : List (Option String)) (text : String) (r : Reply) → (write_from ws text r).1.head ≡ r.head
head-write_from [] text r = refl
head-write_from (none ∷ ws) text r = refl
head-write_from (some e ∷ ws) text r = refl

pub head-write_header :
    (code : ℕ) (r : Reply)
    → Unanswered r
    → (write_header code r).head ≡ some (record { status = code; content_type = r.content_type })
unfolding write_header
head-write_header code r u = rw u refl

pub write_header-kept :
    (code : ℕ) (r : Reply) (h : Head) → r.head ≡ some h → (write_header code r).head ≡ some h
unfolding write_header
write_header-kept code r h e = go r.head e
  where
    go :
        (o : Option Head)
        → o ≡ some h
        → Reply.head (elim o [
          | none ↦ record r {
            head = some (record { status = code; content_type = r.content_type });
          }
          | some _ ↦ r
        ])
          ≡ some h
    go none k = ground arith
    go (some h2) k = e

pub write-kept :
    (text : String) (r : Reply) (h : Head) → r.head ≡ some h → (write text r).1.head ≡ some h
unfolding write
write-kept text r h e =
    head-write_from r.writes text (write_header 200 r) ∙ write_header-kept 200 r h e

pub head-http_error :
    (text : String) (code : ℕ) (r : Reply)
    → Unanswered r
    → (http_error text code r).head
      ≡ some (record { status = code; content_type = some "text/plain; charset=utf-8" })
unfolding http_error
head-http_error text code r u = write-kept _ _ _ (head-write_header code _ u)

pub error-Refuses :
    {E : Type 0} (text : E → String) (code : E → ℕ)
    → ((e : E) → is_refusal (code e) ≡ true)
    → Refuses (λ e. http_error (text e) (code e))
unfolding http_error
error-Refuses text code refused = record {
  code = code;
  refused = refused;
  fresh = λ e r u. (_, refl, head-http_error (text e) (code e) r u);
  kept = λ e r h k. write-kept _ _ h (write_header-kept (code e) _ h k);
}

pub refused-Answered :
    {E : Type 0} {f : E → Reply → Reply} (success : ℕ)
    → Refuses f
    → (e : E) (r : Reply) → Unanswered r
    → Answered success (f e r)
refused-Answered success t e r u =
    let (h, same, sent) = t.fresh e r u in
    record { head = h; sent = sent; status = inr (ap is_refusal same ∙ t.refused e) }

abbrev pub Waiting : Exchange → Type 0
Waiting x = Unanswered x.reply

abbrev pub Ended : ℕ → Exchange → Type 0
Ended success x = Answered success x.reply

module _ (success : ℕ) where
  pub check-Answered :
      {E A : Type 0} (v : Result E A) (f : E → Reply → Reply)
      → Refuses f
      → Serves Waiting (valid v f) (λ _. Waiting) (Ended success)
  check-Answered v f t =
      valid-Serves v f (λ _. Waiting) (λ e x u. refused-Answered success t e x.reply u)
        λ a same x u. u

  pub act-Answered :
      {E A : Type 0} (m : Action E A) (f : E → Reply → Reply)
      → Refuses f
      → Serves Waiting (call m f) (λ _. Waiting) (Ended success)
  act-Answered {E} {A} m f t = call-Serves m f (λ _. Waiting) λ x u. go x u (m x.session)
    where
      go :
          (x : Exchange)
          → Waiting x
          → (y : Result E A × Session)
          → Ends
              (λ a s. Waiting (record x { session = s }))
              (λ e s. Ended success (record x { session = s; reply = f e x.reply }))
              y
      go x u (ok a, s) = returned a s u
      go x u (err e, s) = raised e s (refused-Answered success t e x.reply u)

  pub header-Answered :
      Serves Waiting (respond (write_header success)) (λ _. Ended success) (Ended success)
  header-Answered =
      respond-Serves (write_header success) (λ _. Ended success)
        λ x u. record { head = _; sent = head-write_header success x.reply u; status = inl refl }

  pub wrote-Answered :
      {f : String → Reply → Reply} (t : Refuses f) (value : Result String String) (r : Reply)
      → Unanswered r
      → Answered success (wrote f (write_payload value success r))
  wrote-Answered t (err e) r u = refused-Answered success t e r u
  wrote-Answered {f} t (ok text) r u =
      go (write text (write_header success (record r { content_type = some "application/json" })))
        (write-kept _ _ _ (head-write_header success _ u))
    where
      go :
          (y : Result String (Unit {0}) × Reply)
          → y.1.head ≡ some (record { status = success; content_type = some "application/json" })
          → Answered success (wrote f y)
      go (ok _, r') k = record { head = _; sent = k; status = inl refl }
      go (err e, r') k = record { head = _; sent = t.kept e r' _ k; status = inl refl }

  pub send-Answered :
      (lib : Libraries) (value : Payload) (f : String → Reply → Reply)
      → Refuses f
      → Serves Waiting (send_json lib success value f) (λ _. Ended success) (Ended success)
  unfolding send_json write_json
  send-Answered lib value f t =
      respond-Serves _ (λ _. Ended success) λ x u. wrote-Answered t (lib.marshal value) x.reply u
