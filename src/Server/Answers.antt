-- ===== src/Server/Answers.antt =====
-- internal/waypoint: the status of the answer to a request.
use waypoint_be.Base.{ℕ, String, ◌≡◌, refl, ◌⊎◌, inl, true, false, some, List, any}
use waypoint_be.Session.{ping}
use waypoint_be.Http.{Request, JwtConfig, Libraries, Head, http_error}
use waypoint_be.Http.Serving.{Exchange, respond}
use waypoint_be.Http.Rules.{Serves, bind-Serves, respond-Serves, served-end}
use waypoint_be.Http.Answers.{
  is_refusal, Unanswered, Refuses, head-write_header, write-kept, head-http_error, error-Refuses,
  Waiting, Ended, act-Answered,
}
use waypoint_be.Health.{healthz, readyz, say, database_unavailable}
use waypoint_be.User.Handler.Answers as UserAnswers
use waypoint_be.Workspace.Handler.Answers as WorkspaceAnswers
use waypoint_be.Server.{
  Target, health, ready, create_user, list_users, get_user, delete_user, me, create_workspace,
  get_workspace, add_workspace_member, remove_workspace_member, delete_workspace, routes, Choice,
  chosen, wrong_method, no_pattern, select, value_of, Ambient, limited, handle, serve_choice, serve,
}

-- The status with which a handler reports success.
unfoldable pub success : Target → ℕ
success create_user = 201
success create_workspace = 201
success add_workspace_member = 201
success delete_user = 204
success remove_workspace_member = 204
success delete_workspace = 204
success _ = 200

say-Answered : (text : String) → Serves Waiting (respond (say text)) (λ _. Ended 200) (Ended 200)
unfolding say
say-Answered text =
    respond-Serves _ (λ _. Ended 200)
      λ x u. record {
        head = _;
        sent = write-kept text _ _ (head-write_header 200 x.reply u);
        status = inl refl;
      }

healthz-Answered : (x : Exchange) → Waiting x → Ended 200 (healthz x).1
unfolding healthz
healthz-Answered x u = served-end {m = healthz} (say-Answered "OK") x u

unavailable-Refuses : {E : Type 0} → Refuses {E = E} (λ _. http_error database_unavailable 503)
unfolding is_refusal any
unavailable-Refuses = error-Refuses (λ _. database_unavailable) (λ _. 503) (λ _. refl)

readyz-Answered : (x : Exchange) → Waiting x → Ended 200 (readyz x).1
unfolding readyz
readyz-Answered x u =
    served-end {m = readyz}
      (bind-Serves (λ _. Waiting) (act-Answered 200 ping _ unavailable-Refuses)
        λ _. say-Answered "READY")
      x u

-- What the status of an answer may be, by the choice that was made.
pub Status : Choice → ℕ → Type 0
Status (chosen t bs) status = (status ≡ success t) ⊎ (is_refusal status ≡ true)
Status wrong_method status = status ≡ 405
Status no_pattern status = status ≡ 404

module _ (lib : Libraries) (config : JwtConfig) (env : Ambient) where
  handle-Answered :
      (t : Target) (r : Request) (x : Exchange)
      → Waiting x
      → Ended (success t) (handle lib config env t r x).1
  unfolding handle success
  handle-Answered health r x u = healthz-Answered x u
  handle-Answered ready r x u = readyz-Answered x u
  handle-Answered create_user r x u =
      UserAnswers.create_user-Answered lib config (limited r) env.first_id env.second_id env.now x u
  handle-Answered list_users r x u = UserAnswers.list_users-Answered lib config r x u
  handle-Answered get_user r x u = UserAnswers.get_user-Answered lib config r x u
  handle-Answered delete_user r x u = UserAnswers.delete_user-Answered lib config r x u
  handle-Answered me r x u = UserAnswers.me-Answered lib config r x u
  handle-Answered create_workspace r x u =
      WorkspaceAnswers.create_workspace-Answered lib config (limited r) env.first_id env.now x u
  handle-Answered get_workspace r x u = WorkspaceAnswers.get_workspace-Answered lib config r x u
  handle-Answered add_workspace_member r x u =
      WorkspaceAnswers.add_workspace_member-Answered lib config r env.now x u
  handle-Answered remove_workspace_member r x u =
      WorkspaceAnswers.remove_workspace_member-Answered lib config r x u
  handle-Answered delete_workspace r x u =
      WorkspaceAnswers.delete_workspace-Answered lib config r x u

  -- Every request to which nothing has been answered yet is answered: its handler ends with a
  -- header sent, whose status is the handler's own status of success or one of 400, 401, 403,
  -- 404, 405, 409, 500 and 503; where only the method does not match it is 405, and where no
  -- pattern matches it is 404. No assumption is made on the libraries, on the driver or on the
  -- writes.
  pub serve-Answered :
      (method : String) (path : List String) (r : Request) (x : Exchange)
      → Unanswered x.reply
      → (h : Head) × ((serve lib config env method path r x).1.reply.head ≡ some h)
        × Status (select method path routes false) h.status
  unfolding serve serve_choice Status
  serve-Answered method path r x u = go (select method path routes false)
    where
      go :
          (c : Choice)
          → (h : Head) × ((serve_choice lib config env c r x).1.reply.head ≡ some h)
            × Status c h.status
      go (chosen t bs) =
          let a = handle-Answered t (record r { path_value = value_of bs }) x u in
          (a.head, a.sent, a.status)
      go wrong_method = (_, head-http_error "Method Not Allowed" 405 x.reply u, refl)
      go no_pattern = (_, head-http_error "404 page not found" 404 x.reply u, refl)
