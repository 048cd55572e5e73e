-- ===== src/User/Handler/Errors.antt =====
-- internal/user/handler.go: what writeError shows of an error that a failed rollback is joined to.
use waypoint_be.Base.{ℕ, String, ◌≡◌, refl, ◌<>◌, Result, err}
use waypoint_be.Store.{DbError}
use waypoint_be.Session.{
  sentinel, joined, JoinOrder, rollback_last, rollback_first, join_rollback, wrap_driver,
  is_sentinel, error_text,
}
use waypoint_be.Http.{Libraries}
use waypoint_be.User.{
  UserError, forbidden, not_found, user_name_taken, email_taken, identity_taken, invalid_id,
  invalid_user_name, invalid_email, invalid_display_name, invalid_identity, Error, user_error_text,
}
use waypoint_be.User.Handler.{public_error}

-- The status and the text for a sentinel, given the text of the whole error.
pub sentinel_answer : UserError → String → ℕ × String
sentinel_answer forbidden text = (403, text)
sentinel_answer not_found text = (404, text)
sentinel_answer user_name_taken text = (409, text)
sentinel_answer email_taken text = (409, text)
sentinel_answer identity_taken text = (409, text)
sentinel_answer _ text = (400, "invalid request body: " <> text)

-- The text of a sentinel and of the failure of the rollback, in the order in which they are joined.
pub joined_text : Libraries → JoinOrder → UserError → DbError → String
joined_text lib rollback_last e d =
    user_error_text e <> "\n" <> ("rollback transaction" <> ": " <> lib.driver_text d)
joined_text lib rollback_first e d =
    ("rollback transaction" <> ": " <> lib.driver_text d) <> "\n" <> user_error_text e

failed_rollback : JoinOrder → UserError → DbError → Error
failed_rollback rollback_last e d = joined (sentinel e) (wrap_driver "rollback transaction" d)
failed_rollback rollback_first e d = joined (wrap_driver "rollback transaction" d) (sentinel e)

answer-failed_rollback :
    (lib : Libraries) (order : JoinOrder) (e : UserError) (d : DbError)
    → public_error lib (failed_rollback order e d) ≡ sentinel_answer e (joined_text lib order e d)
unfolding public_error is_sentinel error_text failed_rollback sentinel_answer joined_text
answer-failed_rollback lib rollback_last forbidden d = refl
answer-failed_rollback lib rollback_last not_found d = refl
answer-failed_rollback lib rollback_last user_name_taken d = refl
answer-failed_rollback lib rollback_last email_taken d = refl
answer-failed_rollback lib rollback_last identity_taken d = refl
answer-failed_rollback lib rollback_last invalid_id d = refl
answer-failed_rollback lib rollback_last invalid_user_name d = refl
answer-failed_rollback lib rollback_last invalid_email d = refl
answer-failed_rollback lib rollback_last invalid_display_name d = refl
answer-failed_rollback lib rollback_last invalid_identity d = refl
answer-failed_rollback lib rollback_first forbidden d = refl
answer-failed_rollback lib rollback_first not_found d = refl
answer-failed_rollback lib rollback_first user_name_taken d = refl
answer-failed_rollback lib rollback_first email_taken d = refl
answer-failed_rollback lib rollback_first identity_taken d = refl
answer-failed_rollback lib rollback_first invalid_id d = refl
answer-failed_rollback lib rollback_first invalid_user_name d = refl
answer-failed_rollback lib rollback_first invalid_email d = refl
answer-failed_rollback lib rollback_first invalid_display_name d = refl
answer-failed_rollback lib rollback_first invalid_identity d = refl

err-injective : (a b : Error) → ◌≡◌ {A = Result Error (Unit {0})} (err a) (err b) → a ≡ b
err-injective a b h = cc

-- For every sentinel and every error of the driver, where a failed rollback is joined to the
-- sentinel, in either order, the user handlers' writeError answers with the sentinel's status and
-- with a text that joins the sentinel's text and that of the driver's error.
pub public_error-join_rollback :
    (lib : Libraries) (order : JoinOrder) (e : UserError) (d : DbError) (f : Error)
    → join_rollback {A = Unit {0}} order (err (sentinel e)) (err d) ≡ err f
    → public_error lib f ≡ sentinel_answer e (joined_text lib order e d)
unfolding failed_rollback
public_error-join_rollback lib rollback_last e d f h =
    rw⁻¹ (err-injective (failed_rollback rollback_last e d) f h)
      (answer-failed_rollback lib rollback_last e d)
public_error-join_rollback lib rollback_first e d f h =
    rw⁻¹ (err-injective (failed_rollback rollback_first e d) f h)
      (answer-failed_rollback lib rollback_first e d)
