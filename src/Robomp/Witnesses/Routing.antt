-- ===== src/Robomp/Witnesses/Routing.antt =====
-- Webhooks at concrete payloads.
use oh_my_robot.Prelude.{
  Text, codes, decimal, text_eq, true, false, none, some, [], ◌≡◌, refl, inl, arith,
}
use oh_my_robot.Prelude.Int.{pos}
use oh_my_robot.Robomp.Accounts.{normalize_bot_login, remove_suffix, is_implementation_authorizer}
use oh_my_robot.Robomp.Dispatch.{dispatch, task_of}
use oh_my_robot.Robomp.Json.{Json, get, integer, text, object, Members, no_member, member}
use oh_my_robot.Robomp.Routing.{
  skip, handle_comment, Directive, RouteDecision, Router, skipped, queued_for, from_submitter,
  with_directive,
}
use oh_my_robot.Robomp.Routing.Handlers.Bots.{IsBotComment, itself, route-refused_account}
use oh_my_robot.Robomp.Routing.Handlers.Dispatched.{dispatch-route}
use oh_my_robot.Robomp.Routing.Handlers.Sound.{IsDecided, route-IsDecided, route-IsAuthorized}
use oh_my_robot.Robomp.Routing.Handlers.Trust.{IsAuthorized}
use oh_my_robot.Robomp.Routing.Handlers.{route}

abbrev router : Router
router = record {
  allowlist = text_eq (codes "o/r");
  bot_login = codes "robomp";
  maintainers = text_eq (codes "ann");
  reviewer_bots = text_eq (codes "codex");
  resolve_issue_from_pr = none;
  pr_review_enabled = true;
  release_sentinel_enabled = false;
  release_commit_prefix = codes "chore: ";
  py_str = λ value. [];
}

abbrev one : Text → Json → Members
one key value = member key value no_member

-- A comment of the account on issue 7.
abbrev comment_saying : Text → Text → Members
comment_saying body login =
    member (codes "user") (object (one (codes "login") (text login)))
      (one (codes "body") (text body))

abbrev comment_by : Text → Members
comment_by = comment_saying (codes "fix it")

abbrev payload_of : Members → Members
payload_of comment = member (codes "action") (text (codes "created")) (
    member (codes "repository") (object (one (codes "full_name") (text (codes "O/r")))) (
      member (codes "comment") (object comment)
        (one (codes "issue") (object (one (codes "number") (integer (pos 7)))))))

abbrev payload_by : Text → Members
payload_by login = payload_of (comment_by login)

abbrev told : Directive
told = record {
  body = codes "fix it";
  author = some (codes "codex");
  pragmas = [];
  authorizes_impl = false;
}

abbrev queued_comment : RouteDecision
queued_comment =
    with_directive
      (from_submitter
        (queued_for handle_comment (codes "O/r") (codes "O/r#7") (codes "issue_comment.created"))
        (some (codes "codex"), none))
      (some told)

abbrev event : Text
event = codes "issue_comment"

queued_comment-route : route router event (payload_by (codes "codex")) ≡ some queued_comment
unfolding route text_eq decimal
queued_comment-route = refl

route-IsDecided_example : IsDecided router (payload_by (codes "codex")) queued_comment
route-IsDecided_example =
    route-IsDecided router event (payload_by (codes "codex")) queued_comment queued_comment-route

-- A maintainer mentions the bot.
abbrev asking : Members
asking = payload_of (comment_saying (codes "@robomp fix it") (codes "Ann"))

abbrev asked : Directive
asked = record {
  body = codes "fix it";
  author = some (codes "Ann");
  pragmas = [];
  authorizes_impl = true;
}

abbrev asked_comment : RouteDecision
asked_comment =
    with_directive
      (from_submitter
        (queued_for handle_comment (codes "O/r") (codes "O/r#7") (codes "issue_comment.created"))
        (some (codes "Ann"), none))
      (some asked)

asked_comment-route : route router event asking ≡ some asked_comment
unfolding route text_eq decimal is_implementation_authorizer
asked_comment-route = refl

route-IsAuthorized_example : IsAuthorized router asking asked_comment asked
route-IsAuthorized_example =
    route-IsAuthorized router event asking asked_comment asked asked_comment-route refl

dispatch-route_example :
    task_of (dispatch router.py_str event (payload_by (codes "codex"))) ≡ some handle_comment
dispatch-route_example =
    dispatch-route router event (payload_by (codes "codex")) queued_comment queued_comment-route
      refl

abbrev own_comment : RouteDecision
own_comment = skipped (some (codes "O/r")) none (codes "bot/self comment")

abbrev own_account : Members
own_account = one (codes "login") (text (codes "robomp[bot]"))

own-IsBotComment : IsBotComment router (comment_by (codes "robomp[bot]"))
unfolding normalize_bot_login remove_suffix text_eq get
own-IsBotComment = record {
  user = own_account;
  login = codes "robomp[bot]";
  by_user = refl;
  has_login = refl;
  named = λ h. ground arith;
  bot = itself refl (λ h. ground arith);
  no_reviewer = refl;
  no_reviewer_app = refl;
}

route-refused_account_example : own_comment.decision ≡ skip
unfolding route text_eq
route-refused_account_example =
    route-refused_account router (payload_by (codes "robomp[bot]"))
      (comment_by (codes "robomp[bot]")) refl own-IsBotComment event own_comment (inl refl) refl
