-- ===== src/Robomp/Routing/Handlers/Bots.antt =====
-- src/robomp/github_events.py: `route` and the comments of bots.
use oh_my_robot.Prelude.{
  Text, codes, text_eq, lower, true, false, ap, [], ◌∷◌, ◌++◌, is_none, starts_with, reverse,
  text_eq_iff, text_eq_refl, Option, none, some, ◌≡◌, ◌⊎◌, inl, inr, refl, sym, subst, arith,
}
use mathlib.Core.List.{reverse-append}
use oh_my_robot.Robomp.Json.{Members, get, text, object}
use oh_my_robot.Robomp.Accounts.{
  normalize_bot_login, bot_suffix, remove_suffix, is_blank_text, ends_with, is_bot_user,
  is_bot_account, login_matches_bot,
}
use oh_my_robot.Robomp.Routing.{
  skip, RouteDecision, Router, field, reviewer_bot_login, reviewer_login,
}
use oh_my_robot.Robomp.Routing.Handlers.{
  refused_account, issue_comment, review_comment, route_issue_comment, route_review_comment,
  route_allowed, allowed_repo, repo_full_name, route,
}
use oh_my_robot.Robomp.Routing.Handlers.Trust.{IsCommentOf, Holds, if-Holds}

abbrev IsSkip : RouteDecision → Type 0
IsSkip d = d.decision ≡ skip

-- A user whose login is that of the bot itself, in any spelling that GitHub shows it in; whose
-- login ends as those of the GitHub apps do; or whom GitHub says to be a bot.
pub data IsBot (r : Router) (user : Members) (login : Text) : Type 0 where
  itself :
      normalize_bot_login login ≡ normalize_bot_login r.bot_login
      → ¬ (normalize_bot_login login ≡ [])
      → IsBot r user login
  app : (stem : Text) → lower login ≡ stem ++ bot_suffix → IsBot r user login
  typed : get (codes "type") user ≡ text (codes "Bot") → IsBot r user login

-- The comment's user is a bot, and no reviewer bot of the settings, with its suffix or without.
pub record IsBotComment (r : Router) (comment : Members) : Type 0 where
  pub user : Members
  pub login : Text
  pub by_user : get (codes "user") comment ≡ object user
  pub has_login : get (codes "login") user ≡ text login
  pub named : ¬ (login ≡ [])
  pub bot : IsBot r user login
  pub no_reviewer : r.reviewer_bots (lower login) ≡ false
  pub no_reviewer_app : r.reviewer_bots (remove_suffix bot_suffix (lower login)) ≡ false

not_blank : (s : Text) → ¬ (s ≡ []) → is_blank_text s ≡ false
not_blank [] h = absurd (h refl)
not_blank (c ∷ s) h = refl

login-field :
    (r : Router) (m : Members) (key login : Text) → get key m ≡ text login → field r key m ≡ login
login-field r m key [] e = rw e refl
login-field r m key (c ∷ s) e = rw e refl

starts_with-append : (p s : Text) → starts_with (p ++ s) p ≡ true
unfolding starts_with
starts_with-append [] [] = refl
starts_with-append [] (c ∷ s) = refl
starts_with-append (c ∷ p) s = ground (arith, starts_with-append p s)

ends_with-append : (stem suffix : Text) → ends_with (stem ++ suffix) suffix ≡ true
unfolding ends_with
ends_with-append stem suffix =
    rw (reverse-append stem suffix) (starts_with-append (reverse suffix) (reverse stem))

matches :
    (r : Router) (login : Text)
    → normalize_bot_login login ≡ normalize_bot_login r.bot_login
    → ¬ (normalize_bot_login login ≡ [])
    → login_matches_bot login r.bot_login ≡ true
unfolding login_matches_bot
matches r login same named = ground (
  arith,
  not_blank (normalize_bot_login login) named,
  (text_eq_iff (normalize_bot_login login) (normalize_bot_login r.bot_login)).1 same,
)

IsBot-is_bot_user :
    (r : Router) (user : Members) (login : Text)
    → get (codes "login") user ≡ text login
    → ¬ (login ≡ [])
    → IsBot r user login
    → is_bot_user r.py_str r.bot_login user ≡ true
IsBot-is_bot_user r user login e n (itself same named) =
    let l = login-field r user (codes "login") login e in
    rw l (ground (arith, l, not_blank login n, matches r login same named))
IsBot-is_bot_user r user login e n (app stem same) =
    let l = login-field r user (codes "login") login e in
    let a : ends_with (lower login) bot_suffix ≡ true =
      rw same (ends_with-append stem bot_suffix) in
    rw l (ground (arith, not_blank login n, a))
IsBot-is_bot_user r user login e n (typed t) =
    let l = login-field r user (codes "login") login e in
    let k = login-field r user (codes "type") (codes "Bot") t in
    rw (l, k) (ground (arith, not_blank login n, text_eq_refl (codes "Bot")))

not_reviewer :
    (r : Router) (login raw : Text)
    → raw ≡ lower login
    → r.reviewer_bots (lower login) ≡ false
    → r.reviewer_bots (remove_suffix bot_suffix (lower login)) ≡ false
    → is_none (reviewer_login r raw) ≡ true
not_reviewer r login raw e f g = rw e (ground (arith, f, g))

module _ (r : Router) (payload comment : Members) (c : IsCommentOf payload comment)
    (b : IsBotComment r comment) where
  bot_account : is_bot_account r.py_str r.bot_login (get (codes "user") comment) ≡ true
  unfolding is_bot_account
  bot_account = rw b.by_user (IsBot-is_bot_user r b.user b.login b.has_login b.named b.bot)

  no_reviewer_login : is_none (reviewer_bot_login r (get (codes "user") comment)) ≡ true
  unfolding reviewer_bot_login
  no_reviewer_login =
      let l = login-field r b.user (codes "login") b.login b.has_login in
      rw b.by_user (
        not_reviewer r b.login (lower (field r (codes "login") b.user)) (ap lower l) b.no_reviewer
          b.no_reviewer_app)

  refused : refused_account r comment ≡ true
  refused = rw (no_reviewer_login, bot_account) refl

  issue_comment-IsSkip : (repo : Text) → Holds IsSkip (route_issue_comment r payload repo)
  unfolding route_issue_comment
  issue_comment-IsSkip repo =
      subst (λ o. Holds IsSkip (issue_comment r payload repo o)) (sym c) (rw refused refl)

  review_comment-IsSkip : (repo : Text) → Holds IsSkip (route_review_comment r payload repo)
  unfolding route_review_comment
  review_comment-IsSkip repo =
      subst (λ o. Holds IsSkip (review_comment r payload repo o)) (sym c) (rw refused refl)

  allowed-issue_comment :
      (repo : Text) → Holds IsSkip (route_allowed r (codes "issue_comment") payload repo)
  unfolding route_allowed text_eq
  allowed-issue_comment repo =
      if-Holds IsSkip (text_eq (field r (codes "action") payload) (codes "created")) _ _
        (issue_comment-IsSkip repo) refl

  allowed-review_comment :
      (repo : Text)
      → Holds IsSkip (route_allowed r (codes "pull_request_review_comment") payload repo)
  unfolding route_allowed text_eq
  allowed-review_comment repo =
      if-Holds IsSkip (text_eq (field r (codes "action") payload) (codes "created")) _ _
        (review_comment-IsSkip repo) refl

  allowed-IsSkip :
      (event_type repo : Text)
      → (event_type ≡ codes "issue_comment") ⊎ (event_type ≡ codes "pull_request_review_comment")
      → Holds IsSkip (route_allowed r event_type payload repo)
  allowed-IsSkip event_type repo (inl e) =
      subst (λ x. Holds IsSkip (route_allowed r x payload repo)) (sym e)
        (allowed-issue_comment repo)
  allowed-IsSkip event_type repo (inr e) =
      subst (λ x. Holds IsSkip (route_allowed r x payload repo)) (sym e)
        (allowed-review_comment repo)

  repo-IsSkip :
      (event_type : Text) (repo : Option Text)
      → (event_type ≡ codes "issue_comment") ⊎ (event_type ≡ codes "pull_request_review_comment")
      → Holds IsSkip (allowed_repo r event_type payload repo)
  repo-IsSkip event_type none e = refl
  repo-IsSkip event_type (some repo) e =
      if-Holds IsSkip (r.allowlist (lower repo)) _ _ (allowed-IsSkip event_type repo e) refl

  at_some : (o : Option RouteDecision) (d : RouteDecision) → Holds IsSkip o → o ≡ some d → IsSkip d
  at_some none d g h = absurd (ground arith)
  at_some (some d') d g h = let q : d' ≡ d = ground arith in subst IsSkip q g

  -- When `route` decides on an `issue_comment` or `pull_request_review_comment` event, it skips it
  -- if the comment's user has a login that is the bot's own in any spelling, or ends in [bot], or is
  -- of the type Bot; and neither that login in lower case, nor what this is without the suffix, is a
  -- reviewer bot of the settings.
  pub route-refused_account :
      (event_type : Text) (d : RouteDecision)
      → (event_type ≡ codes "issue_comment") ⊎ (event_type ≡ codes "pull_request_review_comment")
      → route r event_type payload ≡ some d
      → d.decision ≡ skip
  unfolding route
  route-refused_account event_type d e h =
      at_some (allowed_repo r event_type payload (repo_full_name r payload)) d
        (repo-IsSkip event_type (repo_full_name r payload) e) h
