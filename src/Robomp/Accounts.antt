-- ===== src/Robomp/Accounts.antt =====
-- src/robomp/github_events.py: who sent a webhook, and what the sender may do.
use oh_my_robot.Prelude.{
  ℕ, zero, suc, ◌-◌, Text, codes, text_eq, lower, strip, starts_with, Bool, true, false, not, ◌&&◌,
  ◌||◌, Option, none, some, [], ◌∷◌, map, reverse, take, length, leb, if◌then◌else◌, any,
}
use oh_my_robot.Robomp.Json.{Json, Members, get, as_text, as_object, str_or_empty}

abbrev upper_code : ℕ → ℕ
upper_code c = if leb b'a' c && leb c b'z' then c - 32 else c

-- `str.upper`, of the ASCII letters.
abbrev pub upper : Text → Text
upper = map upper_code

unfoldable pub ends_with : Text → Text → Bool
unfolding starts_with
ends_with s suffix = starts_with (reverse s) (reverse suffix)

abbrev pub drop : ℕ → Text → Text
drop zero s = s
drop (suc n) [] = []
drop (suc n) (c ∷ s) = drop n s

unfoldable pub remove_prefix : Text → Text → Text
unfolding starts_with
remove_prefix prefix s = if starts_with s prefix then drop (length prefix) s else s

unfoldable pub remove_suffix : Text → Text → Text
unfolding ends_with
remove_suffix suffix s = if ends_with s suffix then take (length s - length suffix) s else s

abbrev pub bot_suffix : Text
bot_suffix = codes "[bot]"

unfoldable pub normalize_bot_login : Text → Text
unfolding strip lower remove_prefix ends_with
normalize_bot_login login =
    let cleaned = remove_prefix (codes "@") (strip login) in
    lower
      (if ends_with (lower cleaned) bot_suffix then take (length cleaned - 5) cleaned else cleaned)

abbrev pub is_blank_text : Text → Bool
is_blank_text [] = true
is_blank_text (c ∷ s) = false

unfoldable pub login_matches_bot : Text → Text → Bool
unfolding normalize_bot_login
login_matches_bot login bot_login =
    not (is_blank_text (normalize_bot_login login))
    && text_eq (normalize_bot_login login) (normalize_bot_login bot_login)

abbrev owned_by : Text → Option Text → Option Text → Bool
owned_by login none owner_type = false
owned_by login (some owner) none = false
owned_by login (some owner) (some kind) =
    text_eq (lower kind) (codes "user") && text_eq (lower login) (lower owner)

abbrev owner_of : Text → Option Members → Bool
owner_of login none = false
owner_of login (some owner) =
    owned_by login (as_text (get (codes "login") owner)) (as_text (get (codes "type") owner))

abbrev repository_of : Text → Option Members → Bool
repository_of login none = false
repository_of login (some repository) = owner_of login (as_object (get (codes "owner") repository))

unfoldable pub login_matches_personal_repo_owner : Option Text → Json → Bool
unfolding get lower
login_matches_personal_repo_owner none repository = false
login_matches_personal_repo_owner (some login) repository =
    not (is_blank_text login) && repository_of login (as_object repository)

unfoldable pub effective_association : Option Text → Option Text → Json → Option Text
unfolding login_matches_personal_repo_owner
effective_association login (some (c ∷ s)) repository = some (c ∷ s)
effective_association login association repository =
    if login_matches_personal_repo_owner login repository then some (codes "OWNER") else association

abbrev pub is_bot_user : (Json → Text) → Text → Members → Bool
is_bot_user py_str bot_login user =
    let login = str_or_empty py_str (get (codes "login") user) in
    not (is_blank_text login)
    && (login_matches_bot login bot_login
        || ends_with (lower login) bot_suffix
        || text_eq (str_or_empty py_str (get (codes "type") user)) (codes "Bot"))

abbrev bot_object : (Json → Text) → Text → Option Members → Bool
bot_object py_str bot_login none = false
bot_object py_str bot_login (some user) = is_bot_user py_str bot_login user

unfoldable pub is_bot_account : (Json → Text) → Text → Json → Bool
unfolding login_matches_bot ends_with get lower
is_bot_account py_str bot_login user = bot_object py_str bot_login (as_object user)

abbrev login_in : Option Members → Option Text
login_in none = none
login_in (some user) = as_text (get (codes "login") user)

-- The login and the `author_association` of an issue or a comment.
unfoldable pub submitter_info : Members → Option Text × Option Text
unfolding get
submitter_info obj =
    (login_in (as_object (get (codes "user") obj)), as_text (get (codes "author_association") obj))

abbrev pub is_trusted : Text → Bool
is_trusted upper_case =
    any (text_eq upper_case) (codes "OWNER" ∷ codes "MEMBER" ∷ codes "COLLABORATOR" ∷ [])

abbrev pub is_listed : (Text → Bool) → Option Text → Bool
is_listed maintainers none = false
is_listed maintainers (some login) = not (is_blank_text login) && maintainers (lower login)

abbrev trusted_association : Option Text → Bool
trusted_association none = false
trusted_association (some association) = is_trusted (upper association)

unfoldable pub is_maintainer : (Text → Bool) → Option Text → Option Text → Bool
unfolding lower
is_maintainer maintainers login association =
    is_listed maintainers login || trusted_association association

abbrev pub owner_association : Option Text → Bool
owner_association none = false
owner_association (some association) = text_eq (upper association) (codes "OWNER")

unfoldable pub is_implementation_authorizer : (Text → Bool) → Option Text → Option Text → Bool
unfolding lower
is_implementation_authorizer maintainers login association =
    is_listed maintainers login || owner_association association

abbrev capped : ℕ → ℕ → Option Text → Option ℕ
capped default contributor none = some default
capped default contributor (some []) = some default
capped default contributor (some (c ∷ s)) =
    let name = upper (c ∷ s) in
    if is_trusted name
    then none
    else if text_eq name (codes "CONTRIBUTOR")
    then some contributor
    else some default

-- `none` is no limit.
unfoldable pub rate_limit_cap : (Text → Bool) → ℕ → ℕ → Text → Option Text → Option ℕ
unfolding lower
rate_limit_cap unlimited default contributor login association =
    if unlimited (lower login) then none else capped default contributor association

-- The hexadecimal HMAC-SHA256 of a body under a secret is the parameter; a header that is missing or
-- has no prefix is refused.
unfoldable pub verify_signature : (Text → Text → Text) → Text → Text → Option Text → Bool
unfolding starts_with remove_prefix
verify_signature hmac secret body none = false
verify_signature hmac secret body (some header) =
    starts_with header (codes "sha256=")
    && text_eq (hmac secret body) (remove_prefix (codes "sha256=") header)
