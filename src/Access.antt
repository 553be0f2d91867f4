-- ===== src/Access.antt =====
-- internal/middleware/auth.go, apikey.go and permission.go: who a request comes from and what it may do.
-- `HasPermission` is that of internal/models/user.go. The context of a request has the values that the
-- middleware sets; a status is that of HTTP. The last use that is saved in the row of a key, and the log
-- of its use, are left out.
mod Examples
pub mod Keys
pub mod Created
pub mod Inherited
pub mod Tokens
pub mod Precedence
use video_meeting_recorder.Common.{
  ℕ, suc, ◌+◌, Bool, true, false, not, ◌&&◌, ◌||◌, Option, none, some, List, [], ◌∷◌, ◌++◌, map,
  Text, codes, text_eq, is_empty, has_prefix, contains, ltb, ◌==◌, if◌then◌else◌,
}
use video_meeting_recorder.Common.Maps.{Map, lookup, insert}
use video_meeting_recorder.Errors.{Error, Result, ok, err}
use video_meeting_recorder.Token.{Json}
use video_meeting_recorder.IpValidator.{Net}
use video_meeting_recorder.RateLimit.{RateLimitConfig}
use video_meeting_recorder.Sm4Token.{
  Permission, Role, User, Claims, Aead, has_role, has_text, validate_token,
}
use video_meeting_recorder.Sm4Token.Refresh.{find_user}
use video_meeting_recorder.ApiKey.{
  ApiKey, JsonLists, scope_read, scope_write, scope_admin, is_expired, is_ip_allowed,
  get_scope_list, check_scope,
}

abbrev pub colon : ℕ
colon = 58

abbrev pub star : Text
star = codes "*"

-- The loop body of HasPermission over the permissions of a role; its first test implies its second.
unfoldable pub grants : Text → Text → Permission → Bool
grants resource action p =
    (text_eq p.resource resource || text_eq p.resource star)
    && (text_eq p.action action || text_eq p.action star)

unfoldable pub any_grants : Text → Text → List Permission → Bool
unfolding grants
any_grants resource action [] = false
any_grants resource action (p ∷ ps) =
    let rest = any_grants resource action ps in if grants resource action p then true else rest

unfoldable pub has_permission : Text → Text → List Role → Bool
unfolding any_grants
has_permission resource action [] = false
has_permission resource action (r ∷ rs) =
    let rest = has_permission resource action rs in
    if text_eq r.name (codes "admin")
    then true
    else if any_grants resource action r.permissions
    then true
    else rest

pub record Request : Type 0 where
  pub api_key : Text
  pub authorization : Text
  pub path : Text
  pub query_token : Text
  pub client_ip : Text

pub record Context : Type 0 where
  pub user_id : ℕ
  pub username : Text
  pub role_ids : List ℕ
  pub is_admin : Bool
  pub permissions : Option (List Text)
  pub token : Text
  pub api_key_id : Option ℕ
  pub scopes : List Text
  pub inherit_perms : Bool

-- The middleware goes on, answers with a status, panics, or leaves the request to another.
pub data Access : Type 0 where
  passes : (context : Context) → Access
  refuses : (status : ℕ) → Access
  panics : Access
  skips : Access

abbrev pub permission_text : Permission → Text
permission_text p = p.resource ++ colon ∷ p.action

-- All the permissions of the roles, in order.
unfoldable pub permission_texts : List Role → List Text
permission_texts [] = []
permission_texts (r ∷ rs) = map permission_text r.permissions ++ permission_texts rs

unfoldable pub find_key : Text → Map ApiKey → Option ApiKey
find_key t [] = none
find_key t ((i, k) ∷ ks) = let rest = find_key t ks in if text_eq k.key t then some k else rest

-- The permissions are set for a key that inherits, if its user has a role.
unfoldable pub inherited : Bool → List Role → Option (List Text)
unfolding permission_texts
inherited false rs = none
inherited true [] = none
inherited true (r ∷ rs) = some (permission_texts (r ∷ rs))

unfoldable pub key_context : JsonLists → ApiKey → User → Context
unfolding get_scope_list inherited has_role
key_context json k u = record {
  user_id = k.user_id;
  username = u.username;
  role_ids = map Role.id u.roles;
  is_admin = k.inherit_perms && has_role (codes "admin") u.roles;
  permissions = inherited k.inherit_perms u.roles;
  token = [];
  api_key_id = some k.id;
  scopes = get_scope_list json k;
  inherit_perms = k.inherit_perms;
}

unfoldable pub check_key : JsonLists → Net → ℕ → Text → ApiKey → Option User → Access
unfolding is_expired is_ip_allowed key_context
check_key json n now client k o =
    if not k.is_active || is_expired now k then refuses 401 else elim o [
      | none ↦ panics
      | some u ↦
          if not u.is_active
          then refuses 401
          else if not (is_ip_allowed json n client k)
          then refuses 403
          else passes (key_context json k u)
    ]

unfoldable pub check_found : JsonLists → Net → ℕ → Text → List User → Option ApiKey → Access
unfolding check_key find_user
check_found json n now client users none = skips
check_found json n now client users (some k) =
    check_key json n now client k (find_user k.user_id users)

-- `loaded` is whether the database answers.
unfoldable pub handle_api_key_auth :
    JsonLists → Net → ℕ → Bool → Map ApiKey → List User → Request → Access
unfolding check_found find_key
handle_api_key_auth json n now loaded keys users q =
    if is_empty q.api_key
    then skips
    else check_found json n now q.client_ip users (if loaded then find_key q.api_key keys else none)

-- strings.SplitN(s, c, 2), if it has two parts.
unfoldable pub cut : ℕ → Text → Option (Text × Text)
cut c [] = none
cut c (x ∷ s) =
    let rest = cut c s in
    if x == c then some ([], s) else elim rest [ none ↦ none | some p ↦ some (x ∷ p.0, p.1) ]

unfoldable pub bearer : Option (Text × Text) → Text
bearer none = []
bearer (some p) = if text_eq p.0 (codes "Bearer") then p.1 else []

unfoldable pub extract_token_from_header : Request → Text
unfolding cut bearer
extract_token_from_header q = bearer (cut 32 q.authorization)

unfoldable pub is_allowed_token_url : Text → List Text → Bool
unfolding has_prefix
is_allowed_token_url path [] = false
is_allowed_token_url path (p ∷ ps) =
    let rest = is_allowed_token_url path ps in
    if not (is_empty p) && has_prefix path p then true else rest

unfoldable pub extract_token : List Text → Request → Text
unfolding extract_token_from_header is_allowed_token_url
extract_token prefixes q =
    let header = extract_token_from_header q in
    if is_empty header && is_allowed_token_url q.path prefixes then q.query_token else header

unfoldable pub token_context : Text → Claims → Context
token_context token c = record {
  user_id = c.user_id;
  username = c.username;
  role_ids = c.role_ids;
  is_admin = c.is_admin;
  permissions = some c.permissions;
  token = token;
  api_key_id = none;
  scopes = [];
  inherit_perms = false;
}

-- The errors of a token are answered with 401.
unfoldable pub by_claims : Text → Result Claims → Access
unfolding token_context
by_claims token (err e) = refuses 401
by_claims token (ok c) = passes (token_context token c)

unfoldable pub sm4_auth : Aead → Json Claims → ℕ → List Text → Request → Access
unfolding extract_token by_claims validate_token
sm4_auth x claims now prefixes q =
    let token = extract_token prefixes q in
    if is_empty token then refuses 401 else by_claims token (validate_token x claims now token)

unfoldable pub or_token : Access → Access → Access
or_token skips other = other
or_token a other = a

-- SM4Auth refuses a request without a token with the same status.
unfoldable pub multi_auth :
    JsonLists
    → Net
    → Aead
    → Json Claims
    → ℕ
    → Bool
    → Map ApiKey
    → List User
    → List Text
    → Request
    → Access
unfolding handle_api_key_auth sm4_auth or_token
multi_auth json n x claims now loaded keys users prefixes q =
    or_token (handle_api_key_auth json n now loaded keys users q) (sm4_auth x claims now prefixes q)

-- None where the middleware goes on, or the status.
abbrev pub Verdict : Type 0
Verdict = Option ℕ

unfoldable pub has_admin : List Text → Bool
unfolding has_text
has_admin ps = has_text (codes "admin") ps || has_text star ps

unfoldable pub action_of : Option (Text × Text) → Text
unfolding contains
action_of none = []
action_of (some p) = if contains colon p.1 then [] else p.1

unfoldable pub any_action : List Text → List Text → Bool
unfolding action_of cut has_text
any_action actions [] = false
any_action actions (p ∷ ps) =
    let rest = any_action actions ps in
    if has_text (action_of (cut colon p)) actions then true else rest

unfoldable pub scope_by_permissions : Text → Bool → List Text → Bool
unfolding any_action
scope_by_permissions required is_admin ps =
    if text_eq required scope_read
    then any_action (codes "view" ∷ []) ps
    else if text_eq required scope_write
    then any_action (codes "edit" ∷ codes "create" ∷ codes "delete" ∷ []) ps
    else if text_eq required scope_admin
    then is_admin
    else false

unfoldable pub permitted : (List Text → Bool) → Option (List Text) → Verdict
unfolding has_admin
permitted test none = some 403
permitted test (some ps) = if has_admin ps then none else if test ps then none else some 403

unfoldable pub require_scope : Text → Context → Verdict
unfolding permitted scope_by_permissions check_scope
require_scope required c = elim c.api_key_id [
  | none ↦ none
  | some i ↦
      if c.inherit_perms
      then permitted (scope_by_permissions required c.is_admin) c.permissions
      else if check_scope c.scopes required
      then none
      else some 403
]

unfoldable pub scope_of_action : Text → Text
unfolding has_text
scope_of_action action =
    if has_text action (codes "create" ∷ codes "edit" ∷ codes "delete" ∷ [])
    then scope_write
    else scope_read

unfoldable pub require_api_key_resource_permission : Text → Text → Context → Verdict
unfolding permitted scope_of_action check_scope
require_api_key_resource_permission resource action c = elim c.api_key_id [
  | none ↦ none
  | some i ↦
      if c.inherit_perms
      then permitted (has_text (resource ++ colon ∷ action)) c.permissions
      else if check_scope c.scopes (scope_of_action action)
      then none
      else some 403
]

abbrev pub limits : ℕ → ℕ → ℕ → RateLimitConfig
limits m h d = record { requests_per_minute = m; requests_per_hour = h; requests_per_day = d }

-- The limits that RateLimitByScope asks for.
unfoldable pub rate_limit_by_scope : Context → RateLimitConfig
unfolding has_text
rate_limit_by_scope c =
    if c.inherit_perms
    then limits 120 2000 20000
    else if has_text scope_admin c.scopes
    then limits 200 5000 50000
    else if has_text scope_write c.scopes
    then limits 100 1500 15000
    else limits 30 500 5000

unfoldable pub require_permission : List User → Text → Text → Context → Verdict
unfolding find_user has_permission
require_permission users resource action c =
    if c.user_id == 0 then some 401 else elim (find_user c.user_id users) [
      | none ↦ some 500
      | some u ↦ if has_permission resource action u.roles then none else some 403
    ]

unfoldable pub has_any_role : List Text → List Role → Bool
unfolding has_role
has_any_role [] rs = false
has_any_role (n ∷ ns) rs = let rest = has_any_role ns rs in if has_role n rs then true else rest

unfoldable pub require_role : List User → List Text → Context → Verdict
unfolding find_user has_any_role
require_role users names c = if c.user_id == 0 then some 401 else elim (find_user c.user_id users) [
  | none ↦ some 500
  | some u ↦ if has_any_role names u.roles then none else some 403
]

-- `owner` is that of the resource.
unfoldable pub require_ownership_or_role : List User → ℕ → List Text → Context → Verdict
unfolding require_role
require_ownership_or_role users owner names c =
    if c.user_id == 0
    then some 401
    else if owner == c.user_id
    then none
    else require_role users names c

unfoldable pub has_number : ℕ → List ℕ → Bool
has_number n [] = false
has_number n (m ∷ ms) = let rest = has_number n ms in if n == m then true else rest

-- 5 is the identifier of the role shared_viewer.
unfoldable pub get_has_shared_viewer : Context → Bool
unfolding has_number
get_has_shared_viewer c = has_number 5 c.role_ids

unfoldable pub can_access_all_data : Context → Bool
unfolding get_has_shared_viewer
can_access_all_data c = c.is_admin || get_has_shared_viewer c

-- The owner that a query is filtered by, none for an administrator.
unfoldable pub require_data_scope : Context → Result (Option ℕ)
require_data_scope c =
    if c.is_admin
    then ok none
    else if c.user_id == 0
    then err Error.unauthorized
    else ok (some c.user_id)
