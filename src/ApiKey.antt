-- ===== src/ApiKey.antt =====
-- internal/models/api_key.go and internal/services/apikey_service.go: the keys, their checks, and the calls
-- that change them. encoding/json on lists of strings, the package net and the random key are
-- parameters. The table of the keys is a map from their identifiers. Times are nanoseconds since 1970.
mod Examples
pub mod Strangers
use video_meeting_recorder.Common.{
  ℕ, Bool, true, false, not, ◌&&◌, ◌||◌, Option, none, some, List, [], ◌∷◌, Text, codes, text_eq,
  is_empty, contains, ltb, ◌==◌, if◌then◌else◌,
}
use video_meeting_recorder.Common.Maps.{Map, lookup, insert, delete, has_key}
use video_meeting_recorder.Errors.{
  Result, ok, err, external, internal, invalid_input, api_key_not_found, ◌>>=◌,
}
use video_meeting_recorder.IpValidator.{Net, slash}

-- `scopes` and `ip_whitelist` are JSON texts.
pub record ApiKey : Type 0 where
  pub id : ℕ
  pub name : Text
  pub key : Text
  pub user_id : ℕ
  pub expires_at : Option ℕ
  pub last_used_at : Option ℕ
  pub is_active : Bool
  pub scopes : Text
  pub ip_whitelist : Text
  pub description : Text
  pub inherit_perms : Bool

-- encoding/json: the text of a list, and the list of a text, none where the slice stays nil.
pub record JsonLists : Type 0 where
  pub marshal : List Text → Option Text
  pub unmarshal : Text → Option (List Text)

abbrev pub scope_read : Text
scope_read = codes "read"

abbrev pub scope_write : Text
scope_write = codes "write"

abbrev pub scope_admin : Text
scope_admin = codes "admin"

unfoldable pub is_expired : ℕ → ApiKey → Bool
is_expired now k = elim k.expires_at [ none ↦ false | some t ↦ ltb t now ]

unfoldable pub list_of : JsonLists → Text → Option (List Text)
list_of json text = if is_empty text then some [] else json.unmarshal text

unfoldable pub or_empty : Option (List Text) → List Text
or_empty none = []
or_empty (some l) = l

unfoldable pub get_scope_list : JsonLists → ApiKey → List Text
unfolding list_of or_empty
get_scope_list json k = or_empty (list_of json k.scopes)

-- One scope against the required one; checkScope of internal/middleware/apikey.go is the same loop.
unfoldable pub covers : Text → Text → Bool
covers required scope =
    text_eq scope scope_admin
    || (text_eq scope scope_write && (text_eq required scope_read || text_eq required scope_write))
    || text_eq scope required

unfoldable pub check_scope : List Text → Text → Bool
unfolding covers
check_scope [] required = false
check_scope (s ∷ ss) required =
    let rest = check_scope ss required in if covers required s then true else rest

unfoldable pub has_scope : JsonLists → Text → ApiKey → Bool
unfolding check_scope get_scope_list
has_scope json required k =
    if k.inherit_perms then true else check_scope (get_scope_list json k) required

unfoldable pub normalize_ip : Net → Option Text → Option Text
normalize_ip n none = none
normalize_ip n (some ip) = elim (n.to4 ip) [ none ↦ some ip | some v4 ↦ some v4 ]

unfoldable pub in_network : Net → Option Text → Text → Bool
in_network n ip entry = elim (n.parse_cidr entry) [
  | none ↦ false
  | some has ↦ elim ip [ none ↦ false | some a ↦ has a ]
]

unfoldable pub admits : Net → Text → Text → Bool
unfolding in_network normalize_ip contains
admits n client entry =
    text_eq entry client
    || (contains slash entry && in_network n (normalize_ip n (n.parse_ip client)) entry)

unfoldable pub any_admits : Net → Text → List Text → Bool
unfolding admits
any_admits n client [] = false
any_admits n client (e ∷ es) =
    let rest = any_admits n client es in if admits n client e then true else rest

unfoldable pub allows : Net → Text → Option (List Text) → Bool
unfolding any_admits
allows n client none = false
allows n client (some []) = true
allows n client (some (e ∷ es)) = any_admits n client (e ∷ es)

unfoldable pub is_ip_allowed : JsonLists → Net → Text → ApiKey → Bool
unfolding allows list_of
is_ip_allowed json n client k = allows n client (list_of json k.ip_whitelist)

unfoldable pub is_own : ℕ → Bool → ApiKey → Bool
is_own user_id is_admin k = is_admin || k.user_id == user_id

unfoldable pub own_only : ℕ → Bool → Option ApiKey → Result ApiKey
unfolding is_own
own_only user_id is_admin none = err api_key_not_found
own_only user_id is_admin (some k) =
    if is_own user_id is_admin k then ok k else err api_key_not_found

-- `loaded` is whether the database answers.
unfoldable pub find_api_key_for_user : Bool → ℕ → ℕ → Bool → Map ApiKey → Result ApiKey
unfolding own_only lookup
find_api_key_for_user loaded id user_id is_admin keys =
    if not loaded then err external else own_only user_id is_admin (lookup id keys)

unfoldable pub is_scope : Text → Bool
is_scope s = text_eq s scope_read || text_eq s scope_write || text_eq s scope_admin

unfoldable pub all_scopes : List Text → Bool
unfolding is_scope
all_scopes [] = true
all_scopes (s ∷ ss) = let rest = all_scopes ss in if is_scope s then rest else false

pub record CreateApiKeyRequest : Type 0 where
  pub name : Text
  pub expires_at : Option Text
  pub scopes : List Text
  pub inherit_perms : Bool
  pub ip_whitelist : Option (List Text)
  pub description : Text

-- time.Parse of RFC 3339 is an argument.
unfoldable pub parse_expiry : (Text → Option ℕ) → ℕ → Option Text → Result (Option ℕ)
parse_expiry parse now none = ok none
parse_expiry parse now (some text) = if is_empty text then ok none else elim (parse text) [
  | none ↦ err invalid_input
  | some t ↦ if ltb t now then err invalid_input else ok (some t)
]

unfoldable pub marshalled : Option Text → Result Text
marshalled none = err external
marshalled (some t) = ok t

unfoldable pub marshal_whitelist : JsonLists → Option (List Text) → Result Text
unfolding marshalled
marshal_whitelist json none = ok []
marshal_whitelist json (some l) = marshalled (json.marshal l)

unfoldable pub drawn : Option Text → Result Text
drawn none = err internal
drawn (some key) = ok key

-- The row is added under a new identifier if the database writes it.
unfoldable pub insert_key : Bool → ApiKey → Map ApiKey → Result ApiKey × Map ApiKey
unfolding insert has_key
insert_key written k keys =
    if not written || has_key k.id keys then (err external, keys) else (ok k, insert k.id k keys)

-- `stored` is what gorm writes for a Boolean field whose column has the default true.
unfoldable pub build_key :
    JsonLists
    → (Bool → Bool)
    → (Text → Option ℕ)
    → ℕ
    → Option Text
    → ℕ
    → ℕ
    → CreateApiKeyRequest
    → Result ApiKey
unfolding all_scopes parse_expiry marshalled marshal_whitelist drawn
build_key json stored parse now key id user_id q =
    if not (all_scopes q.scopes)
    then err invalid_input
    else parse_expiry parse now q.expires_at >>= λ expires_at.
        marshalled (json.marshal q.scopes) >>= λ scopes.
        marshal_whitelist json q.ip_whitelist >>= λ whitelist. drawn key >>= λ key. ok (record {
          id = id;
          name = q.name;
          key = key;
          user_id = user_id;
          expires_at = expires_at;
          last_used_at = none;
          is_active = stored true;
          scopes = scopes;
          ip_whitelist = whitelist;
          description = q.description;
          inherit_perms = stored q.inherit_perms;
        })

unfoldable pub insert_built : Bool → Result ApiKey → Map ApiKey → Result ApiKey × Map ApiKey
unfolding insert_key
insert_built written (err e) keys = (err e, keys)
insert_built written (ok k) keys = insert_key written k keys

unfoldable pub create_api_key :
    JsonLists
    → (Bool → Bool)
    → (Text → Option ℕ)
    → ℕ
    → Option Text
    → Bool
    → ℕ
    → ℕ
    → CreateApiKeyRequest
    → Map ApiKey
    → Result ApiKey × Map ApiKey
unfolding insert_built build_key
create_api_key json stored parse now key written id user_id q keys =
    insert_built written (build_key json stored parse now key id user_id q) keys

-- A field that is none is not changed.
pub record UpdateApiKeyRequest : Type 0 where
  pub name : Option Text
  pub is_active : Option Bool
  pub scopes : Option (List Text)
  pub ip_whitelist : Option (List Text)
  pub description : Option Text

unfoldable pub given {ℓ} : {A : Type ℓ} → A → Option A → A
given old none = old
given old (some new) = new

unfoldable pub marshal_given : JsonLists → Text → Option (List Text) → Result Text
unfolding marshalled
marshal_given json old none = ok old
marshal_given json old (some l) = marshalled (json.marshal l)

unfoldable pub updated : JsonLists → UpdateApiKeyRequest → ApiKey → Result ApiKey
unfolding given marshal_given
updated json q k = marshal_given json k.scopes q.scopes >>= λ scopes.
    marshal_given json k.ip_whitelist q.ip_whitelist >>= λ whitelist. ok (record k {
      name = given k.name q.name;
      is_active = given k.is_active q.is_active;
      description = given k.description q.description;
      scopes = scopes;
      ip_whitelist = whitelist;
    })

-- The row that is found is written again.
unfoldable pub store : Bool → ℕ → Result ApiKey → Map ApiKey → Result ApiKey × Map ApiKey
unfolding insert
store written id (err e) keys = (err e, keys)
store written id (ok k) keys = if written then (ok k, insert id k keys) else (err external, keys)

-- The query of the new row may fail after the write.
unfoldable pub reload : Bool → Result ApiKey × Map ApiKey → Result ApiKey × Map ApiKey
reload reloaded (err e, keys) = (err e, keys)
reload reloaded (ok k, keys) = if reloaded then (ok k, keys) else (err external, keys)

unfoldable pub update_api_key :
    JsonLists
    → Bool
    → Bool
    → Bool
    → ℕ
    → ℕ
    → Bool
    → UpdateApiKeyRequest
    → Map ApiKey
    → Result ApiKey × Map ApiKey
unfolding reload store updated find_api_key_for_user
update_api_key json loaded written reloaded id user_id is_admin q keys = reload reloaded (
    store written id (find_api_key_for_user loaded id user_id is_admin keys >>= updated json q)
      keys)

unfoldable pub toggled : ApiKey → Result ApiKey
toggled k = ok (record k { is_active = not k.is_active })

unfoldable pub toggle_api_key_status :
    Bool → Bool → ℕ → ℕ → Bool → Map ApiKey → Result ApiKey × Map ApiKey
unfolding store toggled find_api_key_for_user
toggle_api_key_status loaded written id user_id is_admin keys =
    store written id (find_api_key_for_user loaded id user_id is_admin keys >>= toggled) keys

unfoldable pub delete_found : Bool → ℕ → Result ApiKey → Map ApiKey → Result ApiKey × Map ApiKey
unfolding delete
delete_found written id (err e) keys = (err e, keys)
delete_found written id (ok k) keys =
    if written then (ok k, delete id keys) else (err external, keys)

unfoldable pub delete_api_key : Bool → Bool → ℕ → ℕ → Bool → Map ApiKey → Result ApiKey × Map ApiKey
unfolding delete_found find_api_key_for_user
delete_api_key loaded written id user_id is_admin keys =
    delete_found written id (find_api_key_for_user loaded id user_id is_admin keys) keys
