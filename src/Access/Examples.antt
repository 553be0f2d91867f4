-- ===== src/Access/Examples.antt =====
-- Witnesses and tests of the middleware, with simple stand-ins for its libraries.
use video_meeting_recorder.Common.{
  ℕ, ◌++◌, ◌+◌, ◌≤◌, ◌*◌, ◌≡◌, refl, true, false, Option, none, some, List, [], ◌∷◌, all, Text,
  codes, text_eq, contains,
}
use video_meeting_recorder.Common.Maps.{Map, lookup, has_key}
use video_meeting_recorder.Common.Clock.{second, hour}
use video_meeting_recorder.Errors.{ok}
use video_meeting_recorder.Token.{Json}
use video_meeting_recorder.IpValidator.{Net}
use video_meeting_recorder.Sm4Token.{
  Aead, User, Claims, TokenPair, Sm4TokenService, default_grace, access, refresh,
}
use video_meeting_recorder.Sm4Token.Refresh.{find_user}
use video_meeting_recorder.ApiKey.{ApiKey, JsonLists, all_scopes, create_api_key}
use video_meeting_recorder.Access.{
  passes, refuses, Context, Request, has_permission, find_key, key_context, handle_api_key_auth,
  require_api_key_resource_permission, multi_auth,
}
use video_meeting_recorder.Access.Keys.{AllowsAddress, handle_api_key_auth_sound}
use video_meeting_recorder.Access.Precedence.{key_precedes}
use video_meeting_recorder.Access.Created.{lasting, lasting_key, created_key_passes}
use video_meeting_recorder.Access.Inherited.{plain_user, inherited_within}

abbrev plain_json : JsonLists
plain_json = record { marshal = λ l. some (codes "list"); unmarshal = λ t. some [] }

abbrev no_net : Net
no_net = record {
  trim_space = λ s. s;
  parse_ip = λ s. none;
  to4 = λ s. none;
  parse_cidr = λ s. none;
}

abbrev ann : User
ann = record {
  id = 7;
  username = codes "ann";
  is_active = true;
  roles =
      record {
        id = 1;
        name = codes "operator";
        permissions = record { resource = codes "tasks"; action = codes "view" } ∷ [];
      }
      ∷ [];
}

abbrev ann_key : ApiKey
ann_key = lasting_key 2 (codes "export") (codes "rec_7") 7 [] []

abbrev keys : Map ApiKey
keys = (2, ann_key) ∷ []

abbrev users : List User
users = ann ∷ []

abbrev with_key : Text → Request
with_key key = record {
  api_key = key;
  authorization = [];
  path = codes "/api";
  query_token = [];
  client_ip = codes "10.0.0.1";
}

abbrev ann_context : Context
ann_context = key_context plain_json ann_key ann

handle_api_key_auth_sound_example :
    (k : ApiKey) × (u : User) × (find_key (codes "rec_7") keys ≡ some k)
    × (find_user k.user_id users ≡ some u)
    × (k.is_active ≡ true)
    × ((t : ℕ) → k.expires_at ≡ some t → 1000 ≤ t)
    × (u.is_active ≡ true)
    × AllowsAddress plain_json no_net 1000 (codes "10.0.0.1") k
    × (ann_context ≡ key_context plain_json k u)
unfolding handle_api_key_auth text_eq
handle_api_key_auth_sound_example =
    handle_api_key_auth_sound plain_json no_net 1000 true keys users (with_key (codes "rec_7"))
      ann_context refl

inherited_within_example :
    (u : User) × (find_user 7 users ≡ some u)
    × (u.is_active ≡ true)
    × (has_permission (codes "tasks") (codes "view") u.roles ≡ true)
unfolding handle_api_key_auth require_api_key_resource_permission key_context text_eq contains
    plain_user all
inherited_within_example =
    inherited_within plain_json no_net 1000 true keys users (with_key (codes "rec_7")) ann_context
      (codes "tasks") (codes "view") refl refl refl refl refl

abbrev root : User
root = record ann { roles = record { id = 1; name = codes "admin"; permissions = [] } ∷ [] }

created_key_passes_example :
    let k = lasting_key 5 (codes "new") (codes "rec_8") 7 (codes "list") [] in
    let (r, keys') =
      create_api_key plain_json
        (λ b. true)
        (λ t. none)
        1000
        (some (codes "rec_8"))
        true
        5
        7
        (lasting (codes "new") (codes "write" ∷ []) false [])
        keys in
    (r ≡ ok k)
    × (handle_api_key_auth plain_json no_net 2000 true keys' users (with_key (codes "rec_8"))
        ≡ passes (key_context plain_json k ann))
unfolding all_scopes text_eq has_key find_user lookup
created_key_passes_example =
    created_key_passes plain_json no_net users ann (λ b. true) (λ t. none) 1000 2000 5 7
      (codes "rec_8") (codes "new") [] (codes "list") (codes "write" ∷ []) false keys
      (with_key (codes "rec_8")) (λ b. refl) refl refl refl refl refl refl refl

abbrev opened : Text → Text → Option Text
opened n (c ∷ p) = some p
opened n [] = none

abbrev plain : Aead
plain = record {
  nonce_size = 1;
  overhead = 1;
  sealed = λ n p. 0 ∷ p;
  open_sealed = opened;
  raw_url_encode = λ s. s;
  raw_url_decode = λ s. some s;
}

abbrev written : Claims → Option Text
written c = some (c.issued_at ∷ c.expires_at ∷ c.not_before ∷ c.token_type)

abbrev read_back : Text → Option Claims
read_back (i ∷ e ∷ n ∷ t) = some (record {
  user_id = 7;
  username = codes "ann";
  role_ids = 1 ∷ [];
  permissions = codes "tasks:view" ∷ [];
  is_admin = false;
  token_type = t;
  issued_at = i;
  expires_at = e;
  not_before = n;
  issuer = codes "record_v2";
})
read_back _ = none

abbrev claims_json : Json Claims
claims_json = record { marshal = written; unmarshal = read_back }

abbrev service : Sm4TokenService
service = record {
  issuer = codes "record_v2";
  expire_hours = 2;
  refresh_expire = 24;
  grace_period = default_grace;
}

abbrev pair : TokenPair
pair = record {
  access_token = 5 ∷ 0 ∷ 1000 ∷ 8200 ∷ 1000 ∷ access;
  refresh_token = 6 ∷ 0 ∷ 1000 ∷ 87400 ∷ 1000 ∷ refresh;
  expires_at = 1000 * second + 2 * hour;
}

abbrev both : Request
both = record (with_key (codes "rec_7")) { authorization = codes "Bearer " ++ pair.access_token }

key_precedes_example :
    let serve = λ (r : Request).
      multi_auth plain_json no_net plain claims_json (3000 * second) true keys users [] r in
    (serve (record both { authorization = codes "Bearer x"; query_token = [] }) ≡ serve both)
    × (ann_key.is_active ≡ false → serve both ≡ refuses 401)
unfolding text_eq find_key
key_precedes_example =
    key_precedes plain_json no_net plain claims_json (3000 * second) keys users [] both ann_key
      (codes "Bearer x") [] refl refl
