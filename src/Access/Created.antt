-- ===== src/Access/Created.antt =====
-- A key that CreateAPIKey of internal/services/apikey_service.go makes, in the header of a request to
-- internal/middleware/apikey.go.
use video_meeting_recorder.Common.{
  ℕ, ◌≡◌, refl, ap, ◌∙◌, Bool, true, false, Option, none, some, List, [], Text, text_eq_refl,
  is_empty, if◌then◌else◌, arith,
}
use video_meeting_recorder.Common.Maps.{Map, insert, has_key}
use video_meeting_recorder.Errors.{ok}
use video_meeting_recorder.IpValidator.{Net}
use video_meeting_recorder.Sm4Token.{User}
use video_meeting_recorder.Sm4Token.Refresh.{find_user}
use video_meeting_recorder.ApiKey.{
  ApiKey, JsonLists, all_scopes, parse_expiry, marshalled, marshal_whitelist, drawn,
  CreateApiKeyRequest, build_key, insert_key, insert_built, create_api_key, is_expired,
  is_ip_allowed, list_of, allows,
}
use video_meeting_recorder.Access.{
  passes, skips, Request, find_key, key_context, check_key, check_found, handle_api_key_auth,
}

-- A request for a key without an end and without a list of addresses.
abbrev pub lasting : Text → List Text → Bool → Text → CreateApiKeyRequest
lasting name scopes inherit_perms description = record {
  name = name;
  expires_at = none;
  scopes = scopes;
  inherit_perms = inherit_perms;
  ip_whitelist = none;
  description = description;
}

-- The row of it.
abbrev pub lasting_key : ℕ → Text → Text → ℕ → Text → Text → ApiKey
lasting_key id name key user_id scopes description = record {
  id = id;
  name = name;
  key = key;
  user_id = user_id;
  expires_at = none;
  last_used_at = none;
  is_active = true;
  scopes = scopes;
  ip_whitelist = [];
  description = description;
  inherit_perms = true;
}

module _ (json : JsonLists) (n : Net) (users : List User) (u : User) where
  check_lasting :
      (now : ℕ) (client : Text) (k : ApiKey)
      → k.is_active ≡ true
      → k.expires_at ≡ none
      → k.ip_whitelist ≡ []
      → u.is_active ≡ true
      → check_key json n now client k (some u) ≡ passes (key_context json k u)
  unfolding check_key is_expired is_ip_allowed list_of allows
  check_lasting now client k a e w l = ground (arith, a, e, w, l)

  find_key-insert :
      (id : ℕ) (k : ApiKey) (keys : Map ApiKey) → find_key k.key (insert id k keys) ≡ some k
  unfolding find_key insert
  find_key-insert id k keys = rw (text_eq_refl k.key) refl

  -- A key of an active user that is created without an end and without a list of addresses lets a request
  -- with it through at any time after, from any address, and inherits the permissions of its user,
  -- whether it is asked to or not. Its scopes are of the three, the database answers, the key is drawn
  -- and is not empty, and gorm writes a zero Boolean as the default of its column, true.
  pub created_key_passes :
      (stored : Bool → Bool) (parse : Text → Option ℕ) (now later id user_id : ℕ)
      (key name description text : Text) (scopes : List Text) (inherit_perms : Bool)
      (keys : Map ApiKey) (q : Request)
      → ((b : Bool) → stored b ≡ true)
      → all_scopes scopes ≡ true
      → json.marshal scopes ≡ some text
      → has_key id keys ≡ false
      → find_user user_id users ≡ some u
      → u.is_active ≡ true
      → q.api_key ≡ key
      → is_empty key ≡ false
      → let k = lasting_key id name key user_id text description in
        let (r, keys') =
          create_api_key json stored parse now
            (some key)
            true
            id
            user_id
            (lasting name scopes inherit_perms description)
            keys in
        (r ≡ ok k)
        × (handle_api_key_auth json n later true keys' users q ≡ passes (key_context json k u))
  unfolding create_api_key build_key insert_built insert_key parse_expiry marshalled
      marshal_whitelist drawn handle_api_key_auth check_found
  created_key_passes stored parse now later id user_id key name description text scopes
        inherit_perms keys q defaults valid written new found active same nonempty =
      let k = lasting_key id name key user_id text description in
      let made : create_api_key json stored parse now (some key) true id user_id
            (lasting name scopes inherit_perms description) keys
          ≡ (ok k, insert id k keys) =
        rw
          (
            valid,
            written,
            defaults true,
            defaults inherit_perms,
            create_api_key,
            build_key,
            new,
            insert_built,
          )
          refl in
      (
        ap (λ p. p.0) made,
        ap (λ p. handle_api_key_auth json n later true p.1 users q) made
            ∙ ap
                (λ t.
                  if is_empty t
                  then skips
                  else check_found json n later q.client_ip users (find_key t (insert id k keys)))
                same
            ∙ ap
                (λ b.
                  if b
                  then skips
                  else check_found json n later q.client_ip users (find_key key (insert id k keys)))
                nonempty
            ∙ ap (check_found json n later q.client_ip users) (find_key-insert id k keys)
            ∙ ap (check_key json n later q.client_ip k) found
            ∙ check_lasting later q.client_ip k refl refl refl active,
      )
