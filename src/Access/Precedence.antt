-- ===== src/Access/Precedence.antt =====
-- MultiAuth of internal/middleware/apikey.go: a request that comes with a key and a token.
use video_meeting_recorder.Common.{
  ℕ, ◌≡◌, refl, ap, sym, ◌∙◌, Bool, true, false, Option, none, some, List, Text, is_empty, arith,
}
use video_meeting_recorder.Common.Maps.{Map}
use video_meeting_recorder.Token.{Json}
use video_meeting_recorder.IpValidator.{Net}
use video_meeting_recorder.Sm4Token.{Aead, User, Claims}
use video_meeting_recorder.Sm4Token.Refresh.{find_user}
use video_meeting_recorder.ApiKey.{ApiKey, JsonLists}
use video_meeting_recorder.Access.{
  Access, passes, refuses, panics, skips, Request, find_key, check_key, check_found, or_token,
  handle_api_key_auth, multi_auth,
}

abbrev is_skip : Access → Bool
is_skip skips = true
is_skip (passes c) = false
is_skip (refuses n) = false
is_skip panics = false

or_token-first : (a x : Access) → is_skip a ≡ false → or_token a x ≡ a
unfolding or_token
or_token-first skips x h = absurd (ground arith)
or_token-first (passes c) x h = refl
or_token-first (refuses n) x h = refl
or_token-first panics x h = refl

check_key-decides :
    (json : JsonLists) (n : Net) (now : ℕ) (client : Text) (k : ApiKey) (o : Option User)
    → is_skip (check_key json n now client k o) ≡ false
unfolding check_key
check_key-decides json n now client k none = ground arith
check_key-decides json n now client k (some u) = ground arith

inactive_refused :
    (json : JsonLists) (n : Net) (now : ℕ) (client : Text) (k : ApiKey) (o : Option User)
    → k.is_active ≡ false
    → check_key json n now client k o ≡ refuses 401
unfolding check_key
inactive_refused json n now client k o h = simp h refl

module _ (json : JsonLists) (n : Net) (x : Aead) (claims : Json Claims) (now : ℕ)
    (keys : Map ApiKey) (users : List User) (prefixes : List Text) where
  key_handled :
      (q : Request) (k : ApiKey)
      → is_empty q.api_key ≡ false
      → find_key q.api_key keys ≡ some k
      → handle_api_key_auth json n now true keys users q
        ≡ check_key json n now q.client_ip k (find_user k.user_id users)
  unfolding handle_api_key_auth check_found
  key_handled q k e f = rw (e, f) refl

  key_decides :
      (q : Request) (k : ApiKey)
      → is_empty q.api_key ≡ false
      → find_key q.api_key keys ≡ some k
      → multi_auth json n x claims now true keys users prefixes q
        ≡ check_key json n now q.client_ip k (find_user k.user_id users)
  unfolding multi_auth
  key_decides q k e f =
      let decided = check_key-decides json n now q.client_ip k (find_user k.user_id users) in
      let handled = key_handled q k e f in
      or_token-first _ _ (ap is_skip handled ∙ decided) ∙ handled

  -- A request with a stored key gets the same answer whatever token it has besides; if the key is not active
  -- it is refused with 401, also with a token that is good. The database answers.
  pub key_precedes :
      (q : Request) (k : ApiKey) (header query : Text)
      → is_empty q.api_key ≡ false
      → find_key q.api_key keys ≡ some k
      → let serve = λ (r : Request). multi_auth json n x claims now true keys users prefixes r in
        (serve (record q { authorization = header; query_token = query }) ≡ serve q)
        × (k.is_active ≡ false → serve q ≡ refuses 401)
  key_precedes q k header query e f =
      let same = key_decides q k e f in
      (
        key_decides (record q { authorization = header; query_token = query }) k e f ∙ sym same,
        λ off. same ∙ inactive_refused json n now q.client_ip k (find_user k.user_id users) off,
      )
