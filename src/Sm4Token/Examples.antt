-- ===== src/Sm4Token/Examples.antt =====
-- Witnesses and tests of the SM4 tokens, with simple stand-ins for SM4-GCM, base64 and JSON.
use video_meeting_recorder.Common.{
  ℕ, ◌+◌, ◌*◌, ◌≡◌, refl, true, false, Option, none, some, List, [], ◌∷◌, Text, codes, text_eq, all,
  arith,
}
use video_meeting_recorder.Common.Clock.{second, hour}
use video_meeting_recorder.Errors.{Result, ok, err, token_invalid, token_replayed}
use video_meeting_recorder.Token.{Json}
use video_meeting_recorder.Sm4Token.{
  Aead, Documented, User, Claims, TokenPair, Sm4TokenService, default_grace, access, refresh,
  claims_of, generate_token_pair, validate_token, validate_refresh_token,
}
use video_meeting_recorder.Sm4Token.RoundTrip.{until, pair_accepted}
use video_meeting_recorder.Sm4Token.Refresh.{
  Session, Tokens, Answers, run_timers, revoke_user_sessions, refresh_access_token,
}
use video_meeting_recorder.Sm4Token.Refresh.Grace.{
  Call, refreshes, resumes, revokes_user, before, run, refresh_repeats,
}
use video_meeting_recorder.Sm4Token.Refresh.Replay.{signed_out, others}
use video_meeting_recorder.Sm4Token.Refresh.Detect.{replay_detected}
use video_meeting_recorder.Sm4Token.Refresh.Unrecorded.{unrecorded_again}

abbrev opened : Text → Text → Option Text
opened n (c ∷ p) = some p
opened n [] = none

abbrev plain : Aead
plain = record {
  nonce_size = 2;
  overhead = 1;
  sealed = λ n p. 0 ∷ p;
  open_sealed = opened;
  raw_url_encode = λ s. s;
  raw_url_decode = λ s. some s;
}

plain-Documented : Documented plain
plain-Documented = record {
  length-sealed = λ n p. omega arith;
  open_sealed-sealed = λ n p. refl;
  raw_url_inverse = λ s. refl;
}

abbrev ann : User
ann = record {
  id = 7;
  username = codes "ann";
  is_active = true;
  roles =
      record {
        id = 1;
        name = codes "viewer";
        permissions = record { resource = codes "tasks"; action = codes "read" } ∷ [];
      }
      ∷ [];
}

abbrev written : Claims → Option Text
written c = some (c.user_id ∷ c.issued_at ∷ c.expires_at ∷ c.not_before ∷ c.token_type)

abbrev read_back : Text → Option Claims
read_back (u ∷ i ∷ e ∷ n ∷ t) = some (record {
  user_id = u;
  username = codes "ann";
  role_ids = 1 ∷ [];
  permissions = codes "tasks:read" ∷ [];
  is_admin = false;
  token_type = t;
  issued_at = i;
  expires_at = e;
  not_before = n;
  issuer = codes "record_v2";
})
read_back _ = none

abbrev json : Json Claims
json = record { marshal = written; unmarshal = read_back }

abbrev service : Sm4TokenService
service = record {
  issuer = codes "record_v2";
  expire_hours = 2;
  refresh_expire = 24;
  grace_period = default_grace;
}

pair_accepted_example :
    let later = 3000 * second in
    (p : TokenPair) × (generate_token_pair plain json service
        (1000 * second)
        (some (1 ∷ 2 ∷ []), some (3 ∷ 4 ∷ []))
        ann
      ≡ ok p)
    × (validate_token plain json later p.access_token
        ≡ until
            (1000 * second + 2 * hour)
            later
            (claims_of service (1000 * second) access (2 * hour) ann))
    × (validate_refresh_token plain json later p.refresh_token
        ≡ until
            (1000 * second + 24 * hour)
            later
            (claims_of service (1000 * second) refresh (24 * hour) ann))
    × (validate_token plain json later p.refresh_token ≡ err token_invalid)
    × (validate_refresh_token plain json later p.access_token ≡ err token_invalid)
unfolding claims_of text_eq
pair_accepted_example =
    pair_accepted plain json service (1 ∷ 2 ∷ []) (3 ∷ 4 ∷ []) ann (1000 * second) (3000 * second)
      plain-Documented refl refl (7 ∷ 1000 ∷ 8200 ∷ 1000 ∷ access, refl, refl)
      (7 ∷ 1000 ∷ 87400 ∷ 1000 ∷ refresh, refl, refl) (omega arith)

-- The refresh token of a login at 1000 s.
abbrev first_token : Text
first_token = 3 ∷ 4 ∷ 0 ∷ 7 ∷ 1000 ∷ 87400 ∷ 1000 ∷ refresh

abbrev first_claims : Claims
first_claims = claims_of service (1000 * second) refresh (24 * hour) ann

abbrev first_session : Session
first_session = record {
  token = first_token;
  user_id = 7;
  created_at = 1000 * second;
  expires_at = 8200 * second;
  is_active = true;
  last_used_at = none;
}

abbrev tokens : Tokens
tokens = record { token_cache = []; sessions = first_session ∷ []; users = ann ∷ []; pending = [] }

abbrev answers : Answers
answers = record {
  session_read = true;
  recent_read = true;
  user_read = true;
  last_used_written = true;
  revoked = true;
  nonces = (some (5 ∷ 6 ∷ []), some (7 ∷ 8 ∷ []));
}

abbrev second_pair : TokenPair
second_pair = record {
  access_token = 5 ∷ 6 ∷ 0 ∷ 7 ∷ 2000 ∷ 9200 ∷ 2000 ∷ access;
  refresh_token = 7 ∷ 8 ∷ 0 ∷ 7 ∷ 2000 ∷ 88400 ∷ 2000 ∷ refresh;
  expires_at = 2000 * second + 2 * hour;
}

refreshed :
    (refresh_access_token plain json service answers (2000 * second) first_token tokens).0
    ≡ ok second_pair
unfolding refresh_access_token text_eq
refreshed = refl

-- What refreshes a first token gives at a time, in a state.
abbrev refreshed_at : ℕ → Tokens → Result TokenPair × Tokens
refreshed_at now k = refresh_access_token plain json service answers now first_token k

abbrev meanwhile : List Call
meanwhile =
    resumes (2005 * second) answers (codes "y") first_claims
    ∷ revokes_user true 7
    ∷ refreshes (2010 * second) answers (codes "x")
    ∷ []

refresh_repeats_example :
    let k = run plain json service meanwhile (refreshed_at (2000 * second) tokens).1 in
    refreshed_at (2020 * second) k ≡ (ok second_pair, k)
unfolding refresh_access_token text_eq all before
refresh_repeats_example =
    refresh_repeats plain json service answers answers (2000 * second) (2020 * second) first_token
      tokens meanwhile second_pair first_claims (λ e h. absurd (ground arith)) refl refl
      (omega arith) refl

replay_detected_example :
    let k = run_timers (2030 * second) true (refreshed_at (2000 * second) tokens).1 in
    let (r, k') = refreshed_at (2030 * second) k in
    (r ≡ err token_replayed)
    × (signed_out 7 k'.sessions ≡ true)
    × (others 7 k'.sessions ≡ others 7 k.sessions)
unfolding refresh_access_token text_eq
replay_detected_example =
    replay_detected plain json service answers answers (2000 * second) (2030 * second) first_token
      first_claims first_claims first_session tokens second_pair refl (λ e h. absurd (ground arith))
      (refl, refl) (refl, refl) refl refl refl (omega arith) refl

abbrev unrecorded : Tokens
unrecorded = record tokens { sessions = [] }

abbrev third_pair : TokenPair
third_pair = record {
  access_token = 5 ∷ 6 ∷ 0 ∷ 7 ∷ 2030 ∷ 9230 ∷ 2030 ∷ access;
  refresh_token = 7 ∷ 8 ∷ 0 ∷ 7 ∷ 2030 ∷ 88430 ∷ 2030 ∷ refresh;
  expires_at = 2030 * second + 2 * hour;
}

unrecorded_again_example :
    let k = run_timers (2030 * second) true (refreshed_at (2000 * second) unrecorded).1 in
    (refreshed_at (2030 * second) (revoke_user_sessions true 7 k).1).0 ≡ ok third_pair
unfolding refresh_access_token text_eq
unrecorded_again_example =
    unrecorded_again plain json service answers answers (2000 * second) (2030 * second) 7
      first_token first_claims first_claims ann unrecorded second_pair third_pair refl
      (λ e h. absurd (ground arith)) refl refl (omega arith) refl refl refl refl refl
