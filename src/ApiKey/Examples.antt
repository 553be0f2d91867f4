-- ===== src/ApiKey/Examples.antt =====
-- Witnesses and tests of the service of the API keys.
use video_meeting_recorder.Common.{
  ◌≡◌, refl, true, false, Option, none, some, List, [], ◌∷◌, Text, codes, arith,
}
use video_meeting_recorder.Common.Maps.{Map, lookup}
use video_meeting_recorder.Errors.{ok}
use video_meeting_recorder.ApiKey.{ApiKey, JsonLists, UpdateApiKeyRequest, update_api_key}
use video_meeting_recorder.ApiKey.Strangers.{Call, updates, toggles, deletes, run, run_keeps}

-- Lists of one text are written as it is.
abbrev write_one : List Text → Option Text
write_one (t ∷ []) = some t
write_one _ = none

abbrev plain_json : JsonLists
plain_json = record { marshal = write_one; unmarshal = λ t. some (t ∷ []) }

abbrev bob_key : ApiKey
bob_key = record {
  id = 3;
  name = codes "export";
  key = codes "rec_9";
  user_id = 8;
  expires_at = none;
  last_used_at = none;
  is_active = true;
  scopes = codes "read";
  ip_whitelist = [];
  description = [];
  inherit_perms = false;
}

abbrev keys : Map ApiKey
keys = (3, bob_key) ∷ (4, record bob_key { id = 4; user_id = 7 }) ∷ []

abbrev renames : UpdateApiKeyRequest
renames = record {
  name = some (codes "mine");
  is_active = none;
  scopes = some (codes "everything" ∷ []);
  ip_whitelist = none;
  description = none;
}

-- An update takes a scope that is none of the three.
any_scope :
    (update_api_key plain_json true true true 4 7 false renames keys).0
    ≡ ok (record bob_key { id = 4; user_id = 7; name = codes "mine"; scopes = codes "everything" })
unfolding update_api_key lookup
any_scope = refl

abbrev attempts : List Call
attempts =
    toggles true true 3
    ∷ updates true true true 3 renames
    ∷ deletes true true 3
    ∷ deletes true true 4
    ∷ []

run_keeps_example : lookup 3 (run plain_json 7 attempts keys) ≡ some bob_key
unfolding lookup
run_keeps_example = run_keeps 7 3 bob_key (λ h. absurd (omega arith)) plain_json attempts keys refl
