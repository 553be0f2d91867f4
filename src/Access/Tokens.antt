-- ===== src/Access/Tokens.antt =====
-- The tokens of a login in the header of a request: MultiAuth of internal/middleware/apikey.go over
-- internal/auth/sm4_token.go.
use video_meeting_recorder.Common.{[], ◌++◌, Text, codes}
use video_meeting_recorder.ApiKey.{ApiKey}
use video_meeting_recorder.Access.{Request}

-- A request with a token in its header and no key.
abbrev pub bearing : Text → Text → Text → Request
bearing token path client_ip = record {
  api_key = [];
  authorization = codes "Bearer " ++ token;
  path = path;
  query_token = [];
  client_ip = client_ip;
}
