-- ===== src/Login/Examples.antt =====
-- Witnesses of the login.
use video_meeting_recorder.Common.{
  ◌<◌, ◌≡◌, refl, true, false, none, List, [], ◌∷◌, codes, length, text_eq, arith, some,
}
use video_meeting_recorder.Errors.{ok}
use video_meeting_recorder.Login.{
  RateLimiter, Request, Step, asks, answers, step, failures_of, keep_recent, should_block,
}
use video_meeting_recorder.Login.Limiter.{
  Event, failure, question, cleared, play, Until, count, should_block_lem,
}
use video_meeting_recorder.Login.Capped.{InOrder, run, no_logins, logins_capped}

abbrev twice : RateLimiter
twice = record { max_failures = 2; window = 100 }

abbrev events : List Event
events =
    failure (codes "li") 60
    ∷ question (codes "li") 60
    ∷ failure (codes "li") 20
    ∷ cleared (codes "li")
    ∷ failure (codes "li") 10
    ∷ []

events-Until : Until 70 events
unfolding Until
events-Until = (omega arith, (omega arith, (omega arith, (omega arith, tt))))

should_block_lem_example : (should_block twice 70 (codes "li") (play twice events)).0 ≡ true
unfolding count text_eq
should_block_lem_example = should_block_lem twice 70 (codes "li") events events-Until

-- A guess that is wrong.
abbrev guess : Request
guess = record {
  username = codes "li";
  password = codes "1234";
  user = ok (record { username = codes "li"; is_active = true; allowed_ips = []; role_ips = [] });
  limited = true;
  encrypted = false;
  secret_valid = true;
  decrypted = none;
  check_password = λ p. false;
  net = record { trim_space = λ s. s; parse_ip = some; to4 = some; parse_cidr = λ s. none };
  client_ip = codes "10.0.0.5";
  tokens = true;
  saved = true;
  created = true;
}

-- Two guesses overlap, and a third comes after them.
abbrev guesses : List Step
guesses = asks 10 guess ∷ asks 20 guess ∷ answers 30 0 ∷ answers 35 0 ∷ asks 36 guess ∷ []

guesses-InOrder : InOrder twice 2 0 40 guesses no_logins
unfolding InOrder step text_eq
guesses-InOrder = (
  omega arith,
  omega arith,
  (omega arith, omega arith, (omega arith, (omega arith, (omega arith, omega arith, omega arith)))),
)

logins_capped_example :
    length (keep_recent 40 100 (failures_of (codes "li") (run twice guesses no_logins).0.failures))
    < 4
logins_capped_example =
    logins_capped twice 2 0 40 guesses (codes "li") (omega arith) guesses-InOrder

-- Both failures are recorded, and the third guess is refused.
two_recorded :
    length (keep_recent 40 100 (failures_of (codes "li") (run twice guesses no_logins).0.failures))
    ≡ 2
unfolding run step text_eq
two_recorded = refl
