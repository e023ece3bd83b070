-- ===== src/Acceptances/Storage/Token/Tests.antt =====
-- Two calls for a token, and the theorem about them.
use tecora_be.Prelude.{◌≡◌, refl, ◌⊎◌, false, [], ◌∷◌, is_empty}
use tecora_be.Prelude.Int.{pos}
use tecora_be.Text.{codes, trim_space}
use tecora_be.Db.{ok, Error}
use tecora_be.Acceptances.Storage.Token.{Answer, Reading, token}
use tecora_be.Acceptances.Storage.Token.Freshness.{run, IsGiven, token-IsGiven}

-- The metadata server gives a token for an hour.
abbrev first : Reading
first = record {
  env_token = [];
  checked_at = 1000;
  answer =
      Answer.answered 200 [] (ok (record { access_token = codes "ya29"; expires_in = pos 3600 }));
  answered_at = 2000;
}

-- Half an hour later it does not answer.
abbrev second : Reading
second = record {
  env_token = codes " ";
  checked_at = 1800000000000;
  answer = Answer.lost Error.object_not_found;
  answered_at = 1800000000001;
}

kept : (token second (run (first ∷ []))).0 ≡ ok (codes "ya29")
unfolding token run
kept = refl

token-IsGiven_example :
    ((is_empty (trim_space second.env_token) ≡ false)
      × (codes "ya29" ≡ trim_space second.env_token))
    ⊎ IsGiven second (first ∷ []) (codes "ya29")
token-IsGiven_example = token-IsGiven second (first ∷ []) (codes "ya29") kept
