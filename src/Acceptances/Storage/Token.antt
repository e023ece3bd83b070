-- ===== src/Acceptances/Storage/Token.antt =====
-- `metadataTokenSource` of internal/acceptances/storage.go: a token of the environment, or the metadata
-- server's, which is kept until half a minute before it expires. Instants are nanoseconds.
pub mod Freshness
mod Tests
use tecora_be.Prelude.{
  ℕ, ◌*◌, Bool, true, false, not, ◌&&◌, List, [], ◌∷◌, Option, none, some, is_empty, ◌==◌,
  if◌then◌else◌,
}
use tecora_be.Prelude.Int.{ℤ, pos, ◌+ℤ◌, ◌-ℤ◌, is_less}
use tecora_be.Text.{Text, codes, trim_space}
use tecora_be.Db.{Error, other, Result, ok, err}
use tecora_be.Config.{seconds}

pub record TokenSource : Type 0 where
  pub token : Text
  pub expiry : ℤ

-- The zero value.
abbrev pub no_token : TokenSource
no_token = record { token = []; expiry = pos 0 }

-- The two fields of a response that can be read.
pub record TokenResponse : Type 0 where
  pub access_token : Text
  pub expires_in : ℤ

-- The metadata server's answer: an error of the transport, or a status with the text of the error that
-- the code formats of it, and the decoded body, or the decoder's error.
pub data Answer : Type 0 where
  lost : Error → Answer
  answered : ℕ → Text → Result TokenResponse → Answer

-- What a call reads from outside: the variable GCP_ACCESS_TOKEN, the clock at the test of the kept
-- token, the answer, and the clock behind it.
pub record Reading : Type 0 where
  pub env_token : Text
  pub checked_at : ℕ
  pub answer : Answer
  pub answered_at : ℕ

-- `time.Now().Before(s.expiry.Add(-30*time.Second))`, for a token that is there
unfoldable pub is_kept : Reading → TokenSource → Bool
unfolding ◌-ℤ◌
is_kept r s = not (is_empty s.token) && is_less (pos r.checked_at) (s.expiry -ℤ pos 30000000000)

-- `Token` from the decoded body on. The addition to an instant does not overflow.
unfoldable pub accept_token :
    Reading → Result TokenResponse → TokenSource → Result Text × TokenSource
unfolding seconds ◌+ℤ◌ trim_space
accept_token r (err e) s = (err e, s)
accept_token r (ok payload) s =
    if is_empty (trim_space payload.access_token)
    then (err (other (codes "metadata token response missing access token")), s)
    else (
      ok payload.access_token,
      record {
        token = payload.access_token;
        expiry = pos r.answered_at +ℤ seconds payload.expires_in;
      },
    )

-- … from the answer on
unfoldable pub read_answer : Reading → Answer → TokenSource → Result Text × TokenSource
unfolding accept_token
read_answer r (lost e) s = (err e, s)
read_answer r (answered status text payload) s =
    if status == 200 then accept_token r payload s else (err (other text), s)

unfoldable pub token : Reading → TokenSource → Result Text × TokenSource
unfolding is_kept read_answer trim_space
token r s =
    let env_token = trim_space r.env_token in
    if not (is_empty env_token)
    then (ok env_token, s)
    else if is_kept r s
    then (ok s.token, s)
    else read_answer r r.answer s
