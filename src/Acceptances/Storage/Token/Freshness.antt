-- ===== src/Acceptances/Storage/Token/Freshness.antt =====
-- Where the tokens of `metadataTokenSource` come from, over a run of calls.
use mathlib.Core.List.{Memᴰ}
use tecora_be.Prelude.{
  ◌≡◌, refl, ap, ◌∙◌, ◌⊎◌, inl, inr, true, false, List, [], ◌∷◌, arith, is_empty, ◌==◌, Bool-cases,
}
use tecora_be.Prelude.Int.{ℤ, pos, ◌+ℤ◌, ◌-ℤ◌, is_less}
use tecora_be.Text.{Text, trim_space}
use tecora_be.Db.{Error, Result, ok, err}
use tecora_be.Config.{seconds}
use tecora_be.Acceptances.Storage.Token.{
  TokenSource, no_token, TokenResponse, Answer, lost, answered, Reading, is_kept, accept_token,
  read_answer, token,
}

-- The metadata server has given the token to this call, for so long.
pub record Gives (r : Reading) (text : Text) (expires_in : ℤ) : Type 0 where
  pub status_text : Text
  pub answer :
      r.answer
      ≡ answered 200 status_text (ok (record { access_token = text; expires_in = expires_in }))
  pub visible : is_empty (trim_space text) ≡ false

abbrev pub expiry_of : Reading → ℤ → ℤ
expiry_of r expires_in = pos r.answered_at +ℤ seconds expires_in

-- A run of calls of `Token`, the last one first.
unfoldable pub run : List Reading → TokenSource
run [] = no_token
run (r ∷ rs) = (token r (run rs)).1

-- What a call leaves that has fetched: the token that it was given, with its expiry.
abbrev IsFetched : Reading → TokenSource → Type 0
IsFetched r s = (expires_in : ℤ) × Gives r s.token expires_in × (s.expiry ≡ expiry_of r expires_in)

-- A call that fetches fails and leaves the source alone, or keeps the token that it returns.
abbrev IsFetch : Reading → TokenSource → Result Text × TokenSource → Type 0
IsFetch r s (result, s') =
    ((s' ≡ s) × ((e : Error) × (result ≡ err e))) ⊎ (IsFetched r s' × (result ≡ ok s'.token))

accept_token-IsFetch :
    (r : Reading) (text : Text) (payload : Result TokenResponse) (s : TokenSource)
    → r.answer ≡ answered 200 text payload
    → IsFetch r s (accept_token r payload s)
unfolding accept_token
accept_token-IsFetch r text (err e) s h = inl (refl, (e, refl))
accept_token-IsFetch r text (ok payload) s h =
    elim (Bool-cases (is_empty (trim_space payload.access_token))) [
      | inl blank ↦ rw blank (inl (refl, (_, refl)))
      | inr visible ↦ rw visible (
          inr (
            (
              payload.expires_in,
              record { status_text = text; answer = h; visible = visible },
              refl,
            ),
            refl,
          ))
    ]

read_answer-IsFetch :
    (r : Reading) (answer : Answer) (s : TokenSource)
    → r.answer ≡ answer
    → IsFetch r s (read_answer r answer s)
unfolding read_answer
read_answer-IsFetch r (lost e) s h = inl (refl, (e, refl))
read_answer-IsFetch r (answered status text payload) s h = elim (Bool-cases (status == 200)) [
  | inr bad ↦ rw bad (inl (refl, (_, refl)))
  | inl good ↦
      let is_200 : status ≡ 200 = ground arith in
      rw good (accept_token-IsFetch r text payload s (h ∙ ap (λ n. answered n text payload) is_200))
]

-- The three ways to a token: the environment's, the kept one, a new one.
abbrev IsCall : Reading → TokenSource → Result Text × TokenSource → Type 0
IsCall r s (result, s') =
    ((s' ≡ s)
      × (is_empty (trim_space r.env_token) ≡ false)
      × (result ≡ ok (trim_space r.env_token)))
    ⊎ (((s' ≡ s) × (is_kept r s ≡ true) × (result ≡ ok s.token)) ⊎ IsFetch r s (result, s'))

token-IsCall : (r : Reading) (s : TokenSource) → IsCall r s (token r s)
unfolding token
token-IsCall r s = elim (Bool-cases (is_empty (trim_space r.env_token))) [
  | inr given ↦ rw given (inl (refl, refl, refl))
  | inl blank ↦ elim (Bool-cases (is_kept r s)) [
    | inl kept ↦ rw (blank, kept) (inr (inl (refl, refl, refl)))
    | inr stale ↦ rw (blank, stale) (inr (inr (read_answer-IsFetch r r.answer s refl)))
  ]
]

-- What is kept after a run was fetched by one of its calls.
run-IsFetched :
    (rs : List Reading) → (run rs ≡ no_token) ⊎ ((c : Reading) × Memᴰ c rs × IsFetched c (run rs))
unfolding run
run-IsFetched [] = inl refl
run-IsFetched (r ∷ rs) = elim (token-IsCall r (run rs)) [
  | inl (same, given, told) ↦ older r rs same (run-IsFetched rs)
  | inr (inl (same, kept, told)) ↦ older r rs same (run-IsFetched rs)
  | inr (inr (inl (same, failed))) ↦ older r rs same (run-IsFetched rs)
  | inr (inr (inr (fetched, told))) ↦ inr (r, Memᴰ.head refl, fetched)
]
  where
    older :
        (r : Reading) (rs : List Reading)
        → (token r (run rs)).1 ≡ run rs
        → (run rs ≡ no_token) ⊎ ((c : Reading) × Memᴰ c rs × IsFetched c (run rs))
        → ((token r (run rs)).1 ≡ no_token)
          ⊎ ((c : Reading) × Memᴰ c (r ∷ rs) × IsFetched c (token r (run rs)).1)
    older r rs same (inl none_yet) = inl (same ∙ none_yet)
    older r rs same (inr (c, member, fetched)) = inr (c, Memᴰ.tail member, rw same fetched)

-- The metadata server gave the token to a call of the run, which is the last one, or the token expires
-- more than half a minute after the last one has looked.
pub record IsGiven (r : Reading) (rs : List Reading) (text : Text) : Type 0 where
  pub call : Reading
  pub member : Memᴰ call (r ∷ rs)
  pub expires_in : ℤ
  pub given : Gives call text expires_in
  pub current :
      (call ≡ r)
      ⊎ (is_less (pos r.checked_at) (expiry_of call expires_in -ℤ pos 30000000000) ≡ true)

kept_token :
    (r : Reading) (s : TokenSource)
    → is_kept r s ≡ true
    → (is_empty s.token ≡ false) × (is_less (pos r.checked_at) (s.expiry -ℤ pos 30000000000) ≡ true)
unfolding is_kept
kept_token r s h = ground arith

kept-IsGiven :
    (r : Reading) (rs : List Reading) → is_kept r (run rs) ≡ true → IsGiven r rs (run rs).token
kept-IsGiven r rs h = elim (run-IsFetched rs) [
  | inl none_yet ↦
      let empty = ap (λ (s : TokenSource). is_empty s.token) none_yet in
      let there = (kept_token r (run rs) h).0 in cc
  | inr (c, member, (expires_in, given, expiry)) ↦ record {
    call = c;
    member = Memᴰ.tail member;
    expires_in = expires_in;
    given = given;
    current = inr (rw (← expiry) ((kept_token r (run rs) h).1));
  }
]

-- After any run of calls, a token that `Token` returns is that of the environment, or one that the
-- metadata server gave to a call of the run: to this one, or to an earlier one, and then it does not
-- expire within half a minute after this one has looked.
pub token-IsGiven :
    (r : Reading) (rs : List Reading) (text : Text)
    → (token r (run rs)).0 ≡ ok text
    → ((is_empty (trim_space r.env_token) ≡ false) × (text ≡ trim_space r.env_token))
      ⊎ IsGiven r rs text
token-IsGiven r rs text h = elim (token-IsCall r (run rs)) [
  | inl (same, given, told) ↦ inl (given, ground arith)
  | inr (inl (same, kept, told)) ↦
      let is_text : (run rs).token ≡ text = ground arith in
      inr (rw (← is_text) (kept-IsGiven r rs kept))
  | inr (inr (inl (same, (e, failed)))) ↦ ground arith
  | inr (inr (inr ((expires_in, given, expiry), told))) ↦
      let is_text : (token r (run rs)).1.token ≡ text = ground arith in
      inr (record {
        call = r;
        member = Memᴰ.head refl;
        expires_in = expires_in;
        given = rw (← is_text) given;
        current = inl refl;
      })
]
