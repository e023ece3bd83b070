-- ===== src/Http.antt =====
-- What a gin handler sends: a status code with a JSON body, an error body, or no body.
use text.Mathlib.Text.{◌==◌}
use text.Mathlib.TextEquality.{eq_iff}
use tecora_be.Prelude.{ℕ, String, ◌≡◌, ◌≢◌, false, arith}

pub data Body (A : Type 0) : Type 0 where
  json : A → Body A
  error : String → Body A
  no_body : Body A

pub record Response (A : Type 0) : Type 0 where
  pub status : ℕ
  pub body : Body A

module _ {A : Type 0} where
  -- `c.JSON(status, value)`
  abbrev pub reply : ℕ → A → Response A
  reply status value = record { status = status; body = json value }

  -- `c.JSON(status, gin.H{"error": message})`
  abbrev pub reply_error : ℕ → String → Response A
  reply_error status message = record { status = status; body = error message }

  -- `c.Status(status)`
  abbrev pub reply_status : ℕ → Response A
  reply_status status = record { status = status; body = no_body }

-- To tell two literals apart, and two error responses.
pub text-ne : (s t : String) → (s == t) ≡ false → s ≢ t
text-ne s t h e = ground (arith, eq_iff s t)

pub reply_error-ne :
    {A : Type 0} (n m : ℕ) (s t : String)
    → (s == t) ≡ false
    → reply_error {A = A} n s ≢ reply_error m t
reply_error-ne n m s t h e = text-ne s t h (ground arith)
