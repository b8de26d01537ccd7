-- ===== src/Vnc/Tokens.antt =====
-- What the VNC endpoints use of PyJWT with `VNC_TOKEN_SECRET`, with documented laws.
use chipatelier.Prelude.{ℕ, ◌<◌, ◌≡◌, Option, some}
use chipatelier.Prelude.Text.{Text}
use chipatelier.Auth.Store.{TokenType}

pub record VncPayload : Type 0 where
  pub sub : ℕ
  pub run_id : ℕ
  pub port : Option ℕ
  pub token_type : TokenType
  pub exp : ℕ

pub record VncJwt : Type 0 where
  pub encode : VncPayload → Text
  -- `none` is an exception
  pub decode : ℕ → Text → Option VncPayload
  pub decode-encode : (now : ℕ) (p : VncPayload) → now < p.exp → decode now (encode p) ≡ some p
  -- What a signed token says is what was signed.
  pub decode_signed : (now : ℕ) (p q : VncPayload) → decode now (encode p) ≡ some q → p ≡ q
