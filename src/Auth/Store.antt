-- ===== src/Auth/Store.antt =====
-- What the authentication endpoints use of argon2, PyJWT and Redis, with documented laws.
-- Times and lifetimes are in seconds.
use chipatelier.Prelude.{ℕ, ◌+◌, ◌<◌, ◌≡◌, String, Bool, true, Option, none, some}

pub data TokenType : Type 0 where
  access refresh vnc : TokenType

pub record Payload : Type 0 where
  pub sub : Option ℕ
  pub token_type : TokenType
  pub jti : Option ℕ
  pub exp : Option ℕ

pub record Crypto : Type 1 where
  -- `_ph.hash`, with the salt that it draws, and `_ph.verify`
  pub hash : ℕ → String → String
  pub verify : (hashed plain : String) → Bool
  -- `jwt.encode` and `jwt.decode` with the server's secret; `none` is an exception
  pub Token : Type 0
  pub encode : Payload → Token
  pub decode : ℕ → Token → Option Payload
  -- the empty text, which the endpoints treat as a missing cookie
  pub is_blank : Token → Bool
  pub verify-hash : (salt : ℕ) (plain : String) → verify (hash salt plain) plain ≡ true
  pub decode-encode :
      (now e : ℕ) (p : Payload) → p.exp ≡ some e → now < e → decode now (encode p) ≡ some p
  -- A token that has expired is refused; what it says does not depend on the time.
  pub decode_fresh :
      (now e : ℕ) (token : Token) (p : Payload)
      → decode now token ≡ some p
      → p.exp ≡ some e
      → now < e
  pub decode_same :
      (t u : ℕ) (token : Token) (p q : Payload)
      → decode t token ≡ some p
      → decode u token ≡ some q
      → p ≡ q

pub data Key : Type 0 where
  denylist : (jti : ℕ) → Key
  pwreset : (email : String) → Key
  ratelimit : (prefix ip : String) → Key

-- Keys with a time to live: SET with EX, GET, GETDEL, INCR and EXPIRE, each at a time.
pub record KeyStore : Type 1 where
  pub Store : Type 0
  pub set_ex : ℕ → Key → String → ℕ → Store → Store
  pub get : ℕ → Key → Store → Option String
  pub getdel : ℕ → Key → Store → Option String × Store
  pub incr : ℕ → Key → Store → ℕ × Store
  pub expire : ℕ → Key → ℕ → Store → Store
  pub get-set_ex :
      (now later ttl : ℕ) (k : Key) (value : String) (s : Store)
      → later < now + ttl
      → get later k (set_ex now k value ttl s) ≡ some value
  pub get-getdel : (now later : ℕ) (k : Key) (s : Store) → get later k (getdel now k s).1 ≡ none
  pub getdel_value : (now : ℕ) (k : Key) (s : Store) → (getdel now k s).0 ≡ get now k s
