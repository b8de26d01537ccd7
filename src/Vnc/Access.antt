-- ===== src/Vnc/Access.antt =====
-- What a VNC token opens: the port of a running session of the user who got it.
use chipatelier.Prelude.{
  ℕ, ◌≡◌, refl, ap, subst, true, ◌&&◌, Option, none, some, List, [], ◌∷◌, arith, select, All,
  All-select, select-All,
}
use chipatelier.Prelude.Text.{Text, eq_text_sound}
use chipatelier.Http.{ok}
use chipatelier.Model.{VncSession, is_running, Db, Backend}
use chipatelier.Vnc.Tokens.{VncPayload, VncJwt}
use chipatelier.Vnc.Minted.{Minted, AllMinted}
use chipatelier.Vnc.Steps.{Reach, Reach-Minted}
use chipatelier.Vnc.{eq_token, validate_vnc_token}

-- The running sessions that hold a token.
abbrev pub holders : Text → Db → List VncSession
holders token db =
    select (λ (s : VncSession). eq_token s.token token && is_running s.status) db.vnc_sessions

module _ (J : VncJwt) where
  names_session :
      (now : ℕ) {port : ℕ} (token : Text) (p : VncPayload) (s : VncSession)
      → p.port ≡ some port
      → J.decode now token ≡ some p
      → (eq_token s.token token && is_running s.status) ≡ true
      → Minted J s
      → (is_running s.status ≡ true)
        × (s.token ≡ some token)
        × (s.port ≡ some port)
        × (p.sub ≡ s.user_id)
        × (p.run_id ≡ s.run_id)
  names_session now {port = port} token p s hp e m mi = (live, is_token, made.0, made.1, made.2)
    where
      live : is_running s.status ≡ true
      live = ground arith

      token_eq :
          (o : Option Text) → (eq_token o token && is_running s.status) ≡ true → o ≡ some token
      token_eq none q = cc
      token_eq (some t) q =
          let same : t ≡ token = eq_text_sound t token (ground arith) in ap some same

      is_token : s.token ≡ some token
      is_token = token_eq s.token m

      made : (s.port ≡ some port) × (p.sub ≡ s.user_id) × (p.run_id ≡ s.run_id)
      made =
          let (q, made_for, hport, hsub, hrun) = mi token is_token in
          let same : q ≡ p =
            J.decode_signed now q p (subst (λ t. J.decode now t ≡ some p) made_for e) in
          (cc, cc, cc)

  -- A token that is let through is that of one running session, and says so.
  validate_lem :
      (now port : ℕ) (token : Text) (b : Backend)
      → AllMinted J b.db
      → (validate_vnc_token J now token b).0 ≡ ok port
      → ((validate_vnc_token J now token b).1 ≡ b)
        × ((s : VncSession) × (p : VncPayload) × (holders token b.db ≡ s ∷ [])
            × (J.decode now token ≡ some p)
            × (is_running s.status ≡ true)
            × (s.token ≡ some token)
            × (s.port ≡ some port)
            × (p.sub ≡ s.user_id)
            × (p.run_id ≡ s.run_id))
  unfolding validate_vnc_token
  validate_lem now port token b minted h =
      (ground arith, go (J.decode now token) refl found refl (found_All, found_Minted) h)
    where
      found : List VncSession
      found = holders token b.db

      found_All :
          All (λ (s : VncSession). (eq_token s.token token && is_running s.status) ≡ true) found
      found_All =
          select-All (λ (s : VncSession). eq_token s.token token && is_running s.status)
            b.db.vnc_sessions

      found_Minted : All (Minted J) found
      found_Minted =
          All-select (Minted J) (λ (s : VncSession). eq_token s.token token && is_running s.status)
            b.db.vnc_sessions minted

      go :
          (o : Option VncPayload)
          → J.decode now token ≡ o
          → (rows : List VncSession) → found ≡ rows
          → All (λ (s : VncSession). (eq_token s.token token && is_running s.status) ≡ true) rows
            × All (Minted J) rows
          → (validate_vnc_token J now token b).0 ≡ ok port
          → (s : VncSession) × (p : VncPayload) × (holders token b.db ≡ s ∷ [])
            × (J.decode now token ≡ some p)
            × (is_running s.status ≡ true)
            × (s.token ≡ some token)
            × (s.port ≡ some port)
            × (p.sub ≡ s.user_id)
            × (p.run_id ≡ s.run_id)
      go none e rows q hs h = absurd (ground arith)
      go (some p) e [] q hs h = absurd (ground arith)
      go (some p) e (s ∷ s' ∷ rows) q hs h = absurd (ground arith)
      go (some p) e (s ∷ []) q ((m, _), (mi, _)) h =
          let (live, is_token, hport, hsub, hrun) = names_session now token p s port_of e m mi in
          (s, p, q, e, live, is_token, hport, hsub, hrun)
        where
          port_of : p.port ≡ some port
          port_of = ground arith

  -- After any sequence of starts under new ids, stops and tasks of live sessions, from a state in
  -- which every token was made for its session: a token that is let through is held by one running
  -- session, the payload names its user and its run, and the port that Nginx proxies to is its port.
  pub Reach-validate :
      (max_sessions : ℕ) {b c : Backend} (now port : ℕ) (token : Text)
      → AllMinted J b.db
      → Reach J max_sessions b c
      → (validate_vnc_token J now token c).0 ≡ ok port
      → (s : VncSession) × (p : VncPayload) × (holders token c.db ≡ s ∷ [])
        × (J.decode now token ≡ some p)
        × (is_running s.status ≡ true)
        × (s.token ≡ some token)
        × (s.port ≡ some port)
        × (p.sub ≡ s.user_id)
        × (p.run_id ≡ s.run_id)
  Reach-validate max_sessions {c = c} now port token minted r h =
      (validate_lem now port token c (Reach-Minted J max_sessions minted r) h).1
