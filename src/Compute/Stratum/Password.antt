-- ===== src/Compute/Stratum/Password.antt =====
-- mining.authorize trusts a connection for the password alone.
use archivon.Prelude.{
  ◌≡◌, refl, ap, ◌∙◌, true, false, ◌&&◌, none, some, arith, ◌⊎◌, inl, inr, Bool-cases, Option-cases,
}
use archivon.Text.Trim.{Text, is_empty, trim_space}
use archivon.Compute.Policy.{Policy}
use archivon.Compute.Stratum.{
  GatewayEnv, Request, Session, send, load_policy, param_string, ignoring, result,
}
use archivon.Compute.Stratum.Authorize.{authorize, check_password, refuse_password, is_open}

module _ (env : GatewayEnv) where
  refuse_password-conn :
      (req : Request) (name : Text) (s : Session) → (refuse_password env req name s).1.conn ≡ s.conn
  unfolding refuse_password send
  refuse_password-conn req name s = ground arith

  refused-conn :
      (req : Request) (s : Session) → (ignoring (send env (result req.id false)) s).1.conn ≡ s.conn
  unfolding send
  refused-conn req s = ground arith

  check_password-wrong :
      (req : Request) (name password : Text) (p : Policy) (s : Session)
      → (is_open p && env.password_matches p.password_hash password) ≡ false
      → (check_password env req name password p s).1.conn ≡ s.conn
  unfolding check_password
  check_password-wrong req name password p s h = elim (Bool-cases (is_open p)) [
    | inl e ↦ elim (Bool-cases (env.password_matches p.password_hash password)) [
      | inl f ↦ ground (arith, h, e, f)
      | inr f ↦ ground (arith, e, f, refuse_password-conn req name s)
    ]
    | inr e ↦ ground (arith, e, refused-conn req s)
  ]

  authorize-unnamed :
      (req : Request) (s : Session)
      → is_empty (trim_space (param_string req.params 0)) ≡ true
      → (authorize env req s).1.conn ≡ s.conn
  unfolding authorize
  authorize-unnamed req s h = ground (arith, h, refused-conn req s)

  authorize-closed :
      (req : Request) (s : Session)
      → is_empty (trim_space (param_string req.params 0)) ≡ false
      → load_policy env s.gateway.db ≡ none
      → (authorize env req s).1.conn ≡ s.conn
  unfolding authorize
  authorize-closed req s h e = ground (arith, h, e, refused-conn req s)

  authorize-checked :
      (req : Request) (s : Session) (p : Policy)
      → is_empty (trim_space (param_string req.params 0)) ≡ false
      → load_policy env s.gateway.db ≡ some p
      → authorize env req s
        ≡ check_password env req (param_string req.params 0) (param_string req.params 1) p s
  unfolding authorize
  authorize-checked req s p h e = rw (h, e) refl

  -- A request to authorize leaves the connection as it is, unless the gateway is enabled with a
  -- password and the request carries that password. A connection that is not authorized stays so.
  pub authorize_password :
      (req : Request) (s : Session)
      → ((authorize env req s).1.conn ≡ s.conn)
        ⊎ ((p : Policy) × (load_policy env s.gateway.db ≡ some p)
            × ((is_open p && env.password_matches p.password_hash (param_string req.params 1))
                ≡ true))
  authorize_password req s = elim (Bool-cases (is_empty (trim_space (param_string req.params 0)))) [
    | inl h ↦ inl (authorize-unnamed req s h)
    | inr h ↦ elim (Option-cases (load_policy env s.gateway.db)) [
      | inl e ↦ inl (authorize-closed req s h e)
      | inr (p, e) ↦
          elim (Bool-cases
            (is_open p && env.password_matches p.password_hash (param_string req.params 1))) [
              | inl m ↦ inr (p, e, m)
              | inr m ↦ inl (
                  ap (λ r. r.1.conn) (authorize-checked req s p h e)
                  ∙ check_password-wrong req (param_string req.params 0) (param_string req.params 1)
                      p s m)
            ]
    ]
  ]
