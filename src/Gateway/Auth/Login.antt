-- ===== src/Gateway/Auth/Login.antt =====
-- When a sign-in hands out a session, and what a registration makes of the next sign-in.
use noblechat.Prelude.{
  ℕ, Option, none, some, Bool, true, false, JsString, Result, ok, err, ◌≡◌, ◌≢◌, arith, refl, subst,
  Bool-cases, Option-cases, inl, inr,
}
use noblechat.Store.Tables.{Account, Db, StoreError}
use noblechat.Store.Accounts.{get_account}
use noblechat.Store.Sessions.{create_session}
use noblechat.Server.Limiter.{limit}
use noblechat.Server.Lockout.{retry_after}
use noblechat.Gateway.Fields.{as_handle}
use noblechat.Gateway.State.{
  Host, Settings, Gateway, Reply, Action, BodyError, auth_limited, with_body, unlocked,
  login_lockout, auth_limit,
}
use noblechat.Gateway.Auth.{
  Credentials, Fresh, opened, open_session, login, login_as, verified, verify_auth,
  credentials_match, count_failure, auth_failure, welcomed, by_account, named, by_name,
}

-- A guard that lets a sign-in through
auth_limited-signed_in :
    (now : ℕ) (ip : JsString) (k : Action) (g : Gateway) (t u : JsString)
    → (auth_limited now ip k g).0 ≡ Reply.signed_in t u
    → (k (record g { auth_buckets = (limit auth_limit ip 1 now g.auth_buckets).1 })).0
      ≡ Reply.signed_in t u
unfolding auth_limited
auth_limited-signed_in now ip k g t u e = ground (arith, e)

unlocked-signed_in :
    (now : ℕ) (n : JsString) (k : Action) (g : Gateway) (t u : JsString)
    → (unlocked now n k g).0 ≡ Reply.signed_in t u
    → ((retry_after login_lockout n now g.lockout).0 ≡ 0)
      × ((k (record g { lockout = (retry_after login_lockout n now g.lockout).1 })).0
          ≡ Reply.signed_in t u)
unfolding unlocked
unlocked-signed_in now n k g t u e = ground (arith, e)

module _ (h : Host) (s : Settings) (now : ℕ) (fresh : Fresh) where
  auth_failure-refuses :
      (b : Credentials) (acc : Option Account) (t u : JsString)
      → auth_failure h s now fresh b acc ≢ Reply.signed_in t u
  unfolding auth_failure
  auth_failure-refuses b none t u e = ground (arith, e)
  auth_failure-refuses b (some acc) t u e = ground (arith, e)

  count_failure-refuses :
      (b : Credentials) (n : JsString) (acc : Option Account) (g : Gateway) (t u : JsString)
      → (count_failure h s now fresh b n acc g).0 ≢ Reply.signed_in t u
  unfolding count_failure
  count_failure-refuses b n acc g t u e = auth_failure-refuses b acc t u e

  open_session-signed_in :
      (n : JsString) (g : Gateway) (t u : JsString)
      → (open_session h s now fresh n g).0 ≡ Reply.signed_in t u
      → (t ≡ fresh.token) × (u ≡ n)
  unfolding open_session
  open_session-signed_in n g t u =
      answered (create_session s.store.hash_token now fresh.token n s.session_ttl_ms g.db)
    where
      answered :
          (r : Result StoreError Db)
          → (opened h s now fresh n g r).0 ≡ Reply.signed_in t u
          → (t ≡ fresh.token) × (u ≡ n)
      answered (err e) h = ground (arith, h)
      answered (ok db) h = ground (arith, h)

  verified-signed_in :
      (b : Credentials) (n : JsString) (acc : Account) (r : Option (Bool × Gateway)) (g : Gateway)
      (t u : JsString)
      → (verified h s now fresh b n acc r g).0 ≡ Reply.signed_in t u
      → (g' : Gateway) × (r ≡ some (true, g')) × (acc.banned ≡ false) × (t ≡ fresh.token) × (u ≡ n)
  unfolding verified
  verified-signed_in b n acc none g t u e = ground (arith, e)
  verified-signed_in b n acc (some (false, g')) g t u e =
      absurd (count_failure-refuses b n (some acc) g' t u e)
  verified-signed_in b n acc (some (true, g')) g t u e = elim (Bool-cases acc.banned) [
    | inl banned ↦ ground (arith, banned, e)
    | inr free ↦
        let (token, name) =
          open_session-signed_in n (welcomed h s now fresh n g') t u (ground (arith, free, e)) in
        (g', refl, free, token, name)
  ]

  verify_auth-true :
      (acc : Account) (b : Credentials) (g g' : Gateway)
      → verify_auth h s now fresh acc b g ≡ some (true, g')
      → credentials_match h s now fresh acc b ≡ true
  unfolding verify_auth
  verify_auth-true acc b g g' e = ground (arith, e)

  login_as-signed_in :
      (b : Credentials) (n : JsString) (g : Gateway) (t u : JsString)
      → (login_as h s now fresh b n g).0 ≡ Reply.signed_in t u
      → (acc : Account) × (get_account n g.db ≡ some acc)
        × (credentials_match h s now fresh acc b ≡ true)
        × (acc.banned ≡ false)
        × (t ≡ fresh.token)
        × (u ≡ n)
  unfolding login_as
  login_as-signed_in b n g t u e = elim (Option-cases (get_account n g.db)) [
    | inl absent ↦ absurd (
        count_failure-refuses b n none g t u (
          subst (λ (a : Option Account). (by_account h s now fresh b n g a).0 ≡ Reply.signed_in t u)
            absent e))
    | inr (acc, known) ↦
        let (g', passed, free, token, name) =
          verified-signed_in b n acc (verify_auth h s now fresh acc b g) g t u (
            subst
              (λ (a : Option Account). (by_account h s now fresh b n g a).0 ≡ Reply.signed_in t u)
              known e) in
        (acc, known, verify_auth-true acc b g g' passed, free, token, name)
  ]

  -- `/api/account/login` hands out a session only on a body with a well-formed handle of an account that
  -- exists and is not banned, with the credentials that match it, while the handle is not backed off;
  -- the session is one of that account, with the fresh token.
  pub login-signed_in :
      (ip : JsString) (body : Result BodyError Credentials) (g : Gateway) (t u : JsString)
      → (login h s now fresh ip body g).0 ≡ Reply.signed_in t u
      → (b : Credentials) × (acc : Account) × (body ≡ ok b)
        × (as_handle h.to_lower_case b.username ≡ some u)
        × (get_account u g.db ≡ some acc)
        × (credentials_match h s now fresh acc b ≡ true)
        × (acc.banned ≡ false)
        × ((retry_after login_lockout u now g.lockout).0 ≡ 0)
        × (t ≡ fresh.token)
  unfolding login
  login-signed_in ip body g t u e =
      let inside = auth_limited-signed_in now ip (with_body body (named h s now fresh)) g t u e in
      of_body body (record g { auth_buckets = (limit auth_limit ip 1 now g.auth_buckets).1 }) inside
    where
      of_handle :
          (b : Credentials) (name : Option JsString) (g' : Gateway)
          → (by_name h s now fresh b name g').0 ≡ Reply.signed_in t u
          → (acc : Account) × (name ≡ some u)
            × (get_account u g'.db ≡ some acc)
            × (credentials_match h s now fresh acc b ≡ true)
            × (acc.banned ≡ false)
            × ((retry_after login_lockout u now g'.lockout).0 ≡ 0)
            × (t ≡ fresh.token)
      of_handle b none g' e = ground (arith, e)
      of_handle b (some n) g' e =
          let (free, inner) = unlocked-signed_in now n (login_as h s now fresh b n) g' t u e in
          let (acc, known, right, unbanned, token, name) = login_as-signed_in b n _ t u inner in
          rw name (acc, refl, known, right, unbanned, free, token)

      of_body :
          (r : Result BodyError Credentials) (g' : Gateway)
          → (with_body r (named h s now fresh) g').0 ≡ Reply.signed_in t u
          → (b : Credentials) × (acc : Account) × (r ≡ ok b)
            × (as_handle h.to_lower_case b.username ≡ some u)
            × (get_account u g'.db ≡ some acc)
            × (credentials_match h s now fresh acc b ≡ true)
            × (acc.banned ≡ false)
            × ((retry_after login_lockout u now g'.lockout).0 ≡ 0)
            × (t ≡ fresh.token)
      of_body (err BodyError.too_large) g' e = ground (arith, e)
      of_body (err BodyError.malformed) g' e = ground (arith, e)
      of_body (ok b) g' e =
          let (acc, name, known, right, unbanned, free, token) =
            of_handle b (as_handle h.to_lower_case b.username) g' e in
          (b, acc, refl, name, known, right, unbanned, free, token)
