-- ===== src/Store/Sessions.antt =====
-- Sessions, stored under the hash of their token. `hashToken` is SHA-256, a parameter.
use noblechat.Prelude.{
  ℕ, ◌+◌, ltb, if◌then◌else◌, [], ◌∷◌, ◌++◌, Option, none, some, Bool, JsString, ◌===◌, text_eq,
  Result, ok, err, any,
}
use noblechat.Store.Tables.{Db, Session, StoreError, first, remove}

abbrev pub has_token : JsString → Session → Bool
has_token th s = s.token === th

abbrev pub session_of : JsString → Session → Bool
session_of username s = s.username === username

module _ (hash_token : JsString → JsString) where
  -- `createSession`
  unfoldable pub create_session : ℕ → JsString → JsString → ℕ → Db → Result StoreError Db
  create_session now token username ttl_ms db =
      let row : Session = record {
        token = hash_token token;
        username = username;
        created_at = now;
        expires_at = now + ttl_ms;
      } in
      if any (has_token (hash_token token)) db.sessions
      then err StoreError.duplicate_key
      else ok record db { sessions = db.sessions ++ row ∷ [] }

  -- `deleteSession`
  unfoldable pub delete_session : JsString → Db → Db
  delete_session token db = record db {
    sessions = remove (has_token (hash_token token)) db.sessions;
  }

  -- `getSession`: the account of a token that has not expired. An expired row goes.
  unfoldable pub get_session : ℕ → JsString → Db → Option JsString × Db
  get_session now token db = elim (first (has_token (hash_token token)) db.sessions) [
    | none ↦ (none, db)
    | some s ↦
        if ltb s.expires_at now then (none, delete_session token db) else (some s.username, db)
  ]

-- `deleteSessionsForUser`
unfoldable pub delete_sessions_for_user : JsString → Db → Db
delete_sessions_for_user username db = record db {
  sessions = remove (session_of username) db.sessions;
}
