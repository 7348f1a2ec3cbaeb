-- ===== src/Store/Accounts.antt =====
-- Accounts, their encrypted blobs, the settings and the moderation flags. A state passes from call to
-- call; the clock is an argument.
use noblechat.Prelude.{
  ℕ, if◌then◌else◌, [], ◌∷◌, ◌++◌, Option, none, some, Bool, false, JsString, ◌===◌, text_eq,
  Result, ok, err, get, put, any,
}
use noblechat.Store.Tables.{Db, Account, Blob, StoreError, first, update}

abbrev pub of_user : JsString → Account → Bool
of_user username a = a.username === username

abbrev pub has_account : JsString → Db → Bool
has_account username db = any (of_user username) db.accounts

-- `createAccount`; the primary key rejects a name that is taken.
unfoldable pub create_account : ℕ → JsString → JsString → ℕ → Db → Result StoreError Db
create_account now username pass_str auth_ver db =
    if has_account username db
    then err StoreError.duplicate_key
    else ok record db {
      accounts =
          db.accounts
          ++ record {
            username = username;
            pass = pass_str;
            created_at = now;
            banned = false;
            is_admin = false;
            auth_ver = auth_ver;
          }
            ∷ [];
    }

-- `getAccount`
unfoldable pub get_account : JsString → Db → Option Account
get_account username db = first (of_user username) db.accounts

-- `upgradeAuth`
unfoldable pub upgrade_auth : JsString → JsString → Db → Db
upgrade_auth username pass_str db = record db {
  accounts =
      update (of_user username) (λ a. record a { pass = pass_str; auth_ver = 2 }) db.accounts;
}

-- `isAdmin`
unfoldable pub is_admin : JsString → Db → Bool
is_admin username db = elim (get_account username db) [ none ↦ false | some a ↦ a.is_admin ]

-- `setAdmin`: true if a row was updated.
unfoldable pub set_admin : JsString → Bool → Db → Bool × Db
set_admin username on db = (
  has_account username db,
  record db { accounts = update (of_user username) (λ a. record a { is_admin = on }) db.accounts },
)

-- `isBanned`
unfoldable pub is_banned : JsString → Db → Bool
is_banned username db = elim (get_account username db) [ none ↦ false | some a ↦ a.banned ]

abbrev pub blob_of : JsString → Blob → Bool
blob_of username b = b.username === username

-- `getBlob`
unfoldable pub get_blob : JsString → Db → Option JsString
get_blob username db = elim (first (blob_of username) db.blobs) [
  | none ↦ none
  | some b ↦ some b.blob
]

-- `setBlob`
unfoldable pub set_blob : ℕ → JsString → JsString → Db → Db
set_blob now username blob db =
    let row : Blob = record { username = username; blob = blob; updated_at = now } in
    record db {
      blobs =
          if any (blob_of username) db.blobs
          then update (blob_of username) (λ b. record b { blob = blob; updated_at = now }) db.blobs
          else db.blobs ++ row ∷ [];
    }

-- `getSetting` and `setSetting`
unfoldable pub get_setting : JsString → Option JsString → Db → Option JsString
get_setting key dflt db = elim (get key db.settings) [ none ↦ dflt | some v ↦ some v ]

unfoldable pub set_setting : JsString → JsString → Db → Db
set_setting key value db = record db { settings = put key value db.settings }
