-- ===== src/Store/Moderation.antt =====
-- Bans, the deletion of an account, and the hourly prune.
use noblechat.Prelude.{
  ℕ, ◌+◌, ltb, if◌then◌else◌, List, [], ◌∷◌, ◌++◌, none, some, Bool, true, false, ◌&&◌, any,
  JsString, text, ◌===◌, text_eq, put, delete,
}
use noblechat.Store.Tables.{Db, Account, Device, Envelope, Session, update, remove}
use noblechat.Store.Accounts.{of_user, blob_of}
use noblechat.Store.Devices.{device_mbkeys, owned_by}
use noblechat.Store.Sessions.{session_of}
use noblechat.Store.Mailbox.{in_mailbox}
use noblechat.Store.Files.{
  delete_files_where, file_owner, prune_expired_files, reconcile_orphan_files,
}

-- The key of a ban's reason
abbrev pub banreason : JsString → JsString
banreason username = text "banreason:" ++ username

-- `for (const k of mbk) DELETE FROM mailbox WHERE mbkey=$1`
unfoldable pub empty_mailboxes : List JsString → List Envelope → List Envelope
empty_mailboxes [] mailbox = mailbox
empty_mailboxes (k ∷ ks) mailbox = empty_mailboxes ks (remove (in_mailbox k) mailbox)

-- `banAccount`
unfoldable pub ban_account : JsString → JsString → Db → List JsString × Db
ban_account username reason db =
    let mbk = device_mbkeys username db in
    (
      mbk,
      record db {
        accounts = update (of_user username) (λ a. record a { banned = true }) db.accounts;
        settings = put (banreason username) reason db.settings;
        sessions = remove (session_of username) db.sessions;
        mailbox = empty_mailboxes mbk db.mailbox;
      },
    )

-- `unbanAccount`
unfoldable pub unban_account : JsString → Db → Db
unban_account username db = record db {
  accounts = update (of_user username) (λ a. record a { banned = false }) db.accounts;
  settings = delete (banreason username) db.settings;
}

-- `deleteAccount`; the devices go with the account's row.
unfoldable pub delete_account : JsString → Db → List JsString × Db
delete_account username db =
    let mbk = device_mbkeys username db in
    let db' = delete_files_where (file_owner username) db in
    (
      mbk,
      record db' {
        sessions = remove (session_of username) db.sessions;
        blobs = remove (blob_of username) db.blobs;
        settings = delete (banreason username) db.settings;
        accounts = remove (of_user username) db.accounts;
        devices =
            if any (of_user username) db.accounts
            then remove (owned_by username) db.devices
            else db.devices;
        mailbox = empty_mailboxes mbk db.mailbox;
      },
    )

-- `SELECT d.mbkey FROM devices d JOIN accounts a … WHERE a.banned=TRUE AND d.mbkey IS NOT NULL`
unfoldable pub banned_mbkeys : List Account → List Device → List JsString
banned_mbkeys accounts [] = []
banned_mbkeys accounts (d ∷ ds) =
    let rest = banned_mbkeys accounts ds in
    if any (λ a. a.username === d.username && a.banned) accounts
    then elim d.mbkey [ none ↦ rest | some k ↦ k ∷ rest ]
    else rest

-- `allBannedMbkeys`
unfoldable pub all_banned_mbkeys : Db → List JsString
all_banned_mbkeys db = banned_mbkeys db.accounts db.devices

abbrev pub stale : ℕ → ℕ → Envelope → Bool
stale now ttl_ms e = ltb (e.created_at + ttl_ms) now

abbrev pub over : ℕ → Session → Bool
over now s = ltb s.expires_at now

-- `prune`; `created_at < now() - mailboxTtlMs` is over signed numbers, and `now` stands still.
unfoldable pub prune : ℕ → ℕ → Db → Db
prune mailbox_ttl_ms now db =
    let swept = record db { mailbox = remove (stale now mailbox_ttl_ms) db.mailbox } in
    let aged = delete_files_where (λ f. ltb (f.created_at + mailbox_ttl_ms) now) swept in
    let fresh = record aged { sessions = remove (over now) aged.sessions } in
    reconcile_orphan_files now 3600000 (prune_expired_files now fresh)
