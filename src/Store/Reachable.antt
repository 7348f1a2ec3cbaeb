-- ===== src/Store/Reachable.antt =====
-- What holds of every state that calls of the store reach.
use noblechat.Prelude.{
  ℕ, ◌≤◌, All, List, [], ◌∷◌, Bool, true, false, JsString, ◌≡◌, arith, refl, any, ltb, ◌+◌, text_eq,
}
use noblechat.Store.Tables.{Db, Account, Device, File, count, update, remove, empty_db}
use noblechat.Store.Accounts.{of_user, upgrade_auth, set_admin, set_blob, set_setting}
use noblechat.Store.Devices.{
  device_mbkeys, owned_by, this_device, remove_device, clear_devices, clear_other_devices,
  other_device,
}
use noblechat.Store.Sessions.{delete_session, delete_sessions_for_user}
use noblechat.Store.Files.{
  sum_sizes, delete_files_where, remove_file, prune_expired_files, reconcile_orphan_files, file_id,
  file_owner, expired,
}
use noblechat.Store.Moderation.{ban_account, unban_account, delete_account, prune, stale}
use noblechat.Store.Run.{Config, Op, checks_quota, apply, run}
use noblechat.Prelude.{branch}
use noblechat.Store.WellFormed.{
  NamesUnique, DevicesBounded, QueuesBounded, BytesBounded, WellFormed, names_update, names_remove,
  devices_remove, bytes_remove, queues_remove, queues_empty,
}
use noblechat.Store.Keeps.{
  creating_account-WellFormed, adding_device-WellFormed, creating_session-WellFormed,
  getting_session-WellFormed, saving_file-WellFormed, delete_files_where-WellFormed,
  getting_file-WellFormed, pushing-WellFormed, draining-WellFormed,
}

module _ (c : Config) where
  ban_account-WellFormed :
      (u reason : JsString) (db : Db) → WellFormed c db → WellFormed c (ban_account u reason db).1
  unfolding WellFormed ban_account
  ban_account-WellFormed u reason db (names, devices, queues, bytes) = (
    names_update (of_user u) (λ a. record a { banned = true }) (λ v a. refl) db.accounts names,
    devices,
    queues_empty c.max_per_mailbox (device_mbkeys u db) db.mailbox queues,
    bytes,
  )

  delete_account-WellFormed :
      (u : JsString) (db : Db) → WellFormed c db → WellFormed c (delete_account u db).1
  unfolding WellFormed delete_account delete_files_where
  delete_account-WellFormed u db (names, devices, queues, bytes) = (
    names_remove (of_user u) db.accounts names,
    branch (λ ds. DevicesBounded c.max_devices ds) (any (of_user u) db.accounts)
        (devices_remove c.max_devices (owned_by u) db.devices devices) devices,
    queues_empty c.max_per_mailbox (device_mbkeys u db) db.mailbox queues,
    bytes_remove c.max_account_bytes (file_owner u) db.files bytes,
  )

  prune-WellFormed :
      (now : ℕ) (db : Db) → WellFormed c db → WellFormed c (prune c.mailbox_ttl_ms now db)
  unfolding WellFormed prune delete_files_where prune_expired_files reconcile_orphan_files
  prune-WellFormed now db (names, devices, queues, bytes) =
      let aged =
        bytes_remove c.max_account_bytes (λ (f : File). ltb (f.created_at + c.mailbox_ttl_ms) now)
          db.files bytes in
      (
        names,
        devices,
        queues_remove c.max_per_mailbox (stale now c.mailbox_ttl_ms) db.mailbox queues,
        bytes_remove c.max_account_bytes (expired now) _ aged,
      )

  remove_devices-WellFormed :
      (p : Device → Bool) (db : Db)
      → WellFormed c db
      → WellFormed c (record db { devices = remove p db.devices })
  unfolding WellFormed
  remove_devices-WellFormed p db (names, devices, queues, bytes) =
      (names, devices_remove c.max_devices p db.devices devices, queues, bytes)

  update_accounts-WellFormed :
      (p : Account → Bool) (f : Account → Account)
      → ((v : JsString) (a : Account) → of_user v (f a) ≡ of_user v a)
      → (db : Db) → WellFormed c db
      → WellFormed c (record db { accounts = update p f db.accounts })
  unfolding WellFormed
  update_accounts-WellFormed p f same db (names, devices, queues, bytes) =
      (names_update p f same db.accounts names, devices, queues, bytes)

  apply-WellFormed :
      1 ≤ c.max_devices
      → (op : Op) (db : Db) → checks_quota op ≡ true
      → WellFormed c db
      → WellFormed c (apply c op db)
  unfolding apply WellFormed upgrade_auth set_admin remove_device clear_devices clear_other_devices
      delete_session delete_sessions_for_user set_blob set_setting remove_file prune_expired_files
      reconcile_orphan_files unban_account
  apply-WellFormed pos (Op.creating_account now u pass ver) db checked h =
      creating_account-WellFormed c now u pass ver db h
  apply-WellFormed pos (Op.upgrading_auth u pass) db checked h =
      update_accounts-WellFormed (of_user u) (λ a. record a { pass = pass; auth_ver = 2 })
        (λ v a. refl) db h
  apply-WellFormed pos (Op.setting_admin u on) db checked h =
      update_accounts-WellFormed (of_user u) (λ a. record a { is_admin = on }) (λ v a. refl) db h
  apply-WellFormed pos (Op.adding_device now d u card k) db checked h =
      adding_device-WellFormed c pos now d u card k db h
  apply-WellFormed pos (Op.removing_device d u) db checked h =
      remove_devices-WellFormed (this_device u d) db h
  apply-WellFormed pos (Op.clearing_devices u) db checked h =
      remove_devices-WellFormed (owned_by u) db h
  apply-WellFormed pos (Op.clearing_other_devices u d) db checked h =
      remove_devices-WellFormed (other_device u d) db h
  apply-WellFormed pos (Op.creating_session now t u ttl) db checked h =
      creating_session-WellFormed c now t u ttl db h
  apply-WellFormed pos (Op.getting_session now t) db checked h =
      getting_session-WellFormed c now t db h
  apply-WellFormed pos (Op.deleting_session t) db checked h = h
  apply-WellFormed pos (Op.deleting_sessions u) db checked h = h
  apply-WellFormed pos (Op.setting_blob now u blob) db checked h = h
  apply-WellFormed pos (Op.setting k v) db checked h = h
  apply-WellFormed pos (Op.pushing now k env) db checked h = pushing-WellFormed c now k env db h
  apply-WellFormed pos (Op.draining k limit) db checked h = draining-WellFormed c k limit db h
  apply-WellFormed pos (Op.saving_file now id mime size expires u) db checked h =
      saving_file-WellFormed c now id mime size expires u db h
  apply-WellFormed pos (Op.saving_file_unchecked now id mime size expires owner) db checked h =
      absurd (ground (arith, checked))
  apply-WellFormed pos (Op.getting_file now id) db checked h = getting_file-WellFormed c now id db h
  apply-WellFormed pos (Op.removing_file id) db checked h =
      delete_files_where-WellFormed c (file_id id) db h
  apply-WellFormed pos (Op.pruning_files now) db checked h =
      delete_files_where-WellFormed c (expired now) db h
  apply-WellFormed pos (Op.reconciling now age) db checked h = h
  apply-WellFormed pos (Op.pruning now) db checked h = prune-WellFormed now db h
  apply-WellFormed pos (Op.banning u reason) db checked h = ban_account-WellFormed u reason db h
  apply-WellFormed pos (Op.unbanning u) db checked h =
      update_accounts-WellFormed (of_user u) (λ a. record a { banned = false }) (λ v a. refl) db h
  apply-WellFormed pos (Op.deleting_account u) db checked h = delete_account-WellFormed u db h

  run_from-WellFormed :
      1 ≤ c.max_devices
      → (ops : List Op) (db : Db) → All (λ op. checks_quota op ≡ true) ops
      → WellFormed c db
      → WellFormed c (run c ops db)
  unfolding run
  run_from-WellFormed pos [] db checked h = h
  run_from-WellFormed pos (op ∷ ops) db (first, rest) h =
      run_from-WellFormed pos ops (apply c op db) rest (apply-WellFormed pos op db first h)

  empty_db-WellFormed : WellFormed c empty_db
  unfolding WellFormed NamesUnique DevicesBounded QueuesBounded BytesBounded count sum_sizes
  empty_db-WellFormed = (
    λ u. omega arith,
    (λ u i. omega arith, λ k. omega arith, λ u. omega arith),
    λ k. omega arith,
    λ u. omega arith,
  )

  -- Whatever calls of the store's methods are made on an empty database, one after the other, with a cap
  -- of at least one device and without `saveFileMeta`, which does not look at the quota: names of accounts
  -- are unique, a device has one row and a mailbox is in the row of one device, no account has more
  -- devices than the cap, no queue is longer than its cap, and the attachments of no account add up to
  -- more bytes than its quota. Calls that overlap are not meant: two calls of `pushEnvelope` that do can
  -- both count before either inserts.
  pub run-WellFormed :
      1 ≤ c.max_devices
      → (ops : List Op) → All (λ op. checks_quota op ≡ true) ops
      → WellFormed c (run c ops empty_db)
  run-WellFormed pos ops checked = run_from-WellFormed pos ops empty_db checked empty_db-WellFormed
