-- ===== src/Store/Keeps.antt =====
-- The calls of the store that branch keep its tables within their bounds.
use noblechat.Prelude.{
  ℕ, ◌≤◌, List, Option, Bool, JsString, arith, any, ltb, leb, ◌&&◌, ◌+◌, text_eq, Result,
}
use noblechat.Store.Tables.{Db, Device, File, count, StoreError, first}
use noblechat.Store.Accounts.{create_account, has_account}
use noblechat.Store.Devices.{add_device, this_device, other_device, claims}
use noblechat.Store.Sessions.{create_session, get_session, delete_session, has_token}
use noblechat.Store.Mailbox.{push_envelope, drain_envelopes, in_mailbox}
use noblechat.Store.Files.{
  save_file_meta_checked, owned_bytes, delete_files_where, get_file, file_id, expired,
}
use noblechat.Store.Run.{Config, settle, settle_answer}
use noblechat.Store.Unique.{add_device-one_row, add_device-one_mailbox, add_device-capped}
use noblechat.Store.Caps.{
  create_account-one_row, push_envelope-capped, count-split_mailbox-le,
  save_file_meta_checked-capped,
}
use noblechat.Prelude.{branch, branch_option}
use noblechat.Store.WellFormed.{
  NamesUnique, DevicesBounded, QueuesBounded, BytesBounded, WellFormed, bytes_remove,
}

module _ (c : Config) where
  pub creating_account-WellFormed :
      (now : ℕ) (u pass : JsString) (ver : ℕ) (db : Db)
      → WellFormed c db
      → WellFormed c (settle db (create_account now u pass ver db))
  unfolding WellFormed NamesUnique create_account
  creating_account-WellFormed now u pass ver db (names, devices, queues, bytes) =
      let taken = has_account u db in
      (
        (λ v. create_account-one_row now u pass ver db v (names v)),
        branch (λ r. DevicesBounded c.max_devices (settle db r).devices) taken devices devices,
        branch (λ r. QueuesBounded c.max_per_mailbox (settle db r).mailbox) taken queues queues,
        branch (λ r. BytesBounded c.max_account_bytes (settle db r).files) taken bytes bytes,
      )

  -- A property that no branch of `addDevice` touches
  add_device-keeps :
      (P : Db → Type 0) (now : ℕ) (d u card k : JsString) (max : ℕ) (db : Db)
      → ((ds : List Device) → P (record db { devices = ds }))
      → P db
      → P (settle_answer db (add_device now d u card k max db))
  unfolding add_device
  add_device-keeps P now d u card k max db changed same =
      let Q : Result StoreError (Bool × Db) → Type 0 = λ r. P (settle_answer db r) in
      let full = ltb 0 max && leb max (count (other_device u d) db.devices) in
      let exists = any (this_device u d) db.devices in
      branch Q full same (
        branch Q (any (claims u d k) db.devices) same
          (branch Q exists (changed _) (branch Q (has_account u db) (changed _) same)))

  pub adding_device-WellFormed :
      1 ≤ c.max_devices
      → (now : ℕ) (d u card k : JsString) (db : Db) → WellFormed c db
      → WellFormed c (settle_answer db (add_device now d u card k c.max_devices db))
  unfolding WellFormed DevicesBounded
  adding_device-WellFormed positive now d u card k db
        (names, (rows, mailboxes, owners), queues, bytes) =
      (
        add_device-keeps (λ x. NamesUnique x.accounts) now d u card k c.max_devices db (λ ds. names)
            names,
        (
          (λ v i. add_device-one_row now d u card k c.max_devices db v i (rows v i)),
          (λ j. add_device-one_mailbox now d u card k c.max_devices db rows j (mailboxes j)),
          (λ v. add_device-capped now d u card k c.max_devices db positive v (owners v)),
        ),
        add_device-keeps (λ x. QueuesBounded c.max_per_mailbox x.mailbox) now d u card k
            c.max_devices db (λ ds. queues) queues,
        add_device-keeps (λ x. BytesBounded c.max_account_bytes x.files) now d u card k
            c.max_devices db (λ ds. bytes) bytes,
      )

  pub creating_session-WellFormed :
      (now : ℕ) (t u : JsString) (ttl : ℕ) (db : Db)
      → WellFormed c db
      → WellFormed c (settle db (create_session c.hash_token now t u ttl db))
  unfolding WellFormed create_session
  creating_session-WellFormed now t u ttl db h =
      branch (λ r. WellFormed c (settle db r)) (any (has_token (c.hash_token t)) db.sessions) h h

  pub getting_session-WellFormed :
      (now : ℕ) (t : JsString) (db : Db)
      → WellFormed c db
      → WellFormed c (get_session c.hash_token now t db).1
  unfolding WellFormed get_session delete_session
  getting_session-WellFormed now t db h =
      let P : Option JsString × Db → Type 0 = λ r. WellFormed c r.1 in
      branch_option P (first (has_token (c.hash_token t)) db.sessions) h
        (λ s. branch P (ltb s.expires_at now) h h)

  pub saving_file-WellFormed :
      (now : ℕ) (id mime : JsString) (size : ℕ) (expires : Option ℕ) (u : JsString) (db : Db)
      → WellFormed c db
      → WellFormed c (
          settle_answer db
            (save_file_meta_checked now id mime size expires u c.max_account_bytes db))
  unfolding WellFormed BytesBounded owned_bytes save_file_meta_checked
  saving_file-WellFormed now id mime size expires u db (names, devices, queues, bytes) =
      let Q : (Db → Type 0) → Result StoreError (Bool × Db) → Type 0 =
        λ P r. P (settle_answer db r) in
      let keeps : (P : Db → Type 0)
          → ((fs : List File) → P (record db { files = fs }))
          → P db
          → P (
              settle_answer db
                (save_file_meta_checked now id mime size expires u c.max_account_bytes db)) =
        λ P changed same.
          branch (Q P) (ltb c.max_account_bytes (owned_bytes u db + size)) same
            (branch (Q P) (any (file_id id) db.files) same (changed _)) in
      (
        keeps (λ x. NamesUnique x.accounts) (λ fs. names) names,
        keeps (λ x. DevicesBounded c.max_devices x.devices) (λ fs. devices) devices,
        keeps (λ x. QueuesBounded c.max_per_mailbox x.mailbox) (λ fs. queues) queues,
        (λ v.
            save_file_meta_checked-capped now id mime size expires u c.max_account_bytes db v
              (bytes v)),
      )

  pub delete_files_where-WellFormed :
      (p : File → Bool) (db : Db) → WellFormed c db → WellFormed c (delete_files_where p db)
  unfolding WellFormed delete_files_where
  delete_files_where-WellFormed p db (names, devices, queues, bytes) =
      (names, devices, queues, bytes_remove c.max_account_bytes p db.files bytes)

  pub getting_file-WellFormed :
      (now : ℕ) (id : JsString) (db : Db) → WellFormed c db → WellFormed c (get_file now id db).1
  unfolding get_file
  getting_file-WellFormed now id db h =
      let P : Option File × Db → Type 0 = λ r. WellFormed c r.1 in
      branch_option P (first (file_id id) db.files) h
        (λ f. branch P (expired now f) (delete_files_where-WellFormed (file_id id) db h) h)

  pub pushing-WellFormed :
      (now : ℕ) (k env : JsString) (db : Db)
      → WellFormed c db
      → WellFormed c (push_envelope c.max_per_mailbox now k env db).1
  unfolding WellFormed QueuesBounded push_envelope
  pushing-WellFormed now k env db (names, devices, queues, bytes) =
      let full = leb c.max_per_mailbox (count (in_mailbox k) db.mailbox) in
      let Q : (Db → Type 0) → Bool × Db → Type 0 = λ P r. P r.1 in
      (
        branch (Q (λ x. NamesUnique x.accounts)) full names names,
        branch (Q (λ x. DevicesBounded c.max_devices x.devices)) full devices devices,
        (λ j. push_envelope-capped c.max_per_mailbox now k env db j (queues j)),
        branch (Q (λ x. BytesBounded c.max_account_bytes x.files)) full bytes bytes,
      )

  pub draining-WellFormed :
      (k : JsString) (limit : ℕ) (db : Db)
      → WellFormed c db
      → WellFormed c (drain_envelopes k limit db).1
  unfolding WellFormed QueuesBounded drain_envelopes
  draining-WellFormed k limit db (names, devices, queues, bytes) = (
    names,
    devices,
    (λ j. omega (arith, count-split_mailbox-le j k limit db.mailbox, queues j)),
    bytes,
  )
