-- ===== src/Store/Run.antt =====
-- The calls of the store as steps on its state, each one from its begin to its end. A call that throws has rolled back, so it changes nothing.
use noblechat.Prelude.{ℕ, List, [], ◌∷◌, Option, Bool, true, false, JsString, Result, ok, err}
use noblechat.Store.Tables.{Db, StoreError}
use noblechat.Store.Accounts.{create_account, upgrade_auth, set_admin, set_blob, set_setting}
use noblechat.Store.Devices.{add_device, remove_device, clear_devices, clear_other_devices}
use noblechat.Store.Sessions.{create_session, get_session, delete_session, delete_sessions_for_user}
use noblechat.Store.Mailbox.{push_envelope, drain_envelopes}
use noblechat.Store.Files.{
  save_file_meta, save_file_meta_checked, remove_file, get_file, prune_expired_files,
  reconcile_orphan_files,
}
use noblechat.Store.Moderation.{ban_account, unban_account, delete_account, prune}

-- `openStore`'s options, the server's caps, and `hashToken`
pub record Config : Type 0 where
  pub mailbox_ttl_ms : ℕ
  pub max_per_mailbox : ℕ
  pub max_devices : ℕ
  pub max_account_bytes : ℕ
  pub hash_token : JsString → JsString

pub data Op : Type 0 where
  creating_account : ℕ → JsString → JsString → ℕ → Op
  upgrading_auth : JsString → JsString → Op
  setting_admin : JsString → Bool → Op
  adding_device : ℕ → JsString → JsString → JsString → JsString → Op
  removing_device : JsString → JsString → Op
  clearing_devices : JsString → Op
  clearing_other_devices : JsString → JsString → Op
  creating_session : ℕ → JsString → JsString → ℕ → Op
  getting_session : ℕ → JsString → Op
  deleting_session : JsString → Op
  deleting_sessions : JsString → Op
  setting_blob : ℕ → JsString → JsString → Op
  setting : JsString → JsString → Op
  pushing : ℕ → JsString → JsString → Op
  draining : JsString → ℕ → Op
  saving_file : ℕ → JsString → JsString → ℕ → Option ℕ → JsString → Op
  saving_file_unchecked : ℕ → JsString → JsString → ℕ → Option ℕ → Option JsString → Op
  getting_file : ℕ → JsString → Op
  removing_file : JsString → Op
  pruning_files : ℕ → Op
  reconciling : ℕ → ℕ → Op
  pruning : ℕ → Op
  banning : JsString → JsString → Op
  unbanning : JsString → Op
  deleting_account : JsString → Op

-- The state after a call that may throw
abbrev pub settle : Db → Result StoreError Db → Db
settle db (ok db') = db'
settle db (err e) = db

abbrev pub settle_answer : Db → Result StoreError (Bool × Db) → Db
settle_answer db (ok (b, db')) = db'
settle_answer db (err e) = db

-- Every method but `saveFileMeta`, which writes an attachment without a look at the quota
abbrev pub checks_quota : Op → Bool
checks_quota (Op.saving_file_unchecked now id mime size expires owner) = false
checks_quota op = true

module _ (c : Config) where
  unfoldable pub apply : Op → Db → Db
  apply (Op.creating_account now u pass ver) db = settle db (create_account now u pass ver db)
  apply (Op.upgrading_auth u pass) db = upgrade_auth u pass db
  apply (Op.setting_admin u on) db = (set_admin u on db).1
  apply (Op.adding_device now d u card k) db =
      settle_answer db (add_device now d u card k c.max_devices db)
  apply (Op.removing_device d u) db = remove_device d u db
  apply (Op.clearing_devices u) db = (clear_devices u db).1
  apply (Op.clearing_other_devices u d) db = (clear_other_devices u d db).1
  apply (Op.creating_session now t u ttl) db =
      settle db (create_session c.hash_token now t u ttl db)
  apply (Op.getting_session now t) db = (get_session c.hash_token now t db).1
  apply (Op.deleting_session t) db = delete_session c.hash_token t db
  apply (Op.deleting_sessions u) db = delete_sessions_for_user u db
  apply (Op.setting_blob now u blob) db = set_blob now u blob db
  apply (Op.setting k v) db = set_setting k v db
  apply (Op.pushing now k env) db = (push_envelope c.max_per_mailbox now k env db).1
  apply (Op.draining k limit) db = (drain_envelopes k limit db).1
  apply (Op.saving_file now id mime size expires u) db =
      settle_answer db (save_file_meta_checked now id mime size expires u c.max_account_bytes db)
  apply (Op.saving_file_unchecked now id mime size expires owner) db =
      settle db (save_file_meta now id mime size expires owner db)
  apply (Op.getting_file now id) db = (get_file now id db).1
  apply (Op.removing_file id) db = remove_file id db
  apply (Op.pruning_files now) db = prune_expired_files now db
  apply (Op.reconciling now age) db = reconcile_orphan_files now age db
  apply (Op.pruning now) db = prune c.mailbox_ttl_ms now db
  apply (Op.banning u reason) db = (ban_account u reason db).1
  apply (Op.unbanning u) db = unban_account u db
  apply (Op.deleting_account u) db = (delete_account u db).1

  unfoldable pub run : List Op → Db → Db
  run [] db = db
  run (op ∷ ops) db = run ops (apply op db)
