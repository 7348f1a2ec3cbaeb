-- ===== src/Store/Devices.antt =====
-- Devices: one row per account and device, and a mailbox in at most one row.
use noblechat.Prelude.{
  ℕ, ltb, leb, if◌then◌else◌, List, [], ◌∷◌, ◌++◌, none, some, Bool, true, false, ◌&&◌, not,
  JsString, ◌===◌, text_eq, Result, ok, err, any,
}
use noblechat.Store.Tables.{Db, Device, StoreError, update, count, remove, is}
use noblechat.Store.Accounts.{has_account}

abbrev pub owned_by : JsString → Device → Bool
owned_by username d = d.username === username

abbrev pub this_device : JsString → JsString → Device → Bool
this_device username device_id d = d.username === username && d.device_id === device_id

abbrev pub other_device : JsString → JsString → Device → Bool
other_device username device_id d = d.username === username && not (d.device_id === device_id)

abbrev pub has_mbkey : JsString → Device → Bool
has_mbkey mbkey d = is d.mbkey mbkey

-- The row that the unique index on `mbkey` finds in the way of this one.
abbrev pub claims : JsString → JsString → JsString → Device → Bool
claims username device_id mbkey d = has_mbkey mbkey d && not (this_device username device_id d)

-- `addDevice`: whether the row is new. An error rolls the transaction back.
unfoldable pub add_device :
    ℕ → JsString → JsString → JsString → JsString → ℕ → Db → Result StoreError (Bool × Db)
add_device now device_id username card mbkey max_devices db =
    let exists = any (this_device username device_id) db.devices in
    let row : Device = record {
      device_id = device_id;
      username = username;
      card = card;
      mbkey = some mbkey;
      created_at = now;
    } in
    if ltb 0 max_devices && leb max_devices (count (other_device username device_id) db.devices)
    then err StoreError.device_limit
    else if any (claims username device_id mbkey) db.devices
    then err StoreError.mailbox_taken
    else if exists
    then ok (
      false,
      record db {
        devices =
            update (this_device username device_id)
              (λ d. record d { card = card; mbkey = some mbkey }) db.devices;
      },
    )
    else if has_account username db
    then ok (true, record db { devices = db.devices ++ row ∷ [] })
    else err StoreError.missing_account

-- `removeDevice`
unfoldable pub remove_device : JsString → JsString → Db → Db
remove_device device_id username db = record db {
  devices = remove (this_device username device_id) db.devices;
}

-- The column `mbkey` of the rows that the test selects, less its nulls.
unfoldable pub mbkeys_where : (Device → Bool) → List Device → List JsString
mbkeys_where p [] = []
mbkeys_where p (d ∷ ds) =
    let rest = mbkeys_where p ds in
    if p d then elim d.mbkey [ none ↦ rest | some k ↦ k ∷ rest ] else rest

-- `deviceMbkeys`
unfoldable pub device_mbkeys : JsString → Db → List JsString
device_mbkeys username db = mbkeys_where (owned_by username) db.devices

-- `clearDevices`
unfoldable pub clear_devices : JsString → Db → List JsString × Db
clear_devices username db =
    (device_mbkeys username db, record db { devices = remove (owned_by username) db.devices })

-- `clearOtherDevices`
unfoldable pub clear_other_devices : JsString → JsString → Db → List JsString × Db
clear_other_devices username keep_device_id db = (
  mbkeys_where (other_device username keep_device_id) db.devices,
  record db { devices = remove (other_device username keep_device_id) db.devices },
)

-- `deviceRowsFor`: the rows of a batch of names.
unfoldable pub rows_for : List JsString → List Device → List (JsString × JsString)
rows_for usernames [] = []
rows_for usernames (d ∷ ds) =
    let rest = rows_for usernames ds in
    if any (λ u. d.username === u) usernames
    then elim d.mbkey [ none ↦ rest | some k ↦ (d.username, k) ∷ rest ]
    else rest
