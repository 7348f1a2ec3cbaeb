-- ===== src/Store/Unique.antt =====
-- The device table: one row per device, one mailbox per row, and no account over the cap.
use noblechat.Prelude.{
  ℕ, ◌+◌, ◌≤◌, [], ◌∷◌, some, false, JsString, ◌≡◌, arith, refl, sym, subst, any, ◌===◌, ===_iff,
  text_eq, Bool-cases, inl, inr,
}
use noblechat.Store.Tables.{Db, Device, count}
use noblechat.Store.Counting.{
  count-append, count_of_any, count_split, count_and_le, count-update-true, count-update-false,
  count-update_same,
}
use noblechat.Store.Devices.{add_device, owned_by, this_device, other_device, has_mbkey, claims}
use noblechat.Store.Run.{settle_answer}

module _ (now : ℕ) (device_id username card mbkey : JsString) (max_devices : ℕ) (db : Db) where
  abbrev after : Db
  after = settle_answer db (add_device now device_id username card mbkey max_devices db)

  abbrev row : Device
  row = record {
    device_id = device_id;
    username = username;
    card = card;
    mbkey = some mbkey;
    created_at = now;
  }

  abbrev set_card : Device → Device
  set_card d = record d { card = card; mbkey = some mbkey }

  -- A row of the same key is updated, and a new one stands alone.
  pub add_device-one_row :
      (u i : JsString)
      → count (this_device u i) db.devices ≤ 1
      → count (this_device u i) after.devices ≤ 1
  unfolding add_device count
  add_device-one_row u i h =
      let p = this_device username device_id in
      let same = count-update_same (this_device u i) p set_card (λ x. refl) db.devices in
      let longer = count-append (this_device u i) db.devices (row ∷ []) in
      ground
        (arith, same, longer, count_of_any p db.devices, ===_iff username u, ===_iff device_id i)

  -- A mailbox that is claimed by another row is refused, so it stays in one row.
  pub add_device-one_mailbox :
      ((u i : JsString) → count (this_device u i) db.devices ≤ 1)
      → (k : JsString) → count (has_mbkey k) db.devices ≤ 1
      → count (has_mbkey k) after.devices ≤ 1
  unfolding add_device count
  add_device-one_mailbox keys k h = elim (Bool-cases (mbkey === k)) [
    | inl e ↦
        let m : mbkey ≡ k = (===_iff mbkey k).0 e in
        let p = this_device username device_id in
        let updated = count-update-true (has_mbkey k) p set_card (λ x. e) db.devices in
        let longer = count-append (has_mbkey k) db.devices (row ∷ []) in
        let apart : any (claims username device_id mbkey) db.devices ≡ false
            → count (claims username device_id k) db.devices ≡ 0 =
          subst
            (λ (j : JsString).
              any (claims username device_id mbkey) db.devices ≡ false
              → count (claims username device_id j) db.devices ≡ 0)
            m (count_of_any (claims username device_id mbkey) db.devices) in
        let split = count_split (has_mbkey k) p db.devices in
        let none_here = count_of_any p db.devices in
        let narrower = count_and_le (has_mbkey k) p db.devices in
        ground
          (arith, updated, longer, apart, split, narrower, none_here, keys username device_id, e)
    | inr e ↦
        let p = this_device username device_id in
        let updated = count-update-false (has_mbkey k) p set_card (λ x. e) db.devices in
        let longer = count-append (has_mbkey k) db.devices (row ∷ []) in
        ground (arith, updated, longer, e)
  ]

  -- The account that the device is added to stays within the cap, and the others are as they were.
  pub add_device-capped :
      1 ≤ max_devices
      → (u : JsString) → count (owned_by u) db.devices ≤ max_devices
      → count (owned_by u) after.devices ≤ max_devices
  unfolding add_device count
  add_device-capped positive u h =
      let p = this_device username device_id in
      let same = count-update_same (owned_by u) p set_card (λ x. refl) db.devices in
      let longer = count-append (owned_by u) db.devices (row ∷ []) in
      let split =
        count_split (owned_by username) (λ (d : Device). d.device_id === device_id) db.devices in
      elim (Bool-cases (username === u)) [
        | inl e ↦
            let m : username ≡ u = (===_iff username u).0 e in
            let known : count (owned_by username) db.devices ≤ max_devices =
              subst (λ (v : JsString). count (owned_by v) db.devices ≤ max_devices) (sym m) h in
            let split' : count (owned_by u) db.devices
                ≡ count p db.devices + count (other_device username device_id) db.devices =
              subst
                (λ (v : JsString).
                  count (owned_by v) db.devices
                  ≡ count p db.devices + count (other_device username device_id) db.devices)
                m split in
            ground (arith, same, longer, split', count_of_any p db.devices, e)
        | inr e ↦ ground (arith, same, longer, e)
      ]
