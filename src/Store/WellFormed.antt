-- ===== src/Store/WellFormed.antt =====
-- The bounds that the store keeps on its tables, and how a query on one table keeps its bound.
use noblechat.Prelude.{ℕ, ◌≤◌, List, Bool, JsString, ◌≡◌, arith, text_eq}
use noblechat.Store.Tables.{
  Db, Account, Device, Envelope, File, count, update, remove, count-remove-le,
}
use noblechat.Store.Counting.{count-update_same}
use noblechat.Store.Accounts.{of_user}
use noblechat.Store.Devices.{owned_by, this_device, has_mbkey}
use noblechat.Store.Mailbox.{in_mailbox}
use noblechat.Store.Files.{sum_sizes}
use noblechat.Store.Moderation.{empty_mailboxes}
use noblechat.Store.Run.{Config}
use noblechat.Store.Caps.{count-empty_mailboxes-le, sum_sizes-remove-le}

-- The names of accounts are unique.
unfoldable pub NamesUnique : List Account → Type 0
NamesUnique accounts = (u : JsString) → count (of_user u) accounts ≤ 1

-- A device has one row, a mailbox is in one row, and no account has more devices than the cap.
unfoldable pub DevicesBounded : ℕ → List Device → Type 0
DevicesBounded cap devices =
    ((u i : JsString) → count (this_device u i) devices ≤ 1)
    × ((k : JsString) → count (has_mbkey k) devices ≤ 1)
    × ((u : JsString) → count (owned_by u) devices ≤ cap)

unfoldable pub QueuesBounded : ℕ → List Envelope → Type 0
QueuesBounded cap mailbox = (k : JsString) → count (in_mailbox k) mailbox ≤ cap

unfoldable pub BytesBounded : ℕ → List File → Type 0
BytesBounded quota files = (u : JsString) → sum_sizes u files ≤ quota

unfoldable pub WellFormed : Config → Db → Type 0
WellFormed c db =
    NamesUnique db.accounts
    × DevicesBounded c.max_devices db.devices
    × QueuesBounded c.max_per_mailbox db.mailbox
    × BytesBounded c.max_account_bytes db.files

pub names_update :
    (p : Account → Bool) (f : Account → Account)
    → ((u : JsString) (a : Account) → of_user u (f a) ≡ of_user u a)
    → (rows : List Account) → NamesUnique rows
    → NamesUnique (update p f rows)
unfolding NamesUnique
names_update p f same rows h u = omega (arith, count-update_same (of_user u) p f (same u) rows, h u)

pub devices_remove :
    (cap : ℕ) (p : Device → Bool) (ds : List Device)
    → DevicesBounded cap ds
    → DevicesBounded cap (remove p ds)
unfolding DevicesBounded
devices_remove cap p ds (rows, mailboxes, owners) = (
  (λ u i. omega (arith, count-remove-le (this_device u i) p ds, rows u i)),
  (λ k. omega (arith, count-remove-le (has_mbkey k) p ds, mailboxes k)),
  (λ u. omega (arith, count-remove-le (owned_by u) p ds, owners u)),
)

pub bytes_remove :
    (quota : ℕ) (p : File → Bool) (fs : List File)
    → BytesBounded quota fs
    → BytesBounded quota (remove p fs)
unfolding BytesBounded
bytes_remove quota p fs h u = omega (arith, sum_sizes-remove-le u p fs, h u)

pub names_remove :
    (p : Account → Bool) (rows : List Account) → NamesUnique rows → NamesUnique (remove p rows)
unfolding NamesUnique
names_remove p rows h u = omega (arith, count-remove-le (of_user u) p rows, h u)

pub queues_remove :
    (cap : ℕ) (p : Envelope → Bool) (es : List Envelope)
    → QueuesBounded cap es
    → QueuesBounded cap (remove p es)
unfolding QueuesBounded
queues_remove cap p es h k = omega (arith, count-remove-le (in_mailbox k) p es, h k)

pub queues_empty :
    (cap : ℕ) (ks : List JsString) (es : List Envelope)
    → QueuesBounded cap es
    → QueuesBounded cap (empty_mailboxes ks es)
unfolding QueuesBounded
queues_empty cap ks es h k = omega (arith, count-empty_mailboxes-le k ks es, h k)
