-- ===== src/Store/Access.antt =====
-- Who a session belongs to, and what a ban and the deletion of an account take away.
use noblechat.Prelude.{
  ℕ, ◌+◌, ltb, if◌then◌else◌, List, [], ◌∷◌, ◌++◌, none, some, Bool, true, false, JsString, ◌≡◌,
  ◌∙◌, ◌&&◌, ◌≢◌, arith, refl, sym, subst, ◌===◌, ===_iff, ===_refl, text_eq, ok, any, get,
  get-delete, includes, Bool-cases, Option-cases, inl, inr,
}
use noblechat.Store.Tables.{
  Db, Session, Account, Envelope, File, first, update, count, remove, count-remove_self,
}
use noblechat.Store.Accounts.{is_banned, get_account, has_account, of_user, blob_of}
use noblechat.Store.Devices.{device_mbkeys, owned_by}
use noblechat.Store.Sessions.{create_session, get_session, has_token, session_of}
use noblechat.Store.Mailbox.{in_mailbox}
use noblechat.Store.Files.{file_owner, unlink_all, delete_files_where}
use noblechat.Store.Moderation.{ban_account, delete_account, empty_mailboxes, banreason}
use noblechat.Store.Caps.{count-empty_mailboxes-le}

pub first-append {ℓ} :
    {A : Type ℓ} (p : A → Bool) (xs : List A) (x : A)
    → first p (xs ++ x ∷ []) ≡ (if any p xs then first p xs else if p x then some x else none)
unfolding first
first-append p [] x = ground arith
first-append p (y ∷ xs) x = ground (arith, first-append p xs x)

module _ (hash_token : JsString → JsString) where
  -- A session that was stored answers with its account up to the end of its life, and with nothing
  -- from then on.
  pub get_session-create_session :
      (now : ℕ) (token username : JsString) (ttl later : ℕ) (db db' : Db)
      → create_session hash_token now token username ttl db ≡ ok db'
      → (get_session hash_token later token db').0
        ≡ (if ltb (now + ttl) later then none else some username)
  unfolding create_session get_session
  get_session-create_session now token username ttl later db db' h =
      let row : Session = record {
        token = hash_token token;
        username = username;
        created_at = now;
        expires_at = now + ttl;
      } in
      let found = first-append (has_token (hash_token token)) db.sessions row in
      ground (arith, h, found, ===_refl (hash_token token))

first-remove_owner :
    (p : Session → Bool) (username : JsString) (xs : List Session) (s : Session)
    → first p (remove (session_of username) xs) ≡ some s
    → (s.username === username) ≡ false
unfolding first remove
first-remove_owner p username [] s h = ground arith
first-remove_owner p username (x ∷ xs) s h = ground (arith, first-remove_owner p username xs s)

any-first : (p : Account → Bool) (xs : List Account) → first p xs ≡ none → any p xs ≡ false
unfolding first
any-first p [] h = refl
any-first p (x ∷ xs) h = ground (arith, any-first p xs)

banned_first :
    (u : JsString) (xs : List Account)
    → elim (first (of_user u) (update (of_user u) (λ a. record a { banned = true }) xs)) [
      | none ↦ false
      | some a ↦ a.banned
    ]
      ≡ any (of_user u) xs
unfolding first update
banned_first u [] = refl
banned_first u (x ∷ xs) = ground (arith, banned_first u xs)

mailbox_emptied :
    (k : JsString) (ks : List JsString) (es : List Envelope)
    → includes ks k ≡ true
    → count (in_mailbox k) (empty_mailboxes ks es) ≡ 0
unfolding empty_mailboxes
mailbox_emptied k [] es h = ground arith
mailbox_emptied k (j ∷ ks) es h = elim (Bool-cases (j === k)) [
  | inl e ↦
      let m : j ≡ k = (===_iff j k).0 e in
      let gone : count (in_mailbox k) (remove (in_mailbox j) es) ≡ 0 =
        subst (λ (i : JsString). count (in_mailbox k) (remove (in_mailbox i) es) ≡ 0) (sym m)
          (count-remove_self (in_mailbox k) es) in
      omega (arith, gone, count-empty_mailboxes-le k ks (remove (in_mailbox j) es))
  | inr e ↦ mailbox_emptied k ks (remove (in_mailbox j) es) (ground (arith, e))
]

count-remove_other :
    (k j : JsString) (es : List Envelope)
    → (j === k) ≡ false
    → count (in_mailbox k) (remove (in_mailbox j) es) ≡ count (in_mailbox k) es
unfolding count remove
count-remove_other k j [] h = refl
count-remove_other k j (e ∷ es) h =
    ground
      (arith, h, count-remove_other k j es h, ===_iff e.mbkey j, ===_iff e.mbkey k, ===_iff j k)

mailbox_spared :
    (k : JsString) (ks : List JsString) (es : List Envelope)
    → includes ks k ≡ false
    → count (in_mailbox k) (empty_mailboxes ks es) ≡ count (in_mailbox k) es
unfolding empty_mailboxes
mailbox_spared k [] es h = refl
mailbox_spared k (j ∷ ks) es h = elim (Bool-cases (j === k)) [
  | inl e ↦ absurd (ground (arith, e, h))
  | inr e ↦
      mailbox_spared k ks (remove (in_mailbox j) es) (ground (arith, e, h))
      ∙ count-remove_other k j es e
]

-- What is left in a mailbox when those of an account are emptied
abbrev pub left_in : JsString → JsString → Db → ℕ
left_in u k db = if includes (device_mbkeys u db) k then 0 else count (in_mailbox k) db.mailbox

emptied_exactly :
    (u k : JsString) (db : Db)
    → count (in_mailbox k) (empty_mailboxes (device_mbkeys u db) db.mailbox) ≡ left_in u k db
emptied_exactly u k db = elim (Bool-cases (includes (device_mbkeys u db) k)) [
  | inl own ↦ rw own (mailbox_emptied k (device_mbkeys u db) db.mailbox own)
  | inr other ↦ rw other (mailbox_spared k (device_mbkeys u db) db.mailbox other)
]

get_session_of :
    (hash_token : JsString → JsString) (now : ℕ) (token u : JsString) (db : Db)
    → ((s : Session)
        → first (has_token (hash_token token)) db.sessions ≡ some s
        → (s.username === u) ≡ false)
    → (get_session hash_token now token db).0 ≢ some u
unfolding get_session
get_session_of hash_token now token u db apart h =
    elim (Option-cases (first (has_token (hash_token token)) db.sessions)) [
      | inl e ↦ ground (arith, e, h)
      | inr (s, e) ↦ ground (arith, e, h, apart s e, ===_iff s.username u)
    ]

-- After `banAccount`, for every account name, with devices or without: no token answers with the account,
-- whatever the time, and none of its sessions has a row; the account, if it exists, is banned; and every
-- mailbox of its devices is empty, while every other mailbox holds as many envelopes as before.
pub ban_account-shuts_out :
    (hash_token : JsString → JsString) (u reason : JsString) (db : Db) (now : ℕ)
    (token k : JsString)
    → ((get_session hash_token now token (ban_account u reason db).1).0 ≢ some u)
      × (count (session_of u) (ban_account u reason db).1.sessions ≡ 0)
      × (is_banned u (ban_account u reason db).1 ≡ has_account u db)
      × (count (in_mailbox k) (ban_account u reason db).1.mailbox ≡ left_in u k db)
unfolding ban_account is_banned get_account
ban_account-shuts_out hash_token u reason db now token k = (
  get_session_of hash_token now token u (ban_account u reason db).1
      (λ s e. first-remove_owner (has_token (hash_token token)) u db.sessions s e),
  count-remove_self (session_of u) db.sessions,
  banned_first u db.accounts,
  emptied_exactly u k db,
)

-- The files on disk behind the rows of an owner
abbrev pub owned_entry : JsString → List File → JsString × ℕ → Bool
owned_entry owner files entry = any (λ f. file_owner owner f && f.id === entry.0) files

-- `deleteAccount` of an account that exists, with devices or without, leaves no row of it: no account,
-- device, session, blob, attachment or reason of a ban; no file on disk behind one of its attachments, on
-- a disk whose unlinks succeed; and nothing queued for a mailbox of its devices, while every other mailbox
-- holds as many envelopes as before.
pub delete_account-leaves_nothing :
    (u : JsString) (db : Db) (k : JsString)
    → has_account u db ≡ true
    → (count (of_user u) (delete_account u db).1.accounts ≡ 0)
      × (count (owned_by u) (delete_account u db).1.devices ≡ 0)
      × (count (session_of u) (delete_account u db).1.sessions ≡ 0)
      × (count (blob_of u) (delete_account u db).1.blobs ≡ 0)
      × (count (file_owner u) (delete_account u db).1.files ≡ 0)
      × (count (owned_entry u db.files) (delete_account u db).1.disk ≡ 0)
      × (get (banreason u) (delete_account u db).1.settings ≡ none)
      × (count (in_mailbox k) (delete_account u db).1.mailbox ≡ left_in u k db)
unfolding delete_account delete_files_where unlink_all
delete_account-leaves_nothing u db k known = (
  count-remove_self (of_user u) db.accounts,
  rw known (count-remove_self (owned_by u) db.devices),
  count-remove_self (session_of u) db.sessions,
  count-remove_self (blob_of u) db.blobs,
  count-remove_self (file_owner u) db.files,
  count-remove_self (owned_entry u db.files) db.disk,
  ground (arith, get-delete (banreason u) (banreason u) db.settings, ===_refl (banreason u)),
  emptied_exactly u k db,
)
