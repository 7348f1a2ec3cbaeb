-- ===== src/Store/Caps.antt =====
-- The bounds of the other tables: names, queued envelopes and an account's bytes.
use noblechat.Prelude.{
  ℕ, zero, suc, ◌+◌, ◌≤◌, List, [], ◌∷◌, ◌++◌, Option, some, Bool, false, JsString, ◌≡◌, arith,
  refl, any, ◌===◌, ===_iff, text_eq, subst, Bool-cases, inl, inr, take,
}
use noblechat.Store.Tables.{Db, Account, Envelope, File, count, remove, count-remove-le}
use noblechat.Store.Counting.{count-append, count_of_any}
use noblechat.Store.Accounts.{create_account, of_user}
use noblechat.Store.Mailbox.{push_envelope, split_mailbox, in_mailbox}
use noblechat.Store.Files.{save_file_meta_checked, owned_bytes, sum_sizes}
use noblechat.Store.Moderation.{empty_mailboxes}
use noblechat.Store.Run.{settle, settle_answer}

pub create_account-one_row :
    (now : ℕ) (username pass : JsString) (ver : ℕ) (db : Db) (u : JsString)
    → count (of_user u) db.accounts ≤ 1
    → count (of_user u) (settle db (create_account now username pass ver db)).accounts ≤ 1
unfolding create_account count
create_account-one_row now username pass ver db u h =
    let row : Account = record {
      username = username;
      pass = pass;
      created_at = now;
      banned = false;
      is_admin = false;
      auth_ver = ver;
    } in
    let longer = count-append (of_user u) db.accounts (row ∷ []) in
    elim (Bool-cases (username === u)) [
      | inl e ↦
          let m : username ≡ u = (===_iff username u).0 e in
          let absent : any (of_user username) db.accounts ≡ false
              → count (of_user u) db.accounts ≡ 0 =
            subst
              (λ (v : JsString).
                any (of_user username) db.accounts ≡ false → count (of_user v) db.accounts ≡ 0)
              m (count_of_any (of_user username) db.accounts) in
          ground (arith, longer, absent, e)
      | inr e ↦ ground (arith, longer, e)
    ]

pub push_envelope-capped :
    (cap now : ℕ) (mbkey env : JsString) (db : Db) (k : JsString)
    → count (in_mailbox k) db.mailbox ≤ cap
    → count (in_mailbox k) (push_envelope cap now mbkey env db).1.mailbox ≤ cap
unfolding push_envelope count
push_envelope-capped cap now mbkey env db k h =
    let row : Envelope = record { mbkey = mbkey; envelope = env; created_at = now } in
    let longer = count-append (in_mailbox k) db.mailbox (row ∷ []) in
    elim (Bool-cases (mbkey === k)) [
      | inl e ↦
          let m : mbkey ≡ k = (===_iff mbkey k).0 e in
          let known : count (in_mailbox mbkey) db.mailbox ≡ count (in_mailbox k) db.mailbox =
            subst
              (λ (j : JsString).
                count (in_mailbox mbkey) db.mailbox ≡ count (in_mailbox j) db.mailbox)
              m refl in
          ground (arith, longer, known, e)
      | inr e ↦ ground (arith, longer, e)
    ]

pub count-split_mailbox-le :
    (k : JsString) (mbkey : JsString) (limit : ℕ) (es : List Envelope)
    → count (in_mailbox k) (split_mailbox mbkey limit es).1 ≤ count (in_mailbox k) es
unfolding split_mailbox count
count-split_mailbox-le k mbkey limit [] = omega arith
count-split_mailbox-le k mbkey zero (e ∷ es) = omega arith
count-split_mailbox-le k mbkey (suc limit) (e ∷ es) =
    ground (
      arith,
      count-split_mailbox-le k mbkey limit es,
      count-split_mailbox-le k mbkey (suc limit) es,
    )

pub count-empty_mailboxes-le :
    (k : JsString) (ks : List JsString) (es : List Envelope)
    → count (in_mailbox k) (empty_mailboxes ks es) ≤ count (in_mailbox k) es
unfolding empty_mailboxes
count-empty_mailboxes-le k [] es = omega arith
count-empty_mailboxes-le k (j ∷ ks) es = omega (
  arith,
  count-empty_mailboxes-le k ks (remove (in_mailbox j) es),
  count-remove-le (in_mailbox k) (in_mailbox j) es,
)

pub sum_sizes-remove-le :
    (owner : JsString) (p : File → Bool) (fs : List File)
    → sum_sizes owner (remove p fs) ≤ sum_sizes owner fs
unfolding sum_sizes remove
sum_sizes-remove-le owner p [] = omega arith
sum_sizes-remove-le owner p (f ∷ fs) = ground (arith, sum_sizes-remove-le owner p fs)

pub sum_sizes-append :
    (owner : JsString) (fs gs : List File)
    → sum_sizes owner (fs ++ gs) ≡ sum_sizes owner fs + sum_sizes owner gs
unfolding sum_sizes
sum_sizes-append owner [] gs = omega arith
sum_sizes-append owner (f ∷ fs) gs = ground (arith, sum_sizes-append owner fs gs)

pub save_file_meta_checked-capped :
    (now : ℕ) (id mime : JsString) (size : ℕ) (expires : Option ℕ) (owner : JsString) (quota : ℕ)
    (db : Db) (u : JsString)
    → owned_bytes u db ≤ quota
    → owned_bytes u
        (settle_answer db (save_file_meta_checked now id mime size expires owner quota db))
      ≤ quota
unfolding save_file_meta_checked owned_bytes sum_sizes
save_file_meta_checked-capped now id mime size expires owner quota db u h =
    let row : File = record {
      id = id;
      mime = take 100 mime;
      size = size;
      created_at = now;
      expires_at = expires;
      owner = some owner;
    } in
    let longer = sum_sizes-append u db.files (row ∷ []) in
    elim (Bool-cases (owner === u)) [
      | inl e ↦
          let m : owner ≡ u = (===_iff owner u).0 e in
          let known : sum_sizes owner db.files ≡ sum_sizes u db.files =
            subst (λ (v : JsString). sum_sizes owner db.files ≡ sum_sizes v db.files) m refl in
          ground (arith, longer, known, e)
      | inr e ↦ ground (arith, longer, e)
    ]
