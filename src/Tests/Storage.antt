-- ===== src/Tests/Storage.antt =====
-- The gateway's store.
use noblechat.Prelude.{
  List, [], ◌∷◌, none, some, true, false, JsString, text, ◌≡◌, ◌≢◌, refl, arith, ok, get, text_eq,
}
use noblechat.Store.Tables.{Db, empty_db, count}
use noblechat.Store.Accounts.{is_banned, of_user, blob_of}
use noblechat.Store.Devices.{device_mbkeys, mbkeys_where, owned_by}
use noblechat.Store.Sessions.{create_session, get_session, session_of}
use noblechat.Store.Mailbox.{push_envelope, drain_envelopes, in_mailbox}
use noblechat.Store.Files.{file_owner}
use noblechat.Store.Moderation.{ban_account, delete_account, banreason}
use noblechat.Store.Run.{Config, Op, run}
use noblechat.Store.WellFormed.{WellFormed}
use noblechat.Store.Reachable.{run-WellFormed}
use noblechat.Store.Queue.{queue, offer, push_envelope-queue, drain_envelopes-queue}
use noblechat.Store.Access.{
  get_session-create_session, ban_account-shuts_out, delete_account-leaves_nothing, owned_entry,
}

abbrev ann : JsString
ann = text "ann"

abbrev box : JsString
box = text "p:ann"

abbrev toy_hash : JsString → JsString
toy_hash t = 35 ∷ t

abbrev config : Config
config = record {
  mailbox_ttl_ms = 1000;
  max_per_mailbox = 2;
  max_devices = 1;
  max_account_bytes = 100;
  hash_token = toy_hash;
}

abbrev calls : List Op
calls =
    Op.creating_account 1 ann (text "pw") 2
    ∷ Op.adding_device 2 (text "d1") ann (text "card") box
    ∷ Op.adding_device 3 (text "d2") ann (text "card") (text "p:2")
    ∷ Op.pushing 4 box (text "m1")
    ∷ Op.pushing 5 box (text "m2")
    ∷ Op.pushing 6 box (text "m3")
    ∷ Op.saving_file 7 (text "f") (text "image/png") 60 none ann
    ∷ Op.saving_file 8 (text "g") (text "image/png") 60 none ann
    ∷ []

run-WellFormed_example : WellFormed config (run config calls empty_db)
run-WellFormed_example =
    run-WellFormed config (omega arith) calls
      (refl, (refl, (refl, (refl, (refl, (refl, (refl, (refl, tt))))))))

-- The database after the calls
abbrev busy : Db
busy = record empty_db {
  accounts =
      record {
        username = ann;
        pass = text "pw";
        created_at = 1;
        banned = false;
        is_admin = false;
        auth_ver = 2;
      }
      ∷ [];
  devices =
      record {
        device_id = text "d1";
        username = ann;
        card = text "card";
        mbkey = some box;
        created_at = 2;
      }
      ∷ [];
  mailbox =
      record { mbkey = box; envelope = text "m1"; created_at = 4 }
      ∷ record { mbkey = box; envelope = text "m2"; created_at = 5 }
      ∷ [];
}

push_envelope-queue_example :
    ((push_envelope 2 6 box (text "m3") busy).0 ≡ false)
    × (queue box (push_envelope 2 6 box (text "m3") busy).1.mailbox ≡ text "m1" ∷ text "m2" ∷ [])
    × (queue (text "p:bob") (push_envelope 2 6 box (text "m3") busy).1.mailbox ≡ [])
unfolding queue offer
push_envelope-queue_example =
    push_envelope-queue 2 6 box (text "m3") busy (text "p:bob") (λ e. ground (arith, e))

drain_envelopes-queue_example :
    ((drain_envelopes box 1 busy).0 ≡ text "m1" ∷ [])
    × (queue box (drain_envelopes box 1 busy).1.mailbox ≡ text "m2" ∷ [])
    × (queue (text "p:bob") (drain_envelopes box 1 busy).1.mailbox ≡ [])
unfolding queue
drain_envelopes-queue_example =
    drain_envelopes-queue box 1 busy (text "p:bob") (λ e. ground (arith, e))

abbrev signed_in : Db
signed_in = record busy {
  sessions =
      record { token = toy_hash (text "t"); username = ann; created_at = 10; expires_at = 60 } ∷ [];
}

create_signed_in : create_session toy_hash 10 (text "t") ann 50 busy ≡ ok signed_in
unfolding create_session
create_signed_in = refl

get_session-create_session_example : (get_session toy_hash 61 (text "t") signed_in).0 ≡ none
get_session-create_session_example =
    get_session-create_session toy_hash 10 (text "t") ann 50 61 busy signed_in create_signed_in

-- The account with an attachment of its own, and one of another account
abbrev keeping_files : Db
keeping_files = record signed_in {
  files =
      record {
        id = text "f1";
        mime = text "image/png";
        size = 0;
        created_at = 12;
        expires_at = none;
        owner = some ann;
      }
      ∷ record {
        id = text "f2";
        mime = text "image/png";
        size = 7;
        created_at = 13;
        expires_at = none;
        owner = some (text "bob");
      }
      ∷ [];
  disk = (text "f1", 12) ∷ (text "f2", 13) ∷ [];
}

ban_account-shuts_out_example :
    ((get_session toy_hash 20 (text "t") (ban_account ann (text "spam") signed_in).1).0 ≢ some ann)
    × (count (session_of ann) (ban_account ann (text "spam") signed_in).1.sessions ≡ 0)
    × (is_banned ann (ban_account ann (text "spam") signed_in).1 ≡ true)
    × (count (in_mailbox box) (ban_account ann (text "spam") signed_in).1.mailbox ≡ 0)
unfolding device_mbkeys mbkeys_where
ban_account-shuts_out_example =
    ban_account-shuts_out toy_hash ann (text "spam") signed_in 20 (text "t") box

delete_account-leaves_nothing_example :
    (count (of_user ann) (delete_account ann keeping_files).1.accounts ≡ 0)
    × (count (owned_by ann) (delete_account ann keeping_files).1.devices ≡ 0)
    × (count (session_of ann) (delete_account ann keeping_files).1.sessions ≡ 0)
    × (count (blob_of ann) (delete_account ann keeping_files).1.blobs ≡ 0)
    × (count (file_owner ann) (delete_account ann keeping_files).1.files ≡ 0)
    × (count (owned_entry ann keeping_files.files) (delete_account ann keeping_files).1.disk ≡ 0)
    × (get (banreason ann) (delete_account ann keeping_files).1.settings ≡ none)
    × (count (in_mailbox (text "p:bob")) (delete_account ann keeping_files).1.mailbox ≡ 0)
unfolding device_mbkeys mbkeys_where count
delete_account-leaves_nothing_example =
    delete_account-leaves_nothing ann keeping_files (text "p:bob") refl
