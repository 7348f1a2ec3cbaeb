-- ===== src/Gateway/Files.antt =====
-- Upload and download of encrypted attachments.
pub mod Orphans
use noblechat.Prelude.{
  ℕ, min, ◌+◌, ◌*◌, ◌==◌, leb, ltb, if◌then◌else◌, List, [], ◌∷◌, ◌++◌, Option, none, some, Bool,
  true, false, ◌&&◌, not, all, JsString, text, text_eq, ◌===◌, Result, ok, err, length,
}
use noblechat.Store.Tables.{Db, File, StoreError, remove}
use noblechat.Store.Accounts.{is_banned}
use noblechat.Store.Files.{owned_bytes, save_file_meta_checked, get_file, remove_file}
use noblechat.Gateway.Fields.{hex_unit}
use noblechat.Gateway.State.{Settings, Gateway, Reply, Action, http_limited, with_user, log_event}

-- `Number(raw)`: a number from 0 on, rounded down, one beyond every bound, or anything else
pub data Seconds : Type 0 where
  whole : ℕ → Seconds
  infinite : Seconds
  useless : Seconds

-- `clampExpireSec`
unfoldable pub clamp_expire_sec : Seconds → ℕ → ℕ
clamp_expire_sec (Seconds.whole n) max_sec = min n max_sec
clamp_expire_sec Seconds.infinite max_sec = max_sec
clamp_expire_sec Seconds.useless max_sec = 0

-- How the body of an upload ends, after its chunks: whole, or with an error of the disk or the socket
pub data Ending : Type 0 where
  whole_body : Ending
  broken : JsString → Ending

pub data UploadError : Type 0 where
  too_large : UploadError
  failed : JsString → UploadError

-- The bytes through the pipeline of `streamToFile`, on the lengths of the chunks, with `size` bytes so far
unfoldable pub stream_to_file : ℕ → Ending → ℕ → List ℕ → Result UploadError ℕ
stream_to_file max_bytes Ending.whole_body size [] = ok size
stream_to_file max_bytes (Ending.broken message) size [] = err (UploadError.failed message)
stream_to_file max_bytes ending size (chunk ∷ chunks) =
    let rest = stream_to_file max_bytes ending (size + chunk) chunks in
    if ltb max_bytes (size + chunk) then err UploadError.too_large else rest

-- A request to upload: the header `x-expire-sec`, the free bytes that `statfs` tells, the error of opening the
-- new file if there is one, the body, and whether an unlink of the file succeeds
pub record Upload : Type 0 where
  pub expire_sec : Seconds
  pub free_bytes : Option ℕ
  pub open_error : Option JsString
  pub chunks : List ℕ
  pub ending : Ending
  pub unlinks : Bool

abbrev pub is_full : ℕ → Option ℕ → Bool
is_full floor none = false
is_full floor (some free) = ltb free floor

-- `streamToFile`: its answer, and the file that it opened with the flag `wx`
abbrev pub streaming : ℕ → Upload → Option JsString → Result UploadError ℕ
streaming max_bytes u none = stream_to_file max_bytes u.ending 0 u.chunks
streaming max_bytes u (some message) = err (UploadError.failed message)

-- The file that a stream leaves on disk
abbrev pub on_disk : ℕ → JsString → Gateway → Gateway
on_disk now id g = record g { db = record g.db { disk = g.db.disk ++ (id, now) ∷ [] } }

abbrev pub opened_file : Option JsString → ℕ → JsString → Gateway → Gateway
opened_file none now id g = on_disk now id g
opened_file (some message) now id g = g

-- `unlink`, with its error caught: the file is gone, or it stays.
abbrev pub unlink : Bool → JsString → Gateway → Gateway
unlink true id g = record g {
  db = record g.db { disk = remove (λ entry. entry.0 === id) g.db.disk };
}
unlink false id g = g

-- `id` is the fresh random name of the file.
module _ (s : Settings) (now : ℕ) (id : JsString) where
  abbrev pub saved : Bool → Gateway → Result StoreError (Bool × Db) → Reply × Gateway
  saved unlinks g (err e) = (Reply.error 500 (text "store failed"), unlink unlinks id g)
  saved unlinks g (ok (false, db)) =
      (Reply.error 413 (text "storage quota reached"), unlink unlinks id record g { db = db })
  saved unlinks g (ok (true, db)) = (Reply.uploaded id, record g { db = db })

  abbrev pub expires_at : ℕ → Option ℕ
  expires_at exp_sec = if ltb 0 exp_sec then some (now + exp_sec * 1000) else none

  -- The rest of the handler; an error of `streamToFile` comes after the unlink in its `catch`.
  abbrev pub streamed : Upload → JsString → Gateway → Result UploadError ℕ → Reply × Gateway
  streamed u username g (err UploadError.too_large) = (
    Reply.error 413 (text "file too large"),
    unlink u.unlinks id (opened_file u.open_error now id g),
  )
  streamed u username g (err (UploadError.failed message)) = (
    Reply.error 500 (text "upload failed"),
    log_event now (text "error") (text "upload failed") message
        (unlink u.unlinks id (opened_file u.open_error now id g)),
  )
  streamed u username g (ok size) =
      let there = on_disk now id g in
      if size == 0
      then (Reply.error 400 (text "empty"), unlink u.unlinks id there)
      else saved u.unlinks there (
          save_file_meta_checked now id (text "application/octet-stream") size
            (expires_at (clamp_expire_sec u.expire_sec 2592000)) username s.store.max_account_bytes
            there.db)

  unfoldable pub upload_as : Upload → JsString → Action
  upload_as u username g =
      if is_banned username g.db
      then (Reply.error 403 (text "account suspended"), g)
      else if leb s.store.max_account_bytes (owned_bytes username g.db)
      then (Reply.error 413 (text "storage quota reached"), g)
      else if is_full s.min_free_bytes u.free_bytes
      then (Reply.error 507 (text "server storage full"), g)
      else streamed u username g (streaming s.max_upload_bytes u u.open_error)

  -- `/api/upload`
  unfoldable pub upload : JsString → Option JsString → Upload → Action
  upload ip token u = http_limited now ip 4 (with_user s now token (upload_as u))

-- How reading the file goes
pub data Reading : Type 0 where
  opened gone : Reading
  read_error : JsString → Reading

abbrev pub file_id_re : JsString → Bool
file_id_re id = (length id == 36) && all hex_unit id

module _ (s : Settings) (now : ℕ) where
  abbrev pub sent : JsString → Reading → Gateway → Option File × Db → Reply × Gateway
  sent id reading g (none, db) = (Reply.bare 404, record g { db = db })
  sent id Reading.opened g (some f, db) = (Reply.download (some f.size), record g { db = db })
  sent id Reading.gone g (some f, db) = (Reply.bare 404, record g { db = remove_file id db })
  sent id (Reading.read_error code) g (some f, db) = (
    Reply.bare 500,
    log_event now (text "error") (text "file read failed") code record g { db = db },
  )

  -- `/api/file`, of a row with its bytes on disk
  unfoldable pub download : JsString → Option JsString → JsString → Reading → Action
  download ip token id reading = http_limited now ip 1 (
      with_user s now token (λ username g.
        if not (file_id_re id)
        then (Reply.bare 400, g)
        else sent id reading g (get_file now id g.db)))
