-- ===== src/Store/Files.antt =====
-- The rows of the encrypted attachments and the files on disk behind them.
use noblechat.Prelude.{
  ℕ, ◌+◌, ltb, if◌then◌else◌, List, [], ◌∷◌, ◌++◌, Option, none, some, Bool, true, false, ◌&&◌, not,
  take, JsString, ◌===◌, text_eq, Result, ok, err, any,
}
use noblechat.Store.Tables.{Db, File, StoreError, first, remove, is}

abbrev pub file_id : JsString → File → Bool
file_id id f = f.id === id

abbrev pub file_owner : JsString → File → Bool
file_owner owner f = is f.owner owner

-- `expires_at IS NOT NULL AND expires_at < $1`
abbrev pub passed : ℕ → Option ℕ → Bool
passed now none = false
passed now (some t) = ltb t now

abbrev pub expired : ℕ → File → Bool
expired now f = passed now f.expires_at

-- `unlinkQuiet` of every row that was deleted, on a disk whose unlinks succeed
unfoldable pub unlink_all : (File → Bool) → List File → List (JsString × ℕ) → List (JsString × ℕ)
unlink_all cond files disk = remove (λ entry. any (λ f. cond f && f.id === entry.0) files) disk

-- `deleteFilesWhere`
unfoldable pub delete_files_where : (File → Bool) → Db → Db
delete_files_where cond db = record db {
  files = remove cond db.files;
  disk = unlink_all cond db.files db.disk;
}

-- `COALESCE(SUM(size),0)` of an owner's rows
unfoldable pub sum_sizes : JsString → List File → ℕ
sum_sizes owner [] = 0
sum_sizes owner (f ∷ fs) =
    let rest = sum_sizes owner fs in if file_owner owner f then rest + f.size else rest

-- `ownedBytes`
unfoldable pub owned_bytes : JsString → Db → ℕ
owned_bytes owner db = sum_sizes owner db.files

-- `saveFileMeta`
unfoldable pub save_file_meta :
    ℕ → JsString → JsString → ℕ → Option ℕ → Option JsString → Db → Result StoreError Db
save_file_meta now id mime size expires_at owner db =
    let row : File = record {
      id = id;
      mime = take 100 mime;
      size = size;
      created_at = now;
      expires_at = expires_at;
      owner = owner;
    } in
    if any (file_id id) db.files
    then err StoreError.duplicate_key
    else ok record db { files = db.files ++ row ∷ [] }

-- `saveFileMetaChecked`: false over the quota; an error rolls the transaction back.
unfoldable pub save_file_meta_checked :
    ℕ → JsString → JsString → ℕ → Option ℕ → JsString → ℕ → Db → Result StoreError (Bool × Db)
save_file_meta_checked now id mime size expires_at owner quota db =
    let row : File = record {
      id = id;
      mime = take 100 mime;
      size = size;
      created_at = now;
      expires_at = expires_at;
      owner = some owner;
    } in
    if ltb quota (owned_bytes owner db + size)
    then ok (false, db)
    else if any (file_id id) db.files
    then err StoreError.duplicate_key
    else ok (true, record db { files = db.files ++ row ∷ [] })

-- `removeFile`
unfoldable pub remove_file : JsString → Db → Db
remove_file id db = delete_files_where (file_id id) db

-- `getFile`: an expired row goes, with its file.
unfoldable pub get_file : ℕ → JsString → Db → Option File × Db
get_file now id db = elim (first (file_id id) db.files) [
  | none ↦ (none, db)
  | some f ↦ if expired now f then (none, delete_files_where (file_id id) db) else (some f, db)
]

-- `pruneExpiredFiles`
unfoldable pub prune_expired_files : ℕ → Db → Db
prune_expired_files now db = delete_files_where (expired now) db

-- A file that `reconcileOrphanFiles` unlinks: it has no row, and `mtimeMs >= now - minAgeMs` fails.
abbrev pub orphan : ℕ → ℕ → Db → JsString × ℕ → Bool
orphan now min_age_ms db entry =
    not (any (file_id entry.0) db.files) && ltb (entry.1 + min_age_ms) now

-- `reconcileOrphanFiles`, on a disk that answers, less the count that it returns
unfoldable pub reconcile_orphan_files : ℕ → ℕ → Db → Db
reconcile_orphan_files now min_age_ms db = record db {
  disk = remove (orphan now min_age_ms db) db.disk;
}
