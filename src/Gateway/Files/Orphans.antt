-- ===== src/Gateway/Files/Orphans.antt =====
-- What an upload leaves on disk and in the table of files.
use noblechat.Prelude.{
  ℕ, ◌+◌, ◌==◌, leb, ltb, List, [], ◌∷◌, ◌++◌, Option, none, some, Bool, true, false, JsString,
  text_eq, ◌===◌, ===_refl, Result, ok, err, any, ◌≡◌, ◌≢◌, arith, refl, inl, inr, ◌⊎◌,
}
use noblechat.Store.Tables.{Db, File, StoreError, remove}
use noblechat.Store.Accounts.{is_banned}
use noblechat.Store.Files.{owned_bytes, save_file_meta_checked, file_id}
use noblechat.Prelude.{branch}
use noblechat.Gateway.State.{Settings, Gateway, Reply, log_event}
use noblechat.Gateway.Files.{
  Upload, UploadError, upload_as, streamed, saved, is_full, on_disk, unlink, opened_file, streaming,
}

abbrev named : JsString → JsString × ℕ → Bool
named id entry = entry.0 === id

remove-append :
    (id : JsString) (now : ℕ) (disk : List (JsString × ℕ))
    → any (named id) disk ≡ false
    → remove (named id) (disk ++ (id, now) ∷ []) ≡ disk
unfolding remove
remove-append id now [] h = ground (arith, ===_refl id)
remove-append id now (e ∷ disk) h = ground (arith, remove-append id now disk)

any-append :
    (p : JsString × ℕ → Bool) (xs : List (JsString × ℕ)) (x : JsString × ℕ)
    → p x ≡ true
    → any p (xs ++ x ∷ []) ≡ true
any-append p [] x h = ground (arith, h)
any-append p (y ∷ xs) x h = ground (arith, any-append p xs x h)

any_file-append :
    (p : File → Bool) (xs : List File) (x : File) → p x ≡ true → any p (xs ++ x ∷ []) ≡ true
any_file-append p [] x h = ground (arith, h)
any_file-append p (y ∷ xs) x h = ground (arith, any_file-append p xs x h)

-- The directory is as it was; where an unlink fails, it may have the one file more.
unfoldable pub LeftBehind : Bool → ℕ → JsString → List (JsString × ℕ) → List (JsString × ℕ) → Type 0
LeftBehind unlinks now id before after =
    (after ≡ before) ⊎ ((unlinks ≡ false) × (after ≡ before ++ (id, now) ∷ []))

-- What an upload may come to: the file and its row are there; or the answer is another one, the table of files
-- is as it was, and the directory too, up to a file that could not be unlinked.
unfoldable pub UploadDone : Bool → ℕ → JsString → Gateway → Reply × Gateway → Type 0
UploadDone unlinks now id g r =
    ((r.0 ≡ Reply.uploaded id)
      × (any (named id) r.1.db.disk ≡ true)
      × (any (file_id id) r.1.db.files ≡ true))
    ⊎ ((r.0 ≢ Reply.uploaded id)
        × LeftBehind unlinks now id g.db.disk r.1.db.disk
        × (r.1.db.files ≡ g.db.files))

unlink-LeftBehind :
    (unlinks : Bool) (now : ℕ) (id : JsString) (g : Gateway)
    → any (named id) g.db.disk ≡ false
    → LeftBehind unlinks now id g.db.disk (unlink unlinks id (on_disk now id g)).db.disk
unfolding LeftBehind
unlink-LeftBehind true now id g fresh = inl (remove-append id now g.db.disk fresh)
unlink-LeftBehind false now id g fresh = inr (refl, refl)

remove_absent :
    (id : JsString) (disk : List (JsString × ℕ))
    → any (named id) disk ≡ false
    → remove (named id) disk ≡ disk
unfolding remove
remove_absent id [] h = refl
remove_absent id (e ∷ disk) h = ground (arith, h, remove_absent id disk)

opened_file-LeftBehind :
    (error : Option JsString) (unlinks : Bool) (now : ℕ) (id : JsString) (g : Gateway)
    → any (named id) g.db.disk ≡ false
    → LeftBehind unlinks now id g.db.disk (unlink unlinks id (opened_file error now id g)).db.disk
unfolding LeftBehind
opened_file-LeftBehind none unlinks now id g fresh = unlink-LeftBehind unlinks now id g fresh
opened_file-LeftBehind (some m) true now id g fresh = inl (remove_absent id g.db.disk fresh)
opened_file-LeftBehind (some m) false now id g fresh = inl refl

untouched :
    (unlinks : Bool) (id : JsString) (g : Gateway) → (unlink unlinks id g).db.files ≡ g.db.files
untouched true id g = refl
untouched false id g = refl

opened_untouched :
    (error : Option JsString) (unlinks : Bool) (now : ℕ) (id : JsString) (g : Gateway)
    → (unlink unlinks id (opened_file error now id g)).db.files ≡ g.db.files
opened_untouched none unlinks now id g = untouched unlinks id (on_disk now id g)
opened_untouched (some m) unlinks now id g = untouched unlinks id g

module _ (s : Settings) (now : ℕ) (id : JsString) where
  saved-UploadDone :
      (unlinks : Bool) (g : Gateway) (mime : JsString) (size : ℕ) (expires : Option ℕ)
      (u : JsString) (quota : ℕ)
      → any (named id) g.db.disk ≡ false
      → UploadDone unlinks now id g (
          saved s now id unlinks
            (on_disk now id g)
            (save_file_meta_checked now id mime size expires u quota (on_disk now id g).db))
  unfolding save_file_meta_checked UploadDone
  saved-UploadDone unlinks g mime size expires u quota fresh =
      let there = on_disk now id g in
      let left = unlink-LeftBehind unlinks now id g fresh in
      let same = untouched unlinks id there in
      let P : Result StoreError (Bool × Db) → Type 0 =
        λ r. UploadDone unlinks now id g (saved s now id unlinks there r) in
      branch P (ltb quota (owned_bytes u there.db + size))
        (inr ((λ e. ground (arith, e)), left, same))
        (branch P (any (file_id id) g.db.files) (inr ((λ e. ground (arith, e)), left, same)) (
          inl (
            refl,
            any-append (named id) g.db.disk (id, now) (===_refl id),
            any_file-append (file_id id) g.db.files _ (===_refl id),
          )))

  streamed-UploadDone :
      (u : Upload) (username : JsString) (g : Gateway) (r : Result UploadError ℕ)
      → any (named id) g.db.disk ≡ false
      → UploadDone u.unlinks now id g (streamed s now id u username g r)
  unfolding UploadDone log_event
  streamed-UploadDone u username g (err UploadError.too_large) fresh = inr (
    (λ e. ground (arith, e)),
    opened_file-LeftBehind u.open_error u.unlinks now id g fresh,
    opened_untouched u.open_error u.unlinks now id g,
  )
  streamed-UploadDone u username g (err (UploadError.failed m)) fresh = inr (
    (λ e. ground (arith, e)),
    opened_file-LeftBehind u.open_error u.unlinks now id g fresh,
    opened_untouched u.open_error u.unlinks now id g,
  )
  streamed-UploadDone u username g (ok size) fresh =
      branch (UploadDone u.unlinks now id g) (size == 0)
        (inr (
          (λ e. ground (arith, e)),
          unlink-LeftBehind u.unlinks now id g fresh,
          untouched u.unlinks id (on_disk now id g),
        ))
        (saved-UploadDone u.unlinks g _ size _ username _ fresh)

  -- An upload of a signed-in account, under a name that is not on disk yet: either it answers with that
  -- name, and the file and its row are there; or it answers otherwise, the table of files is as it was,
  -- and so is the directory, whether the file was opened or not and wherever the stream broke off. Only
  -- where the unlink of the file fails may the directory have that one file more.
  pub upload_as-UploadDone :
      (u : Upload) (username : JsString) (g : Gateway)
      → any (named id) g.db.disk ≡ false
      → UploadDone u.unlinks now id g (upload_as s now id u username g)
  unfolding upload_as UploadDone LeftBehind
  upload_as-UploadDone u username g fresh =
      let P : Reply × Gateway → Type 0 = UploadDone u.unlinks now id g in
      branch P (is_banned username g.db) (inr ((λ e. ground (arith, e)), inl refl, refl)) (
        branch P (leb s.store.max_account_bytes (owned_bytes username g.db))
          (inr ((λ e. ground (arith, e)), inl refl, refl))
          (branch P (is_full s.min_free_bytes u.free_bytes)
            (inr ((λ e. ground (arith, e)), inl refl, refl))
            (streamed-UploadDone u username g (streaming s.max_upload_bytes u u.open_error) fresh)))
