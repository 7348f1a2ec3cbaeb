-- ===== src/Store/Tables.antt =====
-- The tables of `SCHEMA`, and the directory that holds the attachments.
use noblechat.Prelude.{
  ℕ, ◌+◌, ◌≤◌, if◌then◌else◌, List, [], ◌∷◌, Option, none, some, Bool, true, false, JsString, ◌≡◌,
  arith, refl, ◌===◌, text_eq,
}

pub record Account : Type 0 where
  pub username : JsString
  pub pass : JsString
  pub created_at : ℕ
  pub banned : Bool
  pub is_admin : Bool
  pub auth_ver : ℕ

pub record Device : Type 0 where
  pub device_id : JsString
  pub username : JsString
  pub card : JsString
  pub mbkey : Option JsString
  pub created_at : ℕ

pub record Session : Type 0 where
  pub token : JsString
  pub username : JsString
  pub created_at : ℕ
  pub expires_at : ℕ

pub record Blob : Type 0 where
  pub username : JsString
  pub blob : JsString
  pub updated_at : ℕ

-- A row of `mailbox`. Its `id` counts insertions, so the list is in the order of `id`.
pub record Envelope : Type 0 where
  pub mbkey : JsString
  pub envelope : JsString
  pub created_at : ℕ

-- A row of `files`, less the column `data` of the rows from before the disk was used.
pub record File : Type 0 where
  pub id : JsString
  pub mime : JsString
  pub size : ℕ
  pub created_at : ℕ
  pub expires_at : Option ℕ
  pub owner : Option JsString

-- `disk` lists the names in `filesDir` with their times of modification.
pub record Db : Type 0 where
  pub accounts : List Account
  pub devices : List Device
  pub sessions : List Session
  pub blobs : List Blob
  pub mailbox : List Envelope
  pub settings : List (JsString × JsString)
  pub files : List File
  pub disk : List (JsString × ℕ)

abbrev pub empty_db : Db
empty_db = record {
  accounts = [];
  devices = [];
  sessions = [];
  blobs = [];
  mailbox = [];
  settings = [];
  files = [];
  disk = [];
}

-- What a query rejects with: a unique or a primary key that is taken, a missing account, and the two
-- errors that `addDevice` tags.
pub data StoreError : Type 0 where
  duplicate_key missing_account device_limit mailbox_taken : StoreError

-- `x = $1` on a column that may be null
abbrev pub is : Option JsString → JsString → Bool
is none k = false
is (some x) k = x === k

module _ {ℓ} {A : Type ℓ} where
  -- The first row of a result, `r.rows[0]`
  unfoldable pub first : (A → Bool) → List A → Option A
  first p [] = none
  first p (x ∷ xs) = let rest = first p xs in if p x then some x else rest

  -- `UPDATE … SET f WHERE p`
  unfoldable pub update : (A → Bool) → (A → A) → List A → List A
  update p f [] = []
  update p f (x ∷ xs) = let rest = update p f xs in (if p x then f x else x) ∷ rest

  -- `SELECT COUNT(*) … WHERE p`
  unfoldable pub count : (A → Bool) → List A → ℕ
  count p [] = 0
  count p (x ∷ xs) = let rest = count p xs in if p x then rest + 1 else rest

  -- `DELETE … WHERE p`
  unfoldable pub remove : (A → Bool) → List A → List A
  remove p [] = []
  remove p (x ∷ xs) = let rest = remove p xs in if p x then rest else x ∷ rest

  pub count-remove-le : (q p : A → Bool) (xs : List A) → count q (remove p xs) ≤ count q xs
  unfolding count remove
  count-remove-le q p [] = omega arith
  count-remove-le q p (x ∷ xs) = ground (arith, count-remove-le q p xs)

  pub count-remove_self : (p : A → Bool) (xs : List A) → count p (remove p xs) ≡ 0
  unfolding count remove
  count-remove_self p [] = refl
  count-remove_self p (x ∷ xs) = ground (arith, count-remove_self p xs)

  -- What has the property is counted, so nothing else goes.
  pub count-remove_other :
      (q p : A → Bool)
      → ((x : A) → q x ≡ true → p x ≡ false)
      → (xs : List A) → count q (remove p xs) ≡ count q xs
  unfolding count remove
  count-remove_other q p apart [] = refl
  count-remove_other q p apart (x ∷ xs) =
      let rest = count-remove_other q p apart xs in ground (arith, apart x)
