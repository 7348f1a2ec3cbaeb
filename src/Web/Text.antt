-- ===== src/Web/Text.antt =====
-- apps/web/src/text-utils.js and admin-utils.js: escaping, file names, sizes and times, and the clamping of
-- what a peer sends.
pub mod Clamped
use noblechat.Prelude.{
  ℕ, zero, suc, ◌+◌, ◌-◌, ◌*◌, ◌/◌, ◌%◌, ◌≤◌, ◌<◌, ltb, leb, ◌==◌, if◌then◌else◌, List, [], ◌∷◌,
  ◌++◌, Option, none, some, Bool, true, false, not, ◌&&◌, ◌||◌, take, drop, length, JsString, text,
  text_eq, ◌===◌, decimal, ◌≡◌, ◌≢◌, refl, arith,
}
use noblechat.Gateway.Fields.{Value, text_of}

-- The characters of `/[&<>"']/g`
abbrev pub escaped : ℕ → JsString
escaped u =
    if u == 38
    then text "&amp;"
    else if u == 60
    then text "&lt;"
    else if u == 62
    then text "&gt;"
    else if u == 34
    then text "&quot;"
    else if u == 39
    then text "&#39;"
    else u ∷ []

-- `esc`
unfoldable pub esc : JsString → JsString
esc [] = []
esc (u ∷ s) = escaped u ++ esc s

-- `simpleHash`, on a text of the basic plane
unfoldable pub hash_from : ℕ → JsString → ℕ
hash_from h [] = h
hash_from h (c ∷ s) = hash_from ((h * 31 + c) % 0x100000000) s

abbrev pub simple_hash : JsString → ℕ
simple_hash s = hash_from 0 s

abbrev pub later_dot : Option ℕ → Bool → Option ℕ
later_dot (some i) is_dot = some (suc i)
later_dot none is_dot = if is_dot then some 0 else none

-- `lastIndexOf(".")`
unfoldable pub last_dot : JsString → Option ℕ
last_dot [] = none
last_dot (u ∷ s) = later_dot (last_dot s) (u == 46)

-- `String(name || "file")`
abbrev pub name_or_file : JsString → JsString
name_or_file [] = text "file"
name_or_file (u ∷ s) = u ∷ s

-- The branch of `truncateFilename` with a dot
abbrev pub cut_at : JsString → ℕ → Option ℕ → JsString
cut_at s max_len none = take max_len s
cut_at s max_len (some dot) =
    let ext = drop dot s in
    let kept = take (max_len - length ext) (take dot s) ++ ext in
    if ltb 0 dot && (ltb 1 (length ext) && (leb (length ext) 20 && ltb (length ext) max_len))
    then kept
    else take max_len s

-- `truncateFilename`
unfoldable pub truncate_filename : JsString → ℕ → JsString
truncate_filename name max_len =
    let s = name_or_file name in if leb (length s) max_len then s else cut_at s max_len (last_dot s)

-- `startsWith`
abbrev pub starts_with : JsString → JsString → Bool
starts_with [] s = true
starts_with (u ∷ pre) [] = false
starts_with (u ∷ pre) (v ∷ s) = (u == v) && starts_with pre s

-- `mimeKind`
unfoldable pub mime_kind : JsString → JsString
mime_kind m =
    if starts_with (text "image/") m
    then text "image"
    else if starts_with (text "video/") m
    then text "video"
    else if starts_with (text "audio/") m
    then text "audio"
    else []

-- `(n / 1048576).toFixed(1)`: a tie goes to the larger one.
abbrev pub tenths_of_mb : ℕ → ℕ
tenths_of_mb n = (20 * n + 1048576) / 2097152

-- `fmtSize`, on a number of bytes
unfoldable pub fmt_size : ℕ → JsString
fmt_size n =
    let kb = (n + 512) / 1024 in
    let tenths = tenths_of_mb n in
    if ltb n 1024
    then decimal n ++ text " B"
    else if ltb kb 1024
    then decimal kb ++ text " KB"
    else decimal (tenths / 10) ++ (46 ∷ (decimal (tenths % 10) ++ text " MB"))

-- A number of units, and how many seconds the unit has
pub record Amount : Type 0 where
  pub count : ℕ
  pub unit_s : ℕ

-- The unit that `fmtRemaining` chooses
unfoldable pub remaining : ℕ → Amount
remaining ms =
    let s = (ms + 500) / 1000 in
    let m = (s + 30) / 60 in
    let h = (s + 1800) / 3600 in
    if ltb s 60
    then record { count = s; unit_s = 1 }
    else if ltb m 60
    then record { count = m; unit_s = 60 }
    else if ltb h 24
    then record { count = h; unit_s = 3600 }
    else record { count = (s + 43200) / 86400; unit_s = 86400 }

abbrev pub unit_name : ℕ → JsString
unit_name unit_s =
    if unit_s == 1
    then text "s"
    else if unit_s == 60
    then text "m"
    else if unit_s == 3600
    then text "h"
    else text "d"

-- `fmtRemaining`; a time that is over counts as 0.
unfoldable pub fmt_remaining : ℕ → JsString
fmt_remaining ms = let a = remaining ms in decimal a.count ++ unit_name a.unit_s

-- `fmtUptime`, on whole seconds
unfoldable pub fmt_uptime : ℕ → JsString
fmt_uptime sec =
    if ltb sec 3600
    then decimal (sec / 60) ++ text "m"
    else if ltb sec 86400
    then decimal (sec / 3600) ++ (text "h " ++ (decimal (sec % 3600 / 60) ++ text "m"))
    else decimal (sec / 86400) ++ (text "d " ++ (decimal (sec % 86400 / 3600) ++ text "h"))

-- A file of a message, as it comes in: `size` and `expireAt` are what `Number` makes of them, if it is finite.
pub record FileValue : Type 0 where
  pub name : Value
  pub mime : Value
  pub size : Option ℕ
  pub id : Value
  pub key : Value
  pub enc : Value
  pub expire_at : Option ℕ

pub record FileRef : Type 0 where
  pub name : JsString
  pub mime : JsString
  pub size : ℕ
  pub id : JsString
  pub key : JsString
  pub enc : JsString
  pub expire_at : Option ℕ

abbrev pub or_default : JsString → JsString → JsString
or_default d [] = d
or_default d (u ∷ s) = u ∷ s

abbrev pub or_zero : Option ℕ → ℕ
or_zero none = 0
or_zero (some n) = n

-- `normalizeFile`, on an object
unfoldable pub normalize_file : FileValue → FileRef
normalize_file f = record {
  name = truncate_filename (text_of f.name) 120;
  mime = take 100 (or_default (text "application/octet-stream") (text_of f.mime));
  size = or_zero f.size;
  id = text_of f.id;
  key = text_of f.key;
  enc = text_of f.enc;
  expire_at = f.expire_at;
}

-- A quote of a message; what is empty is left out.
pub record ReplyRef : Type 0 where
  pub from : JsString
  pub preview : JsString
  pub id : Option JsString

pub record ReplyValue : Type 0 where
  pub from : Value
  pub preview : Value
  pub id : Option JsString

abbrev pub cut_id : Option JsString → Option JsString
cut_id none = none
cut_id (some id) = some (take 64 id)

abbrev pub has_id : Option JsString → Bool
has_id none = false
has_id (some []) = false
has_id (some (u ∷ id)) = true

-- `normalizeReply`, on an object
unfoldable pub normalize_reply : ReplyValue → Option ReplyRef
normalize_reply r =
    let out : ReplyRef = record {
      from = take 64 (text_of r.from);
      preview = take 200 (text_of r.preview);
      id = cut_id r.id;
    } in
    if not (out.from === []) || (not (out.preview === []) || has_id out.id) then some out else none
