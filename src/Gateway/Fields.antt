-- ===== src/Gateway/Fields.antt =====
-- apps/server/util.js: the checks of request fields.
use noblechat.Prelude.{
  ℕ, ◌==◌, ◌&&◌, ◌||◌, leb, ltb, if◌then◌else◌, [], Option, none, some, Bool, false, JsString, all,
  length,
}

-- A value of a parsed body: missing, a string, or any other one with the text that `String(v || "")`
-- makes of it.
pub data Value : Type 0 where
  absent : Value
  string other : JsString → Value

-- `String(v || "")`
abbrev pub text_of : Value → JsString
text_of Value.absent = []
text_of (Value.string s) = s
text_of (Value.other s) = s

-- `typeof v === "string"`, with the string
abbrev pub string_of : Value → Option JsString
string_of Value.absent = none
string_of (Value.string s) = some s
string_of (Value.other s) = none

abbrev pub between : ℕ → ℕ → ℕ → Bool
between lo hi u = leb lo u && leb u hi

-- `[a-z0-9_]`, `[A-Za-z0-9+/=]`, `[a-f0-9]`
abbrev pub handle_unit : ℕ → Bool
handle_unit u = between 97 122 u || between 48 57 u || (u == 95)

abbrev pub b64_unit : ℕ → Bool
b64_unit u =
    between 65 90 u || between 97 122 u || between 48 57 u || (u == 43) || (u == 47) || (u == 61)

abbrev pub hex_unit : ℕ → Bool
hex_unit u = between 97 102 u || between 48 57 u

-- `HANDLE_RE`, `B64_RE`, `DEVICE_ID_RE` and `AUTH_SECRET_RE`
unfoldable pub handle_re : JsString → Bool
handle_re s = leb 3 (length s) && leb (length s) 24 && all handle_unit s

unfoldable pub b64_re : JsString → Bool
b64_re s = leb 1 (length s) && leb (length s) 4096 && all b64_unit s

unfoldable pub device_id_re : JsString → Bool
device_id_re s = (length s == 32) && all hex_unit s

unfoldable pub auth_secret_re : JsString → Bool
auth_secret_re s = (length s == 64) && all hex_unit s

-- `isB64`
abbrev pub is_b64 : Value → Bool
is_b64 v = elim (string_of v) [ none ↦ false | some s ↦ b64_re s ]

-- `asHandle`, with `toLowerCase`
unfoldable pub as_handle : (JsString → JsString) → Value → Option JsString
as_handle to_lower_case v = elim (string_of v) [
  | none ↦ none
  | some s ↦ let h = to_lower_case s in if handle_re h then some h else none
]

-- `asToken`, with its default `maxLen`
unfoldable pub as_token : Value → Option JsString
as_token v = elim (string_of v) [
  | none ↦ none
  | some s ↦ if ltb 0 (length s) && leb (length s) 256 then some s else none
]

-- A card of a request body, as far as `validCard` reads it; a part that is no object is none.
pub record KemValue : Type 0 where
  pub x : Value
  pub kem : Value

pub record SignValue : Type 0 where
  pub ed : Value
  pub dsa : Value

pub record CardValue : Type 0 where
  pub handle : Value
  pub provider_id : Value
  pub mailbox : Value
  pub kem : Option KemValue
  pub sign : Option SignValue

-- `typeof v === "string" && HANDLE_RE.test(v.toLowerCase())`
abbrev pub is_handle : (JsString → JsString) → Option JsString → Bool
is_handle to_lower_case none = false
is_handle to_lower_case (some h) = handle_re (to_lower_case h)

abbrev pub is_kem : Option KemValue → Bool
is_kem none = false
is_kem (some k) = is_b64 k.x && is_b64 k.kem

abbrev pub is_sign : Option SignValue → Bool
is_sign none = false
is_sign (some k) = is_b64 k.ed && is_b64 k.dsa

-- `validCard`
unfoldable pub valid_card : (JsString → JsString) → Option CardValue → Bool
valid_card to_lower_case none = false
valid_card to_lower_case (some c) =
    is_handle to_lower_case (string_of c.handle)
    && is_b64 c.provider_id
    && is_b64 c.mailbox
    && is_kem c.kem
    && is_sign c.sign
