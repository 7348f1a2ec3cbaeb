-- ===== src/Gateway/Sidecar.antt =====
-- apps/server/nym.js: the payloads that come over Nym, and the link to the sidecar.
use noblechat.Prelude.{
  ℕ, suc, ◌*◌, ◌≤◌, min, ltb, leb, if◌then◌else◌, [], ◌∷◌, Option, none, some, Bool, true, false,
  ◌&&◌, all, drop, length, JsString, text, ◌≡◌, refl, arith, Bool-cases, inl, inr,
}
use noblechat.Gateway.Fields.{Value, string_of, b64_unit}
use noblechat.Web.Text.{starts_with}

-- A parsed object: whether its `v` is 1, and its `p` and `i`
pub record NymObject : Type 0 where
  pub is_v1 : Bool
  pub p : Value
  pub i : Value

pub record NymPayload : Type 0 where
  pub provider_id : JsString
  pub inner : JsString

abbrev pub shifted : Option ℕ → Bool → Option ℕ
shifted (some i) here = some (suc i)
shifted none here = if here then some 0 else none

-- `lastIndexOf`
unfoldable pub last_index_of : JsString → JsString → Option ℕ
last_index_of pattern [] = if starts_with pattern [] then some 0 else none
last_index_of pattern (u ∷ s) = shifted (last_index_of pattern s) (starts_with pattern (u ∷ s))

-- `/^[A-Za-z0-9+/=]{1,n}$/`
abbrev pub b64_within : ℕ → JsString → Bool
b64_within n s = leb 1 (length s) && (leb (length s) n && all b64_unit s)

abbrev pub checked_fields : Option JsString → Option JsString → Option NymPayload
checked_fields (some p) (some i) =
    if b64_within 128 p && b64_within 262144 i
    then some (record { provider_id = p; inner = i })
    else none
checked_fields _ _ = none

-- The last two conditions of `parseNymPayload`
abbrev pub checked : Option NymObject → Option NymPayload
checked none = none
checked (some m) = if m.is_v1 then checked_fields (string_of m.p) (string_of m.i) else none

abbrev pub is_payload : Option NymObject → Bool
is_payload none = false
is_payload (some m) = m.is_v1

module _ (json_parse : JsString → Option NymObject) where
  abbrev pub trailing : JsString → Option NymObject → Option ℕ → Option NymObject
  trailing s m none = m
  trailing s m (some idx) = json_parse (drop idx s)

  -- `parseNymPayload`
  unfoldable pub parse_nym_payload : JsString → ℕ → Option NymPayload
  parse_nym_payload s max_bytes =
      let whole = json_parse s in
      let found = trailing s whole (last_index_of (text "{\"v\":") s) in
      if ltb max_bytes (length s) then none else checked (if is_payload whole then whole else found)

-- The variables of `connectNym`; `opening_in` is the delay of a `setTimeout(open, …)` that waits.
pub record Link : Type 0 where
  pub address : Option JsString
  pub connected : Bool
  pub is_closed : Bool
  pub backoff : ℕ
  pub opening_in : Option ℕ

abbrev pub new_link : Link
new_link = record {
  address = none;
  connected = false;
  is_closed = false;
  backoff = 1000;
  opening_in = none;
}

-- The timer runs out, and `open` makes a new socket.
unfoldable pub reopen : Link → Link
reopen l = record l { opening_in = none }

-- `ws.on("open")`
unfoldable pub on_open : Link → Link
on_open l = record l { backoff = 1000 }

-- `selfAddress`
unfoldable pub on_self_address : JsString → Link → Link
on_self_address address l = record l { address = some address; connected = true }

-- `down`
unfoldable pub down : Link → Link
down l =
    let fallen = record l { connected = false; address = none } in
    if l.is_closed
    then fallen
    else record fallen { opening_in = some l.backoff; backoff = min (l.backoff * 2) 30000 }

-- `close`
unfoldable pub close_link : Link → Link
close_link l = record l { is_closed = true }

pub data LinkStep : Link → Link → Type 0 where
  reopened : (l : Link) → LinkStep l (reopen l)
  opened : (l : Link) → LinkStep l (on_open l)
  addressed : (a : JsString) (l : Link) → LinkStep l (on_self_address a l)
  fell : (l : Link) → LinkStep l (down l)
  ended : (l : Link) → LinkStep l (close_link l)

pub data LinkRun : Link → Type 0 where
  fresh : LinkRun new_link
  later : {l next : Link} → LinkRun l → LinkStep l next → LinkRun next

abbrev pub WaitsWithin : Option ℕ → Type 0
WaitsWithin none = Unit
WaitsWithin (some ms) = (1000 ≤ ms) × (ms ≤ 30000)

-- `connected` with an address, or neither; the next wait, and a wait that is set, are from 1 to 30 seconds.
abbrev pub LinkOk : Link → Type 0
LinkOk l =
    (l.connected ≡ has_address l.address)
    × (1000 ≤ l.backoff)
    × (l.backoff ≤ 30000)
    × WaitsWithin l.opening_in
  where
    has_address : Option JsString → Bool
    has_address none = false
    has_address (some a) = true

LinkStep-LinkOk : {l next : Link} → LinkStep l next → LinkOk l → LinkOk next
unfolding reopen on_open on_self_address down close_link
LinkStep-LinkOk (reopened l) (c, lo, hi, w) = (c, lo, hi, tt)
LinkStep-LinkOk (opened l) (c, lo, hi, w) = (c, omega arith, omega arith, w)
LinkStep-LinkOk (addressed a l) (c, lo, hi, w) = (refl, lo, hi, w)
LinkStep-LinkOk (ended l) (c, lo, hi, w) = (c, lo, hi, w)
LinkStep-LinkOk (fell l) (c, lo, hi, w) = elim (Bool-cases l.is_closed) [
  | inl over ↦ rw over (refl, lo, hi, w)
  | inr lasts ↦ rw lasts (refl, omega (arith, lo), omega (arith, hi), (lo, hi))
]

-- Whatever happens to the link to the sidecar, it is connected exactly if it has an address, and it waits
-- between 1 and 30 seconds before it opens again.
pub LinkRun-LinkOk : {l : Link} → LinkRun l → LinkOk l
LinkRun-LinkOk fresh = (refl, omega arith, omega arith, tt)
LinkRun-LinkOk (later before step) = LinkStep-LinkOk step (LinkRun-LinkOk before)
