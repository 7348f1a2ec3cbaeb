-- ===== src/Server/Connections.antt =====
-- apps/server/util.js, tryAcquireConn and releaseConn: the open sockets of each address.
use noblechat.Prelude.{
  ℕ, zero, suc, ◌+◌, ◌-◌, ◌==◌, ltb, if◌then◌else◌, List, Option, none, some, Bool, true, false,
  JsString, text_eq, get, put, delete, get-put, get-delete, ===_iff, ===_refl, ◌≡◌, ◌≢◌, arith,
}

abbrev pub Connections : Type 0
Connections = List (JsString × ℕ)

-- `map.get(ip) || d`
abbrev pub or_else : ℕ → Option ℕ → ℕ
or_else d none = d
or_else d (some zero) = d
or_else d (some (suc n)) = suc n

-- `tryAcquireConn`
unfoldable pub try_acquire_conn : JsString → ℕ → Connections → Bool × Connections
try_acquire_conn ip max conns =
    let n = or_else 0 (get ip conns) + 1 in
    if ltb max n then (false, conns) else (true, put ip n conns)

-- `releaseConn`
unfoldable pub release_conn : JsString → Connections → Connections
release_conn ip conns =
    let left = or_else 1 (get ip conns) - 1 in
    if left == 0 then delete ip conns else put ip left conns

-- The open connections of an address
abbrev pub open_conns : JsString → Connections → ℕ
open_conns ip conns = or_else 0 (get ip conns)

-- An address gets a slot exactly when it has fewer than the cap, and then has one more; a refusal
-- counts nothing. A release takes away one, if there is one. No other address's count changes.
pub try_acquire_conn-release_conn :
    (ip other : JsString) (max : ℕ) (conns : Connections)
    → ip ≢ other
    → ((try_acquire_conn ip max conns).0 ≡ ltb (open_conns ip conns) max)
      × (open_conns ip (try_acquire_conn ip max conns).1 ≡ (
          if ltb (open_conns ip conns) max then open_conns ip conns + 1 else open_conns ip conns))
      × (open_conns ip (release_conn ip conns) ≡ open_conns ip conns - 1)
      × (open_conns other (try_acquire_conn ip max conns).1 ≡ open_conns other conns)
      × (open_conns other (release_conn ip conns) ≡ open_conns other conns)
unfolding try_acquire_conn release_conn
try_acquire_conn-release_conn ip other max conns apart =
    let n = or_else 0 (get ip conns) + 1 in
    let left = or_else 1 (get ip conns) - 1 in
    ground (
      arith,
      get-put ip ip n conns,
      get-put ip other n conns,
      get-put ip ip left conns,
      get-put ip other left conns,
      get-delete ip ip conns,
      get-delete ip other conns,
      ===_refl ip,
      ===_iff ip other,
    )
