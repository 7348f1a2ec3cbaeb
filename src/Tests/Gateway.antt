-- ===== src/Tests/Gateway.antt =====
-- The gateway's helpers.
use noblechat.Prelude.{
  ℕ, ◌+◌, ◌-◌, ◌*◌, ◌≤◌, List, [], ◌∷◌, ◌++◌, length, text, JsString, text_eq, get, ◌≡◌, arith,
  refl, ap, some, true, false, Bytes, zeros, take, map, includes, ℕ_eq, length-take, length-append,
  length-replicate,
}
use noblechat.Server.Address.{
  client_ip, client_ip-unforged, forwarded_parts, split_commas, trim, trim_start, trim_end,
}
use noblechat.Server.Connections.{
  try_acquire_conn, release_conn, open_conns, try_acquire_conn-release_conn,
}
use noblechat.Server.Limiter
use noblechat.Server.Limiter.Rate.{paid, last_time, Ordered, paid-bounded}
use noblechat.Server.Log.{Call, add_all, empty_log, entry, all_events, add_all-newest}
use noblechat.Server.Password.{
  Node, hash_password, verify_password, key_matches, verify_password-hash_password,
}
use noblechat.Server.Lockout.{Options, Hits, delay_for, next_entry, fail, retry_after, succeed}
use noblechat.Server.Lockout.Lock.{fail-retry_after}
use noblechat.Server.Lockout.Capacity.{Lockout_capacity}

abbrev lockout : Options
lockout = record {
  threshold = 2;
  base_delay_ms = 1000;
  max_delay_ms = 5000;
  forget_after_ms = 60000;
  max_entries = 3;
}

abbrev ann : JsString
ann = text "ann"

abbrev one_failure : Hits
one_failure = (ann, record { fails = 1; until = 100; forget_at = 60100 }) ∷ []

fail-retry_after_example :
    ((fail lockout ann 200 one_failure).0 ≡ 1)
    × (retry_after lockout ann 700 (fail lockout ann 200 one_failure).1
        ≡ (1, (fail lockout ann 200 one_failure).1))
unfolding next_entry delay_for get
fail-retry_after_example =
    fail-retry_after lockout (omega arith) (omega arith) ann 200 700 one_failure (omega arith)
      (omega arith)

Lockout_capacity_example :
    (length (fail lockout ann 200 one_failure).1 ≤ 3)
    × (length (retry_after lockout ann 200 one_failure).1 ≤ 3)
    × (length (succeed lockout ann one_failure) ≤ 3)
Lockout_capacity_example = Lockout_capacity lockout ann 200 one_failure (omega arith)

try_acquire_conn-release_conn_example :
    ((try_acquire_conn ann 2 ((ann, 1) ∷ [])).0 ≡ true)
    × (open_conns ann (try_acquire_conn ann 2 ((ann, 1) ∷ [])).1 ≡ 2)
    × (open_conns ann (release_conn ann ((ann, 1) ∷ [])) ≡ 0)
    × (open_conns (text "bob") (try_acquire_conn ann 2 ((ann, 1) ∷ [])).1 ≡ 0)
    × (open_conns (text "bob") (release_conn ann ((ann, 1) ∷ [])) ≡ 0)
unfolding get
try_acquire_conn-release_conn_example =
    try_acquire_conn-release_conn ann (text "bob") 2 ((ann, 1) ∷ []) (λ e. ground (arith, e))

abbrev submit : Limiter.Options
submit = record { capacity = 3; unit = 1000; refill_per_ms = 1 }

paid-bounded_example :
    paid submit ann ((2, 100) ∷ (1, 150) ∷ (1, 160) ∷ (1, 1100) ∷ []) [] * 1000
    ≤ 3 * 1000 + (last_time 100 ((1, 150) ∷ (1, 160) ∷ (1, 1100) ∷ []) - 100) * 1
unfolding get Ordered
paid-bounded_example =
    paid-bounded submit ann 2 100 ((1, 150) ∷ (1, 160) ∷ (1, 1100) ∷ []) [] refl
      (omega arith, (omega arith, (omega arith, tt)))

abbrev three_events : List Call
three_events =
    (1, text "info", text "a", [])
    ∷ (2, text "loud", text "b", [])
    ∷ (3, text "warn", text "c", [])
    ∷ []

add_all-newest_example :
    (add_all 2 three_events empty_log).entries
    ≡ entry 2 (text "info") (text "b") [] 2 ∷ entry 3 (text "warn") (text "c") [] 3 ∷ []
unfolding all_events
add_all-newest_example = add_all-newest 2 three_events

-- A codec and a key derivation with the laws that the passwords need
abbrev pub shift : Bytes → JsString
shift b = map (λ n. n + 37) b

abbrev unshift : JsString → Bytes
unshift s = map (λ n. n - 37) s

pub unshift-shift : (b : Bytes) → unshift (shift b) ≡ b
unshift-shift [] = refl
unshift-shift (n ∷ b) =
    let same : n + 37 - 37 ≡ n = omega arith in
    rw same (ap (λ (rest : Bytes). n ∷ rest) (unshift-shift b))

pub shift-plain : (b : Bytes) → includes (shift b) 36 ≡ false
shift-plain [] = refl
shift-plain (n ∷ b) = ground (arith, shift-plain b)

pub toy_key :
    (pw : JsString) (n : ℕ) (key : Bytes)
    → some (take n (pw ++ zeros n)) ≡ some key
    → length key ≡ n
toy_key pw n key h =
    let size = length-take n (pw ++ zeros n) in
    let long = length-append pw (zeros n) in
    let fill : length (zeros n) ≡ n = length-replicate {A = ℕ} n 0 in
    ground (arith, size, long, fill, h)

abbrev pub node : Node
node = record {
  scrypt = λ pw salt n. some (take n (pw ++ zeros n));
  to_hex = shift;
  from_hex = unshift;
  from_hex-to_hex = unshift-shift;
  to_hex-plain = shift-plain;
  length-scrypt = λ pw salt n key h. toy_key pw n key h;
}

verify_password-hash_password_example :
    (stored : JsString) × (hash_password node (zeros 16) ann ≡ some stored)
    × (verify_password node (text "bob") stored
        ≡ key_matches (node.scrypt (text "bob") (zeros 16) 64) (take 64 (ann ++ zeros 64)))
    × (verify_password node ann stored ≡ true)
verify_password-hash_password_example =
    verify_password-hash_password node (zeros 16) (take 64 (ann ++ zeros 64)) ann (text "bob") refl
      refl

client_ip-unforged_example :
    client_ip 1 (text "10.0.0.1") (text "6.6.6.6, 7.7.7.7" ++ (44 ∷ text " 1.2.3.4"))
    ≡ client_ip 1 (text "10.0.0.1") (text " 1.2.3.4")
unfolding forwarded_parts split_commas trim trim_start trim_end
client_ip-unforged_example =
    client_ip-unforged 1 (text "10.0.0.1") (text "6.6.6.6, 7.7.7.7") (text " 1.2.3.4") (omega arith)
