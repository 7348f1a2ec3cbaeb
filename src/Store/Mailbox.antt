-- ===== src/Store/Mailbox.antt =====
-- The durable queue of every mailbox.
use noblechat.Prelude.{
  ℕ, zero, suc, leb, if◌then◌else◌, List, [], ◌∷◌, ◌++◌, Bool, true, false, JsString, ◌===◌,
  text_eq, map,
}
use noblechat.Store.Tables.{Db, Envelope, count}

abbrev pub in_mailbox : JsString → Envelope → Bool
in_mailbox mbkey e = e.mbkey === mbkey

-- `pushEnvelope`: false at the cap.
unfoldable pub push_envelope : ℕ → ℕ → JsString → JsString → Db → Bool × Db
push_envelope max_per_mailbox now mbkey env_b64 db =
    let row : Envelope = record { mbkey = mbkey; envelope = env_b64; created_at = now } in
    if leb max_per_mailbox (count (in_mailbox mbkey) db.mailbox)
    then (false, db)
    else (true, record db { mailbox = db.mailbox ++ row ∷ [] })

-- The first `limit` rows of a mailbox, in the order of `id`, and the rows that stay.
unfoldable pub split_mailbox : JsString → ℕ → List Envelope → List Envelope × List Envelope
split_mailbox mbkey limit [] = ([], [])
split_mailbox mbkey zero (e ∷ es) = ([], e ∷ es)
split_mailbox mbkey (suc limit) (e ∷ es) =
    let later = split_mailbox mbkey limit es in
    let same = split_mailbox mbkey (suc limit) es in
    if in_mailbox mbkey e then (e ∷ later.0, later.1) else (same.0, e ∷ same.1)

-- `drainEnvelopes`
unfoldable pub drain_envelopes : JsString → ℕ → Db → List JsString × Db
drain_envelopes mbkey limit db =
    let split = split_mailbox mbkey limit db.mailbox in
    (map (λ e. e.envelope) split.0, record db { mailbox = split.1 })
