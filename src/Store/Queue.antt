-- ===== src/Store/Queue.antt =====
-- Every mailbox is a bounded queue, first in, first out.
use noblechat.Prelude.{
  ℕ, zero, suc, leb, if◌then◌else◌, List, [], ◌∷◌, ◌++◌, Bool, true, false, JsString, ◌≡◌, ◌≢◌,
  arith, refl, ===_iff, ===_refl, text_eq, map, length, take, drop,
}
use noblechat.Store.Tables.{Db, Envelope, count}
use noblechat.Store.Mailbox.{push_envelope, drain_envelopes, split_mailbox, in_mailbox}

-- What is queued for a mailbox, oldest first
unfoldable pub queue : JsString → List Envelope → List JsString
queue k [] = []
queue k (e ∷ es) = let rest = queue k es in if in_mailbox k e then e.envelope ∷ rest else rest

-- A bounded queue that refuses what does not fit
unfoldable pub offer : ℕ → JsString → List JsString → Bool × List JsString
offer cap env q = if leb cap (length q) then (false, q) else (true, q ++ env ∷ [])

length-queue : (k : JsString) (es : List Envelope) → count (in_mailbox k) es ≡ length (queue k es)
unfolding queue count
length-queue k [] = refl
length-queue k (e ∷ es) = ground (arith, length-queue k es)

queue-append :
    (k : JsString) (es : List Envelope) (e : Envelope)
    → queue k (es ++ e ∷ [])
      ≡ (if in_mailbox k e then queue k es ++ e.envelope ∷ [] else queue k es)
unfolding queue
queue-append k [] e = ground arith
queue-append k (d ∷ es) e = ground (arith, queue-append k es e)

-- `pushEnvelope` is the bounded queue's `offer` on the mailbox, and leaves every other one alone.
pub push_envelope-queue :
    (cap now : ℕ) (k env : JsString) (db : Db) (j : JsString)
    → k ≢ j
    → ((push_envelope cap now k env db).0 ≡ (offer cap env (queue k db.mailbox)).0)
      × (queue k (push_envelope cap now k env db).1.mailbox
          ≡ (offer cap env (queue k db.mailbox)).1)
      × (queue j (push_envelope cap now k env db).1.mailbox ≡ queue j db.mailbox)
unfolding push_envelope offer
push_envelope-queue cap now k env db j apart =
    let row : Envelope = record { mbkey = k; envelope = env; created_at = now } in
    let here = queue-append k db.mailbox row in
    let there = queue-append j db.mailbox row in
    ground (arith, here, there, length-queue k db.mailbox, ===_iff k j, ===_refl k)

texts : List Envelope → List JsString
texts es = map (λ e. e.envelope) es

split_mailbox-here :
    (k : JsString) (limit : ℕ) (es : List Envelope)
    → (texts (split_mailbox k limit es).0 ≡ take limit (queue k es))
      × (queue k (split_mailbox k limit es).1 ≡ drop limit (queue k es))
unfolding split_mailbox queue texts
split_mailbox-here k zero [] = (refl, refl)
split_mailbox-here k (suc limit) [] = (refl, refl)
split_mailbox-here k zero (e ∷ es) = (refl, refl)
split_mailbox-here k (suc limit) (e ∷ es) =
    let later = split_mailbox-here k limit es in
    let same = split_mailbox-here k (suc limit) es in ground (arith, later, same)

split_mailbox-there :
    (k j : JsString) (limit : ℕ) (es : List Envelope)
    → k ≢ j
    → queue j (split_mailbox k limit es).1 ≡ queue j es
unfolding split_mailbox queue
split_mailbox-there k j limit [] apart = refl
split_mailbox-there k j zero (e ∷ es) apart = refl
split_mailbox-there k j (suc limit) (e ∷ es) apart =
    let later = split_mailbox-there k j limit es apart in
    let same = split_mailbox-there k j (suc limit) es apart in
    ground (arith, later, same, ===_iff e.mbkey k, ===_iff e.mbkey j)

-- `drainEnvelopes` hands out the oldest envelopes of the mailbox, at most `limit` of them and in their
-- order; exactly the others stay queued, and every other mailbox stays as it was.
pub drain_envelopes-queue :
    (k : JsString) (limit : ℕ) (db : Db) (j : JsString)
    → k ≢ j
    → ((drain_envelopes k limit db).0 ≡ take limit (queue k db.mailbox))
      × (queue k (drain_envelopes k limit db).1.mailbox ≡ drop limit (queue k db.mailbox))
      × (queue j (drain_envelopes k limit db).1.mailbox ≡ queue j db.mailbox)
unfolding drain_envelopes texts
drain_envelopes-queue k limit db j apart =
    let here = split_mailbox-here k limit db.mailbox in
    (here.0, here.1, split_mailbox-there k j limit db.mailbox apart)
