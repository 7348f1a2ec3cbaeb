-- ===== src/Router/Listeners.antt =====
-- Who is subscribed to a mailbox after a subscription and after its end.
use noblechat.Prelude.{
  ℕ, if◌then◌else◌, List, [], ◌∷◌, Option, none, some, Bool, true, not, keep, JsString, text_eq,
  ℕ_eq, Bytes, ◌==◌, ==_iff, ◌===◌, ===_iff, get, add, includes, get-put, includes-snoc,
  includes-keep_others, ◌≡◌, ◌≢◌, ◌⊎◌, inl, inr, refl, subst, arith, Bool-cases,
}
use noblechat.Router.{MailboxStore, Mixnet, mailbox_key, callbacks, subscribe, unsubscribe, flush}

includes-add_cases :
    (ws w : ℕ) (xs : List ℕ) → includes (add ws xs) w ≡ true → (includes xs w ≡ true) ⊎ (w ≡ ws)
includes-add_cases ws w xs h = ground (arith, includes-snoc ws w xs, h, ==_iff ws w)

includes-others :
    (ws w : ℕ) (xs : List ℕ)
    → includes (keep (λ c. not (c == ws)) xs) w ≡ true
    → (includes xs w ≡ true) × (w ≢ ws)
includes-others ws w xs h = ground (arith, includes-keep_others ws w xs, h, ==_iff w ws)

module _ {S : Type 0} (store : MailboxStore S) (to_b64 : Bytes → JsString) (ready : ℕ → Bool) where
  abbrev pub is_subscribed : ℕ → JsString → Mixnet S → Bool
  is_subscribed ws k net = includes (callbacks store to_b64 ready k net) ws

  abbrev pub set_of : Option (List ℕ) → List ℕ
  set_of o = elim o [ none ↦ [] | some cbs ↦ cbs ]

  flush-subs :
      (cb : ℕ) (envs : List Bytes) (net : Mixnet S)
      → (flush store to_b64 ready cb envs net).subs ≡ net.subs
  unfolding flush
  flush-subs cb [] net = refl
  flush-subs cb (env ∷ envs) net = flush-subs cb envs _

  -- Behind `unsub`, only the others listen under its key.
  pub is_subscribed-unsubscribe :
      (ws w : ℕ) (key k : JsString) (net : Mixnet S)
      → is_subscribed w k (unsubscribe store to_b64 ready key ws net) ≡ true
      → (is_subscribed w k net ≡ true) × ((key ≡ k) → w ≢ ws)
  unfolding unsubscribe
  is_subscribed-unsubscribe ws w key k net heard =
      let cbs = keep (λ c. not (c == ws)) (callbacks store to_b64 ready key net) in
      let found = subst (λ o. includes (set_of o) w ≡ true) (get-put key k cbs net.subs) heard in
      elim (Bool-cases (key === k)) [
        | inl same ↦
            let here =
              subst
                (λ (b : Bool). includes (set_of (if b then some cbs else get k net.subs)) w ≡ true)
                same found in
            let (kept, other) = includes-others ws w (callbacks store to_b64 ready key net) here in
            (
              subst (λ (j : JsString). is_subscribed w j net ≡ true) ((===_iff key k).0 same) kept,
              λ _. other,
            )
        | inr differs ↦ (
          subst (λ (b : Bool). includes (set_of (if b then some cbs else get k net.subs)) w ≡ true)
              differs found,
          λ e. absurd (ground (arith, differs, (===_iff key k).1 e)),
        )
      ]

  pub is_subscribed-subscribe :
      (provider_id mailbox : Bytes) (ws w : ℕ) (k : JsString) (net : Mixnet S)
      → is_subscribed w k (subscribe store to_b64 ready provider_id mailbox ws net) ≡ true
      → (is_subscribed w k net ≡ true) ⊎ ((w ≡ ws) × (mailbox_key to_b64 provider_id mailbox ≡ k))
  unfolding subscribe
  is_subscribed-subscribe provider_id mailbox ws w k net heard =
      let key = mailbox_key to_b64 provider_id mailbox in
      let cbs = add ws (callbacks store to_b64 ready key net) in
      let found =
        subst (λ (m : List (JsString × List ℕ)). includes (set_of (get k m)) w ≡ true)
          (flush-subs ws _ _) heard in
      let found = subst (λ o. includes (set_of o) w ≡ true) (get-put key k cbs net.subs) found in
      elim (Bool-cases (key === k)) [
        | inl same ↦
            let here =
              subst
                (λ (b : Bool). includes (set_of (if b then some cbs else get k net.subs)) w ≡ true)
                same found in
            elim (includes-add_cases ws w (callbacks store to_b64 ready key net) here) [
              | inl kept ↦ inl (
                  subst (λ (j : JsString). is_subscribed w j net ≡ true) ((===_iff key k).0 same)
                    kept)
              | inr is_new ↦ inr (is_new, (===_iff key k).0 same)
            ]
        | inr differs ↦ inl (
            subst
              (λ (b : Bool). includes (set_of (if b then some cbs else get k net.subs)) w ≡ true)
              differs found)
      ]
