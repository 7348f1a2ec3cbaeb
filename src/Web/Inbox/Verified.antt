-- ===== src/Web/Inbox/Verified.antt =====
-- Only a message whose signature verifies against a card of its sender changes what a client shows.
use noblechat.Prelude.{
  List, [], ◌∷◌, Option, none, some, Bool, true, false, any, JsString, text_eq, ◌===◌, ◌≡◌, ◌⊎◌,
  inl, inr, refl, sym, branch, Bool-cases, ◌≢◌, arith,
}
use noblechat.Envelope.Hybrid.{SignBundle}
use noblechat.Gateway.Fields.{string_of}
use noblechat.Web.Inbox.{
  Chat, Content, cards_of, refreshed_own, refreshed_contact, verify_sender, checked_sender,
  from_sender, on_deliver, is_cover,
}

-- Everything but the keys of contacts is as before.
abbrev pub OnlyKeys : Chat → Chat → Type 0
OnlyKeys c c' =
    (c'.convos ≡ c.convos)
    × (c'.groups ≡ c.groups)
    × (c'.seen ≡ c.seen)
    × (c'.signals ≡ c.signals)
    × (c'.profile_updates ≡ c.profile_updates)
    × (c'.received ≡ c.received)

module _ (fingerprint : List SignBundle → JsString) (own : SignBundle)
    (fetched : Option (List SignBundle)) where
  refreshed-OnlyKeys :
      (handle : JsString) (o : Option (List SignBundle)) (c : Chat)
      → OnlyKeys c (refreshed_contact fingerprint handle o c)
        × OnlyKeys c (refreshed_own fingerprint own o c)
  refreshed-OnlyKeys handle none c =
      ((refl, refl, refl, refl, refl, refl), (refl, refl, refl, refl, refl, refl))
  refreshed-OnlyKeys handle (some []) c =
      ((refl, refl, refl, refl, refl, refl), (refl, refl, refl, refl, refl, refl))
  refreshed-OnlyKeys handle (some (card ∷ cards)) c =
      ((refl, refl, refl, refl, refl, refl), (refl, refl, refl, refl, refl, refl))

  -- The check of a sender changes keys only, and is right about the cards that are known after it.
  verify_sender-OnlyKeys :
      (handle : JsString) (verify : SignBundle → Bool) (c : Chat)
      → OnlyKeys c (verify_sender fingerprint own fetched handle verify c).1
        × ((verify_sender fingerprint own fetched handle verify c).0
            ≡ any verify
                (cards_of handle (verify_sender fingerprint own fetched handle verify c).1))
  unfolding verify_sender
  verify_sender-OnlyKeys handle verify c =
      let kept = refreshed-OnlyKeys handle fetched c in
      elim (Bool-cases (any verify (cards_of handle c))) [
        | inl known ↦ rw known ((refl, refl, refl, refl, refl, refl), sym known)
        | inr missing ↦ rw missing (branch (OnlyKeys c) (handle === c.user) kept.1 kept.0, refl)
      ]

  -- Whatever envelope arrives: the conversations, groups, seen ids, call signals, profiles and the count of
  -- received messages stay as they were, unless it opened to a content that names a sender, and its
  -- signature verifies against one of the cards that the client holds for that very sender.
  pub on_deliver-verified :
      (content : Content) (verify : SignBundle → Bool) (c : Chat)
      → OnlyKeys c (on_deliver fingerprint own fetched (some (content, verify)) c)
        ⊎ ((sender : JsString) × (string_of content.from ≡ some sender)
            × (sender ≢ [])
            × (any verify
                  (cards_of sender (verify_sender fingerprint own fetched sender verify c).1)
                ≡ true))
  unfolding on_deliver
  on_deliver-verified content verify c = elim (Bool-cases (is_cover content.kind)) [
    | inl dummy ↦ inl (rw dummy (refl, refl, refl, refl, refl, refl))
    | inr real ↦ rw real (named (string_of content.from) refl)
  ]
    where
      checked :
          (sender : JsString) (r : Bool × Chat)
          → OnlyKeys c r.1
          → r.0 ≡ any verify (cards_of sender r.1)
          → OnlyKeys c (checked_sender fingerprint own fetched sender content r)
            ⊎ (any verify (cards_of sender r.1) ≡ true)
      checked sender (false, c') kept right = inl kept
      checked sender (true, c') kept right = inr (sym right)

      named :
          (o : Option JsString)
          → string_of content.from ≡ o
          → OnlyKeys c (from_sender fingerprint own fetched o content verify c)
            ⊎ ((sender : JsString) × (string_of content.from ≡ some sender)
                × (sender ≢ [])
                × (any verify
                      (cards_of sender (verify_sender fingerprint own fetched sender verify c).1)
                    ≡ true))
      named none e = inl (refl, refl, refl, refl, refl, refl)
      named (some []) e = inl (refl, refl, refl, refl, refl, refl)
      named (some (u ∷ sender)) e =
          let (kept, right) = verify_sender-OnlyKeys (u ∷ sender) verify c in
          elim (checked (u ∷ sender) (verify_sender fingerprint own fetched (u ∷ sender) verify c)
            kept right) [
              | inl silent ↦ inl silent
              | inr verified ↦ inr (u ∷ sender, e, (λ h. absurd (ground (arith, h))), verified)
            ]
