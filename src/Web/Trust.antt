-- ===== src/Web/Trust.antt =====
-- apps/web/src/main.js, the pins of contacts' keys: checkPin, markVerified, isUnverified.
use noblechat.Prelude.{
  if◌then◌else◌, List, [], ◌∷◌, Option, none, some, Bool, true, false, not, ◌||◌, JsString, text_eq,
  ◌===◌, ===_iff, get, put, get-put, branch, ◌≡◌, inl, inr, refl, arith, ap, sym, ◌∙◌, subst,
  Bool-cases,
}
use noblechat.Web.Pins.{Pin}

abbrev pub Pins : Type 0
Pins = List (JsString × Pin)

-- A known contact: the same keys keep the pin, others need a confirmation.
abbrev pub by_pin : JsString → JsString → Pins → Option Pin → Pins
by_pin handle fp pins none = put handle (record { fp = fp; ok = true }) pins
by_pin handle fp pins (some cur) =
    if cur.fp === fp then pins else put handle (record { fp = fp; ok = false }) pins

-- `checkPin`, on the fingerprint of the cards, which is empty without cards
unfoldable pub check_pin : JsString → JsString → JsString → Pins → Pins
check_pin user handle fp pins =
    if handle === [] || handle === user
    then pins
    else if fp === []
    then pins
    else by_pin handle fp pins (get handle pins)

-- `markVerified`
unfoldable pub mark_verified : JsString → Pins → Pins
mark_verified handle pins = elim (get handle pins) [
  | none ↦ pins
  | some p ↦ put handle (record p { ok = true }) pins
]

abbrev pub awaits : Option Pin → Bool
awaits none = false
awaits (some p) = not p.ok

-- `isUnverified`
unfoldable pub is_unverified : JsString → Pins → Bool
is_unverified handle pins = awaits (get handle pins)

-- Key cards that come in one after the other, as handles with fingerprints
unfoldable pub check_pins : JsString → List (JsString × JsString) → Pins → Pins
check_pins user [] pins = pins
check_pins user ((handle, fp) ∷ cards) pins = check_pins user cards (check_pin user handle fp pins)

-- What a pin may become without the user: it stays, or it is in doubt.
abbrev pub Follows : Pin → Option Pin → Type 0
Follows p none = ⊥
Follows p (some q) = (q.ok ≡ true) → (q.fp ≡ p.fp) × (p.ok ≡ true)

by_pin-Follows :
    (handle fp other : JsString) (p : Pin) (pins : Pins) (o : Option Pin)
    → get handle pins ≡ o
    → Follows p (get other pins)
    → Follows p (get other (by_pin handle fp pins o))
by_pin-Follows handle fp other p pins o found follows = elim (Bool-cases (handle === other)) [
  | inl same ↦ here o ((===_iff handle other).0 same) found
  | inr differs ↦ elsewhere o differs
]
  where
    stored :
        (v : Pin) (b : Bool)
        → (handle === other) ≡ b
        → get other (put handle v pins) ≡ (if b then some v else get other pins)
    stored v b e =
        get-put handle other v pins ∙ ap (λ (t : Bool). if t then some v else get other pins) e

    elsewhere :
        (o : Option Pin)
        → (handle === other) ≡ false
        → Follows p (get other (by_pin handle fp pins o))
    elsewhere none e =
        subst (Follows p) (sym (stored (record { fp = fp; ok = true }) false e)) follows
    elsewhere (some cur) e =
        branch (λ (m : Pins). Follows p (get other m)) (cur.fp === fp) follows
          (subst (Follows p) (sym (stored (record { fp = fp; ok = false }) false e)) follows)

    here :
        (o : Option Pin)
        → handle ≡ other
        → get handle pins ≡ o
        → Follows p (get other (by_pin handle fp pins o))
    here none e known =
        absurd (subst (Follows p) (ap (λ (k : JsString). get k pins) (sym e) ∙ known) follows)
    here (some cur) e known =
        branch (λ (m : Pins). Follows p (get other m)) (cur.fp === fp) follows
          (subst (Follows p)
            (sym (stored (record { fp = fp; ok = false }) true ((===_iff handle other).1 e)))
            (λ h. absurd (ground (arith, h))))

check_pin-Follows :
    (user handle fp other : JsString) (p : Pin) (pins : Pins)
    → Follows p (get other pins)
    → Follows p (get other (check_pin user handle fp pins))
unfolding check_pin
check_pin-Follows user handle fp other p pins follows =
    let P : Pins → Type 0 = λ m. Follows p (get other m) in
    branch P (handle === [] || handle === user) follows (
      branch P (fp === []) follows
        (by_pin-Follows handle fp other p pins (get handle pins) refl follows))

-- Trust on first use: whatever key cards the server hands out for whatever handles, in any order, a contact whose
-- keys were pinned keeps a pin; and if that pin still counts as verified without the user having
-- confirmed anything, it is the fingerprint that was pinned, and it was verified then.
pub check_pins-Follows :
    (user other : JsString) (cards : List (JsString × JsString)) (p : Pin) (pins : Pins)
    → get other pins ≡ some p
    → Follows p (get other (check_pins user cards pins))
unfolding check_pins
check_pins-Follows user other cards p pins found =
    from cards pins (subst (Follows p) (sym found) (λ trusted. (refl, trusted)))
  where
    from :
        (cards : List (JsString × JsString)) (pins : Pins)
        → Follows p (get other pins)
        → Follows p (get other (check_pins user cards pins))
    from [] pins follows = follows
    from ((handle, fp) ∷ cards) pins follows =
        from cards (check_pin user handle fp pins)
          (check_pin-Follows user handle fp other p pins follows)
