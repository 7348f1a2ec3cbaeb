-- ===== src/Web/Messages.antt =====
-- apps/web/src/message-utils.js, group-utils.js and card-utils.js: reactions, unsending, the history, new
-- members of a group, and the cards of a bundle.
use noblechat.Prelude.{
  ℕ, ◌+◌, ◌-◌, ltb, leb, if◌then◌else◌, List, [], ◌∷◌, ◌++◌, Option, none, some, Bool, true, false,
  not, ◌&&◌, ◌||◌, keep, drop, length, JsString, text_eq, ◌===◌, ===_iff, ===_refl, get, put,
  delete, get-put, get-delete, includes, includes-snoc, includes-keep_others, ◌≡◌, ◌≢◌, ◌↔◌, ◌⊎◌,
  refl, sym, arith, Bool-cases, inl, inr, ap, subst,
}

abbrev pub or_none : Option (List JsString) → List JsString
or_none none = []
or_none (some who) = who

-- `out[emoji] || []`
abbrev pub reactors : JsString → List (JsString × List JsString) → List JsString
reactors emoji reactions = or_none (get emoji reactions)

-- `if (next.length) out[emoji] = next; else delete out[emoji];`
abbrev pub set_reactors :
    JsString → List JsString → List (JsString × List JsString) → List (JsString × List JsString)
set_reactors emoji [] reactions = delete emoji reactions
set_reactors emoji (w ∷ next) reactions = put emoji (w ∷ next) reactions

-- `next` in `reactionsAfterToggle`
abbrev pub toggled : List JsString → JsString → Bool → List JsString
toggled arr who remove =
    if remove
    then keep (λ h. not (h === who)) arr
    else if includes arr who
    then arr
    else arr ++ who ∷ []

-- `reactionsAfterToggle`
unfoldable pub reactions_after_toggle :
    List (JsString × List JsString) → JsString → JsString → Bool → List (JsString × List JsString)
reactions_after_toggle reactions emoji who remove =
    set_reactors emoji (toggled (reactors emoji reactions) who remove) reactions

-- What `canUnsend` reads of a message; an empty sender counts as none.
pub record Stored : Type 0 where
  pub sender : JsString
  pub is_out : Bool

-- `message.sender || (message.dir === "out" ? selfHandle : null)`, where the empty string stands for null
abbrev pub origin_of : Stored → JsString → JsString
origin_of m self_handle =
    if m.sender === [] then (if m.is_out then self_handle else []) else m.sender

-- `canUnsend`
unfoldable pub can_unsend : Stored → JsString → JsString → Bool
can_unsend m from_handle self_handle =
    (origin_of m self_handle === []) || (from_handle === origin_of m self_handle)

-- `trimHistory`
unfoldable pub trim_history {ℓ} : {A : Type ℓ} → List A → ℕ → List A
trim_history arr cap = if ltb cap (length arr) then drop (length arr - cap) arr else arr

-- `shouldStickToBottom`, on whole pixels
unfoldable pub should_stick_to_bottom : ℕ → ℕ → ℕ → ℕ → Bool
should_stick_to_bottom scroll_top scroll_height client_height threshold =
    leb scroll_height (scroll_top + client_height + threshold)

-- `addedMembers`; what is not an array is an empty one.
unfoldable pub added_members : List JsString → List JsString → List JsString
added_members old next = keep (λ h. not (h === []) && not (includes old h)) next

-- `ownDevicesOnly`, on cards as `handle`, with `toLowerCase`
unfoldable pub own_devices_only {ℓ} :
    {Card : Type ℓ}
    → (JsString → JsString)
    → (Card → JsString)
    → List Card
    → JsString
    → List Card × ℕ
own_devices_only to_lower_case handle_of all handle =
    let mine = keep (λ c. to_lower_case (handle_of c) === to_lower_case handle) all in
    (mine, length all - length mine)

includes-toggled :
    (arr : List JsString) (who x : JsString) (remove : Bool)
    → includes (toggled arr who remove) x ≡ (if who === x then not remove else includes arr x)
includes-toggled arr who x true =
    ground (arith, includes-keep_others who x arr, ===_iff who x, ===_iff x who)
includes-toggled arr who x false = ground (arith, includes-snoc who x arr, ===_iff who x, has)
  where
    has : (who === x) ≡ true → includes arr who ≡ includes arr x
    has e = ap (includes arr) ((===_iff who x).0 e)

reactors-set_reactors :
    (emoji other : JsString) (next : List JsString) (reactions : List (JsString × List JsString))
    → reactors other (set_reactors emoji next reactions)
      ≡ (if emoji === other then next else reactors other reactions)
reactors-set_reactors emoji other [] reactions =
    subst (λ o. or_none o ≡ (if emoji === other then [] else reactors other reactions))
      (sym (get-delete emoji other reactions)) (either (emoji === other))
  where
    either :
        (b : Bool)
        → or_none (if b then none else get other reactions)
          ≡ (if b then [] else reactors other reactions)
    either true = refl
    either false = refl
reactors-set_reactors emoji other (w ∷ next) reactions =
    subst (λ o. or_none o ≡ (if emoji === other then w ∷ next else reactors other reactions))
      (sym (get-put emoji other (w ∷ next) reactions)) (either (emoji === other))
  where
    either :
        (b : Bool)
        → or_none (if b then some (w ∷ next) else get other reactions)
          ≡ (if b then w ∷ next else reactors other reactions)
    either true = refl
    either false = refl

set_reactors-ne-nil :
    (emoji : JsString) (next : List JsString) (reactions : List (JsString × List JsString))
    → get emoji (set_reactors emoji next reactions) ≢ some []
set_reactors-ne-nil emoji [] reactions =
    ground (arith, get-delete emoji emoji reactions, ===_refl emoji)
set_reactors-ne-nil emoji (w ∷ next) reactions =
    ground (arith, get-put emoji emoji (w ∷ next) reactions, ===_refl emoji)

-- After a toggle, the one who reacted stands under that emoji exactly if the reaction was added; nobody else's
-- reaction changes, under this emoji or another, and no emoji is left with an empty list by it.
pub reactions_after_toggle-includes :
    (reactions : List (JsString × List JsString)) (emoji other who x : JsString) (remove : Bool)
    → (includes (reactors other (reactions_after_toggle reactions emoji who remove)) x ≡ (
        if (emoji === other) && (who === x)
        then not remove
        else includes (reactors other reactions) x))
      × (get emoji (reactions_after_toggle reactions emoji who remove) ≢ some [])
unfolding reactions_after_toggle
reactions_after_toggle-includes reactions emoji other who x remove =
    let next = toggled (reactors emoji reactions) who remove in
    (
      rw (reactors-set_reactors emoji other next reactions)
          (by_emoji (Bool-cases (emoji === other))),
      set_reactors-ne-nil emoji next reactions,
    )
  where
    by_emoji :
        ((emoji === other) ≡ true) ⊎ ((emoji === other) ≡ false)
        → includes
            (if emoji === other
              then toggled (reactors emoji reactions) who remove
              else reactors other reactions)
            x
          ≡ (if (emoji === other) && (who === x)
              then not remove
              else includes (reactors other reactions) x)
    by_emoji (inr e) = rw e refl
    by_emoji (inl e) = rw e (
        subst
          (λ (o : JsString).
            includes (toggled (reactors emoji reactions) who remove) x
            ≡ (if who === x then not remove else includes (reactors o reactions) x))
          ((===_iff emoji other).0 e) (includes-toggled (reactors emoji reactions) who x remove))

-- A message with a known sender is only unsent by that sender; one of ours that names no sender only by us.
pub can_unsend_iff :
    (m : Stored) (from_handle self_handle : JsString)
    → self_handle ≢ []
    → ((can_unsend m from_handle self_handle ≡ true)
        ↔ ((origin_of m self_handle ≡ []) ⊎ (from_handle ≡ origin_of m self_handle)))
      × ((origin_of m self_handle ≡ []) ↔ ((m.sender ≡ []) × (m.is_out ≡ false)))
unfolding can_unsend
can_unsend_iff m from_handle self_handle named = ground (
  arith,
  ===_iff (origin_of m self_handle) [],
  ===_iff from_handle (origin_of m self_handle),
  ===_iff m.sender [],
  named,
)
