-- ===== src/Tests/Client.antt =====
-- The web client's helpers.
use noblechat.Prelude.{
  [], ◌∷◌, none, some, true, false, List, Bool, JsString, text, text_eq, any, get, ◌==◌, byte_at,
  ◌≡◌, ◌≢◌, ◌⊎◌, refl,
}
use noblechat.Envelope.Hybrid.{SignBundle}
use noblechat.Gateway.Fields.{Value, string_of}
use noblechat.Web.Trust.{Pins, Follows, check_pins, check_pins-Follows}
use noblechat.Web.Inbox.{Kind, Content, Chat, cards_of, verify_sender, on_deliver}
use noblechat.Web.Inbox.Verified.{OnlyKeys, on_deliver-verified}
use noblechat.Web.Pins.{Pin, merge_synced_pin, merge_synced_pin-keeps_local}

abbrev ours : Pin
ours = record { fp = text "aa"; ok = true }

abbrev theirs : Pin
theirs = record { fp = text "bb"; ok = true }

abbrev doubted : Pin
doubted = record { fp = text "aa"; ok = false }

merge_synced_pin-keeps_local_example : (doubted.fp ≡ text "aa") × (doubted.ok ≡ false)
unfolding merge_synced_pin
merge_synced_pin-keeps_local_example = merge_synced_pin-keeps_local ours theirs doubted refl

abbrev pins : Pins
pins = (text "ann", ours) ∷ []

check_pins-Follows_example : Follows ours (
    get
      (text "ann")
      (check_pins (text "me") ((text "bob", text "cc") ∷ (text "ann", text "bb") ∷ []) pins))
unfolding get
check_pins-Follows_example =
    check_pins-Follows (text "me") (text "ann")
      ((text "bob", text "cc") ∷ (text "ann", text "bb") ∷ []) ours pins refl

abbrev ann_key : SignBundle
ann_key = record { ed = 1 ∷ []; dsa = 2 ∷ [] }

abbrev my_key : SignBundle
my_key = record { ed = 3 ∷ []; dsa = 4 ∷ [] }

abbrev hello : Content
hello = record {
  kind = Kind.msg;
  from = Value.string (text "ann");
  to = text "me";
  id = text "m1";
  group = none;
  body = text "hello";
  file = none;
  reply_to = none;
  target = [];
  emoji = [];
  remove = false;
  ts = 5;
}

abbrev chat : Chat
chat = record {
  user = text "me";
  own_cards = my_key ∷ [];
  contacts = (text "ann", ann_key ∷ []) ∷ [];
  pins = pins;
  seen = [];
  blocked = [];
  groups = [];
  convos = [];
  signals = [];
  profile_updates = [];
  received = 0;
}

abbrev first_byte : List SignBundle → JsString
first_byte [] = []
first_byte (card ∷ cards) = card.ed

abbrev signed_by_ann : SignBundle → Bool
signed_by_ann card = byte_at card.ed 0 == 1

on_deliver-verified_example :
    OnlyKeys chat (on_deliver first_byte my_key none (some (hello, signed_by_ann)) chat)
    ⊎ ((sender : JsString) × (string_of hello.from ≡ some sender)
        × (sender ≢ [])
        × (any signed_by_ann
              (cards_of sender (verify_sender first_byte my_key none sender signed_by_ann chat).1)
            ≡ true))
on_deliver-verified_example = on_deliver-verified first_byte my_key none hello signed_by_ann chat
