-- ===== src/Web/Inbox.antt =====
-- apps/web/src/main.js, what an envelope does to the state of a client: onDeliver, verifySender, markSeen,
-- pushMessage, applyReaction, applyUnsend, ensureGroup.
pub mod Verified
use noblechat.Prelude.{
  ℕ, ◌+◌, ◌-◌, ◌==◌, ltb, if◌then◌else◌, List, [], ◌∷◌, ◌++◌, Option, none, some, Bool, true, false,
  not, ◌&&◌, ◌||◌, any, drop, take, map, length, JsString, text, text_eq, ◌===◌, get, put, delete,
  add, includes,
}
use noblechat.Envelope.Hybrid.{SignBundle}
use noblechat.Gateway.Fields.{Value, string_of, text_of}
use noblechat.Web.Trust.{Pins, check_pin, is_unverified}
use noblechat.Web.Messages.{Stored, reactions_after_toggle, can_unsend, trim_history}
use noblechat.Web.Text.{
  FileValue, FileRef, ReplyValue, ReplyRef, normalize_file, normalize_reply, or_default,
}

pub data Kind : Type 0 where
  cover call profile react unsend msg other_kind : Kind

pub record Group : Type 0 where
  pub id : JsString
  pub name : JsString
  pub members : List JsString

-- What a decrypted message has; a string that is missing is empty.
pub record Content : Type 0 where
  pub kind : Kind
  pub from : Value
  pub to : JsString
  pub id : JsString
  pub group : Option Group
  pub body : JsString
  pub file : Option FileValue
  pub reply_to : Option ReplyValue
  pub target : JsString
  pub emoji : JsString
  pub remove : Bool
  pub ts : ℕ

pub record ChatMessage : Type 0 where
  pub is_out : Bool
  pub sender : JsString
  pub body : JsString
  pub ts : ℕ
  pub id : JsString
  pub file : Option FileRef
  pub reply_to : Option ReplyRef
  pub reactions : List (JsString × List JsString)
  pub is_deleted : Bool
  pub unverified : Bool

-- The part of `state` that messages change; `signals` and `profile_updates` are what the calls and the profiles get.
pub record Chat : Type 0 where
  pub user : JsString
  pub own_cards : List SignBundle
  pub contacts : List (JsString × List SignBundle)
  pub pins : Pins
  pub seen : List JsString
  pub blocked : List JsString
  pub groups : List (JsString × Group)
  pub convos : List (JsString × List ChatMessage)
  pub signals : List Content
  pub profile_updates : List (JsString × Content)
  pub received : ℕ

abbrev pub seen_cap : ℕ
seen_cap = 10000

abbrev pub history_per_chat : ℕ
history_per_chat = 300

-- `markSeen`
unfoldable pub mark_seen : JsString → List JsString → List JsString
mark_seen id seen =
    let grown = add id seen in
    if id === []
    then seen
    else if ltb seen_cap (length grown)
    then drop (length grown - seen_cap) grown
    else grown

-- `cards()` in `verifySender`
abbrev pub known_cards : Option (List SignBundle) → List SignBundle
known_cards none = []
known_cards (some cards) = cards

abbrev pub cards_of : JsString → Chat → List SignBundle
cards_of handle c = if handle === c.user then c.own_cards else known_cards (get handle c.contacts)

-- What the server answers when the cards of a sender are fetched: nothing, or the sender's own cards
module _ (fingerprint : List SignBundle → JsString) where
  abbrev pub refreshed_contact : JsString → Option (List SignBundle) → Chat → Chat
  refreshed_contact handle none c = c
  refreshed_contact handle (some []) c = c
  refreshed_contact handle (some (card ∷ cards)) c = record c {
    pins = check_pin c.user handle (fingerprint (card ∷ cards)) c.pins;
    contacts = put handle (card ∷ cards) c.contacts;
  }

  -- `loadMyBundle` behind the card of the device itself
  abbrev pub refreshed_own : SignBundle → Option (List SignBundle) → Chat → Chat
  refreshed_own own none c = c
  refreshed_own own (some cards) c = record c { own_cards = own ∷ cards }

  -- `verifySender`: whether a card of the sender verifies, after one refresh of the cards if none does
  unfoldable pub verify_sender :
      SignBundle → Option (List SignBundle) → JsString → (SignBundle → Bool) → Chat → Bool × Chat
  verify_sender own fetched handle verify c =
      let again =
        if handle === c.user
        then refreshed_own own fetched c
        else refreshed_contact handle fetched c in
      if any verify (cards_of handle c)
      then (true, c)
      else (any verify (cards_of handle again), again)

-- `findMsg` and the change of the message that it finds: the first with that id
unfoldable pub change_message :
    JsString → (ChatMessage → ChatMessage) → List ChatMessage → List ChatMessage
change_message id f [] = []
change_message id f (m ∷ arr) =
    let rest = change_message id f arr in if m.id === id then f m ∷ arr else m ∷ rest

abbrev pub messages_of : JsString → Chat → List ChatMessage
messages_of key c = elim (get key c.convos) [ none ↦ [] | some arr ↦ arr ]

abbrev pub in_convo : JsString → (List ChatMessage → List ChatMessage) → Chat → Chat
in_convo key f c = elim (get key c.convos) [
  | none ↦ c
  | some arr ↦ record c { convos = put key (f arr) c.convos }
]

-- `pushMessage`
unfoldable pub push_message : JsString → ChatMessage → Chat → Chat
push_message key m c =
    let arr = messages_of key c in
    let next = trim_history (arr ++ m ∷ []) history_per_chat in
    let known = not (m.id === []) && any (λ old. old.id === m.id) arr in
    record c { convos = put key (if known then arr else next) c.convos }

-- `applyReaction`, for an emoji that is not empty
abbrev pub reacted : JsString → JsString → Bool → ChatMessage → ChatMessage
reacted emoji who remove m = record m {
  reactions = reactions_after_toggle m.reactions emoji who remove;
}

unfoldable pub apply_reaction : JsString → JsString → Content → Chat → Chat
apply_reaction key sender content c =
    let emoji = take 8 content.emoji in
    let next =
      in_convo key (change_message content.target (reacted emoji sender content.remove)) c in
    if emoji === [] then c else next

-- `applyUnsend`
abbrev pub retracted : JsString → JsString → ChatMessage → ChatMessage
retracted sender user m =
    let gone = record m {
      is_deleted = true;
      file = none;
      reactions = [];
      reply_to = none;
      body = [];
    } in
    if can_unsend (record { sender = m.sender; is_out = m.is_out }) sender user then gone else m

unfoldable pub apply_unsend : JsString → JsString → Content → Chat → Chat
apply_unsend key sender content c =
    in_convo key (change_message content.target (retracted sender c.user)) c

abbrev pub group_name : Group → Option Group → JsString
group_name g none = take 60 (or_default (text "group") g.name)
group_name g (some cur) = take 60 (or_default (or_default (text "group") cur.name) g.name)

abbrev pub group_members : Group → Option Group → List JsString
group_members g none = g.members
group_members g (some cur) = elim g.members [ [] ↦ cur.members | h ∷ members ↦ h ∷ members ]

-- `ensureGroup`; its early return is for a group that would stay the same.
unfoldable pub ensure_group : Group → Chat → Chat
ensure_group g c =
    let cur = get g.id c.groups in
    record c {
      groups =
          put g.id (record { id = g.id; name = group_name g cur; members = group_members g cur })
            c.groups;
    }

abbrev pub with_group : Option Group → Chat → Chat
with_group none c = c
with_group (some g) c = ensure_group g c

-- `convKey`
abbrev pub conv_key : Option Group → JsString → JsString → JsString → JsString
conv_key (some g) sender to me = text "g:" ++ g.id
conv_key none sender to me = if sender === me then or_default (text "unknown") to else sender

abbrev pub reply_of : Option ReplyValue → Option ReplyRef
reply_of none = none
reply_of (some r) = normalize_reply r

abbrev pub file_of : Option FileValue → Option FileRef
file_of none = none
file_of (some f) = some (normalize_file f)

abbrev pub has_file : Option FileValue → Bool
has_file none = false
has_file (some f) = true

-- The end of `onDeliver`, for a message
unfoldable pub receive_message : JsString → JsString → Content → Chat → Chat
receive_message key sender content c =
    let mine = sender === c.user in
    let pushed =
      push_message key
        record {
          is_out = mine;
          sender = sender;
          body = content.body;
          ts = content.ts;
          id = content.id;
          file = file_of content.file;
          reply_to = reply_of content.reply_to;
          reactions = [];
          is_deleted = false;
          unverified = not mine && is_unverified sender c.pins;
        }
        c in
    if (content.body === []) && not (has_file content.file)
    then c
    else if mine
    then pushed
    else record pushed { received = pushed.received + 1 }

-- The kinds of content, of a sender who is not blocked
abbrev pub by_kind : Kind → JsString → JsString → Content → Chat → Chat
by_kind cover key sender content c = c
by_kind call key sender content c =
    if sender === c.user then c else record c { signals = c.signals ++ content ∷ [] }
by_kind profile key sender content c = record c {
  profile_updates = c.profile_updates ++ (sender, content) ∷ [];
}
by_kind react key sender content c = apply_reaction key sender content (with_group content.group c)
by_kind unsend key sender content c = apply_unsend key sender content (with_group content.group c)
by_kind msg key sender content c = receive_message key sender content (with_group content.group c)
by_kind other_kind key sender content c = with_group content.group c

abbrev pub in_group : Option Group → Bool
in_group none = false
in_group (some g) = true

-- `onDeliver` behind the check of the sender; a group without an id is none.
unfoldable pub accept_content : JsString → Content → Chat → Chat
accept_content sender content c =
    let marked = record c { seen = mark_seen content.id c.seen } in
    let mine = sender === c.user in
    if not (content.id === []) && includes c.seen content.id
    then c
    else if not mine && includes c.blocked sender
    then marked
    else if not (in_group content.group) && (not mine && not (content.to === c.user))
    then marked
    else by_kind content.kind (conv_key content.group sender content.to c.user) sender content
        marked

abbrev pub is_cover : Kind → Bool
is_cover cover = true
is_cover _ = false

module _ (fingerprint : List SignBundle → JsString) (own : SignBundle)
    (fetched : Option (List SignBundle)) where
  abbrev pub checked_sender : JsString → Content → Bool × Chat → Chat
  checked_sender sender content (false, c) = c
  checked_sender sender content (true, c) = accept_content sender content c

  abbrev pub from_sender : Option JsString → Content → (SignBundle → Bool) → Chat → Chat
  from_sender none content verify c = c
  from_sender (some []) content verify c = c
  from_sender (some (u ∷ sender)) content verify c =
      checked_sender (u ∷ sender) content
        (verify_sender fingerprint own fetched (u ∷ sender) verify c)

  -- `onDeliver`, on what `openIncoming` gives, or nothing if it throws
  unfoldable pub on_deliver : Option (Content × (SignBundle → Bool)) → Chat → Chat
  on_deliver none c = c
  on_deliver (some (content, verify)) c =
      if is_cover content.kind then c else from_sender (string_of content.from) content verify c
