-- ===== src/Server/Log.antt =====
-- apps/server/log.js: the ring of the admin panel's events.
use noblechat.Prelude.{
  ℕ, zero, suc, ◌+◌, ◌-◌, ◌≤◌, ltb, if◌then◌else◌, List, [], ◌∷◌, ◌++◌, JsString, text, text_eq,
  includes, keep, length, take, drop, ◌≡◌, arith, refl, sym, subst, length-append, length-drop,
  drop_add, append-nil, append_assoc, Bool-cases, inl, inr,
}

pub record Event : Type 0 where
  pub seq : ℕ
  pub ts : ℕ
  pub level : JsString
  pub event : JsString
  pub detail : JsString

-- `entries` and `seq`
pub record Log : Type 0 where
  pub entries : List Event
  pub seq : ℕ

abbrev pub log_levels : List JsString
log_levels = text "info" ∷ text "warn" ∷ text "error" ∷ []

abbrev pub empty_log : Log
empty_log = record { entries = []; seq = 0 }

-- The entry that `add` pushes
abbrev pub entry : ℕ → JsString → JsString → JsString → ℕ → Event
entry now level event detail seq = record {
  seq = seq;
  ts = now;
  level = if includes log_levels level then level else text "info";
  event = take 60 event;
  detail = take 200 detail;
}

-- `entries.shift()` over the limit
abbrev pub shift_over : ℕ → List Event → List Event
shift_over limit events = if ltb limit (length events) then drop 1 events else events

-- `add`, with the limit of `createLog`
unfoldable pub add_event : ℕ → ℕ → JsString → JsString → JsString → Log → ℕ × Log
add_event limit now level event detail log =
    let seq = log.seq + 1 in
    (
      seq,
      record {
        entries = shift_over limit (log.entries ++ entry now level event detail seq ∷ []);
        seq = seq;
      },
    )

-- `list`
unfoldable pub list_since : ℕ → Log → List Event
list_since since log = keep (λ e. ltb since e.seq) log.entries

-- One call of `add`: the time, the level, the event and the detail
abbrev pub Call : Type 0
Call = ℕ × JsString × JsString × JsString

unfoldable pub add_all : ℕ → List Call → Log → Log
add_all limit [] log = log
add_all limit ((now, level, event, detail) ∷ calls) log =
    add_all limit calls (add_event limit now level event detail log).1

-- What a log without a limit would hold, numbered from `seq + 1` on
unfoldable pub all_events : List Call → ℕ → List Event
all_events [] seq = []
all_events ((now, level, event, detail) ∷ calls) seq =
    entry now level event detail (seq + 1) ∷ all_events calls (seq + 1)

drop-append_le : (n : ℕ) (xs ys : List Event) → n ≤ length xs → drop n (xs ++ ys) ≡ drop n xs ++ ys
drop-append_le zero xs ys h = refl
drop-append_le (suc n) [] ys h = elim h [ ]
drop-append_le (suc n) (x ∷ xs) ys h = drop-append_le n xs ys (omega arith)

length-shift_over :
    (limit : ℕ) (xs : List Event) (e : Event)
    → length xs ≤ limit
    → length (shift_over limit (xs ++ e ∷ [])) ≤ limit
length-shift_over limit xs e h =
    ground (arith, length-append xs (e ∷ []), length-drop 1 (xs ++ e ∷ []))

-- One `add` on a log that holds the newest of `held`
shift_newest :
    (limit : ℕ) (held : List Event) (e : Event)
    → shift_over limit (drop (length held - limit) held ++ e ∷ [])
      ≡ drop (length (held ++ e ∷ []) - limit) (held ++ e ∷ [])
shift_newest limit held e =
    let n = length held - limit in
    let xs = held ++ e ∷ [] in
    let size = length-append held (e ∷ []) in
    let short = length-drop n xs in
    rw (← drop-append_le n held (e ∷ []) (omega arith))
      (elim (Bool-cases (ltb limit (length (drop n xs)))) [
        | inl over ↦
            let more : length xs - limit ≡ n + 1 = ground (arith, size, short) in
            rw (over, more) (sym (drop_add n 1 xs))
        | inr fits ↦
            let same : length xs - limit ≡ n = ground (arith, size, short) in rw (fits, same) refl
      ])

newest_from :
    (limit : ℕ) (calls : List Call) (held : List Event) (seq : ℕ)
    → (add_all limit calls record { entries = drop (length held - limit) held; seq = seq }).entries
      ≡ drop (length (held ++ all_events calls seq) - limit) (held ++ all_events calls seq)
unfolding add_all add_event all_events
newest_from limit [] held seq = rw (append-nil held) refl
newest_from limit ((now, level, event, detail) ∷ calls) held seq =
    let e = entry now level event detail (seq + 1) in
    let later = newest_from limit calls (held ++ e ∷ []) (seq + 1) in
    let events = all_events calls (seq + 1) in
    let nested : (held ++ e ∷ []) ++ events ≡ held ++ (e ∷ events) =
      append_assoc held (e ∷ []) events in
    let P : List Event → Type 0 = λ xs.
      (add_all limit calls record {
        entries = drop (length (held ++ e ∷ []) - limit) (held ++ e ∷ []);
        seq = seq + 1;
      }).entries
      ≡ drop (length xs - limit) xs in
    let Q : List Event → Type 0 = λ xs.
      (add_all limit calls record { entries = xs; seq = seq + 1 }).entries
      ≡ drop (length (held ++ (e ∷ events)) - limit) (held ++ (e ∷ events)) in
    subst Q (sym (shift_newest limit held e)) (subst P nested later)

none_over : (limit : ℕ) → ◌≡◌ {A = List Event} (drop (0 - limit) []) []
none_over limit = let zero_left : 0 - limit ≡ 0 = omega arith in rw zero_left refl

-- After any calls of `add` on a new log, the entries are the newest `limit` ones of all that were
-- added, oldest first, each with its number.
pub add_all-newest :
    (limit : ℕ) (calls : List Call)
    → (add_all limit calls empty_log).entries
      ≡ drop (length (all_events calls 0) - limit) (all_events calls 0)
add_all-newest limit calls =
    let P : List Event → Type 0 = λ xs.
      (add_all limit calls record { entries = xs; seq = 0 }).entries
      ≡ drop (length (all_events calls 0) - limit) (all_events calls 0) in
    subst P (none_over limit) (newest_from limit calls [] 0)
