-- ===== src/Replay.antt =====
-- packages/net/src/replay.js: the anti-replay guard of a mix node.
pub mod Window
pub mod Sound
pub mod Bound
use noblechat.Prelude.{
  ℕ, ◌+◌, leb, if◌then◌else◌, List, [], ◌∷◌, Option, none, some, Bool, true, false, ◌||◌, length,
  Eq, includes,
}

-- `makeReplayGuard`'s options, and its variables `cur`, `prev` and `epochStart`. A set's order is never
-- read, so a new tag stands first.
pub record Options : Type 0 where
  pub epoch_ms : ℕ
  pub max_per_epoch : ℕ

pub record Guard {ℓ} (T : Type ℓ) : Type ℓ where
  pub cur : List T
  pub prev : List T
  pub epoch_start : Option ℕ

abbrev pub fresh_guard {ℓ} : {T : Type ℓ} → Guard T
fresh_guard = record { cur = []; prev = []; epoch_start = none }

-- `size()`
unfoldable pub size {ℓ} : {T : Type ℓ} → Guard T → ℕ
size g = length g.cur + length g.prev

-- `epochStart`, or now if it is still null
start_of : ℕ → Option ℕ → ℕ
start_of now none = now
start_of now (some start) = start

module _ {ℓ} {T : Type ℓ} ⦃e : Eq T⦄ (o : Options) where
  -- `rotate(now)`
  rotate : ℕ → Guard T → Guard T
  rotate now g = record { cur = []; prev = g.cur; epoch_start = some now }

  -- The first two lines of `seen`. `now - start >= epochMs` is over signed numbers.
  advance : ℕ → Guard T → Guard T
  unfolding rotate start_of
  advance now g =
      let start = start_of now g.epoch_start in
      if leb (start + o.epoch_ms) now || leb o.max_per_epoch (length g.cur)
      then rotate now g
      else record g { epoch_start = some start }

  -- `seen(tag, now)`: true for a replay.
  unfoldable pub seen : T → ℕ → Guard T → Bool × Guard T
  unfolding advance
  seen tag now g =
      let g' = advance now g in
      if includes g'.cur tag || includes g'.prev tag
      then (true, g')
      else (false, record g' { cur = tag ∷ g'.cur })

  -- The state after a list of calls of `seen`, each with its time.
  unfoldable pub run : List (T × ℕ) → Guard T → Guard T
  run [] g = g
  run ((tag, now) ∷ calls) g = run calls (seen tag now g).1
