-- ===== src/Web/Pins.antt =====
-- apps/web/src/pin-utils.js, mergeSyncedPin: a local pin and one synced from another device.
use noblechat.Prelude.{
  [], ◌∷◌, Option, none, some, Bool, true, false, ◌&&◌, ◌||◌, not, if◌then◌else◌, JsString, text_eq,
  ◌===◌, ◌≡◌, arith,
}

-- `{ fp, ok }`; an `ok` that is missing counts as true.
pub record Pin : Type 0 where
  pub fp : JsString
  pub ok : Bool

abbrev pub has_fp : JsString → Bool
has_fp [] = false
has_fp (u ∷ s) = true

-- `mergeSyncedPin(local, synced)`
unfoldable pub merge_synced_pin : Option Pin → Option Pin → Option Pin
merge_synced_pin here none = here
merge_synced_pin none (some synced) = if has_fp synced.fp then some synced else none
merge_synced_pin (some here) (some synced) =
    if not (has_fp synced.fp)
    then some here
    else if not (here.fp === synced.fp) || not here.ok || not synced.ok
    then some record { fp = here.fp; ok = false }
    else some here

-- A merge with a local pin keeps the local fingerprint. It is verified only if the local pin was, and
-- either nothing was synced with a fingerprint or the synced pin was verified for the same one.
pub merge_synced_pin-keeps_local :
    (here synced merged : Pin)
    → merge_synced_pin (some here) (some synced) ≡ some merged
    → (merged.fp ≡ here.fp)
      × (merged.ok
          ≡ (here.ok && (not (has_fp synced.fp) || ((here.fp === synced.fp) && synced.ok))))
unfolding merge_synced_pin
merge_synced_pin-keeps_local here synced merged h = ground (arith, h)
