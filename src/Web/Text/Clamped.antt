-- ===== src/Web/Text/Clamped.antt =====
-- What the helpers let through is bounded and safe.
use noblechat.Prelude.{
  ℕ, ◌+◌, ◌-◌, ◌*◌, ◌≤◌, ◌<◌, ltb, leb, leb→le, [], ◌∷◌, ◌++◌, Option, none, some, true, false,
  ◌&&◌, take, drop, length, JsString, text_eq, ◌≡◌, ◌≢◌, ◌⊎◌, inl, inr, subst, arith, min, All,
  length-append, length-take, length-drop, Bool-cases, ap, drop-append_length,
}
use noblechat.Web.Text.{esc, escaped, truncate_filename, cut_at, last_dot, name_or_file, remaining}

-- No character that opens or closes a tag or an attribute value
abbrev pub Harmless : JsString → Type 0
Harmless s = All (λ u. (u ≢ 60) × (u ≢ 62) × (u ≢ 34) × (u ≢ 39)) s

Harmless-append : (s t : JsString) → Harmless s → Harmless t → Harmless (s ++ t)
Harmless-append [] t hs ht = ht
Harmless-append (u ∷ s) t (hu, hs) ht = (hu, Harmless-append s t hs ht)

escaped-Harmless : (u : ℕ) → Harmless (escaped u)
escaped-Harmless u = ground arith

-- Escaped text has no angle bracket and no quote, so it stays text between tags and in attribute values.
pub esc-Harmless : (s : JsString) → Harmless (esc s)
unfolding esc
esc-Harmless [] = tt
esc-Harmless (u ∷ s) = Harmless-append (escaped u) (esc s) (escaped-Harmless u) (esc-Harmless s)

-- `cut_at` on a name that is too long
module _ (s : JsString) (max_len : ℕ) (long : max_len < length s) where
  length-take_max : length (take max_len s) ≡ max_len
  length-take_max = omega (arith, length-take max_len s, long)

  module _ (dot : ℕ) where
    abbrev ext : JsString
    ext = drop dot s

    length-kept :
        length ext < max_len
        → 1 < length ext
        → length (take (max_len - length ext) (take dot s) ++ ext) ≡ max_len
    length-kept fits real = omega (
      arith,
      length-append (take (max_len - length ext) (take dot s)) ext,
      length-take (max_len - length ext) (take dot s),
      length-take dot s,
      length-drop dot s,
      fits,
      real,
      long,
    )

  length-cut_at : (o : Option ℕ) → length (cut_at s max_len o) ≡ max_len
  length-cut_at none = length-take_max
  length-cut_at (some dot) =
      elim (Bool-cases (
        ltb 0 dot
        && (ltb 1 (length (ext dot))
            && (leb (length (ext dot)) 20 && ltb (length (ext dot)) max_len)))) [
              | inr plain ↦ rw plain length-take_max
              | inl kept ↦ rw kept (length-kept dot (ground (arith, kept)) (ground (arith, kept)))
            ]

  drop-cut_at :
      (dot : ℕ)
      → 0 < dot
      → 1 < length (ext dot)
      → length (ext dot) ≤ 20
      → length (ext dot) < max_len
      → drop (max_len - length (ext dot)) (cut_at s max_len (some dot)) ≡ ext dot
  drop-cut_at dot later real short fits =
      let base = take (max_len - length (ext dot)) (take dot s) in
      let kept : (ltb 0 dot
            && (ltb 1 (length (ext dot))
                && (leb (length (ext dot)) 20 && ltb (length (ext dot)) max_len)))
          ≡ true =
        ground (arith, later, real, short, fits) in
      let size : length base ≡ max_len - length (ext dot) =
        omega (arith, length-kept dot fits real, length-append base (ext dot)) in
      rw kept (
        subst (λ (n : ℕ). drop n (base ++ ext dot) ≡ ext dot) size
          (drop-append_length base (ext dot)))

-- A file name is cut to the limit and no shorter. If its last dot, not at its start, begins an extension of 2
-- to 20 characters that is shorter than the limit, the name that results ends in that extension.
pub truncate_filename-extension :
    (name : JsString) (max_len : ℕ)
    → let s = name_or_file name in
      (length (truncate_filename name max_len) ≡ min (length s) max_len)
      × ((dot : ℕ)
          → last_dot s ≡ some dot
          → 0 < dot
          → 1 < length (drop dot s)
          → length (drop dot s) ≤ 20
          → length (drop dot s) < max_len
          → drop (min (length s) max_len - length (drop dot s)) (truncate_filename name max_len)
            ≡ drop dot s)
unfolding truncate_filename
truncate_filename-extension name max_len =
    elim (Bool-cases (leb (length (name_or_file name)) max_len)) [
      | inl whole ↦ rw whole (
        omega (arith, small whole),
        λ dot found later real short fits.
            let at_dot : min (length (name_or_file name)) max_len
                  - length (drop dot (name_or_file name))
                ≡ dot =
              omega (arith, small whole, length-drop dot (name_or_file name), real) in
            ap (λ (n : ℕ). drop n (name_or_file name)) at_dot,
      )
      | inr cut ↦ rw cut (
        omega (
          arith,
          length-cut_at (name_or_file name) max_len (long cut) (last_dot (name_or_file name)),
          long cut,
        ),
        λ dot found later real short fits.
            let limit : min (length (name_or_file name)) max_len ≡ max_len =
              omega (arith, long cut) in
            rw (found, limit)
              (drop-cut_at (name_or_file name) max_len (long cut) dot later real short fits),
      )
    ]
  where
    small : leb (length (name_or_file name)) max_len ≡ true → length (name_or_file name) ≤ max_len
    small h = leb→le (length (name_or_file name)) max_len h

    long : leb (length (name_or_file name)) max_len ≡ false → max_len < length (name_or_file name)
    long h = ground (arith, h)

-- The time left is shown in the coarsest unit that does not overflow: below 60 seconds, 60 minutes or 24
-- hours, or in days; and the value is at most half a unit and half a second away from the time itself.
pub remaining-InUnit :
    (ms : ℕ)
    → let a = remaining ms in
      (((a.unit_s ≡ 1) × (a.count < 60))
        ⊎ ((a.unit_s ≡ 60) × (1 ≤ a.count) × (a.count < 60))
        ⊎ ((a.unit_s ≡ 3600) × (1 ≤ a.count) × (a.count < 24))
        ⊎ ((a.unit_s ≡ 86400) × (1 ≤ a.count)))
      × (1000 * (a.count * a.unit_s) ≤ ms + 500 * a.unit_s + 500)
      × (ms ≤ 1000 * (a.count * a.unit_s) + 500 * a.unit_s + 500)
unfolding remaining
remaining-InUnit ms = ground arith
