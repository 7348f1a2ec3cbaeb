-- ===== src/Server/Address.antt =====
-- apps/server/util.js, clientIp: the caller's address behind trusted proxies.
use noblechat.Prelude.{
  ℕ, suc, ◌-◌, ◌≤◌, ◌==◌, leb, ltb, if◌then◌else◌, List, [], ◌∷◌, ◌++◌, Bool, true, false, ◌&&◌,
  ◌||◌, not, JsString, text, keep, map, length, drop, ◌≡◌, arith, refl, ap, length-append,
  ltb-eq-false,
}

-- White space and line ends, as `trim` takes them off
abbrev pub is_space : ℕ → Bool
is_space u =
    (leb 9 u && leb u 13)
    || (u == 32)
    || (u == 160)
    || (u == 0x1680)
    || (leb 0x2000 u && leb u 0x200a)
    || (u == 0x2028)
    || (u == 0x2029)
    || (u == 0x202f)
    || (u == 0x205f)
    || (u == 0x3000)
    || (u == 0xfeff)

abbrev pub is_empty : JsString → Bool
is_empty [] = true
is_empty (u ∷ s) = false

unfoldable pub trim_start : JsString → JsString
trim_start [] = []
trim_start (u ∷ s) = let rest = trim_start s in if is_space u then rest else u ∷ s

unfoldable pub trim_end : JsString → JsString
trim_end [] = []
trim_end (u ∷ s) = let rest = trim_end s in if is_empty rest && is_space u then [] else u ∷ rest

-- `s.trim()`
unfoldable pub trim : JsString → JsString
trim s = trim_start (trim_end s)

-- The first piece grows by a code unit.
abbrev pub onto_first : ℕ → List JsString → List JsString
onto_first u [] = (u ∷ []) ∷ []
onto_first u (piece ∷ pieces) = (u ∷ piece) ∷ pieces

-- `raw.split(",")`
unfoldable pub split_commas : JsString → List JsString
split_commas [] = [] ∷ []
split_commas (u ∷ s) =
    let pieces = split_commas s in if u == 44 then [] ∷ pieces else onto_first u pieces

-- `.map((s) => s.trim()).filter(Boolean)`
unfoldable pub forwarded_parts : JsString → List JsString
forwarded_parts raw = keep (λ s. not (is_empty s)) (map trim (split_commas raw))

-- The first entry, or the socket's address if there is none
abbrev pub head_or : JsString → List JsString → JsString
head_or direct [] = direct
head_or direct (part ∷ parts) = part

-- `clientIp`: `hops` is the number of trusted proxies, `remote` the socket's address and `header` the
-- value of X-Forwarded-For; a missing one is empty.
unfoldable pub client_ip : ℕ → JsString → JsString → JsString
client_ip hops remote header =
    let direct = if is_empty remote then text "unknown" else remote in
    let parts = forwarded_parts header in
    if hops == 0 || is_empty header
    then direct
    else if ltb (length parts) hops
    then direct
    else head_or direct (drop (length parts - hops) parts)

keep-append :
    (p : JsString → Bool) (xs ys : List JsString) → keep p (xs ++ ys) ≡ keep p xs ++ keep p ys
keep-append p [] ys = refl
keep-append p (x ∷ xs) ys = ground (arith, keep-append p xs ys)

map-append :
    (f : JsString → JsString) (xs ys : List JsString) → map f (xs ++ ys) ≡ map f xs ++ map f ys
map-append f [] ys = refl
map-append f (x ∷ xs) ys = ap (λ (zs : List JsString). f x ∷ zs) (map-append f xs ys)

onto_twice :
    (u v : ℕ) (xs ys : List JsString)
    → onto_first u (onto_first v xs ++ ys) ≡ onto_first u (onto_first v xs) ++ ys
onto_twice u v [] ys = refl
onto_twice u v (x ∷ xs) ys = refl

onto_first-append :
    (u : ℕ) (s : JsString) (ys : List JsString)
    → onto_first u (split_commas s ++ ys) ≡ onto_first u (split_commas s) ++ ys
unfolding split_commas
onto_first-append u [] ys = refl
onto_first-append u (v ∷ s) ys = ground (arith, onto_twice u v (split_commas s) ys)

split_commas-append :
    (s t : JsString) → split_commas (s ++ (44 ∷ t)) ≡ split_commas s ++ split_commas t
unfolding split_commas
split_commas-append [] t = refl
split_commas-append (u ∷ s) t =
    ground (arith, split_commas-append s t, onto_first-append u s (split_commas t))

parts-append :
    (s t : JsString) → forwarded_parts (s ++ (44 ∷ t)) ≡ forwarded_parts s ++ forwarded_parts t
unfolding forwarded_parts
parts-append s t =
    rw (split_commas-append s t, map-append trim (split_commas s) (split_commas t))
      (keep-append (λ s. not (is_empty s)) (map trim (split_commas s)) (map trim (split_commas t)))

drop-append_right :
    (xs ys : List JsString) (n : ℕ)
    → n ≤ length ys
    → drop (length (xs ++ ys) - n) (xs ++ ys) ≡ drop (length ys - n) ys
drop-append_right [] ys n h = refl
drop-append_right (x ∷ xs) ys n h =
    let size = length-append xs ys in
    let more : suc (length (xs ++ ys)) - n ≡ suc (length (xs ++ ys) - n) = omega (arith, size) in
    rw more (drop-append_right xs ys n h)

nonempty-append : (s t : JsString) → is_empty (s ++ (44 ∷ t)) ≡ false
nonempty-append [] t = refl
nonempty-append (u ∷ s) t = refl

-- Whatever a client writes in front of the entries that the trusted proxies append, the answer is the
-- one for the proxies' entries alone, if there are at least as many of them as trusted proxies.
pub client_ip-unforged :
    (hops : ℕ) (remote forged chain : JsString)
    → hops ≤ length (forwarded_parts chain)
    → client_ip hops remote (forged ++ (44 ∷ chain)) ≡ client_ip hops remote chain
unfolding client_ip forwarded_parts split_commas trim trim_start trim_end
client_ip-unforged hops remote forged [] h =
    let none_trusted : hops ≡ 0 = omega (arith, h) in rw (client_ip, none_trusted) refl
client_ip-unforged hops remote forged (u ∷ chain) h =
    let parts = forwarded_parts (u ∷ chain) in
    let both = parts-append forged (u ∷ chain) in
    let size = length-append (forwarded_parts forged) parts in
    let same = drop-append_right (forwarded_parts forged) parts hops h in
    let enough : ltb (length (forwarded_parts forged ++ parts)) hops ≡ false =
      ltb-eq-false _ hops (omega (arith, size, h)) in
    let alone : ltb (length parts) hops ≡ false = ltb-eq-false _ hops h in
    rw (client_ip, nonempty-append forged (u ∷ chain), both, enough, alone, same) refl
