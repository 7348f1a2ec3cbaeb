-- ===== src/Node/Replays.antt =====
-- What the guard of a node catches, and what it does not.
use noblechat.Prelude.{
  ℕ, ◌+◌, ◌≤◌, ◌<◌, List, [], ◌∷◌, Bool, true, false, JsString, Bytes, text_eq, ◌≡◌, ◌∙◌, refl, ap,
  sym, subst, All, length, if◌then◌else◌, ◌++◌, map, includes,
}
use noblechat.Sphinx.Primitives.{Primitives}
use noblechat.Replay.{Options, Guard, fresh_guard, seen, run}
use noblechat.Replay.Window.{seen-replay}
use noblechat.Replay.Sound.{seen_fresh}
use noblechat.Net.Serialize.{
  Base64, PacketObj, Field, words, bytes, refused, deserialize_packet, with_alpha,
}
use noblechat.Node.{Self, Post, handle_fresh, handle_packet, handle_all, guarded, handle_parsed}

abbrev pub tag_cons : ℕ → List (JsString × ℕ) → Field → List (JsString × ℕ)
tag_cons now rest (words a) = (a, now) ∷ rest
tag_cons now rest (bytes b) = rest
tag_cons now rest refused = rest

-- The tags that a list of packet objects shows to the guard
unfoldable pub tags : List (PacketObj × ℕ) → List (JsString × ℕ)
tags [] = []
tags ((o, now) ∷ calls) = tag_cons now (tags calls) o.a

module _ {Point : Type 0} (codec : Base64) (prims : Primitives Point) (self : Self)
    (options : Options) where
  handled :
      (o : PacketObj) (a : JsString) (now : ℕ) (guard : Guard JsString)
      → o.a ≡ words a
      → handle_packet codec prims self options o now guard ≡ (
        if (seen options a now guard).0 then [] else handle_fresh codec prims self o,
        (seen options a now guard).1,
      )
  unfolding handle_packet
  handled o a now guard h = ap (guarded codec prims self options o now guard) h

  run_tag :
      (o : PacketObj) (now : ℕ) (rest : List (JsString × ℕ)) (guard : Guard JsString) (a : Field)
      → run options rest (guarded codec prims self options o now guard a).1
        ≡ run options (tag_cons now rest a) guard
  unfolding run
  run_tag o now rest guard (words a) = refl
  run_tag o now rest guard (bytes b) = refl
  run_tag o now rest guard refused = refl

  handle_all_runs :
      (calls : List (PacketObj × ℕ)) (guard : Guard JsString)
      → handle_all codec prims self options calls guard ≡ run options (tags calls) guard
  unfolding handle_all tags run handle_packet
  handle_all_runs [] guard = refl
  handle_all_runs ((o, now) ∷ calls) guard =
      handle_all_runs calls (guarded codec prims self options o now guard o.a).1
      ∙ run_tag o now (tags calls) guard o.a

  -- A packet object that the guard took at time `t0` has no effect when the same text of its alpha
  -- comes again before one epoch has passed, whatever fewer packet objects than an epoch's capacity
  -- come in between, at times in that span.
  pub handle_packet-replay :
      (o o' : PacketObj) (a : JsString) (t0 now : ℕ) (calls : List (PacketObj × ℕ))
      (guard : Guard JsString)
      → o.a ≡ words a
      → o'.a ≡ words a
      → (seen options a t0 guard).0 ≡ false
      → All (λ c. (t0 ≤ c.1) × (c.1 < t0 + options.epoch_ms)) (tags calls)
      → (t0 ≤ now) × (now < t0 + options.epoch_ms)
      → length (tags calls) < options.max_per_epoch
      → (handle_packet codec prims self options o' now (
          handle_all codec prims self options calls
            (handle_packet codec prims self options o t0 guard).1)).0
        ≡ []
  handle_packet-replay o o' a t0 now calls guard first again fresh between within few =
      let after =
        handle_all codec prims self options calls
          (handle_packet codec prims self options o t0 guard).1 in
      let state : after ≡ run options (tags calls) (seen options a t0 guard).1 =
        handle_all_runs calls (handle_packet codec prims self options o t0 guard).1
        ∙ ap (λ (r : List Post × Guard JsString). run options (tags calls) r.1)
            (handled o a t0 guard first) in
      let caught : (seen options a now after).0 ≡ true =
        subst (λ (g : Guard JsString). (seen options a now g).0 ≡ true) (sym state)
          (seen-replay options guard a t0 now (tags calls) fresh between within few) in
      ap (λ (r : List Post × Guard JsString). r.0) (handled o' a now after again)
      ∙ ap (λ (b : Bool). if b then [] else handle_fresh codec prims self o') caught

  run-append :
      (xs ys : List (JsString × ℕ)) (guard : Guard JsString)
      → run options (xs ++ ys) guard ≡ run options ys (run options xs guard)
  unfolding run
  run-append [] ys guard = refl
  run-append ((a, now) ∷ xs) ys guard = run-append xs ys (seen options a now guard).1

  -- A text of an alpha that no packet object on a fresh guard brought passes the guard, and the packet
  -- object has the effects that the guard does not stop.
  handled_first :
      (o : PacketObj) (a : JsString) (now : ℕ) (past : List (JsString × ℕ))
      → o.a ≡ words a
      → includes (map (λ c. c.0) past) a ≡ false
      → (handle_packet codec prims self options o now (run options past fresh_guard)).0
        ≡ handle_fresh codec prims self o
  handled_first o a now past text fresh =
      ap (λ (r : List Post × Guard JsString). r.0)
        (handled o a now (run options past fresh_guard) text)
      ∙ ap (λ (b : Bool). if b then [] else handle_fresh codec prims self o)
          (seen_fresh options a past now fresh)

  -- The guard compares texts, and texts that differ can be read as the same bytes. On a fresh guard, after any
  -- packet objects `before`, let a packet object come whose alpha is a text that none of them brought, and
  -- after any packet objects `between`, at any time, the same object with its alpha in another text of the
  -- same bytes that none of all these brought. Then each of the two has all the effects of the first.
  pub handle_packet-reencoded :
      (o : PacketObj) (a a' : JsString) (t0 now : ℕ) (before between : List (PacketObj × ℕ))
      → o.a ≡ words a
      → codec.from_b64 a' ≡ codec.from_b64 a
      → includes (map (λ c. c.0) (tags before)) a ≡ false
      → includes (map (λ c. c.0) (tags before ++ ((a, t0) ∷ tags between))) a' ≡ false
      → let first =
          handle_packet codec prims self options o t0
            (handle_all codec prims self options before fresh_guard) in
        let again =
          handle_packet codec prims self options
            record o { a = words a' }
            now
            (handle_all codec prims self options between first.1) in
        (first.0 ≡ handle_fresh codec prims self o) × (again.0 ≡ handle_fresh codec prims self o)
  unfolding handle_fresh deserialize_packet run
  handle_packet-reencoded o a a' t0 now before between text same new new' =
      let start = handle_all codec prims self options before fresh_guard in
      let o' : PacketObj = record o { a = words a' } in
      let read : Bytes → List Post =
        λ alpha. handle_parsed codec prims self (with_alpha codec o alpha) in
      let started : start ≡ run options (tags before) fresh_guard =
        handle_all_runs before fresh_guard in
      let after =
        handle_all codec prims self options between
          (handle_packet codec prims self options o t0 start).1 in
      let state : after ≡ run options (tags before ++ ((a, t0) ∷ tags between)) fresh_guard =
        handle_all_runs between (handle_packet codec prims self options o t0 start).1
        ∙ ap (λ (r : List Post × Guard JsString). run options (tags between) r.1)
            (handled o a t0 start text)
        ∙ ap (λ (g : Guard JsString). run options (tags between) (seen options a t0 g).1) started
        ∙ sym (run-append (tags before) ((a, t0) ∷ tags between) fresh_guard) in
      (
        ap (λ (g : Guard JsString). (handle_packet codec prims self options o t0 g).0) started
            ∙ handled_first o a t0 (tags before) text new,
        ap (λ (g : Guard JsString). (handle_packet codec prims self options o' now g).0) state
            ∙ handled_first o' a' now (tags before ++ ((a, t0) ∷ tags between)) refl new'
            ∙ ap read same
            ∙ ap (λ (t : Field). handle_fresh codec prims self (record o { a = t })) (sym text),
      )
