-- ===== src/Gateway/Body.antt =====
-- apps/server/util.js, readBody and staticRelPath: request bodies within a limit, and the paths of pages.
use noblechat.Prelude.{
  ℕ, suc, ◌+◌, ◌≤◌, ltb, ◌==◌, if◌then◌else◌, List, [], ◌∷◌, ◌++◌, Option, none, some, Bool, false,
  ◌||◌, length, JsString, text, text_eq, ◌===◌, Bytes, Result, ok, err, ◌≡◌, inl, inr, refl, sym,
  ap, arith, Bool-cases, length-append, append_assoc, append-nil, ltb-eq-false,
}
use noblechat.Gateway.State.{BodyError}

abbrev pub joined : List Bytes → Bytes
joined [] = []
joined (c ∷ chunks) = c ++ joined chunks

-- The chunks as they arrive, with `size` and what is buffered. After the first chunk over the limit the
-- promise is settled, and the rest changes nothing.
unfoldable pub read_chunks : ℕ → ℕ → Bytes → List Bytes → Result BodyError Bytes
read_chunks max_bytes size body [] = ok body
read_chunks max_bytes size body (c ∷ chunks) =
    let rest = read_chunks max_bytes (size + length c) (body ++ c) chunks in
    if ltb max_bytes (size + length c) then err BodyError.too_large else rest

abbrev pub declared_over : Option ℕ → ℕ → Bool
declared_over none max_bytes = false
declared_over (some declared) max_bytes = ltb max_bytes declared

-- `readBody`, on the finite number that `Content-Length` declares, if any, and the chunks of a request that ends
unfoldable pub read_body : Option ℕ → List Bytes → ℕ → Result BodyError Bytes
read_body declared chunks max_bytes =
    let read = read_chunks max_bytes 0 [] chunks in
    if declared_over declared max_bytes then err BodyError.too_large else read

-- `split("?")[0]`
abbrev pub before_query : JsString → JsString
before_query [] = []
before_query (u ∷ url) = let rest = before_query url in if u == 63 then [] else u ∷ rest

abbrev pub or_root : JsString → JsString
or_root [] = text "/"
or_root (u ∷ url) = u ∷ url

-- `staticRelPath`
unfoldable pub static_rel_path : JsString → JsString
static_rel_path url =
    let p = before_query (or_root url) in
    if p === text "/"
    then text "/index.html"
    else if p === text "/app" || p === text "/app/"
    then text "/app.html"
    else p

read_chunks-fits :
    (max_bytes size : ℕ) (body : Bytes) (chunks : List Bytes)
    → size + length (joined chunks) ≤ max_bytes
    → read_chunks max_bytes size body chunks ≡ ok (body ++ joined chunks)
unfolding read_chunks
read_chunks-fits max_bytes size body [] fits = ap (λ (b : Bytes). ok b) (sym (append-nil body))
read_chunks-fits max_bytes size body (c ∷ chunks) fits =
    let whole = length-append c (joined chunks) in
    rw
      (
        ltb-eq-false max_bytes (size + length c) (omega (arith, fits, whole)),
        read_chunks-fits max_bytes (size + length c) (body ++ c) chunks
            (omega (arith, fits, whole)),
        append_assoc body c (joined chunks),
      )
      refl

read_chunks-over :
    (max_bytes size : ℕ) (body : Bytes) (chunks : List Bytes)
    → size ≤ max_bytes
    → suc max_bytes ≤ size + length (joined chunks)
    → read_chunks max_bytes size body chunks ≡ err BodyError.too_large
unfolding read_chunks
read_chunks-over max_bytes size body [] low over = absurd (omega (arith, low, over))
read_chunks-over max_bytes size body (c ∷ chunks) low over =
    elim (Bool-cases (ltb max_bytes (size + length c))) [
      | inl now ↦ rw now refl
      | inr later ↦
          rw
            (
              later,
              read_chunks-over max_bytes (size + length c) (body ++ c) chunks
                  (ground (arith, later)) (omega (arith, over, length-append c (joined chunks))),
            )
            refl
    ]

-- A body is read, and is then the whole of what was sent, exactly if neither the declared nor the real
-- length is over the limit; otherwise it is refused as too large, however it is cut into chunks.
pub read_body_lem :
    (declared : Option ℕ) (chunks : List Bytes) (max_bytes : ℕ)
    → read_body declared chunks max_bytes ≡ (
        if declared_over declared max_bytes || ltb max_bytes (length (joined chunks))
        then err BodyError.too_large
        else ok (joined chunks))
unfolding read_body
read_body_lem declared chunks max_bytes = elim (Bool-cases (declared_over declared max_bytes)) [
  | inl over ↦ rw over refl
  | inr fine ↦ elim (Bool-cases (ltb max_bytes (length (joined chunks)))) [
    | inl over ↦
        rw (fine, over)
          (read_chunks-over max_bytes 0 [] chunks (omega arith) (ground (arith, over)))
    | inr fits ↦ rw (fine, fits) (read_chunks-fits max_bytes 0 [] chunks (ground (arith, fits)))
  ]
]
