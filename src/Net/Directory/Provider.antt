-- ===== src/Net/Directory/Provider.antt =====
-- Where the path that `pickPath` of packages/net/src/directory.js gives comes to its end.
use noblechat.Prelude.{
  List, [], ◌∷◌, ◌++◌, Option, none, some, JsString, Bytes, text_eq, Result, ok, err, map, get, put,
  get-put, ===_iff, ◌===◌, arith, ◌≡◌, ◌∙◌, refl, sym, ap, ℕ, Bool-cases, inl, inr, if◌then◌else◌,
}
use noblechat.Sphinx.Packet.{PathNode}
use noblechat.Router.{NodeEntry}
use noblechat.Net.Directory.{
  DirNode, Testnet, PathError, index_row, index_rows, testnet_of, lookup, pick_path, pick_rows,
  path_to, node_view,
}

-- The id of the last node of a path
unfoldable pub last_id : List PathNode → Option Bytes
last_id [] = none
last_id (n ∷ path) = elim (last_id path) [ none ↦ some n.id | some id ↦ some id ]

abbrev pub end_of : Result PathError (List PathNode) → Option Bytes
end_of (err e) = none
end_of (ok path) = last_id path

-- What the router reads of an entry of the directory
abbrev pub entry_for : Option DirNode → Option NodeEntry
entry_for none = none
entry_for (some n) = some (record { id = n.id; secret = n.key.secret; label = n.label })

last_id-append :
    (view : DirNode → PathNode) (nodes : List DirNode) (q : DirNode)
    → last_id (map view (nodes ++ q ∷ [])) ≡ some (view q).id
unfolding last_id
last_id-append view [] q = refl
last_id-append view (n ∷ nodes) q = rw (last_id-append view nodes q) refl

module _ (to_b64 : Bytes → JsString) where
  -- Every node of an index stands under the text of its id.
  IsIndex : List (JsString × DirNode) → Type 0
  IsIndex ids = (k : JsString) (n : DirNode) → get k ids ≡ some n → to_b64 n.id ≡ k

  put-IsIndex :
      (n : DirNode) (ids : List (JsString × DirNode))
      → IsIndex ids
      → IsIndex (put (to_b64 n.id) n ids)
  unfolding IsIndex
  put-IsIndex n ids h k m found = elim (Bool-cases (to_b64 n.id === k)) [
    | inl same ↦
        let there : some n ≡ some m =
          sym (get-put (to_b64 n.id) k n ids ∙ ap (λ b. if b then some n else get k ids) same)
          ∙ found in
        ground (arith, there, (===_iff (to_b64 n.id) k).0 same)
    | inr other ↦ h k m (
        sym (get-put (to_b64 n.id) k n ids ∙ ap (λ b. if b then some n else get k ids) other)
        ∙ found)
  ]

  index_row-IsIndex :
      (row : List DirNode) (ids : List (JsString × DirNode))
      → IsIndex ids
      → IsIndex (index_row to_b64 row ids)
  unfolding index_row
  index_row-IsIndex [] ids h = h
  index_row-IsIndex (n ∷ row) ids h = index_row-IsIndex row _ (put-IsIndex n ids h)

  index_rows-IsIndex :
      (rows : List (List DirNode)) (ids : List (JsString × DirNode))
      → IsIndex ids
      → IsIndex (index_rows to_b64 rows ids)
  unfolding index_rows
  index_rows-IsIndex [] ids h = h
  index_rows-IsIndex (row ∷ rows) ids h = index_rows-IsIndex rows _ (index_row-IsIndex row ids h)

  -- The node that a built directory finds under an id has that id, as far as texts tell.
  lookup-id :
      (layers : List (List DirNode)) (providers : List DirNode) (id : Bytes) (n : DirNode)
      → lookup to_b64 (testnet_of to_b64 layers providers) id ≡ some n
      → to_b64 n.id ≡ to_b64 id
  unfolding lookup testnet_of IsIndex get
  lookup-id layers providers id n found =
      index_row-IsIndex providers (index_rows to_b64 layers [])
        (index_rows-IsIndex layers [] (λ k m e. absurd (ground (arith, e)))) (to_b64 id) n found

  path_to-last_id :
      (net : Testnet) (provider : Option DirNode) (nodes : Option (List DirNode))
      (path : List PathNode)
      → path_to to_b64 net provider nodes ≡ ok path
      → (q : DirNode) × (provider ≡ some q) × (last_id path ≡ some q.id)
  path_to-last_id net none nodes path h = absurd (ground (arith, h))
  path_to-last_id net (some q) none path h = absurd (ground (arith, h))
  path_to-last_id net (some q) (some nodes) path h =
      (q, refl, sym (ap end_of h) ∙ last_id-append (node_view to_b64 net) nodes q)

  -- A path that `pickPath` gives, on a directory that `buildTestnet` built, ends at a node whose id has the
  -- text of the provider that was asked for.
  pub pick_path-last_id :
      (layers : List (List DirNode)) (providers : List DirNode) (random_index : ℕ → ℕ → ℕ)
      (provider_id : Bytes) (path : List PathNode)
      → pick_path to_b64 (testnet_of to_b64 layers providers) random_index provider_id ≡ ok path
      → (id : Bytes) × (last_id path ≡ some id) × (to_b64 id ≡ to_b64 provider_id)
  unfolding pick_path
  pick_path-last_id layers providers random_index provider_id path h =
      let net = testnet_of to_b64 layers providers in
      let (q, found, last) =
        path_to-last_id net (lookup to_b64 net provider_id)
          (pick_rows to_b64 net random_index 0 net.layers) path h in
      (q.id, last, lookup-id layers providers provider_id q found)
