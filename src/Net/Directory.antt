-- ===== src/Net/Directory.antt =====
-- packages/net/src/directory.js: the layers of mix nodes, the providers, and the choice of a path.
pub mod Provider
use noblechat.Prelude.{
  ℕ, zero, suc, ◌+◌, ◌<◌, ltb, if◌then◌else◌, List, [], ◌∷◌, ◌++◌, Option, none, some, Bool, ◌&&◌,
  map, any, get, put, get_elem?, length, take, JsString, decimal, text, text_eq, Bytes, ◌===◌,
  Result, ok, err, All, Option-cases, ◌⊎◌, inl, inr, ◌≡◌, refl, arith,
}
use noblechat.Sphinx.Primitives.{Primitives}
use noblechat.Sphinx.Scalar.{NodeKey, generate_node_key}
use noblechat.Sphinx.Packet.{PathNode}

pub record DirNode : Type 0 where
  pub id : Bytes
  pub key : NodeKey
  pub label : JsString
  pub url : JsString

abbrev pub ascii_lower : ℕ → ℕ
ascii_lower u = if ltb 64 u && ltb u 91 then u + 32 else u

-- `urlFor`; a label is in ASCII letters, digits and dashes.
unfoldable pub url_for : JsString → ℕ → JsString
url_for label mix_port =
    text "http://" ++ (map ascii_lower label ++ (58 ∷ (decimal mix_port ++ text "/mix")))

-- `mix-L${l}-${n}` and `provider-${p}`
abbrev pub mix_label : ℕ → ℕ → JsString
mix_label l n = text "mix-L" ++ (decimal l ++ (45 ∷ decimal n))

abbrev pub provider_label : ℕ → JsString
provider_label p = text "provider-" ++ decimal p

get_elem?-some :
    {A : Type 0} (xs : List A) (i : ℕ) → i < length xs → (x : A) × (get_elem? xs i ≡ some x)
get_elem?-some [] i h = absurd (omega (arith, h))
get_elem?-some (x ∷ xs) zero h = (x, refl)
get_elem?-some (x ∷ xs) (suc i) h = get_elem?-some xs i (omega (arith, h))

-- What `pickPath` throws
pub data PathError : Type 0 where
  unknown_provider empty_layer : PathError

module _ {Point : Type 0} (p : Primitives Point) where
  -- `makeNode` and the line that sets the url: from the seed, or from the 16 random bytes of an id and the 32
  -- of a key
  unfoldable pub make_node : JsString → Option Bytes → Bytes → Bytes → ℕ → DirNode
  make_node label none random_id random_key mix_port = record {
    id = random_id;
    key = generate_node_key p none random_key;
    label = label;
    url = url_for label mix_port;
  }
  make_node label (some seed) random_id random_key mix_port = record {
    id = take 16 (p.sha256 (seed ++ (text "id:" ++ label)));
    key = generate_node_key p (some (p.sha256 (seed ++ (text "key:" ++ label)))) random_key;
    label = label;
    url = url_for label mix_port;
  }

  module _ (seed : Option Bytes) (random_id random_key : JsString → Bytes) (mix_port : ℕ) where
    abbrev pub labelled : JsString → DirNode
    labelled label = make_node label seed (random_id label) (random_key label) mix_port

    -- The nodes `from`, `from + 1`, … that a loop makes
    unfoldable pub numbered {ℓ} : {A : Type ℓ} → (ℕ → A) → ℕ → ℕ → List A
    numbered make from zero = []
    numbered make from (suc count) = make from ∷ numbered make (from + 1) count

    -- The two loops of `buildTestnet`
    unfoldable pub layer_nodes : ℕ → ℕ → List (List DirNode)
    layer_nodes layers per_layer =
        numbered (λ l. numbered (λ n. labelled (mix_label l n)) 0 per_layer) 0 layers

    unfoldable pub provider_nodes : ℕ → List DirNode
    provider_nodes providers = numbered (λ q. labelled (provider_label q)) 0 providers

-- What `buildTestnet` returns
pub record Testnet : Type 0 where
  pub layers : List (List DirNode)
  pub providers : List DirNode
  pub by_id : List (JsString × DirNode)

module _ (to_b64 : Bytes → JsString) where
  unfoldable pub index_row : List DirNode → List (JsString × DirNode) → List (JsString × DirNode)
  index_row [] ids = ids
  index_row (n ∷ row) ids = index_row row (put (to_b64 n.id) n ids)

  unfoldable pub index_rows :
      List (List DirNode) → List (JsString × DirNode) → List (JsString × DirNode)
  index_rows [] ids = ids
  index_rows (row ∷ rows) ids = index_rows rows (index_row row ids)

  -- The last part of `buildTestnet`
  unfoldable pub testnet_of : List (List DirNode) → List DirNode → Testnet
  testnet_of layers providers = record {
    layers = layers;
    providers = providers;
    by_id = index_row providers (index_rows layers []);
  }

  module _ (net : Testnet) where
    unfoldable pub lookup : Bytes → Option DirNode
    lookup id = get (to_b64 id) net.by_id

    abbrev pub url_of_node : Option DirNode → Option JsString
    url_of_node none = none
    url_of_node (some n) = some n.url

    -- `urlOf`; null is `none`.
    unfoldable pub url_of : Bytes → Option JsString
    url_of id = url_of_node (lookup id)

    -- `isProvider`
    unfoldable pub is_provider : Bytes → Bool
    is_provider id = any (λ q. to_b64 q.id === to_b64 id) net.providers

    abbrev picked : Option DirNode → Option (List DirNode) → Option (List DirNode)
    picked (some n) (some nodes) = some (n ∷ nodes)
    picked (some n) none = none
    picked none rest = none

    -- `row[randomIndex(row.length)]` for the rows from number `l` on, where the draw for a row may depend on
    -- its number; a row without that entry makes the whole throw, when the path is read.
    unfoldable pub pick_rows : (ℕ → ℕ → ℕ) → ℕ → List (List DirNode) → Option (List DirNode)
    pick_rows random_index l [] = some []
    pick_rows random_index l (row ∷ rows) =
        picked (get_elem? row (random_index l (length row))) (pick_rows random_index (l + 1) rows)

    abbrev pub node_view : DirNode → PathNode
    node_view n = record { id = n.id; public = n.key.public }

    abbrev pub path_to : Option DirNode → Option (List DirNode) → Result PathError (List PathNode)
    path_to none nodes = err unknown_provider
    path_to (some provider) none = err empty_layer
    path_to (some provider) (some nodes) = ok (map node_view (nodes ++ provider ∷ []))

    -- `pickPath`
    unfoldable pub pick_path : (ℕ → ℕ → ℕ) → Bytes → Result PathError (List PathNode)
    pick_path random_index provider_id =
        path_to (lookup provider_id) (pick_rows random_index 0 net.layers)

    abbrev pub public_node : DirNode → JsString × JsString
    public_node n = (to_b64 n.id, to_b64 n.key.public)

    -- `publicView`
    unfoldable pub public_view :
        List (List (JsString × JsString)) × List (JsString × JsString × JsString)
    public_view = (
      map (map public_node) net.layers,
      map (λ q. (to_b64 q.id, to_b64 q.key.public, q.label)) net.providers,
    )

    -- A list with one node of each layer, in the order of the layers
    abbrev pub OfEach : List DirNode → List (List DirNode) → Type 0
    OfEach [] [] = Unit
    OfEach (n ∷ nodes) (row ∷ rows) = ((i : ℕ) × (get_elem? row i ≡ some n)) × OfEach nodes rows
    OfEach _ _ = ⊥

    pick_rows-OfEach :
        (random_index : ℕ → ℕ → ℕ) (l : ℕ) (rows : List (List DirNode))
        → ((k n : ℕ) → 0 < n → random_index k n < n)
        → All (λ row. 0 < length row) rows
        → (nodes : List DirNode) × (pick_rows random_index l rows ≡ some nodes) × OfEach nodes rows
    unfolding pick_rows
    pick_rows-OfEach random_index l [] inside filled = ([], refl, tt)
    pick_rows-OfEach random_index l (row ∷ rows) inside (some_node, filled) =
        let (n, found) =
          get_elem?-some row (random_index l (length row)) (inside l (length row) some_node) in
        let (nodes, rest, each) = pick_rows-OfEach random_index (l + 1) rows inside filled in
        (n ∷ nodes, rw (pick_rows, found, rest) refl, ((_, found), each))

    -- With an index that is below the length of a row that is not empty, and without empty rows: the path to
    -- a provider of the directory has one node of each layer, in order, and then that provider, and a
    -- provider that is not in the directory is refused.
    pub pick_path-OfEach :
        (random_index : ℕ → ℕ → ℕ) (provider_id : Bytes)
        → ((k n : ℕ) → 0 < n → random_index k n < n)
        → All (λ row. 0 < length row) net.layers
        → ((lookup provider_id ≡ none)
            × (pick_path random_index provider_id ≡ err unknown_provider))
          ⊎ ((provider : DirNode) × (nodes : List DirNode) × (lookup provider_id ≡ some provider)
              × OfEach nodes net.layers
              × (pick_path random_index provider_id ≡ ok (map node_view (nodes ++ provider ∷ []))))
    unfolding pick_path
    pick_path-OfEach random_index provider_id inside filled =
        let (nodes, picked, each) = pick_rows-OfEach random_index 0 net.layers inside filled in
        elim (Option-cases (lookup provider_id)) [
          | inl missing ↦ inl (missing, rw (pick_path, missing) refl)
          | inr (provider, found) ↦
              inr (provider, nodes, found, each, rw (pick_path, found, picked) refl)
        ]
