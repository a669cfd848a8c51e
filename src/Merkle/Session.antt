-- ===== src/Merkle/Session.antt =====
-- reconciliation/src/merkle_tree/receiver.rs: the diff session of the initiator, and what the
-- responder answers. `ask_nodes` and `ask_data` stand for the network and the peer: the reply that
-- a request with a given id gets before `RESPONSE_TIMEOUT`, or none.
pub mod Walk
pub mod Loop
pub mod Missing
use Prim.Native.Nat.Ordering.{gt}
use mathlib.Core.Option
use leopard.Prelude.{
  ℕ, zero, suc, ◌+◌, Bool, true, false, Option, none, some, List, [], ◌∷◌, ◌++◌, map, Text, codes,
  text_eq, chunks, if◌then◌else◌,
}
use leopard.Prelude.Bytes.{cmp}
use leopard.Prelude.BTreeMap
use leopard.Merkle.Tree.{
  MerkleTreeSnapshot, BinaryMerkleTree, get_node_summary, zero_hash, root_name,
}

-- (node id, hash, key)
abbrev pub MerkleNodeAnswer : Type 0
MerkleNodeAnswer = Text × Text × Option Text

abbrev pub frontier_chunk : ℕ
frontier_chunk = 2048

abbrev pub data_chunk : ℕ
data_chunk = 2048

-- `handle_sync_node_request`: one answer for each id.
unfoldable pub node_answer : MerkleTreeSnapshot → Text → MerkleNodeAnswer
node_answer snap id = elim (get_node_summary snap id) [
  | some s ↦ (id, s.0, s.1)
  | none ↦ (id, zero_hash, none)
]

-- `handle_data_request`: the pairs of the keys that the responder holds.
unfoldable pub data_answer : List (Text × Text) → List Text → List (Text × Text)
data_answer entries [] = []
data_answer entries (k ∷ ks) = elim (BTreeMap.get k entries) [
  | some v ↦ (k, v) ∷ data_answer entries ks
  | none ↦ data_answer entries ks
]

-- What the loops of `run_diff_session` carry: the next request id, the keys to fetch and the
-- frontier of the next level.
pub record DiffState : Type 0 where
  pub request_id : ℕ
  pub keys_to_fetch : List Text
  pub next : List Text

unfoldable pub local_hash : MerkleTreeSnapshot → Text → Text
local_hash snap id = elim (get_node_summary snap id) [ some s ↦ s.0 | none ↦ zero_hash ]

-- The body of the innermost loop, on one answer.
unfoldable pub visit : MerkleTreeSnapshot → MerkleNodeAnswer → DiffState → DiffState
visit snap (node_id, remote_hash, remote_key) w =
    if text_eq (local_hash snap node_id) remote_hash then w else elim remote_key [
      | some key ↦ record w { keys_to_fetch = w.keys_to_fetch ++ key ∷ [] }
      | none ↦ if text_eq remote_hash zero_hash then w else record w {
        next = w.next ++ (node_id ++ codes "-left") ∷ (node_id ++ codes "-right") ∷ [];
      }
    ]

unfoldable pub visit_all : MerkleTreeSnapshot → List MerkleNodeAnswer → DiffState → DiffState
visit_all snap [] w = w
visit_all snap (a ∷ as') w = visit_all snap as' (visit snap a w)

-- `request_nodes` and `request_data`: a request that times out yields nothing.
unfoldable pub request {ℓ} : {A B : Type ℓ} → (ℕ → A → Option (List B)) → ℕ → A → List B
request ask id a = Option.get_or (ask id a) []

module _ (snap : MerkleTreeSnapshot)
    (ask_nodes : ℕ → List Text → Option (List MerkleNodeAnswer)) where
  -- One level: the chunks of the frontier, each a request.
  unfoldable pub run_level : List (List Text) → DiffState → DiffState
  run_level [] w = w
  run_level (chunk ∷ rest) w =
      let answers = request ask_nodes w.request_id chunk in
      run_level rest (visit_all snap answers (record w { request_id = w.request_id + 1 }))

  -- `while !frontier.is_empty()`, with fuel for the levels; none is fuel that ran out.
  unfoldable pub diff_loop : ℕ → List Text → ℕ → List Text → Option (ℕ × List Text)
  diff_loop fuel [] id keys = some (id, keys)
  diff_loop zero (p ∷ ps) id keys = none
  diff_loop (suc fuel) (p ∷ ps) id keys =
      let w =
        run_level (chunks frontier_chunk (p ∷ ps))
          (record { request_id = id; keys_to_fetch = keys; next = [] }) in
      diff_loop fuel w.next w.request_id w.keys_to_fetch

module _ (ask_data : ℕ → List Text → Option (List (Text × Text))) where
  unfoldable pub fetch_all : List (List Text) → ℕ → List (Text × Text)
  fetch_all [] id = []
  fetch_all (chunk ∷ rest) id = request ask_data id chunk ++ fetch_all rest (id + 1)

-- The walk and the fetches of `run_diff_session`: what it hands to `apply_fetched`.
unfoldable pub run_diff_session :
    MerkleTreeSnapshot
    → (ℕ → List Text → Option (List MerkleNodeAnswer))
    → (ℕ → List Text → Option (List (Text × Text)))
    → ℕ
    → ℕ
    → Option (List (Text × Text))
run_diff_session snap ask_nodes ask_data fuel id =
    Option.map (λ r. fetch_all ask_data (chunks data_chunk r.1) r.0)
      (diff_loop snap ask_nodes fuel (root_name ∷ []) id [])
