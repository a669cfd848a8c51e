-- ===== src/Merkle/Sync/Converge.antt =====
-- Two exchanges, the second the other way, leave both nodes with one tree.
use leopard.Prelude.{ℕ, ◌<◌, ◌≡◌, ap, ◌∙◌, sym, true, some, ◌++◌, Text, length, All}
use mathlib.Core.Option.{some-injective}
use leopard.State.Dash.{DashMap}
use leopard.State.Storage.{KeyValueDataStateStorage}
use leopard.Merkle.Tree.{BinaryMerkleTree, get_root_hash, snapshot}
use leopard.Merkle.Tree.Built.{inputs}
use leopard.Merkle.Tree.Hash.{IsShaped}
use leopard.Merkle.Tree.Valid.{lookup, IsValid, IsValid-ext}
use leopard.Merkle.Tree.Agree.{is_collision_free}
use leopard.Merkle.Session.Walk.{height}
use leopard.Merkle.Session.Loop.{honest}
use leopard.Merkle.Sync.{handle_sync_root}
use leopard.Merkle.Sync.Merge.{merge, merge_absorb_left}
use leopard.Merkle.Sync.Apply.{honest_data, Mirrors}
use leopard.Merkle.Sync.Exchange.{exchange_merges}

module _ (digest : Text → Text) (digest_length : (x : Text) → length (digest x) ≡ 32) (w : ℕ)
    (D : DashMap) (L : Type 0) where
  -- One exchange that ends in the given state has merged the responder's data into it.
  outcome :
      (s t : BinaryMerkleTree)
      → IsValid digest s
      → IsValid digest t
      → All (IsShaped w) s.entries
      → All (IsShaped w) t.entries
      → is_collision_free digest (inputs digest s.entries ++ inputs digest t.entries) ≡ true
      → (storage : KeyValueDataStateStorage D L) → Mirrors D L digest storage s
      → (fuel id : ℕ) → height t.root < fuel
      → (storage' : KeyValueDataStateStorage D L) (s' : BinaryMerkleTree)
      → handle_sync_root D L digest
          (honest (snapshot t))
          (honest_data t.entries)
          fuel
          id
          (get_root_hash t.root)
          storage
          s
        ≡ some (storage', s')
      → IsValid digest s' × ((j : Text) → lookup j s' ≡ merge (lookup j s) (lookup j t))
  outcome s t v v' g g' free storage m fuel id tall storage' s' ran =
      let r =
        exchange_merges digest digest_length w s t v v' g g' free D L storage m fuel id tall in
      let same : (r.0, r.1) ≡ (storage', s') = some-injective _ _ (sym r.2 ∙ ran) in
      let tree : r.1 ≡ s' =
        ap (λ (p : KeyValueDataStateStorage D L × BinaryMerkleTree). p.1) same in
      (rw tree at r.3, λ j. ap (lookup j) (sym tree) ∙ r.5 j)

  -- First the node of `s` pulls from that of `t` and ends with `s'`, then `t` pulls from `s'` and
  -- ends with `t'`: where both exchanges meet the conditions of a merge, `s'` and `t'` are one tree.
  pub exchanges_converge :
      (s t s' t' : BinaryMerkleTree)
      → IsValid digest s
      → IsValid digest t
      → All (IsShaped w) s.entries
      → All (IsShaped w) t.entries
      → All (IsShaped w) s'.entries
      → is_collision_free digest (inputs digest s.entries ++ inputs digest t.entries) ≡ true
      → is_collision_free digest (inputs digest t.entries ++ inputs digest s'.entries) ≡ true
      → (a b a' b' : KeyValueDataStateStorage D L) → Mirrors D L digest a s
      → Mirrors D L digest b t
      → (fuel id id' : ℕ) → height t.root < fuel
      → height s'.root < fuel
      → handle_sync_root D L digest
          (honest (snapshot t))
          (honest_data t.entries)
          fuel
          id
          (get_root_hash t.root)
          a
          s
        ≡ some (a', s')
      → handle_sync_root D L digest
          (honest (snapshot s'))
          (honest_data s'.entries)
          fuel
          id'
          (get_root_hash s'.root)
          b
          t
        ≡ some (b', t')
      → s' ≡ t'
  exchanges_converge s t s' t' v v' g g' g'' free free' a b a' b' m m' fuel id id' tall tall' ran
        ran' =
      let one = outcome s t v v' g g' free a m fuel id tall a' s' ran in
      let two = outcome t s' v' one.0 g' g'' free' b m' fuel id' tall' b' t' ran' in
      IsValid-ext digest s' t' one.0 two.0 λ j. sym (
        two.1 j
        ∙ ap (merge (lookup j t)) (one.1 j)
        ∙ merge_absorb_left (lookup j s) (lookup j t)
        ∙ sym (one.1 j))
