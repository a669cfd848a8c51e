-- ===== src/Merkle/Sync/Exchange.antt =====
-- A whole exchange: the initiator ends with the merge of its data and the responder's, in the
-- storage and in the tree, and two exchanges, one each way, leave both trees equal.
use leopard.Prelude.{
  ℕ, ◌<◌, ◌≡◌, ap, ◌∙◌, sym, true, false, Option, some, List, ◌++◌, concat-chunks, chunks, Text,
  text_eq, text_eq_iff, contains, contains-append, length, arith, Bool-cases, Option-cases, inl,
  inr, All,
}
use leopard.State.Dash.{DashMap}
use leopard.State.Storage.{KeyValueDataStateStorage}
use leopard.Merkle.Tree.{BinaryMerkleTree, get_root_hash, snapshot}
use leopard.Merkle.Tree.Built.{inputs, build_recursive-Built, Built}
use leopard.Merkle.Tree.Hash.{IsShaped}
use leopard.Merkle.Tree.Valid.{lookup, IsValid}
use leopard.Merkle.Tree.Agree.{
  is_collision_free, collision_free_eq, collision_free_nonzero, get_root_hash_iff,
}
use leopard.Merkle.Session.{data_answer, fetch_all, run_diff_session, data_chunk}
use leopard.Merkle.Session.Walk.{differing, height}
use leopard.Merkle.Session.Loop.{honest, diff_loop_root}
use leopard.Merkle.Session.Missing.{has, differing_complete}
use leopard.Merkle.Sync.{apply_fetched, handle_sync_root}
use leopard.Merkle.Sync.Merge.{merge, merge-none, merge_idem, merge_all-data_answer, merge_all}
use leopard.Merkle.Sync.Apply.{
  honest_data, fetch_all_honest, apply_fetched_lem, Mirrors, has-get, get-has,
}

module _ (digest : Text → Text) (digest_length : (x : Text) → length (digest x) ≡ 32) (w : ℕ)
    (s t : BinaryMerkleTree) (valid : IsValid digest s) (peer_valid : IsValid digest t)
    (shaped : All (IsShaped w) s.entries) (peer_shaped : All (IsShaped w) t.entries)
    (free : is_collision_free digest (inputs digest s.entries ++ inputs digest t.entries)
      ≡ true) where
  abbrev hashed : List Text
  hashed = inputs digest s.entries ++ inputs digest t.entries

  abbrev Within : Text → Type 0
  Within x = contains x hashed ≡ true

  s-Built : Built digest Within s.entries s.root
  s-Built = rw valid.built (
      build_recursive-Built digest Within s.entries (λ x m.
        ground (arith, contains-append x (inputs digest s.entries) (inputs digest t.entries))))

  t-Built : Built digest Within t.entries t.root
  t-Built = rw peer_valid.built (
      build_recursive-Built digest Within t.entries (λ x m.
        ground (arith, contains-append x (inputs digest s.entries) (inputs digest t.entries))))

  -- A key that is not among the differing ones needs no merge.
  not_differing :
      (j : Text)
      → contains j (differing s.root t.root) ≡ false
      → lookup j s ≡ merge (lookup j s) (lookup j t)
  not_differing j out = elim (Option-cases (lookup j t)) [
    | inl e ↦ sym (ap (merge (lookup j s)) e ∙ merge-none (lookup j s))
    | inr (v, e) ↦ elim (Bool-cases (has j v s.entries)) [
      | inl h ↦
          let same : lookup j s ≡ lookup j t = get-has j v s.entries valid.sorted h ∙ sym e in
          sym (merge_idem (lookup j s)) ∙ ap (merge (lookup j s)) same
      | inr h ↦
          let inside =
            differing_complete digest digest_length Within
              (λ x y m n. collision_free_eq digest hashed x y free m n)
              (λ x m. collision_free_nonzero digest hashed x free m) w j v t-Built s.entries s.root
              s-Built shaped peer_shaped (has-get j v t.entries e) h in
          cc
    ]
  ]

  -- What the session hands to `apply_fetched`: it ends, and brings in the responder's value of
  -- each key that needs a merge.
  session_fetches :
      (fuel id : ℕ)
      → height t.root < fuel
      → (fetched : List (Text × Text)) × (run_diff_session
            (snapshot s)
            (honest (snapshot t))
            (honest_data t.entries)
            fuel
            id
          ≡ some fetched)
        × ((j : Text) → merge_all j fetched (lookup j s) ≡ merge (lookup j s) (lookup j t))
  unfolding run_diff_session snapshot
  session_fetches fuel id tall =
      let r = diff_loop_root s.root t.root fuel id tall in
      let found = r.1 in
      let all : fetch_all (honest_data t.entries) (chunks data_chunk found) r.0
          ≡ data_answer t.entries found =
        fetch_all_honest t.entries (chunks data_chunk found) r.0
        ∙ ap (data_answer t.entries) (concat-chunks data_chunk found (omega arith)) in
      (
        data_answer t.entries found,
        rw r.2 (ap some all),
        λ j.
            ground
              (arith, merge_all-data_answer j t.entries found (lookup j s), r.3 j, not_differing j),
      )

  module _ (D : DashMap) (L : Type 0) (storage : KeyValueDataStateStorage D L)
      (mirrors : Mirrors D L digest storage s) where
    -- What an exchange returns: a valid tree that mirrors the storage, in which each key has the
    -- greater of the two values.
    abbrev pub Merged : Option (KeyValueDataStateStorage D L × BinaryMerkleTree) → Type 0
    Merged r =
        (storage' : KeyValueDataStateStorage D L) × (s' : BinaryMerkleTree) × (r
          ≡ some (storage', s'))
        × IsValid digest s'
        × Mirrors D L digest storage' s'
        × ((j : Text) → lookup j s' ≡ merge (lookup j s) (lookup j t))

    -- Against a responder that answers in time from its tree, with fuel above the height of that
    -- tree, an exchange returns: the initiator's tree is valid again, mirrors the storage, and maps
    -- each key to the greater of the two nodes' values. The initiator's tree starts in step with its
    -- storage, both trees start valid, with keys of one length and no entry of 64 bytes, the digest
    -- has 32 bytes, and it does not collide on the strings they hash.
    pub exchange_merges :
        (fuel id : ℕ)
        → height t.root < fuel
        → Merged (
            handle_sync_root D L digest
              (honest (snapshot t))
              (honest_data t.entries)
              fuel
              id
              (get_root_hash t.root)
              storage
              s)
    unfolding handle_sync_root
    exchange_merges fuel id tall =
        elim (Bool-cases (text_eq (get_root_hash s.root) (get_root_hash t.root))) [
          | inl e ↦
              let alike =
                (get_root_hash_iff digest digest_length w s t valid peer_valid shaped peer_shaped
                    free).0
                  ((text_eq_iff (get_root_hash s.root) (get_root_hash t.root)).0 e) in
              (
                storage,
                s,
                rw e,
                valid,
                mirrors,
                λ j. sym (merge_idem (lookup j s)) ∙ ap (merge (lookup j s)) (alike j),
              )
          | inr e ↦
              let f = session_fetches fuel id tall in
              let after = apply_fetched D L digest storage s f.0 in
              let done = apply_fetched_lem D L digest storage s f.0 in
              (
                after.0,
                after.1,
                rw (e, f.1),
                done.0,
                done.1,
                λ j. done.2 j ∙ ap (merge_all j f.0) (mirrors j) ∙ f.2 j,
              )
        ]
