-- ===== src/RfRiblt/Fetch.antt =====
-- rf_riblt/receiver.rs, an answered fetch: what the storage reads after the entries of the neighbour are stored.
use leopard.Prelude.{
  ◌≡◌, refl, sym, ap, ◌∙◌, ◌||◌, Bool, Option, none, some, List, [], ◌∷◌, map, Text, text_eq,
  text_eq_iff, arith, if◌then◌else◌, contains, Bool-cases, inl, inr,
}
use leopard.Prelude.BTreeMap.Laws.{last_of}
use leopard.State.Storage.{DefaultDataStateItem, KeyValueDataStateStorage, items}
use leopard.State.Storage.Laws.{reads, last_of-items}
use leopard.Riblt.Symbols.{RibltSymbol}
use leopard.Riblt.Session.{store_symbols}
use leopard.Riblt.Session.Laws.{store_symbols_lem}
use leopard.RfRiblt.Protocol.{Libraries, RfRibltFetchedEntry}
use leopard.RfRiblt.Handlers.{wanted_entries}

-- The first value where there is one, else the second.
abbrev pub or_else : Option Text → Option Text → Option Text
or_else none d = d
or_else (some v) d = some v

or_else_twice :
    (o : Option Text) (v : Text) (d : Option Text)
    → or_else (or_else o (some v)) d ≡ or_else o (some v)
or_else_twice none v d = refl
or_else_twice (some u) v d = refl

last_of-or_else :
    (k : Text) (es : List (Text × Text)) (d : Option Text)
    → last_of k es d ≡ or_else (last_of k es none) d
last_of-or_else k [] d = refl
last_of-or_else k ((j, v) ∷ es) d = elim (Bool-cases (text_eq j k)) [
  | inl e ↦ rw e (
      last_of-or_else k es (some v)
      ∙ sym (or_else_twice (last_of k es none) v d)
      ∙ ap (λ o. or_else o d) (sym (last_of-or_else k es (some v))))
  | inr e ↦ rw e (last_of-or_else k es d)
]

-- The stored entries of the keys that were asked for.
abbrev pub asked : List Text → List Text → Text → Bool
asked keys s_tn k = contains k keys || contains k s_tn

entry_pairs : List RfRibltFetchedEntry → List (Text × Text)
entry_pairs = map (λ (e : RfRibltFetchedEntry). (e.key, e.value))

module _ (W : Libraries) (keys s_tn : List Text) (k : Text) where
  last_of-wanted_entries :
      (its : List DefaultDataStateItem) (d : Option Text)
      → last_of k (entry_pairs (wanted_entries W keys s_tn its)) d ≡ (
          if asked keys s_tn k
          then last_of k (map (λ (i : DefaultDataStateItem). (i.key, i.value)) its) d
          else d)
  unfolding wanted_entries entry_pairs
  last_of-wanted_entries [] d = ground arith
  last_of-wanted_entries (item ∷ its) d = ground (
    arith,
    last_of-wanted_entries its d,
    last_of-wanted_entries its (some item.value),
    text_eq_iff item.key k,
  )

pairs_of_symbols :
    (es : List RfRibltFetchedEntry)
    → map
        (λ (s : RibltSymbol). (s.key, s.value))
        (map (λ (e : RfRibltFetchedEntry). record { key = e.key; value = e.value }) es)
      ≡ entry_pairs es
unfolding entry_pairs
pairs_of_symbols [] = refl
pairs_of_symbols (e ∷ es) = ap (◌∷◌ (e.key, e.value)) (pairs_of_symbols es)

module _ (W : Libraries) where
  open W use {D, L}

  -- After the node with `mine` stores what the node with `theirs` answers, a key that was asked for reads
  -- as theirs where they have it, and any other as before.
  pub reads-answered :
      (keys s_tn : List Text) (theirs mine : KeyValueDataStateStorage D L) (k : Text)
      → reads D L k (
          store_symbols D L
            (map
              (λ (e : RfRibltFetchedEntry). record { key = e.key; value = e.value })
              (wanted_entries W keys s_tn (items D L theirs)))
            mine)
        ≡ (if asked keys s_tn k
            then or_else (reads D L k theirs) (reads D L k mine)
            else reads D L k mine)
  reads-answered keys s_tn theirs mine k =
      let entries = wanted_entries W keys s_tn (items D L theirs) in
      store_symbols_lem D L
        (map (λ (e : RfRibltFetchedEntry). record { key = e.key; value = e.value }) entries) mine k
      ∙ ap (λ es. last_of k es (reads D L k mine)) (pairs_of_symbols entries)
      ∙ last_of-wanted_entries W keys s_tn k (items D L theirs) (reads D L k mine)
      ∙ ap (λ o. if asked keys s_tn k then o else reads D L k mine)
          (last_of-or_else k
              (map (λ (i : DefaultDataStateItem). (i.key, i.value)) (items D L theirs))
              (reads D L k mine)
            ∙ ap (λ o. or_else o (reads D L k mine)) (last_of-items D L k theirs))
