-- ===== src/Tests/State.antt =====
-- The theorems of the storage and of the check at small data.
use leopard.Prelude.{◌≡◌, ◌↔◌, refl, [], ◌∷◌, some, none, List, arith, Text, codes}
use leopard.Prelude.BTreeMap.Laws.{last_of}
use leopard.State.Storage.{DefaultDataStateItem, KeyValueDataStateStorage, save, get}
use leopard.State.Storage.Laws.{Answer, reads, get_lem, save-get_stale}
use leopard.State.Storage.History.{
  StorageOp, saved, saved_silently, got, flushed, absent, IsTimely, mapped, run_storage,
  run_storage_lem,
}
use leopard.State.Checker.{reconciled, check}
use leopard.State.Checker.Laws.{AllEqual, check_iff}
use leopard.Tests.Fixtures.{
  write_log, Listener, our_entries, their_entries, our_storage, storage_of,
}

abbrev nine : DefaultDataStateItem
nine = record { key = codes "b"; value = codes "9" }

abbrev other : DefaultDataStateItem
other = record { key = codes "d"; value = codes "0" }

-- A storage whose memory holds our entries, and whose file holds theirs.
abbrev stored : KeyValueDataStateStorage write_log Listener
stored = storage_of our_entries (some their_entries)

-- A get while there is no file, a flush after the writes, and then a get that misses and reloads it.
abbrev calls : List StorageOp
calls =
    saved nine
    ∷ got (codes "b")
    ∷ saved_silently other
    ∷ flushed
    ∷ got (codes "x")
    ∷ got (codes "d")
    ∷ []

timely : IsTimely absent calls
timely = ((λ e. ground arith), ((λ e. ground arith), ((λ e. ground arith), tt)))

run_storage_lem_example :
    ((j : Text)
      → reads write_log Listener j (run_storage write_log Listener calls our_storage).0
        ≡ mapped calls (λ k. reads write_log Listener k our_storage) j)
    × ((run_storage write_log Listener calls our_storage).1 ≡ some nine ∷ none ∷ some other ∷ [])
    × ((run_storage write_log Listener calls our_storage).2 ≡ (5, nine) ∷ (6, nine) ∷ [])
run_storage_lem_example = run_storage_lem write_log Listener calls absent our_storage refl timely

get_lem_example :
    Answer write_log Listener (codes "x") stored (get write_log Listener (codes "x") stored)
get_lem_example = get_lem write_log Listener (codes "x") stored

-- The file holds "4" for "b", and "x" is nowhere.
save-get_stale_example :
    reads write_log Listener
      (codes "b")
      (get write_log Listener (codes "x") (save write_log Listener nine stored).0).0
    ≡ some (codes "4")
save-get_stale_example =
    save-get_stale write_log Listener (codes "b") (codes "9") (codes "4") (codes "x") stored
      their_entries refl refl refl refl

check_iff_example :
    (check (our_entries ∷ their_entries ∷ []) ≡ reconciled)
    ↔ ((k : Text) → AllEqual (last_of k our_entries none ∷ last_of k their_entries none ∷ []))
check_iff_example = check_iff (our_entries ∷ their_entries ∷ [])
