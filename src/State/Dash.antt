-- ===== src/State/Dash.antt =====
-- What the storage uses of `dashmap::DashMap<String, String>`, a third-party concurrent map: an
-- insert replaces, a read sees the last insert, and the iterator yields each key with its value.
use leopard.Prelude.{◌≡◌, Option, none, some, List, Text, text_eq, if◌then◌else◌}
use leopard.Prelude.BTreeMap.Laws.{last_of}

pub record DashMap : Type 1 where
  pub Map : Type 0
  pub new : Map
  pub insert : Text → Text → Map → Map
  pub get : Text → Map → Option Text
  pub iter : Map → List (Text × Text)
  pub get-new : (k : Text) → get k new ≡ none
  pub get-insert :
      (k j v : Text) (m : Map) → get j (insert k v m) ≡ (if text_eq k j then some v else get j m)
  pub get-iter : (k : Text) (m : Map) → last_of k (iter m) none ≡ get k m
