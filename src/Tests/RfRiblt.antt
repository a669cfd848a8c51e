-- ===== src/Tests/RfRiblt.antt =====
-- A filter that goes over the wire, and two nodes at the end of a round.
use leopard.Prelude.{
  ◌+◌, ◌≡◌, ◌++◌, ◌↔◌, ◌||◌, refl, true, false, ◌⊎◌, Option, none, some, List, [], ◌∷◌, Text, codes,
  All, arith, text_eq, text_eq_iff, if◌then◌else◌, length,
}
use leopard.State.Storage.Laws.{reads}
use leopard.Riblt.Symbols.{RibltSymbol, RibltCodedSymbol}
use leopard.Riblt.Session.{try_decode_blocking, peel_result, add_coded_symbols}
use leopard.Riblt.Decoder.{RatelessIblt, DecoderOps}
use leopard.Ribbon.Params.{standard, validate}
use leopard.Ribbon.Filter.{RibbonFilter}
use leopard.Ribbon.Filter.{contains as filter_contains}
use leopard.RfRiblt.Wire.{filter_bytes, reconstruct_filter_from_bytes, build_filter_bytes}
use leopard.RfRiblt.Wire.Filter.{reconstruct-filter_bytes}
use leopard.RfRiblt.Wire.Built.{build_filter_bytes_lem}
use leopard.RfRiblt.Protocol.{Libraries, RfRibltProtocol, s_com_send_symbol, sending_symbols}
use leopard.RfRiblt.Exchange.{exchange, Ready}
use leopard.RfRiblt.Agree.{exchange_lem}
use leopard.Tests.Fixtures.{write_log, Listener, our_storage, storage_of}

abbrev two_rows : RibbonFilter
two_rows = record {
  params = record {
    m = 2;
    w = 1;
    r = 12;
    mode = standard;
    seed = 77;
    retry_limit = 1;
    grow_limit = 0;
  };
  z = (4095 ∷ []) ∷ (300 ∷ []) ∷ [];
  stride_words = 1;
}

sent_valid : validate two_rows.params ≡ none
unfolding validate
sent_valid = refl

reconstruct-filter_bytes_example :
    reconstruct_filter_from_bytes (filter_bytes two_rows) ≡ some two_rows
reconstruct-filter_bytes_example = reconstruct-filter_bytes two_rows (record {
  valid = sent_valid;
  retry_one = refl;
  grow_none = refl;
  stride = refl;
  size = refl;
  rows = ((omega arith, omega arith, refl), ((omega arith, omega arith, refl), tt));
  m_lt = omega arith;
  w_lt = omega arith;
  r_lt = omega arith;
  seed_lt = omega arith;
  packed_lt = omega arith;
})

build_filter_bytes_lem_example :
    (bytes : Text) × (f : RibbonFilter) × (build_filter_bytes length
        (λ n. n + 7)
        9
        (codes "a" ∷ codes "bc" ∷ [])
      ≡ some (bytes, 9))
    × (reconstruct_filter_from_bytes bytes ≡ some f)
    × All (λ key. filter_contains length key f ≡ true) (codes "a" ∷ codes "bc" ∷ [])
build_filter_bytes_lem_example =
    build_filter_bytes_lem length (λ n. n + 7) 9 (codes "a" ∷ codes "bc" ∷ []) (omega arith)

abbrev their_b : RibltSymbol
their_b = record { key = codes "b"; value = codes "4" }

abbrev our_b : RibltSymbol
our_b = record { key = codes "b"; value = codes "7" }

-- A coded symbol carries a symbol, and the decoder has one symbol that the sender has not.
abbrev spelled : DecoderOps
spelled = record {
  Decoder = List RibltSymbol × List RibltSymbol;
  new = ([], []);
  add_symbol = λ s d. d;
  add_coded_symbol = λ c d. (record { key = c.sum; value = codes "7" } ∷ d.0, d.1);
  try_decode = λ d. ([], d.1 ++ d.0);
  decoded = λ d. true;
  remote_symbols = λ d. d.1;
  local_symbols = λ d. their_b ∷ [];
  remote_symbols-new = refl;
  remote_symbols-add_symbol = λ s d. refl;
  remote_symbols-add_coded_symbol = λ c d. refl;
  remote_symbols-try_decode = λ d. (d.0, refl);
}

abbrev a_symbol : RibltCodedSymbol
a_symbol = record { sum = codes "b"; hash = 0; count = 1 }

abbrev listed : RatelessIblt
listed = record { Encoder = Unit {0}; new = λ symbols. tt; next_coded_symbol = λ e. (a_symbol, tt) }

abbrev two_nodes : Libraries
two_nodes = record {
  D = write_log;
  L = Listener;
  R = spelled;
  E = listed;
  get_coded_symbol = λ i e. (a_symbol, tt);
  hash_one = length;
  hash_pairs = λ ps. 1;
  scaled = λ n. n + 7;
}

abbrev node_a : RfRibltProtocol two_nodes
node_a = record {
  storage = our_storage;
  filter_receiving_states = λ n. none;
  scom_sending_states =
      λ n. some (record { state = sending_symbols; local_iblt = tt; session_id = codes "s" });
  scom_receiving_states = λ n. none;
  pending_value_fetch_sessions = λ n. none;
  last_reconciled_fingerprint = λ n. none;
  reconciliation_initiated_with = λ n. none;
  captured_stn = λ n. some (codes "a" ∷ []);
}

abbrev node_b : RfRibltProtocol two_nodes
node_b = record {
  storage = storage_of ((codes "c", codes "2") ∷ (codes "b", codes "4") ∷ []) none;
  filter_receiving_states = λ n. some (record {
    session_id = codes "f";
    s_com = codes "b" ∷ [];
    s_tn = codes "c" ∷ [];
    riblt_started = true;
  });
  scom_sending_states = λ n. none;
  scom_receiving_states = λ n. some (record { decoder = ([], []); session_id = codes "s" });
  pending_value_fetch_sessions = λ n. none;
  last_reconciled_fingerprint = λ n. none;
  reconciliation_initiated_with = λ n. none;
  captured_stn = λ n. none;
}

last_one :
    (j w k v : Text) (d : Option Text)
    → ((j ≡ k) × (w ≡ v)) ⊎ ⊥
      ↔ ((text_eq j k || false) ≡ true) × ((if text_eq j k then some w else d) ≡ some v)
last_one j w k v d = grind (arith, text_eq_iff j k)

ready : Ready two_nodes (codes "na") (codes "nb") (codes "s") (a_symbol ∷ []) node_a node_b
unfolding try_decode_blocking peel_result add_coded_symbols
ready = record {
  s_com = codes "b" ∷ [];
  s_tn = codes "a" ∷ [];
  sending = record { state = sending_symbols; local_iblt = tt; session_id = codes "s" };
  sending_is = refl;
  sending_session = refl;
  captured = refl;
  covered_a = λ k v e. ground arith;
  receiving = record { decoder = ([], []); session_id = codes "s" };
  receiving_is = refl;
  receiving_session = refl;
  partition = record {
    session_id = codes "f";
    s_com = codes "b" ∷ [];
    s_tn = codes "c" ∷ [];
    riblt_started = true;
  };
  partition_is = refl;
  covered_b = λ k v e. ground arith;
  symbols_a = our_b ∷ [];
  symbols_b = their_b ∷ [];
  are_a = λ k v.
      last_one (codes "b") (codes "7") k v
        (if text_eq (codes "a") k then some (codes "1") else none);
  are_b = λ k v.
      last_one (codes "b") (codes "4") k v
        (if text_eq (codes "c") k then some (codes "2") else none);
  decoded = refl;
  remote = λ k v h n. h;
  local = λ k v h n. h;
}

-- The node that had 7 under b has 4 there, and the node that had 4 has 7.
exchange_lem_example :
    let r =
      exchange two_nodes
        (codes "na")
        (codes "nb")
        (s_com_send_symbol (codes "s") (a_symbol ∷ []) ∷ [])
        node_a
        node_b in
    (reads write_log Listener (codes "b") r.0.storage ≡ some (codes "4"))
    × (reads write_log Listener (codes "b") r.1.storage ≡ some (codes "7"))
exchange_lem_example =
    exchange_lem two_nodes (codes "na") (codes "nb") (codes "s") (a_symbol ∷ []) node_a node_b ready
      (codes "b")
