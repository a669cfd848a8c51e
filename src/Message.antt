-- ===== src/Message.antt =====
-- The frame of a message: message/src/lib.rs (`build_message_packet`, `ProtocolIDTranslator`),
-- connection/src/request/handler/default.rs (`handle`), and the reading of a frame in
-- state/src/node/mod.rs.
pub mod RoundTrip
use leopard.Prelude.{
  ℕ, Bool, Option, none, some, List, [], ◌∷◌, ◌++◌, Text, codes, length, take, drop, replicate, ltb,
  ◌==◌, if◌then◌else◌,
}
use leopard.Riblt.Symbols.{to_be_bytes, from_be_bytes}

unfoldable pub translate : ℕ → Text
translate protocol_id =
    if protocol_id == 1
    then codes "riblt"
    else if protocol_id == 2
    then codes "merkle"
    else if protocol_id == 3
    then codes "rbf_riblt"
    else if protocol_id == 5
    then codes "replication"
    else codes "other"

unfoldable pub build_message_packet : Option ℕ → ℕ → Text → Text
build_message_packet protocol sender_port body_bytes =
    (elim protocol [ some id ↦ to_be_bytes 8 id | none ↦ replicate 8 0 ])
    ++ (to_be_bytes 2 sender_port ++ (replicate 6 0 ++ body_bytes))

unfoldable pub handle : Text → ℕ
handle stream = if ltb (length stream) 8 then 0 else from_be_bytes 0 (take 8 stream)

-- What the loop over a connection passes to the route handler.
pub record Request : Type 0 where
  pub buffer : Text
  pub protocol_id : ℕ
  pub sender_port : ℕ

-- One frame of a connection, without its length; none is a frame too small, which ends the loop.
unfoldable pub read_frame : Text → Option Request
read_frame buffer =
    if ltb (length buffer) 16
    then none
    else some (record {
      buffer = buffer;
      protocol_id = handle buffer;
      sender_port = from_be_bytes 0 (take 2 (drop 8 buffer));
    })
