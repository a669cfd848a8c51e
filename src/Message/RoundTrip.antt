-- ===== src/Message/RoundTrip.antt =====
-- Reading back the header of a packet.
use leopard.Prelude.{
  ℕ, ◌+◌, ◌^◌, ◌≤◌, ◌<◌, ◌≡◌, refl, sym, ap, Option, none, some, ◌++◌, Text, length, length-append,
  replicate, ltb, arith, false,
}
use leopard.Riblt.Symbols.{to_be_bytes}
use leopard.Riblt.Symbols.RoundTrip.{
  take_at, drop_at, from_be_bytes-to_be_bytes, length-to_be_bytes,
}
use leopard.Message.{build_message_packet, handle, read_frame}

-- The id that a packet carries: 0 stands for none.
abbrev pub id_of : Option ℕ → ℕ
id_of none = 0
id_of (some id) = id

to_be_bytes_zero : to_be_bytes 8 0 ≡ replicate 8 0
unfolding to_be_bytes
to_be_bytes_zero = refl

packet_shape :
    (protocol : Option ℕ) (port : ℕ) (body : Text)
    → build_message_packet protocol port body
      ≡ to_be_bytes 8 (id_of protocol) ++ (to_be_bytes 2 port ++ (replicate 6 0 ++ body))
unfolding build_message_packet
packet_shape none port body =
    ap (λ h. h ++ (to_be_bytes 2 port ++ (replicate 6 0 ++ body))) (sym to_be_bytes_zero)
packet_shape (some id) port body = refl

header :
    (id port : ℕ) (rest : Text)
    → id < 2 ^ 64
    → port < 2 ^ 16
    → 6 ≤ length rest
    → let packet = to_be_bytes 8 id ++ (to_be_bytes 2 port ++ rest) in
      read_frame packet ≡ some (record { buffer = packet; protocol_id = id; sender_port = port })
unfolding read_frame handle
header id port rest h g long =
    let head = to_be_bytes 8 id in
    let tail = to_be_bytes 2 port ++ rest in
    let size : length (head ++ tail) ≡ 10 + length rest = omega (
      arith,
      length-append head tail,
      length-append (to_be_bytes 2 port) rest,
      length-to_be_bytes 8 id,
      length-to_be_bytes 2 port,
    ) in
    let enough : ltb (length (head ++ tail)) 16 ≡ false = ground (arith, size) in
    let enough' : ltb (length (head ++ tail)) 8 ≡ false = ground (arith, size) in
    rw
      (
        enough,
        enough',
        take_at 8 head tail (sym (length-to_be_bytes 8 id)),
        drop_at 8 head tail (sym (length-to_be_bytes 8 id)),
        take_at 2 (to_be_bytes 2 port) rest (sym (length-to_be_bytes 2 port)),
        from_be_bytes-to_be_bytes 8 id h,
        from_be_bytes-to_be_bytes 2 port g,
      )
      refl

-- Every packet that is built is long enough to be read, and is read back with its protocol id, 0
-- where it has none, and its sender's port.
pub read_frame-build_message_packet :
    (protocol : Option ℕ) (port : ℕ) (body : Text)
    → id_of protocol < 2 ^ 64
    → port < 2 ^ 16
    → read_frame (build_message_packet protocol port body)
      ≡ some (record {
        buffer = build_message_packet protocol port body;
        protocol_id = id_of protocol;
        sender_port = port;
      })
read_frame-build_message_packet protocol port body h g =
    rw (packet_shape protocol port body)
      (header (id_of protocol) port (replicate 6 0 ++ body) h g (omega arith))
