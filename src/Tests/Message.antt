-- ===== src/Tests/Message.antt =====
-- A packet, built and read back.
use leopard.Prelude.{◌≡◌, some, Text, codes, arith}
use leopard.Message.{build_message_packet, read_frame}
use leopard.Message.RoundTrip.{read_frame-build_message_packet}

abbrev packet : Text
packet = build_message_packet (some 2) 8080 (codes "hello")

read_frame-build_message_packet_example :
    read_frame packet ≡ some (record { buffer = packet; protocol_id = 2; sender_port = 8080 })
read_frame-build_message_packet_example =
    read_frame-build_message_packet (some 2) 8080 (codes "hello") (omega arith) (omega arith)
