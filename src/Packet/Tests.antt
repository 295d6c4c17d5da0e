-- ===== src/Packet/Tests.antt =====
-- The packets at concrete inputs.
use wirenboard.Common.{◌≡◌, refl, arith, true, false, [], ◌∷◌, ◌++◌, length, Bytes}
use wirenboard.Packet.Outgoing.{
  Packet, ok, length_bytes, packet_alloc, new_packet, write_string, write_uint16, write_bytes,
  real_publish,
}
use wirenboard.Packet.Incoming.{
  LengthState, start_length, finished, waiting, protocol, read_length, got, read_string,
}
use wirenboard.Packet.Length.{packet_alloc-read_length}
use wirenboard.Packet.Fields.{arrived, write_string-read_string}
use wirenboard.Packet.Publish.{fields, real_publish_lem}

abbrev big : Packet
big = new_packet 0x30 321

abbrev big_made : Packet
big_made = record big {
  remaining_count = 2;
  packet_length = 324;
  pos = 3;
  payload = 0x30 ∷ 193 ∷ 2 ∷ [];
}

packet_alloc-big : packet_alloc true big ≡ ok big_made
unfolding packet_alloc length_bytes
packet_alloc-big = refl

publish_small :
    real_publish true 7 (97 ∷ 98 ∷ []) (1 ∷ []) 1 true false
    ≡ ok (record (new_packet 0x33 7) {
      mid = 7;
      remaining_count = 1;
      packet_length = 9;
      pos = 9;
      payload = 0x33 ∷ 7 ∷ 0 ∷ 2 ∷ 97 ∷ 98 ∷ 0 ∷ 7 ∷ 1 ∷ [];
    })
unfolding real_publish packet_alloc length_bytes write_string write_uint16 write_bytes
publish_small = refl

-- Five bytes that all announce another one are refused.
read_length_too_long : read_length start_length (255 ∷ 255 ∷ 255 ∷ 255 ∷ 255 ∷ []) ≡ protocol
unfolding read_length
read_length_too_long = refl

packet_alloc-read_length_example :
    (st : LengthState) × (read_length start_length (193 ∷ 2 ∷ 9 ∷ []) ≡ finished st (9 ∷ []))
    × (st.remaining_length ≡ 321)
    × (st.count ≡ 2)
packet_alloc-read_length_example =
    packet_alloc-read_length true big big_made (9 ∷ []) packet_alloc-big

half :
    read_length start_length (193 ∷ [])
    ≡ waiting (record { count = 1; remaining_mult = 128; remaining_length = 65 })
unfolding read_length
half = refl

write_string-read_string_example :
    (q : Packet) × (write_string big_made (97 ∷ 98 ∷ []) 2 ≡ ok q)
    × (read_string true (arrived (q.payload ++ 5 ∷ []) 3)
        ≡ got (97 ∷ 98 ∷ []) (arrived (q.payload ++ 5 ∷ []) q.pos))
write_string-read_string_example =
    write_string-read_string true big_made (97 ∷ 98 ∷ []) (5 ∷ []) refl (omega arith) (omega arith)
      (omega arith)

abbrev small_fields : Bytes
small_fields = fields (97 ∷ 98 ∷ []) (1 ∷ []) 1 7

real_publish_lem_example :
    (q : Packet) × (real_publish true 7 (97 ∷ 98 ∷ []) (1 ∷ []) 1 true false ≡ ok q)
    × (q.payload ≡ q.command ∷ length_bytes 5 (length small_fields) ++ small_fields)
    × (q.pos ≡ q.packet_length)
    × (length q.payload ≡ q.packet_length)
real_publish_lem_example =
    real_publish_lem 7 (97 ∷ 98 ∷ []) (1 ∷ []) 1 true false (omega arith) (omega arith)
