-- ===== src/Packet/Publish.antt =====
-- The buffer that `_mosquitto_send_real_publish` fills, the fields read back, and the message ids.
use wirenboard.Common.{
  ℕ, ◌+◌, ◌*◌, ◌%◌, ◌^◌, ◌≤◌, ◌<◌, ◌≡◌, ◌≢◌, refl, arith, Bool, true, if◌then◌else◌, ltb, bit_or,
  [], ◌∷◌, ◌++◌, length, take, length-append, append-nil, append_assoc, Bytes,
}
use wirenboard.Packet.Outgoing.{
  Packet, Result, ok, flag, new_packet, length_bytes, packet_alloc, msb, lsb, write_byte,
  write_bytes, write_uint16, write_string, real_publish, mid_generate,
}
use wirenboard.Packet.Length.{length_bytes_short}

-- The buffer is filled up to `pos`.
abbrev Filled : Packet → Type 0
Filled p = length p.payload ≡ p.pos

-- The result is `p` with `bytes` written behind it.
abbrev pub appended : Packet → Bytes → Packet
appended p bytes = record p { payload = p.payload ++ bytes; pos = p.pos + length bytes }

abbrev Writes : Packet → Bytes → Result Packet → Type 0
Writes p bytes r = r ≡ ok (appended p bytes)

pub write_uint16_lem :
    (p : Packet) (word : ℕ)
    → p.pos + 2 ≤ p.packet_length
    → Writes p (msb word ∷ lsb word ∷ []) (write_uint16 p word)
unfolding write_uint16 write_byte
write_uint16_lem p word h = ground (arith, append_assoc p.payload (msb word ∷ []) (lsb word ∷ []))

take_all : (xs : Bytes) → take (length xs) xs ≡ xs
take_all [] = refl
take_all (x ∷ xs) = rw (take_all xs)

pub write_bytes_lem :
    (p : Packet) (bytes : Bytes)
    → p.pos + length bytes ≤ p.packet_length
    → p.packet_length < 2 ^ 32
    → Writes p bytes (write_bytes p bytes (length bytes))
unfolding write_bytes
write_bytes_lem p bytes h small = ground (arith, take_all bytes)

pub write_string_lem :
    (p : Packet) (str : Bytes)
    → length str < 2 ^ 16
    → p.pos + 2 + length str ≤ p.packet_length
    → p.packet_length < 2 ^ 32
    → Writes p (msb (length str) ∷ lsb (length str) ∷ str) (write_string p str (length str))
unfolding write_string
write_string_lem p str s h limit =
    let small : length str % 2 ^ 16 ≡ length str = omega arith in
    rw
      (
        small,
        write_uint16_lem p (length str) (omega arith),
        write_bytes_lem (appended p (msb (length str) ∷ lsb (length str) ∷ [])) str (omega arith)
            limit,
      )
      (ground (arith, append_assoc p.payload (msb (length str) ∷ lsb (length str) ∷ []) str))

-- `write_if b` leaves the packet alone when the test `b` fails.
abbrev pub id_field : ℕ → ℕ → Bytes
id_field qos mid = if ltb 0 qos then msb mid ∷ lsb mid ∷ [] else []

id_Writes :
    (p : Packet) (qos mid : ℕ)
    → p.pos + length (id_field qos mid) ≤ p.packet_length
    → Writes p (id_field qos mid) (if ltb 0 qos then write_uint16 p mid else ok p)
id_Writes p qos mid h = ground (arith, write_uint16_lem p mid, append-nil p.payload)

payload_Writes :
    (p : Packet) (bytes : Bytes)
    → p.pos + length bytes ≤ p.packet_length
    → p.packet_length < 2 ^ 32
    → Writes p bytes (if ltb 0 (length bytes) then write_bytes p bytes (length bytes) else ok p)
payload_Writes p [] h limit = ground (arith, append-nil p.payload)
payload_Writes p (b ∷ bytes) h limit = ground (arith, write_bytes_lem p (b ∷ bytes) h limit)

-- The packet that `_mosquitto_send_real_publish` allocates, before its fields are written.
abbrev header_of : ℕ → ℕ → ℕ → Packet
header_of mid command size = record (new_packet command size) {
  mid = mid;
  remaining_count = length (length_bytes 5 size);
  packet_length = size + 1 + length (length_bytes 5 size);
  pos = 1 + length (length_bytes 5 size);
  payload = command ∷ length_bytes 5 size;
}

packet_alloc_fits :
    (mid command size : ℕ)
    → size < 2 ^ 28
    → packet_alloc true (record (new_packet command size) { mid = mid })
      ≡ ok (header_of mid command size)
unfolding packet_alloc
packet_alloc_fits mid command size h = ground (arith, length_bytes_short size h)

abbrev pub fields : Bytes → Bytes → ℕ → ℕ → Bytes
fields topic payload qos mid =
    (msb (length topic) ∷ lsb (length topic) ∷ topic) ++ id_field qos mid ++ payload

fields_length :
    (topic payload : Bytes) (qos mid : ℕ)
    → length (topic ++ id_field qos mid ++ payload)
      ≡ length topic + length (id_field qos mid) + length payload
fields_length topic payload qos mid = omega (
  arith,
  length-append topic (id_field qos mid),
  length-append (topic ++ id_field qos mid) payload,
)

-- A publication whose topic fits a string of the protocol and whose size fits the remaining length
-- is encoded: the buffer holds the command, the remaining length, the topic behind its length, the
-- message id when the quality of service is not 0, and the payload, in this order, and they fill
-- it exactly.
pub real_publish_lem :
    (mid : ℕ) (topic payload : Bytes) (qos : ℕ) (retain dup : Bool)
    → length topic < 2 ^ 16
    → length (fields topic payload qos mid) < 2 ^ 28
    → (q : Packet) × (real_publish true mid topic payload qos retain dup ≡ ok q)
      × (q.payload
          ≡ q.command ∷ length_bytes 5 (length (fields topic payload qos mid))
            ++ fields topic payload qos mid)
      × (q.pos ≡ q.packet_length)
      × (length q.payload ≡ q.packet_length)
unfolding real_publish
real_publish_lem mid topic payload qos retain dup ht hs =
    let size = length (fields topic payload qos mid) in
    let total = fields_length topic payload qos mid in
    let name = msb (length topic) ∷ lsb (length topic) ∷ topic in
    let command =
      bit_or (bit_or (bit_or 0x30 (flag dup * 2 ^ 3)) (qos * 2)) (flag retain) % 2 ^ 8 in
    let p = header_of mid command size in
    let p' = appended p name in
    let p'' = appended p' (id_field qos mid) in
    let len : 2 + length topic + length payload + (if ltb 0 qos then 2 else 0) ≡ size =
      ground (arith, total) in
    let short = length_bytes_short size hs in
    let limit : p.packet_length < 2 ^ 32 = omega (arith, short) in
    let wrap : size % 2 ^ 32 ≡ size = omega arith in
    (
      appended p'' payload,
      rw
          (
            len,
            wrap,
            packet_alloc_fits mid command size hs,
            write_string_lem p topic ht (omega (arith, total)) limit,
            id_Writes p' qos mid (omega (arith, total)),
            payload_Writes p'' payload (omega (arith, total)) limit,
          )
          refl,
      simp append_assoc,
      omega (arith, total),
      omega (
        arith,
        total,
        length-append (length_bytes 5 size) name,
        length-append (length_bytes 5 size ++ name) (id_field qos mid),
        length-append ((length_bytes 5 size ++ name) ++ id_field qos mid) payload,
      ),
    )

-- A message id is never 0, fits 16 bits, differs from the one before, and follows it, with 1 after
-- 65535.
pub mid_generate_range :
    (last_mid : ℕ)
    → last_mid < 2 ^ 16
    → (0 < mid_generate last_mid)
      × (mid_generate last_mid < 2 ^ 16)
      × (mid_generate last_mid ≢ last_mid)
      × (mid_generate last_mid ≡ last_mid % 65535 + 1)
unfolding mid_generate
mid_generate_range last_mid h = (ground arith, ground arith, λ e. ground arith, ground arith)
