-- ===== src/Packet/Outgoing.antt =====
-- Outgoing packets: `_mosquitto_packet_alloc`, `_mosquitto_write_byte`, `_mosquitto_write_bytes`,
-- `_mosquitto_write_string`, `_mosquitto_write_uint16`, and the commands that use them. The payload
-- is the part of the buffer that has been written, so `pos` is its length.
use wirenboard.Common.{
  ℕ, zero, suc, ◌+◌, ◌*◌, ◌/◌, ◌%◌, ◌^◌, bit_or, Bool, if◌then◌else◌, ltb, leb, ◌==◌, [], ◌∷◌, ◌++◌,
  length, take, Bytes,
}

-- MOSQ_ERR_NOMEM, MOSQ_ERR_PAYLOAD_SIZE, a failed `assert`, and a write behind the buffer.
pub data Fault : Type 0 where
  no_memory payload_size assertion overrun : Fault

pub data Result (A : Type 0) : Type 0 where
  ok : A → Result A
  err : Fault → Result A

infixl 5 ◌>>=◌
abbrev pub ◌>>=◌ : {A B : Type 0} → Result A → (A → Result B) → Result B
ok a >>= f = f a
err e >>= f = err e

-- `struct _mosquitto_packet`, without the fields that only an incoming packet uses.
pub record Packet : Type 0 where
  pub command : ℕ
  pub mid : ℕ
  pub remaining_length : ℕ
  pub remaining_count : ℕ
  pub packet_length : ℕ
  pub pos : ℕ
  pub payload : Bytes

-- `calloc`, and the two fields that a command sets.
abbrev pub new_packet : ℕ → ℕ → Packet
new_packet command remaining_length = record {
  command = command;
  mid = 0;
  remaining_length = remaining_length;
  remaining_count = 0;
  packet_length = 0;
  pos = 0;
  payload = [];
}

-- The bytes of the remaining length, with the turns that the loop still has.
unfoldable pub length_bytes : ℕ → ℕ → Bytes
length_bytes zero n = []
length_bytes (suc turns) n =
    let rest = length_bytes turns (n / 128) in
    if ltb 0 (n / 128) then bit_or (n % 128) 0x80 ∷ rest else n % 128 ∷ []

-- `_mosquitto_packet_alloc`; `memory` says whether the buffer is had.
unfoldable pub packet_alloc : Bool → Packet → Result Packet
packet_alloc memory p =
    let bytes = length_bytes 5 p.remaining_length in
    if length bytes == 5
    then err payload_size
    else if memory
    then ok (record p {
      remaining_count = length bytes;
      packet_length = (p.remaining_length + 1 + length bytes) % 2 ^ 32;
      pos = 1 + length bytes;
      payload = p.command ∷ bytes;
    })
    else err no_memory

unfoldable pub write_byte : Packet → ℕ → Result Packet
write_byte p b =
    if leb (p.pos + 1) p.packet_length
    then ok (record p { payload = p.payload ++ b ∷ []; pos = p.pos + 1 })
    else err assertion

-- The sum is a `uint32_t`: where it wraps around, the `assert` holds and the bytes do not fit.
unfoldable pub write_bytes : Packet → Bytes → ℕ → Result Packet
write_bytes p bytes count =
    let stop = (p.pos + count) % 2 ^ 32 in
    if leb stop p.packet_length
    then (if ltb stop p.pos
        then err overrun
        else ok (record p { payload = p.payload ++ take count bytes; pos = stop }))
    else err assertion

-- MOSQ_MSB and MOSQ_LSB
unfoldable pub msb : ℕ → ℕ
msb a = a / 2 ^ 8 % 2 ^ 8

unfoldable pub lsb : ℕ → ℕ
lsb a = a % 2 ^ 8

unfoldable pub write_uint16 : Packet → ℕ → Result Packet
unfolding write_byte msb lsb
write_uint16 p word = do p' ← write_byte p (msb word); write_byte p' (lsb word)

-- The length is a `uint16_t`.
unfoldable pub write_string : Packet → Bytes → ℕ → Result Packet
unfolding write_uint16 write_bytes
write_string p str len = do p' ← write_uint16 p (len % 2 ^ 16); write_bytes p' str (len % 2 ^ 16)

-- `_mosquitto_send_command_with_mid`: the packet that is queued.
unfoldable pub command_with_mid : Bool → ℕ → ℕ → Bool → Result Packet
unfolding packet_alloc msb lsb
command_with_mid memory command mid dup = do
  p ← packet_alloc memory (new_packet (if dup then bit_or command 8 else command) 2)
  ok (record p { payload = p.payload ++ msb mid ∷ lsb mid ∷ [] })

-- `_mosquitto_send_simple_command`
unfoldable pub simple_command : Bool → ℕ → Result Packet
unfolding packet_alloc
simple_command memory command = packet_alloc memory (new_packet command 0)

abbrev pub flag : Bool → ℕ
flag b = if b then 1 else 0

-- `_mosquitto_send_real_publish`, for a quality of service that is an unsigned number. The packet
-- length is an `int`, and wraps as the unsigned field it is stored in.
unfoldable pub real_publish : Bool → ℕ → Bytes → Bytes → ℕ → Bool → Bool → Result Packet
real_publish memory mid topic payload qos retain dup =
    let packetlen = 2 + length topic + length payload + (if ltb 0 qos then 2 else 0) in
    let command =
      bit_or (bit_or (bit_or 0x30 (flag dup * 2 ^ 3)) (qos * 2)) (flag retain) % 2 ^ 8 in
    do
      p ← packet_alloc memory (record (new_packet command (packetlen % 2 ^ 32)) { mid = mid })
      p' ← write_string p topic (length topic)
      p'' ← (if ltb 0 qos then write_uint16 p' mid else ok p')
      (if ltb 0 (length payload) then write_bytes p'' payload (length payload) else ok p'')

-- `_mosquitto_mid_generate`: the new `last_mid`, which is the result too.
unfoldable pub mid_generate : ℕ → ℕ
mid_generate last_mid =
    let next = (last_mid + 1) % 2 ^ 16 in if next == 0 then (next + 1) % 2 ^ 16 else next
