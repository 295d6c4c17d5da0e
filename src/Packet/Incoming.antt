-- ===== src/Packet/Incoming.antt =====
-- Incoming packets: the remaining length that `_mosquitto_packet_read` reads byte by byte, and the
-- readers of fields, `_mosquitto_read_byte`, `_mosquitto_read_bytes`, `_mosquitto_read_string` and
-- `_mosquitto_read_uint16`.
use wirenboard.Common.{
  Bool, ℕ, ◌+◌, ◌*◌, ◌%◌, ◌^◌, bit_and, if◌then◌else◌, ltb, leb, ◌==◌, none, some, [], ◌∷◌, length,
  take, drop, get_elem?, Bytes,
}

-- The fields of `in_packet` while the remaining length is read; `count` is minus
-- `remaining_count`.
pub record LengthState : Type 0 where
  pub count : ℕ
  pub remaining_mult : ℕ
  pub remaining_length : ℕ

abbrev pub start_length : LengthState
start_length = record { count = 0; remaining_mult = 1; remaining_length = 0 }

-- A call ends with the length read and the bytes behind it, or because no byte has come yet, or
-- with MOSQ_ERR_PROTOCOL.
pub data LengthRead : Type 0 where
  finished : LengthState → Bytes → LengthRead
  waiting : LengthState → LengthRead
  protocol : LengthRead

-- The loop, over the bytes that the network has.
unfoldable pub read_length : LengthState → Bytes → LengthRead
read_length st [] = waiting st
read_length st (byte ∷ net) =
    let st' : LengthState = record {
      count = st.count + 1;
      remaining_mult = st.remaining_mult * 128 % 2 ^ 32;
      remaining_length = (st.remaining_length + bit_and byte 127 * st.remaining_mult) % 2 ^ 32;
    } in
    let rest = read_length st' net in
    if ltb 4 (st.count + 1)
    then protocol
    else if bit_and byte 128 == 0
    then finished st' net
    else rest

-- A packet whose payload has been read; `remaining_length` is the payload's length.
pub record Received : Type 0 where
  pub payload : Bytes
  pub remaining_length : ℕ
  pub pos : ℕ

-- A read returns the packet with its position moved on, MOSQ_ERR_PROTOCOL or
-- MOSQ_ERR_NOMEM, or it reads outside of the payload.
pub data Read (A : Type 0) : Type 0 where
  got : A → Received → Read A
  refused : Read A
  overrun : Read A
  no_memory : Read A

infixl 5 ◌>>=◌
abbrev pub ◌>>=◌ : {A B : Type 0} → Read A → (A × Received → Read B) → Read B
got a r >>= f = f (a, r)
refused >>= f = refused
overrun >>= f = overrun
no_memory >>= f = no_memory

-- `packet->payload[packet->pos]` and `packet->pos++`
unfoldable pub fetch : Received → Read ℕ
fetch r = elim (get_elem? r.payload r.pos) [
  | none ↦ overrun
  | some b ↦ got b (record r { pos = r.pos + 1 })
]

unfoldable pub read_byte : Received → Read ℕ
unfolding fetch
read_byte r = if ltb r.remaining_length (r.pos + 1) then refused else fetch r

-- `memcpy` out of the payload
unfoldable pub copy : Received → ℕ → Read Bytes
copy r count =
    if leb (r.pos + count) (length r.payload)
    then got (take count (drop r.pos r.payload)) (record r { pos = r.pos + count })
    else overrun

unfoldable pub read_bytes : Received → ℕ → Read Bytes
unfolding copy
read_bytes r count =
    if ltb r.remaining_length ((r.pos + count) % 2 ^ 32) then refused else copy r count

unfoldable pub read_uint16 : Received → Read ℕ
unfolding fetch
read_uint16 r =
    if ltb r.remaining_length (r.pos + 2)
    then refused
    else (do (high, r1) ← fetch r; (low, r2) ← fetch r1; got ((high * 2 ^ 8 + low) % 2 ^ 16) r2)

-- `memory` says that the allocation of the string succeeds.
unfoldable pub read_string : (memory : Bool) → Received → Read Bytes
unfolding read_uint16 copy
read_string memory r = do
  (len, r1) ← read_uint16 r
  (if ltb r1.remaining_length (r1.pos + len)
      then refused
      else if memory
      then copy r1 len
      else no_memory)
