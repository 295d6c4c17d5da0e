-- ===== src/Packet/Length.antt =====
-- The remaining length: what `_mosquitto_packet_alloc` writes, `_mosquitto_packet_read` reads back,
-- in any pieces.
use wirenboard.Common.{
  if◌then◌else◌, false, ℕ, zero, suc, ◌+◌, ◌*◌, ◌/◌, ◌%◌, ◌^◌, ◌≤◌, ◌<◌, ◌≡◌, ◌↔◌, refl, ap, drop,
  arith, dec_lt, bit_and, bit_or, Bool, true, ◌&&◌, ◌==◌, [], ◌∷◌, ◌++◌, length, Bytes,
}
use wirenboard.Common.Bits.{add-bit_or}
use wirenboard.Packet.Outgoing.{Packet, ok, err, payload_size, length_bytes, packet_alloc}
use wirenboard.Packet.Incoming.{LengthState, start_length, finished, waiting, read_length}

-- `p` at every number below a bound, by evaluation.
each_below : (ℕ → Bool) → ℕ → Bool
each_below p zero = true
each_below p (suc bound) = if p bound then each_below p bound else false

each_below_at :
    (p : ℕ → Bool) {bound : ℕ} (b : ℕ) → b < bound → each_below p bound ≡ true → p b ≡ true
unfolding each_below
each_below_at p {bound = zero} b below all = elim below [ ]
each_below_at p {bound = suc bound} b below all = ground (arith, each_below_at p {bound = bound} b)

masks_table :
    each_below
      (λ b.
        (bit_and b 127 == b)
        && ((bit_and b 128 == 0)
            && ((bit_and (b + 128) 127 == b) && (bit_and (b + 128) 128 == 128))))
      128
    ≡ true
unfolding each_below
masks_table = refl

masks :
    (b : ℕ)
    → b < 128
    → (bit_and b 127 ≡ b)
      × (bit_and b 128 ≡ 0)
      × (bit_and (b + 128) 127 ≡ b)
      × (bit_and (b + 128) 128 ≡ 128)
masks b h = ground (arith, each_below_at _ {bound = 128} b h masks_table)

top_bit : (b : ℕ) → b < 128 → bit_or b 0x80 ≡ b + 128
top_bit b h = add-bit_or 7 1 b h

-- The state behind one byte of the length.
abbrev behind : LengthState → ℕ → LengthState
behind st b = record {
  count = st.count + 1;
  remaining_mult = st.remaining_mult * 128 % 2 ^ 32;
  remaining_length = (st.remaining_length + b * st.remaining_mult) % 2 ^ 32;
}

read_length-last :
    (st : LengthState) (b : ℕ) (net : Bytes)
    → b < 128
    → st.count < 4
    → read_length st (b ∷ net) ≡ finished (behind st b) net
unfolding read_length
read_length-last st b net h c =
    let (low, top, _, _) = masks b h in rw (low, top, read_length) (ground arith)

read_length-more :
    (st : LengthState) (b : ℕ) (net : Bytes)
    → b < 128
    → st.count < 4
    → read_length st (bit_or b 0x80 ∷ net) ≡ read_length (behind st b) net
unfolding read_length
read_length-more st b net h c =
    let (_, _, low, top) = masks b h in rw (top_bit b h, low, top, read_length) (ground arith)

split-mul : (n m : ℕ) → n * m ≡ (n / 128) * (m * 128) + (n % 128) * m
split-mul n m =
    let e : n ≡ n / 128 * 128 + n % 128 = omega arith in
    let f : n * m ≡ (n / 128 * 128 + n % 128) * m = ap (λ (t : ℕ). t * m) e in grind arith

-- What reading the length `n` from the state `st` on gives.
module _ (net : Bytes) where
  abbrev Reads : LengthState → ℕ → ℕ → Type 0
  Reads st turns n =
      (st' : LengthState) × (read_length st (length_bytes turns n ++ net) ≡ finished st' net)
      × (st'.remaining_length ≡ st.remaining_length + n * st.remaining_mult)
      × (st'.count ≡ st.count + length (length_bytes turns n))

  last-Reads :
      (st : LengthState) (turns n : ℕ)
      → st.count < 4
      → n < 2 ^ 7
      → st.remaining_length + n * st.remaining_mult < 2 ^ 32
      → Reads st (suc turns) n
  unfolding length_bytes
  last-Reads st turns n c h w =
      (behind st n, ground (arith, read_length-last st n net h c), grind arith, ground arith)

  more-Reads :
      (st : LengthState) (turns n : ℕ)
      → st.count < 4
      → 0 < n / 128
      → st.remaining_length + (n % 128) * st.remaining_mult < 2 ^ 32
      → st.remaining_mult * 128 < 2 ^ 32
      → Reads (behind st (n % 128)) turns (n / 128)
      → Reads st (suc turns) n
  unfolding length_bytes
  more-Reads st turns n c h w m (st', e, l, k) =
      let mult : st.remaining_mult * 128 % 2 ^ 32 ≡ st.remaining_mult * 128 = omega arith in
      let sum : (st.remaining_length + (n % 128) * st.remaining_mult) % 2 ^ 32
          ≡ st.remaining_length + (n % 128) * st.remaining_mult =
        omega arith in
      let l' : st'.remaining_length
          ≡ st.remaining_length
            + (n % 128) * st.remaining_mult
            + n / 128 * (st.remaining_mult * 128) =
        rw (l, mult, sum) refl in
      (
        st',
        ground (
          arith,
          read_length-more st (n % 128) (length_bytes turns (n / 128) ++ net) (omega arith) c,
        ),
        rw (l', split-mul n st.remaining_mult) (omega arith),
        ground arith,
      )

  -- The states in which the next byte is the last, the third, the second and the first one.
  abbrev at : ℕ → ℕ → ℕ → LengthState
  at count mult r = record { count = count; remaining_mult = mult; remaining_length = r }

  fourth_Reads : (turns r n : ℕ) → r < 2 ^ 21 → n < 2 ^ 7 → Reads (at 3 (2 ^ 21) r) (suc turns) n
  fourth_Reads turns r n hr h = last-Reads _ turns n (omega arith) h (omega arith)

  third_Reads :
      (turns r n : ℕ) → r < 2 ^ 14 → n < 2 ^ 14 → Reads (at 2 (2 ^ 14) r) (suc (suc turns)) n
  third_Reads turns r n hr h = elim (dec_lt n 128) [
    | yes small ↦ last-Reads _ _ n (omega arith) small (omega arith)
    | no large ↦
        more-Reads _ _ n (omega arith) (omega arith) (omega arith) (omega arith)
          (fourth_Reads turns _ (n / 128) (omega arith) (omega arith))
  ]

  second_Reads :
      (turns r n : ℕ) → r < 2 ^ 7 → n < 2 ^ 21 → Reads (at 1 (2 ^ 7) r) (suc (suc (suc turns))) n
  second_Reads turns r n hr h = elim (dec_lt n 128) [
    | yes small ↦ last-Reads _ _ n (omega arith) small (omega arith)
    | no large ↦
        more-Reads _ _ n (omega arith) (omega arith) (omega arith) (omega arith)
          (third_Reads turns _ (n / 128) (omega arith) (omega arith))
  ]

  first_Reads : (n : ℕ) → n < 2 ^ 28 → Reads start_length 5 n
  first_Reads n h = elim (dec_lt n 128) [
    | yes small ↦ last-Reads _ _ n (omega arith) small (omega arith)
    | no large ↦
        more-Reads _ _ n (omega arith) (omega arith) (omega arith) (omega arith)
          (second_Reads 1 _ (n / 128) (omega arith) (omega arith))
  ]

-- The loop writes five bytes exactly beyond the limit of the protocol.
length-length_bytes : (n : ℕ) → (length (length_bytes 5 n) ≡ 5) ↔ (2 ^ 28 ≤ n)
unfolding length_bytes
length-length_bytes n = (λ h. ground arith, λ h. ground arith)

pub length_bytes_short : (n : ℕ) → n < 2 ^ 28 → length (length_bytes 5 n) < 5
unfolding length_bytes
length_bytes_short n h = ground arith

-- The allocation refuses a packet for its size exactly from 2 ^ 28 bytes on.
pub packet_alloc-payload_size :
    (memory : Bool) (p : Packet)
    → (packet_alloc memory p ≡ err payload_size) ↔ (2 ^ 28 ≤ p.remaining_length)
unfolding packet_alloc
packet_alloc-payload_size memory p =
    let (left, right) = length-length_bytes p.remaining_length in
    (λ h. left (ground arith), λ h. ground (arith, right h))

packet_alloc_small :
    (memory : Bool) (p q : Packet) → packet_alloc memory p ≡ ok q → p.remaining_length < 2 ^ 28
packet_alloc_small memory p q h = elim (dec_lt p.remaining_length (2 ^ 28)) [
  | yes small ↦ small
  | no large ↦ absurd (cc (h, (packet_alloc-payload_size memory p).1 (omega arith)))
]

-- A packet that `_mosquitto_packet_alloc` makes is read back: the bytes behind its command are a
-- remaining length that `_mosquitto_packet_read` accepts and finds equal, in as many bytes as
-- `remaining_count` says, and whatever follows is left on the network.
pub packet_alloc-read_length :
    (memory : Bool) (p q : Packet) (net : Bytes)
    → packet_alloc memory p ≡ ok q
    → (st : LengthState) × (read_length start_length (drop 1 q.payload ++ net) ≡ finished st net)
      × (st.remaining_length ≡ p.remaining_length)
      × (st.count ≡ q.remaining_count)
unfolding packet_alloc
packet_alloc-read_length memory p q net h =
    let (st, e, l, c) = first_Reads net p.remaining_length (packet_alloc_small memory p q h) in
    (st, ground (arith, e), ground (arith, l), ground (arith, c))

-- Bytes that come in two pieces are read as if they had come in one: a call that is left waiting
-- goes on where it stopped.
pub read_length-append :
    (st st' : LengthState) (first second : Bytes)
    → read_length st first ≡ waiting st'
    → read_length st (first ++ second) ≡ read_length st' second
unfolding read_length
read_length-append st st' [] second h = ground arith
read_length-append st st' (b ∷ first) second h =
    ground (arith, read_length-append (behind st (bit_and b 127)) st' first second)
