-- ===== src/Packet/Fields.antt =====
-- Strings: what `_mosquitto_write_string` writes, `_mosquitto_read_string` reads back.
use wirenboard.Common.{
  ℕ, suc, ◌+◌, ◌^◌, ◌≤◌, ◌<◌, ◌≡◌, refl, arith, some, [], ◌∷◌, ◌++◌, length, take, drop, get_elem?,
  Bool, if◌then◌else◌, length-append, append_assoc, Bytes,
}
use native.Mathlib.Nat.{zero-add, add_comm}
use wirenboard.Packet.Outgoing.{Packet, ok, msb, lsb, write_string}
use wirenboard.Packet.Incoming.{Received, got, no_memory, fetch, read_string}
use wirenboard.Packet.Publish.{appended, write_string_lem}

get_elem?-append : (xs ys : Bytes) (i : ℕ) → get_elem? (xs ++ ys) (i + length xs) ≡ get_elem? ys i
get_elem?-append [] ys i = ground arith
get_elem?-append (x ∷ xs) ys i =
    let e : i + suc (length xs) ≡ suc (i + length xs) = omega arith in
    rw e (get_elem?-append xs ys i)

drop-append : (xs ys : Bytes) (i : ℕ) → drop (i + length xs) (xs ++ ys) ≡ drop i ys
drop-append [] ys i = ground arith
drop-append (x ∷ xs) ys i =
    let e : i + suc (length xs) ≡ suc (i + length xs) = omega arith in rw e (drop-append xs ys i)

take-append : (xs ys : Bytes) → take (length xs) (xs ++ ys) ≡ xs
take-append [] ys = refl
take-append (x ∷ xs) ys = rw (take-append xs ys)

-- The packet whose payload is all that was received, read up to `pos`.
abbrev pub arrived : Bytes → ℕ → Received
arrived payload pos = record { payload = payload; remaining_length = length payload; pos = pos }

read_string_lem :
    (memory : Bool) (before str after : Bytes)
    → length str < 2 ^ 16
    → let all = before ++ (msb (length str) ∷ lsb (length str) ∷ str ++ after) in
      read_string memory (arrived all (length before))
      ≡ (if memory then got str (arrived all (length before + 2 + length str)) else no_memory)
unfolding read_string fetch msb lsb
read_string_lem memory before str after h =
    let rest = msb (length str) ∷ lsb (length str) ∷ str ++ after in
    let high : get_elem? (before ++ rest) (length before) ≡ some (msb (length str)) =
      rw (← zero-add (length before)) (get_elem?-append before rest 0) in
    let low : get_elem? (before ++ rest) (length before + 1) ≡ some (lsb (length str)) =
      rw (add_comm (length before) 1) (get_elem?-append before rest 1) in
    let tail : drop (length before + 2) (before ++ rest) ≡ str ++ after =
      rw (add_comm (length before) 2) (drop-append before rest 2) in
    ground (
      arith,
      high,
      low,
      tail,
      take-append str after,
      length-append before rest,
      length-append str after,
    )

-- In a packet that is written up to its position, a string of at most 65535 bytes that fits the
-- buffer, of less than 4 GB, is written, and `_mosquitto_read_string`
-- at the same position of the payload, whatever is written behind it, reads it back and ends at
-- the position where the writer ended, or returns MOSQ_ERR_NOMEM where there is no memory for it.
pub write_string-read_string :
    (memory : Bool) (p : Packet) (str after : Bytes)
    → length p.payload ≡ p.pos
    → length str < 2 ^ 16
    → p.pos + 2 + length str ≤ p.packet_length
    → p.packet_length < 2 ^ 32
    → (q : Packet) × (write_string p str (length str) ≡ ok q)
      × (read_string memory (arrived (q.payload ++ after) p.pos)
          ≡ (if memory then got str (arrived (q.payload ++ after) q.pos) else no_memory))
write_string-read_string memory p str after filled small fits limit = (
  appended p (msb (length str) ∷ lsb (length str) ∷ str),
  write_string_lem p str small fits limit,
  rw (← filled, append_assoc p.payload (msb (length str) ∷ lsb (length str) ∷ str) after)
      (ground (arith, read_string_lem memory p.payload str after small)),
)
