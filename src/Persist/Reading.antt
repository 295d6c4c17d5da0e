-- ===== src/Persist/Reading.antt =====
-- The readers of src/persist.c of mosquitto-1.4.2 on the bytes of an item: they return the item.
use native.Mathlib.Nat.{pow-suc}
use wirenboard.Common.{
  ℕ, zero, suc, ◌+◌, ◌*◌, ◌/◌, ◌%◌, ◌^◌, ◌<◌, ◌≡◌, refl, ap, arith, true, false, some, [], ◌∷◌,
  ◌++◌, Bytes, length, ◌==◌,
}
use wirenboard.Persist.Format.{be16, be32, le, of_le, byte}
use wirenboard.Persist.Output.{joined}
use wirenboard.Persist.Input.{ok, error, take_bytes, read, read_be, read_le, c_string}
use wirenboard.Persist.Read.{
  ChunkMemory, ClientChunk, MsgChunk, StoreChunk, SubChunk, read_id, read_text, read_source,
  read_payload, read_client, read_client_msg, read_msg_store, read_sub,
}
use wirenboard.Persist.Items.{
  fields, IsText, Fits, source_text, source_of, stored, message, subscribed, client,
}

take_bytes-append : (xs rest : Bytes) → take_bytes (length xs) (xs ++ rest) ≡ some (xs, rest)
unfolding take_bytes
take_bytes-append [] rest = refl
take_bytes-append (x ∷ xs) rest = rw (take_bytes-append xs rest) refl

read-append : (xs rest : Bytes) → read (length xs) (xs ++ rest) ≡ ok (xs, rest)
unfolding read
read-append xs rest = rw (read, take_bytes-append xs rest) refl

of_le-le : (k n : ℕ) → n < 256 ^ k → of_le (le k n) ≡ n
of_le-le zero n h = omega arith
of_le-le (suc k) n h = omega (arith, of_le-le k (n / 256) (omega (arith, pow-suc 256 k)))

pub read_le-le : (n : ℕ) (rest : Bytes) → n < 2 ^ 64 → read_le 8 (le 8 n ++ rest) ≡ ok (n, rest)
unfolding read_be read_le read take_bytes
read_le-le n rest h = ap (λ v. ok (v, rest)) (of_le-le 8 n h)

pub read_be-be16 : (n : ℕ) (rest : Bytes) → n < 2 ^ 16 → read_be 2 (be16 n ++ rest) ≡ ok (n, rest)
unfolding read_be read_le read take_bytes
read_be-be16 n rest h =
    let e : (0 * 256 + n / 256 % 256) * 256 + n % 256 ≡ n = omega arith in
    ap (λ (v : ℕ). ok (v, rest)) e

pub read_be-be32 : (n : ℕ) (rest : Bytes) → n < 2 ^ 32 → read_be 4 (be32 n ++ rest) ≡ ok (n, rest)
unfolding read_be read_le read take_bytes
read_be-be32 n rest h =
    let e : (((0 * 256 + n / 16777216 % 256) * 256 + n / 65536 % 256) * 256 + n / 256 % 256) * 256
          + n % 256
        ≡ n =
      omega arith in
    ap (λ (v : ℕ). ok (v, rest)) e

pub read_be-byte : (n : ℕ) (rest : Bytes) → n < 2 ^ 8 → read_be 1 (byte n ++ rest) ≡ ok (n, rest)
unfolding read_be read_le read take_bytes
read_be-byte n rest h =
    let e : 0 * 256 + n % 256 ≡ n = omega arith in ap (λ (v : ℕ). ok (v, rest)) e

read_id-text :
    (s rest : Bytes) → IsText s → read_id true (be16 (length s) ++ (s ++ rest)) ≡ ok (s, rest)
unfolding read_id
read_id-text s rest h =
    let nonzero : (length s == 0) ≡ false = ground (arith, h.0) in
    rw (read_be-be16 (length s) (s ++ rest) h.1, nonzero, read-append s rest, h.2) refl

read_text-text :
    (s rest : Bytes)
    → length s < 2 ^ 16
    → c_string s ≡ s
    → read_text true (be16 (length s) ++ (s ++ rest)) ≡ ok (s, rest)
unfolding read_text
read_text-text s rest h c = rw (read_be-be16 (length s) (s ++ rest) h, read-append s rest, c) refl

-- A source is NULL where its text is empty.
read_source-text :
    (s rest : Bytes)
    → c_string s ≡ s
    → read_source true (length s) (s ++ rest) ≡ ok (source_of s, rest)
unfolding read_source
read_source-text [] rest c = refl
read_source-text (b ∷ s) rest c =
    let nonzero : (length (b ∷ s) == 0) ≡ false = ground arith in
    rw (nonzero, read-append (b ∷ s) rest, c) refl

read_payload-append : (s rest : Bytes) → read_payload true (length s) (s ++ rest) ≡ ok (s, rest)
unfolding read_payload
read_payload-append [] rest = refl
read_payload-append (b ∷ s) rest =
    let nonzero : (length (b ∷ s) == 0) ≡ false = ground arith in
    rw (nonzero, read-append (b ∷ s) rest) refl

-- The allocations of the texts of a chunk succeed.
abbrev pub HasTexts : ChunkMemory → Type 0
HasTexts m =
    (m.load ≡ true)
    × (m.id_text ≡ true)
    × (m.source_id ≡ true)
    × (m.topic ≡ true)
    × (m.payload ≡ true)

pub read_client-client :
    (now : ℕ) (mem : ChunkMemory) (c : ClientChunk) (rest : Bytes)
    → HasTexts mem
    → Fits (client c)
    → read_client 3 now mem (joined (fields (client c)) rest) ≡ ok (c, rest)
unfolding read_client
read_client-client now mem c rest m h =
    rw
      (
        m.1,
        read_id-text c.id (be16 c.last_mid ++ (le 8 c.disconnect_t ++ rest)) h.0,
        read_be-be16 c.last_mid (le 8 c.disconnect_t ++ rest) h.1,
        read_le-le c.disconnect_t rest h.2,
      )
      refl

pub read_sub-subscribed :
    (mem : ChunkMemory) (c : SubChunk) (rest : Bytes)
    → HasTexts mem
    → Fits (subscribed c)
    → read_sub mem (joined (fields (subscribed c)) rest) ≡ ok (c, rest)
unfolding read_sub
read_sub-subscribed mem c rest m h =
    rw
      (
        m.1,
        m.3,
        read_text-text c.id (be16 (length c.topic) ++ (c.topic ++ (byte c.qos ++ rest))) h.0.1
            h.0.2,
        read_text-text c.topic (byte c.qos ++ rest) h.1 h.2,
        read_be-byte c.qos rest h.3,
      )
      refl

pub read_client_msg-message :
    (mem : ChunkMemory) (m : MsgChunk) (rest : Bytes)
    → HasTexts mem
    → Fits (message m)
    → read_client_msg mem (joined (fields (message m)) rest) ≡ ok (m, rest)
unfolding read_client_msg
read_client_msg-message mem m rest t h =
    let r1 = byte m.dup ++ rest in
    let r2 = byte m.state ++ r1 in
    let r3 = byte m.direction ++ r2 in
    let r4 = byte m.retain ++ r3 in
    let r5 = byte m.qos ++ r4 in
    let r6 = be16 m.mid ++ r5 in
    rw
      (
        t.1,
        read_id-text m.id (le 8 m.store_id ++ r6) h.0,
        read_le-le m.store_id r6 h.1,
        read_be-be16 m.mid r5 h.2,
        read_be-byte m.qos r4 h.3,
        read_be-byte m.retain r3 h.4,
        read_be-byte m.direction r2 h.5,
        read_be-byte m.state r1 h.6,
        read_be-byte m.dup rest h.7,
      )
      refl

pub read_msg_store-stored :
    (mem : ChunkMemory) (c : StoreChunk) (rest : Bytes)
    → HasTexts mem
    → Fits (stored c)
    → read_msg_store mem (joined (fields (stored c)) rest) ≡ ok (c, rest)
unfolding read_msg_store
read_msg_store-stored mem c rest t h =
    let source = source_text c.source_id in
    let r1 = be32 (length c.payload) ++ (c.payload ++ rest) in
    let r2 = byte c.retain ++ r1 in
    let r3 = byte c.qos ++ r2 in
    let r4 = be16 (length c.topic) ++ (c.topic ++ r3) in
    let r5 = be16 0 ++ r4 in
    let r6 = be16 c.source_mid ++ r5 in
    rw
      (
        t.0,
        t.2,
        t.3,
        t.4,
        read_le-le c.store_id (be16 (length source) ++ (source ++ r6)) h.0,
        read_be-be16 (length source) (source ++ r6) h.1,
        read_source-text source r6 h.2,
        read_be-be16 c.source_mid r5 h.3,
        read_be-be16 0 r4 (omega arith),
        read_id-text c.topic r3 h.4,
        read_be-byte c.qos r2 h.5,
        read_be-byte c.retain r1 h.6,
        read_be-be32 (length c.payload) (c.payload ++ rest) h.7,
        read_payload-append c.payload rest,
        h.8,
      )
      refl

-- A length that is too large is cut.
pub read_be-be32_cut : (n : ℕ) (rest : Bytes) → read_be 4 (be32 n ++ rest) ≡ ok (n % 2 ^ 32, rest)
unfolding read_be read take_bytes
read_be-be32_cut n rest =
    let e : (((0 * 256 + n / 16777216 % 256) * 256 + n / 65536 % 256) * 256 + n / 256 % 256) * 256
          + n % 256
        ≡ n % 2 ^ 32 =
      omega arith in
    ap (λ (v : ℕ). ok (v, rest)) e

pub read_be-nil : read_be 2 [] ≡ error
unfolding read_be read take_bytes
read_be-nil = refl
