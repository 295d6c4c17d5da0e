-- ===== src/Persist/Fields.antt =====
-- The fields that the writers of src/persist.c of mosquitto-1.4.2 put together are those of the
-- items, and the lengths before them are right.
use wirenboard.Common.{
  ℕ, ◌+◌, ◌%◌, ◌^◌, ◌<◌, ◌≡◌, subst, if◌then◌else◌, refl, arith, [], ◌∷◌, ◌++◌, length-append,
  Bytes, length, take,
}
use wirenboard.Broker.State.{ClientMsg, MsgStore}
use wirenboard.Persist.Format.{
  be16, be32, byte, le, flag, state_byte, direction_byte, is_sys, ClientState,
}
use wirenboard.Persist.Output.{joined}
use wirenboard.Persist.Write.{
  short_text, stored_fields, client_msg_fields, disconnected_at, client_fields, sub_fields,
}
use wirenboard.Persist.Items.{
  source_text, source_of, stored, message, subscribed, client, encode, Fits,
}
use wirenboard.Persist.Contents.{store_chunk, msg_chunk}
use wirenboard.Persist.Emits.{joined-optional, optional-joined}

pub take-length : (s : Bytes) → take (length s) s ≡ s
take-length [] = refl
take-length (c ∷ s) = rw (take-length s) refl

pub short_text-lt : (s : Bytes) → length s < 2 ^ 16 → short_text s ≡ s
short_text-lt s h = let e : length s % 2 ^ 16 ≡ length s = omega arith in rw (e, take-length s) refl

pub source_text-source_of : (s : Bytes) → source_text (source_of s) ≡ s
source_text-source_of [] = refl
source_text-source_of (c ∷ s) = refl

-- The fields of a stored message are its item, with the right length.
pub joined-stored_fields :
    (s : MsgStore) (topic : Bytes)
    → Fits (stored (store_chunk s topic))
    → joined (stored_fields s topic) [] ≡ encode (stored (store_chunk s topic) ∷ [])
joined-stored_fields s topic h =
    let retain = if is_sys topic then 0 else flag s.retain in
    let r1 = be32 (length s.payload) ++ (s.payload ++ []) in
    let r2 = be16 (length topic) ++ (topic ++ (byte s.qos ++ (byte retain ++ r1))) in
    let r3 = be16 s.source_mid ++ (be16 0 ++ r2) in
    let e : 8 + 2 + length s.source_id + 2 + 2 + 2 + length topic + 4 + length s.payload + 1 + 1
        ≡ length (le 8 s.db_id ++ (be16 (length s.source_id) ++ (s.source_id ++ r3))) =
      omega (
        arith,
        length-append s.source_id r3,
        length-append topic (byte s.qos ++ (byte retain ++ r1)),
        length-append s.payload [],
      ) in
    let small : length s.source_id < 2 ^ 16 =
      subst (λ t. length t < 2 ^ 16) (source_text-source_of s.source_id) h.1 in
    rw
      (
        short_text-lt s.source_id small,
        short_text-lt topic h.4.1,
        joined-optional s.source_id,
        optional-joined s.payload [],
        source_text-source_of s.source_id,
        e,
      )
      refl

pub joined-client_msg_fields :
    (id : Bytes) (i : ℕ) (m : ClientMsg)
    → Fits (message (msg_chunk id i m))
    → joined (client_msg_fields id i m) [] ≡ encode (message (msg_chunk id i m) ∷ [])
joined-client_msg_fields id i m h =
    let tail =
      joined
        (le 8 i
          ∷ be16 m.mid
          ∷ byte m.qos
          ∷ byte (flag m.retain)
          ∷ byte (direction_byte m.direction)
          ∷ byte (state_byte m.state)
          ∷ byte (flag m.dup)
          ∷ [])
        [] in
    let small : length id < 2 ^ 16 = h.0.1 in
    let e : 8 + 2 + 1 + 1 + 1 + 1 + 1 + 2 + length id % 2 ^ 16
        ≡ length (be16 (length id) ++ (id ++ tail)) =
      omega (arith, length-append id tail) in
    rw (short_text-lt id small, e) refl

pub joined-client_fields :
    (now : ℕ) (id : Bytes) (s : ClientState)
    → length id < 2 ^ 16
    → joined (client_fields now id s) []
      ≡ encode (
          client
            (record { id = id; last_mid = s.client.last_mid; disconnect_t = disconnected_at now s })
          ∷ [])
joined-client_fields now id s h =
    let tail = be16 s.client.last_mid ++ (le 8 (disconnected_at now s) ++ []) in
    let e : 2 + length id + 2 + 8 ≡ length (be16 (length id) ++ (id ++ tail)) =
      omega (arith, length-append id tail) in
    rw (short_text-lt id h, e) refl

pub joined-sub_fields :
    (id topic : Bytes) (qos : ℕ)
    → joined (sub_fields id topic qos) []
      ≡ encode (subscribed (record { id = id; topic = topic; qos = qos }) ∷ [])
joined-sub_fields id topic qos =
    let tail = be16 (length topic) ++ (topic ++ (byte qos ++ [])) in
    let e : 2 + length id + 2 + length topic + 1 ≡ length (be16 (length id) ++ (id ++ tail)) =
      omega (arith, length-append id tail, length-append topic (byte qos ++ [])) in
    rw e refl
