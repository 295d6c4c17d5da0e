-- ===== src/Persist/Ends.antt =====
-- The loop of `mqtt3_db_restore` of src/persist.c of mosquitto-1.4.2, where `fseek` does not go back.
use wirenboard.Common.{
  ℕ, zero, suc, ◌≤◌, ◌<◌, ◌≡◌, refl, arith, if◌then◌else◌, not, ◌==◌, [], ◌∷◌, Bytes, length,
  Bool-cases, inl, inr,
}
use wirenboard.Persist.Format.{of_be}
use wirenboard.Persist.Input.{
  Result, ok, error, fault, bind, pure, take_bytes, read, read_be, read_le,
}
use wirenboard.Persist.Read.{ChunkMemory, read_client, read_client_msg, read_msg_store, read_sub}
use wirenboard.Subs.Process.{Publication}
use wirenboard.Persist.Contexts.{Loading}
use wirenboard.Persist.Restore.{
  Start, config_restore, msg_store_chunk_restore, client_msg_chunk_restore, retain_chunk_restore,
  sub_chunk_restore, client_chunk_restore, chunk_restore, chunk_step, restore_loop,
}
use wirenboard.Persist.Consume.{
  AtMost, AtMost-bind, error_if-AtMost, read_be-AtMost, read_le-AtMost, read_id-AtMost,
  read_text-AtMost, read_source-AtMost, read_payload-AtMost,
}

-- Behind `fseek` no more is left than before.
abbrev OnlyForward : Start → Type 0
OnlyForward st = (len : ℕ) (bs : Bytes) → length (st.seek len bs) ≤ length bs

module _ (n : ℕ) where
  config_restore-AtMost :
      (l : Loading) (bs : Bytes) → length bs ≤ n → AtMost n (config_restore l bs)
  unfolding config_restore
  config_restore-AtMost l bs h = AtMost-bind n _ _ (read_be-AtMost 1 bs h) λ shutdown b1 h1.
      AtMost-bind n _ _ (read_be-AtMost 1 b1 h1) λ size b2 h2.
        AtMost-bind n _ _ (error_if-AtMost (not (size == 8)) b2 h2)
          λ _ b3 h3. AtMost-bind n _ _ (read_le-AtMost 8 b3 h3) λ last b4 h4. h4

  lift-AtMost :
      {A : Type 0} (r : Result A) (bs : Bytes) → length bs ≤ n → AtMost n (bind r λ a. ok (a, bs))
  lift-AtMost (ok a) bs h = h
  lift-AtMost error bs h = tt
  lift-AtMost fault bs h = tt

  time-AtMost :
      (version now : ℕ) (bs : Bytes)
      → length bs ≤ n
      → AtMost n ((if version == 2 then pure now else read_le 8) bs)
  time-AtMost version now bs h = elim (Bool-cases (version == 2)) [
    | inl e ↦ rw e h
    | inr e ↦ rw e (read_le-AtMost 8 bs h)
  ]

  client_chunk_restore-AtMost :
      (version now : ℕ) (mem : ChunkMemory) (l : Loading) (bs : Bytes)
      → length bs ≤ n
      → AtMost n (client_chunk_restore version now mem l bs)
  unfolding client_chunk_restore read_client
  client_chunk_restore-AtMost version now mem l bs h =
      AtMost-bind n _ _
        (AtMost-bind n _ _ (read_id-AtMost mem.id_text bs h) λ id b1 h1.
          AtMost-bind n _ _ (read_be-AtMost 2 b1 h1)
            λ mid b2 h2. AtMost-bind n _ _ (time-AtMost version now b2 h2) λ t b3 h3. h3)
        λ c b4 h4. lift-AtMost _ b4 h4

  client_msg_chunk_restore-AtMost :
      (mem : ChunkMemory) (l : Loading) (bs : Bytes)
      → length bs ≤ n
      → AtMost n (client_msg_chunk_restore mem l bs)
  unfolding client_msg_chunk_restore read_client_msg
  client_msg_chunk_restore-AtMost mem l bs h =
      AtMost-bind n _ _
        (AtMost-bind n _ _ (read_id-AtMost mem.id_text bs h) λ id b1 h1.
          AtMost-bind n _ _ (read_le-AtMost 8 b1 h1) λ store_id b2 h2.
            AtMost-bind n _ _ (read_be-AtMost 2 b2 h2) λ mid b3 h3.
              AtMost-bind n _ _ (read_be-AtMost 1 b3 h3) λ qos b4 h4.
                AtMost-bind n _ _ (read_be-AtMost 1 b4 h4) λ retain b5 h5.
                  AtMost-bind n _ _ (read_be-AtMost 1 b5 h5) λ direction b6 h6.
                    AtMost-bind n _ _ (read_be-AtMost 1 b6 h6)
                      λ state b7 h7. AtMost-bind n _ _ (read_be-AtMost 1 b7 h7) λ dup b8 h8. h8)
        λ c b9 h9. lift-AtMost _ b9 h9

  msg_store_chunk_restore-AtMost :
      (mem : ChunkMemory) (l : Loading) (bs : Bytes)
      → length bs ≤ n
      → AtMost n (msg_store_chunk_restore mem l bs)
  unfolding msg_store_chunk_restore read_msg_store
  msg_store_chunk_restore-AtMost mem l bs h =
      AtMost-bind n _ _
        (AtMost-bind n _ _ (error_if-AtMost (not mem.load) bs h) λ _ b0 h0.
          AtMost-bind n _ _ (read_le-AtMost 8 b0 h0) λ store_id b1 h1.
            AtMost-bind n _ _ (read_be-AtMost 2 b1 h1) λ slen b2 h2.
              AtMost-bind n _ _ (read_source-AtMost mem.source_id slen b2 h2) λ source b3 h3.
                AtMost-bind n _ _ (read_be-AtMost 2 b3 h3) λ source_mid b4 h4.
                  AtMost-bind n _ _ (read_be-AtMost 2 b4 h4) λ mid b5 h5.
                    AtMost-bind n _ _ (read_id-AtMost mem.topic b5 h5) λ topic b6 h6.
                      AtMost-bind n _ _ (read_be-AtMost 1 b6 h6) λ qos b7 h7.
                        AtMost-bind n _ _ (read_be-AtMost 1 b7 h7) λ retain b8 h8.
                          AtMost-bind n _ _ (read_be-AtMost 4 b8 h8) λ len b9 h9.
                            AtMost-bind n _ _ (read_payload-AtMost mem.payload len b9 h9)
                              λ payload b10 h10. h10)
        λ c b11 h11. lift-AtMost _ b11 h11

  retain_chunk_restore-AtMost :
      (m : Publication) (mem : ChunkMemory) (l : Loading) (bs : Bytes)
      → length bs ≤ n
      → AtMost n (retain_chunk_restore m mem l bs)
  unfolding retain_chunk_restore
  retain_chunk_restore-AtMost m mem l bs h =
      AtMost-bind n _ _ (read_le-AtMost 8 bs h) λ i b1 h1. lift-AtMost _ b1 h1

  sub_chunk_restore-AtMost :
      (mem : ChunkMemory) (l : Loading) (bs : Bytes)
      → length bs ≤ n
      → AtMost n (sub_chunk_restore mem l bs)
  unfolding sub_chunk_restore read_sub
  sub_chunk_restore-AtMost mem l bs h =
      AtMost-bind n _ _
        (AtMost-bind n _ _ (read_text-AtMost mem.id_text bs h) λ id b1 h1.
          AtMost-bind n _ _ (read_text-AtMost mem.topic b1 h1)
            λ topic b2 h2. AtMost-bind n _ _ (read_be-AtMost 1 b2 h2) λ qos b3 h3. h3)
        λ c b4 h4. lift-AtMost _ b4 h4

  chunk_restore-AtMost :
      (st : Start) (version : ℕ) (mem : ChunkMemory) (chunk len : ℕ) (l : Loading) (bs : Bytes)
      → OnlyForward st
      → length bs ≤ n
      → AtMost n (chunk_restore st version mem chunk len l bs)
  unfolding chunk_restore
  chunk_restore-AtMost st version mem chunk len l bs fwd h = ground (
    arith,
    config_restore-AtMost l bs h,
    msg_store_chunk_restore-AtMost mem l bs h,
    client_msg_chunk_restore-AtMost mem l bs h,
    retain_chunk_restore-AtMost st.publication mem l bs h,
    sub_chunk_restore-AtMost mem l bs h,
    client_chunk_restore-AtMost version st.now mem l bs h,
    fwd len bs,
  )

  chunk_step-AtMost :
      (st : Start) (version i chunk : ℕ) (l : Loading) (bs : Bytes)
      → OnlyForward st
      → length bs ≤ n
      → AtMost n (chunk_step st version i chunk l bs)
  unfolding chunk_step
  chunk_step-AtMost st version i chunk l bs fwd h =
      AtMost-bind n _ _ (read_be-AtMost 4 bs h)
        λ len b1 h1. chunk_restore-AtMost st version (st.memory i) chunk len l b1 fwd h1

bind_ext :
    {A B : Type 0} (n : ℕ) (x : Result (A × Bytes)) (f g : A × Bytes → Result B)
    → AtMost n x
    → ((a : A) → (ys : Bytes) → length ys ≤ n → f (a, ys) ≡ g (a, ys))
    → bind x f ≡ bind x g
bind_ext n (ok (a, ys)) f g h e = e a ys h
bind_ext n error f g h e = refl
bind_ext n fault f g h e = refl

-- One round of the loop, where two bytes are left.
restore_loop-cons :
    (fuel : ℕ) (st : Start) (version i : ℕ) (l : Loading) (a b : ℕ) (bs : Bytes)
    → restore_loop (suc fuel) st version i l (a ∷ b ∷ bs)
      ≡ bind
          (chunk_step st version i (of_be 0 (a ∷ b ∷ [])) l bs)
          (λ (l', rest). restore_loop fuel st version (suc i) l' rest)
unfolding restore_loop read_be read take_bytes
restore_loop-cons fuel st version i l a b bs = refl

-- Where `fseek` does not go back, the loop returns on any file the same with every fuel above the number of bytes: it does not run
-- out of it.
restore_loop_enough :
    (fuel fuel' : ℕ) (st : Start) (version i : ℕ) (l : Loading) (bs : Bytes)
    → OnlyForward st
    → length bs < fuel
    → length bs < fuel'
    → restore_loop fuel st version i l bs ≡ restore_loop fuel' st version i l bs
unfolding restore_loop read_be read take_bytes
restore_loop_enough zero fuel' st version i l bs fwd h k = absurd (omega arith)
restore_loop_enough (suc fuel) zero st version i l bs fwd h k = absurd (omega arith)
restore_loop_enough (suc fuel) (suc fuel') st version i l [] fwd h k = refl
restore_loop_enough (suc fuel) (suc fuel') st version i l (a ∷ []) fwd h k = refl
restore_loop_enough (suc fuel) (suc fuel') st version i l (a ∷ b ∷ bs) fwd h k =
    let chunk = of_be 0 (a ∷ b ∷ []) in
    bind_ext (length bs) (chunk_step st version i chunk l bs)
      (λ (l', rest). restore_loop fuel st version (suc i) l' rest)
      (λ (l', rest). restore_loop fuel' st version (suc i) l' rest)
      (chunk_step-AtMost (length bs) st version i chunk l bs fwd (omega arith))
      (λ l' ys small.
        restore_loop_enough fuel fuel' st version (suc i) l' ys fwd (omega arith) (omega arith))
