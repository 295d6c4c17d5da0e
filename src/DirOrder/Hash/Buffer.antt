-- ===== src/DirOrder/Hash/Buffer.antt =====
-- `str2hashbuf` packs a name into words by groups of four bytes.
use wirenboard.Common.{
  ℕ, zero, suc, ◌+◌, ◌-◌, ◌*◌, ◌%◌, ◌^◌, ◌≤◌, ◌<◌, min, ◌≡◌, refl, arith, List, [], ◌∷◌, ◌++◌,
  length, take, drop, replicate, length-take, ap, sym, ◌∙◌, append-nil, append_assoc,
}
use wirenboard.DirOrder.Hash.{signed_byte, push_byte, str_pad, str_loop, str_fill, str2hashbuf}

-- A word: the bytes shifted in from the right, over the padding.
abbrev pub pack_word : ℕ → List ℕ → ℕ
pack_word val [] = val
pack_word val (c ∷ cs) = pack_word (push_byte val c) cs

abbrev pub words : ℕ → ℕ → List ℕ → List ℕ
words pad zero bs = []
words pad (suc n) bs = pack_word pad (take 4 bs) ∷ words pad n (drop 4 bs)

-- A word of four bytes is these bytes, the first one highest; the padding is shifted out.
pub pack_word_full :
    (pad b0 b1 b2 b3 : ℕ)
    → pack_word pad (b0 ∷ b1 ∷ b2 ∷ b3 ∷ [])
      ≡ (signed_byte b0 * 2 ^ 24
          + signed_byte b1 * 2 ^ 16
          + signed_byte b2 * 2 ^ 8
          + signed_byte b3)
        % 2 ^ 32
unfolding push_byte
pack_word_full pad b0 b1 b2 b3 = omega arith

str_loop_low :
    (pad c : ℕ) (cs : List ℕ) (i val num : ℕ) (out : List ℕ)
    → i % 4 < 3
    → str_loop pad (c ∷ cs) i val num out ≡ str_loop pad cs (i + 1) (push_byte val c) num out
unfolding str_loop
str_loop_low pad c cs i val num out h = ground arith

str_loop_full :
    (pad c : ℕ) (cs : List ℕ) (i val num : ℕ) (out : List ℕ)
    → i % 4 ≡ 3
    → str_loop pad (c ∷ cs) i val num out
      ≡ str_loop pad cs (i + 1) pad (num - 1) (out ++ push_byte val c ∷ [])
unfolding str_loop
str_loop_full pad c cs i val num out h = ground arith

words-nil : (pad n : ℕ) → words pad n [] ≡ replicate n pad
words-nil pad zero = refl
words-nil pad (suc n) = ap (◌∷◌ pad) (words-nil pad n)

-- The end of the loop within a word: the word in work is written, and the rest is padding.
str_fill-suc :
    (pad val n : ℕ) (out : List ℕ)
    → str_fill pad (record { out = out; val = val; num = suc n }) ≡ out ++ val ∷ words pad n []
unfolding str_fill
str_fill-suc pad val n out = rw (words-nil pad n) (ground arith)

-- The loop from a word's first byte, the padding being the word in work.
str_fill-loop :
    (pad : ℕ) (bs : List ℕ) (i num : ℕ) (out : List ℕ)
    → i % 4 ≡ 0
    → length bs ≤ num * 4
    → str_fill pad (str_loop pad bs i pad num out) ≡ out ++ words pad num bs
str_fill-loop pad [] i zero out e h = unfold str_fill str_loop in sym (append-nil out)
str_fill-loop pad [] i (suc n) out e h = unfold str_loop in str_fill-suc pad pad n out
str_fill-loop pad (_ ∷ _) i zero out e h = absurd (omega arith)
str_fill-loop pad (c ∷ []) i (suc n) out e h =
    rw (str_loop_low pad c [] i pad (suc n) out (omega arith))
      (unfold str_loop in str_fill-suc pad (push_byte pad c) n out)
str_fill-loop pad (c ∷ c1 ∷ []) i (suc n) out e h =
    rw
      (
        str_loop_low pad c (c1 ∷ []) i pad (suc n) out (omega arith),
        str_loop_low pad c1 [] (i + 1) (push_byte pad c) (suc n) out (omega arith),
      )
      (unfold str_loop in str_fill-suc pad (push_byte (push_byte pad c) c1) n out)
str_fill-loop pad (c ∷ c1 ∷ c2 ∷ []) i (suc n) out e h =
    rw
      (
        str_loop_low pad c (c1 ∷ c2 ∷ []) i pad (suc n) out (omega arith),
        str_loop_low pad c1 (c2 ∷ []) (i + 1) (push_byte pad c) (suc n) out (omega arith),
        str_loop_low pad c2 [] (i + 1 + 1) (push_byte (push_byte pad c) c1) (suc n) out
            (omega arith),
      )
      (unfold str_loop in str_fill-suc pad (push_byte (push_byte (push_byte pad c) c1) c2) n out)
str_fill-loop pad (c ∷ c1 ∷ c2 ∷ c3 ∷ cs) i (suc n) out e h =
    let v = push_byte (push_byte (push_byte (push_byte pad c) c1) c2) c3 in
    let left : suc n - 1 ≡ n = omega arith in
    rw
      (
        str_loop_low pad c (c1 ∷ c2 ∷ c3 ∷ cs) i pad (suc n) out (omega arith),
        str_loop_low pad c1 (c2 ∷ c3 ∷ cs) (i + 1) (push_byte pad c) (suc n) out (omega arith),
        str_loop_low pad c2 (c3 ∷ cs) (i + 1 + 1) (push_byte (push_byte pad c) c1) (suc n) out
            (omega arith),
        str_loop_full pad c3 cs (i + 1 + 1 + 1) (push_byte (push_byte (push_byte pad c) c1) c2)
            (suc n) out (omega arith),
        left,
      )
      (str_fill-loop pad cs (i + 1 + 1 + 1 + 1) n (out ++ v ∷ []) (omega arith) (omega arith)
        ∙ append_assoc out (v ∷ []) (words pad n cs))

-- `str2hashbuf` writes the name's bytes as words of four, at most `num` words, over the padding
-- that the length gives.
pub str2hashbuf-words :
    (msg : List ℕ) (len num : ℕ)
    → str2hashbuf msg len num ≡ words (str_pad len) num (take (min len (num * 4)) msg)
unfolding str2hashbuf
str2hashbuf-words msg len num =
    str_fill-loop (str_pad len) (take (min len (num * 4)) msg) 0 num [] refl
      (omega (arith, length-take (min len (num * 4)) msg))

length-words : (pad n : ℕ) (bs : List ℕ) → length (words pad n bs) ≡ n
length-words pad zero bs = refl
length-words pad (suc n) bs = ap suc (length-words pad n (drop 4 bs))

-- It writes exactly `num` words, so the array `in[8]` of its caller is filled and not overrun.
pub length-str2hashbuf : (msg : List ℕ) (len num : ℕ) → length (str2hashbuf msg len num) ≡ num
length-str2hashbuf msg len num =
    rw (str2hashbuf-words msg len num) (length-words (str_pad len) num _)
