-- ===== src/Util/Hash.antt =====
-- `simple_hash_data` shows every damage to one byte.
use flimg.Prelude.{
  ℕ, ◌+◌, ◌*◌, ◌/◌, ◌%◌, ◌^◌, bit_or, ◌<◌, ◌≡◌, ◌≢◌, ap, ◌∙◌, arith, List, [], ◌∷◌, ◌++◌,
}
use flimg.Prelude.{All}
use flimg.Prelude.Bits.{bit_or_beside, bit_xor_injective, bit_xor-lt, bit_xor_comm}
use flimg.Util.{hash_byte, simple_hash_data}

-- The rotation moves the upper four bits behind the others.
turned :
    (code : ℕ)
    → code < 2 ^ 32
    → bit_or (code * 2 ^ 4 % 2 ^ 32) (code / 2 ^ 28) ≡ code % 2 ^ 28 * 2 ^ 4 + code / 2 ^ 28
turned code h =
    ap (λ k. bit_or k (code / 2 ^ 28)) (kept code)
    ∙ bit_or_beside 4 (code % 2 ^ 28) (code / 2 ^ 28) (omega arith)
  where
    kept : (code : ℕ) → code * 2 ^ 4 % 2 ^ 32 ≡ code % 2 ^ 28 * 2 ^ 4
    kept code = omega arith

hash_byte-lt : (code byte : ℕ) → code < 2 ^ 32 → byte < 2 ^ 8 → hash_byte code byte < 2 ^ 32
unfolding hash_byte
hash_byte-lt code byte h b = bit_xor-lt 32 _ byte (omega (arith, turned code h)) (omega arith)

hash_byte_code :
    (a b byte : ℕ) → a < 2 ^ 32 → b < 2 ^ 32 → hash_byte a byte ≡ hash_byte b byte → a ≡ b
unfolding hash_byte
hash_byte_code a b byte h k e =
    let same = bit_xor_injective _ _ byte e in omega (arith, turned a h, turned b k)

hash_byte_byte : (code a b : ℕ) → hash_byte code a ≡ hash_byte code b → a ≡ b
unfolding hash_byte
hash_byte_byte code a b e =
    let r = bit_or (code * 2 ^ 4 % 2 ^ 32) (code / 2 ^ 28) in
    bit_xor_injective a b r (bit_xor_comm a r ∙ e ∙ bit_xor_comm r b)

same_start :
    (a b : ℕ) (s : List ℕ)
    → a < 2 ^ 32
    → b < 2 ^ 32
    → All (λ c. c < 2 ^ 8) s
    → simple_hash_data s a ≡ simple_hash_data s b
    → a ≡ b
unfolding simple_hash_data
same_start a b [] h k l e = e
same_start a b (c ∷ cs) h k (l, ls) e = hash_byte_code a b c h k (
    same_start (hash_byte a c) (hash_byte b c) cs (hash_byte-lt a c h l) (hash_byte-lt b c k l) ls
      e)

one_byte :
    (before behind : List ℕ) (a b code : ℕ)
    → code < 2 ^ 32
    → All (λ c. c < 2 ^ 8) before
    → All (λ c. c < 2 ^ 8) behind
    → a < 2 ^ 8
    → b < 2 ^ 8
    → simple_hash_data (before ++ a ∷ behind) code ≡ simple_hash_data (before ++ b ∷ behind) code
    → a ≡ b
unfolding simple_hash_data
one_byte [] behind a b code h f g p q e = hash_byte_byte code a b (
    same_start (hash_byte code a) (hash_byte code b) behind (hash_byte-lt code a h p)
      (hash_byte-lt code b h q) g e)
one_byte (c ∷ cs) behind a b code h (f, fs) g p q e =
    one_byte cs behind a b (hash_byte code c) (hash_byte-lt code c h f) fs g p q e

-- Two texts of bytes that differ in one byte only have different hashes, whatever code below 2 ^ 32
-- the hash starts with.
pub simple_hash_data_lem :
    (before behind : List ℕ) (a b code : ℕ)
    → code < 2 ^ 32
    → All (λ c. c < 2 ^ 8) before
    → All (λ c. c < 2 ^ 8) behind
    → a < 2 ^ 8
    → b < 2 ^ 8
    → a ≢ b
    → simple_hash_data (before ++ a ∷ behind) code ≢ simple_hash_data (before ++ b ∷ behind) code
simple_hash_data_lem before behind a b code h f g p q differ e =
    differ (one_byte before behind a b code h f g p q e)
