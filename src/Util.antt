-- ===== src/Util.antt =====
-- The string helpers of src/utils/util.cxx that ask nothing of the system. A C string is the list
-- of its bytes in front of the zero; a `uint32_t` is a number below 2 ^ 32; a width is the value of
-- an `int` that is not negative.
pub mod Hash
pub mod Digits
pub mod Strings
mod Tests
use flimg.Prelude.{
  ℕ, zero, suc, ◌+◌, ◌-◌, ◌*◌, ◌/◌, ◌%◌, ◌^◌, bit_and, bit_or, bit_xor, Bool, true, false, ◌&&◌,
  List, [], ◌∷◌, ◌++◌, map,
}
use flimg.Prelude.{ltb, leb, ◌==◌, if◌then◌else◌, take, drop, length}
use flimg.Crc16.{hex_digit}
use flimg.Amp.Reports.{is_empty}

-- One turn of the loop of `simple_hash_data`.
unfoldable pub hash_byte : ℕ → ℕ → ℕ
hash_byte code byte = bit_xor (bit_or (code * 2 ^ 4 % 2 ^ 32) (code / 2 ^ 28)) byte

unfoldable pub simple_hash_data : List ℕ → ℕ → ℕ
simple_hash_data [] code = code
simple_hash_data (b ∷ bs) code = simple_hash_data bs (hash_byte code b)

-- `simple_hash_str`, of the memory that begins at the string.
unfoldable pub simple_hash_str : List ℕ → ℕ → ℕ
simple_hash_str [] code = code
simple_hash_str (b ∷ bs) code =
    let rest = simple_hash_str bs (hash_byte code b) in if b == 0 then code else rest

-- The loop of `str2hex`; the last blank becomes the zero at the end.
unfoldable pub hex_loop : List ℕ → List ℕ
hex_loop [] = []
hex_loop (b ∷ []) = hex_digit (b / 2 ^ 4) ∷ hex_digit (bit_and b 15) ∷ []
hex_loop (b ∷ c ∷ cs) = hex_digit (b / 2 ^ 4) ∷ hex_digit (bit_and b 15) ∷ b' ' ∷ hex_loop (c ∷ cs)

unfoldable pub str2hex : List ℕ → List ℕ
str2hex str = hex_loop str

-- The loop of `uint2bin`, which fills the buffer from its end.
unfoldable pub bin_loop : ℕ → ℕ → List ℕ → List ℕ
bin_loop zero u filled = filled
bin_loop (suc len) u filled = bin_loop len (u / 2) ((b'0' + bit_and u 1) ∷ filled)

unfoldable pub uint2bin : ℕ → ℕ → List ℕ
uint2bin u len = bin_loop (if len == 0 then 32 else len) u []

-- The two loops of `strip_spaces` and of `strip_lfs`, and the one of `strip_leading_zeros`.
unfoldable pub strip_front : ℕ → List ℕ → List ℕ
strip_front c [] = []
strip_front c (x ∷ xs) = if x == c then strip_front c xs else x ∷ xs

unfoldable pub strip_back : ℕ → List ℕ → List ℕ
strip_back c [] = []
strip_back c (x ∷ xs) =
    let rest = strip_back c xs in if is_empty rest && (x == c) then [] else x ∷ rest

unfoldable pub strip_spaces : List ℕ → List ℕ
strip_spaces s = strip_back b' ' (strip_front b' ' s)

unfoldable pub strip_leading_zeros : List ℕ → List ℕ
strip_leading_zeros s = strip_front b'0' s

unfoldable pub strip_lfs : List ℕ → List ℕ
strip_lfs s = strip_back 10 (strip_front 10 s)

-- The loop of `wordwrap`.
unfoldable pub wrap_loop : ℕ → ℕ → List ℕ → List ℕ
wrap_loop cnt cntr [] = []
wrap_loop cnt cntr (c ∷ cs) =
    let next = wrap_loop cnt 1 cs in
    let same = wrap_loop cnt (cntr + 1) cs in
    if c == 10 then c ∷ next else if (c == b' ') && leb cnt cntr then 10 ∷ next else c ∷ same

unfoldable pub wordwrap : List ℕ → ℕ → List ℕ
wordwrap s cnt = wrap_loop cnt 1 s

-- `strlcpy`: the length of the string, and the memory at `dest`.
unfoldable pub strlcpy : List ℕ → List ℕ → ℕ → ℕ × List ℕ
strlcpy dest src zero = (length src, dest)
strlcpy dest src (suc size) =
    let len = if leb (suc size) (length src) then size else length src in
    (length src, take len src ++ 0 ∷ drop (len + 1) dest)

-- `strnlen`, of the memory that begins at the string.
unfoldable pub strnlen : List ℕ → ℕ → ℕ
strnlen cs zero = 0
strnlen [] (suc limit) = 0
strnlen (c ∷ cs) (suc limit) = let rest = strnlen cs limit in if c == 0 then 0 else suc rest
