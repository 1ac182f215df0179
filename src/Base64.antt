-- ===== src/Base64.antt =====
-- Class `base64` of src/include/base64.h and src/utils/base64.cxx.
--
-- `init` assigns the entries 0 to 254 of `dtable`. The entry 255 is what the memory of the object
-- held: the parameter `unset`.
pub mod Groups
pub mod Reading
pub mod RoundTrip
mod Tests
use flimg.Prelude.{
  ℕ, zero, suc, ◌+◌, ◌-◌, ◌*◌, ◌/◌, ◌%◌, ◌^◌, Bool, ◌&&◌, not, List, [], ◌∷◌, ◌++◌, bit_and, bit_or,
  ltb, leb, ◌==◌, if◌then◌else◌, codes,
}

unfoldable pub etable : ℕ → ℕ
etable i =
    if ltb i 26
    then b'A' + i
    else if ltb i 52
    then b'a' + (i - 26)
    else if ltb i 62
    then b'0' + (i - 52)
    else if i == 62
    then b'+'
    else b'/'

unfoldable pub dtable : ℕ → ℕ → ℕ
dtable unset c =
    if leb b'A' c && leb c b'Z'
    then c - b'A'
    else if leb b'a' c && leb c b'z'
    then 26 + (c - b'a')
    else if leb b'0' c && leb c b'9'
    then 52 + (c - b'0')
    else if c == b'+'
    then 62
    else if c == b'/'
    then 63
    else if c == b'='
    then 0
    else if c == 255
    then unset
    else 0x80

-- `ogroup` of three bytes, and of the last one or two.
unfoldable pub ogroup : ℕ → ℕ → ℕ → List ℕ
ogroup x y z =
    etable (x / 2 ^ 2)
    ∷ etable (bit_or (bit_and x 3 * 2 ^ 4) (y / 2 ^ 4))
    ∷ etable (bit_or (bit_and y 0xF * 2 ^ 2) (z / 2 ^ 6))
    ∷ etable (bit_and z 0x3F)
    ∷ []

unfoldable pub ogroup_two : ℕ → ℕ → List ℕ
ogroup_two x y =
    etable (x / 2 ^ 2)
    ∷ etable (bit_or (bit_and x 3 * 2 ^ 4) (y / 2 ^ 4))
    ∷ etable (bit_or (bit_and y 0xF * 2 ^ 2) (0 / 2 ^ 6))
    ∷ b'='
    ∷ []

unfoldable pub ogroup_one : ℕ → List ℕ
ogroup_one x =
    etable (x / 2 ^ 2) ∷ etable (bit_or (bit_and x 3 * 2 ^ 4) (0 / 2 ^ 4)) ∷ b'=' ∷ b'=' ∷ []

-- The characters in the order in which they are put out.
unfoldable pub ogroups : List ℕ → List ℕ
ogroups [] = []
ogroups (x ∷ []) = ogroup_one x
ogroups (x ∷ y ∷ []) = ogroup_two x y
ogroups (x ∷ y ∷ z ∷ rest) = ogroup x y z ++ ogroups rest

-- The loop that puts them out, with `linelength` the characters on the line.
unfoldable pub put_out : Bool → ℕ → List ℕ → List ℕ
put_out crlf linelength [] = []
put_out crlf linelength (c ∷ cs) =
    if crlf
    then if leb 64 linelength
      then 10 ∷ c ∷ put_out crlf 1 cs
      else c ∷ put_out crlf (linelength + 1) cs
    else c ∷ put_out crlf linelength cs

-- `linelength` matters only with `crlf`, where it starts at 0.
unfoldable pub encode : Bool → List ℕ → List ℕ
encode crlf text = put_out crlf 0 (ogroups text) ++ (if crlf then 10 ∷ [] else [])

-- The string returned, and `decode_error`.
abbrev pub Decoded : Type 0
Decoded = List ℕ × Bool

-- The bytes of four characters; `=` in the third or the fourth place leaves bytes out.
unfoldable pub group_bytes : ℕ → ℕ → ℕ → ℕ → ℕ → List ℕ
group_bytes unset p q r s =
    let third = dtable unset r in
    let second = dtable unset q in
    ((bit_or (dtable unset p * 2 ^ 2) (second / 2 ^ 4)) % 256)
    ∷ (if r == b'='
        then []
        else (bit_or (second * 2 ^ 4) (third / 2 ^ 2) % 256)
          ∷ (if s == b'=' then [] else (bit_or (third * 2 ^ 6) (dtable unset s) % 256) ∷ []))

-- The characters of the group so far; `skipped` says that a blank was read last, after which the
-- end of the text is no error.
pub data Group : Type 0 where
  none_read : Group
  one_read : ℕ → Group
  two_read : ℕ → ℕ → Group
  three_read : ℕ → ℕ → ℕ → Group

at_end : Group → Bool → List ℕ → Decoded
at_end none_read skipped output = (output, Bool.false)
at_end group skipped output =
    if skipped then (output, Bool.false) else (codes "b64 file length error.\n", Bool.true)

unfoldable pub decode_loop : ℕ → List ℕ → Group → Bool → List ℕ → Decoded
unfolding at_end
decode_loop unset [] group skipped output = at_end group skipped output
decode_loop unset (c ∷ cs) group skipped output =
    let blank = decode_loop unset cs group Bool.true output in
    let next : Decoded = elim group [
      | none_read ↦ decode_loop unset cs (one_read c) Bool.false output
      | one_read p ↦ decode_loop unset cs (two_read p c) Bool.false output
      | two_read p q ↦ decode_loop unset cs (three_read p q c) Bool.false output
      | three_read p q r ↦
          decode_loop unset cs none_read Bool.false (output ++ group_bytes unset p q r c)
    ] in
    if leb c b' '
    then blank
    else if bit_and (dtable unset c) 0x80 == 0
    then next
    else (codes "Illegal character in b64 file.\n", Bool.true)

unfoldable pub decode : ℕ → List ℕ → Decoded
decode unset text = decode_loop unset text none_read Bool.false []
