-- ===== src/Crc16/Tests.antt =====
-- Runs of the CRC, and its theorems at concrete texts.
use flimg.Prelude.{◌≡◌, refl, arith, ◌≢◌, inl, [], ◌∷◌}
use flimg.Crc16.{scrc16}
use flimg.Crc16.Detect.{scrc16_burst}

-- The usual check value of this CRC (polynomial 0x8005 reflected, start 0xFFFF).
scrc16_check :
    scrc16 (b'1' ∷ b'2' ∷ b'3' ∷ b'4' ∷ b'5' ∷ b'6' ∷ b'7' ∷ b'8' ∷ b'9' ∷ [])
    ≡ b'4' ∷ b'B' ∷ b'3' ∷ b'7' ∷ []
unfolding scrc16
scrc16_check = refl

scrc16_burst_example :
    scrc16 (b'x' ∷ b'a' ∷ b'b' ∷ b'y' ∷ []) ≢ scrc16 (b'x' ∷ b'b' ∷ b'a' ∷ b'y' ∷ [])
scrc16_burst_example =
    scrc16_burst (b'x' ∷ []) (b'y' ∷ []) b'a' b'b' b'b' b'a' (omega arith) (omega arith)
      (omega arith) (omega arith) (inl (omega arith))
