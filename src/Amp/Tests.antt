-- ===== src/Amp/Tests.antt =====
-- `rx_recvd_string-deliver` at a file of five bytes in blocks of two.
use flimg.Prelude.{ℕ, zero, suc, ◌≡◌, refl, arith, true, List, [], ◌∷◌, some, codes}
use flimg.Amp.{RxAmp, rx_completed, rx_recvd_string, xmt_calc_numblocks}
use flimg.Amp.Transfer.{deliver, mem, IsBlock, rx_recvd_string-deliver}
use flimg.Amp.Samples.{hello, listening, listening-AwaitsBlocks}

abbrev arrivals : List ℕ
arrivals = 3 ∷ 1 ∷ 3 ∷ 2 ∷ []

all_arrive : (i : ℕ) → IsBlock hello i → mem i arrivals ≡ true
unfolding xmt_calc_numblocks mem
all_arrive zero (p, q) = absurd (omega arith)
all_arrive (suc zero) h = refl
all_arrive (suc (suc zero)) h = refl
all_arrive (suc (suc (suc zero))) h = refl
all_arrive (suc (suc (suc (suc i)))) (p, q) = absurd (omega arith)

rx_recvd_string-deliver_example :
    (last : RxAmp) × (deliver hello listening arrivals ≡ some last)
    × (rx_completed last ≡ true)
    × (rx_recvd_string last ≡ codes "HELLO")
unfolding xmt_calc_numblocks
rx_recvd_string-deliver_example =
    rx_recvd_string-deliver hello listening arrivals (omega arith) (omega arith) (omega arith)
      listening-AwaitsBlocks
      (
        (omega arith, omega arith),
        (
          (omega arith, omega arith),
          ((omega arith, omega arith), ((omega arith, omega arith), tt)),
        ),
      )
      all_arrive
