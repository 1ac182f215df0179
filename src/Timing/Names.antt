-- ===== src/Timing/Names.antt =====
-- The names of the modems in the table of src/utils/time_table_dat.cxx.
use flimg.Prelude.{ℕ, List, [], ◌∷◌, codes}

abbrev pub mode_names : List (List ℕ)
mode_names =
    codes "8PSK125"
    ∷ codes "8PSK250"
    ∷ codes "8PSK500"
    ∷ codes "8PSK1000"
    ∷ codes "8PSK1200"
    ∷ codes "8PSK1333"
    ∷ codes "8PSK125F"
    ∷ codes "8PSK250F"
    ∷ codes "8PSK500F"
    ∷ codes "8PSK1000F"
    ∷ codes "8PSK1200F"
    ∷ codes "8PSK1333F"
    ∷ codes "BPSK31"
    ∷ codes "BPSK63"
    ∷ codes "BPSK63F"
    ∷ codes "BPSK125"
    ∷ codes "BPSK250"
    ∷ codes "BPSK500"
    ∷ codes "BPSK1000"
    ∷ codes "DOMX22"
    ∷ codes "DOMX44"
    ∷ codes "DOMX88"
    ∷ codes "MFSK16"
    ∷ codes "MFSK22"
    ∷ codes "MFSK31"
    ∷ codes "MFSK32"
    ∷ codes "MFSK64"
    ∷ codes "MFSK64L"
    ∷ codes "MFSK128"
    ∷ codes "MFSK128L"
    ∷ codes "MT63-500L"
    ∷ codes "MT63-500S"
    ∷ codes "MT63-1KL"
    ∷ codes "MT63-1KS"
    ∷ codes "MT63-2KL"
    ∷ codes "MT63-2KS"
    ∷ codes "Olivia-4-250"
    ∷ codes "Olivia-4-500"
    ∷ codes "Olivia-8-250"
    ∷ codes "Olivia-8-500"
    ∷ codes "Olivia-8-1K"
    ∷ codes "Olivia-16-500"
    ∷ codes "Olivia-16-1K"
    ∷ codes "Olivia-32-1K"
    ∷ codes "Olivia-64-2K"
    ∷ codes "PSK63RC4"
    ∷ codes "PSK63RC5"
    ∷ codes "PSK63RC10"
    ∷ codes "PSK63RC20"
    ∷ codes "PSK63RC32"
    ∷ codes "PSK125R"
    ∷ codes "PSK125RC4"
    ∷ codes "PSK125RC5"
    ∷ codes "PSK125C12"
    ∷ codes "PSK125RC10"
    ∷ codes "PSK125RC12"
    ∷ codes "PSK125RC16"
    ∷ codes "PSK250R"
    ∷ codes "PSK250C6"
    ∷ codes "PSK250RC2"
    ∷ codes "PSK250RC3"
    ∷ codes "PSK250RC5"
    ∷ codes "PSK250RC6"
    ∷ codes "PSK250RC7"
    ∷ codes "PSK500R"
    ∷ codes "PSK500C2"
    ∷ codes "PSK500C4"
    ∷ codes "PSK500RC2"
    ∷ codes "PSK500RC3"
    ∷ codes "PSK500RC4"
    ∷ codes "PSK800C2"
    ∷ codes "PSK800RC2"
    ∷ codes "PSK1000C2"
    ∷ codes "PSK1000R"
    ∷ codes "PSK1000RC2"
    ∷ codes "QPSK31"
    ∷ codes "QPSK63"
    ∷ codes "QPSK125"
    ∷ codes "QPSK250"
    ∷ codes "QPSK500"
    ∷ codes "THOR16"
    ∷ codes "THOR22"
    ∷ codes "THOR25x4"
    ∷ codes "THOR50x1"
    ∷ codes "THOR50x2"
    ∷ codes "THOR100"
    ∷ []
