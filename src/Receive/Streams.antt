-- ===== src/Receive/Streams.antt =====
-- The frames of a transmission, and the hash that each names.
use flimg.Prelude.{
  Bool-cases, leb, ◌==◌, ◌^◌, false, ℕ, zero, suc, ◌*◌, ◌≡◌, refl, sym, ap, ◌∙◌, arith, List, [],
  ◌∷◌, ◌++◌, Option, none, some, append_assoc, inl, inr,
}
use flimg.Prelude.{length, take, Option-cases}
use flimg.Cstd.{pos, print_int, c_str}
use flimg.Amp.{TxAmp, RxAmp, substr, hash_of, block_mark, block_text}
use flimg.Amp.Headers.{
  braced, file_text, id_text, size_text, desc_text, program_text, eof_text, eot_text,
}
use flimg.Amp.Headers.Words.{hash_of-IsWord}
use flimg.Amp.Headers.Session.{
  Sent, the_file, the_id, the_size, the_desc, the_program, the_eof, the_eot, the_block, line_of,
  text_of, IsReady,
}
use flimg.Receive.{ltypes, scan_frame, process_data_stream}
use flimg.Receive.Layout.{passed_frame, IsFramed}
use flimg.Receive.Scanning.{scan_frame-passed_frame}

-- Frames go from `tx` to the list of amps, in this order.
unfoldable pub deliver_frames : List ℕ → TxAmp → List RxAmp → List Sent → Option (List RxAmp)
deliver_frames version tx amps [] = some amps
deliver_frames version tx amps (s ∷ rest) = elim (text_of version tx s) [
  | none ↦ none
  | some text ↦ elim (process_data_stream amps (passed_frame (ltypes (line_of s)) text)) [
    | none ↦ none
    | some next ↦ deliver_frames version tx next rest
  ]
]

-- Every text of the transmission may be sent under its tag.
abbrev pub IsFramedPart : List ℕ → TxAmp → Sent → Type 0
IsFramedPart version tx s =
    (text : List ℕ) → text_of version tx s ≡ some text → IsFramed (line_of s) text

mark_begins :
    (hash tail : List ℕ)
    → length hash ≡ 4
    → take 46 (b'{' ∷ (hash ++ tail)) ≡ b'{' ∷ (hash ++ take 41 tail)
mark_begins [] tail e = absurd (omega arith)
mark_begins (a ∷ []) tail e = absurd (omega arith)
mark_begins (a ∷ b ∷ []) tail e = absurd (omega arith)
mark_begins (a ∷ b ∷ c ∷ []) tail e = absurd (omega arith)
mark_begins (a ∷ b ∷ c ∷ d ∷ []) tail e = refl
mark_begins (a ∷ b ∷ c ∷ d ∷ x ∷ rest) tail e = absurd (omega arith)

-- Whatever is sent begins with the hash.
abbrev Begins : TxAmp → List ℕ → Type 0
Begins tx text = (rest : List ℕ) × (text ≡ b'{' ∷ (hash_of tx ++ rest))

module _ (version : List ℕ) (tx : TxAmp) (ready : IsReady tx) where
  Begins-so :
      (body text : List ℕ) → Option.some (b'{' ∷ (tx.xmthash ++ body)) ≡ some text → Begins tx text
  Begins-so body text h =
      let same : b'{' ∷ (tx.xmthash ++ body) ≡ text = cc in
      (body, sym same ∙ ap (λ h. b'{' ∷ (h ++ body)) ready.fresh_hash)

  Begins-block : (i : ℕ) (text : List ℕ) → block_text tx i ≡ some text → Begins tx text
  unfolding block_text block_mark
  Begins-block zero text h =
      let held : (tx.xmtblocksize == 0) ≡ false = ground (arith, ready.some_size) in
      absurd (cc (rw (held, block_text) at h))
  Begins-block (suc j) text h = elim (Bool-cases (leb (2 ^ 31) (j * tx.xmtblocksize))) [
    | inl big ↦ absurd (cc (rw (big, block_text) at h))
    | inr in_int ↦ elim (Option-cases (substr tx.xmtdata (j * tx.xmtblocksize) tx.xmtblocksize)) [
      | inl e ↦ absurd (cc (rw (in_int, e, block_text) at h))
      | inr (piece, e) ↦
          let tail = b':' ∷ (print_int (pos (suc j)) ++ b'}' ∷ []) in
          let whole : block_mark (hash_of tx) (suc j) ++ piece ≡ text =
            cc (rw (in_int, e, block_text) at h) in
          (
            take 41 tail ++ piece,
            sym whole
                ∙ ap (λ t. t ++ piece) (mark_begins (hash_of tx) tail (hash_of-IsWord tx).0.0)
                ∙ ap (λ t. b'{' ∷ t) (append_assoc (hash_of tx) (take 41 tail) piece),
          )
    ]
  ]

  Begins-text : (s : Sent) (text : List ℕ) → text_of version tx s ≡ some text → Begins tx text
  unfolding text_of file_text id_text size_text desc_text program_text eof_text eot_text braced
  Begins-text the_file text h = Begins-so _ text h
  Begins-text the_id text h = Begins-so _ text h
  Begins-text the_size text h = Begins-so _ text h
  Begins-text the_desc text h = Begins-so _ text h
  Begins-text the_program text h = Begins-so _ text h
  Begins-text the_eof text h = Begins-so _ text h
  Begins-text the_eot text h = Begins-so _ text h
  Begins-text (the_block i) text h = Begins-block i text h

  -- The frame names the hash of the file.
  pub scans_hash :
      (s : Sent) (text : List ℕ)
      → text_of version tx s ≡ some text
      → scan_frame (c_str (passed_frame (ltypes (line_of s)) text)) ≡ some (hash_of tx)
  scans_hash s text h =
      let (rest, e) = Begins-text s text h in
      ap (λ t. scan_frame (c_str (passed_frame (ltypes (line_of s)) t))) e
      ∙ scan_frame-passed_frame (line_of s) (hash_of tx) rest (hash_of-IsWord tx)
