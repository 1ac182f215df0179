-- ===== src/Receive/Steps.antt =====
-- One frame more of a transmission, and what more lines add.
use flimg.Prelude.{
  ℕ, suc, ◌≤◌, ◌≡◌, refl, sym, ap, ◌∙◌, arith, Bool, true, false, List, [], ◌∷◌, ◌++◌, none, some,
  ◌⊎◌, inl, inr,
}
use flimg.Prelude.{All, Option-cases}
use flimg.Crc16.{scrc16}
use flimg.Amp.{TxAmp, RxAmp, hash_of, rx_completed}
use flimg.Amp.Collect.{HeaderFields, Collected}
use flimg.Amp.Headers.{rx_parse_line}
use flimg.Amp.Headers.Session.{
  Sent, line_of, text_of, deliver_lines, after, has_after, IsReady, IsPart, same_fields, takes_line,
}
use flimg.Receive.{ltypes, existing, rx_append, process_data_stream}
use flimg.Receive.Layout.{passed_frame}
use flimg.Receive.Parsing.{rx_parse_buffer-frame}
use flimg.Receive.Growing.{IsGrown, rx_parse_line-IsGrown}
use flimg.Receive.Places.{leaves_behind, reads_behind}
use flimg.Receive.Streams.{deliver_frames, IsFramedPart, scans_hash}

module _ (version : List ℕ) (tx : TxAmp) (ready : IsReady tx) (amps : List RxAmp)
    (absent : existing (hash_of tx) amps ≡ none) where
  -- One frame more.
  pub reads_part :
      (s : Sent) (headers : HeaderFields) (has : ℕ → Bool) (rx : RxAmp)
      → IsPart tx s
      → IsFramedPart version tx s
      → Collected tx headers has rx
      → rx.rxbuffer ≡ []
      → rx_completed rx ≡ false
      → (text : List ℕ) × (next : RxAmp) × (text_of version tx s ≡ some text)
        × (process_data_stream (amps ++ rx ∷ []) (passed_frame (ltypes (line_of s)) text)
            ≡ some (amps ++ next ∷ []))
        × Collected tx (after tx s headers) (has_after s has) next
        × (next.rxbuffer ≡ [])
  unfolding rx_append
  reads_part s headers has rx part framed c empty open_ =
      let (text0, next0, e0, f0, d0) = takes_line version tx ready s headers has rx part c in
      let frame = passed_frame (ltypes (line_of s)) text0 in
      let held : RxAmp = rx_append rx frame in
      let c' : Collected tx headers has held = same_fields tx rx held c refl refl refl refl in
      let (text, next, e, f, d) = takes_line version tx ready s headers has held part c' in
      let same : text0 ≡ text = cc (e0, e) in
      let parsed =
        rx_parse_buffer-frame (line_of s) text held next (framed text e)
          (ap (λ b. b ++ frame) empty ∙ ap (passed_frame (ltypes (line_of s))) same) f in
      (
        text0,
        record next { rxbuffer = [] },
        e0,
        reads_behind (hash_of tx) frame amps (scans_hash version tx ready s text0 e0) absent rx _
            c.same_hash open_ parsed,
        same_fields tx next _ d refl refl refl refl,
        refl,
      )

  pub deliver_frames-cons :
      (s : Sent) (rest : List Sent) (now next : List RxAmp) (text : List ℕ)
      → text_of version tx s ≡ some text
      → process_data_stream now (passed_frame (ltypes (line_of s)) text) ≡ some next
      → deliver_frames version tx now (s ∷ rest) ≡ deliver_frames version tx next rest
  unfolding deliver_frames
  deliver_frames-cons s rest now next text e f = rw (e, f, deliver_frames) refl

  -- A complete amp is left alone by the rest of the transmission.
  pub stays :
      (order : List Sent) (headers : HeaderFields) (has : ℕ → Bool) (rx : RxAmp)
      → All (IsPart tx) order
      → Collected tx headers has rx
      → rx_completed rx ≡ true
      → deliver_frames version tx (amps ++ rx ∷ []) order ≡ some (amps ++ rx ∷ [])
  unfolding deliver_frames
  stays [] headers has rx a c done = refl
  stays (s ∷ rest) headers has rx (p, a) c done =
      let (text, next, e, f, d) = takes_line version tx ready s headers has rx p c in
      deliver_frames-cons s rest (amps ++ rx ∷ []) (amps ++ rx ∷ []) text e (
        leaves_behind (hash_of tx) _ amps (scans_hash version tx ready s text e) absent rx
          c.same_hash done)
      ∙ stays rest headers has rx a c done

-- Reading more lines adds blocks, or none.
unfoldable pub IsMore : RxAmp → RxAmp → Type 0
IsMore rx last =
    ((last.rxblocks ≡ rx.rxblocks) × (last.rx_ok_blocks ≡ rx.rx_ok_blocks))
    ⊎ (suc rx.rx_ok_blocks ≤ last.rx_ok_blocks)

IsMore-trans : (rx mid last : RxAmp) → IsGrown rx mid → IsMore mid last → IsMore rx last
unfolding IsMore
IsMore-trans rx mid last g m = elim g.more [
  | inl (a, b) ↦ elim m [ inl (c, d) ↦ inl (c ∙ a, d ∙ b) | inr l ↦ inr (omega arith) ]
  | inr b ↦ elim m [ inl (c, d) ↦ inr (omega arith) | inr l ↦ inr (omega arith) ]
]

pub deliver_lines-IsMore :
    (version : List ℕ) (tx : TxAmp) (order : List Sent) (rx last : RxAmp)
    → deliver_lines version tx rx order ≡ some last
    → IsMore rx last
unfolding deliver_lines IsMore
deliver_lines-IsMore version tx [] rx last h =
    let same : rx ≡ last = cc in
    inl (ap (λ r. r.rxblocks) (sym same), ap (λ r. r.rx_ok_blocks) (sym same))
deliver_lines-IsMore version tx (s ∷ rest) rx last h = elim (Option-cases (text_of version tx s)) [
  | inl e ↦ absurd (cc (rw (e, deliver_lines) at h))
  | inr (text, e) ↦ elim (Option-cases (rx_parse_line rx (line_of s) (scrc16 text) text)) [
    | inl f ↦ absurd (cc (rw (e, f, deliver_lines) at h))
    | inr (mid, f) ↦
        IsMore-trans rx mid last (rx_parse_line-IsGrown rx (line_of s) (scrc16 text) text mid f)
          (deliver_lines-IsMore version tx rest mid last (rw (e, f, deliver_lines) at h))
  ]
]
