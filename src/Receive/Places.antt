-- ===== src/Receive/Places.antt =====
-- Which amp of the list a frame goes to.
use flimg.Prelude.{
  ℕ, ◌≡◌, refl, sym, ap, ◌∙◌, true, false, List, [], ◌∷◌, ◌++◌, none, some, inl, inr,
}
use flimg.Prelude.{length, get_elem?, set, codes, Bool-cases, Option-cases}
use flimg.Cstd.{c_str}
use flimg.Amp.{RxAmp, same_text, rx_completed}
use flimg.Amp.Blocks.{same_text_refl}
use flimg.Receive.{
  new_amp, scan_frame, existing, started, goes_to, rx_append, rx_parse_buffer, process_data_stream,
}

-- The amp that a frame with a new hash is put into.
unfoldable pub fresh : List ℕ → RxAmp
fresh hash = record new_amp { rxhash = hash; rxfilename = codes "Unassigned" }

module _ {ℓ} {A : Type ℓ} where
  get_elem?-behind : (xs : List A) (a : A) → get_elem? (xs ++ a ∷ []) (length xs) ≡ some a
  get_elem?-behind [] a = refl
  get_elem?-behind (x ∷ xs) a = get_elem?-behind xs a

  set-behind : (xs : List A) (a b : A) → set (xs ++ a ∷ []) (length xs) b ≡ xs ++ b ∷ []
  set-behind [] a b = refl
  set-behind (x ∷ xs) a b = ap (λ t. x ∷ t) (set-behind xs a b)

existing-behind :
    (hash : List ℕ) (amps : List RxAmp) (amp : RxAmp)
    → existing hash amps ≡ none
    → amp.rxhash ≡ hash
    → existing hash (amps ++ amp ∷ []) ≡ some (length amps)
unfolding existing
existing-behind hash [] amp h e =
    let same : same_text hash amp.rxhash ≡ true = ap (same_text hash) e ∙ same_text_refl hash in
    rw same refl
existing-behind hash (x ∷ xs) amp h e = elim (Bool-cases (same_text hash x.rxhash)) [
  | inl s ↦ absurd (cc (rw (s, existing) at h))
  | inr s ↦ elim (Option-cases (existing hash xs)) [
    | inl n ↦ rw (s, existing-behind hash xs amp n e, existing) refl
    | inr (i, n) ↦ absurd (cc (rw (s, n, existing) at h))
  ]
]

module _ (hash retbuff : List ℕ) (amps : List RxAmp)
    (scanned : scan_frame (c_str retbuff) ≡ some hash) (absent : existing hash amps ≡ none) where
  pub goes_behind :
      (amp : RxAmp)
      → amp.rxhash ≡ hash
      → process_data_stream (amps ++ amp ∷ []) retbuff
        ≡ goes_to (amps ++ amp ∷ []) (length amps) amp retbuff
  unfolding process_data_stream
  goes_behind amp e =
      rw
        (
          scanned,
          existing-behind hash amps amp absent e,
          get_elem?-behind amps amp,
          process_data_stream,
        )
        refl

  -- A complete amp is left alone.
  pub leaves_behind :
      (amp : RxAmp)
      → amp.rxhash ≡ hash
      → rx_completed amp ≡ true
      → process_data_stream (amps ++ amp ∷ []) retbuff ≡ some (amps ++ amp ∷ [])
  leaves_behind amp e done = goes_behind amp e ∙ unfold goes_to in rw (done, goes_to) refl

  -- An amp that is not complete reads the frame.
  pub reads_behind :
      (amp next : RxAmp)
      → amp.rxhash ≡ hash
      → rx_completed amp ≡ false
      → rx_parse_buffer (rx_append amp retbuff) ≡ some next
      → process_data_stream (amps ++ amp ∷ []) retbuff ≡ some (amps ++ next ∷ [])
  reads_behind amp next e open_ parsed =
      goes_behind amp e
      ∙ unfold goes_to in rw (open_, parsed, set-behind amps amp next, goes_to) refl

  fresh-waits : rx_completed (fresh hash) ≡ false
  unfolding rx_completed fresh new_amp
  fresh-waits = refl

  starts_throwing :
      rx_parse_buffer (started hash retbuff) ≡ none
      → (process_data_stream amps retbuff ≡ none)
        × (process_data_stream (amps ++ fresh hash ∷ []) retbuff ≡ none)
  unfolding process_data_stream started fresh
  starts_throwing n = (
    rw (scanned, absent, n, process_data_stream) refl,
    goes_behind (fresh hash) refl ∙ unfold goes_to in rw (fresh-waits, n, goes_to) refl,
  )

  starts_with_amp :
      (next : RxAmp)
      → rx_parse_buffer (started hash retbuff) ≡ some next
      → (process_data_stream amps retbuff ≡ some (amps ++ next ∷ []))
        × (process_data_stream (amps ++ fresh hash ∷ []) retbuff ≡ some (amps ++ next ∷ []))
  unfolding process_data_stream started fresh
  starts_with_amp next n = (
    rw (scanned, absent, n, process_data_stream) refl,
    reads_behind (fresh hash) next refl fresh-waits n,
  )

  -- The first frame is as one for a fresh amp at the end of the list.
  pub first_frame :
      process_data_stream amps retbuff ≡ process_data_stream (amps ++ fresh hash ∷ []) retbuff
  first_frame = elim (Option-cases (rx_parse_buffer (started hash retbuff))) [
    | inl n ↦ (starts_throwing n).0 ∙ sym (starts_throwing n).1
    | inr (next, n) ↦ (starts_with_amp next n).0 ∙ sym (starts_with_amp next n).1
  ]
