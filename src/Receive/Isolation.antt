-- ===== src/Receive/Isolation.antt =====
-- A frame changes no amp but the one whose hash it names.
use flimg.Prelude.{
  ℕ, zero, suc, ◌≤◌, ◌≡◌, ◌≢◌, sym, ap, ◌∙◌, arith, true, false, List, [], ◌∷◌, ◌++◌, Option, some,
  ◌⊎◌, inl, inr,
}
use flimg.Prelude.{
  length, length-append, length-set, get_elem?, get_elem?-set_ne, set, Bool-cases, Option-cases,
}
use flimg.Cstd.{c_str}
use flimg.Amp.Blocks.{same_text_sound}
use flimg.Amp.{RxAmp, same_text, rx_completed}
use flimg.Receive.{
  scan_frame, existing, started, goes_to, rx_append, rx_parse_buffer, process_data_stream,
}

here :
    {x amp : RxAmp} (xs : List RxAmp) (i : ℕ)
    → Option.some 0 ≡ some i
    → get_elem? (x ∷ xs) i ≡ some amp
    → x ≡ amp
here xs zero e g = cc
here xs (suc i) e g = absurd (ground arith)

there :
    {amp : RxAmp} (x : RxAmp) (xs : List RxAmp) (i j : ℕ)
    → Option.some (suc j) ≡ some i
    → get_elem? (x ∷ xs) i ≡ some amp
    → get_elem? xs j ≡ some amp
there x xs zero j e g = absurd (ground arith)
there x xs (suc i) j e g = let same : i ≡ j = ground arith in rw (← same) g

-- The amp that is found has the hash.
existing_lem :
    (hash : List ℕ) (amps : List RxAmp) (i : ℕ) (amp : RxAmp)
    → existing hash amps ≡ some i
    → get_elem? amps i ≡ some amp
    → hash ≡ amp.rxhash
unfolding existing
existing_lem hash [] i amp h g = cc
existing_lem hash (x ∷ xs) i amp h g = elim (Bool-cases (same_text hash x.rxhash)) [
  | inl s ↦
      same_text_sound hash x.rxhash s ∙ ap (λ a. a.rxhash) (here xs i (rw (s, existing) at h) g)
  | inr s ↦ elim (Option-cases (existing hash xs)) [
    | inl n ↦ absurd (cc (rw (s, n, existing) at h))
    | inr (j, n) ↦ existing_lem hash xs j amp n (there x xs i j (rw (s, n, existing) at h) g)
  ]
]

get_elem?-append {ℓ} :
    {A : Type ℓ} (xs ys : List A) (i : ℕ) (a : A)
    → get_elem? xs i ≡ some a
    → get_elem? (xs ++ ys) i ≡ some a
get_elem?-append [] ys i a h = cc
get_elem?-append (x ∷ xs) ys zero a h = h
get_elem?-append (x ∷ xs) ys (suc i) a h = get_elem?-append xs ys i a h

-- A frame leaves an amp alone that has another hash than the frame names, or whose file is
-- complete.
abbrev LeftAlone : List ℕ → RxAmp → Type 0
LeftAlone retbuff amp = (scan_frame (c_str retbuff) ≢ some amp.rxhash) ⊎ (rx_completed amp ≡ true)

other_place :
    (amps : List RxAmp) (retbuff hash : List ℕ) (i j : ℕ) (held amp : RxAmp)
    → scan_frame (c_str retbuff) ≡ some hash
    → hash ≡ held.rxhash
    → get_elem? amps j ≡ some held
    → get_elem? amps i ≡ some amp
    → LeftAlone retbuff amp
    → rx_completed held ≡ false
    → i ≢ j
other_place amps retbuff hash i j held amp s h g f alone d k =
    let same : held ≡ amp = cc (sym g ∙ ap (get_elem? amps) (sym k) ∙ f) in
    elim alone [
      | inl ne ↦ ne (s ∙ ap some (h ∙ ap (λ a. a.rxhash) same))
      | inr done ↦ cc (sym d ∙ ap rx_completed same ∙ done)
    ]

goes_to-others :
    (amps next : List RxAmp) (j i : ℕ) (held amp : RxAmp) (retbuff : List ℕ)
    → goes_to amps j held retbuff ≡ some next
    → get_elem? amps j ≡ some held
    → get_elem? amps i ≡ some amp
    → (rx_completed held ≡ false → i ≢ j)
    → (get_elem? next i ≡ some amp) × (length next ≡ length amps)
unfolding goes_to
goes_to-others amps next j i held amp retbuff h g f other = elim (Bool-cases (rx_completed held)) [
  | inl d ↦
      let same : amps ≡ next = cc (rw (d, goes_to) at h) in
      (ap (λ l. get_elem? l i) (sym same) ∙ f, ap length (sym same))
  | inr d ↦ elim (Option-cases (rx_parse_buffer (rx_append held retbuff))) [
    | inl n ↦ absurd (cc (rw (d, n, goes_to) at h))
    | inr (new, n) ↦
        let same : set amps j new ≡ next = cc (rw (d, n, goes_to) at h) in
        (
          ap (λ l. get_elem? l i) (sym same) ∙ get_elem?-set_ne amps new (λ e. other d (sym e)) ∙ f,
          ap length (sym same) ∙ length-set amps j new,
        )
  ]
]

-- Whatever the frame holds: if the call does not throw, each amp that has another hash than the
-- frame names or whose file is complete is as it was and in its place, and there is at most one amp
-- more.
pub process_data_stream-others :
    (amps next : List RxAmp) (retbuff : List ℕ) (i : ℕ) (amp : RxAmp)
    → process_data_stream amps retbuff ≡ some next
    → get_elem? amps i ≡ some amp
    → LeftAlone retbuff amp
    → (get_elem? next i ≡ some amp) × (length next ≤ suc (length amps))
unfolding process_data_stream
process_data_stream-others amps next retbuff i amp h f alone =
    elim (Option-cases (scan_frame (c_str retbuff))) [
      | inl s ↦
          let same : amps ≡ next = cc (rw (s, process_data_stream) at h) in
          (ap (λ l. get_elem? l i) (sym same) ∙ f, omega (arith, ap length same))
      | inr (hash, s) ↦ elim (Option-cases (existing hash amps)) [
        | inl e ↦ elim (Option-cases (rx_parse_buffer (started hash retbuff))) [
          | inl n ↦ absurd (cc (rw (s, e, n, process_data_stream) at h))
          | inr (nu, n) ↦
              let same : amps ++ nu ∷ [] ≡ next = cc (rw (s, e, n, process_data_stream) at h) in
              (
                ap (λ l. get_elem? l i) (sym same) ∙ get_elem?-append amps (nu ∷ []) i amp f,
                omega (arith, ap length same, length-append {0} amps (nu ∷ [])),
              )
        ]
        | inr (j, e) ↦ elim (Option-cases (get_elem? amps j)) [
          | inl g ↦
              let same : amps ≡ next = cc (rw (s, e, g, process_data_stream) at h) in
              (ap (λ l. get_elem? l i) (sym same) ∙ f, omega (arith, ap length same))
          | inr (held, g) ↦
              let (a, b) =
                goes_to-others amps next j i held amp retbuff
                  (rw (s, e, g, process_data_stream) at h) g f
                  (other_place amps retbuff hash i j held amp s (existing_lem hash amps j held e g)
                    g f alone) in
              (a, omega (arith, b))
        ]
      ]
    ]
