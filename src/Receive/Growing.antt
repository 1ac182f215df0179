-- ===== src/Receive/Growing.antt =====
-- What any line leaves as it is: the buffer, and the blocks unless one more is counted.
use flimg.Prelude.{ℕ, suc, ◌≡◌, refl, ◌∙◌, arith, List, Option, some, ◌⊎◌, inl, inr}
use flimg.Prelude.{length, Bool-cases, Option-cases}
use flimg.Cstd.{ℤ, find_char, scan_int}
use flimg.IntMap.{find}
use flimg.Amp.{RxAmp, substr, same_text, keep_block, add_numbered, rx_add_data}
use flimg.Amp.Headers.{
  LineType, file_line, id_line, dttm_line, size_line, desc_line, data_line, prog_line, cntl_line,
  rx_parse_line, rx_parse_dttm_filename, rx_parse_desc, rx_parse_id, rx_parse_size, scan_sizes,
  behind_brace,
}

pub record IsGrown (rx next : RxAmp) : Type 0 where
  pub same_buffer : next.rxbuffer ≡ rx.rxbuffer
  pub more :
      ((next.rxblocks ≡ rx.rxblocks) × (next.rx_ok_blocks ≡ rx.rx_ok_blocks))
      ⊎ (next.rx_ok_blocks ≡ suc rx.rx_ok_blocks)

IsGrown-refl : (rx : RxAmp) → IsGrown rx rx
IsGrown-refl rx = record { same_buffer = refl; more = inl (refl, refl) }

keep_block-IsGrown :
    (rx : RxAmp) (text : List ℕ) (blknbr : ℤ) (close : ℕ)
    → IsGrown rx (keep_block rx text blknbr close)
unfolding keep_block
keep_block-IsGrown rx text blknbr close = record { same_buffer = refl; more = inr (omega arith) }

add_numbered-IsGrown :
    (rx : RxAmp) (text : List ℕ) (blknbr : ℤ) → IsGrown rx (add_numbered rx text blknbr)
unfolding add_numbered
add_numbered-IsGrown rx text blknbr = elim (Option-cases (find blknbr rx.rxblocks)) [
  | inr (old, e) ↦ rw (e, add_numbered) (IsGrown-refl rx)
  | inl e ↦ elim (Option-cases (find_char b'}' text)) [
    | inl f ↦ rw (e, f, add_numbered) (IsGrown-refl rx)
    | inr (close, f) ↦ rw (e, f, add_numbered) (keep_block-IsGrown rx text blknbr close)
  ]
]

settled : (rx a next : RxAmp) → Option.some a ≡ some next → IsGrown rx a → IsGrown rx next
settled rx a next h g = let e : a ≡ next = cc in rw (← e) g

rx_add_data-IsGrown :
    (rx : RxAmp) (text : List ℕ) (next : RxAmp) → rx_add_data rx text ≡ some next → IsGrown rx next
unfolding rx_add_data
rx_add_data-IsGrown rx text next h = elim (Option-cases (substr text 1 4)) [
  | inl e ↦ absurd (cc (rw (e, rx_add_data) at h))
  | inr (hash, e) ↦ elim (Bool-cases (same_text rx.rxhash hash)) [
    | inr f ↦ settled rx rx next (rw (e, f, rx_add_data) at h) (IsGrown-refl rx)
    | inl f ↦ elim (Option-cases (substr text 6 (length text))) [
      | inl g ↦ absurd (cc (rw (e, f, g, rx_add_data) at h))
      | inr (number, g) ↦ elim (Option-cases (scan_int number)) [
        | inl k ↦ settled rx rx next (rw (e, f, g, k, rx_add_data) at h) (IsGrown-refl rx)
        | inr (z, k) ↦
            settled rx (add_numbered rx text z) next (rw (e, f, g, k, rx_add_data) at h)
              (add_numbered-IsGrown rx text z)
      ]
    ]
  ]
]

file_parsed : (rx : RxAmp) (crc text : List ℕ) → IsGrown rx (rx_parse_dttm_filename rx crc text)
unfolding rx_parse_dttm_filename
file_parsed rx crc text = elim (Option-cases (find_char b':' (behind_brace text))) [
  | inl e ↦ rw (e, rx_parse_dttm_filename) (IsGrown-refl rx)
  | inr (p, e) ↦
      rw (e, rx_parse_dttm_filename) (record { same_buffer = refl; more = inl (refl, refl) })
]

size_parsed : (rx : RxAmp) (text : List ℕ) → IsGrown rx (rx_parse_size rx text)
unfolding rx_parse_size
size_parsed rx text = elim (Option-cases (scan_sizes text)) [
  | inl e ↦ rw (e, rx_parse_size) (IsGrown-refl rx)
  | inr ((hashval, fs, nb, bs), e) ↦ elim (Bool-cases (same_text rx.rxhash hashval)) [
    | inr f ↦ rw (e, f, rx_parse_size) (IsGrown-refl rx)
    | inl f ↦ rw (e, f, rx_parse_size) (record { same_buffer = refl; more = inl (refl, refl) })
  ]
]

-- A line that only changes other fields.
other_fields :
    (rx parsed next : RxAmp)
    → IsGrown rx parsed
    → next.rxbuffer ≡ parsed.rxbuffer
    → next.rxblocks ≡ parsed.rxblocks
    → next.rx_ok_blocks ≡ parsed.rx_ok_blocks
    → IsGrown rx next
other_fields rx parsed next g a b c = record {
  same_buffer = a ∙ g.same_buffer;
  more = elim g.more [ inl (d, e) ↦ inl (b ∙ d, c ∙ e) | inr d ↦ inr (c ∙ d) ];
}

pub rx_parse_line-IsGrown :
    (rx : RxAmp) (t : LineType) (crc text : List ℕ) (next : RxAmp)
    → rx_parse_line rx t crc text ≡ some next
    → IsGrown rx next
unfolding rx_parse_line rx_parse_desc rx_parse_id
rx_parse_line-IsGrown rx file_line crc text next h = settled rx _ next h (
    other_fields rx (rx_parse_dttm_filename rx crc text) _ (file_parsed rx crc text) refl refl refl)
rx_parse_line-IsGrown rx size_line crc text next h =
    settled rx _ next h
      (other_fields rx (rx_parse_size rx text) _ (size_parsed rx text) refl refl refl)
rx_parse_line-IsGrown rx data_line crc text next h = rx_add_data-IsGrown rx text next h
rx_parse_line-IsGrown rx id_line crc text next h =
    settled rx _ next h (other_fields rx rx _ (IsGrown-refl rx) refl refl refl)
rx_parse_line-IsGrown rx desc_line crc text next h =
    settled rx _ next h (other_fields rx rx _ (IsGrown-refl rx) refl refl refl)
rx_parse_line-IsGrown rx prog_line crc text next h =
    settled rx _ next h (other_fields rx rx _ (IsGrown-refl rx) refl refl refl)
rx_parse_line-IsGrown rx cntl_line crc text next h =
    settled rx _ next h (other_fields rx rx _ (IsGrown-refl rx) refl refl refl)
rx_parse_line-IsGrown rx dttm_line crc text next h =
    settled rx _ next h (other_fields rx rx _ (IsGrown-refl rx) refl refl refl)
