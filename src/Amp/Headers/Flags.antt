-- ===== src/Amp/Headers/Flags.antt =====
-- What the headers hold once the file, id and size headers have been read.
use flimg.Prelude.{
  ℕ, ◌+◌, ◌≡◌, refl, ap, ◌∙◌, arith, Bool, true, false, ◌||◌, List, [], ◌∷◌, if◌then◌else◌,
}
use flimg.Prelude.{Bool-cases, inl, inr}
use flimg.Cstd.{pos}
use flimg.Amp.{TxAmp}
use flimg.Amp.Collect.{HeaderFields}
use flimg.Amp.Headers.{clear_flag}
use flimg.Amp.Headers.Session.{
  Sent, the_file, the_id, the_size, the_desc, the_program, the_eof, the_eot, the_block, after,
}

unfoldable pub is_file : Sent → Bool
is_file the_file = true
is_file s = false

unfoldable pub is_id : Sent → Bool
is_id the_id = true
is_id s = false

unfoldable pub is_size : Sent → Bool
is_size the_size = true
is_size s = false

unfoldable pub one_of : (Sent → Bool) → List Sent → Bool
one_of test [] = false
one_of test (s ∷ rest) = test s || one_of test rest

unfoldable pub headers_after : TxAmp → List Sent → HeaderFields → HeaderFields
headers_after tx [] h = h
headers_after tx (s ∷ rest) h = headers_after tx rest (after tx s h)

-- The flags that are left.
unfoldable pub flags : Bool → Bool → Bool → ℕ
flags file id size = (if file then 0 else 1) + (if id then 0 else 2) + (if size then 0 else 4)

-- What the headers hold once the file, id and size headers have been read, as marked.
pub record HasRead (tx : TxAmp) (file id size : Bool) (h : HeaderFields) : Type 0 where
  pub left : h.crc_flags ≡ flags file id size
  pub named : file ≡ true → h.filename ≡ tx.xmtfilename
  pub dated : file ≡ true → h.dttm ≡ tx.xmtdttm
  pub counted : size ≡ true → h.numblocks ≡ pos tx.xmtnumblocks

clear_file : (file id size : Bool) → clear_flag 1 (flags file id size) ≡ flags true id size
unfolding flags clear_flag
clear_file true true true = refl
clear_file true true false = refl
clear_file true false true = refl
clear_file true false false = refl
clear_file false true true = refl
clear_file false true false = refl
clear_file false false true = refl
clear_file false false false = refl

clear_id : (file id size : Bool) → clear_flag 2 (flags file id size) ≡ flags file true size
unfolding flags clear_flag
clear_id true true true = refl
clear_id true true false = refl
clear_id true false true = refl
clear_id true false false = refl
clear_id false true true = refl
clear_id false true false = refl
clear_id false false true = refl
clear_id false false false = refl

clear_size : (file id size : Bool) → clear_flag 4 (flags file id size) ≡ flags file id true
unfolding flags clear_flag
clear_size true true true = refl
clear_size true true false = refl
clear_size true false true = refl
clear_size true false false = refl
clear_size false true true = refl
clear_size false true false = refl
clear_size false false true = refl
clear_size false false false = refl

pub reads_one :
    (tx : TxAmp) (s : Sent) (file id size : Bool) (h : HeaderFields)
    → HasRead tx file id size h
    → HasRead tx (is_file s || file) (is_id s || id) (is_size s || size) (after tx s h)
unfolding after is_file is_id is_size
reads_one tx the_file file id size h r = record {
  left = ap (clear_flag 1) r.left ∙ clear_file file id size;
  named = λ e. refl;
  dated = λ e. refl;
  counted = r.counted;
}
reads_one tx the_id file id size h r = record {
  left = ap (clear_flag 2) r.left ∙ clear_id file id size;
  named = r.named;
  dated = r.dated;
  counted = r.counted;
}
reads_one tx the_size file id size h r = record {
  left = ap (clear_flag 4) r.left ∙ clear_size file id size;
  named = r.named;
  dated = r.dated;
  counted = λ e. refl;
}
reads_one tx the_desc file id size h r = r
reads_one tx the_program file id size h r = r
reads_one tx the_eof file id size h r = r
reads_one tx the_eot file id size h r = r
reads_one tx (the_block i) file id size h r = r

unfoldable pub so_far : (Sent → Bool) → List Sent → Bool → Bool
so_far test [] b = b
so_far test (s ∷ rest) b = so_far test rest (test s || b)

so_far-true : (test : Sent → Bool) (order : List Sent) → so_far test order true ≡ true
unfolding so_far
so_far-true test [] = refl
so_far-true test (s ∷ rest) = ap (so_far test rest) (or_true (test s)) ∙ so_far-true test rest
  where
    or_true : (b : Bool) → (b || true) ≡ true
    or_true true = refl
    or_true false = refl

pub so_far-one_of :
    (test : Sent → Bool) (order : List Sent) (b : Bool)
    → one_of test order ≡ true
    → so_far test order b ≡ true
unfolding so_far one_of
so_far-one_of test [] b h = absurd (ground arith)
so_far-one_of test (s ∷ rest) b h = elim (Bool-cases (test s)) [
  | inl e ↦ rw e (so_far-true test rest)
  | inr e ↦ so_far-one_of test rest (test s || b) (ground arith)
]

pub reads :
    (tx : TxAmp) (order : List Sent) (file id size : Bool) (h : HeaderFields)
    → HasRead tx file id size h
    → HasRead tx
        (so_far is_file order file)
        (so_far is_id order id)
        (so_far is_size order size)
        (headers_after tx order h)
unfolding so_far headers_after
reads tx [] file id size h r = r
reads tx (s ∷ rest) file id size h r =
    reads tx rest (is_file s || file) (is_id s || id) (is_size s || size) (after tx s h)
      (reads_one tx s file id size h r)

pub none_left :
    {file id size : Bool} → file ≡ true → id ≡ true → size ≡ true → flags file id size ≡ 0
unfolding flags
none_left f i s = rw (f, i, s) refl
