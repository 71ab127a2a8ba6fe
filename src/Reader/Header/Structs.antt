-- ===== src/Reader/Header/Structs.antt =====
-- The structs of the file header, read from the bytes that they lie in.
use ulog_cpp.Prelude.{
  ℕ, zero, suc, ◌+◌, ◌^◌, ◌<◌, ◌≡◌, refl, sym, ap, arith, [], ◌∷◌, ◌++◌, append_assoc, Bytes,
  length, length-append, take, take-append, drop, drop-append,
}
use ulog_cpp.Memory.{le_bytes, le_value, length-le_bytes, le_value-le_bytes}
use ulog_cpp.Messages.FileHeader.{
  FileHeaderS, FlagBitsS, header_bytes, flag_bits_bytes, read_header, read_flag_bits_s,
}

drop_nil : (n : ℕ) → drop {A = ℕ} n [] ≡ []
drop_nil zero = refl
drop_nil (suc n) = refl

drop_add : (k n : ℕ) (t : Bytes) → drop (k + n) t ≡ drop n (drop k t)
drop_add zero n t = ap (λ i. drop i t) (omega arith)
drop_add (suc k) n [] = let e : suc k + n ≡ suc (k + n) = omega arith in rw e (sym (drop_nil n))
drop_add (suc k) n (x ∷ t) = let e : suc k + n ≡ suc (k + n) = omega arith in rw e (drop_add k n t)

-- From the place of one list to that of the next.
next : (t a b : Bytes) (k j : ℕ) → drop k t ≡ a ++ b → j ≡ k + length a → drop j t ≡ b
next t a b k j e h = rw (h, drop_add k (length a) t, e) (drop-append a b (length a) refl)

-- The number that stands at the start.
number_at : (w n : ℕ) (post : Bytes) → n < 256 ^ w → le_value (take w (le_bytes w n ++ post)) ≡ n
number_at w n post h =
    rw (take-append (le_bytes w n) post w (sym (length-le_bytes w n))) (le_value-le_bytes w n h)

pub length-header_bytes : (h : FileHeaderS) → length h.magic ≡ 8 → length (header_bytes h) ≡ 16
unfolding header_bytes
length-header_bytes h m =
    omega
      (arith, m, length-append {0} h.magic (le_bytes 8 h.timestamp), length-le_bytes 8 h.timestamp)

pub read_header-header_bytes :
    (h : FileHeaderS) (rest : Bytes)
    → length h.magic ≡ 8
    → h.timestamp < 256 ^ 8
    → read_header (header_bytes h ++ rest) ≡ h
unfolding read_header header_bytes
read_header-header_bytes h rest m t =
    let behind = drop-append h.magic (le_bytes 8 h.timestamp ++ rest) 8 (sym m) in
    let front = take-append h.magic (le_bytes 8 h.timestamp ++ rest) 8 (sym m) in
    rw (append_assoc h.magic (le_bytes 8 h.timestamp) rest)
      (rw (front, behind, number_at 8 h.timestamp rest t) refl)

module _ (f : FlagBitsS) (rest : Bytes) (compat : length f.compat_flags ≡ 8)
    (incompat : length f.incompat_flags ≡ 8) where
  abbrev tail2 : Bytes
  tail2 = le_bytes 8 f.appended_offset2 ++ rest

  abbrev tail1 : Bytes
  tail1 = le_bytes 8 f.appended_offset1 ++ tail2

  abbrev tail0 : Bytes
  tail0 = le_bytes 8 f.appended_offset0 ++ tail1

  -- The bytes of the flags and what stands behind them, part by part.
  abbrev parts : Bytes
  parts =
      le_bytes 2 f.msg_size
      ++ (le_bytes 1 f.msg_type ++ (f.compat_flags ++ (f.incompat_flags ++ tail0)))

  pub flag_bits_bytes-parts : flag_bits_bytes f ++ rest ≡ parts
  unfolding flag_bits_bytes
  flag_bits_bytes-parts = simp (append_assoc)

  pub read_flag_bits_s-parts :
      f.msg_size < 256 ^ 2
      → f.msg_type < 256 ^ 1
      → f.appended_offset0 < 256 ^ 8
      → f.appended_offset1 < 256 ^ 8
      → f.appended_offset2 < 256 ^ 8
      → read_flag_bits_s parts ≡ f
  unfolding read_flag_bits_s
  read_flag_bits_s-parts size type o0 o1 o2 =
      let e1 =
        next parts (le_bytes 2 f.msg_size) _ 0 2 refl
          (omega (arith, length-le_bytes 2 f.msg_size)) in
      let e2 =
        next parts (le_bytes 1 f.msg_type) _ 2 3 e1 (omega (arith, length-le_bytes 1 f.msg_type)) in
      let e3 = next parts f.compat_flags _ 3 11 e2 (omega (arith, compat)) in
      let e4 = next parts f.incompat_flags _ 11 19 e3 (omega (arith, incompat)) in
      let e5 =
        next parts (le_bytes 8 f.appended_offset0) _ 19 27 e4
          (omega (arith, length-le_bytes 8 f.appended_offset0)) in
      let e6 =
        next parts (le_bytes 8 f.appended_offset1) _ 27 35 e5
          (omega (arith, length-le_bytes 8 f.appended_offset1)) in
      rw
        (
          e1,
          e2,
          e3,
          e4,
          e5,
          e6,
          number_at 2 f.msg_size _ size,
          number_at 1 f.msg_type _ type,
          take-append f.compat_flags _ 8 (sym compat),
          take-append f.incompat_flags _ 8 (sym incompat),
          number_at 8 f.appended_offset0 _ o0,
          number_at 8 f.appended_offset1 _ o1,
          number_at 8 f.appended_offset2 _ o2,
        )
        refl

  pub length-flag_bits_bytes : length (flag_bits_bytes f) ≡ 43
  unfolding flag_bits_bytes
  length-flag_bits_bytes = simp (length-append {0}, length-le_bytes, compat, incompat)
