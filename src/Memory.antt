-- ===== src/Memory.antt =====
-- Bytes in memory: reads through a pointer to a packed struct, and little-endian numbers
-- (`reinterpret_cast` and `memcpy` in ulog_cpp/messages.cpp, on a little-endian machine).
use ulog_cpp.Prelude.{
  ℕ, zero, suc, ◌+◌, ◌*◌, ◌/◌, ◌%◌, ◌^◌, ◌≤◌, ◌<◌, ◌≡◌, refl, ap, [], ◌∷◌, ◌++◌, arith, leb, le→leb,
  if◌then◌else◌, Bytes, IsBytes, length, take, drop, take-append, drop-append, length-append,
  length-drop, sym,
}
use native.Mathlib.Nat.{pow-suc}
use ulog_cpp.Exception.{Result, ok, err, fault, ◌>>=◌}

-- `len` bytes at `msg + off`. A read past the end of the memory is undefined.
unfoldable pub read_bytes : Bytes → ℕ → ℕ → Result Bytes
read_bytes msg off len =
    let rest = drop off msg in if leb len (length rest) then ok (take len rest) else err fault

-- The `w` bytes of a little-endian number, lowest first.
unfoldable pub le_bytes : ℕ → ℕ → Bytes
le_bytes zero n = []
le_bytes (suc w) n = (n % 256) ∷ le_bytes w (n / 256)

unfoldable pub le_value : Bytes → ℕ
le_value [] = 0
le_value (b ∷ bs) = b + 256 * le_value bs

-- A little-endian number of `w` bytes at `msg + off`.
unfoldable pub read_le : ℕ → Bytes → ℕ → Result ℕ
read_le w msg off = do bs ← read_bytes msg off w; ok (le_value bs)

pub length-le_bytes : (w n : ℕ) → length (le_bytes w n) ≡ w
unfolding le_bytes
length-le_bytes zero n = refl
length-le_bytes (suc w) n = ap suc (length-le_bytes w (n / 256))

pub le_bytes-IsBytes : (w n : ℕ) → IsBytes (le_bytes w n)
unfolding le_bytes
le_bytes-IsBytes zero n = tt
le_bytes-IsBytes (suc w) n = (omega arith, le_bytes-IsBytes w (n / 256))

pub le_value-le_bytes : (w n : ℕ) → n < 256 ^ w → le_value (le_bytes w n) ≡ n
unfolding le_bytes le_value
le_value-le_bytes zero n h = omega arith
le_value-le_bytes (suc w) n h =
    let lt : n < 256 * 256 ^ w = omega (arith, pow-suc 256 w) in
    omega (arith, le_value-le_bytes w (n / 256) (omega arith))

-- A read at the place where bytes stand gives them.
pub read_bytes_at :
    (pre bs post : Bytes) (off len : ℕ)
    → off ≡ length pre
    → len ≡ length bs
    → read_bytes (pre ++ (bs ++ post)) off len ≡ ok bs
unfolding read_bytes
read_bytes_at pre bs post off len e f =
    rw (drop-append pre (bs ++ post) off e, take-append bs post len f)
      (rw (le→leb len (length (bs ++ post)) (omega (arith, length-append {0} bs post))))

pub read_le_at :
    (pre : Bytes) (w n : ℕ) (post : Bytes) (off : ℕ)
    → off ≡ length pre
    → n < 256 ^ w
    → read_le w (pre ++ (le_bytes w n ++ post)) off ≡ ok n
unfolding read_le
read_le_at pre w n post off e h =
    rw (read_bytes_at pre (le_bytes w n) post off w e (sym (length-le_bytes w n)))
      (ap ok (le_value-le_bytes w n h))

-- A read inside the memory gives as many bytes as it asks for.
pub read_bytes_inside :
    (msg : Bytes) (off len : ℕ)
    → off + len ≤ length msg
    → read_bytes msg off len ≡ ok (take len (drop off msg))
unfolding read_bytes
read_bytes_inside msg off len h =
    rw (le→leb len (length (drop off msg)) (omega (arith, length-drop {0} off msg)))

pub read_le_inside :
    (w : ℕ) (msg : Bytes) (off : ℕ)
    → off + w ≤ length msg
    → read_le w msg off ≡ ok (le_value (take w (drop off msg)))
unfolding read_le
read_le_inside w msg off h = rw (read_bytes_inside msg off w h)
