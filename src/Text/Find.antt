-- ===== src/Text/Find.antt =====
-- `std::string_view::find` of one character, and the cut that the code makes at the place found.
use ulog_cpp.Prelude.{
  ℕ, suc, ◌+◌, ◌≡◌, ◌≢◌, refl, Option, none, some, [], ◌∷◌, ◌++◌, arith, ◌==◌, if◌then◌else◌, Bytes,
  All, length, take, drop, take-append,
}

-- `none` is `std::string::npos`.
unfoldable pub find : ℕ → Bytes → Option ℕ
find c [] = none
find c (b ∷ s) = if b == c then some 0 else elim (find c s) [ none ↦ none | some i ↦ some (suc i) ]

abbrev pub Lacks : ℕ → Bytes → Type 0
Lacks c = All (λ b. b ≢ c)

-- In a text that goes on with `c`, the first `c` is behind the part that lacks it.
pub find-append : (c : ℕ) (a s : Bytes) → Lacks c a → find c (a ++ (c ∷ s)) ≡ some (length a)
unfolding find
find-append c [] s h = ground arith
find-append c (b ∷ a) s (ne, h) = ground (arith, find-append c a s h)

pub find-none : (c : ℕ) (a : Bytes) → Lacks c a → find c a ≡ none
unfolding find
find-none c [] h = refl
find-none c (b ∷ a) (ne, h) = ground (arith, find-none c a h)

pub take_before : (a : Bytes) (c : ℕ) (s : Bytes) → take (length a) (a ++ (c ∷ s)) ≡ a
take_before a c s = take-append a (c ∷ s) (length a) refl

pub drop_behind : (a : Bytes) (c : ℕ) (s : Bytes) → drop (length a + 1) (a ++ (c ∷ s)) ≡ s
drop_behind [] c s = refl
drop_behind (b ∷ a) c s =
    let e : suc (length a) + 1 ≡ suc (length a + 1) = omega arith in rw e (drop_behind a c s)
