-- ===== src/Subscription/Iteration.antt =====
-- What the iterators of a subscription reach.
use ulog_cpp.Prelude.{
  ℕ, zero, suc, ◌+◌, ◌<◌, ◌≡◌, refl, ap, ◌∙◌, arith, false, Option, none, some, List, [], ◌∷◌, map,
  le→leb, ◌==◌, ==_iff, ◌≤◌, leb, leb→le, leb-false→lt, length, drop, get_elem?, get_elem?-none,
  get_elem?-some, drop-get_elem?, drop_all, if◌then◌else◌, Bool-cases, inl, inr,
}
use ulog_cpp.Prelude.Int.{pos, +ℤ_pos, ◌+ℤ◌}
use ulog_cpp.Exception.{Result, ok, err, ◌>>=◌, out_of_fuel, access_exception, sample_out_of_range}
use ulog_cpp.Messages.Format.{MessageFormat}
use ulog_cpp.Messages.Logged.{Data}
use ulog_cpp.DataContainer.State.{Subscription}
use ulog_cpp.Subscription.{
  TypedDataView, SubscriptionIterator, sample_at, at_place, deref, advance, increment, subscript,
  same_place, begin, end, sample_count, at_index,
}

-- The view on a sample.
abbrev pub view_of : MessageFormat → Data → TypedDataView
view_of format d = record { data_ref = d; message_format_ref = format }

-- The sample at an index of the list, with an exception behind its end.
abbrev pub view_or_error : MessageFormat → Option Data → Result TypedDataView
view_or_error format none = err (access_exception sample_out_of_range)
view_or_error format (some d) = ok (view_of format d)

pub sample_at-some :
    (ds : List Data) (n : ℕ) (d : Data) → get_elem? ds n ≡ some d → sample_at ds n ≡ ok d
sample_at-some ds n d h = ground (arith, h)

-- `*it` at a sample.
pub deref-some :
    (format : MessageFormat) (ds : List Data) (n : ℕ) (d : Data)
    → get_elem? ds n ≡ some d
    → deref (record { samples = ds; place = n; message_format = format }) ≡ ok (view_of format d)
unfolding deref
deref-some format ds n d h = rw (sample_at-some ds n d h) refl

-- A step to a place of the vector, or to its end.
pub at_place-pos :
    (it : SubscriptionIterator) (n : ℕ)
    → n ≤ length it.samples
    → at_place it (pos n) ≡ ok (record it { place = n })
at_place-pos it n h = rw (le→leb n (length it.samples) h) refl

subscript-begin :
    (format : MessageFormat) (s : Subscription) (n : ℕ)
    → n ≤ length s.samples
    → subscript (begin format s) (pos n)
      ≡ deref (record { samples = s.samples; place = n; message_format = format })
unfolding subscript advance begin
subscript-begin format s n h =
    let place : pos 0 +ℤ pos n ≡ pos n = +ℤ_pos 0 n ∙ ap pos (omega arith) in
    rw (place, at_place-pos (begin format s) n h) refl

-- `Subscription::at`, which goes through `begin()[n]`, gives the view on the sample at the index,
-- and throws for an index that has no sample.
pub at_index-samples :
    (format : MessageFormat) (s : Subscription) (n : ℕ)
    → at_index format s n ≡ view_or_error format (get_elem? s.samples n)
unfolding at_index
at_index-samples format s n = elim (Bool-cases (leb (length s.samples) n)) [
  | inl h ↦ let none_there = get_elem?-none s.samples n (leb→le _ _ h) in rw (h, none_there) refl
  | inr h ↦
      let (d, there) = get_elem?-some s.samples n (leb-false→lt _ _ h) in
      let within : n ≤ length s.samples = omega (arith, leb-false→lt _ _ h) in
      rw (h, subscript-begin format s n within, there) (deref-some format s.samples n d there)
]

-- `for (auto it = begin(); it != end(); ++it)`, from an iterator on, with the views that `*it` gives.
abbrev pub iterate : ℕ → SubscriptionIterator → SubscriptionIterator → Result (List TypedDataView)
iterate zero it last = err out_of_fuel
iterate (suc fuel) it last =
    let rest = (increment it >>= λ next. iterate fuel next last) in
    if same_place it last then ok [] else (deref it >>= λ v. rest >>= λ vs. ok (v ∷ vs))

increment-pos :
    (format : MessageFormat) (ds : List Data) (k : ℕ)
    → k < length ds
    → increment (record { samples = ds; place = k; message_format = format })
      ≡ ok (record { samples = ds; place = suc k; message_format = format })
unfolding increment
increment-pos format ds k h =
    let next : pos k +ℤ pos 1 ≡ pos (suc k) = +ℤ_pos k 1 ∙ ap pos (omega arith) in
    let it : SubscriptionIterator = record { samples = ds; place = k; message_format = format } in
    rw next (at_place-pos it (suc k) (omega (arith, h)))

==_less : (a b : ℕ) → a < b → (a == b) ≡ false
==_less a b h = ground (arith, h)

iterate-rest :
    (format : MessageFormat) (ds : List Data) (fuel k : ℕ)
    → k + fuel ≡ length ds
    → iterate
        (suc fuel)
        (record { samples = ds; place = k; message_format = format })
        (record { samples = ds; place = length ds; message_format = format })
      ≡ ok (map (view_of format) (drop k ds))
unfolding same_place
iterate-rest format ds zero k h =
    rw (drop_all ds k (omega (arith, h))) (rw ((==_iff k (length ds)).1 (omega (arith, h))) refl)
iterate-rest format ds (suc fuel) k h =
    let (d, there) = get_elem?-some ds k (omega (arith, h)) in
    let rest = iterate-rest format ds fuel (suc k) (omega (arith, h)) in
    rw (deref-some format ds k d there, drop-get_elem? ds k d there)
      (rw
        (
          ==_less k (length ds) (omega (arith, h)),
          increment-pos format ds k (omega (arith, h)),
          rest,
        )
        refl)

-- The loop from `begin()` to `end()` over the samples of a subscription ends, and meets the views
-- on all samples in their order, with no read outside of them.
pub iterate-samples :
    (format : MessageFormat) (s : Subscription)
    → iterate (suc (sample_count format s)) (begin format s) (end format s)
      ≡ ok (map (view_of format) s.samples)
unfolding begin end
iterate-samples format s = iterate-rest format s.samples (length s.samples) 0 (omega arith)
