-- ===== src/Subscription/Backwards.antt =====
-- A loop with `--` over the samples of a subscription.
use ulog_cpp.Prelude.{
  ℕ, zero, suc, ◌≤◌, ◌≡◌, refl, ap, ◌∙◌, arith, true, ltb, some, List, [], ◌∷◌, ◌++◌, map, length,
  take, take_all, get_elem?, get_elem?-some, if◌then◌else◌,
}
use mathlib.Core.List
use ulog_cpp.Prelude.Int.{pos, ◌-ℤ◌}
use ulog_cpp.Exception.{Result, ok, err, ◌>>=◌, out_of_fuel}
use ulog_cpp.Messages.Format.{MessageFormat}
use ulog_cpp.Messages.Logged.{Data}
use ulog_cpp.DataContainer.State.{Subscription}
use ulog_cpp.Subscription.{
  TypedDataView, SubscriptionIterator, deref, decrement, is_before, begin, end, sample_count,
}
use ulog_cpp.Subscription.Iteration.{view_of, at_place-pos, deref-some}

-- `for (auto it = end(); begin() < it;) { --it; ... }`, with the views that `*it` gives.
abbrev pub iterate_back :
    ℕ → SubscriptionIterator → SubscriptionIterator → Result (List TypedDataView)
iterate_back zero it first = err out_of_fuel
iterate_back (suc fuel) it first =
    let rest =
      (decrement it >>= λ previous.
      deref previous >>= λ v. iterate_back fuel previous first >>= λ vs. ok (v ∷ vs)) in
    if is_before first it then rest else ok []

decrement-suc :
    (format : MessageFormat) (ds : List Data) (k : ℕ)
    → suc k ≤ length ds
    → decrement (record { samples = ds; place = suc k; message_format = format })
      ≡ ok (record { samples = ds; place = k; message_format = format })
unfolding decrement ◌-ℤ◌
decrement-suc format ds k h =
    let it : SubscriptionIterator = record {
      samples = ds;
      place = suc k;
      message_format = format;
    } in
    let previous : pos (suc k) -ℤ pos 1 ≡ pos k = ground arith in
    rw previous (at_place-pos it k (omega (arith, h)))

-- The first samples in reverse order, by one more.
take_more :
    (ds : List Data) (k : ℕ) (d : Data)
    → get_elem? ds k ≡ some d
    → take (suc k) ds ≡ take k ds ++ (d ∷ [])
take_more [] k d h = absurd (cc)
take_more (x ∷ ds) zero d h = cc
take_more (x ∷ ds) (suc k) d h = ap (◌∷◌ x) (take_more ds k d h)

reverse_more :
    (ds : List Data) (k : ℕ) (d : Data)
    → get_elem? ds k ≡ some d
    → List.reverse (take (suc k) ds) ≡ d ∷ List.reverse (take k ds)
reverse_more ds k d h =
    ap List.reverse (take_more ds k d h) ∙ List.reverse-append (take k ds) (d ∷ [])

iterate_back-rest :
    (format : MessageFormat) (ds : List Data) (k : ℕ)
    → k ≤ length ds
    → iterate_back
        (suc k)
        (record { samples = ds; place = k; message_format = format })
        (record { samples = ds; place = 0; message_format = format })
      ≡ ok (map (view_of format) (List.reverse (take k ds)))
unfolding is_before
iterate_back-rest format ds zero h = refl
iterate_back-rest format ds (suc k) h =
    let (d, there) = get_elem?-some ds k (omega (arith, h)) in
    let rest = iterate_back-rest format ds k (omega (arith, h)) in
    let further : ltb 0 (suc k) ≡ true = ground arith in
    rw
      (
        further,
        decrement-suc format ds k h,
        deref-some format ds k d there,
        reverse_more ds k d there,
      )
      (rw rest refl)

-- The loop from `end()` that steps back with `--` while `begin()` is before the iterator ends, and
-- meets the views on all samples, the last one first, with no step and no read outside of them.
pub iterate_back-samples :
    (format : MessageFormat) (s : Subscription)
    → iterate_back (suc (sample_count format s)) (end format s) (begin format s)
      ≡ ok (map (view_of format) (List.reverse s.samples))
unfolding begin end
iterate_back-samples format s =
    iterate_back-rest format s.samples (length s.samples) (omega arith)
    ∙ ap (λ l. ok (map (view_of format) (List.reverse l)))
        (take_all s.samples (length s.samples) (omega arith))
