-- ===== src/Formats/Termination.antt =====
-- The resolution of formats ends, also where formats hold each other: a field is found resolved as
-- soon as its own format is looked for.
use ulog_cpp.Prelude.{
  ℕ, zero, suc, ◌+◌, ◌-◌, ◌*◌, ◌≤◌, ◌<◌, ◌≢◌, refl, arith, Option-cases, List, [], ◌∷◌, Bool-cases,
  inl, inr, Bytes, length,
}
use ulog_cpp.Prelude.Int.{ℤ, pos, ◌+ℤ◌}
use ulog_cpp.Exception.{Result-cases, out_of_fuel}
use ulog_cpp.Field.{Field, definition_resolved, size_bytes}
use ulog_cpp.Field.Sizes.{IsNat, IsSized, +ℤ-IsNat, size_bytes-IsNat, size_bytes-ne-out_of_fuel}
use ulog_cpp.Handler.{Outcome, returned, thrown}
use ulog_cpp.Formats.{
  Formats, change_field, stored_field, resolve_unresolved, then_next, resolve_from, count_fields,
  fuel_for, resolve_format,
}
use ulog_cpp.Formats.Store.{AllSized, pending_fields, pending, stored_field-All}
use ulog_cpp.Formats.Progress.{IsStore, Good, resolve_unresolved-Good}

weaken :
    (total bound bound' : ℕ) (p : Formats × Outcome)
    → bound ≤ bound'
    → Good total bound p
    → Good total bound' p
weaken total bound bound' p le v = record {
  ends = v.ends;
  fewer = omega (arith, v.fewer);
  store = v.store;
}

then_next-Good :
    (next : ℤ → Formats → Formats × Outcome) (name : Bytes) (i total bound : ℕ) (offset : ℤ)
    (p : Formats × Outcome)
    → IsNat offset
    → ((o : ℤ) (gs : Formats)
        → IsNat o
        → IsStore total gs
        → pending gs ≤ bound
        → Good total bound (next o gs))
    → Good total bound p
    → Good total bound (then_next next name i offset p)
unfolding then_next
then_next-Good next name i total bound offset (fs, thrown x) nat go v = v
then_next-Good next name i total bound offset (fs, returned) nat go v =
    elim (Option-cases (stored_field name i fs)) [
      | inl n ↦ rw (n, then_next) v
      | inr (f, h) ↦ elim (Result-cases (size_bytes f)) [
        | inl (x, r) ↦
            rw (h, then_next, r)
              (record {
                ends = λ e. size_bytes-ne-out_of_fuel f cc;
                fewer = v.fewer;
                store = v.store;
              })
        | inr (z, r) ↦
            rw (h, then_next, r)
              (let w = stored_field-All IsSized name i fs f v.store.sized h in
                go (offset +ℤ z) fs (+ℤ-IsNat offset z nat (size_bytes-IsNat f z w.0 r)) v.store
                  v.fewer)
      ]
    ]

mul_mono : (a b t : ℕ) → a ≤ b → a * t ≤ b * t
mul_mono a b t h = grind arith

mul_step : (a b t : ℕ) → a < b → a * t + t ≤ b * t
mul_step a b t h = let m : suc a * t ≤ b * t = mul_mono (suc a) b t h in grind (arith, m)

pub resolve_from-Good :
    (fuel k : ℕ) (name : Bytes) (i total : ℕ) (offset : ℤ) (fs : Formats)
    → IsNat offset
    → IsStore total fs
    → total + 1 ≤ k + i
    → pending fs * (total + 2) + k < fuel
    → Good total (pending fs) (resolve_from fuel name i offset fs)
unfolding resolve_from
resolve_from-Good zero k name i total offset fs nat v room h = absurd (omega arith)
resolve_from-Good (suc fuel) k name i total offset fs nat v room h =
    elim (Option-cases (stored_field name i fs)) [
      | inl n ↦ rw (n, resolve_from) (record { ends = λ e. cc; fewer = omega arith; store = v })
      | inr (f, s) ↦
          let (w, below) = stored_field-All IsSized name i fs f v.sized s in
          let rest =
            λ (o : ℤ) (gs : Formats) (nat' : IsNat o) (v' : IsStore total gs)
                (le : pending gs ≤ pending fs).
              weaken total (pending gs) (pending fs) (resolve_from fuel name (suc i) o gs) le (
                resolve_from-Good fuel (k - 1) name (suc i) total o gs nat' v'
                  (omega (arith, below, v.same))
                  (omega
                    (arith, below, v.same, mul_mono (pending gs) (pending fs) (total + 2) le))) in
          elim (Bool-cases (definition_resolved f)) [
            | inl e ↦
                rw (s, resolve_from, e)
                  (then_next-Good (λ o gs. resolve_from fuel name (suc i) o gs) name i total
                    (pending fs) offset (fs, returned) nat rest
                    (record { ends = λ t. cc; fewer = omega arith; store = v }))
            | inr e ↦
                rw (s, resolve_from, e)
                  (then_next-Good (λ o gs. resolve_from fuel name (suc i) o gs) name i total
                    (pending fs) offset
                    (resolve_unresolved Formats (change_field name i) (λ gs. gs)
                      (λ nested gs. resolve_from fuel nested 0 (pos 0) gs) f offset fs)
                    nat rest
                    (resolve_unresolved-Good name i total
                      (λ nested gs. resolve_from fuel nested 0 (pos 0) gs) f offset fs nat
                      (λ nested gs v' less.
                        resolve_from-Good fuel (total + 1) nested 0 total (pos 0) gs tt v'
                          (omega arith)
                          (omega (arith, mul_step (pending gs) (pending fs) (total + 2) less)))
                      s e v))
          ]
    ]

pending_fields-le : (l : List Field) → pending_fields l ≤ length l
unfolding pending_fields
pending_fields-le [] = omega arith
pending_fields-le (f ∷ l) = ground (arith, pending_fields-le l)

pending-le : (fs : Formats) → pending fs ≤ count_fields fs
unfolding pending count_fields
pending-le [] = omega arith
pending-le (m ∷ fs) = omega (arith, pending_fields-le m.fields, pending-le fs)

pub resolve_format-Good :
    (name : Bytes) (fs : Formats)
    → AllSized fs
    → Good (count_fields fs) (pending fs) (resolve_format name fs)
unfolding resolve_format fuel_for
resolve_format-Good name fs v =
    let total = count_fields fs in
    resolve_from-Good _ (total + 1) name 0 total (pos 0) fs tt (record { same = refl; sized = v })
      (omega arith)
      (let m = mul_step (pending fs) (total + 1) (total + 2) (omega (arith, pending-le fs)) in
        omega (arith, m))

-- For formats, cyclic ones included, in which the size and the number of elements of no field are
-- negative: the fuel is enough for `resolveDefinition` of a format of any name, and the formats
-- behind it have no negative sizes either.
pub resolve_format-ends :
    (name : Bytes) (fs : Formats)
    → AllSized fs
    → ((resolve_format name fs).1 ≢ thrown out_of_fuel) × AllSized (resolve_format name fs).0
resolve_format-ends name fs v = let g = resolve_format-Good name fs v in (g.ends, g.store.sized)
