-- ===== src/Reader/Machine/Termination.antt =====
-- Both loops end: `run` is given enough steps for the bytes at hand.
use ulog_cpp.Prelude.{
  ℕ, zero, suc, ◌+◌, ◌-◌, ◌*◌, ◌≤◌, ◌<◌, ◌≡◌, refl, Bool, true, false, not, ◌&&◌, arith, Bytes,
  length, drop, leb, leb→le, length-drop, Bool-cases, inl, inr, ◌==◌, if◌then◌else◌,
}
use ulog_cpp.Handler.{DataHandlerInterface, Outcome}
use ulog_cpp.Reader.State.{Reader, Config, num_append, append_to_partial_buffer, remove_from_buffer}
use ulog_cpp.Reader.Bounds.{buffered, unread, IsValid, append_to_partial_buffer-IsValid}
use ulog_cpp.Reader.Machine.{
  Machine, reading, recovering, finished, is_empty, search_from, read_round, read_step, at_magic,
  at_flag_bits, at_invalid, enter_magic, enter_flag_bits, enter, recovered, recover_step, step, run,
  steps_for, read_chunk,
}
use ulog_cpp.Reader.Machine.Weights.{
  weight, Lighter, search_from-le, is_empty_pos, append_to_partial_buffer-buffered,
  append_to_partial_buffer-weight, read_round-Lighter, do_read_magic-le, do_read_flag_bits-le,
}

module _ (H : DataHandlerInterface) where
  open H use {S}

  -- The steps that a machine has left at most.
  pub measure : Machine S → ℕ
  measure (reading c) = 2 * weight c + 2
  measure (recovering c) = 2 * weight c + 1
  measure (finished c o) = 0

  abbrev pub Valid : Machine S → Type 0
  Valid (reading c) = IsValid c
  Valid (recovering c) = IsValid c
  Valid (finished c o) = IsValid c

  Lighter-measure : (w : ℕ) (m : Machine S) → Lighter w m → Valid m × (measure m ≤ 2 * w)
  unfolding measure
  Lighter-measure w (reading c) (v, h) = (v, omega arith)
  Lighter-measure w (recovering c) (v, h) = (v, omega arith)
  Lighter-measure w (finished c o) v = (v, omega arith)

  enter_magic-le :
      (c : Config S) → IsValid c → IsValid (enter_magic H c) × (weight (enter_magic H c) ≤ weight c)
  unfolding enter_magic
  enter_magic-le c v = elim (Bool-cases (at_magic H c.reader.state)) [
    | inl e ↦ rw e (do_read_magic-le H c v)
    | inr e ↦ rw e (v, omega arith)
  ]

  enter_flag_bits-le :
      (c : Config S)
      → IsValid c
      → IsValid (enter_flag_bits H c) × (weight (enter_flag_bits H c) ≤ weight c)
  unfolding enter_flag_bits
  enter_flag_bits-le c v =
      elim (Bool-cases (at_flag_bits H c.reader.state && not (is_empty c.input))) [
        | inl e ↦ rw e (do_read_flag_bits-le H c v)
        | inr e ↦ rw e (v, omega arith)
      ]

  enter-measure :
      (c : Config S) → IsValid c → Valid (enter H c) × (measure (enter H c) ≤ 2 * weight c + 2)
  unfolding enter measure
  enter-measure c v = elim (Bool-cases (at_invalid H c.reader.state)) [
    | inl e ↦ rw e (v, omega arith)
    | inr e ↦
        let (v1, le1) = enter_magic-le c v in
        let (v2, le2) = enter_flag_bits-le (enter_magic H c) v1 in rw e (v2, omega arith)
  ]

  recovered-measure :
      (w : ℕ) (found : Bool) (c : Config S)
      → IsValid c
      → weight c < w
      → Valid (recovered H found c) × (measure (recovered H found c) ≤ 2 * w)
  unfolding recovered
  recovered-measure w false c v h = unfold measure in (v, omega arith)
  recovered-measure w true c v h =
      let c' : Config S = record c { reader = record c.reader { need_recovery = false } } in
      let valid : IsValid c' = record { within = v.within; room = v.room } in
      let same : weight c' ≡ weight c = unfold weight in refl in
      let (v', le) = enter-measure c' valid in (v', omega arith)

  -- The buffer after a search, which takes at least a byte off it where nothing was appended.
  recover_step-measure :
      (c : Config S)
      → IsValid c
      → Valid (recover_step H c) × (measure (recover_step H c) ≤ 2 * weight c)
  unfolding recover_step
  recover_step-measure c v = elim (Bool-cases (is_empty c.input)) [
    | inl e ↦ rw e (v, unfold measure in omega arith)
    | inr e ↦ rw e (elim (Bool-cases (leb 3 (buffered c'))) [
      | inl k ↦
          rw k (recovered-measure (weight c) found removed (removed_valid k) (removed_weight k))
      | inr k ↦ rw k (valid, unfold measure in omega (arith, appended, k_short k, moved e))
    ])
  ]
    where
      c' : Config S
      c' = append_to_partial_buffer c

      valid : IsValid c'
      valid = append_to_partial_buffer-IsValid c v

      start : ℕ
      start = if num_append c == 0 then 1 else 0

      found : Bool
      found = (search_from start (drop start c'.reader.partial)).1

      index : ℕ
      index = (search_from start (drop start c'.reader.partial)).0

      removed : Config S
      removed = remove_from_buffer index c'

      appended : weight c' + num_append c ≡ weight c
      appended = append_to_partial_buffer-weight c v

      held : buffered c' ≡ buffered c + num_append c
      held = append_to_partial_buffer-buffered c v

      dropped : buffered removed ≡ buffered c' - index
      dropped = unfold remove_from_buffer in length-drop {0} index c'.reader.partial

      removed_valid : leb 3 (buffered c') ≡ true → IsValid removed
      removed_valid k =
          unfold remove_from_buffer in
          record { within = omega (arith, dropped, valid.within); room = valid.room }

      removed_weight : leb 3 (buffered c') ≡ true → weight removed < weight c
      removed_weight k =
          let body : weight removed ≡ 2 * unread c' + buffered removed =
            unfold weight remove_from_buffer in refl in
          let whole : weight c' ≡ 2 * unread c' + buffered c' = unfold weight in refl in
          let at_least : 1 ≤ start + num_append c = ground arith in
          let from = (search_from-le start (drop start c'.reader.partial)).1 in
          omega (arith, leb→le 3 (buffered c') k, dropped, appended, from)

      k_short : leb 3 (buffered c') ≡ false → buffered c' < 3
      k_short k = ground arith

      moved : is_empty c.input ≡ false → buffered c' < 3 → 1 ≤ num_append c
      moved e k = unfold num_append in omega (arith, is_empty_pos c.input e, v.room, held)

  read_step-measure :
      (c : Config S)
      → IsValid c
      → Valid (read_step H c) × (measure (read_step H c) ≤ 2 * weight c + 1)
  unfolding read_step
  read_step-measure c v = elim (Bool-cases (not (is_empty c.input) && not c.reader.need_recovery)) [
    | inl e ↦
        let pos : 1 ≤ unread c = is_empty_pos c.input (ground arith) in
        rw e (
          let (v', le) =
            Lighter-measure (weight c) (read_round H c) (read_round-Lighter H c v pos) in
          (v', omega arith))
    | inr e ↦ rw e (unfold measure in ground arith)
  ]

  step-measure : (m : Machine S) → Valid m → Valid (step H m) × (measure (step H m) ≤ measure m - 1)
  unfolding step
  step-measure (reading c) v =
      let (v', le) = read_step-measure c v in (v', unfold measure in omega arith)
  step-measure (recovering c) v =
      let (v', le) = recover_step-measure c v in (v', unfold measure in omega arith)
  step-measure (finished c o) v = (v, unfold measure in omega arith)

  -- The machine has stopped with a buffer within its capacity.
  abbrev pub Stops : Machine S → Type 0
  Stops m = (c : Config S) × (o : Outcome) × (m ≡ finished c o) × IsValid c

  pub run-Stops : (n : ℕ) (m : Machine S) → Valid m → measure m ≤ n → Stops (run H n m)
  unfolding run
  run-Stops zero (reading c) v h = absurd (unfold measure in omega arith)
  run-Stops zero (recovering c) v h = absurd (unfold measure in omega arith)
  run-Stops zero (finished c o) v h = (c, o, refl, v)
  run-Stops (suc n) m v h =
      let (v', le) = step-measure m v in run-Stops n (step H m) v' (omega arith)

  -- For every handler, chunk and state of the reader whose buffer holds no more than its capacity
  -- of at least 2048 bytes, whole or corrupt: `readChunk` ends, as the loops are given enough
  -- rounds, and leaves a buffer that is within a capacity of at least 2048 bytes.
  pub read_chunk-Stops :
      (r : Reader) (s : S) (chunk : Bytes)
      → length r.partial ≤ r.capacity
      → 2048 ≤ r.capacity
      → Stops (read_chunk H r s chunk)
  unfolding read_chunk
  read_chunk-Stops r s chunk within room =
      let c : Config S = record { reader = r; handler = s; input = chunk } in
      let (v, le) = enter-measure c (record { within = within; room = room }) in
      let le' : measure (enter H c) ≤ steps_for c = unfold weight in omega arith in
      run-Stops (steps_for c) (enter H c) v le'
