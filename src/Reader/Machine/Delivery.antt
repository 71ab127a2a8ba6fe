-- ===== src/Reader/Machine/Delivery.antt =====
-- The reader delivers the messages of a stream in order, however the stream is cut into chunks.
use ulog_cpp.Prelude.{
  ℕ, zero, suc, ◌+◌, ◌≤◌, ◌<◌, ◌≡◌, refl, sym, ap, ◌∙◌, false, arith, Bytes, List, [], ◌∷◌, ◌++◌,
  length, take, drop, append-nil, take-append-drop, length-append, length-take, min, inl, inr,
}
use mathlib.Core.Path.{subst}
use ulog_cpp.Handler.{DataHandlerInterface, Outcome, returned}
use ulog_cpp.Reader.Machine.Termination.{read_chunk-Stops}
use ulog_cpp.Reader.Dispatch.Keeps.{InSession}
use ulog_cpp.Reader.State.{
  State, read_magic, read_flag_bits, read_header, read_data, invalid_data, Reader, Config,
  msg_size_of,
}
use ulog_cpp.Reader.Session.{place}
use ulog_cpp.Reader.Frames.{
  IsMessage, IsIncomplete, Framed, rest, message, msg_size_of-append, split_append,
}
use ulog_cpp.Reader.Dispatch.{handle_message}
use ulog_cpp.Reader.Machine.{Machine, reading, finished, step, run, enter, steps_for, read_chunk}
use ulog_cpp.Reader.Machine.Rounds.{chunk_step, buffer_step, end_step, rest_step, begin_step}

module _ (H : DataHandlerInterface) where
  open H use {S}

  -- So many steps lead from one state of the machine to another.
  pub data Steps : Machine S → Machine S → Type 0 where
    here : {m : Machine S} → Steps m m
    next : {m m' n : Machine S} → step H m ≡ m' → Steps m' n → Steps m n

  -- A session that takes each message in order, with no error and no corruption.
  pub data Delivered : Config S → List Bytes → Config S → Type 0 where
    all_delivered : {d : Config S} → Delivered d [] d
    delivered :
        {d d' d'' : Config S} {m : Bytes} {ms : List Bytes}
        → handle_message H m d ≡ (d', returned)
        → d'.reader.need_recovery ≡ false
        → Delivered d' ms d''
        → Delivered d (m ∷ ms) d''

  -- The loop reads up to the end of the chunk, with `r` in the buffer and `d'` as the session.
  abbrev EndsWith : Machine S → Bytes → Config S → Type 0
  EndsWith m r d' =
      (k : ℕ) × (t : ℕ) × (2048 ≤ k)
      × (length r ≤ k)
      × Steps m (finished (place r k t [] d') returned)

  after_step :
      {m m' : Machine S} {r : Bytes} (d' : Config S)
      → step H m ≡ m'
      → EndsWith m' r d'
      → EndsWith m r d'
  after_step d' e (k, t, room, fits, s) = (k, t, room, fits, next e s)

  ends_here :
      (p : Bytes) (k t : ℕ) (d : Config S)
      → d.reader.need_recovery ≡ false
      → 2048 ≤ k
      → length p ≤ k
      → EndsWith (reading (place p k t [] d)) p d
  ends_here p k t d ready room fits = (k, t, room, fits, next (end_step H p k t d ready) here)

  rest_buffered :
      (p i : Bytes) (k t : ℕ) (d : Config S)
      → d.reader.need_recovery ≡ false
      → 2048 ≤ k
      → length p ≤ k
      → 1 ≤ length p
      → IsIncomplete (p ++ i)
      → EndsWith (reading (place p k t i d)) (p ++ i) d
  rest_buffered p [] k t d ready room fits pos short =
      rw append-nil (ends_here p k t d ready room fits)
  rest_buffered p (x ∷ i) k t d ready room fits pos short =
      let (k', t', wider, holds, e) =
        rest_step H p (x ∷ i) k t d ready pos (omega arith) fits short in
      after_step d e (ends_here (p ++ (x ∷ i)) k' t' d ready (omega arith) holds)

  rest_read :
      (p i : Bytes) (k t : ℕ) (d : Config S)
      → d.reader.need_recovery ≡ false
      → 2048 ≤ k
      → length p ≤ k
      → IsIncomplete (p ++ i)
      → EndsWith (reading (place p k t i d)) (p ++ i) d
  rest_read [] [] k t d ready room fits short = ends_here [] k t d ready room fits
  rest_read [] (x ∷ i) k t d ready room fits short =
      let n = min (length (x ∷ i)) k in
      let whole : take n (x ∷ i) ++ drop n (x ∷ i) ≡ x ∷ i = take-append-drop n (x ∷ i) in
      let held : length (take n (x ∷ i)) ≡ n = omega (arith, length-take {0} n (x ∷ i)) in
      after_step d (begin_step H (x ∷ i) k t d ready (omega arith) short) (
        subst (λ b. EndsWith (reading (place (take n (x ∷ i)) k (t + n) (drop n (x ∷ i)) d)) b d)
          whole
          (rest_buffered (take n (x ∷ i)) (drop n (x ∷ i)) k (t + n) d ready room
            (omega (arith, held)) (omega (arith, held)) (rw whole short)))
  rest_read (y ∷ p) i k t d ready room fits short =
      rest_buffered (y ∷ p) i k t d ready room fits (omega arith) short

  -- What is in the buffer is less than a message, so the first message ends in the chunk.
  ends_in_chunk :
      (p i m q : Bytes) → IsMessage m → IsIncomplete p → p ++ i ≡ m ++ q → length p < length m
  ends_in_chunk p i m q v short e = elim (split_append p i m q e) [
    | inl (x, s, _) ↦
        let size : msg_size_of p ≡ msg_size_of m =
          ap msg_size_of s ∙ msg_size_of-append m x (omega (arith, v.whole)) in
        let long : length p ≡ length m + length x = ap length s ∙ length-append m x in
        absurd (omega (arith, v.whole, size, long))
    | inr h ↦ h
  ]

  pub frames-Delivered :
      {b r : Bytes} {ms : List Bytes} (p i : Bytes) (k t : ℕ) (d d' : Config S)
      → Framed b ms r
      → b ≡ p ++ i
      → IsIncomplete p
      → d.reader.need_recovery ≡ false
      → 2048 ≤ k
      → length p ≤ k
      → Delivered d ms d'
      → EndsWith (reading (place p k t i d)) r d'
  frames-Delivered p i k t d d' (rest {b} h) e short ready room fits all_delivered =
      rw e (rest_read p i k t d ready room fits (rw (← e) h))
  frames-Delivered [] i k t d d' (message {q} m v s f) e short ready room fits
        (delivered {d' = d1} h clean ds) =
      rw (sym e ∙ s) (
        after_step d' (chunk_step H m v d d1 h ready k t q) (
          frames-Delivered [] q k (t + length m) d1 d' f refl (omega arith) clean room (omega arith)
            ds))
  frames-Delivered (x ∷ p) i k t d d' (message {q} m v s f) e short ready room fits
        (delivered {d' = d1} h clean ds) =
      let stream : (x ∷ p) ++ i ≡ m ++ q = sym e ∙ s in
      let (k', t', wider, st) =
        buffer_step H m v d d1 h ready (x ∷ p) i k t q (omega arith)
          (ends_in_chunk (x ∷ p) i m q v short stream) fits stream in
      after_step d' st (
        frames-Delivered [] q k' t' d1 d' f refl (omega arith) clean (omega arith) (omega arith) ds)

  run_finished : (n : ℕ) (c : Config S) (o : Outcome) → run H n (finished c o) ≡ finished c o
  unfolding run step
  run_finished zero c o = refl
  run_finished (suc n) c o = run_finished n c o

  -- A machine that has stopped after some steps has stopped after one step more.
  run-step :
      (n : ℕ) (m : Machine S) (c : Config S) (o : Outcome)
      → run H n m ≡ finished c o
      → run H n (step H m) ≡ finished c o
  unfolding run
  run-step zero m c o e = rw e (unfold step in refl)
  run-step (suc n) m c o e = run-step n (step H m) c o e

  -- Where a number of steps stops, it stops where the steps lead.
  pub run_unique :
      {m m' : Machine S} (n : ℕ) (c c' : Config S) (o o' : Outcome)
      → Steps m m'
      → m' ≡ finished c' o'
      → run H n m ≡ finished c o
      → finished c o ≡ finished c' o'
  run_unique n c c' o o' here f e = sym e ∙ rw f (run_finished n c' o')
  run_unique {m} n c c' o o' (next st s) f e =
      run_unique n c c' o o' s f (rw (← st) (run-step n m c o e))

  -- A reader behind the file header, with no corruption, and less than a message in its buffer.
  pub record IsReady (r : Reader) : Type 0 where
    pub in_session : InSession r.state
    pub clean : r.need_recovery ≡ false
    pub short : IsIncomplete r.partial
    pub within : length r.partial ≤ r.capacity
    pub room : 2048 ≤ r.capacity

  abbrev pub session : Reader → S → Config S
  session r s = record { reader = r; handler = s; input = [] }

  enter_session : (c : Config S) → InSession c.reader.state → enter H c ≡ reading c
  enter_session c h = in_state c.reader.state refl h
    where
      in_state : (st : State) → c.reader.state ≡ st → InSession st → enter H c ≡ reading c
      in_state read_magic e h = absurd h
      in_state read_flag_bits e h = absurd h
      in_state read_header e h = unfold enter in rw (e, enter) refl
      in_state read_data e h = unfold enter in rw (e, enter) refl
      in_state invalid_data e h = absurd h

  -- For any handler, from a reader behind the file header that holds less than a message and has no
  -- corruption: where the buffer and the chunk hold messages and then less than a message, and the
  -- handler takes these messages in order with no exception and no corruption, `readChunk` returns
  -- with the effect of these messages in order, and keeps the bytes behind the last of them within
  -- the capacity of the buffer.
  pub read_chunk-delivers :
      (r : Reader) (s : S) (chunk : Bytes) {ms : List Bytes} {left : Bytes} {d' : Config S}
      → IsReady r
      → Framed (r.partial ++ chunk) ms left
      → Delivered (session r s) ms d'
      → (k : ℕ) × (t : ℕ) × (read_chunk H r s chunk ≡ finished (place left k t [] d') returned)
        × (2048 ≤ k)
        × (length left ≤ k)
  read_chunk-delivers r s chunk {d' = d'} v f ds =
      let c : Config S = record { reader = r; handler = s; input = chunk } in
      let (k, t, room, fits, steps) =
        frames-Delivered r.partial chunk r.capacity r.total_num_read (session r s) d' f refl v.short
          v.clean v.room v.within ds in
      let (c1, o1, e1, _) = read_chunk-Stops H r s chunk v.within v.room in
      let e2 : run H (steps_for c) (reading c) ≡ finished c1 o1 =
        unfold read_chunk in ap (run H (steps_for c)) (sym (enter_session c v.in_session)) ∙ e1 in
      (
        k,
        t,
        e1 ∙ run_unique (steps_for c) c1 (place _ k t [] d') o1 returned steps refl e2,
        room,
        fits,
      )
