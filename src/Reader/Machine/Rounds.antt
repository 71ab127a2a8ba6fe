-- ===== src/Reader/Machine/Rounds.antt =====
-- The rounds of the loop of `readChunk` over a stream that is not corrupt: what a round does with the
-- first message, and with the start of a message.
use ulog_cpp.Prelude.{
  ℕ, ◌+◌, ◌-◌, ◌≤◌, ◌<◌, ◌≡◌, refl, sym, ap, ◌∙◌, Bool, true, false, not, ◌&&◌, arith, Bytes, [],
  ◌∷◌, ◌++◌, length, take, drop, take_all, drop_all, leb, leb→le, le→leb, leb-false, ltb→lt, ltb,
  append_assoc, append-nil, take-append-drop, take-append, drop-append, length-append, length-take,
  min, max, Bool-cases, inl, inr, if◌then◌else◌,
}
use ulog_cpp.Handler.{DataHandlerInterface, returned}
use ulog_cpp.Reader.State.{
  Config, msg_size_of, consume, append, append_to_partial_buffer, ensure, remove_from_buffer,
}
use ulog_cpp.Reader.Session.{place}
use ulog_cpp.Reader.Frames.{IsMessage, IsIncomplete, msg_size_of-append, append_injective}
use ulog_cpp.Reader.Dispatch.{handle_message}
use ulog_cpp.Reader.Dispatch.Frame.{handle_message-place}
use ulog_cpp.Reader.Machine.{
  reading, recovering, finished, is_empty, holds_message, read_round, read_step, step,
}

module _ {S : Type 0} where
  -- What `ensure` does to the stream of the buffer and the chunk: it moves the cut between them.
  pub record Moved (required : ℕ) (p i : Bytes) (k t : ℕ) (d : Config S) : Type 0 where
    pub partial : Bytes
    pub input : Bytes
    pub capacity : ℕ
    pub total : ℕ
    pub moved : ensure required (place p k t i d) ≡ place partial capacity total input d
    pub stream : partial ++ input ≡ p ++ i
    pub held : length partial ≡ max (length p) (min required (length p + length i))
    pub fits : length partial ≤ capacity
    pub room : k ≤ capacity

  grown :
      (wider : Bool) (p : Bytes) (n : ℕ) (i : Bytes) (k t : ℕ) (d : Config S)
      → append n (if wider then place p (length p + n) t i d else place p k t i d)
        ≡ place (p ++ take n i) (if wider then length p + n else k) (t + n) (drop n i) d
  unfolding append
  grown true p n i k t d = refl
  grown false p n i k t d = refl

  pub ensure-Moved :
      (required : ℕ) (p i : Bytes) (k t : ℕ) (d : Config S)
      → length p ≤ k
      → Moved required p i k t d
  ensure-Moved required p i k t d h = elim (Bool-cases (ltb (length p) required)) [
    | inl e ↦
        let n = min (required - length p) (length i) in
        record {
          partial = p ++ take n i;
          input = drop n i;
          capacity = if ltb k (length p + n) then length p + n else k;
          total = t + n;
          moved = unfold ensure in rw e (grown (ltb k (length p + n)) p n i k t d);
          stream = rw append_assoc (ap (◌++◌ p) (take-append-drop n i));
          held = omega (arith, length-append {0} p (take n i), length-take {0} n i, ltb→lt _ _ e);
          fits = ground (arith, length-append {0} p (take n i), length-take {0} n i);
          room = ground arith;
        }
    | inr e ↦ record {
      partial = p;
      input = i;
      capacity = k;
      total = t;
      moved = unfold ensure in rw e refl;
      stream = refl;
      held = ground (arith, e);
      fits = h;
      room = omega arith;
    }
  ]

is_empty-false : (b : Bytes) → 1 ≤ length b → is_empty b ≡ false
unfolding is_empty
is_empty-false [] h = absurd (omega arith)
is_empty-false (x ∷ b) h = refl

-- A cut that takes the whole stream leaves nothing.
all_moved : (a b q : Bytes) → a ++ b ≡ q → length a ≡ length q → (a ≡ q) × (b ≡ [])
all_moved a b q e h = append_injective a b q [] (e ∙ sym (append-nil q)) h

chosen :
    {A : Type 0} (empty recovery : Bool) (x y z : A)
    → empty ≡ false
    → recovery ≡ false
    → (if not empty && not recovery then x else if recovery then y else z) ≡ x
chosen empty recovery x y z e r = rw (e, r)

module _ (H : DataHandlerInterface) where
  open H use {S}

  -- With bytes in the chunk and no corruption, a step is a round of the loop.
  read_step_round :
      (c : Config S)
      → is_empty c.input ≡ false
      → c.reader.need_recovery ≡ false
      → read_step H c ≡ read_round H c
  unfolding read_step
  read_step_round c e r =
      chosen (is_empty c.input) c.reader.need_recovery (read_round H c) (recovering c)
        (finished c returned) e r

  module _ (m : Bytes) (v : IsMessage m) (d d' : Config S)
      (handled : handle_message H m d ≡ (d', returned))
      (ready : d.reader.need_recovery ≡ false) where
    -- A message that stands whole in the chunk, with nothing in the buffer.
    pub chunk_step :
        (k t : ℕ) (tail : Bytes)
        → step H (reading (place [] k t (m ++ tail) d))
          ≡ reading (place [] k (t + length m) tail d')
    unfolding step read_round consume is_empty
    chunk_step k t tail =
        let long : length (m ++ tail) ≡ length m + length tail = length-append m tail in
        let size : msg_size_of (m ++ tail) ≡ msg_size_of m =
          msg_size_of-append m tail (omega (arith, v.whole)) in
        let n_eq : msg_size_of (m ++ tail) + 3 ≡ length m = omega (arith, v.whole) in
        let holds : holds_message (m ++ tail) ≡ true =
          ground (arith, long, n_eq, v.whole, v.size) in
        let some_bytes = is_empty-false (m ++ tail) (omega (arith, v.whole)) in
        read_step_round (place [] k t (m ++ tail) d) some_bytes ready
        ∙ rw (
          holds,
          n_eq,
          take-append m tail (length m) refl,
          drop-append m tail (length m) refl,
          handle_message-place H [] k (t + length m) tail m d,
          handled,
        )

    -- A message whose start stands in the buffer.
    pub buffer_step :
        (p i : Bytes) (k t : ℕ) (tail : Bytes)
        → 1 ≤ length p
        → length p < length m
        → length p ≤ k
        → p ++ i ≡ m ++ tail
        → (k' : ℕ) × (t' : ℕ) × (k ≤ k')
          × (step H (reading (place p k t i d)) ≡ reading (place [] k' t' tail d'))
    unfolding step read_round remove_from_buffer
    buffer_step p i k t tail pos short fits e =
        let long : length p + length i ≡ length m + length tail =
          sym (length-append p i) ∙ ap length e ∙ length-append m tail in
        let first = ensure-Moved 3 p i k t d fits in
        let has_header : leb 3 (length first.partial) ≡ true =
          le→leb 3 (length first.partial) (omega (arith, first.held, v.whole)) in
        let same : first.partial ++ first.input ≡ m ++ tail = first.stream ∙ e in
        let size : msg_size_of first.partial ≡ msg_size_of m =
          sym (msg_size_of-append first.partial first.input (omega (arith, first.held, v.whole)))
          ∙ ap msg_size_of same
          ∙ msg_size_of-append m tail (omega (arith, v.whole)) in
        let required : msg_size_of first.partial + 3 ≡ length m = omega (arith, v.whole) in
        let second =
          ensure-Moved (length m) first.partial first.input first.capacity first.total d
            first.fits in
        let total : length first.partial + length first.input ≡ length m + length tail =
          sym (length-append first.partial first.input) ∙ ap length same ∙ length-append m tail in
        let exact : length second.partial ≡ length m =
          omega (arith, second.held, first.held, total) in
        let (all, behind) =
          append_injective second.partial second.input m tail (second.stream ∙ same) exact in
        let whole : leb (length m) (length m) ≡ true = le→leb (length m) (length m) (omega arith) in
        (
          second.capacity,
          second.total,
          omega (arith, first.room, second.room),
          read_step_round (place p k t i d) (is_empty-false i (omega arith)) ready
              ∙ rw
                  (
                    is_empty-false p pos,
                    first.moved,
                    has_header,
                    required,
                    second.moved,
                    all,
                    whole,
                  )
                  (rw (
                    ← v.whole,
                    take_all m (length m) (omega arith),
                    behind,
                    handle_message-place H m second.capacity second.total tail m d,
                    handled,
                    drop_all m (length m) (omega arith),
                  )),
        )

  -- With nothing left in the chunk, and no corruption, the loop ends.
  pub end_step :
      (p : Bytes) (k t : ℕ) (d : Config S)
      → d.reader.need_recovery ≡ false
      → step H (reading (place p k t [] d)) ≡ finished (place p k t [] d) returned
  unfolding step read_step is_empty
  end_step p k t d ready =
      stop d.reader.need_recovery (recovering (place p k t [] d))
        (finished (place p k t [] d) returned) ready
    where
      stop : {A : Type 0} (b : Bool) (x y : A) → b ≡ false → (if b then x else y) ≡ y
      stop b x y e = rw e

  -- The start of a message goes to the buffer whole, if the buffer holds some of it already.
  pub rest_step :
      (p i : Bytes) (k t : ℕ) (d : Config S)
      → d.reader.need_recovery ≡ false
      → 1 ≤ length p
      → 1 ≤ length i
      → length p ≤ k
      → IsIncomplete (p ++ i)
      → (k' : ℕ) × (t' : ℕ) × (k ≤ k')
        × (length (p ++ i) ≤ k')
        × (step H (reading (place p k t i d)) ≡ reading (place (p ++ i) k' t' [] d))
  unfolding step read_round
  rest_step p i k t d ready pos more fits short =
      let first = ensure-Moved 3 p i k t d fits in
      let long : length (p ++ i) ≡ length p + length i = length-append p i in
      let enter = read_step_round (place p k t i d) (is_empty-false i more) ready in
      elim (Bool-cases (leb 3 (length first.partial))) [
        | inl h ↦
            let size : msg_size_of first.partial ≡ msg_size_of (p ++ i) =
              sym (
                msg_size_of-append first.partial first.input
                  (omega (arith, leb→le 3 (length first.partial) h)))
              ∙ ap msg_size_of first.stream in
            let required = msg_size_of first.partial + 3 in
            let second =
              ensure-Moved required first.partial first.input first.capacity first.total d
                first.fits in
            let same : length first.partial + length first.input ≡ length (p ++ i) =
              sym (length-append first.partial first.input) ∙ ap length first.stream in
            let full : length second.partial ≡ length (p ++ i) =
              omega (arith, second.held, size, short, same) in
            let (all, gone) =
              all_moved second.partial second.input (p ++ i) (second.stream ∙ first.stream) full in
            let no : leb required (length (p ++ i)) ≡ false =
              leb-false required (length (p ++ i)) (omega (arith, size, short)) in
            (
              second.capacity,
              second.total,
              omega (arith, first.room, second.room),
              omega (arith, second.fits, full),
              enter ∙ rw (is_empty-false p pos, first.moved, h, second.moved, all, gone, no),
            )
        | inr h ↦
            let full : length first.partial ≡ length (p ++ i) =
              ground (arith, h, first.held, long) in
            let (all, gone) = all_moved first.partial first.input (p ++ i) first.stream full in
            (
              first.capacity,
              first.total,
              first.room,
              omega (arith, first.fits, full),
              enter ∙ rw (is_empty-false p pos, first.moved, h, all, gone),
            )
      ]

  -- Or as much of it as fits, if the buffer is empty.
  pub begin_step :
      (i : Bytes) (k t : ℕ) (d : Config S)
      → d.reader.need_recovery ≡ false
      → 1 ≤ length i
      → IsIncomplete i
      → step H (reading (place [] k t i d))
        ≡ reading (
            place
              (take (min (length i) k) i)
              k
              (t + min (length i) k)
              (drop (min (length i) k) i)
              d)
  unfolding step read_round append_to_partial_buffer is_empty
  begin_step i k t d ready more short =
      let no : holds_message i ≡ false = ground (arith, short) in
      read_step_round (place [] k t i d) (is_empty-false i more) ready
      ∙ (let z : k - 0 ≡ k = omega arith in rw (no, z))
