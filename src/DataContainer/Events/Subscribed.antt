-- ===== src/DataContainer/Events/Subscribed.antt =====
-- What holds of the subscriptions of a container, and what a new one or a sample keeps of it.
use ulog_cpp.Prelude.{
  ℕ, ◌≡◌, ◌≢◌, refl, ◌∙◌, ap, arith, Bool, true, false, ◌||◌, none, some, List, [], ◌∷◌, ◌++◌, All,
  Bytes, bytes_eq, Bool-cases, inl, inr, ◌==◌,
}
use ulog_cpp.Messages.Format.{MessageFormat}
use ulog_cpp.Messages.Logged.{Data}
use ulog_cpp.Formats.{Formats, insert_format, find_message_format}
use ulog_cpp.Formats.Names.{names}
use ulog_cpp.DataContainer.State.{Subscription, DataContainer, StorageConfig, header}
use ulog_cpp.DataContainer.Resolution.Names.{SameBase}
use ulog_cpp.DataContainer.Events.{is_some, find_subscription, add_sample}

-- A name among the names of the formats.
abbrev pub is_name : Bytes → List Bytes → Bool
is_name n [] = false
is_name n (m ∷ ms) = bytes_eq m n || is_name n ms

-- Each id stands for one subscription.
abbrev pub Distinct : List Subscription → Type 0
Distinct [] = Unit
Distinct (s ∷ ss) = All (λ t. t.add_logged.msg_id ≢ s.add_logged.msg_id) ss × Distinct ss

-- A subscription that has its format among the names, and its own samples, if any are kept.
pub record IsSubscription (ns : List Bytes) (config : StorageConfig) (s : Subscription)
    : Type 0 where
  pub format : s.format ≡ s.add_logged.message_name
  pub known : is_name s.format ns ≡ true
  pub samples : All (λ d. d.msg_id ≡ s.add_logged.msg_id) s.samples
  pub kept : config ≡ header → s.samples ≡ []

-- An entry by name leads to the subscription of this name.
abbrev pub IsNamed : List Subscription → (Bytes × ℕ) × ℕ → Type 0
IsNamed ss ((name, multi_id), id) =
    (s : Subscription) × (find_subscription id ss ≡ some s)
    × (s.add_logged.message_name ≡ name)
    × (s.add_logged.multi_id ≡ multi_id)

pub record WellFormed (c : DataContainer) : Type 0 where
  pub distinct : Distinct c.subscriptions
  pub subscribed : All (IsSubscription (names c.formats) c.storage_config) c.subscriptions
  pub named : All (IsNamed c.subscriptions) c.by_name

-- Lemmas on lists.
pub All-map :
    {A : Type 0} (P Q : A → Type 0) (xs : List A) → ((x : A) → P x → Q x) → All P xs → All Q xs
All-map P Q [] f h = tt
All-map P Q (x ∷ xs) f (h, hs) = (f x h, All-map P Q xs f hs)

pub All-snoc :
    {A : Type 0} (P : A → Type 0) (xs : List A) (x : A) → All P xs → P x → All P (xs ++ x ∷ [])
All-snoc P [] x h p = (p, tt)
All-snoc P (y ∷ xs) x (h, hs) p = (h, All-snoc P xs x hs p)

pub find_message_format-is_name :
    (n : Bytes) (fs : Formats) → is_some (find_message_format n fs) ≡ is_name n (names fs)
unfolding find_message_format
find_message_format-is_name n [] = refl
find_message_format-is_name n (m ∷ fs) = ground (arith, find_message_format-is_name n fs)

pub insert_format-is_name :
    (n : Bytes) (m : MessageFormat) (fs : Formats)
    → is_name n (names fs) ≡ true
    → is_name n (names (insert_format m fs)) ≡ true
unfolding insert_format
insert_format-is_name n m [] h = absurd (cc h)
insert_format-is_name n m (f ∷ fs) h = ground (arith, insert_format-is_name n m fs)

-- Another base for the same subscriptions.
pub SameBase-WellFormed : (c d : DataContainer) → SameBase c d → WellFormed c → WellFormed d
SameBase-WellFormed c d b v = record {
  distinct = rw b.subscriptions v.distinct;
  subscribed = rw (b.formats, b.storage_config, b.subscriptions) v.subscribed;
  named = rw (b.subscriptions, b.by_name) v.named;
}

-- A new subscription behind the others.
pub absent :
    (id : ℕ) (ss : List Subscription)
    → find_subscription id ss ≡ none
    → All (λ t. id ≢ t.add_logged.msg_id) ss
unfolding find_subscription
absent id [] h = tt
absent id (t ∷ ss) h = (ground arith, absent id ss (ground arith))

pub snoc-Distinct :
    (s : Subscription) (ss : List Subscription)
    → All (λ t. s.add_logged.msg_id ≢ t.add_logged.msg_id) ss
    → Distinct ss
    → Distinct (ss ++ s ∷ [])
snoc-Distinct s [] h d = (tt, tt)
snoc-Distinct s (t ∷ ss) (h, hs) (d, ds) =
    (All-snoc (λ u. u.add_logged.msg_id ≢ t.add_logged.msg_id) ss s d h, snoc-Distinct s ss hs ds)

pub find-snoc :
    (id : ℕ) (s t : Subscription) (ss : List Subscription)
    → find_subscription id ss ≡ some s
    → find_subscription id (ss ++ t ∷ []) ≡ some s
unfolding find_subscription
find-snoc id s t [] h = absurd (cc h)
find-snoc id s t (u ∷ ss) h = ground (arith, find-snoc id s t ss)

pub find_new :
    (s : Subscription) (ss : List Subscription)
    → find_subscription s.add_logged.msg_id ss ≡ none
    → find_subscription s.add_logged.msg_id (ss ++ s ∷ []) ≡ some s
unfolding find_subscription
find_new s [] h = ground arith
find_new s (t ∷ ss) h = ground (arith, find_new s ss)

-- A sample keeps what a subscription is.
pub find-add_sample :
    (d : Data) (id : ℕ) (s : Subscription) (ss : List Subscription)
    → find_subscription id ss ≡ some s
    → (t : Subscription) × (find_subscription id (add_sample d ss) ≡ some t)
      × (t.add_logged ≡ s.add_logged)
unfolding find_subscription add_sample
find-add_sample d id s [] h = absurd (cc h)
find-add_sample d id s (u ∷ ss) h = elim (Bool-cases (u.add_logged.msg_id == id)) [
  | inl g ↦
      let same : u ≡ s = ground (arith, g) in
      elim (Bool-cases (u.add_logged.msg_id == d.msg_id)) [
        | inl e ↦
            rw e
              (rw g (record u { samples = u.samples ++ d ∷ [] }, refl, ap (λ t. t.add_logged) same))
        | inr e ↦ rw e (rw g (u, refl, ap (λ t. t.add_logged) same))
      ]
  | inr g ↦
      let there : find_subscription id ss ≡ some s = ground (arith, g) in
      elim (Bool-cases (u.add_logged.msg_id == d.msg_id)) [
        | inl e ↦ rw e (rw g (s, there, refl))
        | inr e ↦ rw e (rw g (find-add_sample d id s ss there))
      ]
]

add_sample-ids :
    (d : Data) (P : ℕ → Type 0) (ss : List Subscription)
    → All (λ t. P t.add_logged.msg_id) ss
    → All (λ t. P t.add_logged.msg_id) (add_sample d ss)
unfolding add_sample
add_sample-ids d P [] h = tt
add_sample-ids d P (t ∷ ss) (h, hs) = elim (Bool-cases (t.add_logged.msg_id == d.msg_id)) [
  | inl e ↦ rw e (h, hs)
  | inr e ↦ rw e (h, add_sample-ids d P ss hs)
]

pub add_sample-Distinct :
    (d : Data) (ss : List Subscription) → Distinct ss → Distinct (add_sample d ss)
unfolding add_sample
add_sample-Distinct d [] h = tt
add_sample-Distinct d (t ∷ ss) (h, hs) = elim (Bool-cases (t.add_logged.msg_id == d.msg_id)) [
  | inl e ↦ rw e (h, hs)
  | inr e ↦ rw e (add_sample-ids d (λ i. i ≢ t.add_logged.msg_id) ss h, add_sample-Distinct d ss hs)
]

pub add_sample-IsSubscription :
    (ns : List Bytes) (config : StorageConfig) (d : Data) (ss : List Subscription)
    → config ≢ header
    → All (IsSubscription ns config) ss
    → All (IsSubscription ns config) (add_sample d ss)
unfolding add_sample
add_sample-IsSubscription ns config d [] ne h = tt
add_sample-IsSubscription ns config d (t ∷ ss) ne (h, hs) =
    elim (Bool-cases (t.add_logged.msg_id == d.msg_id)) [
      | inl e ↦ rw e (
        record {
          format = h.format;
          known = h.known;
          samples =
              All-snoc (λ d. d.msg_id ≡ t.add_logged.msg_id) t.samples d h.samples
                (ground (arith, e));
          kept = λ c. absurd (ne c);
        },
        hs,
      )
      | inr e ↦ rw e (h, add_sample-IsSubscription ns config d ss ne hs)
    ]

pub IsNamed-trans :
    (ss ts : List Subscription)
    → ((id : ℕ) (s : Subscription)
        → find_subscription id ss ≡ some s
        → (t : Subscription) × (find_subscription id ts ≡ some t) × (t.add_logged ≡ s.add_logged))
    → (es : List ((Bytes × ℕ) × ℕ)) → All (IsNamed ss) es
    → All (IsNamed ts) es
IsNamed-trans ss ts keep [] h = tt
IsNamed-trans ss ts keep (((name, multi_id), id) ∷ es) ((s, found, n, m), hs) =
    let (t, there, same) = keep id s found in
    (
      (t, there, ap (λ a. a.message_name) same ∙ n, ap (λ a. a.multi_id) same ∙ m),
      IsNamed-trans ss ts keep es hs,
    )
