-- ===== src/DataContainer/Resolution/Names.antt =====
-- `headerComplete` and the resolution of a message's field leave the names of the formats, the
-- subscriptions and the configuration as they are.
use ulog_cpp.Prelude.{true, ◌≡◌, refl, ◌∙◌, inl, inr, List, [], ◌∷◌, map, Bytes}
use ulog_cpp.Handler.{Outcome, Outcome-cases, returned, thrown}
use ulog_cpp.Formats.{Formats, resolve_format}
use ulog_cpp.Formats.Names.{names, resolve_format-names, resolve_own-names}
use ulog_cpp.DataContainer.State.{DataContainer, Call, and_then}
use ulog_cpp.DataContainer.Resolution.{
  keep_head, resolve_each, resolve_info, resolve_default, of_entry, resolve_names, resolve_formats,
  resolve_infos, resolve_multi, resolve_defaults, resolve_initial, resolve_changed,
  container_header_complete,
}

module _ {A : Type 0} where
  -- A resolution that leaves the names of the formats as they are.
  abbrev pub KeepsNames : (A → Formats → (A × Formats) × Outcome) → Type 0
  KeepsNames one = (a : A) (fs : Formats) → names (one a fs).0.1 ≡ names fs

keep_head-names :
    {A : Type 0} (one : A → Formats → (A × Formats) × Outcome) (es : List A)
    (p : (A × Formats) × Outcome) (next : List A × Formats → (List A × Formats) × Outcome)
    → ((gs : Formats) → names (next (es, gs)).0.1 ≡ names gs)
    → names (keep_head one es p next).0.1 ≡ names p.0.1
unfolding keep_head
keep_head-names one es ((b, gs), thrown x) next keep = refl
keep_head-names one es ((b, gs), returned) next keep = keep gs

resolve_each-KeepsNames :
    {A : Type 0} (one : A → Formats → (A × Formats) × Outcome)
    → KeepsNames one
    → KeepsNames (resolve_each one)
unfolding resolve_each
resolve_each-KeepsNames one keep [] fs = refl
resolve_each-KeepsNames one keep (a ∷ es) fs =
    keep_head-names one es (one a fs) _ (λ gs. resolve_each-KeepsNames one keep es gs) ∙ keep a fs

of_entry-KeepsNames :
    {A : Type 0} (one : A → Formats → (A × Formats) × Outcome)
    → KeepsNames one
    → KeepsNames (of_entry one)
of_entry-KeepsNames one keep e fs = keep e.1 fs

pub resolve_info-KeepsNames : KeepsNames resolve_info
unfolding resolve_info
resolve_info-KeepsNames m fs = resolve_own-names m.field fs

pub resolve_default-KeepsNames : KeepsNames resolve_default
unfolding resolve_default
resolve_default-KeepsNames m fs = resolve_own-names m.field fs

resolve_names-names : (ns : List Bytes) (fs : Formats) → names (resolve_names ns fs).0 ≡ names fs
unfolding resolve_names
resolve_names-names [] fs = refl
resolve_names-names (n ∷ ns) fs = elim (Outcome-cases (resolve_format n fs).1) [
  | inl e ↦
      rw (resolve_names, e)
        (resolve_names-names ns (resolve_format n fs).0 ∙ resolve_format-names n fs)
  | inr (x, e) ↦ rw (resolve_names, e) (resolve_format-names n fs)
]

-- What the subscriptions of a container rest on.
pub record SameBase (c d : DataContainer) : Type 0 where
  pub formats : names d.formats ≡ names c.formats
  pub subscriptions : d.subscriptions ≡ c.subscriptions
  pub by_name : d.by_name ≡ c.by_name
  pub storage_config : d.storage_config ≡ c.storage_config

SameBase-trans : (a b c : DataContainer) → SameBase a b → SameBase b c → SameBase a c
SameBase-trans a b c h k = record {
  formats = k.formats ∙ h.formats;
  subscriptions = k.subscriptions ∙ h.subscriptions;
  by_name = k.by_name ∙ h.by_name;
  storage_config = k.storage_config ∙ h.storage_config;
}

pub and_then-SameBase :
    (c : DataContainer) (next : DataContainer → Call) (p : Call)
    → ((d : DataContainer) → SameBase d (next d).0)
    → SameBase c p.0
    → SameBase c (and_then next p).0
unfolding and_then
and_then-SameBase c next (d, returned) keep h = SameBase-trans c d (next d).0 h (keep d)
and_then-SameBase c next (d, thrown x) keep h = h

resolve_formats-SameBase : (c : DataContainer) → SameBase c (resolve_formats c).0
unfolding resolve_formats
resolve_formats-SameBase c = record {
  formats = resolve_names-names (map (λ m. m.name) c.formats) c.formats;
  subscriptions = refl;
  by_name = refl;
  storage_config = refl;
}

resolve_infos-SameBase : (c : DataContainer) → SameBase c (resolve_infos c).0
unfolding resolve_infos
resolve_infos-SameBase c = record {
  formats =
      resolve_each-KeepsNames _ (of_entry-KeepsNames resolve_info resolve_info-KeepsNames) c.infos
        c.formats;
  subscriptions = refl;
  by_name = refl;
  storage_config = refl;
}

resolve_multi-SameBase : (c : DataContainer) → SameBase c (resolve_multi c).0
unfolding resolve_multi
resolve_multi-SameBase c = record {
  formats =
      resolve_each-KeepsNames _
        (of_entry-KeepsNames (resolve_each (resolve_each resolve_info)) (
          resolve_each-KeepsNames _ (resolve_each-KeepsNames resolve_info resolve_info-KeepsNames)))
        c.infos_multi c.formats;
  subscriptions = refl;
  by_name = refl;
  storage_config = refl;
}

resolve_defaults-SameBase : (c : DataContainer) → SameBase c (resolve_defaults c).0
unfolding resolve_defaults
resolve_defaults-SameBase c = record {
  formats =
      resolve_each-KeepsNames _ (of_entry-KeepsNames resolve_default resolve_default-KeepsNames)
        c.default_parameters c.formats;
  subscriptions = refl;
  by_name = refl;
  storage_config = refl;
}

resolve_initial-SameBase : (c : DataContainer) → SameBase c (resolve_initial c).0
unfolding resolve_initial
resolve_initial-SameBase c = record {
  formats =
      resolve_each-KeepsNames _ (of_entry-KeepsNames resolve_info resolve_info-KeepsNames)
        c.initial_parameters c.formats;
  subscriptions = refl;
  by_name = refl;
  storage_config = refl;
}

resolve_changed-SameBase : (c : DataContainer) → SameBase c (resolve_changed c).0
unfolding resolve_changed
resolve_changed-SameBase c = record {
  formats =
      resolve_each-KeepsNames resolve_info resolve_info-KeepsNames c.changed_parameters c.formats;
  subscriptions = refl;
  by_name = refl;
  storage_config = refl;
}

-- `headerComplete` keeps it, whether it returns or throws.
pub container_header_complete-SameBase :
    (c : DataContainer) → SameBase c (container_header_complete c).0
unfolding container_header_complete
container_header_complete-SameBase c =
    let infos = and_then resolve_infos (resolve_formats c) in
    let multi = and_then resolve_multi infos in
    let defaults = and_then resolve_defaults multi in
    let initial = and_then resolve_initial defaults in
    let changed = and_then resolve_changed initial in
    let h1 =
      and_then-SameBase c resolve_infos (resolve_formats c) resolve_infos-SameBase
        (resolve_formats-SameBase c) in
    let h2 = and_then-SameBase c resolve_multi infos resolve_multi-SameBase h1 in
    let h3 = and_then-SameBase c resolve_defaults multi resolve_defaults-SameBase h2 in
    let h4 = and_then-SameBase c resolve_initial defaults resolve_initial-SameBase h3 in
    let h5 = and_then-SameBase c resolve_changed initial resolve_changed-SameBase h4 in
    and_then-SameBase c (λ d. (record d { is_header_complete = true }, returned)) changed
      (λ d. record { formats = refl; subscriptions = refl; by_name = refl; storage_config = refl })
      h5
