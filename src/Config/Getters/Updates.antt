-- ===== src/Config/Getters/Updates.antt =====
-- config: what the change of one option does to the values that are looked up.
use portbase.Prelude.{
  ℕ, ◌≡◌, inl, inr, refl, sym, ◌∙◌, ap, List, Bool, true, false, Option, none, some, if◌then◌else◌,
  Bool-cases,
}
use mathlib.Core.Option.{some-injective, none-ne-some}
use portbase.Prelude.Dict.{Dict, lookup, insert, same, same_iff, lookup-insert}
use portbase.Config.{OptionType, ConfigOption}
use portbase.Config.Changes.{
  Config, release_level_key, level_of, update_option, handle_option_update, mark_restart,
}
use portbase.Config.Getters.{get_value_cache, find_value, value_if_type}
use portbase.Config.Getters.Steps.{IsInSync}

module _ (key : List ℕ) (option : ConfigOption) (c : Config) where
  pub update_option-options : (update_option key option c).options ≡ insert key option c.options
  unfolding update_option handle_option_update
  update_option-options = elim (Bool-cases (same key release_level_key)) [
    | inl e ↦ rw e refl
    | inr e ↦ rw e refl
  ]

  pub update_option-validity : (update_option key option c).validity ≡ c.validity
  unfolding update_option handle_option_update
  update_option-validity = elim (Bool-cases (same key release_level_key)) [
    | inl e ↦ rw e refl
    | inr e ↦ rw e refl
  ]

  pub update_option-level :
      (update_option key option c).active_release_level
      ≡ (if same key release_level_key then level_of option else c.active_release_level)
  unfolding update_option handle_option_update
  update_option-level = elim (Bool-cases (same key release_level_key)) [
    | inl e ↦ rw e refl
    | inr e ↦ rw e refl
  ]

  pub lookup-update_option :
      (j : List ℕ)
      → lookup j (update_option key option c).options
        ≡ (if same key j then some option else lookup j c.options)
  lookup-update_option j = rw update_option-options (lookup-insert key j option c.options)

-- A registered key stays registered.
abbrev pub IsRegistered : List ℕ → Config → Type 0
IsRegistered key c = (option : ConfigOption) × (lookup key c.options ≡ some option)

registered_if :
    (b : Bool) (option : ConfigOption) (o : Option ConfigOption)
    → ((p : ConfigOption) × (o ≡ some p))
    → (p : ConfigOption) × ((if b then some option else o) ≡ some p)
registered_if true option o r = (option, refl)
registered_if false option o r = r

pub update_option-IsRegistered :
    (name key : List ℕ) (option : ConfigOption) (c : Config)
    → IsRegistered name c
    → IsRegistered name (update_option key option c)
update_option-IsRegistered name key option c r =
    rw (lookup-update_option key option c name)
      (registered_if (same key name) option (lookup name c.options) r)

pub update_option-IsInSync :
    (key : List ℕ) (option : ConfigOption) (c : Config)
    → IsInSync c
    → IsInSync (update_option key option c)
update_option-IsInSync key option c s =
    rw (lookup-update_option key option c release_level_key)
      (rw (update_option-level key option c) (sync_if (same key release_level_key) option c s))
  where
    sync_if :
        (b : Bool) (option : ConfigOption) (c : Config)
        → IsInSync c
        → (p : ConfigOption) × ((if b then some option else lookup release_level_key c.options)
            ≡ some p)
          × ((if b then level_of option else c.active_release_level) ≡ level_of p)
    sync_if true option c s = (option, refl, refl)
    sync_if false option c s = s

-- Options that read alike.
abbrev pub ReadsAlike : ConfigOption → ConfigOption → Type 0
ReadsAlike o p =
    (o.opt_type ≡ p.opt_type)
    × ((level : ℕ) → find_value o level ≡ find_value p level)
    × (level_of o ≡ level_of p)

pub mark_restart-ReadsAlike : (o : ConfigOption) → ReadsAlike (mark_restart o) o
unfolding mark_restart find_value level_of
mark_restart-ReadsAlike o = elim (Bool-cases o.requires_restart) [
  | inl e ↦ rw e (refl, λ level. refl, refl)
  | inr e ↦ rw e (refl, λ level. refl, refl)
]

value-ReadsAlike :
    (requested : OptionType) (o p : ConfigOption) (level : ℕ)
    → ReadsAlike o p
    → value_if_type requested (some o) level ≡ value_if_type requested (some p) level
unfolding find_value
value-ReadsAlike requested o p level alike = rw (alike.0) (rw (alike.1 level) refl)

-- An update to an option that reads alike changes no value.
level_if :
    (b : Bool) (o p : ConfigOption) (level : ℕ)
    → ReadsAlike o p
    → (b ≡ true → level ≡ level_of p)
    → (if b then level_of o else level) ≡ level
level_if true o p level alike h = alike.2 ∙ sym (h refl)
level_if false o p level alike h = refl

value_if :
    (b : Bool) (requested : OptionType) (o p : ConfigOption) (q : Option ConfigOption) (level : ℕ)
    → ReadsAlike o p
    → (b ≡ true → q ≡ some p)
    → value_if_type requested (if b then some o else q) level ≡ value_if_type requested q level
value_if true requested o p q level alike h =
    rw (h refl) (value-ReadsAlike requested o p level alike)
value_if false requested o p q level alike h = refl

pub update_option-value :
    (requested : OptionType) (name key : List ℕ) (o p : ConfigOption) (c : Config)
    → IsInSync c
    → lookup key c.options ≡ some p
    → ReadsAlike o p
    → get_value_cache name requested (update_option key o c) ≡ get_value_cache name requested c
unfolding get_value_cache
update_option-value requested name key o p c sync found alike =
    rw (lookup-update_option key o c name) (
      rw
        (update_option-level key o c
          ∙ level_if (same key release_level_key) o p c.active_release_level alike (λ e.
            sync.2
            ∙ ap level_of (
                some-injective _ _
                  (sym (sync.1) ∙ (rw⁻¹ ((same_iff key release_level_key).0 e) found)))))
        (value_if (same key name) requested o p (lookup name c.options) c.active_release_level alike
          (λ e. rw⁻¹ ((same_iff key name).0 e) found)))

-- A key that is registered now is not the one registered before.
other_if :
    {A : Type 0} (b : Bool) (new old : A) (o : Option A)
    → (b ≡ true → o ≡ none)
    → o ≡ some old
    → (if b then some new else o) ≡ o
other_if true new old o fresh e = absurd (none-ne-some old (sym (fresh refl) ∙ e))
other_if false new old o fresh e = refl

pub lookup-fresh :
    (key j : List ℕ) (new old : ConfigOption) (os : Dict ConfigOption)
    → lookup key os ≡ none
    → lookup j os ≡ some old
    → lookup j (insert key new os) ≡ lookup j os
lookup-fresh key j new old os fresh e =
    lookup-insert key j new os
    ∙ other_if (same key j) new old (lookup j os) (λ b. rw⁻¹ ((same_iff key j).0 b) fresh) e
