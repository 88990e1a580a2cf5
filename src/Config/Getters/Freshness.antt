-- ===== src/Config/Getters/Freshness.antt =====
-- A returned function and the lookup it stands for.
use portbase.Prelude.{
  ℕ, suc, ◌≡◌, ◌≤◌, ◌⊎◌, inl, inr, refl, sym, ◌∙◌, ap, List, [], ◌∷◌, Bool, Option, none, some,
  ◌==◌, Bool-cases, arith, ==_iff,
}
use mathlib.Core.Option.{some-injective, none-ne-some}
use portbase.Prelude.Dict.{Dict, lookup, insert}
use portbase.Config.{Value, OptionType, ValueCache, ConfigOption, validate_value}
use portbase.Config.Changes.{
  Config, Layer, release_level_key, replace_config, replace_all, replaced, set_config_option,
  set_found, register, update_option, mark_restart, signal_changes, checked, insert_valid,
  set_checked, finish_set, set_layer,
}
use portbase.Config.Getters.{
  Getter, get_as, call, current, get_value_cache, value_if_type, or_fallback, refreshed,
}
use portbase.Config.Getters.Steps.{Change, Use, IsInSync}
use portbase.Config.Getters.Updates.{
  update_option-validity, IsRegistered, update_option-IsRegistered, update_option-IsInSync,
  mark_restart-ReadsAlike, update_option-value, lookup-fresh,
}

-- The two outcomes of a change for a function that reads `name`.
module _ {ℓ} {A : Type ℓ} (allows : Value → Value → Bool) (print : Value → List ℕ) (name : List ℕ)
    (requested : OptionType) (read : ValueCache → A) (fallback : A) where
  abbrev IsKept : Config → Config → Type ℓ
  IsKept c c' =
      IsInSync c'
      × IsRegistered name c'
      × ((c'.validity ≡ suc c.validity)
          ⊎ ((c'.validity ≡ c.validity)
              × (current name requested read fallback c' ≡ current name requested read fallback c)))

  signal-IsKept :
      (c c' : Config)
      → IsInSync c'
      → IsRegistered name c'
      → c'.validity ≡ c.validity
      → IsKept c (signal_changes c')
  unfolding signal_changes
  signal-IsKept c c' s r v = (s, r, inl (ap suc v))

  replace_all-kept :
      (layer : Layer) (vs : Dict Value) (os : Dict ConfigOption) (c : Config)
      → IsInSync c
      → IsRegistered name c
      → IsInSync (replace_all allows print layer vs os c)
        × IsRegistered name (replace_all allows print layer vs os c)
        × ((replace_all allows print layer vs os c).validity ≡ c.validity)
  replace_all-kept layer vs [] c s r = (s, r, refl)
  replace_all-kept layer vs ((key, option) ∷ os) c s r =
      let option' = replaced allows print layer (lookup key vs) option in
      let h =
        replace_all-kept layer vs os (update_option key option' c)
          (update_option-IsInSync key option' c s)
          (update_option-IsRegistered name key option' c r) in
      (h.0, h.1, h.2 ∙ update_option-validity key option' c)

  finish_set-IsKept :
      (key : List ℕ) (option : ConfigOption) (c : Config)
      → IsInSync c
      → IsRegistered name c
      → IsKept c (finish_set key option c).0
  finish_set-IsKept key option c s r =
      signal-IsKept c (update_option key (mark_restart option) c)
        (update_option-IsInSync key (mark_restart option) c s)
        (update_option-IsRegistered name key (mark_restart option) c r)
        (update_option-validity key (mark_restart option) c)

  set_checked-IsKept :
      (layer : Layer) (key : List ℕ) (o : Option ValueCache) (option : ConfigOption) (c : Config)
      → lookup key c.options ≡ some option
      → IsInSync c
      → IsRegistered name c
      → IsKept c (set_checked layer key o option c).0
  unfolding current get_value_cache
  set_checked-IsKept layer key none option c f s r =
      let option' = mark_restart option in
      (
        update_option-IsInSync key option' c s,
        update_option-IsRegistered name key option' c r,
        inr (update_option-validity key option' c, unchanged),
      )
    where
      unchanged :
          current name requested read fallback (update_option key (mark_restart option) c)
          ≡ current name requested read fallback c
      unchanged = ap (or_fallback read fallback) (
          update_option-value requested name key (mark_restart option) option c s f
            (mark_restart-ReadsAlike option))
  set_checked-IsKept layer key (some vc) option c f s r =
      finish_set-IsKept key (set_layer layer (some vc) option) c s r

  set_found-IsKept :
      (layer : Layer) (key : List ℕ) (v : Option Value) (found : Option ConfigOption) (c : Config)
      → lookup key c.options ≡ found
      → IsInSync c
      → IsRegistered name c
      → IsKept c (set_found allows print layer key v found c).0
  set_found-IsKept layer key v none c f s r = (s, r, inr (refl, refl))
  set_found-IsKept layer key none (some option) c f s r =
      finish_set-IsKept key (set_layer layer none option) c s r
  set_found-IsKept layer key (some v) (some option) c f s r =
      set_checked-IsKept layer key (checked allows print option v) option c f s r

  -- A new key: it is neither the one that is read nor the one of the release level.
  fresh-IsKept :
      (key : List ℕ) (option : ConfigOption) (c c' : Config)
      → lookup key c.options ≡ none
      → some (record c { options = insert key option c.options }) ≡ some c'
      → IsInSync c
      → IsRegistered name c
      → IsKept c c'
  unfolding current get_value_cache
  fresh-IsKept key option c c' fresh e s r = rw⁻¹ (some-injective _ _ e) (
    (s.0, lookup-fresh key release_level_key option s.0 c.options fresh s.1 ∙ s.1, s.2),
    (r.0, lookup-fresh key name option r.0 c.options fresh r.1 ∙ r.1),
    inr (
      refl,
      ap (λ o. or_fallback read fallback (value_if_type requested o c.active_release_level))
          (lookup-fresh key name option r.0 c.options fresh r.1),
    ),
  )

  insert_valid-IsKept :
      (key : List ℕ) (o : Option ValueCache) (option : ConfigOption) (c c' : Config)
      → lookup key c.options ≡ none
      → insert_valid key o option c ≡ some c'
      → IsInSync c
      → IsRegistered name c
      → IsKept c c'
  insert_valid-IsKept key none option c c' fresh e s r = absurd (none-ne-some c' e)
  insert_valid-IsKept key (some vc) option c c' fresh e s r =
      fresh-IsKept key (record option { active_fallback_value = some vc }) c c' fresh e s r

  Change-IsKept :
      (c c' : Config) → Change allows print c c' → IsInSync c → IsRegistered name c → IsKept c c'
  unfolding replace_config set_config_option register
  Change-IsKept c _ (Change.replaces layer vs) s r =
      let h = replace_all-kept layer vs c.options c s r in
      signal-IsKept c (replace_all allows print layer vs c.options c) (h.0) (h.1) (h.2)
  Change-IsKept c _ (Change.sets layer key v) s r =
      set_found-IsKept layer key v (lookup key c.options) c refl s r
  Change-IsKept c c' (Change.registers key v option _ fresh _ _ e) s r =
      insert_valid-IsKept key (validate_value allows print option v) option c c' fresh e s r

  abbrev IsFresh : Config → Getter A → Type ℓ
  IsFresh c g =
      (g.valid ≤ c.validity)
      × (g.valid ≡ c.validity → g.value ≡ current name requested read fallback c)

  Change-IsFresh : (c c' : Config) (g : Getter A) → IsFresh c g → IsKept c c' → IsFresh c' g
  Change-IsFresh c c' g (le, h) (s, r, inl e) = (omega (arith, e), λ v. absurd (omega (arith, e)))
  Change-IsFresh c c' g (le, h) (s, r, inr (e, same_value)) =
      (omega (arith, e), λ v. h (v ∙ e) ∙ sym same_value)

  refreshed-IsFresh :
      (c : Config) (g : Getter A)
      → IsFresh c g
      → IsFresh c (refreshed name requested read fallback g c)
  unfolding refreshed get_as
  refreshed-IsFresh c g h = elim (Bool-cases (g.valid == c.validity)) [
    | inl e ↦ rw e h
    | inr e ↦ rw e (omega arith, λ v. refl)
  ]

  pub Use-inv :
      {start c : Config} {g : Getter A}
      → Use allows print name requested read fallback start c g
      → IsInSync start
      → IsRegistered name start
      → IsFresh c g × (IsInSync c × IsRegistered name c)
  unfolding call refreshed get_as
  Use-inv Use.made s r = ((omega arith, λ v. refl), (s, r))
  Use-inv (Use.changed {c = c} {c' = c'} {g = g} u change) s r =
      let h = Use-inv u s r in
      let kept = Change-IsKept c c' change (h.1.0) (h.1.1) in
      (Change-IsFresh c c' g (h.0) kept, (kept.0, kept.1))
  Use-inv (Use.called {c = c} {g = g} u) s r =
      let h = Use-inv u s r in (refreshed-IsFresh c g (h.0), h.1)

  -- From a configuration in which the release level in force is that of its registered option: as
  -- long as no registered key is registered again, and whatever other changes and calls come between, a call of a
  -- function that was made for a registered option gives what a lookup in the configuration gives at the time
  -- of the call.
  pub call-current :
      (start c : Config) (g : Getter A)
      → IsInSync start
      → (option : ConfigOption) → lookup name start.options ≡ some option
      → Use allows print name requested read fallback start c g
      → (call name requested read fallback g c).0 ≡ current name requested read fallback c
  unfolding call refreshed get_as
  call-current start c g s option registered u = elim (Bool-cases (g.valid == c.validity)) [
    | inl e ↦ rw e ((Use-inv u s (option, registered)).0.1 ((==_iff _ _).0 e))
    | inr e ↦ rw e refl
  ]
