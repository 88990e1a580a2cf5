-- ===== src/Database/Controller/Permission.antt =====
-- What the subscribers of a controller are told.
use portbase.Prelude.{
  ◌≡◌, ◌≤◌, refl, List, [], ◌∷◌, ◌++◌, Bool, true, false, ◌&&◌, ok, bind_inv, ok_inv, err-≢, ltb,
  length, length-append, All, if◌then◌else◌, if_inv, inl, inr, arith,
}
use mathlib.Core.Path.{subst}
use portbase.Record.Meta.{check_permission}
use portbase.Database.{Entry, Storage, Subscription}
use portbase.Database.Controller.{
  Controller, deliver, deliver_all, notify_subscribers, push_update, add_subscription, put,
  put_hooked, run_pre_put_hooks, is_read_only, store_or_delete, deletes_now,
}

-- Every record in a feed is one that the subscriber may see and has asked for, and the feed has room for 1000.
abbrev pub IsFair : Subscription → Type 0
IsFair sub =
    All
      (λ (r : Entry).
        (check_permission sub.local sub.internal r.base.meta ≡ true) × (sub.wants r ≡ true))
      sub.feed
    × (length sub.feed ≤ 1000)

abbrev pub AreFair : {S : Type 0} → Controller S → Type 0
AreFair c = All IsFair c.subscriptions

All-append_one {ℓ κ} :
    {A : Type ℓ} (P : A → Type κ) (xs : List A) (a : A) → All P xs → P a → All P (xs ++ (a ∷ []))
All-append_one P [] a h p = (p, tt)
All-append_one P (x ∷ xs) a (px, h) p = (px, All-append_one P xs a h p)

deliver-IsFair : (r : Entry) (sub : Subscription) → IsFair sub → IsFair (deliver r sub)
deliver-IsFair r sub fair =
    wanted (check_permission sub.local sub.internal r.base.meta) (sub.wants r) refl refl
  where
    with_room :
        (b : Bool)
        → ltb (length sub.feed) 1000 ≡ b
        → check_permission sub.local sub.internal r.base.meta ≡ true
        → sub.wants r ≡ true
        → IsFair (if b then record sub { feed = sub.feed ++ (r ∷ []) } else sub)
    with_room true room permitted wants = (
      All-append_one _ sub.feed r (fair.0) (permitted, wants),
      ground (arith, length-append sub.feed (r ∷ []), room),
    )
    with_room false room permitted wants = fair

    wanted :
        (p w : Bool)
        → check_permission sub.local sub.internal r.base.meta ≡ p
        → sub.wants r ≡ w
        → IsFair (
            if p && w
            then (if ltb (length sub.feed) 1000
                then record sub { feed = sub.feed ++ (r ∷ []) }
                else sub)
            else sub)
    wanted true true permitted wants = with_room (ltb (length sub.feed) 1000) refl permitted wants
    wanted true false permitted wants = fair
    wanted false w permitted wants = fair

deliver_all-AreFair :
    (r : Entry) (subs : List Subscription) → All IsFair subs → All IsFair (deliver_all r subs)
deliver_all-AreFair r [] h = tt
deliver_all-AreFair r (sub ∷ subs) (fair, h) =
    (deliver-IsFair r sub fair, deliver_all-AreFair r subs h)

module _ {S : Type 0} (storage : Storage S) where
  -- What a controller does to what subscribers see. A new subscription has an empty feed, and a
  -- subscriber takes the oldest record from its feed.
  pub data Step (c : Controller S) : Controller S → Type 0 where
    puts : (r : Entry) (c' : Controller S) → put storage r c ≡ ok c' → Step c c'
    pushes : (r : Entry) → Step c (push_update r c)
    subscribes : (sub : Subscription) → sub.feed ≡ [] → Step c (add_subscription sub c)
    takes :
        (before after : List Subscription) (sub : Subscription) (r : Entry) (rest : List Entry)
        → c.subscriptions ≡ before ++ (sub ∷ after)
        → sub.feed ≡ r ∷ rest
        → Step c (record c { subscriptions = before ++ (record sub { feed = rest } ∷ after) })

  pub data Reaches (start : Controller S) : Controller S → Type 0 where
    here : Reaches start start
    then : {c c' : Controller S} → Reaches start c → Step c c' → Reaches start c'

  put_hooked-AreFair :
      (r : Entry) (c c' : Controller S) → put_hooked storage r c ≡ ok c' → AreFair c → AreFair c'
  unfolding notify_subscribers
  put_hooked-AreFair r c c' e fair =
      let decided = bind_inv _ (deletes_now storage c.shadow_delete r.base.meta) e in
      let stored = bind_inv _ (store_or_delete storage (decided.0) r c.store) (decided.2) in
      rw⁻¹ (ok_inv (stored.2)) (deliver_all-AreFair (stored.0.0) c.subscriptions fair)

  put-AreFair : (r : Entry) (c c' : Controller S) → put storage r c ≡ ok c' → AreFair c → AreFair c'
  unfolding put
  put-AreFair r c c' e fair = elim (if_inv c.is_shutting_down e) [
    | inl (_, refused) ↦ absurd (err-≢ refused)
    | inr (_, running) ↦ elim (if_inv (is_read_only storage c) running) [
      | inl (_, refused) ↦ absurd (err-≢ refused)
      | inr (_, written) ↦
          let hooked = bind_inv _ (run_pre_put_hooks c.hooks r) written in
          put_hooked-AreFair (hooked.0) c c' (hooked.2) fair
    ]
  ]

  push_update-AreFair : (r : Entry) (c : Controller S) → AreFair c → AreFair (push_update r c)
  unfolding push_update notify_subscribers
  push_update-AreFair r c fair = pushed c.is_shutting_down
    where
      pushed :
          (b : Bool)
          → AreFair (if b then c else record c { subscriptions = deliver_all r c.subscriptions })
      pushed true = fair
      pushed false = deliver_all-AreFair r c.subscriptions fair

  add_subscription-AreFair :
      (sub : Subscription) (c : Controller S)
      → sub.feed ≡ []
      → AreFair c
      → AreFair (add_subscription sub c)
  unfolding add_subscription
  add_subscription-AreFair sub c empty fair = added c.is_shutting_down
    where
      added :
          (b : Bool)
          → AreFair (if b then c else record c { subscriptions = c.subscriptions ++ (sub ∷ []) })
      added true = fair
      added false = All-append_one IsFair c.subscriptions sub fair (rw empty (tt, omega arith))

  takes-AreFair :
      (before after : List Subscription) (sub : Subscription) (r : Entry) (rest : List Entry)
      → sub.feed ≡ r ∷ rest
      → All IsFair (before ++ (sub ∷ after))
      → All IsFair (before ++ (record sub { feed = rest } ∷ after))
  takes-AreFair [] after sub r rest e (fair, h) =
      (((subst (All _) e (fair.0)).1, omega (arith, subst (λ l. length l ≤ 1000) e (fair.1))), h)
  takes-AreFair (s ∷ before) after sub r rest e (fair, h) =
      (fair, takes-AreFair before after sub r rest e h)

  Step-AreFair : (c c' : Controller S) → Step c c' → AreFair c → AreFair c'
  Step-AreFair c c' (Step.puts r _ e) fair = put-AreFair r c c' e fair
  Step-AreFair c _ (Step.pushes r) fair = push_update-AreFair r c fair
  Step-AreFair c _ (Step.subscribes sub empty) fair = add_subscription-AreFair sub c empty fair
  Step-AreFair c _ (Step.takes before after sub r rest has e) fair =
      takes-AreFair before after sub r rest e (rw⁻¹ has fair)

  -- From a controller whose feeds are fair, for instance one without subscriptions, every controller
  -- that is reached has fair feeds: a subscriber is only sent records that its flags permit it to see
  -- and that its query matches, and no feed holds more than 1000.
  pub Reaches-AreFair : {start c : Controller S} → AreFair start → Reaches start c → AreFair c
  Reaches-AreFair fair Reaches.here = fair
  Reaches-AreFair fair (Reaches.then {c = c} {c' = c'} before step) =
      Step-AreFair c c' step (Reaches-AreFair fair before)
