-- ===== src/Modules/Starting.antt =====
-- modules/modules.go: the channel of startComplete under the steps of the module system.
use mathlib.Core.Bool.{false≢true}
use mathlib.Core.Option.{some-injective, none-ne-some}
use mathlib.Core.Path.{subst}
use portbase.Prelude.{
  ℕ, ◌≡◌, refl, sym, ◌∙◌, Bool, true, false, Option, none, some, ◌==◌, if◌then◌else◌, arith, ==_iff,
  if_inv, inl, inr,
}
use portbase.Modules.{
  System, Module, Failure, Ready, ready, waiting, nothing_to_do, write, ready_to_prep,
  ready_to_start, ready_to_stop, status_starting, status_online,
}
use portbase.Modules.Status.{
  set_failure, prep, prepped, start, started, stop, stop_all_tasks, stopped,
}
use portbase.Modules.Steps.{
  if_ready, write_if, visit_prep, visit_start, visit_stop, Step, visits_prep, visits_start,
  visits_stop, preps, starts, stopping, stops, checks, closes, counts, enables, fails, resolves,
  builds_tree, manages, shuts_down, Reach, here, next,
}
use portbase.Modules.Safety.Writes.{Same, Alike}
use portbase.Modules.Safety.Flags.{
  unless_inv, set_failure-Alike, resolve-Alike, check_if_stop_complete-Alike,
  close_stop_complete-Alike, build_enabled_tree-Same,
}

-- Only an online module has the channel closed.
abbrev pub IsOpen : Module → Type 0
IsOpen m = m.start_complete ≡ true → m.status ≡ 5

abbrev pub AreOpen : System → Type 0
AreOpen s = (i : ℕ) → IsOpen (s.entry i)

Alike-IsOpen : {m m' : Module} → Alike m m' → IsOpen m → IsOpen m'
Alike-IsOpen a h e = a.status ∙ h (sym a.ready ∙ e)

Same-AreOpen : {s t : System} → Same s t → AreOpen s → AreOpen t
Same-AreOpen p h i e = p.status i ∙ h i (sym (p.ready i) ∙ e)

if-IsOpen : (b : Bool) (m k : Module) → IsOpen m → IsOpen k → IsOpen (if b then m else k)
if-IsOpen true m k p q = p
if-IsOpen false m k p q = q

write-AreOpen : (s : System) (i : ℕ) (m : Module) → AreOpen s → IsOpen m → AreOpen (write s i m)
write-AreOpen s i m h new j = if-IsOpen (j == i) m (s.entry j) new (h j)

visit-AreOpen :
    (s : System) (i : ℕ) (r : Ready) (o : Option Module)
    → AreOpen s
    → ((m : Module) → o ≡ some m → IsOpen m)
    → AreOpen (if_ready r s (write_if s i o))
visit-AreOpen s i ready none h new = h
visit-AreOpen s i ready (some m) h new = write-AreOpen s i m h (new m refl)
visit-AreOpen s i waiting o h new = h
visit-AreOpen s i nothing_to_do o h new = h

-- What is written behind a test of the status.
if_status :
    (m x m' : Module) (status : ℕ)
    → (m.status ≡ status → IsOpen x)
    → (if m.status == status then some x else none) ≡ some m'
    → IsOpen m'
if_status m x m' status h e = elim (if_inv (m.status == status) e) [
  | inl (is, written) ↦ subst IsOpen (some-injective x m' written) (h ((==_iff _ _).0 is))
  | inr (_, nothing) ↦ absurd (none-ne-some m' nothing)
]

prep-IsOpen : (m m' : Module) → IsOpen m → prep m ≡ some m' → IsOpen m'
unfolding prep
prep-IsOpen m m' h e = if_status m _ m' 0 (λ dead closed. absurd (omega (arith, dead, h closed))) e

start-IsOpen : (m m' : Module) → IsOpen m → start m ≡ some m' → IsOpen m'
unfolding start
start-IsOpen m m' h e =
    if_status m _ m' 2 (λ offline closed. absurd (omega (arith, offline, h closed))) e

stop-IsOpen : (m m' : Module) → stop m ≡ some m' → IsOpen m'
unfolding stop
stop-IsOpen m m' e = if_status m _ m' 5 (λ online closed. absurd (false≢true closed)) e

prepped-IsOpen : (f : Option Failure) (m : Module) → m.status ≡ 1 → IsOpen m → IsOpen (prepped f m)
unfolding prepped
prepped-IsOpen (some f) m e h = Alike-IsOpen (set_failure-Alike f m) h
prepped-IsOpen none m e h = λ closed. absurd (omega (arith, e, h closed))

started-IsOpen : (f : Option Failure) (m m' : Module) → IsOpen m → started f m ≡ some m' → IsOpen m'
unfolding started
started-IsOpen (some f) m m' h e =
    subst IsOpen (some-injective _ m' e) (Alike-IsOpen (set_failure-Alike f m) h)
started-IsOpen none m m' h e = subst IsOpen (unless_inv m.start_complete _ m' e) (λ closed. refl)

stopped-IsOpen : (f : Option Failure) (m : Module) → m.status ≡ 3 → IsOpen m → IsOpen (stopped f m)
unfolding stopped
stopped-IsOpen (some f) m e h =
    let kept = set_failure-Alike f m in
    Alike-IsOpen (resolve-Alike "" (record (set_failure f m) { status = 2 }))
      (λ closed. absurd (omega (arith, e, h (sym kept.ready ∙ closed))))
stopped-IsOpen none m e h =
    Alike-IsOpen (resolve-Alike "" (record m { status = 2 }))
      (λ closed. absurd (omega (arith, e, h closed)))

Step-AreOpen : {s t : System} → Step s t → AreOpen s → AreOpen t
unfolding stop_all_tasks visit_prep visit_start visit_stop
Step-AreOpen {s} (visits_prep i) h =
    visit-AreOpen s i (ready_to_prep s i) _ h (λ m e. prep-IsOpen (s.entry i) m (h i) e)
Step-AreOpen {s} (visits_start i) h =
    visit-AreOpen s i (ready_to_start s i) _ h (λ m e. start-IsOpen (s.entry i) m (h i) e)
Step-AreOpen {s} (visits_stop i) h =
    visit-AreOpen s i (ready_to_stop s i) _ h (λ m e. stop-IsOpen (s.entry i) m e)
Step-AreOpen {s} (preps i f e) h = write-AreOpen s i _ h (prepped-IsOpen f (s.entry i) e (h i))
Step-AreOpen {s} (starts i f m e is) h =
    write-AreOpen s i m h (started-IsOpen f (s.entry i) m (h i) is)
Step-AreOpen {s} (stopping i) h = write-AreOpen s i _ h (h i)
Step-AreOpen {s} (stops i f e) h = write-AreOpen s i _ h (stopped-IsOpen f (s.entry i) e (h i))
Step-AreOpen {s} (checks i) h =
    write-AreOpen s i _ h (Alike-IsOpen (check_if_stop_complete-Alike (s.entry i)) (h i))
Step-AreOpen {s} (closes i m pending is) h =
    write-AreOpen s i m h (Alike-IsOpen (close_stop_complete-Alike (s.entry i) m is) (h i))
Step-AreOpen {s} (counts i r w t k) h = write-AreOpen s i _ h (h i)
Step-AreOpen {s} (enables i on) h = write-AreOpen s i _ h (h i)
Step-AreOpen {s} (fails i f) h =
    write-AreOpen s i _ h (Alike-IsOpen (set_failure-Alike f (s.entry i)) (h i))
Step-AreOpen {s} (resolves i id) h =
    write-AreOpen s i _ h (Alike-IsOpen (resolve-Alike id (s.entry i)) (h i))
Step-AreOpen {s} builds_tree h = Same-AreOpen (build_enabled_tree-Same s) h
Step-AreOpen {s} (manages on) h = h
Step-AreOpen {s} shuts_down h = h

Reach-AreOpen : {s t : System} → Reach s t → AreOpen s → AreOpen t
Reach-AreOpen here h = h
Reach-AreOpen (next before step) h = Step-AreOpen step (Reach-AreOpen before h)

-- The status behind the start function, where `some` is its error.
abbrev pub status_behind : Option Failure → ℕ
status_behind (some f) = status_starting
status_behind none = status_online

-- From a system in which only online modules have their channel of startComplete closed, as none has at first, no order
-- of steps leads to one in which the end of the start function of a module that is starting panics
-- by closing a closed channel: it leaves the module online or, behind an error, starting.
pub Reach-starts_once :
    {s t : System} (i : ℕ) (f : Option Failure)
    → AreOpen s
    → Reach s t
    → (t.entry i).status ≡ 4
    → (m' : Module) × (started f (t.entry i) ≡ some m') × (m'.status ≡ status_behind f)
unfolding started
Reach-starts_once {s} {t} i (some f) h steps e =
    let kept = set_failure-Alike f (t.entry i) in (set_failure f (t.entry i), refl, kept.status ∙ e)
Reach-starts_once {s} {t} i none h steps e = (
  _,
  unless_open (t.entry i).start_complete _
      (λ closed. let online = Reach-AreOpen steps h i closed in absurd (omega (arith, e, online))),
  refl,
)
  where
    unless_open : (b : Bool) (x : Module) → (b ≡ true → ⊥) → (if b then none else some x) ≡ some x
    unless_open true x never = absurd (never refl)
    unless_open false x never = refl
