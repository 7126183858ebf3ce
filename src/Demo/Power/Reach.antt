-- ===== src/Demo/Power/Reach.antt =====
-- The power states as a step relation: what the machine reaches, and what only a set brings back.
use team_os_3_0_baios.Base.{ℕ, ◌≡◌, ◌∙◌, refl, sym, subst, arith}
use team_os_3_0_baios.Demo.Power.{
  Power, PowerState, on, idle, suspend, hibernate, power_off, other, set_state,
  register_wake_source, enter_idle, wake, idle_from, wake_from,
}

-- One call of the file, with any arguments.
pub data Step : Power → Power → Type 0 where
  sets : (p : Power) (state : PowerState) → Step p (set_state p state).1
  registers : (p : Power) (irq : ℕ) → Step p (register_wake_source p irq).1
  idles : (p : Power) → Step p (enter_idle p)
  wakes : (p : Power) → Step p (wake p)

-- A call that is not `hw_power_set_state`.
abbrev pub IsQuiet : {p q : Power} → Step p q → Type 0
IsQuiet (sets p state) = ⊥
IsQuiet (registers p irq) = Unit {0}
IsQuiet (idles p) = Unit {0}
IsQuiet (wakes p) = Unit {0}

pub data Reach (p : Power) : Power → Type 0 where
  here : Reach p p
  next : {q r : Power} → Reach p q → Step q r → Reach p r

abbrev pub AllQuiet : {p q : Power} → Reach p q → Type 0
AllQuiet here = Unit {0}
AllQuiet (next r st) = AllQuiet r × IsQuiet st

-- The state is one that the code names.
abbrev pub IsNamed : PowerState → Type 0
IsNamed (other n) = ⊥
IsNamed on = Unit {0}
IsNamed idle = Unit {0}
IsNamed suspend = Unit {0}
IsNamed hibernate = Unit {0}
IsNamed power_off = Unit {0}

-- Hibernation, or switched off.
abbrev pub IsDeep : PowerState → Type 0
IsDeep (other n) = ⊥
IsDeep on = ⊥
IsDeep idle = ⊥
IsDeep suspend = ⊥
IsDeep hibernate = Unit {0}
IsDeep power_off = Unit {0}

set_state-IsNamed :
    (p : Power) (state : PowerState) → IsNamed p.state → IsNamed (set_state p state).1.state
unfolding set_state
set_state-IsNamed p on h = tt
set_state-IsNamed p idle h = tt
set_state-IsNamed p suspend h = tt
set_state-IsNamed p hibernate h = tt
set_state-IsNamed p power_off h = tt
set_state-IsNamed p (other n) h = h

idle_from-IsNamed : (state : PowerState) → IsNamed state → IsNamed (idle_from state)
idle_from-IsNamed (other _) h = elim h [ ]
idle_from-IsNamed on h = tt
idle_from-IsNamed idle h = tt
idle_from-IsNamed suspend h = tt
idle_from-IsNamed hibernate h = tt
idle_from-IsNamed power_off h = tt

wake_from-IsNamed : (state : PowerState) → IsNamed state → IsNamed (wake_from state)
wake_from-IsNamed (other _) h = elim h [ ]
wake_from-IsNamed on h = tt
wake_from-IsNamed idle h = tt
wake_from-IsNamed suspend h = tt
wake_from-IsNamed hibernate h = tt
wake_from-IsNamed power_off h = tt

register_wake_source-state : (p : Power) (irq : ℕ) → (register_wake_source p irq).1.state ≡ p.state
unfolding register_wake_source
register_wake_source-state p irq = ground arith

Step-IsNamed : {p q : Power} → Step p q → IsNamed p.state → IsNamed q.state
unfolding enter_idle wake
Step-IsNamed (sets p state) h = set_state-IsNamed p state h
Step-IsNamed (registers p irq) h = subst IsNamed (sym (register_wake_source-state p irq)) h
Step-IsNamed (idles p) h = idle_from-IsNamed p.state h
Step-IsNamed (wakes p) h = wake_from-IsNamed p.state h

idle_from-deep : (state : PowerState) → IsDeep state → idle_from state ≡ state
idle_from-deep on h = elim h [ ]
idle_from-deep idle h = elim h [ ]
idle_from-deep suspend h = elim h [ ]
idle_from-deep (other _) h = elim h [ ]
idle_from-deep hibernate h = refl
idle_from-deep power_off h = refl

wake_from-deep : (state : PowerState) → IsDeep state → wake_from state ≡ state
wake_from-deep on h = elim h [ ]
wake_from-deep idle h = elim h [ ]
wake_from-deep suspend h = elim h [ ]
wake_from-deep (other _) h = elim h [ ]
wake_from-deep hibernate h = refl
wake_from-deep power_off h = refl

Step-deep : {p q : Power} (st : Step p q) → IsQuiet st → IsDeep p.state → q.state ≡ p.state
unfolding enter_idle wake
Step-deep (sets _ state) u h = elim u [ ]
Step-deep (registers p irq) u h = register_wake_source-state p irq
Step-deep (idles p) u h = idle_from-deep p.state h
Step-deep (wakes p) u h = wake_from-deep p.state h

-- Every state that calls reach from a state that the code names is one that it names.
pub Reach-IsNamed : {p q : Power} → IsNamed p.state → Reach p q → IsNamed q.state
Reach-IsNamed h here = h
Reach-IsNamed h (next r st) = Step-IsNamed st (Reach-IsNamed h r)

-- From hibernation or from off, calls other than `hw_power_set_state` leave the power state as it
-- is, wakes included, whatever wake sources are registered.
pub Reach-deep : {p q : Power} (r : Reach p q) → AllQuiet r → IsDeep p.state → q.state ≡ p.state
Reach-deep here u h = refl
Reach-deep (next r st) u h =
    let same = Reach-deep r u.0 h in Step-deep st u.1 (subst IsDeep (sym same) h) ∙ same
