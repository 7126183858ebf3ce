-- ===== src/Demo/Process/Revive.antt =====
-- A tick of the scheduler of BIOS/sw/process_manager.cpp: whom it runs, and who gives way.
use team_os_3_0_baios.Base.{
  ℕ, suc, ◌≤◌, ◌<◌, ◌≡◌, ◌≢◌, ◌∙◌, inl, inr, refl, sym, ap, subst, Option, none, some, true, false,
  ◌==◌, if◌then◌else◌, arith, length, length-set, get_or-set_self, get_or-set_ne, Bool-cases,
  ℕ_discrete,
}
use mathlib.Core.Option
use team_os_3_0_baios.Demo.Error.{ok}
use team_os_3_0_baios.Demo.Process.{
  Sw, Proc, ProcState, zero_proc, ready, running, terminated, proc_at, set_state, get, kill,
}
use team_os_3_0_baios.Demo.Process.Schedule.{
  is_runnable, start_of, scan, give_way, switch_to, tick_from, tick,
}
use team_os_3_0_baios.Demo.Process.Live.{
  IsLinked, IsRunnable, IsIdle, Picked, IsAfter-eq, scan-Picked, left,
}

true-false : true ≡ false → ⊥
true-false e = cc

-- A process after a write to the state of one.
proc_at-set_state :
    (s : Sw) (i j : ℕ) (st : ProcState)
    → i < length s.pool
    → proc_at (set_state s i st) j
      ≡ (if i == j then record (proc_at s i) { state = st } else proc_at s j)
proc_at-set_state s i j st range =
    let p : Proc = record (proc_at s i) { state = st } in
    ground (arith, get_or-set_self s.pool i p zero_proc range, get_or-set_ne s.pool i j p zero_proc)

next-set_state :
    (s : Sw) (i j : ℕ) (st : ProcState)
    → i < length s.pool
    → (proc_at (set_state s i st) j).next ≡ (proc_at s j).next
next-set_state s i j st range = elim (ℕ_discrete i j) [
  | yes e ↦ ground (arith, proc_at-set_state s i j st range)
  | no ne ↦ ground (arith, proc_at-set_state s i j st range)
]

set_state-IsLinked :
    {n : ℕ} {s : Sw} (i : ℕ) (st : ProcState) → IsLinked n s → i < n → IsLinked n (set_state s i st)
set_state-IsLinked {n} {s} i st l h =
    let range : i < length s.pool = omega (arith, l.sized) in
    record {
      sized = omega (arith, length-set s.pool i (record (proc_at s i) { state = st }), l.sized);
      list = l.list;
      links = λ j k. next-set_state s i j st range ∙ l.links j k;
      current_in = l.current_in;
    }

give_way-IsLinked :
    {n : ℕ} {s : Sw} (c : Option ℕ) (p : ℕ)
    → s.current ≡ c
    → IsLinked n s
    → IsLinked n (give_way s c p)
give_way-IsLinked none p e l = l
give_way-IsLinked {s = s} (some c) p e l = elim (Bool-cases (c == p)) [
  | inl y ↦ rw y l
  | inr n ↦ rw n (set_state-IsLinked c ready l (l.current_in c e))
]

-- The process picked becomes the current one.
abbrev now_current : Sw → ℕ → Sw
now_current s p = record (give_way s s.current p) { current = some p }

now_current-IsLinked :
    {n : ℕ} {s : Sw} (p : ℕ) → IsLinked n s → p < n → IsLinked n (now_current s p)
now_current-IsLinked {n} {s} p l h =
    let l' = give_way-IsLinked s.current p refl l in
    record {
      sized = l'.sized;
      list = l'.list;
      links = l'.links;
      current_in = λ c e. let same : p ≡ c = ground arith in subst (λ k. k < n) same h;
    }

-- What a tick comes to, with `n` processes: it runs one that can run, or changes nothing where none
-- can.
pub data Ticked (n : ℕ) (s : Sw) (out : Option Sw) : Type 0 where
  runs :
      (p : ℕ) (s' : Sw)
      → p < n
      → IsRunnable s p
      → out ≡ some s'
      → s' ≡ switch_to s (some p)
      → s'.current ≡ some p
      → (proc_at s' p).state ≡ running
      → IsLinked n s'
      → Ticked n s out
  rests : out ≡ some s → ((i : ℕ) → i < n → IsIdle s i) → Ticked n s out

start_of-range :
    {m : ℕ} {s : Sw} (c : Option ℕ) → IsLinked (suc m) s → s.current ≡ c → start_of s c m ≤ m
start_of-range none l e = omega arith
start_of-range {m} {s} (some c) l e =
    let (q, same, after) = IsAfter-eq m c l (l.current_in c e) in
    let low = l.current_in c e in rw same (ground arith)

switched-Ticked :
    {m : ℕ} {s : Sw} (o : Option (Option ℕ))
    → IsLinked (suc m) s
    → Picked s (suc m) o
    → Ticked (suc m) s (Option.map (switch_to s) o)
switched-Ticked none l h = elim h [ ]
switched-Ticked (some none) l h = rests refl h
switched-Ticked {m} {s} (some (some p)) l h =
    let l' = now_current-IsLinked p l h.0 in
    let range : p < length (now_current s p).pool = omega (arith, l'.sized, h.0) in
    let self : proc_at (switch_to s (some p)) p
        ≡ record (proc_at (now_current s p) p) { state = running } =
      get_or-set_self (now_current s p).pool p
        (record (proc_at (now_current s p) p) { state = running }) zero_proc range in
    runs p (switch_to s (some p)) h.0 h.1 refl refl refl (ap (λ (x : Proc). x.state) self)
      (set_state-IsLinked p running l' h.0)

-- With at least one process, all linked in the order in which they were created, a tick with as
-- much fuel as there are processes ends: it makes a process that can run the current one, running,
-- and keeps the list, or, where no process can run, it changes nothing.
pub tick-Ticked : {m : ℕ} {s : Sw} → IsLinked (suc m) s → Ticked (suc m) s (tick (suc m) s)
unfolding tick
tick-Ticked {m} {s} l =
    let start = start_of s s.current m in
    let low = start_of-range s.current l refl in
    let steps : left (suc m) start start ≤ suc m = ground arith in
    subst (λ o. Ticked (suc m) s (tick_from (suc m) s o)) (sym l.list)
      (switched-Ticked (scan (suc m) s m start start) l
        (scan-Picked (suc m) m start start l low low steps (λ i h w. absurd (ground arith))))

kill-eq :
    (s : Sw) (pid signal c : ℕ)
    → get s pid ≡ some c
    → kill s pid signal ≡ (ok, set_state s c terminated)
unfolding kill
kill-eq s pid signal c e = rw e refl

-- The state of a current process that gives way.
switch_to-gives :
    {n : ℕ} {s : Sw} (c p : ℕ)
    → IsLinked n s
    → s.current ≡ some c
    → c < n
    → p < n
    → c ≢ p
    → (proc_at (switch_to s (some p)) c).state ≡ ready
switch_to-gives {n} {s} c p l e low low' ne =
    let other : (c == p) ≡ false = ground arith in
    let l' = now_current-IsLinked p l low' in
    let range : c < length s.pool = omega (arith, l.sized) in
    let range' : p < length (now_current s p).pool = omega (arith, l'.sized) in
    let gone : give_way s s.current p ≡ set_state s c ready =
      subst (λ o. give_way s o p ≡ set_state s c ready) (sym e) (rw other refl) in
    let kept =
      get_or-set_ne (now_current s p).pool p c
        (record (proc_at (now_current s p) p) { state = running }) zero_proc (λ x. ne (sym x)) in
    let self = get_or-set_self s.pool c (record (proc_at s c) { state = ready }) zero_proc range in
    ap (λ (x : Proc). x.state) kept
    ∙ ap (λ (x : Sw). (proc_at x c).state) gone
    ∙ ap (λ (x : Proc). x.state) self

-- With the processes linked in the order in which they were created: once the current process has
-- been killed, while another of them can run, the next tick ends, runs another process, and leaves
-- the killed one ready to run.
pub tick-kill :
    {m : ℕ} {s : Sw} (pid signal c j : ℕ)
    → IsLinked (suc m) s
    → s.current ≡ some c
    → get s pid ≡ some c
    → j < suc m
    → j ≢ c
    → IsRunnable s j
    → let (st, s1) = kill s pid signal in
      (st ≡ ok)
      × ((proc_at s1 c).state ≡ terminated)
      × ((s2 : Sw) × (tick (suc m) s1 ≡ some s2)
          × (s2.current ≢ some c)
          × ((proc_at s2 c).state ≡ ready))
tick-kill {m} {s} pid signal c j l cur found low ne can =
    let at = l.current_in c cur in
    let s1 = set_state s c terminated in
    let l1 = set_state-IsLinked c terminated l at in
    let range : c < length s.pool = omega (arith, l.sized) in
    let dead : (proc_at s1 c).state ≡ terminated =
      ap (λ (x : Proc). x.state)
        (get_or-set_self s.pool c (record (proc_at s c) { state = terminated }) zero_proc range) in
    let same_j : proc_at s1 j ≡ proc_at s j =
      get_or-set_ne s.pool c j (record (proc_at s c) { state = terminated }) zero_proc
        (λ e. ne (sym e)) in
    let can1 : IsRunnable s1 j = ap (λ (x : Proc). is_runnable x.state) same_j ∙ can in
    rw (kill-eq s pid signal c found) (
      refl,
      dead,
      elim (tick-Ticked l1) [
        | rests e idle ↦ absurd (true-false (sym can1 ∙ idle j low))
        | runs p s2 h r e sw now up l2 ↦
            let differ : c ≢ p = λ x.
              true-false (
                sym r ∙ ap (λ k. is_runnable (proc_at s1 k).state) (sym x) ∙ ap is_runnable dead) in
            (
              s2,
              e,
              λ x. differ (ground (arith, now)),
              ap (λ (x : Sw). (proc_at x c).state) sw ∙ switch_to-gives c p l1 cur at h differ,
            )
      ],
    )
