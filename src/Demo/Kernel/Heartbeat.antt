-- ===== src/Demo/Kernel/Heartbeat.antt =====
-- The heartbeat of BIOS/hw/main.c: its ticks, its loop, and its start.
use team_os_3_0_baios.Base.{
  ℕ, zero, suc, ◌+◌, ◌*◌, ◌^◌, ◌<◌, ◌≡◌, ◌∙◌, refl, sym, ap, subst, List, Option, none, some, true,
  false, not, ◌||◌, leb, if◌then◌else◌, arith, length-set, get_or-set_self, u64,
}
use mathlib.Core.Option
use team_os_3_0_baios.Types.{max_irq}
use team_os_3_0_baios.Demo.Irq.{
  IrqTable, IrqDesc, Invocation, zero_desc, irq_timer, desc_at, fire, dispatch,
}
use team_os_3_0_baios.Demo.Irq.Laws.{IsValid}
use team_os_3_0_baios.Demo.Softirq.{Softirqs, Item}
use team_os_3_0_baios.Demo.Softirq.Refine.{process_end}
use team_os_3_0_baios.Demo.Channel.{Env}
use team_os_3_0_baios.Demo.Kernel.{
  Kernel, timer_handler, beat, run_softirqs, run_call, tick, poll, rest_of_round, round,
  rounds_from, main_loop,
}

-- The kernel is up, its timer is registered and enabled, and no softirq waits.
pub record IsTicking (k : Kernel) : Type 0 where
  pub is_up : k.hw.initialized ≡ true
  pub table : IsValid k.irqs
  pub timer : (desc_at k.irqs irq_timer).handler ≡ some timer_handler
  pub on : (desc_at k.irqs irq_timer).enabled ≡ true
  pub idle : k.softirqs.tail ≡ k.softirqs.head

dispatch-fire :
    (s : IrqTable) (irq h : ℕ)
    → irq < max_irq
    → (desc_at s irq).handler ≡ some h
    → (desc_at s irq).enabled ≡ true
    → dispatch s irq ≡ fire s irq (some h)
unfolding dispatch
dispatch-fire s irq h range reg on =
    let quiet : (leb max_irq irq || not (desc_at s irq).enabled) ≡ false = ground arith in
    subst
      (λ o.
        (if leb max_irq irq || not (desc_at s irq).enabled then (s, none) else fire s irq o)
        ≡ fire s irq (some h))
      (sym reg) (rw quiet refl)

-- The kernel after one tick.
abbrev ticked : Kernel → Kernel
ticked k = beat (record (beat k) { irqs = (fire k.irqs irq_timer (some timer_handler)).0 })

ticked-IsTicking : {k : Kernel} → IsTicking k → IsTicking (ticked k)
ticked-IsTicking {k} t =
    let d : IrqDesc = record (desc_at k.irqs irq_timer) {
      count = u64 ((desc_at k.irqs irq_timer).count + 1);
    } in
    let self : desc_at (ticked k).irqs irq_timer ≡ d =
      get_or-set_self k.irqs.table irq_timer d zero_desc (omega (arith, t.table.sized)) in
    record {
      is_up = t.is_up;
      table = record {
        is_up = t.table.is_up;
        sized = length-set k.irqs.table irq_timer d ∙ t.table.sized;
      };
      timer = ap (λ (x : IrqDesc). x.handler) self ∙ t.timer;
      on = ap (λ (x : IrqDesc). x.enabled) self ∙ t.on;
      idle = t.idle;
    }

module _ (raises : Item → List Item) (run_other : Invocation → Kernel → Kernel) where
  idle_softirqs :
      (fuel : ℕ) (k : Kernel)
      → k.softirqs.tail ≡ k.softirqs.head
      → run_softirqs raises run_other (suc fuel) k ≡ some k
  idle_softirqs fuel k e =
      ap (Option.map (λ (r : List Item × Softirqs). record k { softirqs = r.1 }))
        (process_end raises fuel k.softirqs e)

  tick-eq :
      (fuel : ℕ) (k : Kernel) → IsTicking k → tick raises run_other (suc fuel) k ≡ some (ticked k)
  unfolding tick
  tick-eq fuel k t =
      let fired = dispatch-fire k.irqs irq_timer timer_handler (omega arith) t.timer t.on in
      subst
        (λ b.
          (if b
            then run_call raises run_other (suc fuel)
                (record (beat k) { irqs = (dispatch k.irqs irq_timer).0 })
                (dispatch k.irqs irq_timer).1
            else some k)
          ≡ some (ticked k))
        (sym t.is_up)
        (subst
          (λ (o : IrqTable × Option Invocation).
            run_call raises run_other (suc fuel) (record (beat k) { irqs = o.0 }) o.1
            ≡ some (ticked k))
          (sym fired) (idle_softirqs fuel (ticked k) t.idle))

  -- The kernel after one round.
  abbrev rounded : Env → Kernel → Kernel
  rounded env k = poll raises run_other env (ticked k)

  round-eq :
      (env : Env) (fuel : ℕ) (k : Kernel)
      → IsTicking k
      → round raises run_other env (suc fuel) k ≡ some (rounded env k)
  unfolding round
  round-eq env fuel k t =
      ap (rest_of_round raises run_other env (suc fuel)) (tick-eq fuel k t)
      ∙ ap (Option.map (poll raises run_other env)) (idle_softirqs fuel (ticked k) t.idle)

  poll-IsTicking : (env : Env) {k : Kernel} → IsTicking k → IsTicking (poll raises run_other env k)
  poll-IsTicking env t = record {
    is_up = t.is_up;
    table = t.table;
    timer = t.timer;
    on = t.on;
    idle = t.idle;
  }

  -- What `n` rounds come to: they end, with the timer still on, and two beats for each.
  abbrev Beaten : Kernel → ℕ → Option Kernel → Type 0
  Beaten k n out =
      (k' : Kernel) × (out ≡ some k') × IsTicking k' × (k'.hw.heartbeat ≡ k.hw.heartbeat + 2 * n)

  rounds-Beaten :
      (env : Env) (fuel n : ℕ) (k : Kernel)
      → IsTicking k
      → k.hw.heartbeat + 2 * n < 2 ^ 64
      → Beaten k n (rounds_from raises run_other env (suc fuel) n (some k))
  rounds-Beaten env fuel zero k t small = (k, refl, t, omega arith)
  rounds-Beaten env fuel (suc n) k t small =
      let k1 = rounded env k in
      let two : k1.hw.heartbeat ≡ k.hw.heartbeat + 2 = omega arith in
      let (k', e, t', h) =
        rounds-Beaten env fuel n k1 (poll-IsTicking env (ticked-IsTicking t))
          (omega (arith, two)) in
      (
        k',
        ap (rounds_from raises run_other env (suc fuel) n) (round-eq env fuel k t) ∙ e,
        t',
        omega (arith, h, two),
      )

  -- With the kernel up, its timer registered and enabled, no softirq waiting and a heartbeat that
  -- does not wrap, the main loop ends, on any fuel above 0, with the timer still so, and its ten
  -- rounds have added 20 to the heartbeat.
  pub main_loop-heartbeat :
      (env : Env) (fuel : ℕ) (k : Kernel)
      → IsTicking k
      → k.hw.heartbeat + 20 < 2 ^ 64
      → (k' : Kernel) × (main_loop raises run_other env (suc fuel) k ≡ some k')
        × IsTicking k'
        × (k'.hw.heartbeat ≡ k.hw.heartbeat + 20)
  main_loop-heartbeat env fuel k t small =
      let (k', e, t', h) = rounds-Beaten env fuel 10 k t (omega arith) in
      (k', e, t', omega (arith, h))
