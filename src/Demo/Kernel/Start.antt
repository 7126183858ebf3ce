-- ===== src/Demo/Kernel/Start.antt =====
-- The start of BIOS/hw/main.c.
use Prim.Native.String.{String}
use team_os_3_0_baios.Base.{ℕ, ◌*◌, ◌≡◌, refl, sym, ap, subst, some, true, replicate, set}
use team_os_3_0_baios.Types.{max_irq}
use team_os_3_0_baios.Demo.Error.{
  Error, ok, invalid_arg, busy, no_memory, not_found, already_exists, overflow, corrupt, timeout,
  permission, ipc,
}
use team_os_3_0_baios.Demo.Shm
use team_os_3_0_baios.Demo.Irq.{IrqTable, zero_desc, irq_timer, desc_at, new_desc, register}
use team_os_3_0_baios.Demo.Irq
use team_os_3_0_baios.Demo.Irq.Laws.{IsValid}
use team_os_3_0_baios.Demo.Softirq.{reset}
use team_os_3_0_baios.Demo.Chrdev.{compat_init}
use team_os_3_0_baios.Demo.Buddy.{init_buddy}
use team_os_3_0_baios.Demo.Channel.{Env, Ipc}
use team_os_3_0_baios.Demo.Channel
use team_os_3_0_baios.Demo.Kernel.{Kernel, timer_handler, zero_hw, with_channels, with_timer, init}
use team_os_3_0_baios.Demo.Kernel.Heartbeat.{IsTicking}

-- The table with the timer alone.
abbrev timer_table : IrqTable
timer_table = record {
  table =
      set (replicate max_irq zero_desc) irq_timer
        (new_desc irq_timer timer_handler 0 (some "timer"));
  ready = true;
}

register-timer :
    (s : IrqTable)
    → register (Irq.init s).1 irq_timer (some timer_handler) 0 (some "timer") ≡ (ok, timer_table)
unfolding Irq.init register
register-timer s = refl

module _ (env : Env) (orders dev_size : ℕ) (clip : String → String) where
  with_channels-IsTicking :
      (k : Kernel) (now : ℕ) (out : Error × Ipc)
      → k.irqs ≡ timer_table
      → k.softirqs.tail ≡ k.softirqs.head
      → (with_channels env orders dev_size clip k now out).0 ≡ ok
      → let k' = (with_channels env orders dev_size clip k now out).1 in
        IsTicking k' × (k'.hw.heartbeat ≡ 0) × (k'.hw.boot_time_ns ≡ now)
  with_channels-IsTicking k now (ok, s) t i e = (
    record {
      is_up = refl;
      table = subst IsValid (sym t) (record { is_up = refl; sized = refl });
      timer = ap (λ x. (desc_at x irq_timer).handler) t;
      on = ap (λ x. (desc_at x irq_timer).enabled) t;
      idle = i;
    },
    refl,
    refl,
  )
  with_channels-IsTicking k now (invalid_arg, s) t i e = absurd (cc e)
  with_channels-IsTicking k now (busy, s) t i e = absurd (cc e)
  with_channels-IsTicking k now (no_memory, s) t i e = absurd (cc e)
  with_channels-IsTicking k now (not_found, s) t i e = absurd (cc e)
  with_channels-IsTicking k now (already_exists, s) t i e = absurd (cc e)
  with_channels-IsTicking k now (overflow, s) t i e = absurd (cc e)
  with_channels-IsTicking k now (corrupt, s) t i e = absurd (cc e)
  with_channels-IsTicking k now (timeout, s) t i e = absurd (cc e)
  with_channels-IsTicking k now (permission, s) t i e = absurd (cc e)
  with_channels-IsTicking k now (ipc, s) t i e = absurd (cc e)

  -- A start that succeeds, from any state, leaves the kernel up at the given time with a heartbeat
  -- of 0, its timer registered and enabled, and no softirq waiting.
  pub init-IsTicking :
      (k : Kernel) (now : ℕ)
      → (init env orders dev_size clip k now).0 ≡ ok
      → let k' = (init env orders dev_size clip k now).1 in
        IsTicking k' × (k'.hw.heartbeat ≡ 0) × (k'.hw.boot_time_ns ≡ now)
  unfolding init
  init-IsTicking k now =
      let shm = (Shm.mem_init k.ipc.shm 0 (16 * 1024 * 1024)).1 in
      let k0 : Kernel = record k {
        hw = zero_hw;
        buddy = (init_buddy orders k.buddy 1048576 (8 * 1024 * 1024)).1;
        irqs = (Irq.init k.irqs).1;
        softirqs = reset k.softirqs;
        ipc = record k.ipc { shm = shm };
      } in
      let devs = (compat_init dev_size clip (record k.devs { shm = shm })).1 in
      let k1 : Kernel = record k0 { irqs = timer_table; devs = devs } in
      subst
        (λ r.
          (with_timer env orders dev_size clip k0 now r).0 ≡ ok
          → let k' = (with_timer env orders dev_size clip k0 now r).1 in
            IsTicking k' × (k'.hw.heartbeat ≡ 0) × (k'.hw.boot_time_ns ≡ now))
        (sym (register-timer k.irqs))
        (with_channels-IsTicking k1 now (Channel.init env (record k0.ipc { shm = devs.shm })) refl
          refl)
