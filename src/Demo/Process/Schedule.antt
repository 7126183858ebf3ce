-- ===== src/Demo/Process/Schedule.antt =====
-- The scheduler of BIOS/sw/process_manager.cpp, lines 96 to 126.
use team_os_3_0_baios.Base.{
  ℕ, zero, suc, Option, none, some, Bool, true, false, ◌==◌, if◌then◌else◌,
}
use mathlib.Core.Option
use team_os_3_0_baios.Demo.Error.{Error, ok}
use team_os_3_0_baios.Demo.Process.{
  Sw, ProcState, unset, ready, running, terminated, zombie, proc_at, set_state,
}

abbrev pub is_runnable : ProcState → Bool
is_runnable ready = true
is_runnable running = true
is_runnable unset = false
is_runnable terminated = false
is_runnable zombie = false

-- `p ? p : list`
abbrev pub or_list : Option ℕ → ℕ → ℕ
or_list none list = list
or_list (some i) list = i

-- The first process that the loop looks at.
abbrev pub start_of : Sw → Option ℕ → ℕ → ℕ
start_of s none list = list
start_of s (some c) list = or_list (proc_at s c).next list

-- The loop of `sw_scheduler_tick` on fuel: from `p`, the process that it picks, if any. Where the
-- list goes round without `start` it does not end.
abbrev pub scan : ℕ → Sw → (list start p : ℕ) → Option (Option ℕ)
scan zero s list start p = none
scan (suc fuel) s list start p =
    let after = or_list (proc_at s p).next list in
    let rest = scan fuel s list start after in
    if is_runnable (proc_at s p).state
    then some (some p)
    else if after == start
    then some none
    else rest

-- The current process gives way, unless it is the one picked.
abbrev pub give_way : Sw → Option ℕ → ℕ → Sw
give_way s none p = s
give_way s (some c) p = if c == p then s else set_state s c ready

-- What is done with the process picked.
abbrev pub switch_to : Sw → Option ℕ → Sw
switch_to s none = s
switch_to s (some p) = set_state (record (give_way s s.current p) { current = some p }) p running

abbrev pub tick_from : ℕ → Sw → Option ℕ → Option Sw
tick_from fuel s none = some s
tick_from fuel s (some list) =
    let start = start_of s s.current list in Option.map (switch_to s) (scan fuel s list start start)

-- `sw_scheduler_tick` on fuel.
unfoldable pub tick : ℕ → Sw → Option Sw
tick fuel s = tick_from fuel s s.process_list

abbrev pub yield_current : Sw → Option ℕ → Sw
yield_current s none = s
yield_current s (some c) = set_state s c ready

-- `sw_scheduler_yield` on fuel.
unfoldable pub yield : ℕ → Sw → Option (Error × Sw)
unfolding tick
yield fuel s = Option.map (λ s'. (ok, s')) (tick fuel (yield_current s s.current))
