-- ===== src/Demo/Softirq.antt =====
-- The deferred work of BIOS/hw/interrupts.c: a queue of 32 places for functions that run later.
-- A function is known by the number of its code, 0 for the null pointer; what it does when it runs
-- is outside, but for the softirqs that it raises, which `raises` gives.
mod Tests
pub mod Refine
pub mod Liveness
use team_os_3_0_baios.Base.{
  ℕ, zero, suc, ◌+◌, ◌%◌, List, [], ◌∷◌, Option, none, some, Bool, true, false, ◌==◌, if◌then◌else◌,
  get_or, set, replicate,
}
use mathlib.Core.Option
use team_os_3_0_baios.Demo.Error.{Error, ok, invalid_arg, busy}

-- `MAX_SOFTIRQ`
abbrev pub max_softirq : ℕ
max_softirq = 32

-- `softirq_item_t`; `arg` is the pointer `data`.
pub record Item : Type 0 where
  pub fn : ℕ
  pub arg : ℕ

abbrev pub zero_item : Item
zero_item = record { fn = 0; arg = 0 }

-- The queue of the file's static state.
pub record Softirqs : Type 0 where
  pub queue : List Item
  pub head : ℕ
  pub tail : ℕ

-- `g_softirq_head = g_softirq_tail = 0`: the places keep what they hold.
abbrev pub reset : Softirqs → Softirqs
reset s = record s { head = 0; tail = 0 }

-- `softirq_raise`
unfoldable pub raise : Softirqs → Item → Error × Softirqs
raise s item =
    if item.fn == 0
    then (invalid_arg, s)
    else if (s.head + 1) % max_softirq == s.tail
    then (busy, s)
    else (ok, record s { queue = set s.queue s.head item; head = (s.head + 1) % max_softirq })

-- Several softirqs, one after the other, whether or not there is room.
unfoldable pub raise_all : Softirqs → List Item → Softirqs
raise_all s [] = s
raise_all s (item ∷ items) = raise_all (raise s item).1 items

-- `if (item.fn) item.fn(item.data)`, after the tail has moved on: the call and the state after.
unfoldable pub run_item : (raises : Item → List Item) → Softirqs → Item → List Item × Softirqs
unfolding raise_all
run_item raises s item = if item.fn == 0 then ([], s) else (item ∷ [], raise_all s (raises item))

-- One round of `softirq_process`.
unfoldable pub process_one : (raises : Item → List Item) → Softirqs → List Item × Softirqs
unfolding run_item
process_one raises s =
    run_item raises (record s { tail = (s.tail + 1) % max_softirq })
      (get_or s.queue s.tail zero_item)

abbrev pub with_calls : List Item → Option (List Item × Softirqs) → Option (List Item × Softirqs)
with_calls calls none = none
with_calls [] (some (rest, s)) = some (rest, s)
with_calls (c ∷ calls) (some (rest, s)) = some (c ∷ rest, s)

-- `softirq_process` on fuel: the functions that it calls, in order, and the state after; `none`
-- means that the fuel ran out. A function may raise itself again, and then the loop does not end.
unfoldable pub process : (raises : Item → List Item) → ℕ → Softirqs → Option (List Item × Softirqs)
unfolding process_one
process raises zero s = none
process raises (suc fuel) s =
    let rest = with_calls (process_one raises s).0 (process raises fuel (process_one raises s).1) in
    if s.tail == s.head then some ([], s) else rest
