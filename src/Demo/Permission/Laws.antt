-- ===== src/Demo/Permission/Laws.antt =====
-- What grants and requests of BIOS/sw/permissions.cpp do to the checks that follow.
use team_os_3_0_baios.Base.{
  ℕ, ◌≤◌, ◌<◌, ◌≡◌, ◌≢◌, ◌∙◌, refl, sym, ap, subst, Option, none, some, Bool, true, false, arith,
  if◌then◌else◌, length, inl, inr, ◌⊎◌,
}
use mathlib.Core.Option
use team_os_3_0_baios.Demo.Error.{Error, ok, permission, no_memory, invalid_arg}
use team_os_3_0_baios.Demo.Process.{Sw, proc_at}
use team_os_3_0_baios.Demo.Process
use team_os_3_0_baios.Demo.Permission.{
  Cap, Perms, PermRecord, no_cap, read_file, write_file, exec, network, camera, microphone,
  location, sensors, bluetooth, storage, system, root, max_perm_records, record_at, find_record,
  put_record, ensure, grant_at, grant, allows, with_cap, without_cap, check_process, check_at,
  check, is_dangerous, ask_at, request,
}
use team_os_3_0_baios.Demo.Permission.Records.{
  lookup, Ensured, ensure_at-Ensured, put_record-lookup,
}

-- A check is decided by the record of the pid, or, without one, by the process.
abbrev decide : Option PermRecord → Sw → ℕ → Cap → Bool
decide none sw pid cap = check_process sw (Process.get sw pid) cap
decide (some r) sw pid cap = allows r.granted cap

pub check-lookup :
    (s : Perms) (sw : Sw) (pid : ℕ) (cap : Cap)
    → check s sw pid cap ≡ decide (lookup s pid) sw pid cap
unfolding check
check-lookup s sw pid cap = go (find_record s pid)
  where
    go : (o : Option ℕ) → check_at s sw pid o cap ≡ decide (Option.map (record_at s) o) sw pid cap
    go none = refl
    go (some i) = refl

allows-none : (cap : Cap) → allows 0 cap ≡ false
allows-none no_cap = refl
allows-none read_file = refl
allows-none write_file = refl
allows-none exec = refl
allows-none network = refl
allows-none camera = refl
allows-none microphone = refl
allows-none location = refl
allows-none sensors = refl
allows-none bluetooth = refl
allows-none storage = refl
allows-none system = refl
allows-none root = refl

allows-with_cap : (caps : ℕ) (cap : Cap) → cap ≢ no_cap → allows (with_cap caps cap) cap ≡ true
allows-with_cap caps no_cap n = absurd (n refl)
allows-with_cap caps read_file n = ground arith
allows-with_cap caps write_file n = ground arith
allows-with_cap caps exec n = ground arith
allows-with_cap caps network n = ground arith
allows-with_cap caps camera n = ground arith
allows-with_cap caps microphone n = ground arith
allows-with_cap caps location n = ground arith
allows-with_cap caps sensors n = ground arith
allows-with_cap caps bluetooth n = ground arith
allows-with_cap caps storage n = ground arith
allows-with_cap caps system n = ground arith
allows-with_cap caps root n = ground arith

-- What a grant comes to: the pid is allowed the capability, or there is no room for its record; the
-- checks of every other pid stay as they were.
abbrev Granted : Perms → Sw → ℕ → Cap → Error × Perms → Type 0
Granted s sw pid cap (st, s') =
    (((st ≡ ok) × (check s' sw pid cap ≡ true)) ⊎ ((st ≡ no_memory) × (max_perm_records ≤ s.count)))
    × ((other : ℕ) (c : Cap) → other ≢ pid → check s' sw other c ≡ check s sw other c)

-- Equal records give equal checks.
check-same :
    (s s' : Perms) (sw : Sw) (pid : ℕ) (cap : Cap)
    → lookup s' pid ≡ lookup s pid
    → check s' sw pid cap ≡ check s sw pid cap
check-same s s' sw pid cap e =
    check-lookup s' sw pid cap ∙ ap (λ o. decide o sw pid cap) e ∙ sym (check-lookup s sw pid cap)

grant_at-Granted :
    (s : Perms) (sw : Sw) (pid : ℕ) (cap : Cap) (out : Option ℕ × Perms)
    → cap ≢ no_cap
    → Ensured s pid out
    → Granted s sw pid cap (grant_at out cap)
grant_at-Granted s sw pid cap (none, s1) real h =
    (inr (refl, h.0), λ other c ne. ap (λ x. check x sw other c) h.1)
grant_at-Granted s sw pid cap (some i, s1) real (found, fresh, others) =
    let r = record_at s1 i in
    let r' : PermRecord = record r {
      granted = with_cap r.granted cap;
      requested = without_cap r.requested cap;
    } in
    let (own, rest) = put_record-lookup s1 pid i r'.granted r'.requested found in
    (
      inl (
        refl,
        check-lookup (put_record s1 i r') sw pid cap
            ∙ ap (λ o. decide o sw pid cap) own
            ∙ allows-with_cap r.granted cap real,
      ),
      λ other c ne. check-same s (put_record s1 i r') sw other c (rest other ne ∙ others other ne),
    )

grant-Granted :
    (s : Perms) (sw : Sw) (pid : ℕ) (cap : Cap)
    → length s.records ≡ max_perm_records
    → s.ready ≡ true
    → cap ≢ no_cap
    → Granted s sw pid cap (grant s pid cap)
unfolding grant
grant-Granted s sw pid cap sized up real =
    let all = ensure_at-Ensured s pid (find_record s pid) sized refl in
    let out = ensure s pid in
    subst (λ b. Granted s sw pid cap (if b then grant_at out cap else (invalid_arg, s))) (sym up)
      (grant_at-Granted s sw pid cap out real all)

-- With the records ready, a grant of a capability to a pid succeeds, and its check then allows it, or
-- there is no room for a record, with 256 of them; the check of any capability for a different pid
-- stays as it was.
pub check-grant :
    (s : Perms) (sw : Sw) (pid other : ℕ) (cap c : Cap)
    → length s.records ≡ max_perm_records
    → s.ready ≡ true
    → cap ≢ no_cap
    → other ≢ pid
    → let (st, s') = grant s pid cap in
      (((st ≡ ok) × (check s' sw pid cap ≡ true))
        ⊎ ((st ≡ no_memory) × (max_perm_records ≤ s.count)))
      × (check s' sw other c ≡ check s sw other c)
check-grant s sw pid other cap c sized up real ne =
    let (now, rest) = grant-Granted s sw pid cap sized up real in (now, rest other c ne)

ask_at-nothing :
    (s : Perms) (sw : Sw) (pid : ℕ) (cap : Cap) (out : Option ℕ × Perms)
    → Ensured s pid out
    → find_record s pid ≡ none
    → s.count < max_perm_records
    → let (st, s') = ask_at out cap in (st ≡ permission) × ((c : Cap) → check s' sw pid c ≡ false)
ask_at-nothing s sw pid cap (none, s1) h fresh room = absurd (omega (arith, h.0))
ask_at-nothing s sw pid cap (some i, s1) (found, nothing, others) fresh room =
    let r = record_at s1 i in
    let r' : PermRecord = record r { requested = with_cap r.requested cap } in
    let (own, rest) = put_record-lookup s1 pid i r.granted r'.requested found in
    (
      refl,
      λ c.
          check-lookup (put_record s1 i r') sw pid c
          ∙ ap (λ o. decide o sw pid c) own
          ∙ ap (λ g. allows g c) (nothing fresh)
          ∙ allows-none c,
    )

-- A pid without a record that asks for a dangerous capability, with room for a record: the request
-- is left pending, and right after it the check of every capability for the pid says no, whatever
-- its process has.
pub check-request :
    (s : Perms) (sw : Sw) (pid : ℕ) (cap : Cap)
    → length s.records ≡ max_perm_records
    → s.count < max_perm_records
    → find_record s pid ≡ none
    → is_dangerous cap ≡ true
    → let (st, s') = request s pid cap in
      (st ≡ permission) × ((c : Cap) → check s' sw pid c ≡ false)
unfolding request
check-request s sw pid cap sized room fresh dangerous =
    let all = ensure_at-Ensured s pid (find_record s pid) sized refl in
    rw dangerous (ask_at-nothing s sw pid cap (ensure s pid) all fresh room)
