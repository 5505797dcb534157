-- ===== src/PrintAgent/Claims.antt =====
-- What a claim takes, and what it leaves alone.
use shipping_core.Base.{
  ℕ, ◌≤◌, ◌≡◌, sym, ◌≢◌, ap, ◌∙◌, String, true, false, some, List, ◌==◌, filter, All, Bool-cases,
  Option-cases, arith, inl, inr,
}
use mathlib.Core.Bool.{false≢true}
use mathlib.Core.List.{Memᴰ}
use shipping_core.Base.Order.{head-order_by-Memᴰ, head-order_by-le}
use shipping_core.Base.Table.{
  UniqueKeys, Memᴰ-filter, Memᴰ-update_where, Memᴰ-update_where_self, Memᴰ-unique,
}
use shipping_core.Errors.{ok, Result-cases, ok-injective}
use shipping_core.PrintAgent.State.{pending, claimed, PrintTask, PrintDevice, AgentDb}
use shipping_core.PrintAgent.Devices.{authenticate_device}
use shipping_core.PrintAgent.Tasks.{waits_for, task_before, oldest_waiting, claim, claim_next}

-- A task that waits for the device.
abbrev pub Waits : PrintDevice → PrintTask → Type 0
Waits d t = (t.tenant_id ≡ d.tenant_id) × (t.device_id ≡ d.id) × (t.status ≡ pending)

waits_for-Waits : (d : PrintDevice) (t : PrintTask) → waits_for d t ≡ true → Waits d t
waits_for-Waits d t h = ground arith

Waits-waits_for : (d : PrintDevice) (t : PrintTask) → Waits d t → waits_for d t ≡ true
Waits-waits_for d t (a, b, c) = ground arith

-- No task that waits for the device is older than `t`.
abbrev pub IsOldest : PrintDevice → PrintTask → List PrintTask → Type 0
IsOldest d t tasks = All (λ r. Waits d r → t.id ≤ r.id) tasks

IsOldest-filter :
    (d : PrintDevice) (t : PrintTask) (tasks : List PrintTask)
    → All (λ r. t.id ≤ r.id) (filter (waits_for d) tasks)
    → IsOldest d t tasks
IsOldest-filter d t List.[] h = tt
IsOldest-filter d t (List.◌∷◌ r rs) h = elim (Bool-cases (waits_for d r)) [
  | inl e ↦
      let (a, b) : (t.id ≤ r.id) × All (λ s. t.id ≤ s.id) (filter (waits_for d) rs) = rw e at h in
      (λ _. a, IsOldest-filter d t rs b)
  | inr e ↦
      (λ w. absurd (false≢true (sym e ∙ Waits-waits_for d r w)), IsOldest-filter d t rs (rw e at h))
]

oldest_waiting_lem :
    (d : PrintDevice) (tasks : List PrintTask) (t : PrintTask)
    → oldest_waiting d tasks ≡ some t
    → Memᴰ t tasks × Waits d t × IsOldest d t tasks
unfolding oldest_waiting
oldest_waiting_lem d tasks t e =
    let waiting = filter (waits_for d) tasks in
    let (listed, waits) =
      Memᴰ-filter (waits_for d) tasks t (head-order_by-Memᴰ task_before t waiting e) in
    (
      listed,
      waits_for-Waits d t waits,
      IsOldest-filter d t tasks (head-order_by-le (λ (r : PrintTask). r.id) t waiting e),
    )

module _ (hash : String → String) (now : ℕ) (key secret : String) (db : AgentDb) where
  -- A successful claim comes from a device that proved who it is. It takes a task of the device's
  -- own tenant that waited for the device, the oldest such task, and hands it out: it gets the state "claimed" and the time, keeps everything
  -- else, and stands like that in the table afterwards.
  pub claim_next-IsOldest :
      (t' : PrintTask)
      → (claim_next hash now key secret db).0 ≡ ok t'
      → (d : PrintDevice) × (t : PrintTask) × (authenticate_device hash key secret db ≡ ok d)
        × Memᴰ t db.tasks
        × Waits d t
        × IsOldest d t db.tasks
        × (t' ≡ record t { status = claimed; claimed_at = some now })
        × Memᴰ t' (claim_next hash now key secret db).1.tasks
  unfolding claim_next
  claim_next-IsOldest t' h = elim (Result-cases (authenticate_device hash key secret db)) [
    | inr (x, e) ↦ cc (rw e at h)
    | inl (d, e) ↦ elim (Option-cases (oldest_waiting d db.tasks)) [
      | inl nothing ↦ cc (rw (e, nothing) at h)
      | inr (t, found) ↦
          let same = ok-injective (rw (e, found) at h) in
          let (listed, waits, oldest) = oldest_waiting_lem d db.tasks t found in
          (
            d,
            t,
            e,
            listed,
            waits,
            oldest,
            sym same,
            rw (← same, e, found)
                (Memᴰ-update_where_self _ (claim hash now) db.tasks t listed (ground arith)),
          )
    ]
  ]

  -- A task that is not pending is still in the table, unchanged, after any claim. The primary keys of
  -- the tasks are taken to be unique.
  pub claim_next-others :
      (r : PrintTask)
      → UniqueKeys (λ (t : PrintTask). t.id) db.tasks
      → Memᴰ r db.tasks
      → r.status ≢ pending
      → Memᴰ r (claim_next hash now key secret db).1.tasks
  unfolding claim_next
  claim_next-others r u m ne = elim (Result-cases (authenticate_device hash key secret db)) [
    | inr (x, e) ↦ rw e m
    | inl (d, e) ↦ elim (Option-cases (oldest_waiting d db.tasks)) [
      | inl nothing ↦ rw (e, nothing) m
      | inr (t, found) ↦
          let (listed, waits, oldest) = oldest_waiting_lem d db.tasks t found in
          rw (e, found)
            (Memᴰ-update_where (λ x. x.id == t.id) (claim hash now) db.tasks r m
              (other t listed waits.2))
    ]
  ]
    where
      other : (t : PrintTask) → Memᴰ t db.tasks → t.status ≡ pending → (r.id == t.id) ≡ false
      other t listed waiting = elim (Bool-cases (r.id == t.id)) [
        | inr no_match ↦ no_match
        | inl same ↦ absurd (
            ne (
              ap (λ (x : PrintTask). x.status)
                (Memᴰ-unique (λ (x : PrintTask). x.id) db.tasks r t u m listed (ground arith))
              ∙ waiting))
      ]
