-- ===== src/Scheduler/Monitor/Extends.antt =====
-- The monitor of a recording that stays healthy.
use video_meeting_recorder.Common.{
  ℕ, zero, suc, ◌+◌, ◌*◌, ◌≡◌, refl, ◌∙◌, ap, true, false, List, ◌∷◌, ◌++◌, replicate, codes, leb,
  arith,
}
use video_meeting_recorder.Task.{Task}
use video_meeting_recorder.Common.Int.{pos}
use video_meeting_recorder.Common.Clock.{minute}
use video_meeting_recorder.TaskService.{update_task_extension, add_minutes}
use video_meeting_recorder.Scheduler.Monitor.{
  SmartEnd, Reached, Outcome, after_extension, handle_end_time_reached, Event, End, monitor,
  monitor_task, completes, leaves, goes_on, fires, completed, left,
}

abbrev pub healthy : Reached
healthy = record { alive = true; read = true; written = true; reread = true }

healthy-full :
    (c : SmartEnd) (end_time : ℕ) (t : Task)
    → leb c.max_extend_count t.extension_count ≡ true
    → handle_end_time_reached c healthy end_time t ≡ (t, completes)
unfolding handle_end_time_reached
healthy-full c end_time t h = rw h refl

extended : SmartEnd → Task → Task
extended c t = record t {
  end_time = add_minutes t.end_time c.extend_step_min;
  extension_count = t.extension_count + 1;
  last_extension_reason = codes "smart_extend";
}

healthy-room :
    (c : SmartEnd) (end_time : ℕ) (t : Task)
    → leb c.max_extend_count t.extension_count ≡ false
    → handle_end_time_reached c healthy end_time t
      ≡ (extended c t, goes_on (add_minutes t.end_time c.extend_step_min))
unfolding handle_end_time_reached after_extension update_task_extension extended
healthy-room c end_time t h = rw h refl

after_fire :
    (c : SmartEnd) (r : Reached) (end_time : ℕ) (t : Task) (es : List Event) (q : Task × Outcome)
    → handle_end_time_reached c r end_time t ≡ q
    → monitor c end_time t (fires r ∷ es) ≡ elim q.1 as (λ o. Task × End) [
      | completes ↦ (q.0, completed)
      | leaves ↦ (q.0, left)
      | goes_on new_end ↦ monitor c new_end q.0 es
    ]
unfolding monitor
after_fire c r end_time t es q h =
    ap
      (λ x. elim x.1 as (λ o. Task × End) [
        | completes ↦ (x.0, completed)
        | leaves ↦ (x.0, left)
        | goes_on new_end ↦ monitor c new_end x.0 es
      ])
      h

extends :
    (n step : ℕ) (c : SmartEnd) (end_time : ℕ) (t : Task) (es : List Event)
    → c.extend_step_min ≡ pos step
    → c.max_extend_count ≡ t.extension_count + n
    → let result = monitor c end_time t (replicate n (fires healthy) ++ fires healthy ∷ es) in
      (result.1 ≡ completed)
      × (result.0.extension_count ≡ c.max_extend_count)
      × (result.0.end_time ≡ t.end_time + n * (step * minute))
unfolding monitor extended add_minutes
extends zero step c end_time t es s h =
    let full : leb c.max_extend_count t.extension_count ≡ true = ground arith in
    let e = after_fire c healthy end_time t es (t, completes) (healthy-full c end_time t full) in
    (
      ap (λ q. q.1) e,
      ap (λ q. q.0.extension_count) e ∙ omega arith,
      ap (λ q. q.0.end_time) e ∙ omega arith,
    )
extends (suc n) step c end_time t es s h =
    let room : leb c.max_extend_count t.extension_count ≡ false = ground arith in
    let u = extended c t in
    let new_end = add_minutes t.end_time c.extend_step_min in
    let e =
      after_fire c healthy end_time t (replicate n (fires healthy) ++ fires healthy ∷ es)
        (u, goes_on new_end) (healthy-room c end_time t room) in
    let rest = extends n step c new_end u es s (omega arith) in
    let later : add_minutes t.end_time c.extend_step_min ≡ t.end_time + step * minute = rw s refl in
    (
      ap (λ q. q.1) e ∙ rest.0,
      ap (λ q. q.0.extension_count) e ∙ rest.1,
      ap (λ q. q.0.end_time) e ∙ rest.2 ∙ omega (arith, later),
    )

-- While the process lives and the database answers, and the extensions are enabled, each firing of the
-- timer moves the stored end by a step, until the limit is reached, and the next firing completes the
-- task. The step is not negative.
pub extends_then_completes :
    (n step : ℕ) (c : SmartEnd) (t : Task) (es : List Event)
    → c.enabled ≡ true
    → c.extend_step_min ≡ pos step
    → c.max_extend_count ≡ t.extension_count + n
    → let result = monitor_task c t (replicate n (fires healthy) ++ fires healthy ∷ es) in
      (result.1 ≡ completed)
      × (result.0.extension_count ≡ c.max_extend_count)
      × (result.0.end_time ≡ t.end_time + n * (step * minute))
unfolding monitor_task
extends_then_completes n step c t es on s h = simp on (extends n step c t.end_time t es s h)
