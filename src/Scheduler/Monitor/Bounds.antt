-- ===== src/Scheduler/Monitor/Bounds.antt =====
-- How far the monitor extends a recording.
use video_meeting_recorder.Common.{
  ℕ, suc, ◌+◌, ◌-◌, ◌*◌, ◌≤◌, ◌<◌, ◌≡◌, Bool, true, false, some, List, [], ◌∷◌, codes, leb,
  Bool-cases, inl, inr, arith,
}
use video_meeting_recorder.Common.Int.{pos}
use video_meeting_recorder.Common.Clock.{minute}
use video_meeting_recorder.Task.{Task}
use video_meeting_recorder.TaskService.{update_task_extension, add_minutes}
use video_meeting_recorder.Scheduler.Monitor.{
  SmartEnd, Reached, Outcome, after_extension, handle_end_time_reached, Event, End, monitor, moved,
  monitor_end_time_only, monitor_task, completes, leaves, goes_on, cancels, moves, fires, completed,
  left,
}

-- The latest end that the extensions left can bring about, where a step takes `span`.
latest : ℕ → ℕ → Task → ℕ
latest max span t = t.end_time + (max - t.extension_count) * span

-- One more extension spends one step of what is left.
spend :
    (max count span end_time : ℕ)
    → count < max
    → end_time + span + (max - (count + 1)) * span ≡ end_time + (max - count) * span
spend max count span end_time h =
    let e : max - count ≡ suc (max - (count + 1)) = omega arith in rw e (omega arith)

-- What the timer's branch leaves within: the limit on the extensions, and the latest end.
record Kept (max span : ℕ) (t t' : Task) : Type 0 where
  limited : t'.extension_count ≤ max
  ends : latest max span t' ≤ latest max span t
  spare : (max - t'.extension_count) * span ≤ (max - t.extension_count) * span

keep_same : (max span : ℕ) (t : Task) → t.extension_count ≤ max → Kept max span t t
keep_same max span t h = record { limited = h; ends = omega arith; spare = omega arith }

extension-Kept :
    (c : SmartEnd) (step end_time : ℕ) (reread written : Bool) (t : Task)
    → c.extend_step_min ≡ pos step
    → t.extension_count ≤ c.max_extend_count
    → Kept c.max_extend_count
        (step * minute)
        t
        (after_extension c reread end_time t (
          update_task_extension c.max_extend_count c.extend_step_min
            (codes "smart_extend")
            written
            (some t))).0
unfolding after_extension update_task_extension add_minutes latest
extension-Kept c step end_time reread written t e h =
    elim (Bool-cases (leb c.max_extend_count t.extension_count)) [
      | inl full ↦ rw full (keep_same c.max_extend_count (step * minute) t h)
      | inr room ↦ elim (Bool-cases written) [
        | inr lost ↦ rw (room, lost) (keep_same c.max_extend_count (step * minute) t h)
        | inl kept ↦
            rw (room, kept, e)
              (record {
                limited = ground arith;
                ends = omega (
                  arith,
                  spend c.max_extend_count t.extension_count (step * minute) t.end_time
                      (ground arith),
                );
                spare = omega (
                  arith,
                  spend c.max_extend_count t.extension_count (step * minute) 0 (ground arith),
                );
              })
      ]
    ]

handle-Kept :
    (c : SmartEnd) (step : ℕ) (r : Reached) (end_time : ℕ) (t : Task)
    → c.extend_step_min ≡ pos step
    → t.extension_count ≤ c.max_extend_count
    → Kept c.max_extend_count (step * minute) t (handle_end_time_reached c r end_time t).0
unfolding handle_end_time_reached
handle-Kept c step r end_time t e h =
    let same = keep_same c.max_extend_count (step * minute) t h in
    elim (Bool-cases r.alive) [
      | inr a ↦ rw a same
      | inl a ↦ elim (Bool-cases r.read) [
        | inr b ↦ rw (a, b) same
        | inl b ↦ elim (Bool-cases (leb c.max_extend_count t.extension_count)) [
          | inl full ↦ rw (a, b, full) same
          | inr room ↦ rw (a, b, room) (extension-Kept c step end_time r.reread r.written t e h)
        ]
      ]
    ]

-- The new ends that are asked for are not after a time.
unfoldable pub UpTo : ℕ → List Event → Type 0
UpTo b [] = Unit {0}
UpTo b (cancels ∷ es) = UpTo b es
UpTo b (moves new_end written ∷ es) = (new_end ≤ b) × UpTo b es
UpTo b (fires r ∷ es) = UpTo b es

-- The extensions left lead from the row, and from every time that may be asked for, to a time at most.
record Ready (max span b x : ℕ) (t : Task) : Type 0 where
  limited : t.extension_count ≤ max
  ends : latest max span t ≤ x
  asked : b + (max - t.extension_count) * span ≤ x

Ready-Kept :
    (max span b x : ℕ) (t u : Task)
    → Ready max span b x t
    → Kept max span t u
    → Ready max span b x u
Ready-Kept max span b x t u r k = record {
  limited = k.limited;
  ends = omega (arith, r.ends, k.ends);
  asked = omega (arith, r.asked, k.spare);
}

Ready-moved :
    (max span b x new_end : ℕ) (written : Bool) (t : Task)
    → new_end ≤ b
    → Ready max span b x t
    → Ready max span b x (moved new_end written t)
unfolding moved latest
Ready-moved max span b x new_end false t h r = r
Ready-moved max span b x new_end true t h r = record {
  limited = r.limited;
  ends = omega (arith, h, r.asked);
  asked = r.asked;
}

-- What holds of the task in the end.
abbrev Bounded : ℕ → ℕ → Task → Type 0
Bounded max x t = (t.extension_count ≤ max) × (t.end_time ≤ x)

Ready-Bounded : (max span b x : ℕ) (t : Task) → Ready max span b x t → Bounded max x t
unfolding latest
Ready-Bounded max span b x t r = (r.limited, omega (arith, r.ends))

monitor-Bounded :
    (c : SmartEnd) (step end_time b x : ℕ) (t : Task) (es : List Event)
    → c.extend_step_min ≡ pos step
    → UpTo b es
    → Ready c.max_extend_count (step * minute) b x t
    → Bounded c.max_extend_count x (monitor c end_time t es).0
unfolding monitor UpTo
monitor-Bounded c step end_time b x t [] e m r =
    Ready-Bounded c.max_extend_count (step * minute) b x t r
monitor-Bounded c step end_time b x t (cancels ∷ es) e m r =
    Ready-Bounded c.max_extend_count (step * minute) b x t r
monitor-Bounded c step end_time b x t (moves new_end written ∷ es) e (l, m) r =
    monitor-Bounded c step new_end b x (moved new_end written t) es e m
      (Ready-moved c.max_extend_count (step * minute) b x new_end written t l r)
monitor-Bounded c step end_time b x t (fires f ∷ es) e m r =
    go (handle_end_time_reached c f end_time t)
      (Ready-Kept c.max_extend_count (step * minute) b x t _ r
        (handle-Kept c step f end_time t e r.limited))
      (λ n u l. monitor-Bounded c step n b x u es e m l)
  where
    go :
        (q : Task × Outcome)
        → Ready c.max_extend_count (step * minute) b x q.0
        → ((n : ℕ) (u : Task)
            → Ready c.max_extend_count (step * minute) b x u
            → Bounded c.max_extend_count x (monitor c n u es).0)
        → Bounded c.max_extend_count x
            (elim q.1 as (λ o. Task × End) [
              | completes ↦ (q.0, completed)
              | leaves ↦ (q.0, left)
              | goes_on new_end ↦ monitor c new_end q.0 es
            ]).0
    go (u, completes) k ih = Ready-Bounded c.max_extend_count (step * minute) b x u k
    go (u, leaves) k ih = Ready-Bounded c.max_extend_count (step * minute) b x u k
    go (u, goes_on n) k ih = ih n u k

end_time_only-Bounded :
    (max span b x : ℕ) (t : Task) (es : List Event)
    → UpTo b es
    → Ready max span b x t
    → Bounded max x (monitor_end_time_only t es).0
unfolding monitor_end_time_only UpTo
end_time_only-Bounded max span b x t [] m r = Ready-Bounded max span b x t r
end_time_only-Bounded max span b x t (cancels ∷ es) m r = Ready-Bounded max span b x t r
end_time_only-Bounded max span b x t (moves new_end written ∷ es) (l, m) r =
    end_time_only-Bounded max span b x (moved new_end written t) es m
      (Ready-moved max span b x new_end written t l r)
end_time_only-Bounded max span b x t (fires f ∷ es) m r = Ready-Bounded max span b x t r

-- Whatever wakes the monitor and whatever fails, a task within the limit is extended at most to the
-- limit. Its stored end is at most as many steps, which are not negative, as there are extensions left
-- after the end that it has at first or the latest that a user moves it to.
pub monitor_bounded :
    (c : SmartEnd) (step b : ℕ) (t : Task) (es : List Event)
    → c.extend_step_min ≡ pos step
    → t.extension_count ≤ c.max_extend_count
    → t.end_time ≤ b
    → UpTo b es
    → let t' = (monitor_task c t es).0 in
      (t'.extension_count ≤ c.max_extend_count)
      × (t'.end_time ≤ b + (c.max_extend_count - t.extension_count) * (step * minute))
unfolding monitor_task latest
monitor_bounded c step b t es e h l m =
    let span = step * minute in
    let x = b + (c.max_extend_count - t.extension_count) * span in
    let r : Ready c.max_extend_count span b x t = record {
      limited = h;
      ends = omega (arith, l);
      asked = omega arith;
    } in
    elim (Bool-cases c.enabled) [
      | inl on ↦ simp on (monitor-Bounded c step t.end_time b x t es e m r)
      | inr off ↦ simp off (end_time_only-Bounded c.max_extend_count span b x t es m r)
    ]
