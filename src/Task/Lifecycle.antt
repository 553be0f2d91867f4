-- ===== src/Task/Lifecycle.antt =====
-- The life of a task: the statuses it has had, newest first, each allowed after the one before.
use video_meeting_recorder.Common.{
  ℕ, ◌+◌, ◌*◌, ◌≤◌, ◌≡◌, refl, subst, Bool, true, false, ◌&&◌, List, [], ◌∷◌, length, bit, arith,
}
use video_meeting_recorder.Task.{
  Status, pending, connecting, recording, converting, completed, failed, same_status,
  can_transition_to,
}

-- A task is created pending, and each later status is a transition that the code allows.
unfoldable pub is_history : List Status → Bool
is_history [] = false
is_history (s ∷ []) = same_status s pending
is_history (t ∷ s ∷ vs) = can_transition_to s t && is_history (s ∷ vs)

-- How often the task has failed.
unfoldable pub failures : List Status → ℕ
failures [] = 0
failures (s ∷ vs) = bit (same_status s failed) + failures vs

before-completed : (s : Status) → can_transition_to s completed ≡ true → s ≡ converting
unfolding can_transition_to
before-completed s h = ground arith

before-converting : (s : Status) → can_transition_to s converting ≡ true → s ≡ recording
unfolding can_transition_to
before-converting s h = ground arith

before-recording : (s : Status) → can_transition_to s recording ≡ true → s ≡ connecting
unfolding can_transition_to
before-recording s h = ground arith

before-connecting : (s : Status) → can_transition_to s connecting ≡ true → s ≡ pending
unfolding can_transition_to
before-connecting s h = ground arith

history-tail :
    (t : Status) (vs : List Status)
    → same_status t pending ≡ false
    → is_history (t ∷ vs) ≡ true
    → (s : Status) × (rest : List Status) × (vs ≡ s ∷ rest)
      × (can_transition_to s t ≡ true)
      × (is_history (s ∷ rest) ≡ true)
unfolding is_history
history-tail t [] n h = ground arith
history-tail t (s ∷ rest) n h = (s, rest, refl, ground arith, ground arith)

-- In a history that follows the status table, a completed task has been pending, connecting, recording
-- and converting just before, in this order.
pub completed_path :
    (vs : List Status)
    → is_history (completed ∷ vs) ≡ true
    → (rest : List Status) × (vs ≡ converting ∷ recording ∷ connecting ∷ pending ∷ rest)
unfolding same_status
completed_path vs h =
    let (s, a, e, c, k) = history-tail completed vs refl h in
    let k' = subst (λ x. is_history (x ∷ a) ≡ true) (before-completed s c) k in
    let (s₁, a₁, e₁, c₁, k₁) = history-tail converting a refl k' in
    let k₁' = subst (λ x. is_history (x ∷ a₁) ≡ true) (before-converting s₁ c₁) k₁ in
    let (s₂, a₂, e₂, c₂, k₂) = history-tail recording a₁ refl k₁' in
    let k₂' = subst (λ x. is_history (x ∷ a₂) ≡ true) (before-recording s₂ c₂) k₂ in
    let (s₃, a₃, e₃, c₃, k₃) = history-tail connecting a₂ refl k₂' in
    (
      a₃,
      ground (
        arith,
        before-completed s c,
        before-converting s₁ c₁,
        before-recording s₂ c₂,
        before-connecting s₃ c₃,
      ),
    )

abbrev rank : Status → ℕ
rank pending = 1
rank connecting = 2
rank recording = 3
rank converting = 4
rank _ = 5

rank-step :
    (s t : Status)
    → can_transition_to s t ≡ true
    → rank s + 1 ≤ rank t + 5 * bit (same_status s failed)
unfolding can_transition_to
rank-step s t h = ground arith

length-le-rank :
    (t : Status) (vs : List Status)
    → is_history (t ∷ vs) ≡ true
    → length (t ∷ vs) ≤ 5 * failures vs + rank t
unfolding is_history failures
length-le-rank t [] h = ground arith
length-le-rank t (s ∷ vs) h = ground (arith, length-le-rank s vs, rank-step s t)

rank-le : (t : Status) → rank t ≤ 5
rank-le t = ground arith

failures-tail : (t : Status) (vs : List Status) → failures vs ≤ failures (t ∷ vs)
unfolding failures
failures-tail t vs = omega arith

-- In a history that follows the status table, a task has at most five statuses without a failure, and
-- each failure allows at most five more.
pub history_bounded : (vs : List Status) → is_history vs ≡ true → length vs ≤ 5 * failures vs + 5
history_bounded [] h = omega arith
history_bounded (t ∷ vs) h = omega (arith, length-le-rank t vs h, rank-le t, failures-tail t vs)
