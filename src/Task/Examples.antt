-- ===== src/Task/Examples.antt =====
-- Witnesses and tests of the task model.
use video_meeting_recorder.Common.{◌≡◌, refl, List, [], ◌∷◌}
use video_meeting_recorder.Task.{
  Status, pending, connecting, recording, converting, failed, can_transition_to, same_status,
}
use video_meeting_recorder.Task.Lifecycle.{is_history, completed_path}

abbrev retried : List Status
retried = converting ∷ recording ∷ connecting ∷ pending ∷ failed ∷ connecting ∷ pending ∷ []

completed_path_example :
    (rest : List Status) × (retried ≡ converting ∷ recording ∷ connecting ∷ pending ∷ rest)
unfolding is_history same_status can_transition_to
completed_path_example = completed_path retried refl
