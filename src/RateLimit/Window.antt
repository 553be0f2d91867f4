-- ===== src/RateLimit/Window.antt =====
-- Lemmas on one window: counts, the clean-up and the last request.
use video_meeting_recorder.Common.{
  ℕ, zero, suc, ◌+◌, ◌≤◌, ◌≡◌, refl, sym, subst, true, List, [], ◌∷◌, ◌++◌, drop, arith,
}
use video_meeting_recorder.Common.Clock.{hour, day}
use video_meeting_recorder.RateLimit.{
  count_requests_after, cutoff_from, cleanup_old_requests, last_or, is_stale,
}

pub count-append :
    (span now : ℕ) (xs ys : List ℕ)
    → count_requests_after span now (xs ++ ys)
      ≡ count_requests_after span now xs + count_requests_after span now ys
unfolding count_requests_after
count-append span now [] ys = omega arith
count-append span now (x ∷ xs) ys = ground (arith, count-append span now xs ys)

-- Every element is at most `b`.
abbrev pub AllLe : ℕ → List ℕ → Type 0
AllLe b [] = Unit
AllLe b (x ∷ xs) = (x ≤ b) × AllLe b xs

pub AllLe-mono : (a b : ℕ) (xs : List ℕ) → a ≤ b → AllLe a xs → AllLe b xs
AllLe-mono a b [] h p = tt
AllLe-mono a b (x ∷ xs) h p = (omega arith, AllLe-mono a b xs h p.1)

pub AllLe-append : (b : ℕ) (xs ys : List ℕ) → AllLe b xs → AllLe b ys → AllLe b (xs ++ ys)
AllLe-append b [] ys p q = q
AllLe-append b (x ∷ xs) ys p q = (p.0, AllLe-append b xs ys p.1 q)

-- Requests that are all too old for the span are not counted.
pub count_old :
    (span now b : ℕ) (xs : List ℕ)
    → b + span ≤ now
    → AllLe b xs
    → count_requests_after span now xs ≡ 0
unfolding count_requests_after
count_old span now b [] h p = refl
count_old span now b (x ∷ xs) h p = ground (arith, count_old span now b xs h p.1)

-- What the clean-up drops was older than a day, so no count of a day or less notices it later.
count-drop_cutoff :
    (span now later i : ℕ) (xs : List ℕ)
    → span ≤ day
    → now ≤ later
    → (k : ℕ) → cutoff_from now i xs ≡ i + k
    → count_requests_after span later (drop k xs) ≡ count_requests_after span later xs
unfolding count_requests_after cutoff_from
count-drop_cutoff span now later i [] s h zero e = refl
count-drop_cutoff span now later i [] s h (suc k) e = refl
count-drop_cutoff span now later i (x ∷ xs) s h zero e = refl
count-drop_cutoff span now later i (x ∷ xs) s h (suc k) e =
    ground (arith, count-drop_cutoff span now later (suc i) xs s h k)

pub count-cleanup :
    (span now later : ℕ) (xs : List ℕ)
    → span ≤ day
    → now ≤ later
    → count_requests_after span later (cleanup_old_requests now xs)
      ≡ count_requests_after span later xs
unfolding cleanup_old_requests
count-cleanup span now later xs s h =
    count-drop_cutoff span now later 0 xs s h (cutoff_from now 0 xs) (omega arith)

-- The last request is the latest.
abbrev pub Ends : List ℕ → Type 0
Ends xs = AllLe (last_or 0 xs) xs

Ends-tail : (x : ℕ) (xs : List ℕ) → Ends (x ∷ xs) → Ends xs
unfolding last_or
Ends-tail x [] p = tt
Ends-tail x (y ∷ ys) p = p.1

Ends-drop : (k : ℕ) (xs : List ℕ) → Ends xs → Ends (drop k xs)
Ends-drop zero xs p = p
Ends-drop (suc k) [] p = tt
Ends-drop (suc k) (x ∷ xs) p = Ends-drop k xs (Ends-tail x xs p)

pub Ends-cleanup : (now : ℕ) (xs : List ℕ) → Ends xs → Ends (cleanup_old_requests now xs)
unfolding cleanup_old_requests
Ends-cleanup now xs p = Ends-drop (cutoff_from now 0 xs) xs p

AllLe-drop : (b k : ℕ) (xs : List ℕ) → AllLe b xs → AllLe b (drop k xs)
AllLe-drop b zero xs p = p
AllLe-drop b (suc k) [] p = tt
AllLe-drop b (suc k) (x ∷ xs) p = AllLe-drop b k xs p.1

pub AllLe-cleanup : (b now : ℕ) (xs : List ℕ) → AllLe b xs → AllLe b (cleanup_old_requests now xs)
unfolding cleanup_old_requests
AllLe-cleanup b now xs p = AllLe-drop b (cutoff_from now 0 xs) xs p

last-snoc : (d x : ℕ) (xs : List ℕ) → last_or d (xs ++ x ∷ []) ≡ x
unfolding last_or
last-snoc d x [] = refl
last-snoc d x (y ∷ ys) = last-snoc y x ys

pub Ends-snoc : (b now : ℕ) (xs : List ℕ) → b ≤ now → AllLe b xs → Ends (xs ++ now ∷ [])
Ends-snoc b now xs h p =
    subst (λ n. AllLe n (xs ++ now ∷ [])) (sym (last-snoc 0 now xs))
      (AllLe-append now xs (now ∷ []) (AllLe-mono b now xs h p) (omega arith))

-- A window that the ticker drops holds no request of the last hour.
pub count-stale :
    (span now later : ℕ) (xs : List ℕ)
    → span ≤ hour
    → now ≤ later
    → Ends xs
    → is_stale now xs ≡ true
    → count_requests_after span later xs ≡ 0
unfolding is_stale count_requests_after
count-stale span now later [] s h p e = refl
count-stale span now later (x ∷ xs) s h p e =
    count_old span later (last_or 0 (x ∷ xs)) (x ∷ xs) (ground arith) p
