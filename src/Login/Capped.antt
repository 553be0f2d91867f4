-- ===== src/Login/Capped.antt =====
-- How many failures logins can leave that overlap.
use video_meeting_recorder.Common.{
  ℕ, zero, suc, ◌+◌, ◌≤◌, ◌<◌, ◌≡◌, sym, subst, Bool, true, false, not, ◌&&◌, Option, none, some,
  List, [], ◌∷◌, ◌++◌, Text, text_eq, text_eq_iff, Option-cases, ap, length, bit, ◌==◌, ==_iff,
  Bool-cases, inl, inr, arith, refl,
}
use video_meeting_recorder.Common.TextMaps.{get}
use video_meeting_recorder.IpValidator.{check_ip_restrictions}
use video_meeting_recorder.Errors.{Result, ok, err}
use video_meeting_recorder.Login.{
  if_allowed, with_tokens, RateLimiter, Failures, failures_of, record_failure, keep_recent,
  should_block, clear, Auth, User, Request, record_if, clear_if, blocks, finish, check, password_of,
  with_password, begin, go_on, login, Logins, Step, asks, answers, entered, pick, resumed, step,
}
use video_meeting_recorder.Login.Limiter.{
  failures_of-put, failures_of-remove, keep-keep, keep-append,
}

-- The failures of a user in the window.
abbrev pub recent : RateLimiter → ℕ → Text → Failures → ℕ
recent r now user f = length (keep_recent now r.window (failures_of user f))

-- Whether a failure of the request counts for a user.
unfoldable pub weight : Text → Request → ℕ
weight user q = bit (q.limited && text_eq user q.username)

waiting : Text → List (Request × User) → ℕ
waiting user [] = 0
waiting user ((q, u) ∷ ws) = weight user q + waiting user ws

weight_le : (user : Text) (q : Request) → weight user q ≤ 1
unfolding weight
weight_le user q = ground arith

waiting_le : (user : Text) (ws : List (Request × User)) → waiting user ws ≤ length ws
unfolding waiting
waiting_le user [] = omega arith
waiting_le user ((q, u) ∷ ws) = omega (arith, weight_le user q, waiting_le user ws)

some_injective {ℓ} : {A : Type ℓ} (x y : A) → some x ≡ some y → x ≡ y
some_injective x y h = cc

-- What is waiting is what is picked and the others.
waiting-pick :
    (user : Text) (i : ℕ) (ws : List (Request × User))
    (y : (Request × User) × List (Request × User))
    → pick i ws ≡ some y
    → waiting user ws ≡ weight user y.0.0 + waiting user y.1
unfolding waiting pick
waiting-pick user i [] y = λ h. absurd (ground (arith, h))
waiting-pick user zero (x ∷ ws) y =
    λ h. ap (λ z. weight user z.0.0 + waiting user z.1) (some_injective (x, ws) y h)
waiting-pick user (suc i) (x ∷ ws) y = elim (Option-cases (pick i ws)) [
  | inl e ↦ rw (e, pick) (λ h. absurd (ground (arith, h)))
  | inr (z, e) ↦
      rw (e, pick)
        (λ h.
          let same : (z.0, x ∷ z.1) ≡ y = some_injective (z.0, x ∷ z.1) y h in
          let ih = waiting-pick user i ws z e in
          omega (arith, ih, ap (λ v. weight user v.0.0 + waiting user v.1) same))
]

keep-later :
    (time now window : ℕ) (ts : List ℕ)
    → time ≤ now
    → length (keep_recent now window ts) ≤ length (keep_recent time window ts)
unfolding keep_recent
keep-later time now window [] l = omega arith
keep-later time now window (t ∷ ts) l = ground (arith, keep-later time now window ts)

recorded :
    (r : RateLimiter) (now : ℕ) (user k : Text) (f : Failures)
    → recent r now k (record_failure now user f) ≤ recent r now k f + bit (text_eq k user)
unfolding record_failure
recorded r now user k f = elim (Bool-cases (text_eq k user)) [
  | inr e ↦ rw (failures_of-put k user (failures_of user f ++ now ∷ []) f, e) (omega arith)
  | inl e ↦
      let same : k ≡ user = (text_eq_iff k user).0 e in
      rw (failures_of-put k user (failures_of user f ++ now ∷ []) f, e, same)
        (ground (arith, keep-append now r.window now (failures_of user f)))
]

record_if-adds :
    (r : RateLimiter) (now : ℕ) (q : Request) (k : Text) (a : Auth)
    → recent r now k (record_if q.limited now q.username a).failures
      ≤ recent r now k a.failures + weight k q
unfolding record_if weight
record_if-adds r now q k a = elim (Bool-cases q.limited) [
  | inl e ↦ rw e (recorded r now q.username k a.failures)
  | inr e ↦ rw e (omega arith)
]

cleared_le :
    (r : RateLimiter) (now : ℕ) (user k : Text) (f : Failures)
    → recent r now k (clear user f) ≤ recent r now k f
unfolding clear keep_recent
cleared_le r now user k f = elim (Bool-cases (text_eq k user)) [
  | inr e ↦ rw (failures_of-remove k user f, e) (omega arith)
  | inl e ↦ rw (failures_of-remove k user f, e) (omega arith)
]

finish-failures :
    (now : ℕ) (q : Request) (u : User) (a : Auth) → (finish now q u a).1.failures ≡ a.failures
unfolding finish if_allowed with_tokens
finish-failures now q u a = elim (Bool-cases u.is_active) [
  | inr e ↦ rw e refl
  | inl e ↦ rw e (go (check_ip_restrictions q.net q.client_ip u.allowed_ips u.role_ips))
]
  where
    go : (r : Result (Unit {0})) → (if_allowed now q u r a).1.failures ≡ a.failures
    go (err e) = refl
    go (ok allowed) = ground arith

clear_if_le :
    (r : RateLimiter) (now : ℕ) (b : Bool) (user k : Text) (a : Auth)
    → recent r now k (clear_if b user a).failures ≤ recent r now k a.failures
unfolding clear_if
clear_if_le r now true user k a = cleared_le r now user k a.failures
clear_if_le r now false user k a = omega arith

finish_le :
    (r : RateLimiter) (now : ℕ) (q : Request) (u : User) (k : Text) (a : Auth)
    → recent r now k (finish now q u (clear_if q.limited q.username a)).1.failures
      ≤ recent r now k a.failures
finish_le r now q u k a =
    subst (λ f. recent r now k f ≤ recent r now k a.failures)
      (sym (finish-failures now q u (clear_if q.limited q.username a)))
      (clear_if_le r now q.limited q.username k a)

check-adds :
    (r : RateLimiter) (now : ℕ) (q : Request) (u : User) (password k : Text) (a : Auth)
    → recent r now k (check now q u password a).1.failures ≤ recent r now k a.failures + weight k q
unfolding check
check-adds r now q u password k a = elim (Bool-cases (q.check_password password)) [
  | inr e ↦ rw e (record_if-adds r now q k a)
  | inl e ↦ rw e (omega (arith, finish_le r now q u k a))
]

with_password-adds :
    (r : RateLimiter) (now : ℕ) (q : Request) (u : User) (o : Option Text) (k : Text) (a : Auth)
    → recent r now k (with_password now q u o a).1.failures ≤ recent r now k a.failures + weight k q
unfolding with_password
with_password-adds r now q u none k a = record_if-adds r now q k a
with_password-adds r now q u (some password) k a = check-adds r now q u password k a

-- The failures of each user, with those that may still come, stay below the limit and the number of logins
-- that may wait.
Budget : RateLimiter → ℕ → ℕ → Logins → Type 0
Budget r n now (a, ws) =
    (user : Text) → recent r now user a.failures + waiting user ws < r.max_failures + n

pruned :
    (r : RateLimiter) (now : ℕ) (user k : Text) (f : Failures)
    → recent r now k (should_block r now user f).1 ≡ recent r now k f
unfolding should_block
pruned r now user k f = elim (Bool-cases (text_eq k user)) [
  | inr e ↦ rw (failures_of-put k user (keep_recent now r.window (failures_of user f)) f, e) refl
  | inl e ↦
      let same : k ≡ user = (text_eq_iff k user).0 e in
      rw (failures_of-put k user (keep_recent now r.window (failures_of user f)) f, e, same)
        (keep-keep now now r.window (failures_of user f) (omega arith))
]

blocks-recent :
    (r : RateLimiter) (now : ℕ) (q : Request) (k : Text) (a : Auth)
    → recent r now k (blocks r now q a).1.failures ≡ recent r now k a.failures
unfolding blocks
blocks-recent r now q k a = elim (Bool-cases q.limited) [
  | inl e ↦ rw e (pruned r now q.username k a.failures)
  | inr e ↦ rw e refl
]

-- A request that is not blocked finds room, if its failures count.
unblocked :
    (r : RateLimiter) (now : ℕ) (q : Request) (k : Text) (a : Auth)
    → (blocks r now q a).0 ≡ false
    → weight k q ≡ 1
    → recent r now k a.failures < r.max_failures
unfolding blocks should_block weight
unblocked r now q k a b h = elim (Bool-cases (text_eq k q.username)) [
  | inr e ↦ absurd (ground (arith, h, e))
  | inl e ↦
      let same : k ≡ q.username = (text_eq_iff k q.username).0 e in
      rw same (ground (arith, b, h, e))
]

begin-recent :
    (r : RateLimiter) (now : ℕ) (q : Request) (k : Text) (a : Auth)
    → recent r now k (begin r now q a).1.failures ≡ recent r now k a.failures
unfolding begin
begin-recent r now q k a = elim (Bool-cases (blocks r now q a).0) [
  | inl b ↦ rw b (blocks-recent r now q k a)
  | inr b ↦ elim (Bool-cases (q.encrypted && not q.secret_valid)) [
    | inl s ↦ rw (b, s) (blocks-recent r now q k a)
    | inr s ↦ rw (b, s) (blocks-recent r now q k a)
  ]
]

begin-open :
    (r : RateLimiter) (now : ℕ) (q : Request) (a : Auth)
    → (begin r now q a).0 ≡ ok tt
    → (blocks r now q a).0 ≡ false
unfolding begin
begin-open r now q a = elim (Bool-cases (blocks r now q a).0) [
  | inl b ↦ rw b (λ h. absurd (ground (arith, h)))
  | inr b ↦ λ h. b
]

-- The times do not go back, and never more than a number of logins wait.
unfoldable pub InOrder : RateLimiter → ℕ → ℕ → ℕ → List Step → Logins → Type 0
InOrder r n start last [] l = start ≤ last
InOrder r n start last (asks now q ∷ ss) l =
    (start ≤ now)
    × (length (step r (asks now q) l).1 ≤ n)
    × InOrder r n now last ss (step r (asks now q) l)
InOrder r n start last (answers now i ∷ ss) l =
    (start ≤ now) × InOrder r n now last ss (step r (answers now i) l)

-- The steps in their order, oldest first.
unfoldable pub run : RateLimiter → List Step → Logins → Logins
run r [] l = l
run r (s ∷ ss) l = run r ss (step r s l)

Budget-later :
    (r : RateLimiter) (n time now : ℕ) (l : Logins)
    → time ≤ now
    → Budget r n time l
    → Budget r n now l
unfolding Budget
Budget-later r n time now (a, ws) h b user =
    omega (arith, b user, keep-later time now r.window (failures_of user a.failures) h)

entered-Budget :
    (r : RateLimiter) (n now : ℕ) (q : Request) (u : User) (a : Auth) (ws : List (Request × User))
    (x : Result (Unit {0}) × Auth)
    → Budget r n now (a, ws)
    → ((k : Text) → recent r now k x.1.failures ≡ recent r now k a.failures)
    → (x.0 ≡ ok tt → (k : Text) → weight k q ≡ 1 → recent r now k a.failures < r.max_failures)
    → length (entered q u ws x).1 ≤ n
    → Budget r n now (entered q u ws x)
unfolding Budget entered waiting
entered-Budget r n now q u a ws (err e, a') b same room few user = omega (arith, b user, same user)
entered-Budget r n now q u a ws (ok tt, a') b same room few user =
    elim (Bool-cases (weight user q == 1)) [
      | inl e ↦ omega (
        arith,
        same user,
        room refl user ((==_iff (weight user q) 1).0 e),
        few,
        waiting_le user ws,
        weight_le user q,
      )
      | inr e ↦
          let none_more : weight user q ≡ 0 = ground (arith, e, weight_le user q) in
          omega (arith, same user, b user, none_more)
    ]

step-asks :
    (r : RateLimiter) (n now : ℕ) (q : Request) (l : Logins)
    → Budget r n now l
    → length (step r (asks now q) l).1 ≤ n
    → Budget r n now (step r (asks now q) l)
unfolding step
step-asks r n now q (a, ws) b = go q.user
  where
    go :
        (o : Result User)
        → let l' = elim o as (λ y. Logins) [
          | err e ↦ (a, ws)
          | ok u ↦ entered q u ws (begin r now q a)
        ] in
          length l'.1 ≤ n → Budget r n now l'
    go (err e) few = b
    go (ok u) few =
        entered-Budget r n now q u a ws (begin r now q a) b (λ k. begin-recent r now q k a)
          (λ o k w. unblocked r now q k a (begin-open r now q a o) w) few

resumed-Budget :
    (r : RateLimiter) (n now : ℕ) (a : Auth) (ws : List (Request × User))
    (o : Option ((Request × User) × List (Request × User)))
    → Budget r n now (a, ws)
    → ((y : (Request × User) × List (Request × User))
        → o ≡ some y
        → (user : Text) → waiting user ws ≡ weight user y.0.0 + waiting user y.1)
    → Budget r n now (resumed now o (a, ws))
unfolding Budget resumed
resumed-Budget r n now a ws none b w user = b user
resumed-Budget r n now a ws (some ((q, u), rest)) b w user =
    omega (
      arith,
      b user,
      w ((q, u), rest) refl user,
      with_password-adds r now q u (password_of q) user a,
    )

step-answers :
    (r : RateLimiter) (n now i : ℕ) (l : Logins)
    → Budget r n now l
    → Budget r n now (step r (answers now i) l)
unfolding step
step-answers r n now i (a, ws) b =
    resumed-Budget r n now a ws (pick i ws) b (λ y e user. waiting-pick user i ws y e)

run-Budget :
    (r : RateLimiter) (n start last : ℕ) (ss : List Step) (l : Logins)
    → InOrder r n start last ss l
    → Budget r n start l
    → Budget r n last (run r ss l)
unfolding InOrder run
run-Budget r n start last [] l h b = Budget-later r n start last l h b
run-Budget r n start last (asks now q ∷ ss) l (t, few, h) b =
    run-Budget r n now last ss (step r (asks now q) l) h
      (step-asks r n now q l (Budget-later r n start now l t b) few)
run-Budget r n start last (answers now i ∷ ss) l (t, h) b =
    run-Budget r n now last ss (step r (answers now i) l) h
      (step-answers r n now i l (Budget-later r n start now l t b))

abbrev pub no_logins : Logins
no_logins = (record { failures = []; last_logins = []; sessions = [] }, [])

-- After any logins from no failures, of which at most `n` overlap, where `n` is not 0, a user name has at most
-- `n - 1` more failures in the window than the limit: with one at a time, the limit is kept. Each look at the
-- failures is a step, and the steps are in the order of time.
pub logins_capped :
    (r : RateLimiter) (n start last : ℕ) (ss : List Step) (user : Text)
    → 0 < n
    → InOrder r n start last ss no_logins
    → length (keep_recent last r.window (failures_of user (run r ss no_logins).0.failures))
      < r.max_failures + n
unfolding Budget failures_of get keep_recent waiting
logins_capped r n start last ss user p h =
    omega (arith, run-Budget r n start last ss no_logins h (λ k. omega (arith, p)) user)

-- A login that no other overlaps is its two steps.
pub login-run :
    (r : RateLimiter) (asked resumed : ℕ) (q : Request) (a : Auth)
    → (run r (asks asked q ∷ answers resumed 0 ∷ []) (a, [])).0 ≡ (login r asked resumed q a).1
unfolding run step login entered go_on pick resumed
login-run r asked resumed q a = go q.user
  where
    second : Logins → Logins
    second l = step r (answers resumed 0) l

    begun :
        (u : User) (x : Result (Unit {0}) × Auth)
        → (second (entered q u [] x)).0 ≡ (go_on resumed q u x).1
    begun u (err e, a') = refl
    begun u (ok tt, a') = refl

    go :
        (o : Result User)
        → (second (elim o as (λ y. Logins) [
          | err e ↦ (a, [])
          | ok u ↦ entered q u [] (begin r asked q a)
        ])).0
          ≡ (elim o as (λ y. Result (Unit {0}) × Auth) [
            | err e ↦ (err e, a)
            | ok u ↦ go_on resumed q u (begin r asked q a)
          ]).1
    go (err e) = refl
    go (ok u) = begun u (begin r asked q a)
