-- ===== src/State.antt =====
-- Go methods with an error result that change a state: the error ends the rest, and the state stays as
-- it is by then.
use video_meeting_recorder.Common.{◌≡◌, refl, sym, ap, subst}
use video_meeting_recorder.Errors.{Error, Result, ok, err}

abbrev pub St : Type 0 → Type 0 → Type 0
St S A = S → Result A × S

ok_injective : {A : Type 0} (a b : A) → ok a ≡ ok b → a ≡ b
ok_injective a b h = cc

ok-ne-err : {A : Type 0} (a : A) (e : Error) → ok a ≡ err e → ⊥
ok-ne-err a e h = cc

module _ {S : Type 0} where
  infixl 5 ◌>>=◌ ◌>>◌
  abbrev pub ◌>>=◌ : {A B : Type 0} → St S A → (A → St S B) → St S B
  ◌>>=◌ m f s = let (r, s') = m s in elim r [ err e ↦ (err e, s') | ok a ↦ f a s' ]

  abbrev pub ◌>>◌ : {A B : Type 0} → St S A → St S B → St S B
  m >> k = m >>= λ a. k

  abbrev pub lift : {A : Type 0} → Result A → St S A
  lift r s = (r, s)

  -- An error that the code only logs.
  abbrev pub ignore : {A : Type 0} → St S A → St S (Unit {0})
  ignore m s = (ok tt, (m s).1)

  -- How a call ends: what holds of its value and the state, or of the state after an error.
  pub record Ends {A : Type 0} (Q : A → S → Type 0) (E : S → Type 0) (r : Result A × S)
      : Type 0 where
    pub value : (a : A) → r.0 ≡ ok a → Q a r.1
    pub failure : (e : Error) → r.0 ≡ err e → E r.1

  abbrev pub Does : {A : Type 0} → (S → Type 0) → St S A → (A → S → Type 0) → (S → Type 0) → Type 0
  Does P m Q E = (s : S) → P s → Ends Q E (m s)

  pub returns :
      {A : Type 0} (Q : A → S → Type 0) (E : S → Type 0) (a : A) (s : S)
      → Q a s
      → Ends Q E (ok a, s)
  returns Q E a s q = record {
    value = λ b h. subst (λ x. Q x s) (ok_injective a b h) q;
    failure = λ e h. absurd (ok-ne-err a e h);
  }

  pub raises :
      {A : Type 0} (Q : A → S → Type 0) (E : S → Type 0) (e : Error) (s : S)
      → E s
      → Ends Q E (err e, s)
  raises Q E e s p = record { value = λ b h. absurd (ok-ne-err b e (sym h)); failure = λ x h. p }

  pub does_bind :
      {A B : Type 0} (P : S → Type 0) (Q : A → S → Type 0) (R : B → S → Type 0) (E : S → Type 0)
      (m : St S A) (f : A → St S B)
      → Does P m Q E
      → ((a : A) → Does (Q a) (f a) R E)
      → Does P (m >>= f) R E
  does_bind {A} {B} P Q R E m f k l s p = go (m s) (k s p)
    where
      go :
          (r : Result A × S)
          → Ends Q E r
          → Ends R E (elim r.0 as (λ x. Result B × S) [ err e ↦ (err e, r.1) | ok a ↦ f a r.1 ])
      go (ok a, t) w = l a t (w.value a refl)
      go (err e, t) w = raises R E e t (w.failure e refl)

  pub does_lift :
      {A : Type 0} (P : S → Type 0) (Q : A → S → Type 0) (E : S → Type 0) (r : Result A)
      → ((a : A) (s : S) → r ≡ ok a → P s → Q a s)
      → ((s : S) → P s → E s)
      → Does P (lift r) Q E
  does_lift P Q E (ok a) h g s p = returns Q E a s (h a s refl p)
  does_lift P Q E (err e) h g s p = raises Q E e s (g s p)

  pub does_ignore :
      {A : Type 0} (P : S → Type 0) (R E : S → Type 0) (m : St S A)
      → Does P m (λ a. R) R
      → Does P (ignore m) (λ u. R) E
  does_ignore {A} P R E m k s p = go (m s) (k s p)
    where
      go : (r : Result A × S) → Ends (λ a. R) R r → Ends (λ (u : Unit {0}). R) E (ok tt, r.1)
      go (ok a, t) w = returns (λ u. R) E tt t (w.value a refl)
      go (err e, t) w = returns (λ u. R) E tt t (w.failure e refl)

  -- A bind goes on from a known value and state.
  pub bind_ok :
      {A B : Type 0} (m : St S A) (f : A → St S B) (s s' : S) (a : A)
      → m s ≡ (ok a, s')
      → (m >>= f) s ≡ f a s'
  bind_ok {A} {B} m f s s' a h =
      ap
        (λ (r : Result A × S). elim r.0 as (λ x. Result B × S) [
          | err e ↦ (err e, r.1)
          | ok b ↦ f b r.1
        ])
        h
