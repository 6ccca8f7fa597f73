-- ===== src/Packets/Exec.antt =====
-- Methods that change a state and may fail with `?`: what was changed before a failure stays changed.
pub mod Checked
use snowpack.Prelude.{◌≡◌, refl, ◌⊎◌, inr, Result, ok, err}

abbrev pub Exec : Type 0 → Type 0 → Type 0 → Type 0
Exec S E A = S → Result A E × S

module _ {S E A B : Type 0} where
  abbrev pub continue : Result A E → (A → Exec S E B) → Exec S E B
  continue (ok a) f s = f a s
  continue (err e) f s = (err e, s)

  infixl 5 ◌>>=◌
  abbrev pub ◌>>=◌ : Exec S E A → (A → Exec S E B) → Exec S E B
  ◌>>=◌ m f s = let (r, s') = m s in continue r f s'

module _ {S E B : Type 0} where
  infixl 5 ◌>>◌
  abbrev pub ◌>>◌ : Exec S E (Unit {0}) → Exec S E B → Exec S E B
  m >> k = m >>= λ _. k

abbrev pub pure : {S E A : Type 0} → A → Exec S E A
pure a s = (ok a, s)

-- Something that is asked of the state and does not change it.
abbrev pub ask : {S E A : Type 0} → (S → Result A E) → Exec S E A
ask f s = (f s, s)

-- A chain that succeeds: its first call does, and so does the rest from where that call ended.
module _ {S E A B : Type 0} where
  continue-eq_ok :
      (r : Result A E) (f : A → Exec S E B) (s' : S) (b : B)
      → (continue r f s').0 ≡ ok b
      → (a : A) × (r ≡ ok a) × ((f a s').0 ≡ ok b)
  continue-eq_ok (ok a) f s' b e = (a, refl, e)
  continue-eq_ok (err x) f s' b e = cc

  pub bind-eq_ok :
      (m : Exec S E A) (f : A → Exec S E B) (s : S) (b : B)
      → ((m >>= f) s).0 ≡ ok b
      → (a : A) × (s' : S) × (m s ≡ (ok a, s')) × ((f a s').0 ≡ ok b)
  bind-eq_ok m f s b e =
      let (a, first, rest) = continue-eq_ok (m s).0 f (m s).1 b e in
      (a, (m s).1, λ i. (first i, (m s).1), rest)

  pub ask-eq_ok :
      (q : S → Result A E) (f : A → Exec S E B) (s : S) (b : B)
      → ((ask q >>= f) s).0 ≡ ok b
      → (a : A) × (q s ≡ ok a) × ((f a s).0 ≡ ok b)
  ask-eq_ok q f s b e = continue-eq_ok (q s) f s b e

  continue-state :
      (r : Result A E) (f : A → Exec S E B) (s : S)
      → ((a : A) → (f a s).1 ≡ s)
      → (continue r f s).1 ≡ s
  continue-state (ok a) f s h = h a
  continue-state (err x) f s h = refl

  pub ask-state :
      (q : S → Result A E) (f : A → Exec S E B) (s : S)
      → ((a : A) → (f a s).1 ≡ s)
      → ((ask q >>= f) s).1 ≡ s
  ask-state q f s h = continue-state (q s) f s h

  continue-either :
      {P : Type 0} (r : Result A E) (f g : A → Exec S E B) (s : S)
      → ((a : A) → r ≡ ok a → P ⊎ (f a s ≡ g a s))
      → P ⊎ (continue r f s ≡ continue r g s)
  continue-either (ok a) f g s h = h a refl
  continue-either (err x) f g s h = inr refl

  -- Two chains with the same first call.
  pub bind-either :
      {P : Type 0} (m : Exec S E A) (f g : A → Exec S E B) (s : S)
      → ((a : A) (s' : S) → m s ≡ (ok a, s') → P ⊎ (f a s' ≡ g a s'))
      → P ⊎ ((m >>= f) s ≡ (m >>= g) s)
  bind-either m f g s h =
      continue-either (m s).0 f g (m s).1 (λ a e. h a (m s).1 (λ i. (e i, (m s).1)))
