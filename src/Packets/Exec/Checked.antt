-- ===== src/Packets/Exec/Checked.antt =====
-- Methods that may also panic, which is `none`.
use snowpack.Prelude.{◌≡◌, refl, ◌∙◌, ap, Option, none, some, Result, ok, err}
use snowpack.Packets.Exec.{Exec, continue}

abbrev pub CheckedExec : Type 0 → Type 0 → Type 0 → Type 0
CheckedExec S E A = S → Option (Result A E × S)

-- A method without a slice.
abbrev pub lift : {S E A : Type 0} → Exec S E A → CheckedExec S E A
lift m s = some (m s)

module _ {S E A B : Type 0} where
  abbrev pub go_on : Option (Result A E × S) → (A → CheckedExec S E B) → Option (Result B E × S)
  go_on none f = none
  go_on (some (ok a, s)) f = f a s
  go_on (some (err e, s)) f = some (err e, s)

  infixl 5 ◌>>=◌
  abbrev pub ◌>>=◌ : CheckedExec S E A → (A → CheckedExec S E B) → CheckedExec S E B
  ◌>>=◌ m f s = go_on (m s) f

module _ {S E B : Type 0} where
  infixl 5 ◌>>◌
  abbrev pub ◌>>◌ : CheckedExec S E (Unit {0}) → CheckedExec S E B → CheckedExec S E B
  m >> k = m >>= λ _. k

-- From a state in which it holds, a call does not panic, and it holds again.
module _ {S E : Type 0} (Holds : S → Type 0) where
  abbrev pub Keeps : {A : Type 0} → CheckedExec S E A → Exec S E A → Type 0
  Keeps m' m = (s : S) → Holds s → (m' s ≡ some (m s)) × Holds (m s).1

  module _ {A B : Type 0} where
    Keeps-go_on :
        (f' : A → CheckedExec S E B) (f : A → Exec S E B)
        → ((a : A) → Keeps (f' a) (f a))
        → (r : Result A E) (s : S) → Holds s
        → (go_on (some (r, s)) f' ≡ some (continue r f s)) × Holds (continue r f s).1
    Keeps-go_on f' f h (ok a) s k = h a s k
    Keeps-go_on f' f h (err e) s k = (refl, k)

    pub Keeps-bind :
        (m' : CheckedExec S E A) (m : Exec S E A) (f' : A → CheckedExec S E B) (f : A → Exec S E B)
        → Keeps m' m
        → ((a : A) → Keeps (f' a) (f a))
        → Keeps (m' >>= f') (λ s. let (r, s') = m s in continue r f s')
    Keeps-bind m' m f' f h k s holds =
        let (same, kept) = h s holds in
        let (rest, end) = Keeps-go_on f' f k (m s).0 (m s).1 kept in
        (ap (λ q. go_on q f') same ∙ rest, end)
