-- ===== src/Local/Run/Values.antt =====
-- What holds of the value of a run, if it ends with one.
use rakka_inference.Local.Run.{Run, fail, panicked, pure, returned, ◌>>=◌}
use rakka_inference.Base.{Bool, Result, err, false, if◌then◌else◌, ok, refl, subst, true, ◌≡◌}

-- A run that does not run out of fuel, and whose value, if any, is one of which `P` holds.
pub data Yields {A E : Type 0} (P : A → Type 0) : Run A E → Type 0 where
  value : (a : A) → P a → Yields P (pure a)
  failure : (e : E) → Yields P (fail e)
  panics : Yields P panicked

pub Yields-bind :
    {A B E : Type 0} (P : A → Type 0) (Q : B → Type 0) (m : Run A E) (f : A → Run B E)
    → Yields P m
    → ((a : A) → m ≡ pure a → Yields Q (f a))
    → Yields Q (m >>= f)
Yields-bind P Q m f (value a p) h = h a refl
Yields-bind P Q m f (failure e) h = failure e
Yields-bind P Q m f panics h = panics

pub Yields-if :
    {A E : Type 0} (P : A → Type 0) (b : Bool) (m n : Run A E)
    → Yields P m
    → Yields P n
    → Yields P (if b then m else n)
Yields-if P true m n hm hn = hm
Yields-if P false m n hm hn = hn

pub result_Yields : {A E : Type 0} (r : Result A E) → Yields {A = A} (λ _. Unit) (returned r)
result_Yields (ok a) = value a tt
result_Yields (err e) = failure e

ok_injective : {A E : Type 0} (a b : A) → ◌≡◌ {A = Run A E} (pure a) (pure b) → a ≡ b
ok_injective a b e = cc

pub valued : {A E : Type 0} (P : A → Type 0) (m : Run A E) (a : A) → m ≡ pure a → Yields P m → P a
valued P m a e (value b p) = subst P (ok_injective b a e) p
valued P m a e (failure x) = absurd (cc)
valued P m a e panics = absurd (cc)

pub returned_ok :
    {A E : Type 0} (r : Result A E) (a : A) → ◌≡◌ {A = Run A E} (returned r) (pure a) → r ≡ ok a
returned_ok (ok x) a e = cc
returned_ok (err x) a e = absurd (cc)
