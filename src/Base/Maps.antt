-- ===== src/Base/Maps.antt =====
-- Maps with texts as keys, as lists of entries.
use Prim.Native.String.{String}
use text.Mathlib.TextEquality.{eq_iff}
use text.Mathlib.TextPositions.{eq_refl}
use mathlib.Core.Path.{◌≡◌, refl, sym}
use mathlib.Core.Logic.{inl, inr}
use mathlib.Core.Bool.{false}
use mathlib.Core.List.{List, [], ◌∷◌}
use mathlib.Core.Option.{Option, none, some}
use rakka_inference.Base.Tests.{if◌then◌else◌, Bool-cases}
use rakka_inference.Base.Text.{str_eq}
use rakka_inference.Base.Lists.{All}

module _ {ℓ} {V : Type ℓ} where
  unfoldable pub get : List (String × V) → String → Option V
  get [] key = none
  get ((k, v) ∷ m) key = let later = get m key in if str_eq k key then some v else later

  unfoldable pub insert : List (String × V) → String → V → List (String × V)
  insert [] key value = (key, value) ∷ []
  insert ((k, v) ∷ m) key value =
      let later = insert m key value in if str_eq k key then (k, value) ∷ m else (k, v) ∷ later

  unfoldable pub remove : List (String × V) → String → List (String × V)
  remove [] key = []
  remove ((k, v) ∷ m) key =
      let later = remove m key in if str_eq k key then later else (k, v) ∷ later

  -- What is written under a key is read there, and reads elsewhere do not change.
  pub get-insert_same :
      (m : List (String × V)) (key : String) (value : V) → get (insert m key value) key ≡ some value
  unfolding get insert
  get-insert_same [] key value = rw (eq_refl key) refl
  get-insert_same ((k, v) ∷ m) key value = elim (Bool-cases (str_eq k key)) [
    | inl e ↦ rw (e, insert, get) (rw e refl)
    | inr e ↦ rw (e, insert, get) (rw e (get-insert_same m key value))
  ]

  get-insert_other :
      (m : List (String × V)) (key : String) (value : V) (other : String)
      → str_eq key other ≡ false
      → get (insert m key value) other ≡ get m other
  unfolding get insert
  get-insert_other [] key value other d = rw d refl
  get-insert_other ((k, v) ∷ m) key value other d = elim (Bool-cases (str_eq k key)) [
    | inl e ↦
        let there : str_eq k other ≡ false = rw ((eq_iff k key).0 e) d in
        rw (e, insert, get) (rw there refl)
    | inr e ↦ rw (e, insert, get) (rw (get-insert_other m key value other d) refl)
  ]

  get-remove_same : (m : List (String × V)) (key : String) → get (remove m key) key ≡ none
  unfolding get remove
  get-remove_same [] key = refl
  get-remove_same ((k, v) ∷ m) key = elim (Bool-cases (str_eq k key)) [
    | inl e ↦ rw (e, remove) (get-remove_same m key)
    | inr e ↦ rw (e, remove, get) (rw e (get-remove_same m key))
  ]

  get-remove_other :
      (m : List (String × V)) (key other : String)
      → str_eq key other ≡ false
      → get (remove m key) other ≡ get m other
  unfolding get remove
  get-remove_other [] key other d = refl
  get-remove_other ((k, v) ∷ m) key other d = elim (Bool-cases (str_eq k key)) [
    | inl e ↦
        let there : str_eq k other ≡ false = rw ((eq_iff k key).0 e) d in
        rw (e, remove) (rw there (get-remove_other m key other d))
    | inr e ↦ rw (e, remove, get) (rw (get-remove_other m key other d) refl)
  ]

  pub All-insert {κ} :
      (P : String × V → Type κ) (m : List (String × V)) (key : String) (value : V)
      → P (key, value)
      → All P m
      → All P (insert m key value)
  unfolding insert
  All-insert P [] key value p a = (p, tt)
  All-insert P ((k, v) ∷ m) key value p a = elim (Bool-cases (str_eq k key)) [
    | inl e ↦ rw (e, insert) (rw ((eq_iff k key).0 e) p, a.1)
    | inr e ↦ rw (e, insert) (a.0, All-insert P m key value p a.1)
  ]

  pub All-remove {κ} :
      (P : String × V → Type κ) (m : List (String × V)) (key : String)
      → All P m
      → All P (remove m key)
  unfolding remove
  All-remove P [] key a = tt
  All-remove P ((k, v) ∷ m) key a = elim (Bool-cases (str_eq k key)) [
    | inl e ↦ rw (e, remove) (All-remove P m key a.1)
    | inr e ↦ rw (e, remove) (a.0, All-remove P m key a.1)
  ]

  -- Any read after a write, and after a removal.
  pub get-insert :
      (m : List (String × V)) (key : String) (value : V) (name : String)
      → get (insert m key value) name ≡ (if str_eq key name then some value else get m name)
  get-insert m key value name = elim (Bool-cases (str_eq key name)) [
    | inl e ↦ rw e (rw (sym ((eq_iff key name).0 e)) (get-insert_same m key value))
    | inr e ↦ rw e (get-insert_other m key value name e)
  ]

  pub get-remove :
      (m : List (String × V)) (key name : String)
      → get (remove m key) name ≡ (if str_eq key name then none else get m name)
  get-remove m key name = elim (Bool-cases (str_eq key name)) [
    | inl e ↦ rw e (rw (sym ((eq_iff key name).0 e)) (get-remove_same m key))
    | inr e ↦ rw e (get-remove_other m key name e)
  ]
