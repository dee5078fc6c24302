-- ===== src/Base/Dict.antt =====
-- `HashMap<u16, V>` and `HashMap<u64, V>`: association lists that hold a key at most once.
-- A hash map has no order; the order of the list stands for the order of an iteration.
use Prim.Native.Nat.{ℕ}
use mathlib.Core.Path.{◌≡◌, refl, subst₂}
use mathlib.Core.Logic.{inl, inr}
use mathlib.Core.Bool.{Bool, true, false}
use mathlib.Core.Option.{Option, none, some}
use mathlib.Core.List.{List, [], ◌∷◌}
use native.Mathlib.Omega.{arith}
use netmuxd.Base.Tests.{◌==◌, if◌then◌else◌, ==_iff, Bool-cases}
use netmuxd.Base.Lists.{All}

abbrev pub contains : List ℕ → ℕ → Bool
contains [] k = false
contains (j ∷ js) k = if j == k then true else contains js k

module _ {ℓ} {V : Type ℓ} where
  unfoldable pub get : ℕ → List (ℕ × V) → Option V
  get k [] = none
  get k ((j, v) ∷ m) = if j == k then some v else get k m

  unfoldable pub remove : ℕ → List (ℕ × V) → List (ℕ × V)
  remove k [] = []
  remove k ((j, v) ∷ m) = let rest = remove k m in if j == k then rest else (j, v) ∷ rest

  unfoldable pub insert : ℕ → V → List (ℕ × V) → List (ℕ × V)
  insert k v m = (k, v) ∷ remove k m

  abbrev pub keys : List (ℕ × V) → List ℕ
  keys [] = []
  keys ((k, v) ∷ m) = k ∷ keys m

  pub get-remove :
      (k j : ℕ) (m : List (ℕ × V)) → get j (remove k m) ≡ (if k == j then none else get j m)
  unfolding get remove
  get-remove k j [] = ground arith
  get-remove k j ((i, v) ∷ m) = ground (arith, get-remove k j m)

  pub get-insert :
      (k j : ℕ) (v : V) (m : List (ℕ × V))
      → get j (insert k v m) ≡ (if k == j then some v else get j m)
  unfolding get insert
  get-insert k j v m = ground (arith, get-remove k j m)

  pub All-remove {κ} :
      (P : ℕ × V → Type κ) (k : ℕ) (m : List (ℕ × V)) → All P m → All P (remove k m)
  unfolding remove
  All-remove P k [] h = tt
  All-remove P k ((j, v) ∷ m) h = ground (arith, All-remove P k m h.1)

  pub All-insert {κ} :
      (P : ℕ × V → Type κ) (k : ℕ) (v : V) (m : List (ℕ × V))
      → P (k, v)
      → All P m
      → All P (insert k v m)
  unfolding insert
  All-insert P k v m p h = (p, All-remove P k m h)

  pub All-get {κ} :
      (P : ℕ × V → Type κ) (k : ℕ) (m : List (ℕ × V)) {v : V}
      → All P m
      → get k m ≡ some v
      → P (k, v)
  unfolding get
  All-get P k [] h e = absurd (ground arith)
  All-get P k ((j, w) ∷ m) {v} h e = elim (Bool-cases (j == k)) [
    | inl hit ↦ subst₂ (λ a b. P (a, b)) ((==_iff j k).0 hit) (ground arith) h.0
    | inr miss ↦ All-get P k m h.1 (ground arith)
  ]

  unfoldable pub remove_each : List ℕ → List (ℕ × V) → List (ℕ × V)
  remove_each [] m = m
  remove_each (k ∷ ks) m = remove_each ks (remove k m)

  abbrev AreIn : List ℕ → List (ℕ × V) → Type 0
  AreIn ks [] = Unit {0}
  AreIn ks ((k, v) ∷ m) = (contains ks k ≡ true) × AreIn ks m

  AreIn-cons : (k : ℕ) (ks : List ℕ) (m : List (ℕ × V)) → AreIn ks m → AreIn (k ∷ ks) m
  AreIn-cons k ks [] h = tt
  AreIn-cons k ks ((j, v) ∷ m) h = (ground arith, AreIn-cons k ks m h.1)

  AreIn-keys : (m : List (ℕ × V)) → AreIn (keys m) m
  AreIn-keys [] = tt
  AreIn-keys ((k, v) ∷ m) = (ground arith, AreIn-cons k (keys m) m (AreIn-keys m))

  AreIn-remove : (k : ℕ) (ks : List ℕ) (m : List (ℕ × V)) → AreIn (k ∷ ks) m → AreIn ks (remove k m)
  unfolding remove
  AreIn-remove k ks [] h = tt
  AreIn-remove k ks ((j, v) ∷ m) h = ground (arith, AreIn-remove k ks m h.1)

  remove_each_all : (ks : List ℕ) (m : List (ℕ × V)) → AreIn ks m → remove_each ks m ≡ []
  unfolding remove_each
  remove_each_all [] [] h = refl
  remove_each_all [] ((k, v) ∷ m) h = absurd (ground arith)
  remove_each_all (k ∷ ks) m h = remove_each_all ks (remove k m) (AreIn-remove k ks m h)

  -- Nothing is left once every key is removed.
  pub remove_each-keys : (m : List (ℕ × V)) → remove_each (keys m) m ≡ []
  remove_each-keys m = remove_each_all (keys m) m (AreIn-keys m)
