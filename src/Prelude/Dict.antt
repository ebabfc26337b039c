-- ===== src/Prelude/Dict.antt =====
-- Python's `dict`: an association list in insertion order, over keys with an equality.
use Prim.Native.Nat.{suc, ◌+◌, ◌≤◌, ◌<◌}
use mathlib.Core.Path.{◌≡◌, refl}
use mathlib.Core.Logic.{inl, inr}
use mathlib.Core.Bool.{Bool, true, false}
use mathlib.Core.Option.{Option, none, some}
use mathlib.Core.List.{List, [], ◌∷◌}
use native.Mathlib.Omega.{arith}
use lnst.Prelude.Tests.{Eq, ◌==◌, if◌then◌else◌, ==_iff, Bool-cases}
use lnst.Prelude.Lists.{count}

abbrev pub Dict {ℓ κ} : Type ℓ → Type κ → Type (ℓ ⊔ κ)
Dict K V = List (K × V)

module _ {ℓ κ} {K : Type ℓ} {V : Type κ} where
  -- list(d.keys())
  unfoldable pub keys : Dict K V → List K
  keys [] = []
  keys ((k, v) ∷ d) = k ∷ keys d

  -- list(d.values())
  unfoldable pub values : Dict K V → List V
  values [] = []
  values ((k, v) ∷ d) = v ∷ values d

module _ {ℓ κ} {K : Type ℓ} {V : Type κ} ⦃e : Eq K⦄ where
  -- d.get(k)
  unfoldable pub get : Dict K V → K → Option V
  get [] k = none
  get ((j, v) ∷ d) k = if j == k then some v else get d k

  -- k in d
  unfoldable pub has : Dict K V → K → Bool
  unfolding get
  has d k = elim (get d k) [ none ↦ false | some v ↦ true ]

  -- d[k] = v: a key that is there keeps its place.
  unfoldable pub put : Dict K V → K → V → Dict K V
  put [] k v = (k, v) ∷ []
  put ((j, w) ∷ d) k v = if j == k then (j, v) ∷ d else (j, w) ∷ put d k v

  -- del d[k], where the key is there; d.pop(k, None)
  unfoldable pub del : Dict K V → K → Dict K V
  del [] k = []
  del ((j, w) ∷ d) k = if j == k then d else (j, w) ∷ del d k

  -- The keys of a `dict` are distinct.
  abbrev pub IsDistinct : Dict K V → Type ℓ
  IsDistinct d = (k : K) → count k (keys d) ≤ 1

  pub get-put :
      (d : Dict K V) (k j : K) (v : V) → get (put d k v) j ≡ (if k == j then some v else get d j)
  unfolding get put
  get-put [] k j v = refl
  get-put ((i, w) ∷ d) k j v = ground (arith, ==_iff k j, ==_iff i k, ==_iff i j, get-put d k j v)

  pub count-keys-put :
      (d : Dict K V) (k j : K) (v : V)
      → count j (keys (put d k v)) ≡ (
          if k == j
          then (if has d k then count j (keys d) else suc (count j (keys d)))
          else count j (keys d))
  unfolding get put has keys count
  count-keys-put [] k j v = ground arith
  count-keys-put ((i, w) ∷ d) k j v =
      ground (arith, ==_iff k j, ==_iff i k, ==_iff i j, count-keys-put d k j v)

  pub get-eq-none_iff-count : (d : Dict K V) (k : K) → get d k ≡ none → count k (keys d) ≡ 0
  unfolding get keys count
  get-eq-none_iff-count [] k h = refl
  get-eq-none_iff-count ((i, w) ∷ d) k h = ground (arith, get-eq-none_iff-count d k)

  pub get-eq-none_of_count : (d : Dict K V) (k : K) → count k (keys d) ≡ 0 → get d k ≡ none
  unfolding get keys count
  get-eq-none_of_count [] k h = refl
  get-eq-none_of_count ((i, w) ∷ d) k h = ground (arith, get-eq-none_of_count d k)

  pub put-IsDistinct : (d : Dict K V) (k : K) (v : V) → IsDistinct d → IsDistinct (put d k v)
  unfolding has
  put-IsDistinct d k v h j = ground (
    arith,
    h j,
    count-keys-put d k j v,
    ==_iff k j,
    get-eq-none_iff-count d k,
    get-eq-none_iff-count d j,
  )

  pub count-keys-del :
      (d : Dict K V) (k j : K)
      → count j (keys (del d k)) + (if k == j then (if has d k then 1 else 0) else 0)
        ≡ count j (keys d)
  unfolding get del has keys count
  count-keys-del [] k j = ground arith
  count-keys-del ((i, w) ∷ d) k j =
      ground (arith, ==_iff k j, ==_iff i k, ==_iff i j, count-keys-del d k j)

  pub del-IsDistinct : (d : Dict K V) (k : K) → IsDistinct d → IsDistinct (del d k)
  del-IsDistinct d k h j = omega (arith, h j, count-keys-del d k j)

  -- Over distinct keys, a deleted key is gone and the others keep their values.
  pub get-del :
      (d : Dict K V) (k j : K)
      → count k (keys d) ≤ 1
      → get (del d k) j ≡ (if k == j then none else get d j)
  unfolding get del keys count
  get-del [] k j h = ground arith
  get-del ((i, w) ∷ d) k j h =
      ground (arith, ==_iff k j, ==_iff i k, ==_iff i j, get-del d k j, get-eq-none_of_count d j)

  -- Taking out what was put in at a new key gives the dictionary back.
  pub del-put_absent : (d : Dict K V) (k : K) (v : V) → has d k ≡ false → del (put d k v) k ≡ d
  unfolding get has put del
  del-put_absent [] k v h = ground (arith, ==_iff k k)
  del-put_absent ((i, w) ∷ d) k v h = ground (arith, ==_iff i k, del-put_absent d k v)

  pub get_of_has : (d : Dict K V) (k : K) → has d k ≡ true → (v : V) × (get d k ≡ some v)
  unfolding has
  get_of_has d k h = ground arith

  pub has_of_get : (d : Dict K V) (k : K) {v : V} → get d k ≡ some v → has d k ≡ true
  unfolding has
  has_of_get d k h = ground arith

  pub get-put_self : (d : Dict K V) (k : K) (v : V) → get (put d k v) k ≡ some v
  get-put_self d k v = rw get-put (ground (arith, ==_iff k k))

  pub get_of_count : (d : Dict K V) (k : K) → 0 < count k (keys d) → (v : V) × (get d k ≡ some v)
  unfolding get keys count
  get_of_count [] k h = absurd (omega arith)
  get_of_count ((i, w) ∷ d) k h = elim (Bool-cases (i == k)) [
    | inl same ↦ (w, rw same)
    | inr other ↦
        let r : (v : V) × (get d k ≡ some v) = get_of_count d k (rw other at h) in
        (r.0, rw other r.1)
  ]

  pub count_of_get : (d : Dict K V) (k : K) {v : V} → get d k ≡ some v → 0 < count k (keys d)
  unfolding get keys count
  count_of_get [] k h = absurd (cc)
  count_of_get ((i, w) ∷ d) k {v = v} h = ground (arith, count_of_get d k {v = v})
