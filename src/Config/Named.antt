-- ===== src/Config/Named.antt =====
-- The options of a section by their names.
use lnst.Prelude.{
  String, ◌≡◌, ◌≤◌, refl, ap, subst, Option, some, List, [], ◌∷◌, true, ◌==◌, ==_iff, ==_self,
  string_eq, arith, elem, count, Bool-cases, inl, inr,
}
use lnst.Prelude.Dict.{get, put, keys, IsDistinct, count_of_get}
use lnst.Config.{Opt, Section, find_option_by_name}

module _ {V : Type 0} where
  unfoldable pub names_of : Section V → List String
  names_of [] = []
  names_of ((k, o) ∷ section) = o.name ∷ names_of section

  pub names_of-put :
      (section : Section V) (k : String) (o : Opt V) (v : V)
      → get section k ≡ some o
      → names_of (put section k (record o { value = v })) ≡ names_of section
  unfolding names_of put get
  names_of-put [] k o v h = absurd (cc)
  names_of-put ((j, w) ∷ section) k o v h = elim (Bool-cases (j == k)) [
    | inl here ↦ rw (put, here) (cc (rw here at h))
    | inr away ↦ rw (put, away) (cc (names_of-put section k o v (rw away at h)))
  ]

  pair_of :
      {j k : String} {w o : Opt V}
      → ◌≡◌ {A = Option (String × Opt V)} (some (j, w)) (some (k, o))
      → (j ≡ k) × (w ≡ o)
  pair_of h = (cc, cc)

  pub find_lem :
      (section : Section V) (name k : String) (o : Opt V)
      → IsDistinct section
      → find_option_by_name section name ≡ some (k, o)
      → (get section k ≡ some o) × (o.name ≡ name) × (elem name (names_of section) ≡ true)
  unfolding find_option_by_name names_of get keys count elem
  find_lem [] name k o d h = absurd (cc)
  find_lem ((j, w) ∷ section) name k o d h = elim (Bool-cases (w.name == name)) [
    | inl found ↦
        let e = pair_of (rw (find_option_by_name, found) at h) in
        (
          rw (get, e.0, ==_self k) (ap some e.1),
          cc (e.1, (==_iff w.name name).0 found),
          rw (elem, found) refl,
        )
    | inr passed ↦
        let r =
          find_lem section name k o (λ i. ground (arith, d i))
            (rw (find_option_by_name, passed) at h) in
        (
          elim (Bool-cases (j == k)) [
            | inl here ↦ absurd (ground (arith, here, d k, count_of_get section k {v = o} r.0))
            | inr away ↦ rw (get, away) r.0
          ],
          r.1,
          rw (elem, passed) r.2,
        )
  ]

  count_of_name :
      (section : Section V) (k : String) (o : Opt V)
      → get section k ≡ some o
      → 1 ≤ count o.name (names_of section)
  unfolding get names_of count
  count_of_name [] k o h = absurd (cc)
  count_of_name ((j, w) ∷ section) k o h = elim (Bool-cases (j == k)) [
    | inl here ↦
        let same : w ≡ o = cc (rw (get, here) at h) in
        subst (λ (p : Opt V). 1 ≤ count p.name (w.name ∷ names_of section)) same
          (rw (count, ==_self w.name) (omega arith))
    | inr away ↦ ground (arith, count_of_name section k o (rw (get, away) at h))
  ]

  -- Where the names are distinct, an option is found by its name.
  pub found_once :
      (section : Section V) (k j : String) (o p : Opt V)
      → ((name : String) → count name (names_of section) ≤ 1)
      → get section k ≡ some o
      → find_option_by_name section o.name ≡ some (j, p)
      → k ≡ j
  unfolding find_option_by_name names_of get count
  found_once [] k j o p d h f = absurd (cc)
  found_once ((i, w) ∷ section) k j o p d h f = elim (Bool-cases (w.name == o.name)) [
    | inl found ↦
        let e = pair_of (rw (find_option_by_name, found) at f) in
        elim (Bool-cases (i == k)) [
          | inl here ↦ cc (e.0, (==_iff i k).0 here)
          | inr away ↦
              absurd
                (ground (arith, found, d o.name, count_of_name section k o (rw (get, away) at h)))
        ]
    | inr passed ↦ elim (Bool-cases (i == k)) [
      | inl here ↦
          let same : w ≡ o = cc (rw (get, here) at h) in
          absurd (cc (passed, ap (λ (q : Opt V). q.name) same, ==_self w.name))
      | inr away ↦
          found_once section k j o p (λ n. ground (arith, d n)) (rw (get, away) at h)
            (rw (find_option_by_name, passed) at f)
    ]
  ]

  -- No two options have one name.
  abbrev pub AreNamed : Section V → Type 0
  AreNamed section = (name : String) → count name (names_of section) ≤ 1
