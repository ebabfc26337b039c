-- ===== src/PerfList/Units.antt =====
-- PerfList: its items keep one unit.
use lnst.Prelude.{
  ℕ, zero, suc, ◌≡◌, subst, Bool, not, List, [], ◌∷◌, ◌++◌, Eq, ==_iff, All, All-append, arith,
}
use lnst.Prelude.Exc.{Result, ok, guard, lnst_error, ◌>>=◌, ◌>>◌, >>=-eq-ok}
use lnst.PerfList.{
  validate_item, append, validate_all, extend, insert_at, insert, replace_at, set_item,
}

-- One call that changes a list.
pub data Change (A : Type 0) : Type 0 where
  appended : A → Change A
  extended : List A → Change A
  inserted replaced : ℕ → A → Change A

ok_injective : {A : Type 0} {x y : A} → ok x ≡ ok y → x ≡ y
ok_injective e = cc

module _ {A U : Type 0} ⦃eq_u : Eq U⦄ (is_perf is_list : A → Bool) (unit : A → U) where
  abbrev pub HasUnit : U → List A → Type 0
  HasUnit u xs = All (λ a. unit a ≡ u) xs

  -- A list with items, that all have the unit.
  abbrev pub IsPerfList : U → List A → Type 0
  IsPerfList u [] = ⊥
  IsPerfList u (x ∷ xs) = HasUnit u (x ∷ xs)

  abbrev pub change : List A → Change A → Result (List A)
  change xs (appended a) = append is_perf unit xs a
  change xs (extended items) = extend is_perf unit xs items
  change xs (inserted i a) = insert is_perf unit xs i a
  change xs (replaced i a) = set_item is_perf unit is_list xs i a

  abbrev pub changes : List A → List (Change A) → Result (List A)
  changes xs [] = ok xs
  changes xs (c ∷ cs) = change xs c >>= λ ys. changes ys cs

  validate_item_lem :
      (u : U) (xs : List A) (a : A) {v : Unit {0}}
      → IsPerfList u xs
      → validate_item is_perf unit xs a ≡ ok v
      → unit a ≡ u
  unfolding validate_item
  validate_item_lem u [] a h e = absurd h
  validate_item_lem u (x ∷ xs) a h e = ground (arith, e, h.0, ==_iff (unit a) (unit x))

  validate_all_lem :
      (u : U) (xs items : List A) {v : Unit {0}}
      → IsPerfList u xs
      → validate_all is_perf unit xs items ≡ ok v
      → HasUnit u items
  unfolding validate_all
  validate_all_lem u xs [] h e = tt
  validate_all_lem u xs (a ∷ items) {v = v} h e =
      let r =
        >>=-eq-ok (validate_item is_perf unit xs a) (λ w. validate_all is_perf unit xs items)
          {end = v} e in
      (validate_item_lem u xs a {v = r.0} h r.1, validate_all_lem u xs items {v = v} h r.2)

  append-IsPerfList :
      (u : U) (xs ys : List A) → IsPerfList u xs → HasUnit u ys → IsPerfList u (xs ++ ys)
  append-IsPerfList u [] ys h k = absurd h
  append-IsPerfList u (x ∷ xs) ys h k = (h.0, All-append (λ a. unit a ≡ u) xs ys h.1 k)

  insert_at-HasUnit :
      (u : U) (i : ℕ) (a : A) (xs : List A)
      → HasUnit u xs
      → unit a ≡ u
      → HasUnit u (insert_at is_perf unit i a xs)
  unfolding insert_at
  insert_at-HasUnit u zero a xs h e = (e, h)
  insert_at-HasUnit u (suc i) a [] h e = (e, tt)
  insert_at-HasUnit u (suc i) a (x ∷ xs) h e = (h.0, insert_at-HasUnit u i a xs h.1 e)

  insert_at-IsPerfList :
      (u : U) (i : ℕ) (a : A) (xs : List A)
      → IsPerfList u xs
      → unit a ≡ u
      → IsPerfList u (insert_at is_perf unit i a xs)
  unfolding insert_at
  insert_at-IsPerfList u i a [] h e = absurd h
  insert_at-IsPerfList u zero a (x ∷ xs) h e = (e, h)
  insert_at-IsPerfList u (suc i) a (x ∷ xs) h e = (h.0, insert_at-HasUnit u i a xs h.1 e)

  all_of : (u : U) (xs : List A) → IsPerfList u xs → HasUnit u xs
  all_of u [] h = absurd h
  all_of u (x ∷ xs) h = h

  replace_at-HasUnit :
      (u : U) (i : ℕ) (a : A) (xs : List A) {ys : List A}
      → HasUnit u xs
      → unit a ≡ u
      → replace_at is_perf unit i a xs ≡ ok ys
      → HasUnit u ys
  unfolding replace_at
  replace_at-HasUnit u i a [] h e f = absurd (cc)
  replace_at-HasUnit u zero a (x ∷ xs) {ys = ys} h e f =
      subst (λ (o : List A). HasUnit u o) (ok_injective f) (e, h.1)
  replace_at-HasUnit u (suc i) a (x ∷ xs) {ys = ys} h e f =
      let r = >>=-eq-ok (replace_at is_perf unit i a xs) (λ zs. ok (x ∷ zs)) {end = ys} f in
      subst (λ (o : List A). HasUnit u o) (ok_injective r.2)
        (h.0, replace_at-HasUnit u i a xs {ys = r.0} h.1 e r.1)

  replace_at_nonempty :
      (u : U) (i : ℕ) (a : A) (xs : List A) {ys : List A}
      → HasUnit u ys
      → replace_at is_perf unit i a xs ≡ ok ys
      → IsPerfList u ys
  unfolding replace_at
  replace_at_nonempty u i a [] h f = absurd (cc)
  replace_at_nonempty u i a (x ∷ xs) {ys = y ∷ ys} h f = h
  replace_at_nonempty u zero a (x ∷ xs) {ys = []} h f = absurd (cc)
  replace_at_nonempty u (suc i) a (x ∷ xs) {ys = []} h f =
      let r = >>=-eq-ok (replace_at is_perf unit i a xs) (λ zs. ok (x ∷ zs)) {end = []} f in
      absurd (cc (r.2))

  change_lem :
      (u : U) (xs : List A) (c : Change A) {ys : List A}
      → IsPerfList u xs
      → change xs c ≡ ok ys
      → IsPerfList u ys
  unfolding append extend insert set_item
  change_lem u xs (appended a) {ys = ys} h e =
      let r = >>=-eq-ok (validate_item is_perf unit xs a) (λ v. ok (xs ++ (a ∷ []))) {end = ys} e in
      subst (λ (o : List A). IsPerfList u o) (ok_injective r.2)
        (append-IsPerfList u xs (a ∷ []) h (validate_item_lem u xs a {v = r.0} h r.1, tt))
  change_lem u xs (extended items) {ys = ys} h e =
      let r = >>=-eq-ok (validate_all is_perf unit xs items) (λ v. ok (xs ++ items)) {end = ys} e in
      subst (λ (o : List A). IsPerfList u o) (ok_injective r.2)
        (append-IsPerfList u xs items h (validate_all_lem u xs items {v = r.0} h r.1))
  change_lem u xs (inserted i a) {ys = ys} h e =
      let r =
        >>=-eq-ok (validate_item is_perf unit xs a) (λ v. ok (insert_at is_perf unit i a xs))
          {end = ys} e in
      subst (λ (o : List A). IsPerfList u o) (ok_injective r.2)
        (insert_at-IsPerfList u i a xs h (validate_item_lem u xs a {v = r.0} h r.1))
  change_lem u xs (replaced i a) {ys = ys} h e =
      let r =
        >>=-eq-ok (guard (not (is_list a)) lnst_error >> validate_item is_perf unit xs a)
          (λ v. replace_at is_perf unit i a xs) {end = ys} e in
      let item =
        >>=-eq-ok (guard (not (is_list a)) lnst_error) (λ v. validate_item is_perf unit xs a)
          {end = r.0} r.1 in
      let good =
        replace_at-HasUnit u i a xs {ys = ys} (all_of u xs h)
          (validate_item_lem u xs a {v = r.0} h item.2) r.2 in
      replace_at_nonempty u i a xs {ys = ys} good r.2

  -- A list with items, all of one unit, keeps items, all of that unit, through every sequence of
  -- append, extend, insert and assignment to one position that raises nothing.
  pub changes-IsPerfList :
      (u : U) (xs : List A) (cs : List (Change A)) (ys : List A)
      → IsPerfList u xs
      → changes xs cs ≡ ok ys
      → IsPerfList u ys
  changes-IsPerfList u xs [] ys h e = subst (λ (o : List A). IsPerfList u o) (ok_injective e) h
  changes-IsPerfList u xs (c ∷ cs) ys h e =
      let r = >>=-eq-ok (change xs c) (λ zs. changes zs cs) {end = ys} e in
      changes-IsPerfList u r.0 cs ys (change_lem u xs c {ys = r.0} h r.1) r.2
