-- ===== src/Recipes/Resolved.antt =====
-- The parameters of a requirement, once those of the recipe are known.
use lnst.Prelude.{
  String, ◌≡◌, refl, ap, sym, ◌∙◌, subst, Option, none, some, [], ◌∷◌, ◌==◌, ==_iff, ==_self,
  string_eq, arith, count, Bool-cases, Option-cases, inl, inr, if◌then◌else◌,
}
use lnst.Prelude.Dict.{
  Dict, get, put, del, keys, IsDistinct, get-put, get-del, put-IsDistinct, del-IsDistinct,
  get-eq-none_of_count,
}
use lnst.Prelude.Exc.{ok, >>=-eq-ok}
use lnst.Recipes.{Setting, plain, linked, reinit_one, reinit_over, reinit_with_params}

module _ {U : Type 0} where
  -- The value that stands for a setting: a recipe's parameter by that name, the default, or none.
  abbrev pub resolved : Dict String U → Option (Setting U) → Option (Setting U)
  resolved recipe_params none = none
  resolved recipe_params (some (plain v)) = some (plain v)
  resolved recipe_params (some (linked val)) = elim (get recipe_params val.name) [
    | some v ↦ some (plain v)
    | none ↦ elim val.default [ some v ↦ some (plain v) | none ↦ none ]
  ]

  -- One name has another value, or none any more.
  Becomes : Dict String (Setting U) → Dict String (Setting U) → String → Option (Setting U) → Type 0
  Becomes params next name res =
      IsDistinct next × ((k : String) → get next k ≡ (if name == k then res else get params k))

  as_it_was :
      (params next : Dict String (Setting U)) (name : String) (res : Option (Setting U))
      → IsDistinct params
      → get params name ≡ res
      → ok params ≡ ok next
      → Becomes params next name res
  unfolding Becomes
  as_it_was params next name res d there h =
      subst (λ (p : Dict String (Setting U)). Becomes params p name res) {x = params} {y = next}
        (cc h)
        (
          d,
          λ k. elim (Bool-cases (name == k)) [
            | inl here ↦ rw here (cc ((==_iff name k).0 here, there))
            | inr away ↦ rw away refl
          ],
        )

  set_to :
      (params next : Dict String (Setting U)) (name : String) (v : Setting U)
      → IsDistinct params
      → ok (put params name v) ≡ ok next
      → Becomes params next name (some v)
  unfolding Becomes
  set_to params next name v d h =
      subst (λ (p : Dict String (Setting U)). Becomes params p name (some v))
        {x = put params name v} {y = next} (cc h)
        (put-IsDistinct params name v d, λ k. get-put params name k v)

  deleted :
      (params next : Dict String (Setting U)) (name : String)
      → IsDistinct params
      → ok (del params name) ≡ ok next
      → Becomes params next name none
  unfolding Becomes
  deleted params next name d h =
      subst (λ (p : Dict String (Setting U)). Becomes params p name none) {x = del params name}
        {y = next} (cc h) (del-IsDistinct params name d, λ k. get-del params name k (d name))

  as_resolved :
      (params next : Dict String (Setting U)) (name : String) {a b : Option (Setting U)}
      → a ≡ b
      → Becomes params next name a
      → Becomes params next name b
  as_resolved params next name e h =
      subst (λ (r : Option (Setting U)). Becomes params next name r) e h

  reinit_one_lem :
      (recipe_params : Dict String U) (params next : Dict String (Setting U)) (name : String)
      (val : Setting U)
      → IsDistinct params
      → get params name ≡ some val
      → reinit_one recipe_params params name val ≡ ok next
      → Becomes params next name (resolved recipe_params (some val))
  unfolding reinit_one
  reinit_one_lem recipe_params params next name (plain v) d there h =
      as_it_was params next name (some (plain v)) d there h
  reinit_one_lem recipe_params params next name (linked val) d there h =
      elim (Option-cases (get recipe_params val.name)) [
        | inr (v, given) ↦
            as_resolved params next name (sym (rw (resolved, given) refl))
              (set_to params next name (plain v) d (rw (reinit_one, given) at h))
        | inl missing ↦ elim (Option-cases val.default) [
          | inr (v, default) ↦
              as_resolved params next name (sym (rw (resolved, missing, default) refl))
                (set_to params next name (plain v) d (rw (reinit_one, missing, default) at h))
          | inl no_default ↦ elim (Bool-cases val.mandatory) [
            | inl mandatory ↦ absurd (cc (rw (reinit_one, missing, no_default, mandatory) at h))
            | inr optional ↦
                as_resolved params next name (sym (rw (resolved, missing, no_default) refl))
                  (deleted params next name d (rw (reinit_one, missing, no_default, optional) at h))
          ]
        ]
      ]

  abbrev over : Dict String U → Option (Setting U) → Option (Setting U) → Option (Setting U)
  over recipe_params none before = before
  over recipe_params (some v) before = resolved recipe_params (some v)

  reinit_over_lem :
      (recipe_params : Dict String U) (items params end : Dict String (Setting U))
      → IsDistinct params
      → IsDistinct items
      → ((k : String) (v : Setting U) → get items k ≡ some v → get params k ≡ some v)
      → reinit_over recipe_params params items ≡ ok end
      → (k : String) → get end k ≡ over recipe_params (get items k) (get params k)
  unfolding reinit_over Becomes get keys count
  reinit_over_lem recipe_params [] params end d di same h k = cc h
  reinit_over_lem recipe_params ((name, val) ∷ items) params end d di same h k =
      let r =
        >>=-eq-ok (reinit_one recipe_params params name val)
          (λ p. reinit_over recipe_params p items) {end = end} h in
      let one =
        reinit_one_lem recipe_params params r.0 name val d (same name val (rw (==_self name) refl))
          r.1 in
      let fresh = get-eq-none_of_count items name (ground (arith, di name, ==_self name)) in
      let rest =
        reinit_over_lem recipe_params items r.0 end one.0 (λ j. ground (arith, di j))
          (λ j v there. elim (Bool-cases (name == j)) [
            | inl here ↦ absurd (cc ((==_iff name j).0 here, there, fresh))
            | inr away ↦ rw (one.1 j, away) (same j v (rw (get, away) there))
          ])
          r.2 k in
      elim (Bool-cases (name == k)) [
        | inl here ↦
            let lost = ap (λ j. get items j) (sym ((==_iff name k).0 here)) ∙ fresh in
            rw here (rest ∙ rw (lost, one.1 k, here) refl)
        | inr away ↦ rw away (rest ∙ rw (one.1 k, away) refl)
      ]

  -- Where reinit_with_params raises nothing, each name stands for its value: of the recipe's
  -- parameter that it is linked to, or else its default; a name without either is gone.
  pub reinit_with_params_lem :
      (recipe_params : Dict String U) (params end : Dict String (Setting U))
      → IsDistinct params
      → reinit_with_params recipe_params params ≡ ok end
      → (k : String) → get end k ≡ resolved recipe_params (get params k)
  unfolding reinit_with_params
  reinit_with_params_lem recipe_params params end d h k =
      reinit_over_lem recipe_params params params end d d (λ j v there. there) h k
      ∙ by_cases (get params k)
    where
      by_cases : (o : Option (Setting U)) → over recipe_params o o ≡ resolved recipe_params o
      by_cases none = refl
      by_cases (some v) = refl
