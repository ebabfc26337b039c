-- ===== src/Recipes/Built.antt =====
-- A recipe that is built from the class's parameters and requirements and the given values.
use lnst.Prelude.{
  String, ◌≡◌, refl, ap, sym, ◌∙◌, subst, Option, none, some, [], ◌∷◌, false, ◌==◌, ==_iff, ==_self,
  string_eq, arith, count, ◌≤◌, Bool-cases, Option-cases, inl, inr, ◌⊎◌, if◌then◌else◌,
}
use lnst.Prelude.Dict.{
  Dict, get, del, keys, IsDistinct, get-put, get-del, del-IsDistinct, get-eq-none_of_count,
}
use lnst.Prelude.Exc.{Result, ok, err, recipe_error, >>=-eq-ok}
use lnst.Recipes.{
  Param, Setting, DeviceReq, HostReq, Recipe, reinit_with_params, reinit_devices, reinit_host,
  reinit_hosts, param_value, set_param, init_params, init_recipe,
}
use lnst.Recipes.Resolved.{resolved, reinit_with_params_lem}

module _ {U : Type 0} where
  -- The parameters that result, and what is left of the given values.
  record HasRead (attrs : Dict String (Param U)) (kwargs params end left : Dict String U)
      : Type 0 where
    values :
        (name : String) (val : Param U)
        → get attrs name ≡ some val
        → param_value val (get kwargs name) ≡ ok (get end name)
    others : (name : String) → get attrs name ≡ none → get end name ≡ get params name
    unread : (name : String) → get attrs name ≡ none → get left name ≡ get kwargs name

  get-set_param :
      (params : Dict String U) (name k : String) (v : Option U)
      → get params name ≡ none
      → get (set_param params name v) k ≡ (if name == k then v else get params k)
  get-set_param params name k none h = elim (Bool-cases (name == k)) [
    | inl here ↦ rw here (ap (λ j. get params j) (sym ((==_iff name k).0 here)) ∙ h)
    | inr away ↦ rw away refl
  ]
  get-set_param params name k (some v) h = get-put params name k v

  get-del_other :
      (d : Dict String U) (k j : String)
      → count k (keys d) ≤ 1
      → k == j ≡ false
      → get (del d k) j ≡ get d j
  get-del_other d k j h away = rw (get-del d k j h, away) refl

  init_params-HasRead :
      (attrs : Dict String (Param U)) (kwargs params end left : Dict String U)
      → IsDistinct attrs
      → IsDistinct kwargs
      → ((k : String) (val : Param U) → get attrs k ≡ some val → get params k ≡ none)
      → init_params attrs kwargs params ≡ ok (end, left)
      → HasRead attrs kwargs params end left
  unfolding init_params get keys count
  init_params-HasRead [] kwargs params end left da dk new h = record {
    values = λ name val there. absurd (cc);
    others = λ name gone. cc (h);
    unread = λ name gone. cc (h);
  }
  init_params-HasRead ((attr, val) ∷ attrs) kwargs params end left da dk new h =
      let v =
        >>=-eq-ok (param_value val (get kwargs attr))
          (λ v. init_params attrs (del kwargs attr) (set_param params attr v)) {end = (end, left)}
          h in
      let fresh = get-eq-none_of_count attrs attr (ground (arith, da attr, ==_self attr)) in
      let empty = new attr val (rw (==_self attr) refl) in
      let rest =
        init_params-HasRead attrs (del kwargs attr) (set_param params attr v.0) end left
          (λ j. ground (arith, da j)) (del-IsDistinct kwargs attr dk)
          (λ k w there. elim (Bool-cases (attr == k)) [
            | inl here ↦ absurd (cc ((==_iff attr k).0 here, there, fresh))
            | inr away ↦
                rw (get-set_param params attr k v.0 empty, away) (new k w (rw (get, away) there))
          ])
          v.2 in
      record {
        values = λ name w there. elim (Bool-cases (attr == name)) [
          | inl here ↦
              let is_val : val ≡ w = cc (rw (get, here) at there) in
              let found =
                rest.others attr fresh
                ∙ rw (get-set_param params attr attr v.0 empty, ==_self attr) refl in
              subst (λ (n : String). param_value w (get kwargs n) ≡ ok (get end n))
                ((==_iff attr name).0 here)
                (subst (λ (p : Param U). param_value p (get kwargs attr) ≡ ok (get end attr))
                  {x = val} {y = w} is_val (v.1 ∙ ap ok (sym found)))
          | inr away ↦
              ap (λ (g : Option U). param_value w g)
                (sym (get-del_other kwargs attr name (dk attr) away))
              ∙ rest.values name w (rw (get, away) at there)
        ];
        others = λ name gone. elim (Bool-cases (attr == name)) [
          | inl here ↦ absurd (cc (rw (get, here) at gone))
          | inr away ↦
              rest.others name (rw (get, away) at gone)
              ∙ rw (get-set_param params attr name v.0 empty, away) refl
        ];
        unread = λ name gone. elim (Bool-cases (attr == name)) [
          | inl here ↦ absurd (cc (rw (get, here) at gone))
          | inr away ↦
              rest.unread name (rw (get, away) at gone)
              ∙ get-del_other kwargs attr name (dk attr) away
        ];
      }

-- The settings of the parameters are resolved by those of the recipe.
abbrev pub AreResolved :
    {U : Type 0} → Dict String U → Dict String (Setting U) → Dict String (Setting U) → Type 0
AreResolved recipe_params params end =
    (k : String) → get end k ≡ resolved recipe_params (get params k)

-- The dictionaries of a requirement have distinct keys.
pub record IsReq {U : Type 0} (host : HostReq U) : Type 0 where
  pub params : IsDistinct host.params
  pub devices :
      (k : String) (dev : DeviceReq U) → get host.devices k ≡ some dev → IsDistinct dev.params

-- A host requirement with its devices, all resolved; labels stay.
pub record IsInstance {U : Type 0} (recipe_params : Dict String U) (host end : HostReq U)
    : Type 0 where
  pub params : AreResolved recipe_params host.params end.params
  pub devices :
      (k : String) (dev : DeviceReq U)
      → get host.devices k ≡ some dev
      → (e : DeviceReq U) × (get end.devices k ≡ some e)
        × (e.label ≡ dev.label)
        × AreResolved recipe_params dev.params e.params

module _ {U : Type 0} (recipe_params : Dict String U) where
  reinit_devices_lem :
      (devices end : Dict String (DeviceReq U)) (k : String) (dev : DeviceReq U)
      → reinit_devices recipe_params devices ≡ ok end
      → get devices k ≡ some dev
      → (e : DeviceReq U) × (get end k ≡ some e)
        × (e.label ≡ dev.label)
        × (reinit_with_params recipe_params dev.params ≡ ok e.params)
  unfolding reinit_devices get
  reinit_devices_lem [] end k dev h there = absurd (cc)
  reinit_devices_lem ((j, dev_req) ∷ devices) end k dev h there =
      let p = >>=-eq-ok (reinit_with_params recipe_params dev_req.params) _ {end = end} h in
      let r =
        >>=-eq-ok (reinit_devices recipe_params devices)
          (λ rest. ok ((j, record dev_req { params = p.0 }) ∷ rest)) {end = end} p.2 in
      let built : (j, record dev_req { params = p.0 }) ∷ r.0 ≡ end = cc r.2 in
      elim (Bool-cases (j == k)) [
        | inl here ↦
            let is_dev : dev_req ≡ dev = cc (rw (get, here) at there) in
            (
              record dev_req { params = p.0 },
              ap (λ d. get d k) (sym built) ∙ rw (get, here) refl,
              ap (λ (d : DeviceReq U). d.label) is_dev,
              subst (λ (d : DeviceReq U). reinit_with_params recipe_params d.params ≡ ok p.0) is_dev
                  p.1,
            )
        | inr away ↦
            let a = reinit_devices_lem devices r.0 k dev r.1 (rw (get, away) at there) in
            (a.0, ap (λ d. get d k) (sym built) ∙ rw (get, away) a.1, a.2, a.3)
      ]

  reinit_host-IsInstance :
      (host end : HostReq U)
      → IsReq host
      → reinit_host recipe_params host ≡ ok end
      → IsInstance recipe_params host end
  unfolding reinit_host
  reinit_host-IsInstance host end o h =
      let p = >>=-eq-ok (reinit_with_params recipe_params host.params) _ {end = end} h in
      let ds =
        >>=-eq-ok (reinit_devices recipe_params host.devices)
          (λ ds. ok (record { params = p.0; devices = ds })) {end = end} p.2 in
      subst (λ (g : HostReq U). IsInstance recipe_params host g)
        {x = record { params = p.0; devices = ds.0 }} {y = end} (cc ds.2)
        (record {
          params = reinit_with_params_lem recipe_params host.params p.0 o.params p.1;
          devices = λ k dev there.
              let a = reinit_devices_lem host.devices ds.0 k dev ds.1 there in
              (
                a.0,
                a.1,
                a.2,
                reinit_with_params_lem recipe_params dev.params a.0.params (o.devices k dev there)
                    a.3,
              );
        })

  reinit_hosts_lem :
      (hosts end : Dict String (HostReq U)) (k : String) (host : HostReq U)
      → reinit_hosts recipe_params hosts ≡ ok end
      → get hosts k ≡ some host
      → (g : HostReq U) × (get end k ≡ some g) × (reinit_host recipe_params host ≡ ok g)
  unfolding reinit_hosts get
  reinit_hosts_lem [] end k host h there = absurd (cc)
  reinit_hosts_lem ((j, req) ∷ hosts) end k host h there =
      let g = >>=-eq-ok (reinit_host recipe_params req) _ {end = end} h in
      let r =
        >>=-eq-ok (reinit_hosts recipe_params hosts) (λ rest. ok ((j, g.0) ∷ rest)) {end = end}
          g.2 in
      let built : (j, g.0) ∷ r.0 ≡ end = cc r.2 in
      elim (Bool-cases (j == k)) [
        | inl here ↦ (
          g.0,
          ap (λ d. get d k) (sym built) ∙ rw (get, here) refl,
          subst (λ (d : HostReq U). reinit_host recipe_params d ≡ ok g.0) {x = req} {y = host}
              (cc (rw (get, here) at there)) g.1,
        )
        | inr away ↦
            let a = reinit_hosts_lem hosts r.0 k host r.1 (rw (get, away) at there) in
            (a.0, ap (λ d. get d k) (sym built) ∙ rw (get, away) a.1, a.2)
      ]

-- The value that a parameter ends with, from what is given for it: that, as its type check leaves
-- it, or its default, or none where it has no default and is not mandatory.
abbrev pub IsValue : {U : Type 0} → Param U → Option U → Option U → Type 0
IsValue {U = U} val (some given) end = (v : U) × (val.type_check given ≡ ok v) × (end ≡ some v)
IsValue {U = U} val none end =
    ((d : U) × (val.default ≡ some d) × (end ≡ some d))
    ⊎ ((val.default ≡ none) × (val.mandatory ≡ false) × (end ≡ none))

param_value-IsValue :
    {U : Type 0} (val : Param U) (given end : Option U)
    → param_value val given ≡ ok end
    → IsValue val given end
unfolding param_value
param_value-IsValue val (some given) end h =
    let r = >>=-eq-ok (val.type_check given) (λ v. ok (some v)) {end = end} h in
    (r.0, r.1, cc (r.2))
param_value-IsValue val none end h = elim (Option-cases val.default) [
  | inr (d, there) ↦ inl (d, there, cc (rw (param_value, there) at h))
  | inl missing ↦ elim (Bool-cases val.mandatory) [
    | inl needed ↦ absurd (cc (rw (param_value, missing, needed) at h))
    | inr optional ↦ inr (missing, optional, cc (rw (param_value, missing, optional) at h))
  ]
]

-- What BaseRecipe() leaves.
pub record IsBuilt {U : Type 0} (attrs : Dict String (Param U)) (reqs : Dict String (HostReq U))
    (kwargs : Dict String U) (r : Recipe U) : Type 0 where
  pub values :
      (name : String) (val : Param U)
      → get attrs name ≡ some val
      → IsValue val (get kwargs name) (get r.params name)
  pub others :
      (name : String)
      → get attrs name ≡ none
      → (get r.params name ≡ none) × (get kwargs name ≡ none)
  pub hosts :
      (k : String) (host : HostReq U)
      → get reqs k ≡ some host
      → (g : HostReq U) × (get r.req k ≡ some g) × IsInstance r.params host g

nothing_left :
    {U : Type 0} (left : Dict String U) (q r : Recipe U)
    → elim left as (λ l. Result (Recipe U)) [ [] ↦ ok q | kv ∷ more ↦ err recipe_error ] ≡ ok r
    → (left ≡ []) × (q ≡ r)
nothing_left [] q r h = (refl, cc h)
nothing_left (kv ∷ more) q r h = absurd (cc h)

-- If BaseRecipe() raises nothing, every value that it is given belongs to a parameter of the class;
-- each of these has the value that is given for it, checked, or its default, and only an optional
-- one has none; and the requirements are those of the class, with each of their parameters, and of
-- their devices', resolved by the recipe's.
pub init_recipe-IsBuilt :
    {U : Type 0} (attrs : Dict String (Param U)) (reqs : Dict String (HostReq U))
    (kwargs : Dict String U) (r : Recipe U)
    → IsDistinct attrs
    → IsDistinct kwargs
    → ((k : String) (host : HostReq U) → get reqs k ≡ some host → IsReq host)
    → init_recipe attrs reqs kwargs ≡ ok r
    → IsBuilt attrs reqs kwargs r
unfolding init_recipe get
init_recipe-IsBuilt {U = U} attrs reqs kwargs r da dk o h =
    let p = >>=-eq-ok (init_params attrs kwargs []) _ {end = r} h in
    let hs =
      >>=-eq-ok (reinit_hosts p.0.0 reqs)
        (λ hosts. elim (p.0.1) [
          | [] ↦ ok (record { params = p.0.0; req = hosts })
          | kv ∷ more ↦ err recipe_error
        ])
        {end = r} p.2 in
    let e = nothing_left p.0.1 (record { params = p.0.0; req = hs.0 }) r hs.2 in
    let read = init_params-HasRead attrs kwargs [] p.0.0 p.0.1 da dk (λ k val there. refl) p.1 in
    subst (λ (q : Recipe U). IsBuilt attrs reqs kwargs q)
      {x = record { params = p.0.0; req = hs.0 }} {y = r} e.1
      (record {
        values = λ name val there.
            param_value-IsValue val (get kwargs name) (get p.0.0 name) (read.values name val there);
        others = λ name gone. (
          read.others name gone,
          sym (read.unread name gone) ∙ ap (λ (l : Dict String U). get l name) e.0,
        );
        hosts = λ k host there.
            let g = reinit_hosts_lem p.0.0 reqs hs.0 k host hs.1 there in
            (g.0, g.1, reinit_host-IsInstance p.0.0 host g.0 (o k host there) g.2);
      })
