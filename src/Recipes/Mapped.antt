-- ===== src/Recipes/Mapped.antt =====
-- What the mapper is given of a recipe's requirements.
use lnst.Prelude.{
  String, ◌≡◌, refl, ap, sym, ◌∙◌, subst, Option, none, some, List, [], ◌∷◌, ◌==◌, ==_iff, ==_self,
  string_eq, arith, count, All, Bool-cases, Option-cases, inl, inr,
}
use lnst.Prelude.Dict.{
  Dict, get, keys, IsDistinct, put-IsDistinct, del-IsDistinct, get-eq-none_of_count,
}
use lnst.Prelude.Exc.{Result, ok, err, recipe_error, >>=-eq-ok}
use lnst.Mapper.Defs.{Iface, Host, Hosts}
use lnst.Recipes.{
  Param, RecipeParam, Setting, plain, linked, DeviceReq, HostReq, Recipe, reinit_one, reinit_over,
  reinit_with_params, reinit_devices, reinit_host, reinit_hosts, init_params, init_recipe,
  params_to_dict, device_to_dict, devices_to_dict, host_to_dict, to_dict,
}
use lnst.Recipes.Resolved.{resolved, reinit_with_params_lem}

abbrev Settings : Type 0
Settings = Dict String (Setting String)

same_settings : {p q : Settings} → ok p ≡ ok q → p ≡ q
same_settings h = cc

reinit_one-IsDistinct :
    (recipe_params : Dict String String) (params next : Settings) (name : String)
    (val : Setting String)
    → IsDistinct params
    → reinit_one recipe_params params name val ≡ ok next
    → IsDistinct next
unfolding reinit_one
reinit_one-IsDistinct recipe_params params next name (plain v) d h =
    subst (λ (p : Settings). IsDistinct p) (same_settings h) d
reinit_one-IsDistinct recipe_params params next name (linked val) d h =
    elim (Option-cases (get recipe_params val.name)) [
      | inr (v, given) ↦
          subst (λ (p : Settings). IsDistinct p) (same_settings (rw (reinit_one, given) at h))
            (put-IsDistinct params name (plain v) d)
      | inl missing ↦ elim (Option-cases val.default) [
        | inr (v, default) ↦
            subst (λ (p : Settings). IsDistinct p)
              (same_settings (rw (reinit_one, missing, default) at h))
              (put-IsDistinct params name (plain v) d)
        | inl no_default ↦ elim (Bool-cases val.mandatory) [
          | inl mandatory ↦ absurd (cc (rw (reinit_one, missing, no_default, mandatory) at h))
          | inr optional ↦
              subst (λ (p : Settings). IsDistinct p)
                (same_settings (rw (reinit_one, missing, no_default, optional) at h))
                (del-IsDistinct params name d)
        ]
      ]
    ]

reinit_over-IsDistinct :
    (recipe_params : Dict String String) (items params end : Settings)
    → IsDistinct params
    → reinit_over recipe_params params items ≡ ok end
    → IsDistinct end
unfolding reinit_over
reinit_over-IsDistinct recipe_params [] params end d h =
    subst (λ (p : Settings). IsDistinct p) (same_settings h) d
reinit_over-IsDistinct recipe_params ((name, val) ∷ items) params end d h =
    let r =
      >>=-eq-ok (reinit_one recipe_params params name val) (λ p. reinit_over recipe_params p items)
        {end = end} h in
    reinit_over-IsDistinct recipe_params items r.0 end
      (reinit_one-IsDistinct recipe_params params r.0 name val d r.1) r.2

-- No parameter of the recipe stands for a value any more.
ArePlain : Settings → Type 0
ArePlain params =
    (k : String) (val : Setting String) → get params k ≡ some val → (v : String) × (val ≡ plain v)

resolved-plain :
    (recipe_params : Dict String String) (o : Option (Setting String)) (val : Setting String)
    → resolved recipe_params o ≡ some val
    → (v : String) × (val ≡ plain v)
resolved-plain recipe_params none val h = absurd (cc)
resolved-plain recipe_params (some (plain v)) val h = (v, cc h)
resolved-plain recipe_params (some (linked l)) val h =
    elim (Option-cases (get recipe_params l.name)) [
      | inr (v, given) ↦ (v, cc (rw (resolved, given) at h))
      | inl missing ↦ elim (Option-cases l.default) [
        | inr (v, default) ↦ (v, cc (rw (resolved, missing, default) at h))
        | inl no_default ↦ absurd (cc (rw (resolved, missing, no_default) at h))
      ]
    ]

not_plain : (l : RecipeParam String) (v : String) → linked l ≡ plain v → ⊥
not_plain l v h = cc

plain_to_dict :
    (params : Settings)
    → IsDistinct params
    → ArePlain params
    → (d : Dict String String) × (params_to_dict params ≡ some d)
unfolding ArePlain params_to_dict get keys count
plain_to_dict [] d p = ([], refl)
plain_to_dict ((name, linked l) ∷ params) d p =
    let v = p name (linked l) (rw (get, ==_self name) refl) in absurd (not_plain l v.0 v.1)
plain_to_dict ((name, plain v) ∷ params) d p =
    let fresh = get-eq-none_of_count params name (ground (arith, d name, ==_self name)) in
    let rest =
      plain_to_dict params (λ j. ground (arith, d j))
        (λ k val there. elim (Bool-cases (name == k)) [
          | inl here ↦ absurd (cc ((==_iff name k).0 here, there, fresh))
          | inr away ↦ p k val (rw (get, away) there)
        ]) in
    ((name, v) ∷ rest.0, rw (params_to_dict, rest.1) refl)

reinit_with_params-to_dict :
    (recipe_params : Dict String String) (params end : Settings)
    → IsDistinct params
    → reinit_with_params recipe_params params ≡ ok end
    → (d : Dict String String) × (params_to_dict end ≡ some d)
unfolding reinit_with_params ArePlain
reinit_with_params-to_dict recipe_params params end d h =
    plain_to_dict end (reinit_over-IsDistinct recipe_params params params end d h) (λ k val there.
      resolved-plain recipe_params (get params k) val
        (sym (reinit_with_params_lem recipe_params params end d h k) ∙ there))

-- The parameters of a host requirement have distinct names, and so have each device's.
abbrev pub AreDistinct : HostReq String → Type 0
AreDistinct host =
    IsDistinct host.params
    × All (λ (e : String × DeviceReq String). IsDistinct (e.1).params) host.devices

reinit_devices-to_dict :
    (recipe_params : Dict String String) (devices end : Dict String (DeviceReq String))
    → All (λ (e : String × DeviceReq String). IsDistinct (e.1).params) devices
    → reinit_devices recipe_params devices ≡ ok end
    → (d : Dict String Iface) × (devices_to_dict end ≡ some d) × (keys d ≡ keys devices)
unfolding reinit_devices devices_to_dict device_to_dict keys
reinit_devices-to_dict recipe_params [] end ds h = ([], ap devices_to_dict (sym (same h)), refl)
  where
    same : {p q : Dict String (DeviceReq String)} → ok p ≡ ok q → p ≡ q
    same h = cc
reinit_devices-to_dict recipe_params ((name, dev) ∷ devices) end ds h =
    let p = >>=-eq-ok (reinit_with_params recipe_params dev.params) _ {end = end} h in
    let r =
      >>=-eq-ok (reinit_devices recipe_params devices)
        (λ rest. ok ((name, record dev { params = p.0 }) ∷ rest)) {end = end} p.2 in
    let built : (name, record dev { params = p.0 }) ∷ r.0 ≡ end = cc r.2 in
    let d = reinit_with_params-to_dict recipe_params dev.params p.0 ds.0 p.1 in
    let rest = reinit_devices-to_dict recipe_params devices r.0 ds.1 r.1 in
    (
      (name, record { network = dev.label; params = d.0 }) ∷ rest.0,
      ap devices_to_dict (sym built) ∙ rw (devices_to_dict, device_to_dict, d.1, rest.1) refl,
      ap (λ (ks : List String). name ∷ ks) rest.2,
    )

reinit_host-to_dict :
    (recipe_params : Dict String String) (host end : HostReq String)
    → AreDistinct host
    → reinit_host recipe_params host ≡ ok end
    → (h : Host) × (host_to_dict end ≡ some h) × (keys h.interfaces ≡ keys host.devices)
unfolding reinit_host host_to_dict
reinit_host-to_dict recipe_params host end ds h =
    let p = >>=-eq-ok (reinit_with_params recipe_params host.params) _ {end = end} h in
    let r =
      >>=-eq-ok (reinit_devices recipe_params host.devices)
        (λ ds. ok (record { params = p.0; devices = ds })) {end = end} p.2 in
    let built : record { params = p.0; devices = r.0 } ≡ end = cc r.2 in
    let d = reinit_with_params-to_dict recipe_params host.params p.0 ds.0 p.1 in
    let is = reinit_devices-to_dict recipe_params host.devices r.0 ds.1 r.1 in
    (
      record { interfaces = is.0; params = d.0 },
      ap host_to_dict (sym built) ∙ rw (host_to_dict, d.1, is.1) refl,
      is.2,
    )

-- Each host has the interfaces of its requirement, in their order.
abbrev pub SameInterfaces : Hosts → Dict String (HostReq String) → Type 0
SameInterfaces [] [] = Unit
SameInterfaces [] (req ∷ reqs) = ⊥
SameInterfaces (host ∷ hosts) [] = ⊥
SameInterfaces ((k, host) ∷ hosts) ((name, req) ∷ reqs) =
    (k ≡ name) × (keys host.interfaces ≡ keys req.devices) × SameInterfaces hosts reqs

reinit_hosts-to_dict :
    (recipe_params : Dict String String) (reqs end : Dict String (HostReq String))
    → All (λ (e : String × HostReq String). AreDistinct e.1) reqs
    → reinit_hosts recipe_params reqs ≡ ok end
    → (hosts : Hosts) × (to_dict end ≡ some hosts) × SameInterfaces hosts reqs
unfolding reinit_hosts to_dict
reinit_hosts-to_dict recipe_params [] end ds h = ([], ap to_dict (sym (same h)), tt)
  where
    same : {p q : Dict String (HostReq String)} → ok p ≡ ok q → p ≡ q
    same h = cc
reinit_hosts-to_dict recipe_params ((name, host) ∷ reqs) end ds h =
    let g = >>=-eq-ok (reinit_host recipe_params host) _ {end = end} h in
    let r =
      >>=-eq-ok (reinit_hosts recipe_params reqs) (λ rest. ok ((name, g.0) ∷ rest)) {end = end}
        g.2 in
    let built : (name, g.0) ∷ r.0 ≡ end = cc r.2 in
    let d = reinit_host-to_dict recipe_params host g.0 ds.0 g.1 in
    let rest = reinit_hosts-to_dict recipe_params reqs r.0 ds.1 r.1 in
    (
      (name, d.0) ∷ rest.0,
      ap to_dict (sym built) ∙ rw (to_dict, d.1, rest.1) refl,
      (refl, d.2, rest.2),
    )

only_recipe :
    (left : Dict String String) (q r : Recipe String)
    → elim left as (λ l. Result (Recipe String)) [ [] ↦ ok q | kv ∷ more ↦ err recipe_error ] ≡ ok r
    → q ≡ r
only_recipe [] q r h = cc h
only_recipe (kv ∷ more) q r h = absurd (cc h)

-- If BaseRecipe() raises nothing, for parameters that are texts and requirements with distinct names
-- of parameters, then the mapper can be given the requirements: no parameter of the recipe stands
-- for a value any more, and the hosts are those of the class, each with its devices as interfaces.
pub init_recipe-to_dict :
    (attrs : Dict String (Param String)) (reqs : Dict String (HostReq String))
    (kwargs : Dict String String) (r : Recipe String)
    → All (λ (e : String × HostReq String). AreDistinct e.1) reqs
    → init_recipe attrs reqs kwargs ≡ ok r
    → (hosts : Hosts) × (to_dict r.req ≡ some hosts) × SameInterfaces hosts reqs
unfolding init_recipe
init_recipe-to_dict attrs reqs kwargs r ds h =
    let p = >>=-eq-ok (init_params attrs kwargs []) _ {end = r} h in
    let hs =
      >>=-eq-ok (reinit_hosts p.0.0 reqs)
        (λ hosts. elim (p.0.1) [
          | [] ↦ ok (record { params = p.0.0; req = hosts })
          | kv ∷ more ↦ err recipe_error
        ])
        {end = r} p.2 in
    let e = only_recipe p.0.1 (record { params = p.0.0; req = hs.0 }) r hs.2 in
    let d = reinit_hosts-to_dict p.0.0 reqs hs.0 ds hs.1 in
    (d.0, ap (λ (q : Recipe String). to_dict q.req) (sym e) ∙ d.1, d.2)
