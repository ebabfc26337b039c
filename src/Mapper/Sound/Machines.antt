-- ===== src/Mapper/Sound/Machines.antt =====
-- The machines in `get_mapping` of MachineMapper.py.
use lnst.Prelude.{
  ◌≤◌, ◌<◌, String, ◌≡◌, refl, true, false, some, List, [], ◌∷◌, inl, inr, arith, ℕ, string_eq,
  Bool-cases, ==_iff, ==_self, subst, sym, ap, ◌∙◌, ◌==◌, count, ◌⊎◌,
}
use lnst.Prelude.Exc.{ok}
use lnst.Prelude.Dict.{Dict, get, put, get-put, count_of_get}
use lnst.Mapper.Defs.{Iface, Host, Hosts, Owner, Labels, MachineMatch}
use lnst.Mapper.Compat.{params_fit}
use lnst.Mapper.IfValid.{Site, Filled, if_ids, taken}
use lnst.Mapper.Valid.{HasHwaddrs, IsNamed, MFilled, MPlaced, m_ids, m_taken}
use lnst.Mapper.Mapping.{IfMap, MachineMap, map_ifs, map_machines}
use lnst.Mapper.Sound.Networks.{IsInjective, Filled-kept, Filled-IsInjective}
use lnst.Mapper.Sound.Ifs.{IfMapped, IfsMapped, IfMapped-kept, map_ifs_lem}

-- Required host `h` is mapped to a pool machine with the parameters that it asks for, and each of
-- its interfaces to another interface of that machine.
pub record MachineMapped (pool : Hosts) (labels : Labels) (h : Host) (mm : MachineMap)
    : Type 0 where
  pub pool_m : Host
  pub is_in_pool : get pool mm.target ≡ some pool_m
  pub fits : params_fit h.params pool_m.params ≡ true
  pub each_if :
      (i : String) (r : Iface)
      → get h.interfaces i ≡ some r
      → (im : IfMap) × (get mm.interfaces i ≡ some im) × IfMapped pool_m labels r im
  pub distinct_ifs :
      (i j : String) (im jm : IfMap)
      → get mm.interfaces i ≡ some im
      → get mm.interfaces j ≡ some jm
      → im.target ≡ jm.target
      → i ≡ j

-- The mapping of the machines on a stack.
pub record MachinesMapped (mreqs pool : Hosts) (ms : List MachineMatch) (labels : Labels)
    (d : Dict String MachineMap) : Type 0 where
  pub each :
      (k : String)
      → 0 < count k (m_ids ms)
      → (h : Host) × (mm : MachineMap) × (get mreqs k ≡ some h)
        × (get d k ≡ some mm)
        × MachineMapped pool labels h mm
  pub of_stack :
      (k : String) (mm : MachineMap) → get d k ≡ some mm → 0 < count mm.target (m_taken ms)
  pub distinct :
      (k l : String) (mm lm : MachineMap)
      → get d k ≡ some mm
      → get d l ≡ some lm
      → mm.target ≡ lm.target
      → k ≡ l

MachineMapped-kept :
    (pool : Hosts) (below after : Labels) (h : Host) (mm : MachineMap)
    → ((x : String) (o : Owner) → get below x ≡ some o → get after x ≡ some o)
    → MachineMapped pool below h mm
    → MachineMapped pool after h mm
MachineMapped-kept pool below after h mm kept m = record {
  pool_m = m.pool_m;
  is_in_pool = m.is_in_pool;
  fits = m.fits;
  each_if = λ i r e.
      let (im, g, x) = m.each_if i r e in (im, g, IfMapped-kept m.pool_m below after r im kept x);
  distinct_ifs = m.distinct_ifs;
}

module _ (mreqs pool : Hosts) (Q : ℕ) (m : MachineMatch) (ms : List MachineMatch) (labels : Labels)
    (c : Site) (p : MPlaced mreqs pool Q c m labels) (placed : m.unmatched_ifs ≡ [])
    (filled : Filled c m.if_stack labels) where
  if_ids_le : (x : String) → count x (if_ids m.if_stack) ≤ 1
  if_ids_le x = omega (arith, p.inv.required x, c.req_distinct x)

  taken_le : (x : String) → count x (taken m.if_stack) ≤ 1
  taken_le x = omega (arith, p.inv.in_pool x, c.pool_distinct x)

  all_ifs :
      (i : String) (r : Iface) → get c.req_m.interfaces i ≡ some r → 0 < count i (if_ids m.if_stack)
  unfolding count
  all_ifs i r e =
      ground (arith, p.inv.required i, placed, count_of_get c.req_m.interfaces i {v = r} e)

  abbrev pub MappedTop : Type 0
  MappedTop =
      (ifs : Dict String IfMap) × (map_ifs c.pool_m m.if_stack ≡ ok ifs)
      × ((hostname : String)
          → MachineMapped pool labels c.req_m
              (record { target = p.site.target; hostname = hostname; interfaces = ifs }))

  mapped_top : HasHwaddrs c.pool_m → MappedTop
  mapped_top named =
      let (ifs, e, im) = map_ifs_lem c named m.if_stack labels filled if_ids_le taken_le in
      (
        ifs,
        e,
        λ hostname. record {
          pool_m = c.pool_m;
          is_in_pool = p.site.is_pool_m;
          fits = p.fits;
          each_if = λ i r e'. each_of ifs im i r e';
          distinct_ifs = im.distinct;
        },
      )
    where
      each_of :
          (ifs : Dict String IfMap) (im : IfsMapped c m.if_stack labels ifs) (i : String)
          (r : Iface)
          → get c.req_m.interfaces i ≡ some r
          → (x : IfMap) × (get ifs i ≡ some x) × IfMapped c.pool_m labels r x
      each_of ifs im i r e =
          let (r', x, e', g, ok') = im.each i (all_ifs i r e) in
          let same : r' ≡ r = cc (e', e) in
          (x, g, subst (λ q. IfMapped c.pool_m labels q x) same ok')

  module _ (hostname : String) (ifs : Dict String IfMap)
      (good : MachineMapped pool labels c.req_m
        (record { target = p.site.target; hostname = hostname; interfaces = ifs }))
      (d : Dict String MachineMap) (ih : MachinesMapped mreqs pool ms c.base d)
      (new_id : count m.m_id (m_ids ms) ≡ 0)
      (new_target : count p.site.target (m_taken ms) ≡ 0) where
    abbrev top_m : MachineMap
    top_m = record { target = p.site.target; hostname = hostname; interfaces = ifs }

    entry_cases :
        (k : String) (mm : MachineMap)
        → get (put d m.m_id top_m) k ≡ some mm
        → ((k ≡ m.m_id) × (mm ≡ top_m)) ⊎ (get d k ≡ some mm)
    entry_cases k mm e = elim (Bool-cases (m.m_id == k)) [
      | inl same ↦
          inl (sym ((==_iff m.m_id k).0 same), ground (arith, e, same, get-put d m.m_id k top_m))
      | inr other ↦ inr (ground (arith, e, other, get-put d m.m_id k top_m))
    ]

    -- No machine below has the target of the top.
    other_target :
        (k : String) (mm : MachineMap) → get d k ≡ some mm → mm.target ≡ p.site.target → ⊥
    other_target k mm e same = ground (arith, ih.of_stack k mm e, same, new_target)

    distinct_cases :
        (k l : String) (mm lm : MachineMap)
        → ((k ≡ m.m_id) × (mm ≡ top_m)) ⊎ (get d k ≡ some mm)
        → ((l ≡ m.m_id) × (lm ≡ top_m)) ⊎ (get d l ≡ some lm)
        → mm.target ≡ lm.target
        → k ≡ l
    distinct_cases k l mm lm (inl (a, b)) (inl (a', b')) same = a ∙ sym a'
    distinct_cases k l mm lm (inl (a, b)) (inr old) same =
        absurd (other_target l lm old (sym same ∙ ap (λ (z : MachineMap). z.target) b))
    distinct_cases k l mm lm (inr old) (inl (a, b)) same =
        absurd (other_target k mm old (same ∙ ap (λ (z : MachineMap). z.target) b))
    distinct_cases k l mm lm (inr old) (inr old') same = ih.distinct k l mm lm old old' same

    abbrev EachMachine : String → Type 0
    EachMachine k =
        (h : Host) × (mm : MachineMap) × (get mreqs k ≡ some h)
        × (get (put d m.m_id top_m) k ≡ some mm)
        × MachineMapped pool labels h mm

    each_top : (k : String) → m.m_id ≡ k → EachMachine k
    each_top k same = (
      c.req_m,
      top_m,
      subst (λ l. get mreqs l ≡ some c.req_m) (sym p.inv.at_machine ∙ same) p.site.is_req_m,
      ground (arith, same, ==_iff m.m_id k, get-put d m.m_id k top_m),
      good,
    )

    each_below : (k : String) → m.m_id == k ≡ false → 0 < count k (m_ids ms) → EachMachine k
    each_below k other there =
        let (h, mm, e, g, x) = ih.each k there in
        (
          h,
          mm,
          e,
          ground (arith, g, other, get-put d m.m_id k top_m),
          MachineMapped-kept pool c.base labels h mm (Filled-kept c m.if_stack labels filled) x,
        )

    each_machine : (k : String) → 0 < count k (m_ids (m ∷ ms)) → EachMachine k
    unfolding m_ids count
    each_machine k there = elim (Bool-cases (m.m_id == k)) [
      | inl same ↦ each_top k ((==_iff m.m_id k).0 same)
      | inr other ↦ each_below k other (ground (arith, there, other))
    ]

    of_stack_cases :
        (k : String) (mm : MachineMap)
        → ((k ≡ m.m_id) × (mm ≡ top_m)) ⊎ (get d k ≡ some mm)
        → 0 < count mm.target (m_taken (m ∷ ms))
    unfolding m_taken count
    of_stack_cases k mm (inl (a, b)) =
        ground (arith, ap (λ (z : MachineMap). z.target) b, p.site.is_target, ==_self p.site.target)
    of_stack_cases k mm (inr old) = ground (arith, ih.of_stack k mm old, p.site.is_target)

    top-MachinesMapped : MachinesMapped mreqs pool (m ∷ ms) labels (put d m.m_id top_m)
    top-MachinesMapped = record {
      each = each_machine;
      of_stack = λ k mm e. of_stack_cases k mm (entry_cases k mm e);
      distinct = λ k l mm lm e e' same.
          distinct_cases k l mm lm (entry_cases k mm e) (entry_cases l lm e') same;
    }

module _ (mreqs pool : Hosts) (Q : ℕ) (named : IsNamed pool) where
  abbrev pub MapsAll : List MachineMatch → Labels → Type 0
  MapsAll ms labels =
      (d : Dict String MachineMap) × (map_machines pool ms ≡ ok d)
      × MachinesMapped mreqs pool ms labels d

  map_machines-cons :
      (m : MachineMatch) (ms : List MachineMatch) (labels : Labels) (c : Site)
      (p : MPlaced mreqs pool Q c m labels)
      → m.unmatched_ifs ≡ []
      → Filled c m.if_stack labels
      → count m.m_id (m_ids ms) ≡ 0
      → count p.site.target (m_taken ms) ≡ 0
      → MapsAll ms c.base
      → MapsAll (m ∷ ms) labels
  unfolding map_machines
  map_machines-cons m ms labels c p placed filled new_id new_target (d, e, ih) =
      let hn : (v : String) × (get c.pool_m.params "hostname" ≡ some v) =
        named.hostname p.site.target c.pool_m p.site.is_pool_m in
      let (ifs, ei, good) =
        mapped_top mreqs pool Q m ms labels c p placed filled
          (named.hwaddrs p.site.target c.pool_m p.site.is_pool_m) in
      (
        put d m.m_id (record { target = p.site.target; hostname = hn.0; interfaces = ifs }),
        ground (arith, e, p.site.is_target, p.site.is_pool_m, hn.1, ei),
        top-MachinesMapped mreqs pool Q m ms labels c p placed filled hn.0 ifs (good hn.0) d ih
            new_id new_target,
      )

  -- The loop over the machines raises nothing, and maps each of them.
  pub map_machines_lem :
      (ms : List MachineMatch) (labels : Labels)
      → MFilled mreqs pool Q ms labels
      → ((x : String) → count x (m_ids ms) ≤ 1)
      → ((x : String) → count x (m_taken ms) ≤ 1)
      → MapsAll ms labels
  unfolding map_machines m_ids m_taken count get
  map_machines_lem [] labels h ids targets = (
    [],
    refl,
    record {
      each = λ i there. absurd (omega (arith, there));
      of_stack = λ i im e. cc;
      distinct = λ i j im jm e e' same. cc;
    },
  )
  map_machines_lem (m ∷ ms) labels (c, p, placed, filled, rest) ids targets =
      map_machines-cons m ms labels c p placed filled (ground (arith, ids m.m_id, ==_self m.m_id))
        (ground (arith, targets p.site.target, p.site.is_target, ==_self p.site.target))
        (map_machines_lem ms c.base rest (λ x. ground (arith, ids x))
          (λ x. ground (arith, targets x, p.site.is_target)))

  pub MFilled-IsInjective :
      (ms : List MachineMatch) (labels : Labels)
      → MFilled mreqs pool Q ms labels
      → IsInjective labels
  unfolding get
  MFilled-IsInjective [] labels h =
      subst (λ (l : Labels). IsInjective l) (sym h) (λ x y o w e f same. cc)
  MFilled-IsInjective (m ∷ ms) labels (c, p, placed, filled, rest) =
      Filled-IsInjective c m.if_stack labels filled (MFilled-IsInjective ms c.base rest)
