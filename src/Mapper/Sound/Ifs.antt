-- ===== src/Mapper/Sound/Ifs.antt =====
-- The interfaces of one machine in `get_mapping` of MachineMapper.py.
use lnst.Prelude.{
  ◌≤◌, ◌<◌, String, ◌≡◌, refl, true, false, some, List, [], ◌∷◌, inl, inr, arith, string_eq,
  Bool-cases, ==_iff, ==_self, subst, sym, ap, ◌∙◌, ◌==◌, count, ◌⊎◌,
}
use lnst.Prelude.Exc.{ok}
use lnst.Prelude.Dict.{Dict, get, put, get-put}
use lnst.Mapper.Defs.{Iface, Host, Owner, Labels, IfMatch}
use lnst.Mapper.Compat.{check_interface_compatibility, params_fit}
use lnst.Mapper.IfValid.{Site, Placed, Filled, if_ids, taken}
use lnst.Mapper.Valid.{HasHwaddrs}
use lnst.Mapper.Mapping.{IfMap, map_ifs}
use lnst.Mapper.Sound.Networks.{Placed-Entered, Entered}

-- Required interface `r` is mapped to a pool interface with the parameters that it asks for, and
-- its network to that interface's.
pub record IfMapped (pool_m : Host) (labels : Labels) (r : Iface) (im : IfMap) : Type 0 where
  pub pool_if : Iface
  pub is_in_pool : get pool_m.interfaces im.target ≡ some pool_if
  pub fits : params_fit r.params pool_if.params ≡ true
  pub owner : Owner
  pub has_label : get labels r.network ≡ some owner
  pub same_network : owner.pool_label ≡ pool_if.network

-- The mapping of the interfaces on a stack.
pub record IfsMapped (c : Site) (fs : List IfMatch) (labels : Labels) (d : Dict String IfMap)
    : Type 0 where
  pub each :
      (i : String)
      → 0 < count i (if_ids fs)
      → (r : Iface) × (im : IfMap) × (get c.req_m.interfaces i ≡ some r)
        × (get d i ≡ some im)
        × IfMapped c.pool_m labels r im
  pub of_stack : (i : String) (im : IfMap) → get d i ≡ some im → 0 < count im.target (taken fs)
  pub distinct :
      (i j : String) (im jm : IfMap)
      → get d i ≡ some im
      → get d j ≡ some jm
      → im.target ≡ jm.target
      → i ≡ j

pub IfMapped-kept :
    (pool_m : Host) (below after : Labels) (r : Iface) (im : IfMap)
    → ((x : String) (o : Owner) → get below x ≡ some o → get after x ≡ some o)
    → IfMapped pool_m below r im
    → IfMapped pool_m after r im
IfMapped-kept pool_m below after r im kept m = record {
  pool_if = m.pool_if;
  is_in_pool = m.is_in_pool;
  fits = m.fits;
  owner = m.owner;
  has_label = kept r.network m.owner m.has_label;
  same_network = m.same_network;
}

fits_of_check :
    (labels : Labels) (req_if pool_if : Iface)
    → check_interface_compatibility labels req_if pool_if ≡ true
    → params_fit req_if.params pool_if.params ≡ true
unfolding check_interface_compatibility
fits_of_check labels req_if pool_if h = ground arith

module _ (c : Site) (f : IfMatch) (fs : List IfMatch) (p_id : String) (below labels : Labels)
    (p : Placed c f p_id below labels) (hwaddr : String) (d : Dict String IfMap)
    (ih : IfsMapped c fs below d) (new_id : count f.if_id (if_ids fs) ≡ 0)
    (new_target : count p_id (taken fs) ≡ 0) where
  abbrev top_if : IfMap
  top_if = record { target = p_id; hwaddr = hwaddr }

  entered : Entered below labels p.req_if.network p.pool_if.network
  entered = Placed-Entered c f p_id below labels p

  top-IfMapped : IfMapped c.pool_m labels p.req_if top_if
  top-IfMapped = record {
    pool_if = p.pool_if;
    is_in_pool = p.is_in_pool;
    fits = fits_of_check below p.req_if p.pool_if p.fits;
    owner = entered.own.0;
    has_label = entered.own.1;
    same_network = entered.own.2;
  }

  entry_cases :
      (i : String) (im : IfMap)
      → get (put d f.if_id top_if) i ≡ some im
      → ((i ≡ f.if_id) × (im ≡ top_if)) ⊎ (get d i ≡ some im)
  entry_cases i im e = elim (Bool-cases (f.if_id == i)) [
    | inl same ↦
        inl (sym ((==_iff f.if_id i).0 same), ground (arith, e, same, get-put d f.if_id i top_if))
    | inr other ↦ inr (ground (arith, e, other, get-put d f.if_id i top_if))
  ]

  -- No interface below has the target of the top.
  other_target : (i : String) (im : IfMap) → get d i ≡ some im → im.target ≡ p_id → ⊥
  other_target i im e same = ground (arith, ih.of_stack i im e, same, new_target)

  distinct_cases :
      (i j : String) (im jm : IfMap)
      → ((i ≡ f.if_id) × (im ≡ top_if)) ⊎ (get d i ≡ some im)
      → ((j ≡ f.if_id) × (jm ≡ top_if)) ⊎ (get d j ≡ some jm)
      → im.target ≡ jm.target
      → i ≡ j
  distinct_cases i j im jm (inl (a, b)) (inl (a', b')) same = a ∙ sym a'
  distinct_cases i j im jm (inl (a, b)) (inr old) same =
      absurd (other_target j jm old (sym same ∙ ap (λ (z : IfMap). z.target) b))
  distinct_cases i j im jm (inr old) (inl (a, b)) same =
      absurd (other_target i im old (same ∙ ap (λ (z : IfMap). z.target) b))
  distinct_cases i j im jm (inr old) (inr old') same = ih.distinct i j im jm old old' same

  abbrev EachIf : String → Type 0
  EachIf i =
      (r : Iface) × (im : IfMap) × (get c.req_m.interfaces i ≡ some r)
      × (get (put d f.if_id top_if) i ≡ some im)
      × IfMapped c.pool_m labels r im

  each_top : (i : String) → f.if_id ≡ i → EachIf i
  each_top i same = (
    p.req_if,
    top_if,
    subst (λ k. get c.req_m.interfaces k ≡ some p.req_if) same p.is_required,
    ground (arith, same, ==_iff f.if_id i, get-put d f.if_id i top_if),
    top-IfMapped,
  )

  each_below : (i : String) → f.if_id == i ≡ false → 0 < count i (if_ids fs) → EachIf i
  each_below i other there =
      let (r, im, e, g, m) = ih.each i there in
      (
        r,
        im,
        e,
        ground (arith, g, other, get-put d f.if_id i top_if),
        IfMapped-kept c.pool_m below labels r im entered.kept m,
      )

  each_if : (i : String) → 0 < count i (if_ids (f ∷ fs)) → EachIf i
  unfolding if_ids count
  each_if i there = elim (Bool-cases (f.if_id == i)) [
    | inl same ↦ each_top i ((==_iff f.if_id i).0 same)
    | inr other ↦ each_below i other (ground (arith, there, other))
  ]

  of_stack_cases :
      (i : String) (im : IfMap)
      → ((i ≡ f.if_id) × (im ≡ top_if)) ⊎ (get d i ≡ some im)
      → 0 < count im.target (taken (f ∷ fs))
  unfolding taken count
  of_stack_cases i im (inl (a, b)) =
      ground (arith, ap (λ (z : IfMap). z.target) b, p.is_current, ==_self p_id)
  of_stack_cases i im (inr old) = ground (arith, ih.of_stack i im old, p.is_current)

  top-IfsMapped : IfsMapped c (f ∷ fs) labels (put d f.if_id top_if)
  top-IfsMapped = record {
    each = each_if;
    of_stack = λ i im e. of_stack_cases i im (entry_cases i im e);
    distinct = λ i j im jm e e' same.
        distinct_cases i j im jm (entry_cases i im e) (entry_cases j jm e') same;
  }

module _ (c : Site) (named : HasHwaddrs c.pool_m) where
  map_ifs-cons :
      (f : IfMatch) (fs : List IfMatch) (p_id : String) (below labels : Labels)
      → Placed c f p_id below labels
      → count f.if_id (if_ids fs) ≡ 0
      → count p_id (taken fs) ≡ 0
      → ((d : Dict String IfMap) × (map_ifs c.pool_m fs ≡ ok d) × IfsMapped c fs below d)
      → (d : Dict String IfMap) × (map_ifs c.pool_m (f ∷ fs) ≡ ok d) × IfsMapped c (f ∷ fs) labels d
  unfolding map_ifs
  map_ifs-cons f fs p_id below labels p new_id new_target (d, e, ih) =
      let hw : (v : String) × (get p.pool_if.params "hwaddr" ≡ some v) =
        named p_id p.pool_if p.is_in_pool in
      (
        put d f.if_id (record { target = p_id; hwaddr = hw.0 }),
        ground (arith, e, p.is_current, p.is_in_pool, hw.1),
        top-IfsMapped c f fs p_id below labels p hw.0 d ih new_id new_target,
      )

  -- The loop over the interfaces raises nothing, and maps each of them.
  pub map_ifs_lem :
      (fs : List IfMatch) (labels : Labels)
      → Filled c fs labels
      → ((x : String) → count x (if_ids fs) ≤ 1)
      → ((x : String) → count x (taken fs) ≤ 1)
      → (d : Dict String IfMap) × (map_ifs c.pool_m fs ≡ ok d) × IfsMapped c fs labels d
  unfolding map_ifs if_ids taken count get
  map_ifs_lem [] labels h ids targets = (
    [],
    refl,
    record {
      each = λ i there. absurd (omega (arith, there));
      of_stack = λ i im e. cc;
      distinct = λ i j im jm e e' same. cc;
    },
  )
  map_ifs_lem (f ∷ fs) labels (p_id, below, p, rest) ids targets =
      map_ifs-cons f fs p_id below labels p (ground (arith, ids f.if_id, ==_self f.if_id))
        (ground (arith, targets p_id, p.is_current, ==_self p_id))
        (map_ifs_lem fs below rest (λ x. ground (arith, ids x))
          (λ x. ground (arith, targets x, p.is_current)))
