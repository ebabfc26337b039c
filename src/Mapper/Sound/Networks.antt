-- ===== src/Mapper/Sound/Networks.antt =====
-- The label mapping of MachineMapper.py: entries stay, fit their interfaces and are injective.
use lnst.Prelude.{
  String, ◌≡◌, refl, true, false, some, List, [], ◌∷◌, ◌⊎◌, inl, inr, arith, string_eq, Bool-cases,
  ==_iff, subst, sym, ap, ◌∙◌, ◌==◌,
}
use lnst.Prelude.Dict.{get, has, put, get-put, get_of_has, get-put_self}
use lnst.Mapper.Defs.{Iface, Owner, Labels, IfMatch}
use lnst.Mapper.Compat.{labels_fit, check_interface_compatibility}
use lnst.Mapper.IfSearch.{enter_label}
use lnst.Mapper.IfValid.{Site, Placed, Filled}

-- A check that passed: the two labels go together in every entry.
labels_fit_to :
    (labels : Labels) (a b x : String) (o : Owner)
    → labels_fit labels a b ≡ true
    → get labels x ≡ some o
    → x ≡ a
    → o.pool_label ≡ b
unfolding labels_fit get
labels_fit_to [] a b x o h e p = absurd (cc)
labels_fit_to ((l, w) ∷ labels) a b x o h e p =
    ground (arith, labels_fit_to labels a b x o, ==_iff l x, ==_iff l a, ==_iff w.pool_label b)

labels_fit_from :
    (labels : Labels) (a b x : String) (o : Owner)
    → labels_fit labels a b ≡ true
    → get labels x ≡ some o
    → o.pool_label ≡ b
    → x ≡ a
unfolding labels_fit get
labels_fit_from [] a b x o h e p = absurd (cc)
labels_fit_from ((l, w) ∷ labels) a b x o h e p =
    ground (arith, labels_fit_from labels a b x o, ==_iff l x, ==_iff l a, ==_iff w.pool_label b)

-- No two required labels have one pool label.
abbrev pub IsInjective : Labels → Type 0
IsInjective labels =
    (x y : String) (o w : Owner)
    → get labels x ≡ some o
    → get labels y ≡ some w
    → o.pool_label ≡ w.pool_label
    → x ≡ y

-- What a level enters: the labels below stay, and its own go together.
pub record Entered (below after : Labels) (req_net pool_net : String) : Type 0 where
  pub kept : (x : String) (o : Owner) → get below x ≡ some o → get after x ≡ some o
  pub own : (o : Owner) × (get after req_net ≡ some o) × (o.pool_label ≡ pool_net)
  pub injective : IsInjective below → IsInjective after

module _ (below : Labels) (req_if pool_if : Iface) (m_id if_id : String)
    (fits : labels_fit below req_if.network pool_if.network ≡ true) where
  abbrev mine : Owner
  mine = record { pool_label = pool_if.network; m_id = m_id; if_id = if_id }

  abbrev Enters : Labels → Type 0
  Enters after = Entered below after req_if.network pool_if.network

  enter_old : has below req_if.network ≡ true → Enters below
  enter_old old =
      let r : (o : Owner) × (get below req_if.network ≡ some o) =
        get_of_has below req_if.network old in
      record {
        kept = λ x o e. e;
        own = (
          r.0,
          r.1,
          labels_fit_to below req_if.network pool_if.network req_if.network r.0 fits r.1 refl,
        );
        injective = λ h. h;
      }

  -- An entry of the extended labels is the new one or an old one.
  entry_cases :
      (x : String) (o : Owner)
      → get (put below req_if.network mine) x ≡ some o
      → ((x ≡ req_if.network) × (o ≡ mine)) ⊎ (get below x ≡ some o)
  entry_cases x o e = elim (Bool-cases (req_if.network == x)) [
    | inl same ↦ inl (
      sym ((==_iff req_if.network x).0 same),
      ground (arith, e, same, get-put below req_if.network x mine),
    )
    | inr other ↦ inr (ground (arith, e, other, get-put below req_if.network x mine))
  ]

  inj_new : IsInjective below → IsInjective (put below req_if.network mine)
  inj_new h x y o w e f same = inj_cases (entry_cases x o e) (entry_cases y w f)
    where
      inj_cases :
          ((x ≡ req_if.network) × (o ≡ mine)) ⊎ (get below x ≡ some o)
          → ((y ≡ req_if.network) × (w ≡ mine)) ⊎ (get below y ≡ some w)
          → x ≡ y
      inj_cases (inl (p, q)) (inl (p', q')) = p ∙ sym p'
      inj_cases (inl (p, q)) (inr old) =
          p
          ∙ sym (
              labels_fit_from below req_if.network pool_if.network y w fits old
                (sym same ∙ ap (λ (z : Owner). z.pool_label) q))
      inj_cases (inr old) (inl (p, q)) =
          labels_fit_from below req_if.network pool_if.network x o fits old
            (same ∙ ap (λ (z : Owner). z.pool_label) q)
          ∙ sym p
      inj_cases (inr old) (inr old') = h x y o w old old' same

  enter_new : has below req_if.network ≡ false → Enters (put below req_if.network mine)
  unfolding has
  enter_new new = record {
    kept = λ x o e.
        ground (arith, e, new, ==_iff req_if.network x, get-put below req_if.network x mine);
    own = (mine, get-put_self below req_if.network mine, refl);
    injective = inj_new;
  }

  enter_label_lem : Enters (enter_label below req_if pool_if m_id if_id)
  unfolding enter_label
  enter_label_lem = elim (Bool-cases (has below req_if.network)) [
    | inl old ↦ rw old (enter_old old)
    | inr new ↦ rw new (enter_new new)
  ]

labels_of_check :
    (labels : Labels) (req_if pool_if : Iface)
    → check_interface_compatibility labels req_if pool_if ≡ true
    → labels_fit labels req_if.network pool_if.network ≡ true
unfolding check_interface_compatibility
labels_of_check labels req_if pool_if h = ground arith

-- A placed interface keeps the labels below, and its own are mapped to one another.
pub Placed-Entered :
    (c : Site) (f : IfMatch) (p_id : String) (below after : Labels)
    (p : Placed c f p_id below after)
    → Entered below after p.req_if.network p.pool_if.network
Placed-Entered c f p_id below after p =
    subst (λ (l : Labels). Entered below l p.req_if.network p.pool_if.network) (sym p.entered)
      (enter_label_lem below p.req_if p.pool_if c.m_id f.if_id
        (labels_of_check below p.req_if p.pool_if p.fits))

-- The labels of a machine's interfaces: those of the machines below stay.
pub Filled-kept :
    (c : Site) (fs : List IfMatch) (labels : Labels)
    → Filled c fs labels
    → (x : String) (o : Owner) → get c.base x ≡ some o
    → get labels x ≡ some o
Filled-kept c [] labels h x o e = subst (λ (l : Labels). get l x ≡ some o) (sym h) e
Filled-kept c (f ∷ fs) labels (p_id, below, p, rest) x o e =
    (Placed-Entered c f p_id below labels p).kept x o (Filled-kept c fs below rest x o e)

pub Filled-IsInjective :
    (c : Site) (fs : List IfMatch) (labels : Labels)
    → Filled c fs labels
    → IsInjective c.base
    → IsInjective labels
Filled-IsInjective c [] labels h k = subst (λ (l : Labels). IsInjective l) (sym h) k
Filled-IsInjective c (f ∷ fs) labels (p_id, below, p, rest) k =
    (Placed-Entered c f p_id below labels p).injective (Filled-IsInjective c fs below rest k)
