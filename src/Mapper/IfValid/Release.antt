-- ===== src/Mapper/IfValid/Release.antt =====
-- Giving back the match on top of the interface stack, in `_if_match`.
use lnst.Prelude.{
  ◌+◌, ◌≤◌, ◌<◌, String, ◌≡◌, ap, Option, none, some, List, [], ◌∷◌, ◌⊎◌, subst, ◌∙◌, inl, inr,
  arith, string_eq, count, length, Bool-cases, ==_self, ==_iff, if◌then◌else◌,
}
use lnst.Prelude.Exc.{ok}
use lnst.Prelude.Dict.{get, has, put, del, keys, get-put, get-put_self, del-put_absent, get_of_has}
use lnst.Mapper.Defs.{Iface, Owner, Labels, IfMatch}
use lnst.Mapper.IfSearch.{IfState, enter_label, release_if, same_owner}
use lnst.Mapper.IfValid.{Site, Placed, Filled, TopFilled, IfInv, Remaining, own, taken, if_ids}

module _ (c : Site) where
  abbrev pub mine_of : IfMatch → Iface → Owner
  mine_of f pool_if = record { pool_label = pool_if.network; m_id = c.m_id; if_id = f.if_id }

  -- A label that an interface of this machine owns was entered by one that is on the stack.
  pub owner_on_stack :
      (fs : List IfMatch) (labels : Labels)
      → Filled c fs labels
      → (x : String) (o : Owner) → get labels x ≡ some o
      → o.m_id ≡ c.m_id
      → 0 < count o.if_id (if_ids fs)
  unfolding if_ids count enter_label
  owner_on_stack [] labels h x o e own =
      absurd (c.base_others x o (subst (λ (l : Labels). get l x ≡ some o) h e) own)
  owner_on_stack (f ∷ fs) labels (p_id, below, p, rest) x o e own =
      let net = p.req_if.network in
      let mine : Owner = mine_of f p.pool_if in
      elim (Bool-cases (has below net)) [
        | inl old ↦
            ground (arith, p.entered, old, owner_on_stack fs below rest x o, ==_self f.if_id)
        | inr new ↦ ground (
          arith,
          p.entered,
          new,
          get-put below net x mine,
          owner_on_stack fs below rest x o,
          ==_self f.if_id,
        )
      ]

  -- A label is owned by this machine or comes from the machines below.
  pub owner_or_base :
      (fs : List IfMatch) (labels : Labels)
      → Filled c fs labels
      → (x : String) (o : Owner) → get labels x ≡ some o
      → (o.m_id ≡ c.m_id) ⊎ (get c.base x ≡ some o)
  unfolding enter_label
  owner_or_base [] labels h x o e = inr (subst (λ (l : Labels). get l x ≡ some o) h e)
  owner_or_base (f ∷ fs) labels (p_id, below, p, rest) x o e =
      let net = p.req_if.network in
      let mine : Owner = mine_of f p.pool_if in
      elim (Bool-cases (has below net)) [
        | inl old ↦ ground (arith, p.entered, old, owner_or_base fs below rest x o)
        | inr new ↦
            ground
              (arith, p.entered, new, get-put below net x mine, owner_or_base fs below rest x o)
      ]

  -- Releasing the top interface leaves the labels that were there before it was placed.
  pub release_labels :
      (f : IfMatch) (fs : List IfMatch) {p_id : String} {below labels : Labels}
      (p : Placed c f p_id below labels)
      → Filled c fs below
      → count f.if_id (if_ids fs) ≡ 0
      → (o : Owner) × (get labels p.req_if.network ≡ some o)
        × ((if same_owner o (mine_of f p.pool_if) then del labels p.req_if.network else labels)
            ≡ below)
  unfolding enter_label
  release_labels f fs {p_id} {below} {labels} p h fresh =
      let net = p.req_if.network in
      let mine : Owner = mine_of f p.pool_if in
      elim (Bool-cases (has below net)) [
        | inl old ↦
            let r : (o : Owner) × (get below net ≡ some o) = get_of_has below net old in
            let same : labels ≡ below = ground (arith, p.entered, old) in
            (
              r.0,
              ap (λ (l : Labels). get l net) same ∙ r.1,
              ground (
                arith,
                same,
                owner_on_stack fs below h net r.0 r.1,
                ==_iff r.0.m_id c.m_id,
                ==_iff r.0.if_id f.if_id,
              ),
            )
        | inr new ↦
            let same : labels ≡ put below net mine = ground (arith, p.entered, new) in
            (
              mine,
              ap (λ (l : Labels). get l net) same ∙ get-put_self below net mine,
              ground (
                arith,
                same,
                ==_self p.pool_if.network,
                ==_self c.m_id,
                ==_self f.if_id,
                del-put_absent below net mine new,
              ),
            )
      ]

  -- The free interfaces and the labels after the top interface has given its match back.
  pub record Released (free : List String) (labels : Labels) (f : IfMatch) (fs : List IfMatch)
      : Type 0 where
    pub filled : Filled c fs labels
    pub in_pool :
        (x : String) → count x free + count x (taken fs) ≡ count x (keys c.pool_m.interfaces)
    pub pool_size : length free + length (taken fs) ≡ length (keys c.pool_m.interfaces)
    pub to_try : (x : String) → count x f.remaining_matches ≤ count x free
    pub remaining : Remaining free fs

  abbrev pub ReleaseOk : Iface → IfState → IfMatch → List IfMatch → Type 0
  ReleaseOk req_if s f fs =
      (free : List String) × (labels : Labels) × (release_if c.pool_m req_if s f
        ≡ ok (record { top = record s.top { unmatched_pool_ifs = free }; labels = labels }))
      × Released free labels f fs

  module _ (req_if : Iface) (s : IfState) (f : IfMatch) (fs : List IfMatch)
      (on_top : s.top.if_stack ≡ f ∷ fs) (i : IfInv c s)
      (is_req : get c.req_m.interfaces f.if_id ≡ some req_if) where
    in_pool_top :
        (x : String)
        → count x s.top.unmatched_pool_ifs + count x (own f.current_match (taken fs))
          ≡ count x (keys c.pool_m.interfaces)
    unfolding taken
    in_pool_top x =
        subst
          (λ (l : List IfMatch).
            count x s.top.unmatched_pool_ifs + count x (taken l)
            ≡ count x (keys c.pool_m.interfaces))
          on_top (i.in_pool x)

    pool_size_top :
        length s.top.unmatched_pool_ifs + length (own f.current_match (taken fs))
        ≡ length (keys c.pool_m.interfaces)
    unfolding taken
    pool_size_top =
        subst
          (λ (l : List IfMatch).
            length s.top.unmatched_pool_ifs + length (taken l) ≡ length (keys c.pool_m.interfaces))
          on_top i.pool_size

    Remaining-top : Remaining s.top.unmatched_pool_ifs (f ∷ fs)
    Remaining-top =
        subst (λ (l : List IfMatch). Remaining s.top.unmatched_pool_ifs l) on_top i.remaining

    filled_top : TopFilled c (f ∷ fs) s.labels
    filled_top = subst (λ (l : List IfMatch). TopFilled c l s.labels) on_top i.filled

    release_waiting : f.current_match ≡ none → Filled c fs s.labels → ReleaseOk req_if s f fs
    unfolding release_if
    release_waiting waits h = (
      s.top.unmatched_pool_ifs,
      s.labels,
      ground (arith, waits),
      record {
        filled = h;
        in_pool = λ x. ground (arith, waits, in_pool_top x);
        pool_size = ground (arith, waits, pool_size_top);
        to_try = λ x. ground (arith, waits, Remaining-top.0 x);
        remaining =
            subst (λ (o : Option String). Remaining (own o s.top.unmatched_pool_ifs) fs) waits
              Remaining-top.1;
      },
    )

    fresh_top : count f.if_id (if_ids fs) ≡ 0
    unfolding if_ids count
    fresh_top =
        let h =
          subst
            (λ (l : List IfMatch).
              count f.if_id s.top.unmatched_ifs + count f.if_id (if_ids l)
              ≡ count f.if_id (keys c.req_m.interfaces))
            on_top (i.required f.if_id) in
        ground (arith, h, c.req_distinct f.if_id, ==_self f.if_id)

    release_placed : Filled c (f ∷ fs) s.labels → ReleaseOk req_if s f fs
    unfolding release_if count
    release_placed (p_id, below, p, rest) =
        let r = release_labels f fs p rest fresh_top in
        let same : req_if ≡ p.req_if = cc (is_req, p.is_required) in
        (
          p_id ∷ s.top.unmatched_pool_ifs,
          below,
          ground (arith, same, r.1, r.2, p.is_current, p.is_in_pool),
          record {
            filled = rest;
            in_pool = λ x. ground (arith, p.is_current, in_pool_top x);
            pool_size = ground (arith, p.is_current, pool_size_top);
            to_try = λ x. ground (arith, p.is_current, Remaining-top.0 x);
            remaining =
                subst (λ (o : Option String). Remaining (own o s.top.unmatched_pool_ifs) fs)
                  p.is_current Remaining-top.1;
          },
        )

    -- Releasing never raises, and leaves the invariant of the levels below.
    pub release_lem : ReleaseOk req_if s f fs
    release_lem = elim filled_top [
      | inl waits ↦ release_waiting waits.0 waits.1
      | inr h ↦ release_placed h
    ]
