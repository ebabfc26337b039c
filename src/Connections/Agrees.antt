-- ===== src/Connections/Agrees.antt =====
-- ConnectionHandler: the list and the mapping hold the same connections.
use lnst.Prelude.{
  suc, ◌-◌, ◌≤◌, ◌<◌, ◌≡◌, refl, some, [], ◌∷◌, false, arith, if◌then◌else◌, Eq, ◌==◌, ==_iff, elem,
  count, remove_first, count-remove_first, count-append, elem-count, count-elem, Option-cases,
  Bool-cases, inl, inr,
}
use lnst.Prelude.Dict.{
  Dict, get, has, put, del, keys, values, get-del, IsDistinct, put-IsDistinct, del-IsDistinct,
}
use lnst.Prelude.Exc.{ok}
use lnst.Connections.{
  Handler, id_of, get_connection_id, add_connection, remove_connection, remove_connection_by_id,
}

module _ {K C : Type 0} ⦃eq_k : Eq K⦄ ⦃eq_c : Eq C⦄ where
  -- Every connection stands as often in the list as in the mapping, whose identifiers are distinct.
  pub record Agrees (h : Handler K C) : Type 0 where
    pub same : (c : C) → count c h.connections ≡ count c (values h.connection_mapping)
    pub distinct : IsDistinct h.connection_mapping

  count-values-put_new :
      (d : Dict K C) (k : K) (c x : C)
      → has d k ≡ false
      → count x (values (put d k c))
        ≡ (if c == x then suc (count x (values d)) else count x (values d))
  unfolding values put count has get
  count-values-put_new [] k c x h = ground arith
  count-values-put_new ((i, e) ∷ d) k c x h = ground (arith, count-values-put_new d k c x)

  count-values-del :
      (d : Dict K C) (k : K) {c : C} (x : C)
      → get d k ≡ some c
      → count x (values d)
        ≡ (if c == x then suc (count x (values (del d k))) else count x (values (del d k)))
  unfolding values del count get
  count-values-del [] k x h = absurd (cc)
  count-values-del ((i, e) ∷ d) k {c = c} x h = ground (arith, count-values-del d k {c = c} x)

  pub add_connection-Agrees :
      (h : Handler K C) (id : K) (c : C) → Agrees h → Agrees (add_connection h id c)
  unfolding add_connection count
  add_connection-Agrees h id c a = elim (Bool-cases (has h.connection_mapping id)) [
    | inl there ↦ rw there a
    | inr absent ↦ rw absent (record {
      same = λ x. ground (
        arith,
        a.same x,
        count-append x h.connections (c ∷ []),
        count-values-put_new h.connection_mapping id c x absent,
      );
      distinct = put-IsDistinct h.connection_mapping id c a.distinct;
    })
  ]

  -- A connection of the mapping has an identifier, and the identifier is the connection's.
  pub id_of_total : (d : Dict K C) (c : C) → 0 < count c (values d) → (k : K) × (id_of d c ≡ some k)
  unfolding id_of values count
  id_of_total [] c h = absurd (omega arith)
  id_of_total ((i, e) ∷ d) c h = elim (Bool-cases (e == c)) [
    | inl same ↦ (i, rw same refl)
    | inr other ↦
        let r : (k : K) × (id_of d c ≡ some k) = id_of_total d c (rw other at h) in
        (r.0, rw other r.1)
  ]

  id_of-count : (d : Dict K C) (c : C) {k : K} → id_of d c ≡ some k → 0 < count k (keys d)
  unfolding id_of keys count
  id_of-count [] c h = absurd (cc)
  id_of-count ((i, e) ∷ d) c {k = k} h = ground (arith, ==_iff i k, id_of-count d c {k = k})

  pub get-id_of :
      (d : Dict K C) (c : C) {k : K} → IsDistinct d → id_of d c ≡ some k → get d k ≡ some c
  unfolding id_of get keys count
  get-id_of [] c n h = absurd (cc)
  get-id_of ((i, e) ∷ d) c {k = k} n h = elim (Bool-cases (e == c)) [
    | inl same ↦ ground (arith, same, ==_iff e c, ==_iff i k)
    | inr other ↦ ground (
      arith,
      other,
      n k,
      ==_iff i k,
      id_of-count d c {k = k},
      get-id_of d c {k = k} (λ j. ground (arith, n j)),
    )
  ]

  removed-Agrees :
      (h : Handler K C) (c : C) (k : K)
      → Agrees h
      → get h.connection_mapping k ≡ some c
      → Agrees (record {
        connections = remove_first h.connections c;
        connection_mapping = del h.connection_mapping k;
      })
  removed-Agrees h c k a e = record {
    same = λ x. ground (
      arith,
      a.same x,
      a.same c,
      ==_iff c c,
      ==_iff c x,
      count-values-del h.connection_mapping k {c = c} c e,
      count-values-del h.connection_mapping k {c = c} x e,
      count-remove_first x c h.connections,
    );
    distinct = del-IsDistinct h.connection_mapping k a.distinct;
  }

  -- What is left when one `c` may have been taken out.
  pub record Removed (c : C) (h g : Handler K C) : Type 0 where
    pub agrees : Agrees g
    pub fewer : (x : C) → count x g.connections ≤ count x h.connections
    pub others :
        (x : C)
        → count x h.connections
          ≤ (if c == x then suc (count x g.connections) else count x g.connections)
    pub one_less : count c g.connections ≡ count c h.connections - 1
    pub mapped :
        (k : K) (x : C) → get g.connection_mapping k ≡ some x → get h.connection_mapping k ≡ some x

  remove_first-Removed :
      (h : Handler K C) (c : C) (k : K)
      → Agrees h
      → get h.connection_mapping k ≡ some c
      → 0 < count c h.connections
      → Removed c h (record {
        connections = remove_first h.connections c;
        connection_mapping = del h.connection_mapping k;
      })
  remove_first-Removed h c k a e pos = record {
    agrees = removed-Agrees h c k a e;
    fewer = λ x. ground (arith, count-remove_first x c h.connections pos);
    others = λ x. ground (arith, count-remove_first x c h.connections pos);
    one_less = ground (arith, ==_iff c c, count-remove_first c c h.connections pos);
    mapped = λ j x f. ground (arith, get-del h.connection_mapping k j (a.distinct k));
  }

  -- Where the two agree, remove_connection raises nothing, and they agree after it.
  pub remove_connection-Agrees :
      (h : Handler K C) (c : C)
      → Agrees h
      → (g : Handler K C) × (remove_connection h c ≡ ok g) × Removed c h g
  unfolding remove_connection get_connection_id
  remove_connection-Agrees h c a = elim (Bool-cases (elem c h.connections)) [
    | inr absent ↦ (
      h,
      rw absent refl,
      record {
        agrees = a;
        fewer = λ x. omega arith;
        others = λ x. ground arith;
        one_less = ground (arith, absent, count-elem c h.connections);
        mapped = λ k x e. e;
      },
    )
    | inl there ↦
        let r : (k : K) × (id_of h.connection_mapping c ≡ some k) =
          id_of_total h.connection_mapping c
            (omega (arith, a.same c, elem-count c h.connections there)) in
        (
          _,
          rw (there, r.1) refl,
          remove_first-Removed h c r.0 a (get-id_of h.connection_mapping c {k = r.0} a.distinct r.1)
              (elem-count c h.connections there),
        )
  ]

  pub remove_connection_by_id-Agrees :
      (h : Handler K C) (id : K) → Agrees h → Agrees (remove_connection_by_id h id)
  unfolding remove_connection_by_id
  remove_connection_by_id-Agrees h id a = elim (Option-cases (get h.connection_mapping id)) [
    | inl absent ↦ rw (absent, remove_connection_by_id) a
    | inr (c, there) ↦ rw (there, remove_connection_by_id) (removed-Agrees h c id a there)
  ]
