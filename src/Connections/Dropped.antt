-- ===== src/Connections/Dropped.antt =====
-- ConnectionHandler._check_connections: the loop that drops closed connections.
use lnst.Prelude.{
  ◌-◌, ◌≤◌, ◌≡◌, refl, some, List, [], ◌∷◌, Bool, true, false, arith, Eq, ==_iff, count, Bool-cases,
  inl, inr,
}
use lnst.Prelude.Dict.{get}
use lnst.Prelude.Exc.{ok}
use lnst.Connections.{Handler, remove_connection}
use lnst.Connections.Poll.{drop_closed}
use lnst.Connections.Agrees.{Agrees, Removed, remove_connection-Agrees}

module _ {K C : Type 0} ⦃eq_k : Eq K⦄ ⦃eq_c : Eq C⦄ where
  -- What the first loop leaves: the handler, and the connections to wait on.
  pub record Dropped (is_closed : C → Bool) (h : Handler K C) (cs : List C)
      (r : Handler K C × List C) : Type 0 where
    pub agrees : Agrees r.0
    pub fewer : (x : C) → count x r.0.connections ≤ count x h.connections
    pub mapped :
        (k : K) (x : C)
        → get r.0.connection_mapping k ≡ some x
        → get h.connection_mapping k ≡ some x
    pub waiting : (x : C) → count x r.1 ≤ count x cs
    pub open_left : (x : C) → is_closed x ≡ false → count x r.0.connections ≡ count x h.connections
    pub closed_left :
        (x : C) → is_closed x ≡ true → count x r.0.connections ≡ count x h.connections - count x cs
    pub not_waiting : (x : C) → is_closed x ≡ true → count x r.1 ≡ 0

  pub drop_closed_lem :
      (is_closed : C → Bool) (h : Handler K C) (cs : List C)
      → Agrees h
      → (r : Handler K C × List C) × (drop_closed is_closed h cs ≡ ok r) × Dropped is_closed h cs r
  unfolding drop_closed count
  drop_closed_lem is_closed h [] a = (
    (h, []),
    refl,
    record {
      agrees = a;
      fewer = λ x. omega arith;
      mapped = λ k x e. e;
      waiting = λ x. omega arith;
      open_left = λ x e. refl;
      closed_left = λ x e. omega arith;
      not_waiting = λ x e. refl;
    },
  )
  drop_closed_lem is_closed h (c ∷ cs) a = elim (Bool-cases (is_closed c)) [
    | inl closed ↦
        let g : (g : Handler K C) × (remove_connection h c ≡ ok g) × Removed c h g =
          remove_connection-Agrees h c a in
        let d : (r : Handler K C × List C) × (drop_closed is_closed g.0 cs ≡ ok r)
            × Dropped is_closed g.0 cs r =
          drop_closed_lem is_closed g.0 cs g.2.agrees in
        (
          d.0,
          rw (closed, drop_closed, g.1) d.1,
          record {
            agrees = d.2.agrees;
            fewer = λ x. omega (arith, d.2.fewer x, g.2.fewer x);
            mapped = λ k x e. g.2.mapped k x (d.2.mapped k x e);
            waiting = λ x. ground (arith, d.2.waiting x);
            open_left = λ x e.
                ground (arith, closed, d.2.open_left x e, g.2.fewer x, g.2.others x, ==_iff c x);
            closed_left = λ x e.
                ground
                  (arith, d.2.closed_left x e, g.2.fewer x, g.2.others x, g.2.one_less, ==_iff c x);
            not_waiting = λ x e. d.2.not_waiting x e;
          },
        )
    | inr still ↦
        let d : (r : Handler K C × List C) × (drop_closed is_closed h cs ≡ ok r)
            × Dropped is_closed h cs r =
          drop_closed_lem is_closed h cs a in
        (
          (d.0.0, c ∷ d.0.1),
          rw (still, drop_closed, d.1) refl,
          record {
            agrees = d.2.agrees;
            fewer = d.2.fewer;
            mapped = d.2.mapped;
            waiting = λ x. ground (arith, d.2.waiting x);
            open_left = d.2.open_left;
            closed_left = λ x e. ground (arith, still, d.2.closed_left x e, ==_iff c x);
            not_waiting = λ x e. ground (arith, still, d.2.not_waiting x e, ==_iff c x);
          },
        )
  ]
