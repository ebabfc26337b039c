-- ===== src/Connections/Checked.antt =====
-- ConnectionHandler._check_connections: what it raises, what it reads and what it closes.
use lnst.Prelude.{
  ℕ, ◌+◌, ◌≤◌, ◌≡◌, refl, ◌∙◌, subst, Option, none, some, List, [], Bool, true, false, arith, Eq,
  count, Bool-cases, inl, inr, ◌⊎◌,
}
use lnst.Prelude.Dict.{get}
use lnst.Prelude.Exc.{Error, Result, ok, err}
use lnst.Connections.{Handler}
use lnst.Connections.Poll.{Received, Polled, read_ready, drop_closed, poll, check_connections}
use lnst.Connections.Agrees.{Agrees}
use lnst.Connections.Answers.{arrived, shut, RaisedIn, ready, Answer, Raising, Outcome}
use lnst.Connections.Reading.{AllNamed, read_ready_lem}
use lnst.Connections.Dropped.{Dropped, drop_closed_lem}

module _ {C : Type 0} ⦃eq_c : Eq C⦄ where
  no_break_lem : (n : ℕ) (x : C) → n + count x [] ≡ n
  unfolding count
  no_break_lem n x = omega arith

module _ {K C M : Type 0} ⦃eq_k : Eq K⦄ ⦃eq_c : Eq C⦄ where
  -- What check_connections leaves, of which `select` gave `rl`.
  pub record Checked (is_closed : C → Bool) (h : Handler K C) (rl : List (C × List (Received M)))
      (p : Polled K C M) : Type 0 where
    pub agrees : Agrees p.handler
    pub mapped :
        (k : K) (x : C)
        → get p.handler.connection_mapping k ≡ some x
        → get h.connection_mapping k ≡ some x
    pub closed_gone : (x : C) → is_closed x ≡ true → count x p.handler.connections ≡ 0
    pub open_kept :
        (x : C)
        → is_closed x ≡ false
        → count x p.handler.connections + count x (shut rl) ≡ count x h.connections
    pub closed : p.closed ≡ shut rl
    pub requests : AllNamed h p.requests (arrived rl)

  read_from :
      (is_closed : C → Bool) (h g : Handler K C) (cs : List C) (rl : List (C × List (Received M)))
      → Dropped is_closed h h.connections (g, cs)
      → ((c : C) → count c (ready rl) ≤ count c cs)
      → ((c : C) → count c cs ≤ count c g.connections)
      → Outcome
          (λ e. RaisedIn e rl)
          (λ p. Checked is_closed h rl p)
          (read_ready (record { handler = g; closed = []; requests = [] }) rl)
  unfolding count
  read_from is_closed h g cs rl d within left =
      elim (read_ready_lem h (λ x. count x g.connections)
        (record { handler = g; closed = []; requests = [] }) rl [] []
        (record {
          agrees = d.agrees;
          balance = λ x. omega arith;
          mapped = d.mapped;
          closed = refl;
          requests = tt;
        })
        (λ c. omega (arith, within c, left c))) [
          | inl bad ↦ inl bad
          | inr (q, ends, good) ↦ inr (
            q,
            ends,
            record {
              agrees = good.agrees;
              mapped = good.mapped;
              closed_gone = λ x e. omega (arith, good.balance x, d.closed_left x e);
              open_kept = λ x e.
                  subst
                    (λ (cs : List C).
                      count x q.handler.connections + count x cs ≡ count x h.connections)
                    good.closed (good.balance x ∙ d.open_left x e);
              closed = good.closed;
              requests = good.requests;
            },
          )
        ]

  -- Where the list and the mapping of the handler agree, and `select` answers with connections that
  -- it was given, check_connections raises only an exception, other than the two that are caught,
  -- of select or of the reading of a connection that is ready. If it returns: the list and the
  -- mapping agree again, the mapping has nothing new, no connection that was closed is left,
  -- exactly those of the others that broke while they were read are closed and taken out, and the
  -- requests are exactly the messages that came on the connections before they broke, in their
  -- order, each with an identifier of its connection.
  pub check_connections_total :
      (is_closed : C → Bool) (select : List C → Result (Option (List (C × List (Received M)))))
      (h : Handler K C)
      → Agrees h
      → ((cs : List C) (rl : List (C × List (Received M)))
          → select cs ≡ ok (some rl)
          → (c : C) → count c (ready rl) ≤ count c cs)
      → ((e : Error) × (check_connections is_closed select h ≡ err e) × Raising select e)
        ⊎ ((p : Polled K C M) × (check_connections is_closed select h ≡ ok p)
            × ((rl : List (C × List (Received M))) × Answer select rl × Checked is_closed h rl p))
  unfolding check_connections poll
  check_connections_total is_closed select h a within =
      let d : (r : Handler K C × List C) × (drop_closed is_closed h h.connections ≡ ok r)
          × Dropped is_closed h h.connections r =
        drop_closed_lem is_closed h h.connections a in
      elim (Result-cases (select d.0.1)) [
        | inl (e, failed) ↦
            inl (e, rw (check_connections, poll, d.1, failed) refl, (d.0.1, inl failed))
        | inr (none, caught) ↦ inr (
          record { handler = d.0.0; closed = []; requests = [] },
          rw (check_connections, poll, d.1, caught) refl,
          (
            [],
            (d.0.1, inr (caught, refl)),
            record {
              agrees = d.2.agrees;
              mapped = d.2.mapped;
              closed_gone = λ x e. omega (arith, d.2.closed_left x e);
              open_kept = λ x e. no_break_lem (count x d.0.0.connections) x ∙ d.2.open_left x e;
              closed = refl;
              requests = tt;
            },
          ),
        )
        | inr (some rl, answered) ↦
            elim (read_from is_closed h d.0.0 d.0.1 rl d.2 (within d.0.1 rl answered) (λ c.
              elim (Bool-cases (is_closed c)) [
                | inl closed ↦ omega (arith, d.2.not_waiting c closed)
                | inr still ↦ omega (arith, d.2.waiting c, d.2.open_left c still)
              ])) [
                | inl (e, raised, why) ↦ inl (
                  e,
                  rw (check_connections, poll, d.1, answered) raised,
                  (d.0.1, inr (rl, answered, why)),
                )
                | inr (p, ends, good) ↦ inr (
                  p,
                  rw (check_connections, poll, d.1, answered) ends,
                  (rl, (d.0.1, inl answered), good),
                )
              ]
      ]
    where
      Result-cases :
          {A : Type 0} (r : Result A) → ((e : Error) × (r ≡ err e)) ⊎ ((a : A) × (r ≡ ok a))
      Result-cases (err e) = inl (e, refl)
      Result-cases (ok a) = inr (a, refl)

  -- What it leaves where it returns.
  pub check_connections_ok :
      (is_closed : C → Bool) (select : List C → Result (Option (List (C × List (Received M)))))
      (h : Handler K C) (p : Polled K C M)
      → Agrees h
      → ((cs : List C) (rl : List (C × List (Received M)))
          → select cs ≡ ok (some rl)
          → (c : C) → count c (ready rl) ≤ count c cs)
      → check_connections is_closed select h ≡ ok p
      → (rl : List (C × List (Received M))) × Answer select rl × Checked is_closed h rl p
  check_connections_ok is_closed select h p a within ends =
      elim (check_connections_total is_closed select h a within) [
        | inl (e, raised, why) ↦ absurd (cc (ends, raised))
        | inr (q, same, good) ↦
            subst
              (λ (o : Polled K C M).
                (rl : List (C × List (Received M))) × Answer select rl × Checked is_closed h rl o)
              {x = q} {y = p} (cc (ends, same)) good
      ]
