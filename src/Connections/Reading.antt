-- ===== src/Connections/Reading.antt =====
-- ConnectionHandler._check_connections: the loop over the connections that are ready.
use lnst.Prelude.{
  ℕ, suc, ◌+◌, ◌≤◌, ◌<◌, ◌≡◌, refl, ap, sym, ◌∙◌, subst, append_nil, append_assoc, count-append,
  Option, some, List, [], ◌∷◌, ◌++◌, arith, if◌then◌else◌, Eq, ◌==◌, ==_iff, count, inl, inr,
}
use lnst.Prelude.Dict.{get}
use lnst.Prelude.Exc.{Result, ok}
use lnst.Connections.{Handler, id_of, get_connection_id, remove_connection}
use lnst.Connections.Poll.{
  Received, message, nothing, broken, socket_error, end_of_file, raises, Polled, close_connection,
  read_all, read_ready,
}
use lnst.Connections.Agrees.{Agrees, Removed, remove_connection-Agrees, id_of_total, get-id_of}
use lnst.Connections.Answers.{pairs, shuts, Raised, arrived, shut, RaisedIn, ready, Outcome}

module _ {K C M : Type 0} ⦃eq_k : Eq K⦄ where
  -- The requests are the messages, one by one, each with an identifier of its connection.
  abbrev pub AllNamed : Handler K C → List (Option K × M) → List (C × M) → Type 0
  AllNamed h [] [] = Unit
  AllNamed h [] (a ∷ ms) = ⊥
  AllNamed h (r ∷ rs) [] = ⊥
  AllNamed h (r ∷ rs) (a ∷ ms) =
      ((k : K) × (r.0 ≡ some k) × (get h.connection_mapping k ≡ some a.0) × (r.1 ≡ a.1))
      × AllNamed h rs ms

  AllNamed-append :
      (h : Handler K C) (rs qs : List (Option K × M)) (ms bs : List (C × M))
      → AllNamed h rs ms
      → AllNamed h qs bs
      → AllNamed h (rs ++ qs) (ms ++ bs)
  AllNamed-append h [] qs [] bs n m = m
  AllNamed-append h [] qs (a ∷ ms) bs n m = absurd n
  AllNamed-append h (r ∷ rs) qs [] bs n m = absurd n
  AllNamed-append h (r ∷ rs) qs (a ∷ ms) bs n m = (n.0, AllNamed-append h rs qs ms bs n.1 m)

module _ {K C M : Type 0} ⦃eq_k : Eq K⦄ ⦃eq_c : Eq C⦄ (h : Handler K C) (base : C → ℕ) where
  -- What holds while the connections are read, after these messages and these that broke.
  pub record Reading (arr : List (C × M)) (done : List C) (p : Polled K C M) : Type 0 where
    pub agrees : Agrees p.handler
    pub balance : (x : C) → count x p.handler.connections + count x p.closed ≡ base x
    pub mapped :
        (k : K) (x : C)
        → get p.handler.connection_mapping k ≡ some x
        → get h.connection_mapping k ≡ some x
    pub closed : p.closed ≡ done
    pub requests : AllNamed h p.requests arr

  -- Reading `f` takes at most one `f` out.
  Rest : C → Polled K C M → Polled K C M → Type 0
  Rest f p q =
      (x : C)
      → count x p.handler.connections
        ≤ (if f == x then suc (count x q.handler.connections) else count x q.handler.connections)

  abbrev ReadOne :
      C → Polled K C M → List (C × M) → List C → List (Received M) → Result (Polled K C M) → Type 0
  ReadOne f p arr done received r =
      Outcome (λ e. Raised e received)
        (λ q. Reading (arr ++ pairs f received) (done ++ shuts f received) q × Rest f p q) r

  closed_lem :
      (p : Polled K C M) (f : C) (arr : List (C × M)) (done : List C)
      → Reading arr done p
      → 0 < count f p.handler.connections
      → (q : Polled K C M) × (close_connection p f ≡ ok q)
        × (Reading (arr ++ []) (done ++ (f ∷ [])) q × Rest f p q)
  unfolding close_connection Rest count
  closed_lem p f arr done r pos =
      let c : (g : Handler K C) × (remove_connection p.handler f ≡ ok g) × Removed f p.handler g =
        remove_connection-Agrees p.handler f r.agrees in
      (
        record { handler = c.0; closed = p.closed ++ (f ∷ []); requests = p.requests },
        rw c.1 refl,
        (
          record {
            agrees = c.2.agrees;
            balance = λ x. ground (
              arith,
              r.balance x,
              count-append x p.closed (f ∷ []),
              c.2.fewer x,
              c.2.others x,
              c.2.one_less,
              ==_iff f x,
            );
            mapped = λ k x e. r.mapped k x (c.2.mapped k x e);
            closed = ap (λ (cs : List C). cs ++ (f ∷ [])) r.closed;
            requests =
                subst (λ (ms : List (C × M)). AllNamed h p.requests ms) (sym (append_nil arr))
                  r.requests;
          },
          c.2.others,
        ),
      )

  read_all_lem :
      (p : Polled K C M) (f : C) (received : List (Received M)) (arr : List (C × M)) (done : List C)
      → Reading arr done p
      → 0 < count f p.handler.connections
      → ReadOne f p arr done received (read_all p f received)
  unfolding read_all Rest get_connection_id
  read_all_lem p f [] arr done r pos = inr (
    p,
    refl,
    (
      record {
        agrees = r.agrees;
        balance = r.balance;
        mapped = r.mapped;
        closed = r.closed ∙ sym (append_nil done);
        requests =
            subst (λ (ms : List (C × M)). AllNamed h p.requests ms) (sym (append_nil arr))
              r.requests;
      },
      λ x. ground arith,
    ),
  )
  read_all_lem p f (message m ∷ more) arr done r pos =
      let i : (k : K) × (id_of p.handler.connection_mapping f ≡ some k) =
        id_of_total p.handler.connection_mapping f (omega (arith, r.agrees.same f)) in
      let mapped : get h.connection_mapping i.0 ≡ some f =
        r.mapped i.0 f (get-id_of p.handler.connection_mapping f {k = i.0} r.agrees.distinct i.1) in
      rw i.1 (
        subst
          (λ (ms : List (C × M)).
            Outcome (λ e. Raised e more) (λ q. Reading ms (done ++ shuts f more) q × Rest f p q)
              (read_all (record p { requests = p.requests ++ ((some i.0, m) ∷ []) }) f more))
          (append_assoc arr ((f, m) ∷ []) (pairs f more))
          (read_all_lem (record p { requests = p.requests ++ ((some i.0, m) ∷ []) }) f more
            (arr ++ ((f, m) ∷ [])) done
            (record {
              agrees = r.agrees;
              balance = r.balance;
              mapped = r.mapped;
              closed = r.closed;
              requests =
                  AllNamed-append h p.requests ((some i.0, m) ∷ []) arr ((f, m) ∷ []) r.requests
                    ((i.0, refl, mapped, refl), tt);
            })
            pos))
  read_all_lem p f (nothing ∷ more) arr done r pos = read_all_lem p f more arr done r pos
  read_all_lem p f (broken ∷ more) arr done r pos = inr (closed_lem p f arr done r pos)
  read_all_lem p f (socket_error ∷ more) arr done r pos = inr (closed_lem p f arr done r pos)
  read_all_lem p f (end_of_file ∷ more) arr done r pos = inr (closed_lem p f arr done r pos)
  read_all_lem p f (raises e ∷ more) arr done r pos = inl (e, refl, refl)

  pub read_ready_lem :
      (p : Polled K C M) (rl : List (C × List (Received M))) (arr : List (C × M)) (done : List C)
      → Reading arr done p
      → ((c : C) → count c (ready rl) ≤ count c p.handler.connections)
      → Outcome
          (λ e. RaisedIn e rl)
          (λ q. Reading (arr ++ arrived rl) (done ++ shut rl) q)
          (read_ready p rl)
  unfolding read_ready count Rest
  read_ready_lem p [] arr done r within = inr (
    p,
    refl,
    record {
      agrees = r.agrees;
      balance = r.balance;
      mapped = r.mapped;
      closed = r.closed ∙ sym (append_nil done);
      requests =
          subst (λ (ms : List (C × M)). AllNamed h p.requests ms) (sym (append_nil arr)) r.requests;
    },
  )
  read_ready_lem p ((f, received) ∷ rl) arr done r within =
      elim (read_all_lem p f received arr done r (ground (arith, within f, ==_iff f f))) [
        | inl (e, raised, why) ↦ inl (e, rw raised refl, inl why)
        | inr (q, read, (after, rest)) ↦
            elim (read_ready_lem q rl (arr ++ pairs f received) (done ++ shuts f received) after
              (λ c. ground (arith, within c, rest c))) [
                | inl (e, raised, why) ↦ inl (e, rw read raised, inr why)
                | inr (t, ends, good) ↦ inr (
                  t,
                  rw read ends,
                  subst (λ (cs : List C). Reading (arr ++ (pairs f received ++ arrived rl)) cs t)
                      (append_assoc done (shuts f received) (shut rl))
                      (subst
                        (λ (ms : List (C × M)).
                          Reading ms ((done ++ shuts f received) ++ shut rl) t)
                        (append_assoc arr (pairs f received) (arrived rl)) good),
                )
              ]
      ]
