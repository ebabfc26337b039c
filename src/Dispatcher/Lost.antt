-- ===== src/Dispatcher/Lost.antt =====
-- handle_messages: what a call that raises nothing leaves.
use lnst.Prelude.{
  String, ◌≡◌, refl, ◌≤◌, Option, none, some, List, [], ◌∷◌, Bool, true, false, arith, Eq, ◌==◌,
  ==_iff, elem, count, Bool-cases, inl, inr, subst, sym,
}
use lnst.Prelude.Dict.{get, has, put, keys, get-put}
use lnst.Prelude.Exc.{Result, ok, ◌>>=◌, or_raise, key_error, >>=-eq-ok}
use lnst.Connections.{Handler}
use lnst.Connections.Poll.{Received, check_connections}
use lnst.Connections.Agrees.{Agrees}
use lnst.Connections.Answers.{ready}
use lnst.Connections.Checked.{check_connections_ok}
use lnst.Dispatcher.{
  Payload, log, result, dev_created, dev_deleted, dev_netns_changed, exception, job_finished_msg,
  unknown, Message, Machine, Dispatcher, on_machine, process_from, process_from_none,
  process_message, process_all, gone, any_mapped, handle_disconnects, Round, handle_messages,
}

module _ {K C L : Type 0} ⦃eq_k : Eq K⦄ ⦃eq_c : Eq C⦄ where
  -- The same connections, and at least the same machines.
  pub record Keeps (d e : Dispatcher K C L) : Type 0 where
    pub handler : e.handler ≡ d.handler
    pub mapped : e.mapped ≡ d.mapped
    pub machines : (k : K) → has d.machines k ≡ true → has e.machines k ≡ true

  Keeps-refl : (d : Dispatcher K C L) → Keeps d d
  Keeps-refl d = record { handler = refl; mapped = refl; machines = λ k h. h }

  Keeps-trans : (d e f : Dispatcher K C L) → Keeps d e → Keeps e f → Keeps d f
  Keeps-trans d e f h k = record {
    handler = cc (h.handler, k.handler);
    mapped = cc (h.mapped, k.mapped);
    machines = λ j there. k.machines j (h.machines j there);
  }

  ok_injective : {x y : Dispatcher K C L} → ok x ≡ ok y → x ≡ y
  ok_injective e = cc

  on_machine-Keeps :
      (d e : Dispatcher K C L) (k : K) (method : Machine → Result Machine)
      → on_machine d k method ≡ ok e
      → Keeps d e
  unfolding on_machine has
  on_machine-Keeps d e k method h =
      let r =
        >>=-eq-ok (or_raise (get d.machines k) key_error)
          (λ m. method m >>= λ n. ok (record d { machines = put d.machines k n })) {end = e} h in
      let q =
        >>=-eq-ok (method r.0) (λ n. ok (record d { machines = put d.machines k n })) {end = e}
          r.2 in
      subst (λ (o : Dispatcher K C L). Keeps d o) {x = record d { machines = put d.machines k q.0 }}
        (ok_injective q.2)
        (record {
          handler = refl;
          mapped = refl;
          machines = λ j there. ground (arith, get-put d.machines k j q.0, there);
        })

module _ {K C L R : Type 0} ⦃eq_k : Eq K⦄ ⦃eq_c : Eq C⦄ where
  process_from-Keeps :
      (d e : Dispatcher K C L) (k : K) (netns : Option String) (payload : Payload L R)
      → process_from d k netns payload ≡ ok e
      → Keeps d e
  unfolding process_from
  process_from-Keeps d e k netns (log line) h =
      subst (λ (o : Dispatcher K C L). Keeps d o) (ok_injective h)
        (record { handler = refl; mapped = refl; machines = λ j there. there })
  process_from-Keeps d e k netns (result r) h =
      subst (λ (o : Dispatcher K C L). Keeps d o) (ok_injective h) (Keeps-refl d)
  process_from-Keeps d e k netns (dev_created dat) h = on_machine-Keeps d e k _ h
  process_from-Keeps d e k netns (dev_deleted i) h = on_machine-Keeps d e k _ h
  process_from-Keeps d e k netns (dev_netns_changed i j) h = on_machine-Keeps d e k _ h
  process_from-Keeps d e k netns (exception x) h = absurd (cc)
  process_from-Keeps d e k netns (job_finished_msg id p) h = on_machine-Keeps d e k _ h
  process_from-Keeps d e k netns unknown h = absurd (cc)

  none_raises :
      (d e : Dispatcher K C L) (payload : Payload L R) → process_from_none d payload ≡ ok e → ⊥
  none_raises d e (log line) h = cc
  none_raises d e (result r) h = cc
  none_raises d e (dev_created dat) h = cc
  none_raises d e (dev_deleted i) h = cc
  none_raises d e (dev_netns_changed i j) h = cc
  none_raises d e (exception x) h = cc
  none_raises d e (job_finished_msg id p) h = cc
  none_raises d e unknown h = cc

  pub process_message-Keeps :
      (d e : Dispatcher K C L) (msg : Option K × Message L R)
      → process_message d msg ≡ ok e
      → Keeps d e
  unfolding process_message
  process_message-Keeps d e (none, msg) h = absurd (none_raises d e msg.payload h)
  process_message-Keeps d e (some k, msg) h = process_from-Keeps d e k msg.netns msg.payload h

  process_all-Keeps :
      (d e : Dispatcher K C L) (msgs : List (Option K × Message L R))
      → process_all d msgs ≡ ok e
      → Keeps d e
  unfolding process_all
  process_all-Keeps d e [] h =
      subst (λ (o : Dispatcher K C L). Keeps d o) (ok_injective h) (Keeps-refl d)
  process_all-Keeps d e (msg ∷ msgs) h =
      let r = >>=-eq-ok (process_message d msg) (λ f. process_all f msgs) {end = e} h in
      Keeps-trans d r.0 e (process_message-Keeps d r.0 msg r.1) (process_all-Keeps r.0 e msgs r.2)

module _ {K : Type 0} ⦃eq_k : Eq K⦄ where
  gone_mapped :
      (mapped : K → Bool) (before after : List K) (k : K)
      → mapped k ≡ true
      → elem k before ≡ true
      → any_mapped mapped (gone before after) ≡ false
      → elem k after ≡ true
  unfolding gone any_mapped elem
  gone_mapped mapped [] after k h there e = absurd (cc)
  gone_mapped mapped (j ∷ before) after k h there e = elim (Bool-cases (elem j after)) [
    | inl stays ↦ elim (Bool-cases (j == k)) [
      | inl same ↦ cc ((==_iff j k).0 same, stays)
      | inr other ↦ gone_mapped mapped before after k h (rw other at there) (rw stays at e)
    ]
    | inr leaves ↦ elim (Bool-cases (mapped j)) [
      | inl is_mapped ↦ absurd (cc (rw (leaves, is_mapped) at e))
      | inr not_mapped ↦ elim (Bool-cases (j == k)) [
        | inl same ↦ absurd (cc ((==_iff j k).0 same, not_mapped, h))
        | inr other ↦
            gone_mapped mapped before after k h (rw other at there) (rw (leaves, not_mapped) at e)
      ]
    ]
  ]

  handle_disconnects_lem :
      (mapped : K → Bool) (before after : List K) {v : Unit {0}} (k : K)
      → handle_disconnects mapped before after ≡ ok v
      → mapped k ≡ true
      → elem k before ≡ true
      → elem k after ≡ true
  unfolding handle_disconnects
  handle_disconnects_lem mapped before after k e h there =
      elim (Bool-cases (any_mapped mapped (gone before after))) [
        | inl lost ↦ absurd (cc (rw lost at e))
        | inr kept ↦ gone_mapped mapped before after k h there kept
      ]

-- `select` answers with connections that it was given, and no more often.
abbrev pub IsSelect :
    {C M : Type 0} ⦃eq_c : Eq C⦄
    → (List C → Result (Option (List (C × List (Received M)))))
    → Type 0
IsSelect {C = C} {M = M} select =
    (cs : List C) (rl : List (C × List (Received M)))
    → select cs ≡ ok (some rl)
    → (c : C) → count c (ready rl) ≤ count c cs

module _ {K C L : Type 0} ⦃eq_k : Eq K⦄ ⦃eq_c : Eq C⦄ where
  -- The connections agree with their mapping, and each belongs to a machine.
  pub record IsServing (d : Dispatcher K C L) : Type 0 where
    pub agrees : Agrees d.handler
    pub served :
        (k : K) (c : C) → get d.handler.connection_mapping k ≡ some c → has d.machines k ≡ true

module _ {K C L R : Type 0} ⦃eq_k : Eq K⦄ ⦃eq_c : Eq C⦄ where
  -- After a call of handle_messages that raises nothing, in a dispatcher that serves its machines,
  -- the dispatcher still serves them, and every mapped machine that was connected is connected.
  pub handle_messages-IsServing :
      (d e : Dispatcher K C L) (round : Round C L R)
      → IsServing d
      → IsSelect round.select
      → handle_messages d round ≡ ok e
      → IsServing e
        × ((k : K)
            → d.mapped k ≡ true
            → elem k (keys d.handler.connection_mapping) ≡ true
            → elem k (keys e.handler.connection_mapping) ≡ true)
  unfolding handle_messages
  handle_messages-IsServing d e round s sound h =
      let p =
        >>=-eq-ok (check_connections round.is_closed round.select d.handler)
          (λ p. process_all (record d { handler = p.handler }) p.requests >>= λ e.
            handle_disconnects d.mapped (keys d.handler.connection_mapping)
              (keys e.handler.connection_mapping)
            >>= λ u. ok e)
          {end = e} h in
      let t =
        check_connections_ok {K = K} {C = C} {M = Message L R} round.is_closed round.select
          d.handler p.0 s.agrees sound p.1 in
      let after = record d { handler = (p.0).handler } in
      let r =
        >>=-eq-ok (process_all after (p.0).requests)
          (λ f.
            handle_disconnects d.mapped (keys d.handler.connection_mapping)
              (keys f.handler.connection_mapping)
            >>= λ u. ok f)
          {end = e} p.2 in
      let q =
        >>=-eq-ok
          (handle_disconnects d.mapped (keys d.handler.connection_mapping)
            (keys r.0.handler.connection_mapping))
          (λ u. ok r.0) {end = e} r.2 in
      let k = process_all-Keeps after r.0 (p.0).requests r.1 in
      subst
        (λ (o : Dispatcher K C L).
          IsServing o
          × ((j : K)
              → d.mapped j ≡ true
              → elem j (keys d.handler.connection_mapping) ≡ true
              → elem j (keys o.handler.connection_mapping) ≡ true))
        {x = r.0} (ok_injective q.2)
        (
          record {
            agrees = subst (λ (o : Handler K C). Agrees o) (sym k.handler) (t.2).agrees;
            served = λ j c there. k.machines j (
                s.served j c (
                  (t.2).mapped j c (
                    subst (λ (o : Handler K C). get o.connection_mapping j ≡ some c) k.handler
                      there)));
          },
          λ j m there.
              handle_disconnects_lem d.mapped (keys d.handler.connection_mapping)
                (keys r.0.handler.connection_mapping) {v = q.0} j q.1 m there,
        )
