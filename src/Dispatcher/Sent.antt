-- ===== src/Dispatcher/Sent.antt =====
-- send_message: what it returns.
use lnst.Prelude.{String, ◌≡◌, Option, none, some, List, [], ◌∷◌, Eq, ◌⊎◌}
use lnst.Prelude.Dict.{get}
use lnst.Prelude.Exc.{ok}
use lnst.Connections.Poll.{Polled, check_connections}
use lnst.Dispatcher.{
  Message, Dispatcher, Round, own_result, await_round, Machine, Obj, deviceref_to_remote_device,
}

module _ {K L R : Type 0} ⦃eq_k : Eq K⦄ where
  -- The results of the machine among the messages, in their order.
  abbrev pub results_of : K → List (Option K × Message L R) → List R
  results_of machine [] = []
  results_of machine ((sender, msg) ∷ msgs) =
      let rest = results_of machine msgs in
      elim (own_result machine sender msg.payload) [ none ↦ rest | some r ↦ r ∷ rest ]

abbrev pub listed : {R : Type 0} → Option R → List R
listed none = []
listed (some r) = r ∷ []

-- The content of a result message, of the messages that one call of check_connections gave, is the
-- only one from the machine.
module _ {K C L R : Type 0} ⦃eq_k : Eq K⦄ ⦃eq_c : Eq C⦄ where
  -- How the rounds went: in each but the last no result came from the machine, and in the last, if
  -- it is not that all are used up, the one result `r` came.
  unfoldable pub Awaited : Dispatcher K C L → K → List (Round C L R) → Option R → Type 0
  Awaited d machine [] res = res ≡ none
  Awaited d machine (round ∷ rounds) res =
      (p : Polled K C (Message L R)) × (check_connections round.is_closed round.select d.handler
        ≡ ok p)
      × (((r : R) × (results_of machine p.requests ≡ r ∷ []) × (res ≡ some r))
          ⊎ ((f : Dispatcher K C L) × (results_of machine p.requests ≡ [])
              × (await_round d machine round ≡ ok (f, none))
              × Awaited f machine rounds res))

module _ {K C L A : Type 0} ⦃eq_k : Eq K⦄ ⦃eq_c : Eq C⦄ where
  -- What is returned for the result that was found: it, with the machine's devices in the place of
  -- its references.
  abbrev pub IsReturned :
      Dispatcher K C L → K → Option String → Option (Obj A) → Option (Obj A) → Type 0
  IsReturned d machine netns none res = res ≡ none
  IsReturned d machine netns (some r) res =
      (m : Machine) × (v : Obj A) × (get d.machines machine ≡ some m)
      × (deviceref_to_remote_device m.database r netns ≡ ok v)
      × (res ≡ some v)
