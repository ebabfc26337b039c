-- ===== src/Connections/Answers.antt =====
-- What `select` and the connections answer to one call of _check_connections.
use lnst.Prelude.{◌≡◌, Option, none, some, List, [], ◌∷◌, ◌++◌, ◌⊎◌}
use lnst.Prelude.Exc.{Error, Result, ok, err}
use lnst.Connections.Poll.{Received, message, nothing, broken, socket_error, end_of_file, raises}

-- The messages that are received on a connection, up to where it breaks.
abbrev pub pairs : {C M : Type 0} → C → List (Received M) → List (C × M)
pairs f [] = []
pairs f (message m ∷ more) = (f, m) ∷ pairs f more
pairs f (nothing ∷ more) = pairs f more
pairs f (broken ∷ more) = []
pairs f (socket_error ∷ more) = []
pairs f (end_of_file ∷ more) = []
pairs f (raises e ∷ more) = []

-- The connection, if it breaks.
abbrev pub shuts : {C M : Type 0} → C → List (Received M) → List C
shuts f [] = []
shuts f (message m ∷ more) = shuts f more
shuts f (nothing ∷ more) = shuts f more
shuts f (broken ∷ more) = f ∷ []
shuts f (socket_error ∷ more) = f ∷ []
shuts f (end_of_file ∷ more) = f ∷ []
shuts f (raises e ∷ more) = []

-- The exception, which the loop does not catch, comes before the connection breaks.
abbrev pub Raised : {M : Type 0} → Error → List (Received M) → Type 0
Raised e [] = ⊥
Raised e (message m ∷ more) = Raised e more
Raised e (nothing ∷ more) = Raised e more
Raised e (broken ∷ more) = ⊥
Raised e (socket_error ∷ more) = ⊥
Raised e (end_of_file ∷ more) = ⊥
Raised e (raises d ∷ more) = d ≡ e

-- The same for all the connections that are ready, in their order.
abbrev pub arrived : {C M : Type 0} → List (C × List (Received M)) → List (C × M)
arrived [] = []
arrived ((f, received) ∷ rl) = pairs f received ++ arrived rl

abbrev pub shut : {C M : Type 0} → List (C × List (Received M)) → List C
shut [] = []
shut ((f, received) ∷ rl) = shuts f received ++ shut rl

abbrev pub RaisedIn : {C M : Type 0} → Error → List (C × List (Received M)) → Type 0
RaisedIn e [] = ⊥
RaisedIn e ((f, received) ∷ rl) = Raised e received ⊎ RaisedIn e rl

abbrev pub ready : {C M : Type 0} → List (C × List (Received M)) → List C
ready [] = []
ready ((f, received) ∷ rl) = f ∷ ready rl

-- `select` answered with these connections, or it raised select.error and there are none.
abbrev pub Answer :
    {C M : Type 0}
    → (List C → Result (Option (List (C × List (Received M)))))
    → List (C × List (Received M))
    → Type 0
Answer {C = C} select rl =
    (cs : List C) × ((select cs ≡ ok (some rl)) ⊎ ((select cs ≡ ok none) × (rl ≡ [])))

-- `select`, or what is called for a connection that it answers with, raises what is not caught.
abbrev pub Raising :
    {C M : Type 0} → (List C → Result (Option (List (C × List (Received M))))) → Error → Type 0
Raising {C = C} {M = M} select e =
    (cs : List C) × ((select cs ≡ err e)
      ⊎ ((rl : List (C × List (Received M))) × (select cs ≡ ok (some rl)) × RaisedIn e rl))

-- A call raises, for a reason, or gives a value that is as it should be.
abbrev pub Outcome : {A : Type 0} → (Error → Type 0) → (A → Type 0) → Result A → Type 0
Outcome {A = A} Bad Good r = ((e : Error) × (r ≡ err e) × Bad e) ⊎ ((a : A) × (r ≡ ok a) × Good a)
