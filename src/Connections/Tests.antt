-- ===== src/Connections/Tests.antt =====
-- ConnectionHandler at concrete inputs.
use lnst.Prelude.{
  ℕ, String, ◌≡◌, refl, Option, some, List, [], ◌∷◌, ◌≤◌, Bool, arith, nat_eq, string_eq, count,
  nat_beq, if◌then◌else◌, elem, remove_first, ◌⊎◌,
}
use lnst.Prelude.Exc.{Error, Result, ok, err}
use lnst.Prelude.Dict.{get, keys, values, put, has, del}
use lnst.Connections.{
  Handler, new_handler, add_connection, id_of, get_connection_id, remove_connection,
}
use lnst.Connections.Poll.{
  Received, message, broken, Polled, check_connections, poll, drop_closed, read_ready, read_all,
  close_connection,
}
use lnst.Connections.Agrees.{Agrees, add_connection-Agrees}
use lnst.Connections.Answers.{Answer, Raising, ready}
use lnst.Connections.Checked.{Checked, check_connections_total}

-- Machine `m1` on connection 7, machine `m2` on connection 8.
abbrev two : Handler String ℕ
two = add_connection (add_connection new_handler "m1" 7) "m2" 8

new_handler-Agrees : Agrees {K = String} {C = ℕ} new_handler
unfolding count keys values
new_handler-Agrees = record { same = λ c. refl; distinct = λ k. omega arith }

two-Agrees : Agrees two
two-Agrees =
    add_connection-Agrees (add_connection new_handler "m1" 7) "m2" 8
      (add_connection-Agrees new_handler "m1" 7 new_handler-Agrees)

-- Connection 7 is closed already; 8, if waited for, sends one message and breaks.
abbrev closed_seven : ℕ → Bool
closed_seven c = nat_beq c 7

abbrev answer : List ℕ → Result (Option (List (ℕ × List (Received String))))
answer [] = ok (some [])
answer (c ∷ cs) =
    if nat_beq c 8 then ok (some ((c, message "hello" ∷ broken ∷ []) ∷ [])) else ok (some [])

answer_within :
    (cs : List ℕ) (rl : List (ℕ × List (Received String)))
    → answer cs ≡ ok (some rl)
    → (c : ℕ) → count c (ready rl) ≤ count c cs
unfolding count
answer_within [] rl e c = ground (arith, e)
answer_within (d ∷ cs) rl e c = ground (arith, e)

reads :
    check_connections closed_seven answer two
    ≡ ok (record { handler = new_handler; closed = 8 ∷ []; requests = (some "m2", "hello") ∷ [] })
unfolding add_connection check_connections poll drop_closed read_ready read_all close_connection
    get_connection_id id_of remove_connection elem remove_first get has put del
reads = refl

check_connections_total_example :
    ((e : Error) × (check_connections closed_seven answer two ≡ err e) × Raising answer e)
    ⊎ ((p : Polled String ℕ String) × (check_connections closed_seven answer two ≡ ok p)
        × ((rl : List (ℕ × List (Received String))) × Answer answer rl
            × Checked closed_seven two rl p))
check_connections_total_example =
    check_connections_total closed_seven answer two two-Agrees answer_within
