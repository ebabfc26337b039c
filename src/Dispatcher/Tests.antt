-- ===== src/Dispatcher/Tests.antt =====
-- The dispatcher at concrete inputs.
use lnst.Prelude.{
  ℕ, String, ◌≡◌, refl, Option, none, some, List, [], ◌∷◌, ◌≤◌, true, arith, nat_eq, string_eq,
  count, nat_beq, if◌then◌else◌, elem, Bool-cases, inl, inr, remove_first, ◌==◌,
}
use lnst.Prelude.Dict.{get, keys, values, put, has, del}
use lnst.Prelude.Exc.{Result, ok}
use lnst.Connections.{new_handler, add_connection, id_of, get_connection_id, remove_connection}
use lnst.Connections.Poll.{
  Received, message, check_connections, poll, drop_closed, read_ready, read_all, close_connection,
}
use lnst.Connections.Agrees.{add_connection-Agrees}
use lnst.Connections.Answers.{ready}
use lnst.Jobs.{job_finished, Job}
use lnst.Database.{remote_device}
use lnst.Dispatcher.{
  result, job_finished_msg, Message, Machine, Dispatcher, Round, add_agent, on_machine,
  process_from, process_message, process_all, gone, any_mapped, handle_disconnects, handle_messages,
  Obj, plain, device_ref, list, no_objs, more_objs,
}
use lnst.Dispatcher.Lost.{IsServing, handle_messages-IsServing}

abbrev job_one : Job
job_one = record { id = none; expect = true; res = none }

-- A machine with no device and one running job.
abbrev machine : Machine
machine = record {
  database = record {
    initns = 0;
    namespaces = [];
    objects = λ o. remote_device "Device";
    next_object = 0;
    device_database = (0, []) ∷ [];
    tmp_device_database = [];
    netns_moved_devices = [];
  };
  jobs = record { job_id_seq = 1; jobs = (0, job_one) ∷ [] };
}

abbrev idle : Dispatcher String ℕ String
idle = record { handler = new_handler; machines = []; mapped = λ k. k == "m2"; client_log = [] }

-- Machine `m1`, not mapped, on connection 7 and the mapped machine `m2` on connection 8.
abbrev two : Dispatcher String ℕ String
two = add_agent (add_agent idle "m1" machine 7) "m2" machine 8

abbrev after_two : Dispatcher String ℕ String
after_two = record two { client_log = ("m2", "started") ∷ [] }

abbrev finishing : List (Received (Message String (Obj ℕ)))
finishing = message (record { netns = none; payload = job_finished_msg 0 true }) ∷ []

-- Connection 8 is answered with the messages, where it is waited for.
abbrev answer :
    List (Received (Message String (Obj ℕ)))
    → List ℕ
    → Result (Option (List (ℕ × List (Received (Message String (Obj ℕ))))))
answer ms [] = ok (some [])
answer ms (c ∷ cs) =
    let rest = answer ms cs in if nat_beq c 8 then ok (some ((c, ms) ∷ [])) else rest

abbrev round_of : List (Received (Message String (Obj ℕ))) → Round ℕ String (Obj ℕ)
round_of ms = record { is_closed = λ c. nat_beq c 7; select = answer ms }

answer_within :
    (ms : List (Received (Message String (Obj ℕ)))) (cs : List ℕ)
    (rl : List (ℕ × List (Received (Message String (Obj ℕ)))))
    → answer ms cs ≡ ok (some rl)
    → (c : ℕ) → count c (ready rl) ≤ count c cs
unfolding count
answer_within ms [] rl e c = ground (arith, e)
answer_within ms (d ∷ cs) rl e c = elim (Bool-cases (nat_beq d 8)) [
  | inl eight ↦ ground (arith, e, eight)
  | inr other ↦ ground (arith, e, other, answer_within ms cs rl (rw other at e) c)
]

two-IsServing : IsServing two
unfolding add_agent get has put add_connection count keys values
two-IsServing = record {
  agrees = add_connection-Agrees (add_connection new_handler "m1" 7) "m2" 8 (
      add_connection-Agrees new_handler "m1" 7
        (record { same = λ c. refl; distinct = λ k. omega arith }));
  served = λ k c there. elim (Bool-cases ("m1" == k)) [
    | inl first ↦ rw (has, first) refl
    | inr other ↦ elim (Bool-cases ("m2" == k)) [
      | inl second ↦ rw (has, other, second) refl
      | inr neither ↦ absurd (cc (rw (other, neither) at there))
    ]
  ];
}

-- `m2` is served alone, and its job is finished.
abbrev served : Dispatcher String ℕ String
served = record {
  handler = add_connection new_handler "m2" 8;
  machines =
      ("m1", machine)
      ∷ (
        "m2",
        record machine {
          jobs = record { job_id_seq = 1; jobs = (0, record job_one { res = some true }) ∷ [] };
        },
      )
      ∷ [];
  mapped = λ k. k == "m2";
  client_log = [];
}

-- Machine `m1` is gone; it was not mapped.
handle_messages-IsServing_example :
    IsServing served
    × ((k : String)
        → two.mapped k ≡ true
        → elem k (keys two.handler.connection_mapping) ≡ true
        → elem k (keys served.handler.connection_mapping) ≡ true)
unfolding add_connection add_agent check_connections poll drop_closed read_ready read_all
    close_connection get_connection_id id_of remove_connection elem remove_first get has put del
    handle_messages process_all process_message process_from on_machine job_finished
    handle_disconnects any_mapped gone keys
handle_messages-IsServing_example =
    handle_messages-IsServing {R = Obj ℕ} two served (round_of finishing) two-IsServing
      (answer_within finishing) refl

abbrev answer_of : Obj ℕ
answer_of = list (more_objs (plain 5) (more_objs (device_ref 3) no_objs))

abbrev with_result : List (Round ℕ String (Obj ℕ))
with_result =
    round_of finishing
    ∷ round_of (message (record { netns = none; payload = result answer_of }) ∷ [])
    ∷ []
