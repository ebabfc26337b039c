-- ===== src/Dispatcher.antt =====
-- lnst/Controller/MessageDispatcher.py: the controller's end of the connections to its agents. It
-- is a ConnectionHandler whose identifiers are the machines. `mapped` is get_mapped() of a machine;
-- what is pickled in a message is the type of `result`s and the lines of the log.
pub mod Lost
pub mod Sent
pub mod Tests
use lnst.Prelude.{
  ℕ, String, Option, none, some, List, [], ◌∷◌, ◌++◌, Bool, true, false, not, ◌&&◌, Eq, ◌==◌, elem,
  if◌then◌else◌,
}
use lnst.Prelude.Dict.{Dict, get, has, put, del, keys}
use lnst.Prelude.Exc.{
  Error, Result, ok, err, key_error, attribute_error, connection_error, or_raise, ◌>>=◌,
}
use lnst.Connections.{Handler, get_connection, add_connection, remove_connection}
use lnst.Connections.Poll.{Received, Polled, check_connections}
use lnst.Database.{
  Database, DevData, device_created, device_delete, device_netns_change, dev_db_get_ifindex,
}
use lnst.Jobs.{Jobs, job_finished}

-- message["type"], with the parts of the message that are read
pub data Payload (L R : Type 0) : Type 0 where
  log : L → Payload L R
  result : R → Payload L R
  dev_created : DevData → Payload L R
  dev_deleted : ℕ → Payload L R
  dev_netns_changed : ℕ → Option ℕ → Payload L R
  exception : Error → Payload L R
  job_finished_msg : ℕ → Bool → Payload L R
  unknown : Payload L R

pub record Message (L R : Type 0) : Type 0 where
  pub netns : Option String
  pub payload : Payload L R

-- What the dispatcher changes of a machine.
pub record Machine : Type 0 where
  pub database : Database
  pub jobs : Jobs

pub record Dispatcher (K C L : Type 0) : Type 0 where
  pub handler : Handler K C
  pub machines : Dict K Machine
  pub mapped : K → Bool
  pub client_log : List (K × L)

-- A method of the machine's database, for the messages on devices.
abbrev pub on_database : (Database → Result Database) → Machine → Result Machine
on_database method m = method m.database >>= λ s. ok (record m { database = s })

module _ {K C L : Type 0} ⦃eq_k : Eq K⦄ ⦃eq_c : Eq C⦄ where
  unfoldable pub add_agent : Dispatcher K C L → K → Machine → C → Dispatcher K C L
  add_agent d machine m connection = record d {
    machines = put d.machines machine m;
    handler = add_connection d.handler machine connection;
  }

  -- A machine without a connection has none to remove.
  unfoldable pub disconnect_agent : Dispatcher K C L → K → Result (Dispatcher K C L)
  disconnect_agent d machine =
      elim (get_connection d.handler machine) [
        | none ↦ ok d.handler
        | some soc ↦ remove_connection d.handler soc
      ]
      >>= λ h. or_raise (get d.machines machine) key_error >>= λ m.
          ok (record d { handler = h; machines = del d.machines machine })

  -- `self._machines[message[0]]` and a method of it.
  unfoldable pub on_machine :
      Dispatcher K C L → K → (Machine → Result Machine) → Result (Dispatcher K C L)
  on_machine d k method = or_raise (get d.machines k) key_error >>= λ m.
      method m >>= λ n. ok (record d { machines = put d.machines k n })

module _ {K C L R : Type 0} ⦃eq_k : Eq K⦄ ⦃eq_c : Eq C⦄ where
  -- _process_message, for a message whose sender is known
  unfoldable pub process_from :
      Dispatcher K C L → K → Option String → Payload L R → Result (Dispatcher K C L)
  process_from d k netns (log line) =
      ok (record d { client_log = d.client_log ++ ((k, line) ∷ []) })
  process_from d k netns (result r) = ok d
  process_from d k netns (dev_created dat) =
      on_machine d k (on_database (λ s. device_created s dat netns))
  process_from d k netns (dev_deleted i) =
      on_machine d k (on_database (λ s. device_delete s i netns))
  process_from d k netns (dev_netns_changed i j) =
      on_machine d k (on_database (λ s. device_netns_change s i j netns))
  process_from d k netns (exception e) = err e
  process_from d k netns (job_finished_msg id p) =
      on_machine d k (λ m. job_finished m.jobs id p >>= λ js. ok (record m { jobs = js }))
  process_from d k netns unknown = err connection_error

  -- Where the sender is None: `message[0].get_id()` and `self._machines[None]` raise.
  abbrev pub process_from_none : Dispatcher K C L → Payload L R → Result (Dispatcher K C L)
  process_from_none d (log line) = err attribute_error
  process_from_none d (result r) = err attribute_error
  process_from_none d (dev_created dat) = err key_error
  process_from_none d (dev_deleted i) = err key_error
  process_from_none d (dev_netns_changed i j) = err key_error
  process_from_none d (exception e) = err e
  process_from_none d (job_finished_msg id p) = err key_error
  process_from_none d unknown = err connection_error

  unfoldable pub process_message :
      Dispatcher K C L → Option K × Message L R → Result (Dispatcher K C L)
  process_message d (none, msg) = process_from_none d msg.payload
  process_message d (some k, msg) = process_from d k msg.netns msg.payload

  unfoldable pub process_all :
      Dispatcher K C L → List (Option K × Message L R) → Result (Dispatcher K C L)
  process_all d [] = ok d
  process_all d (msg ∷ msgs) = process_message d msg >>= λ e. process_all e msgs

module _ {K : Type 0} ⦃eq_k : Eq K⦄ where
  -- set(before) - set(after)
  unfoldable pub gone : List K → List K → List K
  gone [] after = []
  gone (k ∷ ks) after = let rest = gone ks after in if elem k after then rest else k ∷ rest

  unfoldable pub any_mapped : (K → Bool) → List K → Bool
  any_mapped mapped [] = false
  any_mapped mapped (k ∷ ks) = let rest = any_mapped mapped ks in if mapped k then true else rest

module _ {K L R : Type 0} ⦃eq_k : Eq K⦄ where
  -- `msg[1]["type"] == "result" and msg[0] == machine`
  abbrev pub own_result : K → Option K → Payload L R → Option R
  own_result machine none payload = none
  own_result machine (some k) (result r) = if k == machine then some r else none
  own_result machine (some k) (log line) = none
  own_result machine (some k) (dev_created dat) = none
  own_result machine (some k) (dev_deleted i) = none
  own_result machine (some k) (dev_netns_changed i j) = none
  own_result machine (some k) (exception e) = none
  own_result machine (some k) (job_finished_msg id p) = none
  own_result machine (some k) unknown = none

-- What `select` and the sockets answer to one call of check_connections.
pub record Round (C L R : Type 0) : Type 0 where
  pub is_closed : C → Bool
  pub select : List C → Result (Option (List (C × List (Received (Message L R)))))

-- _handle_disconnects, of the agents that are gone: one that is mapped is an error.
-- It is called where the identifiers differ; equal lists have no difference.
unfoldable pub handle_disconnects :
    {K : Type 0} ⦃eq_k : Eq K⦄ → (K → Bool) → List K → List K → Result (Unit {0})
handle_disconnects mapped before after =
    if any_mapped mapped (gone before after) then err connection_error else ok tt

module _ {K C L R : Type 0} ⦃eq_k : Eq K⦄ ⦃eq_c : Eq C⦄ where
  unfoldable pub handle_messages : Dispatcher K C L → Round C L R → Result (Dispatcher K C L)
  handle_messages d round = check_connections round.is_closed round.select d.handler >>= λ p.
      process_all (record d { handler = p.handler }) p.requests >>= λ e.
      handle_disconnects d.mapped (keys d.handler.connection_mapping)
        (keys e.handler.connection_mapping)
      >>= λ u. ok e

  -- The loop over the messages in send_message: the results of the machine are taken out.
  unfoldable pub collect :
      Dispatcher K C L
      → K
      → Option R
      → List (Option K × Message L R)
      → Result (Dispatcher K C L × Option R)
  collect d machine found [] = ok (d, found)
  collect d machine found ((sender, msg) ∷ msgs) = elim (own_result machine sender msg.payload) [
    | some r ↦ elim found [
      | some old ↦ err connection_error
      | none ↦ collect d machine (some r) msgs
    ]
    | none ↦ process_message d (sender, msg) >>= λ e. collect e machine found msgs
  ]

  -- One round of `while True` in send_message
  unfoldable pub await_round :
      Dispatcher K C L → K → Round C L R → Result (Dispatcher K C L × Option R)
  await_round d machine round = check_connections round.is_closed round.select d.handler >>= λ p.
      collect (record d { handler = p.handler }) machine none p.requests >>= λ c.
      handle_disconnects d.mapped (keys d.handler.connection_mapping)
        (keys (c.0).handler.connection_mapping)
      >>= λ u. ok c

  -- The loop, over the answers that the connections give: where they end, it still waits.
  unfoldable pub await_result :
      Dispatcher K C L → K → List (Round C L R) → Result (Dispatcher K C L × Option R)
  await_result d machine [] = ok (d, none)
  await_result d machine (round ∷ rounds) = await_round d machine round >>= λ c. elim (c.1) [
    | some r ↦ ok c
    | none ↦ await_result c.0 machine rounds
  ]

-- What is pickled in a result: a DeviceRef with its index, a dict, a list or a tuple, or anything
-- else. `device` is a RemoteDevice, known by its number, or None, which a reference is turned into.
mutual
  pub data Obj (A : Type 0) : Type 0 where
    plain : A → Obj A
    device_ref : ℕ → Obj A
    device : Option ℕ → Obj A
    dict : Items A → Obj A
    list : Objs A → Obj A
    tuple : Objs A → Obj A

  pub data Objs (A : Type 0) : Type 0 where
    no_objs : Objs A
    more_objs : Obj A → Objs A → Objs A

  pub data Items (A : Type 0) : Type 0 where
    no_items : Items A
    more_items : String → Obj A → Items A → Items A

module _ {A : Type 0} where
  unfoldable mutual
    pub deviceref_to_remote_device : Database → Obj A → Option String → Result (Obj A)
    deviceref_to_remote_device s (plain a) netns = ok (plain a)
    deviceref_to_remote_device s (device_ref ifindex) netns =
        dev_db_get_ifindex s ifindex netns >>= λ dev. ok (device dev)
    deviceref_to_remote_device s (device dev) netns = ok (device dev)
    deviceref_to_remote_device s (dict obj) netns =
        convert_items s obj netns >>= λ new_dict. ok (dict new_dict)
    deviceref_to_remote_device s (list obj) netns =
        convert_objs s obj netns >>= λ new_list. ok (list new_list)
    deviceref_to_remote_device s (tuple obj) netns =
        convert_objs s obj netns >>= λ new_list. ok (tuple new_list)

    pub convert_objs : Database → Objs A → Option String → Result (Objs A)
    convert_objs s no_objs netns = ok no_objs
    convert_objs s (more_objs value obj) netns = deviceref_to_remote_device s value netns >>= λ new.
        convert_objs s obj netns >>= λ new_list. ok (more_objs new new_list)

    pub convert_items : Database → Items A → Option String → Result (Items A)
    convert_items s no_items netns = ok no_items
    convert_items s (more_items key value obj) netns =
        deviceref_to_remote_device s value netns >>= λ new.
        convert_items s obj netns >>= λ new_dict. ok (more_items key new new_dict)

module _ {K C L A : Type 0} ⦃eq_k : Eq K⦄ ⦃eq_c : Eq C⦄ where
  -- The return of send_message, where there is a result: the machine's devices for its references.
  unfoldable pub return_result :
      K
      → Option String
      → Dispatcher K C L × Option (Obj A)
      → Result (Dispatcher K C L × Option (Obj A))
  return_result machine netns (d, none) = ok (d, none)
  return_result machine netns (d, some r) = or_raise (get d.machines machine) key_error >>= λ m.
      deviceref_to_remote_device m.database r netns >>= λ v. ok (d, some v)

  -- send_message: `sent` is what send_data returns for the machine's connection, `netns` that of the
  -- data.
  unfoldable pub send_message :
      Dispatcher K C L
      → K
      → Bool
      → Option String
      → List (Round C L (Obj A))
      → Result (Dispatcher K C L × Option (Obj A))
  send_message d machine sent netns rounds =
      if sent
      then (await_result d machine rounds >>= λ c. return_result machine netns c)
      else err connection_error
