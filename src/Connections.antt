-- ===== src/Connections.antt =====
-- lnst/Common/ConnectionHandler.py: the connections of the controller and of an agent, held as a
-- list to wait on and as a mapping from their identifiers. Identifiers, connections and messages
-- are any types, the first two with the equality that Python's `==` decides.
pub mod Poll
pub mod Agrees
pub mod Answers
pub mod Reading
pub mod Dropped
pub mod Checked
pub mod Tests
use lnst.Prelude.{
  Option, none, some, List, [], ◌∷◌, ◌++◌, Bool, if◌then◌else◌, Eq, ◌==◌, elem, remove_first,
}
use lnst.Prelude.Dict.{Dict, get, has, put, del}
use lnst.Prelude.Exc.{Result, ok, err, key_error}

pub record Handler (K C : Type 0) : Type 0 where
  pub connections : List C
  pub connection_mapping : Dict K C

-- ConnectionHandler(), and what clear_connections and pickling leave
abbrev pub new_handler : {K C : Type 0} → Handler K C
new_handler = record { connections = []; connection_mapping = [] }

module _ {K C : Type 0} ⦃eq_k : Eq K⦄ ⦃eq_c : Eq C⦄ where
  unfoldable pub get_connection : Handler K C → K → Option C
  get_connection h id = get h.connection_mapping id

  -- The loop of get_connection_id: the first identifier of the connection.
  unfoldable pub id_of : Dict K C → C → Option K
  id_of [] c = none
  id_of ((id, d) ∷ mapping) c = if d == c then some id else id_of mapping c

  unfoldable pub get_connection_id : Handler K C → C → Option K
  get_connection_id h c = id_of h.connection_mapping c

  unfoldable pub add_connection : Handler K C → K → C → Handler K C
  add_connection h id c = if has h.connection_mapping id then h else record {
    connections = h.connections ++ (c ∷ []);
    connection_mapping = put h.connection_mapping id c;
  }

  -- A connection that is in the list and has no identifier raises KeyError.
  unfoldable pub remove_connection : Handler K C → C → Result (Handler K C)
  remove_connection h c =
      if elem c h.connections
      then elim (get_connection_id h c) [
        | none ↦ err key_error
        | some id ↦ ok (record {
          connections = remove_first h.connections c;
          connection_mapping = del h.connection_mapping id;
        })
      ]
      else ok h

  unfoldable pub remove_connection_by_id : Handler K C → K → Handler K C
  remove_connection_by_id h id = elim (get h.connection_mapping id) [
    | none ↦ h
    | some c ↦ record {
      connections = remove_first h.connections c;
      connection_mapping = del h.connection_mapping id;
    }
  ]
