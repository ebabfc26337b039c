-- ===== src/Connections/Poll.antt =====
-- ConnectionHandler._check_connections: what is waiting on the connections. `select` and the
-- sockets are not the repository's: their answers are arguments.
use lnst.Prelude.{Option, none, some, List, [], ◌∷◌, ◌++◌, Bool, true, false, Eq}
use lnst.Prelude.Dict.{get}
use lnst.Prelude.Exc.{Error, Result, ok, err, key_error, or_raise, ◌>>=◌}
use lnst.Connections.{Handler, get_connection_id, remove_connection}

-- What one call of recv_data, and the call of `select` after it, give: a message, None, the empty
-- text of a secure socket that broke, one of the two exceptions that the loop catches, or another.
pub data Received (M : Type 0) : Type 0 where
  message : M → Received M
  nothing : Received M
  broken socket_error end_of_file : Received M
  raises : Error → Received M

-- What a round of polling gives: the handler, the connections it closed, and the requests.
pub record Polled (K C M : Type 0) : Type 0 where
  pub handler : Handler K C
  pub closed : List C
  pub requests : List (Option K × M)

module _ {K C : Type 0} ⦃eq_k : Eq K⦄ ⦃eq_c : Eq C⦄ where
  -- The first loop: the connections that are closed already are dropped. It gives the handler and
  -- the connections to wait on.
  unfoldable pub drop_closed : (C → Bool) → Handler K C → List C → Result (Handler K C × List C)
  drop_closed is_closed h [] = ok (h, [])
  drop_closed is_closed h (c ∷ cs) = elim (is_closed c) [
    | true ↦ remove_connection h c >>= λ g. drop_closed is_closed g cs
    | false ↦ drop_closed is_closed h cs >>= λ r. ok (r.0, c ∷ r.1)
  ]

  -- An identifier that is not known raises KeyError.
  unfoldable pub connections_of : Handler K C → List K → Result (List C)
  connections_of h [] = ok []
  connections_of h (id ∷ ids) = or_raise (get h.connection_mapping id) key_error >>= λ c.
      connections_of h ids >>= λ cs. ok (c ∷ cs)

module _ {K C M : Type 0} ⦃eq_k : Eq K⦄ ⦃eq_c : Eq C⦄ where
  -- f.close() and self.remove_connection(f)
  unfoldable pub close_connection : Polled K C M → C → Result (Polled K C M)
  close_connection p f = remove_connection p.handler f >>= λ h.
      ok (record { handler = h; closed = p.closed ++ (f ∷ []); requests = p.requests })

  -- `while f_ready`: the list holds what the calls of recv_data give for as long as `select` says
  -- that there is another message.
  unfoldable pub read_all : Polled K C M → C → List (Received M) → Result (Polled K C M)
  read_all p f [] = ok p
  read_all p f (message m ∷ more) =
      read_all (record p { requests = p.requests ++ ((get_connection_id p.handler f, m) ∷ []) }) f
        more
  read_all p f (nothing ∷ more) = read_all p f more
  read_all p f (broken ∷ more) = close_connection p f
  read_all p f (socket_error ∷ more) = close_connection p f
  read_all p f (end_of_file ∷ more) = close_connection p f
  read_all p f (raises e ∷ more) = err e

  -- `for f in rl`
  unfoldable pub read_ready : Polled K C M → List (C × List (Received M)) → Result (Polled K C M)
  read_ready p [] = ok p
  read_ready p ((f, received) ∷ rl) = read_all p f received >>= λ q. read_ready q rl

  -- `select` gives the connections that are ready, with what is waiting on each; `none` is
  -- select.error, which is caught, and another exception is not.
  unfoldable pub poll :
      (C → Bool)
      → (List C → Result (Option (List (C × List (Received M)))))
      → Handler K C
      → List C
      → Result (Polled K C M)
  poll is_closed select h cs = drop_closed is_closed h cs >>= λ r. select r.1 >>= λ a. elim a [
    | none ↦ ok (record { handler = r.0; closed = []; requests = [] })
    | some rl ↦ read_ready (record { handler = r.0; closed = []; requests = [] }) rl
  ]

  unfoldable pub check_connections :
      (C → Bool)
      → (List C → Result (Option (List (C × List (Received M)))))
      → Handler K C
      → Result (Polled K C M)
  check_connections is_closed select h = poll is_closed select h h.connections

  unfoldable pub check_connections_by_id :
      (C → Bool)
      → (List C → Result (Option (List (C × List (Received M)))))
      → Handler K C
      → List K
      → Result (Polled K C M)
  check_connections_by_id is_closed select h ids =
      connections_of h ids >>= λ cs. poll is_closed select h cs
