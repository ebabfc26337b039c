-- ===== src/SecureSocket.antt =====
-- lnst/Common/SecureSocket.py: the records of a secure socket. The cryptography library, hmac and
-- pickle are arguments; a text of bytes is a list of numbers. The socket has what the peer sent and
-- nobody read yet, after which the connection is closed, and what was sent on it.
pub mod Decimal
pub mod Framed
pub mod Padding
pub mod Tests
use lnst.Prelude.{
  ℕ, zero, suc, ◌+◌, ◌-◌, ◌%◌, Option, none, some, List, [], ◌∷◌, ◌++◌, Bool, true, false, nat_beq,
  ltb, length, if◌then◌else◌,
}
use lnst.Prelude.Exc.{Result, ok, err, ◌>>=◌, type_error, index_error}
use lnst.SecureSocket.Decimal.{decimal, to_int}

abbrev pub Bytes : Type 0
Bytes = List ℕ

-- What pickle.loads and the test of "type" make of a record: it is no pickle, or tells to change the
-- cipher, or neither, or has no `in`, which raises.
pub data Content : Type 0 where
  no_pickle change_cipher_spec plain no_container : Content

-- `signed` and `unsigned` pickle and unpickle the two parts of a signed record, `sealed` and
-- `unsealed` encrypt and decrypt one and pickle it with its vector.
pub record Crypto (K : Type 0) : Type 0 where
  pub hmac : K → Bytes → Bytes
  pub signed : Bytes → Bytes → Bytes
  pub unsigned : Bytes → Result (Bytes × Bytes)
  pub same_digest : Bytes → Bytes → Bool
  pub sealed : K → Bytes → Bytes
  pub unsealed : K → Bytes → Result Bytes
  pub content : Bytes → Content

-- A cipher specification
pub record Spec (K : Type 0) : Type 0 where
  pub enc_key : Option K
  pub mac_key : Option K
  pub seq_num : ℕ

abbrev pub no_spec : {K : Type 0} → Spec K
no_spec = record { enc_key = none; mac_key = none; seq_num = 0 }

pub record Socket (K : Type 0) : Type 0 where
  pub current_write : Spec K
  pub current_read : Spec K
  pub next_write : Spec K
  pub next_read : Spec K
  pub input : Bytes
  pub output : Bytes

unfoldable pub replicate : ℕ → ℕ → Bytes
replicate zero c = []
replicate (suc n) c = c ∷ replicate n c

abbrev pub next_seq : {K : Type 0} → Spec K → Spec K
next_seq spec = record spec { seq_num = spec.seq_num + 1 }

-- What `send` transmits of protected data
abbrev pub framed : Bytes → Bytes
framed protected_data = decimal (length protected_data) ++ (32 ∷ protected_data)

module _ {K : Type 0} where
  abbrev pub change_read_cipher_spec : Socket K → Socket K
  change_read_cipher_spec s = record s { current_read = s.next_read; next_read = no_spec }

  abbrev pub change_write_cipher_spec : Socket K → Socket K
  change_write_cipher_spec s = record s { current_write = s.next_write; next_write = no_spec }

module _ {K : Type 0} (crypto : Crypto K) where
  -- What is signed: the numbers stand next to each other.
  abbrev pub mac_input : ℕ → Bytes → Bytes
  mac_input seq_num payload = decimal seq_num ++ (decimal (length payload) ++ payload)

  unfoldable pub add_mac_sign : Spec K → Bytes → Bytes
  add_mac_sign spec payload = elim spec.mac_key [
    | none ↦ payload
    | some key ↦ crypto.signed payload (crypto.hmac key (mac_input spec.seq_num payload))
  ]

  unfoldable pub del_mac_sign : Spec K → Bytes → Result (Option Bytes)
  del_mac_sign spec signed_data = elim spec.mac_key [
    | none ↦ ok (some signed_data)
    | some key ↦ crypto.unsigned signed_data >>= λ m. ok (
        if crypto.same_digest (crypto.hmac key (mac_input spec.seq_num m.0)) m.1
        then some m.0
        else none)
  ]

  -- AES.block_size is 128 bits.
  unfoldable pub add_padding : Spec K → Bytes → Bytes
  add_padding spec payload = elim spec.enc_key [
    | none ↦ payload
    | some key ↦ payload ++ replicate (16 - length payload % 16) (16 - length payload % 16)
  ]

  -- `ord(data[-1])`: the last of no bytes is an IndexError; a byte is an int already, a TypeError. No
  -- more of the method is reached.
  unfoldable pub del_padding : Spec K → Bytes → Result (Option Bytes)
  del_padding spec payload = elim spec.enc_key [
    | none ↦ ok (some payload)
    | some key ↦ elim payload [ [] ↦ err index_error | c ∷ cs ↦ err type_error ]
  ]

  unfoldable pub add_encrypt : Spec K → Bytes → Bytes
  add_encrypt spec payload = elim spec.enc_key [
    | none ↦ payload
    | some key ↦ crypto.sealed key payload
  ]

  unfoldable pub del_encrypt : Spec K → Bytes → Result Bytes
  del_encrypt spec payload = elim spec.enc_key [
    | none ↦ ok payload
    | some key ↦ crypto.unsealed key payload
  ]

  -- _protect_data; the sequence number goes up.
  unfoldable pub protect_data : Spec K → Bytes → Bytes × Spec K
  protect_data spec payload =
      (add_encrypt spec (add_padding spec (add_mac_sign spec payload)), next_seq spec)

  -- _uprotect_data: a record with a wrong padding is None and leaves the sequence number.
  unfoldable pub unprotect_data : Spec K → Bytes → Result (Option Bytes × Spec K)
  unprotect_data spec encrypted = del_encrypt spec encrypted >>= λ padded.
      del_padding spec padded >>= λ p. elim p [
        | none ↦ del_mac_sign spec padded >>= λ checked. ok (none, spec)
        | some signed ↦ del_mac_sign spec signed >>= λ payload. ok (payload, next_seq spec)
      ]

  unfoldable pub send : Socket K → Bytes → Socket K
  send s payload = record s {
    current_write = (protect_data s.current_write payload).1;
    output = s.output ++ framed (protect_data s.current_write payload).0;
  }

  -- `change` is the pickle of the message.
  unfoldable pub send_change_cipher_spec : Bytes → Socket K → Socket K
  send_change_cipher_spec change s = change_write_cipher_spec (send s change)

-- The bytes up to the next space, as a number, and what follows; none at the end of the input.
unfoldable pub read_length : Bytes → Bytes → Result (Option (ℕ × Bytes))
read_length read [] = ok none
read_length read (c ∷ input) =
    let rest = read_length (read ++ (c ∷ [])) input in
    if nat_beq c 32 then (to_int read >>= λ n. ok (some (n, input))) else rest

-- The first bytes of the input, and the others
unfoldable pub split : ℕ → Bytes → Bytes × Bytes
split zero input = ([], input)
split (suc n) [] = ([], [])
split (suc n) (c ∷ input) = let rest = split n input in (c ∷ rest.0, rest.1)

-- What one call of the socket's recv gave: nothing, or bytes, after which `again` reads the others.
unfoldable pub next_chunk :
    (ℕ → Bytes → Bytes → Option (Option (Bytes × Bytes)))
    → ℕ
    → Bytes
    → Bytes × Bytes
    → Option (Option (Bytes × Bytes))
next_chunk again missing payload ([], input) = some none
next_chunk again missing payload (c ∷ cs, input) =
    again (missing - length (c ∷ cs)) (payload ++ (c ∷ cs)) input

-- The loop that reads a record. `give` is how many bytes a call of the socket's recv gives when this
-- many are asked for; none where the fuel, a round each, ends.
unfoldable pub read_data : (ℕ → Bytes → ℕ) → ℕ → ℕ → Bytes → Bytes → Option (Option (Bytes × Bytes))
read_data give fuel zero payload input = some (some (payload, input))
read_data give zero (suc missing) payload input = none
read_data give (suc fuel) (suc missing) payload input =
    next_chunk (read_data give fuel) (suc missing) payload (split (give (suc missing) input) input)

-- What recv returns: the message, which is empty where the connection ended.
abbrev pub Returned : Type 0 → Type 0
Returned K = Option (Result (Bytes × Socket K))

module _ {K : Type 0} (crypto : Crypto K) (give : ℕ → Bytes → ℕ) where
  -- _handle_internal, where `again` is self.recv()
  unfoldable pub handle_internal : (Socket K → Returned K) → Socket K → Bytes → Returned K
  handle_internal again s msg = elim (crypto.content msg) [
    | no_pickle ↦ some (ok (msg, s))
    | plain ↦ some (ok (msg, s))
    | no_container ↦ some (err type_error)
    | change_cipher_spec ↦ again (change_read_cipher_spec s)
  ]

  unfoldable pub receive : (Socket K → Returned K) → Socket K → Bytes → Returned K
  receive again s packet = elim (unprotect_data crypto s.current_read packet) [
    | err e ↦ some (err e)
    | ok (none, spec) ↦ again (record s { current_read = spec })
    | ok (some msg, spec) ↦ handle_internal again (record s { current_read = spec }) msg
  ]

  -- Fuel: a round for each record.
  unfoldable pub recv : ℕ → Socket K → Returned K
  recv zero s = none
  recv (suc fuel) s = elim (read_length [] s.input) [
    | err e ↦ some (err e)
    | ok none ↦ some (ok ([], record s { input = [] }))
    | ok (some (n, input)) ↦ elim (read_data give n n [] input) [
      | none ↦ none
      | some none ↦ some (ok ([], record s { input = [] }))
      | some (some (packet, rest)) ↦ receive (recv fuel) (record s { input = rest }) packet
    ]
  ]
