-- ===== src/SecureSocket/Framed.antt =====
-- What one end sends and the other receives.
use lnst.Prelude.{
  ℕ, zero, suc, ◌+◌, ◌-◌, ◌≤◌, ◌<◌, ◌≡◌, ◌≢◌, refl, ap, sym, ◌∙◌, subst, none, some, List, [], ◌∷◌,
  ◌++◌, arith, length, All, append_nil, append_assoc, length-append, inl, inr, ◌⊎◌,
}
use lnst.Prelude.Exc.{ok}
use lnst.SecureSocket.Decimal.{decimal, to_int, to_int-decimal, decimal-IsInk, IsInk}
use lnst.SecureSocket.{
  Bytes, no_pickle, plain, Crypto, Spec, Socket, next_seq, add_mac_sign, del_mac_sign, add_padding,
  del_padding, add_encrypt, del_encrypt, protect_data, unprotect_data, framed, send, read_length,
  split, next_chunk, read_data, handle_internal, receive, recv,
}

read_length-decimal :
    (xs read rest : Bytes) (n : ℕ)
    → All IsInk xs
    → to_int (read ++ xs) ≡ ok n
    → read_length read (xs ++ (32 ∷ rest)) ≡ ok (some (n, rest))
unfolding read_length
read_length-decimal [] read rest n ink h =
    rw (read_length, ap to_int (sym (append_nil read)) ∙ h) refl
read_length-decimal (c ∷ xs) read rest n ink h =
    rw (read_length, ink.0)
      (read_length-decimal xs (read ++ (c ∷ [])) rest n ink.1
        (ap to_int (append_assoc read (c ∷ []) xs) ∙ h))

-- The socket's recv gives some byte where there is one, and no more than are asked for.
abbrev pub IsGiving : (ℕ → Bytes → ℕ) → Type 0
IsGiving give =
    (k : ℕ) (input : Bytes) → 0 < k → input ≢ [] → (0 < give k input) × (give k input ≤ k)

split_within :
    (n : ℕ) (x rest : Bytes)
    → n ≤ length x
    → (a : Bytes) × (b : Bytes) × (x ≡ a ++ b)
      × (length a ≡ n)
      × (split n (x ++ rest) ≡ (a, b ++ rest))
unfolding split
split_within zero x rest h = ([], x, refl, refl, refl)
split_within (suc n) [] rest h = absurd (omega (arith, h))
split_within (suc n) (c ∷ x) rest h =
    let r = split_within n x rest (omega (arith, h)) in
    (
      c ∷ r.0,
      r.1,
      ap (λ (l : Bytes). c ∷ l) r.2,
      ap suc r.3,
      ap (λ (p : Bytes × Bytes). (c ∷ p.0, p.1)) r.4,
    )

-- A round that gives some bytes, where the other rounds give the others.
one_chunk :
    (give : ℕ → Bytes → ℕ) (fuel missing : ℕ) (a b read rest : Bytes)
    → ((m : ℕ) (r : Bytes)
        → length b ≡ m
        → m ≤ fuel
        → read_data give fuel m r (b ++ rest) ≡ some (some (r ++ b, rest)))
    → 0 < length a
    → length (a ++ b) ≡ suc missing
    → missing ≤ fuel
    → next_chunk (read_data give fuel) (suc missing) read (a, b ++ rest)
      ≡ some (some (read ++ (a ++ b), rest))
unfolding next_chunk
one_chunk give fuel missing [] b read rest others some_byte l h = absurd (omega (arith, some_byte))
one_chunk give fuel missing (c ∷ a) b read rest others some_byte l h =
    others (suc missing - length (c ∷ a)) (read ++ (c ∷ a)) (omega (arith, l, length-append a b))
      (omega (arith, l, h))
    ∙ ap (λ (y : Bytes). some (some (y, rest))) (append_assoc read (c ∷ a) b)

read_data_lem :
    (give : ℕ → Bytes → ℕ) (fuel missing : ℕ) (x read rest : Bytes)
    → IsGiving give
    → length x ≡ missing
    → missing ≤ fuel
    → read_data give fuel missing read (x ++ rest) ≡ some (some (read ++ x, rest))
unfolding read_data
read_data_lem give fuel zero [] read rest g l h =
    ap (λ (r : Bytes). some (some (r, rest))) (sym (append_nil read))
read_data_lem give fuel zero (c ∷ x) read rest g l h = absurd (omega (arith, l))
read_data_lem give zero (suc missing) x read rest g l h = absurd (omega (arith, h))
read_data_lem give (suc fuel) (suc missing) [] read rest g l h = absurd (omega (arith, l))
read_data_lem give (suc fuel) (suc missing) (c ∷ x) read rest g l h =
    let n = give (suc missing) ((c ∷ x) ++ rest) in
    let bounds = g (suc missing) ((c ∷ x) ++ rest) (omega arith) (λ e. cc e) in
    let s = split_within n (c ∷ x) rest (omega (arith, bounds.1, l)) in
    ap (λ (p : Bytes × Bytes). next_chunk (read_data give fuel) (suc missing) read p) s.4
    ∙ one_chunk give fuel missing s.0 s.1 read rest
        (λ m r e k. read_data_lem give fuel m s.1 r rest g e k) (omega (arith, s.3, bounds.0))
        (rw (← s.2) l) (omega (arith, h))
    ∙ ap (λ (y : Bytes). some (some (read ++ y, rest))) (sym s.2)

-- No key is set yet.
pub record IsOpen {K : Type 0} (spec : Spec K) : Type 0 where
  pub no_enc_key : spec.enc_key ≡ none
  pub no_mac_key : spec.mac_key ≡ none

open_spec :
    {K : Type 0} (spec : Spec K)
    → IsOpen spec
    → spec ≡ record { enc_key = none; mac_key = none; seq_num = spec.seq_num }
open_spec spec o = cc (o.no_enc_key, o.no_mac_key)

module _ {K : Type 0} (crypto : Crypto K) where
  pub protect_data_open :
      (spec : Spec K) (msg : Bytes)
      → IsOpen spec
      → protect_data crypto spec msg ≡ (msg, next_seq spec)
  unfolding protect_data add_encrypt add_padding add_mac_sign
  protect_data_open spec msg o =
      subst (λ (q : Spec K). protect_data crypto q msg ≡ (msg, next_seq q)) (sym (open_spec spec o))
        refl

  pub unprotect_data_open :
      (spec : Spec K) (packet : Bytes)
      → IsOpen spec
      → unprotect_data crypto spec packet ≡ ok (some packet, next_seq spec)
  unfolding unprotect_data del_encrypt del_padding del_mac_sign
  unprotect_data_open spec packet o =
      subst (λ (q : Spec K). unprotect_data crypto q packet ≡ ok (some packet, next_seq q))
        (sym (open_spec spec o)) refl

module _ {K : Type 0} (crypto : Crypto K) (give : ℕ → Bytes → ℕ) where
  -- A record that is framed is read whole.
  pub recv-framed :
      (fuel : ℕ) (s : Socket K) (packet rest : Bytes)
      → IsGiving give
      → s.input ≡ framed packet ++ rest
      → recv crypto give (suc fuel) s
        ≡ receive crypto give (recv crypto give fuel) (record s { input = rest }) packet
  unfolding recv
  recv-framed fuel s packet rest g h =
      let header =
        ap (λ (i : Bytes). read_length [] i)
          (h ∙ append_assoc (decimal (length packet)) (32 ∷ packet) rest)
        ∙ read_length-decimal (decimal (length packet)) [] (packet ++ rest) (length packet)
            (decimal-IsInk (length packet)) (to_int-decimal (length packet)) in
      let body =
        read_data_lem give (length packet) (length packet) packet [] rest g refl (omega arith) in
      rw (recv, header) (rw body refl)

  -- The message, and the socket after it
  recv_open :
      (fuel : ℕ) (s : Socket K) (msg rest : Bytes)
      → IsGiving give
      → IsOpen s.current_read
      → s.input ≡ framed msg ++ rest
      → (crypto.content msg ≡ plain) ⊎ (crypto.content msg ≡ no_pickle)
      → recv crypto give (suc fuel) s
        ≡ some (ok (msg, record s { input = rest; current_read = next_seq s.current_read }))
  unfolding receive handle_internal
  recv_open fuel s msg rest g o h content =
      recv-framed fuel s msg rest g h
      ∙ rw (receive, unprotect_data_open crypto s.current_read msg o)
          (elim content [
            | inl is_plain ↦ rw (handle_internal, is_plain) refl
            | inr is_bytes ↦ rw (handle_internal, is_bytes) refl
          ])

-- All the messages are sent.
abbrev pub send_all : {K : Type 0} → Crypto K → Socket K → List Bytes → Socket K
send_all crypto s [] = s
send_all crypto s (msg ∷ msgs) = send_all crypto (send crypto s msg) msgs

module _ {K : Type 0} (crypto : Crypto K) (give : ℕ → Bytes → ℕ) where
  -- Calls of recv return the messages, one each, from one state to another.
  unfoldable pub Receives : Socket K → List Bytes → Socket K → Type 0
  Receives s [] end = s ≡ end
  Receives s (msg ∷ msgs) end =
      (t : Socket K) × (recv crypto give 1 s ≡ some (ok (msg, t))) × Receives t msgs end

module _ {K : Type 0} (crypto : Crypto K) where
  -- The message is not the one that changes the cipher.
  abbrev pub IsMessage : Bytes → Type 0
  IsMessage msg = (crypto.content msg ≡ plain) ⊎ (crypto.content msg ≡ no_pickle)

  stream : List Bytes → Bytes
  stream [] = []
  stream (msg ∷ msgs) = framed msg ++ stream msgs

  -- What the sender's messages add to its output and to its sequence number.
  send_all_lem :
      (s : Socket K) (msgs : List Bytes)
      → IsOpen s.current_write
      → ((send_all crypto s msgs).output ≡ s.output ++ stream msgs)
        × ((send_all crypto s msgs).current_write.seq_num ≡ s.current_write.seq_num + length msgs)
  unfolding stream send
  send_all_lem s [] o = (sym (append_nil s.output), omega arith)
  send_all_lem s (msg ∷ msgs) o =
      let p = protect_data_open crypto s.current_write msg o in
      let r = send_all_lem (send crypto s msg) msgs (
        subst (λ (q : Spec K). IsOpen q) (sym (ap (λ (x : Bytes × Spec K). x.1) p))
          (record { no_enc_key = o.no_enc_key; no_mac_key = o.no_mac_key })) in
      (
        r.0
            ∙ ap (λ (x : Bytes × Spec K). (s.output ++ framed x.0) ++ stream msgs) p
            ∙ append_assoc s.output (framed msg) (stream msgs),
        r.1 ∙ omega (arith, ap (λ (x : Bytes × Spec K). (x.1).seq_num) p),
      )

module _ {K : Type 0} (crypto : Crypto K) (give : ℕ → Bytes → ℕ) where
  receives_lem :
      (s : Socket K) (msgs : List Bytes) (rest : Bytes)
      → IsGiving give
      → IsOpen s.current_read
      → s.input ≡ stream crypto msgs ++ rest
      → All (IsMessage crypto) msgs
      → (end : Socket K) × Receives crypto give s msgs end
        × (end.input ≡ rest)
        × (end.current_read.seq_num ≡ s.current_read.seq_num + length msgs)
  unfolding Receives stream
  receives_lem s [] rest g o h c = (s, refl, h, omega arith)
  receives_lem s (msg ∷ msgs) rest g o h c =
      let next = record s {
        input = stream crypto msgs ++ rest;
        current_read = next_seq s.current_read;
      } in
      let one =
        recv_open crypto give 0 s msg (stream crypto msgs ++ rest) g o
          (h ∙ append_assoc (framed msg) (stream crypto msgs) rest) c.0 in
      let r =
        receives_lem next msgs rest g
          (record { no_enc_key = o.no_enc_key; no_mac_key = o.no_mac_key }) refl c.1 in
      (r.0, (next, one, r.1), r.2, r.3 ∙ omega arith)

  -- Two ends without keys and with equal sequence numbers, where the receiver's input starts with
  -- what the sender sends: each call of recv returns the next message, however many bytes the
  -- socket gives at a time; after them the rest of the input is unread, and the sequence numbers
  -- are equal again.
  pub send_all-Receives :
      (a b : Socket K) (msgs : List Bytes) (rest : Bytes)
      → IsGiving give
      → IsOpen a.current_write
      → IsOpen b.current_read
      → a.current_write.seq_num ≡ b.current_read.seq_num
      → a.output ≡ []
      → b.input ≡ (send_all crypto a msgs).output ++ rest
      → All (IsMessage crypto) msgs
      → (end : Socket K) × Receives crypto give b msgs end
        × (end.input ≡ rest)
        × (end.current_read.seq_num ≡ (send_all crypto a msgs).current_write.seq_num)
  send_all-Receives a b msgs rest g oa ob n empty h c =
      let sent = send_all_lem crypto a msgs oa in
      let r =
        receives_lem b msgs rest g ob
          (h
            ∙ ap (λ (x : Bytes). x ++ rest)
                (sent.0 ∙ ap (λ (x : Bytes). x ++ stream crypto msgs) empty))
          c in
      (r.0, r.1, r.2, omega (arith, r.3, sent.1, n))
