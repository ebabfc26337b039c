-- ===== src/SecureSocket/Tests.antt =====
-- The secure socket at concrete inputs.
use lnst.Prelude.{ℕ, ◌≡◌, refl, some, List, [], ◌∷◌, ◌++◌, true, arith, inl, nat_beq, if◌then◌else◌}
use lnst.Prelude.Exc.{ok, err, type_error}
use lnst.SecureSocket.{
  add_padding, Bytes, Content, change_cipher_spec, plain, Crypto, Spec, Socket, no_spec,
}
use lnst.SecureSocket.Framed.{IsGiving, IsOpen, Receives, send_all, send_all-Receives}
use lnst.SecureSocket.Padding.{IsPadded, add_padding-IsPadded}

abbrev content_of : Bytes → Content
content_of [] = plain
content_of (c ∷ cs) = if nat_beq c 128 then change_cipher_spec else plain

-- The key is added to the front. A record that starts with 128 changes the cipher.
abbrev crypto : Crypto ℕ
crypto = record {
  hmac = λ k m. k ∷ [];
  signed = λ m s. m;
  unsigned = λ m. ok (m, []);
  same_digest = λ x y. true;
  sealed = λ k m. k ∷ m;
  unsealed = λ k m. elim m [ [] ↦ err type_error | c ∷ cs ↦ ok cs ];
  content = content_of;
}

abbrev keyed : Spec ℕ
keyed = record { enc_key = some 5; mac_key = some 6; seq_num = 0 }

abbrev left : Socket ℕ
left = record {
  current_write = no_spec;
  current_read = no_spec;
  next_write = keyed;
  next_read = keyed;
  input = [];
  output = [];
}

abbrev messages : List Bytes
messages = (104 ∷ 105 ∷ []) ∷ [] ∷ []

-- One byte at a time
one_byte : IsGiving (λ k input. 1)
one_byte k input h some_byte = (omega arith, omega (arith, h))

no_spec-IsOpen : IsOpen {K = ℕ} no_spec
no_spec-IsOpen = record { no_enc_key = refl; no_mac_key = refl }

abbrev right : Bytes → Socket ℕ
right sent = record left { input = sent ++ (55 ∷ []) }

send_all-Receives_example :
    (end : Socket ℕ) × Receives crypto
      (λ k input. 1)
      (right (send_all crypto left messages).output)
      messages
      end
    × (end.input ≡ 55 ∷ [])
    × (end.current_read.seq_num ≡ (send_all crypto left messages).current_write.seq_num)
send_all-Receives_example =
    send_all-Receives crypto (λ k input. 1) left (right (send_all crypto left messages).output)
      messages (55 ∷ []) one_byte no_spec-IsOpen no_spec-IsOpen refl refl refl
      (inl refl, (inl refl, tt))

add_padding-IsPadded_example : IsPadded (104 ∷ 105 ∷ []) (add_padding crypto keyed (104 ∷ 105 ∷ []))
add_padding-IsPadded_example = add_padding-IsPadded crypto keyed 5 (104 ∷ 105 ∷ []) refl
