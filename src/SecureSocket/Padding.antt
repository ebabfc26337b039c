-- ===== src/SecureSocket/Padding.antt =====
-- The padding of a record that is encrypted.
use lnst.Prelude.{
  ℕ, zero, suc, ◌-◌, ◌%◌, ◌≤◌, ◌<◌, ◌≡◌, refl, ap, sym, subst, some, ◌++◌, arith, length,
  length-append,
}
use lnst.SecureSocket.{Bytes, Crypto, Spec, replicate, add_padding}

length-replicate : (n c : ℕ) → length (replicate n c) ≡ n
unfolding replicate
length-replicate zero c = refl
length-replicate (suc n) c = ap suc (length-replicate n c)

-- Blocks of 16 bytes; the padding has at least one byte, at most a block, and tells its length.
pub record IsPadded (msg padded : Bytes) : Type 0 where
  pub pad_length : ℕ
  pub padding : padded ≡ msg ++ replicate pad_length pad_length
  pub some_byte : 0 < pad_length
  pub one_block : pad_length ≤ 16
  pub aligned : length padded % 16 ≡ 0

-- With a key, the data is padded to whole blocks by one to sixteen bytes, each of which is their
-- number.
pub add_padding-IsPadded :
    {K : Type 0} (crypto : Crypto K) (spec : Spec K) (k : K) (msg : Bytes)
    → spec.enc_key ≡ some k
    → IsPadded msg (add_padding crypto spec msg)
unfolding add_padding
add_padding-IsPadded {K = K} crypto spec k msg e =
    subst (λ (p : Bytes). IsPadded msg p) (sym (rw (add_padding, e) refl))
      (record {
        pad_length = 16 - length msg % 16;
        padding = refl;
        some_byte = omega arith;
        one_block = omega arith;
        aligned = omega (
          arith,
          length-append msg (replicate (16 - length msg % 16) (16 - length msg % 16)),
          length-replicate (16 - length msg % 16) (16 - length msg % 16),
        );
      })
