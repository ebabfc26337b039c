-- ===== src/Interfaces/Addresses.antt =====
-- Device._update_netlink: the addresses of a device.
use lnst.Prelude.{
  ℕ, suc, ◌+◌, ◌≡◌, refl, ◌≤◌, none, some, List, [], ◌∷◌, ◌++◌, true, arith, ◌==◌, ==_iff,
  if◌then◌else◌, nat_beq_iff, nat_eq, string_eq, Bool-cases, Option-cases, inl, inr,
}
use lnst.Interfaces.{
  IpAddress, same_address, same_flags, Addr, known_address, without, add_address, remove_address,
  new_address, deleted_address,
}

-- How many of the addresses are equal to this one.
abbrev pub copies : IpAddress → List IpAddress → ℕ
copies a [] = 0
copies a (b ∷ bs) = let rest = copies a bs in if same_address b a then suc rest else rest

-- No two addresses of a device are equal.
abbrev pub IsUnique : List IpAddress → Type 0
IsUnique bs = (a : IpAddress) → copies a bs ≤ 1

copies-append :
    (a b : IpAddress) (bs : List IpAddress)
    → copies a (bs ++ (b ∷ [])) ≡ (if same_address b a then suc (copies a bs) else copies a bs)
copies-append a b [] = ground arith
copies-append a b (c ∷ bs) = ground (arith, copies-append a b bs)

same_address_trans :
    (a b c : IpAddress) → same_address a b ≡ true → same_address a c ≡ same_address b c
same_address_trans a b c h =
    ground (arith, ==_iff a.addr b.addr, nat_beq_iff a.prefixlen b.prefixlen)

copies-without :
    (a b : IpAddress) (bs : List IpAddress)
    → copies b bs ≡ (
        if same_address a b
        then copies b (without bs a) + (elim (known_address bs a) [ none ↦ 0 | some c ↦ 1 ])
        else copies b (without bs a))
unfolding without known_address
copies-without a b [] = ground arith
copies-without a b (c ∷ bs) = ground (arith, copies-without a b bs, same_address_trans c a b)

known_address-copies :
    (bs : List IpAddress) (a : IpAddress) → known_address bs a ≡ none → copies a bs ≡ 0
unfolding known_address
known_address-copies [] a h = refl
known_address-copies (b ∷ bs) a h = ground (arith, known_address-copies bs a)

copies-known_address :
    (bs : List IpAddress) (a : IpAddress) → copies a bs ≡ 0 → known_address bs a ≡ none
unfolding known_address
copies-known_address [] a h = refl
copies-known_address (b ∷ bs) a h = ground (arith, copies-known_address bs a)

copies_same :
    (a b : IpAddress) (bs : List IpAddress) → same_address a b ≡ true → copies a bs ≡ copies b bs
copies_same a b [] h = refl
copies_same a b (c ∷ bs) h = ground (
  arith,
  copies_same a b bs h,
  ==_iff c.addr a.addr,
  ==_iff c.addr b.addr,
  ==_iff a.addr b.addr,
  nat_beq_iff c.prefixlen a.prefixlen,
  nat_beq_iff c.prefixlen b.prefixlen,
  nat_beq_iff a.prefixlen b.prefixlen,
)

same_self : (a : IpAddress) → same_address a a ≡ true
same_self a = ground (arith, ==_iff a.addr a.addr, nat_beq_iff a.prefixlen a.prefixlen)

copies-add_address :
    (bs : List IpAddress) (a b : IpAddress)
    → IsUnique bs
    → copies b (add_address bs a) ≡ (if same_address a b then 1 else copies b bs)
unfolding add_address
copies-add_address bs a b u = elim (Option-cases (known_address bs a)) [
  | inl fresh ↦
      ground
        (arith, fresh, known_address-copies bs a fresh, copies-append b a bs, copies_same a b bs)
  | inr (old, found) ↦ elim (Bool-cases (same_flags a.flags old.flags)) [
    | inl same ↦
        ground (arith, found, same, u b, u a, copies-known_address bs a, copies_same a b bs)
    | inr new ↦
        ground (arith, found, new, u b, copies-without a b bs, copies-append b a (without bs a))
  ]
]

-- Adding an address keeps the addresses of a device free of equal ones.
add_address-IsUnique :
    (bs : List IpAddress) (a : IpAddress) → IsUnique bs → IsUnique (add_address bs a)
add_address-IsUnique bs a u b = ground (arith, copies-add_address bs a b u, u b)

copies-remove_address :
    (bs : List IpAddress) (a b : IpAddress)
    → IsUnique bs
    → copies b (remove_address bs a) ≡ (if same_address a b then 0 else copies b bs)
unfolding remove_address
copies-remove_address bs a b u = elim (Option-cases (known_address bs a)) [
  | inl gone ↦ ground (arith, gone, known_address-copies bs a gone, copies_same a b bs)
  | inr (old, found) ↦ ground (arith, found, u b, copies-without a b bs)
]

-- Where the addresses of a device are unique, RTM_NEWADDR and then RTM_DELADDR with the same
-- fields leave no such address, but where the family is AF_INET and the local address is not the
-- address: then the address stays, once.
pub removed_iff_local :
    (bs : List IpAddress) (a : Addr)
    → IsUnique bs
    → copies (new_address a) (remove_address (add_address bs (new_address a)) (deleted_address a))
      ≡ (if a.is_inet then (if a.address == a.local then 0 else 1) else 0)
removed_iff_local bs a u = ground (
  arith,
  copies-add_address bs (new_address a) (new_address a) u,
  same_self (new_address a),
  ==_iff a.address a.address,
  nat_beq_iff a.prefixlen a.prefixlen,
  copies-remove_address (add_address bs (new_address a)) (deleted_address a) (new_address a)
      (add_address-IsUnique bs (new_address a) u),
)
