-- ===== src/Dns/Util/Address.antt =====
-- `jdns_address_t` of iris/irisnet/jdns/jdns_util.c.
pub mod Parse
use ambrosia.Prelude.{
  ℕ, zero, suc, ◌+◌, ◌-◌, ◌*◌, ◌/◌, ◌%◌, ◌^◌, ◌≤◌, ◌<◌, ◌≡◌, ◌↔◌, refl, Bool, true, false, ◌&&◌,
  List, [], ◌∷◌, ◌++◌, length, ltb, ◌==◌, if◌then◌else◌, ==_iff, Bool-cases, inl, inr, ap, arith,
}

-- `isIpv6` and the union `addr`.
pub data Ip : Type 0 where
  v4 : ℕ → Ip
  v6 : List ℕ → Ip

pub record Address : Type 0 where
  pub addr : Ip
  pub c_str : List ℕ

abbrev pub jdns_address_new : Address
jdns_address_new = record { addr = v4 0; c_str = [] }

-- `%d` of a byte.
abbrev pub decimal : ℕ → List ℕ
decimal n =
    if ltb n 10
    then (48 + n) ∷ []
    else if ltb n 100
    then (48 + n / 10) ∷ (48 + n % 10) ∷ []
    else (48 + n / 100) ∷ (48 + n / 10 % 10) ∷ (48 + n % 10) ∷ []

-- The byte of `ipv4` that stands `shift` bits up.
abbrev pub byte_of : ℕ → ℕ → ℕ
byte_of ipv4 shift = ipv4 / 2 ^ shift % 256

unfoldable pub ipv4_text : ℕ → List ℕ
ipv4_text ipv4 =
    decimal (byte_of ipv4 24)
    ++ (b'.' ∷ decimal (byte_of ipv4 16)
        ++ (b'.' ∷ decimal (byte_of ipv4 8) ++ (b'.' ∷ decimal (byte_of ipv4 0))))

unfoldable pub jdns_address_set_ipv4 : ℕ → Address
jdns_address_set_ipv4 ipv4 = record { addr = v4 ipv4; c_str = ipv4_text ipv4 }

abbrev pub hex_digit : ℕ → ℕ
hex_digit n = if ltb n 10 then 48 + n else 55 + n

-- `%04X` of a word, `hi * 256 + lo`.
abbrev pub hex_word : ℕ → ℕ → List ℕ
hex_word hi lo =
    hex_digit (hi / 16) ∷ hex_digit (hi % 16) ∷ hex_digit (lo / 16) ∷ hex_digit (lo % 16) ∷ []

-- The words of an address of 16 bytes, with `:` between them.
unfoldable pub ipv6_text : List ℕ → List ℕ
ipv6_text [] = []
ipv6_text (hi ∷ []) = []
ipv6_text (hi ∷ lo ∷ []) = hex_word hi lo
ipv6_text (hi ∷ lo ∷ x ∷ rest) = hex_word hi lo ++ (b':' ∷ ipv6_text (x ∷ rest))

-- `ipv6` points to 16 bytes.
unfoldable pub jdns_address_set_ipv6 : List ℕ → Address
jdns_address_set_ipv6 ipv6 = record { addr = v6 ipv6; c_str = ipv6_text ipv6 }

unfoldable pub jdns_address_copy : Address → Address
jdns_address_copy a = elim a.addr [
  | v4 ipv4 ↦ jdns_address_set_ipv4 ipv4
  | v6 ipv6 ↦ jdns_address_set_ipv6 ipv6
]

abbrev pub same_list : List ℕ → List ℕ → Bool
same_list [] [] = true
same_list [] (y ∷ ys) = false
same_list (x ∷ xs) [] = false
same_list (x ∷ xs) (y ∷ ys) = (x == y) && same_list xs ys

unfoldable pub jdns_address_cmp : Address → Address → Bool
jdns_address_cmp a b = elim a.addr [
  | v4 x ↦ elim b.addr [ v4 y ↦ x == y | v6 y ↦ false ]
  | v6 x ↦ elim b.addr [ v4 y ↦ false | v6 y ↦ same_list x y ]
]

abbrev pub multicast6 : List ℕ
multicast6 = 0xff ∷ 0x02 ∷ 0 ∷ 0 ∷ 0 ∷ 0 ∷ 0 ∷ 0 ∷ 0 ∷ 0 ∷ 0 ∷ 0 ∷ 0 ∷ 0 ∷ 0 ∷ 0xfb ∷ []

abbrev pub jdns_address_multicast4_new : Address
jdns_address_multicast4_new = jdns_address_set_ipv4 0xe00000fb

abbrev pub jdns_address_multicast6_new : Address
jdns_address_multicast6_new = jdns_address_set_ipv6 multicast6

same_list-eq : (xs ys : List ℕ) → same_list xs ys ≡ true → xs ≡ ys
same_list-eq [] [] h = refl
same_list-eq [] (y ∷ ys) h = ground (arith, h)
same_list-eq (x ∷ xs) [] h = ground (arith, h)
same_list-eq (x ∷ xs) (y ∷ ys) h = elim (Bool-cases (x == y)) [
  | inl same ↦ let e : x ≡ y = ground arith in rw (e, same_list-eq xs ys (rw same at h))
  | inr other ↦ absurd (ground arith)
]

same_list_refl : (xs : List ℕ) → same_list xs xs ≡ true
same_list_refl [] = refl
same_list_refl (x ∷ xs) = rw (same_list_refl xs) (ground arith)

abbrev v6_bytes : Ip → List ℕ
v6_bytes (v4 x) = []
v6_bytes (v6 x) = x

-- `jdns_address_cmp` tells whether two addresses have the same protocol and the same number.
pub jdns_address_cmp_iff : (a b : Address) → (jdns_address_cmp a b ≡ true) ↔ (a.addr ≡ b.addr)
unfolding jdns_address_cmp
jdns_address_cmp_iff a b = go a.addr b.addr
  where
    go :
        (p q : Ip)
        → (elim p [
          | v4 x ↦ elim q [ v4 y ↦ x == y | v6 y ↦ false ]
          | v6 x ↦ elim q [ v4 y ↦ false | v6 y ↦ same_list x y ]
        ]
            ≡ true)
          ↔ (p ≡ q)
    go (v4 x) (v4 y) = (λ h. ap v4 (ground arith), λ e. ground arith)
    go (v4 x) (v6 y) = (λ h. ground arith, λ e. cc)
    go (v6 x) (v4 y) = (λ h. ground arith, λ e. cc)
    go (v6 x) (v6 y) = (λ h. ap v6 (same_list-eq x y h), λ e. rw (ap v6_bytes e) (same_list_refl y))
