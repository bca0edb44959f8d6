-- ===== src/Dns/Wire.antt =====
-- Numbers in network byte order: `net2short`, `net2long`, `short2net` and `long2net` of
-- iris/irisnet/jdns/jdns_packet.c. The place in the buffer is an index, and the callers move it on.
use ambrosia.Prelude.{
  ℕ, ◌+◌, ◌*◌, ◌/◌, ◌%◌, ◌^◌, ◌≤◌, ◌<◌, ◌≡◌, refl, List, [], ◌∷◌, ◌++◌, length, length-append,
  bit_or, append_assoc, arith,
}
use ambrosia.Prelude.Bits.{AreBytes, bit_or-disjoint}
use ambrosia.Dns.Memory.{Outcome, done, ◌>>=◌, peek, peek-done, peek-eq-done}
use ambrosia.Dns.Label.Steps.{get_elem?-IsByte}

unfoldable pub net2short : List ℕ → ℕ → Outcome ℕ
net2short buf i = do hi ← peek buf i; lo ← peek buf (i + 1); done (bit_or (hi * 2 ^ 8) lo)

unfoldable pub net2long : List ℕ → ℕ → Outcome ℕ
net2long buf i = do
  a ← peek buf i
  b ← peek buf (i + 1)
  c ← peek buf (i + 2)
  d ← peek buf (i + 3)
  done (bit_or (bit_or (bit_or (a * 2 ^ 8) b * 2 ^ 8) c * 2 ^ 8) d)

unfoldable pub short2net : ℕ → List ℕ
short2net i = (i / 256 % 256) ∷ (i % 256) ∷ []

unfoldable pub long2net : ℕ → List ℕ
long2net l = (l / 256 / 256 / 256 % 256) ∷ (l / 256 / 256 % 256) ∷ (l / 256 % 256) ∷ (l % 256) ∷ []

-- A read in bounds gives a 16-bit number.
pub net2short-done :
    (buf : List ℕ) (i : ℕ)
    → AreBytes buf
    → i + 2 ≤ length buf
    → (v : ℕ) × (net2short buf i ≡ done v) × (v < 65536)
unfolding net2short
net2short-done buf i bytes long =
    let (hi, eh) = peek-done buf i (omega arith) in
    let (lo, el) = peek-done buf (i + 1) (omega arith) in
    let bh = get_elem?-IsByte buf i hi bytes (peek-eq-done buf i hi eh) in
    let bl = get_elem?-IsByte buf (i + 1) lo bytes (peek-eq-done buf (i + 1) lo el) in
    (hi * 256 + lo, rw (eh, el, bit_or-disjoint 8 hi lo bl) refl, omega arith)

pub net2long-done :
    (buf : List ℕ) (i : ℕ)
    → AreBytes buf
    → i + 4 ≤ length buf
    → (v : ℕ) × (net2long buf i ≡ done v) × (v < 2 ^ 32)
unfolding net2long
net2long-done buf i bytes long =
    let (a, ea) = peek-done buf i (omega arith) in
    let (b, eb) = peek-done buf (i + 1) (omega arith) in
    let (c, ec) = peek-done buf (i + 2) (omega arith) in
    let (d, ed) = peek-done buf (i + 3) (omega arith) in
    let ba = get_elem?-IsByte buf i a bytes (peek-eq-done buf i a ea) in
    let bb = get_elem?-IsByte buf (i + 1) b bytes (peek-eq-done buf (i + 1) b eb) in
    let bc = get_elem?-IsByte buf (i + 2) c bytes (peek-eq-done buf (i + 2) c ec) in
    let bd = get_elem?-IsByte buf (i + 3) d bytes (peek-eq-done buf (i + 3) d ed) in
    (
      ((a * 256 + b) * 256 + c) * 256 + d,
      rw
          (
            ea,
            eb,
            ec,
            ed,
            bit_or-disjoint 8 a b bb,
            bit_or-disjoint 8 (a * 256 + b) c bc,
            bit_or-disjoint 8 ((a * 256 + b) * 256 + c) d bd,
          )
          refl,
      omega arith,
    )

peek-at : (pre rest : List ℕ) (x i : ℕ) → i ≡ length pre → peek (pre ++ (x ∷ rest)) i ≡ done x
peek-at [] rest x i e = rw e refl
peek-at (y ∷ pre) rest x i e = rw e (peek-at pre rest x (length pre) refl)

-- A 16-bit number that was written is read back, wherever it stands.
pub net2short-short2net :
    (v : ℕ) (pre rest : List ℕ) (i : ℕ)
    → i ≡ length pre
    → v < 65536
    → net2short (pre ++ (short2net v ++ rest)) i ≡ done v
unfolding net2short short2net
net2short-short2net v pre rest i e small =
    let hi = v / 256 % 256 in
    let lo = v % 256 in
    let first = peek-at pre (lo ∷ rest) hi i e in
    let second =
      peek-at (pre ++ (hi ∷ [])) rest lo (i + 1) (omega (arith, length-append pre (hi ∷ []))) in
    let second' : peek (pre ++ (hi ∷ lo ∷ rest)) (i + 1) ≡ done lo = rw append_assoc at second in
    rw (first, second', bit_or-disjoint 8 hi lo (omega arith)) (ground arith)
