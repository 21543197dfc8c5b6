-- ===== src/MdServer/Keys.antt =====
-- libkbfs/mdserver_local.go, getMDKey: different revisions and folders have different keys.
use angelkey_kbfsbeta.Prelude.{
  ℕ, zero, suc, ◌/◌, ◌%◌, ◌^◌, ◌<◌, ◌≡◌, refl, ap, ◌≢◌, [], ◌∷◌, ◌++◌, arith, length, length-append,
}
use angelkey_kbfsbeta.MdServer.{Key, merged, unmerged, null_branch_id, big_endian, get_md_key}

length-big_endian : (w n : ℕ) → length (big_endian w n) ≡ w
unfolding big_endian
length-big_endian zero n = refl
length-big_endian (suc w) n = ap suc (length-big_endian w n)

append-injective : (a b x y : Key) → length a ≡ length b → a ++ x ≡ b ++ y → (a ≡ b) × (x ≡ y)
append-injective [] [] x y h e = (refl, e)
append-injective [] (c ∷ b) x y h e = absurd (omega arith)
append-injective (c ∷ a) [] x y h e = absurd (omega arith)
append-injective (c ∷ a) (d ∷ b) x y h e =
    let rest = append-injective a b x y (omega arith) (cc e) in
    let first : c ≡ d = cc e in (cc (first, rest.0), rest.1)

big_endian-injective : (n m : ℕ) → n < 2 ^ 63 → m < 2 ^ 63 → big_endian 8 n ≡ big_endian 8 m → n ≡ m
unfolding big_endian
big_endian-injective n m hn hm e =
    let d7 : n / 256 ^ 7 % 256 ≡ m / 256 ^ 7 % 256 = cc e in
    let d6 : n / 256 ^ 6 % 256 ≡ m / 256 ^ 6 % 256 = cc e in
    let d5 : n / 256 ^ 5 % 256 ≡ m / 256 ^ 5 % 256 = cc e in
    let d4 : n / 256 ^ 4 % 256 ≡ m / 256 ^ 4 % 256 = cc e in
    let d3 : n / 256 ^ 3 % 256 ≡ m / 256 ^ 3 % 256 = cc e in
    let d2 : n / 256 ^ 2 % 256 ≡ m / 256 ^ 2 % 256 = cc e in
    let d1 : n / 256 ^ 1 % 256 ≡ m / 256 ^ 1 % 256 = cc e in
    let d0 : n / 256 ^ 0 % 256 ≡ m / 256 ^ 0 % 256 = cc e in
    let t7 : n / 256 ^ 7 ≡ m / 256 ^ 7 = omega arith in
    let t6 : n / 256 ^ 6 ≡ m / 256 ^ 6 = omega (arith, t7, d6) in
    let t5 : n / 256 ^ 5 ≡ m / 256 ^ 5 = omega (arith, t6, d5) in
    let t4 : n / 256 ^ 4 ≡ m / 256 ^ 4 = omega (arith, t5, d4) in
    let t3 : n / 256 ^ 3 ≡ m / 256 ^ 3 = omega (arith, t4, d3) in
    let t2 : n / 256 ^ 2 ≡ m / 256 ^ 2 = omega (arith, t3, d2) in
    let t1 : n / 256 ^ 1 ≡ m / 256 ^ 1 = omega (arith, t2, d1) in
    let t0 : n / 256 ^ 0 ≡ m / 256 ^ 0 = omega (arith, t1, d0) in omega (arith, t0)

-- The keys of the merged history of a folder.
abbrev pub entry_key : Key → ℕ → Key
entry_key id r = get_md_key id r null_branch_id merged

-- An ID of a folder or a branch, and a revision that an int64 holds.
abbrev pub IsId : Key → Type 0
IsId id = length id ≡ 16

pub entry_key-injective :
    (id id' bid : Key) (r r' : ℕ)
    → IsId id
    → IsId id'
    → r < 2 ^ 63
    → r' < 2 ^ 63
    → get_md_key id' r' bid merged ≡ entry_key id r
    → (id' ≡ id) × (r' ≡ r)
unfolding get_md_key
entry_key-injective id id' bid zero zero h h' b b' e = (e, refl)
entry_key-injective id id' bid zero (suc r') h h' b b' e = absurd (
    omega
      (arith, ap length e, length-append id' (big_endian 8 (suc r')), length-big_endian 8 (suc r')))
entry_key-injective id id' bid (suc r) zero h h' b b' e = absurd (
    omega
      (arith, ap length e, length-append id (big_endian 8 (suc r)), length-big_endian 8 (suc r)))
entry_key-injective id id' bid (suc r) (suc r') h h' b b' e =
    let (same, rest) =
      append-injective id' id (big_endian 8 (suc r')) (big_endian 8 (suc r)) (omega arith) e in
    (same, big_endian-injective (suc r') (suc r) b' b rest)

pub entry_key-unmerged :
    (id id' bid : Key) (r r' : ℕ)
    → IsId id
    → IsId id'
    → IsId bid
    → get_md_key id' r' bid unmerged ≢ entry_key id r
unfolding get_md_key
entry_key-unmerged id id' bid zero zero h h' b e =
    absurd (omega (arith, ap length e, length-append id' bid))
entry_key-unmerged id id' bid zero (suc r') h h' b e = absurd (
    omega (
      arith,
      ap length e,
      length-append id' bid,
      length-append (id' ++ bid) (big_endian 8 (suc r')),
    ))
entry_key-unmerged id id' bid (suc r) zero h h' b e = absurd (
    omega (
      arith,
      ap length e,
      length-append id' bid,
      length-append id (big_endian 8 (suc r)),
      length-big_endian 8 (suc r),
    ))
entry_key-unmerged id id' bid (suc r) (suc r') h h' b e = absurd (
    omega (
      arith,
      ap length e,
      length-append id' bid,
      length-append (id' ++ bid) (big_endian 8 (suc r')),
      length-big_endian 8 (suc r'),
      length-append id (big_endian 8 (suc r)),
      length-big_endian 8 (suc r),
    ))
