-- ===== src/BlockServer/Removal.antt =====
-- bserver_local_storage.go, removeReference, and the blocks that a server can hold.
use angelkey_kbfsbeta.Prelude.{
  ℕ, ◌<◌, ◌≡◌, refl, subst, ◌↔◌, inl, inr, ite, none, some, List, ◌∷◌, arith, ℕ_discrete, ◌==◌,
  Bool-cases, Option-cases, length, [],
}
use angelkey_kbfsbeta.Prelude.Result.{ok}
use angelkey_kbfsbeta.Prelude.Map
use angelkey_kbfsbeta.Prelude.Map.{Map, get-put, get-delete, get-put_self, get-delete_self}
use angelkey_kbfsbeta.BlockServer.{
  RefStatus, live_block_ref, archived_block_ref, BlockEntry, MemStorage, add_reference,
  remove_reference, archive_reference, server_put,
}
use angelkey_kbfsbeta.BlockServer.Refs.{status, RefStep, add, remove, archive}

-- Every stored block has a reference, live or archived.
pub record IsReferenced (s : MemStorage) : Type 0 where
  pub at : (id : ℕ) (e : BlockEntry) → Map.get ℕ_discrete id s ≡ some e → 0 < length e.refs

length-put : (n : ℕ) (v : RefStatus) (r : Map ℕ RefStatus) → 0 < length (Map.put ℕ_discrete n v r)
unfolding Map.put
length-put n v [] = omega arith
length-put n v ((k, w) ∷ r) = ground (arith, length-put n v r)

IsReferenced-put :
    (id : ℕ) (e : BlockEntry) (s : MemStorage)
    → IsReferenced s
    → 0 < length e.refs
    → IsReferenced (Map.put ℕ_discrete id e s)
IsReferenced-put id e s h p = record {
  at = λ j b q. ground (arith, get-put ℕ_discrete id j e s, h.at j b);
}

IsReferenced-delete :
    (id : ℕ) (s : MemStorage) → IsReferenced s → IsReferenced (Map.delete ℕ_discrete id s)
IsReferenced-delete id s h = record {
  at = λ j b q. ground (arith, get-delete ℕ_discrete id j s, h.at j b);
}

-- The calls of the block server that succeed.
pub data ServerStep (s : MemStorage) : MemStorage → Type 0 where
  put_block :
      (id tlf nonce : ℕ) (buf : List ℕ) (half : ℕ) {s' : MemStorage}
      → server_put id tlf nonce buf half s ≡ ok s'
      → ServerStep s s'
  change_refs : {s' : MemStorage} → RefStep s s' → ServerStep s s'

pub data Reachable : MemStorage → Type 0 where
  empty : Reachable []
  next : {s s' : MemStorage} → Reachable s → ServerStep s s' → Reachable s'

server_put-IsReferenced :
    (id tlf nonce : ℕ) (buf : List ℕ) (half : ℕ) (s : MemStorage) {s' : MemStorage}
    → server_put id tlf nonce buf half s ≡ ok s'
    → IsReferenced s
    → IsReferenced s'
unfolding server_put
server_put-IsReferenced id tlf nonce buf half s {s'} e h =
    let b : BlockEntry = record {
      block_data = buf;
      refs = (0, live_block_ref) ∷ [];
      key_server_half = half;
      tlf = tlf;
    } in
    let q : Map.put ℕ_discrete id b s ≡ s' = ground arith in
    subst IsReferenced q (IsReferenced-put id b s h (omega arith))

add_reference-IsReferenced :
    (id nonce : ℕ) (s : MemStorage) {s' : MemStorage}
    → add_reference id nonce s ≡ ok s'
    → IsReferenced s
    → IsReferenced s'
unfolding add_reference
add_reference-IsReferenced id nonce s {s'} e h = elim (Option-cases (Map.get ℕ_discrete id s)) [
  | inl m ↦ absurd (ground arith)
  | inr (b, m) ↦
      let b' : BlockEntry = record b { refs = Map.put ℕ_discrete nonce live_block_ref b.refs } in
      let q : Map.put ℕ_discrete id b' s ≡ s' = ground arith in
      subst IsReferenced q (IsReferenced-put id b' s h (length-put nonce live_block_ref b.refs))
]

archive_reference-IsReferenced :
    (id nonce : ℕ) (s : MemStorage) {s' : MemStorage}
    → archive_reference id nonce s ≡ ok s'
    → IsReferenced s
    → IsReferenced s'
unfolding archive_reference
archive_reference-IsReferenced id nonce s {s'} e h = elim (Option-cases (Map.get ℕ_discrete id s)) [
  | inl m ↦ absurd (ground arith)
  | inr (b, m) ↦
      let b' : BlockEntry = record b {
        refs = Map.put ℕ_discrete nonce archived_block_ref b.refs;
      } in
      let q : Map.put ℕ_discrete id b' s ≡ s' = ground arith in
      subst IsReferenced q (IsReferenced-put id b' s h (length-put nonce archived_block_ref b.refs))
]

remove_reference-IsReferenced :
    (id nonce : ℕ) (s : MemStorage) → IsReferenced s → IsReferenced (remove_reference id nonce s).1
unfolding remove_reference
remove_reference-IsReferenced id nonce s h = elim (Option-cases (Map.get ℕ_discrete id s)) [
  | inl m ↦ rw (m, remove_reference) h
  | inr (b, m) ↦
      let refs = Map.delete ℕ_discrete nonce b.refs in
      elim (Bool-cases (length refs == 0)) [
        | inl z ↦ rw (m, remove_reference) (rw z (IsReferenced-delete id s h))
        | inr z ↦
            rw (m, remove_reference)
              (rw z (IsReferenced-put id (record b { refs = refs }) s h (ground arith)))
      ]
]

ServerStep-IsReferenced : {s s' : MemStorage} → ServerStep s s' → IsReferenced s → IsReferenced s'
ServerStep-IsReferenced (put_block id tlf nonce buf half e) h =
    server_put-IsReferenced id tlf nonce buf half _ e h
ServerStep-IsReferenced (change_refs (add id nonce e)) h = add_reference-IsReferenced id nonce _ e h
ServerStep-IsReferenced {s} (change_refs (remove id nonce e)) h =
    subst IsReferenced e (remove_reference-IsReferenced id nonce s h)
ServerStep-IsReferenced (change_refs (archive id nonce e)) h =
    archive_reference-IsReferenced id nonce _ e h

-- In every storage that calls of the server reach from the empty one, each stored block has at least
-- one reference, live or archived: a block goes away with its last reference.
pub Reachable-IsReferenced : {s : MemStorage} → Reachable s → IsReferenced s
Reachable-IsReferenced empty = record { at = λ id e q. unfold Map.get in cc }
Reachable-IsReferenced (next r st) = ServerStep-IsReferenced st (Reachable-IsReferenced r)

get_of_length_zero : (n : ℕ) (r : Map ℕ RefStatus) → length r ≡ 0 → Map.get ℕ_discrete n r ≡ none
unfolding Map.get
get_of_length_zero n [] h = refl
get_of_length_zero n (x ∷ r) h = absurd (omega arith)

-- After removeReference the reference is gone, and every other one, of this block and of the others,
-- is as before. If each stored block had a reference, the count is 0 exactly when the block is not
-- stored any more.
pub remove_reference_lem :
    (id nonce : ℕ) (s : MemStorage)
    → IsReferenced s
    → ((j n : ℕ)
        → status j n (remove_reference id nonce s).1
          ≡ ite (ℕ_discrete id j) (ite (ℕ_discrete nonce n) none (status j n s)) (status j n s))
      × (((remove_reference id nonce s).0 ≡ 0)
          ↔ (Map.get ℕ_discrete id (remove_reference id nonce s).1 ≡ none))
unfolding remove_reference
remove_reference_lem id nonce s h = elim (Option-cases (Map.get ℕ_discrete id s)) [
  | inl m ↦ (λ j n. ground arith, ground arith)
  | inr (b, m) ↦
      let refs = Map.delete ℕ_discrete nonce b.refs in
      (
        λ j n. ground (
          arith,
          get-put ℕ_discrete id j (record b { refs = refs }) s,
          get-delete ℕ_discrete id j s,
          get-delete ℕ_discrete nonce n b.refs,
          get_of_length_zero n refs,
        ),
        ground (
          arith,
          get-put_self ℕ_discrete id (record b { refs = refs }) s,
          get-delete_self ℕ_discrete id s,
        ),
      )
]
