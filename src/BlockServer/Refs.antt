-- ===== src/BlockServer/Refs.antt =====
-- bserver_local_storage.go: what each operation of the in-memory storage does to the references.
use angelkey_kbfsbeta.Prelude.{
  ℕ, ◌≡◌, refl, sym, subst, ◌↔◌, ◌⊎◌, inl, inr, ite, Bool, true, false, Option, none, some, [], ◌∷◌,
  arith, ℕ_discrete, Bool-cases, Option-cases,
}
use angelkey_kbfsbeta.Prelude.Result.{ok}
use angelkey_kbfsbeta.Prelude.Map
use angelkey_kbfsbeta.Prelude.Map.{Map, get-put, get-delete}
use angelkey_kbfsbeta.BlockServer.{
  RefStatus, live_block_ref, MemStorage, any_live, add_reference, BlockEntry, err,
  archive_reference, remove_reference, archived_block_ref, block_non_existent, block_archived,
  no_block_ref,
}

-- The status of one reference, `none` if the block or the reference is not there.
abbrev pub status : ℕ → ℕ → MemStorage → Option RefStatus
status id nonce s = elim (Map.get ℕ_discrete id s) [
  | none ↦ none
  | some e ↦ Map.get ℕ_discrete nonce e.refs
]

-- The block is stored, and some reference of it is live.
abbrev pub has_live : ℕ → MemStorage → Bool
has_live id s = elim (Map.get ℕ_discrete id s) [ none ↦ false | some e ↦ any_live e.refs ]

-- Some reference of the list is live.
abbrev pub HasLive : Map ℕ RefStatus → Type 0
HasLive [] = ⊥
HasLive ((n, v) ∷ r) = (v ≡ live_block_ref) ⊎ HasLive r

any_live-HasLive : (r : Map ℕ RefStatus) → (any_live r ≡ true) ↔ HasLive r
unfolding any_live
any_live-HasLive [] = ground arith
any_live-HasLive ((n, live_block_ref) ∷ r) = ground arith
any_live-HasLive ((n, archived_block_ref) ∷ r) =
    let rest = any_live-HasLive r in
    (λ e. inr (rest.0 e), λ h. elim h [ inl q ↦ absurd (cc q) | inr q ↦ rest.1 q ])
any_live-HasLive ((n, no_block_ref) ∷ r) =
    let rest = any_live-HasLive r in
    (λ e. inr (rest.0 e), λ h. elim h [ inl q ↦ absurd (cc q) | inr q ↦ rest.1 q ])

-- addReference succeeds exactly when the block is stored and has a live reference, and then the new
-- reference is live, and every other reference, of this block and of the others, has the status of
-- before. It fails with one error exactly when the block is not stored, and with another exactly
-- when it is stored without a live reference.
pub add_reference_lem :
    (id nonce : ℕ) (s : MemStorage)
    → (((s' : MemStorage) × (add_reference id nonce s ≡ ok s')
          × ((j n : ℕ)
              → status j n s'
                ≡ ite
                    (ℕ_discrete id j)
                    (ite (ℕ_discrete nonce n) (some live_block_ref) (status j n s))
                    (status j n s)))
        ↔ ((e : BlockEntry) × (Map.get ℕ_discrete id s ≡ some e) × HasLive e.refs))
      × ((add_reference id nonce s ≡ err block_non_existent) ↔ (Map.get ℕ_discrete id s ≡ none))
      × ((add_reference id nonce s ≡ err block_archived)
          ↔ ((e : BlockEntry) × (Map.get ℕ_discrete id s ≡ some e) × (¬ HasLive e.refs)))
unfolding add_reference
add_reference_lem id nonce s = elim (Option-cases (Map.get ℕ_discrete id s)) [
  | inl m ↦
      let failed : add_reference id nonce s ≡ err block_non_existent = ground arith in
      (
        (λ (t, e, _). absurd (cc (failed, e)), λ (b, e, _). absurd (cc (m, e))),
        (λ _. m, λ _. failed),
        (λ e. absurd (cc (failed, e)), λ (b, e, _). absurd (cc (m, e))),
      )
  | inr (b, m) ↦
      let live = any_live-HasLive b.refs in
      let same : (e : BlockEntry) → Map.get ℕ_discrete id s ≡ some e → b ≡ e = λ e q. cc (m, q) in
      elim (Bool-cases (any_live b.refs)) [
        | inl a ↦
            let refs = Map.put ℕ_discrete nonce live_block_ref b.refs in
            let t = Map.put ℕ_discrete id (record b { refs = refs }) s in
            let added : add_reference id nonce s ≡ ok t = ground arith in
            (
              (
                λ _. (b, m, live.0 a),
                λ _. (
                  t,
                  added,
                  λ j n. ground (
                    arith,
                    get-put ℕ_discrete id j (record b { refs = refs }) s,
                    get-put ℕ_discrete nonce n live_block_ref b.refs,
                  ),
                ),
              ),
              (λ e. absurd (cc (added, e)), λ e. absurd (cc (m, e))),
              (
                λ e. absurd (cc (added, e)),
                λ (d, e, n).
                    absurd (n (subst (λ (x : BlockEntry). HasLive x.refs) (same d e) (live.0 a))),
              ),
            )
        | inr a ↦
            let refused : add_reference id nonce s ≡ err block_archived = ground arith in
            let dead : ¬ HasLive b.refs = λ h. absurd (cc (a, live.1 h)) in
            (
              (
                λ (t, e, _). absurd (cc (refused, e)),
                λ (d, e, h).
                    absurd (dead (subst (λ (x : BlockEntry). HasLive x.refs) (sym (same d e)) h)),
              ),
              (λ e. absurd (cc (refused, e)), λ e. absurd (cc (m, e))),
              (λ _. (b, m, dead), λ _. refused),
            )
      ]
]

any_live-put_archived :
    (n : ℕ) (r : Map ℕ RefStatus)
    → any_live r ≡ false
    → any_live (Map.put ℕ_discrete n archived_block_ref r) ≡ false
unfolding any_live Map.put
any_live-put_archived n [] h = refl
any_live-put_archived n ((k, v) ∷ r) h = ground (arith, any_live-put_archived n r)

any_live-delete :
    (n : ℕ) (r : Map ℕ RefStatus)
    → any_live r ≡ false
    → any_live (Map.delete ℕ_discrete n r) ≡ false
unfolding any_live Map.delete
any_live-delete n [] h = refl
any_live-delete n ((k, v) ∷ r) h = ground (arith, any_live-delete n r)

has_live-put :
    (id j : ℕ) (e : BlockEntry) (s : MemStorage)
    → has_live j (Map.put ℕ_discrete id e s)
      ≡ ite (ℕ_discrete id j) (any_live e.refs) (has_live j s)
has_live-put id j e s = ground (arith, get-put ℕ_discrete id j e s)

has_live-delete :
    (id j : ℕ) (s : MemStorage)
    → has_live j (Map.delete ℕ_discrete id s) ≡ ite (ℕ_discrete id j) false (has_live j s)
has_live-delete id j s = ground (arith, get-delete ℕ_discrete id j s)

-- The calls of the storage other than `put`, where they succeed.
pub data RefStep (s : MemStorage) : MemStorage → Type 0 where
  add : (id nonce : ℕ) {s' : MemStorage} → add_reference id nonce s ≡ ok s' → RefStep s s'
  remove : (id nonce : ℕ) {s' : MemStorage} → (remove_reference id nonce s).1 ≡ s' → RefStep s s'
  archive : (id nonce : ℕ) {s' : MemStorage} → archive_reference id nonce s ≡ ok s' → RefStep s s'

pub data RefSteps (s : MemStorage) : MemStorage → Type 0 where
  here : RefSteps s s
  next : {t u : MemStorage} → RefSteps s t → RefStep t u → RefSteps s u

add-dead :
    (id nonce j : ℕ) (s : MemStorage) {s' : MemStorage}
    → add_reference id nonce s ≡ ok s'
    → has_live j s ≡ false
    → has_live j s' ≡ false
unfolding add_reference
add-dead id nonce j s {s'} e h = elim (Option-cases (Map.get ℕ_discrete id s)) [
  | inl m ↦ absurd (ground arith)
  | inr (b, m) ↦ ground (
    arith,
    has_live-put id j (record b { refs = Map.put ℕ_discrete nonce live_block_ref b.refs }) s,
  )
]

remove-dead :
    (id nonce j : ℕ) (s : MemStorage)
    → has_live j s ≡ false
    → has_live j (remove_reference id nonce s).1 ≡ false
unfolding remove_reference
remove-dead id nonce j s h = elim (Option-cases (Map.get ℕ_discrete id s)) [
  | inl m ↦ ground arith
  | inr (b, m) ↦ ground (
    arith,
    has_live-put id j (record b { refs = Map.delete ℕ_discrete nonce b.refs }) s,
    has_live-delete id j s,
    any_live-delete nonce b.refs,
  )
]

archive-dead :
    (id nonce j : ℕ) (s : MemStorage) {s' : MemStorage}
    → archive_reference id nonce s ≡ ok s'
    → has_live j s ≡ false
    → has_live j s' ≡ false
unfolding archive_reference
archive-dead id nonce j s {s'} e h = elim (Option-cases (Map.get ℕ_discrete id s)) [
  | inl m ↦ absurd (ground arith)
  | inr (b, m) ↦ ground (
    arith,
    has_live-put id j (record b { refs = Map.put ℕ_discrete nonce archived_block_ref b.refs }) s,
    any_live-put_archived nonce b.refs,
  )
]

RefStep-dead :
    {s s' : MemStorage} (j : ℕ) → RefStep s s' → has_live j s ≡ false → has_live j s' ≡ false
RefStep-dead j (add id nonce e) h = add-dead id nonce j _ e h
RefStep-dead {s} j (remove id nonce e) h = rw (← e) (remove-dead id nonce j s h)
RefStep-dead j (archive id nonce e) h = archive-dead id nonce j _ e h

-- A block without a live reference gets none back by any sequence of successful calls of
-- addReference, removeReference and archiveReference, on this block or others.
pub no_resurrection :
    {s s' : MemStorage} (id : ℕ) → RefSteps s s' → has_live id s ≡ false → has_live id s' ≡ false
no_resurrection id here h = h
no_resurrection id (next r st) h = RefStep-dead id st (no_resurrection id r h)
