-- ===== src/BlockServer/Tests.antt =====
-- The block server at concrete inputs, and the theorems there.
use angelkey_kbfsbeta.Prelude.{ℕ, ◌≡◌, refl, ◌↔◌, ite, false, none, some, [], ◌∷◌, ℕ_discrete}
use angelkey_kbfsbeta.Prelude.Result.{ok, err}
use angelkey_kbfsbeta.Prelude.Map
use angelkey_kbfsbeta.BlockServer.{
  RefStatus, BlockEntry, MemStorage, live_block_ref, archived_block_ref, block_archived,
  block_non_existent, add_reference, remove_reference, archive_reference, server_put, any_live,
  remove_block_reference,
}
use angelkey_kbfsbeta.BlockServer.Refs.{
  status, has_live, HasLive, add_reference_lem, archive, here, next, no_resurrection,
}
use angelkey_kbfsbeta.BlockServer.Removal.{
  IsReferenced, Reachable, empty, put_block, Reachable-IsReferenced, remove_reference_lem,
}

abbrev entry : Map.Map ℕ RefStatus → BlockEntry
entry refs = record { block_data = 1 ∷ 2 ∷ []; refs = refs; key_server_half = 7; tlf = 3 }

abbrev live : MemStorage
live = (9, entry ((0, live_block_ref) ∷ [])) ∷ []

abbrev dead : MemStorage
dead = (9, entry ((0, archived_block_ref) ∷ [])) ∷ []

puts : server_put 9 3 0 (1 ∷ 2 ∷ []) 7 [] ≡ ok live
unfolding server_put
puts = refl

archives : archive_reference 9 0 live ≡ ok dead
unfolding archive_reference ℕ_discrete
archives = refl

refuses : add_reference 9 4 dead ≡ err block_archived
unfolding add_reference ℕ_discrete
refuses = refl

removes : remove_block_reference ((9, 4 ∷ 0 ∷ []) ∷ []) ([], live) ≡ ((9, 0) ∷ [], [])
unfolding remove_block_reference ℕ_discrete
removes = refl

dead-false : has_live 9 dead ≡ false
unfolding Map.get any_live ℕ_discrete
dead-false = refl

add_reference_lem_example :
    (((s' : MemStorage) × (add_reference 9 4 live ≡ ok s')
        × ((j n : ℕ)
            → status j n s'
              ≡ ite
                  (ℕ_discrete 9 j)
                  (ite (ℕ_discrete 4 n) (some live_block_ref) (status j n live))
                  (status j n live)))
      ↔ ((e : BlockEntry) × (Map.get ℕ_discrete 9 live ≡ some e) × HasLive e.refs))
    × ((add_reference 9 4 live ≡ err block_non_existent) ↔ (Map.get ℕ_discrete 9 live ≡ none))
    × ((add_reference 9 4 live ≡ err block_archived)
        ↔ ((e : BlockEntry) × (Map.get ℕ_discrete 9 live ≡ some e) × (¬ HasLive e.refs)))
add_reference_lem_example = add_reference_lem 9 4 live

archives_again : archive_reference 9 0 dead ≡ ok dead
unfolding archive_reference ℕ_discrete
archives_again = refl

no_resurrection_example : has_live 9 dead ≡ false
no_resurrection_example = no_resurrection 9 (next here (archive 9 0 archives_again)) dead-false

Reachable-IsReferenced_example : IsReferenced live
Reachable-IsReferenced_example =
    Reachable-IsReferenced (Reachable.next empty (put_block 9 3 0 (1 ∷ 2 ∷ []) 7 puts))

remove_reference_lem_example :
    ((j n : ℕ)
      → status j n (remove_reference 9 0 live).1
        ≡ ite (ℕ_discrete 9 j) (ite (ℕ_discrete 0 n) none (status j n live)) (status j n live))
    × (((remove_reference 9 0 live).0 ≡ 0)
        ↔ (Map.get ℕ_discrete 9 (remove_reference 9 0 live).1 ≡ none))
remove_reference_lem_example = remove_reference_lem 9 0 live Reachable-IsReferenced_example
