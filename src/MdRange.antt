-- ===== src/MdRange.antt =====
-- libkbfs/md_util.go, getMDRange: the metadata of a range of revisions, from the cache and, where it
-- misses, from the server. The code reads of a RootMetadata only its revision, so a metadata is of
-- any type with a revision. Revisions below MetadataRevisionInitial are 0 here. The MD cache and
-- MDOps are interfaces of the source: `cached` is the cache's Get at the start of the call, and
-- `fetch` is GetRange or GetUnmergedRange. `puts` holds the metadata that was put into the cache.
mod Filled
mod Run
mod Whole
mod Tests
use angelkey_kbfsbeta.Prelude.{
  ℕ, zero, suc, ◌+◌, ◌-◌, ◌||◌, Option, none, some, List, [], ◌∷◌, ◌++◌, ltb, leb, ◌==◌,
  if◌then◌else◌, length, take, drop,
}
use angelkey_kbfsbeta.Prelude.Result.{Result, ok, err}

pub record RevRange : Type 0 where
  pub start : ℕ
  pub stop : ℕ

pub data RangeError : Type 0 where
  fetch_failed : RangeError
  -- No MD found for this revision.
  hole : ℕ → RangeError
  -- the panic of an index or a slice
  out_of_range : RangeError

-- `max_end` is maxSlot + 1.
pub record Slots (A : Type 0) : Type 0 where
  pub rmds : List (Option A)
  pub min_slot : ℕ
  pub max_end : ℕ
  pub puts : List A

-- A missing revision goes into the last range to download, or into a new one.
unfoldable pub add_missing : ℕ → List RevRange → List RevRange
add_missing i [] = (record { start = i; stop = i }) ∷ []
add_missing i (r ∷ []) =
    if r.stop + 1 == i
    then (record r { stop = i }) ∷ []
    else r ∷ (record { start = i; stop = i }) ∷ []
add_missing i (r ∷ q ∷ rest) = r ∷ add_missing i (q ∷ rest)

module _ {A : Type 0} (revision : A → ℕ) where
  unfoldable pub touch : ℕ → Slots A → Slots A
  touch slot s = record s {
    min_slot = if ltb slot s.min_slot then slot else s.min_slot;
    max_end = if ltb s.max_end (slot + 1) then slot + 1 else s.max_end;
  }

  -- The loop over the revisions: so many of them, from the given one.
  unfoldable pub scan : (ℕ → Option A) → ℕ → ℕ → Slots A → List RevRange → Slots A × List RevRange
  unfolding touch add_missing
  scan cached zero i s ranges = (s, ranges)
  scan cached (suc n) i s ranges = elim (cached i) [
    | none ↦ scan cached n (i + 1) (record s { rmds = s.rmds ++ none ∷ [] }) (add_missing i ranges)
    | some rmd ↦
        scan cached n (i + 1) (record (touch (length s.rmds) s) { rmds = s.rmds ++ some rmd ∷ [] })
          ranges
  ]

  abbrev pub set_at : ℕ → A → List (Option A) → List (Option A)
  set_at n a [] = []
  set_at zero a (_ ∷ r) = some a ∷ r
  set_at (suc n) a (x ∷ r) = x ∷ set_at n a r

  -- The inner loop over the metadata that was fetched.
  unfoldable pub place : ℕ → List A → Slots A → Result RangeError (Slots A)
  unfolding touch
  place start [] s = ok s
  place start (rmd ∷ more) s =
      let slot = revision rmd - start in
      let t = touch slot s in
      let rest =
        place start more (record t { rmds = set_at slot rmd s.rmds; puts = s.puts ++ rmd ∷ [] }) in
      if ltb (revision rmd) start || leb (length s.rmds) slot then err out_of_range else rest

  unfoldable pub download :
      (ℕ → ℕ → Option (List A)) → ℕ → List RevRange → Slots A → Result RangeError (Slots A)
  unfolding place
  download fetch start [] s = ok s
  download fetch start (r ∷ more) s = elim (fetch r.start r.stop) [
    | none ↦ err fetch_failed
    | some fetched ↦ elim (place start fetched s) [
      | err e ↦ err e
      | ok t ↦ download fetch start more t
    ]
  ]

  -- The loop that looks for holes, from the revision of the first slot.
  unfoldable pub check_holes : ℕ → List (Option A) → Result RangeError (List A)
  check_holes rev [] = ok []
  check_holes rev (none ∷ r) = err (hole rev)
  check_holes rev (some a ∷ r) = elim (check_holes (rev + 1) r) [
    | err e ↦ err e
    | ok l ↦ ok (a ∷ l)
  ]

  unfoldable pub finish : ℕ → Slots A → Result RangeError (List A)
  unfolding check_holes
  finish start s =
      if leb s.max_end s.min_slot
      then ok []
      else check_holes (start + s.min_slot) (take (s.max_end - s.min_slot) (drop s.min_slot s.rmds))

  -- getMDRange. With an end more than one below the start, minSlot is negative and the slice panics.
  unfoldable pub get_md_range :
      (ℕ → Option A) → (ℕ → ℕ → Option (List A)) → ℕ → ℕ → Result RangeError (List A)
  unfolding scan download finish
  get_md_range cached fetch start stop =
      if ltb start 1 || ltb stop 1
      then ok []
      else if ltb (stop + 1) start
      then err out_of_range
      else (let n = stop + 1 - start in
          let (s, ranges) =
            scan cached n start (record { rmds = []; min_slot = n; max_end = 0; puts = [] }) [] in
          elim (download fetch start ranges s) [ err e ↦ err e | ok t ↦ finish start t ])
