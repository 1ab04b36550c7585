-- ===== src/Session/Logger/Files/Purge.antt =====
-- Which files purge_old_files of ofe_session1_code/ofe/src/util/logger.cpp removes.
use mathlib.Core.List.{Perm}
use mathlib.Core.List.Perm
use mathlib.Core.Bool.{false≢true}
use rudra_org.Common.{
  ℕ, suc, ◌-◌, ◌^◌, ◌<◌, ◌≡◌, refl, ap, sym, ◌∙◌, Bool, true, false, some, List, [], ◌∷◌, ltb,
  if◌then◌else◌, Bool-cases, inl, inr, arith, length, select, All, take, take-All, select-All,
}
use rudra_org.Common.Int.{pos, ltb_ℤ, to_int32, to_int32-eq_self}
use rudra_org.Common.Text.{Text, equal, eq_of_equal, before}
use rudra_org.Session.Logger.{LogConfig}
use rudra_org.Session.Logger.Files.Rotate.{content_of-remove_other}
use rudra_org.Session.Logger.Files.{
  Directory, remove, content_of, is_log, insert_name, sort_names, names, purge_loop,
  purge_old_files,
}

abbrev pub remove_all : List Text → Directory → Directory
remove_all [] fs = fs
remove_all (n ∷ ns) fs = remove_all ns (remove n fs)

-- No name stands before the one in front of it.
abbrev pub IsSorted : List Text → Type 0
IsSorted [] = Unit
IsSorted (n ∷ []) = Unit
IsSorted (n ∷ m ∷ ms) = (before m n ≡ false) × IsSorted (m ∷ ms)

-- The test of the loop on a number of files that fits an int.
test_lem : (k n : ℕ) → n < 2 ^ 31 → ltb_ℤ (pos k) (to_int32 (pos n)) ≡ ltb k n
test_lem k n small = rw (to_int32-eq_self (pos n) (omega arith)) (ground arith)

purge_loop_lem :
    (k : ℕ) (ns : List Text) (fs : Directory)
    → length ns < 2 ^ 31
    → purge_loop (pos k) ns fs ≡ some (remove_all (take (length ns - k) ns) fs)
unfolding purge_loop
purge_loop_lem k [] fs small =
    let some_left : ltb_ℤ (pos k) (pos 0) ≡ false = ground arith in
    let count : 0 - k ≡ 0 = omega arith in rw (some_left, count) refl
purge_loop_lem k (n ∷ ns) fs small = elim (Bool-cases (ltb k (length (n ∷ ns)))) [
  | inl more ↦
      let count : length (n ∷ ns) - k ≡ suc (length ns - k) = ground arith in
      rw (test_lem k (length (n ∷ ns)) small, more, count)
        (purge_loop_lem k ns (remove n fs) (omega arith))
  | inr enough ↦
      let count : length (n ∷ ns) - k ≡ 0 = ground arith in
      rw (test_lem k (length (n ∷ ns)) small, enough, count) refl
]

before_asymm : (cs ds : Text) → before cs ds ≡ true → before ds cs ≡ false
before_asymm cs [] h = cc
before_asymm [] (d ∷ ds) h = refl
before_asymm (c ∷ cs) (d ∷ ds) h = ground (arith, before_asymm cs ds)

insert_name-IsSorted : (n : Text) (ns : List Text) → IsSorted ns → IsSorted (insert_name n ns)
unfolding insert_name
insert_name-IsSorted n [] s = tt
insert_name-IsSorted n (m ∷ []) s = elim (Bool-cases (before m n)) [
  | inl first ↦ rw first (before_asymm m n first, tt)
  | inr last ↦ rw last (last, tt)
]
insert_name-IsSorted n (m ∷ m' ∷ ms) s = elim (Bool-cases (before m n)) [
  | inl first ↦
      rw first (split (before m' n) (before_asymm m n first) (insert_name-IsSorted n (m' ∷ ms) s.1))
  | inr last ↦ rw last (last, s)
]
  where
    split :
        (b : Bool)
        → before n m ≡ false
        → IsSorted (if b then m' ∷ insert_name n ms else n ∷ m' ∷ ms)
        → IsSorted (m ∷ (if b then m' ∷ insert_name n ms else n ∷ m' ∷ ms))
    split true apart h = (s.0, h)
    split false apart h = (apart, h)

sort_names-IsSorted : (ns : List Text) → IsSorted (sort_names ns)
unfolding sort_names
sort_names-IsSorted [] = tt
sort_names-IsSorted (n ∷ ns) = insert_name-IsSorted n (sort_names ns) (sort_names-IsSorted ns)

insert_name-perm : (n : Text) (ns : List Text) → Perm (insert_name n ns) (n ∷ ns)
unfolding insert_name
insert_name-perm n [] = Perm.refl (n ∷ [])
insert_name-perm n (m ∷ ms) = elim (Bool-cases (before m n)) [
  | inl first ↦ rw first (Perm.trans (Perm.cons m (insert_name-perm n ms)) (Perm.swap n m ms))
  | inr last ↦ rw last (Perm.refl (n ∷ m ∷ ms))
]

sort_names-perm : (ns : List Text) → Perm (sort_names ns) ns
unfolding sort_names
sort_names-perm [] = Perm.refl []
sort_names-perm (n ∷ ns) =
    Perm.trans (insert_name-perm n (sort_names ns)) (Perm.cons n (sort_names-perm ns))

length-insert_name : (n : Text) (ns : List Text) → length (insert_name n ns) ≡ suc (length ns)
unfolding insert_name
length-insert_name n [] = refl
length-insert_name n (m ∷ ms) = ground (arith, length-insert_name n ms)

length-sort_names : (ns : List Text) → length (sort_names ns) ≡ length ns
unfolding sort_names
length-sort_names [] = refl
length-sort_names (n ∷ ns) =
    omega (arith, length-insert_name n (sort_names ns), length-sort_names ns)

-- A file whose name is not among those removed stays as it is.
content_of-remove_all :
    (other : Text) (ns : List Text) (fs : Directory)
    → All (λ n. equal other n ≡ false) ns
    → content_of other (remove_all ns fs) ≡ content_of other fs
content_of-remove_all other [] fs _ = refl
content_of-remove_all other (n ∷ ns) fs (apart, h) =
    content_of-remove_all other ns (remove n fs) h ∙ content_of-remove_other n other fs apart

insert_name-All {κ} :
    (P : Text → Type κ) (n : Text) (ns : List Text) → P n → All P ns → All P (insert_name n ns)
unfolding insert_name
insert_name-All P n [] p _ = (p, tt)
insert_name-All P n (m ∷ ms) p (q, h) = elim (Bool-cases (before m n)) [
  | inl first ↦ rw first (q, insert_name-All P n ms p h)
  | inr last ↦ rw last (p, (q, h))
]

sort_names-All {κ} : (P : Text → Type κ) (ns : List Text) → All P ns → All P (sort_names ns)
unfolding sort_names
sort_names-All P [] _ = tt
sort_names-All P (n ∷ ns) (p, h) = insert_name-All P n (sort_names ns) p (sort_names-All P ns h)

-- Where the limit is `k` and the log files can be counted by an int: of the names of the log files
-- in their order, as many are removed from the front as there are more than `k`, and no other file
-- changes.
pub purge_old_files_lem :
    (config : LogConfig) (k : ℕ) (fs : Directory) (other : Text)
    → config.max_files ≡ pos k
    → length (select (is_log config) (names fs)) < 2 ^ 31
    → is_log config other ≡ false
    → let logs = select (is_log config) (names fs) in
      let sorted = sort_names logs in
      let fs' = remove_all (take (length logs - k) sorted) fs in
      (purge_old_files config fs ≡ some fs')
      × IsSorted sorted
      × Perm sorted logs
      × (content_of other fs' ≡ content_of other fs)
unfolding purge_old_files
purge_old_files_lem config k fs other limit small no_log =
    let logs = select (is_log config) (names fs) in
    let sorted = sort_names logs in
    let same_length : length sorted ≡ length logs = length-sort_names logs in
    let purged =
      ap (λ max. purge_loop max sorted fs) limit
      ∙ purge_loop_lem k sorted fs (omega arith)
      ∙ ap (λ (n : ℕ). some (remove_all (take (n - k) sorted) fs)) same_length in
    (
      purged,
      sort_names-IsSorted logs,
      sort_names-perm logs,
      content_of-remove_all other (take (length logs - k) sorted) fs (
          take-All _ (length logs - k) sorted
            (sort_names-All _ logs (select-All _ (is_log config) apart (names fs)))),
    )
  where
    apart : (n : Text) → is_log config n ≡ true → equal other n ≡ false
    apart n log = elim (Bool-cases (equal other n)) [
      | inl e ↦ absurd (false≢true (sym no_log ∙ ap (is_log config) (eq_of_equal other n e) ∙ log))
      | inr e ↦ e
    ]
