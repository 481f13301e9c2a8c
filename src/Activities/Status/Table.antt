-- ===== src/Activities/Status/Table.antt =====
-- internal/activity/status.go: the table of log lines, and the primary artifact.
use fleetlift.Prelude.{ℕ, ◌≡◌, refl, ap, true, ◌||◌, List, [], ◌∷◌, ◌++◌, eqb, arith}
use fleetlift.Activities.Box.{LogLine}
use fleetlift.Activities.Status.{has_seq, insert_line, insert_lines}

has_seq-append :
    (n : ℕ) (xs ys : List LogLine) → has_seq n (xs ++ ys) ≡ (has_seq n xs || has_seq n ys)
has_seq-append n [] ys = refl
has_seq-append n (x ∷ xs) ys = ground (arith, has_seq-append n xs ys)

has_seq-insert_line :
    (l : LogLine) (n : ℕ) (table : List LogLine)
    → has_seq n (insert_line l table) ≡ (has_seq n table || eqb l.seq n)
has_seq-insert_line l n table =
    ground (arith, has_seq-append n table (l ∷ []), same_seq l.seq n table)
  where
    same_seq : (m k : ℕ) (t : List LogLine) → m ≡ k → has_seq m t ≡ has_seq k t
    same_seq m k t e = ap (λ j. has_seq j t) e

-- What is in the table stays there.
has_seq-insert_lines :
    (ls : List LogLine) (n : ℕ) (table : List LogLine)
    → has_seq n (insert_lines ls table) ≡ (has_seq n table || has_seq n ls)
unfolding insert_lines
has_seq-insert_lines [] n table = ground arith
has_seq-insert_lines (l ∷ ls) n table =
    ground (arith, has_seq-insert_lines ls n (insert_line l table), has_seq-insert_line l n table)

-- Lines whose numbers the table has all are dropped.
AllIn : List LogLine → List LogLine → Type 0
AllIn [] table = Unit
AllIn (l ∷ ls) table = (has_seq l.seq table ≡ true) × AllIn ls table

insert_lines-known : (ls table : List LogLine) → AllIn ls table → insert_lines ls table ≡ table
unfolding insert_lines AllIn
insert_lines-known [] table known = refl
insert_lines-known (l ∷ ls) table known = rw known.0 (insert_lines-known ls table known.1)

AllIn-insert_lines :
    (ls all table : List LogLine)
    → ((n : ℕ) → has_seq n ls ≡ true → has_seq n all ≡ true)
    → AllIn ls (insert_lines all table)
unfolding AllIn
AllIn-insert_lines [] all table sub = tt
AllIn-insert_lines (l ∷ ls) all table sub = (
  ground (arith, has_seq-insert_lines all l.seq table, sub l.seq (ground arith)),
  AllIn-insert_lines ls all table (λ n h. sub n (ground (arith, h))),
)

-- A batch that is inserted once more, as a retried activity may, changes nothing; and after any batch the
-- numbers in the table are those that were there and those of the batch.
pub insert_lines-again :
    (ls table : List LogLine)
    → (insert_lines ls (insert_lines ls table) ≡ insert_lines ls table)
      × ((more : List LogLine) (n : ℕ)
          → has_seq n (insert_lines more table) ≡ (has_seq n table || has_seq n more))
insert_lines-again ls table = (
  insert_lines-known ls (insert_lines ls table) (AllIn-insert_lines ls ls table (λ n h. h)),
  λ more n. has_seq-insert_lines more n table,
)
