-- ===== src/Submissions/Places.antt =====
-- Who has a place on the leaderboard.
use chipatelier.Prelude.{
  ℕ, ◌+◌, ◌≡◌, refl, ◌⊎◌, inl, inr, any, All-mono, Bool, true, false, ◌||◌, Option, none, some,
  List, [], ◌∷◌, ◌++◌, arith, ◌==◌, All, order_by, insert_by, ==_refl,
}
use chipatelier.Model.{Run, Submission, Db}
use chipatelier.Jobs.{get_run}
use chipatelier.Submissions.{
  best_score, submissions_of, LeaderRow, join_row, join_rows, row_before, LeaderEntry, entries_from,
  scores_equal,
}

module _ {A : Type 0} (p : A → Bool) where
  any-append : (xs ys : List A) → any p (xs ++ ys) ≡ (any p xs || any p ys)
  unfolding any
  any-append [] ys = refl
  any-append (x ∷ xs) ys = ground (arith, any-append xs ys)

  any-insert_by :
      (before : A → A → Bool) (x : A) (xs : List A)
      → any p (insert_by before x xs) ≡ (p x || any p xs)
  unfolding any insert_by
  any-insert_by before x [] = refl
  any-insert_by before x (y ∷ ys) = ground (arith, any-insert_by before x ys)

  any-order_by : (before : A → A → Bool) (xs : List A) → any p (order_by before xs) ≡ any p xs
  unfolding any order_by
  any-order_by before [] = refl
  any-order_by before (x ∷ xs) =
      ground (arith, any-insert_by before x (order_by before xs), any-order_by before xs)

any-entries_from :
    (user_id n self : ℕ) (rows : List LeaderRow)
    → any (λ (e : LeaderEntry). e.user_id == user_id) (entries_from n self rows)
      ≡ any (λ (r : LeaderRow). r.user_id == user_id) rows
unfolding any entries_from
any-entries_from user_id n self [] = refl
any-entries_from user_id n self (r ∷ rows) =
    ground (arith, any-entries_from user_id (n + 1) self rows)

module _ (assignment_id : ℕ) (db : Db) where
  -- The submission is not its user's best, or its run is gone, or `has` finds its user.
  abbrev Found : (ℕ → Bool) → Submission → Type 0
  Found has s =
      (scores_equal s.score (best_score (submissions_of assignment_id s.user_id db)) ≡ false)
      ⊎ ((get_run s.run_id db ≡ none) ⊎ (has s.user_id ≡ true))

  -- The submission is not its user's best, or its run is gone, or its user has an entry.
  abbrev pub Placed : List LeaderEntry → Submission → Type 0
  Placed entries s = Found (λ k. any (λ (e : LeaderEntry). e.user_id == k) entries) s

  abbrev in_rows : List LeaderRow → ℕ → Bool
  in_rows rows k = any (λ (r : LeaderRow). r.user_id == k) rows

  Found-mono :
      (has more : ℕ → Bool) (s : Submission)
      → ((k : ℕ) → has k ≡ true → more k ≡ true)
      → Found has s
      → Found more s
  Found-mono has more s f (inl worse) = inl worse
  Found-mono has more s f (inr (inl lost)) = inr (inl lost)
  Found-mono has more s f (inr (inr here)) = inr (inr (f s.user_id here))

  join_row-Found : (s : Submission) → Found (in_rows (join_row assignment_id db s)) s
  unfolding join_row any
  join_row-Found s =
      go (scores_equal s.score (best_score (submissions_of assignment_id s.user_id db))) refl
        (get_run s.run_id db) refl
    where
      go :
          (c : Bool)
          → scores_equal s.score (best_score (submissions_of assignment_id s.user_id db)) ≡ c
          → (o : Option Run) → get_run s.run_id db ≡ o
          → Found (in_rows (join_row assignment_id db s)) s
      go false e o q = inl e
      go true e none q = inr (inl q)
      go true e (some run) q = inr (inr (ground (arith, e, q, ==_refl s.user_id)))

  join_rows-Found :
      (ss : List Submission) → All (Found (in_rows (join_rows assignment_id db ss))) ss
  unfolding join_rows
  join_rows-Found [] = tt
  join_rows-Found (s ∷ ss) =
      let row = join_row assignment_id db s in
      let rows = join_rows assignment_id db ss in
      let split = λ (k : ℕ). any-append (λ (r : LeaderRow). r.user_id == k) row rows in
      (
        Found-mono (in_rows row) (in_rows (row ++ rows)) s (λ k h. ground (arith, split k))
            (join_row-Found s),
        All-mono ss
            (λ t found.
              Found-mono (in_rows rows) (in_rows (row ++ rows)) t (λ k h. ground (arith, split k))
                found)
            (join_rows-Found ss),
      )

  -- Each submission that the query joins is placed.
  pub leaderboard-Placed :
      (self : ℕ) (ss : List Submission)
      → All (Placed (entries_from 1 self (order_by row_before (join_rows assignment_id db ss)))) ss
  leaderboard-Placed self ss =
      let rows = join_rows assignment_id db ss in
      All-mono ss
        (λ t found.
          Found-mono (in_rows rows)
            (λ k.
              any (λ (e : LeaderEntry). e.user_id == k)
                (entries_from 1 self (order_by row_before rows)))
            t
            (λ k h. ground (
              arith,
              any-entries_from k 1 self (order_by row_before rows),
              any-order_by (λ (r : LeaderRow). r.user_id == k) row_before rows,
            ))
            found)
        (join_rows-Found ss)
