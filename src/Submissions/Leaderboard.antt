-- ===== src/Submissions/Leaderboard.antt =====
-- The leaderboard: its ranks, and what its rows come from.
use chipatelier.Prelude.{
  ℕ, ◌+◌, ◌≡◌, ◌≢◌, ◌⊎◌, inl, inr, ap, any, Bool-cases, refl, subst, Bool, true, false, Option,
  none, some, List, [], ◌∷◌, arith, ◌==◌, select, if◌then◌else◌, All, All-append, All-order_by,
  order_by, Sorted, order_by-Sorted,
}
use chipatelier.Prelude.Int.{ℤ, ◌≤ℤ◌, eqb_ℤ, pos_part, neg_part, eq_of_parts}
use chipatelier.Http.{ok}
use chipatelier.Model.{User, Run, Submission, Db, Backend}
use chipatelier.Jobs.{get_run}
use chipatelier.Submissions.{
  get_assignment_or_404, desc_nullslast, best_score, submissions_of, LeaderRow, join_row, join_rows,
  row_before, LeaderEntry, entries_from, get_leaderboard, scores_equal, wns_of,
}
use chipatelier.Submissions.Best.{AtMost, best_score-some}
use chipatelier.Submissions.Places.{Placed, leaderboard-Placed}

-- The ranks count up from the given number.
abbrev pub Ranked : ℕ → List LeaderEntry → Type 0
Ranked n [] = Unit {0}
Ranked n (e ∷ es) = (e.rank ≡ n) × Ranked (n + 1) es

entries-Ranked : (n self : ℕ) (rows : List LeaderRow) → Ranked n (entries_from n self rows)
unfolding entries_from
entries-Ranked n self [] = tt
entries-Ranked n self (r ∷ rs) = (refl, entries-Ranked (n + 1) self rs)

entries-All :
    (P : LeaderRow → Type 0) (n self : ℕ) (rows : List LeaderRow)
    → All P rows
    → All
        (λ (e : LeaderEntry). P (record { user_id = e.user_id; score = e.score; wns = e.wns }))
        (entries_from n self rows)
unfolding entries_from
entries-All P n self [] h = tt
entries-All P n self (r ∷ rs) (p, h) = (p, entries-All P (n + 1) self rs h)

-- An entry shows a score that some submission of its user for the assignment has, and no such
-- submission has a higher one.
abbrev pub IsBest : ℕ → Db → LeaderRow → Type 0
IsBest assignment_id db row =
    (t : ℤ) × (row.score ≡ some t)
    × All (λ (s : Submission). AtMost t s.score) (submissions_of assignment_id row.user_id db)
    × (any (λ (s : Submission). scores_equal s.score (some t))
          (submissions_of assignment_id row.user_id db)
        ≡ true)

join_row-IsBest :
    (assignment_id : ℕ) (db : Db) (s : Submission)
    → All (IsBest assignment_id db) (join_row assignment_id db s)
unfolding join_row
join_row-IsBest assignment_id db s =
    go (best_score (submissions_of assignment_id s.user_id db)) refl
      (scores_equal s.score (best_score (submissions_of assignment_id s.user_id db))) refl
      (get_run s.run_id db)
  where
    go :
        (b : Option ℤ)
        → best_score (submissions_of assignment_id s.user_id db) ≡ b
        → (c : Bool) → scores_equal s.score b ≡ c
        → (o : Option Run)
        → All (IsBest assignment_id db) (
            if c
            then elim o [
              | none ↦ []
              | some run ↦ record { user_id = s.user_id; score = b; wns = wns_of run } ∷ []
            ]
            else [])
    go b e false q o = tt
    go none e true q o = absurd (ground arith)
    go (some t) e true q none = tt
    go (some t) e true q (some run) =
        let (bound, attained) = best_score-some (submissions_of assignment_id s.user_id db) t e in
        ((t, refl, bound, attained), tt)

join_rows-IsBest :
    (assignment_id : ℕ) (db : Db) (ss : List Submission)
    → All (IsBest assignment_id db) (join_rows assignment_id db ss)
unfolding join_rows
join_rows-IsBest assignment_id db [] = tt
join_rows-IsBest assignment_id db (s ∷ ss) =
    All-append (IsBest assignment_id db) (join_row assignment_id db s)
      (join_rows assignment_id db ss) (join_row-IsBest assignment_id db s)
      (join_rows-IsBest assignment_id db ss)

row_before_total : (r q : LeaderRow) → row_before r q ≡ false → row_before q r ≡ true
row_before_total r q h = ground arith

abbrev pub row_of : LeaderEntry → LeaderRow
row_of e = record { user_id = e.user_id; score = e.score; wns = e.wns }

-- Which worst slack stands in front of which: a higher one of a lower or missing one.
abbrev pub SlackAhead : Option ℤ → Option ℤ → Type 0
SlackAhead w none = Unit {0}
SlackAhead w (some v) = (u : ℤ) × (w ≡ some u) × (v ≤ℤ u)

-- The entry `d` has a higher score than `e`, or the same and no worse slack.
abbrev pub Ahead : LeaderEntry → LeaderEntry → Type 0
Ahead d e =
    (t : ℤ) × (u : ℤ) × (d.score ≡ some t)
    × (e.score ≡ some u)
    × (((u ≤ℤ t) × (u ≢ t)) ⊎ ((u ≡ t) × SlackAhead d.wns e.wns))

-- Each entry is ahead of the next.
abbrev pub Ordered : List LeaderEntry → Type 0
Ordered [] = Unit {0}
Ordered (d ∷ []) = Unit {0}
Ordered (d ∷ e ∷ es) = Ahead d e × Ordered (e ∷ es)

desc-SlackAhead : (w v : Option ℤ) → desc_nullslast w v ≡ true → SlackAhead w v
desc-SlackAhead w none h = tt
desc-SlackAhead none (some v) h = absurd (ground arith)
desc-SlackAhead (some w) (some v) h = (w, refl, ground arith)

row_before-Ahead :
    (d e : LeaderEntry) (t u : ℤ)
    → d.score ≡ some t
    → e.score ≡ some u
    → row_before (row_of d) (row_of e) ≡ true
    → Ahead d e
row_before-Ahead d e t u p q h = elim (Bool-cases (eqb_ℤ t u)) [
  | inl same ↦ (
    t,
    u,
    p,
    q,
    inr (eq_of_parts u t (ground arith), desc-SlackAhead d.wns e.wns (ground (arith, p, q, same))),
  )
  | inr differ ↦ (
    t,
    u,
    p,
    q,
    inl (ground (arith, p, q, differ), λ x. ground (arith, ap pos_part x, ap neg_part x)),
  )
]

Sorted-Ordered :
    (assignment_id : ℕ) (db : Db) (entries : List LeaderEntry)
    → Sorted (λ (d e : LeaderEntry). row_before (row_of d) (row_of e)) entries
    → All (λ (e : LeaderEntry). IsBest assignment_id db (row_of e)) entries
    → Ordered entries
Sorted-Ordered assignment_id db [] h best = tt
Sorted-Ordered assignment_id db (d ∷ []) h best = tt
Sorted-Ordered assignment_id db (d ∷ e ∷ es) (l, h) ((t, p, _, _), ((u, q, r, a), best)) = (
  row_before-Ahead d e t u p q l,
  Sorted-Ordered assignment_id db (e ∷ es) h ((u, q, r, a), best),
)

entries-Sorted :
    (n self : ℕ) (rows : List LeaderRow)
    → Sorted row_before rows
    → Sorted (λ (d e : LeaderEntry). row_before (row_of d) (row_of e)) (entries_from n self rows)
unfolding entries_from
entries-Sorted n self [] h = tt
entries-Sorted n self (r ∷ []) h = (tt, tt)
entries-Sorted n self (r ∷ q ∷ rows) (l, h) = (l, entries-Sorted (n + 1) self (q ∷ rows) h)

-- The leaderboard's ranks are 1, 2, 3, …; each entry has a higher score than the next one, or the
-- same score and a worst slack that is not lower, where a missing one counts as the lowest; and each
-- entry shows a score that a submission of its user for the assignment has, while no submission of
-- that user for it has a higher one. A user with a scored submission for the assignment is missing
-- only if the run of each best one is gone.
pub leaderboard_lem :
    (assignment_id : ℕ) (user : User) (b : Backend) (entries : List LeaderEntry)
    → (get_leaderboard assignment_id user b).0 ≡ ok entries
    → Ranked 1 entries
      × Ordered entries
      × All (λ (e : LeaderEntry). IsBest assignment_id b.db (row_of e)) entries
      × All
          (λ (s : Submission). Placed assignment_id b.db entries s)
          (select (λ (s : Submission). s.assignment_id == assignment_id) b.db.submissions)
unfolding get_leaderboard get_assignment_or_404
leaderboard_lem assignment_id user b entries h =
    let joined =
      join_rows assignment_id b.db
        (select (λ (s : Submission). s.assignment_id == assignment_id) b.db.submissions) in
    let rows = order_by row_before joined in
    let listed : entries_from 1 user.id rows ≡ entries = ground arith in
    let best = entries-All (IsBest assignment_id b.db) 1 user.id rows (
      All-order_by (IsBest assignment_id b.db) row_before joined (
        join_rows-IsBest assignment_id b.db
          (select (λ (s : Submission). s.assignment_id == assignment_id) b.db.submissions))) in
    subst
      (λ es.
        Ranked 1 es
        × Ordered es
        × All (λ (e : LeaderEntry). IsBest assignment_id b.db (row_of e)) es
        × All (λ (s : Submission). Placed assignment_id b.db es s)
            (select (λ (s : Submission). s.assignment_id == assignment_id) b.db.submissions))
      listed
      (
        entries-Ranked 1 user.id rows,
        Sorted-Ordered assignment_id b.db (entries_from 1 user.id rows)
            (entries-Sorted 1 user.id rows (order_by-Sorted row_before row_before_total joined))
            best,
        best,
        leaderboard-Placed assignment_id b.db user.id
            (select (λ (s : Submission). s.assignment_id == assignment_id) b.db.submissions),
      )
