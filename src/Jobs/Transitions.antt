-- ===== src/Jobs/Transitions.antt =====
-- The life of a run as an abstract transition system.
use chipatelier.Prelude.{ℕ, ◌≡◌, ◌≢◌, subst, true, Option, none, some, arith, map_option}
use chipatelier.Model.{
  Run, RunStatus, queued, starting, running, complete, failed, cancelled, timeout, Db,
  is_active_status, is_terminal,
}
use chipatelier.Jobs.{get_run}

-- The status of a run, if it exists.
abbrev pub status_at : ℕ → Db → Option RunStatus
status_at k db = map_option (λ (r : Run). r.status) (get_run k db)

-- What a request may do to one run: nothing, create it as queued, or cancel it while it is active.
pub data Move (before : Option RunStatus) : Option RunStatus → Type 0 where
  stays : Move before before
  submitted : before ≡ none → Move before (some queued)
  cancels :
      (s : RunStatus) → before ≡ some s → is_active_status s ≡ true → Move before (some cancelled)

-- Any number of moves.
pub data Life (before : Option RunStatus) : Option RunStatus → Type 0 where
  born : Life before before
  moved : {s t : Option RunStatus} → Life before s → Move s t → Life before t

pub Move-Life : {o p q : Option RunStatus} → Move o p → Life p q → Life o q
Move-Life m born = moved born m
Move-Life m (moved l n) = moved (Move-Life m l) n

final-inactive : (s : RunStatus) → is_terminal s ≡ true → is_active_status s ≢ true
final-inactive queued h k = cc
final-inactive starting h k = cc
final-inactive running h k = cc
final-inactive complete h k = cc
final-inactive failed h k = cc
final-inactive cancelled h k = cc
final-inactive timeout h k = cc

-- No move leaves a status that has ended.
Move-final :
    {o p : Option RunStatus} (s : RunStatus)
    → is_terminal s ≡ true
    → o ≡ some s
    → Move o p
    → p ≡ some s
Move-final s done at stays = at
Move-final s done at (submitted none_yet) = absurd (ground arith)
Move-final s done at (cancels t was active) = absurd (
    final-inactive s done (subst (λ x. is_active_status x ≡ true) (ground (arith, at, was)) active))

pub Life-final :
    {o p : Option RunStatus} (s : RunStatus)
    → is_terminal s ≡ true
    → o ≡ some s
    → Life o p
    → p ≡ some s
Life-final s done at born = at
Life-final s done at (moved l m) = Move-final s done (Life-final s done at l) m
