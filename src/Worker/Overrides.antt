-- ===== src/Worker/Overrides.antt =====
-- Which value of a Make variable the arguments of a job set.
use chipatelier.Prelude.{
  String, ◌≡◌, not, Option, none, some, List, [], ◌∷◌, ◌++◌, arith, str_eq, is_some, select,
  if◌then◌else◌,
}
use chipatelier.Worker.{make_override_args}

-- Make takes the last argument that sets a variable.
unfoldable pub last_value : String → List (String × String) → Option String
last_value k [] = none
last_value k ((j, v) ∷ args) =
    let later = last_value k args in
    if is_some later then later else if str_eq j k then some v else none

last_value-append :
    (k : String) (xs ys : List (String × String))
    → last_value k (xs ++ ys)
      ≡ (if is_some (last_value k ys) then last_value k ys else last_value k xs)
unfolding last_value
last_value-append k [] ys = ground arith
last_value-append k ((j, v) ∷ xs) ys = ground (arith, last_value-append k xs ys)

-- The instructor's locked value of a variable wins over the student's override, whatever it is; a
-- variable that is not locked has the student's last override that is not empty.
pub locked_params_win :
    (k : String) (config_overrides locked_params : List (String × String))
    → last_value k (make_override_args config_overrides locked_params) ≡ (
        if is_some (last_value k locked_params)
        then last_value k locked_params
        else last_value k
            (select (λ (kv : String × String). not (str_eq kv.1 "")) config_overrides))
unfolding make_override_args
locked_params_win k config_overrides locked_params = last_value-append k _ locked_params
