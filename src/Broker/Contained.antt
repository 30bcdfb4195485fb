-- ===== src/Broker/Contained.antt =====
-- What an allowed write may touch.
use vheatm.Prelude.{
  String, ◌≡◌, refl, true, false, Option, none, some, List, [], ◌∷◌, arith, Outcome, ok, raised,
  ok_steps, All, all, is_blank,
}
use vheatm.Json.{Json, Fields, str, get}
use vheatm.Broker.{Services}
use vheatm.Broker.Paths.{
  PurePosixPath, PathError, workspace_relative_path, workspace_scope, is_within_scope, IsContained,
  IsContained-of_accepted,
}
use vheatm.Broker.Classes.{has_text, normalize_paths, judge_paths, diff_paths, evaluate_write}

-- The path that a text names lies within a scope.
pub record IsInside (scope : PurePosixPath) (value : String) : Type 0 where
  pub path : PurePosixPath
  pub accepted : workspace_relative_path value ≡ ok path
  pub contained : IsContained path scope

IsInside-of_normalized :
    (bound : String) (scope : PurePosixPath) (values : List String) (paths : List PurePosixPath)
    → workspace_scope bound ≡ ok scope
    → normalize_paths values ≡ ok paths
    → all (λ p. is_within_scope p scope) paths ≡ true
    → All (IsInside scope) values
unfolding normalize_paths
IsInside-of_normalized bound scope [] paths b n w = tt
IsInside-of_normalized bound scope (v ∷ vs) paths b n w =
    let (path, accepted, n') = ok_steps (workspace_relative_path v) _ n in
    let (rest, normalized, e) = ok_steps (normalize_paths vs) _ n' in
    let same : paths ≡ path ∷ rest = cc (e) in
    let within : all (λ p. is_within_scope p scope) (path ∷ rest) ≡ true = rw same at w in
    (
      record {
        path = path;
        accepted = accepted;
        contained = IsContained-of_accepted v bound accepted b (ground arith);
      },
      IsInside-of_normalized bound scope vs rest b normalized (ground arith),
    )

plan_of_text :
    (v : Option Json)
    → has_text v ≡ true
    → (plan : String) × (v ≡ some (str plan)) × (is_blank plan ≡ false)
plan_of_text (some (str plan)) h = (plan, refl, ground arith)
plan_of_text (some _) h = cc
plan_of_text none h = cc

module _ (S : Services) where
  judged :
      (request : Fields) (scope : PurePosixPath) (result : Outcome PathError (List PurePosixPath))
      {reason : String} {controls : List String}
      → judge_paths S request scope result ≡ (true, reason, controls)
      → (paths : List PurePosixPath) × (result ≡ ok paths)
        × (all (λ p. is_within_scope p scope) paths ≡ true)
        × (has_text (get "rollback_plan" request) ≡ true)
  judged request scope (ok paths) h = (paths, refl, ground arith, ground arith)
  judged request scope (raised e) h = ground arith

  -- An allowed write names only paths that are relative, have no `..` and lie in the scope of the
  -- request, and it comes with a rollback plan that is not blank.
  pub evaluate_write-IsInside :
      (request : Fields) (bound : String) (scope : PurePosixPath) (reason : String)
      (controls : List String)
      → workspace_scope bound ≡ ok scope
      → evaluate_write S request scope ≡ (true, reason, controls)
      → All (IsInside scope) (diff_paths S request)
        × ((plan : String) × (get "rollback_plan" request ≡ some (str plan))
            × (is_blank plan ≡ false))
  unfolding evaluate_write
  evaluate_write-IsInside request bound scope reason controls b h =
      let (paths, normalized, within, planned) =
        judged request scope (normalize_paths (diff_paths S request)) h in
      (
        IsInside-of_normalized bound scope (diff_paths S request) paths b normalized within,
        plan_of_text (get "rollback_plan" request) planned,
      )
