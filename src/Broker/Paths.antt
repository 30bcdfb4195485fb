-- ===== src/Broker/Paths.antt =====
-- The paths of tool_broker.py: `_workspace_relative_path`, `_workspace_scope`, `_is_within_scope`,
-- over what they use of `PurePosixPath`.
use Prim.Native.String.{◌++◌ as concat}
use mathlib.Core.List.{append-nil}
use vheatm.Prelude.{
  String, ◌≡◌, refl, Bool, true, false, not, ◌&&◌, ◌||◌, Option, none, some, List, [], ◌∷◌, ◌++◌,
  arith, ◌==◌, eq_iff, Outcome, ok, raised, ◌>>◌, guard, any, All, select, has_char, strip_prefix,
  split_on, join, if◌then◌else◌, Bool-cases, inl, inr, sym, ◌∙◌,
}

pub data PathError : Type 0 where
  not_posix not_normalized not_relative bad_scope_prefix : PathError

-- The root is "", "/" or "//"; the parts do not hold it.
pub record PurePosixPath : Type 0 where
  pub root : String
  pub parts : List String

abbrev is_name : String → Bool
is_name p = not (p == "") && not (p == ".")

-- "//" is a root of its own, and three slashes are one.
unfoldable pub root_of : String → String
unfolding strip_prefix
root_of s = elim (strip_prefix "///" s) [
  | some _ ↦ "/"
  | none ↦ elim (strip_prefix "//" s) [
    | some _ ↦ "//"
    | none ↦ elim (strip_prefix "/" s) [ some _ ↦ "/" | none ↦ "" ]
  ]
]

-- `PurePosixPath(s)`
unfoldable pub posix_path : String → PurePosixPath
unfolding root_of split_on
posix_path s = record { root = root_of s; parts = select is_name (split_on b'/' s) }

-- `str(path)`
unfoldable pub path_text : PurePosixPath → String
unfolding join
path_text p = if p.root == "" && no_parts p.parts then "." else concat p.root (join "/" p.parts)
  where
    no_parts : List String → Bool
    no_parts [] = true
    no_parts (_ ∷ _) = false

-- `path.parts`, which begins with the root of an absolute path.
abbrev pub all_parts : PurePosixPath → List String
all_parts p = if p.root == "" then p.parts else p.root ∷ p.parts

abbrev is_dots : String → Bool
is_dots p = p == "" || p == "." || p == ".."

unfoldable pub workspace_relative_path : String → Outcome PathError PurePosixPath
workspace_relative_path value = do
  guard (not (value == "" || has_char 92 value || has_char 0 value)) not_posix
  let path = posix_path value
  guard (path_text path == value) not_normalized
  guard (not (not (path.root == "") || any is_dots (all_parts path))) not_relative
  ok path

abbrev pub here : PurePosixPath
here = record { root = ""; parts = [] }

abbrev scope_of : Option String → Outcome PathError PurePosixPath
scope_of none = raised bad_scope_prefix
scope_of (some suffix) = if suffix == "" then ok here else workspace_relative_path suffix

unfoldable pub workspace_scope : String → Outcome PathError PurePosixPath
unfolding strip_prefix
workspace_scope value = scope_of (strip_prefix "workspace:" value)

-- `parts[:len(prefix)] == prefix`
unfoldable pub starts_with_parts : List String → List String → Bool
starts_with_parts parts [] = true
starts_with_parts [] (q ∷ prefix) = false
starts_with_parts (p ∷ parts) (q ∷ prefix) = p == q && starts_with_parts parts prefix

unfoldable pub same_parts : List String → List String → Bool
same_parts [] [] = true
same_parts (p ∷ ps) (q ∷ qs) = p == q && same_parts ps qs
same_parts _ _ = false

-- `path == scope` between paths
abbrev same_path : PurePosixPath → PurePosixPath → Bool
same_path p q = p.root == q.root && same_parts p.parts q.parts

unfoldable pub is_within_scope : PurePosixPath → PurePosixPath → Bool
unfolding starts_with_parts same_parts
is_within_scope path scope =
    same_path scope here
    || same_path path scope
    || starts_with_parts (all_parts path) (all_parts scope)

-- The path of an entry at or below the scope: relative, and with no `..` to climb out by.
pub record IsContained (path scope : PurePosixPath) : Type 0 where
  pub below : List String
  pub reached : path.parts ≡ scope.parts ++ below
  pub relative : path.root ≡ ""
  pub no_climb : All (λ p. (p == "..") ≡ false) path.parts

starts_with_parts-split :
    (parts prefix : List String)
    → starts_with_parts parts prefix ≡ true
    → (below : List String) × (parts ≡ prefix ++ below)
unfolding starts_with_parts
starts_with_parts-split parts [] h = (parts, refl)
starts_with_parts-split [] (q ∷ prefix) h = cc
starts_with_parts-split (p ∷ parts) (q ∷ prefix) h =
    let (below, e) = starts_with_parts-split parts prefix (ground arith) in
    (below, ground (arith, eq_iff p q))

same_parts-eq : (ps qs : List String) → same_parts ps qs ≡ true → ps ≡ qs
unfolding same_parts
same_parts-eq [] [] h = refl
same_parts-eq [] (q ∷ qs) h = cc
same_parts-eq (p ∷ ps) [] h = cc
same_parts-eq (p ∷ ps) (q ∷ qs) h = ground (arith, eq_iff p q, same_parts-eq ps qs)

no_dots : (ps : List String) → any is_dots ps ≡ false → All (λ p. (p == "..") ≡ false) ps
no_dots [] h = tt
no_dots (p ∷ ps) h = ground (arith, no_dots ps)

accepted_parts :
    (value : String) {path : PurePosixPath}
    → workspace_relative_path value ≡ ok path
    → ((path.root == "") ≡ true)
      × (any is_dots path.parts ≡ false)
      × ((path_text path == value) ≡ true)
unfolding workspace_relative_path
accepted_parts value h = ground arith

-- An accepted path is relative, has no `..` part, and is spelled as the text that it came from.
pub relative_of_accepted :
    (value : String) {path : PurePosixPath}
    → workspace_relative_path value ≡ ok path
    → (path.root ≡ "") × All (λ p. (p == "..") ≡ false) path.parts × (path_text path ≡ value)
relative_of_accepted value h =
    let (rootless, dotless, spelled) = accepted_parts value h in
    ((eq_iff _ _).0 rootless, no_dots _ dotless, (eq_iff _ _).0 spelled)

scope_of-relative :
    (suffix : Option String) {scope : PurePosixPath} → scope_of suffix ≡ ok scope → scope.root ≡ ""
scope_of-relative none h = cc
scope_of-relative (some s) {scope} h =
    ground (arith, λ (k : workspace_relative_path s ≡ ok scope). (relative_of_accepted s k).0)

scope_parts :
    (value : String) {scope : PurePosixPath} → workspace_scope value ≡ ok scope → scope.root ≡ ""
unfolding workspace_scope
scope_parts value h = scope_of-relative (strip_prefix "workspace:" value) h

covered :
    (ps ss : List String)
    → same_parts ss [] || same_parts ps ss || starts_with_parts ps ss ≡ true
    → (below : List String) × (ps ≡ ss ++ below)
unfolding same_parts
covered ps [] h = (ps, refl)
covered ps (s ∷ ss) h = elim (Bool-cases (same_parts ps (s ∷ ss))) [
  | inl same ↦ ([], same_parts-eq ps (s ∷ ss) same ∙ sym (append-nil (s ∷ ss)))
  | inr other ↦ starts_with_parts-split ps (s ∷ ss) (ground arith)
]

-- A path that is accepted and found within an accepted scope lies in that scope.
pub IsContained-of_accepted :
    (value bound : String) {path scope : PurePosixPath}
    → workspace_relative_path value ≡ ok path
    → workspace_scope bound ≡ ok scope
    → is_within_scope path scope ≡ true
    → IsContained path scope
unfolding is_within_scope
IsContained-of_accepted value bound {path} {scope} accepted bounded within =
    let (relative, no_climb, _) = relative_of_accepted value accepted in
    let bound_relative = scope_parts bound bounded in
    let (below, reached) =
      covered path.parts scope.parts
        (ground (arith, eq_iff path.root "", eq_iff scope.root "", eq_iff path.root scope.root)) in
    record { below = below; reached = reached; relative = relative; no_climb = no_climb }
