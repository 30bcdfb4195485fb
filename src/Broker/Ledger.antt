-- ===== src/Broker/Ledger.antt =====
-- The token ledgers of tool_broker.py: the protocol `TokenLedger`, and its two implementations.
use vheatm.Prelude.{
  String, ◌≡◌, Bool, true, false, not, ◌||◌, List, ◌∷◌, arith, ◌==◌, eq_iff, has, any,
  if◌then◌else◌,
}

-- What the broker relies on: a token is consumed once, and stays consumed.
pub record TokenLedger (L : Type 0) : Type 0 where
  pub consume : String → L → Bool × L
  pub spent : String → L → Bool
  pub consume_fresh : (t : String) (l : L) → (consume t l).0 ≡ not (spent t l)
  pub spent_after : (t j : String) (l : L) → spent j (consume t l).1 ≡ (t == j || spent j l)

-- `InMemoryTokenLedger.consume`
unfoldable pub consume_in_memory : String → List String → Bool × List String
consume_in_memory token_id consumed =
    if has consumed token_id then (false, consumed) else (true, token_id ∷ consumed)

pub consume_in_memory_fresh :
    (t : String) (l : List String) → (consume_in_memory t l).0 ≡ not (has l t)
unfolding consume_in_memory
consume_in_memory_fresh t l = ground arith

pub consume_in_memory_spent :
    (t j : String) (l : List String) → has (consume_in_memory t l).1 j ≡ (t == j || has l j)
unfolding consume_in_memory
consume_in_memory_spent t j l = ground (arith, eq_iff t j)

abbrev pub in_memory : TokenLedger (List String)
in_memory = record {
  consume = consume_in_memory;
  spent = λ t l. has l t;
  consume_fresh = consume_in_memory_fresh;
  spent_after = consume_in_memory_spent;
}

-- A directory of marker files: their names with their contents. `O_CREAT | O_EXCL` fails if the
-- file exists.
abbrev pub Directory : Type 0
Directory = List (String × String)

abbrev pub exists : String → Directory → Bool
exists name files = any (λ (f, text). f == name) files

-- `DirectoryTokenLedger.consume`
unfoldable pub consume_in_directory : String → Directory → Bool × Directory
consume_in_directory token_id files =
    if exists token_id files then (false, files) else (true, (token_id, "consumed\n") ∷ files)

pub consume_in_directory_fresh :
    (t : String) (d : Directory) → (consume_in_directory t d).0 ≡ not (exists t d)
unfolding consume_in_directory
consume_in_directory_fresh t d = ground arith

pub consume_in_directory_spent :
    (t j : String) (d : Directory) → exists j (consume_in_directory t d).1 ≡ (t == j || exists j d)
unfolding consume_in_directory
consume_in_directory_spent t j d = ground (arith, eq_iff t j)

abbrev pub in_directory : TokenLedger Directory
in_directory = record {
  consume = consume_in_directory;
  spent = exists;
  consume_fresh = consume_in_directory_fresh;
  spent_after = consume_in_directory_spent;
}
