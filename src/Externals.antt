-- ===== src/Externals.antt =====
-- What the server takes from packages that are not in the repository: encoding/json and net/url.
use murlog.Prelude.{ℕ, String, List, Option}

pub record Externals : Type 0 where
  -- json.Marshal of a map[string]string, and json.Unmarshal into one
  pub marshal : List (String × String) → String
  pub unmarshal : String → Option (List (String × String))
  -- the Hostname of url.Parse, with none for a parse error
  pub hostname : String → Option String
  -- the identifiers that id.New draws, by the number of the draw
  pub new_id : ℕ → ℕ
