-- ===== src/Json.antt =====
-- nlohmann::json as the sources use it: the library is not part of the repository, so its type of
-- values and its calls are parameters.
use service_port_scanner.Common.{ℕ, Bytes, Option, List}

-- Integers over the native numbers: `negsuc n` is -(n + 1).
pub data ℤ : Type 0 where
  pos : ℕ → ℤ
  negsuc : ℕ → ℤ

pub record JsonLib : Type 1 where
  pub Value : Type 0
  -- `json::parse`; `none` where it throws a parse error.
  pub parse : Bytes → Option Value
  -- `j.contains(key)` together with `j[key]`; `none` too where `j` is no object.
  pub member : Value → Bytes → Option Value
  -- `is_string` with `get<std::string>`, and so on: `none` where the type is another.
  pub as_string : Value → Option Bytes
  pub as_array : Value → Option (List Value)
  pub as_unsigned : Value → Option ℕ
  -- `is_number_integer` with `get<int>`.
  pub as_int : Value → Option ℤ
  -- `is_object`, and the members in the order of iteration.
  pub as_object : Value → Option (List (Bytes × Value))
