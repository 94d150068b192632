-- ===== src/Host.antt =====
-- _util.py: what the code takes from Python's standard library (`json.dumps`, `hashlib`, `datetime`,
-- `str` methods, `float`, `uuid`) is a parameter of the model, and the utilities built on it.
use Prim.Native.Nat.{◌%◌}
use epistemos.Common.{
  Bool, true, false, not, ltb, leb, nat_eq, ◌||◌, ◌&&◌, ℕ, String, Option, none, some, ◌==◌,
  if◌then◌else◌,
}
use epistemos.Result.{Result, ok, err, value_error, type_error}
use epistemos.Json.{Json, null, str, num, negative, bool, float}

-- `negsuc n` is -(n + 1).
pub data ℤ : Type 0 where
  pos negsuc : ℕ → ℤ

pub record Host : Type 0 where
  -- json.dumps(obj, sort_keys=True, separators=(",", ":"), ensure_ascii=False, allow_nan=False)
  pub canonical_json : Json → String
  -- hashlib.sha256(text.encode("utf-8")).hexdigest()
  pub sha256_hex : String → String
  -- value.strip()
  pub strip : String → String
  -- text.replace("Z", "+00:00")
  pub replace_z : String → String
  -- datetime.fromisoformat(text) in UTC, in microseconds since the year 1; none is ValueError
  pub fromisoformat : String → Option ℕ
  -- float(value): the bit pattern of the double; none is TypeError or ValueError
  pub to_float : Json → Option ℕ
  -- int(text); none is ValueError
  pub int_of_text : String → Option ℤ
  -- int(value) of a double, by its bit pattern; OverflowError or ValueError if it is not finite
  pub int_of_float : ℕ → Result ℤ
  -- a + b on doubles, by their bit patterns
  pub add_float : ℕ → ℕ → ℕ
  -- str(value) for a value that is no string
  pub to_str : Json → String
  -- text.lower()
  pub lower : String → String
  -- name.strip().upper()
  pub upper : String → String

-- The bit patterns of 0.0, 1.0, the least infinity and -0.0. On patterns below `infinity` the
-- order of the doubles is the order of the patterns.
abbrev pub one : ℕ
one = 0x3ff0000000000000

abbrev pub infinity : ℕ
infinity = 0x7ff0000000000000

abbrev pub negative_zero : ℕ
negative_zero = 0x8000000000000000

abbrev magnitude : ℕ → ℕ
magnitude a = a % negative_zero

abbrev is_nan : ℕ → Bool
is_nan a = ltb infinity (magnitude a)

abbrev pub is_finite : ℕ → Bool
is_finite a = ltb (magnitude a) infinity

abbrev is_signed : ℕ → Bool
is_signed a = leb negative_zero a

-- a < b on doubles.
unfoldable pub float_lt : ℕ → ℕ → Bool
float_lt a b =
    if is_nan a || is_nan b
    then false
    else if is_signed a
    then (if is_signed b then ltb b a else not (nat_eq (magnitude a) 0 && nat_eq b 0))
    else if is_signed b
    then false
    else ltb a b

module _ (h : Host) where
  unfoldable pub hash_obj : Json → String
  hash_obj j = h.sha256_hex (h.canonical_json j)

  or_value_error : Option ℕ → Result (Option ℕ)
  or_value_error none = err value_error
  or_value_error (some t) = ok (some t)

  -- A value that is no string, a number say, raises ValueError.
  unfoldable pub parse_instant : Json → Result (Option ℕ)
  unfolding or_value_error
  parse_instant null = ok none
  parse_instant (str value) =
      let text = h.strip value in
      if text == "" then err value_error else or_value_error (h.fromisoformat (h.replace_z text))
  parse_instant _ = err value_error

  -- int(value)
  unfoldable pub int_of : Json → Result ℤ
  int_of (num n) = ok (pos n)
  int_of (negative n) = ok (negsuc n)
  int_of (bool true) = ok (pos 1)
  int_of (bool false) = ok (pos 0)
  int_of (float b) = h.int_of_float b
  int_of (str s) = elim (h.int_of_text s) [ none ↦ err value_error | some n ↦ ok n ]
  int_of _ = err type_error
